-- ===== src/ServiceStore/DetailTests.antt =====
-- The theorems about `Store.Get`, at a root with one child.
use dependecy_graph_auditor.Prelude.{
  ◌≡◌, refl, String, Option, none, some, [], ◌∷◌, ◌⊎◌, find_where,
}
use dependecy_graph_auditor.Job.{UpdateResult, Error}
use dependecy_graph_auditor.ServiceStore.Tables.{Row, Db, empty_db}
use dependecy_graph_auditor.ServiceStore.Transaction.{
  Result, ◌>>=◌, done, query, or_fail, proceed, fail_with,
}
use dependecy_graph_auditor.ServiceStore.Statements.{
  scan_service_job, has_id, pending_row, select_job,
}
use dependecy_graph_auditor.ServiceStore.Finalize.{is_active, active_children}
use dependecy_graph_auditor.ServiceStore.Operate.{get_job}
use dependecy_graph_auditor.ServiceStore.Counting.{total_of}
use dependecy_graph_auditor.ServiceStore.Detail.{
  Detail, update_results_of, is_update_check, with_results, decode_updates, get,
}
use dependecy_graph_auditor.ServiceStore.Details.{get-active_children}
use dependecy_graph_auditor.ServiceStore.Undecoded.{HasUndecoded, get-errors}
use dependecy_graph_auditor.ServiceStore.Samples.{sample_services}
use dependecy_graph_auditor.ServiceStore.Runs.{given}

abbrev family_db : Db
family_db = record empty_db {
  jobs = pending_row "a" "t" "" 5 1 "a" ∷ pending_row "b" "t" "" 5 2 "a" ∷ [];
}

abbrev no_update : String → Option UpdateResult
no_update text = none

abbrev blank_detail : Detail
blank_detail = record {
  job = scan_service_job (pending_row "" "" "" 0 0 "");
  attempts = [];
  events = [];
  result = none;
  child_counts = [];
  update_results = [];
  audit_results = [];
  audit_relationships = [];
}

abbrev root_detail : Detail
root_detail = given blank_detail (get sample_services no_update "a" family_db)

root_detail-found : get sample_services no_update "a" family_db ≡ Result.ok (root_detail, family_db)
unfolding get get_job select_job or_fail query done proceed fail_with ◌>>=◌ update_results_of
    is_update_check with_results decode_updates pending_row
root_detail-found = refl

get-active_children_example :
    (root_detail.job.id ≡ "a")
    × (family_db ≡ family_db)
    × (total_of is_active root_detail.child_counts
        ≡ active_children root_detail.job.root_job_id family_db.jobs)
get-active_children_example =
    get-active_children sample_services no_update "a" family_db family_db root_detail
      root_detail-found

get-errors_example :
    ((find_where (has_id "z") family_db.jobs ≡ none)
      × (get sample_services no_update "z" family_db ≡ Result.err Error.not_found))
    ⊎ ((row : Row) × (find_where (has_id "z") family_db.jobs ≡ some row)
        × ((HasUndecoded no_update row family_db
              × (get sample_services no_update "z" family_db ≡ Result.err Error.unparsed))
            ⊎ ((¬ HasUndecoded no_update row family_db)
                × ((detail : Detail) × (get sample_services no_update "z" family_db
                      ≡ Result.ok (detail, family_db))
                    × (detail.job ≡ scan_service_job row)))))
get-errors_example = get-errors sample_services no_update "z" family_db
