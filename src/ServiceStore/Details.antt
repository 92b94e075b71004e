-- ===== src/ServiceStore/Details.antt =====
-- What `Store.Get` shows of a job and of its children.
use dependecy_graph_auditor.Prelude.{
  ◌≡◌, refl, sym, ap, ◌∙◌, String, eq_iff, Option, none, some, List, find_where, Memᴰ-find_where,
  Option-cases, inl, inr, true, subst₂,
}
use dependecy_graph_auditor.Job.{UpdateResult, Error}
use dependecy_graph_auditor.ServiceStore.Tables.{Row, Db, Services}
use dependecy_graph_auditor.ServiceStore.Transaction.{
  Result, ok-injective, ◌>>=◌, proceed, query, or_fail, done, fail_with,
}
use dependecy_graph_auditor.ServiceStore.Statements.{scan_service_job, has_id, select_job}
use dependecy_graph_auditor.ServiceStore.Finalize.{is_child, is_active, active_children}
use dependecy_graph_auditor.ServiceStore.Operate.{get_job}
use dependecy_graph_auditor.ServiceStore.Listing.{all_statuses, count_groups}
use dependecy_graph_auditor.ServiceStore.Counting.{total_of, total_of-groups}
use dependecy_graph_auditor.ServiceStore.Detail.{
  Detail, attempts_of, events_of, result_of, audit_results_of, relationships_of, update_results_of,
  get,
}

-- What `get` answers for a job that is there.
unfoldable pub shown : Services → String → Db → Row → List UpdateResult → Detail
shown services id db row updates = record {
  job = scan_service_job row;
  attempts = attempts_of id db.attempts;
  events = events_of id db.events;
  result = result_of id db.results;
  child_counts = count_groups (is_child row.root_job_id) db.jobs all_statuses;
  update_results = updates;
  audit_results = audit_results_of services row.root_job_id db.audit_results;
  audit_relationships = relationships_of services row.root_job_id db.relationships;
}

module _ (services : Services) (decode : String → Option UpdateResult) (id : String) (db : Db) where
  pub missing :
      find_where (has_id id) db.jobs ≡ none → get services decode id db ≡ Result.err Error.not_found
  unfolding get get_job select_job query or_fail proceed fail_with ◌>>=◌
  missing e = rw e refl

  pub undecoded :
      (row : Row)
      → find_where (has_id id) db.jobs ≡ some row
      → update_results_of services decode row db ≡ none
      → get services decode id db ≡ Result.err Error.unparsed
  unfolding get get_job select_job query or_fail proceed fail_with ◌>>=◌ done
  undecoded row e k = rw (e, k) refl

  pub found_detail :
      (row : Row) (updates : List UpdateResult)
      → find_where (has_id id) db.jobs ≡ some row
      → update_results_of services decode row db ≡ some updates
      → get services decode id db ≡ Result.ok (shown services id db row updates, db)
  unfolding get get_job select_job query or_fail proceed fail_with ◌>>=◌ done shown
  found_detail row updates e k = rw (e, k) refl

-- The detail that `get` answers for an id is that of the job with this id, it leaves the tables as
-- they are, and among the children that it counts by status those in an active one are as many as
-- those for which `finalizeRoot` waits.
pub get-active_children :
    (services : Services) (decode : String → Option UpdateResult) (id : String) (db db' : Db)
    (detail : Detail)
    → get services decode id db ≡ Result.ok (detail, db')
    → (detail.job.id ≡ id)
      × (db' ≡ db)
      × (total_of is_active detail.child_counts ≡ active_children detail.job.root_job_id db.jobs)
unfolding shown scan_service_job active_children
get-active_children services decode id db db' detail e =
    elim (Option-cases (find_where (has_id id) db.jobs)) [
      | inl absent ↦ cc (missing services decode id db absent, e)
      | inr (row, found) ↦ elim (Option-cases (update_results_of services decode row db)) [
        | inl bad ↦ cc (undecoded services decode id db row found bad, e)
        | inr (updates, good) ↦
            let answer = found_detail services decode id db row updates found good in
            let same = ok-injective _ _ (sym answer ∙ e) in
            shown_holds row updates (Memᴰ-find_where (has_id id) db.jobs row found).1
              (ap (λ r. r.0) same) (ap (λ r. r.1) same)
      ]
    ]
  where
    Claim : Detail → Db → Type 0
    Claim d t =
        (d.job.id ≡ id)
        × (t ≡ db)
        × (total_of is_active d.child_counts ≡ active_children d.job.root_job_id db.jobs)

    shown_holds :
        (row : Row) (updates : List UpdateResult)
        → has_id id row ≡ true
        → shown services id db row updates ≡ detail
        → db ≡ db'
        → Claim detail db'
    shown_holds row updates hit same kept = subst₂ Claim same kept (
      (eq_iff row.id id).0 hit,
      refl,
      total_of-groups is_active (is_child row.root_job_id) db.jobs,
    )
