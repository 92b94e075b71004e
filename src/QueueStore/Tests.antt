-- ===== src/QueueStore/Tests.antt =====
-- The theorems about the single-process store, at a table of two jobs that are due.
use dependecy_graph_auditor.Prelude.{
  String, str_eq, Bool, ◌+◌, ◌≡◌, ◌≢◌, refl, ◌⊎◌, true, false, none, some, [], ◌∷◌, select_where,
  count_where, All, Memᴰ,
}
use dependecy_graph_auditor.Job.{Status, Job, is_pending, is_running}
use dependecy_graph_auditor.ServiceStore.Tables.{Row, Db, empty_db}
use dependecy_graph_auditor.ServiceStore.Transaction.{Result, ◌>>=◌, done, query, proceed, after}
use dependecy_graph_auditor.ServiceStore.Statements.{pending_row, update_jobs}
use dependecy_graph_auditor.ServiceStore.Claim.{first_claimable, pick, claim_before}
use dependecy_graph_auditor.ServiceStore.Choice.{NoLater}
use dependecy_graph_auditor.ServiceStore.Samples.{sample_services, unlocked}
use dependecy_graph_auditor.ServiceStore.Runs.{given, given_job}
use dependecy_graph_auditor.QueueStore.Operations.{
  scan_job, with_status, is_due, acquire_row, acquire_job, reclaim_stuck_jobs,
}
use dependecy_graph_auditor.QueueStore.Acquiring.{
  with_running, acquire_job-takes_first, acquire_job-acquire_job,
}
use dependecy_graph_auditor.QueueStore.Contract.{reclaim_stuck_jobs-leaves_none}

abbrev queued_db : Db
queued_db = record empty_db {
  jobs = pending_row "a" "t" "" 5 2 "a" ∷ pending_row "b" "t" "" 5 1 "b" ∷ [];
}

abbrev first_db : Db
first_db = after (acquire_job sample_services unlocked 3) queued_db

abbrev first_job : Job
first_job = given_job (given none (acquire_job sample_services unlocked 3 queued_db))

abbrev second_db : Db
second_db = after (acquire_job sample_services unlocked 4) first_db

abbrev second_job : Job
second_job = given_job (given none (acquire_job sample_services unlocked 4 first_db))

first_ok : acquire_job sample_services unlocked 3 queued_db ≡ Result.ok (some first_job, first_db)
unfolding acquire_job acquire_row is_due first_claimable pick claim_before update_jobs pending_row
    done query proceed ◌>>=◌ after
first_ok = refl

second_ok : acquire_job sample_services unlocked 4 first_db ≡ Result.ok (some second_job, second_db)
unfolding acquire_job acquire_row is_due first_claimable pick claim_before update_jobs pending_row
    done query proceed ◌>>=◌ after
second_ok = refl

acquire_job-acquire_job_example : second_job.id ≢ first_job.id
acquire_job-acquire_job_example =
    acquire_job-acquire_job sample_services unlocked unlocked 3 4 queued_db first_db second_db
      first_job second_job first_ok second_ok

acquire_job-takes_first_example :
    ((select_where (is_due unlocked 3) queued_db.jobs ≡ [])
      × (acquire_job sample_services unlocked 3 queued_db ≡ Result.ok (none, queued_db)))
    ⊎ ((r : Row) × Memᴰ r queued_db.jobs
        × (is_due unlocked 3 r ≡ true)
        × All (NoLater r) (select_where (is_due unlocked 3) queued_db.jobs)
        × (acquire_job sample_services unlocked 3 queued_db
            ≡ Result.ok (some (scan_job (with_status Status.running r)), with_running r queued_db)))
acquire_job-takes_first_example = acquire_job-takes_first sample_services unlocked 3 queued_db

reclaim_stuck_jobs-leaves_none_example :
    (db' : Db) × (reclaim_stuck_jobs first_db
      ≡ Result.ok (count_where (λ r. is_running r.status) first_db.jobs, db'))
    × All (λ r. is_running r.status ≡ false) db'.jobs
    × (count_where (λ r. is_pending r.status) db'.jobs
        ≡ count_where (λ r. is_pending r.status) first_db.jobs
          + count_where (λ r. is_running r.status) first_db.jobs)
reclaim_stuck_jobs-leaves_none_example = reclaim_stuck_jobs-leaves_none first_db

-- No text but this one is JSON.
abbrev only_braces : String → Bool
only_braces text = str_eq text "{}"
