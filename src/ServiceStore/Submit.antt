-- ===== src/ServiceStore/Submit.antt =====
-- `Store.Submit` and `insertSubmission`: a job enters the table once for each idempotency key.
use dependecy_graph_auditor.Prelude.{
  ℕ, String, str_eq, Bool, true, false, none, some, if◌then◌else◌, find_where,
}
use dependecy_graph_auditor.Job.{Job, Submission, Error, default_max_attempts}
use dependecy_graph_auditor.ServiceStore.Tables.{
  Row, EventType, EventDetails, Services, coalesce, null_if_empty, column_is,
}
use dependecy_graph_auditor.ServiceStore.Transaction.{
  Tx, ◌>>=◌, ◌>>◌, done, fail_with, query, or_fail,
}
use dependecy_graph_auditor.ServiceStore.Statements.{
  scan_service_job, pending_row, is_castable, cast_json, insert_job, select_job, insert_event,
  new_job_id, attempts_or, submission_hash,
}

-- The row that `Submit` inserts.
unfoldable pub submitted_row : String → String → Submission → String → ℕ → Row
unfolding pending_row
submitted_row id root input hash now =
    record (pending_row id input.job_type input.payload input.max_attempts now root) {
      parent_job_id = null_if_empty input.parent_job_id;
      internal = input.internal;
      idempotency_key = null_if_empty input.idempotency_key;
      request_hash = some hash;
      retried_from_job_id = null_if_empty input.retried_from_job_id;
      replayed_from_job_id = null_if_empty input.replayed_from_job_id;
    }

-- The branch in which a job with the same idempotency key was there before.
unfoldable pub load_existing : String → String → Tx (Job × Bool)
load_existing key hash = do
  found ← query (λ db. find_where (λ r. column_is r.idempotency_key key) db.jobs)
  existing ← or_fail found Error.database
  if str_eq (coalesce existing.request_hash) hash
      then done (scan_service_job existing, false)
      else fail_with Error.idempotency_conflict

unfoldable pub record_submitted : String → ℕ → Tx (Job × Bool)
record_submitted id now = do
  insert_event id EventType.submitted none none EventDetails.empty now
  found ← select_job id
  created ← or_fail found Error.database
  done (scan_service_job created, true)

unfoldable pub submit : Services → Submission → ℕ → Tx (Job × Bool)
submit services submission now = do
  let input = record submission {
    max_attempts = attempts_or submission.max_attempts default_max_attempts;
  }
  id ← new_job_id services
  let root = if str_eq input.root_job_id "" then id else input.root_job_id
  let hash = submission_hash services input
  _ ← cast_json (is_castable services input.payload)
  created ← insert_job (submitted_row id root input hash now)
  if created then record_submitted id now else load_existing input.idempotency_key hash

-- The row that `insertSubmission` inserts: an absent key is stored as the empty text, not as NULL.
unfoldable pub child_row : String → Submission → String → ℕ → Row
unfolding pending_row
child_row id input hash now =
    record (pending_row id input.job_type input.payload input.max_attempts now input.root_job_id) {
      parent_job_id = some input.parent_job_id;
      internal = input.internal;
      idempotency_key = some input.idempotency_key;
      request_hash = some hash;
    }

unfoldable pub insert_submission : Services → Submission → ℕ → Tx (Unit {0})
insert_submission services submission now = do
  let input = record submission {
    max_attempts = attempts_or submission.max_attempts default_max_attempts;
  }
  id ← new_job_id services
  _ ← cast_json (is_castable services input.payload)
  _ ← insert_job (child_row id input (submission_hash services input) now)
  done tt
