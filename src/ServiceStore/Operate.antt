-- ===== src/ServiceStore/Operate.antt =====
-- What the API asks of the store for a job that is there: `Cancel` and `ReplayDLQ`.
use dependecy_graph_auditor.Prelude.{
  ℕ, String, str_eq, true, ◌&&◌, not, ◌==◌, Option, none, some, if◌then◌else◌, Bool, false,
  find_where, update_where,
}
use dependecy_graph_auditor.Job.{Status, Job, Error, is_running, default_max_attempts}
use dependecy_graph_auditor.ServiceStore.Tables.{
  Row, EventType, EventDetails, DlqRow, Db, Services, coalesce,
}
use dependecy_graph_auditor.ServiceStore.Transaction.{
  Tx, ◌>>=◌, ◌>>◌, done, fail_with, query, statement, or_fail, when,
}
use dependecy_graph_auditor.ServiceStore.Statements.{
  scan_service_job, has_id, pending_row, insert_job, select_job, update_jobs, insert_event,
  new_job_id, attempts_or,
}

-- The row that `Store.Get` puts first into the detail that it returns.
unfoldable pub get_job : String → Tx Row
get_job id = do found ← select_job id; or_fail found Error.not_found

abbrev pub first_of_two : Option ℕ → ℕ → Option ℕ
first_of_two none now = some now
first_of_two (some t) now = some t

unfoldable pub cancelled_row : ℕ → Row → Row
cancelled_row now r = record r {
  status = Status.cancelled;
  cancel_requested_at = some now;
  completed_at = some now;
}

unfoldable pub cancel_requested : ℕ → Row → Row
cancel_requested now r = record r { cancel_requested_at = first_of_two r.cancel_requested_at now }

-- status IN ('pending','retry_scheduled','waiting')
abbrev pub is_idle : Status → Bool
is_idle Status.pending = true
is_idle Status.retry_scheduled = true
is_idle Status.waiting = true
is_idle _ = false

-- The end of `Cancel` where it changed something.
unfoldable pub record_cancellation : String → Bool → ℕ → Tx Job
record_cancellation id cancelled_now now = do
  insert_event id EventType.cancellation_requested none none EventDetails.empty now
  when cancelled_now
      (insert_event id (EventType.reached Status.cancelled) none none EventDetails.empty now)
  found ← select_job id
  row ← or_fail found Error.database
  done (scan_service_job row)

-- The switch of `Cancel` on the status of the row that it has locked.
unfoldable pub cancel_in : Status → Row → ℕ → Tx Job
cancel_in Status.pending r now = do
  _ ← update_jobs (has_id r.id) (cancelled_row now)
  record_cancellation r.id true now
cancel_in Status.retry_scheduled r now = do
  _ ← update_jobs (has_id r.id) (cancelled_row now)
  record_cancellation r.id true now
cancel_in Status.running r now = do
  _ ← update_jobs (has_id r.id) (cancel_requested now)
  record_cancellation r.id false now
cancel_in Status.waiting r now = do
  _ ← update_jobs (λ s. str_eq s.root_job_id r.root_job_id && is_idle s.status) (cancelled_row now)
  _ ←
      update_jobs (λ s. str_eq s.root_job_id r.root_job_id && is_running s.status)
        (cancel_requested now)
  record_cancellation r.id true now
cancel_in Status.cancelled r now = done (scan_service_job r)
cancel_in Status.completed r now = fail_with Error.conflict
cancel_in Status.failed r now = fail_with Error.conflict
cancel_in Status.dead_lettered r now = fail_with Error.conflict

unfoldable pub cancel : String → ℕ → Tx Job
cancel id now = do row ← get_job id; cancel_in row.status row now

-- dlq d JOIN jobs j ON j.id=d.job_id WHERE d.id=$1 AND j.internal=FALSE
abbrev pub is_public : Option Row → Bool
is_public none = false
is_public (some r) = not r.internal

unfoldable pub public_entry : ℕ → Db → Option DlqRow
public_entry entry db =
    find_where (λ d. d.id == entry && is_public (find_where (has_id d.job_id) db.jobs)) db.dlq

unfoldable pub replay_row : String → DlqRow → ℕ → ℕ → Row
unfolding pending_row
replay_row id source max_attempts now =
    record (pending_row id source.job_type (coalesce source.payload) max_attempts now id) {
      replayed_from_job_id = some source.job_id;
    }

unfoldable pub mark_replayed : ℕ → String → ℕ → Tx (Unit {0})
unfolding statement
mark_replayed entry id now = statement λ db. record db {
  dlq =
      update_where (λ (d : DlqRow). d.id == entry)
        (λ d. record d { replayed_at = some now; replayed_as_job_id = some id }) db.dlq;
}

-- The statements of `ReplayDLQ` once it has found an entry that was not replayed.
unfoldable pub replay : Services → DlqRow → ℕ → ℕ → Tx Job
replay services source max_attempts now = do
  id ← new_job_id services
  _ ← insert_job (replay_row id source (attempts_or max_attempts default_max_attempts) now)
  mark_replayed source.id id now
  insert_event id EventType.submitted none none EventDetails.empty now
  insert_event id EventType.replayed none none (EventDetails.source_details source.job_id) now
  found ← select_job id
  row ← or_fail found Error.database
  done (scan_service_job row)

unfoldable pub replay_dlq : Services → ℕ → ℕ → ℕ → Tx Job
replay_dlq services entry max_attempts now = do
  found ← query (public_entry entry)
  source ← or_fail found Error.not_found
  if str_eq (coalesce source.replayed_as_job_id) ""
      then replay services source max_attempts now
      else fail_with Error.conflict
