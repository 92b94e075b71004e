-- ===== src/ServiceStore/Fail.antt =====
-- `Store.Fail`: a handler has failed, was cancelled, or was cut short by a shutdown.
use Prim.Native.String.{len, slice}
use dependecy_graph_auditor.Prelude.{
  ℕ, zero, String, str_eq, ◌&&◌, not, ◌==◌, ltb, none, some, if◌then◌else◌,
}
use dependecy_graph_auditor.Job.{
  Status, ErrorKind, Job, Error, is_retry_scheduled, is_dead_lettered,
}
use dependecy_graph_auditor.ServiceStore.Tables.{
  Row, AttemptStatus, EventType, EventDetails, DlqRow, Services, null_if_empty,
}
use dependecy_graph_auditor.ServiceStore.Transaction.{Tx, ◌>>=◌, ◌>>◌, fail_with, when}
use dependecy_graph_auditor.ServiceStore.Statements.{update_jobs, insert_event, insert_dlq}
use dependecy_graph_auditor.ServiceStore.Claim.{holds_lease}
use dependecy_graph_auditor.ServiceStore.Finalize.{finalize_root}
use dependecy_graph_auditor.ServiceStore.Complete.{is_own_attempt, update_attempts, released}

unfoldable pub bounded_error : String → String
bounded_error message = if ltb 2048 (len message) then slice message zero 2048 else message

unfoldable pub failure_status : Job → ErrorKind → Status
failure_status value ErrorKind.permanent = Status.failed
failure_status value ErrorKind.cancelled = Status.cancelled
failure_status value ErrorKind.transient =
    if ltb value.attempts value.max_attempts then Status.retry_scheduled else Status.dead_lettered

unfoldable pub failed_row : Status → ErrorKind → String → ℕ → ℕ → Row → Row
unfolding released
failed_row status kind message retry_at now r =
    record (released status (if is_retry_scheduled status then none else some now) r) {
      scheduled_at = if is_retry_scheduled status then retry_at else r.scheduled_at;
      last_error_kind = some kind;
      last_error = some message;
    }

-- The dead letter of a job whose row has just been released.
unfoldable pub dead_letter : Job → ErrorKind → String → ℕ → ℕ → DlqRow
dead_letter value kind message now id = record {
  id = id;
  job_id = value.id;
  job_type = value.job_type;
  payload = null_if_empty value.payload;
  attempts = value.attempts;
  error = message;
  error_kind = some kind;
  root_job_id = some value.root_job_id;
  parent_job_id = null_if_empty value.parent_job_id;
  dead_at = now;
  replayed_at = none;
  replayed_as_job_id = none;
}

-- The statements of `Fail` that follow the UPDATE of the job's row.
unfoldable pub record_failure : Services → Job → Status → ErrorKind → String → ℕ → Tx (Unit {0})
record_failure services value status kind message now = do
  update_attempts (is_own_attempt value) (λ a. record a {
    status = AttemptStatus.in_status status;
    finished_at = some now;
    error_kind = some kind;
    error = some message;
  })
  insert_event value.id (EventType.reached status) (some value.attempts) (some value.locked_by)
      (EventDetails.failure_details kind message) now
  when (is_dead_lettered status) (insert_dlq (dead_letter value kind message now))
  when (not (is_retry_scheduled status) && not (str_eq value.id value.root_job_id))
      (finalize_root services value.root_job_id now)

unfoldable pub fail : Services → Job → ErrorKind → String → ℕ → ℕ → Tx (Unit {0})
unfolding bounded_error
fail services value kind text retry_at now = do
  let message = bounded_error text
  let status = failure_status value kind
  affected ← update_jobs (holds_lease value) (failed_row status kind message retry_at now)
  if affected == 1
      then record_failure services value status kind message now
      else fail_with Error.lease_lost
