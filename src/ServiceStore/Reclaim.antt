-- ===== src/ServiceStore/Reclaim.antt =====
-- `Store.ReclaimExpired`: jobs whose worker stopped renewing the lease go back to the queue.
use dependecy_graph_auditor.Prelude.{
  ℕ, String, str_eq, Bool, false, ◌&&◌, ◌||◌, not, ◌==◌, ltb, leb, Option, none, some, List, [],
  ◌∷◌, is_some, if◌then◌else◌, select_where, map, length,
}
use dependecy_graph_auditor.Job.{Status, ErrorKind, Job, is_running, is_cancelled, is_dead_lettered}
use dependecy_graph_auditor.ServiceStore.Tables.{
  Row, AttemptRow, AttemptStatus, EventType, EventDetails, Services,
}
use dependecy_graph_auditor.ServiceStore.Transaction.{Tx, ◌>>=◌, ◌>>◌, done, query, when}
use dependecy_graph_auditor.ServiceStore.Statements.{
  scan_service_job, has_id, update_jobs, insert_event, insert_dlq,
}
use dependecy_graph_auditor.ServiceStore.Finalize.{finalize_root}
use dependecy_graph_auditor.ServiceStore.Complete.{update_attempts, released}
use dependecy_graph_auditor.ServiceStore.Fail.{dead_letter}

abbrev pub lease_expired_message : String
lease_expired_message = "worker lease expired"

-- locked_until<NOW(), which NULL does not satisfy.
abbrev pub is_past : Option ℕ → ℕ → Bool
is_past none now = false
is_past (some t) now = ltb t now

-- The WHERE clause of the SELECT; `locked` as in `Claim`.
unfoldable pub is_expired : (String → Bool) → ℕ → Row → Bool
is_expired locked now r = is_running r.status && is_past r.locked_until now && not (locked r.id)

unfoldable pub reclaim_status : Job → Status
reclaim_status value =
    if is_some value.cancel_requested_at
    then Status.cancelled
    else if leb value.max_attempts value.attempts
    then Status.dead_lettered
    else Status.pending

unfoldable pub reclaimed : Status → ℕ → Row → Row
unfolding released
reclaimed status now r =
    record (released status
      (if is_cancelled status || is_dead_lettered status then some now else none) r) {
        last_error_kind = some ErrorKind.transient;
        last_error = some lease_expired_message;
      }

abbrev is_attempt_of : Job → AttemptRow → Bool
is_attempt_of value a = str_eq a.job_id value.id && a.attempt == value.attempts

-- The body of the loop over the expired jobs.
unfoldable pub reclaim_one : Services → Job → ℕ → Tx (Unit {0})
reclaim_one services value now = do
  let status = reclaim_status value
  _ ← update_jobs (has_id value.id) (reclaimed status now)
  update_attempts (is_attempt_of value) (λ a. record a {
    status = AttemptStatus.abandoned;
    finished_at = some now;
    error_kind = some ErrorKind.transient;
    error = some lease_expired_message;
  })
  insert_event value.id EventType.lease_expired (some value.attempts) (some value.locked_by)
      EventDetails.empty now
  when (is_dead_lettered status)
      (insert_dlq (dead_letter value ErrorKind.transient lease_expired_message now))
  when ((is_cancelled status || is_dead_lettered status) && not (str_eq value.id value.root_job_id))
      (finalize_root services value.root_job_id now)

unfoldable pub reclaim_all : Services → List Job → ℕ → Tx (Unit {0})
unfolding done
reclaim_all services [] now = done tt
reclaim_all services (value ∷ rest) now = do
  reclaim_one services value now
  reclaim_all services rest now

unfoldable pub reclaim_expired : Services → (String → Bool) → ℕ → Tx ℕ
reclaim_expired services locked now = do
  expired ← query (λ db. map scan_service_job (select_where (is_expired locked now) db.jobs))
  reclaim_all services expired now
  done (length expired)
