-- ===== src/ServiceStore/Finalize.antt =====
-- `finalizeRoot`: the last child to end settles the job that waits for it.
use dependecy_graph_auditor.Prelude.{
  ℕ, String, str_eq, Bool, true, false, ◌&&◌, not, ◌==◌, ltb, Option, none, some, List, [], ◌∷◌,
  ◌++◌, is_some, if◌then◌else◌, find_where, count_where,
}
use dependecy_graph_auditor.Job.{
  Status, ErrorKind, Error, is_waiting, is_completed, is_dead_lettered,
}
use dependecy_graph_auditor.ServiceStore.Tables.{
  Row, ResultRow, AuditResultRow, EventType, EventDetails, DlqRow, Db, Services,
}
use dependecy_graph_auditor.ServiceStore.Transaction.{
  Tx, ◌>>=◌, ◌>>◌, query, statement, or_fail, when,
}
use dependecy_graph_auditor.ServiceStore.Statements.{
  has_id, select_job, update_jobs, insert_event, insert_dlq,
}

-- status IN ('pending','running','retry_scheduled','waiting')
abbrev pub is_active : Status → Bool
is_active Status.pending = true
is_active Status.running = true
is_active Status.retry_scheduled = true
is_active Status.waiting = true
is_active _ = false

-- status IN ('failed','dead_lettered','cancelled')
abbrev pub is_unsuccessful : Status → Bool
is_unsuccessful Status.failed = true
is_unsuccessful Status.dead_lettered = true
is_unsuccessful Status.cancelled = true
is_unsuccessful _ = false

-- root_job_id=$1 AND id<>$1
abbrev pub is_child : String → Row → Bool
is_child root r = str_eq r.root_job_id root && not (str_eq r.id root)

unfoldable pub active_children : String → List Row → ℕ
active_children root = count_where (λ r. is_child root r && is_active r.status)

unfoldable pub failed_children : String → List Row → ℕ
failed_children root = count_where (λ r. is_child root r && is_unsuccessful r.status)

unfoldable pub dead_children : String → List Row → ℕ
dead_children root = count_where (λ r. is_child root r && is_dead_lettered r.status)

unfoldable pub root_status : ℕ → ℕ → Status
root_status failed dead =
    if ltb 0 dead
    then Status.dead_lettered
    else if ltb 0 failed
    then Status.failed
    else Status.completed

abbrev pub root_error_kind : Status → Option ErrorKind
root_error_kind Status.dead_lettered = some ErrorKind.transient
root_error_kind Status.failed = some ErrorKind.permanent
root_error_kind _ = none

unfoldable pub settled : Status → String → ℕ → Row → Row
settled status message now r = record r {
  status = status;
  completed_at = some now;
  last_error = if is_completed status then none else some message;
  last_error_kind = root_error_kind status;
}

abbrev pub is_update_scan : String → Bool
is_update_scan job_type = str_eq job_type "dependency_update_scan"

abbrev pub failure_message : String → String
failure_message job_type =
    if is_update_scan job_type
    then "one or more update checks failed"
    else "one or more audit tasks failed"

abbrev pub exhausted_message : String → String
exhausted_message job_type =
    if is_update_scan job_type
    then "one or more update checks exhausted retries"
    else "one or more audit tasks exhausted retries"

-- `INSERT INTO job_results … ON CONFLICT (job_id) DO NOTHING`.
unfoldable pub insert_result : String → String → Tx (Unit {0})
unfolding statement
insert_result id result = statement λ db. record db {
  results =
      if is_some (find_where (λ (r : ResultRow). str_eq r.job_id id) db.results)
      then db.results
      else db.results ++ record { job_id = id; result = result } ∷ [];
}

unfoldable pub audit_summary_of : Services → String → ℕ → Db → String
audit_summary_of services root failed db =
    services.audit_summary root
      (count_where (λ (a : AuditResultRow). str_eq a.root_job_id root) db.audit_results)
      (count_where
        (λ (a : AuditResultRow). str_eq a.root_job_id root && str_eq a.verdict "policy_violation")
        db.audit_results)
      failed

-- The entry that a dead-lettered root gets: INSERT … SELECT … FROM jobs.
unfoldable pub root_entry : Row → String → ℕ → ℕ → DlqRow
root_entry r message now id = record {
  id = id;
  job_id = r.id;
  job_type = r.job_type;
  payload = r.payload;
  attempts = r.attempts;
  error = message;
  error_kind = some ErrorKind.transient;
  root_job_id = some r.root_job_id;
  parent_job_id = none;
  dead_at = now;
  replayed_at = none;
  replayed_as_job_id = none;
}

-- The statements after the UPDATE, for a root whose row it changed.
unfoldable pub conclude_root : Row → Status → String → ℕ → Tx (Unit {0})
conclude_root root status summary now = do
  when (is_completed status && not (is_update_scan root.job_type)) (insert_result root.id summary)
  when (is_dead_lettered status)
      (insert_dlq (root_entry root (exhausted_message root.job_type) now))
  insert_event root.id (EventType.reached status) none none EventDetails.empty now

-- The part of `finalizeRoot` that runs once no child is active.
unfoldable pub settle_root : Services → Row → ℕ → Tx (Unit {0})
settle_root services root now = do
  failed ← query (λ db. failed_children root.id db.jobs)
  dead ← query (λ db. dead_children root.id db.jobs)
  let status = root_status failed dead
  summary ← query (audit_summary_of services root.id failed)
  affected ←
      update_jobs (λ r. has_id root.id r && is_waiting r.status)
        (settled status (failure_message root.job_type) now)
  when (not (affected == 0)) (conclude_root root status summary now)

unfoldable pub finalize_root : Services → String → ℕ → Tx (Unit {0})
finalize_root services root_id now = do
  found ← select_job root_id
  root ← or_fail found Error.database
  active ← query (λ db. active_children root_id db.jobs)
  when (active == 0) (settle_root services root now)
