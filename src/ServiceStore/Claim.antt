-- ===== src/ServiceStore/Claim.antt =====
-- `Store.Claim` and `Store.Heartbeat`: how a worker comes by a job, and keeps it.
use dependecy_graph_auditor.Prelude.{
  ℕ, ◌+◌, String, str_eq, Bool, true, false, ◌&&◌, not, ◌==◌, ltb, leb, Option, none, some, List,
  [], ◌∷◌, ◌++◌, is_some, if◌then◌else◌, find_where, select_where,
}
use dependecy_graph_auditor.Job.{Status, Job, Error, is_running}
use dependecy_graph_auditor.ServiceStore.Tables.{
  Row, AttemptStatus, EventType, EventDetails, Services, column_is,
}
use dependecy_graph_auditor.ServiceStore.Transaction.{Result, Tx, ◌>>=◌, ◌>>◌, done, query, or_fail}
use dependecy_graph_auditor.ServiceStore.Statements.{
  scan_service_job, has_id, select_job, update_jobs, insert_event, new_job_id,
}

abbrev pub is_claimable : Status → Bool
is_claimable Status.pending = true
is_claimable Status.retry_scheduled = true
is_claimable _ = false

-- The WHERE clause of the inner SELECT; `locked` tells which rows another transaction holds, which
-- SKIP LOCKED passes over.
unfoldable pub eligible : (String → Bool) → ℕ → Row → Bool
eligible locked now r = is_claimable r.status && leb r.scheduled_at now && not (locked r.id)

-- ORDER BY scheduled_at, created_at, id.
unfoldable pub claim_before : Services → Row → Row → Bool
claim_before services a b =
    if ltb a.scheduled_at b.scheduled_at
    then true
    else if ltb b.scheduled_at a.scheduled_at
    then false
    else if ltb a.created_at b.created_at
    then true
    else if ltb b.created_at a.created_at
    then false
    else services.text_lt a.id b.id

unfoldable pub pick : Services → Row → Option Row → Row
pick services r none = r
pick services r (some s) = if claim_before services s r then s else r

-- LIMIT 1: the first row in that order.
unfoldable pub first_claimable : Services → List Row → Option Row
unfolding pick
first_claimable services [] = none
first_claimable services (r ∷ rows) = some (pick services r (first_claimable services rows))

unfoldable pub claimed : String → String → ℕ → ℕ → Row → Row
claimed worker token lease now r = record r {
  status = Status.running;
  attempts = r.attempts + 1;
  started_at = if is_some r.started_at then r.started_at else some now;
  locked_by = some worker;
  lease_token = some token;
  locked_until = some (now + lease);
  heartbeat_at = some now;
}

-- UNIQUE (job_id, attempt) makes a second row for the same attempt an error.
unfoldable pub insert_attempt : String → ℕ → String → String → ℕ → Tx (Unit {0})
insert_attempt id attempt worker token now db =
    if is_some (find_where (λ a. str_eq a.job_id id && a.attempt == attempt) db.attempts)
    then Result.err Error.database
    else Result.ok (
      tt,
      record db {
        attempts =
            db.attempts
            ++ record {
              job_id = id;
              attempt = attempt;
              worker_id = worker;
              lease_token = token;
              status = AttemptStatus.in_status Status.running;
              started_at = now;
              finished_at = none;
              error_kind = none;
              error = none;
            }
              ∷ [];
      },
    )

-- The statements of `Claim` after its UPDATE, which returns the row.
unfoldable pub record_start : Row → String → String → ℕ → Tx (Option Job)
record_start row worker token now = do
  let value = scan_service_job row
  insert_attempt value.id value.attempts worker token now
  insert_event value.id EventType.started (some value.attempts) (some worker) EventDetails.empty now
  done (some value)

-- The UPDATE of `Claim` for the row that its SELECT has found.
unfoldable pub take : Row → String → String → ℕ → ℕ → Tx (Option Job)
take next worker token lease now = do
  _ ← update_jobs (has_id next.id) (claimed worker token lease now)
  found ← select_job next.id
  row ← or_fail found Error.database
  record_start row worker token now

unfoldable pub take_next : Option Row → String → String → ℕ → ℕ → Tx (Option Job)
unfolding done
take_next none worker token lease now = done none
take_next (some next) worker token lease now = take next worker token lease now

unfoldable pub claim : Services → (String → Bool) → String → ℕ → ℕ → Tx (Option Job)
claim services locked worker lease now = do
  token ← new_job_id services
  next ← query (λ db. first_claimable services (select_where (eligible locked now) db.jobs))
  take_next next worker token lease now

-- The WHERE clause by which a worker proves that the job is still leased to it.
unfoldable pub holds_lease : Job → Row → Bool
holds_lease value r =
    str_eq r.id value.id
    && is_running r.status
    && column_is r.locked_by value.locked_by
    && column_is r.lease_token value.lease_token

unfoldable pub extended : ℕ → ℕ → Row → Row
extended lease now r = record r { locked_until = some (now + lease); heartbeat_at = some now }

unfoldable pub heartbeat : Job → ℕ → ℕ → Tx Bool
heartbeat value lease now = do
  affected ←
      update_jobs (λ r. holds_lease value r && not (is_some r.cancel_requested_at))
        (extended lease now)
  done (affected == 1)
