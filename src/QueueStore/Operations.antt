-- ===== src/QueueStore/Operations.antt =====
-- The operations of internal/store/postgres/postgres.go, as transactions over the tables.
use dependecy_graph_auditor.Prelude.{
  ℕ, String, Bool, false, ◌&&◌, not, ◌==◌, leb, Option, none, some, List, [], ◌∷◌, ◌++◌, map,
  is_some, if◌then◌else◌, find_where, select_where, ordered,
}
use dependecy_graph_auditor.Job.{Status, Job, Error, is_pending, is_running, default_max_attempts}
use dependecy_graph_auditor.ServiceStore.Tables.{Row, DlqRow, Services, coalesce, null_if_empty}
use dependecy_graph_auditor.ServiceStore.Transaction.{
  Result, Tx, ◌>>=◌, ◌>>◌, done, fail_with, query,
}
use dependecy_graph_auditor.ServiceStore.Statements.{
  has_id, pending_row, update_jobs, insert_dlq, attempts_or,
}
use dependecy_graph_auditor.ServiceStore.Claim.{first_claimable}
use dependecy_graph_auditor.ServiceStore.Complete.{first_non_empty}

-- The zero time stands for now.
abbrev pub scheduled_or : ℕ → ℕ → ℕ
scheduled_or t now = if t == 0 then now else t

unfoldable pub created_row : Job → ℕ → Row
created_row j now =
    record (pending_row j.id j.job_type j.payload (attempts_or j.max_attempts default_max_attempts)
      now (first_non_empty j.root_job_id j.id)) {
        attempts = j.attempts;
        scheduled_at = scheduled_or j.scheduled_at now;
        parent_job_id = null_if_empty j.parent_job_id;
        internal = j.internal;
      }

-- The cast ::jsonb of a payload, where `is_json` is the database's reading of JSON: an empty one is NULL, and one that is not JSON is an error.
unfoldable pub cast_payload : (String → Bool) → Option String → Tx (Unit {0})
cast_payload is_json none = done tt
cast_payload is_json (some text) = if is_json text then done tt else fail_with Error.database

-- INSERT … ON CONFLICT (id) DO NOTHING, which affects no row where the id is taken.
unfoldable pub insert_created : Row → Tx (Unit {0})
insert_created r db =
    if is_some (find_where (has_id r.id) db.jobs)
    then Result.err Error.job_exists
    else Result.ok (tt, record db { jobs = db.jobs ++ r ∷ [] })

unfoldable pub create_job : (String → Bool) → Job → ℕ → Tx (Unit {0})
unfolding created_row insert_created cast_payload
create_job is_json j now = do
  cast_payload is_json (null_if_empty j.payload)
  insert_created (created_row j now)

-- The columns that `scanJob` reads; the other fields keep their zero values.
unfoldable pub scan_job : Row → Job
scan_job r = record {
  id = r.id;
  job_type = r.job_type;
  payload = coalesce r.payload;
  status = r.status;
  attempts = r.attempts;
  max_attempts = r.max_attempts;
  scheduled_at = r.scheduled_at;
  root_job_id = "";
  parent_job_id = "";
  internal = false;
  idempotency_key = "";
  request_hash = "";
  locked_by = "";
  lease_token = "";
  locked_until = none;
  heartbeat_at = none;
  cancel_requested_at = none;
  last_error_kind = none;
  last_error = "";
  created_at = 0;
  started_at = none;
  completed_at = none;
  retried_from_job_id = "";
  replayed_from_job_id = "";
}

abbrev pub with_status : Status → Row → Row
with_status status r = record r { status = status }

-- The WHERE clause of the inner SELECT; SKIP LOCKED passes over the rows that others hold.
unfoldable pub is_due : (String → Bool) → ℕ → Row → Bool
is_due locked now r = is_pending r.status && leb r.scheduled_at now && not (locked r.id)

-- UPDATE … FROM next_job … RETURNING.
unfoldable pub acquire_row : Option Row → Tx (Option Job)
unfolding done scan_job
acquire_row none = done none
acquire_row (some next) = update_jobs (has_id next.id) (with_status Status.running) >>= λ _.
    done (some (scan_job (with_status Status.running next)))

-- ORDER BY scheduled_at, created_at; rows that agree on both come in any order, here by their ids.
unfoldable pub acquire_job : Services → (String → Bool) → ℕ → Tx (Option Job)
unfolding acquire_row
acquire_job services locked now = do
  next ← query (λ db. first_claimable services (select_where (is_due locked now) db.jobs))
  acquire_row next

-- An UPDATE that finds no row is an error.
unfoldable pub affect : ℕ → Tx (Unit {0})
unfolding done fail_with
affect affected = if affected == 0 then fail_with Error.no_row else done tt

unfoldable pub update_status : String → Status → Tx (Unit {0})
unfolding affect
update_status id status = do
  affected ← update_jobs (has_id id) (with_status status)
  affect affected

unfoldable pub complete_job : String → Tx (Unit {0})
unfolding update_status
complete_job id = update_status id Status.completed

unfoldable pub retried_row : Job → Row → Row
retried_row j r = record r {
  status = Status.pending;
  attempts = j.attempts;
  scheduled_at = j.scheduled_at;
}

unfoldable pub retry_job : Job → Tx (Unit {0})
unfolding affect retried_row
retry_job j = do affected ← update_jobs (has_id j.id) (retried_row j); affect affected

unfoldable pub dead_row : Job → Row → Row
dead_row j r = record r { status = Status.dead_lettered; attempts = j.attempts }

-- The entry names five columns; the others are NULL.
unfoldable pub dead_entry : Job → String → ℕ → ℕ → DlqRow
dead_entry j message now id = record {
  id = id;
  job_id = j.id;
  job_type = j.job_type;
  payload = null_if_empty j.payload;
  attempts = j.attempts;
  error = message;
  error_kind = none;
  root_job_id = none;
  parent_job_id = none;
  dead_at = now;
  replayed_at = none;
  replayed_as_job_id = none;
}

-- The error's text is empty for a nil error.
unfoldable pub dead_letter_job : (String → Bool) → Job → String → ℕ → Tx (Unit {0})
unfolding affect dead_row dead_entry cast_payload
dead_letter_job is_json j message now = do
  affected ← update_jobs (has_id j.id) (dead_row j)
  affect affected
  cast_payload is_json (null_if_empty j.payload)
  insert_dlq (dead_entry j message now)

unfoldable pub reclaim_stuck_jobs : Tx ℕ
reclaim_stuck_jobs = update_jobs (λ r. is_running r.status) (with_status Status.pending)

pub record DeadJob : Type 0 where
  pub job_id : String
  pub job_type : String
  pub payload : String
  pub attempts : ℕ
  pub status : Status
  pub error : String
  pub dead_at : ℕ

-- ORDER BY dead_at, id: entries of the same time stay in the order of their ids, which is that of
-- the table.
unfoldable pub dlq_entries : Tx (List DeadJob)
dlq_entries = query λ db.
    map
      (λ r. record {
        job_id = r.job_id;
        job_type = r.job_type;
        payload = coalesce r.payload;
        attempts = r.attempts;
        status = Status.dead_lettered;
        error = r.error;
        dead_at = r.dead_at;
      })
      (ordered (λ a b. leb a.dead_at b.dead_at) db.dlq)
