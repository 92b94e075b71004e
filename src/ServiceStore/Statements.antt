-- ===== src/ServiceStore/Statements.antt =====
-- The SQL statements that several operations of service.go share.
use dependecy_graph_auditor.Prelude.{
  ℕ, suc, String, str_eq, Bool, true, false, ◌||◌, ◌==◌, Option, none, some, List, [], ◌∷◌, ◌++◌,
  is_some, if◌then◌else◌, find_where, update_where, count_where,
}
use dependecy_graph_auditor.Job.{Status, Job, Submission, Error}
use dependecy_graph_auditor.ServiceStore.Tables.{
  Row, EventType, EventDetails, DlqRow, Services, coalesce, null_if_empty, column_is,
}
use dependecy_graph_auditor.ServiceStore.Transaction.{Result, Tx, query, statement}

-- `scanServiceJob` over `serviceJobColumns`.
unfoldable pub scan_service_job : Row → Job
scan_service_job r = record {
  id = r.id;
  job_type = r.job_type;
  payload = coalesce r.payload;
  status = r.status;
  attempts = r.attempts;
  max_attempts = r.max_attempts;
  scheduled_at = r.scheduled_at;
  root_job_id = r.root_job_id;
  parent_job_id = coalesce r.parent_job_id;
  internal = r.internal;
  idempotency_key = coalesce r.idempotency_key;
  request_hash = coalesce r.request_hash;
  locked_by = coalesce r.locked_by;
  lease_token = coalesce r.lease_token;
  locked_until = r.locked_until;
  heartbeat_at = r.heartbeat_at;
  cancel_requested_at = r.cancel_requested_at;
  last_error_kind = r.last_error_kind;
  last_error = coalesce r.last_error;
  created_at = r.created_at;
  started_at = r.started_at;
  completed_at = r.completed_at;
  retried_from_job_id = coalesce r.retried_from_job_id;
  replayed_from_job_id = coalesce r.replayed_from_job_id;
}

abbrev pub has_id : String → Row → Bool
has_id id r = str_eq r.id id

-- A row as an INSERT that names the columns of a submission leaves it: the others are NULL, or
-- their defaults.
unfoldable pub pending_row : String → String → String → ℕ → ℕ → String → Row
pending_row id job_type payload max_attempts now root = record {
  id = id;
  job_type = job_type;
  payload = null_if_empty payload;
  status = Status.pending;
  attempts = 0;
  max_attempts = max_attempts;
  scheduled_at = now;
  root_job_id = root;
  parent_job_id = none;
  internal = false;
  idempotency_key = none;
  request_hash = none;
  locked_by = none;
  lease_token = none;
  locked_until = none;
  heartbeat_at = none;
  cancel_requested_at = none;
  last_error_kind = none;
  last_error = none;
  created_at = now;
  started_at = none;
  completed_at = none;
  retried_from_job_id = none;
  replayed_from_job_id = none;
}

abbrev pub key_taken : Option String → List Row → Bool
key_taken none rows = false
key_taken (some key) rows = is_some (find_where (λ r. column_is r.idempotency_key key) rows)

-- The outcome of an INSERT, by whether the row's key and its id are taken.
unfoldable pub inserted : Row → Bool → Bool → Tx Bool
inserted r true clash db = Result.ok (false, db)
inserted r false true db = Result.err Error.database
inserted r false false db = Result.ok (true, record db { jobs = db.jobs ++ r ∷ [] })

-- The cast ::jsonb of a payload: the empty text is NULL, and what is not JSON is an error.
abbrev pub is_castable : Services → String → Bool
is_castable services payload = str_eq payload "" || services.is_json payload

abbrev pub cast_json : Bool → Tx (Unit {0})
cast_json true db = Result.ok (tt, db)
cast_json false db = Result.err Error.database

-- `INSERT INTO jobs … ON CONFLICT (idempotency_key) … DO NOTHING`; the result tells whether a row
-- was added. A taken primary key is an error.
unfoldable pub insert_job : Row → Tx Bool
unfolding inserted
insert_job r db =
    inserted r (key_taken r.idempotency_key db.jobs) (is_some (find_where (has_id r.id) db.jobs)) db

-- `SELECT … FROM jobs WHERE id=$1`.
unfoldable pub select_job : String → Tx (Option Row)
unfolding query
select_job id = query λ db. find_where (has_id id) db.jobs

-- `UPDATE jobs SET … WHERE …`, with the number of rows that it affected.
unfoldable pub update_jobs : (Row → Bool) → (Row → Row) → Tx ℕ
update_jobs p f db =
    Result.ok (count_where p db.jobs, record db { jobs = update_where p f db.jobs })

unfoldable pub insert_event :
    String → EventType → Option ℕ → Option String → EventDetails → ℕ → Tx (Unit {0})
unfolding statement
insert_event id event_type attempt worker details now = statement λ db. record db {
  events =
      db.events
      ++ record {
        job_id = id;
        event_type = event_type;
        attempt = attempt;
        worker_id = worker;
        details = details;
        occurred_at = now;
      }
        ∷ [];
}

-- `INSERT INTO dlq`, with the entry's id from its sequence.
unfoldable pub insert_dlq : (ℕ → DlqRow) → Tx (Unit {0})
unfolding statement
insert_dlq entry =
    statement
      λ db. record db { dlq = db.dlq ++ entry db.dlq_serial ∷ []; dlq_serial = suc db.dlq_serial }

-- `job.NewJobID`.
unfoldable pub new_job_id : Services → Tx String
new_job_id services db = Result.ok (services.new_uuid db.drawn, record db { drawn = suc db.drawn })

abbrev pub attempts_or : ℕ → ℕ → ℕ
attempts_or n default = if n == 0 then default else n

unfoldable pub submission_hash : Services → Submission → String
submission_hash services value =
    if str_eq value.request_hash ""
    then services.request_digest value.job_type value.max_attempts value.payload
    else value.request_hash
