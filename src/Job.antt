-- ===== src/Job.antt =====
-- internal/job: the job, its states, submissions, and the classification of handler errors.
use dependecy_graph_auditor.Prelude.{ℕ, String, Bool, true, false, Option, none, some, List}

-- The values of `Status`, in the order of the constants.
pub data Status : Type 0 where
  pending running waiting retry_scheduled completed failed dead_lettered cancelled : Status

abbrev pub is_pending : Status → Bool
is_pending Status.pending = true
is_pending _ = false

abbrev pub is_running : Status → Bool
is_running Status.running = true
is_running _ = false

abbrev pub is_waiting : Status → Bool
is_waiting Status.waiting = true
is_waiting _ = false

abbrev pub is_retry_scheduled : Status → Bool
is_retry_scheduled Status.retry_scheduled = true
is_retry_scheduled _ = false

abbrev pub is_completed : Status → Bool
is_completed Status.completed = true
is_completed _ = false

abbrev pub is_failed : Status → Bool
is_failed Status.failed = true
is_failed _ = false

abbrev pub is_dead_lettered : Status → Bool
is_dead_lettered Status.dead_lettered = true
is_dead_lettered _ = false

abbrev pub is_cancelled : Status → Bool
is_cancelled Status.cancelled = true
is_cancelled _ = false

pub data ErrorKind : Type 0 where
  transient permanent cancelled : ErrorKind

abbrev pub default_max_attempts : ℕ
default_max_attempts = 5

-- The Go value of a job. An empty string stands for an absent one, as in the source; times are
-- counted in the clock's units.
pub record Job : Type 0 where
  pub id : String
  pub job_type : String
  pub payload : String
  pub status : Status
  pub attempts : ℕ
  pub max_attempts : ℕ
  pub scheduled_at : ℕ
  pub root_job_id : String
  pub parent_job_id : String
  pub internal : Bool
  pub idempotency_key : String
  pub request_hash : String
  pub locked_by : String
  pub lease_token : String
  pub locked_until : Option ℕ
  pub heartbeat_at : Option ℕ
  pub cancel_requested_at : Option ℕ
  pub last_error_kind : Option ErrorKind
  pub last_error : String
  pub created_at : ℕ
  pub started_at : Option ℕ
  pub completed_at : Option ℕ
  pub retried_from_job_id : String
  pub replayed_from_job_id : String

pub record Submission : Type 0 where
  pub job_type : String
  pub payload : String
  pub max_attempts : ℕ
  pub idempotency_key : String
  pub request_hash : String
  pub root_job_id : String
  pub parent_job_id : String
  pub internal : Bool
  pub retried_from_job_id : String
  pub replayed_from_job_id : String

pub record HandlerResult : Type 0 where
  pub result : String
  pub children : List Submission

pub record UpdateResult : Type 0 where
  pub job_id : String
  pub ecosystem : String
  pub name : String
  pub current_version : String
  pub latest_version : String
  pub staleness : String

-- The sentinel errors of the package and ErrJobExists of the single-process store, any error that a
-- database statement reports, and the errors of a text that does not parse and of an UPDATE that
-- finds no row.
pub data Error : Type 0 where
  not_found conflict idempotency_conflict lease_lost database unparsed job_exists no_row : Error

-- What a handler returns: an error of its own, one that wraps another with a kind, or the error
-- of a cancelled context. Only the parts that `KindOf` looks at are kept.
pub data HandlerError : Type 0 where
  plain context_canceled : HandlerError
  classified : ErrorKind → HandlerError → HandlerError

unfoldable pub failure : ErrorKind → Option HandlerError → Option HandlerError
failure kind none = none
failure kind (some err) = some (HandlerError.classified kind err)

-- `errors.As` finds the outermost classified error, and otherwise `errors.Is` is asked.
unfoldable pub kind_of : HandlerError → ErrorKind
kind_of (HandlerError.classified kind err) = kind
kind_of HandlerError.context_canceled = ErrorKind.cancelled
kind_of HandlerError.plain = ErrorKind.permanent
