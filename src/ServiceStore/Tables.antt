-- ===== src/ServiceStore/Tables.antt =====
-- The tables of db/migrations that internal/store/postgres/service.go reads and writes, the
-- conversion of a row to a Go value, and what the store uses of code outside the repository.
use dependecy_graph_auditor.Prelude.{
  ℕ, ◌≡◌, String, str_eq, Bool, false, Option, none, some, List, [], if◌then◌else◌,
}
use dependecy_graph_auditor.Job.{Status, ErrorKind, UpdateResult}

-- A row of `jobs`; `none` is NULL.
pub record Row : Type 0 where
  pub id : String
  pub job_type : String
  pub payload : Option String
  pub status : Status
  pub attempts : ℕ
  pub max_attempts : ℕ
  pub scheduled_at : ℕ
  pub root_job_id : String
  pub parent_job_id : Option String
  pub internal : Bool
  pub idempotency_key : Option String
  pub request_hash : Option String
  pub locked_by : Option String
  pub lease_token : Option String
  pub locked_until : Option ℕ
  pub heartbeat_at : Option ℕ
  pub cancel_requested_at : Option ℕ
  pub last_error_kind : Option ErrorKind
  pub last_error : Option String
  pub created_at : ℕ
  pub started_at : Option ℕ
  pub completed_at : Option ℕ
  pub retried_from_job_id : Option String
  pub replayed_from_job_id : Option String

-- `abandoned` is written when a lease expires, else the status that the attempt ended in.
pub data AttemptStatus : Type 0 where
  in_status : Status → AttemptStatus
  abandoned : AttemptStatus

pub record AttemptRow : Type 0 where
  pub job_id : String
  pub attempt : ℕ
  pub worker_id : String
  pub lease_token : String
  pub status : AttemptStatus
  pub started_at : ℕ
  pub finished_at : Option ℕ
  pub error_kind : Option ErrorKind
  pub error : Option String

pub data EventType : Type 0 where
  submitted started lease_expired cancellation_requested replayed : EventType
  reached : Status → EventType

-- The JSON documents that the store writes into `details`.
pub data EventDetails : Type 0 where
  empty : EventDetails
  failure_details : ErrorKind → String → EventDetails
  source_details : String → EventDetails

pub record EventRow : Type 0 where
  pub job_id : String
  pub event_type : EventType
  pub attempt : Option ℕ
  pub worker_id : Option String
  pub details : EventDetails
  pub occurred_at : ℕ

pub record DlqRow : Type 0 where
  pub id : ℕ
  pub job_id : String
  pub job_type : String
  pub payload : Option String
  pub attempts : ℕ
  pub error : String
  pub error_kind : Option ErrorKind
  pub root_job_id : Option String
  pub parent_job_id : Option String
  pub dead_at : ℕ
  pub replayed_at : Option ℕ
  pub replayed_as_job_id : Option String

pub record ResultRow : Type 0 where
  pub job_id : String
  pub result : String

pub record AuditResultRow : Type 0 where
  pub root_job_id : String
  pub ecosystem : String
  pub package_name : String
  pub package_version : String
  pub license : String
  pub verdict : String
  pub parent_name : String
  pub parent_version : String

pub record RelationshipRow : Type 0 where
  pub root_job_id : String
  pub ecosystem : String
  pub parent_name : String
  pub parent_version : String
  pub child_name : String
  pub child_version : String

pub record WorkerRow : Type 0 where
  pub id : String
  pub started_at : ℕ
  pub heartbeat_at : ℕ

-- `drawn` counts the UUIDs drawn so far, and `dlq_serial` is the sequence behind dlq.id.
pub record Db : Type 0 where
  pub jobs : List Row
  pub attempts : List AttemptRow
  pub events : List EventRow
  pub dlq : List DlqRow
  pub results : List ResultRow
  pub audit_results : List AuditResultRow
  pub relationships : List RelationshipRow
  pub workers : List WorkerRow
  pub drawn : ℕ
  pub dlq_serial : ℕ

abbrev pub empty_db : Db
empty_db = record {
  jobs = [];
  attempts = [];
  events = [];
  dlq = [];
  results = [];
  audit_results = [];
  relationships = [];
  workers = [];
  drawn = 0;
  dlq_serial = 1;
}

-- What encoding/json finds in the payload of a child that an audit reports.
pub record ChildPayload : Type 0 where
  pub name : String
  pub version : String
  pub parent_name_snake : String
  pub parent_version_snake : String
  pub parent_name_camel : String
  pub parent_version_camel : String

-- What encoding/json finds in the result of an audit.
pub record AuditDocument : Type 0 where
  pub ecosystem : String
  pub name : String
  pub version : String
  pub license : String
  pub verdict : String
  pub parent_name : String
  pub parent_version : String

-- Code outside the repository that the store calls: google/uuid (the n-th UUID drawn; no UUID is
-- drawn twice, and none is empty), the hex of a SHA-256 digest of a submission's three formatted
-- fields, encoding/json, fmt.Sprintf and the database's order of texts.
pub record Services : Type 0 where
  pub new_uuid : ℕ → String
  pub request_digest : String → ℕ → String → String
  pub decode_child : String → Option ChildPayload
  pub decode_audit : String → Option AuditDocument
  pub is_json : String → Bool
  pub decode_update : String → Option UpdateResult
  pub audit_summary : String → ℕ → ℕ → ℕ → String
  pub text_lt : String → String → Bool
  pub uuid_present : (n : ℕ) → str_eq (new_uuid n) "" ≡ false
  pub uuid_injective : (m n : ℕ) → new_uuid m ≡ new_uuid n → m ≡ n

-- COALESCE(column, '').
abbrev pub coalesce : Option String → String
coalesce none = ""
coalesce (some s) = s

-- NULLIF(value, '').
abbrev pub null_if_empty : String → Option String
null_if_empty s = if str_eq s "" then none else some s

-- A nullable column compared with a value: NULL equals nothing.
abbrev pub column_is : Option String → String → Bool
column_is none s = false
column_is (some t) s = str_eq t s
