-- ===== src/ServiceStore/Detail.antt =====
-- `Store.Get`: a job with all that is recorded about it.
use dependecy_graph_auditor.Prelude.{
  ℕ, String, str_eq, Bool, true, false, ◌&&◌, leb, Option, none, some, List, [], ◌∷◌, map,
  if◌then◌else◌, select_where, find_where, ordered,
}
use dependecy_graph_auditor.Job.{ErrorKind, Job, Error, UpdateResult, is_completed}
use dependecy_graph_auditor.ServiceStore.Tables.{
  Row, AttemptStatus, AttemptRow, EventType, EventDetails, EventRow, ResultRow, AuditResultRow,
  RelationshipRow, Db, Services, coalesce, column_is,
}
use dependecy_graph_auditor.ServiceStore.Transaction.{Tx, ◌>>=◌, query, or_fail}
use dependecy_graph_auditor.ServiceStore.Statements.{scan_service_job}
use dependecy_graph_auditor.ServiceStore.Finalize.{is_child, is_update_scan}
use dependecy_graph_auditor.ServiceStore.Operate.{get_job}
use dependecy_graph_auditor.ServiceStore.Listing.{Counts, all_statuses, count_groups}

pub record Attempt : Type 0 where
  pub attempt : ℕ
  pub worker_id : String
  pub status : AttemptStatus
  pub started_at : ℕ
  pub finished_at : Option ℕ
  pub error_kind : Option ErrorKind
  pub error : String

-- The ids of events, which are the places of their rows, are left out.
pub record Event : Type 0 where
  pub event_type : EventType
  pub attempt : ℕ
  pub worker_id : String
  pub details : EventDetails
  pub occurred_at : ℕ

pub record AuditResult : Type 0 where
  pub ecosystem : String
  pub name : String
  pub version : String
  pub license : String
  pub verdict : String
  pub parent_name : String
  pub parent_version : String

pub record AuditRelationship : Type 0 where
  pub ecosystem : String
  pub parent_name : String
  pub parent_version : String
  pub child_name : String
  pub child_version : String

pub record Detail : Type 0 where
  pub job : Job
  pub attempts : List Attempt
  pub events : List Event
  pub result : Option String
  pub child_counts : Counts
  pub update_results : List UpdateResult
  pub audit_results : List AuditResult
  pub audit_relationships : List AuditRelationship

abbrev coalesce_zero : Option ℕ → ℕ
coalesce_zero none = 0
coalesce_zero (some n) = n

unfoldable pub scan_attempt : AttemptRow → Attempt
scan_attempt r = record {
  attempt = r.attempt;
  worker_id = r.worker_id;
  status = r.status;
  started_at = r.started_at;
  finished_at = r.finished_at;
  error_kind = r.error_kind;
  error = coalesce r.error;
}

-- ORDER BY attempt.
unfoldable pub attempts_of : String → List AttemptRow → List Attempt
attempts_of id rows =
    map scan_attempt
      (ordered (λ a b. leb a.attempt b.attempt) (select_where (λ r. str_eq r.job_id id) rows))

unfoldable pub scan_event : EventRow → Event
scan_event r = record {
  event_type = r.event_type;
  attempt = coalesce_zero r.attempt;
  worker_id = coalesce r.worker_id;
  details = r.details;
  occurred_at = r.occurred_at;
}

-- ORDER BY occurred_at, id: rows of the same time stay in the order of their insertion.
unfoldable pub events_of : String → List EventRow → List Event
unfolding scan_event
events_of id rows =
    map scan_event (
      ordered (λ a b. leb a.occurred_at b.occurred_at)
        (select_where (λ r. str_eq r.job_id id) rows))

unfoldable pub result_of : String → List ResultRow → Option String
result_of id rows = elim (find_where (λ r. str_eq r.job_id id) rows) [
  | some r ↦ some r.result
  | none ↦ none
]

-- One column of an ORDER BY, and the ones behind it.
abbrev pub text_then : Services → String → String → Bool → Bool
text_then services s t rest =
    if services.text_lt s t then true else if services.text_lt t s then false else rest

-- The same for a column in which the empty text stands for NULL, which comes last.
abbrev pub name_then : Services → String → String → Bool → Bool
name_then services s t rest =
    if str_eq s ""
    then str_eq t "" && rest
    else if str_eq t ""
    then true
    else text_then services s t rest

unfoldable pub scan_audit_result : AuditResultRow → AuditResult
scan_audit_result r = record {
  ecosystem = r.ecosystem;
  name = r.package_name;
  version = r.package_version;
  license = r.license;
  verdict = r.verdict;
  parent_name = r.parent_name;
  parent_version = r.parent_version;
}

-- ORDER BY package_name, package_version, parent_name; rows that agree on them come in any order,
-- here in that of the table.
unfoldable pub audit_results_of : Services → String → List AuditResultRow → List AuditResult
unfolding scan_audit_result
audit_results_of services root rows = map scan_audit_result (
    ordered
      (λ a b. text_then services a.package_name b.package_name (
        text_then services a.package_version b.package_version
          (name_then services a.parent_name b.parent_name true)))
      (select_where (λ r. str_eq r.root_job_id root) rows))

unfoldable pub scan_relationship : RelationshipRow → AuditRelationship
scan_relationship r = record {
  ecosystem = r.ecosystem;
  parent_name = r.parent_name;
  parent_version = r.parent_version;
  child_name = r.child_name;
  child_version = r.child_version;
}

-- ORDER BY ecosystem, parent_name, child_name.
unfoldable pub relationships_of : Services → String → List RelationshipRow → List AuditRelationship
unfolding scan_relationship
relationships_of services root rows = map scan_relationship (
    ordered
      (λ a b. text_then services a.ecosystem b.ecosystem (
        text_then services a.parent_name b.parent_name
          (text_then services a.child_name b.child_name true)))
      (select_where (λ r. str_eq r.root_job_id root) rows))

-- The jobs whose results an update scan shows.
unfoldable pub is_update_check : String → Row → Bool
is_update_check id r =
    str_eq r.root_job_id id
    && column_is r.parent_job_id id
    && str_eq r.job_type "package_update_check"
    && r.internal
    && is_completed r.status

-- JOIN job_results: a job without a result is left out.
unfoldable pub add_result : Row → Option String → List (String × String) → List (String × String)
add_result r none rest = rest
add_result r (some text) rest = (r.id, text) ∷ rest

unfoldable pub with_results : List ResultRow → List Row → List (String × String)
unfolding result_of add_result
with_results results [] = []
with_results results (r ∷ rows) = add_result r (result_of r.id results) (with_results results rows)

-- Each result is decoded, and gets the id of its job; one that is not JSON of the right shape fails
-- the whole call.
unfoldable pub add_update :
    String → Option UpdateResult → Option (List UpdateResult) → Option (List UpdateResult)
add_update id none rest = none
add_update id (some update) none = none
add_update id (some update) (some updates) = some (record update { job_id = id } ∷ updates)

unfoldable pub decode_updates :
    (String → Option UpdateResult) → List (String × String) → Option (List UpdateResult)
unfolding add_update
decode_updates decode [] = some []
decode_updates decode ((id, text) ∷ rows) = add_update id (decode text) (decode_updates decode rows)

unfoldable pub update_results_of :
    Services → (String → Option UpdateResult) → Row → Db → Option (List UpdateResult)
unfolding is_update_check with_results decode_updates
update_results_of services decode row db =
    if is_update_scan row.job_type && str_eq row.id row.root_job_id
    then decode_updates decode (
        with_results db.results (
          ordered (λ a b. services.text_lt a.id b.id)
            (select_where (is_update_check row.id) db.jobs)))
    else some []

-- `decode_update` is what encoding/json finds in the result of an update check.
unfoldable pub get : Services → (String → Option UpdateResult) → String → Tx Detail
get services decode_update id = do
  row ← get_job id
  updates ← query (λ db. update_results_of services decode_update row db)
  update_results ← or_fail updates Error.unparsed
  query λ db. record {
    job = scan_service_job row;
    attempts = attempts_of id db.attempts;
    events = events_of id db.events;
    result = result_of id db.results;
    child_counts = count_groups (is_child row.root_job_id) db.jobs all_statuses;
    update_results = update_results;
    audit_results = audit_results_of services row.root_job_id db.audit_results;
    audit_relationships = relationships_of services row.root_job_id db.relationships;
  }
