-- ===== src/ServiceStore/Complete.antt =====
-- `Store.Complete`: a handler has succeeded. Its children are stored with the state change.
use dependecy_graph_auditor.Prelude.{
  ℕ, String, str_eq, Bool, true, false, ◌&&◌, ◌||◌, not, ◌==◌, Option, none, some, List, [], ◌∷◌,
  ◌++◌, is_some, if◌then◌else◌, find_where, update_where,
}
use dependecy_graph_auditor.Prelude.Text.{has_prefix, trim_prefix, trim_suffix}
use dependecy_graph_auditor.Job.{Status, Job, Submission, HandlerResult, Error, is_completed}
use dependecy_graph_auditor.ServiceStore.Tables.{
  Row, AttemptRow, AttemptStatus, EventType, EventDetails, AuditResultRow, RelationshipRow,
  ChildPayload, AuditDocument, Services,
}
use dependecy_graph_auditor.ServiceStore.Transaction.{
  Tx, ◌>>=◌, ◌>>◌, done, fail_with, statement, when,
}
use dependecy_graph_auditor.ServiceStore.Statements.{update_jobs, insert_event}
use dependecy_graph_auditor.ServiceStore.Submit.{insert_submission}
use dependecy_graph_auditor.ServiceStore.Claim.{holds_lease}
use dependecy_graph_auditor.ServiceStore.Finalize.{insert_result, is_update_scan, finalize_root}

-- `firstNonEmpty` at two values.
unfoldable pub first_non_empty : String → String → String
first_non_empty a b = if str_eq a "" then b else a

-- The ecosystem that the type of an audit job names.
unfoldable pub ecosystem_of : String → String
unfolding trim_prefix trim_suffix
ecosystem_of job_type =
    trim_suffix (trim_suffix (trim_prefix job_type "audit_") "_package") "_module"

abbrev is_known_ecosystem : String → Bool
is_known_ecosystem e = str_eq e "npm" || str_eq e "pypi" || str_eq e "go"

abbrev same_relationship : RelationshipRow → RelationshipRow → Bool
same_relationship a b =
    str_eq a.root_job_id b.root_job_id
    && str_eq a.ecosystem b.ecosystem
    && str_eq a.parent_name b.parent_name
    && str_eq a.parent_version b.parent_version
    && str_eq a.child_name b.child_name
    && str_eq a.child_version b.child_version

-- ON CONFLICT DO NOTHING, on the primary key, which is the whole row.
unfoldable pub insert_relationship : RelationshipRow → Tx (Unit {0})
unfolding statement
insert_relationship row = statement λ db. record db {
  relationships =
      if is_some (find_where (λ r. same_relationship r row) db.relationships)
      then db.relationships
      else db.relationships ++ row ∷ [];
}

unfoldable pub relate : Submission → String → ChildPayload → Tx (Unit {0})
unfolding first_non_empty
relate child ecosystem payload =
    let parent = first_non_empty payload.parent_name_snake payload.parent_name_camel in
    when (not (str_eq parent "")) (
      insert_relationship (record {
        root_job_id = child.root_job_id;
        ecosystem = ecosystem;
        parent_name = parent;
        parent_version = first_non_empty payload.parent_version_snake payload.parent_version_camel;
        child_name = payload.name;
        child_version = payload.version;
      }))

unfoldable pub relate_decoded : Submission → String → Option ChildPayload → Tx (Unit {0})
unfolding done
relate_decoded child ecosystem none = done tt
relate_decoded child ecosystem (some payload) = relate child ecosystem payload

unfoldable pub insert_audit_relationship : Services → Submission → Tx (Unit {0})
insert_audit_relationship services child =
    let ecosystem = ecosystem_of child.job_type in
    when (is_known_ecosystem ecosystem)
      (relate_decoded child ecosystem (services.decode_child child.payload))

-- The loop over `result.Children`.
unfoldable pub insert_children : Services → Job → ℕ → List Submission → Tx (Unit {0})
unfolding done
insert_children services value now [] = done tt
insert_children services value now (submission ∷ rest) = do
  let child = record submission {
    root_job_id = value.root_job_id;
    parent_job_id = value.id;
    internal = true;
  }
  insert_audit_relationship services child
  insert_submission services child now
  insert_children services value now rest

abbrev same_audit : AuditResultRow → AuditResultRow → Bool
same_audit a b =
    str_eq a.root_job_id b.root_job_id
    && str_eq a.ecosystem b.ecosystem
    && str_eq a.package_name b.package_name
    && str_eq a.package_version b.package_version
    && str_eq a.parent_name b.parent_name
    && str_eq a.parent_version b.parent_version

-- ON CONFLICT DO NOTHING; an absent parent, NULL in the table, is the empty text here.
unfoldable pub insert_audit_result : String → Option AuditDocument → Tx (Unit {0})
unfolding done statement
insert_audit_result root none = done tt
insert_audit_result root (some document) = statement λ db.
    let row : AuditResultRow = record {
      root_job_id = root;
      ecosystem = document.ecosystem;
      package_name = document.name;
      package_version = document.version;
      license = document.license;
      verdict = document.verdict;
      parent_name = document.parent_name;
      parent_version = document.parent_version;
    } in
    record db {
      audit_results =
          if is_some (find_where (λ a. same_audit a row) db.audit_results)
          then db.audit_results
          else db.audit_results ++ row ∷ [];
    }

-- The WHERE clause of the UPDATE of `job_attempts`.
abbrev pub is_own_attempt : Job → AttemptRow → Bool
is_own_attempt value a =
    str_eq a.job_id value.id
    && a.attempt == value.attempts
    && str_eq a.lease_token value.lease_token

unfoldable pub update_attempts : (AttemptRow → Bool) → (AttemptRow → AttemptRow) → Tx (Unit {0})
unfolding statement
update_attempts p f = statement λ db. record db { attempts = update_where p f db.attempts }

-- Every column of the lease is cleared.
unfoldable pub released : Status → Option ℕ → Row → Row
released status completed_at r = record r {
  status = status;
  locked_by = none;
  lease_token = none;
  locked_until = none;
  heartbeat_at = none;
  completed_at = completed_at;
}

abbrev pub has_children : List Submission → Bool
has_children [] = false
has_children (_ ∷ _) = true

unfoldable pub completion_status : Job → HandlerResult → Status
completion_status value result =
    if has_children result.children && str_eq value.id value.root_job_id
    then Status.waiting
    else Status.completed

abbrev pub stores_result : Status → Job → String → Bool
stores_result status value result =
    not (str_eq result "")
    && not (str_eq result "null")
    && (is_completed status || is_update_scan value.job_type)

-- The statements of `Complete` that follow the UPDATE of the job's row.
unfoldable pub record_completion : Services → Job → HandlerResult → Status → ℕ → Tx (Unit {0})
record_completion services value result status now = do
  update_attempts (is_own_attempt value)
      (λ a. record a { status = AttemptStatus.in_status Status.completed; finished_at = some now })
  insert_children services value now result.children
  when (stores_result status value result.result) (insert_result value.id result.result)
  when (has_prefix value.job_type "audit_" && not (str_eq result.result ""))
      (insert_audit_result value.root_job_id (services.decode_audit result.result))
  insert_event value.id (EventType.reached status) (some value.attempts) (some value.locked_by)
      EventDetails.empty now
  when (is_completed status && not (str_eq value.id value.root_job_id))
      (finalize_root services value.root_job_id now)

unfoldable pub complete : Services → Job → HandlerResult → ℕ → Tx (Unit {0})
complete services value result now = do
  let status = completion_status value result
  affected ←
      update_jobs (holds_lease value)
        (released status (if is_completed status then some now else none))
  if affected == 1
      then record_completion services value result status now
      else fail_with Error.lease_lost
