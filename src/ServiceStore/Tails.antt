-- ===== src/ServiceStore/Tails.antt =====
-- What the operations of the store do besides their own change of a row, for any property of the
-- table of jobs that new rows and the settling of a waiting root do not break.
use dependecy_graph_auditor.Prelude.{
  ℕ, ◌<◌, ◌≡◌, refl, String, Bool, true, false, ◌&&◌, List, [], ◌∷◌, Option, none, some, arith,
}
use dependecy_graph_auditor.Job.{
  UpdateResult, Status, ErrorKind, Job, Submission, HandlerResult, Error, is_waiting,
}
use dependecy_graph_auditor.ServiceStore.Transaction.{done, fail_with}
use dependecy_graph_auditor.ServiceStore.Tables.{
  Row, AttemptRow, DlqRow, RelationshipRow, ChildPayload, AuditDocument, Services,
}
use dependecy_graph_auditor.ServiceStore.Statements.{
  has_id, cast_json, insert_job, update_jobs, new_job_id, attempts_or,
}
use dependecy_graph_auditor.ServiceStore.Submit.{
  submitted_row, load_existing, record_submitted, submit, child_row, insert_submission,
}
use dependecy_graph_auditor.ServiceStore.Finalize.{
  root_status, settled, insert_result, conclude_root, settle_root, finalize_root,
}
use dependecy_graph_auditor.ServiceStore.Complete.{
  insert_relationship, relate, relate_decoded, insert_audit_relationship, insert_children,
  insert_audit_result, update_attempts, record_completion,
}
use dependecy_graph_auditor.ServiceStore.Fail.{record_failure}
use dependecy_graph_auditor.ServiceStore.Retry.{retry}
use dependecy_graph_auditor.ServiceStore.Detail.{get}
use dependecy_graph_auditor.ServiceStore.Operate.{
  get_job, replay_row, mark_replayed, replay, replay_dlq,
}
use dependecy_graph_auditor.ServiceStore.Rows.{is_terminal, IsFresh}
use dependecy_graph_auditor.ServiceStore.Keeps.{
  Keeps, Keeps-statement, Keeps-done, Keeps-fail_with, Keeps-bind, keeps_rules,
}

pub record IsStable (services : Services) (P : ℕ → List Row → Type 0) : Type 0 where
  pub draws : Keeps P (new_job_id services)
  pub inserts : (r : Row) → IsFresh r → Keeps P (insert_job r)

-- The UPDATE of `finalizeRoot`.
pub record IsSettleable (P : ℕ → List Row → Type 0) : Type 0 where
  pub settles :
      (id : String) (status : Status) (message : String) (now : ℕ)
      → is_terminal status ≡ true
      → Keeps P (update_jobs (λ r. has_id id r && is_waiting r.status) (settled status message now))

pub root_status-is_terminal : (failed dead : ℕ) → is_terminal (root_status failed dead) ≡ true
unfolding root_status
root_status-is_terminal failed dead = ground arith

attempts_or-pos : (n d : ℕ) → 0 < d → 0 < attempts_or n d
attempts_or-pos n d h = ground arith

module _ {P : ℕ → List Row → Type 0} where
  Keeps-insert_result : (id result : String) → Keeps P (insert_result id result)
  unfolding insert_result
  Keeps-insert_result id result = Keeps-statement _ (λ db. (refl, refl))

  pub Keeps-update_attempts :
      (p : AttemptRow → Bool) (f : AttemptRow → AttemptRow) → Keeps P (update_attempts p f)
  unfolding update_attempts
  Keeps-update_attempts p f = Keeps-statement _ (λ db. (refl, refl))

  Keeps-insert_relationship : (row : RelationshipRow) → Keeps P (insert_relationship row)
  unfolding insert_relationship
  Keeps-insert_relationship row = Keeps-statement _ (λ db. (refl, refl))

  Keeps-mark_replayed : (entry : ℕ) (id : String) (now : ℕ) → Keeps P (mark_replayed entry id now)
  unfolding mark_replayed
  Keeps-mark_replayed entry id now = Keeps-statement _ (λ db. (refl, refl))

  Keeps-insert_audit_result :
      (root : String) (document : Option AuditDocument)
      → Keeps P (insert_audit_result root document)
  unfolding insert_audit_result
  Keeps-insert_audit_result root none = Keeps-done tt
  Keeps-insert_audit_result root (some document) = Keeps-statement _ (λ db. (refl, refl))

  Keeps-conclude_root :
      (root : Row) (status : Status) (summary : String) (now : ℕ)
      → Keeps P (conclude_root root status summary now)
  unfolding conclude_root
  Keeps-conclude_root root status summary now = search (keeps_rules, Keeps-insert_result)

submitted_row-IsFresh :
    (id root : String) (input : Submission) (hash : String) (now : ℕ)
    → 0 < input.max_attempts
    → IsFresh (submitted_row id root input hash now)
unfolding submitted_row
submitted_row-IsFresh id root input hash now h = ground arith

child_row-IsFresh :
    (id : String) (input : Submission) (hash : String) (now : ℕ)
    → 0 < input.max_attempts
    → IsFresh (child_row id input hash now)
unfolding child_row
child_row-IsFresh id input hash now h = ground arith

replay_row-IsFresh :
    (id : String) (source : DlqRow) (limit now : ℕ)
    → 0 < limit
    → IsFresh (replay_row id source limit now)
unfolding replay_row
replay_row-IsFresh id source limit now h = ground arith

module _ (services : Services) {P : ℕ → List Row → Type 0} (stable : IsSettleable P) where
  settles_children :
      (id : String) (failed dead : ℕ) (message : String) (now : ℕ)
      → Keeps P (
          update_jobs
            (λ r. has_id id r && is_waiting r.status)
            (settled (root_status failed dead) message now))
  settles_children id failed dead message now =
      stable.settles id _ message now (root_status-is_terminal failed dead)

  Keeps-settle_root : (root : Row) (now : ℕ) → Keeps P (settle_root services root now)
  unfolding settle_root
  Keeps-settle_root root now = search (keeps_rules, settles_children, Keeps-conclude_root) depth 12

  pub Keeps-finalize_root : (root : String) (now : ℕ) → Keeps P (finalize_root services root now)
  unfolding finalize_root
  Keeps-finalize_root root now = search (keeps_rules, Keeps-settle_root)

  pub Keeps-record_failure :
      (value : Job) (status : Status) (kind : ErrorKind) (message : String) (now : ℕ)
      → Keeps P (record_failure services value status kind message now)
  unfolding record_failure
  Keeps-record_failure value status kind message now =
      search (keeps_rules, Keeps-update_attempts, Keeps-finalize_root) depth 12

module _ (services : Services) {P : ℕ → List Row → Type 0} (stable : IsStable services P) where
  Keeps-load_existing : (key hash : String) → Keeps P (load_existing key hash)
  unfolding load_existing
  Keeps-load_existing key hash = search keeps_rules

  Keeps-record_submitted : (id : String) (now : ℕ) → Keeps P (record_submitted id now)
  unfolding record_submitted
  Keeps-record_submitted id now = search keeps_rules

  Keeps-cast_json : (b : Bool) → Keeps P (cast_json b)
  unfolding done fail_with
  Keeps-cast_json true = Keeps-done tt
  Keeps-cast_json false = Keeps-fail_with Error.database

  pub Keeps-submit : (input : Submission) (now : ℕ) → Keeps P (submit services input now)
  unfolding submit
  Keeps-submit input now = Keeps-bind _ _ stable.draws λ id. Keeps-bind _ _ (Keeps-cast_json _) λ _.
      Keeps-bind _ _
        (stable.inserts _
          (submitted_row-IsFresh _ _ _ _ _ (attempts_or-pos input.max_attempts 5 (omega arith))))
        λ created. search (keeps_rules, Keeps-record_submitted, Keeps-load_existing)

  pub Keeps-insert_submission :
      (input : Submission) (now : ℕ) → Keeps P (insert_submission services input now)
  unfolding insert_submission
  Keeps-insert_submission input now = Keeps-bind _ _ stable.draws λ id.
      Keeps-bind _ _ (Keeps-cast_json _) λ _.
        Keeps-bind _ _
          (stable.inserts _
            (child_row-IsFresh _ _ _ _ (attempts_or-pos input.max_attempts 5 (omega arith))))
          λ created. Keeps-done tt

  Keeps-relate :
      (child : Submission) (ecosystem : String) (payload : ChildPayload)
      → Keeps P (relate child ecosystem payload)
  unfolding relate
  Keeps-relate child ecosystem payload = search (keeps_rules, Keeps-insert_relationship)

  Keeps-relate_decoded :
      (child : Submission) (ecosystem : String) (payload : Option ChildPayload)
      → Keeps P (relate_decoded child ecosystem payload)
  unfolding relate_decoded
  Keeps-relate_decoded child ecosystem none = Keeps-done tt
  Keeps-relate_decoded child ecosystem (some payload) = Keeps-relate child ecosystem payload

  Keeps-insert_audit_relationship :
      (child : Submission) → Keeps P (insert_audit_relationship services child)
  unfolding insert_audit_relationship
  Keeps-insert_audit_relationship child = search (keeps_rules, Keeps-relate_decoded)

  pub Keeps-insert_children :
      (value : Job) (now : ℕ) (children : List Submission)
      → Keeps P (insert_children services value now children)
  unfolding insert_children
  Keeps-insert_children value now [] = Keeps-done tt
  Keeps-insert_children value now (child ∷ rest) =
      Keeps-bind _ _ (Keeps-insert_audit_relationship _) λ _.
        Keeps-bind _ _ (Keeps-insert_submission _ now) λ _. Keeps-insert_children value now rest

  Keeps-get_job : (id : String) → Keeps P (get_job id)
  unfolding get_job
  Keeps-get_job id = search keeps_rules

  Keeps-get :
      (decode : String → Option UpdateResult) (id : String) → Keeps P (get services decode id)
  unfolding get
  Keeps-get decode id = search (keeps_rules, Keeps-get_job) depth 8

  pub Keeps-retry : (id : String) (limit now : ℕ) → Keeps P (retry services id limit now)
  unfolding retry
  Keeps-retry id limit now = search (keeps_rules, Keeps-get, Keeps-submit) depth 8

  Keeps-replay : (source : DlqRow) (limit now : ℕ) → Keeps P (replay services source limit now)
  unfolding replay
  Keeps-replay source limit now = Keeps-bind _ _ stable.draws λ id.
      Keeps-bind _ _
        (stable.inserts _ (replay_row-IsFresh _ _ _ _ (attempts_or-pos limit 5 (omega arith))))
        λ _. search (keeps_rules, Keeps-mark_replayed) depth 12

  pub Keeps-replay_dlq : (entry limit now : ℕ) → Keeps P (replay_dlq services entry limit now)
  unfolding replay_dlq
  Keeps-replay_dlq entry limit now = search (keeps_rules, Keeps-replay) depth 8

module _ (services : Services) {P : ℕ → List Row → Type 0} (stable : IsStable services P)
    (settleable : IsSettleable P) where
  pub Keeps-record_completion :
      (value : Job) (result : HandlerResult) (status : Status) (now : ℕ)
      → Keeps P (record_completion services value result status now)
  unfolding record_completion
  Keeps-record_completion value result status now =
      search
        (
          keeps_rules,
          Keeps-update_attempts,
          Keeps-insert_children services stable,
          Keeps-insert_result,
          Keeps-insert_audit_result,
          Keeps-finalize_root services settleable,
        )
        depth 12
