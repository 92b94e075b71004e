-- ===== src/ServiceStore/Runs.antt =====
-- Runs of the store from the empty tables, and the states that they reach.
use dependecy_graph_auditor.Prelude.{
  ◌≡◌, refl, Bool, true, false, Option, none, some, List, [], ◌∷◌, Memᴰ, find_where, str_eq,
}
use dependecy_graph_auditor.Job.{ErrorKind, Job}
use dependecy_graph_auditor.ServiceStore.Tables.{Row, Db, empty_db}
use dependecy_graph_auditor.ServiceStore.Transaction.{
  Result, Tx, after, ◌>>=◌, done, query, statement, or_fail, when,
}
use dependecy_graph_auditor.ServiceStore.Statements.{
  scan_service_job, has_id, pending_row, inserted, insert_job, select_job, update_jobs,
  insert_event, insert_dlq, new_job_id, submission_hash,
}
use dependecy_graph_auditor.ServiceStore.Submit.{
  submitted_row, record_submitted, submit, child_row, insert_submission,
}
use dependecy_graph_auditor.ServiceStore.Claim.{
  is_claimable, eligible, claim_before, pick, first_claimable, claimed, insert_attempt,
  record_start, take, take_next, claim, holds_lease,
}
use dependecy_graph_auditor.ServiceStore.Complete.{
  ecosystem_of, relate_decoded, insert_audit_relationship, insert_children, insert_audit_result,
  update_attempts, released, completion_status, record_completion, complete,
}
use dependecy_graph_auditor.ServiceStore.Fail.{
  bounded_error, failure_status, failed_row, dead_letter, record_failure, fail,
}
use dependecy_graph_auditor.ServiceStore.Operate.{
  get_job, cancelled_row, record_cancellation, cancel_in, cancel, public_entry, replay_row,
  mark_replayed, replay, replay_dlq,
}
use dependecy_graph_auditor.ServiceStore.Reclaim.{
  is_expired, reclaim_status, reclaimed, reclaim_one, reclaim_all, reclaim_expired,
}
use dependecy_graph_auditor.ServiceStore.System.{Call, System, step, Reachable, Leads}
use dependecy_graph_auditor.ServiceStore.Identity.{DistinctIds}
use dependecy_graph_auditor.ServiceStore.Claiming.{drawn_after}
use dependecy_graph_auditor.ServiceStore.History.{Reachable-Consistent}
use dependecy_graph_auditor.ServiceStore.Samples.{
  sample_services, keyed_submission, child_result, plain_result, unlocked,
}

-- The value in a result, for the runs below, which succeed.
abbrev pub given {ℓ} : {A : Type ℓ} → A → Result (A × Db) → A
given a (Result.ok (b, db)) = b
given a (Result.err e) = a

abbrev pub given_job : Option Job → Job
given_job (some value) = value
given_job none = scan_service_job (pending_row "" "" "" 0 0 "")

abbrev pub submitted_db : Db
submitted_db = after (submit sample_services keyed_submission 1) empty_db

abbrev pub submitted_job : Job × Bool
submitted_job = given (given_job none, false) (submit sample_services keyed_submission 1 empty_db)

pub submits_ok :
    submit sample_services keyed_submission 1 empty_db ≡ Result.ok (submitted_job, submitted_db)
unfolding after submit submitted_row pending_row insert_job inserted new_job_id record_submitted
    insert_event select_job or_fail statement query done submission_hash ◌>>=◌
submits_ok = refl

abbrev pub claim_sample : Tx (Option Job)
claim_sample = claim sample_services unlocked "w" 30 2

abbrev pub claimed_db : Db
claimed_db = after claim_sample submitted_db

abbrev pub held_job : Job
held_job = given_job (given none (claim_sample submitted_db))

pub claims_ok : claim_sample submitted_db ≡ Result.ok (some held_job, claimed_db)
unfolding after submit submitted_row pending_row insert_job inserted new_job_id record_submitted
    insert_event select_job or_fail statement query done submission_hash ◌>>=◌ claim first_claimable
    pick claim_before eligible take_next take update_jobs claimed record_start insert_attempt
    scan_service_job
claims_ok = refl

abbrev pub queued : System
queued = record { db = submitted_db; held = [] }

abbrev pub leased : System
leased = record { db = claimed_db; held = held_job ∷ [] }

pub queued-Reachable : Reachable sample_services queued
unfolding step after
queued-Reachable = Reachable.next Reachable.start (Call.submits keyed_submission 1) tt

pub leased-Reachable : Reachable sample_services leased
unfolding after submit submitted_row pending_row insert_job inserted new_job_id record_submitted
    insert_event select_job or_fail statement query done submission_hash ◌>>=◌ claim first_claimable
    pick claim_before eligible take_next take update_jobs claimed record_start insert_attempt
    scan_service_job step
leased-Reachable = Reachable.next queued-Reachable (Call.claims unlocked "w" 30 2) tt

abbrev pub completed_db : Db
completed_db = after (complete sample_services held_job plain_result 3) claimed_db

pub completes_ok :
    complete sample_services held_job plain_result 3 claimed_db ≡ Result.ok (tt, completed_db)
unfolding after submit submitted_row pending_row insert_job inserted new_job_id record_submitted
    insert_event select_job or_fail statement query done submission_hash ◌>>=◌ claim first_claimable
    pick claim_before eligible take_next take update_jobs claimed record_start insert_attempt
    scan_service_job complete completion_status released update_attempts record_completion
    insert_children insert_audit_relationship ecosystem_of relate_decoded insert_submission
    child_row insert_audit_result holds_lease when
completes_ok = refl

-- The state after a completion and a later pass over the expired leases.
abbrev pub completed : System
completed = step sample_services leased (Call.completes held_job plain_result 3)

abbrev pub completed_later : System
completed_later = step sample_services completed (Call.reclaims unlocked 100)

pub completed-Leads : Leads sample_services completed completed_later
completed-Leads = Leads.later Leads.stay (Call.reclaims unlocked 100) tt

abbrev pub failed_db : Db
failed_db = after (fail sample_services held_job ErrorKind.transient "timeout" 9 3) claimed_db

pub fails_ok :
    fail sample_services held_job ErrorKind.transient "timeout" 9 3 claimed_db
    ≡ Result.ok (tt, failed_db)
unfolding after submit submitted_row pending_row insert_job inserted new_job_id record_submitted
    insert_event select_job or_fail statement query done submission_hash ◌>>=◌ claim first_claimable
    pick claim_before eligible take_next take update_jobs claimed record_start insert_attempt
    scan_service_job fail failed_row failure_status released bounded_error record_failure
    update_attempts dead_letter insert_dlq holds_lease when
fails_ok = refl

abbrev pub failed : System
failed = step sample_services leased (Call.fails held_job ErrorKind.transient "timeout" 9 3)

abbrev pub reclaimed_db : Db
reclaimed_db = after (reclaim_expired sample_services unlocked 100) claimed_db

pub reclaims_ok :
    reclaim_expired sample_services unlocked 100 claimed_db ≡ Result.ok (1, reclaimed_db)
unfolding after submit submitted_row pending_row insert_job inserted new_job_id record_submitted
    insert_event select_job or_fail statement query done submission_hash ◌>>=◌ claim first_claimable
    pick claim_before eligible take_next take update_jobs claimed record_start insert_attempt
    scan_service_job reclaim_expired is_expired reclaim_all reclaim_one reclaimed reclaim_status
    released update_attempts dead_letter insert_dlq when
reclaims_ok = refl

abbrev pub first_row : List Row → Row
first_row [] = pending_row "" "" "" 0 0 ""
first_row (r ∷ rows) = r

abbrev pub claimed_row : Row
claimed_row = first_row claimed_db.jobs

pub claimed_row-inside : Memᴰ claimed_row claimed_db.jobs
unfolding after submit submitted_row pending_row insert_job inserted new_job_id record_submitted
    insert_event select_job or_fail statement query done submission_hash ◌>>=◌ claim first_claimable
    pick claim_before eligible take_next take update_jobs claimed record_start insert_attempt
    scan_service_job
claimed_row-inside = Memᴰ.head refl

pub claimed_row-is_expired : is_expired unlocked 100 claimed_row ≡ true
unfolding after submit submitted_row pending_row insert_job inserted new_job_id record_submitted
    insert_event select_job or_fail statement query done submission_hash ◌>>=◌ claim first_claimable
    pick claim_before eligible take_next take update_jobs claimed record_start insert_attempt
    scan_service_job is_expired
claimed_row-is_expired = refl

pub claimed_row-id : claimed_row.id ≡ held_job.id
unfolding after submit submitted_row pending_row insert_job inserted new_job_id record_submitted
    insert_event select_job or_fail statement query done submission_hash ◌>>=◌ claim first_claimable
    pick claim_before eligible take_next take update_jobs claimed record_start insert_attempt
    scan_service_job
claimed_row-id = refl

abbrev pub expired : System
expired = step sample_services leased (Call.reclaims unlocked 100)

pub submitted-DistinctIds : DistinctIds submitted_db.jobs
submitted-DistinctIds = (Reachable-Consistent sample_services queued queued-Reachable).1.0

pub claims_none :
    claim sample_services unlocked "w" 30 2 empty_db ≡ Result.ok (none, drawn_after empty_db)
unfolding after submit submitted_row pending_row insert_job inserted new_job_id record_submitted
    insert_event select_job or_fail statement query done submission_hash ◌>>=◌ claim first_claimable
    pick claim_before eligible take_next take update_jobs claimed record_start insert_attempt
    scan_service_job
claims_none = refl

abbrev pub replayed_db : Db
replayed_db = after (replay_dlq sample_services 1 0 5) failed_db

abbrev pub replayed_job : Job
replayed_job = given (given_job none) (replay_dlq sample_services 1 0 5 failed_db)

pub replays_ok : replay_dlq sample_services 1 0 5 failed_db ≡ Result.ok (replayed_job, replayed_db)
unfolding after submit submitted_row pending_row insert_job inserted new_job_id record_submitted
    insert_event select_job or_fail statement query done submission_hash ◌>>=◌ claim first_claimable
    pick claim_before eligible take_next take update_jobs claimed record_start insert_attempt
    scan_service_job fail failed_row failure_status released bounded_error record_failure
    update_attempts dead_letter insert_dlq holds_lease when replay_dlq public_entry replay
    replay_row mark_replayed
replays_ok = refl

-- A root that waits for its one child.
abbrev pub waiting_db : Db
waiting_db = after (complete sample_services held_job child_result 3) claimed_db

abbrev pub waiting_row : Row
waiting_row = first_row waiting_db.jobs

pub waiting_row-found : find_where (has_id "u") waiting_db.jobs ≡ some waiting_row
unfolding after submit submitted_row pending_row insert_job inserted new_job_id record_submitted
    insert_event select_job or_fail statement query done submission_hash ◌>>=◌ claim first_claimable
    pick claim_before eligible take_next take update_jobs claimed record_start insert_attempt
    scan_service_job complete completion_status released update_attempts record_completion
    insert_children insert_audit_relationship ecosystem_of relate_decoded insert_submission
    child_row insert_audit_result holds_lease when
waiting_row-found = refl

abbrev pub rest_of : List Row → List Row
rest_of [] = []
rest_of (r ∷ rows) = rows

abbrev pub child_of_waiting : Row
child_of_waiting = first_row (rest_of waiting_db.jobs)

abbrev pub cancelled_db : Db
cancelled_db = after (cancel "uuu" 8) waiting_db

abbrev pub cancelled_job : Job
cancelled_job = given (given_job none) (cancel "uuu" 8 waiting_db)

pub cancels_ok : cancel "uuu" 8 waiting_db ≡ Result.ok (cancelled_job, cancelled_db)
unfolding after submit submitted_row pending_row insert_job inserted new_job_id record_submitted
    insert_event select_job or_fail statement query done submission_hash ◌>>=◌ claim first_claimable
    pick claim_before eligible take_next take update_jobs claimed record_start insert_attempt
    scan_service_job complete completion_status released update_attempts record_completion
    insert_children insert_audit_relationship ecosystem_of relate_decoded insert_submission
    child_row insert_audit_result holds_lease when cancel get_job cancel_in cancelled_row
    record_cancellation
cancels_ok = refl

pub child-found : find_where (has_id "uuu") waiting_db.jobs ≡ some child_of_waiting
unfolding after submit submitted_row pending_row insert_job inserted new_job_id record_submitted
    insert_event select_job or_fail statement query done submission_hash ◌>>=◌ claim first_claimable
    pick claim_before eligible take_next take update_jobs claimed record_start insert_attempt
    scan_service_job complete completion_status released update_attempts record_completion
    insert_children insert_audit_relationship ecosystem_of relate_decoded insert_submission
    child_row insert_audit_result holds_lease when
child-found = refl

pub child-is_claimable : is_claimable child_of_waiting.status ≡ true
unfolding after submit submitted_row pending_row insert_job inserted new_job_id record_submitted
    insert_event select_job or_fail statement query done submission_hash ◌>>=◌ claim first_claimable
    pick claim_before eligible take_next take update_jobs claimed record_start insert_attempt
    scan_service_job complete completion_status released update_attempts record_completion
    insert_children insert_audit_relationship ecosystem_of relate_decoded insert_submission
    child_row insert_audit_result holds_lease when
child-is_claimable = refl

pub child-apart : str_eq waiting_row.id child_of_waiting.id ≡ false
unfolding after submit submitted_row pending_row insert_job inserted new_job_id record_submitted
    insert_event select_job or_fail statement query done submission_hash ◌>>=◌ claim first_claimable
    pick claim_before eligible take_next take update_jobs claimed record_start insert_attempt
    scan_service_job complete completion_status released update_attempts record_completion
    insert_children insert_audit_relationship ecosystem_of relate_decoded insert_submission
    child_row insert_audit_result holds_lease when
child-apart = refl

pub waiting_row-inside : Memᴰ waiting_row waiting_db.jobs
unfolding after submit submitted_row pending_row insert_job inserted new_job_id record_submitted
    insert_event select_job or_fail statement query done submission_hash ◌>>=◌ claim first_claimable
    pick claim_before eligible take_next take update_jobs claimed record_start insert_attempt
    scan_service_job complete completion_status released update_attempts record_completion
    insert_children insert_audit_relationship ecosystem_of relate_decoded insert_submission
    child_row insert_audit_result holds_lease when
waiting_row-inside = Memᴰ.head refl
