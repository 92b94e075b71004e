-- ===== src/ServiceStore/Tests.antt =====
-- The theorems about the store, at the runs of it.
use dependecy_graph_auditor.Prelude.{
  if◌then◌else◌, ◌+◌, none, some, ◌↔◌, ◌≡◌, refl, true, false, [], ◌∷◌, Memᴰ, All, ◌⊎◌,
}
use dependecy_graph_auditor.Job.{Status, ErrorKind, Error, is_waiting, is_completed}
use dependecy_graph_auditor.ServiceStore.Tables.{Row, Db, empty_db}
use dependecy_graph_auditor.ServiceStore.Transaction.{
  Result, after, ◌>>=◌, done, query, statement, or_fail, when,
}
use dependecy_graph_auditor.ServiceStore.Statements.{
  scan_service_job, pending_row, inserted, insert_job, select_job, update_jobs, insert_event,
  new_job_id, submission_hash,
}
use dependecy_graph_auditor.ServiceStore.Submit.{
  submitted_row, record_submitted, submit, child_row, insert_submission,
}
use dependecy_graph_auditor.ServiceStore.Claim.{
  eligible, claim_before, pick, first_claimable, claimed, insert_attempt, record_start, take,
  take_next, claim, holds_lease,
}
use dependecy_graph_auditor.ServiceStore.Complete.{
  ecosystem_of, relate_decoded, insert_audit_relationship, insert_children, insert_audit_result,
  update_attempts, released, completion_status, record_completion, complete,
}
use dependecy_graph_auditor.ServiceStore.Operate.{
  first_of_two, get_job, cancelled_row, record_cancellation, cancel_in, cancel, replay_dlq,
}
use dependecy_graph_auditor.ServiceStore.System.{Leads}
use dependecy_graph_auditor.ServiceStore.Finalize.{
  is_active, active_children, root_error_kind, failure_message, finalize_root,
}
use dependecy_graph_auditor.ServiceStore.Claiming.{drawn_after}
use dependecy_graph_auditor.ServiceStore.Leasing.{Consistent}
use dependecy_graph_auditor.ServiceStore.History.{Reachable-Consistent}
use dependecy_graph_auditor.ServiceStore.Superseded.{Refused, complete-is_final, fail-is_final}
use dependecy_graph_auditor.ServiceStore.Reclaiming.{reclaim_expired-is_final}
use dependecy_graph_auditor.ServiceStore.Choice.{
  NoLater, IsDue, claim-takes_first, claim-takes_none,
}
use dependecy_graph_auditor.ServiceStore.Idempotency.{submit-submit}
use dependecy_graph_auditor.ServiceStore.Replays.{replay_dlq-replay_dlq}
use dependecy_graph_auditor.ServiceStore.Verdicts.{Children, Verdict}
use dependecy_graph_auditor.ServiceStore.Settlement.{finalize_root-Verdict}
use dependecy_graph_auditor.ServiceStore.Cancelling.{cancel-leaves_others}
use dependecy_graph_auditor.ServiceStore.Samples.{
  nth_uuid, sample_services, keyed_submission, plain_result, unlocked,
}
use dependecy_graph_auditor.ServiceStore.Runs.{
  submitted_db, submitted_job, submits_ok, claimed_db, held_job, claims_ok, leased,
  leased-Reachable, completed_db, completes_ok, completed_later, completed-Leads, failed_db,
  fails_ok, failed, reclaimed_db, reclaims_ok, claimed_row, claimed_row-inside,
  claimed_row-is_expired, claimed_row-id, expired, submitted-DistinctIds, replayed_db, replayed_job,
  replays_ok, waiting_db, waiting_row, waiting_row-found, child_of_waiting, cancelled_db,
  cancelled_job, cancels_ok, child-found, child-is_claimable, child-apart, waiting_row-inside,
}

Reachable-Consistent_example : Consistent sample_services (held_job ∷ []) claimed_db
Reachable-Consistent_example = Reachable-Consistent sample_services leased leased-Reachable

complete-is_final_example : Refused sample_services held_job completed_later.db
complete-is_final_example =
    complete-is_final sample_services held_job leased completed_later plain_result 3 completed_db
      leased-Reachable (Memᴰ.head refl) completes_ok completed-Leads

fail-is_final_example : Refused sample_services held_job failed.db
fail-is_final_example =
    fail-is_final sample_services held_job leased failed ErrorKind.transient "timeout" 9 3 failed_db
      leased-Reachable (Memᴰ.head refl) fails_ok Leads.stay

reclaim_expired-is_final_example : Refused sample_services held_job expired.db
reclaim_expired-is_final_example =
    reclaim_expired-is_final sample_services held_job leased expired unlocked 100 1 reclaimed_db
      claimed_row leased-Reachable (Memᴰ.head refl) reclaims_ok claimed_row-inside
      claimed_row-is_expired claimed_row-id Leads.stay

claim-takes_first_example :
    (next : Row) × Memᴰ next submitted_db.jobs
    × IsDue unlocked 2 next
    × (held_job
        ≡ scan_service_job (record next {
          status = Status.running;
          attempts = next.attempts + 1;
          started_at = first_of_two next.started_at 2;
          locked_by = some "w";
          lease_token = some (nth_uuid submitted_db.drawn);
          locked_until = some 32;
          heartbeat_at = some 2;
        }))
    × All (λ r. IsDue unlocked 2 r → NoLater next r) submitted_db.jobs
claim-takes_first_example =
    claim-takes_first sample_services unlocked "w" 30 2 submitted_db claimed_db held_job
      submitted-DistinctIds claims_ok

claim-takes_none_example :
    (claim sample_services unlocked "w" 30 2 empty_db ≡ Result.ok (none, drawn_after empty_db))
    ↔ All (λ r. ¬ IsDue unlocked 2 r) empty_db.jobs
claim-takes_none_example = claim-takes_none sample_services unlocked "w" 30 2 empty_db

submit-submit_example :
    submit sample_services keyed_submission 9 submitted_db
    ≡ Result.ok ((submitted_job.0, false), drawn_after submitted_db)
submit-submit_example =
    submit-submit sample_services keyed_submission 1 9 empty_db submitted_db submitted_job.0
      submitted_job.1 refl submits_ok

replay_dlq-replay_dlq_example :
    replay_dlq sample_services 1 3 8 replayed_db ≡ Result.err Error.conflict
replay_dlq-replay_dlq_example =
    replay_dlq-replay_dlq sample_services 1 0 5 3 8 failed_db replayed_db replayed_job replays_ok

finalize_root-Verdict_example :
    ((¬ Children "u" waiting_db.jobs (λ s. is_active s ≡ false))
      × (finalize_root sample_services "u" 7 waiting_db ≡ Result.ok (tt, waiting_db)))
    ⊎ ((status : Status) × (db' : Db) × Verdict "u" waiting_db.jobs status
        × (finalize_root sample_services "u" 7 waiting_db ≡ Result.ok (tt, db'))
        × (is_waiting waiting_row.status ≡ true
            → Memᴰ
                (record waiting_row {
                  status = status;
                  completed_at = some 7;
                  last_error =
                      if is_completed status
                      then none
                      else some (failure_message waiting_row.job_type);
                  last_error_kind = root_error_kind status;
                })
                db'.jobs))
finalize_root-Verdict_example =
    finalize_root-Verdict sample_services "u" 7 waiting_db waiting_row waiting_row-found

cancel-leaves_others_example : Memᴰ waiting_row cancelled_db.jobs
cancel-leaves_others_example =
    cancel-leaves_others waiting_row "uuu" 8 waiting_db cancelled_db child_of_waiting cancelled_job
      cancels_ok child-found child-is_claimable child-apart waiting_row-inside

-- No child is active any more, and the root still waits.
cancelled-stuck :
    (active_children "u" cancelled_db.jobs ≡ 0) × (is_waiting waiting_row.status ≡ true)
unfolding after submit submitted_row pending_row insert_job inserted new_job_id record_submitted
    insert_event select_job or_fail statement query done submission_hash ◌>>=◌ claim first_claimable
    pick claim_before eligible take_next take update_jobs claimed record_start insert_attempt
    scan_service_job complete completion_status released update_attempts record_completion
    insert_children insert_audit_relationship ecosystem_of relate_decoded insert_submission
    child_row insert_audit_result holds_lease when cancel get_job cancel_in cancelled_row
    record_cancellation active_children
cancelled-stuck = (refl, refl)
