-- ===== src/ServiceStore/Robust.antt =====
-- No call but `Claim` leases a row, and only INSERT writes ids. So what holds of the table of jobs
-- by its ids and its leases is kept by every call but `Claim`, once it is kept by those changes.
use dependecy_graph_auditor.Prelude.{
  arith, Option, ℕ, ◌≡◌, refl, String, Bool, true, false, List, [], ◌∷◌,
}
use dependecy_graph_auditor.Job.{Status, ErrorKind, Job, Submission, HandlerResult}
use dependecy_graph_auditor.ServiceStore.Tables.{Row, Services}
use dependecy_graph_auditor.ServiceStore.Transaction.{◌>>=◌}
use dependecy_graph_auditor.ServiceStore.Statements.{update_jobs}
use dependecy_graph_auditor.ServiceStore.Submit.{submit}
use dependecy_graph_auditor.ServiceStore.Claim.{holds_lease, extended, heartbeat}
use dependecy_graph_auditor.ServiceStore.Finalize.{settled}
use dependecy_graph_auditor.ServiceStore.Complete.{released, complete}
use dependecy_graph_auditor.ServiceStore.Fail.{failed_row, fail}
use dependecy_graph_auditor.ServiceStore.Retry.{retry}
use dependecy_graph_auditor.ServiceStore.Operate.{
  get_job, cancelled_row, cancel_requested, record_cancellation, cancel_in, cancel, replay_dlq,
}
use dependecy_graph_auditor.ServiceStore.Reclaim.{
  reclaimed, reclaim_one, reclaim_all, reclaim_expired,
}
use dependecy_graph_auditor.ServiceStore.Rows.{is_terminal}
use dependecy_graph_auditor.ServiceStore.Keeps.{
  Keeps, Keeps-bind, Keeps-done, Keeps-fail_with, Keeps-if, keeps_rules,
}
use dependecy_graph_auditor.ServiceStore.Tails.{
  IsStable, IsSettleable, Keeps-submit, Keeps-retry, Keeps-replay_dlq, Keeps-finalize_root,
  Keeps-record_completion, Keeps-record_failure, Keeps-update_attempts,
}

-- A change that keeps the id and leases the row to nobody anew.
abbrev pub Relents : (Row → Row) → Type 0
Relents f =
    (r : Row)
    → ((f r).id ≡ r.id) × ((v : Job) → holds_lease v (f r) ≡ true → holds_lease v r ≡ true)

settled-Relents :
    (s : Status) (m : String) (now : ℕ) → is_terminal s ≡ true → Relents (settled s m now)
unfolding settled holds_lease
settled-Relents s m now ended r = (refl, λ v e. ground arith)

released-Relents : (s : Status) (ended : Option ℕ) → Relents (released s ended)
unfolding released holds_lease
released-Relents s ended r = (refl, λ v e. ground arith)

failed_row-Relents :
    (s : Status) (kind : ErrorKind) (m : String) (at_time now : ℕ)
    → Relents (failed_row s kind m at_time now)
unfolding failed_row holds_lease
failed_row-Relents s kind m at_time now r = (refl, λ v e. ground arith)

reclaimed-Relents : (s : Status) (now : ℕ) → Relents (reclaimed s now)
unfolding reclaimed holds_lease
reclaimed-Relents s now r = (refl, λ v e. ground arith)

extended-Relents : (lease now : ℕ) → Relents (extended lease now)
unfolding extended holds_lease
extended-Relents lease now r = (refl, λ v e. e)

cancelled_row-Relents : (now : ℕ) → Relents (cancelled_row now)
unfolding cancelled_row holds_lease
cancelled_row-Relents now r = (refl, λ v e. ground arith)

cancel_requested-Relents : (now : ℕ) → Relents (cancel_requested now)
unfolding cancel_requested holds_lease
cancel_requested-Relents now r = (refl, λ v e. e)

pub record IsRobust (services : Services) (P : ℕ → List Row → Type 0) : Type 0 where
  pub stable : IsStable services P
  pub updates : (p : Row → Bool) (f : Row → Row) → Relents f → Keeps P (update_jobs p f)

module _ (services : Services) {P : ℕ → List Row → Type 0} (robust : IsRobust services P) where
  pub settleable : IsSettleable P
  settleable = record {
    settles = λ id status message now ended.
        robust.updates _ _ (settled-Relents status message now ended);
  }

  pub Robust-submit : (input : Submission) (now : ℕ) → Keeps P (submit services input now)
  Robust-submit = Keeps-submit services robust.stable

  pub Robust-retry : (id : String) (limit now : ℕ) → Keeps P (retry services id limit now)
  Robust-retry = Keeps-retry services robust.stable

  pub Robust-replay_dlq : (entry limit now : ℕ) → Keeps P (replay_dlq services entry limit now)
  Robust-replay_dlq = Keeps-replay_dlq services robust.stable

  pub Robust-complete :
      (v : Job) (result : HandlerResult) (now : ℕ) → Keeps P (complete services v result now)
  unfolding complete
  Robust-complete v result now =
      Keeps-bind _ _ (robust.updates _ _ (released-Relents _ _)) λ affected.
        Keeps-if _ _ _ (Keeps-record_completion services robust.stable settleable v result _ now)
          (Keeps-fail_with _)

  pub Robust-fail :
      (v : Job) (kind : ErrorKind) (text : String) (retry_at now : ℕ)
      → Keeps P (fail services v kind text retry_at now)
  unfolding fail
  Robust-fail v kind text retry_at now =
      Keeps-bind _ _ (robust.updates _ _ (failed_row-Relents _ _ _ _ _)) λ affected.
        Keeps-if _ _ _ (Keeps-record_failure services settleable v _ kind _ now) (Keeps-fail_with _)

  pub Robust-reclaim_one : (v : Job) (now : ℕ) → Keeps P (reclaim_one services v now)
  unfolding reclaim_one
  Robust-reclaim_one v now = Keeps-bind _ _ (robust.updates _ _ (reclaimed-Relents _ _)) λ affected.
      search (keeps_rules, Keeps-update_attempts, Keeps-finalize_root services settleable) depth 12

  pub Robust-reclaim_all : (vs : List Job) (now : ℕ) → Keeps P (reclaim_all services vs now)
  unfolding reclaim_all
  Robust-reclaim_all [] now = Keeps-done tt
  Robust-reclaim_all (v ∷ vs) now =
      Keeps-bind _ _ (Robust-reclaim_one v now) λ _. Robust-reclaim_all vs now

  pub Robust-reclaim_expired :
      (locked : String → Bool) (now : ℕ) → Keeps P (reclaim_expired services locked now)
  unfolding reclaim_expired
  Robust-reclaim_expired locked now = search (keeps_rules, Robust-reclaim_all)

  pub Robust-heartbeat : (v : Job) (lease now : ℕ) → Keeps P (heartbeat v lease now)
  unfolding heartbeat
  Robust-heartbeat v lease now =
      Keeps-bind _ _ (robust.updates _ _ (extended-Relents _ _)) λ affected. Keeps-done _

  Robust-record_cancellation :
      (id : String) (now_cancelled : Bool) (now : ℕ)
      → Keeps P (record_cancellation id now_cancelled now)
  unfolding record_cancellation
  Robust-record_cancellation id now_cancelled now = search keeps_rules depth 8

  Robust-mark :
      (p : Row → Bool) (f : Row → Row) (id : String) (c : Bool) (now : ℕ)
      → Relents f
      → Keeps P (update_jobs p f >>= λ _. record_cancellation id c now)
  Robust-mark p f id c now same =
      Keeps-bind _ _ (robust.updates p f same) λ _. Robust-record_cancellation id c now

  Robust-cancel_in : (s : Status) (r : Row) (now : ℕ) → Keeps P (cancel_in s r now)
  unfolding cancel_in
  Robust-cancel_in Status.pending r now = Robust-mark _ _ r.id true now (cancelled_row-Relents now)
  Robust-cancel_in Status.retry_scheduled r now =
      Robust-mark _ _ r.id true now (cancelled_row-Relents now)
  Robust-cancel_in Status.running r now =
      Robust-mark _ _ r.id false now (cancel_requested-Relents now)
  Robust-cancel_in Status.waiting r now =
      Keeps-bind _ _ (robust.updates _ _ (cancelled_row-Relents now))
        λ _. Robust-mark _ _ r.id true now (cancel_requested-Relents now)
  Robust-cancel_in Status.cancelled r now = Keeps-done _
  Robust-cancel_in Status.completed r now = Keeps-fail_with _
  Robust-cancel_in Status.failed r now = Keeps-fail_with _
  Robust-cancel_in Status.dead_lettered r now = Keeps-fail_with _

  pub Robust-cancel : (id : String) (now : ℕ) → Keeps P (cancel id now)
  unfolding cancel get_job
  Robust-cancel id now = search (keeps_rules, Robust-cancel_in) depth 8
