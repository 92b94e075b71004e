-- ===== src/ServiceStore/Invariant.antt =====
-- Every call keeps the table of jobs sound and its ids distinct.
use dependecy_graph_auditor.Prelude.{
  ℕ, suc, ◌+◌, ◌≤◌, ◌≡◌, refl, String, eq_iff, Bool, true, ◌&&◌, not, ◌||◌, none, some, List, [],
  ◌∷◌, is_some, if◌then◌else◌, All, All-imp, All-append, All-update_where, All-Memᴰ, Memᴰ, arith,
}
use dependecy_graph_auditor.Job.{
  ErrorKind, Job, Submission, HandlerResult, is_running, is_completed, is_retry_scheduled,
}
use dependecy_graph_auditor.ServiceStore.Tables.{Row, Services}
use dependecy_graph_auditor.ServiceStore.Statements.{has_id, update_jobs}
use dependecy_graph_auditor.ServiceStore.Claim.{holds_lease, heartbeat}
use dependecy_graph_auditor.ServiceStore.Complete.{completion_status, released, complete}
use dependecy_graph_auditor.ServiceStore.Fail.{failure_status, failed_row, fail}
use dependecy_graph_auditor.ServiceStore.Submit.{submit}
use dependecy_graph_auditor.ServiceStore.Operate.{replay_dlq}
use dependecy_graph_auditor.ServiceStore.Retry.{retry}
use dependecy_graph_auditor.ServiceStore.Rows.{
  is_terminal, reserved, agrees, IsSound, IsSound-suc, settled-IsSound, released-IsSound,
  fresh-IsSound, extended-IsSound, failed_row-IsSound,
}
use dependecy_graph_auditor.ServiceStore.Keeps.{
  Keeps, Keeps-bind, Keeps-fail_with, Keeps-if, Keeps-done, Keeps-update_jobs, Keeps-insert_job,
  Keeps-new_job_id,
}
use dependecy_graph_auditor.ServiceStore.Tails.{
  IsStable, IsSettleable, Keeps-record_completion, Keeps-record_failure, Keeps-submit, Keeps-retry,
  Keeps-replay_dlq,
}

-- What `holds_lease` says of a sound row: it shows the worker's value.
leased_values :
    (r : Row) (v : Job)
    → holds_lease v r ≡ true
    → agrees r v ≡ true
    → (r.id ≡ v.id)
      × (r.root_job_id ≡ v.root_job_id)
      × (r.attempts ≡ v.attempts)
      × (r.max_attempts ≡ v.max_attempts)
unfolding holds_lease
leased_values r v e a = ground (arith, eq_iff r.id v.id, eq_iff r.root_job_id v.root_job_id)

module _ (services : Services) (held : List Job) where
  abbrev pub SoundRows : ℕ → List Row → Type 0
  SoundRows n rows = All (IsSound services held n) rows

  pub SoundRows-update :
      (p : Row → Bool) (f : Row → Row)
      → ((n : ℕ) (r : Row) → p r ≡ true → IsSound services held n r → IsSound services held n (f r))
      → Keeps SoundRows (update_jobs p f)
  SoundRows-update p f step = Keeps-update_jobs SoundRows p f λ n rows h.
      All-update_where (IsSound services held n) p f rows (λ r old hit. step n r hit old) h

  SoundRows-stable : IsStable services SoundRows
  SoundRows-stable = record {
    draws =
        Keeps-new_job_id SoundRows services λ n rows h.
          All-imp _ (IsSound services held (suc n)) rows (IsSound-suc services held n) h;
    inserts = λ r fresh.
        Keeps-insert_job SoundRows r
          λ n rows _ h. All-append _ rows (r ∷ []) h (fresh-IsSound services held n r fresh, tt);
  }

  second_of : (a b : Bool) → (a && b) ≡ true → b ≡ true
  second_of a b e = ground arith

  SoundRows-settleable : IsSettleable SoundRows
  SoundRows-settleable = record {
    settles = λ id status message now ended. SoundRows-update _ _ λ n r hit h.
        settled-IsSound services held n r status message now ended (second_of (has_id id r) _ hit)
          h;
  }

  completion-IsSound :
      (v : Job) (result : HandlerResult) (now : ℕ)
      → Memᴰ v held
      → (n : ℕ) (r : Row) → holds_lease v r ≡ true
      → IsSound services held n r
      → IsSound services held n (
          released
            (completion_status v result)
            (if is_completed (completion_status v result) then some now else none)
            r)
  unfolding completion_status
  completion-IsSound v result now m n r hit h =
      let (id, root, attempt, limit) =
        leased_values r v hit (All-Memᴰ (λ w. agrees r w ≡ true) held h.leases_agree m) in
      released-IsSound services held n r _ _ (ground arith) (ground arith)
        (rw (id, root) (ground arith)) (ground arith)

  pub Sound-complete :
      (v : Job) (result : HandlerResult) (now : ℕ)
      → Memᴰ v held
      → Keeps SoundRows (complete services v result now)
  unfolding complete
  Sound-complete v result now m =
      Keeps-bind _ _ (SoundRows-update _ _ (completion-IsSound v result now m)) λ affected.
        Keeps-if _ _ _
          (Keeps-record_completion services SoundRows-stable SoundRows-settleable v result _ now)
          (Keeps-fail_with _)

  failure_status_ends :
      (v : Job) (kind : ErrorKind)
      → (is_terminal (failure_status v kind) || is_retry_scheduled (failure_status v kind)) ≡ true
  unfolding failure_status
  failure_status_ends v ErrorKind.permanent = refl
  failure_status_ends v ErrorKind.cancelled = refl
  failure_status_ends v ErrorKind.transient = ground arith

  failure_status_left :
      (v : Job) (kind : ErrorKind)
      → v.attempts ≤ v.max_attempts
      → v.attempts + reserved (failure_status v kind) ≤ v.max_attempts
  unfolding failure_status
  failure_status_left v ErrorKind.permanent h = omega arith
  failure_status_left v ErrorKind.cancelled h = omega arith
  failure_status_left v ErrorKind.transient h = ground arith

  failure-IsSound :
      (v : Job) (kind : ErrorKind) (message : String) (retry_at now : ℕ)
      → Memᴰ v held
      → (n : ℕ) (r : Row) → holds_lease v r ≡ true
      → IsSound services held n r
      → IsSound services held n (failed_row (failure_status v kind) kind message retry_at now r)
  failure-IsSound v kind message retry_at now m n r hit h =
      let (id, root, attempt, limit) =
        leased_values r v hit (All-Memᴰ (λ w. agrees r w ≡ true) held h.leases_agree m) in
      failed_row-IsSound services held n r (failure_status v kind) kind message retry_at now
        (failure_status_ends v kind)
        (rw (attempt, limit)
          (failure_status_left v kind (omega (arith, h.attempts_left, attempt, limit))))

  pub Sound-fail :
      (v : Job) (kind : ErrorKind) (text : String) (retry_at now : ℕ)
      → Memᴰ v held
      → Keeps SoundRows (fail services v kind text retry_at now)
  unfolding fail
  Sound-fail v kind text retry_at now m =
      Keeps-bind _ _ (SoundRows-update _ _ (failure-IsSound v kind _ retry_at now m)) λ affected.
        Keeps-if _ _ _ (Keeps-record_failure services SoundRows-settleable v _ kind _ now)
          (Keeps-fail_with _)

  leased_running :
      (v : Job) (r : Row)
      → (holds_lease v r && not (is_some r.cancel_requested_at)) ≡ true
      → is_running r.status ≡ true
  unfolding holds_lease
  leased_running v r e = ground arith

  pub Sound-heartbeat : (v : Job) (lease now : ℕ) → Keeps SoundRows (heartbeat v lease now)
  unfolding heartbeat
  Sound-heartbeat v lease now =
      Keeps-bind _ _
        (SoundRows-update _ _
          λ n r hit h. extended-IsSound services held n r lease now (leased_running v r hit) h)
        λ affected. Keeps-done _

  pub Sound-submit : (input : Submission) (now : ℕ) → Keeps SoundRows (submit services input now)
  Sound-submit = Keeps-submit services SoundRows-stable

  pub Sound-retry : (id : String) (limit now : ℕ) → Keeps SoundRows (retry services id limit now)
  Sound-retry = Keeps-retry services SoundRows-stable

  pub Sound-replay_dlq :
      (entry limit now : ℕ) → Keeps SoundRows (replay_dlq services entry limit now)
  Sound-replay_dlq = Keeps-replay_dlq services SoundRows-stable
