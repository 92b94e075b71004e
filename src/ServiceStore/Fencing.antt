-- ===== src/ServiceStore/Fencing.antt =====
-- A lease that was given up is never held again: what a worker still does under it is refused.
use dependecy_graph_auditor.Prelude.{
  ℕ, ◌≡◌, refl, inl, inr, String, Bool, true, false, ◌&&◌, not, none, List, [], ◌∷◌, is_some,
  count_where, update_where, All, All-append, All-update_where, All-update_turn, All-intro, All-imp,
  Bool-cases, arith,
}
use dependecy_graph_auditor.Job.{ErrorKind, Job, HandlerResult, Error}
use dependecy_graph_auditor.ServiceStore.Tables.{Row, Db, Services}
use dependecy_graph_auditor.ServiceStore.Transaction.{Result, ◌>>=◌, done}
use dependecy_graph_auditor.ServiceStore.Statements.{update_jobs}
use dependecy_graph_auditor.ServiceStore.Claim.{holds_lease, extended, heartbeat}
use dependecy_graph_auditor.ServiceStore.Complete.{released, complete}
use dependecy_graph_auditor.ServiceStore.Fail.{failed_row, fail}
use dependecy_graph_auditor.ServiceStore.Rows.{IsFresh}
use dependecy_graph_auditor.ServiceStore.Keeps.{
  Turns, Turns-bind, Turns-update_jobs, Keeps-update_jobs, Keeps-insert_job, Keeps-new_job_id,
  Keeps-if, Keeps-fail_with,
}
use dependecy_graph_auditor.ServiceStore.Tails.{Keeps-record_completion, Keeps-record_failure}
use dependecy_graph_auditor.ServiceStore.Robust.{IsRobust, settleable}

-- No row is leased to the holder of `v`.
abbrev pub IsFenced : Job → ℕ → List Row → Type 0
IsFenced v n rows = All (λ r. holds_lease v r ≡ false) rows

fresh_unheld : (v : Job) (r : Row) → IsFresh r → holds_lease v r ≡ false
unfolding holds_lease
fresh_unheld v r fresh = rw fresh.is_queued (ground arith)

unheld_still :
    (v : Job) (f : Row → Row) (r : Row)
    → (holds_lease v (f r) ≡ true → holds_lease v r ≡ true)
    → holds_lease v r ≡ false
    → holds_lease v (f r) ≡ false
unheld_still v f r back e = elim (Bool-cases (holds_lease v (f r))) [
  | inl held ↦ cc (back held, e)
  | inr free ↦ free
]

pub IsFenced-IsRobust : (services : Services) (v : Job) → IsRobust services (IsFenced v)
IsFenced-IsRobust services v = record {
  stable = record {
    draws = Keeps-new_job_id (IsFenced v) services λ n rows h. h;
    inserts = λ r fresh.
        Keeps-insert_job (IsFenced v) r
          λ n rows _ h. All-append _ rows (r ∷ []) h (fresh_unheld v r fresh, tt);
  };
  updates = λ p f relents. Keeps-update_jobs (IsFenced v) p f λ n rows h.
      All-update_where (λ r. holds_lease v r ≡ false) p f rows
        (λ r free hit. unheld_still v f r ((relents r).1 v) free) h;
}

count_none :
    {A : Type 0} (p : A → Bool) (xs : List A) → All (λ x. p x ≡ false) xs → count_where p xs ≡ 0
count_none p [] h = refl
count_none p (x ∷ xs) h = rw (h.0, count_none p xs h.1) refl

update_none :
    {A : Type 0} (p : A → Bool) (f : A → A) (xs : List A)
    → All (λ x. p x ≡ false) xs
    → update_where p f xs ≡ xs
update_none p f [] h = refl
update_none p f (x ∷ xs) h = rw (h.0, update_none p f xs h.1) refl

pub complete_fenced :
    (services : Services) (v : Job) (result : HandlerResult) (now : ℕ) (db : Db)
    → IsFenced v db.drawn db.jobs
    → complete services v result now db ≡ Result.err Error.lease_lost
unfolding complete update_jobs ◌>>=◌
complete_fenced services v result now db h = rw (count_none (holds_lease v) db.jobs h) refl

pub fail_fenced :
    (services : Services) (v : Job) (kind : ErrorKind) (text : String) (retry_at now : ℕ) (db : Db)
    → IsFenced v db.drawn db.jobs
    → fail services v kind text retry_at now db ≡ Result.err Error.lease_lost
unfolding fail update_jobs ◌>>=◌
fail_fenced services v kind text retry_at now db h = rw (count_none (holds_lease v) db.jobs h) refl

abbrev beats : Job → Row → Bool
beats v r = holds_lease v r && not (is_some r.cancel_requested_at)

pub no_token : (v : Job) (r : Row) → r.lease_token ≡ none → holds_lease v r ≡ false
unfolding holds_lease
no_token v r e = rw e (ground arith)

pub heartbeat_fenced :
    (v : Job) (lease now : ℕ) (db : Db)
    → IsFenced v db.drawn db.jobs
    → heartbeat v lease now db ≡ Result.ok (false, db)
unfolding heartbeat update_jobs ◌>>=◌ done
heartbeat_fenced v lease now db h =
    rw
      (count_none (beats v) db.jobs quiet, update_none (beats v) (extended lease now) db.jobs quiet)
      refl
  where
    quiet : All (λ r. beats v r ≡ false) db.jobs
    quiet =
        All-imp (λ r. holds_lease v r ≡ false) (λ r. beats v r ≡ false) db.jobs (λ r e. rw e refl) h

-- An UPDATE of the rows leased to the holder of `v` that gives up their lease.
Fenced_by :
    (v : Job) (f : Row → Row)
    → ((r : Row) → (f r).lease_token ≡ none)
    → Turns (λ n rows. Unit) (IsFenced v) (update_jobs (holds_lease v) f)
Fenced_by v f freed =
    Turns-update_jobs (λ n rows. Unit) (IsFenced v) (holds_lease v) f
      λ n rows h.
        All-update_turn (λ r. Unit {0}) (λ r. holds_lease v r ≡ false) (holds_lease v) f rows
          (λ r k hit. no_token v (f r) (freed r)) (λ r k miss. miss) (All-intro _ rows (λ r. tt))

module _ (services : Services) where
  -- After a completion nobody holds the lease under which it was made.
  pub complete-IsFenced :
      (v : Job) (result : HandlerResult) (now : ℕ) (db db' : Db)
      → complete services v result now db ≡ Result.ok (tt, db')
      → IsFenced v db'.drawn db'.jobs
  unfolding complete released
  complete-IsFenced v result now db db' e =
      (Turns-bind _ _ (Fenced_by v _ (λ r. refl)) λ affected.
          Keeps-if _ _ _
            (Keeps-record_completion services (IsFenced-IsRobust services v).stable
              (settleable services (IsFenced-IsRobust services v)) v result _ now)
            (Keeps-fail_with _)).at
        db db' tt e tt

  pub fail-IsFenced :
      (v : Job) (kind : ErrorKind) (text : String) (retry_at now : ℕ) (db db' : Db)
      → fail services v kind text retry_at now db ≡ Result.ok (tt, db')
      → IsFenced v db'.drawn db'.jobs
  unfolding fail failed_row
  fail-IsFenced v kind text retry_at now db db' e =
      (Turns-bind _ _ (Fenced_by v _ (λ r. refl)) λ affected.
          Keeps-if _ _ _
            (Keeps-record_failure services (settleable services (IsFenced-IsRobust services v)) v _
              kind _ now)
            (Keeps-fail_with _)).at
        db db' tt e tt
