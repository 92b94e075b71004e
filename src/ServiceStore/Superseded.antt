-- ===== src/ServiceStore/Superseded.antt =====
-- What a worker can do with a job value whose lease was given up, whatever calls are made between.
use dependecy_graph_auditor.Prelude.{
  ℕ, ◌≡◌, refl, sym, subst, inl, inr, String, str_eq, eq_iff, Bool, false, Option, none, some, List,
  All-update_where, All-Memᴰ, Memᴰ, arith,
}
use dependecy_graph_auditor.Job.{ErrorKind, Job, HandlerResult, Error}
use dependecy_graph_auditor.ServiceStore.Tables.{Row, Db, Services}
use dependecy_graph_auditor.ServiceStore.Transaction.{Result, Tx, after}
use dependecy_graph_auditor.ServiceStore.Statements.{has_id}
use dependecy_graph_auditor.ServiceStore.Claim.{claimed, holds_lease, heartbeat, claim}
use dependecy_graph_auditor.ServiceStore.Complete.{complete}
use dependecy_graph_auditor.ServiceStore.Fail.{fail}
use dependecy_graph_auditor.ServiceStore.Rows.{IsIssued}
use dependecy_graph_auditor.ServiceStore.Keeps.{Keeps}
use dependecy_graph_auditor.ServiceStore.Robust.{
  Robust-submit, Robust-retry, Robust-replay_dlq, Robust-complete, Robust-fail,
  Robust-reclaim_expired, Robust-heartbeat, Robust-cancel,
}
use dependecy_graph_auditor.ServiceStore.Claiming.{claim_ok}
use dependecy_graph_auditor.ServiceStore.Leasing.{not_issued_yet}
use dependecy_graph_auditor.ServiceStore.History.{after_holds, Reachable-Consistent}
use dependecy_graph_auditor.ServiceStore.Fencing.{
  IsFenced, IsFenced-IsRobust, complete_fenced, fail_fenced, heartbeat_fenced, complete-IsFenced,
  fail-IsFenced,
}
use dependecy_graph_auditor.ServiceStore.System.{Call, System, held_after, step, Reachable, Leads}

other_token :
    (v : Job) (r : Row) (worker token : String) (lease now : ℕ)
    → str_eq v.lease_token token ≡ false
    → holds_lease v (claimed worker token lease now r) ≡ false
unfolding holds_lease claimed
other_token v r worker token lease now differ =
    ground (arith, eq_iff v.lease_token token, eq_iff token v.lease_token)

Memᴰ-held_after :
    (v : Job) (r : Result (Option Job × Db)) (held : List Job)
    → Memᴰ v held
    → Memᴰ v (held_after r held)
Memᴰ-held_after v (Result.ok (none, db)) held m = m
Memᴰ-held_after v (Result.ok (some value, db)) held m = Memᴰ.tail m
Memᴰ-held_after v (Result.err e) held m = m

module _ (services : Services) (v : Job) where
  abbrev pub Fenced : Db → Type 0
  Fenced db = IsFenced v db.drawn db.jobs

  Fenced-after :
      {A : Type 0} (m : Tx A) (db : Db) → Keeps (IsFenced v) m → Fenced db → Fenced (after m db)
  Fenced-after m db k h = after_holds Fenced m db (λ db' a e. k.at db db' a e h) h

  Fenced-claim :
      (locked : String → Bool) (worker : String) (lease now : ℕ) (db db' : Db) (o : Option Job)
      → IsIssued services db.drawn (some v.lease_token)
      → claim services locked worker lease now db ≡ Result.ok (o, db')
      → Fenced db
      → Fenced db'
  Fenced-claim locked worker lease now db db' o issued e h =
      elim (claim_ok services locked worker lease now db db' o e) [
        | inl (_, nothing, same) ↦ subst Fenced same h
        | inr (next, first, taken) ↦
            subst (λ rows. IsFenced v db'.drawn rows) (sym taken.rows)
              (All-update_where (λ r. holds_lease v r ≡ false) (has_id next.id) _ db.jobs
                (λ r free hit.
                  other_token v r worker (services.new_uuid db.drawn) lease now
                    (not_issued_yet services db.drawn v.lease_token issued))
                h)
      ]

  Fenced-step :
      (s : System) (c : Call)
      → IsIssued services s.db.drawn (some v.lease_token)
      → Fenced s.db
      → Fenced (step services s c).db
  unfolding step
  Fenced-step s (Call.submits input now) i h =
      Fenced-after _ s.db (Robust-submit services (IsFenced-IsRobust services v) input now) h
  Fenced-step s (Call.claims locked worker lease now) i h =
      after_holds Fenced (claim services locked worker lease now) s.db
        (λ db' o e. Fenced-claim locked worker lease now s.db db' o i e h) h
  Fenced-step s (Call.beats w lease now) i h =
      Fenced-after _ s.db (Robust-heartbeat services (IsFenced-IsRobust services v) w lease now) h
  Fenced-step s (Call.completes w result now) i h =
      Fenced-after _ s.db (Robust-complete services (IsFenced-IsRobust services v) w result now) h
  Fenced-step s (Call.fails w kind text retry_at now) i h =
      Fenced-after _ s.db
        (Robust-fail services (IsFenced-IsRobust services v) w kind text retry_at now) h
  Fenced-step s (Call.cancels id now) i h =
      Fenced-after _ s.db (Robust-cancel services (IsFenced-IsRobust services v) id now) h
  Fenced-step s (Call.retries id limit now) i h =
      Fenced-after _ s.db (Robust-retry services (IsFenced-IsRobust services v) id limit now) h
  Fenced-step s (Call.replays entry limit now) i h =
      Fenced-after _ s.db
        (Robust-replay_dlq services (IsFenced-IsRobust services v) entry limit now) h
  Fenced-step s (Call.reclaims locked now) i h =
      Fenced-after _ s.db
        (Robust-reclaim_expired services (IsFenced-IsRobust services v) locked now) h

  Memᴰ-step : (s : System) (c : Call) → Memᴰ v s.held → Memᴰ v (step services s c).held
  unfolding step
  Memᴰ-step s (Call.submits input now) m = m
  Memᴰ-step s (Call.claims locked worker lease now) m =
      Memᴰ-held_after v (claim services locked worker lease now s.db) s.held m
  Memᴰ-step s (Call.beats w lease now) m = m
  Memᴰ-step s (Call.completes w result now) m = m
  Memᴰ-step s (Call.fails w kind text retry_at now) m = m
  Memᴰ-step s (Call.cancels id now) m = m
  Memᴰ-step s (Call.retries id limit now) m = m
  Memᴰ-step s (Call.replays entry limit now) m = m
  Memᴰ-step s (Call.reclaims locked now) m = m

  -- What stays true of a fenced value that a worker holds.
  Holds : System → Type 0
  Holds s = Reachable services s × (Memᴰ v s.held × Fenced s.db)

  Holds-later : (s t : System) → Leads services s t → Holds s → Holds t
  unfolding Holds
  Holds-later s _ Leads.stay h = h
  Holds-later s _ (Leads.later {t} l c p) h =
      let (reach, (m, f)) = Holds-later s t l h in
      let issued = (Reachable-Consistent services t reach).1.1 in
      (
        Reachable.next reach c p,
        (
          Memᴰ-step t c m,
          Fenced-step t c
              (All-Memᴰ (λ w. IsIssued services t.db.drawn (some w.lease_token)) t.held issued m) f,
        ),
      )

  -- What the store answers to a worker that calls with `v`: nothing is changed.
  pub record Refused (db : Db) : Type 0 where
    pub completion :
        (result : HandlerResult) (now : ℕ)
        → complete services v result now db ≡ Result.err Error.lease_lost
    pub failure :
        (kind : ErrorKind) (text : String) (retry_at now : ℕ)
        → fail services v kind text retry_at now db ≡ Result.err Error.lease_lost
    pub beat : (lease now : ℕ) → heartbeat v lease now db ≡ Result.ok (false, db)

  Fenced-Refused : (db : Db) → Fenced db → Refused db
  Fenced-Refused db h = record {
    completion = λ result now. complete_fenced services v result now db h;
    failure = λ kind text retry_at now. fail_fenced services v kind text retry_at now db h;
    beat = λ lease now. heartbeat_fenced v lease now db h;
  }

  pub after_ok :
      {A : Type 0} (m : Tx A) (db db' : Db) (a : A) → m db ≡ Result.ok (a, db') → after m db ≡ db'
  unfolding after
  after_ok m db db' a e = rw (after, e) refl

  pub Refused-later :
      (s t : System) (db' : Db)
      → Reachable services s
      → Memᴰ v s.held
      → s.db ≡ db'
      → Fenced db'
      → Leads services s t
      → Refused t.db
  unfolding Holds
  Refused-later s t db' reach m same h l =
      Fenced-Refused t.db (Holds-later s t l (reach, (m, subst Fenced (sym same) h))).1.1

  -- Once a worker has completed a job under a lease, every later call of Complete or Fail with the
  -- value of that lease returns ErrLeaseLost, and every later Heartbeat returns false and changes
  -- nothing, whatever calls are made in between; from a state reachable from the empty store.
  pub complete-is_final :
      (s t : System) (result : HandlerResult) (now : ℕ) (db' : Db)
      → Reachable services s
      → Memᴰ v s.held
      → complete services v result now s.db ≡ Result.ok (tt, db')
      → Leads services (step services s (Call.completes v result now)) t
      → Refused t.db
  unfolding step
  complete-is_final s t result now db' reach m e l =
      Refused-later (step services s (Call.completes v result now)) t db'
        (Reachable.next reach (Call.completes v result now) m) m
        (after_ok (complete services v result now) s.db db' tt e)
        (complete-IsFenced services v result now s.db db' e) l

  -- The same holds once a worker has reported a failure under a lease: no later Complete, Fail or
  -- Heartbeat with the value of that lease has an effect, whether the job was retried or not.
  pub fail-is_final :
      (s t : System) (kind : ErrorKind) (text : String) (retry_at now : ℕ) (db' : Db)
      → Reachable services s
      → Memᴰ v s.held
      → fail services v kind text retry_at now s.db ≡ Result.ok (tt, db')
      → Leads services (step services s (Call.fails v kind text retry_at now)) t
      → Refused t.db
  unfolding step
  fail-is_final s t kind text retry_at now db' reach m e l =
      Refused-later (step services s (Call.fails v kind text retry_at now)) t db'
        (Reachable.next reach (Call.fails v kind text retry_at now) m) m
        (after_ok (fail services v kind text retry_at now) s.db db' tt e)
        (fail-IsFenced services v kind text retry_at now s.db db' e) l
