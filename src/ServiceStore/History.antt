-- ===== src/ServiceStore/History.antt =====
-- Every history of calls keeps the store consistent, whichever worker makes them and when.
use dependecy_graph_auditor.Prelude.{ℕ, ◌≡◌, refl, String, Bool, Option, List}
use dependecy_graph_auditor.Job.{Job}
use dependecy_graph_auditor.ServiceStore.Tables.{Db, Services}
use dependecy_graph_auditor.ServiceStore.Transaction.{Result, Tx, after}
use dependecy_graph_auditor.ServiceStore.Claim.{claim}
use dependecy_graph_auditor.ServiceStore.Operate.{cancel}
use dependecy_graph_auditor.ServiceStore.Reclaim.{reclaim_expired}
use dependecy_graph_auditor.ServiceStore.Keeps.{Keeps}
use dependecy_graph_auditor.ServiceStore.Invariant.{
  SoundRows, Sound-complete, Sound-fail, Sound-heartbeat, Sound-submit, Sound-retry,
  Sound-replay_dlq,
}
use dependecy_graph_auditor.ServiceStore.Selected.{Sound-cancel}
use dependecy_graph_auditor.ServiceStore.Expiry.{Sound-reclaim_expired}
use dependecy_graph_auditor.ServiceStore.Ids.{IdTable, IdTable-IsRobust}
use dependecy_graph_auditor.ServiceStore.Robust.{
  Robust-submit, Robust-retry, Robust-replay_dlq, Robust-complete, Robust-fail,
  Robust-reclaim_expired, Robust-heartbeat, Robust-cancel,
}
use dependecy_graph_auditor.ServiceStore.Leasing.{Consistent, Consistent-claim}
use dependecy_graph_auditor.ServiceStore.System.{
  Call, System, held_with, held_after, step, IsPossible, Reachable,
}

-- A property of the tables that a transaction keeps when it commits, and so in any case.
pub after_holds :
    {A : Type 0} (P : Db → Type 0) (m : Tx A) (db : Db)
    → ((db' : Db) (a : A) → m db ≡ Result.ok (a, db') → P db')
    → P db
    → P (after m db)
unfolding after
after_holds {A} P m db commits h = go (m db) commits
  where
    go :
        (r : Result (A × Db))
        → ((db' : Db) (a : A) → r ≡ Result.ok (a, db') → P db')
        → P (elim r [ Result.ok (a, db') ↦ db' | Result.err e ↦ db ])
    go (Result.ok (a, db')) k = k db' a refl
    go (Result.err e) k = h

module _ (services : Services) (held : List Job) where
  after-Consistent :
      {A : Type 0} (m : Tx A) (db : Db)
      → Keeps (SoundRows services held) m
      → Keeps (IdTable services held) m
      → Consistent services held db
      → Consistent services held (after m db)
  after-Consistent m db rows ids h =
      after_holds (Consistent services held) m db
        (λ db' a e. (rows.at db db' a e h.0, ids.at db db' a e h.1)) h

  cancel-Consistent :
      (id : String) (now : ℕ) (db : Db)
      → Consistent services held db
      → Consistent services held (after (cancel id now) db)
  cancel-Consistent id now db h =
      after_holds (Consistent services held) (cancel id now) db
        (λ db' a e. (
          Sound-cancel services held id now db db' a e h.1.0 h.0,
          (Robust-cancel services (IdTable-IsRobust services held) id now).at db db' a e h.1,
        ))
        h

  reclaim-Consistent :
      (locked : String → Bool) (now : ℕ) (db : Db)
      → Consistent services held db
      → Consistent services held (after (reclaim_expired services locked now) db)
  reclaim-Consistent locked now db h =
      after_holds (Consistent services held) (reclaim_expired services locked now) db
        (λ db' count e. (
          Sound-reclaim_expired services held locked now db db' count e h.1.0 h.0,
          (Robust-reclaim_expired services (IdTable-IsRobust services held) locked now).at db db'
              count e h.1,
        ))
        h

  claim_after :
      (m : Tx (Option Job)) (db : Db)
      → ((db' : Db) (o : Option Job)
          → m db ≡ Result.ok (o, db')
          → Consistent services (held_with o held) db')
      → Consistent services held db
      → Consistent services (held_after (m db) held) (after m db)
  unfolding after
  claim_after m db commits h = go (m db) commits
    where
      go :
          (r : Result (Option Job × Db))
          → ((db' : Db) (o : Option Job)
              → r ≡ Result.ok (o, db')
              → Consistent services (held_with o held) db')
          → Consistent services
              (held_after r held)
              (elim r [ Result.ok (a, db') ↦ db' | Result.err e ↦ db ])
      go (Result.ok (o, db')) k = k db' o refl
      go (Result.err e) k = h

module _ (services : Services) where
  step-Consistent :
      (s : System) (c : Call)
      → IsPossible services s c
      → Consistent services s.held s.db
      → Consistent services (step services s c).held (step services s c).db
  unfolding step
  step-Consistent s (Call.submits input now) p h =
      after-Consistent services s.held _ s.db (Sound-submit services s.held input now)
        (Robust-submit services (IdTable-IsRobust services s.held) input now) h
  step-Consistent s (Call.claims locked worker lease now) p h =
      claim_after services s.held (claim services locked worker lease now) s.db
        (λ db' o e. Consistent-claim services s.held locked worker lease now s.db db' o e h) h
  step-Consistent s (Call.beats v lease now) p h =
      after-Consistent services s.held _ s.db (Sound-heartbeat services s.held v lease now)
        (Robust-heartbeat services (IdTable-IsRobust services s.held) v lease now) h
  step-Consistent s (Call.completes v result now) p h =
      after-Consistent services s.held _ s.db (Sound-complete services s.held v result now p)
        (Robust-complete services (IdTable-IsRobust services s.held) v result now) h
  step-Consistent s (Call.fails v kind text retry_at now) p h =
      after-Consistent services s.held _ s.db
        (Sound-fail services s.held v kind text retry_at now p)
        (Robust-fail services (IdTable-IsRobust services s.held) v kind text retry_at now) h
  step-Consistent s (Call.cancels id now) p h = cancel-Consistent services s.held id now s.db h
  step-Consistent s (Call.retries id limit now) p h =
      after-Consistent services s.held _ s.db (Sound-retry services s.held id limit now)
        (Robust-retry services (IdTable-IsRobust services s.held) id limit now) h
  step-Consistent s (Call.replays entry limit now) p h =
      after-Consistent services s.held _ s.db (Sound-replay_dlq services s.held entry limit now)
        (Robust-replay_dlq services (IdTable-IsRobust services s.held) entry limit now) h
  step-Consistent s (Call.reclaims locked now) p h =
      reclaim-Consistent services s.held locked now s.db h

  -- In every state that calls lead to from the empty store, each row of `jobs` is sound (it has a
  -- lease exactly while it is running, an end time exactly when it has ended, an attempt left while
  -- it can be claimed, it waits for children only as a root, its token was drawn, and a value that a
  -- worker holds under that token names the same job, root, attempt and limit), the ids of the rows
  -- are distinct, and every value that a worker holds has a token that was drawn.
  pub Reachable-Consistent : (s : System) → Reachable services s → Consistent services s.held s.db
  Reachable-Consistent _ Reachable.start = (tt, (tt, tt))
  Reachable-Consistent _ (Reachable.next {s} r c p) =
      step-Consistent s c p (Reachable-Consistent s r)
