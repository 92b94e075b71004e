-- ===== src/ServiceStore/System.antt =====
-- The store with the workers that use it: a sequence of calls, of which each is one transaction.
-- A worker passes on only the job values that claims have returned to it, however old they are.
use dependecy_graph_auditor.Prelude.{ℕ, String, Bool, Option, none, some, List, [], ◌∷◌, Memᴰ}
use dependecy_graph_auditor.Job.{ErrorKind, Job, Submission, HandlerResult}
use dependecy_graph_auditor.ServiceStore.Tables.{Db, Services, empty_db}
use dependecy_graph_auditor.ServiceStore.Transaction.{Result, after}
use dependecy_graph_auditor.ServiceStore.Submit.{submit}
use dependecy_graph_auditor.ServiceStore.Claim.{claim, heartbeat}
use dependecy_graph_auditor.ServiceStore.Complete.{complete}
use dependecy_graph_auditor.ServiceStore.Fail.{fail}
use dependecy_graph_auditor.ServiceStore.Operate.{cancel, replay_dlq}
use dependecy_graph_auditor.ServiceStore.Retry.{retry}
use dependecy_graph_auditor.ServiceStore.Reclaim.{reclaim_expired}

pub data Call : Type 0 where
  submits : Submission → ℕ → Call
  claims : (String → Bool) → String → ℕ → ℕ → Call
  beats : Job → ℕ → ℕ → Call
  completes : Job → HandlerResult → ℕ → Call
  fails : Job → ErrorKind → String → ℕ → ℕ → Call
  cancels : String → ℕ → Call
  retries : String → ℕ → ℕ → Call
  replays : ℕ → ℕ → ℕ → Call
  reclaims : (String → Bool) → ℕ → Call

-- `held` are the values that claims have returned, the newest first.
pub record System : Type 0 where
  pub db : Db
  pub held : List Job

abbrev pub empty_system : System
empty_system = record { db = empty_db; held = [] }

abbrev pub held_with : Option Job → List Job → List Job
held_with none held = held
held_with (some value) held = value ∷ held

-- What the workers hold after a claim.
abbrev pub held_after : Result (Option Job × Db) → List Job → List Job
held_after (Result.ok (o, db)) held = held_with o held
held_after (Result.err e) held = held

module _ (services : Services) where
  unfoldable pub step : System → Call → System
  unfolding after
  step s (Call.submits input now) = record s { db = after (submit services input now) s.db }
  step s (Call.claims locked worker lease now) = record {
    db = after (claim services locked worker lease now) s.db;
    held = held_after (claim services locked worker lease now s.db) s.held;
  }
  step s (Call.beats value lease now) = record s { db = after (heartbeat value lease now) s.db }
  step s (Call.completes value result now) = record s {
    db = after (complete services value result now) s.db;
  }
  step s (Call.fails value kind message retry_at now) = record s {
    db = after (fail services value kind message retry_at now) s.db;
  }
  step s (Call.cancels id now) = record s { db = after (cancel id now) s.db }
  step s (Call.retries id limit now) = record s { db = after (retry services id limit now) s.db }
  step s (Call.replays entry limit now) = record s {
    db = after (replay_dlq services entry limit now) s.db;
  }
  step s (Call.reclaims locked now) = record s {
    db = after (reclaim_expired services locked now) s.db;
  }

  -- A call that a worker makes about a job is about one that it was given.
  abbrev pub IsPossible : System → Call → Type 0
  IsPossible s (Call.beats value lease now) = Memᴰ value s.held
  IsPossible s (Call.completes value result now) = Memᴰ value s.held
  IsPossible s (Call.fails value kind message retry_at now) = Memᴰ value s.held
  IsPossible s _ = Unit

  pub data Reachable : System → Type 0 where
    start : Reachable empty_system
    next : {s : System} → Reachable s → (c : Call) → IsPossible s c → Reachable (step s c)

  -- A state and one that some further calls lead to.
  pub data Leads (s : System) : System → Type 0 where
    stay : Leads s s
    later : {t : System} → Leads s t → (c : Call) → IsPossible t c → Leads s (step t c)
