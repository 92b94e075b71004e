-- ===== src/ServiceStore/Choice.antt =====
-- Which job a claim takes, and when it takes none.
use dependecy_graph_auditor.Prelude.{
  ℕ, ◌≤◌, ◌<◌, ◌≡◌, refl, ◌∙◌, ap, subst, ◌⊎◌, inl, inr, String, Bool, true, false, none, some,
  List, [], ◌∷◌, ◌+◌, ◌↔◌, Option, is_some, if◌then◌else◌, select_where, All, All-imp, Memᴰ,
  Memᴰ-select_where, Bool-cases, arith,
}
use mathlib.Core.Option.{some-injective}
use dependecy_graph_auditor.Job.{Status, Job}
use dependecy_graph_auditor.ServiceStore.Tables.{Row, Db, Services}
use dependecy_graph_auditor.ServiceStore.Transaction.{Result, query, done, ◌>>=◌}
use dependecy_graph_auditor.ServiceStore.Statements.{scan_service_job, new_job_id}
use dependecy_graph_auditor.ServiceStore.Operate.{first_of_two}
use dependecy_graph_auditor.ServiceStore.Claim.{
  is_claimable, eligible, claim_before, pick, first_claimable, claimed, take_next, claim,
}
use dependecy_graph_auditor.ServiceStore.Identity.{DistinctIds}
use dependecy_graph_auditor.ServiceStore.Claiming.{
  Memᴰ-first_claimable, drawn_after, candidates, claim_ok,
}
use dependecy_graph_auditor.ServiceStore.Leasing.{claimed_only}

-- `a` was due before `b`, or with it and was created no later.
abbrev pub NoLater : Row → Row → Type 0
NoLater a b =
    (a.scheduled_at < b.scheduled_at)
    ⊎ ((a.scheduled_at ≡ b.scheduled_at) × (a.created_at ≤ b.created_at))

NoLater-self : (a : Row) → NoLater a a
NoLater-self a = inr (refl, omega arith)

NoLater-trans : (a b c : Row) → NoLater a b → NoLater b c → NoLater a c
NoLater-trans a b c (inl p) (inl q) = inl (omega arith)
NoLater-trans a b c (inl p) (inr q) = inl (omega (arith, q.0))
NoLater-trans a b c (inr p) (inl q) = inl (omega (arith, p.0))
NoLater-trans a b c (inr p) (inr q) = inr (p.0 ∙ q.0, omega (arith, p.1, q.1))

module _ (services : Services) where
  claim_before-NoLater : (a b : Row) → claim_before services a b ≡ true → NoLater a b
  unfolding claim_before
  claim_before-NoLater a b e = ground arith

  not_before_NoLater : (a b : Row) → claim_before services a b ≡ false → NoLater b a
  unfolding claim_before
  not_before_NoLater a b e = ground arith

  pick-first :
      (r : Row) (s : Row)
      → NoLater (pick services r (some s)) r × NoLater (pick services r (some s)) s
  unfolding pick
  pick-first r s = elim (Bool-cases (claim_before services s r)) [
    | inl before ↦ rw before (claim_before-NoLater s r before, NoLater-self s)
    | inr later ↦ rw later (NoLater-self r, not_before_NoLater s r later)
  ]

  pub first_claimable-NoLater :
      (rows : List Row) (x : Row)
      → first_claimable services rows ≡ some x
      → All (λ r. NoLater x r) rows
  unfolding first_claimable
  first_claimable-NoLater [] x e = tt
  first_claimable-NoLater (r ∷ []) x e =
      let same : r ≡ x = ground arith in (subst (λ y. NoLater y r) same (NoLater-self r), tt)
  first_claimable-NoLater (r ∷ s ∷ rows) x e = (
    subst (λ y. NoLater y r) same firsts.0,
    All-imp (NoLater best) (NoLater x) (s ∷ rows)
        (λ t k. NoLater-trans x best t (subst (λ y. NoLater y best) same firsts.1) k)
        (first_claimable-NoLater (s ∷ rows) best refl),
  )
    where
      best : Row
      best = pick services s (first_claimable services rows)

      same : pick services r (some best) ≡ x
      same = some-injective _ _ e

      firsts : NoLater (pick services r (some best)) r × NoLater (pick services r (some best)) best
      firsts = pick-first r best

  pub first_claimable-none : (rows : List Row) → first_claimable services rows ≡ none → rows ≡ []
  unfolding first_claimable
  first_claimable-none [] e = refl
  first_claimable-none (r ∷ rows) e = cc

-- A row that may be claimed: it is pending or waits for a retry, is due, and nobody has locked it.
abbrev pub IsDue : (String → Bool) → ℕ → Row → Type 0
IsDue locked now r =
    ((r.status ≡ Status.pending) ⊎ (r.status ≡ Status.retry_scheduled))
    × (r.scheduled_at ≤ now)
    × (locked r.id ≡ false)

is_claimable-cases :
    (s : Status) → is_claimable s ≡ true → (s ≡ Status.pending) ⊎ (s ≡ Status.retry_scheduled)
is_claimable-cases Status.pending e = inl refl
is_claimable-cases Status.retry_scheduled e = inr refl
is_claimable-cases Status.running e = cc
is_claimable-cases Status.waiting e = cc
is_claimable-cases Status.completed e = cc
is_claimable-cases Status.failed e = cc
is_claimable-cases Status.dead_lettered e = cc
is_claimable-cases Status.cancelled e = cc

module _ (locked : String → Bool) (now : ℕ) where
  eligible-IsDue : (r : Row) → eligible locked now r ≡ true → IsDue locked now r
  unfolding eligible
  eligible-IsDue r e = (is_claimable-cases r.status (ground arith), ground arith, ground arith)

  IsDue-eligible : (r : Row) → IsDue locked now r → eligible locked now r ≡ true
  unfolding eligible
  IsDue-eligible r (status, due, free) =
      let claimable : is_claimable r.status ≡ true = elim status [
        | inl e ↦ ap is_claimable e
        | inr e ↦ ap is_claimable e
      ] in
      ground (arith, claimable, due, free)

  -- What holds of every selected row holds of every row that may be claimed.
  selected-IsDue :
      (P : Row → Type 0) (rows : List Row)
      → All P (select_where (eligible locked now) rows)
      → All (λ r. IsDue locked now r → P r) rows
  selected-IsDue P [] h = tt
  selected-IsDue P (r ∷ rows) h = elim (Bool-cases (eligible locked now r)) [
    | inl e ↦ let h = rw e at h in (λ due. h.0, selected-IsDue P rows h.1)
    | inr e ↦ let h = rw e at h in (λ due. cc (IsDue-eligible r due, e), selected-IsDue P rows h)
  ]

  none_selected :
      (rows : List Row)
      → All (λ r. ¬ IsDue locked now r) rows
      → select_where (eligible locked now) rows ≡ []
  none_selected [] h = refl
  none_selected (r ∷ rows) h = elim (Bool-cases (eligible locked now r)) [
    | inl e ↦ absurd (h.0 (eligible-IsDue r e))
    | inr e ↦ rw e (none_selected rows h.1)
  ]

module _ (services : Services) (locked : String → Bool) (worker : String) (lease now : ℕ)
    (db : Db) where
  -- A claim that returns a job has taken a row that is pending or waits for a retry, due and not
  -- locked, and none of the other such rows was due before it, or with it and created before it;
  -- the value that it returns is that row, now running, with one attempt more, and leased to the
  -- worker until the lease is over under a token drawn for it. The ids of the table are distinct.
  pub claim-takes_first :
      (db' : Db) (value : Job)
      → DistinctIds db.jobs
      → claim services locked worker lease now db ≡ Result.ok (some value, db')
      → (next : Row) × Memᴰ next db.jobs
        × IsDue locked now next
        × (value
            ≡ scan_service_job (record next {
              status = Status.running;
              attempts = next.attempts + 1;
              started_at = first_of_two next.started_at now;
              locked_by = some worker;
              lease_token = some (services.new_uuid db.drawn);
              locked_until = some (now + lease);
              heartbeat_at = some now;
            }))
        × All (λ r. IsDue locked now r → NoLater next r) db.jobs
  unfolding claimed
  claim-takes_first db' value d e =
      elim (claim_ok services locked worker lease now db db' (some value) e) [
        | inl (_, nothing, same) ↦ cc
        | inr (next, first, taken) ↦
            let (inside, fits) =
              Memᴰ-select_where (eligible locked now) db.jobs
                (Memᴰ-first_claimable services (candidates locked now db) next first) in
            (
              next,
              inside,
              eligible-IsDue locked now next fits,
              some-injective _ _ taken.value
                  ∙ ap scan_service_job (
                      claimed_only db.jobs next taken.row
                        (claimed worker (services.new_uuid db.drawn) lease now) d inside taken.found
                        (λ r. refl)
                      ∙ started_row next),
              selected-IsDue locked now (NoLater next) db.jobs
                  (first_claimable-NoLater services (candidates locked now db) next first),
            )
      ]
    where
      started_at_first : (o : Option ℕ) → (if is_some o then o else some now) ≡ first_of_two o now
      started_at_first none = refl
      started_at_first (some t) = refl

      started_row :
          (next : Row)
          → claimed worker (services.new_uuid db.drawn) lease now next ≡ record next {
            status = Status.running;
            attempts = next.attempts + 1;
            started_at = first_of_two next.started_at now;
            locked_by = some worker;
            lease_token = some (services.new_uuid db.drawn);
            locked_until = some (now + lease);
            heartbeat_at = some now;
          }
      started_row next = rw (started_at_first next.started_at) refl

  -- A claim returns nothing, draws a token and changes no table exactly where no row is pending or
  -- waits for a retry, due and not locked.
  pub claim-takes_none :
      (claim services locked worker lease now db ≡ Result.ok (none, drawn_after db))
      ↔ All (λ r. ¬ IsDue locked now r) db.jobs
  unfolding claim new_job_id query take_next done first_claimable ◌>>=◌
  claim-takes_none = (
    λ e. elim (claim_ok services locked worker lease now db (drawn_after db) none e) [
      | inl (nothing, _, same) ↦
          let empty = first_claimable-none services (candidates locked now db) nothing in
          selected-IsDue locked now (λ r. ⊥) db.jobs (rw empty tt)
      | inr (next, first, taken) ↦ cc taken.value
    ],
    λ h. rw (none_selected locked now db.jobs h) refl,
  )
