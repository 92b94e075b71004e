-- ===== src/ServiceStore/Expiry.antt =====
-- `ReclaimExpired` keeps the table sound: the values that it has read stay those of their rows while
-- it works through them.
use dependecy_graph_auditor.Prelude.{
  ℕ, ◌≡◌, subst, ◌⊎◌, inl, inr, String, Bool, true, false, ◌&&◌, ◌||◌, not, ◌==◌, List, [], ◌∷◌,
  select_where, map, All, All-imp, All-update_where, All-Memᴰ, All-map, All-of_members, Memᴰ,
  Memᴰ-select_where, arith,
}
use dependecy_graph_auditor.Job.{Job}
use dependecy_graph_auditor.ServiceStore.Tables.{Row, Db, Services}
use dependecy_graph_auditor.ServiceStore.Transaction.{Result}
use dependecy_graph_auditor.ServiceStore.Statements.{scan_service_job, has_id, update_jobs}
use dependecy_graph_auditor.ServiceStore.Finalize.{settled}
use dependecy_graph_auditor.ServiceStore.Reclaim.{
  is_expired, reclaim_status, reclaimed, reclaim_one, reclaim_all, reclaim_expired,
}
use dependecy_graph_auditor.ServiceStore.Rows.{IsSound, settled-IsSound, reclaimed-IsSound}
use dependecy_graph_auditor.ServiceStore.Identity.{DistinctIds, DistinctIds-only}
use dependecy_graph_auditor.ServiceStore.Keeps.{
  Keeps, bind_ok, Keeps-bind, Keeps-done, Keeps-update_jobs, keeps_rules,
}
use dependecy_graph_auditor.ServiceStore.Tails.{
  IsSettleable, Keeps-finalize_root, Keeps-update_attempts,
}
use dependecy_graph_auditor.ServiceStore.Invariant.{SoundRows}
use dependecy_graph_auditor.ServiceStore.Selected.{query_ok}

-- A row with the id of a value shows its attempts and their limit.
abbrev tracks : Row → Job → Bool
tracks r v = not (has_id v.id r) || (r.attempts == v.attempts && r.max_attempts == v.max_attempts)

tracked :
    (r : Row) (v : Job)
    → has_id v.id r ≡ true
    → tracks r v ≡ true
    → (r.attempts ≡ v.attempts) × (r.max_attempts ≡ v.max_attempts)
tracked r v hit e = ground arith

tracks-scan_service_job :
    (r s : Row) → (has_id s.id r ≡ false) ⊎ (r ≡ s) → tracks r (scan_service_job s) ≡ true
unfolding scan_service_job
tracks-scan_service_job r s (inl miss) = ground arith
tracks-scan_service_job r s (inr same) = rw same (ground arith)

second_of : (a b : Bool) → (a && b) ≡ true → b ≡ true
second_of a b e = ground arith

module _ (services : Services) (held expired : List Job) where
  abbrev Tracked : ℕ → List Row → Type 0
  Tracked n rows = All (λ r. IsSound services held n r × All (λ v. tracks r v ≡ true) expired) rows

  Tracked-update :
      (p : Row → Bool) (f : Row → Row)
      → ((n : ℕ) (r : Row)
          → p r ≡ true
          → IsSound services held n r
          → All (λ v. tracks r v ≡ true) expired
          → IsSound services held n (f r) × All (λ v. tracks (f r) v ≡ true) expired)
      → Keeps Tracked (update_jobs p f)
  Tracked-update p f step =
      Keeps-update_jobs Tracked p f
        λ n rows h. All-update_where _ p f rows (λ r k hit. step n r hit k.0 k.1) h

  Tracked-settleable : IsSettleable Tracked
  unfolding settled
  Tracked-settleable = record {
    settles = λ id status message now ended. Tracked-update _ _ λ n r hit h t. (
      settled-IsSound services held n r status message now ended (second_of (has_id id r) _ hit) h,
      t,
    );
  }

  reclaim_step :
      (v : Job) (now : ℕ)
      → Memᴰ v expired
      → (n : ℕ) (r : Row) → has_id v.id r ≡ true
      → IsSound services held n r
      → All (λ w. tracks r w ≡ true) expired
      → IsSound services held n (reclaimed (reclaim_status v) now r)
  reclaim_step v now m n r hit h t =
      let (attempt, limit) = tracked r v hit (All-Memᴰ (λ w. tracks r w ≡ true) expired t m) in
      reclaimed-IsSound services held n r v now attempt limit (omega (arith, h.attempts_left))

  Tracked-reclaim_one :
      (v : Job) (now : ℕ) → Memᴰ v expired → Keeps Tracked (reclaim_one services v now)
  unfolding reclaim_one reclaimed
  Tracked-reclaim_one v now m =
      Keeps-bind _ _ (Tracked-update _ _ λ n r hit h t. (reclaim_step v now m n r hit h t, t))
        λ affected.
          search
            (keeps_rules, Keeps-update_attempts, Keeps-finalize_root services Tracked-settleable)
            depth 12

  Tracked-reclaim_all :
      (vs : List Job) (now : ℕ)
      → All (λ v. Memᴰ v expired) vs
      → Keeps Tracked (reclaim_all services vs now)
  unfolding reclaim_all
  Tracked-reclaim_all [] now m = Keeps-done tt
  Tracked-reclaim_all (v ∷ vs) now m =
      Keeps-bind _ _ (Tracked-reclaim_one v now m.0) λ _. Tracked-reclaim_all vs now m.1

module _ (services : Services) (held : List Job) where
  Tracked-at :
      (p : Row → Bool) (n : ℕ) (rows : List Row)
      → DistinctIds rows
      → SoundRows services held n rows
      → Tracked services held (map scan_service_job (select_where p rows)) n rows
  Tracked-at p n rows d h = All-of_members _ rows λ r inside. (
    All-Memᴰ (IsSound services held n) rows h inside,
    All-map _ scan_service_job (select_where p rows) (
        All-of_members _ (select_where p rows) λ s chosen. tracks-scan_service_job r s (
          All-Memᴰ (λ t. (has_id s.id t ≡ false) ⊎ (t ≡ s)) rows
            (DistinctIds-only rows s d (Memᴰ-select_where p rows chosen).0) inside)),
  )

  pub Sound-reclaim_expired :
      (locked : String → Bool) (now : ℕ) (db db' : Db) (count : ℕ)
      → reclaim_expired services locked now db ≡ Result.ok (count, db')
      → DistinctIds db.jobs
      → SoundRows services held db.drawn db.jobs
      → SoundRows services held db'.drawn db'.jobs
  unfolding reclaim_expired
  Sound-reclaim_expired locked now db db' count e d h =
      let (expired, mid, first, rest) = bind_ok _ _ db db' count e in
      let (read, same) =
        query_ok (λ t. map scan_service_job (select_where (is_expired locked now) t.jobs)) db mid
          expired first in
      All-imp _ (IsSound services held db'.drawn) db'.jobs (λ r k. k.0)
        ((Keeps-bind _ _
            (Tracked-reclaim_all services held expired expired now
              (All-of_members _ expired (λ v m. m)))
            (λ _. Keeps-done _)).at
          mid db' count rest
          (subst (λ t. Tracked services held expired t.drawn t.jobs) same
            (subst (λ vs. Tracked services held vs db.drawn db.jobs) read
              (Tracked-at (is_expired locked now) db.drawn db.jobs d h))))
