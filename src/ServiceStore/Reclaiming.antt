-- ===== src/ServiceStore/Reclaiming.antt =====
-- A lease that `ReclaimExpired` takes back is lost to the worker that held it.
use dependecy_graph_auditor.Prelude.{
  ℕ, ◌≡◌, refl, sym, ap, ◌∙◌, subst, inl, inr, Bool-cases, String, Bool, true, false, List, [], ◌∷◌,
  map, select_where, All-intro, All-update_turn, Memᴰ,
}
use dependecy_graph_auditor.Job.{Job}
use dependecy_graph_auditor.ServiceStore.Tables.{Row, Db, Services}
use dependecy_graph_auditor.ServiceStore.Transaction.{Result}
use dependecy_graph_auditor.ServiceStore.Statements.{scan_service_job, has_id}
use dependecy_graph_auditor.ServiceStore.Claim.{holds_lease}
use dependecy_graph_auditor.ServiceStore.Reclaim.{
  is_expired, reclaimed, reclaim_status, reclaim_one, reclaim_all, reclaim_expired,
}
use dependecy_graph_auditor.ServiceStore.Keeps.{
  Turns, bind_ok, Turns-bind, Turns-update_jobs, Keeps-done, keeps_rules,
}
use dependecy_graph_auditor.ServiceStore.Tails.{Keeps-update_attempts, Keeps-finalize_root}
use dependecy_graph_auditor.ServiceStore.Robust.{settleable, Robust-reclaim_all}
use dependecy_graph_auditor.ServiceStore.Selected.{query_ok}
use dependecy_graph_auditor.ServiceStore.Fencing.{IsFenced, IsFenced-IsRobust, no_token}
use dependecy_graph_auditor.ServiceStore.System.{Call, System, step, Reachable, Leads}
use dependecy_graph_auditor.ServiceStore.Superseded.{Refused, after_ok, Refused-later}

Memᴰ-kept :
    {A B : Type 0} (p : A → Bool) (f : A → B) (xs : List A) {a : A}
    → Memᴰ a xs
    → p a ≡ true
    → Memᴰ (f a) (map f (select_where p xs))
Memᴰ-kept p f [] m e = elim m [ ]
Memᴰ-kept p f (x ∷ xs) (Memᴰ.head same) e = rw (sym (ap p same) ∙ e) (Memᴰ.head (ap f same))
Memᴰ-kept p f (x ∷ xs) (Memᴰ.tail m) e = elim (Bool-cases (p x)) [
  | inl hit ↦ rw hit (Memᴰ.tail (Memᴰ-kept p f xs m e))
  | inr miss ↦ rw miss (Memᴰ-kept p f xs m e)
]

other_row : (v : Job) (r : Row) → has_id v.id r ≡ false → holds_lease v r ≡ false
unfolding holds_lease
other_row v r e = rw e refl

module _ (services : Services) (v : Job) where
  abbrev Always : ℕ → List Row → Type 0
  Always n rows = Unit

  fences_one :
      (u : Job) (now : ℕ) → u.id ≡ v.id → Turns Always (IsFenced v) (reclaim_one services u now)
  unfolding reclaim_one reclaimed
  fences_one u now same =
      Turns-bind _ _
        (Turns-update_jobs Always (IsFenced v) (has_id u.id) (reclaimed (reclaim_status u) now)
          λ n rows h.
            All-update_turn (λ r. Unit {0}) (λ r. holds_lease v r ≡ false) (has_id u.id) _ rows
              (λ r k hit. no_token v (reclaimed (reclaim_status u) now r) refl)
              (λ r k miss. other_row v r (subst (λ id. has_id id r ≡ false) same miss))
              (All-intro _ rows (λ r. tt)))
        λ affected.
          search
            (
              keeps_rules,
              Keeps-update_attempts,
              Keeps-finalize_root services (settleable services (IsFenced-IsRobust services v)),
            )
            depth 12

  fences_all :
      (us : List Job) (now : ℕ) {u : Job}
      → Memᴰ u us
      → u.id ≡ v.id
      → Turns Always (IsFenced v) (reclaim_all services us now)
  unfolding reclaim_all
  fences_all [] now m e = elim m [ ]
  fences_all (w ∷ us) now (Memᴰ.head same) e =
      Turns-bind _ _ (fences_one w now (sym (ap (λ (j : Job). j.id) same) ∙ e))
        λ _. Robust-reclaim_all services (IsFenced-IsRobust services v) us now
  fences_all (w ∷ us) now (Memᴰ.tail m) e = record {
    at = λ db db' a q h.
        let (_, mid, first, rest) = bind_ok _ _ db db' a q in
        (fences_all us now m e).at mid db' a rest tt;
  }

  reclaim_expired-IsFenced :
      (locked : String → Bool) (now count : ℕ) (db db' : Db) (r : Row)
      → reclaim_expired services locked now db ≡ Result.ok (count, db')
      → Memᴰ r db.jobs
      → is_expired locked now r ≡ true
      → r.id ≡ v.id
      → IsFenced v db'.drawn db'.jobs
  unfolding reclaim_expired scan_service_job
  reclaim_expired-IsFenced locked now count db db' r e m expired same =
      let (us, mid, first, rest) = bind_ok _ _ db db' count e in
      let (read, _) =
        query_ok (λ t. map scan_service_job (select_where (is_expired locked now) t.jobs)) db mid us
          first in
      (Turns-bind _ _
          (fences_all us now
            (subst (Memᴰ (scan_service_job r)) read
              (Memᴰ-kept (is_expired locked now) scan_service_job db.jobs m expired))
            same)
          (λ _. Keeps-done _)).at
        mid db' count rest tt

  -- Once ReclaimExpired has committed over a row whose lease had run out, every later Complete or
  -- Fail with a value that names that row and that a worker held by then returns ErrLeaseLost, and
  -- every later Heartbeat with it returns false and changes nothing, whatever calls are made in
  -- between; from a state reachable from the empty store.
  pub reclaim_expired-is_final :
      (s t : System) (locked : String → Bool) (now count : ℕ) (db' : Db) (r : Row)
      → Reachable services s
      → Memᴰ v s.held
      → reclaim_expired services locked now s.db ≡ Result.ok (count, db')
      → Memᴰ r s.db.jobs
      → is_expired locked now r ≡ true
      → r.id ≡ v.id
      → Leads services (step services s (Call.reclaims locked now)) t
      → Refused services v t.db
  unfolding step
  reclaim_expired-is_final s t locked now count db' r reach m e inside expired same l =
      Refused-later services v (step services s (Call.reclaims locked now)) t db'
        (Reachable.next reach (Call.reclaims locked now) tt) m
        (after_ok services v (reclaim_expired services locked now) s.db db' count e)
        (reclaim_expired-IsFenced locked now count s.db db' r e inside expired same) l
