-- ===== src/ServiceStore/Verdicts.antt =====
-- The status of a root by the statuses of its children, and the counts from which `finalizeRoot`
-- makes it.
use dependecy_graph_auditor.Prelude.{
  ℕ, zero, suc, ◌≡◌, ◌≢◌, refl, ap, inl, inr, ◌↔◌, String, Bool, true, false, ◌&&◌, List, [], ◌∷◌,
  count_where, All, All-imp, Bool-cases, arith,
}
use dependecy_graph_auditor.Job.{Status, is_dead_lettered}
use dependecy_graph_auditor.ServiceStore.Tables.{Row}
use dependecy_graph_auditor.ServiceStore.Finalize.{
  is_active, is_unsuccessful, is_child, active_children, failed_children, dead_children,
  root_status,
}

-- A count is zero when nothing passes the test, and only then.
count_zero :
    {A : Type 0} (p : A → Bool) (xs : List A) → (count_where p xs ≡ 0) ↔ All (λ x. p x ≡ false) xs
count_zero p [] = (λ e. tt, λ h. refl)
count_zero p (x ∷ xs) = elim (Bool-cases (p x)) [
  | inl hit ↦ (λ e. absurd (omega (arith, rw hit at e)), λ h. cc (h.0, hit))
  | inr miss ↦
      (λ e. (miss, (count_zero p xs).0 (rw miss at e)), λ h. rw miss ((count_zero p xs).1 h.1))
]

-- Every child of the root in the table has the property.
abbrev pub Children : String → List Row → (Status → Type 0) → Type 0
Children root rows P = All (λ r. is_child root r ≡ true → P r.status) rows

-- The status that a root gets from those of its children.
pub record Verdict (root : String) (rows : List Row) (status : Status) : Type 0 where
  pub ended : Children root rows (λ s. is_active s ≡ false)
  pub completed_iff : (status ≡ Status.completed) ↔ Children root rows (λ s. s ≡ Status.completed)
  pub failed_iff : (status ≡ Status.failed) ↔ (
      Children root rows (λ s. s ≢ Status.dead_lettered)
      × ¬ Children root rows (λ s. s ≡ Status.completed))
  pub dead_iff :
      (status ≢ Status.dead_lettered) ↔ Children root rows (λ s. s ≢ Status.dead_lettered)

ended_well : (s : Status) → is_active s ≡ false → is_unsuccessful s ≡ false → s ≡ Status.completed
ended_well Status.completed a u = refl
ended_well Status.pending a u = cc
ended_well Status.running a u = cc
ended_well Status.retry_scheduled a u = cc
ended_well Status.waiting a u = cc
ended_well Status.failed a u = cc
ended_well Status.dead_lettered a u = cc
ended_well Status.cancelled a u = cc

not_dead : (s : Status) → is_dead_lettered s ≡ false ↔ s ≢ Status.dead_lettered
not_dead s = (λ e same. cc (ap is_dead_lettered same, e), λ k. go s k)
  where
    go : (s : Status) → s ≢ Status.dead_lettered → is_dead_lettered s ≡ false
    go Status.dead_lettered k = absurd (k refl)
    go Status.completed k = refl
    go Status.pending k = refl
    go Status.running k = refl
    go Status.retry_scheduled k = refl
    go Status.waiting k = refl
    go Status.failed k = refl
    go Status.cancelled k = refl

root_status-completed :
    (failed dead : ℕ) → (root_status failed dead ≡ Status.completed) ↔ ((failed ≡ 0) × (dead ≡ 0))
unfolding root_status
root_status-completed failed dead = (λ e. (ground arith, ground arith), λ h. ground arith)

root_status_dead : (failed dead : ℕ) → (root_status failed dead ≢ Status.dead_lettered) ↔ (dead ≡ 0)
unfolding root_status
root_status_dead zero zero = (λ k. refl, λ e same. cc)
root_status_dead (suc failed) zero = (λ k. refl, λ e same. ground arith)
root_status_dead failed (suc dead) =
    (λ k. absurd (k (ground arith)), λ e same. absurd (omega arith))

root_status_failed :
    (failed dead : ℕ) → (root_status failed dead ≡ Status.failed) ↔ ((dead ≡ 0) × (failed ≢ 0))
unfolding root_status
root_status_failed zero zero = (λ e. cc, λ h. absurd (h.1 refl))
root_status_failed (suc failed) zero =
    (λ e. (refl, λ same. absurd (omega arith)), λ h. ground arith)
root_status_failed failed (suc dead) = (λ e. ground arith, λ h. absurd (omega (arith, h.0)))

Children_both :
    (root : String) (rows : List Row) (P Q R : Status → Type 0)
    → ((s : Status) → P s → Q s → R s)
    → Children root rows P
    → Children root rows Q
    → Children root rows R
Children_both root [] P Q R f h k = tt
Children_both root (r ∷ rows) P Q R f h k =
    (λ child. f r.status (h.0 child) (k.0 child), Children_both root rows P Q R f h.1 k.1)

Children_imp :
    (root : String) (rows : List Row) (P Q : Status → Type 0)
    → ((s : Status) → P s → Q s)
    → Children root rows P
    → Children root rows Q
Children_imp root rows P Q f h = Children_both root rows P P Q (λ s p _. f s p) h h

module _ (root : String) (rows : List Row) where
  -- A count of children, read as a statement about each.
  pub count_children :
      (p : Status → Bool)
      → (count_where (λ r. is_child root r && p r.status) rows ≡ 0)
        ↔ Children root rows (λ s. p s ≡ false)
  count_children p = (
    λ e.
        All-imp _ (λ r. is_child root r ≡ true → p r.status ≡ false) rows
          (λ r k child. ground arith) ((count_zero _ rows).0 e),
    λ h. (count_zero _ rows).1 (
        All-imp _ (λ r. (is_child root r && p r.status) ≡ false) rows
          (λ r k. none_of (is_child root r) (p r.status) k) h),
  )
    where
      none_of : (a b : Bool) → (a ≡ true → b ≡ false) → (a && b) ≡ false
      none_of true b k = k refl
      none_of false b k = refl

  all_completed :
      Children root rows (λ s. is_active s ≡ false)
      → (failed_children root rows ≡ 0) ↔ Children root rows (λ s. s ≡ Status.completed)
  unfolding failed_children
  all_completed ended = (
    λ none_failed.
        Children_both root rows _ (λ s. is_unsuccessful s ≡ false) (λ s. s ≡ Status.completed)
          ended_well ended ((count_children is_unsuccessful).0 none_failed),
    λ all. (count_children is_unsuccessful).1 (
        Children_imp root rows _ (λ s. is_unsuccessful s ≡ false) (λ s k. ap is_unsuccessful k)
          all),
  )

  none_dead : (dead_children root rows ≡ 0) ↔ Children root rows (λ s. s ≢ Status.dead_lettered)
  unfolding dead_children
  none_dead = (
    λ e.
        Children_imp root rows _ (λ s. s ≢ Status.dead_lettered) (λ s. (not_dead s).0)
          ((count_children is_dead_lettered).0 e),
    λ all.
        (count_children is_dead_lettered).1
          (Children_imp root rows _ (λ s. is_dead_lettered s ≡ false) (λ s. (not_dead s).1) all),
  )

  pub Verdict-of :
      active_children root rows ≡ 0
      → Verdict root rows (root_status (failed_children root rows) (dead_children root rows))
  unfolding active_children
  Verdict-of e =
      let ended = (count_children is_active).0 e in
      let completed = all_completed ended in
      record {
        ended = ended;
        completed_iff = (
          λ same. completed.0 ((root_status-completed _ _).0 same).0,
          λ all. (root_status-completed _ _).1 (
            completed.1 all,
            none_dead.1 (
                Children_imp root rows _ (λ s. s ≢ Status.dead_lettered) (λ s k same. cc (k, same))
                  all),
          ),
        );
        failed_iff = (
          λ same.
              let (no_dead, some_failed) = (root_status_failed _ _).0 same in
              (none_dead.0 no_dead, λ all. some_failed (completed.1 all)),
          λ h.
              (root_status_failed _ _).1
                (none_dead.1 h.0, λ none_failed. h.1 (completed.0 none_failed)),
        );
        dead_iff = (
          λ k. none_dead.0 ((root_status_dead _ _).0 k),
          λ all. (root_status_dead _ _).1 (none_dead.1 all),
        );
      }
