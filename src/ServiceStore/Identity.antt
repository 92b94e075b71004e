-- ===== src/ServiceStore/Identity.antt =====
-- No two rows of `jobs` have one id.
use dependecy_graph_auditor.Prelude.{
  ◌≡◌, sym, ◌∙◌, ◌⊎◌, inl, inr, eq_iff, Bool, false, List, [], ◌∷◌, ◌++◌, is_some, if◌then◌else◌,
  find_where, update_where, All, All-imp, All-append, All-update_where, All-Memᴰ, Memᴰ, arith,
}
use dependecy_graph_auditor.ServiceStore.Tables.{Row}
use dependecy_graph_auditor.ServiceStore.Statements.{has_id}

abbrev pub DistinctIds : List Row → Type 0
DistinctIds [] = Unit
DistinctIds (r ∷ rows) = All (λ s. has_id r.id s ≡ false) rows × DistinctIds rows

pub has_id_sym : (r s : Row) → has_id r.id s ≡ has_id s.id r
has_id_sym r s = ground (arith, eq_iff r.id s.id, eq_iff s.id r.id)

-- The two halves of the test that the id is not taken.
not_taken_head :
    (r s : Row) (rows : List Row)
    → is_some (find_where (has_id s.id) (r ∷ rows)) ≡ false
    → (has_id s.id r ≡ false) × (is_some (find_where (has_id s.id) rows) ≡ false)
not_taken_head r s rows e = ground arith

pub DistinctIds-append :
    (rows : List Row) (s : Row)
    → is_some (find_where (has_id s.id) rows) ≡ false
    → DistinctIds rows
    → DistinctIds (rows ++ s ∷ [])
DistinctIds-append [] s e h = (tt, tt)
DistinctIds-append (r ∷ rows) s e h =
    let (here, there) = not_taken_head r s rows e in
    (
      All-append (λ t. has_id r.id t ≡ false) rows (s ∷ []) h.0 (has_id_sym r s ∙ here, tt),
      DistinctIds-append rows s there h.1,
    )

pub DistinctIds-update_where :
    (p : Row → Bool) (f : Row → Row) (rows : List Row)
    → ((r : Row) → (f r).id ≡ r.id)
    → DistinctIds rows
    → DistinctIds (update_where p f rows)
DistinctIds-update_where p f [] same h = tt
DistinctIds-update_where p f (r ∷ rows) same h = (
  rw kept_id
      (All-update_where (λ t. has_id r.id t ≡ false) p f rows (λ t miss _. rw (same t) miss) h.0),
  DistinctIds-update_where p f rows same h.1,
)
  where
    kept_id : (if p r then f r else r).id ≡ r.id
    kept_id = ground (arith, same r)

-- A row of the table is the only one with its id.
pub DistinctIds-only :
    (rows : List Row) (s : Row)
    → DistinctIds rows
    → Memᴰ s rows
    → All (λ r. (has_id s.id r ≡ false) ⊎ (r ≡ s)) rows
DistinctIds-only [] s h m = tt
DistinctIds-only (r ∷ rows) s h (Memᴰ.head e) = (
  inr (sym e),
  All-imp (λ t. has_id r.id t ≡ false) (λ t. (has_id s.id t ≡ false) ⊎ (t ≡ s)) rows
      (λ t miss. inl (rw e miss)) h.0,
)
DistinctIds-only (r ∷ rows) s h (Memᴰ.tail m) = (
  inl (has_id_sym s r ∙ All-Memᴰ (λ t. has_id r.id t ≡ false) rows h.0 m),
  DistinctIds-only rows s h.1 m,
)
