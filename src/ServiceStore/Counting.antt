-- ===== src/ServiceStore/Counting.antt =====
-- The groups of a GROUP BY status count every row once.
use dependecy_graph_auditor.Prelude.{
  ℕ, suc, ◌+◌, ◌≡◌, refl, ◌∙◌, Bool, true, false, ◌&&◌, ◌==◌, List, [], ◌∷◌, count_where,
  if◌then◌else◌, arith, Bool-cases, inl, inr,
}
use dependecy_graph_auditor.Job.{Status}
use dependecy_graph_auditor.ServiceStore.Tables.{Row, Db}
use dependecy_graph_auditor.ServiceStore.Transaction.{Result, query}
use dependecy_graph_auditor.ServiceStore.Listing.{
  Counts, same_status, is_public, all_statuses, count_groups, counts,
}

-- How many rows the groups of some statuses count.
abbrev pub total_of : (Status → Bool) → Counts → ℕ
total_of a [] = 0
total_of a ((s, n) ∷ groups) = if a s then n + total_of a groups else total_of a groups

-- One more where a row is in a status that is asked for.
abbrev one_if : Bool → ℕ
one_if b = if b then 1 else 0

counted_row :
    (b c : Bool) (h n m : ℕ)
    → h ≡ one_if c
    → n ≡ m
    → (if b then h else 0) + n ≡ (if b && c then suc m else m)
counted_row true true h n m e k = omega (arith, e, k)
counted_row true false h n m e k = omega (arith, e, k)
counted_row false c h n m e k = omega (arith, e, k)

module _ (a : Status → Bool) (p : Row → Bool) where
  -- The same, with the groups that have no rows.
  abbrev sum_over : List Row → List Status → ℕ
  sum_over rows [] = 0
  sum_over rows (s ∷ statuses) =
      (if a s then count_where (λ r. p r && same_status s r.status) rows else 0)
      + sum_over rows statuses

  total_of-count_groups :
      (rows : List Row) (statuses : List Status)
      → total_of a (count_groups p rows statuses) ≡ sum_over rows statuses
  unfolding count_groups
  total_of-count_groups rows [] = refl
  total_of-count_groups rows (s ∷ statuses) =
      let rest = total_of-count_groups rows statuses in
      elim (Bool-cases (count_where (λ r. p r && same_status s r.status) rows == 0)) [
        | inl e ↦ rw e (ground (arith, rest, e))
        | inr e ↦ rw (e, rest) (ground arith)
      ]

  sum_over-none : (statuses : List Status) → sum_over [] statuses ≡ 0
  sum_over-none [] = refl
  sum_over-none (s ∷ statuses) = let rest = sum_over-none statuses in ground (arith, rest)

  -- How many of the statuses are a row's own, and asked for.
  abbrev hits : Row → List Status → ℕ
  hits r = count_where (λ s. a s && same_status s r.status)

  -- One more row counts once for each of them.
  sum_over-row :
      (r : Row) (rows : List Row) (statuses : List Status)
      → sum_over (r ∷ rows) statuses ≡ (if p r then hits r statuses else 0) + sum_over rows statuses
  sum_over-row r rows [] = ground arith
  sum_over-row r rows (s ∷ statuses) =
      let rest = sum_over-row r rows statuses in ground (arith, rest)

  own_status : (s : Status) → count_where (λ t. a t && same_status t s) all_statuses ≡ one_if (a s)
  unfolding same_status
  own_status Status.pending = ground arith
  own_status Status.running = ground arith
  own_status Status.waiting = ground arith
  own_status Status.retry_scheduled = ground arith
  own_status Status.completed = ground arith
  own_status Status.failed = ground arith
  own_status Status.dead_lettered = ground arith
  own_status Status.cancelled = ground arith

  sum_over-all :
      (rows : List Row) → sum_over rows all_statuses ≡ count_where (λ r. p r && a r.status) rows
  sum_over-all [] = sum_over-none all_statuses
  sum_over-all (r ∷ rows) =
      let rest = sum_over-all rows in
      let row = sum_over-row r rows all_statuses in
      let own = own_status r.status in
      row ∙ counted_row (p r) (a r.status) (hits r all_statuses) _ _ own rest

  -- The groups of some statuses count the rows that are in one of them.
  pub total_of-groups :
      (rows : List Row)
      → total_of a (count_groups p rows all_statuses) ≡ count_where (λ r. p r && a r.status) rows
  total_of-groups rows = total_of-count_groups rows all_statuses ∙ sum_over-all rows

count_where-and_true :
    (p : Row → Bool) (rows : List Row) → count_where (λ r. p r && true) rows ≡ count_where p rows
count_where-and_true p [] = refl
count_where-and_true p (r ∷ rows) = let rest = count_where-and_true p rows in ground (arith, rest)

-- The numbers that `Counts` answers, one for each status that a public job is in, add up to the
-- number of public jobs: none is left out, and none is counted twice.
pub counts-total :
    (db : Db)
    → (groups : Counts) × (counts db ≡ Result.ok (groups, db))
      × (total_of (λ s. true) groups ≡ count_where is_public db.jobs)
unfolding counts query
counts-total db = (
  count_groups is_public db.jobs all_statuses,
  refl,
  total_of-groups (λ s. true) is_public db.jobs ∙ count_where-and_true is_public db.jobs,
)
