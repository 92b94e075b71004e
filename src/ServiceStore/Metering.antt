-- ===== src/ServiceStore/Metering.antt =====
-- What the numbers of `Store.Metrics` count.
use dependecy_graph_auditor.Prelude.{
  ℕ, suc, ◌≤◌, ◌≡◌, refl, ap, Bool, true, false, ◌&&◌, Option, none, some, is_some, List, [], ◌∷◌,
  count_where, find_where, lookup, if◌then◌else◌, lookup-assign, lookup-assign_other, IsEquality,
  Bool-cases, Option-cases, inl, inr, arith, eq_iff,
}
use mathlib.Core.Path.{subst}
use mathlib.Core.Logic.{ite}
use text.Mathlib.TextPositions.{eq_refl}
use dependecy_graph_auditor.ServiceStore.Tables.{Row, AttemptRow, Db}
use dependecy_graph_auditor.ServiceStore.Transaction.{Result, ◌>>=◌, proceed, query}
use dependecy_graph_auditor.ServiceStore.Statements.{has_id}
use dependecy_graph_auditor.ServiceStore.Listing.{is_public}
use dependecy_graph_auditor.ServiceStore.Counting.{counts-total, total_of}
use dependecy_graph_auditor.ServiceStore.DlqListing.{of_public_job}
use dependecy_graph_auditor.ServiceStore.Metrics.{
  MetricKey, AttemptStatus-discrete, same_key, Attempts, Averages, Metrics, count_or_zero,
  count_key, count_attempt, attempt_groups, metrics_of, metrics,
}

decided_yes : {A : Type 0} (d : Dec A) → ite d true false ≡ true → A
decided_yes (yes a) e = a
decided_yes (no f) e = cc

yes_decided : {A : Type 0} (d : Dec A) → A → ite d true false ≡ true
yes_decided (yes a) b = refl
yes_decided (no f) b = absurd (f b)

both_true : (a b : Bool) → (a && b) ≡ true → (a ≡ true) × (b ≡ true)
both_true true true e = (refl, refl)
both_true true false e = cc
both_true false b e = cc

same_parts : (j k : MetricKey) → j.job_type ≡ k.job_type → j.outcome ≡ k.outcome → j ≡ k
same_parts j k e h = λ i. record { job_type = e i; outcome = h i }

same_key-IsEquality : IsEquality same_key
unfolding same_key
same_key-IsEquality = record {
  reflexive =
      λ k. rw (eq_refl k.job_type) (yes_decided (AttemptStatus-discrete k.outcome k.outcome) refl);
  equal = λ j k e.
      let (types, outcomes) = both_true _ _ e in
      same_parts j k ((eq_iff j.job_type k.job_type).0 types)
        (decided_yes (AttemptStatus-discrete j.outcome k.outcome) outcomes);
}

-- Whether an attempt, with the job that the join finds for it, belongs to a key.
unfoldable pub belongs : MetricKey → AttemptRow → Option Row → Bool
unfolding same_key
belongs k a none = false
belongs k a (some r) = same_key (record { job_type = r.job_type; outcome = a.status }) k

count_key-lookup :
    (j k : MetricKey) (groups : Attempts)
    → count_or_zero (lookup same_key (count_key j groups) k) ≡ (
        if same_key j k
        then suc (count_or_zero (lookup same_key groups k))
        else count_or_zero (lookup same_key groups k))
unfolding count_key count_or_zero
count_key-lookup j k groups = elim (Bool-cases (same_key j k)) [
  | inl e ↦ rw e (
      subst
        (λ z.
          count_or_zero (lookup same_key (count_key j groups) z)
          ≡ suc (count_or_zero (lookup same_key groups z)))
        (same_key-IsEquality.equal j k e)
        (ap count_or_zero (lookup-assign same_key same_key-IsEquality j _ groups)))
  | inr e ↦ rw (e, lookup-assign_other same_key same_key-IsEquality j _ k groups e) refl
]

-- The number under a key is the number of the attempts that belong to it.
attempt_groups-lookup :
    (k : MetricKey) (jobs : List Row) (attempts : List AttemptRow)
    → count_or_zero (lookup same_key (attempt_groups jobs attempts) k)
      ≡ count_where (λ a. belongs k a (find_where (has_id a.job_id) jobs)) attempts
unfolding attempt_groups count_attempt belongs count_or_zero
attempt_groups-lookup k jobs [] = refl
attempt_groups-lookup k jobs (a ∷ attempts) =
    let rest = attempt_groups-lookup k jobs attempts in
    elim (Option-cases (find_where (has_id a.job_id) jobs)) [
      | inl e ↦ rw e rest
      | inr (r, e) ↦
          rw (e, count_key-lookup (record { job_type = r.job_type; outcome = a.status }) k _, rest)
            refl
    ]

count_where-and :
    {A : Type 0} (p q : A → Bool) (xs : List A)
    → count_where (λ x. p x && q x) xs ≤ count_where p xs
count_where-and p q [] = omega arith
count_where-and p q (x ∷ xs) = let rest = count_where-and p q xs in ground (arith, rest)

-- `Metrics` always answers. The number under a type and an outcome, or zero where it has none, is
-- the number of attempts of jobs of this type that ended so; the counts of the statuses add up to
-- the number of public jobs; and no more dead letters are counted as replayed than there are.
pub metrics-counts :
    (averages : Averages) (now : ℕ) (db : Db)
    → (m : Metrics averages) × (metrics averages now db ≡ Result.ok (m, db))
      × ((k : MetricKey)
          → count_or_zero (lookup same_key m.attempts k)
            ≡ count_where (λ a. belongs k a (find_where (has_id a.job_id) db.jobs)) db.attempts)
      × (total_of (λ s. true) m.counts ≡ count_where is_public db.jobs)
      × (m.dlq_replays ≤ m.dlq_entries)
unfolding metrics metrics_of query proceed ◌>>=◌
metrics-counts averages now db =
    let (groups, answer, total) = counts-total db in
    (
      metrics_of averages now groups db,
      ap (λ x. proceed x (λ shown. query (metrics_of averages now shown))) answer,
      λ k. attempt_groups-lookup k db.jobs db.attempts,
      total,
      count_where-and (of_public_job db.jobs) (λ d. is_some d.replayed_at) db.dlq,
    )
