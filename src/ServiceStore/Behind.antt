-- ===== src/ServiceStore/Behind.antt =====
-- The order of `Store.List`, and what is behind a cursor in it.
use dependecy_graph_auditor.Prelude.{
  ℕ, ◌≡◌, refl, sym, ap, ◌∙◌, String, str_eq, Bool, true, false, Option, none, some, List, [], ◌∷◌,
  select_where, ordered, arith, Bool-cases, inl, inr, All-imp, IsStrictOrder, IsStrictTotalOrder,
  Sorted, Apart, PairwiseApart, PairwiseApart-select_where, Sorted-ordered, ordered-select_where,
  select_where-and, select_where-select_where,
}
use text.Mathlib.TextPositions.{eq_refl}
use dependecy_graph_auditor.ServiceStore.Tables.{Row, Services}
use dependecy_graph_auditor.ServiceStore.Statements.{has_id}
use dependecy_graph_auditor.ServiceStore.Identity.{DistinctIds}
use dependecy_graph_auditor.ServiceStore.Listing.{
  ListFilter, passes, older_than, newer, behind_cursor, listed,
}

-- Every row that the filter lets through, the newest first.
abbrev pub all_listed : Services → (String → String → Bool) → ListFilter → List Row → List Row
all_listed services ilike filter rows =
    ordered (newer services) (select_where (passes ilike filter) rows)

module _ (services : Services) (text_order : IsStrictTotalOrder services.text_lt) where
  pub newer-IsStrictOrder : IsStrictOrder (newer services)
  unfolding newer older_than
  newer-IsStrictOrder = record {
    irreflexive = λ a. ground (arith, text_order.strict.irreflexive a.id);
    transitive = λ a b c h k. ground (arith, h, k, text_order.strict.transitive c.id b.id a.id);
  }

  -- Two rows with different ids come one after the other.
  newer_of_distinct : (a b : Row) → has_id a.id b ≡ false → Apart (newer services) a b
  unfolding newer older_than
  newer_of_distinct a b apart = elim (Bool-cases (newer services a b)) [
    | inl e ↦ inl e
    | inr e ↦ elim (text_order.connected a.id b.id) [
      | inl h ↦ inr (ground arith)
      | inr (inl same) ↦ cc (sym apart ∙ ap (λ s. str_eq s a.id) (sym same) ∙ eq_refl a.id)
      | inr (inr h) ↦ inr (ground arith)
    ]
  ]

  rows-PairwiseApart : (rows : List Row) → DistinctIds rows → PairwiseApart (newer services) rows
  rows-PairwiseApart [] h = tt
  rows-PairwiseApart (r ∷ rows) h =
      (All-imp _ _ rows (newer_of_distinct r) h.0, rows-PairwiseApart rows h.1)

  -- What is older than a row behind a cursor is behind it too.
  behind_older :
      (place : Option (ℕ × String)) (last : Row)
      → behind_cursor services place last ≡ true
      → (r : Row) → newer services last r ≡ true
      → behind_cursor services place r ≡ true
  unfolding newer behind_cursor older_than
  behind_older none last e r h = refl
  behind_older (some (created, id)) last e r h =
      ground (arith, e, h, text_order.strict.transitive r.id last.id id)

  module _ (ilike : String → String → Bool) (filter : ListFilter) (rows : List Row)
      (distinct : DistinctIds rows) where
    passed-PairwiseApart : PairwiseApart (newer services) (select_where (passes ilike filter) rows)
    passed-PairwiseApart =
        PairwiseApart-select_where (newer services) (passes ilike filter) rows
          (rows-PairwiseApart rows distinct)

    pub all_listed-Sorted : Sorted (newer services) (all_listed services ilike filter rows)
    all_listed-Sorted =
        Sorted-ordered (newer services) newer-IsStrictOrder.transitive _ passed-PairwiseApart

    -- What a query reads behind a cursor is what is behind it in the whole list.
    pub listed_behind :
        (place : Option (ℕ × String))
        → listed services ilike filter place rows
          ≡ select_where (behind_cursor services place) (all_listed services ilike filter rows)
    unfolding listed
    listed_behind place =
        rw (select_where-and (passes ilike filter) (behind_cursor services place) rows) (
          ordered-select_where (newer services) newer-IsStrictOrder.transitive
            (behind_cursor services place) (select_where (passes ilike filter) rows)
            passed-PairwiseApart)

    -- Behind a row that is behind a cursor there is nothing that the cursor hides.
    pub behind_behind :
        (place : Option (ℕ × String)) (last : Row)
        → behind_cursor services place last ≡ true
        → select_where
            (newer services last)
            (select_where (behind_cursor services place) (all_listed services ilike filter rows))
          ≡ select_where
              (behind_cursor services (some (last.created_at, last.id)))
              (all_listed services ilike filter rows)
    unfolding newer behind_cursor
    behind_behind place last e =
        select_where-select_where _ (behind_cursor services place)
          (all_listed services ilike filter rows) (behind_older place last e)
