-- ===== src/Gomod/Propagation.antt =====
-- `propagateLoadModes` stops, at the smallest load modes that keep the rules of loading.
use dependecy_graph_auditor.Prelude.{
  ℕ, zero, suc, ◌≤◌, ◌<◌, ◌≡◌, refl, sym, ap, subst, inl, inr, Bool, true, false, List, [], ◌∷◌,
  ◌++◌, map, Memᴰ, Memᴰ-left, Memᴰ-right, Memᴰ-map, length, All, All-imp, All-of_members,
  count_where, All-ordered, All-of_ordered, not, arith, Bool-cases,
}
use dependecy_graph_auditor.Gomod.Types.{Coordinate, Metadata, ModRules, Result, coordinate_of}
use dependecy_graph_auditor.Gomod.Modes.{
  LoadMode, LoadModes, Cache, Pass, mentioned, is_full, mode_of, visit, visit_all, sorted_metadata,
  next_pass, propagate_load_modes,
}
use dependecy_graph_auditor.Gomod.Promotion.{
  Grows, Grows-trans, Under, Progress, Progress-refl, Progress-trans, pending,
}
use dependecy_graph_auditor.Gomod.Visits.{
  Counted, ClosedAt, visit-Visited, Visited-Progress, Visited-closed, Visited-Under,
}

module _ (rules : ModRules) (universe : List Coordinate) (start : LoadModes) where
  visit_all-Progress :
      (entries : Cache) (s : Pass)
      → All (Counted universe) entries
      → Progress universe s (visit_all rules entries s)
  unfolding visit_all
  visit_all-Progress [] s h = Progress-refl universe s
  visit_all-Progress ((c, m) ∷ entries) s h =
      Progress-trans universe s (visit rules c m s) _
        (Visited-Progress rules universe start c m s _ h.0 (visit-Visited rules c m s))
        (visit_all-Progress entries (visit rules c m s) h.1)

  visit_all-closed :
      (entries : Cache) (s : Pass)
      → All (Counted universe) entries
      → Grows start s.0
      → (visit_all rules entries s).1 ≡ false
      → All (ClosedAt rules start (mode_of s.0)) entries
  unfolding visit_all
  visit_all-closed [] s h g quiet = tt
  visit_all-closed ((c, m) ∷ entries) s h g quiet =
      let next = visit rules c m s in
      let (silent, same) = (visit_all-Progress entries next h.1).still quiet in
      let step = Visited-Progress rules universe start c m s _ h.0 (visit-Visited rules c m s) in
      let (before, kept) = step.still silent in
      (
        Visited-closed rules universe start c m s _ h.0 g (visit-Visited rules c m s) silent,
        subst (λ modes. All (ClosedAt rules start (mode_of modes)) entries) kept
            (visit_all-closed entries next h.1 (subst (Grows start) (sym kept) g) quiet),
      )

  visit_all-Under :
      (bound : Coordinate → LoadMode) (entries : Cache) (s : Pass)
      → All (Counted universe) entries
      → All (ClosedAt rules start bound) entries
      → Grows start s.0
      → Under bound s.0
      → Under bound (visit_all rules entries s).0
  unfolding visit_all
  visit_all-Under bound [] s h k g u = u
  visit_all-Under bound ((c, m) ∷ entries) s h k g u =
      let visited = visit-Visited rules c m s in
      let step = Visited-Progress rules universe start c m s _ h.0 visited in
      visit_all-Under bound entries (visit rules c m s) h.1 k.1
        (Grows-trans start s.0 _ g step.grows)
        (Visited-Under rules universe start bound c m s _ k.0 g visited u)

  -- What the passes reach from some modes.
  abbrev Settles : Cache → LoadModes → LoadModes → Type 0
  Settles entries modes result =
      Grows start result
      × All (ClosedAt rules start (mode_of result)) entries
      × ((bound : Coordinate → LoadMode)
          → All (ClosedAt rules start bound) entries
          → Under bound modes
          → Under bound result)

  -- A pass that changes something leaves fewer modules that are not loaded in full.
  fewer_pending :
      (modes : LoadModes) {t : Pass}
      → Progress universe (modes, false) t
      → t.1 ≡ true
      → pending universe t.0 < pending universe modes
  fewer_pending modes step moved = elim (step.moves moved) [
    | inl quiet ↦ cc quiet
    | inr fewer ↦ fewer
  ]

  passes_settle :
      (fuel : ℕ) (cache : Cache) (modes : LoadModes)
      → All (Counted universe) (sorted_metadata rules cache)
      → Grows start modes
      → pending universe modes < fuel
      → (result : LoadModes) × (propagate_load_modes fuel rules modes cache ≡ Result.ok result)
        × Settles (sorted_metadata rules cache) modes result
  unfolding propagate_load_modes next_pass
  passes_settle zero cache modes h g enough = absurd (omega arith)
  passes_settle (suc fuel) cache modes h g enough =
      let entries = sorted_metadata rules cache in
      let step = visit_all-Progress entries (modes, false) h in
      elim (Bool-cases (visit_all rules entries (modes, false)).1) [
        | inr quiet ↦
            let (before, kept) = step.still quiet in
            let closed = visit_all-closed entries (modes, false) h g quiet in
            (modes, rw quiet (ap Result.ok kept), (g, closed, λ bound k u. u))
        | inl moved ↦
            let after = (visit_all rules entries (modes, false)).0 in
            let fewer = fewer_pending modes step moved in
            let grown = Grows-trans start modes after g step.grows in
            let (result, value, (more, closed, least)) =
              passes_settle fuel cache after h grown (omega (arith, fewer)) in
            (
              result,
              rw moved value,
              (
                more,
                closed,
                λ bound k u. least bound k (visit_all-Under bound entries (modes, false) h k g u),
              ),
            )
      ]

Counted-wider :
    (narrow wide : List Coordinate)
    → ((c : Coordinate) → Memᴰ c narrow → Memᴰ c wide)
    → (entry : Coordinate × Metadata) → Counted narrow entry
    → Counted wide entry
Counted-wider narrow wide more entry h =
    (more entry.0 h.0, All-imp _ _ entry.1.requirements (λ r. more (coordinate_of r)) h.1)

mentioned-Counted : (cache : Cache) → All (Counted (mentioned cache)) cache
mentioned-Counted [] = tt
mentioned-Counted ((c, m) ∷ entries) =
    let own = map coordinate_of m.requirements in
    let rest = mentioned entries in
    (
      (
        Memᴰ.head refl,
        All-of_members _ m.requirements
            λ r k. Memᴰ.tail (Memᴰ-left own rest (Memᴰ-map coordinate_of m.requirements k)),
      ),
      All-imp (Counted rest) (Counted (c ∷ (own ++ rest))) entries
          (Counted-wider rest (c ∷ (own ++ rest)) (λ d k. Memᴰ.tail (Memᴰ-right own rest k)))
          (mentioned-Counted entries),
    )

count_where-length : (p : Coordinate → Bool) (xs : List Coordinate) → count_where p xs ≤ length xs
count_where-length p [] = omega arith
count_where-length p (x ∷ xs) = let rest = count_where-length p xs in ground (arith, rest)

-- The rules of loading, at every entry of a cache.
abbrev pub Closed : ModRules → LoadModes → Cache → (Coordinate → LoadMode) → Type 0
Closed rules start cache modes = All (ClosedAt rules start modes) cache

-- The load modes settle: with one pass more than the cache names coordinates, the passes end, at
-- modes in which every module keeps its mode of the start or is loaded in full, which keep the
-- rules of loading, and which are the smallest that do so above those of the start.
pub propagate_load_modes-least :
    (rules : ModRules) (start : LoadModes) (cache : Cache) (fuel : ℕ)
    → length (mentioned cache) < fuel
    → (result : LoadModes) × (propagate_load_modes fuel rules start cache ≡ Result.ok result)
      × Grows start result
      × Closed rules start cache (mode_of result)
      × ((bound : Coordinate → LoadMode)
          → Closed rules start cache bound
          → Under bound start
          → Under bound result)
unfolding sorted_metadata
propagate_load_modes-least rules start cache fuel enough =
    let universe = mentioned cache in
    let counted = All-ordered _ (Counted universe) cache (mentioned-Counted cache) in
    let few = count_where-length (λ c. not (is_full (mode_of start c))) universe in
    let (result, value, (more, closed, least)) =
      passes_settle rules universe start fuel cache start counted (λ d. inl refl)
        (omega (arith, few, enough)) in
    (
      result,
      value,
      more,
      All-of_ordered _ (ClosedAt rules start (mode_of result)) cache closed,
      λ bound k u. least bound (All-ordered _ (ClosedAt rules start bound) cache k) u,
    )
