-- ===== src/Gomod/Visits.antt =====
-- What the passes of `propagateLoadModes` do to the load modes.
use dependecy_graph_auditor.Prelude.{
  ◌≤◌, ◌≡◌, refl, subst, ◌⊎◌, inl, inr, true, false, List, [], ◌∷◌, Memᴰ, All, arith, Bool-cases,
}
use dependecy_graph_auditor.Gomod.Types.{Coordinate, Requirement, Metadata, ModRules, coordinate_of}
use dependecy_graph_auditor.Gomod.Modes.{
  LoadMode, LoadModes, Pass, rank, is_none, is_full, mode_of, promote_full, promote_children,
  pruning_enabled, visit,
}
use dependecy_graph_auditor.Gomod.Promotion.{
  Grows, Under, Progress, Progress-refl, Progress-trans, promote_full-Progress, promote_full-quiet,
  promote_full-Under,
}

-- The children of a module, among the coordinates that are counted or that a bound has full.
abbrev pub AllChildren : (Coordinate → Type 0) → List Requirement → Type 0
AllChildren P requirements = All (λ r. P (coordinate_of r)) requirements

promote_children-Progress :
    (universe : List Coordinate) (requirements : List Requirement) (s : Pass)
    → AllChildren (λ c. Memᴰ c universe) requirements
    → Progress universe s (promote_children requirements s)
unfolding promote_children
promote_children-Progress universe [] s h = Progress-refl universe s
promote_children-Progress universe (r ∷ requirements) s h =
    Progress-trans universe s (promote_full (coordinate_of r) s) _
      (promote_full-Progress universe (coordinate_of r) s h.0)
      (promote_children-Progress universe requirements (promote_full (coordinate_of r) s) h.1)

promote_children-quiet :
    (universe : List Coordinate) (requirements : List Requirement) (s : Pass)
    → AllChildren (λ c. Memᴰ c universe) requirements
    → (promote_children requirements s).1 ≡ false
    → AllChildren (λ c. is_full (mode_of s.0 c) ≡ true) requirements
unfolding promote_children
promote_children-quiet universe [] s h quiet = tt
promote_children-quiet universe (r ∷ requirements) s h quiet =
    let first = promote_full (coordinate_of r) s in
    let (silent, same) = (promote_children-Progress universe requirements first h.1).still quiet in
    let (before, kept) = (promote_full-Progress universe (coordinate_of r) s h.0).still silent in
    (
      promote_full-quiet (coordinate_of r) s silent,
      subst (λ m. AllChildren (λ c. is_full (mode_of m c) ≡ true) requirements) kept
          (promote_children-quiet universe requirements first h.1 quiet),
    )

promote_children-Under :
    (bound : Coordinate → LoadMode) (requirements : List Requirement) (s : Pass)
    → AllChildren (λ c. is_full (bound c) ≡ true) requirements
    → Under bound s.0
    → Under bound (promote_children requirements s).0
unfolding promote_children
promote_children-Under bound [] s asked h = h
promote_children-Under bound (r ∷ requirements) s asked h =
    promote_children-Under bound requirements (promote_full (coordinate_of r) s) asked.1
      (promote_full-Under bound (coordinate_of r) s asked.0 h)

-- The four ways through the body of the loop.
pub data Visited (rules : ModRules) (c : Coordinate) (m : Metadata) (s : Pass) : Pass → Type 0 where
  loads :
      is_none (mode_of s.0 c) ≡ true
      → pruning_enabled rules m.go_version ≡ false
      → Visited rules c m s (promote_children m.requirements (promote_full c s))
  expands :
      is_none (mode_of s.0 c) ≡ false
      → (is_full (mode_of s.0 c) ≡ true) ⊎ (pruning_enabled rules m.go_version ≡ false)
      → Visited rules c m s (promote_children m.requirements s)
  passes_by :
      is_full (mode_of s.0 c) ≡ false
      → pruning_enabled rules m.go_version ≡ true
      → Visited rules c m s s

none_not_full : (m : LoadMode) → is_none m ≡ true → is_full m ≡ false
none_not_full LoadMode.load_none h = refl
none_not_full LoadMode.load_direct h = refl
none_not_full LoadMode.load_full h = cc

pub visit-Visited :
    (rules : ModRules) (c : Coordinate) (m : Metadata) (s : Pass)
    → Visited rules c m s (visit rules c m s)
unfolding visit promote_full
visit-Visited rules c m (modes, changed) = elim (Bool-cases (is_none (mode_of modes c))) [
  | inl i ↦ elim (Bool-cases (pruning_enabled rules m.go_version)) [
    | inl p ↦ rw (i, p) (Visited.passes_by (none_not_full (mode_of modes c) i) p)
    | inr p ↦ rw (i, p) (Visited.loads i p)
  ]
  | inr i ↦ elim (Bool-cases (is_full (mode_of modes c))) [
    | inl f ↦ rw (i, f) (Visited.expands i (inl f))
    | inr f ↦ elim (Bool-cases (pruning_enabled rules m.go_version)) [
      | inl p ↦ rw (i, f, p) (Visited.passes_by f p)
      | inr p ↦ rw (i, f, p) (Visited.expands i (inr p))
    ]
  ]
]

-- An entry of the cache whose coordinates are all counted.
abbrev pub Counted : List Coordinate → Coordinate × Metadata → Type 0
Counted universe entry =
    Memᴰ entry.0 universe × AllChildren (λ c. Memᴰ c universe) entry.1.requirements

-- The rules of loading at an entry, for modes that grew out of the ones at the start: a module that
-- does not prune is loaded, in full unless it was loaded at the start, and its requirements are
-- loaded in full, as are those of every module that is loaded in full.
abbrev pub ClosedAt :
    ModRules → LoadModes → (Coordinate → LoadMode) → Coordinate × Metadata → Type 0
ClosedAt rules start modes entry =
    (pruning_enabled rules entry.1.go_version ≡ false
      → is_none (mode_of start entry.0) ≡ true
      → is_full (modes entry.0) ≡ true)
    × (pruning_enabled rules entry.1.go_version ≡ false
        → AllChildren (λ c. is_full (modes c) ≡ true) entry.1.requirements)
    × (is_full (modes entry.0) ≡ true
        → AllChildren (λ c. is_full (modes c) ≡ true) entry.1.requirements)

full_above : (m n : LoadMode) → rank m ≤ rank n → is_full m ≡ true → is_full n ≡ true
full_above LoadMode.load_none n h f = cc
full_above LoadMode.load_direct n h f = cc
full_above LoadMode.load_full LoadMode.load_none h f = absurd (omega arith)
full_above LoadMode.load_full LoadMode.load_direct h f = absurd (omega arith)
full_above LoadMode.load_full LoadMode.load_full h f = refl

module _ (rules : ModRules) (universe : List Coordinate) (start : LoadModes) where
  pub Visited-Progress :
      (c : Coordinate) (m : Metadata) (s t : Pass)
      → Counted universe (c, m)
      → Visited rules c m s t
      → Progress universe s t
  Visited-Progress c m s t h (Visited.loads i p) =
      Progress-trans universe s (promote_full c s) _ (promote_full-Progress universe c s h.0)
        (promote_children-Progress universe m.requirements (promote_full c s) h.1)
  Visited-Progress c m s t h (Visited.expands i why) =
      promote_children-Progress universe m.requirements s h.1
  Visited-Progress c m s t h (Visited.passes_by f p) = Progress-refl universe s

  full_not_none : (n : LoadMode) → is_none n ≡ true → is_full n ≡ true → ⊥
  full_not_none n i f = cc (none_not_full n i, f)

  -- What was not loaded at the start, and is loaded, is so in full.
  loaded_full :
      (c : Coordinate) (modes : LoadModes)
      → (mode_of modes c ≡ mode_of start c) ⊎ (mode_of modes c ≡ LoadMode.load_full)
      → is_none (mode_of start c) ≡ true
      → is_none (mode_of modes c) ≡ false
      → is_full (mode_of modes c) ≡ true
  loaded_full c modes (inl same) first now = cc (same, first, now)
  loaded_full c modes (inr full) first now = rw full refl

  none_first :
      (c : Coordinate) (modes : LoadModes)
      → (mode_of modes c ≡ mode_of start c) ⊎ (mode_of modes c ≡ LoadMode.load_full)
      → is_none (mode_of modes c) ≡ true
      → is_none (mode_of start c) ≡ true
  none_first c modes (inl same) now = rw (← same) now
  none_first c modes (inr full) now = cc (full, now)

  -- A visit that changes nothing has found the rules kept.
  pub Visited-closed :
      (c : Coordinate) (m : Metadata) (s t : Pass)
      → Counted universe (c, m)
      → Grows start s.0
      → Visited rules c m s t
      → t.1 ≡ false
      → ClosedAt rules start (mode_of s.0) (c, m)
  Visited-closed c m s t h g (Visited.loads i p) quiet =
      let silent =
        (promote_children-Progress universe m.requirements (promote_full c s) h.1).still quiet in
      absurd (full_not_none (mode_of s.0 c) i (promote_full-quiet c s silent.0))
  Visited-closed c m s t h g (Visited.expands i why) quiet =
      let children = promote_children-quiet universe m.requirements s h.1 quiet in
      (λ p first. loaded_full c s.0 (g c) first i, λ p. children, λ f. children)
  Visited-closed c m s t h g (Visited.passes_by f p) quiet =
      (λ q. cc (q, p), λ q. cc (q, p), λ k. cc (f, k))

  -- A bound that keeps the rules is not passed by a visit.
  pub Visited-Under :
      (bound : Coordinate → LoadMode) (c : Coordinate) (m : Metadata) (s t : Pass)
      → ClosedAt rules start bound (c, m)
      → Grows start s.0
      → Visited rules c m s t
      → Under bound s.0
      → Under bound t.0
  Visited-Under bound c m s t h g (Visited.loads i p) u =
      let (loaded, expanded, followed) = h in
      promote_children-Under bound m.requirements (promote_full c s) (expanded p)
        (promote_full-Under bound c s (loaded p (none_first c s.0 (g c) i)) u)
  Visited-Under bound c m s t h g (Visited.expands i why) u =
      let (loaded, expanded, followed) = h in
      promote_children-Under bound m.requirements s
        (elim why [ inl f ↦ followed (full_above _ _ (u c) f) | inr p ↦ expanded p ]) u
  Visited-Under bound c m s t h g (Visited.passes_by f p) u = u
