-- ===== src/Gomod/Promotion.antt =====
-- What promoting modules does to the load modes: they only become full, the modules that are not
-- full become fewer when something changes, and any bound that asks for the promotions is kept.
use dependecy_graph_auditor.Prelude.{
  ℕ, ◌≤◌, ◌<◌, ◌≡◌, refl, sym, ap, ◌∙◌, subst, ◌⊎◌, inl, inr, Bool, true, false, ◌||◌, not, leb,
  List, [], ◌∷◌, Memᴰ, count_where, arith, Bool-cases, assign, lookup-assign, lookup-assign_other,
}
use dependecy_graph_auditor.Gomod.Types.{Coordinate, same_coordinate, same_coordinate-IsEquality}
use dependecy_graph_auditor.Gomod.Modes.{
  LoadMode, LoadModes, Pass, rank, is_full, mode_of, promote_load_mode, promote_full,
}

-- A mode stays, or becomes full.
abbrev pub Grows : LoadModes → LoadModes → Type 0
Grows before after =
    (d : Coordinate) → (mode_of after d ≡ mode_of before d) ⊎ (mode_of after d ≡ LoadMode.load_full)

-- How many of some modules are not loaded in full.
abbrev pub pending : List Coordinate → LoadModes → ℕ
pending universe modes = count_where (λ c. not (is_full (mode_of modes c))) universe

abbrev pub Under : (Coordinate → LoadMode) → LoadModes → Type 0
Under bound modes = (d : Coordinate) → rank (mode_of modes d) ≤ rank (bound d)

pub record Progress (universe : List Coordinate) (s t : Pass) : Type 0 where
  pub grows : Grows s.0 t.0
  pub still : t.1 ≡ false → (s.1 ≡ false) × (t.0 ≡ s.0)
  pub moves : t.1 ≡ true → (s.1 ≡ true) ⊎ (pending universe t.0 < pending universe s.0)

pub Grows-trans : (a b c : LoadModes) → Grows a b → Grows b c → Grows a c
Grows-trans a b c h k d = elim (k d) [
  | inr full ↦ inr full
  | inl kept ↦ elim (h d) [ inl same ↦ inl (kept ∙ same) | inr full ↦ inr (kept ∙ full) ]
]

full_stays :
    (m n : LoadMode) → (n ≡ m) ⊎ (n ≡ LoadMode.load_full) → is_full m ≡ true → is_full n ≡ true
full_stays m n (inl e) h = rw e h
full_stays m n (inr e) h = rw e refl

pub pending-Grows :
    (universe : List Coordinate) (a b : LoadModes)
    → Grows a b
    → pending universe b ≤ pending universe a
pending-Grows [] a b h = omega arith
pending-Grows (c ∷ universe) a b h =
    let rest = pending-Grows universe a b h in
    let stays = full_stays (mode_of a c) (mode_of b c) (h c) in ground (arith, rest, stays)

pub Progress-refl : (universe : List Coordinate) (s : Pass) → Progress universe s s
Progress-refl universe s = record {
  grows = λ d. inl refl;
  still = λ e. (e, refl);
  moves = λ e. inl e;
}

pub Progress-trans :
    (universe : List Coordinate) (s t u : Pass)
    → Progress universe s t
    → Progress universe t u
    → Progress universe s u
Progress-trans universe s t u h k = record {
  grows = Grows-trans s.0 t.0 u.0 h.grows k.grows;
  still = λ e.
      let (quiet, same) = k.still e in
      let (quieter, same') = h.still quiet in (quieter, same ∙ same');
  moves = λ e.
      let shrinks = pending-Grows universe s.0 t.0 h.grows in
      let shrinks' = pending-Grows universe t.0 u.0 k.grows in
      elim (k.moves e) [
        | inr less ↦ inr (omega (arith, less, shrinks))
        | inl moved ↦ elim (h.moves moved) [
          | inl first ↦ inl first
          | inr less ↦ inr (omega (arith, less, shrinks'))
        ]
      ];
}

-- The modes where one module is made full.
mode_of-assign :
    (modes : LoadModes) (c d : Coordinate)
    → ((same_coordinate c d ≡ true)
        × (mode_of (assign same_coordinate c LoadMode.load_full modes) d ≡ LoadMode.load_full))
      ⊎ ((same_coordinate c d ≡ false)
          × (mode_of (assign same_coordinate c LoadMode.load_full modes) d ≡ mode_of modes d))
unfolding mode_of
mode_of-assign modes c d = elim (Bool-cases (same_coordinate c d)) [
  | inl e ↦
      let same = same_coordinate-IsEquality.equal c d e in
      let here =
        lookup-assign same_coordinate same_coordinate-IsEquality c LoadMode.load_full modes in
      inl (
        e,
        subst
            (λ z.
              mode_of (assign same_coordinate c LoadMode.load_full modes) z ≡ LoadMode.load_full)
            same (rw here refl),
      )
  | inr e ↦ inr (
    e,
    rw
        (lookup-assign_other same_coordinate same_coordinate-IsEquality c LoadMode.load_full d modes
          e)
        refl,
  )
]

abbrev made_full : Coordinate → LoadModes → LoadModes
made_full c modes = assign same_coordinate c LoadMode.load_full modes

quiet_or : (b : Bool) → (b || false) ≡ b
quiet_or true = refl
quiet_or false = refl

loud_or : (b : Bool) → (b || true) ≡ true
loud_or true = refl
loud_or false = refl

rank_below : (m : LoadMode) → leb 2 (rank m) ≡ is_full m
rank_below LoadMode.load_none = refl
rank_below LoadMode.load_direct = refl
rank_below LoadMode.load_full = refl

-- A promotion finds the module full and does nothing, or makes it full.
promote_full-cases :
    (c : Coordinate) (s : Pass)
    → ((promote_full c s ≡ s) × (is_full (mode_of s.0 c) ≡ true))
      ⊎ ((promote_full c s ≡ (made_full c s.0, true)) × (is_full (mode_of s.0 c) ≡ false))
unfolding promote_full promote_load_mode
promote_full-cases c (modes, changed) = elim (Bool-cases (leb 2 (rank (mode_of modes c)))) [
  | inl e ↦ inl (rw (e, quiet_or changed) refl, sym (rank_below (mode_of modes c)) ∙ e)
  | inr e ↦ inr (rw (e, loud_or changed) refl, sym (rank_below (mode_of modes c)) ∙ e)
]

made_full-Grows : (c : Coordinate) (modes : LoadModes) → Grows modes (made_full c modes)
made_full-Grows c modes d = elim (mode_of-assign modes c d) [
  | inl (e, full) ↦ inr full
  | inr (e, kept) ↦ inl kept
]

mode_of-made_full :
    (c : Coordinate) (modes : LoadModes) → mode_of (made_full c modes) c ≡ LoadMode.load_full
mode_of-made_full c modes = elim (mode_of-assign modes c c) [
  | inl (e, full) ↦ full
  | inr (e, kept) ↦ cc (same_coordinate-IsEquality.reflexive c, e)
]

-- A module that was not full and is among those counted makes the count smaller.
pending-less :
    (universe : List Coordinate) (a b : LoadModes) (c : Coordinate)
    → Grows a b
    → Memᴰ c universe
    → is_full (mode_of a c) ≡ false
    → mode_of b c ≡ LoadMode.load_full
    → pending universe b < pending universe a
pending-less [] a b c h m before after = elim m [ ]
pending-less (d ∷ universe) a b c h (Memᴰ.head e) before after =
    let rest = pending-Grows universe a b h in
    let was = subst (λ z. is_full (mode_of a z) ≡ false) e before in
    let is = subst (λ z. mode_of b z ≡ LoadMode.load_full) e after in
    rw (was, is) (omega (arith, rest))
pending-less (d ∷ universe) a b c h (Memᴰ.tail m) before after =
    let rest = pending-less universe a b c h m before after in
    let stays = full_stays (mode_of a d) (mode_of b d) (h d) in ground (arith, rest, stays)

pub promote_full-Progress :
    (universe : List Coordinate) (c : Coordinate) (s : Pass)
    → Memᴰ c universe
    → Progress universe s (promote_full c s)
promote_full-Progress universe c s m = elim (promote_full-cases c s) [
  | inl (e, full) ↦ rw e (Progress-refl universe s)
  | inr (e, missing) ↦ rw e record {
    grows = made_full-Grows c s.0;
    still = λ loud. cc loud;
    moves = λ _. inr (
        pending-less universe s.0 (made_full c s.0) c (made_full-Grows c s.0) m missing
          (mode_of-made_full c s.0));
  }
]

-- What is quiet has found the module full.
pub promote_full-quiet :
    (c : Coordinate) (s : Pass) → (promote_full c s).1 ≡ false → is_full (mode_of s.0 c) ≡ true
promote_full-quiet c s quiet = elim (promote_full-cases c s) [
  | inl (e, full) ↦ full
  | inr (e, missing) ↦ cc (sym (ap (λ t. t.1) e) ∙ quiet)
]

rank_full : (m n : LoadMode) → is_full n ≡ true → rank m ≤ rank n
rank_full LoadMode.load_none n h = omega arith
rank_full LoadMode.load_direct LoadMode.load_full h = omega arith
rank_full LoadMode.load_full LoadMode.load_full h = omega arith
rank_full LoadMode.load_direct LoadMode.load_none h = cc
rank_full LoadMode.load_direct LoadMode.load_direct h = cc
rank_full LoadMode.load_full LoadMode.load_none h = cc
rank_full LoadMode.load_full LoadMode.load_direct h = cc

-- A bound that has the module full bounds the modes after its promotion.
pub promote_full-Under :
    (bound : Coordinate → LoadMode) (c : Coordinate) (s : Pass)
    → is_full (bound c) ≡ true
    → Under bound s.0
    → Under bound (promote_full c s).0
promote_full-Under bound c s asked h = elim (promote_full-cases c s) [
  | inl (e, full) ↦ rw e h
  | inr (e, missing) ↦ rw e (λ d. elim (mode_of-assign s.0 c d) [
    | inr (miss, kept) ↦ subst (λ z. rank z ≤ rank (bound d)) (sym kept) (h d)
    | inl (hit, full) ↦
        rank_full _ (bound d)
          (subst (λ z. is_full (bound z) ≡ true) (same_coordinate-IsEquality.equal c d hit) asked)
  ])
]
