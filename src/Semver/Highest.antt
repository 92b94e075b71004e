-- ===== src/Semver/Highest.antt =====
-- `Resolve` chooses a highest version that satisfies a range.
use mathlib.Core.Path.{subst}
use mathlib.Core.Option.{some-injective}
use dependecy_graph_auditor.Prelude.{
  ◌≡◌, refl, sym, ap, ◌∙◌, ◌⊎◌, inl, inr, String, Bool, true, false, none, some, List, [], ◌∷◌,
  Memᴰ, All, All-Memᴰ, Bool-cases, Option-cases,
}
use dependecy_graph_auditor.Semver.Ranges.{
  Ascending, VersionLibrary, Constraint, last, add_candidate, candidates, highest, resolve,
}

last-Memᴰ :
    {A : Type 0} (x : A) (xs : List A) → (m : A) × (last (x ∷ xs) ≡ some m) × Memᴰ m (x ∷ xs)
unfolding last
last-Memᴰ x [] = (x, refl, Memᴰ.head refl)
last-Memᴰ x (y ∷ xs) = let (m, e, inside) = last-Memᴰ y xs in (m, e, Memᴰ.tail inside)

last-All :
    {A : Type 0} (less : A → A → Bool) (m : A) (xs : List A)
    → ((a : A) → less a a ≡ false)
    → Ascending less xs
    → last xs ≡ some m
    → All (λ x. less m x ≡ false) xs
unfolding last
last-All less m [] irreflexive s e = tt
last-All less m (x ∷ []) irreflexive s e =
    (subst (λ z. less z x ≡ false) (some-injective _ _ e) (irreflexive x), tt)
last-All less m (x ∷ y ∷ xs) irreflexive s e =
    let (l, f, inside) = last-Memᴰ y xs in
    let same : l ≡ m = some-injective _ _ (sym f ∙ e) in
    (
      subst (λ z. less z x ≡ false) same (All-Memᴰ _ (y ∷ xs) s.0 inside),
      last-All less m (y ∷ xs) irreflexive s.1 e,
    )

module _ (library : VersionLibrary) (c : Constraint library) where
  -- A version that a text stands for and that the range admits.
  abbrev pub Satisfies : String → library.Version → Type 0
  Satisfies s v = (library.new_version s ≡ some v) × (library.check c.inner v ≡ true)

  Memᴰ-candidates :
      (s : String) (v : library.Version) (available : List String)
      → Memᴰ s available
      → Satisfies s v
      → Memᴰ v (candidates library c available)
  unfolding candidates add_candidate
  Memᴰ-candidates s v [] m h = elim m [ ]
  Memᴰ-candidates s v (t ∷ available) (Memᴰ.head e) h = rw (sym e, h.0, h.1) (Memᴰ.head refl)
  Memᴰ-candidates s v (t ∷ available) (Memᴰ.tail m) h =
      let rest = Memᴰ-candidates s v available m h in
      elim (Option-cases (library.new_version t)) [
        | inl e ↦ rw e rest
        | inr (u, e) ↦ elim (Bool-cases (library.check c.inner u)) [
          | inl k ↦ rw (e, k) (Memᴰ.tail rest)
          | inr k ↦ rw (e, k) rest
        ]
      ]

  candidates-Memᴰ :
      (v : library.Version) (available : List String)
      → Memᴰ v (candidates library c available)
      → (s : String) × Memᴰ s available × Satisfies s v
  unfolding candidates add_candidate
  candidates-Memᴰ v [] m = elim m [ ]
  candidates-Memᴰ v (t ∷ available) m = elim (Option-cases (library.new_version t)) [
    | inl e ↦ later (candidates-Memᴰ v available (rw e at m))
    | inr (u, e) ↦ elim (Bool-cases (library.check c.inner u)) [
      | inr k ↦ later (candidates-Memᴰ v available (rw (e, k) at m))
      | inl k ↦ here u e k (candidates-Memᴰ v available) (rw (e, k) at m)
    ]
  ]
    where
      later :
          (s : String) × Memᴰ s available × Satisfies s v
          → (s : String) × Memᴰ s (t ∷ available) × Satisfies s v
      later (s, inside, h) = (s, Memᴰ.tail inside, h)

      here :
          (u : library.Version)
          → library.new_version t ≡ some u
          → library.check c.inner u ≡ true
          → (Memᴰ v (candidates library c available)
              → (s : String) × Memᴰ s available × Satisfies s v)
          → Memᴰ v (u ∷ candidates library c available)
          → (s : String) × Memᴰ s (t ∷ available) × Satisfies s v
      here u e k earlier (Memᴰ.head same) =
          (t, Memᴰ.head refl, (e ∙ ap some (sym same), ap (library.check c.inner) same ∙ k))
      here u e k earlier (Memᴰ.tail m) = later (earlier m)

  -- No available text is a version that the range admits.
  abbrev pub IsUnsatisfied : List String → Type 0
  IsUnsatisfied available =
      (s : String) (v : library.Version) → Memᴰ s available → Satisfies s v → ⊥

  -- An available text is a version that the range admits, and no higher one is available.
  abbrev pub IsHighest : List String → String → library.Version → Type 0
  IsHighest available s v =
      Memᴰ s available
      × Satisfies s v
      × ((t : String) (u : library.Version)
          → Memᴰ t available
          → Satisfies t u
          → library.less_than v u ≡ false)

  last_of_sorted :
      (v : library.Version) (vs : List library.Version)
      → Memᴰ v vs
      → (m : library.Version) × (last vs ≡ some m) × Memᴰ m vs
  last_of_sorted v [] m = elim m [ ]
  last_of_sorted v (x ∷ xs) m = last-Memᴰ x xs

  chosen :
      (available : List String) (found : List library.Version)
      → candidates library c available ≡ found
      → ((highest library found ≡ none) × IsUnsatisfied available)
        ⊎ ((s : String) × (v : library.Version) × (highest library found ≡ some s)
            × IsHighest available s v)
  unfolding highest
  chosen available [] e =
      inl
        (refl, λ s v m h. nothing v (subst (λ vs. Memᴰ v vs) e (Memᴰ-candidates s v available m h)))
    where
      nothing : (v : library.Version) → Memᴰ v [] → ⊥
      nothing v m = elim m [ ]
  chosen available (x ∷ xs) e =
      let sorted = library.sort (x ∷ xs) in
      let (m, end, inside) =
        last_of_sorted x sorted (library.Memᴰ-sort x (x ∷ xs) (Memᴰ.head refl)) in
      let (s, member, satisfied) =
        candidates-Memᴰ m available
          (subst (λ vs. Memᴰ m vs) (sym e) (library.sort-Memᴰ m (x ∷ xs) inside)) in
      let top =
        last-All library.less_than m sorted library.less_than-irreflexive
          (library.sort-Ascending (x ∷ xs)) end in
      inr (
        s,
        m,
        rw end (ap some (library.original-new_version s m satisfied.0)),
        (
          member,
          satisfied,
          λ t u k h. All-Memᴰ _ sorted top (
              library.Memᴰ-sort u (x ∷ xs)
                (subst (λ vs. Memᴰ u vs) e (Memᴰ-candidates t u available k h))),
        ),
      )

  -- `Resolve` fails exactly where no available text is a version that the range admits. Otherwise
  -- it answers one of the available texts, which is such a version, and no available version that
  -- the range admits is higher.
  pub resolve-IsHighest :
      (available : List String)
      → ((resolve library c available ≡ none) × IsUnsatisfied available)
        ⊎ ((s : String) × (v : library.Version) × (resolve library c available ≡ some s)
            × IsHighest available s v)
  unfolding resolve
  resolve-IsHighest available = chosen available (candidates library c available) refl
