-- ===== src/Gomod/Selecting.antt =====
-- `selectHigher` keeps, for every module that has been required, the highest version required.
use mathlib.Core.Option.{some-injective}
use dependecy_graph_auditor.Prelude.{
  ◌≡◌, refl, sym, ap, ◌∙◌, subst, ◌⊎◌, inl, inr, String, str_eq, true, false, none, some, List, [],
  ◌∷◌, ◌++◌, Memᴰ, lookup, assign, lookup-assign, lookup-assign_other, Bool-cases, Option-cases,
  Memᴰ-left, Memᴰ-right,
}
use dependecy_graph_auditor.Gomod.Types.{Requirement, Result, ModRules, str_eq-IsEquality}
use dependecy_graph_auditor.Gomod.Versions.{validate_version, compare_versions}
use dependecy_graph_auditor.Gomod.Choosing.{Selected, select_over, select_higher}
use dependecy_graph_auditor.Gomod.Highest.{
  IsVersionOrder, higher, not_higher_trans, replaced_not_higher, not_higher_self,
}

-- The selected version of a module is not below a requirement of it.
abbrev pub Covers : ModRules → Selected → Requirement → Type 0
Covers rules selected r =
    (v : String) × (lookup str_eq selected r.module_path ≡ some v)
    × (higher rules r.version v ≡ false)

-- A selected version is one of the required ones.
abbrev pub FromOne : List Requirement → String → String → Type 0
FromOne required path v =
    (r : Requirement) × Memᴰ r required × (r.module_path ≡ path) × (r.version ≡ v)

pub record Chosen (rules : ModRules) (required : List Requirement) (selected : Selected)
    : Type 0 where
  pub covers : (r : Requirement) → Memᴰ r required → Covers rules selected r
  pub sound : (path v : String) → lookup str_eq selected path ≡ some v → FromOne required path v

abbrev pub IsValid : ModRules → Requirement → Type 0
IsValid rules r = validate_version rules r.version ≡ Result.ok tt

pub Memᴰ-snoc :
    {r s : Requirement} (required : List Requirement)
    → Memᴰ s (required ++ r ∷ [])
    → Memᴰ s required ⊎ (s ≡ r)
Memᴰ-snoc [] (Memᴰ.head e) = inr e
Memᴰ-snoc [] (Memᴰ.tail m) = elim m [ ]
Memᴰ-snoc (x ∷ required) (Memᴰ.head e) = inl (Memᴰ.head e)
Memᴰ-snoc (x ∷ required) (Memᴰ.tail m) = elim (Memᴰ-snoc required m) [
  | inl inside ↦ inl (Memᴰ.tail inside)
  | inr same ↦ inr same
]

FromOne-more :
    (required more : List Requirement) (path v : String)
    → FromOne required path v
    → FromOne (required ++ more) path v
FromOne-more required more path v (r, inside, same, version) =
    (r, Memᴰ-left required more inside, same, version)

assigned_here :
    (selected : Selected) (r : Requirement) (path : String)
    → str_eq r.module_path path ≡ true
    → lookup str_eq (assign str_eq r.module_path r.version selected) path ≡ some r.version
assigned_here selected r path e =
    subst (λ p. lookup str_eq (assign str_eq r.module_path r.version selected) p ≡ some r.version)
      (str_eq-IsEquality.equal r.module_path path e)
      (lookup-assign str_eq str_eq-IsEquality r.module_path r.version selected)

assigned_there :
    (selected : Selected) (r : Requirement) (path : String)
    → str_eq r.module_path path ≡ false
    → lookup str_eq (assign str_eq r.module_path r.version selected) path
      ≡ lookup str_eq selected path
assigned_there selected r path e =
    lookup-assign_other str_eq str_eq-IsEquality r.module_path r.version path selected e

module _ (rules : ModRules) (order : IsVersionOrder rules.compare) where
  -- A requirement becomes the selected one, where it is not below those before it.
  Chosen-assign :
      (required : List Requirement) (selected : Selected) (r : Requirement)
      → ((s : Requirement)
          → Memᴰ s required
          → s.module_path ≡ r.module_path
          → higher rules s.version r.version ≡ false)
      → Chosen rules required selected
      → Chosen rules (required ++ r ∷ []) (assign str_eq r.module_path r.version selected)
  Chosen-assign required selected r top h = record {
    covers = λ s m. elim (Memᴰ-snoc required m) [
      | inl inside ↦ elim (Bool-cases (str_eq r.module_path s.module_path)) [
        | inl e ↦
            let same = str_eq-IsEquality.equal r.module_path s.module_path e in
            (r.version, assigned_here selected r s.module_path e, top s inside (sym same))
        | inr e ↦
            let (v, found, low) = h.covers s inside in
            (v, assigned_there selected r s.module_path e ∙ found, low)
      ]
      | inr same ↦
          subst (Covers rules (assign str_eq r.module_path r.version selected)) (sym same) (
            r.version,
            assigned_here selected r r.module_path (str_eq-IsEquality.reflexive r.module_path),
            not_higher_self rules order r.version,
          )
    ];
    sound = λ path v found. elim (Bool-cases (str_eq r.module_path path)) [
      | inl e ↦
          let same = str_eq-IsEquality.equal r.module_path path e in
          let version = some-injective _ _ (sym (assigned_here selected r path e) ∙ found) in
          (r, Memᴰ-right required (r ∷ []) (Memᴰ.head refl), same, version)
      | inr e ↦
          FromOne-more required (r ∷ []) path v
            (h.sound path v (sym (assigned_there selected r path e) ∙ found))
    ];
  }

  -- A requirement is passed over, where the selected version is not below it.
  Chosen-keep :
      (required : List Requirement) (selected : Selected) (r : Requirement)
      → Covers rules selected r
      → Chosen rules required selected
      → Chosen rules (required ++ r ∷ []) selected
  Chosen-keep required selected r covered h = record {
    covers = λ s m. elim (Memᴰ-snoc required m) [
      | inl inside ↦ h.covers s inside
      | inr same ↦ subst (Covers rules selected) (sym same) covered
    ];
    sound = λ path v found. FromOne-more required (r ∷ []) path v (h.sound path v found);
  }

  -- The result of a step, or of several.
  abbrev pub Chooses : Result Selected → List Requirement → Type 0
  Chooses outcome required =
      (selected : Selected) × (outcome ≡ Result.ok selected) × Chosen rules required selected

  compare_versions_lem :
      (v w : String)
      → validate_version rules v ≡ Result.ok tt
      → validate_version rules w ≡ Result.ok tt
      → compare_versions rules v w ≡ Result.ok (rules.compare v w)
  unfolding compare_versions
  compare_versions_lem v w e f = rw (e, f) refl

  -- The first requirement of a module.
  select_first :
      (required : List Requirement) (selected : Selected) (r : Requirement)
      → lookup str_eq selected r.module_path ≡ none
      → Chosen rules required selected
      → Chooses (select_over rules selected r none) (required ++ r ∷ [])
  unfolding select_over
  select_first required selected r absent h = (
    assign str_eq r.module_path r.version selected,
    refl,
    Chosen-assign required selected r
        (λ s m same.
          let (v, there, low) = h.covers s m in
          cc (absent, there, ap (lookup str_eq selected) same))
        h,
  )

  -- A further requirement of a module.
  select_again :
      (required : List Requirement) (selected : Selected) (r : Requirement) (current : String)
      → lookup str_eq selected r.module_path ≡ some current
      → IsValid rules r
      → validate_version rules current ≡ Result.ok tt
      → Chosen rules required selected
      → Chooses (select_over rules selected r (some current)) (required ++ r ∷ [])
  unfolding select_over
  select_again required selected r current found valid valid' h =
      let compared = compare_versions_lem r.version current valid valid' in
      elim (Bool-cases (higher rules r.version current)) [
        | inl e ↦ (
          assign str_eq r.module_path r.version selected,
          rw (compared, e) refl,
          Chosen-assign required selected r
              (λ s m same.
                let (v, there, low) = h.covers s m in
                let one =
                  some-injective _ _ (sym there ∙ ap (lookup str_eq selected) same ∙ found) in
                not_higher_trans rules order s.version current r.version
                  (subst (λ w. higher rules s.version w ≡ false) one low)
                  (replaced_not_higher rules order r.version current e))
              h,
        )
        | inr e ↦
            (selected, rw (compared, e) refl, Chosen-keep required selected r (current, found, e) h)
      ]

  pub select_higher-Chosen :
      (required : List Requirement) (selected : Selected) (r : Requirement)
      → ((s : Requirement) → Memᴰ s required → IsValid rules s)
      → IsValid rules r
      → Chosen rules required selected
      → Chooses (select_higher rules selected r) (required ++ r ∷ [])
  unfolding select_higher
  select_higher-Chosen required selected r valid valid' h =
      elim (Option-cases (lookup str_eq selected r.module_path)) [
        | inl absent ↦ rw absent (select_first required selected r absent h)
        | inr (current, found) ↦
            let (s, inside, path, version) = h.sound r.module_path current found in
            rw found (
              select_again required selected r current found valid'
                (subst (λ v. validate_version rules v ≡ Result.ok tt) version (valid s inside)) h)
      ]
