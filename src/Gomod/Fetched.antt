-- ===== src/Gomod/Fetched.antt =====
-- What a round of fetched metadata that is taken leaves in the cache.
use mathlib.Core.Option.{some-injective}
use dependecy_graph_auditor.Prelude.{
  ◌≡◌, refl, sym, ap, ◌∙◌, inl, inr, str_eq, true, false, some, List, [], ◌∷◌, Memᴰ, All, All-Memᴰ,
  All-of_ordered, lookup, assign, lookup-assign, lookup-assign_other, Bool-cases, Option-cases,
}
use dependecy_graph_auditor.Gomod.Types.{
  Coordinate, Metadata, Result, ◌>>=◌, ModRules, same_coordinate, same_coordinate-IsEquality,
  str_eq-IsEquality,
}
use dependecy_graph_auditor.Gomod.Modes.{Cache, sorted_metadata}
use dependecy_graph_auditor.Gomod.Choosing.{
  has_coordinate, validate_requirements, check_fetched, Stored, store_found, store_fetched,
  store_checked, add_fetch_round,
}

-- A fetched entry that passed the checks.
abbrev pub IsChecked : ModRules → List Coordinate → Coordinate × Metadata → Type 0
IsChecked rules requested entry =
    (has_coordinate requested entry.0 ≡ true)
    × (entry.1.module_path ≡ entry.0.module_path)
    × (validate_requirements rules entry.1.requirements ≡ Result.ok tt)

checked_then :
    {A : Type 0} (first : Result (Unit {0})) (rest : Result A) {a : A}
    → (first >>= λ _. rest) ≡ Result.ok a
    → (first ≡ Result.ok tt) × (rest ≡ Result.ok a)
checked_then (Result.ok tt) rest e = (refl, e)
checked_then (Result.err x) rest e = cc e

stored_then :
    (first : Result (Unit {0})) (stored : Stored) (cache grown : Cache)
    → store_checked first stored cache ≡ (grown, Result.ok tt)
    → (first ≡ Result.ok tt) × (stored ≡ (grown, Result.ok tt))
unfolding store_checked
stored_then (Result.ok tt) stored cache grown e = (refl, e)
stored_then (Result.err x) stored cache grown e = let failed = ap (λ s. s.1) e in cc failed

check_fetched-IsChecked :
    (rules : ModRules) (requested : List Coordinate) (fetched : Cache)
    → check_fetched rules requested fetched ≡ Result.ok tt
    → All (IsChecked rules requested) fetched
unfolding check_fetched
check_fetched-IsChecked rules requested [] e = tt
check_fetched-IsChecked rules requested ((c, metadata) ∷ fetched) e =
    elim (Bool-cases (has_coordinate requested c)) [
      | inr unasked ↦ cc (rw unasked at e)
      | inl asked ↦ elim (Bool-cases (str_eq metadata.module_path c.module_path)) [
        | inr other ↦ cc (rw (asked, other) at e)
        | inl same ↦
            let (valid, rest) =
              checked_then (validate_requirements rules metadata.requirements) _
                (rw (asked, same) at e) in
            (
              (asked, str_eq-IsEquality.equal _ _ same, valid),
              check_fetched-IsChecked rules requested fetched rest,
            )
      ]
    ]

lookup-Memᴰ :
    (cache : Cache) (c : Coordinate) (metadata : Metadata)
    → lookup same_coordinate cache c ≡ some metadata
    → Memᴰ (c, metadata) cache
lookup-Memᴰ [] c metadata e = cc
lookup-Memᴰ ((d, m) ∷ cache) c metadata e = elim (Bool-cases (same_coordinate d c)) [
  | inl here ↦
      let key = same_coordinate-IsEquality.equal d c here in
      let value = some-injective _ _ (rw here at e) in Memᴰ.head (λ i. (sym key i, sym value i))
  | inr there ↦ Memᴰ.tail (lookup-Memᴰ cache c metadata (rw there at e))
]

-- A coordinate that is not requested keeps its metadata; one that is gets what was fetched for it.
Stores : List Coordinate → Cache → Cache → Cache → Type 0
Stores requested fetched cache grown =
    ((c : Coordinate)
      → Memᴰ c requested
      → (metadata : Metadata) × (lookup same_coordinate fetched c ≡ some metadata)
        × (lookup same_coordinate grown c ≡ some metadata))
    × ((c : Coordinate)
        → has_coordinate requested c ≡ false
        → lookup same_coordinate grown c ≡ lookup same_coordinate cache c)

has_coordinate-Memᴰ :
    (requested : List Coordinate) (c : Coordinate)
    → has_coordinate requested c ≡ true
    → Memᴰ c requested
unfolding has_coordinate
has_coordinate-Memᴰ [] c e = cc
has_coordinate-Memᴰ (d ∷ requested) c e = elim (Bool-cases (same_coordinate d c)) [
  | inl here ↦ Memᴰ.head (sym (same_coordinate-IsEquality.equal d c here))
  | inr there ↦ Memᴰ.tail (has_coordinate-Memᴰ requested c (rw there at e))
]

not_requested :
    (d : Coordinate) (requested : List Coordinate) (c : Coordinate)
    → has_coordinate (d ∷ requested) c ≡ false
    → (same_coordinate d c ≡ false) × (has_coordinate requested c ≡ false)
unfolding has_coordinate
not_requested d requested c e = elim (Bool-cases (same_coordinate d c)) [
  | inl here ↦ cc (rw here at e)
  | inr there ↦ (there, rw there at e)
]

store_fetched-Stores :
    (requested : List Coordinate) (fetched cache grown : Cache)
    → store_fetched requested fetched cache ≡ (grown, Result.ok tt)
    → Stores requested fetched cache grown
unfolding store_fetched store_found Stores
store_fetched-Stores [] fetched cache grown e =
    (λ c m. elim m [ ], λ c h. ap (λ all. lookup same_coordinate all c) (ap (λ s. s.0) (sym e)))
store_fetched-Stores (c ∷ requested) fetched cache grown e =
    elim (Option-cases (lookup same_coordinate fetched c)) [
      | inl absent ↦ let failed = ap (λ s. s.1) (rw absent at e) in cc failed
      | inr (metadata, found) ↦
          let stored = assign same_coordinate c metadata cache in
          let (first, others) =
            store_fetched-Stores requested fetched stored grown (rw found at e) in
          let own : lookup same_coordinate grown c ≡ some metadata =
            elim (Bool-cases (has_coordinate requested c)) [
              | inl again ↦
                  let (m, here, there) = first c (has_coordinate-Memᴰ requested c again) in
                  there ∙ sym here ∙ found
              | inr last ↦
                  others c last
                  ∙ lookup-assign same_coordinate same_coordinate-IsEquality c metadata cache
            ] in
          (
            λ d m. elim m [
              | Memᴰ.head same ↦ (
                metadata,
                ap (lookup same_coordinate fetched) same ∙ found,
                ap (lookup same_coordinate grown) same ∙ own,
              )
              | Memᴰ.tail inside ↦ first d inside
            ],
            λ d h.
                let (apart, rest) = not_requested c requested d h in
                others d rest
                ∙ lookup-assign_other same_coordinate same_coordinate-IsEquality c metadata d cache
                    apart,
          )
    ]

-- Where a fetched round is taken without an error, each coordinate that was asked for gets the metadata that was
-- fetched for it, which declares its module and has valid requirements, and what was stored for
-- another coordinate stays.
pub add_fetch_round-stores :
    (rules : ModRules) (requested : List Coordinate) (fetched cache grown : Cache)
    → add_fetch_round rules requested fetched cache ≡ (grown, Result.ok tt)
    → ((c : Coordinate)
        → Memᴰ c requested
        → (metadata : Metadata) × (lookup same_coordinate fetched c ≡ some metadata)
          × (lookup same_coordinate grown c ≡ some metadata)
          × (metadata.module_path ≡ c.module_path)
          × (validate_requirements rules metadata.requirements ≡ Result.ok tt))
      × ((c : Coordinate)
          → has_coordinate requested c ≡ false
          → lookup same_coordinate grown c ≡ lookup same_coordinate cache c)
unfolding add_fetch_round sorted_metadata Stores
add_fetch_round-stores rules requested fetched cache grown e =
    let (passed, stored) =
      stored_then (check_fetched rules requested (sorted_metadata rules fetched))
        (store_fetched requested fetched cache) cache grown e in
    let checked =
      All-of_ordered _ (IsChecked rules requested) fetched
        (check_fetched-IsChecked rules requested (sorted_metadata rules fetched) passed) in
    let (own, others) = store_fetched-Stores requested fetched cache grown stored in
    (
      λ c m.
          let (metadata, here, there) = own c m in
          let (asked, declared, valid) =
            All-Memᴰ (IsChecked rules requested) fetched checked
              (lookup-Memᴰ fetched c metadata here) in
          (metadata, here, there, declared, valid),
      others,
    )
