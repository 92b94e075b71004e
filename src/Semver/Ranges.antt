-- ===== src/Semver/Ranges.antt =====
-- `ParseRange` and `Resolve` of internal/semver/semver.go.
use mathlib.Core.Option
use dependecy_graph_auditor.Prelude.{
  ◌≡◌, String, Bool, false, Option, none, some, List, [], ◌∷◌, Memᴰ, All, if◌then◌else◌,
}

-- No later element of a list is less than an earlier one.
abbrev pub Ascending : {A : Type 0} → (A → A → Bool) → List A → Type 0
Ascending less [] = Unit
Ascending less (x ∷ xs) = All (λ y. less y x ≡ false) xs × Ascending less xs

-- Code outside the repository: github.com/Masterminds/semver, and sort.Slice by its LessThan. A
-- version keeps the text that it was parsed from, and sorting keeps the elements.
pub record VersionLibrary : Type 1 where
  pub Version : Type 0
  pub Constraints : Type 0
  pub new_constraint : String → Option Constraints
  pub new_version : String → Option Version
  pub check : Constraints → Version → Bool
  pub less_than : Version → Version → Bool
  pub original : Version → String
  pub sort : List Version → List Version
  pub original-new_version : (s : String) (v : Version) → new_version s ≡ some v → original v ≡ s
  pub less_than-irreflexive : (v : Version) → less_than v v ≡ false
  pub sort-Memᴰ : (v : Version) (vs : List Version) → Memᴰ v (sort vs) → Memᴰ v vs
  pub Memᴰ-sort : (v : Version) (vs : List Version) → Memᴰ v vs → Memᴰ v (sort vs)
  pub sort-Ascending : (vs : List Version) → Ascending less_than (sort vs)

pub record Constraint (library : VersionLibrary) : Type 0 where
  pub inner : library.Constraints
  pub raw : String

unfoldable pub last : {A : Type 0} → List A → Option A
last [] = none
last (x ∷ []) = some x
last (x ∷ y ∷ xs) = last (y ∷ xs)

module _ (library : VersionLibrary) where
  unfoldable pub constraint_of : String → Option library.Constraints → Option (Constraint library)
  constraint_of range none = none
  constraint_of range (some c) = some (record { inner = c; raw = range })

  unfoldable pub parse_range : String → Option (Constraint library)
  unfolding constraint_of
  parse_range range = constraint_of range (library.new_constraint range)

  unfoldable pub add_candidate :
      Constraint library → Option library.Version → List library.Version → List library.Version
  add_candidate c none candidates = candidates
  add_candidate c (some v) candidates =
      if library.check c.inner v then v ∷ candidates else candidates

  unfoldable pub candidates : Constraint library → List String → List library.Version
  unfolding add_candidate
  candidates c [] = []
  candidates c (s ∷ available) = add_candidate c (library.new_version s) (candidates c available)

  unfoldable pub highest : List library.Version → Option String
  unfolding last
  highest [] = none
  highest (v ∷ vs) = Option.map library.original (last (library.sort (v ∷ vs)))

  unfoldable pub resolve : Constraint library → List String → Option String
  unfolding candidates highest
  resolve c available = highest (candidates c available)
