-- ===== src/Semver/Tests.antt =====
-- The theorem about `Resolve`, with texts as versions and an insertion sort.
use mathlib.Core.Option.{some-injective}
use dependecy_graph_auditor.Prelude.{
  Memᴰ-ordered, Memᴰ-of_ordered, ◌≡◌, refl, sym, ◌⊎◌, inl, inr, String, str_eq, true, false, not,
  none, some, List, [], ◌∷◌, All-imp, Bool-cases, ordered, insert_ordered, All-insert_ordered,
  IsStrictTotalOrder, text_before, text_before-IsStrictTotalOrder,
}
use dependecy_graph_auditor.Semver.Ranges.{
  Ascending, VersionLibrary, Constraint, last, add_candidate, candidates, highest, resolve,
}
use dependecy_graph_auditor.Semver.Highest.{IsUnsatisfied, IsHighest, resolve-IsHighest}

module _ (order : IsStrictTotalOrder text_before) where
  not_before : (x y : String) → text_before x y ≡ true → text_before y x ≡ false
  not_before x y e = elim (Bool-cases (text_before y x)) [
    | inl k ↦ cc (order.strict.transitive x y x e k, order.strict.irreflexive x)
    | inr k ↦ k
  ]

  after :
      (x y z : String) → text_before x y ≡ true → text_before z y ≡ false → text_before z x ≡ false
  after x y z e h = elim (Bool-cases (text_before z x)) [
    | inl k ↦ cc (order.strict.transitive z x y k e)
    | inr k ↦ k
  ]

  insert-Ascending :
      (x : String) (ys : List String)
      → Ascending text_before ys
      → Ascending text_before (insert_ordered text_before x ys)
  insert-Ascending x [] s = (tt, tt)
  insert-Ascending x (y ∷ ys) s = elim (Bool-cases (text_before x y)) [
    | inl e ↦ rw e ((not_before x y e, All-imp _ _ ys (λ z h. after x y z e h) s.0), s)
    | inr e ↦ rw e (
      All-insert_ordered text_before (λ z. text_before z y ≡ false) x ys e s.0,
      insert-Ascending x ys s.1,
    )
  ]

  ordered-Ascending : (vs : List String) → Ascending text_before (ordered text_before vs)
  ordered-Ascending [] = tt
  ordered-Ascending (x ∷ xs) = insert-Ascending x (ordered text_before xs) (ordered-Ascending xs)

-- A constraint excludes one version.
abbrev text_library : VersionLibrary
text_library = record {
  Version = String;
  Constraints = String;
  new_constraint = λ range. some range;
  new_version = λ s. some s;
  check = λ c v. not (str_eq c v);
  less_than = text_before;
  original = λ v. v;
  sort = ordered text_before;
  original-new_version = λ s v e. sym (some-injective _ _ e);
  less_than-irreflexive = text_before-IsStrictTotalOrder.strict.irreflexive;
  sort-Memᴰ = Memᴰ-of_ordered text_before;
  Memᴰ-sort = Memᴰ-ordered text_before;
  sort-Ascending = ordered-Ascending text_before-IsStrictTotalOrder;
}

abbrev not_two : Constraint text_library
not_two = record { inner = "2"; raw = "!=2" }

abbrev three_versions : List String
three_versions = "1.1" ∷ "2" ∷ "1.0" ∷ []

resolves : resolve text_library not_two three_versions ≡ some "1.1"
unfolding resolve candidates highest last add_candidate
resolves = refl

resolve-IsHighest_example :
    ((resolve text_library not_two three_versions ≡ none)
      × IsUnsatisfied text_library not_two three_versions)
    ⊎ ((s : String) × (v : String) × (resolve text_library not_two three_versions ≡ some s)
        × IsHighest text_library not_two three_versions s v)
resolve-IsHighest_example = resolve-IsHighest text_library not_two three_versions
