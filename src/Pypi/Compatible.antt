-- ===== src/Pypi/Compatible.antt =====
-- What "~=" means, by the definition of PEP 440.
use dependecy_graph_auditor.Prelude.{
  ℕ, suc, ◌-◌, ◌≡◌, refl, String, Bool, true, ◌&&◌, not, ltb, List, [], ◌∷◌, if◌then◌else◌, length,
  arith,
}
use dependecy_graph_auditor.Pypi.Versions.{Version, Texts}
use dependecy_graph_auditor.Pypi.Clauses.{
  Operator, VersionClause, same_parts, matches_prefix, same_first, compatible_prefix,
  compare_specifier_version, satisfies, matches_version, matches_clause, matches_clauses, is_before,
  has_entries,
}

-- A release without its last part.
abbrev pub drop_last : List ℕ → List ℕ
drop_last [] = []
drop_last (x ∷ []) = []
drop_last (x ∷ y ∷ zs) = x ∷ drop_last (y ∷ zs)

length-drop_last : (x : ℕ) (xs : List ℕ) → length (drop_last (x ∷ xs)) ≡ length xs
length-drop_last x [] = refl
length-drop_last x (y ∷ ys) = rw (length-drop_last y ys) refl

same_first-same_parts :
    (x : ℕ) (xs candidate : List ℕ)
    → same_first (length xs) candidate (x ∷ xs) ≡ same_parts (drop_last (x ∷ xs)) candidate
unfolding same_first same_parts
same_first-same_parts x [] candidate = refl
same_first-same_parts x (y ∷ ys) [] = refl
same_first-same_parts x (y ∷ ys) (c ∷ candidate) = rw (same_first-same_parts y ys candidate) refl

-- The clauses "~= w", ">= w", and "== V.*" for the release V of `w` without its last part.
abbrev pub compatible_clause : Version → VersionClause
compatible_clause w = record {
  operator = Operator.compatible;
  value = "";
  version = w;
  prefix_epoch = 0;
  prefix = [];
}

abbrev pub at_least_clause : Version → VersionClause
at_least_clause w = record {
  operator = Operator.at_least;
  value = "";
  version = w;
  prefix_epoch = 0;
  prefix = [];
}

abbrev pub wildcard_clause : Version → VersionClause
wildcard_clause w = record {
  operator = Operator.equal;
  value = "";
  version = w;
  prefix_epoch = w.epoch;
  prefix = drop_last w.release;
}

clamped : (n : ℕ) → (if ltb (suc (suc n) - 1) 1 then 1 else suc (suc n) - 1) ≡ suc n
clamped n = ground arith

compatible_prefix-matches_prefix :
    (v w : Version) (x y : ℕ) (zs : List ℕ)
    → w.release ≡ x ∷ y ∷ zs
    → compatible_prefix v w ≡ matches_prefix v w.epoch (drop_last w.release)
unfolding compatible_prefix matches_prefix
compatible_prefix-matches_prefix v w x y zs e =
    rw
      (
        e,
        length-drop_last x (y ∷ zs),
        ← same_first-same_parts x (y ∷ zs) v.release,
        clamped (length zs),
      )
      refl

has_prefix_parts :
    (release : List ℕ) (x y : ℕ) (zs : List ℕ)
    → release ≡ x ∷ y ∷ zs
    → has_entries (drop_last release) ≡ true
has_prefix_parts release x y zs e = rw e refl

and_true : (a b : Bool) → ((a && b) && true) ≡ (a && (b && true))
and_true a b = ground arith

-- A version matches "~= w", for a version w of at least two release parts, exactly when it matches
-- ">= w, == V.*", where V is the release of w without its last part.
pub compatible-matches_clauses :
    (texts : Texts) (v w : Version) (raw : String) (x y : ℕ) (zs : List ℕ)
    → w.release ≡ x ∷ y ∷ zs
    → matches_clauses texts v raw (compatible_clause w ∷ [])
      ≡ matches_clauses texts v raw (at_least_clause w ∷ wildcard_clause w ∷ [])
unfolding matches_clauses matches_clause matches_version satisfies
compatible-matches_clauses texts v w raw x y zs e =
    rw (compatible_prefix-matches_prefix v w x y zs e, has_prefix_parts w.release x y zs e)
      (and_true (not (is_before (compare_specifier_version texts v w)))
        (matches_prefix v w.epoch (drop_last w.release)))
