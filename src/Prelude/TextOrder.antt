-- ===== src/Prelude/TextOrder.antt =====
-- The order of texts by their bytes, which is Go's `<` on strings, is a strict order.
use Prim.Native.Nat.{ℕ, ◌<◌, Ordering, compare as compare_ℕ}
use Prim.Native.Char.{Char, code}
use Prim.Native.String.compare
use Prim.Native.String.{String, [], ◌∷◌, compare, then}
use native.Mathlib.Omega.{arith, compare-lt, compare-eq, compare-gt}
use mathlib.Core.Path.{◌≡◌, refl, sym, ◌∙◌, ap}
use mathlib.Core.Logic.{◌⊎◌, inl, inr}
use mathlib.Core.Bool.{Bool, true}
use text.Mathlib.Text.{is_lt}
use text.Mathlib.TextPositions.{compare_refl, compare_self}
use text.Mathlib.TextEquality.{path_by_compare}
use dependecy_graph_auditor.Prelude.Ordered.{IsStrictTotalOrder}

abbrev pub text_before : String → String → Bool
text_before s t = is_lt (compare s t)

-- How two texts that start with a character compare.
then_lt :
    (o r : Ordering)
    → then o r ≡ Ordering.lt
    → (o ≡ Ordering.lt) ⊎ ((o ≡ Ordering.eq) × (r ≡ Ordering.lt))
then_lt Ordering.lt r h = inl refl
then_lt Ordering.eq r h = inr (refl, h)
then_lt Ordering.gt r h = cc

pub Ordering-cases : (o : Ordering) → (o ≡ Ordering.lt) ⊎ ((o ≡ Ordering.eq) ⊎ (o ≡ Ordering.gt))
Ordering-cases Ordering.lt = inl refl
Ordering-cases Ordering.eq = inr (inl refl)
Ordering-cases Ordering.gt = inr (inr refl)

compare_below : (m n : ℕ) → m < n → compare_ℕ m n ≡ Ordering.lt
compare_below m n h = elim (Ordering-cases (compare_ℕ m n)) [
  | inl e ↦ e
  | inr (inl e) ↦ let same = compare-eq m n e in absurd (omega arith)
  | inr (inr e) ↦ let above = compare-gt m n e in absurd (omega arith)
]

abbrev Split : Char → Char → String → String → Type 0
Split c d s t = (code c < code d) ⊎ ((code c ≡ code d) × (compare s t ≡ Ordering.lt))

split : (c d : Char) (s t : String) → compare (c ∷ s) (d ∷ t) ≡ Ordering.lt → Split c d s t
split c d s t h =
    elim (then_lt (compare_ℕ (code c) (code d)) (compare s t)
      (sym (compare.cons-cons c d s t) ∙ h)) [
        | inl e ↦ inl (compare-lt _ _ e)
        | inr e ↦ inr (compare-eq _ _ e.0, e.1)
      ]

join : (c d : Char) (s t : String) → Split c d s t → compare (c ∷ s) (d ∷ t) ≡ Ordering.lt
join c d s t (inl e) = compare.cons-cons c d s t ∙ rw (compare_below _ _ e) refl
join c d s t (inr e) = compare.cons-cons c d s t ∙ rw (e.0, compare_self (code d)) (e.1)

Split-trans :
    (c d e : Char) (s t u : String)
    → (compare s t ≡ Ordering.lt → compare t u ≡ Ordering.lt → compare s u ≡ Ordering.lt)
    → Split c d s t
    → Split d e t u
    → Split c e s u
Split-trans c d e s t u rest (inl h) (inl k) = inl (omega arith)
Split-trans c d e s t u rest (inl h) (inr (k, l)) = inl (omega arith)
Split-trans c d e s t u rest (inr (h, l)) (inl k) = inl (omega arith)
Split-trans c d e s t u rest (inr (h, l)) (inr (k, m)) = inr (omega arith, rest l m)

compare_text_trans :
    (s t u : String)
    → compare s t ≡ Ordering.lt
    → compare t u ≡ Ordering.lt
    → compare s u ≡ Ordering.lt
compare_text_trans [] [] u h k = k
compare_text_trans [] (d ∷ t) [] h k = cc (sym (compare.cons-nil d t) ∙ k)
compare_text_trans [] (d ∷ t) (e ∷ u) h k = compare.nil-cons e u
compare_text_trans (c ∷ s) [] u h k = cc (sym (compare.cons-nil c s) ∙ h)
compare_text_trans (c ∷ s) (d ∷ t) [] h k = cc (sym (compare.cons-nil d t) ∙ k)
compare_text_trans (c ∷ s) (d ∷ t) (e ∷ u) h k =
    join c e s u
      (Split-trans c d e s t u (compare_text_trans s t u) (split c d s t h) (split d e t u k))

then_gt :
    (o r : Ordering)
    → then o r ≡ Ordering.gt
    → (o ≡ Ordering.gt) ⊎ ((o ≡ Ordering.eq) × (r ≡ Ordering.gt))
then_gt Ordering.lt r h = cc
then_gt Ordering.eq r h = inr (refl, h)
then_gt Ordering.gt r h = inl refl

compare-swap : (s t : String) → compare s t ≡ Ordering.gt → compare t s ≡ Ordering.lt
compare-swap [] [] h = cc (sym compare.nil-nil ∙ h)
compare-swap [] (d ∷ t) h = cc (sym (compare.nil-cons d t) ∙ h)
compare-swap (c ∷ s) [] h = compare.nil-cons c s
compare-swap (c ∷ s) (d ∷ t) h =
    join d c t s
      (elim (then_gt (compare_ℕ (code c) (code d)) (compare s t)
        (sym (compare.cons-cons c d s t) ∙ h)) [
          | inl e ↦ inl (compare-gt _ _ e)
          | inr e ↦ inr (sym (compare-eq _ _ e.0), compare-swap s t e.1)
        ])

is_lt-true : (o : Ordering) → is_lt o ≡ true → o ≡ Ordering.lt
is_lt-true Ordering.lt h = refl
is_lt-true Ordering.eq h = cc
is_lt-true Ordering.gt h = cc

pub text_before-IsStrictTotalOrder : IsStrictTotalOrder text_before
text_before-IsStrictTotalOrder = record {
  strict = record {
    irreflexive = λ s. ap is_lt (compare_refl s);
    transitive = λ s t u h k. ap is_lt (compare_text_trans s t u (is_lt-true _ h) (is_lt-true _ k));
  };
  connected = λ s t. elim (Ordering-cases (compare s t)) [
    | inl e ↦ inl (ap is_lt e)
    | inr (inl e) ↦ inr (inl (path_by_compare s t e))
    | inr (inr e) ↦ inr (inr (ap is_lt (compare-swap s t e)))
  ];
}
