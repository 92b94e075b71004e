-- ===== src/Prelude/Walk.antt =====
-- A walk over an ordered table, a page at a time: the rows behind the last one of a page are those
-- that the page leaves.
use Prim.Native.Nat.{ℕ, zero, suc, ◌+◌, ◌<◌}
use native.Mathlib.Omega.{arith}
use mathlib.Core.Path.{◌≡◌, refl, ap, subst}
use mathlib.Core.Logic.{◌⊎◌, inl, inr}
use mathlib.Core.Bool.{Bool, true, false, ◌&&◌}
use mathlib.Core.Option.{none, some, some-injective}
use mathlib.Core.List.{List, [], ◌∷◌, ◌++◌, Memᴰ}
use dependecy_graph_auditor.Prelude.Tests.{Bool-cases}
use dependecy_graph_auditor.Prelude.Lists.{length, select_where, All, All-Memᴰ, All-select_where}
use dependecy_graph_auditor.Prelude.Paging.{
  length-take, take, get_elem?, page, page-take, Memᴰ-get_elem?,
}
use dependecy_graph_auditor.Prelude.Ordered.{IsStrictOrder, Sorted}

module _ {ℓ} {A : Type ℓ} where
  pub length-append : (xs ys : List A) → length (xs ++ ys) ≡ length xs + length ys
  length-append [] ys = omega arith
  length-append (x ∷ xs) ys = let rest = length-append xs ys in omega (arith, rest)

  pub select-All : (p : A → Bool) (xs : List A) → All (λ y. p y ≡ true) xs → select_where p xs ≡ xs
  select-All p [] h = refl
  select-All p (x ∷ xs) h = rw (h.0) (ap (λ ys. x ∷ ys) (select-All p xs h.1))

  -- A selection of a selection that keeps no more than the inner one.
  pub select_where-select_where :
      (p q : A → Bool) (xs : List A)
      → ((x : A) → p x ≡ true → q x ≡ true)
      → select_where p (select_where q xs) ≡ select_where p xs
  select_where-select_where p q [] imp = refl
  select_where-select_where p q (x ∷ xs) imp =
      let rest = select_where-select_where p q xs imp in
      elim (Bool-cases (p x)) [
        | inl e ↦ rw (imp x e, e) (ap (λ ys. x ∷ ys) rest)
        | inr e ↦ elim (Bool-cases (q x)) [ inl k ↦ rw (k, e) rest | inr k ↦ rw (k, e) rest ]
      ]

  pub select_where-and :
      (p q : A → Bool) (xs : List A)
      → select_where (λ x. p x && q x) xs ≡ select_where q (select_where p xs)
  select_where-and p q [] = refl
  select_where-and p q (x ∷ xs) =
      let rest = select_where-and p q xs in
      elim (Bool-cases (p x)) [
        | inr e ↦ rw e rest
        | inl e ↦ elim (Bool-cases (q x)) [
          | inl k ↦ rw (e, k) (ap (λ ys. x ∷ ys) rest)
          | inr k ↦ rw (e, k) rest
        ]
      ]

module _ {ℓ} {A : Type ℓ} (before : A → A → Bool) (order : IsStrictOrder before) where
  pub Sorted-select_where :
      (p : A → Bool) (xs : List A) → Sorted before xs → Sorted before (select_where p xs)
  Sorted-select_where p [] s = tt
  Sorted-select_where p (x ∷ xs) s = elim (Bool-cases (p x)) [
    | inl e ↦
        rw e (All-select_where (λ y. before x y ≡ true) p xs s.0, Sorted-select_where p xs s.1)
    | inr e ↦ rw e (Sorted-select_where p xs s.1)
  ]

  asymmetric : (x y : A) → before x y ≡ true → before y x ≡ false
  asymmetric x y e = elim (Bool-cases (before y x)) [
    | inl k ↦ cc (order.transitive x y x e k, order.irreflexive x)
    | inr k ↦ k
  ]

  rest_behind :
      (n : ℕ) (xs : List A) (last : A)
      → Sorted before xs
      → get_elem? xs n ≡ some last
      → take (suc n) xs ++ select_where (before last) xs ≡ xs
  rest_behind n [] last s e = cc
  rest_behind zero (x ∷ xs) last s e =
      let same : x ≡ last = some-injective _ _ e in
      let here : before last x ≡ false =
        subst (λ z. before z x ≡ false) same (order.irreflexive x) in
      let behind = subst (λ z. All (λ y. before z y ≡ true) xs) same s.0 in
      rw here (ap (λ ys. x ∷ ys) (select-All (before last) xs behind))
  rest_behind (suc n) (x ∷ xs) last s e =
      let ahead : before x last ≡ true = All-Memᴰ _ xs s.0 (Memᴰ-get_elem? n xs last e) in
      rw (asymmetric x last ahead) (ap (λ ys. x ∷ ys) (rest_behind n xs last s.1 e))

  -- A page of a table in order is all of it, or it leaves the rows behind its last one.
  pub page_of_Sorted :
      (n : ℕ) (xs : List A)
      → Sorted before xs
      → (page (suc n) (take (suc (suc n)) xs) ≡ (xs, none))
        ⊎ ((last : A) × (front : List A) × (page (suc n) (take (suc (suc n)) xs)
              ≡ (front, some last))
            × Memᴰ last xs
            × (front ++ select_where (before last) xs ≡ xs)
            × (length (select_where (before last) xs) < length xs))
  page_of_Sorted n xs s = elim (page-take n xs) [
    | inl all ↦ inl all.1
    | inr (long, (last, found, cut)) ↦
        let back = rest_behind n xs last s found in
        let size = ap length back in
        let parts = length-append (take (suc n) xs) (select_where (before last) xs) in
        let some_taken = length-take (suc n) xs (omega arith) in
        inr (
          last,
          take (suc n) xs,
          cut,
          Memᴰ-get_elem? n xs last found,
          back,
          omega (arith, size, parts, some_taken),
        )
  ]
