-- ===== src/Prelude/Ordered.antt =====
-- Strict orders as Boolean tests, lists that are in order, and putting a list in order.
use mathlib.Core.Path.{◌≡◌, refl, sym, ap}
use mathlib.Core.Logic.{◌⊎◌, inl, inr}
use mathlib.Core.Bool.{Bool, true, false}
use mathlib.Core.List.{List, [], ◌∷◌, Memᴰ}
use dependecy_graph_auditor.Prelude.Tests.{if◌then◌else◌, Bool-cases}
use dependecy_graph_auditor.Prelude.Lists.{select_where, All, All-Memᴰ, All-imp, All-select_where}

pub record IsStrictOrder {ℓ} {A : Type ℓ} (before : A → A → Bool) : Type ℓ where
  pub irreflexive : (a : A) → before a a ≡ false
  pub transitive : (a b c : A) → before a b ≡ true → before b c ≡ true → before a c ≡ true

pub record IsStrictTotalOrder {ℓ} {A : Type ℓ} (before : A → A → Bool) : Type ℓ where
  pub strict : IsStrictOrder before
  pub connected : (a b : A) → (before a b ≡ true) ⊎ ((a ≡ b) ⊎ (before b a ≡ true))

module _ {ℓ} {A : Type ℓ} (before : A → A → Bool) where
  abbrev pub Sorted : List A → Type ℓ
  Sorted [] = Unit
  Sorted (x ∷ xs) = All (λ y. before x y ≡ true) xs × Sorted xs

  -- ORDER BY: each row is put before the first row that comes after it.
  abbrev pub insert_ordered : A → List A → List A
  insert_ordered x [] = x ∷ []
  insert_ordered x (y ∷ ys) = if before x y then x ∷ y ∷ ys else y ∷ insert_ordered x ys

  abbrev pub ordered : List A → List A
  ordered [] = []
  ordered (x ∷ xs) = insert_ordered x (ordered xs)

  pub All-insert_ordered {κ} :
      (P : A → Type κ) (x : A) (ys : List A) → P x → All P ys → All P (insert_ordered x ys)
  All-insert_ordered P x [] h k = (h, tt)
  All-insert_ordered P x (y ∷ ys) h k = elim (Bool-cases (before x y)) [
    | inl e ↦ rw e (h, k)
    | inr e ↦ rw e (k.0, All-insert_ordered P x ys h k.1)
  ]

  pub All-ordered {κ} : (P : A → Type κ) (xs : List A) → All P xs → All P (ordered xs)
  All-ordered P [] h = tt
  All-ordered P (x ∷ xs) h = All-insert_ordered P x (ordered xs) h.0 (All-ordered P xs h.1)

  All-of_insert_ordered {κ} :
      (P : A → Type κ) (x : A) (ys : List A) → All P (insert_ordered x ys) → P x × All P ys
  All-of_insert_ordered P x [] h = h
  All-of_insert_ordered P x (y ∷ ys) h = elim (Bool-cases (before x y)) [
    | inl e ↦ rw e at h
    | inr e ↦
        let h = rw e at h in
        let (here, there) = All-of_insert_ordered P x ys h.1 in (here, (h.0, there))
  ]

  pub All-of_ordered {κ} : (P : A → Type κ) (xs : List A) → All P (ordered xs) → All P xs
  All-of_ordered P [] h = tt
  All-of_ordered P (x ∷ xs) h =
      let (here, there) = All-of_insert_ordered P x (ordered xs) h in
      (here, All-of_ordered P xs there)

  -- The rows that can be compared with each other.
  abbrev pub Apart : A → A → Type 0
  Apart x y = (before x y ≡ true) ⊎ (before y x ≡ true)

  abbrev pub PairwiseApart : List A → Type ℓ
  PairwiseApart [] = Unit
  PairwiseApart (x ∷ xs) = All (Apart x) xs × PairwiseApart xs

  module _
      (transitive : (a b c : A) → before a b ≡ true → before b c ≡ true → before a c ≡ true) where
    All-before :
        (x y : A) (ys : List A)
        → before x y ≡ true
        → All (λ z. before y z ≡ true) ys
        → All (λ z. before x z ≡ true) ys
    All-before x y ys e h = All-imp _ _ ys (λ z k. transitive x y z e k) h

    behind : (x y : A) → before x y ≡ false → Apart x y → before y x ≡ true
    behind x y miss (inl e) = cc
    behind x y miss (inr e) = e

    Sorted-insert_ordered :
        (x : A) (ys : List A) → All (Apart x) ys → Sorted ys → Sorted (insert_ordered x ys)
    Sorted-insert_ordered x [] a s = (tt, tt)
    Sorted-insert_ordered x (y ∷ ys) a s = elim (Bool-cases (before x y)) [
      | inl e ↦ rw e ((e, All-before x y ys e s.0), s)
      | inr e ↦ rw e (
        All-insert_ordered (λ z. before y z ≡ true) x ys (behind x y e a.0) s.0,
        Sorted-insert_ordered x ys a.1 s.1,
      )
    ]

    pub Sorted-ordered : (xs : List A) → PairwiseApart xs → Sorted (ordered xs)
    Sorted-ordered [] h = tt
    Sorted-ordered (x ∷ xs) h =
        Sorted-insert_ordered x (ordered xs) (All-ordered (Apart x) xs h.0) (Sorted-ordered xs h.1)

    -- A row that comes before all of a list is put in front of any selection of it.
    insert_front :
        (x : A) (ys : List A) → All (λ z. before x z ≡ true) ys → insert_ordered x ys ≡ x ∷ ys
    insert_front x [] h = refl
    insert_front x (y ∷ ys) h = rw (h.0) refl

    select-insert_kept :
        (p : A → Bool) (x : A) (ys : List A)
        → Sorted ys
        → p x ≡ true
        → select_where p (insert_ordered x ys) ≡ insert_ordered x (select_where p ys)
    select-insert_kept p x [] s hit = rw hit refl
    select-insert_kept p x (y ∷ ys) s hit = elim (Bool-cases (before x y)) [
      | inl e ↦
          let ahead : All (λ z. before x z ≡ true) (y ∷ ys) = (e, All-before x y ys e s.0) in
          let front =
            insert_front x (select_where p (y ∷ ys)) (All-select_where _ p (y ∷ ys) ahead) in
          rw (e, hit) (sym front)
      | inr e ↦
          let rest = select-insert_kept p x ys s.1 hit in
          elim (Bool-cases (p y)) [
            | inl keep ↦ rw (e, keep, e) (ap (λ zs. y ∷ zs) rest)
            | inr drop ↦ rw (e, drop) rest
          ]
    ]

    select-insert_dropped :
        (p : A → Bool) (x : A) (ys : List A)
        → p x ≡ false
        → select_where p (insert_ordered x ys) ≡ select_where p ys
    select-insert_dropped p x [] miss = rw miss refl
    select-insert_dropped p x (y ∷ ys) miss = elim (Bool-cases (before x y)) [
      | inl e ↦ rw (e, miss) refl
      | inr e ↦ rw (e, select-insert_dropped p x ys miss) refl
    ]

    -- Selecting rows and putting them in order can be done either way round.
    pub ordered-select_where :
        (p : A → Bool) (xs : List A)
        → PairwiseApart xs
        → ordered (select_where p xs) ≡ select_where p (ordered xs)
    ordered-select_where p [] h = refl
    ordered-select_where p (x ∷ xs) h = elim (Bool-cases (p x)) [
      | inl e ↦
          rw (e, ordered-select_where p xs h.1)
            (sym (select-insert_kept p x (ordered xs) (Sorted-ordered xs h.1) e))
      | inr e ↦
          rw (e, ordered-select_where p xs h.1) (sym (select-insert_dropped p x (ordered xs) e))
    ]

module _ {ℓ} {A : Type ℓ} (before : A → A → Bool) where
  pub PairwiseApart-select_where :
      (p : A → Bool) (xs : List A)
      → PairwiseApart before xs
      → PairwiseApart before (select_where p xs)
  PairwiseApart-select_where p [] h = tt
  PairwiseApart-select_where p (x ∷ xs) h = elim (Bool-cases (p x)) [
    | inl e ↦ rw e (All-select_where (Apart before x) p xs h.0, PairwiseApart-select_where p xs h.1)
    | inr e ↦ rw e (PairwiseApart-select_where p xs h.1)
  ]

  members-All : (xs : List A) → All (λ y. Memᴰ y xs) xs
  members-All [] = tt
  members-All (x ∷ xs) = (Memᴰ.head refl, All-imp _ _ xs (λ y m. Memᴰ.tail m) (members-All xs))

  -- Putting a list in order keeps its elements.
  pub Memᴰ-ordered : (x : A) (xs : List A) → Memᴰ x xs → Memᴰ x (ordered before xs)
  Memᴰ-ordered x xs m =
      All-Memᴰ _ xs
        (All-of_ordered before (λ y. Memᴰ y (ordered before xs)) xs
          (members-All (ordered before xs)))
        m

  pub Memᴰ-of_ordered : (x : A) (xs : List A) → Memᴰ x (ordered before xs) → Memᴰ x xs
  Memᴰ-of_ordered x xs m =
      All-Memᴰ _ (ordered before xs) (All-ordered before (λ y. Memᴰ y xs) xs (members-All xs)) m
