-- ===== src/Prelude/Paging.antt =====
-- Reading an ordered table page by page: `limit` rows at a time, and behind a cursor the rows that
-- come after it.
use Prim.Native.Nat.{ℕ, zero, suc, ◌-◌, ◌≤◌, ◌<◌}
use native.Mathlib.Omega.{arith}
use mathlib.Core.Path.{◌≡◌, refl, sym, ◌∙◌}
use mathlib.Core.Logic.{◌⊎◌, inl, inr}
use mathlib.Core.Bool.{true}
use mathlib.Core.Option
use mathlib.Core.Option.{Option, none, some, some-injective}
use mathlib.Core.List.{List, [], ◌∷◌, map, Memᴰ}
use dependecy_graph_auditor.Prelude.Tests.{if◌then◌else◌, ltb, Bool-cases}
use dependecy_graph_auditor.Prelude.Lists.{length}

module _ {ℓ} {A : Type ℓ} where
  abbrev pub take : ℕ → List A → List A
  take zero xs = []
  take (suc n) [] = []
  take (suc n) (x ∷ xs) = x ∷ take n xs

  abbrev pub get_elem? : List A → ℕ → Option A
  get_elem? [] i = none
  get_elem? (x ∷ xs) zero = some x
  get_elem? (x ∷ xs) (suc i) = get_elem? xs i

  -- What is made of up to `limit + 1` rows: a page of `limit`, and its last row if there are more.
  abbrev pub page : ℕ → List A → List A × Option A
  page limit rows =
      if ltb limit (length rows)
      then (take limit rows, get_elem? rows (limit - 1))
      else (rows, none)

  take_all : (n : ℕ) (xs : List A) → length xs ≤ n → take n xs ≡ xs
  take_all zero [] h = refl
  take_all zero (x ∷ xs) h = absurd (omega arith)
  take_all (suc n) [] h = refl
  take_all (suc n) (x ∷ xs) h = rw (take_all n xs (omega arith)) refl

  take-take : (n : ℕ) (xs : List A) → take n (take (suc n) xs) ≡ take n xs
  take-take zero xs = refl
  take-take (suc n) [] = refl
  take-take (suc n) (x ∷ xs) = rw (take-take n xs) refl

  get_elem?-take : (i n : ℕ) (xs : List A) → i < n → get_elem? (take n xs) i ≡ get_elem? xs i
  get_elem?-take i zero xs h = absurd (omega arith)
  get_elem?-take i (suc n) [] h = refl
  get_elem?-take zero (suc n) (x ∷ xs) h = refl
  get_elem?-take (suc i) (suc n) (x ∷ xs) h = get_elem?-take i n xs (omega arith)

  get_elem?_inside : (i : ℕ) (xs : List A) → i < length xs → (a : A) × (get_elem? xs i ≡ some a)
  get_elem?_inside i [] h = absurd (omega arith)
  get_elem?_inside zero (x ∷ xs) h = (x, refl)
  get_elem?_inside (suc i) (x ∷ xs) h = get_elem?_inside i xs (omega arith)

  pub length-take : (n : ℕ) (xs : List A) → n ≤ length xs → length (take n xs) ≡ n
  length-take zero xs h = refl
  length-take (suc n) [] h = absurd (omega arith)
  length-take (suc n) (x ∷ xs) h = rw (length-take n xs (omega arith)) refl

  pub Memᴰ-get_elem? : (i : ℕ) (xs : List A) (a : A) → get_elem? xs i ≡ some a → Memᴰ a xs
  Memᴰ-get_elem? i [] a e = cc
  Memᴰ-get_elem? zero (x ∷ xs) a e = Memᴰ.head (sym (some-injective _ _ e))
  Memᴰ-get_elem? (suc i) (x ∷ xs) a e = Memᴰ.tail (Memᴰ-get_elem? i xs a e)

  page_cut :
      (n : ℕ) (rows : List A)
      → length rows ≡ suc (suc n)
      → page (suc n) rows ≡ (take (suc n) rows, get_elem? rows n)
  page_cut n rows size =
      let more : ltb (suc n) (length rows) ≡ true = ground arith in
      let before : suc n - 1 ≡ n = omega arith in rw (more, before) refl

  -- A page of the rows that a query with LIMIT `limit + 1` reads.
  pub page-take :
      (n : ℕ) (xs : List A)
      → ((length xs ≤ suc n) × (page (suc n) (take (suc (suc n)) xs) ≡ (xs, none)))
        ⊎ ((suc n < length xs)
            × ((last : A) × (get_elem? xs n ≡ some last)
                × (page (suc n) (take (suc (suc n)) xs) ≡ (take (suc n) xs, some last))))
  page-take n xs = elim (Bool-cases (ltb (suc n) (length xs))) [
    | inr short ↦
        let all : take (suc (suc n)) xs ≡ xs = take_all (suc (suc n)) xs (ground arith) in
        inl (ground arith, rw (all, short) refl)
    | inl long ↦
        let (last, found) = get_elem?_inside n xs (ground arith) in
        let size : length (take (suc (suc n)) xs) ≡ suc (suc n) =
          length-take (suc (suc n)) xs (ground arith) in
        let cut = page_cut n (take (suc (suc n)) xs) size in
        let first = take-take (suc n) xs in
        let end = get_elem?-take n (suc (suc n)) xs (omega arith) in
        inr (ground arith, (last, found, cut ∙ rw (first, end, found) refl))
  ]

module _ {ℓ κ} {A : Type ℓ} {B : Type κ} (f : A → B) where
  take-map : (n : ℕ) (xs : List A) → take n (map f xs) ≡ map f (take n xs)
  take-map zero xs = refl
  take-map (suc n) [] = refl
  take-map (suc n) (x ∷ xs) = rw (take-map n xs) refl

  get_elem?-map : (xs : List A) (i : ℕ) → get_elem? (map f xs) i ≡ Option.map f (get_elem? xs i)
  get_elem?-map [] i = refl
  get_elem?-map (x ∷ xs) zero = refl
  get_elem?-map (x ∷ xs) (suc i) = get_elem?-map xs i

  pub length-map : (xs : List A) → length (map f xs) ≡ length xs
  length-map [] = refl
  length-map (x ∷ xs) = rw (length-map xs) refl

  -- A page of what rows are converted to is the page of the rows, converted.
  pub page-map :
      (limit : ℕ) (xs : List A)
      → page limit (map f xs) ≡ (map f (page limit xs).0, Option.map f (page limit xs).1)
  page-map limit xs = elim (Bool-cases (ltb limit (length xs))) [
    | inl e ↦ rw (length-map xs, e, take-map limit xs, get_elem?-map xs (limit - 1)) refl
    | inr e ↦ rw (length-map xs, e) refl
  ]
