-- ===== src/Prelude/Lists.antt =====
-- Lists: counting, searching, predicates on all entries, and updates of the entries that pass a
-- test, which is how the SQL statements of the stores are read.
use Prim.Native.Nat.{ℕ, suc}
use mathlib.Core.Path.{◌≡◌, refl, sym, ap, ◌∙◌, subst}
use mathlib.Core.Logic.{◌⊎◌, inl, inr}
use mathlib.Core.Bool.{Bool, true, false}
use mathlib.Core.Option.{Option, none, some, some-injective}
use mathlib.Core.List.{List, [], ◌∷◌, ◌++◌, map, Memᴰ}
use dependecy_graph_auditor.Prelude.Tests.{if◌then◌else◌, is_some, Bool-cases}

module _ {ℓ} {A : Type ℓ} where
  abbrev pub length : List A → ℕ
  length [] = 0
  length (x ∷ xs) = suc (length xs)

  abbrev pub count_where : (A → Bool) → List A → ℕ
  count_where p [] = 0
  count_where p (x ∷ xs) = if p x then suc (count_where p xs) else count_where p xs

  abbrev pub select_where : (A → Bool) → List A → List A
  select_where p [] = []
  select_where p (x ∷ xs) = if p x then x ∷ select_where p xs else select_where p xs

  abbrev pub find_where : (A → Bool) → List A → Option A
  find_where p [] = none
  find_where p (x ∷ xs) = if p x then some x else find_where p xs

  abbrev pub update_where : (A → Bool) → (A → A) → List A → List A
  update_where p f [] = []
  update_where p f (x ∷ xs) = (if p x then f x else x) ∷ update_where p f xs

  abbrev pub All {κ} : (A → Type κ) → List A → Type κ
  All P [] = Unit
  All P (x ∷ xs) = P x × All P xs

module _ {ℓ} {A : Type ℓ} where
  pub All-append {κ} : (P : A → Type κ) (xs ys : List A) → All P xs → All P ys → All P (xs ++ ys)
  All-append P [] ys h k = k
  All-append P (x ∷ xs) ys h k = (h.0, All-append P xs ys h.1 k)

  pub All-update_where {κ} :
      (P : A → Type κ) (p : A → Bool) (f : A → A) (xs : List A)
      → ((x : A) → P x → p x ≡ true → P (f x))
      → All P xs
      → All P (update_where p f xs)
  All-update_where P p f [] step h = tt
  All-update_where P p f (x ∷ xs) step h = elim (Bool-cases (p x)) [
    | inl hit ↦ rw hit (step x h.0 hit, All-update_where P p f xs step h.1)
    | inr miss ↦ rw miss (h.0, All-update_where P p f xs step h.1)
  ]

  -- An update that turns one property of the entries into another.
  pub All-update_turn {κ μ} :
      (P : A → Type κ) (Q : A → Type μ) (p : A → Bool) (f : A → A) (xs : List A)
      → ((x : A) → P x → p x ≡ true → Q (f x))
      → ((x : A) → P x → p x ≡ false → Q x)
      → All P xs
      → All Q (update_where p f xs)
  All-update_turn P Q p f [] step keep h = tt
  All-update_turn P Q p f (x ∷ xs) step keep h = elim (Bool-cases (p x)) [
    | inl hit ↦ rw hit (step x h.0 hit, All-update_turn P Q p f xs step keep h.1)
    | inr miss ↦ rw miss (keep x h.0 miss, All-update_turn P Q p f xs step keep h.1)
  ]

  pub All-intro {κ} : (P : A → Type κ) (xs : List A) → ((x : A) → P x) → All P xs
  All-intro P [] f = tt
  All-intro P (x ∷ xs) f = (f x, All-intro P xs f)

  pub All-imp {κ μ} :
      (P : A → Type κ) (Q : A → Type μ) (xs : List A) → ((x : A) → P x → Q x) → All P xs → All Q xs
  All-imp P Q [] f h = tt
  All-imp P Q (x ∷ xs) f h = (f x h.0, All-imp P Q xs f h.1)

  pub All-Memᴰ {κ} : (P : A → Type κ) {x : A} (xs : List A) → All P xs → Memᴰ x xs → P x
  All-Memᴰ P [] h m = elim m [ ]
  All-Memᴰ P (y ∷ xs) h (Memᴰ.head e) = subst P (sym e) h.0
  All-Memᴰ P (y ∷ xs) h (Memᴰ.tail m) = All-Memᴰ P xs h.1 m

  -- Membership behind an entry that a selection keeps.
  kept_member :
      (p : A → Bool) {x y : A} (xs ys : List A)
      → p y ≡ true
      → (Memᴰ x ys → Memᴰ x xs × (p x ≡ true))
      → Memᴰ x (y ∷ ys)
      → Memᴰ x (y ∷ xs) × (p x ≡ true)
  kept_member p xs ys hit rest (Memᴰ.head e) = (Memᴰ.head e, rw e hit)
  kept_member p xs ys hit rest (Memᴰ.tail m) = let (inside, e) = rest m in (Memᴰ.tail inside, e)

  pub Memᴰ-select_where :
      (p : A → Bool) {x : A} (xs : List A) → Memᴰ x (select_where p xs) → Memᴰ x xs × (p x ≡ true)
  Memᴰ-select_where p [] m = elim m [ ]
  Memᴰ-select_where p {x} (y ∷ xs) m = elim (Bool-cases (p y)) [
    | inl hit ↦
        kept_member p xs (select_where p xs) hit (λ t. Memᴰ-select_where p xs t) (rw hit at m)
    | inr miss ↦ let (inside, e) = Memᴰ-select_where p xs (rw miss at m) in (Memᴰ.tail inside, e)
  ]

  pub All-select_where {κ} :
      (P : A → Type κ) (p : A → Bool) (xs : List A) → All P xs → All P (select_where p xs)
  All-select_where P p [] h = tt
  All-select_where P p (x ∷ xs) h = elim (Bool-cases (p x)) [
    | inl e ↦ rw e (h.0, All-select_where P p xs h.1)
    | inr e ↦ rw e (All-select_where P p xs h.1)
  ]

  pub All-of_members {κ} : (P : A → Type κ) (xs : List A) → ((x : A) → Memᴰ x xs → P x) → All P xs
  All-of_members P [] f = tt
  All-of_members P (x ∷ xs) f =
      (f x (Memᴰ.head refl), All-of_members P xs (λ y m. f y (Memᴰ.tail m)))

  pub Memᴰ-find_where :
      (p : A → Bool) (xs : List A) (a : A) → find_where p xs ≡ some a → Memᴰ a xs × (p a ≡ true)
  Memᴰ-find_where p [] a e = cc
  Memᴰ-find_where p (x ∷ xs) a e = elim (Bool-cases (p x)) [
    | inl hit ↦
        let same : x ≡ a = some-injective _ _ (rw hit at e) in
        (Memᴰ.head (sym same), rw (← same) hit)
    | inr miss ↦ let (inside, h) = Memᴰ-find_where p xs a (rw miss at e) in (Memᴰ.tail inside, h)
  ]

  pub All-map {κ μ} :
      {B : Type κ} (P : B → Type μ) (f : A → B) (xs : List A)
      → All (λ x. P (f x)) xs
      → All P (map f xs)
  All-map P f [] h = tt
  All-map P f (x ∷ xs) h = (h.0, All-map P f xs h.1)

pub find_append :
    {A : Type 0} (p : A → Bool) (xs : List A) (y : A)
    → is_some (find_where p xs) ≡ false
    → p y ≡ true
    → find_where p (xs ++ y ∷ []) ≡ some y
find_append p [] y absent hit = rw hit refl
find_append p (x ∷ xs) y absent hit = elim (Bool-cases (p x)) [
  | inl e ↦ cc (rw e at absent)
  | inr e ↦ rw e (find_append p xs y (rw e at absent) hit)
]

pub find_kept :
    {A : Type 0} (p : A → Bool) (xs ys : List A) (a : A)
    → find_where p xs ≡ some a
    → find_where p (xs ++ ys) ≡ some a
find_kept p [] ys a e = cc
find_kept p (x ∷ xs) ys a e = elim (Bool-cases (p x)) [
  | inl hit ↦ rw hit (rw hit at e)
  | inr miss ↦ rw miss (find_kept p xs ys a (rw miss at e))
]

-- A member that passes the test makes the search succeed.
pub find_member :
    {A : Type 0} (p : A → Bool) (xs : List A) {a : A}
    → Memᴰ a xs
    → p a ≡ true
    → is_some (find_where p xs) ≡ true
find_member p [] m e = elim m [ ]
find_member p (x ∷ xs) (Memᴰ.head same) e = rw (sym (ap p same) ∙ e) refl
find_member p (x ∷ xs) (Memᴰ.tail m) e = elim (Bool-cases (p x)) [
  | inl hit ↦ rw hit refl
  | inr miss ↦ rw miss (find_member p xs m e)
]

pub Memᴰ-update_where :
    {A : Type 0} (p : A → Bool) (f : A → A) (xs : List A) {a : A}
    → Memᴰ a xs
    → p a ≡ true
    → Memᴰ (f a) (update_where p f xs)
Memᴰ-update_where p f [] m e = elim m [ ]
Memᴰ-update_where p f (x ∷ xs) (Memᴰ.head same) e = rw (sym (ap p same) ∙ e) (Memᴰ.head (ap f same))
Memᴰ-update_where p f (x ∷ xs) (Memᴰ.tail m) e = Memᴰ.tail (Memᴰ-update_where p f xs m e)

pub Memᴰ-left : {A : Type 0} {a : A} (xs ys : List A) → Memᴰ a xs → Memᴰ a (xs ++ ys)
Memᴰ-left [] ys m = elim m [ ]
Memᴰ-left (x ∷ xs) ys (Memᴰ.head e) = Memᴰ.head e
Memᴰ-left (x ∷ xs) ys (Memᴰ.tail m) = Memᴰ.tail (Memᴰ-left xs ys m)

pub Memᴰ-right : {A : Type 0} {a : A} (xs ys : List A) → Memᴰ a ys → Memᴰ a (xs ++ ys)
Memᴰ-right [] ys m = m
Memᴰ-right (x ∷ xs) ys m = Memᴰ.tail (Memᴰ-right xs ys m)

pub Memᴰ-map : {A B : Type 0} (f : A → B) {a : A} (xs : List A) → Memᴰ a xs → Memᴰ (f a) (map f xs)
Memᴰ-map f [] m = elim m [ ]
Memᴰ-map f (x ∷ xs) (Memᴰ.head e) = Memᴰ.head (ap f e)
Memᴰ-map f (x ∷ xs) (Memᴰ.tail m) = Memᴰ.tail (Memᴰ-map f xs m)

pub Memᴰ-append : {A : Type 0} {a : A} (xs ys : List A) → Memᴰ a (xs ++ ys) → Memᴰ a xs ⊎ Memᴰ a ys
Memᴰ-append [] ys m = inr m
Memᴰ-append (x ∷ xs) ys (Memᴰ.head e) = inl (Memᴰ.head e)
Memᴰ-append (x ∷ xs) ys (Memᴰ.tail m) = elim (Memᴰ-append xs ys m) [
  | inl here ↦ inl (Memᴰ.tail here)
  | inr there ↦ inr there
]
