-- ===== src/Pypi/Coherence.antt =====
-- Three comparisons of three things that fit one order, and how a chain of comparisons keeps that.
use dependecy_graph_auditor.Prelude.{
  ℕ, ◌≡◌, ◌≢◌, ◌<◌, ltb, refl, Bool, true, false, Option, none, some, List, [], ◌∷◌, arith,
  Bool-cases, inl, inr,
}
use dependecy_graph_auditor.Pypi.Versions.{
  Sign, negated, or_else, compare_int, compare_release, compare_optional_number, compare_parts,
}

-- `Fits p q r`: the results p of x with y, q of y with z and r of x with z are those of one order.
abbrev pub Fits : Sign → Sign → Sign → Type 0
Fits Sign.same q r = r ≡ q
Fits Sign.before Sign.same r = r ≡ Sign.before
Fits Sign.before Sign.before r = r ≡ Sign.before
Fits Sign.before Sign.after r = Unit
Fits Sign.after Sign.same r = r ≡ Sign.after
Fits Sign.after Sign.after r = r ≡ Sign.after
Fits Sign.after Sign.before r = Unit

pub before-Fits : (p : Sign) → Fits p Sign.before Sign.before × Fits Sign.before p Sign.before
before-Fits Sign.same = (refl, refl)
before-Fits Sign.before = (refl, refl)
before-Fits Sign.after = (tt, tt)

pub after-Fits : (p : Sign) → Fits p Sign.after Sign.after × Fits Sign.after p Sign.after
after-Fits Sign.same = (refl, refl)
after-Fits Sign.before = (tt, tt)
after-Fits Sign.after = (refl, refl)

pub Fits-right : (p : Sign) → Fits p Sign.same p
Fits-right Sign.same = refl
Fits-right Sign.before = refl
Fits-right Sign.after = refl

pub Fits-or_else :
    (p q r p' q' r' : Sign)
    → Fits p q r
    → Fits p' q' r'
    → Fits (or_else p p') (or_else q q') (or_else r r')
Fits-or_else Sign.same Sign.same r p' q' r' f f' = rw f f'
Fits-or_else Sign.same Sign.before r p' q' r' f f' = rw f (before-Fits p').0
Fits-or_else Sign.same Sign.after r p' q' r' f f' = rw f (after-Fits p').0
Fits-or_else Sign.before Sign.same r p' q' r' f f' = rw f (before-Fits q').1
Fits-or_else Sign.after Sign.same r p' q' r' f f' = rw f (after-Fits q').1
Fits-or_else Sign.before Sign.before r p' q' r' f f' = rw f refl
Fits-or_else Sign.after Sign.after r p' q' r' f f' = rw f refl
Fits-or_else Sign.before Sign.after r p' q' r' f f' = tt
Fits-or_else Sign.after Sign.before r p' q' r' f f' = tt

data IntCase (m n : ℕ) : Type 0 where
  less : m < n → compare_int m n ≡ Sign.before → IntCase m n
  equal : m ≡ n → compare_int m n ≡ Sign.same → IntCase m n
  more : n < m → compare_int m n ≡ Sign.after → IntCase m n

int_case : (m n : ℕ) → IntCase m n
unfolding compare_int
int_case m n = elim (Bool-cases (ltb m n)) [
  | inl up ↦ IntCase.less (ground arith) (rw up refl)
  | inr not_up ↦ elim (Bool-cases (ltb n m)) [
    | inl down ↦ IntCase.more (ground arith) (rw (not_up, down) refl)
    | inr not_down ↦ IntCase.equal (ground arith) (rw (not_up, not_down) refl)
  ]
]

compare_int_less : (m n : ℕ) → m < n → compare_int m n ≡ Sign.before
unfolding compare_int
compare_int_less m n h = ground arith

compare_int_more : (m n : ℕ) → n < m → compare_int m n ≡ Sign.after
unfolding compare_int
compare_int_more m n h = ground arith

pub Fits-compare_int : (l m n : ℕ) → Fits (compare_int l m) (compare_int m n) (compare_int l n)
Fits-compare_int l m n = go (int_case l m) (int_case m n)
  where
    go : IntCase l m → IntCase m n → Fits (compare_int l m) (compare_int m n) (compare_int l n)
    go (IntCase.equal e p) k = rw (p, e) refl
    go (IntCase.less h p) (IntCase.equal e q) = rw (p, q, ← e) p
    go (IntCase.more h p) (IntCase.equal e q) = rw (p, q, ← e) p
    go (IntCase.less h p) (IntCase.less k q) = rw (p, q) (compare_int_less l n (omega arith))
    go (IntCase.more h p) (IntCase.more k q) = rw (p, q) (compare_int_more l n (omega arith))
    go (IntCase.less h p) (IntCase.more k q) = rw (p, q) tt
    go (IntCase.more h p) (IntCase.less k q) = rw (p, q) tt

pub Fits-compare_release :
    (xs ys zs : List ℕ)
    → Fits (compare_release xs ys) (compare_release ys zs) (compare_release xs zs)
unfolding compare_release compare_int
Fits-compare_release [] [] zs = refl
Fits-compare_release (x ∷ xs) [] [] = Fits-right (or_else (compare_int x 0) (compare_release xs []))
Fits-compare_release [] (y ∷ ys) [] =
    Fits-or_else _ _ Sign.same _ _ Sign.same (Fits-compare_int 0 y 0)
      (Fits-compare_release [] ys [])
Fits-compare_release [] (y ∷ ys) (z ∷ zs) =
    Fits-or_else _ _ _ _ _ _ (Fits-compare_int 0 y z) (Fits-compare_release [] ys zs)
Fits-compare_release (x ∷ xs) [] (z ∷ zs) =
    Fits-or_else _ _ _ _ _ _ (Fits-compare_int x 0 z) (Fits-compare_release xs [] zs)
Fits-compare_release (x ∷ xs) (y ∷ ys) [] =
    Fits-or_else _ _ _ _ _ _ (Fits-compare_int x y 0) (Fits-compare_release xs ys [])
Fits-compare_release (x ∷ xs) (y ∷ ys) (z ∷ zs) =
    Fits-or_else _ _ _ _ _ _ (Fits-compare_int x y z) (Fits-compare_release xs ys zs)

-- The result for a missing number, which is not `same`.
Fits-missing :
    (m s : Sign)
    → m ≢ Sign.same
    → Fits m s m × Fits (negated m) m s × Fits s (negated m) (negated m)
Fits-missing Sign.same s k = absurd (k refl)
Fits-missing Sign.before s k = ((before-Fits s).1, tt, (after-Fits s).0)
Fits-missing Sign.after s k = ((after-Fits s).1, tt, (before-Fits s).0)

pub Fits-compare_optional_number :
    (a b c : Bool) (l m n : ℕ) (missing : Sign)
    → missing ≢ Sign.same
    → Fits
        (compare_optional_number a l b m missing)
        (compare_optional_number b m c n missing)
        (compare_optional_number a l c n missing)
unfolding compare_optional_number
Fits-compare_optional_number false false c l m n missing k = refl
Fits-compare_optional_number false true false l m n Sign.same k = refl
Fits-compare_optional_number false true false l m n Sign.before k = tt
Fits-compare_optional_number false true false l m n Sign.after k = tt
Fits-compare_optional_number false true true l m n missing k =
    (Fits-missing missing (compare_int m n) k).0
Fits-compare_optional_number true false false l m n missing k = Fits-right (negated missing)
Fits-compare_optional_number true false true l m n missing k =
    (Fits-missing missing (compare_int l n) k).1
Fits-compare_optional_number true true false l m n missing k =
    (Fits-missing missing (compare_int l m) k).2
Fits-compare_optional_number true true true l m n missing k = Fits-compare_int l m n

pub Fits-compare_parts :
    (a b c : Option ℕ) (p q r : Sign)
    → Fits p q r
    → Fits (compare_parts a b p) (compare_parts b c q) (compare_parts a c r)
Fits-compare_parts (some l) (some m) (some n) p q r f = Fits-compare_int l m n
Fits-compare_parts (some l) (some m) none p q r f = (after-Fits (compare_int l m)).0
Fits-compare_parts (some l) none (some n) p q r f = tt
Fits-compare_parts none (some m) (some n) p q r f = (before-Fits (compare_int m n)).1
Fits-compare_parts (some l) none none p q r f = (after-Fits q).1
Fits-compare_parts none (some m) none p q r f = tt
Fits-compare_parts none none (some n) p q r f = (before-Fits p).0
Fits-compare_parts none none none p q r f = f
