-- ===== src/Pypi/Order.antt =====
-- `Version.Compare` orders the versions.
use dependecy_graph_auditor.Prelude.{
  ℕ, ◌≡◌, ◌≢◌, refl, sym, ◌∙◌, subst, String, Bool, true, false, Option, none, some, List, [], ◌∷◌,
  if◌then◌else◌, arith,
}
use dependecy_graph_auditor.Pypi.Versions.{
  Version, Sign, Texts, negated, compare_int, compare_release, pre_rank, compare_pre,
  compare_optional_number, compare_parts, compare_local_parts, compare_local, compare,
}
use dependecy_graph_auditor.Pypi.Coherence.{
  Fits, Fits-or_else, Fits-compare_int, Fits-compare_release, Fits-compare_optional_number,
  Fits-compare_parts, before-Fits, after-Fits,
}

Fits-compare_pre : (u v w : Version) → Fits (compare_pre u v) (compare_pre v w) (compare_pre u w)
unfolding compare_pre
Fits-compare_pre u v w =
    Fits-or_else _ _ _ _ _ _ (Fits-compare_int (pre_rank u) (pre_rank v) (pre_rank w))
      (Fits-or_else _ _ _ _ _ _ (Fits-compare_int _ _ _) (Fits-compare_int _ _ _))

pub compare_int_self : (n : ℕ) → compare_int n n ≡ Sign.same
unfolding compare_int
compare_int_self n = ground arith

compare_release_self : (xs : List ℕ) → compare_release xs xs ≡ Sign.same
unfolding compare_release
compare_release_self [] = refl
compare_release_self (x ∷ xs) = rw (compare_int_self x) (compare_release_self xs)

compare_pre_self : (v : Version) → compare_pre v v ≡ Sign.same
unfolding compare_pre
compare_pre_self v =
    rw (compare_int_self (pre_rank v), compare_int_self (if v.has_pre then v.pre_kind else 0))
      (compare_int_self (if v.has_pre then v.pre_num else 0))

compare_optional_number_self :
    (a : Bool) (n : ℕ) (missing : Sign) → compare_optional_number a n a n missing ≡ Sign.same
unfolding compare_optional_number
compare_optional_number_self false n missing = refl
compare_optional_number_self true n missing = compare_int_self n

compare_parts_self : (a : Option ℕ) (p : Sign) → p ≡ Sign.same → compare_parts a a p ≡ Sign.same
compare_parts_self (some n) p e = compare_int_self n
compare_parts_self none p e = e

-- Comparisons that fit in a circle are each other's opposites.
opposite : (p q : Sign) → Fits p q Sign.same → q ≡ negated p
opposite Sign.same q f = sym f
opposite Sign.before Sign.same f = cc
opposite Sign.before Sign.before f = cc
opposite Sign.before Sign.after f = refl
opposite Sign.after Sign.same f = cc
opposite Sign.after Sign.before f = refl
opposite Sign.after Sign.after f = cc

not_after : (p q r : Sign) → Fits p q r → p ≢ Sign.after → q ≢ Sign.after → r ≢ Sign.after
not_after Sign.same q r f h k = λ e. k (sym f ∙ e)
not_after Sign.before Sign.same r f h k = λ e. h (sym f ∙ e)
not_after Sign.before Sign.before r f h k = λ e. h (sym f ∙ e)
not_after Sign.before Sign.after r f h k = absurd (k refl)
not_after Sign.after q r f h k = absurd (h refl)

-- strings.Compare is an order of texts.
module _ (texts : Texts)
    (text_fits : (s t u : String)
      → Fits (texts.compare_text s t) (texts.compare_text t u) (texts.compare_text s u))
    (text_self : (s : String) → texts.compare_text s s ≡ Sign.same) where
  Fits-compare_local_parts :
      (xs ys zs : List String)
      → Fits
          (compare_local_parts texts xs ys)
          (compare_local_parts texts ys zs)
          (compare_local_parts texts xs zs)
  unfolding compare_local_parts
  Fits-compare_local_parts [] [] zs = refl
  Fits-compare_local_parts [] (y ∷ ys) [] = tt
  Fits-compare_local_parts [] (y ∷ ys) (z ∷ zs) = (before-Fits _).1
  Fits-compare_local_parts (x ∷ xs) [] [] = refl
  Fits-compare_local_parts (x ∷ xs) [] (z ∷ zs) = tt
  Fits-compare_local_parts (x ∷ xs) (y ∷ ys) [] = (after-Fits _).0
  Fits-compare_local_parts (x ∷ xs) (y ∷ ys) (z ∷ zs) =
      Fits-or_else _ _ _ _ _ _
        (Fits-compare_parts (texts.atoi x) (texts.atoi y) (texts.atoi z) _ _ _ (text_fits x y z))
        (Fits-compare_local_parts xs ys zs)

  compare_local_same :
      (xs ys : List String) → compare_local texts xs ys ≡ compare_local_parts texts xs ys
  unfolding compare_local
  compare_local_same [] [] = refl
  compare_local_same [] (y ∷ ys) = refl
  compare_local_same (x ∷ xs) [] = refl
  compare_local_same (x ∷ xs) (y ∷ ys) = refl

  Fits-compare_local :
      (xs ys zs : List String)
      → Fits (compare_local texts xs ys) (compare_local texts ys zs) (compare_local texts xs zs)
  Fits-compare_local xs ys zs =
      rw (compare_local_same xs ys, compare_local_same ys zs, compare_local_same xs zs)
        (Fits-compare_local_parts xs ys zs)

  compare_local_parts_self : (xs : List String) → compare_local_parts texts xs xs ≡ Sign.same
  unfolding compare_local_parts
  compare_local_parts_self [] = refl
  compare_local_parts_self (x ∷ xs) =
      rw (compare_parts_self (texts.atoi x) (texts.compare_text x x) (text_self x))
        (compare_local_parts_self xs)

  Fits-compare :
      (u v w : Version) → Fits (compare texts u v) (compare texts v w) (compare texts u w)
  unfolding compare
  Fits-compare u v w = Fits-or_else _ _ _ _ _ _ (Fits-compare_int u.epoch v.epoch w.epoch) (
      Fits-or_else _ _ _ _ _ _ (Fits-compare_release u.release v.release w.release) (
        Fits-or_else _ _ _ _ _ _ (Fits-compare_pre u v w) (
          Fits-or_else _ _ _ _ _ _
            (Fits-compare_optional_number u.has_post v.has_post w.has_post _ _ _ Sign.before
              (λ e. cc e))
            (Fits-or_else _ _ _ _ _ _
              (Fits-compare_optional_number u.has_dev v.has_dev w.has_dev _ _ _ Sign.after
                (λ e. cc e))
              (Fits-compare_local u.local v.local w.local)))))

  compare_self : (v : Version) → compare texts v v ≡ Sign.same
  unfolding compare
  compare_self v =
      rw
        (
          compare_int_self v.epoch,
          compare_release_self v.release,
          compare_pre_self v,
          compare_optional_number_self v.has_post v.post_num Sign.before,
          compare_optional_number_self v.has_dev v.dev_num Sign.after,
        )
        (compare_local_same v.local v.local ∙ compare_local_parts_self v.local)

  -- Comparing two versions the other way round negates the result, if strings.Compare is an order.
  pub compare-negated : (u v : Version) → compare texts v u ≡ negated (compare texts u v)
  compare-negated u v = opposite (compare texts u v) (compare texts v u) (
      subst (λ s. Fits (compare texts u v) (compare texts v u) s) (compare_self u)
        (Fits-compare u v u))

  -- No version comes after one that it does not come after by way of a third, if strings.Compare is
  -- an order: where Compare does not put u after v, nor v after w, it does not put u after w.
  pub compare_trans :
      (u v w : Version)
      → compare texts u v ≢ Sign.after
      → compare texts v w ≢ Sign.after
      → compare texts u w ≢ Sign.after
  compare_trans u v w =
      not_after (compare texts u v) (compare texts v w) (compare texts u w) (Fits-compare u v w)
