-- ===== src/Pypi/Versions.antt =====
-- `Version` and `Version.Compare`.
use dependecy_graph_auditor.Prelude.{
  ℕ, String, Bool, true, false, ◌&&◌, not, Option, none, some, List, [], ◌∷◌, if◌then◌else◌, ltb,
}

-- The text that was parsed is left out: no comparison reads it.
pub record Version : Type 0 where
  pub epoch : ℕ
  pub release : List ℕ
  pub pre_kind : ℕ
  pub pre_num : ℕ
  pub has_pre : Bool
  pub post_num : ℕ
  pub has_post : Bool
  pub dev_num : ℕ
  pub has_dev : Bool
  pub local : List String

-- The results -1, 0 and 1 of a comparison.
pub data Sign : Type 0 where
  before same after : Sign

abbrev pub negated : Sign → Sign
negated Sign.before = Sign.after
negated Sign.same = Sign.same
negated Sign.after = Sign.before

-- `if compared := …; compared != 0 { return compared }`, with what follows it.
abbrev pub or_else : Sign → Sign → Sign
or_else Sign.before rest = Sign.before
or_else Sign.same rest = rest
or_else Sign.after rest = Sign.after

unfoldable pub compare_int : ℕ → ℕ → Sign
compare_int left right =
    if ltb left right then Sign.before else if ltb right left then Sign.after else Sign.same

-- The loop up to the longer length, which reads 0 behind the end of a release.
unfoldable pub compare_release : List ℕ → List ℕ → Sign
compare_release [] [] = Sign.same
compare_release [] (y ∷ ys) = or_else (compare_int 0 y) (compare_release [] ys)
compare_release (x ∷ xs) [] = or_else (compare_int x 0) (compare_release xs [])
compare_release (x ∷ xs) (y ∷ ys) = or_else (compare_int x y) (compare_release xs ys)

-- The ranks -1, 0 and 1 of a version by its pre-release, counted from 0.
unfoldable pub pre_rank : Version → ℕ
pre_rank v = if v.has_pre then 1 else if v.has_dev && not v.has_post then 0 else 2

unfoldable pub compare_pre : Version → Version → Sign
compare_pre left right = or_else (compare_int (pre_rank left) (pre_rank right)) (
    or_else
      (compare_int (if left.has_pre then left.pre_kind else 0)
        (if right.has_pre then right.pre_kind else 0))
      (compare_int (if left.has_pre then left.pre_num else 0)
        (if right.has_pre then right.pre_num else 0)))

unfoldable pub compare_optional_number : Bool → ℕ → Bool → ℕ → Sign → Sign
compare_optional_number false left false right missing_rank = Sign.same
compare_optional_number false left true right missing_rank = missing_rank
compare_optional_number true left false right missing_rank = negated missing_rank
compare_optional_number true left true right missing_rank = compare_int left right

-- Functions of Go's library: strconv.Atoi, with none for an error, and strings.Compare.
pub record Texts : Type 0 where
  pub atoi : String → Option ℕ
  pub compare_text : String → String → Sign

-- One turn of the loop of `compareLocal`, by what Atoi makes of the two parts.
abbrev pub compare_parts : Option ℕ → Option ℕ → Sign → Sign
compare_parts (some m) (some n) texts = compare_int m n
compare_parts (some m) none texts = Sign.after
compare_parts none (some n) texts = Sign.before
compare_parts none none texts = texts

module _ (texts : Texts) where
  -- The loop over the parts that both have, and the comparison of the lengths after it.
  unfoldable pub compare_local_parts : List String → List String → Sign
  compare_local_parts [] [] = Sign.same
  compare_local_parts [] (t ∷ ts) = Sign.before
  compare_local_parts (s ∷ ss) [] = Sign.after
  compare_local_parts (s ∷ ss) (t ∷ ts) =
      or_else (compare_parts (texts.atoi s) (texts.atoi t) (texts.compare_text s t))
        (compare_local_parts ss ts)

  -- The first tests of `compareLocal` come to the same as those of the loop.
  unfoldable pub compare_local : List String → List String → Sign
  unfolding compare_local_parts
  compare_local [] [] = Sign.same
  compare_local [] (t ∷ ts) = Sign.before
  compare_local (s ∷ ss) [] = Sign.after
  compare_local (s ∷ ss) (t ∷ ts) = compare_local_parts (s ∷ ss) (t ∷ ts)

  unfoldable pub compare : Version → Version → Sign
  compare v other = or_else (compare_int v.epoch other.epoch) (
      or_else (compare_release v.release other.release) (
        or_else (compare_pre v other) (
          or_else
            (compare_optional_number v.has_post v.post_num other.has_post other.post_num
              Sign.before)
            (or_else
              (compare_optional_number v.has_dev v.dev_num other.has_dev other.dev_num Sign.after)
              (compare_local v.local other.local)))))
