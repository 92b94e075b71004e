-- ===== src/Pypi/Clauses.antt =====
-- The clauses of a version constraint: `matchesClauses` and what it calls.
use dependecy_graph_auditor.Prelude.{
  ℕ, zero, suc, ◌-◌, String, str_eq, Bool, true, false, ◌&&◌, ◌||◌, not, ◌==◌, ltb, leb, List, [],
  ◌∷◌, if◌then◌else◌, length,
}
use dependecy_graph_auditor.Pypi.Versions.{Version, Sign, Texts, compare_release, compare}

-- The operators, in the order in which `parseConstraint` looks for them:
-- "===", "~=", "==", "!=", "<=", ">=", "<", ">".
pub data Operator : Type 0 where
  arbitrary compatible equal different at_most at_least below above : Operator

pub record VersionClause : Type 0 where
  pub operator : Operator
  pub value : String
  pub version : Version
  pub prefix_epoch : ℕ
  pub prefix : List ℕ

abbrev pub is_equal : Operator → Bool
is_equal Operator.equal = true
is_equal _ = false

abbrev pub is_same : Sign → Bool
is_same Sign.same = true
is_same _ = false

abbrev pub is_before : Sign → Bool
is_before Sign.before = true
is_before _ = false

abbrev pub is_after : Sign → Bool
is_after Sign.after = true
is_after _ = false

abbrev pub has_entries : List ℕ → Bool
has_entries [] = false
has_entries (_ ∷ _) = true

-- The loop of a wildcard clause; the test of the lengths before it keeps the index in range.
unfoldable pub same_parts : List ℕ → List ℕ → Bool
same_parts [] release = true
same_parts (p ∷ prefix) [] = false
same_parts (p ∷ prefix) (r ∷ release) = (r == p) && same_parts prefix release

unfoldable pub matches_prefix : Version → ℕ → List ℕ → Bool
matches_prefix v epoch prefix =
    (v.epoch == epoch) && leb (length prefix) (length v.release) && same_parts prefix v.release

-- The loop of `compatiblePrefix` over the first parts of two releases that are long enough.
unfoldable pub same_first : ℕ → List ℕ → List ℕ → Bool
same_first zero xs ys = true
same_first (suc n) (x ∷ xs) (y ∷ ys) = (x == y) && same_first n xs ys
same_first (suc n) _ _ = false

unfoldable pub compatible_prefix : Version → Version → Bool
compatible_prefix candidate minimum =
    let count = length minimum.release - 1 in
    let prefix_length = if ltb count 1 then 1 else count in
    (candidate.epoch == minimum.epoch)
    && leb prefix_length (length candidate.release)
    && same_first prefix_length candidate.release minimum.release

abbrev pub no_local : List String → Bool
no_local [] = true
no_local (_ ∷ _) = false

unfoldable pub same_public_release : Version → Version → Bool
same_public_release left right =
    (left.epoch == right.epoch) && is_same (compare_release left.release right.release)

module _ (texts : Texts) where
  unfoldable pub compare_specifier_version : Version → Version → Sign
  compare_specifier_version candidate specified =
      compare texts
        (record candidate { local = if no_local specified.local then [] else candidate.local })
        specified

  -- The switch on the operator of a clause with a version.
  unfoldable pub satisfies : Operator → Sign → Version → Version → Bool
  satisfies Operator.arbitrary c v w = true
  satisfies Operator.equal c v w = is_same c
  satisfies Operator.different c v w = not (is_same c)
  satisfies Operator.below c v w =
      is_before c && not (not w.has_pre && same_public_release v w && (v.has_pre || v.has_dev))
  satisfies Operator.at_most c v w = not (is_after c)
  satisfies Operator.above c v w =
      is_after c && not (not w.has_post && same_public_release v w && v.has_post)
  satisfies Operator.at_least c v w = not (is_before c)
  satisfies Operator.compatible c v w = not (is_before c) && compatible_prefix v w

  -- One turn of the loop, for a clause that is not "===".
  unfoldable pub matches_version : Version → VersionClause → Bool
  matches_version v clause =
      if has_entries clause.prefix
      then (if is_equal clause.operator
          then matches_prefix v clause.prefix_epoch clause.prefix
          else not (matches_prefix v clause.prefix_epoch clause.prefix))
      else satisfies clause.operator (compare_specifier_version v clause.version) v clause.version

  unfoldable pub matches_clause : Operator → Version → String → VersionClause → Bool
  matches_clause Operator.arbitrary v raw clause = str_eq raw clause.value
  matches_clause _ v raw clause = matches_version v clause

  unfoldable pub matches_clauses : Version → String → List VersionClause → Bool
  matches_clauses v raw [] = true
  matches_clauses v raw (clause ∷ clauses) =
      matches_clause clause.operator v raw clause && matches_clauses v raw clauses
