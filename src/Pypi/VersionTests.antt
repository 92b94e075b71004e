-- ===== src/Pypi/VersionTests.antt =====
-- The order of the versions, and the clauses of a constraint, at some versions.
use Prim.Native.String.{len}
use dependecy_graph_auditor.Prelude.{◌≡◌, ◌≢◌, refl, String, true, false, none, [], ◌∷◌}
use dependecy_graph_auditor.Pypi.Versions.{
  Version, Sign, Texts, negated, compare_int, compare_release, pre_rank, compare_pre,
  compare_optional_number, compare_local, compare,
}
use dependecy_graph_auditor.Pypi.Coherence.{Fits, Fits-compare_int}
use dependecy_graph_auditor.Pypi.Order.{compare_int_self, compare-negated, compare_trans}
use dependecy_graph_auditor.Pypi.Clauses.{matches_clauses}
use dependecy_graph_auditor.Pypi.Compatible.{
  compatible_clause, at_least_clause, wildcard_clause, compatible-matches_clauses,
}

-- Texts compared by their lengths.
abbrev sample_texts : Texts
sample_texts = record { atoi = λ s. none; compare_text = λ s t. compare_int (len s) (len t) }

texts_fit :
    (s t u : String)
    → Fits
        (sample_texts.compare_text s t)
        (sample_texts.compare_text t u)
        (sample_texts.compare_text s u)
texts_fit s t u = Fits-compare_int (len s) (len t) (len u)

text_same : (s : String) → sample_texts.compare_text s s ≡ Sign.same
text_same s = compare_int_self (len s)

abbrev v1_2 : Version
v1_2 = record {
  epoch = 0;
  release = 1 ∷ 2 ∷ [];
  pre_kind = 0;
  pre_num = 0;
  has_pre = false;
  post_num = 0;
  has_post = false;
  dev_num = 0;
  has_dev = false;
  local = [];
}

abbrev v1_2_rc1 : Version
v1_2_rc1 = record v1_2 { pre_kind = 2; pre_num = 1; has_pre = true }

abbrev v1_2_dev : Version
v1_2_dev = record v1_2 { dev_num = 3; has_dev = true }

dev_first : compare sample_texts v1_2_dev v1_2_rc1 ≡ Sign.before
unfolding compare compare_int compare_release compare_pre pre_rank compare_optional_number
    compare_local
dev_first = refl

dev_not_after : compare sample_texts v1_2_dev v1_2_rc1 ≢ Sign.after
unfolding compare compare_int compare_release compare_pre pre_rank compare_optional_number
    compare_local
dev_not_after e = cc e

rc_not_after : compare sample_texts v1_2_rc1 v1_2 ≢ Sign.after
unfolding compare compare_int compare_release compare_pre pre_rank compare_optional_number
    compare_local
rc_not_after e = cc e

compare-negated_example :
    compare sample_texts v1_2_rc1 v1_2_dev ≡ negated (compare sample_texts v1_2_dev v1_2_rc1)
compare-negated_example = compare-negated sample_texts texts_fit text_same v1_2_dev v1_2_rc1

compare_trans_example : compare sample_texts v1_2_dev v1_2 ≢ Sign.after
compare_trans_example =
    compare_trans sample_texts texts_fit text_same v1_2_dev v1_2_rc1 v1_2 dev_not_after rc_not_after

compatible-matches_clauses_example :
    matches_clauses sample_texts v1_2 "1.2" (compatible_clause v1_2_rc1 ∷ [])
    ≡ matches_clauses sample_texts v1_2 "1.2"
        (at_least_clause v1_2_rc1 ∷ wildcard_clause v1_2_rc1 ∷ [])
compatible-matches_clauses_example =
    compatible-matches_clauses sample_texts v1_2 v1_2_rc1 "1.2" 1 2 [] refl
