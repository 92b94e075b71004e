-- ===== src/Gomod/Versions.antt =====
-- internal/gomod/version.go, and the order in which selection.go walks coordinates.
use Prim.Native.Nat.{Ordering}
use Prim.Native.String.{compare as compare_text}
use text.Mathlib.Text.{is_lt}
use dependecy_graph_auditor.Prelude.{String, str_eq, not, List, ordered, if◌then◌else◌}
use dependecy_graph_auditor.Gomod.Types.{Coordinate, Error, Result, ◌>>=◌, ModRules}

unfoldable pub validate_version : ModRules → String → Result (Unit {0})
validate_version rules version =
    if not (rules.is_valid version)
    then Result.err Error.invalid_version
    else if not (str_eq (rules.canonical_version version) version)
    then Result.err Error.not_canonical
    else if rules.is_pseudo_version version
    then (if not (rules.has_pseudo_time version)
        then Result.err Error.bad_pseudo_version
        else if not (rules.has_pseudo_base version)
        then Result.err Error.bad_pseudo_version
        else Result.ok tt)
    else Result.ok tt

unfoldable pub validate_coordinate : ModRules → String → String → Result (Unit {0})
validate_coordinate rules module_path version = do
  _ ← validate_version rules version
  if rules.check module_path version then Result.ok tt else Result.err Error.bad_module

unfoldable pub compare_versions : ModRules → String → String → Result Ordering
compare_versions rules left right = do
  _ ← validate_version rules left
  _ ← validate_version rules right
  Result.ok (rules.compare left right)

-- A first comparison, and the ones that are asked where it finds no difference.
abbrev pub or_then : Ordering → Ordering → Ordering
or_then Ordering.eq next = next
or_then Ordering.lt next = Ordering.lt
or_then Ordering.gt next = Ordering.gt

unfoldable pub compare_coordinates : ModRules → Coordinate → Coordinate → Ordering
compare_coordinates rules left right =
    or_then (compare_text left.module_path right.module_path)
      (or_then (rules.compare left.version right.version) (compare_text left.version right.version))

unfoldable pub sort_coordinates : ModRules → List Coordinate → List Coordinate
unfolding compare_coordinates
sort_coordinates rules = ordered (λ a b. is_lt (compare_coordinates rules a b))
