-- ===== src/Gomod/Tests.antt =====
-- The theorems about the selection of Go modules, at a root that requires two modules, one of which
-- requires a higher version of the other.
use Prim.Native.Nat.{Ordering, compare as compare_ℕ}
use Prim.Native.String.{len}
use native.Mathlib.Omega.{compare-lt, compare-eq, compare-gt}
use dependecy_graph_auditor.Prelude.{
  ℕ, ◌≡◌, refl, ap, String, str_eq, true, false, some, List, [], ◌∷◌, ◌++◌, Memᴰ, arith, lookup,
  if◌then◌else◌, map,
}
use dependecy_graph_auditor.Gomod.Types.{
  Coordinate, Requirement, Metadata, Result, ModRules, Selection, same_coordinate,
}
use dependecy_graph_auditor.Gomod.Versions.{
  validate_version, validate_coordinate, compare_versions, compare_coordinates, sort_coordinates,
}
use dependecy_graph_auditor.Gomod.Modes.{
  LoadMode, LoadModes, Cache, mode_of, promote_load_mode, promote_full, promote_children, visit,
  visit_all, next_pass, pruning_enabled, sorted_metadata, propagate_load_modes,
}
use dependecy_graph_auditor.Gomod.Promotion.{Grows, Under}
use dependecy_graph_auditor.Gomod.Propagation.{Closed, propagate_load_modes-least}
use dependecy_graph_auditor.Gomod.Choosing.{
  Selected, replaces, select_over, select_higher, select_all_higher, select_loaded,
  compute_selected, missing_coordinates, validate_requirements, has_coordinate, check_fetched,
  store_found, store_fetched, store_checked, add_fetch_round,
}
use dependecy_graph_auditor.Gomod.Selecting.{FromOne}
use dependecy_graph_auditor.Gomod.Computing.{
  IsAtLeast, loaded_requirements, compute_selected-highest,
}
use dependecy_graph_auditor.Gomod.Fetched.{add_fetch_round-stores}
use dependecy_graph_auditor.Gomod.Select.{
  Fetcher, add_edge, add_selected_edges, add_module_edges, edge_before, build_selection,
  taken_round, fetch_round, select_rounds, validate_go_directive, start_modes, check_root_path,
  select,
}
use dependecy_graph_auditor.Gomod.Highest.{IsVersionOrder, flipped}

compare_numbers_swap : (m n : ℕ) → compare_ℕ n m ≡ flipped (compare_ℕ m n)
compare_numbers_swap m n = ground (
  arith,
  compare-lt m n,
  compare-eq m n,
  compare-gt m n,
  compare-lt n m,
  compare-eq n m,
  compare-gt n m,
)

compare_numbers_level : (l m n : ℕ) → compare_ℕ l m ≡ Ordering.eq → compare_ℕ l n ≡ compare_ℕ m n
compare_numbers_level l m n e = ap (λ k. compare_ℕ k n) (compare-eq l m e)

compare_numbers_trans :
    (l m n : ℕ)
    → compare_ℕ l m ≡ Ordering.gt
    → compare_ℕ m n ≡ Ordering.gt
    → compare_ℕ l n ≡ Ordering.gt
compare_numbers_trans l m n h k =
    ground (arith, compare-gt l m h, compare-gt m n k, compare-lt l n, compare-eq l n)

-- Versions are compared by their lengths, and every text is a valid path and version.
abbrev sample_rules : ModRules
sample_rules = record {
  is_valid = λ v. true;
  compare = λ v w. compare_ℕ (len v) (len w);
  canonical_version = λ v. v;
  is_pseudo_version = λ v. false;
  has_pseudo_time = λ v. true;
  has_pseudo_base = λ v. true;
  check_path = λ path. true;
  check = λ path v. true;
  trim_space = λ s. s;
}

sample_order : IsVersionOrder (λ v w. compare_ℕ (len v) (len w))
sample_order = record {
  swap = λ v w. compare_numbers_swap (len v) (len w);
  same_left = λ u v w e. compare_numbers_level (len u) (len v) (len w) e;
  trans = λ u v w h k. compare_numbers_trans (len u) (len v) (len w) h k;
}

abbrev coordinate : String → String → Coordinate
coordinate path version = record { module_path = path; version = version }

abbrev requires : String → String → Requirement
requires path version = record { module_path = path; version = version; indirect = false }

abbrev root : List Requirement
root = requires "a" "v1" ∷ requires "b" "v1" ∷ []

-- a@v1 requires b@v10, and prunes.
abbrev metadata_a : Metadata
metadata_a = record {
  module_path = "a";
  go_version = "1.21";
  requirements = requires "b" "v10" ∷ [];
}

abbrev cache : Cache
cache = (coordinate "a" "v1", metadata_a) ∷ []

abbrev modes : LoadModes
modes = (coordinate "a" "v1", LoadMode.load_full) ∷ []

abbrev fetched : Cache
fetched = (coordinate "a" "v1", metadata_a) ∷ []

propagate_load_modes-least_example :
    (result : LoadModes) × (propagate_load_modes 3 sample_rules modes cache ≡ Result.ok result)
    × Grows modes result
    × Closed sample_rules modes cache (mode_of result)
    × ((bound : Coordinate → LoadMode)
        → Closed sample_rules modes cache bound
        → Under bound modes
        → Under bound result)
propagate_load_modes-least_example =
    propagate_load_modes-least sample_rules modes cache 3 (omega arith)

all_valid :
    validate_requirements sample_rules
      (root ++ loaded_requirements modes (sorted_metadata sample_rules cache))
    ≡ Result.ok tt
unfolding validate_requirements validate_coordinate validate_version sorted_metadata mode_of
all_valid = refl

compute_selected-highest_example :
    (selected : Selected) × (compute_selected sample_rules root cache modes ≡ Result.ok selected)
    × ((r : Requirement)
        → Memᴰ r (root ++ loaded_requirements modes (sorted_metadata sample_rules cache))
        → IsAtLeast sample_rules selected r)
    × ((path v : String)
        → lookup str_eq selected path ≡ some v
        → FromOne (root ++ loaded_requirements modes (sorted_metadata sample_rules cache)) path v)
compute_selected-highest_example =
    compute_selected-highest sample_rules root cache modes sample_order all_valid

stores_ok :
    add_fetch_round sample_rules (coordinate "a" "v1" ∷ []) fetched [] ≡ (cache, Result.ok tt)
unfolding add_fetch_round store_checked check_fetched store_fetched store_found has_coordinate
    validate_requirements validate_coordinate validate_version sorted_metadata compare_coordinates
stores_ok = refl

add_fetch_round-stores_example :
    ((c : Coordinate)
      → Memᴰ c (coordinate "a" "v1" ∷ [])
      → (metadata : Metadata) × (lookup same_coordinate fetched c ≡ some metadata)
        × (lookup same_coordinate cache c ≡ some metadata)
        × (metadata.module_path ≡ c.module_path)
        × (validate_requirements sample_rules metadata.requirements ≡ Result.ok tt))
    × ((c : Coordinate)
        → has_coordinate (coordinate "a" "v1" ∷ []) c ≡ false
        → lookup same_coordinate cache c ≡ lookup same_coordinate [] c)
add_fetch_round-stores_example =
    add_fetch_round-stores sample_rules (coordinate "a" "v1" ∷ []) fetched [] cache stores_ok

-- The whole selection: a@v1 and b@v10, though the root requires b@v1.
abbrev metadata_b : Metadata
metadata_b = record { module_path = "b"; go_version = "1.21"; requirements = [] }

abbrev fetch : Fetcher
fetch round coordinates =
    some (map (λ c. (c, if str_eq c.module_path "a" then metadata_a else metadata_b)) coordinates)

abbrev selected_modules : Result Selection → List Coordinate
selected_modules (Result.ok selection) = selection.modules
selected_modules (Result.err e) = []

select-takes_higher :
    selected_modules (select 5 sample_rules (some fetch) "m" "1.21" root)
    ≡ coordinate "a" "v1" ∷ coordinate "b" "v10" ∷ []
unfolding select check_root_path validate_go_directive start_modes select_rounds fetch_round
    build_selection edge_before add_module_edges add_selected_edges add_edge add_fetch_round
    store_checked taken_round store_fetched store_found check_fetched has_coordinate
    validate_requirements missing_coordinates compute_selected select_loaded select_all_higher
    select_higher select_over replaces sort_coordinates compare_coordinates compare_versions
    validate_coordinate validate_version propagate_load_modes sorted_metadata pruning_enabled
    next_pass visit_all visit promote_children promote_full promote_load_mode mode_of
select-takes_higher = refl
