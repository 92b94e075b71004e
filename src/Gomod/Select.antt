-- ===== src/Gomod/Select.antt =====
-- `buildSelection` and `Select` of internal/gomod/selection.go: rounds of selection and fetching,
-- until the metadata of every selected module is there.
use Prim.Native.Nat.{Ordering}
use Prim.Native.String.{◌++◌ as append}
use text.Mathlib.Text.{is_lt}
use dependecy_graph_auditor.Prelude.{
  ℕ, zero, suc, ◌+◌, String, str_eq, Bool, true, false, ◌&&◌, ◌||◌, not, Option, none, some, List,
  [], ◌∷◌, ◌++◌, map, is_some, if◌then◌else◌, find_where, lookup, length, ordered,
}
use dependecy_graph_auditor.Gomod.Types.{
  Coordinate, Requirement, SelectedEdge, Selection, Error, Result, ◌>>=◌, ModRules, same_coordinate,
  coordinate_of,
}
use dependecy_graph_auditor.Gomod.Versions.{compare_coordinates, sort_coordinates}
use dependecy_graph_auditor.Gomod.Modes.{
  LoadMode, LoadModes, Cache, is_none, mode_of, pruning_enabled, promote_load_mode,
  propagate_load_modes, mentioned,
}
use dependecy_graph_auditor.Gomod.Choosing.{
  Selected, compute_selected, missing_coordinates, validate_requirements, add_fetch_round, Stored,
  coordinate_at,
}

abbrev pub same_edge : SelectedEdge → SelectedEdge → Bool
same_edge a b = same_coordinate a.source b.source && same_coordinate a.target b.target

abbrev pub or_empty : Option String → String
or_empty none = ""
or_empty (some s) = s

-- An edge is in the set once.
unfoldable pub add_edge : SelectedEdge → List SelectedEdge → List SelectedEdge
add_edge edge edges =
    if is_some (find_where (same_edge edge) edges) then edges else edges ++ edge ∷ []

abbrev pub edge_to : Coordinate → Requirement → Selected → SelectedEdge
edge_to source r selected = record {
  source = source;
  target = record {
    module_path = r.module_path;
    version = or_empty (lookup str_eq selected r.module_path);
  };
}

unfoldable pub add_selected_edges :
    Coordinate → List Requirement → Selected → List SelectedEdge → List SelectedEdge
unfolding add_edge
add_selected_edges source [] selected edges = edges
add_selected_edges source (r ∷ requirements) selected edges =
    add_selected_edges source requirements selected (add_edge (edge_to source r selected) edges)

-- The edges of the modules that are loaded and whose metadata is there.
unfoldable pub add_module_edges :
    LoadModes → Cache → Selected → List Coordinate → List SelectedEdge → List SelectedEdge
unfolding add_selected_edges
add_module_edges modes cache selected [] edges = edges
add_module_edges modes cache selected (c ∷ modules) edges =
    let own : List SelectedEdge = elim (lookup same_coordinate cache c) [
      | none ↦ edges
      | some metadata ↦ add_selected_edges c metadata.requirements selected edges
    ] in
    add_module_edges modes cache selected modules (if is_none (mode_of modes c) then edges else own)

-- The edges of the root come first.
unfoldable pub edge_before : ModRules → Coordinate → SelectedEdge → SelectedEdge → Bool
edge_before rules root a b =
    let left = same_coordinate a.source root in
    let right = same_coordinate b.source root in
    if left && not right
    then true
    else if not left && right
    then false
    else elim (compare_coordinates rules a.source b.source) [
      | Ordering.lt ↦ true
      | Ordering.gt ↦ false
      | Ordering.eq ↦ is_lt (compare_coordinates rules a.target b.target)
    ]

unfoldable pub build_selection :
    ModRules → String → List Requirement → Selected → Cache → LoadModes → Selection
unfolding add_module_edges edge_before
build_selection rules root_path root_requirements selected cache modes =
    let modules = sort_coordinates rules (map coordinate_at selected) in
    let root : Coordinate = record { module_path = root_path; version = "" } in
    let root_edges = add_selected_edges root root_requirements selected [] in
    record {
      modules = modules;
      edges =
          ordered (edge_before rules root)
            (add_module_edges modes cache selected modules root_edges);
    }

-- A fetcher of metadata: what it answers in each round, or nothing where it fails.
abbrev pub Fetcher : Type 0
Fetcher = ℕ → List Coordinate → Option Cache

-- A round that fails ends the selection, and its cache is dropped.
unfoldable pub taken_round : Stored → Result Cache
taken_round (cache, Result.ok tt) = Result.ok cache
taken_round (cache, Result.err e) = Result.err e

unfoldable pub fetch_round : ModRules → Option Fetcher → ℕ → List Coordinate → Cache → Result Cache
unfolding taken_round
fetch_round rules none round missing cache = Result.err Error.no_fetcher
fetch_round rules (some fetch) round missing cache = elim (fetch round missing) [
  | none ↦ Result.err Error.fetch_failed
  | some fetched ↦ taken_round (add_fetch_round rules missing fetched cache)
]

-- The loop of `Select`. The passes over the load modes get fuel enough for the cache.
unfoldable pub select_rounds :
    ℕ
    → ModRules
    → Option Fetcher
    → String
    → List Requirement
    → ℕ
    → Cache
    → LoadModes
    → Result Selection
unfolding build_selection fetch_round
select_rounds zero rules fetcher root_path root round cache modes = Result.err Error.out_of_fuel
select_rounds (suc fuel) rules fetcher root_path root round cache start = do
  modes ← propagate_load_modes (suc (length (mentioned cache))) rules start cache
  selected ← compute_selected rules root cache modes
  let missing = missing_coordinates rules selected cache
  let again = fetch_round rules fetcher round missing cache >>= λ grown.
      select_rounds fuel rules fetcher root_path root (round + 1) grown modes
  elim missing [
    | [] ↦ Result.ok (build_selection rules root_path root selected cache modes)
    | c ∷ rest ↦ again
  ]

unfoldable pub validate_go_directive : ModRules → String → Result (Unit {0})
validate_go_directive rules go_version =
    if str_eq (rules.trim_space go_version) "" || not (rules.is_valid (append "v" go_version))
    then Result.err Error.invalid_go_version
    else Result.ok tt

unfoldable pub check_root_path : ModRules → String → Result (Unit {0})
check_root_path rules root_path =
    if rules.check_path root_path then Result.ok tt else Result.err Error.bad_module

unfoldable pub start_modes : LoadMode → List Requirement → LoadModes → LoadModes
start_modes mode [] modes = modes
start_modes mode (r ∷ root) modes =
    start_modes mode root (promote_load_mode modes (coordinate_of r) mode).0

unfoldable pub select :
    ℕ → ModRules → Option Fetcher → String → String → List Requirement → Result Selection
unfolding select_rounds validate_go_directive start_modes
select fuel rules fetcher root_path root_go_version root = do
  _ ← check_root_path rules root_path
  _ ← validate_go_directive rules root_go_version
  _ ← validate_requirements rules root
  let mode =
      if pruning_enabled rules root_go_version then LoadMode.load_direct else LoadMode.load_full
  select_rounds fuel rules fetcher root_path root 0 [] (start_modes mode root [])
