-- ===== src/Gomod/Choosing.antt =====
-- `selectHigher`, `computeSelected`, `missingCoordinates` and `addFetchRound` of
-- internal/gomod/selection.go: one round of minimal version selection.
use Prim.Native.Nat.{Ordering}
use dependecy_graph_auditor.Prelude.{
  String, str_eq, Bool, true, false, not, Option, none, some, List, [], ◌∷◌, map, is_some,
  if◌then◌else◌, select_where, find_where, lookup, assign, text_before,
}
use dependecy_graph_auditor.Gomod.Types.{
  Coordinate, Requirement, Metadata, Error, Result, ◌>>=◌, ModRules, same_coordinate,
}
use dependecy_graph_auditor.Gomod.Versions.{validate_coordinate, compare_versions, sort_coordinates}
use dependecy_graph_auditor.Gomod.Modes.{LoadModes, Cache, is_none, mode_of, sorted_metadata}

-- The version that is selected for each module path.
abbrev pub Selected : Type 0
Selected = List (String × String)

-- Whether a comparison lets a requirement replace the selected version: versions that the order
-- does not tell apart are compared as texts.
unfoldable pub replaces : Ordering → String → String → Bool
replaces Ordering.gt version current = true
replaces Ordering.eq version current = text_before current version
replaces Ordering.lt version current = false

unfoldable pub select_over : ModRules → Selected → Requirement → Option String → Result Selected
unfolding replaces
select_over rules selected r none = Result.ok (assign str_eq r.module_path r.version selected)
select_over rules selected r (some current) = do
  comparison ← compare_versions rules r.version current
  if replaces comparison r.version current
      then Result.ok (assign str_eq r.module_path r.version selected)
      else Result.ok selected

unfoldable pub select_higher : ModRules → Selected → Requirement → Result Selected
unfolding select_over
select_higher rules selected r = select_over rules selected r (lookup str_eq selected r.module_path)

unfoldable pub select_all_higher : ModRules → Selected → List Requirement → Result Selected
unfolding select_higher
select_all_higher rules selected [] = Result.ok selected
select_all_higher rules selected (r ∷ requirements) = do
  next ← select_higher rules selected r
  select_all_higher rules next requirements

-- The loop over the cache, which passes over the modules that are not loaded.
unfoldable pub select_loaded : ModRules → LoadModes → Selected → Cache → Result Selected
unfolding select_all_higher
select_loaded rules modes selected [] = Result.ok selected
select_loaded rules modes selected ((c, metadata) ∷ entries) =
    if is_none (mode_of modes c)
    then select_loaded rules modes selected entries
    else (select_all_higher rules selected metadata.requirements >>= λ next.
        select_loaded rules modes next entries)

unfoldable pub compute_selected : ModRules → List Requirement → Cache → LoadModes → Result Selected
unfolding select_loaded
compute_selected rules root cache modes = do
  selected ← select_all_higher rules [] root
  select_loaded rules modes selected (sorted_metadata rules cache)

abbrev pub coordinate_at : String × String → Coordinate
coordinate_at (module_path, version) = record { module_path = module_path; version = version }

unfoldable pub missing_coordinates : ModRules → Selected → Cache → List Coordinate
missing_coordinates rules selected cache = sort_coordinates rules (
    select_where (λ c. not (is_some (lookup same_coordinate cache c))) (map coordinate_at selected))

unfoldable pub validate_requirements : ModRules → List Requirement → Result (Unit {0})
validate_requirements rules [] = Result.ok tt
validate_requirements rules (r ∷ requirements) = do
  _ ← validate_coordinate rules r.module_path r.version
  validate_requirements rules requirements

unfoldable pub has_coordinate : List Coordinate → Coordinate → Bool
has_coordinate coordinates c = is_some (find_where (λ d. same_coordinate d c) coordinates)

-- The first loop of `addFetchRound`: everything that was fetched was asked for, and is sound.
unfoldable pub check_fetched : ModRules → List Coordinate → Cache → Result (Unit {0})
unfolding has_coordinate validate_requirements
check_fetched rules requested [] = Result.ok tt
check_fetched rules requested ((c, metadata) ∷ fetched) =
    let rest = check_fetched rules requested fetched in
    if not (has_coordinate requested c)
    then Result.err (Error.unexpected_metadata c)
    else if not (str_eq metadata.module_path c.module_path)
    then Result.err (Error.wrong_module c)
    else (validate_requirements rules metadata.requirements >>= λ _. rest)

-- What a step leaves in the cache, and whether it succeeded: the cache is one map that all rounds
-- share.
abbrev pub Stored : Type 0
Stored = Cache × Result (Unit {0})

unfoldable pub store_found : Option Metadata → Coordinate → (Cache → Stored) → Cache → Stored
store_found none c next cache = (cache, Result.err (Error.missing_metadata c))
store_found (some metadata) c next cache = next (assign same_coordinate c metadata cache)

-- The second loop: everything that was asked for is stored, up to a coordinate that was not fetched.
unfoldable pub store_fetched : List Coordinate → Cache → Cache → Stored
unfolding store_found
store_fetched [] fetched cache = (cache, Result.ok tt)
store_fetched (c ∷ requested) fetched cache =
    store_found (lookup same_coordinate fetched c) c (store_fetched requested fetched) cache

unfoldable pub store_checked : Result (Unit {0}) → Stored → Cache → Stored
store_checked (Result.ok tt) stored cache = stored
store_checked (Result.err e) stored cache = (cache, Result.err e)

unfoldable pub add_fetch_round : ModRules → List Coordinate → Cache → Cache → Stored
unfolding check_fetched store_fetched store_checked
add_fetch_round rules requested fetched cache =
    store_checked (check_fetched rules requested (sorted_metadata rules fetched))
      (store_fetched requested fetched cache) cache
