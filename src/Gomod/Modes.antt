-- ===== src/Gomod/Modes.antt =====
-- `promoteLoadMode` and `propagateLoadModes` of internal/gomod/selection.go: which modules are
-- loaded, under the pruning of the module graph.
use Prim.Native.Nat.{Ordering}
use Prim.Native.String.{◌++◌ as append}
use text.Mathlib.Text.{is_lt}
use dependecy_graph_auditor.Prelude.{
  ℕ, zero, suc, String, str_eq, Bool, true, false, ◌&&◌, ◌||◌, not, leb, Option, none, some, List,
  [], ◌∷◌, ◌++◌, map, if◌then◌else◌, ordered, lookup, assign,
}
use dependecy_graph_auditor.Gomod.Types.{
  Coordinate, Requirement, Metadata, Error, Result, ModRules, same_coordinate, coordinate_of,
}
use dependecy_graph_auditor.Gomod.Versions.{compare_coordinates}

pub data LoadMode : Type 0 where
  load_none load_direct load_full : LoadMode

abbrev pub rank : LoadMode → ℕ
rank LoadMode.load_none = 0
rank LoadMode.load_direct = 1
rank LoadMode.load_full = 2

abbrev pub is_none : LoadMode → Bool
is_none LoadMode.load_none = true
is_none LoadMode.load_direct = false
is_none LoadMode.load_full = false

abbrev pub is_full : LoadMode → Bool
is_full LoadMode.load_full = true
is_full LoadMode.load_direct = false
is_full LoadMode.load_none = false

abbrev pub LoadModes : Type 0
LoadModes = List (Coordinate × LoadMode)

abbrev pub Cache : Type 0
Cache = List (Coordinate × Metadata)

abbrev or_none : Option LoadMode → LoadMode
or_none none = LoadMode.load_none
or_none (some mode) = mode

-- A missing key reads as the zero value.
unfoldable pub mode_of : LoadModes → Coordinate → LoadMode
mode_of modes c = or_none (lookup same_coordinate modes c)

-- The modes after the call, and what it returns.
unfoldable pub promote_load_mode : LoadModes → Coordinate → LoadMode → LoadModes × Bool
promote_load_mode modes c mode =
    if leb (rank mode) (rank (mode_of modes c))
    then (modes, false)
    else (assign same_coordinate c mode modes, true)

abbrev pub is_not_lt : Ordering → Bool
is_not_lt Ordering.lt = false
is_not_lt Ordering.eq = true
is_not_lt Ordering.gt = true

unfoldable pub pruning_enabled : ModRules → String → Bool
pruning_enabled rules go_version =
    if str_eq (rules.trim_space go_version) ""
    then false
    else is_not_lt (rules.compare (append "v" go_version) "v1.17")

-- The entries of the cache in the order of `sortedMetadataCoordinates`.
unfoldable pub sorted_metadata : ModRules → Cache → Cache
sorted_metadata rules = ordered (λ a b. is_lt (compare_coordinates rules a.0 b.0))

-- The modes, and whether one of them has changed in this pass.
abbrev pub Pass : Type 0
Pass = LoadModes × Bool

unfoldable pub promote_full : Coordinate → Pass → Pass
promote_full c (modes, changed) =
    let (after, promoted) = promote_load_mode modes c LoadMode.load_full in
    (after, changed || promoted)

unfoldable pub promote_children : List Requirement → Pass → Pass
unfolding promote_full
promote_children [] pass = pass
promote_children (r ∷ requirements) pass =
    promote_children requirements (promote_full (coordinate_of r) pass)

-- The body of the inner loop, for one entry of the cache: a module that is not loaded and does not
-- prune is loaded first.
unfoldable pub visit : ModRules → Coordinate → Metadata → Pass → Pass
unfolding promote_children
visit rules c metadata (modes, changed) =
    let pruned = pruning_enabled rules metadata.go_version in
    let mode = mode_of modes c in
    if is_none mode && not pruned
    then promote_children metadata.requirements (promote_full c (modes, changed))
    else if is_none mode
    then (modes, changed)
    else if is_full mode || not pruned
    then promote_children metadata.requirements (modes, changed)
    else (modes, changed)

unfoldable pub visit_all : ModRules → Cache → Pass → Pass
unfolding visit
visit_all rules [] pass = pass
visit_all rules ((c, metadata) ∷ entries) pass =
    visit_all rules entries (visit rules c metadata pass)

unfoldable pub next_pass : (LoadModes → Result LoadModes) → Pass → Result LoadModes
next_pass again (modes, changed) = if changed then again modes else Result.ok modes

-- Passes until one changes nothing.
unfoldable pub propagate_load_modes : ℕ → ModRules → LoadModes → Cache → Result LoadModes
unfolding next_pass visit_all
propagate_load_modes zero rules modes cache = Result.err Error.out_of_fuel
propagate_load_modes (suc fuel) rules modes cache =
    next_pass (λ after. propagate_load_modes fuel rules after cache)
      (visit_all rules (sorted_metadata rules cache) (modes, false))

-- The coordinates that a cache names.
abbrev pub mentioned : Cache → List Coordinate
mentioned [] = []
mentioned ((c, m) ∷ entries) = c ∷ (map coordinate_of m.requirements ++ mentioned entries)
