-- ===== src/Gomod/Types.antt =====
-- The data of internal/gomod/{metadata,selection}.go, and what the package uses of
-- golang.org/x/mod.
use Prim.Native.Nat.{Ordering}
use dependecy_graph_auditor.Prelude.{
  ◌≡◌, refl, String, str_eq, eq_iff, Bool, true, false, ◌&&◌, List, IsEquality, arith,
}

pub record Coordinate : Type 0 where
  pub module_path : String
  pub version : String

pub record Requirement : Type 0 where
  pub module_path : String
  pub version : String
  pub indirect : Bool

pub record Metadata : Type 0 where
  pub module_path : String
  pub go_version : String
  pub requirements : List Requirement

pub record SelectedEdge : Type 0 where
  pub source : Coordinate
  pub target : Coordinate

pub record Selection : Type 0 where
  pub modules : List Coordinate
  pub edges : List SelectedEdge

-- The errors of the package, by the check that fails; their texts are left out.
pub data Error : Type 0 where
  invalid_version not_canonical bad_pseudo_version bad_module : Error
  invalid_go_version no_fetcher fetch_failed : Error
  unexpected_metadata wrong_module missing_metadata : Coordinate → Error
  out_of_fuel : Error

pub data Result {ℓ} (A : Type ℓ) : Type ℓ where
  ok : A → Result A
  err : Error → Result A

infixl 5 ◌>>=◌
abbrev pub ◌>>=◌ {ℓ κ} : {A : Type ℓ} {B : Type κ} → Result A → (A → Result B) → Result B
Result.ok a >>= f = f a
Result.err e >>= f = Result.err e

-- golang.org/x/mod/semver and golang.org/x/mod/module, and strings.TrimSpace.
pub record ModRules : Type 0 where
  pub is_valid : String → Bool
  pub compare : String → String → Ordering
  pub canonical_version : String → String
  pub is_pseudo_version : String → Bool
  pub has_pseudo_time : String → Bool
  pub has_pseudo_base : String → Bool
  pub check_path : String → Bool
  pub check : String → String → Bool
  pub trim_space : String → String

abbrev pub same_coordinate : Coordinate → Coordinate → Bool
same_coordinate a b = str_eq a.module_path b.module_path && str_eq a.version b.version

abbrev pub coordinate_of : Requirement → Coordinate
coordinate_of r = record { module_path = r.module_path; version = r.version }

pub str_eq-IsEquality : IsEquality str_eq
str_eq-IsEquality = record {
  reflexive = λ s. (eq_iff s s).1 refl;
  equal = λ s t e. (eq_iff s t).0 e;
}

both_true : (a b : Bool) → (a && b) ≡ true → (a ≡ true) × (b ≡ true)
both_true true b e = (refl, e)
both_true false b e = cc

Coordinate-path : (c d : Coordinate) → same_coordinate c d ≡ true → c ≡ d
Coordinate-path c d e =
    let (path, version) = both_true _ _ e in
    λ i. record {
      module_path = (eq_iff c.module_path d.module_path).0 path i;
      version = (eq_iff c.version d.version).0 version i;
    }

pub same_coordinate-IsEquality : IsEquality same_coordinate
same_coordinate-IsEquality = record {
  reflexive = λ c.
      ground
        (arith, (eq_iff c.module_path c.module_path).1 refl, (eq_iff c.version c.version).1 refl);
  equal = Coordinate-path;
}
