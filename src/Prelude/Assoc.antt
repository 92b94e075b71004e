-- ===== src/Prelude/Assoc.antt =====
-- Maps as lists of keys and values, over a Boolean test that decides equality of the keys.
use mathlib.Core.Path.{◌≡◌, refl, sym, subst}
use mathlib.Core.Logic.{inl, inr}
use mathlib.Core.Bool.{Bool, true, false}
use mathlib.Core.Option.{Option, none, some}
use mathlib.Core.List.{List, [], ◌∷◌}
use dependecy_graph_auditor.Prelude.Tests.{if◌then◌else◌, Bool-cases}

pub record IsEquality {ℓ} {K : Type ℓ} (same : K → K → Bool) : Type ℓ where
  pub reflexive : (k : K) → same k k ≡ true
  pub equal : (j k : K) → same j k ≡ true → j ≡ k

module _ {ℓ} {K V : Type ℓ} (same : K → K → Bool) where
  abbrev pub lookup : List (K × V) → K → Option V
  lookup [] k = none
  lookup ((j, v) ∷ entries) k = if same j k then some v else lookup entries k

  abbrev pub assign : K → V → List (K × V) → List (K × V)
  assign k v [] = (k, v) ∷ []
  assign k v ((j, w) ∷ entries) = if same j k then (j, v) ∷ entries else (j, w) ∷ assign k v entries

module _ {ℓ} {K : Type ℓ} (same : K → K → Bool) (equality : IsEquality same) where
  apart : (j k i : K) → same j k ≡ true → same k i ≡ false → same j i ≡ false
  apart j k i e miss = subst (λ z. same z i ≡ false) (sym (equality.equal j k e)) miss

module _ {ℓ} {K V : Type ℓ} (same : K → K → Bool) (equality : IsEquality same) where
  pub lookup-assign :
      (k : K) (v : V) (entries : List (K × V)) → lookup same (assign same k v entries) k ≡ some v
  lookup-assign k v [] = rw (equality.reflexive k) refl
  lookup-assign k v ((j, w) ∷ entries) = elim (Bool-cases (same j k)) [
    | inl e ↦ rw (e, e) refl
    | inr e ↦ rw (e, e) (lookup-assign k v entries)
  ]

  pub lookup-assign_other :
      (k : K) (v : V) (i : K) (entries : List (K × V))
      → same k i ≡ false
      → lookup same (assign same k v entries) i ≡ lookup same entries i
  lookup-assign_other k v i [] miss = rw miss refl
  lookup-assign_other k v i ((j, w) ∷ entries) miss = elim (Bool-cases (same j k)) [
    | inl e ↦ rw (e, apart same equality j k i e miss) refl
    | inr e ↦ elim (Bool-cases (same j i)) [
      | inl k ↦ rw (e, k) refl
      | inr k ↦ rw (e, k) (lookup-assign_other _ v i entries miss)
    ]
  ]
