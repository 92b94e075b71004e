-- ===== src/Gomod/Computing.antt =====
-- `computeSelected` selects, for every required module, the highest version that the root or a
-- loaded module requires, which is the rule of minimal version selection.
use Prim.Native.Nat.{Ordering}
use mathlib.Core.List.{append_assoc, append-nil}
use dependecy_graph_auditor.Prelude.{
  ◌≡◌, refl, sym, subst, ◌⊎◌, inl, inr, text_before, false, String, str_eq, List, [], ◌∷◌, ◌++◌,
  Memᴰ, Memᴰ-left, Memᴰ-right, Memᴰ-append, if◌then◌else◌, lookup, Bool-cases, some,
}
use dependecy_graph_auditor.Gomod.Types.{Requirement, Result, ◌>>=◌, ModRules}
use dependecy_graph_auditor.Gomod.Versions.{validate_version, validate_coordinate}
use dependecy_graph_auditor.Gomod.Modes.{LoadModes, Cache, is_none, mode_of, sorted_metadata}
use dependecy_graph_auditor.Gomod.Choosing.{
  Selected, select_all_higher, select_loaded, compute_selected, validate_requirements,
}
use dependecy_graph_auditor.Gomod.Highest.{IsVersionOrder, not_higher_cases}
use dependecy_graph_auditor.Gomod.Selecting.{
  FromOne, Chosen, IsValid, Chooses, Memᴰ-snoc, select_higher-Chosen,
}

abbrev AllValid : ModRules → List Requirement → Type 0
AllValid rules required = (r : Requirement) → Memᴰ r required → IsValid rules r

AllValid-snoc :
    (rules : ModRules) (required : List Requirement) (r : Requirement)
    → AllValid rules required
    → IsValid rules r
    → AllValid rules (required ++ r ∷ [])
AllValid-snoc rules required r h k s m = elim (Memᴰ-snoc required m) [
  | inl inside ↦ h s inside
  | inr same ↦ subst (IsValid rules) (sym same) k
]

-- What the loop over the cache takes requirements from.
abbrev pub loaded_requirements : LoadModes → Cache → List Requirement
loaded_requirements modes [] = []
loaded_requirements modes ((c, metadata) ∷ entries) =
    if is_none (mode_of modes c)
    then loaded_requirements modes entries
    else metadata.requirements ++ loaded_requirements modes entries

both_ok :
    (first : Result (Unit {0})) (rest : Unit {0} → Result (Unit {0}))
    → (first >>= rest) ≡ Result.ok tt
    → (first ≡ Result.ok tt) × (rest tt ≡ Result.ok tt)
both_ok (Result.ok tt) rest e = (refl, e)
both_ok (Result.err x) rest e = cc e

module _ (rules : ModRules) (order : IsVersionOrder rules.compare) where
  select_all_higher-Chosen :
      (required more : List Requirement) (selected : Selected)
      → AllValid rules required
      → AllValid rules more
      → Chosen rules required selected
      → Chooses rules order (select_all_higher rules selected more) (required ++ more)
  unfolding select_all_higher
  select_all_higher-Chosen required [] selected h k c =
      (selected, refl, subst (λ all. Chosen rules all selected) (sym (append-nil required)) c)
  select_all_higher-Chosen required (r ∷ more) selected h k c =
      let valid = k r (Memᴰ.head refl) in
      let (next, step, chosen) = select_higher-Chosen rules order required selected r h valid c in
      let rest =
        select_all_higher-Chosen (required ++ r ∷ []) more next
          (AllValid-snoc rules required r h valid) (λ s m. k s (Memᴰ.tail m)) chosen in
      rw step (
        subst (Chooses rules order (select_all_higher rules next more))
          (append_assoc required (r ∷ []) more) rest)

  AllValid-append :
      (required more : List Requirement)
      → AllValid rules required
      → AllValid rules more
      → AllValid rules (required ++ more)
  AllValid-append required more h k r m = elim (Memᴰ-append required more m) [
    | inl here ↦ h r here
    | inr there ↦ k r there
  ]

  select_loaded-Chosen :
      (required : List Requirement) (modes : LoadModes) (entries : Cache) (selected : Selected)
      → AllValid rules required
      → AllValid rules (loaded_requirements modes entries)
      → Chosen rules required selected
      → Chooses rules order
          (select_loaded rules modes selected entries)
          (required ++ loaded_requirements modes entries)
  unfolding select_loaded
  select_loaded-Chosen required modes [] selected h k c =
      (selected, refl, subst (λ all. Chosen rules all selected) (sym (append-nil required)) c)
  select_loaded-Chosen required modes ((c, m) ∷ entries) selected h k chosen =
      elim (Bool-cases (is_none (mode_of modes c))) [
        | inl e ↦ rw e (select_loaded-Chosen required modes entries selected h (rw e at k) chosen)
        | inr e ↦
            let all = loaded_requirements modes entries in
            let valid = rw e at k in
            let own : AllValid rules m.requirements =
              λ r i. valid r (Memᴰ-left m.requirements all i) in
            let (next, step, grown) =
              select_all_higher-Chosen required m.requirements selected h own chosen in
            let rest =
              select_loaded-Chosen (required ++ m.requirements) modes entries next
                (AllValid-append required m.requirements h own)
                (λ r i. valid r (Memᴰ-right m.requirements all i)) grown in
            rw (e, step)
              (subst (Chooses rules order (select_loaded rules modes next entries))
                (append_assoc required m.requirements all) rest)
      ]

  none_required : Chosen rules [] []
  none_required = record { covers = λ r m. elim m [ ]; sound = λ path v found. cc found }

  validated :
      (r : Requirement)
      → validate_coordinate rules r.module_path r.version ≡ Result.ok tt
      → IsValid rules r
  unfolding validate_coordinate
  validated r e = (both_ok (validate_version rules r.version) _ e).0

  validate_requirements-AllValid :
      (required : List Requirement)
      → validate_requirements rules required ≡ Result.ok tt
      → AllValid rules required
  unfolding validate_requirements
  validate_requirements-AllValid [] e r m = elim m [ ]
  validate_requirements-AllValid (s ∷ required) e r (Memᴰ.head same) =
      subst (IsValid rules) (sym same)
        (validated s (both_ok (validate_coordinate rules s.module_path s.version) _ e).0)
  validate_requirements-AllValid (s ∷ required) e r (Memᴰ.tail m) =
      validate_requirements-AllValid required
        (both_ok (validate_coordinate rules s.module_path s.version) _ e).1 r m

-- The selected version of a required module is above the required one by semver.Compare, or level
-- with it by semver.Compare and, as a text, not before it.
abbrev pub IsAtLeast : ModRules → Selected → Requirement → Type 0
IsAtLeast rules selected r =
    (v : String) × (lookup str_eq selected r.module_path ≡ some v)
    × ((rules.compare r.version v ≡ Ordering.lt)
        ⊎ ((rules.compare r.version v ≡ Ordering.eq) × (text_before v r.version ≡ false)))

-- One round of selection succeeds where the root's requirements and those of the loaded modules
-- have valid versions. Then the selected version of every module that they require is required by
-- one of them; and each requirement of the module has a version that semver.Compare puts below the
-- selected one, or beside it and that is no later text. semver.Compare is assumed to be an order.
pub compute_selected-highest :
    (rules : ModRules) (root : List Requirement) (cache : Cache) (modes : LoadModes)
    → IsVersionOrder rules.compare
    → validate_requirements rules (root ++ loaded_requirements modes (sorted_metadata rules cache))
      ≡ Result.ok tt
    → (selected : Selected) × (compute_selected rules root cache modes ≡ Result.ok selected)
      × ((r : Requirement)
          → Memᴰ r (root ++ loaded_requirements modes (sorted_metadata rules cache))
          → IsAtLeast rules selected r)
      × ((path v : String)
          → lookup str_eq selected path ≡ some v
          → FromOne (root ++ loaded_requirements modes (sorted_metadata rules cache)) path v)
unfolding compute_selected
compute_selected-highest rules root cache modes order e =
    let entries = sorted_metadata rules cache in
    let valid =
      validate_requirements-AllValid rules order (root ++ loaded_requirements modes entries) e in
    let (first, step, chosen) =
      select_all_higher-Chosen rules order [] root [] (λ r m. elim m [ ])
        (λ r m. valid r (Memᴰ-left root _ m)) (none_required rules order) in
    let (selected, rest, all) =
      select_loaded-Chosen rules order root modes entries first
        (λ r m. valid r (Memᴰ-left root _ m)) (λ r m. valid r (Memᴰ-right root _ m)) chosen in
    (
      selected,
      rw (step, rest) refl,
      λ r m.
          let (v, found, top) = all.covers r m in
          (v, found, not_higher_cases rules order r.version v top),
      all.sound,
    )
