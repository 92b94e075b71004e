-- ===== src/Gomod/Highest.antt =====
-- The version that one round selects for a module is the highest that a loaded module requires.
use Prim.Native.Nat.{Ordering}
use dependecy_graph_auditor.Prelude.{
  ◌≡◌, refl, ap, ◌∙◌, subst, ◌⊎◌, inl, inr, String, Bool, true, false, text_before,
  text_before-IsStrictTotalOrder, Bool-cases, Ordering-cases,
}
use dependecy_graph_auditor.Gomod.Types.{ModRules}
use dependecy_graph_auditor.Gomod.Choosing.{replaces}

abbrev pub flipped : Ordering → Ordering
flipped Ordering.lt = Ordering.gt
flipped Ordering.eq = Ordering.eq
flipped Ordering.gt = Ordering.lt

-- semver.Compare orders the versions up to those that differ in their build metadata only.
pub record IsVersionOrder (compare : String → String → Ordering) : Type 0 where
  pub swap : (v w : String) → compare w v ≡ flipped (compare v w)
  pub same_left : (u v w : String) → compare u v ≡ Ordering.eq → compare u w ≡ compare v w
  pub trans :
      (u v w : String)
      → compare u v ≡ Ordering.gt
      → compare v w ≡ Ordering.gt
      → compare u w ≡ Ordering.gt

-- One version is preferred to another.
abbrev pub higher : ModRules → String → String → Bool
higher rules version current = replaces (rules.compare version current) version current

-- What is not behind something that is not behind a third is not behind it.
not_before_trans :
    (s t u : String) → text_before t s ≡ false → text_before u t ≡ false → text_before u s ≡ false
not_before_trans s t u h k =
    let order = text_before-IsStrictTotalOrder in
    elim (Bool-cases (text_before u s)) [
      | inr e ↦ e
      | inl e ↦ elim (order.connected t u) [
        | inl below ↦ cc (order.strict.transitive t u s below e, h)
        | inr (inl same) ↦ subst (λ z. text_before z s ≡ false) same h
        | inr (inr above) ↦ cc (above, k)
      ]
    ]

module _ (rules : ModRules) (order : IsVersionOrder rules.compare) where
  below : (v w : String) → rules.compare v w ≡ Ordering.lt → rules.compare w v ≡ Ordering.gt
  below v w e = order.swap v w ∙ ap flipped e

  above : (v w : String) → rules.compare v w ≡ Ordering.gt → rules.compare w v ≡ Ordering.lt
  above v w e = order.swap v w ∙ ap flipped e

  level : (v w : String) → rules.compare v w ≡ Ordering.eq → rules.compare w v ≡ Ordering.eq
  level v w e = order.swap v w ∙ ap flipped e

  -- A version is not preferred to one that the order puts above it, or beside it if its text is
  -- not above either.
  pub not_higher_cases :
      (v w : String)
      → higher rules v w ≡ false
      → (rules.compare v w ≡ Ordering.lt)
        ⊎ ((rules.compare v w ≡ Ordering.eq) × (text_before w v ≡ false))
  unfolding replaces
  not_higher_cases v w h = elim (Ordering-cases (rules.compare v w)) [
    | inl e ↦ inl e
    | inr (inl e) ↦ inr (e, rw e at h)
    | inr (inr e) ↦ cc (rw e at h)
  ]

  lower : (v w : String) → rules.compare v w ≡ Ordering.lt → higher rules v w ≡ false
  unfolding replaces
  lower v w e = rw e refl

  beside :
      (v w : String)
      → rules.compare v w ≡ Ordering.eq
      → text_before w v ≡ false
      → higher rules v w ≡ false
  unfolding replaces
  beside v w e miss = rw e miss

  -- What is not preferred to something that is not preferred to a third is not preferred to it.
  pub not_higher_trans :
      (u v w : String)
      → higher rules u v ≡ false
      → higher rules v w ≡ false
      → higher rules u w ≡ false
  not_higher_trans u v w h k = elim (not_higher_cases u v h) [
    | inr (e, miss) ↦
        let same = order.same_left u v w e in
        elim (not_higher_cases v w k) [
          | inl l ↦ lower u w (same ∙ l)
          | inr (f, miss') ↦ beside u w (same ∙ f) (not_before_trans u v w miss miss')
        ]
    | inl l ↦ elim (not_higher_cases v w k) [
      | inl l' ↦ lower u w (above w u (order.trans w v u (below v w l') (below u v l)))
      | inr (f, miss) ↦ lower u w (above w u (order.same_left w v u (level v w f) ∙ below u v l))
    ]
  ]

  -- What replaces a version is preferred to it, and not the other way round.
  pub replaced_not_higher : (v w : String) → higher rules v w ≡ true → higher rules w v ≡ false
  unfolding replaces
  replaced_not_higher v w h = elim (Ordering-cases (rules.compare v w)) [
    | inl e ↦ cc (rw e at h)
    | inr (inl e) ↦
        let order = text_before-IsStrictTotalOrder.strict in
        beside w v (level v w e) (elim (Bool-cases (text_before v w)) [
          | inl back ↦ cc (order.transitive v w v back (rw e at h), order.irreflexive v)
          | inr miss ↦ miss
        ])
    | inr (inr e) ↦ lower w v (above v w e)
  ]

  level_self : (v : String) → rules.compare v v ≡ Ordering.eq
  level_self v = elim (Ordering-cases (rules.compare v v)) [
    | inl e ↦ cc (e, below v v e)
    | inr (inl e) ↦ e
    | inr (inr e) ↦ cc (e, above v v e)
  ]

  pub not_higher_self : (v : String) → higher rules v v ≡ false
  not_higher_self v =
      beside v v (level_self v) (text_before-IsStrictTotalOrder.strict.irreflexive v)
