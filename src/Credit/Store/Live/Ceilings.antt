-- ===== src/Credit/Store/Live/Ceilings.antt =====
-- What a batch of cost ceilings does to the accounts of `src/foundry_router/credit.py`.
use foundry_router.Base.{
  ℕ, ◌≡◌, ◌⊎◌, ◌↔◌, ◌≤◌, refl, sym, ap, ◌∙◌, true, false, min, arith, Option, none, some, List, [],
  ◌∷◌, ◌==◌, nat_eq, nat_beq_iff, if◌then◌else◌, Bool-cases, Option-cases, inl, inr,
}
use mathlib.Core.Path.{subst}
use foundry_router.Base.Dict.{Dict, lookup, insert, lookup-insert}
use foundry_router.Credit.Cycle.{Date, Time, calculate_cycle_window}
use foundry_router.Credit.Store.{Account, date_ltb, rollover}
use foundry_router.Credit.Store.Live.{CostCeiling, date_beq, is_match, ceiled, apply_cost_ceilings}

-- The first ceiling of a group.
unfoldable pub ceiling_for : ℕ → List CostCeiling → Option CostCeiling
ceiling_for g [] = none
ceiling_for g (c ∷ cs) = if c.credit_group == g then some c else ceiling_for g cs

-- No group has two ceilings, as a `CostCeilingBatch` requires.
abbrev pub IsBatch : List CostCeiling → Type 0
IsBatch [] = Unit
IsBatch (c ∷ cs) = (ceiling_for c.credit_group cs ≡ none) × IsBatch cs

lookup-insert_same :
    (k g : ℕ) (y : Account) (d : Dict ℕ Account) → k == g ≡ true → lookup g (insert k y d) ≡ some y
lookup-insert_same k g y d e = rw (lookup-insert k g y d, e) refl

lookup-insert_other :
    (k g : ℕ) (y : Account) (d : Dict ℕ Account)
    → k == g ≡ false
    → lookup g (insert k y d) ≡ lookup g d
lookup-insert_other k g y d e = rw (lookup-insert k g y d, e) refl

module _ (at : Date → ℕ) (now : Time) (fingerprint : ℕ → ℕ) where
  -- The account that a ceiling leaves, if there is one.
  abbrev under_ceiling : Option CostCeiling → Option Account → Option Account
  under_ceiling none o = o
  under_ceiling (some c) none = none
  under_ceiling (some c) (some a) = some (ceiled fingerprint c (rollover at now a))

  under_ceiling-none : (o : Option CostCeiling) → under_ceiling o none ≡ none
  under_ceiling-none none = refl
  under_ceiling-none (some c) = refl

  ceiling_for_here :
      (g : ℕ) (c : CostCeiling) (cs : List CostCeiling)
      → c.credit_group == g ≡ true
      → ceiling_for g (c ∷ cs) ≡ some c
  unfolding ceiling_for
  ceiling_for_here g c cs e = rw (e, ceiling_for) refl

  ceiling_for_other :
      (g : ℕ) (c : CostCeiling) (cs : List CostCeiling)
      → c.credit_group == g ≡ false
      → ceiling_for g (c ∷ cs) ≡ ceiling_for g cs
  unfolding ceiling_for
  ceiling_for_other g c cs e = rw (e, ceiling_for) refl

  lookup-apply_cost_ceilings :
      (cs : List CostCeiling) (d : Dict ℕ Account) (g : ℕ)
      → IsBatch cs
      → lookup g (apply_cost_ceilings at now fingerprint cs d).1
        ≡ under_ceiling (ceiling_for g cs) (lookup g d)
  unfolding apply_cost_ceilings ceiling_for
  lookup-apply_cost_ceilings [] d g v = refl
  lookup-apply_cost_ceilings (c ∷ cs) d g v = elim (Option-cases (lookup c.credit_group d)) [
    | inl e ↦
        rw (e, apply_cost_ceilings)
          (lookup-apply_cost_ceilings cs d g v.1 ∙ no_account e (Bool-cases (c.credit_group == g)))
    | inr (a, e) ↦
        let d' = insert c.credit_group (ceiled fingerprint c (rollover at now a)) d in
        rw (e, apply_cost_ceilings)
          (lookup-apply_cost_ceilings cs d' g v.1
            ∙ with_account a e (Bool-cases (c.credit_group == g)))
  ]
    where
      no_account :
          lookup c.credit_group d ≡ none
          → (c.credit_group == g ≡ true) ⊎ (c.credit_group == g ≡ false)
          → under_ceiling (ceiling_for g cs) (lookup g d)
            ≡ under_ceiling (ceiling_for g (c ∷ cs)) (lookup g d)
      no_account e (inl same) =
          let at_g : lookup g d ≡ none =
            ap (λ k. lookup k d) (sym ((nat_beq_iff c.credit_group g).0 same)) ∙ e in
          ap (under_ceiling (ceiling_for g cs)) at_g
          ∙ under_ceiling-none (ceiling_for g cs)
          ∙ sym (under_ceiling-none (ceiling_for g (c ∷ cs)))
          ∙ ap (under_ceiling (ceiling_for g (c ∷ cs))) (sym at_g)
      no_account e (inr other) =
          ap (λ o. under_ceiling o (lookup g d)) (sym (ceiling_for_other g c cs other))

      with_account :
          (a : Account)
          → lookup c.credit_group d ≡ some a
          → (c.credit_group == g ≡ true) ⊎ (c.credit_group == g ≡ false)
          → under_ceiling
              (ceiling_for g cs)
              (lookup g (insert c.credit_group (ceiled fingerprint c (rollover at now a)) d))
            ≡ under_ceiling (ceiling_for g (c ∷ cs)) (lookup g d)
      with_account a e (inl same) =
          let key = (nat_beq_iff c.credit_group g).0 same in
          let y = ceiled fingerprint c (rollover at now a) in
          let at_g : lookup g d ≡ some a = ap (λ k. lookup k d) (sym key) ∙ e in
          let inserted : lookup g (insert c.credit_group y d) ≡ some y =
            lookup-insert_same c.credit_group g y d same in
          ap (λ o. under_ceiling o (lookup g (insert c.credit_group y d)))
            (ap (λ k. ceiling_for k cs) (sym key) ∙ v.0)
          ∙ inserted
          ∙ sym (ap (under_ceiling (some c)) at_g)
          ∙ ap (λ o. under_ceiling o (lookup g d)) (sym (ceiling_for_here g c cs same))
      with_account a e (inr other) =
          let y = ceiled fingerprint c (rollover at now a) in
          ap (under_ceiling (ceiling_for g cs)) (lookup-insert_other c.credit_group g y d other)
          ∙ ap (λ o. under_ceiling o (lookup g d)) (sym (ceiling_for_other g c cs other))

-- The ceiling is of the policy and the cycle that the account has now.
abbrev pub IsMatch : (ℕ → ℕ) → CostCeiling → Account → Type 0
IsMatch fingerprint c a =
    (c.policy_fingerprint ≡ fingerprint c.credit_group)
    × (c.cycle_start ≡ a.cycle_start)
    × (c.cycle_start_day ≡ a.cycle_start_day)
    × (c.allowance ≡ a.cycle_allowance)

is_match-IsMatch :
    (fingerprint : ℕ → ℕ) (c : CostCeiling) (a : Account)
    → (is_match fingerprint c a ≡ true) ↔ IsMatch fingerprint c a
unfolding is_match
is_match-IsMatch fingerprint c a = (
  (λ h. (
    ground arith,
    same_date c.cycle_start a.cycle_start (ground arith),
    ground arith,
    ground arith,
  )),
  λ (f, s, d, e). let same = at_date c.cycle_start a.cycle_start s in ground (arith, f, d, e, same),
)
  where
    same_date : (x y : Date) → date_beq x y ≡ true → x ≡ y
    same_date x y h =
        let year : x.year ≡ y.year = ground arith in
        let month : x.month ≡ y.month = ground arith in let day : x.day ≡ y.day = ground arith in cc

    at_date : (x y : Date) → x ≡ y → date_beq x y ≡ true
    at_date x y h = subst (λ z. date_beq x z ≡ true) h (ground arith)

-- `y` is the account `b` under a ceiling: where this matches, the less of the two remains, and
-- nothing else changes.
abbrev pub Lowered : (ℕ → ℕ) → CostCeiling → Account → Account → Type 0
Lowered fingerprint c b y =
    (IsMatch fingerprint c b
      × (y ≡ record b { estimated_remaining = y.estimated_remaining })
      × (y.estimated_remaining ≤ b.estimated_remaining)
      × (y.estimated_remaining ≤ c.remaining)
      × ((y.estimated_remaining ≡ b.estimated_remaining) ⊎ (y.estimated_remaining ≡ c.remaining)))
    ⊎ (¬ IsMatch fingerprint c b × (y ≡ b))

-- `b` is the account `a` in the cycle that begins at `start`: from an earlier cycle it gets the
-- whole allowance.
abbrev pub RolledOver : Date → Account → Account → Type 0
RolledOver start a b =
    ((date_ltb a.cycle_start start ≡ true)
      × (b ≡ record a { cycle_start = start; estimated_remaining = a.cycle_allowance }))
    ⊎ ((date_ltb a.cycle_start start ≡ false) × (b ≡ a))

min-either : (m n : ℕ) → (min m n ≡ m) ⊎ (min m n ≡ n)
min-either m n = ground arith

ceiled-Lowered :
    (fingerprint : ℕ → ℕ) (c : CostCeiling) (b : Account)
    → Lowered fingerprint c b (ceiled fingerprint c b)
unfolding ceiled
ceiled-Lowered fingerprint c b = elim (Bool-cases (is_match fingerprint c b)) [
  | inl e ↦
      rw (e, ceiled)
        (inl (
          (is_match-IsMatch fingerprint c b).0 e,
          refl,
          omega arith,
          omega arith,
          min-either b.estimated_remaining c.remaining,
        ))
  | inr e ↦
      rw (e, ceiled) (inr ((λ h. differ (sym e ∙ (is_match-IsMatch fingerprint c b).1 h)), refl))
]
  where
    differ : false ≡ true → ⊥
    differ h = cc

module _ (at : Date → ℕ) (now : Time) where
  rollover-RolledOver :
      (a : Account)
      → RolledOver
          (calculate_cycle_window at now a.cycle_start_day).current_cycle_start
          a
          (rollover at now a)
  unfolding rollover
  rollover-RolledOver a =
      let start = (calculate_cycle_window at now a.cycle_start_day).current_cycle_start in
      elim (Bool-cases (date_ltb a.cycle_start start)) [
        | inl e ↦ inl (e, rw (e, rollover) refl)
        | inr e ↦ inr (e, rw (e, rollover) refl)
      ]

  -- What a batch makes of an account, with the ceiling of its group and what was there before.
  abbrev pub IsCeiled : (ℕ → ℕ) → Option CostCeiling → Option Account → Option Account → Type 0
  IsCeiled fingerprint none before after = after ≡ before
  IsCeiled fingerprint (some c) none after = after ≡ none
  IsCeiled fingerprint (some c) (some a) after =
      (b : Account) × (y : Account) × RolledOver
        (calculate_cycle_window at now a.cycle_start_day).current_cycle_start a b
      × Lowered fingerprint c b y
      × (after ≡ some y)

  under_ceiling-IsCeiled :
      (fingerprint : ℕ → ℕ) (o : Option CostCeiling) (before : Option Account)
      → IsCeiled fingerprint o before (under_ceiling at now fingerprint o before)
  under_ceiling-IsCeiled fingerprint none before = refl
  under_ceiling-IsCeiled fingerprint (some c) none = refl
  under_ceiling-IsCeiled fingerprint (some c) (some a) = (
    rollover at now a,
    ceiled fingerprint c (rollover at now a),
    rollover-RolledOver a,
    ceiled-Lowered fingerprint c (rollover at now a),
    refl,
  )

  -- In a batch, an account whose group has no ceiling stays as it was. One whose group has a ceiling
  -- goes over into the cycle of the time, where it gets the whole allowance if it comes from an
  -- earlier one; then, if the ceiling has the fingerprint of the policy and the cycle, start day and
  -- allowance of the account, what remains is the less of what remained and the ceiling, and if
  -- not, it stays. Nothing else of the account changes.
  pub apply_cost_ceilings-IsCeiled :
      (fingerprint : ℕ → ℕ) (cs : List CostCeiling) (d : Dict ℕ Account) (g : ℕ)
      → IsBatch cs
      → IsCeiled fingerprint
          (ceiling_for g cs)
          (lookup g d)
          (lookup g (apply_cost_ceilings at now fingerprint cs d).1)
  apply_cost_ceilings-IsCeiled fingerprint cs d g v =
      subst (IsCeiled fingerprint (ceiling_for g cs) (lookup g d))
        (sym (lookup-apply_cost_ceilings at now fingerprint cs d g v))
        (under_ceiling-IsCeiled fingerprint (ceiling_for g cs) (lookup g d))
