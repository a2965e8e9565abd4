-- ===== src/Routing/Eligible.antt =====
-- The candidates that `select_candidate_backend` of `src/foundry_router/routing/__init__.py` keeps
-- by their health and by what is left of their quota, with the emergency fallback for a request
-- that has one candidate only.
mod Tests
use foundry_router.Base.{
  ℕ, ◌≡◌, ◌⊎◌, refl, Bool, true, false, not, ◌&&◌, List, [], ◌∷◌, All, keep, is_empty,
  if◌then◌else◌, Bool-cases, inl, inr, ap, arith, ◌==◌, nat_eq, nat_beq_iff,
}
use foundry_router.Health.Store.{
  HealthState, active, quota_cooldown, error_cooldown, disabled, is_cooldown,
}

abbrev pub is_active : HealthState → Bool
is_active active = true
is_active quota_cooldown = false
is_active error_cooldown = false
is_active disabled = false

-- The fallback on the sole candidate, if it is in cooldown.
pub sole_in_cooldown : (ℕ → HealthState) → List ℕ → List ℕ
sole_in_cooldown state [] = []
sole_in_cooldown state (b ∷ []) = if is_cooldown (state b) then b ∷ [] else []
sole_in_cooldown state (b ∷ c ∷ bs) = []

-- `fallback` is that the settings allow it and that the request continues no earlier one.
pub health_eligible : Bool → (ℕ → HealthState) → List ℕ → List ℕ
health_eligible fallback state ranked =
    let found = keep (λ b. is_active (state b)) ranked in
    if is_empty found && fallback then sole_in_cooldown state ranked else found

-- `len(ranked_candidates) == 1 and health_eligible == ranked_candidates`
abbrev pub is_sole : List ℕ → List ℕ → Bool
is_sole (b ∷ []) (c ∷ []) = b == c
is_sole _ _ = false

-- The candidates with quota, and whether the request may go over its limits.
pub quota_eligible : Bool → (ℕ → Bool) → List ℕ → List ℕ → List ℕ × Bool
quota_eligible fallback fits ranked healthy =
    let found = keep fits healthy in
    if is_empty found && fallback && is_sole ranked healthy then (healthy, true) else (found, false)

pub eligible_candidates : Bool → (ℕ → HealthState) → (ℕ → Bool) → List ℕ → List ℕ × Bool
eligible_candidates fallback state fits ranked =
    quota_eligible fallback fits ranked (health_eligible fallback state ranked)

module _ (fallback : Bool) (state : ℕ → HealthState) (fits : ℕ → Bool) where
  -- The only candidate, in the emergency fallback.
  abbrev IsEmergency : List ℕ → ℕ → Type 0
  IsEmergency ranked b = (fallback ≡ true) × (ranked ≡ b ∷ []) × (is_cooldown (state b) ≡ true)

  abbrev IsHealthy : List ℕ → ℕ → Type 0
  IsHealthy ranked b = (is_active (state b) ≡ true) ⊎ IsEmergency ranked b

  -- What is known of the candidates that are kept.
  abbrev pub IsEligible : List ℕ → List ℕ × Bool → Type 0
  IsEligible ranked (bs, false) = All (λ b. IsHealthy ranked b × (fits b ≡ true)) bs
  IsEligible ranked (bs, true) =
      (b : ℕ) × (bs ≡ b ∷ [])
      × (ranked ≡ b ∷ [])
      × (fallback ≡ true)
      × (fits b ≡ false)
      × ((is_active (state b) ≡ true) ⊎ (is_cooldown (state b) ≡ true))

  All-keep :
      (P : ℕ → Type 0) (f : ℕ → Bool) (bs : List ℕ)
      → All P bs
      → All (λ b. P b × (f b ≡ true)) (keep f bs)
  All-keep P f [] h = tt
  All-keep P f (b ∷ bs) h = elim (Bool-cases (f b)) [
    | inl e ↦ rw e ((h.0, e), All-keep P f bs h.1)
    | inr e ↦ rw e (All-keep P f bs h.1)
  ]

  only_active : (ranked bs : List ℕ) → All (IsHealthy ranked) (keep (λ b. is_active (state b)) bs)
  only_active ranked [] = tt
  only_active ranked (b ∷ bs) = elim (Bool-cases (is_active (state b))) [
    | inl e ↦ rw e (inl e, only_active ranked bs)
    | inr e ↦ rw e (only_active ranked bs)
  ]

  sole_in_cooldown-IsHealthy :
      (ranked : List ℕ) → fallback ≡ true → All (IsHealthy ranked) (sole_in_cooldown state ranked)
  unfolding sole_in_cooldown
  sole_in_cooldown-IsHealthy [] e = tt
  sole_in_cooldown-IsHealthy (b ∷ []) e = elim (Bool-cases (is_cooldown (state b))) [
    | inl c ↦ rw (c, sole_in_cooldown) (inr (e, refl, c), tt)
    | inr c ↦ rw (c, sole_in_cooldown) tt
  ]
  sole_in_cooldown-IsHealthy (b ∷ c ∷ bs) e = tt

  health_eligible-IsHealthy :
      (ranked : List ℕ) → All (IsHealthy ranked) (health_eligible fallback state ranked)
  unfolding health_eligible
  health_eligible-IsHealthy ranked =
      elim (Bool-cases (is_empty (keep (λ b. is_active (state b)) ranked) && fallback)) [
        | inl e ↦
            rw (e, health_eligible)
              (sole_in_cooldown-IsHealthy ranked
                (second (is_empty (keep (λ b. is_active (state b)) ranked)) fallback e))
        | inr e ↦ rw (e, health_eligible) (only_active ranked ranked)
      ]
    where
      second : (x y : Bool) → x && y ≡ true → y ≡ true
      second x y h = ground arith

  active_or_cooldown :
      (ranked : List ℕ) (b : ℕ)
      → IsHealthy ranked b
      → (is_active (state b) ≡ true) ⊎ (is_cooldown (state b) ≡ true)
  active_or_cooldown ranked b (inl e) = inl e
  active_or_cooldown ranked b (inr (e, sole, cooling)) = inr cooling

  over_limits-IsEligible :
      (ranked healthy : List ℕ)
      → is_empty (keep fits healthy) && fallback && is_sole ranked healthy ≡ true
      → All (IsHealthy ranked) healthy
      → IsEligible ranked (healthy, true)
  over_limits-IsEligible [] healthy e h = absurd (ground arith)
  over_limits-IsEligible (b ∷ []) [] e h = absurd (ground arith)
  over_limits-IsEligible (b ∷ []) (c ∷ []) e h =
      let same : b ≡ c = ground (arith, nat_beq_iff b c) in
      (
        c,
        refl,
        ap (λ x. x ∷ []) same,
        ground arith,
        ground arith,
        active_or_cooldown (b ∷ []) c h.0,
      )
  over_limits-IsEligible (b ∷ []) (c ∷ d ∷ cs) e h = absurd (ground arith)
  over_limits-IsEligible (b ∷ d ∷ bs) healthy e h = absurd (ground arith)

  -- If the request may go over its limits, then the settings allow the fallback, it has one
  -- candidate, which its quota does not fit and which is active or in cooldown, and this one is
  -- kept. Otherwise the quota of each candidate that is kept fits, and each is active, or is the
  -- only candidate, in cooldown, and the settings allow the fallback.
  pub eligible_candidates-IsEligible :
      (ranked : List ℕ) → IsEligible ranked (eligible_candidates fallback state fits ranked)
  unfolding eligible_candidates quota_eligible
  eligible_candidates-IsEligible ranked =
      kept (health_eligible fallback state ranked) (health_eligible-IsHealthy ranked)
    where
      kept :
          (healthy : List ℕ)
          → All (IsHealthy ranked) healthy
          → IsEligible ranked (quota_eligible fallback fits ranked healthy)
      kept healthy h =
          elim (Bool-cases (is_empty (keep fits healthy) && fallback && is_sole ranked healthy)) [
            | inl e ↦ rw (e, quota_eligible) (over_limits-IsEligible ranked healthy e h)
            | inr e ↦ rw (e, quota_eligible) (All-keep (IsHealthy ranked) fits healthy h)
          ]
