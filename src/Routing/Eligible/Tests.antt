-- ===== src/Routing/Eligible/Tests.antt =====
-- Candidates of `src/foundry_router/routing/__init__.py`, of which one is in cooldown.
use foundry_router.Base.{ℕ, ◌≡◌, refl, Bool, true, false, [], ◌∷◌, ◌==◌, nat_eq, if◌then◌else◌}
use foundry_router.Health.Store.{HealthState, active, quota_cooldown}
use foundry_router.Routing.Eligible.{
  eligible_candidates, quota_eligible, health_eligible, sole_in_cooldown, IsEligible,
  eligible_candidates-IsEligible,
}

abbrev states : ℕ → HealthState
states b = if b == 2 then quota_cooldown else active

abbrev three_fits : ℕ → Bool
three_fits b = b == 3

one_is_left : eligible_candidates false states three_fits (1 ∷ 2 ∷ 3 ∷ []) ≡ (3 ∷ [], false)
unfolding eligible_candidates quota_eligible health_eligible
one_is_left = refl

over_its_limits : eligible_candidates true states three_fits (2 ∷ []) ≡ (2 ∷ [], true)
unfolding eligible_candidates quota_eligible health_eligible sole_in_cooldown
over_its_limits = refl

eligible_candidates-IsEligible_example :
    IsEligible true states three_fits (2 ∷ []) (eligible_candidates true states three_fits (2 ∷ []))
eligible_candidates-IsEligible_example =
    eligible_candidates-IsEligible true states three_fits (2 ∷ [])
