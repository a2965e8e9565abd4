-- ===== src/RateLimit/Limit/Tests.antt =====
-- Runs of the replicas' shares of `src/foundry_router/ratelimit.py`.
use foundry_router.Base.{ℕ, ◌≡◌, ◌↔◌, refl, none, some, [], ◌∷◌, All, nat_eq}
use foundry_router.Base.Dict.{Dict}
use foundry_router.RateLimit.{Limits}
use foundry_router.RateLimit.Limit.{
  share_of, share_limits, effective_quota_limits, zero_share_dimensions, zero_dimension, rpm,
}
use foundry_router.RateLimit.Limit.Share.{ServesAll, zero_share_dimensions-nil}

abbrev configured : Dict ℕ Limits
configured = (7, record { rpm = some 2; tpm = some 100; rpd = none }) ∷ []

-- Three replicas can not share two requests a minute.
one_is_zero : zero_share_dimensions configured 3 ≡ (7, rpm) ∷ []
unfolding zero_share_dimensions zero_dimension share_limits share_of
one_is_zero = refl

zero_share_dimensions-nil_example :
    (zero_share_dimensions configured 2 ≡ [])
    ↔ All (λ (e : ℕ × Limits). ServesAll e.1) (effective_quota_limits configured 2)
zero_share_dimensions-nil_example = zero_share_dimensions-nil configured 2
