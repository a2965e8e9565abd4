-- ===== src/RateLimit/Admission/Tests.antt =====
-- Runs of the admission calls of `src/foundry_router/ratelimit.py` on a store with one group.
use foundry_router.Base.{
  ◌*◌, ◌≡◌, ◌⊎◌, refl, true, false, none, some, [], ◌∷◌, arith, nat_eq, nat_beq, if◌then◌else◌,
}
use foundry_router.Base.Int.{pos}
use foundry_router.Base.Dict.{lookup, insert, erase}
use foundry_router.RateLimit.{
  Limits, Age, finite, infinite, Store, Instant, Readings, ok, err, second, requests_of, tokens_of,
  prune, prune_usage, put_usage, append_usage, release_request, daily_used, empty_id, bad_age,
}
use foundry_router.RateLimit.Frame.{usage_of}
use foundry_router.RateLimit.Admission.{
  try_reserve_estimate, settle, admit, admit_limited, exceeds, over_cap, reserve, is_unlimited,
  is_positive, cleared,
}
use foundry_router.RateLimit.Admission.Bounds.{Within, Fits, reserved, try_reserve_estimate-decides}
use foundry_router.RateLimit.Admission.Settlement.{settle_release_once, release-reserved}

abbrev two_a_minute : Limits
two_a_minute = record { rpm = some 2; tpm = some 100; rpd = none }

abbrev one_group : Store
one_group = record {
  quota_limits = (7, two_a_minute) ∷ [];
  usage = [];
  daily_requests = [];
  reservations = [];
  reservation_max_age = finite (pos (900 * second));
  next_object = 0;
}

abbrev noon : Instant
noon = record { monotonic = 500 * second; pacific_date = 20; until_midnight = 43200 * second }

abbrev at_noon : Readings
at_noon = record { now = noon; release_date = λ id. 20 }

abbrev no_age : Age
no_age = infinite

abbrev full : Store
full = reserved (reserved one_group noon 1 7 30) noon 2 7 30

-- The first request of 30 tokens is admitted, and the third is refused.
first_admitted : (admit one_group noon 1 7 30 false).0 ≡ true
unfolding admit is_unlimited admit_limited exceeds over_cap prune_usage daily_used lookup
first_admitted = refl

third_refused : (admit full noon 3 7 30 false).0 ≡ false
unfolding admit is_unlimited admit_limited exceeds over_cap prune_usage put_usage prune daily_used
    lookup reserve append_usage insert erase
third_refused = refl

third_over_limit : (admit full noon 3 7 30 true).0 ≡ true
unfolding admit is_unlimited admit_limited exceeds over_cap prune_usage put_usage prune daily_used
    lookup reserve append_usage insert erase
third_over_limit = refl

no_identifier : try_reserve_estimate one_group at_noon 0 7 (pos 30) no_age false ≡ err empty_id
unfolding try_reserve_estimate
no_identifier = refl

no_age_left :
    try_reserve_estimate one_group at_noon 1 7 (pos 30) (finite (pos 0)) false ≡ err bad_age
unfolding try_reserve_estimate is_positive
no_age_left = refl

try_reserve_estimate-decides_example :
    let t = cleared full at_noon 3 no_age in
    let u = reserved t noon 3 7 30 in
    ((try_reserve_estimate full at_noon 3 7 (pos 30) no_age false ≡ ok (true, u))
      × Within two_a_minute
          (requests_of (usage_of u 7))
          (tokens_of (usage_of u 7))
          (daily_used u 7 20))
    ⊎ ((try_reserve_estimate full at_noon 3 7 (pos 30) no_age false
          ≡ ok (false, (prune_usage t 7 (500 * second)).0))
        × ¬ Fits t noon 7 two_a_minute 30)
unfolding is_positive is_unlimited lookup reserve append_usage prune_usage insert put_usage prune
try_reserve_estimate-decides_example =
    try_reserve_estimate-decides full at_noon 3 7 30 no_age two_a_minute (omega arith) refl refl
      refl

settle_release_once_example :
    let t = settle full 1 (some 12) in
    let u = release_request 20 1 full in
    ((settle t 1 none ≡ t) × (release_request 21 1 t ≡ t))
    × ((settle u 1 none ≡ u) × (release_request 21 1 u ≡ u))
settle_release_once_example = settle_release_once full 1 20 21 (some 12) none

release-reserved_example :
    let u = release_request 20 2 (reserved full noon 2 7 30) in
    let before = if nat_beq 7 7 then prune (500 * second) (usage_of full 7) else usage_of full 7 in
    (requests_of (usage_of u 7) ≡ requests_of before)
    × (tokens_of (usage_of u 7) ≡ tokens_of before)
    × (daily_used u 7 20 ≡ daily_used full 7 20)
    × (lookup 2 u.reservations ≡ none)
release-reserved_example = release-reserved full noon 2 7 30 7
