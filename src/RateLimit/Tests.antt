-- ===== src/RateLimit/Tests.antt =====
-- A history of calls of the limiter of `src/foundry_router/ratelimit.py`.
use foundry_router.Base.{◌*◌, refl, some, List, [], ◌∷◌}
use foundry_router.Base.Int.{pos}
use foundry_router.Base.Dict.{lookup}
use foundry_router.RateLimit.{Limits, infinite, Readings, second, requests_of}
use foundry_router.RateLimit.Frame.{usage_of, daily_count}
use foundry_router.RateLimit.Admission.Bounds.{AtMost}
use foundry_router.RateLimit.History.{
  Call, reserves, finalizes, releases, snapshots, run, start, run_bounded,
}

abbrev two_a_minute : Limits
two_a_minute = record { rpm = some 2; tpm = some 100; rpd = some 5 }

abbrev noon : Readings
noon = record {
  now = record { monotonic = 500 * second; pacific_date = 20; until_midnight = 43200 * second };
  release_date = λ id. 20;
}

abbrev calls : List Call
calls =
    reserves noon 1 7 (pos 30) infinite
    ∷ reserves noon 2 7 (pos 30) infinite
    ∷ finalizes 1 (some (pos 12))
    ∷ snapshots noon (7 ∷ [])
    ∷ reserves noon 3 7 (pos 30) infinite
    ∷ releases 2 20
    ∷ []

run_bounded_example :
    let s = run (start ((7, two_a_minute) ∷ [])) calls in
    AtMost (some 2) (requests_of (usage_of s 7)) × AtMost (some 5) (daily_count s 7)
unfolding lookup
run_bounded_example = run_bounded ((7, two_a_minute) ∷ []) calls 7 two_a_minute refl
