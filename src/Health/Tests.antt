-- ===== src/Health/Tests.antt =====
-- Runs of `src/foundry_router/health/__init__.py` on two backends.
use foundry_router.Base.{
  ◌+◌, ◌-◌, ◌*◌, ◌≤◌, ◌≡◌, ◌↔◌, refl, true, some, [], ◌∷◌, All, arith, ltb, nat_eq, if◌then◌else◌,
}
use foundry_router.Base.Int.{pos}
use foundry_router.Base.Dict.{lookup, insert}
use foundry_router.Health.Store.{
  active, quota_cooldown, error_cooldown, disabled, HealthStore, is_cooldown, set_backend_active,
  set_backend_cooldown, snapshot_backend_health, snapshot_each, snapshot_of, recover, recovered,
  describe,
}
use foundry_router.Health.Response.{
  second, no_response, response, states_of, respond, least_remaining, ceil_seconds,
  cooldown_exhausted_response,
}
use foundry_router.Health.Report.{set_backend_cooldown-snapshot}
use foundry_router.Health.Retry.{is_response, reports, retry_after-exact}
use foundry_router.Health.Status.{status_of, cooldown_exhausted_response-decides}
use foundry_router.Health.Calls.{here, next, activates, cools, Reach-disabled}

abbrev two_cooling : HealthStore
two_cooling =
    (1, record { state = quota_cooldown; cooldown_until = 7 * second })
    ∷ (2, record { state = error_cooldown; cooldown_until = 5 * second + 1 })
    ∷ (3, record { state = disabled; cooldown_until = 0 })
    ∷ []

refused :
    cooldown_exhausted_response
      (1 ∷ 2 ∷ [])
      (snapshot_backend_health second (1 ∷ 2 ∷ []) two_cooling).0
    ≡ response (record { status_code = 503; retry_after = 5 })
unfolding cooldown_exhausted_response states_of respond least_remaining ceil_seconds
    snapshot_backend_health snapshot_each snapshot_of recover recovered describe lookup insert
refused = refl

disabled_not_refused :
    cooldown_exhausted_response
      (1 ∷ 3 ∷ [])
      (snapshot_backend_health second (1 ∷ 3 ∷ []) two_cooling).0
    ≡ no_response
unfolding cooldown_exhausted_response states_of respond snapshot_backend_health snapshot_each
    snapshot_of recover recovered describe lookup insert
disabled_not_refused = refl

retry_after-exact_example :
    let s' = (snapshot_backend_health second (1 ∷ 2 ∷ []) two_cooling).1 in
    let out =
      cooldown_exhausted_response
        (1 ∷ 2 ∷ [])
        (snapshot_backend_health (6 * second) (1 ∷ 2 ∷ []) s').0 in
    (second + 5 * second ≤ 6 * second → out ≡ no_response)
    × (6 * second + second ≤ second + 5 * second → is_response out ≡ true)
unfolding cooldown_exhausted_response states_of respond least_remaining ceil_seconds
    snapshot_backend_health snapshot_each snapshot_of recover recovered describe lookup insert
retry_after-exact_example =
    retry_after-exact second (6 * second) (1 ∷ 2 ∷ []) two_cooling
      (record { status_code = 503; retry_after = 5 }) (omega arith) refl

cooldown_exhausted_response-decides_example :
    let out =
      cooldown_exhausted_response
        (1 ∷ 2 ∷ [])
        (snapshot_backend_health second (1 ∷ 2 ∷ []) two_cooling).0 in
    let found = reports second (1 ∷ 2 ∷ []) two_cooling in
    ((is_response out ≡ true) ↔ All (λ y. is_cooldown y.state ≡ true) found)
    × (is_response out ≡ true → (status_of out ≡ 429) ↔ All (λ y. y.state ≡ quota_cooldown) found)
cooldown_exhausted_response-decides_example =
    cooldown_exhausted_response-decides second 1 (2 ∷ []) two_cooling

set_backend_cooldown-snapshot_example :
    lookup 1
      (snapshot_backend_health 30
        (1 ∷ 2 ∷ [])
        (set_backend_cooldown 20 1 error_cooldown (pos 50) two_cooling)).0
    ≡ (if ltb 30 (20 + 50)
        then some (record { state = error_cooldown; cooldown_remaining = 20 + 50 - 30 })
        else some (record { state = active; cooldown_remaining = 0 }))
unfolding lookup
set_backend_cooldown-snapshot_example =
    set_backend_cooldown-snapshot 20 30 1 error_cooldown (pos 50) two_cooling (1 ∷ 2 ∷ [])
      (omega arith) refl refl refl

Reach-disabled_example :
    lookup 3 (set_backend_cooldown 20 3 error_cooldown (pos 50) (set_backend_active 3 two_cooling))
    ≡ lookup 3 two_cooling
unfolding lookup
Reach-disabled_example =
    Reach-disabled 3 (next (next here (activates 3)) (cools 20 3 error_cooldown (pos 50))) refl
