-- ===== src/Health/Response.antt =====
-- `cooldown_exhausted_response` of `src/foundry_router/health/__init__.py`. The response that
-- `api_error` builds is its status and the header that is set on it; the message is chosen by the
-- status.
use foundry_router.Base.{
  ℕ, ◌+◌, ◌-◌, ◌/◌, min, Bool, true, false, Option, none, some, List, [], ◌∷◌, nat_eq, any, all,
  not, if◌then◌else◌,
}
use foundry_router.Base.Dict.{Dict, lookup}
use foundry_router.Health.Store.{
  HealthState, quota_cooldown, error_cooldown, active, disabled, HealthSnapshot, is_cooldown,
}

abbrev pub second : ℕ
second = 1000000000

pub record Response : Type 0 where
  pub status_code : ℕ
  pub retry_after : ℕ

-- No response, a response, or the `KeyError` of a candidate that has no snapshot.
pub data Outcome : Type 0 where
  no_response key_error : Outcome
  response : Response → Outcome

-- `[snapshots[backend_id] for backend_id in candidates]`
unfoldable pub states_of : List ℕ → Dict ℕ HealthSnapshot → Option (List HealthSnapshot)
states_of [] d = some []
states_of (b ∷ bs) d = elim (lookup b d) [
  | none ↦ none
  | some x ↦ elim (states_of bs d) [ none ↦ none | some xs ↦ some (x ∷ xs) ]
]

abbrev pub is_quota : HealthState → Bool
is_quota active = false
is_quota quota_cooldown = true
is_quota error_cooldown = false
is_quota disabled = false

-- The least time that remains of a nonempty list.
unfoldable pub least_remaining : HealthSnapshot → List HealthSnapshot → ℕ
least_remaining x [] = x.cooldown_remaining
least_remaining x (y ∷ ys) = min x.cooldown_remaining (least_remaining y ys)

-- `math.ceil` of a time in seconds.
unfoldable pub ceil_seconds : ℕ → ℕ
ceil_seconds t = (t + (second - 1)) / second

unfoldable pub respond : List HealthSnapshot → Outcome
respond [] = no_response
respond (x ∷ xs) =
    if any (λ y. not (is_cooldown y.state)) (x ∷ xs)
    then no_response
    else response (record {
      status_code = if all (λ y. is_quota y.state) (x ∷ xs) then 429 else 503;
      retry_after = ceil_seconds (least_remaining x xs);
    })

unfoldable pub cooldown_exhausted_response : List ℕ → Dict ℕ HealthSnapshot → Outcome
cooldown_exhausted_response [] d = no_response
cooldown_exhausted_response (b ∷ bs) d = elim (states_of (b ∷ bs) d) [
  | none ↦ key_error
  | some xs ↦ respond xs
]
