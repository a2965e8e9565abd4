-- ===== src/Health/Store.antt =====
-- `InMemoryHealthStore` of `src/foundry_router/health/__init__.py`.
use foundry_router.Base.{
  ℕ, ◌+◌, ◌-◌, Bool, true, false, ◌&&◌, Option, none, some, List, [], ◌∷◌, leb, nat_eq,
  if◌then◌else◌,
}
use foundry_router.Base.Int.{ℤ, pos, negsuc}
use foundry_router.Base.Dict.{Dict, lookup, insert}

pub data HealthState : Type 0 where
  active quota_cooldown error_cooldown disabled : HealthState

-- `state in COOLDOWN_STATES`
abbrev pub is_cooldown : HealthState → Bool
is_cooldown active = false
is_cooldown quota_cooldown = true
is_cooldown error_cooldown = true
is_cooldown disabled = false

abbrev pub is_disabled : HealthState → Bool
is_disabled active = false
is_disabled quota_cooldown = false
is_disabled error_cooldown = false
is_disabled disabled = true

pub record HealthRecord : Type 0 where
  pub state : HealthState
  pub cooldown_until : ℕ

pub record HealthSnapshot : Type 0 where
  pub state : HealthState
  pub cooldown_remaining : ℕ

abbrev pub HealthStore : Type 0
HealthStore = Dict ℕ HealthRecord

abbrev pub active_record : HealthRecord
active_record = record { state = active; cooldown_until = 0 }

-- A record is written unless the backend is disabled.
unfoldable pub write_unless_disabled : ℕ → HealthRecord → HealthStore → HealthStore
write_unless_disabled b r s = elim (lookup b s) [
  | none ↦ insert b r s
  | some old ↦ if is_disabled old.state then s else insert b r s
]

unfoldable pub set_backend_active : ℕ → HealthStore → HealthStore
set_backend_active b s = write_unless_disabled b active_record s

-- `max(0.0, cooldown_seconds)`
abbrev pub duration : ℤ → ℕ
duration (pos n) = n
duration (negsuc n) = 0

unfoldable pub set_backend_cooldown : ℕ → ℕ → HealthState → ℤ → HealthStore → HealthStore
set_backend_cooldown now b state cooldown s =
    write_unless_disabled b (record { state = state; cooldown_until = now + duration cooldown }) s

-- A cooldown that is over makes the backend active.
unfoldable pub recover : ℕ → HealthRecord → HealthRecord
recover now r = if is_cooldown r.state && leb r.cooldown_until now then active_record else r

-- A record that is there recovers in place.
unfoldable pub recovered : ℕ → ℕ → HealthStore → HealthStore
recovered now b s = elim (lookup b s) [ none ↦ s | some r ↦ insert b (recover now r) s ]

-- What a snapshot says of a record that has recovered.
unfoldable pub describe : ℕ → HealthRecord → HealthSnapshot
describe now r = record {
  state = r.state;
  cooldown_remaining = if is_cooldown r.state then r.cooldown_until - now else 0;
}

-- A backend with no record is active.
unfoldable pub snapshot_of : ℕ → Option HealthRecord → HealthSnapshot
snapshot_of now none = record { state = active; cooldown_remaining = 0 }
snapshot_of now (some r) = describe now (recover now r)

-- The loop over the backends.
unfoldable pub snapshot_each :
    ℕ → List ℕ → HealthStore → Dict ℕ HealthSnapshot → Dict ℕ HealthSnapshot × HealthStore
snapshot_each now [] s out = (out, s)
snapshot_each now (b ∷ bs) s out =
    snapshot_each now bs (recovered now b s) (insert b (snapshot_of now (lookup b s)) out)

unfoldable pub snapshot_backend_health :
    ℕ → List ℕ → HealthStore → Dict ℕ HealthSnapshot × HealthStore
snapshot_backend_health now bs s = snapshot_each now bs s []

unfoldable pub reset : HealthStore → HealthStore
reset s = []
