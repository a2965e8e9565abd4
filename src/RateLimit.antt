-- ===== src/RateLimit.antt =====
-- The in-memory quota limiter of `src/foundry_router/ratelimit.py`, `InMemoryRateLimitStore`: its
-- state and the operations that change it. Each method holds the store's lock for its whole body,
-- so a method is one function on the state. Times are whole nanoseconds of the monotonic clock;
-- identifiers are only compared, so they are numbers in the order of the strings, and 0 is "".
pub mod Admission
pub mod Frame
pub mod History
pub mod Limit
pub mod Snapshot
mod Tests
use foundry_router.Base.{
  ℕ, suc, ◌+◌, ◌-◌, ◌*◌, Bool, true, false, ◌&&◌, Option, none, some, List, [], ◌∷◌, nat_eq, ◌++◌,
  ltb, ◌==◌, nat_beq, if◌then◌else◌, sum_by,
}
use foundry_router.Base.Int.{ℤ, pos, negsuc}
use foundry_router.Base.Dict.{Dict, lookup, insert, erase}

abbrev pub second : ℕ
second = 1000000000

-- The sliding window of sixty seconds.
abbrev pub window : ℕ
window = 60 * second

-- The limits of a group; a dimension that is not configured is absent from the dictionary.
pub record Limits : Type 0 where
  pub rpm : Option ℕ
  pub tpm : Option ℕ
  pub rpd : Option ℕ

-- `object` is the identity of the Python object, which a deque and a reservation share.
pub record UsageRecord : Type 0 where
  pub object : ℕ
  pub request_id : Option ℕ
  pub recorded_at_monotonic : ℕ
  pub request_count : ℕ
  pub input_tokens : ℕ

pub record Reservation : Type 0 where
  pub quota_group : ℕ
  pub usage : UsageRecord
  pub pacific_date : ℕ
  pub created_at_monotonic : ℕ

-- A float given as a maximal age, in nanoseconds where it is finite.
pub data Age : Type 0 where
  finite : ℤ → Age
  infinite nan : Age

-- `daily_requests` holds a date and a count for each group; `next_object` is the next identity.
pub record Store : Type 0 where
  pub quota_limits : Dict ℕ Limits
  pub usage : Dict ℕ (List UsageRecord)
  pub daily_requests : Dict ℕ (ℕ × ℕ)
  pub reservations : Dict ℕ Reservation
  pub reservation_max_age : Age
  pub next_object : ℕ

-- One reading of the clocks: the monotonic time, the date in Los Angeles, and the time that is
-- left until midnight there, which the time zone database gives.
pub record Instant : Type 0 where
  pub monotonic : ℕ
  pub pacific_date : ℕ
  pub until_midnight : ℕ

-- The readings of one call: the one at its start, and the date that is read again when the
-- reservation of an identifier is released.
pub record Readings : Type 0 where
  pub now : Instant
  pub release_date : ℕ → ℕ

pub data Error : Type 0 where
  empty_id negative_tokens negative_count bad_age : Error

pub data Result {ℓ} (A : Type ℓ) : Type ℓ where
  ok : A → Result A
  err : Error → Result A

abbrev pub requests_of : List UsageRecord → ℕ
requests_of = sum_by (λ r. r.request_count)

abbrev pub tokens_of : List UsageRecord → ℕ
tokens_of = sum_by (λ r. r.input_tokens)

-- `while usage and usage[0].recorded_at_monotonic < now - 60.0: usage.popleft()`
pub prune : ℕ → List UsageRecord → List UsageRecord
prune now [] = []
prune now (r ∷ rs) =
    let rest = prune now rs in if ltb (r.recorded_at_monotonic + window) now then rest else r ∷ rs

-- The deque of a group that has been pruned to `rs` is stored, or dropped if nothing is left.
pub put_usage : ℕ → List UsageRecord → Store → Store
put_usage g [] s = record s { usage = erase g s.usage }
put_usage g (r ∷ rs) s = record s { usage = insert g (r ∷ rs) s.usage }

pub prune_usage : Store → ℕ → ℕ → Store × List UsageRecord
prune_usage s g now = elim (lookup g s.usage) [
  | none ↦ (s, [])
  | some rs ↦ (put_usage g (prune now rs) s, prune now rs)
]

pub append_usage : ℕ → UsageRecord → List UsageRecord → Store → Store
append_usage g r rs s = record s { usage = insert g (rs ++ r ∷ []) s.usage }

abbrev pub option_beq : Option ℕ → Option ℕ → Bool
option_beq none none = true
option_beq none (some _) = false
option_beq (some _) none = false
option_beq (some a) (some b) = nat_beq a b

-- The dataclass's `==`, which does not see the identity.
pub record_beq : UsageRecord → UsageRecord → Bool
record_beq a b =
    option_beq a.request_id b.request_id
    && (a.recorded_at_monotonic == b.recorded_at_monotonic)
    && (a.request_count == b.request_count)
    && (a.input_tokens == b.input_tokens)

-- `deque.remove` under `suppress(ValueError)`: the first equal record goes, if there is one.
pub remove_record : UsageRecord → List UsageRecord → List UsageRecord
remove_record r [] = []
remove_record r (x ∷ xs) = if record_beq x r then xs else x ∷ remove_record r xs

pub release_usage : Reservation → Store → Store
release_usage r s = elim (lookup r.quota_group s.usage) [
  | none ↦ s
  | some rs ↦ put_usage r.quota_group (remove_record r.usage rs) s
]

pub release_daily : ℕ → Reservation → Store → Store
release_daily today r s = elim (lookup r.quota_group s.daily_requests) [
  | none ↦ s
  | some (date, count) ↦
      if (date == today) && (today == r.pacific_date)
      then (if ltb 0 (count - r.usage.request_count)
          then record s {
            daily_requests =
                insert r.quota_group (today, count - r.usage.request_count) s.daily_requests;
          }
          else record s { daily_requests = erase r.quota_group s.daily_requests })
      else s
]

-- `_release_request_locked`, with the date that it reads.
pub release_request : ℕ → ℕ → Store → Store
release_request today id s = elim (lookup id s.reservations) [
  | none ↦ s
  | some r ↦
      release_daily today r (release_usage r (record s { reservations = erase id s.reservations }))
]

-- `now - created_at > max_age`
pub is_expired : Age → ℕ → Reservation → Bool
is_expired (finite (pos n)) now r = ltb (r.created_at_monotonic + n) now
is_expired (finite (negsuc n)) now r = ltb r.created_at_monotonic (now + suc n)
is_expired infinite now r = false
is_expired nan now r = false

pub expired_ids : Age → ℕ → Dict ℕ Reservation → List ℕ
expired_ids age now [] = []
expired_ids age now ((id, r) ∷ d) =
    let rest = expired_ids age now d in if is_expired age now r then id ∷ rest else rest

pub release_all : (ℕ → ℕ) → List ℕ → Store → Store
release_all dates [] s = s
release_all dates (id ∷ ids) s = release_all dates ids (release_request (dates id) id s)

-- `_sweep_expired_reservations`; an infinite age finds none.
pub sweep : Age → Readings → Store → Store
sweep age c s = release_all c.release_date (expired_ids age c.now.monotonic s.reservations) s

-- The requests counted for the group on this date.
pub daily_used : Store → ℕ → ℕ → ℕ
daily_used s g today = elim (lookup g s.daily_requests) [
  | none ↦ 0
  | some (date, count) ↦ if date == today then count else 0
]
