-- ===== src/RateLimit/Admission.antt =====
-- The calls of `InMemoryRateLimitStore` that admit, settle and release requests, in
-- `src/foundry_router/ratelimit.py`. A `ValueError` is raised before the lock is taken.
pub mod Bounds
pub mod Invariant
pub mod Settlement
mod Tests
use foundry_router.Base.{
  ℕ, suc, ◌+◌, Bool, true, false, not, ◌&&◌, ◌||◌, Option, none, some, List, [], ◌∷◌, ltb, ◌==◌,
  nat_eq, if◌then◌else◌,
}
use foundry_router.Base.Int.{ℤ, pos, negsuc}
use foundry_router.Base.Dict.{Dict, lookup, insert, erase}
use foundry_router.RateLimit.{
  Limits, UsageRecord, Reservation, Age, finite, infinite, nan, Store, Instant, Readings, empty_id,
  negative_tokens, negative_count, bad_age, Result, ok, err, requests_of, tokens_of, prune_usage,
  append_usage, release_request, sweep, daily_used,
}

-- `limit is not None and wanted > limit`
unfoldable pub over_cap : Option ℕ → ℕ → Bool
over_cap none wanted = false
over_cap (some cap) wanted = ltb cap wanted

-- Would one more request with `tokens` pass a limit, given what is used?
unfoldable pub exceeds : Limits → ℕ → ℕ → ℕ → ℕ → Bool
exceeds l requests used daily tokens =
    over_cap l.rpm (requests + 1) || over_cap l.tpm (used + tokens) || over_cap l.rpd (daily + 1)

-- `not limits`: the dictionary of limits is empty.
unfoldable pub is_unlimited : Limits → Bool
is_unlimited l = elim l.rpm [
  | some _ ↦ false
  | none ↦ elim l.tpm [ some _ ↦ false | none ↦ elim l.rpd [ some _ ↦ false | none ↦ true ] ]
]

-- The record of an admitted request, a new object.
abbrev pub admitted_record : Store → Instant → ℕ → ℕ → UsageRecord
admitted_record s now id tokens = record {
  object = s.next_object;
  request_id = some id;
  recorded_at_monotonic = now.monotonic;
  request_count = 1;
  input_tokens = tokens;
}

abbrev pub admitted_reservation : Store → Instant → ℕ → ℕ → ℕ → Reservation
admitted_reservation s now id g tokens = record {
  quota_group = g;
  usage = admitted_record s now id tokens;
  pacific_date = now.pacific_date;
  created_at_monotonic = now.monotonic;
}

-- It is appended, counted for the day and kept as a reservation.
pub reserve : Store → Instant → ℕ → ℕ → ℕ → List UsageRecord → Store
unfolding append_usage
reserve s now id g tokens usage =
    record (append_usage g (admitted_record s now id tokens) usage s) {
      daily_requests =
          insert g (now.pacific_date, daily_used s g now.pacific_date + 1) s.daily_requests;
      reservations = insert id (admitted_reservation s now id g tokens) s.reservations;
      next_object = suc s.next_object;
    }

-- The decision for a group with limits.
unfoldable pub admit_limited : Store → Instant → ℕ → ℕ → Limits → ℕ → Bool → Bool × Store
admit_limited s now id g l tokens over =
    let (s', usage) = prune_usage s g now.monotonic in
    if not over
      && exceeds l (requests_of usage) (tokens_of usage) (daily_used s' g now.pacific_date) tokens
    then (false, s')
    else (true, reserve s' now id g tokens usage)

unfoldable pub admit : Store → Instant → ℕ → ℕ → ℕ → Bool → Bool × Store
admit s now id g tokens over = elim (lookup g s.quota_limits) [
  | none ↦ (true, s)
  | some l ↦ if is_unlimited l then (true, s) else admit_limited s now id g l tokens over
]

-- `reservation_max_age_seconds <= 0 or math.isnan(reservation_max_age_seconds)` is refused.
pub is_positive : Age → Bool
is_positive (finite (pos n)) = ltb 0 n
is_positive (finite (negsuc n)) = false
is_positive infinite = true
is_positive nan = false

-- The state in which the decision is made: expired reservations are swept, and an older
-- reservation under the same identifier is released.
pub cleared : Store → Readings → ℕ → Age → Store
cleared s c id age = release_request (c.release_date id) id (sweep age c s)

pub try_reserve_estimate : Store → Readings → ℕ → ℕ → ℤ → Age → Bool → Result (Bool × Store)
try_reserve_estimate s c id g (negsuc n) age over =
    if id == 0 then err empty_id else err negative_tokens
try_reserve_estimate s c id g (pos n) age over =
    if id == 0
    then err empty_id
    else (if is_positive age
        then ok (admit (cleared s c id age) c.now id g n over)
        else err bad_age)

-- `record_estimate`: usage that no reservation owns, counted whatever the limits are.
pub record_estimate : Store → Instant → ℕ → ℤ → ℤ → Result Store
record_estimate s now g (negsuc n) tokens = err negative_count
record_estimate s now g (pos n) (negsuc t) = err negative_count
record_estimate s now g (pos n) (pos t) =
    let (s', usage) = prune_usage s g now.monotonic in
    ok (record (append_usage g r usage s') {
      daily_requests =
          insert g (now.pacific_date, daily_used s' g now.pacific_date + n) s'.daily_requests;
      next_object = suc s.next_object;
    })
  where
    r : UsageRecord
    r = record {
      object = s.next_object;
      request_id = none;
      recorded_at_monotonic = now.monotonic;
      request_count = n;
      input_tokens = t;
    }

-- `reservation.usage.input_tokens = actual`: the object is written, in whatever deque it stands.
pub write_tokens : ℕ → ℕ → List UsageRecord → List UsageRecord
write_tokens object tokens [] = []
write_tokens object tokens (r ∷ rs) =
    (if r.object == object then record r { input_tokens = tokens } else r)
    ∷ write_tokens object tokens rs

pub write_usage : ℕ → ℕ → Dict ℕ (List UsageRecord) → Dict ℕ (List UsageRecord)
write_usage object tokens [] = []
write_usage object tokens ((g, rs) ∷ d) =
    (g, write_tokens object tokens rs) ∷ write_usage object tokens d

pub settle : Store → ℕ → Option ℕ → Store
settle s id actual = elim (lookup id s.reservations) [
  | none ↦ s
  | some r ↦ elim actual [
    | none ↦ record s { reservations = erase id s.reservations }
    | some n ↦ record s {
      reservations = erase id s.reservations;
      usage = write_usage r.usage.object n s.usage;
    }
  ]
]

pub finalize_request : Store → ℕ → Option ℤ → Result Store
finalize_request s id none = ok (settle s id none)
finalize_request s id (some (negsuc n)) = err negative_tokens
finalize_request s id (some (pos n)) = ok (settle s id (some n))

-- `reset`
pub reset : Store → Store
reset s = record s { usage = []; daily_requests = []; reservations = [] }
