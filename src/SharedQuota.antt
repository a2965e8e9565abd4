-- ===== src/SharedQuota.antt =====
-- The quota of a group that all replicas share, `AzureTableRateLimitStore` of
-- `src/foundry_router/state/quota.py`: the state that one row of the table holds, and what a round
-- of each operation makes of it. Times are whole nanoseconds, days are counted; the day of a time
-- in Los Angeles is an argument, `day_of`, as the time zone database gives it. The JSON text of a
-- row is the state that it parses to.
pub mod Window
pub mod Linked
pub mod Changes
pub mod Replicas
pub mod Calls
use foundry_router.Base.{
  ℕ, ◌+◌, ◌-◌, ◌*◌, Bool, true, false, not, ◌&&◌, ◌||◌, Option, none, some, List, [], ◌∷◌, ◌++◌,
  any, all, keep, sum_by, length, ltb, leb, ◌==◌, nat_eq, if◌then◌else◌, ◌>>=◌,
}
use foundry_router.Base.Int.{ℤ, pos, negsuc}
use foundry_router.Base.Dict.{Dict, lookup, insert}
use foundry_router.RateLimit.{Limits, second}

abbrev pub max_records : ℕ
max_records = 256

abbrev pub max_days : ℕ
max_days = 2

abbrev pub window : ℕ
window = 70 * second

abbrev pub clock_guard : ℕ
clock_guard = 5 * second

abbrev pub max_age : ℕ
max_age = 3600 * second

-- One attempt of a request.
pub record Attempt : Type 0 where
  pub id : ℕ
  pub at : ℕ
  pub tokens : ℕ
  pub pending : Bool
  pub day : ℕ

-- The counts of the days are integers, as a release subtracts.
pub record QuotaState : Type 0 where
  pub group : ℕ
  pub fingerprint : ℕ
  pub watermark : ℕ
  pub day : ℕ
  pub age : ℕ
  pub daily : Dict ℕ ℤ
  pub records : List Attempt

-- What a replica holds of the settings for a group.
pub record Policy : Type 0 where
  pub limits : Limits
  pub fingerprint : ℕ
  pub age : ℕ

abbrev pub is_natural : ℤ → Bool
is_natural (pos n) = true
is_natural (negsuc n) = false

abbrev pub count_of : ℤ → ℕ
count_of (pos n) = n
count_of (negsuc n) = 0

abbrev pub has_day : Dict ℕ ℤ → ℕ → Bool
has_day daily day = any (λ (e : ℕ × ℤ). e.0 == day) daily

abbrev pub has_id : List Attempt → ℕ → Bool
has_id records id = any (λ r. r.id == id) records

-- The loop over the records in `_decode`: each has an identifier of its own, is not later than
-- the watermark, and has a day that is counted.
pub are_valid_records : ℕ → Dict ℕ ℤ → List Attempt → Bool
are_valid_records watermark daily [] = true
are_valid_records watermark daily (r ∷ rs) =
    not (r.id == 0)
    && not (has_id rs r.id)
    && leb r.at watermark
    && has_day daily r.day
    && are_valid_records watermark daily rs

-- The tests of `_decode` on a row of this shape; that an identifier is not too long is left out.
pub is_valid_state : ℕ → QuotaState → Bool
is_valid_state group s =
    (s.group == group)
    && (ltb 0 s.age && leb s.age max_age)
    && leb (length s.daily) max_days
    && leb (length s.records) max_records
    && all (λ (e : ℕ × ℤ). is_natural e.1) s.daily
    && are_valid_records s.watermark s.daily s.records

-- A pending attempt that is too old is not pending any more.
pub expire : ℕ → ℕ → Attempt → Attempt
expire age now r = if ltb (r.at + age) now then record r { pending = false } else r

abbrev pub is_recent : ℕ → Attempt → Bool
is_recent now r = leb now (r.at + window)

-- The records that stay: those that are pending, or in the window.
pub prune_records : ℕ → ℕ → List Attempt → List Attempt
prune_records age now [] = []
prune_records age now (r ∷ rs) =
    let rest = prune_records age now rs in
    if (expire age now r).pending || is_recent now r then expire age now r ∷ rest else rest

-- What the window holds.
abbrev pub recent_of : ℕ → List Attempt → List Attempt
recent_of now records = keep (is_recent now) records

abbrev pub requests_used : ℕ → List Attempt → ℕ
requests_used now records = length (recent_of now records)

abbrev pub tokens_used : ℕ → List Attempt → ℕ
tokens_used now records = sum_by (λ r. r.tokens) (recent_of now records)

-- `state["daily"].get(day, 0)`
abbrev pub used_on : Dict ℕ ℤ → ℕ → ℕ
used_on daily day = elim (lookup day daily) [ none ↦ 0 | some n ↦ count_of n ]

abbrev pub passes : Option ℕ → ℕ → Bool
passes none wanted = false
passes (some cap) wanted = ltb cap wanted

-- What a round of a reservation makes of the state that it has read.
pub data Decision : Type 0 where
  duplicate refused : Decision
  admitted : QuotaState → Decision

module _ (day_of : ℕ → ℕ) where
  -- `_boundary`: within the guard of midnight.
  abbrev pub is_boundary : ℕ → Bool
  is_boundary now = not (day_of (now - clock_guard) == day_of (now + clock_guard))

  -- `_fresh`
  pub fresh : ℕ → Policy → ℕ → QuotaState
  fresh group p now = record {
    group = group;
    fingerprint = p.fingerprint;
    watermark = now;
    day = day_of now;
    age = p.age;
    daily = [];
    records = [];
  }

  abbrev pub is_counted : ℕ → ℕ × ℤ → Bool
  is_counted now (day, n) = (day == day_of now) || (day == day_of now - 1)

  pub pruned : ℕ → QuotaState → QuotaState
  pruned now s = record s {
    records = prune_records s.age now s.records;
    daily = keep (is_counted now) s.daily;
    watermark = now;
  }

  -- `_prune`, which raises where the clock has gone back.
  pub prune : ℕ → QuotaState → Option QuotaState
  prune now s = if ltb now s.watermark then none else some (pruned now s)

  -- A state of another policy is taken over only when it is drained and its day is over.
  pub adopt : Policy → ℕ → ℕ → QuotaState → Option QuotaState
  adopt p now prior_day s =
      if s.fingerprint == p.fingerprint
      then some s
      else (if is_boundary now || ltb 0 (length s.records) || leb (day_of now) prior_day
          then none
          else some (record s { fingerprint = p.fingerprint; age = p.age; day = day_of now }))

  -- The part of `_read` after the row is fetched.
  pub open_state : ℕ → Policy → ℕ → QuotaState → Option QuotaState
  open_state group p now s =
      if is_valid_state group s then prune now s >>= adopt p now s.day else none

  -- The state after an admission: the day is counted and the attempt appended.
  pub admit : ℕ → ℕ → ℕ → QuotaState → QuotaState
  admit now id tokens s = record s {
    day = day_of now;
    daily = insert (day_of now) (pos (used_on s.daily (day_of now) + 1)) s.daily;
    records =
        s.records
        ++ record { id = id; at = now; tokens = tokens; pending = true; day = day_of now } ∷ [];
  }

  -- `any(used[d] + needed[d] > cap for d, cap in limits.items())`
  pub over_limits : Limits → ℕ → ℕ → QuotaState → Bool
  over_limits l now tokens s =
      passes l.rpm (requests_used now s.records + 1)
      || passes l.tpm (tokens_used now s.records + tokens)
      || passes l.rpd (used_on s.daily (day_of now) + 1)

  -- One round of `try_reserve_estimate` on the state that `_read` gave.
  pub decide : Policy → ℕ → ℕ → ℕ → Bool → QuotaState → Decision
  decide p now id tokens over s =
      if has_id s.records id
      then duplicate
      else (if leb max_records (length s.records) || (not over && over_limits p.limits now tokens s)
          then refused
          else admitted (admit now id tokens s))

-- `n - 1` of an integer.
abbrev pub pred : ℤ → ℤ
pred (pos n) = if n == 0 then negsuc 0 else pos (n - 1)
pred (negsuc n) = negsuc (n + 1)

-- The first record of an identifier, and the list without it.
pub find : ℕ → List Attempt → Option Attempt
find id [] = none
find id (r ∷ rs) = if r.id == id then some r else find id rs

pub drop_id : ℕ → List Attempt → List Attempt
drop_id id [] = []
drop_id id (r ∷ rs) = if r.id == id then rs else r ∷ drop_id id rs

pub settle_id : ℕ → Option ℕ → List Attempt → List Attempt
settle_id id actual [] = []
settle_id id actual (r ∷ rs) =
    if r.id == id
    then record r { pending = false; tokens = elim actual [ none ↦ r.tokens | some n ↦ n ] } ∷ rs
    else r ∷ settle_id id actual rs

-- A release gives the attempt and its count of the day back; none is the `KeyError` of a day that
-- is not counted.
pub release_attempt : Attempt → QuotaState → Option QuotaState
release_attempt r s = do
  n ← lookup r.day s.daily
  some (record s { records = drop_id r.id s.records; daily = insert r.day (pred n) s.daily })

pub finish_attempt : Option ℕ → Attempt → QuotaState → QuotaState
finish_attempt actual r s = record s { records = settle_id r.id actual s.records }

-- One round of `_settle` on the state that `_read` gave.
pub settle_found : Bool → Option ℕ → Option Attempt → QuotaState → Option QuotaState
settle_found release actual none s = some s
settle_found release actual (some r) s =
    if r.pending
    then (if release then release_attempt r s else some (finish_attempt actual r s))
    else some s

pub settle : Bool → Option ℕ → ℕ → QuotaState → Option QuotaState
unfolding settle_found
settle release actual id s = settle_found release actual (find id s.records) s
