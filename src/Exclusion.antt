-- ===== src/Exclusion.antt =====
-- The store of failing combinations of `src/foundry_router/routing/exclusion.py`,
-- `CombinationExclusionStore`: three failures of a backend, an operation and a stream mode exclude
-- that combination for half an hour. Each method holds the store's lock for its whole body. Times
-- are whole nanoseconds; a backend, an operation and a token are numbers in the order of the
-- strings. A float that is 0.0 while the combination is not excluded is 0.
pub mod Filter
pub mod Fencing
pub mod Phase
pub mod Refinement
pub mod Calls
mod Tests
use foundry_router.Base.{
  ℕ, suc, ◌+◌, ◌-◌, ◌*◌, Bool, true, false, not, ◌&&◌, ◌||◌, ◌≡◌, ◌↔◌, refl, ap, Option, none, some,
  List, [], ◌∷◌, arith, Eq, ◌==◌, nat_eq, nat_beq, nat_beq_iff, bool_beq, bool_beq_iff, ltb, leb,
  if◌then◌else◌,
}
use foundry_router.Base.Int.{ℤ, pos, negsuc}
use foundry_router.Base.Dict.{Dict, lookup, insert}

abbrev pub exclusion_threshold : ℕ
exclusion_threshold = 3

abbrev pub exclusion_window : ℕ
exclusion_window = 1800 * 1000000000

-- A status as the adapters hand it over: an integer, or a value of another type.
pub data StatusCode : Type 0 where
  int : ℤ → StatusCode
  other : StatusCode

-- `retryable_failure` is accepted and ignored.
pub classify_exclusion_event : StatusCode → Bool → Bool → Bool
classify_exclusion_event status retryable true = false
classify_exclusion_event other retryable false = false
classify_exclusion_event (int (negsuc n)) retryable false = false
classify_exclusion_event (int (pos n)) retryable false = (n == 404) || (leb 500 n && leb n 599)

-- The key of a combination.
pub record Key : Type 0 where
  pub backend_id : ℕ
  pub operation : ℕ
  pub stream_mode : Bool

abbrev pub key_beq : Key → Key → Bool
key_beq a b =
    nat_beq a.backend_id b.backend_id
    && nat_beq a.operation b.operation
    && bool_beq a.stream_mode b.stream_mode

pub key_beq_iff : (a b : Key) → (key_beq a b ≡ true) ↔ (a ≡ b)
key_beq_iff a b = ground (
  arith,
  nat_beq_iff a.backend_id b.backend_id,
  nat_beq_iff a.operation b.operation,
  bool_beq_iff a.stream_mode b.stream_mode,
)

instance abbrev pub key_eq : Eq Key
key_eq = record { same = key_beq; same_iff = key_beq_iff }

pub record CombinationRecord : Type 0 where
  pub count : ℕ
  pub excluded_until_monotonic : ℕ
  pub excluded_since_monotonic : ℕ
  pub excluded_until_wall : ℕ
  pub generation : ℕ
  pub probe_token : Option ℕ

pub record AdmissionTicket : Type 0 where
  pub key : Key
  pub epoch : ℕ
  pub generation : ℕ
  pub probe_token : Option ℕ

pub record Store : Type 0 where
  pub records : Dict Key CombinationRecord
  pub epoch : ℕ

abbrev pub fresh_record : CombinationRecord
fresh_record = record {
  count = 0;
  excluded_until_monotonic = 0;
  excluded_since_monotonic = 0;
  excluded_until_wall = 0;
  generation = 0;
  probe_token = none;
}

-- The record after its window has been taken off, with a count of 0 and the next generation.
pub cleared : CombinationRecord → CombinationRecord
cleared r = record r {
  count = 0;
  excluded_until_monotonic = 0;
  excluded_since_monotonic = 0;
  excluded_until_wall = 0;
  generation = suc r.generation;
}

-- `_expire`
pub expire : ℕ → CombinationRecord → CombinationRecord
unfolding cleared
expire now r =
    if ltb 0 r.excluded_until_monotonic && leb r.excluded_until_monotonic now
    then record (cleared r) { probe_token = none }
    else r

abbrev pub put : Key → CombinationRecord → Store → Store
put k r s = record s { records = insert k r s.records }

-- The record of a key, if there is one, is expired in place.
pub refresh : ℕ → Key → Store → Store
refresh now k s = elim (lookup k s.records) [ none ↦ s | some r ↦ put k (expire now r) s ]

abbrev pub ticket : Key → Store → ℕ → Option ℕ → AdmissionTicket
ticket k s generation token = record {
  key = k;
  epoch = s.epoch;
  generation = generation;
  probe_token = token;
}

abbrev pub is_some {ℓ} : {A : Type ℓ} → Option A → Bool
is_some none = false
is_some (some _) = true

-- What `admit` does with the refreshed state; `token` is the new random token.
pub admit_refreshed : ℕ → Key → Bool → Store → Option AdmissionTicket × Store
admit_refreshed token k probe s = elim (lookup k s.records) [
  | none ↦ (some (ticket k s 0 none), s)
  | some r ↦
      if ltb 0 r.excluded_until_monotonic
      then (if not probe || is_some r.probe_token then (none, s) else (
        some (ticket k s r.generation (some token)),
        put k (record r { probe_token = some token }) s,
      ))
      else (some (ticket k s r.generation none), s)
]

pub admit : ℕ → ℕ → Key → Bool → Store → Option AdmissionTicket × Store
admit now token k probe s = admit_refreshed token k probe (refresh now k s)

abbrev pub token_beq : Option ℕ → Option ℕ → Bool
token_beq none none = true
token_beq none (some _) = false
token_beq (some _) none = false
token_beq (some a) (some b) = nat_beq a b

-- The token is taken out of the record that it still stands in.
pub release_found : AdmissionTicket → Store → Option CombinationRecord → Store
release_found t s none = s
release_found t s (some r) =
    if (t.epoch == s.epoch)
      && (r.generation == t.generation)
      && token_beq r.probe_token t.probe_token
    then put t.key (record r { probe_token = none }) s
    else s

-- `release`: a probe that was not used gives its token back.
pub release : Option AdmissionTicket → Store → Store
release none s = s
release (some t) s = if is_some t.probe_token then release_found t s (lookup t.key s.records) else s

pub data Transition : Type 0 where
  entered decayed cleared_window : Transition

-- The ticket does not fit the key, the epoch or the record that is there.
pub is_stale : Key → Store → Option CombinationRecord → AdmissionTicket → Bool
is_stale k s none t =
    not (t.key == k) || not (t.epoch == s.epoch) || not (t.generation == 0) || is_some t.probe_token
is_stale k s (some r) t =
    not (t.key == k)
    || not (t.epoch == s.epoch)
    || not (t.generation == r.generation)
    || (is_some t.probe_token && not (token_beq r.probe_token t.probe_token))

-- A fresh window from `now` on.
pub arm : ℕ → ℕ → CombinationRecord → CombinationRecord
arm now wall r = record r {
  excluded_until_monotonic = now + exclusion_window;
  excluded_since_monotonic = now;
  excluded_until_wall = wall + exclusion_window;
}

-- The outcome of an attempt on its record.
pub settle : ℕ → ℕ → Bool → Bool → CombinationRecord → Option Transition × CombinationRecord
unfolding cleared arm
settle now wall true countable r =
    if ltb now r.excluded_until_monotonic
    then (some cleared_window, cleared r)
    else (if ltb 0 r.count then (some decayed, record r { count = r.count - 1 }) else (none, r))
settle now wall false false r = (none, r)
settle now wall false true r =
    if ltb now r.excluded_until_monotonic
    then (none, arm now wall r)
    else (if leb exclusion_threshold (r.count + 1) && (r.excluded_until_monotonic == 0)
        then (
          some entered,
          record (arm now wall r) { count = r.count + 1; generation = suc r.generation },
        )
        else (none, record r { count = r.count + 1 }))

abbrev pub drop_token : Option AdmissionTicket → CombinationRecord → CombinationRecord
drop_token none r = r
drop_token (some t) r = if is_some t.probe_token then record r { probe_token = none } else r

-- An ordinary ticket, which does not belong to a probe.
abbrev pub is_ordinary : Option AdmissionTicket → Bool
is_ordinary none = false
is_ordinary (some t) = not (is_some t.probe_token)

-- The attempt on a record that is there, or that a countable failure has just made.
pub attempt_on :
    ℕ
    → ℕ
    → Key
    → Bool
    → Bool
    → Option AdmissionTicket
    → CombinationRecord
    → Store
    → Option Transition × Store
attempt_on now wall k success countable t r s =
    if ltb now r.excluded_until_monotonic && is_ordinary t
    then (none, put k r s)
    else (let (transition, r') = settle now wall success countable (drop_token t r) in
        (transition, put k r' s))

-- The attempt on what the refreshed state holds for the key.
pub attempt_found :
    ℕ
    → ℕ
    → Key
    → Bool
    → Bool
    → Option AdmissionTicket
    → Store
    → Option CombinationRecord
    → Option Transition × Store
attempt_found now wall k success true t s none = attempt_on now wall k success true t fresh_record s
attempt_found now wall k success false t s none = (none, s)
attempt_found now wall k success countable t s (some r) =
    attempt_on now wall k success countable t r s

abbrev pub stale_ticket : Key → Store → Option AdmissionTicket → Bool
stale_ticket k s none = false
stale_ticket k s (some t) = is_stale k s (lookup k s.records) t

-- `record_attempt`
pub record_attempt :
    ℕ → ℕ → Key → Bool → Bool → Option AdmissionTicket → Store → Option Transition × Store
record_attempt now wall k success countable t s =
    let s' = refresh now k s in
    if stale_ticket k s' t
    then (none, s')
    else attempt_found now wall k success countable t s' (lookup k s'.records)

-- `reset`
pub reset : Store → Store
reset s = record { records = []; epoch = suc s.epoch }
