-- ===== src/SharedQuota/Calls/Tests.antt =====
-- Runs of the shared quota of `src/foundry_router/state/quota.py` on one group with three requests
-- a minute.
use foundry_router.Base.{
  ℕ, zero, suc, ◌+◌, ◌*◌, ◌/◌, ◌≤◌, ◌<◌, ◌≡◌, refl, arith, Bool, true, false, not, ◌&&◌, none, some,
  List, [], ◌∷◌, nat_eq,
}
use foundry_router.Base.Int.{pos}
use foundry_router.Base.Dict.{lookup, insert, erase}
use foundry_router.RateLimit.{Limits, second}
use foundry_router.RateLimit.Admission.{is_unlimited}
use foundry_router.Routing.Quota.{quota_can_fit}
use foundry_router.SharedQuota.{
  Attempt, QuotaState, Policy, admitted, is_boundary, is_valid_state, are_valid_records, expire,
  prune_records, fresh, pruned, prune, adopt, open_state, admit, has_id, over_limits, decide, find,
  settle, settle_found, release_attempt, drop_id, requests_used, used_on,
}
use foundry_router.SharedQuota.Linked.{AtMost}
use foundry_router.SharedQuota.Changes.{admits}
use foundry_router.SharedQuota.Replicas.{
  System, Reach, here, next, creates, reads, writes, start, update, holding, idle, Reach_bounded,
}
use foundry_router.SharedQuota.Calls.{
  Written, Entity, Fetched, absent, found, written, conflict, Round, Store, returned, store_error,
  done, try_reserve_estimate, settle_request, describe_shared, reserve_owned, reserve_loop,
  reserve_round, read_row, read_fetched, write_row, reconcile_owners, owners_of, settle_owned,
  settle_loop, settle_round,
}
use foundry_router.SharedQuota.Calls.Ownership.{
  Accounts, Settles, try_reserve_estimate-Accounts, settle_request-Settles,
}
use foundry_router.SharedQuota.Calls.Progress.{
  Admits, try_reserve_estimate-grant, try_reserve_estimate-store_error,
}
use foundry_router.SharedQuota.Calls.Report.{is_admission, describe_shared-quota_can_fit}
use foundry_router.SharedQuota.Calls.Sync.{
  Settings, Synchronizes, sync_from_settings, sync_from_settings-Synchronizes,
}

abbrev day_of : ℕ → ℕ
day_of t = t / (86400 * second)

abbrev too_large : QuotaState → Bool
too_large s = false

abbrev morning : ℕ
morning = (100 * 86400 + 30000) * second

abbrev policy : Policy
policy = record {
  limits = record { rpm = some 3; tpm = some 1000; rpd = some 20 };
  fingerprint = 77;
  age = 900 * second;
}

abbrev empty_row : QuotaState
unfolding fresh
empty_row = fresh day_of 5 policy morning

abbrev row_of_one : QuotaState
unfolding admit fresh insert lookup
row_of_one = admit day_of (morning + 1) 9 40 (pruned day_of (morning + 1) empty_row)

abbrev attempt : Attempt
attempt = record { id = 9; at = morning + 1; tokens = 40; pending = true; day = 100 }

abbrev created : System
created = record { version = 1; row = some empty_row; replica = λ i. idle; taken = [] }

abbrev opened_row : QuotaState
unfolding pruned prune_records
opened_row = pruned day_of (morning + 1) empty_row

abbrev first_read : System
first_read = record created {
  replica = update created.replica 0 (holding 1 (morning + 1) opened_row);
}

abbrev second_read : System
second_read = record first_read {
  replica = update first_read.replica 1 (holding 1 (morning + 1) opened_row);
}

abbrev granted : System
granted = record {
  version = 2;
  row = some row_of_one;
  replica = update second_read.replica 0 idle;
  taken = attempt ∷ [];
}

abbrev opens : open_state day_of 5 policy (morning + 1) empty_row ≡ some opened_row
unfolding open_state is_valid_state are_valid_records prune pruned prune_records adopt fresh
opens = refl

abbrev decides : decide day_of policy (morning + 1) 9 40 false opened_row ≡ admitted row_of_one
unfolding decide over_limits admit fresh pruned prune_records lookup insert
decides = refl

abbrev interleaved : Reach day_of 5 policy (start day_of 5 policy) granted
unfolding empty_row fresh
interleaved =
    next
      (next
        (next (next here (creates morning refl))
          (reads 0 (morning + 1) empty_row opened_row refl opens))
        (reads 1 (morning + 1) empty_row opened_row refl opens))
      (writes 0 (morning + 1) opened_row row_of_one (attempt ∷ []) refl (admits 9 40 decides))

abbrev watermark_before : row_of_one.watermark ≤ morning + 2
unfolding admit pruned row_of_one
watermark_before = omega arith

Reach_bounded_example :
    AtMost (some 3) (requests_used (morning + 2) (attempt ∷ []))
    × ((d : ℕ) → AtMost (some 20) (used_on row_of_one.daily d))
Reach_bounded_example =
    Reach_bounded day_of 5 policy (morning + 2) row_of_one interleaved refl watermark_before

abbrev store : Store
store = record { policies = (5, policy) ∷ []; max_age = 900 * second; owners = [] }

abbrev entity : QuotaState → Entity
entity s = record { etag = some 1; state = some s }

-- The first write meets a conflict, and the second is done.
abbrev rounds : ℕ → Round
rounds i = record {
  now = morning + 1;
  first = found (entity empty_row);
  create_raises = false;
  second_get = absent;
  write = elim i [ zero ↦ conflict | suc i ↦ written ];
}

abbrev reserves :
    try_reserve_estimate day_of too_large
      (λ id. true)
      store
      morning
      (λ g. absent)
      rounds
      9
      5
      (pos 40)
      (900 * second)
      false
    ≡ returned true ((9, 5) ∷ [])
unfolding try_reserve_estimate reconcile_owners reserve_owned reserve_loop reserve_round read_row
    read_fetched open_state is_valid_state are_valid_records prune pruned prune_records adopt fresh
    decide over_limits admit write_row lookup insert
reserves = refl

try_reserve_estimate-Accounts_example :
    Accounts day_of too_large store morning
      (λ g. absent)
      rounds
      9
      5
      40
      false
      (try_reserve_estimate day_of too_large
        (λ id. true)
        store
        morning
        (λ g. absent)
        rounds
        9
        5
        (pos 40)
        (900 * second)
        false)
try_reserve_estimate-Accounts_example =
    try_reserve_estimate-Accounts day_of too_large (λ id. true) store morning (λ g. absent) rounds 9
      5 40 (900 * second) false

abbrev owning : Store
owning = record store { owners = (9, 5) ∷ [] }

abbrev with_attempt : ℕ → Fetched
with_attempt g = found (entity row_of_one)

abbrev later_rounds : ℕ → Round
later_rounds i = record {
  now = morning + 2;
  first = found (entity row_of_one);
  create_raises = false;
  second_get = absent;
  write = elim i [ zero ↦ conflict | suc i ↦ written ];
}

settles :
    settle_request day_of too_large owning with_attempt later_rounds true none 9 ≡ returned done []
unfolding settle_request owners_of settle_owned settle_loop settle_round read_row read_fetched
    open_state is_valid_state are_valid_records prune pruned prune_records expire adopt fresh find
    settle settle_found release_attempt drop_id write_row lookup insert erase row_of_one admit
settles = refl

settle_request-Settles_example :
    Settles day_of too_large owning with_attempt later_rounds true none 9
      (settle_request day_of too_large owning with_attempt later_rounds true none 9)
settle_request-Settles_example =
    settle_request-Settles day_of too_large owning with_attempt later_rounds true none 9

abbrev free : has_id opened_row.records 8 ≡ false
unfolding pruned prune_records fresh empty_row opened_row
free = refl

describe_shared-quota_can_fit_example :
    quota_can_fit
      (some policy.limits)
      (some (describe_shared day_of too_large 5 policy.limits (morning + 1) opened_row))
      30
    ≡ (not (is_boundary day_of (morning + 1))
        && is_admission (decide day_of policy (morning + 1) 8 30 false opened_row))
unfolding is_unlimited
describe_shared-quota_can_fit_example =
    describe_shared-quota_can_fit day_of too_large policy 5 (morning + 1) 8 30 opened_row refl free
      (omega arith)

-- The fingerprint of a policy tells the ages apart.
abbrev fingerprint_of : ℕ → Limits → ℕ → List (ℕ × ℕ) → ℕ
fingerprint_of g l age members = g + age

abbrev settings : Settings
settings = record {
  limits = (5, policy.limits) ∷ [];
  age = 600 * second;
  backends = (2, some 5) ∷ (1, none) ∷ [];
}

sync_from_settings-Synchronizes_example :
    Synchronizes day_of too_large fingerprint_of settings
      (λ g. rounds)
      owning
      (sync_from_settings day_of too_large fingerprint_of settings morning with_attempt
        (λ g. rounds)
        owning)
sync_from_settings-Synchronizes_example =
    sync_from_settings-Synchronizes day_of too_large fingerprint_of settings morning with_attempt
      (λ g. rounds) owning

-- A round of the run above, with what its write gives.
abbrev round_admits :
    (w : Written) (r : Round)
    → r.now ≡ morning + 1
    → r.first ≡ found (entity empty_row)
    → r.write ≡ w
    → Admits day_of too_large 5 policy 9 40 false w r
unfolding read_row read_fetched write_row
round_admits w r at_now at_first at_write = record {
  inside = rw at_now refl;
  entity = entity empty_row;
  state = opened_row;
  after = row_of_one;
  was_read = rw (read_row, at_first, at_now, read_fetched, opens) refl;
  was_admitted = rw at_now decides;
  ended = at_write;
}

before_second : (j : ℕ) → j < 1 → Admits day_of too_large 5 policy 9 40 false conflict (rounds j)
before_second zero h = round_admits conflict (rounds 0) refl refl refl
before_second (suc j) h = absurd (omega (arith, h))

try_reserve_estimate-grant_example :
    try_reserve_estimate day_of too_large
      (λ id. true)
      store
      morning
      (λ g. absent)
      rounds
      9
      5
      (pos 40)
      (900 * second)
      false
    ≡ returned true ((9, 5) ∷ [])
unfolding reconcile_owners lookup insert
try_reserve_estimate-grant_example =
    try_reserve_estimate-grant day_of too_large (λ id. true) store morning (λ g. absent) rounds 9 5
      40 1 false [] policy refl refl refl refl (omega arith) before_second
      (round_admits written (rounds 1) refl refl refl)

-- Each write meets a conflict.
abbrev conflicting : ℕ → Round
conflicting i = record {
  now = morning + 1;
  first = found (entity empty_row);
  create_raises = false;
  second_get = absent;
  write = conflict;
}

try_reserve_estimate-store_error_example :
    try_reserve_estimate day_of too_large
      (λ id. true)
      store
      morning
      (λ g. absent)
      conflicting
      9
      5
      (pos 40)
      (900 * second)
      false
    ≡ store_error ((9, 5) ∷ [])
unfolding reconcile_owners lookup insert
try_reserve_estimate-store_error_example =
    try_reserve_estimate-store_error day_of too_large (λ id. true) store morning (λ g. absent)
      conflicting 9 5 40 false [] policy refl refl refl refl
      (λ j h. round_admits conflict (conflicting j) refl refl refl)
