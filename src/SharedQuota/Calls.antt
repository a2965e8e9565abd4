-- ===== src/SharedQuota/Calls.antt =====
-- The calls of `AzureTableRateLimitStore` in `src/foundry_router/state/quota.py`, with the answers
-- of the table and the clock as arguments: `env` gives those of each round of a loop. Whether a
-- state is too large to store, and whether a nonempty identifier is short enough, are arguments.
pub mod Ownership
pub mod Report
pub mod Sync
pub mod Progress
mod Tests
use foundry_router.Base.{
  ℕ, zero, suc, ◌+◌, ◌-◌, Bool, true, false, not, ◌&&◌, ◌||◌, Option, none, some, List, [], ◌∷◌,
  ◌++◌, any, length, is_empty, ltb, leb, ◌==◌, nat_eq, if◌then◌else◌, ◌>>=◌,
}
use foundry_router.Base.Int.{ℤ, pos, negsuc}
use foundry_router.Base.Dict.{Dict, lookup, insert, erase}
use foundry_router.RateLimit.{Limits, second}
use foundry_router.RateLimit.Limit.{rpd, rpm, tpm}
use foundry_router.RateLimit.Snapshot.{QuotaGroupSnapshot, limit_or_zero, name_if}
use foundry_router.SharedQuota.{
  Attempt, QuotaState, Policy, Decision, duplicate, refused, admitted, max_records, has_id,
  is_valid_state, fresh, prune, open_state, is_boundary, decide, settle, requests_used, tokens_used,
  used_on,
}

abbrev pub max_owners : ℕ
max_owners = 4096

abbrev pub max_conflicts : ℕ
max_conflicts = 8

-- A row as the table gives it; none is a text that is no state, or a missing ETag.
pub record Entity : Type 0 where
  pub etag : Option ℕ
  pub state : Option QuotaState

pub data Fetched : Type 0 where
  get_raises absent : Fetched
  found : Entity → Fetched

pub data Written : Type 0 where
  write_raises conflict written : Written

-- The answers of one round: the time, the row, the row after it has been created, and the write.
pub record Round : Type 0 where
  pub now : ℕ
  pub first : Fetched
  pub create_raises : Bool
  pub second_get : Fetched
  pub write : Written

-- `owners` are the attempts that this replica has under way, or is not sure of.
pub record Store : Type 0 where
  pub policies : Dict ℕ Policy
  pub max_age : ℕ
  pub owners : Dict ℕ ℕ

-- The result of a call, with the owners that it leaves.
pub data Outcome {ℓ} (A : Type ℓ) : Type ℓ where
  value_error : Outcome A
  store_error : Dict ℕ ℕ → Outcome A
  returned : A → Dict ℕ ℕ → Outcome A

pub data Done : Type 0 where
  done : Done

-- The end of a loop over rounds.
pub data Verdict : Type 0 where
  failed refusal grant : Verdict

-- `used[d] >= limit` for a limit that is configured.
abbrev pub reaches : Option ℕ → ℕ → Bool
reaches none used = false
reaches (some limit) used = leb limit used

module _ (day_of : ℕ → ℕ) (too_large : QuotaState → Bool) where
  abbrev pub open_entity : ℕ → Policy → ℕ → Entity → Option (Entity × QuotaState)
  open_entity group p now e = do s ← e.state; t ← open_state day_of group p now s; some (e, t)

  abbrev pub open_second : ℕ → Policy → ℕ → Fetched → Option (Entity × QuotaState)
  open_second group p now get_raises = none
  open_second group p now absent = none
  open_second group p now (found e) = open_entity group p now e

  pub read_fetched : ℕ → Policy → Round → Fetched → Option (Entity × QuotaState)
  read_fetched group p r get_raises = none
  read_fetched group p r (found e) = open_entity group p r.now e
  read_fetched group p r absent =
      if too_large (fresh day_of group p r.now) || r.create_raises
      then none
      else open_second group p r.now r.second_get

  -- `_read`; none is an exception.
  pub read_row : ℕ → Policy → Round → Option (Entity × QuotaState)
  read_row group p r = read_fetched group p r r.first

  -- `_write`
  pub write_row : Entity → QuotaState → Written → Written
  write_row e t w = elim e.etag [
    | none ↦ write_raises
    | some v ↦ if too_large t then write_raises else w
  ]

  abbrev pub after_write : Written → Verdict → Verdict
  after_write write_raises rest = failed
  after_write written rest = grant
  after_write conflict rest = rest

  abbrev pub after_decision : Entity → Written → Verdict → Decision → Verdict
  after_decision e w rest duplicate = failed
  after_decision e w rest refused = refusal
  after_decision e w rest (admitted t) = after_write (write_row e t w) rest

  -- One round of the loop of `try_reserve_estimate`.
  pub reserve_round : ℕ → Policy → ℕ → ℕ → Bool → Round → Verdict → Verdict
  reserve_round group p id tokens over r rest =
      if is_boundary day_of r.now then refusal else elim (read_row group p r) [
        | none ↦ failed
        | some (e, s) ↦ after_decision e r.write rest (decide day_of p r.now id tokens over s)
      ]

  -- The loop with the rounds that are left.
  pub reserve_loop : ℕ → ℕ → Policy → ℕ → ℕ → Bool → (ℕ → Round) → ℕ → Verdict
  reserve_loop zero group p id tokens over env i = failed
  reserve_loop (suc n) group p id tokens over env i =
      reserve_round group p id tokens over (env i)
        (reserve_loop n group p id tokens over env (suc i))

  -- The identifiers of the attempts that are pending in the rows of the groups.
  abbrev pub pending_of : List Attempt → List ℕ
  pending_of [] = []
  pending_of (r ∷ rs) = let rest = pending_of rs in if r.pending then r.id ∷ rest else rest

  abbrev pub pending_in : ℕ → ℕ → Fetched → Option (List ℕ)
  pending_in group now get_raises = none
  pending_in group now absent = some []
  pending_in group now (found e) = do
    s ← e.state
    t ← (if is_valid_state group s then prune day_of now s else none)
    some (pending_of t.records)

  pub pending_ids : Dict ℕ Policy → ℕ → (ℕ → Fetched) → Option (List ℕ)
  pending_ids [] now get = some []
  pending_ids ((g, p) ∷ d) now get = do
    ids ← pending_in g now (get g)
    rest ← pending_ids d now get
    some (ids ++ rest)

  abbrev pub keep_owners : List ℕ → Dict ℕ ℕ → Dict ℕ ℕ
  keep_owners ids [] = []
  keep_owners ids ((id, g) ∷ d) =
      let rest = keep_owners ids d in if any (λ x. x == id) ids then (id, g) ∷ rest else rest

  -- `_reconcile_owners`
  pub reconcile_owners : Store → ℕ → (ℕ → Fetched) → Option (Dict ℕ ℕ)
  reconcile_owners s now get =
      if is_empty s.owners then some [] else elim (pending_ids s.policies now get) [
        | none ↦ none
        | some ids ↦ some (keep_owners ids s.owners)
      ]

  abbrev pub is_owned : ℕ → Dict ℕ ℕ → Bool
  is_owned id owners = elim (lookup id owners) [ none ↦ false | some g ↦ true ]

  -- The owners after a reservation: an attempt that is not surely absent stays.
  abbrev pub after_reserve : ℕ → ℕ → Dict ℕ ℕ → Verdict → Outcome Bool
  after_reserve id g owners failed = store_error (insert id g owners)
  after_reserve id g owners refusal = returned false (erase id (insert id g owners))
  after_reserve id g owners grant = returned true (insert id g owners)

  -- The part of `try_reserve_estimate` under the lock, with the owners that have been reconciled.
  pub reserve_owned : Store → ℕ → ℕ → ℕ → Bool → (ℕ → Round) → Dict ℕ ℕ → Outcome Bool
  reserve_owned s id g tokens over env owners = elim (lookup g s.policies) [
    | none ↦ store_error owners
    | some p ↦
        if leb max_owners (length owners) || is_owned id owners
        then store_error owners
        else after_reserve id g owners (reserve_loop max_conflicts g p id tokens over env 0)
  ]

  pub try_reserve_estimate :
      (ℕ → Bool) → Store → ℕ → (ℕ → Fetched) → (ℕ → Round) → ℕ → ℕ → ℤ → ℕ → Bool → Outcome Bool
  try_reserve_estimate named s now get env id g (negsuc n) age over = value_error
  try_reserve_estimate named s now get env id g (pos n) age over =
      if not (named id)
      then value_error
      else (if not (age == s.max_age)
          then store_error s.owners
          else elim (reconcile_owners s now get) [
            | none ↦ store_error s.owners
            | some owners ↦ reserve_owned s id g n over env owners
          ])

  -- One round of `_settle`.
  pub settle_round : Bool → Option ℕ → ℕ → ℕ → Policy → Round → Verdict → Verdict
  settle_round release actual id group p r rest = elim (read_row group p r) [
    | none ↦ failed
    | some (e, s) ↦ elim (settle release actual id s) [
      | none ↦ failed
      | some t ↦ after_write (write_row e t r.write) rest
    ]
  ]

  pub settle_loop : ℕ → Bool → Option ℕ → ℕ → ℕ → Policy → (ℕ → Round) → ℕ → Verdict
  settle_loop zero release actual id group p env i = failed
  settle_loop (suc n) release actual id group p env i =
      settle_round release actual id group p (env i)
        (settle_loop n release actual id group p env (suc i))

  abbrev pub holds_id : ℕ → ℕ → Fetched → Option Bool
  holds_id group id get_raises = none
  holds_id group id absent = some false
  holds_id group id (found e) = do
    s ← e.state
    if is_valid_state group s then some (has_id s.records id) else none

  -- The groups whose row has the attempt.
  pub owners_of : Dict ℕ Policy → ℕ → (ℕ → Fetched) → Option (List (ℕ × Policy))
  owners_of [] id get = some []
  owners_of ((g, p) ∷ d) id get = do
    here ← holds_id g id (get g)
    rest ← owners_of d id get
    some (if here then (g, p) ∷ rest else rest)

  abbrev pub after_settle : ℕ → ℕ → Dict ℕ ℕ → Verdict → Outcome Done
  after_settle id g owners failed = store_error (insert id g owners)
  after_settle id g owners refusal = store_error (insert id g owners)
  after_settle id g owners grant = returned done (erase id (insert id g owners))

  -- `_settle` on the groups that have been found.
  pub settle_owned : Store → Bool → Option ℕ → ℕ → (ℕ → Round) → List (ℕ × Policy) → Outcome Done
  settle_owned s release actual id env [] = returned done (erase id s.owners)
  settle_owned s release actual id env ((g, p) ∷ []) =
      after_settle id g s.owners (settle_loop max_conflicts release actual id g p env 0)
  settle_owned s release actual id env ((g, p) ∷ h ∷ gs) = store_error s.owners

  pub settle_request : Store → (ℕ → Fetched) → (ℕ → Round) → Bool → Option ℕ → ℕ → Outcome Done
  settle_request s get env release actual id = elim (owners_of s.policies id get) [
    | none ↦ store_error s.owners
    | some gs ↦ settle_owned s release actual id env gs
  ]

  pub finalize_request : Store → (ℕ → Fetched) → (ℕ → Round) → ℕ → Option ℤ → Outcome Done
  finalize_request s get env id none = settle_request s get env false none id
  finalize_request s get env id (some (pos n)) = settle_request s get env false (some n) id
  finalize_request s get env id (some (negsuc n)) = value_error

  pub release_request : Store → (ℕ → Fetched) → (ℕ → Round) → ℕ → Outcome Done
  release_request s get env id = settle_request s get env true none id

  -- The loop that reads a row and writes it back; the time and the state of the round that did.
  pub touch_loop : ℕ → ℕ → Policy → (ℕ → Round) → ℕ → Option (ℕ × QuotaState)
  touch_loop zero group p env i = none
  touch_loop (suc n) group p env i = elim (read_row group p (env i)) [
    | none ↦ none
    | some (e, s) ↦ elim (write_row e s (env i).write) [
      | write_raises ↦ none
      | written ↦ some ((env i).now, s)
      | conflict ↦ touch_loop n group p env (suc i)
    ]
  ]

  -- The snapshot of a group.
  pub describe_shared : ℕ → Limits → ℕ → QuotaState → QuotaGroupSnapshot
  describe_shared g l now s =
      let exhausted =
        is_boundary day_of now
        || leb max_records (length s.records)
        || reaches l.rpm (requests_used now s.records)
        || reaches l.tpm (tokens_used now s.records)
        || reaches l.rpd (used_on s.daily (day_of now)) in
      record {
        quota_group = g;
        rpm_used_60s = requests_used now s.records;
        input_tpm_used_60s = tokens_used now s.records;
        rpd_used = used_on s.daily (day_of now);
        remaining_rpm = limit_or_zero l.rpm - requests_used now s.records;
        remaining_input_tpm = limit_or_zero l.tpm - tokens_used now s.records;
        remaining_rpd = limit_or_zero l.rpd - used_on s.daily (day_of now);
        exhausted = exhausted;
        retry_after_seconds = if exhausted then some 10000000000 else none;
        configured_limits = name_if l.rpd rpd ++ (name_if l.rpm rpm ++ name_if l.tpm tpm);
      }

  -- `snapshot_quota_groups`; `env` gives the rounds of each group in the list. None is a
  -- `QuotaStoreError`.
  pub snapshot_quota_groups :
      Store
      → (ℕ → ℕ → Round)
      → List ℕ
      → Dict ℕ QuotaGroupSnapshot
      → Option (Dict ℕ QuotaGroupSnapshot)
  snapshot_quota_groups s env [] out = some out
  snapshot_quota_groups s env (g ∷ gs) out = do
    p ← lookup g s.policies
    seen ← touch_loop max_conflicts g p (env (length gs)) 0
    snapshot_quota_groups s env gs (insert g (describe_shared g p.limits seen.0 seen.1) out)
