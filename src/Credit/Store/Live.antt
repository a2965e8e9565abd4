-- ===== src/Credit/Store/Live.antt =====
-- `assess_with_context`, `apply_cost_ceilings` and `live_snapshot` of `InMemoryCreditStore` in
-- `src/foundry_router/credit.py`, with `CostCeiling` of
-- `src/foundry_router/reconciliation/cost_types.py`. The fingerprint of the policy of a group, by
-- the settings that were synchronized last, is an argument.
pub mod Ceilings
mod Tests
use foundry_router.Base.{
  ℕ, ◌+◌, ◌-◌, min, Bool, true, false, ◌&&◌, Option, none, some, List, [], ◌∷◌, ltb, ◌==◌, nat_eq,
  if◌then◌else◌,
}
use foundry_router.Base.Dict.{Dict, lookup, insert}
use foundry_router.Credit.Cycle.{Date, Time, CycleWindow, calculate_cycle_window}
use foundry_router.Credit.Store.{
  Account, Reservation, Store, Outcome, returns, then_do, sweep, rollover, Policy, CreditState,
  insufficient_capacity, available_credit, projected_unused, assess, resolve_credit_group,
  account_of,
}

pub record CreditAssessment : Type 0 where
  pub state : CreditState
  pub available_credit : ℕ
  pub projected_unused_credit : ℕ
  pub estimated_request_cost : ℕ
  pub cycle_allowance : ℕ

-- `_assessment`
pub assessment : (Date → ℕ) → Time → Policy → ℕ → Account → CreditAssessment
assessment at now p cost a = record {
  state = assess at now p cost a;
  available_credit = available_credit p a;
  projected_unused_credit = projected_unused a (calculate_cycle_window at now a.cycle_start_day);
  estimated_request_cost = cost;
  cycle_allowance = a.cycle_allowance;
}

-- The part of `assess_with_context` after the sweep.
unfoldable pub assess_swept : (Date → ℕ) → Time → Policy → ℕ → ℕ → Store → Outcome CreditAssessment
assess_swept at now p g cost s = elim (account_of s g) [
  | none ↦
      returns
        (record {
          state = insufficient_capacity;
          available_credit = 0;
          projected_unused_credit = 0;
          estimated_request_cost = cost;
          cycle_allowance = 0;
        })
        s
  | some a ↦
      let a' = rollover at now a in
      returns (assessment at now p cost a') (record s { snapshots = insert g a' s.snapshots })
]

unfoldable pub assess_with_context :
    (Date → ℕ) → Time → ℕ → Policy → Option ℕ → ℕ → ℕ → Store → Outcome CreditAssessment
assess_with_context at now clock p age b cost s =
    then_do (sweep clock age s)
      (assess_swept at now p (resolve_credit_group s.credit_aliases b) cost)

pub record CostCeiling : Type 0 where
  pub credit_group : ℕ
  pub remaining : ℕ
  pub cycle_start : Date
  pub cycle_start_day : ℕ
  pub allowance : ℕ
  pub policy_fingerprint : ℕ

abbrev pub date_beq : Date → Date → Bool
date_beq a b = (a.year == b.year) && (a.month == b.month) && (a.day == b.day)

-- `matches`
pub is_match : (ℕ → ℕ) → CostCeiling → Account → Bool
is_match fingerprint c a =
    (c.policy_fingerprint == fingerprint c.credit_group)
    && date_beq c.cycle_start a.cycle_start
    && (c.cycle_start_day == a.cycle_start_day)
    && (c.allowance == a.cycle_allowance)

-- One ceiling on an account that has rolled over.
unfoldable pub ceiled : (ℕ → ℕ) → CostCeiling → Account → Account
ceiled fingerprint c a =
    if is_match fingerprint c a
    then record a { estimated_remaining = min a.estimated_remaining c.remaining }
    else a

-- `apply_cost_ceilings`: the number of accounts that have been updated, and the accounts.
unfoldable pub apply_cost_ceilings :
    (Date → ℕ) → Time → (ℕ → ℕ) → List CostCeiling → Dict ℕ Account → ℕ × Dict ℕ Account
apply_cost_ceilings at now fingerprint [] d = (0, d)
apply_cost_ceilings at now fingerprint (c ∷ cs) d = elim (lookup c.credit_group d) [
  | none ↦ apply_cost_ceilings at now fingerprint cs d
  | some a ↦
      let a' = rollover at now a in
      let (n, d') =
        apply_cost_ceilings at now fingerprint cs
          (insert c.credit_group (ceiled fingerprint c a') d) in
      (if is_match fingerprint c a' then n + 1 else n, d')
]

-- The number of the reservations of a group, and the time of the oldest.
pub active_reservations : ℕ → Dict ℕ Reservation → ℕ
active_reservations g [] = 0
active_reservations g ((id, r) ∷ d) =
    let rest = active_reservations g d in if r.backend_id == g then rest + 1 else rest

abbrev pub earlier : Option ℕ → ℕ → ℕ
earlier none created = created
earlier (some oldest) created = if ltb created oldest then created else oldest

pub oldest_reservation : ℕ → Option ℕ → Dict ℕ Reservation → Option ℕ
oldest_reservation g oldest [] = oldest
oldest_reservation g oldest ((id, r) ∷ d) =
    oldest_reservation g
      (if r.backend_id == g then some (earlier oldest r.created_at_monotonic) else oldest) d

pub record BackendCreditLiveSnapshot : Type 0 where
  pub assessed : CreditAssessment
  pub reserved_inflight : ℕ
  pub estimated_remaining : ℕ
  pub current_cycle_start : Date
  pub next_reset : Date
  pub reservations : ℕ
  pub oldest_reservation_age : Option ℕ
  pub debited_total : ℕ
  pub recovered_debit_total : ℕ

abbrev pub age_at : ℕ → Option ℕ → Option ℕ
age_at clock none = none
age_at clock (some created) = some (clock - created)

-- The snapshot of an account that has rolled over.
pub describe_account :
    (Date → ℕ) → Time → ℕ → Policy → ℕ → Dict ℕ Reservation → Account → BackendCreditLiveSnapshot
describe_account at now clock p g held a =
    let w = calculate_cycle_window at now a.cycle_start_day in
    record {
      assessed = assessment at now p 0 a;
      reserved_inflight = a.reserved_inflight;
      estimated_remaining = a.estimated_remaining;
      current_cycle_start = w.current_cycle_start;
      next_reset = w.next_reset;
      reservations = active_reservations g held;
      oldest_reservation_age = age_at clock (oldest_reservation g none held);
      debited_total = a.debited_total;
      recovered_debit_total = a.recovered_debit_total;
    }

-- `live_snapshot`, with the snapshots so far.
unfoldable pub live_snapshot :
    (Date → ℕ)
    → Time
    → ℕ
    → Policy
    → List ℕ
    → Dict ℕ BackendCreditLiveSnapshot
    → Store
    → Dict ℕ BackendCreditLiveSnapshot × Store
live_snapshot at now clock p [] out s = (out, s)
live_snapshot at now clock p (b ∷ bs) out s =
    let g = resolve_credit_group s.credit_aliases b in
    elim (lookup g s.snapshots) [
      | none ↦ live_snapshot at now clock p bs out s
      | some a ↦
          let a' = rollover at now a in
          live_snapshot at now clock p bs
            (insert b (describe_account at now clock p g s.reservations a') out)
            (record s { snapshots = insert g a' s.snapshots })
    ]
