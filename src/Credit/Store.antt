-- ===== src/Credit/Store.antt =====
-- `InMemoryCreditStore` of `src/foundry_router/credit.py`. Each method holds the store's lock for
-- its whole body. The costs and charges that its callers give are not negative; a charge that is
-- not a finite amount is none.
pub mod Spending
pub mod Reserve
pub mod Sync
pub mod Live
mod Tests
use foundry_router.Base.{
  ℕ, ◌+◌, ◌-◌, ◌*◌, ◌/◌, ◌^◌, min, max, Bool, true, false, ◌&&◌, ◌||◌, Option, none, some, List, [],
  ◌∷◌, any, ltb, leb, ◌==◌, nat_eq, if◌then◌else◌,
}
use foundry_router.Base.Dict.{Dict, lookup, insert, erase}
use foundry_router.Credit.Cycle.{Date, Time, CycleWindow, calculate_cycle_window}

pub record Account : Type 0 where
  pub cycle_start_day : ℕ
  pub cycle_allowance : ℕ
  pub estimated_remaining : ℕ
  pub cycle_start : Date
  pub reserved_inflight : ℕ
  pub debited_total : ℕ
  pub recovered_debit_total : ℕ

pub record Reservation : Type 0 where
  pub backend_id : ℕ
  pub estimated_cost : ℕ
  pub created_at_monotonic : ℕ
  pub settlement_charge : Option ℕ

pub record Store : Type 0 where
  pub snapshots : Dict ℕ Account
  pub reservations : Dict ℕ Reservation
  pub credit_aliases : Dict ℕ ℕ
  pub metered_groups : List ℕ

pub data Error : Type 0 where
  invalid_accounting account_changed invalid_membership pending_reservations : Error

-- A call returns or raises, and either way leaves a state.
pub data Outcome {ℓ} (A : Type ℓ) : Type ℓ where
  returns : A → Store → Outcome A
  raises : Error → Store → Outcome A

-- A call with no result returns None.
pub data Finished : Type 0 where
  finished : Finished

pub then_do {ℓ} : {A : Type ℓ} → Outcome Finished → (Store → Outcome A) → Outcome A
then_do (returns u s) f = f s
then_do (raises e s) f = raises e s

-- The largest float that is finite.
pub max_amount : ℕ
max_amount = 2 ^ 1024 - 2 ^ 971

-- What remains, and the totals, after a charge; none is one of the two exceptions.
pub accumulate_credit_debit : ℕ → ℕ → ℕ → ℕ → Bool → Option (ℕ × ℕ × ℕ)
accumulate_credit_debit remaining total recovered_total charge recovered =
    let new_remaining = remaining - charge in
    let debit = remaining - new_remaining in
    let new_total = total + debit in
    let new_recovered = recovered_total + (if recovered then debit else 0) in
    if ltb total recovered_total || ltb max_amount new_total || ltb max_amount new_recovered
    then none
    else some (new_remaining, new_total, new_recovered)

abbrev pub charge_of : Bool → Option ℕ → ℕ → ℕ
charge_of charge_reserved (some charged) estimated = charged
charge_of charge_reserved none estimated = if charge_reserved then estimated else 0

abbrev pub drop_reservation : ℕ → Store → Store
drop_reservation id s = record s { reservations = erase id s.reservations }

-- The account after the charge for a reservation.
pub charged_account : Account → ℕ → ℕ → Bool → Option Account
unfolding accumulate_credit_debit
charged_account a cost charge recovered =
    elim (accumulate_credit_debit a.estimated_remaining a.debited_total a.recovered_debit_total
      charge recovered) [
        | none ↦ none
        | some (remaining, total, recovered_total) ↦ some (record a {
          reserved_inflight = a.reserved_inflight - cost;
          estimated_remaining = remaining;
          debited_total = total;
          recovered_debit_total = recovered_total;
        })
      ]

-- The account that was found, with its charge, is written before the reservation goes.
pub release_charged : ℕ → ℕ → Option Account → Store → Outcome Finished
release_charged id g none s = raises invalid_accounting s
release_charged id g (some a) s =
    returns finished (drop_reservation id (record s { snapshots = insert g a s.snapshots }))

-- `_release_locked`
pub release_locked : ℕ → Reservation → Bool → Option ℕ → Bool → Store → Outcome Finished
release_locked id r charge_reserved charged recovered s = elim (lookup r.backend_id s.snapshots) [
  | none ↦ returns finished (drop_reservation id s)
  | some a ↦
      release_charged id r.backend_id
        (charged_account a r.estimated_cost (charge_of charge_reserved charged r.estimated_cost)
          recovered)
        s
]

-- The reservations older than a maximal age, which is none where it is not finite.
pub expired_reservations : ℕ → Option ℕ → Dict ℕ Reservation → Dict ℕ Reservation
expired_reservations now none d = []
expired_reservations now (some age) [] = []
expired_reservations now (some age) ((id, r) ∷ d) =
    let rest = expired_reservations now (some age) d in
    if ltb (r.created_at_monotonic + age) now then (id, r) ∷ rest else rest

pub release_all : Dict ℕ Reservation → Store → Outcome Finished
unfolding then_do
release_all [] s = returns finished s
release_all ((id, r) ∷ d) s =
    then_do (release_locked id r true r.settlement_charge true s) (release_all d)

-- `_sweep_expired_reservations_locked`
pub sweep : ℕ → Option ℕ → Store → Outcome Finished
sweep now age s = release_all (expired_reservations now age s.reservations) s

-- The charge that a reservation keeps from its first settlement.
abbrev pub settled : Reservation → Bool → Option ℕ → ℕ
settled r charge_reserved charged = elim r.settlement_charge [
  | some kept ↦ kept
  | none ↦ charge_of charge_reserved charged r.estimated_cost
]

pub finalize_request : ℕ → Bool → Option ℕ → Store → Outcome Finished
finalize_request id charge_reserved charged s = elim (lookup id s.reservations) [
  | none ↦ returns finished s
  | some r ↦
      let charge = settled r charge_reserved charged in
      let kept : Reservation = record r { settlement_charge = some charge } in
      release_locked id kept charge_reserved (some charge) false
        (record s { reservations = insert id kept s.reservations })
]

-- The order of dates.
abbrev pub date_ltb : Date → Date → Bool
date_ltb a b =
    ltb a.year b.year
    || ((a.year == b.year) && (ltb a.month b.month || ((a.month == b.month) && ltb a.day b.day)))

-- `_rollover_if_needed`
pub rollover : (Date → ℕ) → Time → Account → Account
rollover at now a =
    let cycle = calculate_cycle_window at now a.cycle_start_day in
    if date_ltb a.cycle_start cycle.current_cycle_start
    then record a {
      cycle_start = cycle.current_cycle_start;
      estimated_remaining = a.cycle_allowance;
    }
    else a

pub data CreditState : Type 0 where
  usable conservation protected insufficient_capacity : CreditState

pub record Policy : Type 0 where
  pub min_credit_reserve : ℕ
  pub min_credit_reserve_percent : ℕ

-- A product with a percentage is rounded down.
pub safety_reserve : Policy → Account → ℕ
safety_reserve p a =
    max p.min_credit_reserve (a.cycle_allowance * p.min_credit_reserve_percent / 100)

pub available_credit : Policy → Account → ℕ
available_credit p a = a.estimated_remaining - a.reserved_inflight - safety_reserve p a

-- What the account keeps at the end of the cycle, if it goes on as on its days so far; a day's
-- part is rounded down.
pub projected_unused : Account → CycleWindow → ℕ
projected_unused a w =
    a.estimated_remaining
    - (a.cycle_allowance - a.estimated_remaining) / max 1 w.days_elapsed * w.days_remaining

-- The state of `_assessment`.
pub assess : (Date → ℕ) → Time → Policy → ℕ → Account → CreditState
assess at now p cost a =
    let w = calculate_cycle_window at now a.cycle_start_day in
    if leb (available_credit p a) 0
    then protected
    else (if ltb (available_credit p a) cost
        then insufficient_capacity
        else (if leb w.days_remaining 3 && ltb (a.cycle_allowance) (projected_unused a w * 20)
            then conservation
            else usable))

abbrev pub is_assignable : CreditState → Bool
is_assignable usable = true
is_assignable conservation = true
is_assignable protected = false
is_assignable insufficient_capacity = false

-- The request gets its cost of the account, which has rolled over, if its state allows it.
pub assign : (Date → ℕ) → Time → ℕ → Policy → ℕ → ℕ → ℕ → Account → Store → Outcome Bool
assign at now created p id g cost a s =
    if is_assignable (assess at now p cost a)
    then returns true (record s {
      snapshots =
          insert g (record a { reserved_inflight = a.reserved_inflight + cost }) s.snapshots;
      reservations =
          insert id
            (record {
              backend_id = g;
              estimated_cost = cost;
              created_at_monotonic = created;
              settlement_charge = none;
            })
            s.reservations;
    })
    else returns false (record s { snapshots = insert g a s.snapshots })

-- `resolve_credit_group`
unfoldable pub resolve_credit_group : Dict ℕ ℕ → ℕ → ℕ
resolve_credit_group aliases b = elim (lookup b aliases) [ none ↦ b | some g ↦ g ]

abbrev pub account_of : Store → ℕ → Option Account
account_of s g = if any (λ h. h == g) s.metered_groups then lookup g s.snapshots else none

-- The part of `try_assign_with_context` after the sweep.
pub try_assign_swept : (Date → ℕ) → Time → ℕ → Policy → ℕ → ℕ → ℕ → Store → Outcome Bool
try_assign_swept at now created p id g cost s = elim (lookup id s.reservations) [
  | some r ↦ if r.backend_id == g then returns true s else raises account_changed s
  | none ↦ elim (account_of s g) [
    | none ↦ returns false s
    | some a ↦ assign at now created p id g cost (rollover at now a) s
  ]
]

-- `try_assign_with_context`; the clock is read in the sweep and when the reservation is made.
pub try_assign : (Date → ℕ) → Time → ℕ → ℕ → Policy → Option ℕ → ℕ → ℕ → ℕ → Store → Outcome Bool
try_assign at now clock created p age id b cost s =
    let g = resolve_credit_group s.credit_aliases b in
    then_do (sweep clock age s) (try_assign_swept at now created p id g cost)

-- `apply_reconciled_remaining`, on the amounts of the groups: the state and the number of accounts
-- that have been updated.
pub apply_reconciled_remaining : (Date → ℕ) → Time → Dict ℕ ℕ → Store → ℕ × Store
apply_reconciled_remaining at now [] s = (0, s)
apply_reconciled_remaining at now ((g, amount) ∷ d) s = elim (lookup g s.snapshots) [
  | none ↦ apply_reconciled_remaining at now d s
  | some a ↦
      let a' = rollover at now a in
      let a'' = record a' { estimated_remaining = min a'.cycle_allowance amount } in
      let (n, t) =
        apply_reconciled_remaining at now d (record s { snapshots = insert g a'' s.snapshots }) in
      (n + 1, t)
]

pub reset : Store → Store
reset s = record { snapshots = []; reservations = []; credit_aliases = []; metered_groups = [] }
