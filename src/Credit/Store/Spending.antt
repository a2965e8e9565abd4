-- ===== src/Credit/Store/Spending.antt =====
-- What settlements of `src/foundry_router/credit.py` do to the accounts and the reservations.
-- Nothing here depends on exact sums, which the code's floats round.
use foundry_router.Base.{ℕ, ◌-◌, ◌≤◌, ◌≡◌, Bool, true, false, Option, none, some, nat_eq, ◌⊎◌}
use foundry_router.Base.Dict.{lookup}
use foundry_router.Credit.Store.{
  Account, Reservation, Store, Outcome, Finished, finished, returns, raises, invalid_accounting,
}

-- What is charged: the charge of an earlier settlement, else the one that is given, else the cost
-- of the reservation or nothing.
abbrev pub charge_due : Option ℕ → Option ℕ → Bool → ℕ → ℕ
charge_due (some kept) given charge_reserved cost = kept
charge_due none (some given) charge_reserved cost = given
charge_due none none true cost = cost
charge_due none none false cost = 0

-- The account `b` is `a` after a settlement.
abbrev pub IsCharged : ℕ → ℕ → Account → Account → Type 0
IsCharged cost charge a b =
    (b.estimated_remaining ≡ a.estimated_remaining - charge)
    × (b.reserved_inflight ≡ a.reserved_inflight - cost)
    × (a.debited_total ≤ b.debited_total)
    × (b.recovered_debit_total ≡ a.recovered_debit_total)
    × (b.recovered_debit_total ≤ b.debited_total)
    × (b.cycle_allowance ≡ a.cycle_allowance)
    × (b.cycle_start_day ≡ a.cycle_start_day)
    × (b.cycle_start ≡ a.cycle_start)

-- The accounts of one group before and after.
abbrev pub IsChargedIfAny : ℕ → ℕ → Option Account → Option Account → Type 0
IsChargedIfAny cost charge none after = after ≡ none
IsChargedIfAny cost charge (some a) none = ⊥
IsChargedIfAny cost charge (some a) (some b) = IsCharged cost charge a b

abbrev pub KeepsOthers : ℕ → Store → Store → Type 0
KeepsOthers id s t = (h : ℕ) → (id ≡ h) ⊎ (lookup h t.reservations ≡ lookup h s.reservations)

abbrev pub FinalizedFound : ℕ → Reservation → ℕ → Store → Outcome Finished → Type 0
FinalizedFound id r charge s (returns u t) =
    (lookup id t.reservations ≡ none)
    × KeepsOthers id s t
    × IsChargedIfAny r.estimated_cost charge (lookup r.backend_id s.snapshots)
        (lookup r.backend_id t.snapshots)
    × ((g : ℕ) → (r.backend_id ≡ g) ⊎ (lookup g t.snapshots ≡ lookup g s.snapshots))
FinalizedFound id r charge s (raises e t) =
    (e ≡ invalid_accounting)
    × (lookup id t.reservations ≡ some (record r { settlement_charge = some charge }))
    × KeepsOthers id s t
    × (t.snapshots ≡ s.snapshots)

abbrev pub Finalized : ℕ → Bool → Option ℕ → Store → Outcome Finished → Type 0
Finalized id charge_reserved charged s o =
    ((lookup id s.reservations ≡ none) × (o ≡ returns finished s))
    ⊎ ((r : Reservation) × (lookup id s.reservations ≡ some r)
        × FinalizedFound id r
            (charge_due r.settlement_charge charged charge_reserved r.estimated_cost) s o)
