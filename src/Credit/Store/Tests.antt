-- ===== src/Credit/Store/Tests.antt =====
-- Runs of the credit store of `src/foundry_router/credit.py` on one account.
use foundry_router.Base.{ℕ, ◌+◌, ◌*◌, ◌≤◌, ◌<◌, ◌↔◌, ◌≡◌, refl, true, none, some, [], ◌∷◌, nat_eq}
use foundry_router.Base.Dict.{lookup}
use foundry_router.Credit.Cycle.{Date, Time}
use foundry_router.Credit.Store.{
  Account, Store, Policy, sweep, expired_reservations, release_all, is_assignable, assess,
  available_credit, safety_reserve, resolve_credit_group, try_assign,
}
use foundry_router.Credit.Store.Reserve.{
  AssignedIsCovered, assess-is_assignable_iff, try_assign-IsCovered,
}

abbrev day_count : Date → ℕ
day_count d = ((d.year * 12 + d.month) * 31 + d.day) * 86400

abbrev noon : Time
noon = record {
  date = record { year = 2026; month = 1; day = 15 };
  seconds = ((2026 * 12 + 1) * 31 + 15) * 86400 + 43200;
}

abbrev account : Account
account = record {
  cycle_start_day = 10;
  cycle_allowance = 1000;
  estimated_remaining = 400;
  cycle_start = record { year = 2026; month = 1; day = 10 };
  reserved_inflight = 30;
  debited_total = 600;
  recovered_debit_total = 20;
}

abbrev ten_percent : Policy
ten_percent = record { min_credit_reserve = 50; min_credit_reserve_percent = 10 }

abbrev one_account : Store
one_account = record {
  snapshots = (7, account) ∷ [];
  reservations =
      (
        1,
        record {
          backend_id = 7;
          estimated_cost = 30;
          created_at_monotonic = 500;
          settlement_charge = none;
        },
      )
      ∷ [];
  credit_aliases = (3, 7) ∷ [];
  metered_groups = 7 ∷ [];
}

assess-is_assignable_iff_example :
    (is_assignable (assess day_count noon ten_percent 60 account) ≡ true) ↔ (
      (30 + safety_reserve ten_percent account < 400)
      × (30 + 60 + safety_reserve ten_percent account ≤ 400))
assess-is_assignable_iff_example = assess-is_assignable_iff day_count noon ten_percent 60 account

-- Of 400, 30 are in flight and 100 are kept.
available : available_credit ten_percent account ≡ 270
unfolding available_credit safety_reserve
available = refl

try_assign-IsCovered_example :
    AssignedIsCovered ten_percent
      (resolve_credit_group one_account.credit_aliases 3)
      (try_assign day_count noon 510 511 ten_percent (some 100) 2 3 60 one_account)
unfolding sweep expired_reservations release_all lookup
try_assign-IsCovered_example =
    try_assign-IsCovered day_count noon 510 511 ten_percent (some 100) 2 3 60 one_account
      one_account refl refl
