-- ===== src/Credit/Store/Sync/Tests.antt =====
-- A synchronization of `src/foundry_router/credit.py` with one account that is there and a new one.
use foundry_router.Base.{ℕ, ◌+◌, ◌*◌, ◌≡◌, refl, true, false, none, some, [], ◌∷◌, nat_eq}
use foundry_router.Base.Dict.{lookup, insert}
use foundry_router.Credit.Cycle.{Date, Time}
use foundry_router.Credit.Store.{Account, Store, raises, pending_reservations}
use foundry_router.Credit.Store.Sync.{
  CreditSettings, sync_from_settings, credit_membership, membership_loop, metered_of,
  are_same_aliases, are_same_groups,
}
use foundry_router.Credit.Store.Sync.Keeps.{Syncs, sync_from_settings-Syncs}

abbrev day_count : Date → ℕ
day_count d = ((d.year * 12 + d.month) * 31 + d.day) * 86400

abbrev noon : Time
noon = record {
  date = record { year = 2026; month = 1; day = 15 };
  seconds = ((2026 * 12 + 1) * 31 + 15) * 86400 + 43200;
}

abbrev settings : CreditSettings
settings = record {
  backends =
      (3, record { credit_group = some 7; credit_metered = true })
      ∷ (4, record { credit_group = none; credit_metered = true })
      ∷ [];
  cycle_allowance = (7, some 1500) ∷ (4, some 100) ∷ [];
  initial_remaining = (7, some 1500) ∷ (4, some 300) ∷ [];
  cycle_start_day = (7, 12) ∷ (4, 1) ∷ [];
}

abbrev account : Account
account = record {
  cycle_start_day = 10;
  cycle_allowance = 1000;
  estimated_remaining = 400;
  cycle_start = record { year = 2026; month = 1; day = 10 };
  reserved_inflight = 30;
  debited_total = 600;
  recovered_debit_total = 20;
}

-- The account with one reservation, under other aliases.
abbrev before : Store
before = record {
  snapshots = (7, account) ∷ [];
  reservations =
      (
        1,
        record {
          backend_id = 7;
          estimated_cost = 30;
          created_at_monotonic = 500;
          settlement_charge = none;
        },
      )
      ∷ [];
  credit_aliases = (3, 7) ∷ [];
  metered_groups = 7 ∷ [];
}

new_membership_waits :
    sync_from_settings (λ g. true) day_count noon settings false before
    ≡ raises pending_reservations before
unfolding sync_from_settings credit_membership membership_loop metered_of are_same_aliases
    are_same_groups lookup insert
new_membership_waits = refl

abbrev drained : Store
drained = record before { reservations = [] }

sync_from_settings-Syncs_example :
    Syncs drained (sync_from_settings (λ g. true) day_count noon settings false drained)
sync_from_settings-Syncs_example =
    sync_from_settings-Syncs (λ g. true) day_count noon settings false drained
