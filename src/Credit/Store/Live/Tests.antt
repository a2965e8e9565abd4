-- ===== src/Credit/Store/Live/Tests.antt =====
-- A batch of ceilings and a snapshot of `src/foundry_router/credit.py` on one account.
use foundry_router.Base.{ℕ, ◌+◌, ◌*◌, refl, [], ◌∷◌, nat_eq}
use foundry_router.Base.Dict.{Dict, lookup}
use foundry_router.Credit.Cycle.{Date, Time}
use foundry_router.Credit.Store.{Account}
use foundry_router.Credit.Store.Live.{CostCeiling, apply_cost_ceilings}
use foundry_router.Credit.Store.Live.Ceilings.{ceiling_for, IsCeiled, apply_cost_ceilings-IsCeiled}

abbrev day_count : Date → ℕ
day_count d = ((d.year * 12 + d.month) * 31 + d.day) * 86400

abbrev noon : Time
noon = record {
  date = record { year = 2026; month = 1; day = 15 };
  seconds = ((2026 * 12 + 1) * 31 + 15) * 86400 + 43200;
}

abbrev accounts : Dict ℕ Account
accounts =
    (
      7,
      record {
        cycle_start_day = 10;
        cycle_allowance = 1000;
        estimated_remaining = 400;
        cycle_start = record { year = 2026; month = 1; day = 10 };
        reserved_inflight = 30;
        debited_total = 600;
        recovered_debit_total = 20;
      },
    )
    ∷ []

abbrev ceiling : CostCeiling
ceiling = record {
  credit_group = 7;
  remaining = 350;
  cycle_start = record { year = 2026; month = 1; day = 10 };
  cycle_start_day = 10;
  allowance = 1000;
  policy_fingerprint = 99;
}

apply_cost_ceilings-IsCeiled_example :
    IsCeiled day_count noon
      (λ g. 99)
      (ceiling_for 7 (ceiling ∷ []))
      (lookup 7 accounts)
      (lookup 7 (apply_cost_ceilings day_count noon (λ g. 99) (ceiling ∷ []) accounts).1)
unfolding ceiling_for
apply_cost_ceilings-IsCeiled_example =
    apply_cost_ceilings-IsCeiled day_count noon (λ g. 99) (ceiling ∷ []) accounts 7 (refl, tt)
