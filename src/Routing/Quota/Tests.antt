-- ===== src/Routing/Quota/Tests.antt =====
-- Runs of `quota_can_fit` of `src/foundry_router/routing/__init__.py`.
use foundry_router.Base.{◌*◌, ◌≡◌, refl, false, none, some, [], ◌∷◌, arith, nat_eq}
use foundry_router.Base.Int.{pos}
use foundry_router.Base.Dict.{lookup}
use foundry_router.RateLimit.{Limits, finite, Store, Instant, second}
use foundry_router.RateLimit.Admission.{admit}
use foundry_router.RateLimit.Snapshot.Report.{report}
use foundry_router.Routing.Quota.{quota_can_fit}
use foundry_router.Routing.Quota.Agreement.{quota_can_fit-admit}

abbrev a_minute : Limits
a_minute = record { rpm = some 2; tpm = some 100; rpd = none }

abbrev busy_group : Store
busy_group = record {
  quota_limits = (7, a_minute) ∷ [];
  usage =
      (
        7,
        record {
          object = 0;
          request_id = some 1;
          recorded_at_monotonic = 490 * second;
          request_count = 1;
          input_tokens = 80;
        }
            ∷ [],
      )
      ∷ [];
  daily_requests = [];
  reservations = [];
  reservation_max_age = finite (pos (900 * second));
  next_object = 1;
}

abbrev midday : Instant
midday = record { monotonic = 500 * second; pacific_date = 20; until_midnight = 43200 * second }

quota_can_fit-admit_example :
    quota_can_fit (some a_minute) (some (report busy_group midday 7)) 30
    ≡ (admit busy_group midday 2 7 30 false).0
unfolding lookup
quota_can_fit-admit_example =
    quota_can_fit-admit busy_group midday 2 7 30 a_minute refl (omega arith)
