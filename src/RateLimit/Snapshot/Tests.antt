-- ===== src/RateLimit/Snapshot/Tests.antt =====
-- Runs of `snapshot_quota_groups` of `src/foundry_router/ratelimit.py` on two records.
use foundry_router.Base.{
  ℕ, ◌+◌, ◌*◌, ◌≤◌, ◌<◌, ◌≡◌, refl, none, some, List, [], ◌∷◌, arith, true, sum_by, nat_eq,
}
use foundry_router.Base.Int.{pos}
use foundry_router.Base.Dict.{lookup}
use foundry_router.RateLimit.{
  UsageRecord, finite, Store, Readings, second, prune, sweep, daily_used,
}
use foundry_router.RateLimit.Frame.{usage_of, Shrinks}
use foundry_router.RateLimit.Snapshot.{
  seconds_until_under_limit, until_under, limits_of, snapshot_quota_groups,
}
use foundry_router.RateLimit.Snapshot.Delay.{seconds_until_under_limit-exact}
use foundry_router.RateLimit.Snapshot.Report.{ReportsIf, snapshot_quota_groups-Reports}

abbrev at_second : ℕ → ℕ → UsageRecord
at_second n tokens = record {
  object = n;
  request_id = none;
  recorded_at_monotonic = n * second;
  request_count = 1;
  input_tokens = tokens;
}

abbrev two_records : List UsageRecord
two_records = at_second 70 40 ∷ at_second 90 60 ∷ []

-- With a limit of 50 tokens, the second record has to leave, 60 seconds after it came.
fifty_seconds :
    seconds_until_under_limit two_records (λ r. r.input_tokens) 50 (100 * second) ≡ 50 * second
unfolding seconds_until_under_limit until_under
fifty_seconds = refl

seconds_until_under_limit-exact_example :
    let recent = prune (100 * second) two_records in
    let delay = seconds_until_under_limit recent (λ r. r.input_tokens) 50 (100 * second) in
    (100 * second + delay < 151 * second
      → sum_by (λ r. r.input_tokens) (prune (151 * second) recent) < 50)
    × (151 * second ≤ 100 * second + delay
        → 50 ≤ sum_by (λ r. r.input_tokens) (prune (151 * second) recent))
unfolding prune
seconds_until_under_limit-exact_example =
    seconds_until_under_limit-exact (λ r. r.input_tokens) 50 (100 * second) (151 * second)
      two_records (omega arith) (((omega arith), tt), (tt, tt)) (omega arith)

abbrev limited : Store
limited = record {
  quota_limits = (7, record { rpm = some 2; tpm = some 50; rpd = none }) ∷ [];
  usage = (7, two_records) ∷ [];
  daily_requests = [];
  reservations = [];
  reservation_max_age = finite (pos (900 * second));
  next_object = 100;
}

abbrev read_at : Readings
read_at = record {
  now = record { monotonic = 100 * second; pacific_date = 20; until_midnight = 43200 * second };
  release_date = λ id. 20;
}

snapshot_quota_groups-Reports_example :
    let t = sweep limited.reservation_max_age read_at limited in
    ReportsIf true 7
      (limits_of t 7)
      (prune read_at.now.monotonic (usage_of t 7))
      (daily_used t 7 read_at.now.pacific_date)
      (lookup 7 (snapshot_quota_groups limited read_at (7 ∷ 8 ∷ [])).1)
    × Shrinks limited (snapshot_quota_groups limited read_at (7 ∷ 8 ∷ [])).0
snapshot_quota_groups-Reports_example = snapshot_quota_groups-Reports limited read_at (7 ∷ 8 ∷ []) 7
