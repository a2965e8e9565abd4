-- ===== src/RateLimit/Snapshot.antt =====
-- `snapshot_quota_groups` of `src/foundry_router/ratelimit.py`, with the delay after which a group
-- that is exhausted may be tried again.
pub mod Delay
pub mod Report
mod Tests
use foundry_router.Base.{
  ℕ, ◌+◌, ◌-◌, min, Bool, true, false, ◌&&◌, ◌||◌, Option, none, some, List, [], ◌∷◌, ◌++◌, ltb,
  leb, if◌then◌else◌, sum_by, nat_eq,
}
use foundry_router.Base.Dict.{Dict, lookup, insert}
use foundry_router.RateLimit.{
  Limits, UsageRecord, Store, Instant, Readings, window, requests_of, tokens_of, prune_usage, sweep,
  daily_used,
}
use foundry_router.RateLimit.Limit.{Dimension, rpd, rpm, tpm}

pub record QuotaGroupSnapshot : Type 0 where
  pub quota_group : ℕ
  pub rpm_used_60s : ℕ
  pub input_tpm_used_60s : ℕ
  pub rpd_used : ℕ
  pub remaining_rpm : ℕ
  pub remaining_input_tpm : ℕ
  pub remaining_rpd : ℕ
  pub exhausted : Bool
  pub retry_after_seconds : Option ℕ
  pub configured_limits : List Dimension

-- The loop of `_seconds_until_under_limit`: `current` is what the rest of the deque uses.
pub until_under : (UsageRecord → ℕ) → ℕ → ℕ → ℕ → List UsageRecord → ℕ
until_under field limit now current [] = window
until_under field limit now current (r ∷ rs) =
    let rest = until_under field limit now (current - field r) rs in
    if ltb (current - field r) limit then r.recorded_at_monotonic + window - now else rest

pub seconds_until_under_limit : List UsageRecord → (UsageRecord → ℕ) → ℕ → ℕ → ℕ
seconds_until_under_limit usage field limit now =
    until_under field limit now (sum_by field usage) usage

-- `int(limits.get(dimension, 0))`
abbrev pub limit_or_zero : Option ℕ → ℕ
limit_or_zero none = 0
limit_or_zero (some n) = n

-- `limit > 0 and used >= limit`
abbrev pub is_used_up : ℕ → ℕ → Bool
is_used_up limit used = ltb 0 limit && leb limit used

pub min_delay : List ℕ → Option ℕ
min_delay [] = none
min_delay (d ∷ ds) = elim (min_delay ds) [ none ↦ some d | some e ↦ some (min d e) ]

abbrev pub delay_if : Bool → ℕ → List ℕ
delay_if true d = d ∷ []
delay_if false d = []

abbrev pub name_if : Option ℕ → Dimension → List Dimension
name_if none d = []
name_if (some _) d = d ∷ []

-- `reset_delays`
pub reset_delays : ℕ → ℕ → ℕ → ℕ → List UsageRecord → Instant → List ℕ
reset_delays rpm_limit tpm_limit rpd_limit daily recent now =
    delay_if (is_used_up rpm_limit (requests_of recent))
      (seconds_until_under_limit recent (λ r. r.request_count) rpm_limit now.monotonic)
    ++ (delay_if (is_used_up tpm_limit (tokens_of recent))
          (seconds_until_under_limit recent (λ r. r.input_tokens) tpm_limit now.monotonic)
        ++ delay_if (is_used_up rpd_limit daily) now.until_midnight)

-- The snapshot of a group with these limits, of its pruned deque and its requests of the day.
unfoldable pub describe : ℕ → Limits → List UsageRecord → ℕ → Instant → QuotaGroupSnapshot
describe g l recent daily now = record {
  quota_group = g;
  rpm_used_60s = requests_of recent;
  input_tpm_used_60s = tokens_of recent;
  rpd_used = daily;
  remaining_rpm = limit_or_zero l.rpm - requests_of recent;
  remaining_input_tpm = limit_or_zero l.tpm - tokens_of recent;
  remaining_rpd = limit_or_zero l.rpd - daily;
  exhausted =
      is_used_up (limit_or_zero l.rpm) (requests_of recent)
      || is_used_up (limit_or_zero l.tpm) (tokens_of recent)
      || is_used_up (limit_or_zero l.rpd) daily;
  retry_after_seconds = min_delay (
      reset_delays (limit_or_zero l.rpm) (limit_or_zero l.tpm) (limit_or_zero l.rpd) daily recent
        now);
  configured_limits = name_if l.rpd rpd ++ (name_if l.rpm rpm ++ name_if l.tpm tpm);
}

-- `self._quota_limits.get(quota_group, {})`
abbrev pub limits_of : Store → ℕ → Limits
limits_of s g = elim (lookup g s.quota_limits) [
  | none ↦ record { rpm = none; tpm = none; rpd = none }
  | some l ↦ l
]

-- The loop over the groups, which prunes each deque on its way.
pub snapshot_each :
    Store → Instant → List ℕ → Dict ℕ QuotaGroupSnapshot → Store × Dict ℕ QuotaGroupSnapshot
snapshot_each s now [] out = (s, out)
snapshot_each s now (g ∷ gs) out =
    let (s', recent) = prune_usage s g now.monotonic in
    snapshot_each s' now gs
      (insert g (describe g (limits_of s' g) recent (daily_used s' g now.pacific_date) now) out)

pub snapshot_quota_groups : Store → Readings → List ℕ → Store × Dict ℕ QuotaGroupSnapshot
snapshot_quota_groups s c gs = snapshot_each (sweep s.reservation_max_age c s) c.now gs []
