-- ===== src/RateLimit/Snapshot/Report.antt =====
-- What a snapshot says of each group that it was asked for, and what it changes.
use foundry_router.Base.{
  ℕ, ◌≡◌, ◌≢◌, ◌↔◌, refl, ap, Bool, true, false, ◌||◌, Option, none, some, List, [], ◌∷◌, ◌++◌,
  arith, ◌==◌, nat_eq, nat_beq_iff, if◌then◌else◌, any, Bool-cases, inl, inr, ◌-◌, ◌<◌, ◌≤◌, ◌⊎◌,
  sym, sum_by,
}
use mathlib.Core.Path.{subst}
use foundry_router.Base.Dict.{Dict, lookup, insert, lookup-insert}
use foundry_router.RateLimit.{
  Limits, UsageRecord, Store, Instant, Readings, requests_of, tokens_of, prune, prune_usage, sweep,
  daily_used,
}
use foundry_router.RateLimit.Frame.{
  usage_of, prune_usage-list, prune_usage-usage, prune_usage-rest, prune_usage-Shrinks, Shrinks,
  Shrinks-refl, Shrinks-trans, sweep-Shrinks,
}
use foundry_router.RateLimit.Snapshot.{
  QuotaGroupSnapshot, limit_or_zero, is_used_up, min_delay, delay_if, reset_delays, describe,
  limits_of, snapshot_each, snapshot_quota_groups,
}

min_delay-none : (ds : List ℕ) → (min_delay ds ≡ none) ↔ (ds ≡ [])
unfolding min_delay
min_delay-none [] = (λ h. refl, λ h. refl)
min_delay-none (d ∷ ds) = (λ h. ground arith, λ h. cc)

reset_delays-nil :
    (rpm tpm rpd daily : ℕ) (recent : List UsageRecord) (now : Instant)
    → (reset_delays rpm tpm rpd daily recent now ≡ []) ↔ (
        is_used_up rpm (requests_of recent)
          || is_used_up tpm (tokens_of recent)
          || is_used_up rpd daily
        ≡ false)
unfolding reset_delays
reset_delays-nil rpm tpm rpd daily recent now =
    (delays (is_used_up rpm (requests_of recent)) (is_used_up tpm (tokens_of recent))
      (is_used_up rpd daily) _ _ _)
  where
    delays :
        (a b c : Bool) (x y z : ℕ)
        → (delay_if a x ++ (delay_if b y ++ delay_if c z) ≡ []) ↔ (a || b || c ≡ false)
    delays a b c x y z = (λ h. ground arith, λ h. ground arith)

-- A snapshot is exhausted exactly if it names a time to wait.
pub describe-retry_after :
    (g : ℕ) (l : Limits) (recent : List UsageRecord) (daily : ℕ) (now : Instant)
    → ((describe g l recent daily now).exhausted ≡ true)
      ↔ ((describe g l recent daily now).retry_after_seconds ≢ none)
unfolding describe
describe-retry_after g l recent daily now =
    let rpm = limit_or_zero l.rpm in
    let tpm = limit_or_zero l.tpm in
    let rpd = limit_or_zero l.rpd in
    let delays = reset_delays rpm tpm rpd daily recent now in
    let (to_nil, from_nil) = min_delay-none delays in
    let (to_idle, from_idle) = reset_delays-nil rpm tpm rpd daily recent now in
    (λ up e. cc (to_idle (to_nil e)), λ some_delay. ground (arith, some_delay, from_nil, from_idle))

prune-prune : (now : ℕ) (rs : List UsageRecord) → prune now (prune now rs) ≡ prune now rs
unfolding prune
prune-prune now [] = refl
prune-prune now (r ∷ rs) = ground (arith, prune-prune now rs)

-- The snapshot of a group as the state gives it.
abbrev pub report : Store → Instant → ℕ → QuotaGroupSnapshot
report s now g =
    describe g (limits_of s g) (prune now.monotonic (usage_of s g))
      (daily_used s g now.pacific_date) now

-- Pruning a group's deque changes nothing that a snapshot at the same time says of any group.
prune_usage-limits_of :
    (s : Store) (h now g : ℕ) → limits_of (prune_usage s h now).0 g ≡ limits_of s g
prune_usage-limits_of s h now g = ground (arith, (prune_usage-rest s h now).0)

prune_usage-recent :
    (s : Store) (h now g : ℕ)
    → prune now (usage_of (prune_usage s h now).0 g) ≡ prune now (usage_of s g)
prune_usage-recent s h now g =
    rw (prune_usage-usage s h now g)
      (ground (arith, nat_beq_iff h g, prune-prune now (usage_of s g)))

prune_usage-daily_used :
    (s : Store) (h now g today : ℕ)
    → daily_used (prune_usage s h now).0 g today ≡ daily_used s g today
unfolding daily_used
prune_usage-daily_used s h now g today = ground (arith, (prune_usage-rest s h now).1)

report-prune :
    (s : Store) (now : Instant) (h g : ℕ)
    → report (prune_usage s h now.monotonic).0 now g ≡ report s now g
report-prune s now h g = λ i.
    describe g (prune_usage-limits_of s h now.monotonic g i)
      (prune_usage-recent s h now.monotonic g i)
      (prune_usage-daily_used s h now.monotonic g now.pacific_date i) now

pub snapshot_each-Shrinks :
    (s : Store) (now : Instant) (gs : List ℕ) (out : Dict ℕ QuotaGroupSnapshot)
    → Shrinks s (snapshot_each s now gs out).0
unfolding snapshot_each
snapshot_each-Shrinks s now [] out = Shrinks-refl s
snapshot_each-Shrinks s now (g ∷ gs) out = Shrinks-trans (prune_usage-Shrinks s g now.monotonic) (
    snapshot_each-Shrinks (prune_usage s g now.monotonic).0 now gs (
      insert g
        (describe g (limits_of (prune_usage s g now.monotonic).0 g)
          (prune_usage s g now.monotonic).1
          (daily_used (prune_usage s g now.monotonic).0 g now.pacific_date) now)
        out))

-- What the loop says of a group is its report.
said-report :
    (s : Store) (now : Instant) (h : ℕ)
    → describe h
        (limits_of (prune_usage s h now.monotonic).0 h)
        (prune_usage s h now.monotonic).1
        (daily_used (prune_usage s h now.monotonic).0 h now.pacific_date)
        now
      ≡ report s now h
said-report s now h = λ i.
    describe h (prune_usage-limits_of s h now.monotonic h i) (prune_usage-list s h now.monotonic i)
      (prune_usage-daily_used s h now.monotonic h now.pacific_date i) now

if-or {ℓ} :
    {A : Type ℓ} (p q : Bool) (x y : A)
    → (if p then x else (if q then x else y)) ≡ (if q || p then x else y)
if-or true true x y = refl
if-or true false x y = refl
if-or false true x y = refl
if-or false false x y = refl

if-report :
    (s : Store) (now : Instant) (h g : ℕ) (x : Option QuotaGroupSnapshot)
    → (if h == g then some (report s now h) else x) ≡ (if h == g then some (report s now g) else x)
if-report s now h g x = elim (Bool-cases (h == g)) [
  | inl e ↦ rw e (ap (λ k. some (report s now k)) ((nat_beq_iff h g).0 e))
  | inr e ↦ rw e
]

pub lookup-snapshot_each :
    (s : Store) (now : Instant) (gs : List ℕ) (out : Dict ℕ QuotaGroupSnapshot) (g : ℕ)
    → lookup g (snapshot_each s now gs out).1
      ≡ (if any (λ h. h == g) gs then some (report s now g) else lookup g out)
unfolding snapshot_each
lookup-snapshot_each s now [] out g = refl
lookup-snapshot_each s now (h ∷ gs) out g =
    let t = (prune_usage s h now.monotonic).0 in
    let said =
      describe h (limits_of t h) (prune_usage s h now.monotonic).1 (daily_used t h now.pacific_date)
        now in
    rw
      (
        lookup-snapshot_each t now gs (insert h said out) g,
        report-prune s now h g,
        lookup-insert h g said out,
        said-report s now h,
        if-report s now h g (lookup g out),
      )
      (if-or (any (λ k. k == g) gs) (h == g) (some (report s now g)) (lookup g out))

pub snapshot_quota_groups-report :
    (s : Store) (c : Readings) (gs : List ℕ) (g : ℕ)
    → (lookup g (snapshot_quota_groups s c gs).1 ≡ (
        if any (λ h. h == g) gs
        then some (report (sweep s.reservation_max_age c s) c.now g)
        else none))
      × Shrinks s (snapshot_quota_groups s c gs).0
unfolding snapshot_quota_groups lookup
snapshot_quota_groups-report s c gs g =
    let t = sweep s.reservation_max_age c s in
    (
      lookup-snapshot_each t c.now gs [] g,
      Shrinks-trans (sweep-Shrinks s.reservation_max_age c s) (snapshot_each-Shrinks t c.now gs []),
    )

-- A positive limit has been reached.
abbrev pub IsUsedUp : ℕ → ℕ → Type 0
IsUsedUp limit used = (0 < limit) × (limit ≤ used)

-- What a snapshot says of a group with these limits, of its records in the window and its requests
-- of the day.
pub record Reports (g : ℕ) (l : Limits) (recent : List UsageRecord) (daily : ℕ)
    (q : QuotaGroupSnapshot) : Type 0 where
  pub group : q.quota_group ≡ g
  pub requests : q.rpm_used_60s ≡ sum_by (λ r. r.request_count) recent
  pub tokens : q.input_tpm_used_60s ≡ sum_by (λ r. r.input_tokens) recent
  pub on_day : q.rpd_used ≡ daily
  pub left_of_requests : q.remaining_rpm ≡ limit_or_zero l.rpm - q.rpm_used_60s
  pub left_of_tokens : q.remaining_input_tpm ≡ limit_or_zero l.tpm - q.input_tpm_used_60s
  pub left_of_day : q.remaining_rpd ≡ limit_or_zero l.rpd - q.rpd_used
  pub used_up : (q.exhausted ≡ true) ↔ (
      IsUsedUp (limit_or_zero l.rpm) q.rpm_used_60s
      ⊎ (IsUsedUp (limit_or_zero l.tpm) q.input_tpm_used_60s
          ⊎ IsUsedUp (limit_or_zero l.rpd) q.rpd_used))
  pub to_retry : (q.exhausted ≡ true) ↔ (q.retry_after_seconds ≢ none)

exhausted-IsUsedUp :
    (a x b y c z : ℕ)
    → ((is_used_up a x || is_used_up b y || is_used_up c z) ≡ true)
      ↔ (IsUsedUp a x ⊎ (IsUsedUp b y ⊎ IsUsedUp c z))
exhausted-IsUsedUp a x b y c z = (
  (λ h.
      split (is_used_up a x) (is_used_up b y) (is_used_up c z) h (used a x) (used b y) (used c z)),
  λ h. elim h [ inl k ↦ ground arith | inr (inl k) ↦ ground arith | inr (inr k) ↦ ground arith ],
)
  where
    used : (m n : ℕ) → is_used_up m n ≡ true → IsUsedUp m n
    used m n h = (ground arith, ground arith)

    split :
        {A B C : Type 0} (p q r : Bool)
        → (p || q || r) ≡ true
        → (p ≡ true → A)
        → (q ≡ true → B)
        → (r ≡ true → C)
        → A ⊎ (B ⊎ C)
    split true q r h f g k = inl (f refl)
    split false true r h f g k = inr (inl (g refl))
    split false false true h f g k = inr (inr (k refl))
    split false false false h f g k = cc

describe-Reports :
    (g : ℕ) (l : Limits) (recent : List UsageRecord) (daily : ℕ) (now : Instant)
    → Reports g l recent daily (describe g l recent daily now)
unfolding describe
describe-Reports g l recent daily now = record {
  group = refl;
  requests = refl;
  tokens = refl;
  on_day = refl;
  left_of_requests = refl;
  left_of_tokens = refl;
  left_of_day = refl;
  used_up =
      exhausted-IsUsedUp (limit_or_zero l.rpm) (requests_of recent) (limit_or_zero l.tpm)
        (tokens_of recent) (limit_or_zero l.rpd) daily;
  to_retry = describe-retry_after g l recent daily now;
}

-- What is reported of a group that was asked for, or was not.
abbrev pub ReportsIf : Bool → ℕ → Limits → List UsageRecord → ℕ → Option QuotaGroupSnapshot → Type 0
ReportsIf true g l recent daily o =
    (q : QuotaGroupSnapshot) × (o ≡ some q) × Reports g l recent daily q
ReportsIf false g l recent daily o = o ≡ none

describe-ReportsIf :
    (asked : Bool) (g : ℕ) (l : Limits) (recent : List UsageRecord) (daily : ℕ) (now : Instant)
    → ReportsIf asked g l recent daily
        (if asked then some (describe g l recent daily now) else none)
describe-ReportsIf true g l recent daily now =
    (describe g l recent daily now, refl, describe-Reports g l recent daily now)
describe-ReportsIf false g l recent daily now = refl

-- A call of `snapshot_quota_groups` reports on every group that it is asked for, and on no other. It
-- says of a group the requests and tokens in the window and the requests of the day, after the
-- expired reservations are swept, and what is left of each limit; it is exhausted exactly if a
-- positive limit is reached, and exactly then there is a time to retry after. The call raises no
-- count and leaves the limits.
pub snapshot_quota_groups-Reports :
    (s : Store) (c : Readings) (gs : List ℕ) (g : ℕ)
    → let t = sweep s.reservation_max_age c s in
      ReportsIf
        (any (λ h. h == g) gs)
        g
        (limits_of t g)
        (prune c.now.monotonic (usage_of t g))
        (daily_used t g c.now.pacific_date)
        (lookup g (snapshot_quota_groups s c gs).1)
      × Shrinks s (snapshot_quota_groups s c gs).0
snapshot_quota_groups-Reports s c gs g =
    let t = sweep s.reservation_max_age c s in
    let asked = any (λ h. h == g) gs in
    let (said, shrinks) = snapshot_quota_groups-report s c gs g in
    (
      subst
          (ReportsIf asked g (limits_of t g) (prune c.now.monotonic (usage_of t g))
            (daily_used t g c.now.pacific_date))
          (sym said)
          (describe-ReportsIf asked g (limits_of t g) (prune c.now.monotonic (usage_of t g))
            (daily_used t g c.now.pacific_date) c.now),
      shrinks,
    )
