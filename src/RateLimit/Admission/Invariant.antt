-- ===== src/RateLimit/Admission/Invariant.antt =====
-- The invariant of the limiter of `src/foundry_router/ratelimit.py` on its request limits.
use foundry_router.Base.{
  ℕ, ◌≤◌, ◌≡◌, sym, ap, ◌∙◌, Bool, true, false, Option, none, some, arith, ◌==◌, nat_eq,
  nat_beq_iff, Option-cases, Bool-cases, inl, inr,
}
use mathlib.Core.Option.{some-injective}
use foundry_router.Base.Int.{ℤ, pos, negsuc}
use foundry_router.Base.Dict.{Dict, lookup}
use foundry_router.RateLimit.{
  Limits, Age, Store, Instant, Readings, ok, requests_of, prune, prune_usage,
}
use foundry_router.RateLimit.Frame.{
  usage_of, daily_count, prune_usage-rest, prune_usage-Shrinks, Shrinks,
}
use foundry_router.RateLimit.Admission.{
  is_unlimited, reserve, admit_limited, admit, cleared, try_reserve_estimate,
}
use foundry_router.RateLimit.Admission.Bounds.{
  AtMost, Fits, reserved, usage_of-reserved, daily_count-reserve, prune_usage-daily,
  admit_limited-Fits, admit_limited-state, cleared-Shrinks,
}

-- No group with a limit has more requests in its deque, or in its count of a day, than it allows.
pub record IsBounded (s : Store) : Type 0 where
  pub window_bound :
      (g : ℕ) (l : Limits)
      → lookup g s.quota_limits ≡ some l
      → AtMost l.rpm (requests_of (usage_of s g))
  pub daily_bound :
      (g : ℕ) (l : Limits) → lookup g s.quota_limits ≡ some l → AtMost l.rpd (daily_count s g)

AtMost-le : (cap : Option ℕ) (m n : ℕ) → AtMost cap n → m ≤ n → AtMost cap m
AtMost-le none m n h le = tt
AtMost-le (some cap) m n h le = omega arith

pub Shrinks-IsBounded : {s t : Store} → Shrinks s t → IsBounded s → IsBounded t
Shrinks-IsBounded {s} {t} k b = record {
  window_bound = λ g l e.
      AtMost-le l.rpm (requests_of (usage_of t g)) (requests_of (usage_of s g))
        (b.window_bound g l (rw (← k.limits) e)) (k.requests g);
  daily_bound = λ g l e.
      AtMost-le l.rpd (daily_count t g) (daily_count s g) (b.daily_bound g l (rw (← k.limits) e))
        (k.daily g);
}

reserved-limits :
    (s : Store) (now : Instant) (id g tokens : ℕ)
    → (reserved s now id g tokens).quota_limits ≡ s.quota_limits
unfolding reserve
reserved-limits s now id g tokens = (prune_usage-rest s g now.monotonic).0

-- Two limits that are found for equal groups are equal.
lookup_same :
    (d : Dict ℕ Limits) (g h : ℕ) (l m : Limits)
    → (g == h) ≡ true
    → lookup g d ≡ some l
    → lookup h d ≡ some m
    → l ≡ m
lookup_same d g h l m same e f =
    some-injective l m (sym e ∙ ap (λ k. lookup k d) ((nat_beq_iff g h).0 same) ∙ f)

reserved-requests :
    (s : Store) (now : Instant) (id g tokens h : ℕ) (l m : Limits)
    → lookup g s.quota_limits ≡ some l
    → lookup h s.quota_limits ≡ some m
    → Fits s now g l tokens
    → IsBounded s
    → AtMost m.rpm (requests_of (usage_of (reserved s now id g tokens) h))
reserved-requests s now id g tokens h l m e f fits b =
    rw (usage_of-reserved (λ r. r.request_count) s now id g tokens h) (elim (Bool-cases (g == h)) [
      | inl same ↦ rw (same, ← lookup_same s.quota_limits g h l m same e f) fits.0
      | inr other ↦ rw other (b.window_bound h m f)
    ])

reserved-daily :
    (s : Store) (now : Instant) (id g tokens h : ℕ) (l m : Limits)
    → lookup g s.quota_limits ≡ some l
    → lookup h s.quota_limits ≡ some m
    → Fits s now g l tokens
    → IsBounded s
    → AtMost m.rpd (daily_count (reserved s now id g tokens) h)
reserved-daily s now id g tokens h l m e f fits b =
    rw
      (
        daily_count-reserve (prune_usage s g now.monotonic).0 now id g tokens
            (prune now.monotonic (usage_of s g)) h,
        prune_usage-daily s g now.monotonic now.pacific_date,
      )
      (elim (Bool-cases (g == h)) [
        | inl same ↦ rw (same, ← lookup_same s.quota_limits g h l m same e f) fits.2
        | inr other ↦ rw other (
            AtMost-le m.rpd (daily_count (prune_usage s g now.monotonic).0 h) (daily_count s h)
              (b.daily_bound h m f) ((prune_usage-Shrinks s g now.monotonic).daily h))
      ])

reserved-IsBounded :
    (s : Store) (now : Instant) (id g : ℕ) (l : Limits) (tokens : ℕ)
    → lookup g s.quota_limits ≡ some l
    → Fits s now g l tokens
    → IsBounded s
    → IsBounded (reserved s now id g tokens)
reserved-IsBounded s now id g l tokens e fits b = record {
  window_bound = λ h m f.
      reserved-requests s now id g tokens h l m e (rw (← reserved-limits s now id g tokens) f) fits
        b;
  daily_bound = λ h m f.
      reserved-daily s now id g tokens h l m e (rw (← reserved-limits s now id g tokens) f) fits b;
}

admit_limited-IsBounded :
    (s : Store) (now : Instant) (id g : ℕ) (l : Limits) (tokens : ℕ)
    → lookup g s.quota_limits ≡ some l
    → IsBounded s
    → IsBounded (admit_limited s now id g l tokens false).1
admit_limited-IsBounded s now id g l tokens e b =
    rw (admit_limited-state s now id g l tokens false)
      (elim (Bool-cases (admit_limited s now id g l tokens false).0) [
        | inl admitted ↦ rw admitted (
            reserved-IsBounded s now id g l tokens e
              ((admit_limited-Fits s now id g l tokens).0 admitted) b)
        | inr refused ↦ rw refused (Shrinks-IsBounded (prune_usage-Shrinks s g now.monotonic) b)
      ])

admit-IsBounded :
    (s : Store) (now : Instant) (id g tokens : ℕ)
    → IsBounded s
    → IsBounded (admit s now id g tokens false).1
unfolding admit
admit-IsBounded s now id g tokens b = elim (Option-cases (lookup g s.quota_limits)) [
  | inl e ↦ rw (e, admit) b
  | inr (l, e) ↦
      rw (e, admit)
        (elim (Bool-cases (is_unlimited l)) [
          | inl unlimited ↦ rw unlimited b
          | inr limited ↦ rw limited (admit_limited-IsBounded s now id g l tokens e b)
        ])
]

-- Whatever a call that does not allow to go over the limits returns, the state that it leaves
-- keeps every group within its limits of requests.
pub try_reserve_estimate-IsBounded :
    (s t : Store) (c : Readings) (id g : ℕ) (tokens : ℤ) (age : Age) (admitted : Bool)
    → IsBounded s
    → try_reserve_estimate s c id g tokens age false ≡ ok (admitted, t)
    → IsBounded t
unfolding try_reserve_estimate
try_reserve_estimate-IsBounded s t c id g (negsuc n) age admitted b e = ground arith
try_reserve_estimate-IsBounded s t c id g (pos n) age admitted b e =
    let made =
      admit-IsBounded (cleared s c id age) c.now id g n
        (Shrinks-IsBounded (cleared-Shrinks s c id age) b) in
    let same : (admit (cleared s c id age) c.now id g n false).1 ≡ t = ground arith in
    rw same at made

admit-limits :
    (s : Store) (now : Instant) (id g tokens : ℕ) (over : Bool)
    → (admit s now id g tokens over).1.quota_limits ≡ s.quota_limits
unfolding admit admit_limited reserve
admit-limits s now id g tokens over = ground (arith, (prune_usage-rest s g now.monotonic).0)

pub try_reserve_estimate-limits :
    (s t : Store) (c : Readings) (id g : ℕ) (tokens : ℤ) (age : Age) (over admitted : Bool)
    → try_reserve_estimate s c id g tokens age over ≡ ok (admitted, t)
    → t.quota_limits ≡ s.quota_limits
unfolding try_reserve_estimate
try_reserve_estimate-limits s t c id g (negsuc n) age over admitted e = ground arith
try_reserve_estimate-limits s t c id g (pos n) age over admitted e =
    let same : (admit (cleared s c id age) c.now id g n over).1 ≡ t = ground arith in
    rw same at
      (admit-limits (cleared s c id age) c.now id g n over ∙ (cleared-Shrinks s c id age).limits)
