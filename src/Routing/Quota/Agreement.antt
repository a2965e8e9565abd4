-- ===== src/Routing/Quota/Agreement.antt =====
-- `quota_can_fit` of `src/foundry_router/routing/__init__.py` and the limiter of
-- `src/foundry_router/ratelimit.py`.
use foundry_router.Base.{
  ℕ, ◌+◌, ◌-◌, ◌<◌, ◌≡◌, refl, Bool, true, false, not, ◌&&◌, ◌||◌, Option, none, some, List, arith,
  Bool-cases, inl, inr, nat_eq,
}
use foundry_router.Base.Dict.{lookup}
use foundry_router.RateLimit.{
  Limits, UsageRecord, Store, Instant, requests_of, tokens_of, prune, daily_used,
}
use foundry_router.RateLimit.Frame.{usage_of}
use foundry_router.RateLimit.Admission.{over_cap, exceeds, is_unlimited, admit}
use foundry_router.RateLimit.Admission.Bounds.{admit_limited_lem}
use foundry_router.RateLimit.Snapshot.{
  QuotaGroupSnapshot, describe, limit_or_zero, is_used_up, limits_of,
}
use foundry_router.RateLimit.Snapshot.Report.{report}
use foundry_router.Routing.Quota.{has_left, quota_can_fit}

-- One dimension: it is not used up and has enough left exactly if the request does not pass it.
dimension_fits :
    (cap : Option ℕ) (used wanted : ℕ)
    → 0 < wanted
    → (not (is_used_up (limit_or_zero cap) used) && has_left cap (limit_or_zero cap - used) wanted)
      ≡ not (over_cap cap (used + wanted))
unfolding over_cap
dimension_fits none used wanted h = refl
dimension_fits (some cap) used wanted h = ground arith

shuffle :
    (a b c d e f x y z : Bool)
    → (not a && d) ≡ not x
    → (not b && e) ≡ not y
    → (not c && f) ≡ not z
    → (not (a || b || c) && d && e && f) ≡ not (x || y || z)
shuffle a b c d e f x y z p q r = ground arith

can_fit-exceeds :
    (g : ℕ) (l : Limits) (recent : List UsageRecord) (daily tokens : ℕ) (now : Instant)
    → 0 < tokens
    → is_unlimited l ≡ false
    → quota_can_fit (some l) (some (describe g l recent daily now)) tokens
      ≡ not (exceeds l (requests_of recent) (tokens_of recent) daily tokens)
unfolding quota_can_fit describe exceeds
can_fit-exceeds g l recent daily tokens now positive limited =
    rw (limited, quota_can_fit)
      (shuffle (is_used_up (limit_or_zero l.rpm) (requests_of recent))
        (is_used_up (limit_or_zero l.tpm) (tokens_of recent))
        (is_used_up (limit_or_zero l.rpd) daily)
        (has_left l.rpm (limit_or_zero l.rpm - requests_of recent) 1)
        (has_left l.tpm (limit_or_zero l.tpm - tokens_of recent) tokens)
        (has_left l.rpd (limit_or_zero l.rpd - daily) 1) (over_cap l.rpm (requests_of recent + 1))
        (over_cap l.tpm (tokens_of recent + tokens)) (over_cap l.rpd (daily + 1))
        (dimension_fits l.rpm (requests_of recent) 1 (omega arith))
        (dimension_fits l.tpm (tokens_of recent) tokens positive)
        (dimension_fits l.rpd daily 1 (omega arith)))

can_fit_unlimited :
    (l : Limits) (q : QuotaGroupSnapshot) (tokens : ℕ)
    → is_unlimited l ≡ true
    → quota_can_fit (some l) (some q) tokens ≡ true
unfolding quota_can_fit
can_fit_unlimited l q tokens unlimited = rw (unlimited, quota_can_fit)

-- For a request with tokens, `quota_can_fit` on the group's limits and on a snapshot of the state
-- says exactly what the limiter then decides at that time, if the limits are those of the store.
pub quota_can_fit-admit :
    (s : Store) (now : Instant) (id g tokens : ℕ) (l : Limits)
    → lookup g s.quota_limits ≡ some l
    → 0 < tokens
    → quota_can_fit (some l) (some (report s now g)) tokens ≡ (admit s now id g tokens false).0
unfolding admit
quota_can_fit-admit s now id g tokens l found positive = elim (Bool-cases (is_unlimited l)) [
  | inl unlimited ↦
      rw (found, unlimited, admit) (can_fit_unlimited l (report s now g) tokens unlimited)
  | inr limited ↦
      rw (found, limited, admit, limits_of, admit_limited_lem s now id g l tokens)
        (can_fit-exceeds g l (prune now.monotonic (usage_of s g)) (daily_used s g now.pacific_date)
          tokens now positive limited)
]
