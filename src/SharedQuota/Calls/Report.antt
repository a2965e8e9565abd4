-- ===== src/SharedQuota/Calls/Report.antt =====
-- The snapshot of a shared group against the decision, `src/foundry_router/state/quota.py` with
-- `quota_can_fit` of `src/foundry_router/routing/__init__.py`.
use foundry_router.Base.{
  ℕ, ◌+◌, ◌-◌, ◌<◌, ◌≡◌, refl, Bool, true, false, not, ◌&&◌, ◌||◌, Option, none, some, arith, leb,
  length, nat_eq,
}
use foundry_router.RateLimit.Admission.{is_unlimited}
use foundry_router.RateLimit.Snapshot.{limit_or_zero}
use foundry_router.Routing.Quota.{has_left, quota_can_fit}
use foundry_router.SharedQuota.{
  QuotaState, Policy, Decision, duplicate, refused, admitted, max_records, has_id, is_boundary,
  decide, over_limits, passes, requests_used, tokens_used, used_on,
}
use foundry_router.SharedQuota.Calls.{describe_shared, reaches}

-- The decision lets the request through.
abbrev pub is_admission : Decision → Bool
is_admission duplicate = false
is_admission refused = false
is_admission (admitted t) = true

-- A dimension that is not used up has what is wanted exactly if taking it does not pass the limit.
has_left-passes :
    (limit : Option ℕ) (used wanted : ℕ)
    → 0 < wanted
    → not (reaches limit used) && has_left limit (limit_or_zero limit - used) wanted
      ≡ not (passes limit (used + wanted))
has_left-passes none used wanted h = refl
has_left-passes (some n) used wanted h = ground arith

regroup :
    (b m a a' c c' d d' : Bool)
    → (not (b || m || a || c || d) && a' && c' && d')
      ≡ (not b && (not m && (not a && a') && (not c && c') && (not d && d')))
regroup b m a a' c c' d d' = ground arith

decide-admission :
    (day_of : ℕ → ℕ) (p : Policy) (now id tokens : ℕ) (s : QuotaState)
    → has_id s.records id ≡ false
    → is_admission (decide day_of p now id tokens false s) ≡ (
        not (leb max_records (length s.records))
        && not (passes p.limits.rpm (requests_used now s.records + 1))
        && not (passes p.limits.tpm (tokens_used now s.records + tokens))
        && not (passes p.limits.rpd (used_on s.daily (day_of now) + 1)))
unfolding decide over_limits
decide-admission day_of p now id tokens s h = rw (h, decide, over_limits) (ground arith)

-- For a request with tokens and a group with limits, if no record has the identifier, then the
-- test of routing on the snapshot that is taken of a state is what a round at the same time
-- decides on this state, and false near midnight, where a round refuses.
pub describe_shared-quota_can_fit :
    (day_of : ℕ → ℕ) (too_large : QuotaState → Bool) (p : Policy) (g now id tokens : ℕ)
    (s : QuotaState)
    → is_unlimited p.limits ≡ false
    → has_id s.records id ≡ false
    → 0 < tokens
    → quota_can_fit
        (some p.limits)
        (some (describe_shared day_of too_large g p.limits now s))
        tokens
      ≡ (not (is_boundary day_of now) && is_admission (decide day_of p now id tokens false s))
unfolding quota_can_fit describe_shared
describe_shared-quota_can_fit day_of too_large p g now id tokens s limited unknown some_tokens =
    rw
      (
        limited,
        decide-admission day_of p now id tokens s unknown,
        quota_can_fit,
        describe_shared,
        regroup,
        has_left-passes p.limits.rpm (requests_used now s.records) 1 (omega arith),
        has_left-passes p.limits.tpm (tokens_used now s.records) tokens some_tokens,
        has_left-passes p.limits.rpd (used_on s.daily (day_of now)) 1 (omega arith),
      )
      refl
