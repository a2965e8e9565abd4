-- ===== src/Routing/Quota.antt =====
-- `quota_can_fit` of `src/foundry_router/routing/__init__.py`, which routing asks before a request
-- is admitted.
pub mod Agreement
mod Tests
use foundry_router.Base.{ℕ, Bool, true, false, not, ◌&&◌, Option, none, some, leb, if◌then◌else◌}
use foundry_router.RateLimit.{Limits}
use foundry_router.RateLimit.Admission.{is_unlimited}
use foundry_router.RateLimit.Snapshot.{QuotaGroupSnapshot}

-- `dimension not in limits or remaining >= wanted`
abbrev pub has_left : Option ℕ → ℕ → ℕ → Bool
has_left none remaining wanted = true
has_left (some limit) remaining wanted = leb wanted remaining

-- The group's limits and snapshot, if there are any, and the estimated tokens.
unfoldable pub quota_can_fit : Option Limits → Option QuotaGroupSnapshot → ℕ → Bool
quota_can_fit none snapshot tokens = true
quota_can_fit (some l) none tokens = true
quota_can_fit (some l) (some q) tokens =
    if is_unlimited l
    then true
    else not q.exhausted
      && has_left l.rpm q.remaining_rpm 1
      && has_left l.tpm q.remaining_input_tpm tokens
      && has_left l.rpd q.remaining_rpd 1
