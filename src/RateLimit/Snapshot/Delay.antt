-- ===== src/RateLimit/Snapshot/Delay.antt =====
-- The delay that a snapshot reports for a dimension of the sliding window, `_seconds_until_under_limit`
-- of `src/foundry_router/ratelimit.py`.
use foundry_router.Base.{
  ℕ, ◌+◌, ◌-◌, ◌≤◌, ◌<◌, ◌≡◌, List, [], ◌∷◌, arith, ltb, if◌then◌else◌, sum_by, All,
}
use foundry_router.RateLimit.{UsageRecord, window, prune}
use foundry_router.RateLimit.Snapshot.{until_under, seconds_until_under_limit}

-- The records stand in the order of their times, as appending by a monotonic clock leaves them.
abbrev pub IsOrdered : List UsageRecord → Type 0
IsOrdered [] = Unit
IsOrdered (r ∷ rs) = All (λ x. r.recorded_at_monotonic ≤ x.recorded_at_monotonic) rs × IsOrdered rs

-- No record is older than the window.
abbrev pub IsRecent : ℕ → List UsageRecord → Type 0
IsRecent now = All (λ r. now ≤ r.recorded_at_monotonic + window)

IsRecent-of_le :
    (now at : ℕ) (rs : List UsageRecord)
    → now ≤ at + window
    → All (λ x. at ≤ x.recorded_at_monotonic) rs
    → IsRecent now rs
IsRecent-of_le now at [] h a = tt
IsRecent-of_le now at (r ∷ rs) h a = (omega arith, IsRecent-of_le now at rs h a.1)

pub prune-IsRecent : (now : ℕ) (rs : List UsageRecord) → IsOrdered rs → IsRecent now (prune now rs)
unfolding prune
prune-IsRecent now [] o = tt
prune-IsRecent now (r ∷ rs) o =
    ground (arith, prune-IsRecent now rs o.1, IsRecent-of_le now r.recorded_at_monotonic rs, o.0)

pub prune-IsOrdered : (now : ℕ) (rs : List UsageRecord) → IsOrdered rs → IsOrdered (prune now rs)
unfolding prune
prune-IsOrdered now [] o = tt
prune-IsOrdered now (r ∷ rs) o = ground (arith, prune-IsOrdered now rs o.1)

pub prune-sum-le :
    (f : UsageRecord → ℕ) (now : ℕ) (rs : List UsageRecord) → sum_by f (prune now rs) ≤ sum_by f rs
unfolding prune
prune-sum-le f now [] = omega arith
prune-sum-le f now (r ∷ rs) = ground (arith, prune-sum-le f now rs)

module _ (f : UsageRecord → ℕ) (limit now : ℕ) (positive : 0 < limit) where
  -- The time from which the rest of the deque is under the limit.
  over_at : List UsageRecord → ℕ
  over_at rs = now + until_under f limit now (sum_by f rs) rs

  over_at-cons :
      (r : UsageRecord) (rs : List UsageRecord)
      → now ≤ r.recorded_at_monotonic + window
      → over_at (r ∷ rs)
        ≡ (if ltb (sum_by f rs) limit then r.recorded_at_monotonic + window else over_at rs)
  unfolding over_at until_under
  over_at-cons r rs recent =
      let rest : f r + sum_by f rs - f r ≡ sum_by f rs = omega arith in rw rest (ground arith)

  over_at-ge :
      (lo : ℕ) (rs : List UsageRecord)
      → IsRecent now rs
      → limit ≤ sum_by f rs
      → All (λ x. lo ≤ x.recorded_at_monotonic) rs
      → lo + window ≤ over_at rs
  over_at-ge lo [] recent full late = absurd (omega arith)
  over_at-ge lo (r ∷ rs) recent full late =
      ground (arith, over_at-cons r rs recent.0, over_at-ge lo rs recent.1, late.1)

  over_at-exact :
      (rs : List UsageRecord) (t : ℕ)
      → IsOrdered rs
      → IsRecent now rs
      → limit ≤ sum_by f rs
      → (over_at rs < t → sum_by f (prune t rs) < limit)
        × (t ≤ over_at rs → limit ≤ sum_by f (prune t rs))
  unfolding prune
  over_at-exact [] t o recent full = absurd (omega arith)
  over_at-exact (r ∷ rs) t o recent full =
      let tail = over_at-exact rs t o.1 recent.1 in
      ground (
        arith,
        over_at-cons r rs recent.0,
        over_at-ge r.recorded_at_monotonic rs recent.1,
        o.0,
        tail,
        prune-sum-le f t rs,
      )

-- For a dimension of the window that is used up, a snapshot at `now` of a deque in the order of
-- its times names the exact end of the exhaustion: at every later time the deque then pruned is
-- under the limit, and at every time up to that one it is not.
pub seconds_until_under_limit-exact :
    (f : UsageRecord → ℕ) (limit now t : ℕ) (rs : List UsageRecord)
    → 0 < limit
    → IsOrdered rs
    → limit ≤ sum_by f (prune now rs)
    → let delay = seconds_until_under_limit (prune now rs) f limit now in
      (now + delay < t → sum_by f (prune t (prune now rs)) < limit)
      × (t ≤ now + delay → limit ≤ sum_by f (prune t (prune now rs)))
unfolding seconds_until_under_limit over_at
seconds_until_under_limit-exact f limit now t rs positive o full =
    over_at-exact f limit now positive (prune now rs) t (prune-IsOrdered now rs o)
      (prune-IsRecent now rs o) full
