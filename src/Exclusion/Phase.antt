-- ===== src/Exclusion/Phase.antt =====
-- What the store of `src/foundry_router/routing/exclusion.py` promises of one combination, as an
-- automaton of two phases.
use foundry_router.Base.{
  ℕ, zero, suc, ◌+◌, ◌<◌, ◌≡◌, ◌⊎◌, refl, Bool, true, false, Option, none, some, arith, ltb, leb,
  if◌then◌else◌,
}
use foundry_router.Exclusion.{
  exclusion_window, exclusion_threshold, key_eq, CombinationRecord, expire, Transition, entered,
  decayed, cleared_window, settle,
}

-- A combination counts its failures, or is excluded since a time.
pub data Phase : Type 0 where
  counting : ℕ → Phase
  excluded : ℕ → Phase

-- Half an hour after its last failure an exclusion ends.
abbrev pub elapse : ℕ → Phase → Phase
elapse now (counting n) = counting n
elapse now (excluded since) =
    if leb (since + exclusion_window) now then counting 0 else excluded since

-- A success takes one failure off the count, or ends an exclusion.
abbrev pub on_success : Phase → Option Transition × Phase
on_success (counting zero) = (none, counting 0)
on_success (counting (suc n)) = (some decayed, counting n)
on_success (excluded since) = (some cleared_window, counting 0)

-- The third failure excludes, and a failure of an excluded combination begins a new window.
abbrev pub on_failure : ℕ → Phase → Option Transition × Phase
on_failure now (counting n) =
    if leb exclusion_threshold (suc n)
    then (some entered, excluded now)
    else (none, counting (suc n))
on_failure now (excluded since) = (none, excluded now)

abbrev pub on_outcome : ℕ → Bool → Bool → Phase → Option Transition × Phase
on_outcome now true countable p = on_success p
on_outcome now false true p = on_failure now p
on_outcome now false false p = (none, p)

abbrev pub phase : CombinationRecord → Phase
phase r =
    if ltb 0 r.excluded_until_monotonic
    then excluded r.excluded_since_monotonic
    else counting r.count

-- While it counts, a combination is below the threshold; its window is as long as it should be.
abbrev pub IsValidRecord : CombinationRecord → Type 0
IsValidRecord r =
    ((r.excluded_until_monotonic ≡ 0) × (r.count < exclusion_threshold))
    ⊎ ((r.excluded_until_monotonic ≡ r.excluded_since_monotonic + exclusion_window)
        × (r.count ≡ exclusion_threshold))

-- A record on which the window, if there is one, is still open.
abbrev pub IsCurrent : ℕ → CombinationRecord → Type 0
IsCurrent now r = (r.excluded_until_monotonic ≡ 0) ⊎ (now < r.excluded_until_monotonic)

pub expire-IsCurrent : (now : ℕ) (r : CombinationRecord) → IsCurrent now (expire now r)
unfolding expire
expire-IsCurrent now r = ground arith

pub expire-IsValid :
    (now : ℕ) (r : CombinationRecord) → IsValidRecord r → IsValidRecord (expire now r)
unfolding expire
expire-IsValid now r v = ground arith

pub phase-expire :
    (now : ℕ) (r : CombinationRecord)
    → IsValidRecord r
    → phase (expire now r) ≡ elapse now (phase r)
unfolding expire
phase-expire now r v = ground arith

pub settle-IsValid :
    (now wall : ℕ) (success countable : Bool) (r : CombinationRecord)
    → IsValidRecord r
    → IsCurrent now r
    → IsValidRecord (settle now wall success countable r).1
unfolding settle
settle-IsValid now wall true countable r v c = ground arith
settle-IsValid now wall false true r v c = ground arith
settle-IsValid now wall false false r v c = v

-- On a current record an outcome is a step of the automaton, with its transition.
pub phase-settle :
    (now wall : ℕ) (success countable : Bool) (r : CombinationRecord)
    → IsValidRecord r
    → IsCurrent now r
    → ((settle now wall success countable r).0 ≡ (on_outcome now success countable (phase r)).0)
      × (phase (settle now wall success countable r).1
          ≡ (on_outcome now success countable (phase r)).1)
unfolding settle
phase-settle now wall true countable r v c = (ground arith, ground arith)
phase-settle now wall false true r v c = (ground arith, ground arith)
phase-settle now wall false false r v c = (refl, refl)
