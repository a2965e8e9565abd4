-- ===== src/RateLimit/History.antt =====
-- Histories of calls of the limiter, each finished before the next begins, as the store's lock
-- has it. `record_estimate`, which no code of the router calls, and the protected emergency
-- fallback, `allow_over_limit`, admit usage over the limits and are not among these calls.
use foundry_router.Base.{
  ℕ, ◌*◌, ◌≡◌, refl, ◌∙◌, Bool, false, Option, none, some, List, [], ◌∷◌, arith, nat_eq,
}
use foundry_router.Base.Int.{ℤ, pos}
use foundry_router.Base.Dict.{Dict, lookup}
use foundry_router.RateLimit.{
  Limits, Age, finite, Store, Readings, second, Result, ok, err, requests_of, release_request,
}
use foundry_router.RateLimit.Frame.{usage_of, daily_count, Shrinks, release_request-Shrinks}
use foundry_router.RateLimit.Admission.{try_reserve_estimate, finalize_request}
use foundry_router.RateLimit.Admission.Bounds.{AtMost}
use foundry_router.RateLimit.Admission.Invariant.{
  IsBounded, Shrinks-IsBounded, try_reserve_estimate-IsBounded, try_reserve_estimate-limits,
}
use foundry_router.RateLimit.Admission.Settlement.{finalize_request-Shrinks}
use foundry_router.RateLimit.Snapshot.{snapshot_quota_groups}
use foundry_router.RateLimit.Snapshot.Report.{snapshot_quota_groups-report}

pub data Call : Type 0 where
  reserves : Readings → ℕ → ℕ → ℤ → Age → Call
  finalizes : ℕ → Option ℤ → Call
  releases : ℕ → ℕ → Call
  snapshots : Readings → List ℕ → Call

-- A call that raises leaves the state.
abbrev pub after_reserve : Store → Result (Bool × Store) → Store
after_reserve s (ok (admitted, t)) = t
after_reserve s (err e) = s

abbrev pub after : Store → Result Store → Store
after s (ok t) = t
after s (err e) = s

pub step : Store → Call → Store
step s (reserves c id g tokens age) =
    after_reserve s (try_reserve_estimate s c id g tokens age false)
step s (finalizes id actual) = after s (finalize_request s id actual)
step s (releases id today) = release_request today id s
step s (snapshots c gs) = (snapshot_quota_groups s c gs).0

pub run : Store → List Call → Store
run s [] = s
run s (c ∷ cs) = run (step s c) cs

reserves-IsBounded :
    (s : Store) (r : Result (Bool × Store))
    → ((admitted : Bool) (t : Store) → r ≡ ok (admitted, t) → IsBounded t)
    → IsBounded s
    → IsBounded (after_reserve s r)
reserves-IsBounded s (ok (admitted, t)) h b = h admitted t refl
reserves-IsBounded s (err e) h b = b

after-IsBounded :
    (s : Store) (r : Result Store)
    → ((t : Store) → r ≡ ok t → Shrinks s t)
    → IsBounded s
    → IsBounded (after s r)
after-IsBounded s (ok t) h b = Shrinks-IsBounded (h t refl) b
after-IsBounded s (err e) h b = b

step-IsBounded : (s : Store) (c : Call) → IsBounded s → IsBounded (step s c)
unfolding step
step-IsBounded s (reserves c id g tokens age) b =
    reserves-IsBounded s (try_reserve_estimate s c id g tokens age false)
      (λ admitted t e. try_reserve_estimate-IsBounded s t c id g tokens age admitted b e) b
step-IsBounded s (finalizes id actual) b =
    after-IsBounded s (finalize_request s id actual)
      (λ t e. finalize_request-Shrinks s t id actual e) b
step-IsBounded s (releases id today) b = Shrinks-IsBounded (release_request-Shrinks today id s) b
step-IsBounded s (snapshots c gs) b = Shrinks-IsBounded (snapshot_quota_groups-report s c gs 0).1 b

run-IsBounded : (s : Store) (cs : List Call) → IsBounded s → IsBounded (run s cs)
unfolding run
run-IsBounded s [] b = b
run-IsBounded s (c ∷ cs) b = run-IsBounded (step s c) cs (step-IsBounded s c b)

-- The store with these limits before its first call.
abbrev pub start : Dict ℕ Limits → Store
start limits = record {
  quota_limits = limits;
  usage = [];
  daily_requests = [];
  reservations = [];
  reservation_max_age = finite (pos (900 * second));
  next_object = 0;
}

AtMost-zero : (cap : Option ℕ) → AtMost cap 0
AtMost-zero none = tt
AtMost-zero (some cap) = omega arith

start-IsBounded : (limits : Dict ℕ Limits) → IsBounded (start limits)
unfolding lookup
start-IsBounded limits = record {
  window_bound = λ g l e. AtMost-zero l.rpm;
  daily_bound = λ g l e. AtMost-zero l.rpd;
}

reserves-limits :
    (s : Store) (r : Result (Bool × Store))
    → ((admitted : Bool) (t : Store) → r ≡ ok (admitted, t) → t.quota_limits ≡ s.quota_limits)
    → (after_reserve s r).quota_limits ≡ s.quota_limits
reserves-limits s (ok (admitted, t)) h = h admitted t refl
reserves-limits s (err e) h = refl

after-limits :
    (s : Store) (r : Result Store)
    → ((t : Store) → r ≡ ok t → Shrinks s t)
    → (after s r).quota_limits ≡ s.quota_limits
after-limits s (ok t) h = (h t refl).limits
after-limits s (err e) h = refl

step-limits : (s : Store) (c : Call) → (step s c).quota_limits ≡ s.quota_limits
unfolding step
step-limits s (reserves c id g tokens age) =
    reserves-limits s (try_reserve_estimate s c id g tokens age false)
      (λ admitted t e. try_reserve_estimate-limits s t c id g tokens age false admitted e)
step-limits s (finalizes id actual) =
    after-limits s (finalize_request s id actual) (λ t e. finalize_request-Shrinks s t id actual e)
step-limits s (releases id today) = (release_request-Shrinks today id s).limits
step-limits s (snapshots c gs) = (snapshot_quota_groups-report s c gs 0).1.limits

run-limits : (s : Store) (cs : List Call) → (run s cs).quota_limits ≡ s.quota_limits
unfolding run
run-limits s [] = refl
run-limits s (c ∷ cs) = run-limits (step s c) cs ∙ step-limits s c

-- After any history of calls, no group that has limits holds more requests in its window or in
-- its day's count than its requests per minute and per day.
pub run_bounded :
    (limits : Dict ℕ Limits) (cs : List Call) (g : ℕ) (l : Limits)
    → lookup g limits ≡ some l
    → let s = run (start limits) cs in
      AtMost l.rpm (requests_of (usage_of s g)) × AtMost l.rpd (daily_count s g)
run_bounded limits cs g l e =
    let b = run-IsBounded (start limits) cs (start-IsBounded limits) in
    let same = run-limits (start limits) cs in
    (b.window_bound g l (rw same e), b.daily_bound g l (rw same e))
