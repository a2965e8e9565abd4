-- ===== src/RateLimit/Admission/Settlement.antt =====
-- Settling and releasing a reservation of `src/foundry_router/ratelimit.py`.
use foundry_router.Base.{
  ℕ, ◌+◌, ◌≡◌, refl, true, Option, none, some, List, [], ◌∷◌, ◌++◌, arith, ◌==◌, nat_eq,
  nat_beq_iff, if◌then◌else◌, sum_by, sum_by-append, Option-cases, inl, inr,
}
use foundry_router.Base.Int.{ℤ, pos, negsuc}
use foundry_router.Base.Dict.{Dict, lookup, erase, lookup-insert, lookup-erase}
use foundry_router.RateLimit.{
  UsageRecord, Reservation, Store, Instant, ok, requests_of, tokens_of, prune, prune_usage,
  remove_record, record_beq, option_beq, release_usage, release_daily, release_request, daily_used,
}
use foundry_router.RateLimit.Frame.{
  usage_of, usage_of-put_usage, prune_usage-usage, Shrinks, Shrinks-refl, lookup-release_request,
  release_usage-daily,
}
use foundry_router.RateLimit.Admission.{
  admitted_record, admitted_reservation, reserve, settle, write_tokens, write_usage,
  finalize_request,
}
use foundry_router.RateLimit.Admission.Bounds.{prune_usage-daily, reserved, usage_of-reserve}

write_tokens-requests :
    (object n : ℕ) (rs : List UsageRecord) → requests_of (write_tokens object n rs) ≡ requests_of rs
unfolding write_tokens
write_tokens-requests object n [] = refl
write_tokens-requests object n (r ∷ rs) = ground (arith, write_tokens-requests object n rs)

lookup-write_usage :
    (object n g : ℕ) (d : Dict ℕ (List UsageRecord))
    → lookup g (write_usage object n d)
      ≡ elim (lookup g d) [ none ↦ none | some rs ↦ some (write_tokens object n rs) ]
unfolding write_usage lookup
lookup-write_usage object n g [] = refl
lookup-write_usage object n g ((h, rs) ∷ d) = ground (arith, lookup-write_usage object n g d)

-- Settling changes no count of requests.
pub settle-Shrinks : (s : Store) (id : ℕ) (actual : Option ℕ) → Shrinks s (settle s id actual)
unfolding settle
settle-Shrinks s id none = record {
  limits = ground arith;
  requests = λ h. ground arith;
  daily = λ h. ground arith;
}
settle-Shrinks s id (some n) = elim (Option-cases (lookup id s.reservations)) [
  | inl e ↦ rw (e, settle) (Shrinks-refl s)
  | inr (r, e) ↦ record {
    limits = ground arith;
    requests = λ h. ground (
      arith,
      lookup-write_usage r.usage.object n h s.usage,
      write_tokens-requests r.usage.object n (usage_of s h),
    );
    daily = λ h. ground arith;
  }
]

settle-none :
    (s : Store) (id : ℕ) (actual : Option ℕ)
    → lookup id s.reservations ≡ none
    → settle s id actual ≡ s
unfolding settle
settle-none s id actual e = rw (e, settle)

release_none :
    (s : Store) (id today : ℕ) → lookup id s.reservations ≡ none → release_request today id s ≡ s
unfolding release_request
release_none s id today e = rw (e, release_request)

lookup-settle :
    (s : Store) (id : ℕ) (actual : Option ℕ) → lookup id (settle s id actual).reservations ≡ none
unfolding settle
lookup-settle s id actual = ground (arith, lookup-erase id id s.reservations, nat_beq_iff id id)

once :
    (t : Store) (id later : ℕ) (again : Option ℕ)
    → lookup id t.reservations ≡ none
    → (settle t id again ≡ t) × (release_request later id t ≡ t)
once t id later again e = (settle-none t id again e, release_none t id later e)

-- A request is settled or given back once: after either, both do nothing.
pub settle_release_once :
    (s : Store) (id today later : ℕ) (actual again : Option ℕ)
    → let t = settle s id actual in
      let u = release_request today id s in
      ((settle t id again ≡ t) × (release_request later id t ≡ t))
      × ((settle u id again ≡ u) × (release_request later id u ≡ u))
settle_release_once s id today later actual again = (
  once (settle s id actual) id later again (lookup-settle s id actual),
  once (release_request today id s) id later again
      (ground (arith, lookup-release_request today id id s, nat_beq_iff id id)),
)

option_beq_refl : (o : Option ℕ) → option_beq o o ≡ true
option_beq_refl none = refl
option_beq_refl (some a) = (nat_beq_iff a a).1 refl

record_beq_refl : (r : UsageRecord) → record_beq r r ≡ true
unfolding record_beq
record_beq_refl r = ground (
  arith,
  option_beq_refl r.request_id,
  nat_beq_iff r.recorded_at_monotonic r.recorded_at_monotonic,
  nat_beq_iff r.request_count r.request_count,
  nat_beq_iff r.input_tokens r.input_tokens,
)

-- Taking a record out of a deque that ends in it takes off one record equal to it.
remove_record-append :
    (f : UsageRecord → ℕ)
    → ((a b : UsageRecord) → record_beq a b ≡ true → f a ≡ f b)
    → (r : UsageRecord) (rs : List UsageRecord)
    → sum_by f (remove_record r (rs ++ r ∷ [])) ≡ sum_by f rs
unfolding remove_record
remove_record-append f same r [] = rw (record_beq_refl r)
remove_record-append f same r (x ∷ rs) =
    ground (arith, same x r, remove_record-append f same r rs, sum_by-append f rs (r ∷ []))

release_daily-usage :
    (today : ℕ) (r : Reservation) (s : Store) → (release_daily today r s).usage ≡ s.usage
unfolding release_daily
release_daily-usage today r s = ground arith

usage_of-release_usage :
    (r : Reservation) (s : Store) (h : ℕ)
    → usage_of (release_usage r s) h ≡ (
        if r.quota_group == h
        then remove_record r.usage (usage_of s r.quota_group)
        else usage_of s h)
unfolding release_usage remove_record
usage_of-release_usage r s h = elim (Option-cases (lookup r.quota_group s.usage)) [
  | inl e ↦ ground (arith, nat_beq_iff r.quota_group h)
  | inr (rs, e) ↦ ground (arith, usage_of-put_usage r.quota_group h (remove_record r.usage rs) s)
]

-- Giving back the request that was just counted undoes the count.
release_daily-insert :
    (s : Store) (r : Reservation) (n : ℕ)
    → r.usage.request_count ≡ 1
    → lookup r.quota_group s.daily_requests ≡ some (r.pacific_date, n + 1)
    → daily_used (release_daily r.pacific_date r s) r.quota_group r.pacific_date ≡ n
unfolding release_daily daily_used
release_daily-insert s r n one e = ground (
  arith,
  nat_beq_iff r.pacific_date r.pacific_date,
  nat_beq_iff r.quota_group r.quota_group,
  lookup-insert r.quota_group r.quota_group (r.pacific_date, n) s.daily_requests,
  lookup-erase r.quota_group r.quota_group s.daily_requests,
)

-- The state of an admission, from which its reservation is taken out.
module _ (s : Store) (now : Instant) (id g tokens : ℕ) where
  after_reserve : Store
  after_reserve =
      let t = reserved s now id g tokens in record t { reservations = erase id t.reservations }

  entry : Reservation
  entry = admitted_reservation (prune_usage s g now.monotonic).0 now id g tokens

  release_reserved-eq :
      release_request now.pacific_date id (reserved s now id g tokens)
      ≡ release_daily now.pacific_date entry (release_usage entry after_reserve)
  unfolding release_request reserve entry after_reserve
  release_reserved-eq =
      rw
        (
          lookup-insert id id entry (prune_usage s g now.monotonic).0.reservations,
          (nat_beq_iff id id).1 refl,
          release_request,
        )
        refl

  -- The deques after the release, measured by any number that equal records share.
  release_reserved-usage :
      (f : UsageRecord → ℕ)
      → ((a b : UsageRecord) → record_beq a b ≡ true → f a ≡ f b)
      → (h : ℕ)
      → sum_by f (usage_of (release_request now.pacific_date id (reserved s now id g tokens)) h) ≡ (
          if g == h then sum_by f (prune now.monotonic (usage_of s g)) else sum_by f (usage_of s h))
  unfolding after_reserve entry
  release_reserved-usage f same h =
      rw
        (
          release_reserved-eq,
          release_daily-usage now.pacific_date entry,
          usage_of-release_usage entry after_reserve h,
          usage_of-reserve (prune_usage s g now.monotonic).0 now id g tokens
              (prune now.monotonic (usage_of s g)) h,
          usage_of-reserve (prune_usage s g now.monotonic).0 now id g tokens
              (prune now.monotonic (usage_of s g)) g,
          prune_usage-usage s g now.monotonic h,
        )
        (ground (
          arith,
          nat_beq_iff g h,
          nat_beq_iff g g,
          remove_record-append f same
              (admitted_record (prune_usage s g now.monotonic).0 now id tokens)
              (prune now.monotonic (usage_of s g)),
        ))

  counted :
      lookup g (release_usage entry after_reserve).daily_requests
      ≡ some (now.pacific_date, daily_used s g now.pacific_date + 1)
  unfolding entry after_reserve reserve
  counted =
      rw
        (
          release_usage-daily entry after_reserve,
          lookup-insert g g
              (
                now.pacific_date,
                daily_used (prune_usage s g now.monotonic).0 g now.pacific_date + 1,
              )
              (prune_usage s g now.monotonic).0.daily_requests,
          (nat_beq_iff g g).1 refl,
          prune_usage-daily s g now.monotonic now.pacific_date,
        )
        refl

  release_reserved-daily :
      daily_used
        (release_request now.pacific_date id (reserved s now id g tokens))
        g
        now.pacific_date
      ≡ daily_used s g now.pacific_date
  unfolding entry
  release_reserved-daily = rw release_reserved-eq (
      release_daily-insert (release_usage entry after_reserve) entry
        (daily_used s g now.pacific_date) refl counted)

count_same : (a b : UsageRecord) → record_beq a b ≡ true → a.request_count ≡ b.request_count
unfolding record_beq
count_same a b h = ground arith

tokens_same : (a b : UsageRecord) → record_beq a b ≡ true → a.input_tokens ≡ b.input_tokens
unfolding record_beq
tokens_same a b h = ground arith

-- Releasing a request on the day on which it was admitted undoes the admission: every group's
-- requests and tokens and the group's count of the day are what they were, but for the records
-- that the admission pruned, and the identifier has no reservation.
pub release-reserved :
    (s : Store) (now : Instant) (id g tokens h : ℕ)
    → let u = release_request now.pacific_date id (reserved s now id g tokens) in
      let before = if g == h then prune now.monotonic (usage_of s g) else usage_of s h in
      (requests_of (usage_of u h) ≡ requests_of before)
      × (tokens_of (usage_of u h) ≡ tokens_of before)
      × (daily_used u g now.pacific_date ≡ daily_used s g now.pacific_date)
      × (lookup id u.reservations ≡ none)
release-reserved s now id g tokens h = (
  ground (arith, release_reserved-usage s now id g tokens (λ r. r.request_count) count_same h),
  ground (arith, release_reserved-usage s now id g tokens (λ r. r.input_tokens) tokens_same h),
  release_reserved-daily s now id g tokens,
  ground (
    arith,
    lookup-release_request now.pacific_date id id (reserved s now id g tokens),
    nat_beq_iff id id,
  ),
)

pub finalize_request-Shrinks :
    (s t : Store) (id : ℕ) (actual : Option ℤ) → finalize_request s id actual ≡ ok t → Shrinks s t
unfolding finalize_request
finalize_request-Shrinks s t id none e =
    let same : settle s id none ≡ t = ground arith in rw same at (settle-Shrinks s id none)
finalize_request-Shrinks s t id (some (negsuc n)) e = cc
finalize_request-Shrinks s t id (some (pos n)) e =
    let same : settle s id (some n) ≡ t = ground arith in rw same at (settle-Shrinks s id (some n))
