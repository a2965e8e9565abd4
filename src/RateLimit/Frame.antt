-- ===== src/RateLimit/Frame.antt =====
-- What the steps of the calls of `src/foundry_router/ratelimit.py` leave alone and lower.
use foundry_router.Base.{
  ℕ, ◌-◌, ◌≤◌, ◌≡◌, refl, ◌∙◌, none, some, List, [], ◌∷◌, arith, ◌==◌, nat_eq, nat_beq_iff,
  if◌then◌else◌, Option-cases, inl, inr,
}
use foundry_router.Base.Dict.{Dict, lookup, erase, lookup-insert, lookup-erase}
use foundry_router.RateLimit.{
  UsageRecord, Reservation, Age, Store, Readings, requests_of, prune, put_usage, prune_usage,
  remove_record, release_usage, release_daily, release_request, release_all, sweep, expired_ids,
}

-- The deque of a group, empty where there is none.
abbrev pub usage_of : Store → ℕ → List UsageRecord
usage_of s g = elim (lookup g s.usage) [ none ↦ [] | some rs ↦ rs ]

-- The count that is stored for a group, of whatever date.
abbrev pub daily_count : Store → ℕ → ℕ
daily_count s g = elim (lookup g s.daily_requests) [ none ↦ 0 | some (_, n) ↦ n ]

pub usage_of-put_usage :
    (g h : ℕ) (rs : List UsageRecord) (s : Store)
    → usage_of (put_usage g rs s) h ≡ (if g == h then rs else usage_of s h)
unfolding put_usage
usage_of-put_usage g h [] s = ground (arith, lookup-erase g h s.usage)
usage_of-put_usage g h (r ∷ rs) s = ground (arith, lookup-insert g h (r ∷ rs) s.usage)

pub prune-requests-le :
    (now : ℕ) (rs : List UsageRecord) → requests_of (prune now rs) ≤ requests_of rs
unfolding prune
prune-requests-le now [] = omega arith
prune-requests-le now (r ∷ rs) = ground (arith, prune-requests-le now rs)

pub remove_record-requests-le :
    (r : UsageRecord) (rs : List UsageRecord) → requests_of (remove_record r rs) ≤ requests_of rs
unfolding remove_record
remove_record-requests-le r [] = omega arith
remove_record-requests-le r (x ∷ rs) = ground (arith, remove_record-requests-le r rs)

-- The two components of pruning.
pub prune_usage-list : (s : Store) (g now : ℕ) → (prune_usage s g now).1 ≡ prune now (usage_of s g)
unfolding prune_usage prune
prune_usage-list s g now = ground arith

pub prune_usage-usage :
    (s : Store) (g now h : ℕ)
    → usage_of (prune_usage s g now).0 h
      ≡ (if g == h then prune now (usage_of s g) else usage_of s h)
unfolding prune_usage prune
prune_usage-usage s g now h = elim (Option-cases (lookup g s.usage)) [
  | inl e ↦ ground (arith, nat_beq_iff g h)
  | inr (rs, e) ↦ ground (arith, usage_of-put_usage g h (prune now rs) s)
]

-- No group has more requests in its deque or in its daily count, and the limits are the same.
pub record Shrinks (s s' : Store) : Type 0 where
  pub limits : s'.quota_limits ≡ s.quota_limits
  pub requests : (h : ℕ) → requests_of (usage_of s' h) ≤ requests_of (usage_of s h)
  pub daily : (h : ℕ) → daily_count s' h ≤ daily_count s h

pub Shrinks-refl : (s : Store) → Shrinks s s
Shrinks-refl s = record { limits = refl; requests = λ h. omega arith; daily = λ h. omega arith }

pub Shrinks-trans : {s t u : Store} → Shrinks s t → Shrinks t u → Shrinks s u
Shrinks-trans a b = record {
  limits = b.limits ∙ a.limits;
  requests = λ h. omega (arith, a.requests h, b.requests h);
  daily = λ h. omega (arith, a.daily h, b.daily h);
}

put_usage-limits :
    (g : ℕ) (rs : List UsageRecord) (s : Store) → (put_usage g rs s).quota_limits ≡ s.quota_limits
unfolding put_usage
put_usage-limits g [] s = refl
put_usage-limits g (r ∷ rs) s = refl

put_usage-daily :
    (g : ℕ) (rs : List UsageRecord) (s : Store)
    → (put_usage g rs s).daily_requests ≡ s.daily_requests
unfolding put_usage
put_usage-daily g [] s = refl
put_usage-daily g (r ∷ rs) s = refl

put_usage-rest :
    (g : ℕ) (rs : List UsageRecord) (s : Store)
    → ((put_usage g rs s).reservations ≡ s.reservations)
      × ((put_usage g rs s).next_object ≡ s.next_object)
unfolding put_usage
put_usage-rest g [] s = (refl, refl)
put_usage-rest g (r ∷ rs) s = (refl, refl)

-- Pruning changes the usage alone.
pub prune_usage-rest :
    (s : Store) (g now : ℕ)
    → let s' = (prune_usage s g now).0 in
      (s'.quota_limits ≡ s.quota_limits)
      × (s'.daily_requests ≡ s.daily_requests)
      × (s'.reservations ≡ s.reservations)
      × (s'.next_object ≡ s.next_object)
unfolding prune_usage
prune_usage-rest s g now = elim (Option-cases (lookup g s.usage)) [
  | inl e ↦ ground arith
  | inr (rs, e) ↦ ground (
    arith,
    put_usage-limits g (prune now rs) s,
    put_usage-daily g (prune now rs) s,
    put_usage-rest g (prune now rs) s,
  )
]

put_usage-Shrinks :
    (g : ℕ) (rs : List UsageRecord) (s : Store)
    → requests_of rs ≤ requests_of (usage_of s g)
    → Shrinks s (put_usage g rs s)
put_usage-Shrinks g rs s le = record {
  limits = put_usage-limits g rs s;
  requests = λ h. ground (arith, usage_of-put_usage g h rs s, nat_beq_iff g h);
  daily = λ h. ground (arith, put_usage-daily g rs s);
}

pub prune_usage-Shrinks : (s : Store) (g now : ℕ) → Shrinks s (prune_usage s g now).0
unfolding prune_usage
prune_usage-Shrinks s g now = elim (Option-cases (lookup g s.usage)) [
  | inl e ↦ rw (e, prune_usage) (Shrinks-refl s)
  | inr (rs, e) ↦
      rw (e, prune_usage)
        (put_usage-Shrinks g (prune now rs) s (ground (arith, prune-requests-le now rs)))
]

release_usage-Shrinks : (r : Reservation) (s : Store) → Shrinks s (release_usage r s)
unfolding release_usage
release_usage-Shrinks r s = elim (Option-cases (lookup r.quota_group s.usage)) [
  | inl e ↦ rw (e, release_usage) (Shrinks-refl s)
  | inr (rs, e) ↦
      rw (e, release_usage)
        (put_usage-Shrinks r.quota_group (remove_record r.usage rs) s
          (ground (arith, remove_record-requests-le r.usage rs)))
]

release_daily-Shrinks :
    (today : ℕ) (r : Reservation) (s : Store) → Shrinks s (release_daily today r s)
unfolding release_daily
release_daily-Shrinks today r s = record {
  limits = ground arith;
  requests = λ h. ground arith;
  daily = λ h. ground (
    arith,
    nat_beq_iff r.quota_group h,
    lookup-insert r.quota_group h (today, (daily_count s r.quota_group) - r.usage.request_count)
        s.daily_requests,
    lookup-erase r.quota_group h s.daily_requests,
  );
}

pub reservations-Shrinks :
    (s : Store) (d : Dict ℕ Reservation) → Shrinks s (record s { reservations = d })
reservations-Shrinks s d = record {
  limits = refl;
  requests = λ h. omega arith;
  daily = λ h. omega arith;
}

pub release_request-Shrinks : (today id : ℕ) (s : Store) → Shrinks s (release_request today id s)
unfolding release_request
release_request-Shrinks today id s = elim (Option-cases (lookup id s.reservations)) [
  | inl e ↦ rw (e, release_request) (Shrinks-refl s)
  | inr (r, e) ↦
      rw (e, release_request)
        (Shrinks-trans (reservations-Shrinks s (erase id s.reservations))
          (Shrinks-trans (release_usage-Shrinks r _) (release_daily-Shrinks today r _)))
]

release_all-Shrinks :
    (dates : ℕ → ℕ) (ids : List ℕ) (s : Store) → Shrinks s (release_all dates ids s)
unfolding release_all
release_all-Shrinks dates [] s = Shrinks-refl s
release_all-Shrinks dates (id ∷ ids) s =
    Shrinks-trans (release_request-Shrinks (dates id) id s)
      (release_all-Shrinks dates ids (release_request (dates id) id s))

pub sweep-Shrinks : (age : Age) (c : Readings) (s : Store) → Shrinks s (sweep age c s)
unfolding sweep
sweep-Shrinks age c s =
    release_all-Shrinks c.release_date (expired_ids age c.now.monotonic s.reservations) s

release_usage-reservations :
    (r : Reservation) (s : Store) → (release_usage r s).reservations ≡ s.reservations
unfolding release_usage
release_usage-reservations r s = elim (Option-cases (lookup r.quota_group s.usage)) [
  | inl e ↦ rw (e, release_usage)
  | inr (rs, e) ↦
      rw (e, release_usage) (put_usage-rest r.quota_group (remove_record r.usage rs) s).0
]

release_daily-reservations :
    (today : ℕ) (r : Reservation) (s : Store)
    → (release_daily today r s).reservations ≡ s.reservations
unfolding release_daily
release_daily-reservations today r s = ground arith

-- Releasing an identifier takes out its reservation and no other.
pub lookup-release_request :
    (today id j : ℕ) (s : Store)
    → lookup j (release_request today id s).reservations
      ≡ (if id == j then none else lookup j s.reservations)
unfolding release_request
lookup-release_request today id j s = elim (Option-cases (lookup id s.reservations)) [
  | inl e ↦ ground (arith, nat_beq_iff id j)
  | inr (r, e) ↦
      rw (e, release_request, release_daily-reservations today r, release_usage-reservations r)
        (lookup-erase id j s.reservations)
]

pub release_usage-daily :
    (r : Reservation) (s : Store) → (release_usage r s).daily_requests ≡ s.daily_requests
unfolding release_usage
release_usage-daily r s = elim (Option-cases (lookup r.quota_group s.usage)) [
  | inl e ↦ rw (e, release_usage)
  | inr (rs, e) ↦ rw (e, release_usage) (put_usage-daily r.quota_group (remove_record r.usage rs) s)
]
