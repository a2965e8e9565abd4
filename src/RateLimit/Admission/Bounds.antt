-- ===== src/RateLimit/Admission/Bounds.antt =====
-- The decision of `try_reserve_estimate` of `src/foundry_router/ratelimit.py` against the limits.
use foundry_router.Base.{
  ℕ, ◌+◌, ◌≤◌, ◌≡◌, ◌≢◌, ◌⊎◌, ◌↔◌, refl, Bool, true, false, not, Option, none, some, List, [], ◌∷◌,
  ◌++◌, arith, ◌==◌, nat_eq, nat_beq_iff, if◌then◌else◌, sum_by, sum_by-append, Bool-cases, inl,
  inr,
}
use foundry_router.Base.Int.{pos}
use foundry_router.Base.Dict.{lookup, lookup-insert}
use foundry_router.RateLimit.{
  Limits, UsageRecord, Age, Store, Instant, Readings, ok, requests_of, tokens_of, prune,
  prune_usage, daily_used,
}
use foundry_router.RateLimit.Frame.{
  usage_of, daily_count, prune_usage-list, prune_usage-usage, prune_usage-rest, Shrinks,
  Shrinks-trans, sweep-Shrinks, release_request-Shrinks,
}
use foundry_router.RateLimit.Admission.{
  admitted_record, over_cap, exceeds, is_unlimited, reserve, admit_limited, admit, is_positive,
  cleared, try_reserve_estimate,
}

abbrev pub AtMost : Option ℕ → ℕ → Type 0
AtMost none used = Unit
AtMost (some cap) used = used ≤ cap

-- Requests, tokens and requests of the day are within the limits that are configured.
abbrev pub Within : Limits → ℕ → ℕ → ℕ → Type 0
Within l requests tokens daily = AtMost l.rpm requests × AtMost l.tpm tokens × AtMost l.rpd daily

over_cap-AtMost : (cap : Option ℕ) (n : ℕ) → over_cap cap n ≡ false → AtMost cap n
unfolding over_cap
over_cap-AtMost none n h = tt
over_cap-AtMost (some cap) n h = ground arith

AtMost-over_cap : (cap : Option ℕ) (n : ℕ) → AtMost cap n → over_cap cap n ≡ false
unfolding over_cap
AtMost-over_cap none n h = refl
AtMost-over_cap (some cap) n h = ground arith

-- The test is the bound, for every set of limits.
exceeds-Within :
    (l : Limits) (requests used daily tokens : ℕ)
    → exceeds l requests used daily tokens ≡ false
    → Within l (requests + 1) (used + tokens) (daily + 1)
unfolding exceeds
exceeds-Within l r u d t h = ground (
  arith,
  over_cap-AtMost l.rpm (r + 1),
  over_cap-AtMost l.tpm (u + t),
  over_cap-AtMost l.rpd (d + 1),
)

Within-exceeds :
    (l : Limits) (requests used daily tokens : ℕ)
    → Within l (requests + 1) (used + tokens) (daily + 1)
    → exceeds l requests used daily tokens ≡ false
unfolding exceeds
Within-exceeds l r u d t h = ground (
  arith,
  AtMost-over_cap l.rpm (r + 1) h.0,
  AtMost-over_cap l.tpm (u + t) h.1,
  AtMost-over_cap l.rpd (d + 1) h.2,
)

is_unlimited-Within : (l : Limits) (r u d : ℕ) → is_unlimited l ≡ true → Within l r u d
unfolding is_unlimited
is_unlimited-Within l r u d h = ground arith

pub usage_of-reserve :
    (s : Store) (now : Instant) (id g tokens : ℕ) (rs : List UsageRecord) (h : ℕ)
    → usage_of (reserve s now id g tokens rs) h
      ≡ (if g == h then rs ++ admitted_record s now id tokens ∷ [] else usage_of s h)
unfolding reserve
usage_of-reserve s now id g tokens rs h =
    ground (arith, lookup-insert g h (rs ++ admitted_record s now id tokens ∷ []) s.usage)

pub daily_count-reserve :
    (s : Store) (now : Instant) (id g tokens : ℕ) (rs : List UsageRecord) (h : ℕ)
    → daily_count (reserve s now id g tokens rs) h
      ≡ (if g == h then daily_used s g now.pacific_date + 1 else daily_count s h)
unfolding reserve
daily_count-reserve s now id g tokens rs h = ground (
  arith,
  lookup-insert g h (now.pacific_date, daily_used s g now.pacific_date + 1) s.daily_requests,
)

pub daily_used-reserve :
    (s : Store) (now : Instant) (id g tokens : ℕ) (rs : List UsageRecord)
    → daily_used (reserve s now id g tokens rs) g now.pacific_date
      ≡ daily_used s g now.pacific_date + 1
unfolding reserve daily_used
daily_used-reserve s now id g tokens rs = ground (
  arith,
  nat_beq_iff g g,
  lookup-insert g g (now.pacific_date, daily_used s g now.pacific_date + 1) s.daily_requests,
)

-- What the group would use if one more request with these tokens came in at `now`.
abbrev pub Fits : Store → Instant → ℕ → Limits → ℕ → Type 0
Fits s now g l tokens =
    let recent = prune now.monotonic (usage_of s g) in
    Within l (requests_of recent + 1) (tokens_of recent + tokens)
      (daily_used s g now.pacific_date + 1)

pub prune_usage-daily :
    (s : Store) (g now today : ℕ)
    → daily_used (prune_usage s g now).0 g today ≡ daily_used s g today
unfolding daily_used
prune_usage-daily s g now today = rw ((prune_usage-rest s g now).1, daily_used)

-- The decision of the code is the comparison with the limits.
-- The decision is the test on the pruned deque and on the count of the day.
pub admit_limited_lem :
    (s : Store) (now : Instant) (id g : ℕ) (l : Limits) (tokens : ℕ)
    → (admit_limited s now id g l tokens false).0
      ≡ not (
          exceeds l
            (requests_of (prune now.monotonic (usage_of s g)))
            (tokens_of (prune now.monotonic (usage_of s g)))
            (daily_used s g now.pacific_date)
            tokens)
unfolding admit_limited
admit_limited_lem s now id g l tokens =
    rw
      (
        prune_usage-list s g now.monotonic,
        prune_usage-daily s g now.monotonic now.pacific_date,
        admit_limited,
      )
      (ground arith)

pub admit_limited-Fits :
    (s : Store) (now : Instant) (id g : ℕ) (l : Limits) (tokens : ℕ)
    → ((admit_limited s now id g l tokens false).0 ≡ true) ↔ Fits s now g l tokens
unfolding admit_limited
admit_limited-Fits s now id g l tokens =
    rw (prune_usage-list s g now.monotonic, prune_usage-daily s g now.monotonic now.pacific_date)
      (λ h. exceeds-Within l _ _ _ tokens (ground arith), λ h. rw (Within-exceeds l _ _ _ tokens h))

-- The state that an admission leaves.
abbrev pub reserved : Store → Instant → ℕ → ℕ → ℕ → Store
reserved s now id g tokens =
    reserve (prune_usage s g now.monotonic).0 now id g tokens (prune now.monotonic (usage_of s g))

-- A refused request leaves the pruned state; one that gets in leaves the state with its record.
pub admit_limited-state :
    (s : Store) (now : Instant) (id g : ℕ) (l : Limits) (tokens : ℕ) (over : Bool)
    → admit_limited s now id g l tokens over ≡ (
        if (admit_limited s now id g l tokens over).0
        then (true, reserved s now id g tokens)
        else (false, (prune_usage s g now.monotonic).0))
unfolding admit_limited
admit_limited-state s now id g l tokens over = ground (arith, prune_usage-list s g now.monotonic)

-- A sum over the deques of the state that an admission leaves.
pub usage_of-reserved :
    (f : UsageRecord → ℕ) (s : Store) (now : Instant) (id g tokens h : ℕ)
    → sum_by f (usage_of (reserved s now id g tokens) h) ≡ (
        if g == h
        then sum_by f (prune now.monotonic (usage_of s g))
          + f (admitted_record (prune_usage s g now.monotonic).0 now id tokens)
        else sum_by f (usage_of s h))
usage_of-reserved f s now id g tokens h =
    rw
      (
        usage_of-reserve (prune_usage s g now.monotonic).0 now id g tokens
            (prune now.monotonic (usage_of s g)) h,
        prune_usage-usage s g now.monotonic h,
      )
      (ground (
        arith,
        sum_by-append f (prune now.monotonic (usage_of s g))
            (admitted_record (prune_usage s g now.monotonic).0 now id tokens ∷ []),
      ))

-- Within the limits of its group, an admitted request leaves the window and the day within them.
reserved-Within :
    (s : Store) (now : Instant) (id g : ℕ) (l : Limits) (tokens : ℕ)
    → Fits s now g l tokens
    → let s' = reserved s now id g tokens in
      Within l
        (requests_of (usage_of s' g))
        (tokens_of (usage_of s' g))
        (daily_used s' g now.pacific_date)
reserved-Within s now id g l tokens fits =
    rw
      (
        usage_of-reserved (λ r. r.request_count) s now id g tokens g,
        usage_of-reserved (λ r. r.input_tokens) s now id g tokens g,
        daily_used-reserve (prune_usage s g now.monotonic).0 now id g tokens
            (prune now.monotonic (usage_of s g)),
        prune_usage-daily s g now.monotonic now.pacific_date,
        (nat_beq_iff g g).1 refl,
      )
      fits

pub cleared-Shrinks :
    (s : Store) (c : Readings) (id : ℕ) (age : Age) → Shrinks s (cleared s c id age)
unfolding cleared
cleared-Shrinks s c id age =
    Shrinks-trans (sweep-Shrinks age c s) (release_request-Shrinks (c.release_date id) id _)

-- Past its guards, a call for a group with limits is the decision on the cleared state.
try_reserve_estimate-eq :
    (s : Store) (c : Readings) (id g n : ℕ) (age : Age) (l : Limits) (over : Bool)
    → id ≢ 0
    → is_positive age ≡ true
    → lookup g s.quota_limits ≡ some l
    → is_unlimited l ≡ false
    → try_reserve_estimate s c id g (pos n) age over
      ≡ ok (admit_limited (cleared s c id age) c.now id g l n over)
unfolding try_reserve_estimate admit
try_reserve_estimate-eq s c id g n age l over named positive limits limited =
    ground (arith, nat_beq_iff id 0, (cleared-Shrinks s c id age).limits)

-- A call that may not go over the limits, with a natural number of tokens, a nonempty identifier,
-- a positive age and limits for its group decides on the state
-- from which expired reservations and the identifier's own older one are gone. It admits the
-- request, and then the window's requests and tokens and the requests of the day are within every
-- limit with it; or it refuses and only prunes, and then the request would pass a limit.
pub try_reserve_estimate-decides :
    (s : Store) (c : Readings) (id g n : ℕ) (age : Age) (l : Limits)
    → id ≢ 0
    → is_positive age ≡ true
    → lookup g s.quota_limits ≡ some l
    → is_unlimited l ≡ false
    → let t = cleared s c id age in
      let u = reserved t c.now id g n in
      ((try_reserve_estimate s c id g (pos n) age false ≡ ok (true, u))
        × Within l
            (requests_of (usage_of u g))
            (tokens_of (usage_of u g))
            (daily_used u g c.now.pacific_date))
      ⊎ ((try_reserve_estimate s c id g (pos n) age false
            ≡ ok (false, (prune_usage t g c.now.monotonic).0))
          × ¬ Fits t c.now g l n)
try_reserve_estimate-decides s c id g n age l named positive limits limited =
    let t = cleared s c id age in
    elim (Bool-cases (admit_limited t c.now id g l n false).0) [
      | inl admitted ↦ inl (
        ground (
          arith,
          try_reserve_estimate-eq s c id g n age l false,
          admit_limited-state t c.now id g l n false,
        ),
        reserved-Within t c.now id g l n ((admit_limited-Fits t c.now id g l n).0 admitted),
      )
      | inr refused ↦ inr (
        ground (
          arith,
          try_reserve_estimate-eq s c id g n age l false,
          admit_limited-state t c.now id g l n false,
        ),
        λ fits. cc ((admit_limited-Fits t c.now id g l n).1 fits),
      )
    ]
