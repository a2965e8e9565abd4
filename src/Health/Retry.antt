-- ===== src/Health/Retry.antt =====
-- The time to retry after of the response when every candidate is in cooldown, of
-- `src/foundry_router/health/__init__.py`.
use foundry_router.Base.{
  ℕ, ◌+◌, ◌*◌, ◌≤◌, ◌<◌, ◌≡◌, refl, Bool, true, false, not, Option, none, some, List, [], ◌∷◌,
  arith, ltb, leb, ◌==◌, nat_eq, nat_beq_iff, any, All, Bool-cases, inl, inr,
}
use foundry_router.Base.Dict.{lookup}
use foundry_router.Health.Store.{
  HealthRecord, HealthSnapshot, HealthStore, is_cooldown, recover, describe, snapshot_of,
  snapshot_backend_health,
}
use foundry_router.Health.Response.{
  second, Response, Outcome, no_response, key_error, response, states_of, least_remaining,
  ceil_seconds, respond, cooldown_exhausted_response,
}
use foundry_router.Health.Report.{lookup-snapshot_each, snapshot_each-later}

-- What a snapshot at `now` says of each backend.
unfoldable pub reports : ℕ → List ℕ → HealthStore → List HealthSnapshot
reports now [] s = []
reports now (b ∷ bs) s = snapshot_of now (lookup b s) ∷ reports now bs s

states_of-reports :
    (now : ℕ) (bs cs : List ℕ) (s : HealthStore)
    → All (λ c. any (λ h. h == c) bs ≡ true) cs
    → states_of cs (snapshot_backend_health now bs s).0 ≡ some (reports now cs s)
unfolding states_of reports snapshot_backend_health
states_of-reports now bs [] s h = refl
states_of-reports now bs (c ∷ cs) s h =
    rw (states_of, lookup-snapshot_each now bs s [] c, h.0, states_of-reports now bs cs s h.1)

any-weaken :
    (b : ℕ) (bs cs : List ℕ)
    → All (λ c. any (λ h. h == c) bs ≡ true) cs
    → All (λ c. any (λ h. h == c) (b ∷ bs) ≡ true) cs
any-weaken b bs [] h = tt
any-weaken b bs (c ∷ cs) h = (ground (arith, h.0), any-weaken b bs cs h.1)

any_self : (bs : List ℕ) → All (λ c. any (λ h. h == c) bs ≡ true) bs
any_self [] = tt
any_self (b ∷ bs) = (ground (arith, nat_beq_iff b b), any-weaken b bs bs (any_self bs))

-- The candidates of which the snapshot is taken all have one: the response is that on their
-- reports, and no `KeyError` is raised.
pub cooldown_exhausted_response-reports :
    (now : ℕ) (bs : List ℕ) (s : HealthStore)
    → cooldown_exhausted_response bs (snapshot_backend_health now bs s).0
      ≡ respond (reports now bs s)
unfolding cooldown_exhausted_response reports respond
cooldown_exhausted_response-reports now [] s = refl
cooldown_exhausted_response-reports now (b ∷ bs) s =
    rw (cooldown_exhausted_response, states_of-reports now (b ∷ bs) (b ∷ bs) s (any_self (b ∷ bs)))

-- Whether a candidate is in cooldown at a later time, by what remained.
later-cooldown :
    (now t : ℕ) (o : Option HealthRecord)
    → now ≤ t
    → is_cooldown (snapshot_of now o).state ≡ true
    → is_cooldown (snapshot_of t o).state ≡ ltb t (now + (snapshot_of now o).cooldown_remaining)
unfolding snapshot_of describe recover
later-cooldown now t none later cool = cc
later-cooldown now t (some r) later cool = ground arith

-- All are still in cooldown as long as the least remaining time has not gone by.
later-ready :
    (now t : ℕ) (b : ℕ) (bs : List ℕ) (s : HealthStore)
    → now ≤ t
    → any (λ y. not (is_cooldown y.state)) (reports now (b ∷ bs) s) ≡ false
    → any (λ y. not (is_cooldown y.state)) (reports t (b ∷ bs) s)
      ≡ leb (now + least_remaining (snapshot_of now (lookup b s)) (reports now bs s)) t
unfolding reports least_remaining
later-ready now t b [] s later cool = ground (arith, later-cooldown now t (lookup b s) later)
later-ready now t b (c ∷ cs) s later cool =
    ground (arith, later-cooldown now t (lookup b s) later, later-ready now t c cs s later)

reports-snapshot :
    (now t : ℕ) (bs cs : List ℕ) (s : HealthStore)
    → now ≤ t
    → reports t cs (snapshot_backend_health now bs s).1 ≡ reports t cs s
unfolding reports snapshot_backend_health
reports-snapshot now t bs [] s later = refl
reports-snapshot now t bs (c ∷ cs) s later =
    rw (snapshot_each-later now t bs s [] c later, reports-snapshot now t bs cs s later)

ceil_seconds-bounds :
    (n : ℕ) → (n ≤ ceil_seconds n * second) × (ceil_seconds n * second < n + second)
unfolding ceil_seconds
ceil_seconds-bounds n = (omega arith, omega arith)

abbrev pub is_response : Outcome → Bool
is_response no_response = false
is_response key_error = false
is_response (response r) = true

-- A response on the reports gives its time, and what it says of a later time.
respond-later :
    (now t : ℕ) (bs : List ℕ) (s : HealthStore) (r : Response)
    → now ≤ t
    → respond (reports now bs s) ≡ response r
    → (now + r.retry_after * second ≤ t → respond (reports t bs s) ≡ no_response)
      × (t + second ≤ now + r.retry_after * second → is_response (respond (reports t bs s)) ≡ true)
unfolding respond reports
respond-later now t [] s r later e = cc
respond-later now t (b ∷ bs) s r later e =
    let least = least_remaining (snapshot_of now (lookup b s)) (reports now bs s) in
    elim (Bool-cases (any (λ y. not (is_cooldown y.state)) (reports now (b ∷ bs) s))) [
      | inl ready ↦ absurd (no_response_then (rw (ready, respond) at e))
      | inr cool ↦
          let after = later-ready now t b bs s later cool in
          let wait = retry_is (rw (cool, respond) at e) in
          let bounds = ceil_seconds-bounds least in
          (
            (λ h. rw (after, respond) (ground (arith, bounds, wait, h))),
            (λ h. rw (after, respond) (ground (arith, bounds, wait, h))),
          )
    ]
  where
    no_response_then : no_response ≡ response r → ⊥
    no_response_then e = cc

    retry_is :
        {c n : ℕ}
        → response (record { status_code = c; retry_after = n }) ≡ response r
        → n ≡ r.retry_after
    retry_is e = cc

-- If the candidates of a snapshot are refused with a time to retry after, then once these seconds
-- have gone by they are not refused any more, and a second earlier or before they still are: the
-- time is the least number of whole seconds, as far as no other call changes the health.
pub retry_after-exact :
    (now t : ℕ) (bs : List ℕ) (s : HealthStore) (r : Response)
    → now ≤ t
    → cooldown_exhausted_response bs (snapshot_backend_health now bs s).0 ≡ response r
    → let s' = (snapshot_backend_health now bs s).1 in
      let out = cooldown_exhausted_response bs (snapshot_backend_health t bs s').0 in
      (now + r.retry_after * second ≤ t → out ≡ no_response)
      × (t + second ≤ now + r.retry_after * second → is_response out ≡ true)
retry_after-exact now t bs s r later e =
    rw
      (
        cooldown_exhausted_response-reports t bs (snapshot_backend_health now bs s).1,
        reports-snapshot now t bs bs s later,
      )
      (respond-later now t bs s r later (rw (cooldown_exhausted_response-reports now bs s) at e))
