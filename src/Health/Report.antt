-- ===== src/Health/Report.antt =====
-- What a snapshot of the health store says of each backend.
use foundry_router.Base.{
  ℕ, ◌+◌, ◌-◌, ◌≤◌, ◌≡◌, refl, ap, ◌∙◌, sym, Bool, true, false, ◌||◌, none, some, List, [], ◌∷◌,
  arith, ltb, ◌==◌, nat_eq, nat_beq_iff, any, if◌then◌else◌, Bool-cases, Option-cases, inl, inr,
}
use foundry_router.Base.Int.{ℤ}
use foundry_router.Base.Dict.{Dict, lookup, insert, lookup-insert}
use foundry_router.Health.Store.{
  HealthState, active, HealthRecord, HealthSnapshot, HealthStore, is_cooldown, is_disabled,
  write_unless_disabled, set_backend_cooldown, duration, recover, recovered, describe, snapshot_of,
  snapshot_each, snapshot_backend_health,
}

-- To recover first makes no difference to a later snapshot.
snapshot_of-recover :
    (now t : ℕ) (r : HealthRecord)
    → now ≤ t
    → snapshot_of t (some (recover now r)) ≡ snapshot_of t (some r)
unfolding snapshot_of describe recover
snapshot_of-recover now t r later = ground arith

pub snapshot_of-recovered :
    (now t b g : ℕ) (s : HealthStore)
    → now ≤ t
    → snapshot_of t (lookup g (recovered now b s)) ≡ snapshot_of t (lookup g s)
unfolding recovered
snapshot_of-recovered now t b g s later = elim (Option-cases (lookup b s)) [
  | inl e ↦ rw (e, recovered)
  | inr (r, e) ↦
      rw (e, recovered, lookup-insert b g (recover now r) s)
        (elim (Bool-cases (b == g)) [
          | inl same ↦ rw same (
              snapshot_of-recover now t r later
              ∙ ap (snapshot_of t)
                  (sym (ap (λ k. lookup k s) (sym ((nat_beq_iff b g).0 same)) ∙ e)))
          | inr other ↦ rw other
        ])
]

-- A snapshot leaves what any later one says.
pub snapshot_each-later :
    (now t : ℕ) (bs : List ℕ) (s : HealthStore) (out : Dict ℕ HealthSnapshot) (g : ℕ)
    → now ≤ t
    → snapshot_of t (lookup g (snapshot_each now bs s out).1) ≡ snapshot_of t (lookup g s)
unfolding snapshot_each
snapshot_each-later now t [] s out g later = refl
snapshot_each-later now t (b ∷ bs) s out g later =
    snapshot_each-later now t bs (recovered now b s) (insert b (snapshot_of now (lookup b s)) out) g
      later
    ∙ snapshot_of-recovered now t b g s later

insert-or :
    (p : Bool) (b g : ℕ) (s : HealthStore) (out : Dict ℕ HealthSnapshot) (now : ℕ)
    → (if p
        then some (snapshot_of now (lookup g s))
        else (if b == g then some (snapshot_of now (lookup b s)) else lookup g out))
      ≡ (if (b == g) || p then some (snapshot_of now (lookup g s)) else lookup g out)
insert-or p b g s out now = elim (Bool-cases (b == g)) [
  | inl same ↦ rw same (
      ap
        (λ k.
          if p then some (snapshot_of now (lookup g s)) else some (snapshot_of now (lookup k s)))
        ((nat_beq_iff b g).0 same)
      ∙ both p (some (snapshot_of now (lookup g s))))
  | inr other ↦ rw other
]
  where
    both : {A : Type 0} (q : Bool) (x : A) → (if q then x else x) ≡ x
    both true x = refl
    both false x = refl

pub lookup-snapshot_each :
    (now : ℕ) (bs : List ℕ) (s : HealthStore) (out : Dict ℕ HealthSnapshot) (g : ℕ)
    → lookup g (snapshot_each now bs s out).0
      ≡ (if any (λ h. h == g) bs then some (snapshot_of now (lookup g s)) else lookup g out)
unfolding snapshot_each
lookup-snapshot_each now [] s out g = refl
lookup-snapshot_each now (b ∷ bs) s out g =
    rw
      (
        lookup-snapshot_each now bs (recovered now b s)
            (insert b (snapshot_of now (lookup b s)) out) g,
        snapshot_of-recovered now now b g s (omega arith),
        lookup-insert b g (snapshot_of now (lookup b s)) out,
      )
      (insert-or (any (λ h. h == g) bs) b g s out now)

abbrev pub is_disabled_at : ℕ → HealthStore → Bool
is_disabled_at b s = elim (lookup b s) [ none ↦ false | some r ↦ is_disabled r.state ]

lookup-write :
    (b : ℕ) (r : HealthRecord) (s : HealthStore)
    → is_disabled_at b s ≡ false
    → lookup b (write_unless_disabled b r s) ≡ some r
unfolding write_unless_disabled
lookup-write b r s h = elim (Option-cases (lookup b s)) [
  | inl e ↦ rw (e, write_unless_disabled) (ground (arith, lookup-insert b b r s, nat_beq_iff b b))
  | inr (old, e) ↦
      rw (e, write_unless_disabled, (rw (e, is_disabled_at) at h))
        (ground (arith, lookup-insert b b r s, nat_beq_iff b b))
]

-- What a snapshot says of a record in cooldown.
snapshot_of-cooldown :
    (t : ℕ) (r : HealthRecord)
    → is_cooldown r.state ≡ true
    → some (snapshot_of t (some r)) ≡ (
        if ltb t r.cooldown_until
        then some (record { state = r.state; cooldown_remaining = r.cooldown_until - t })
        else some (record { state = active; cooldown_remaining = 0 }))
unfolding snapshot_of describe recover
snapshot_of-cooldown t r cool = ground arith

-- Unless the backend is disabled, each later snapshot that is asked for it after it is put in
-- cooldown says exactly that: until the time is over the state and what remains, and from then on
-- that it is active.
pub set_backend_cooldown-snapshot :
    (now t b : ℕ) (state : HealthState) (cooldown : ℤ) (s : HealthStore) (bs : List ℕ)
    → now ≤ t
    → is_cooldown state ≡ true
    → is_disabled_at b s ≡ false
    → any (λ h. h == b) bs ≡ true
    → lookup b (snapshot_backend_health t bs (set_backend_cooldown now b state cooldown s)).0 ≡ (
        if ltb t (now + duration cooldown)
        then some (record { state = state; cooldown_remaining = now + duration cooldown - t })
        else some (record { state = active; cooldown_remaining = 0 }))
unfolding snapshot_backend_health set_backend_cooldown
set_backend_cooldown-snapshot now t b state cooldown s bs later cool enabled asked =
    let made : HealthRecord = record { state = state; cooldown_until = now + duration cooldown } in
    rw
      (
        lookup-snapshot_each t bs (write_unless_disabled b made s) [] b,
        asked,
        lookup-write b made s enabled,
      )
      (snapshot_of-cooldown t made cool)
