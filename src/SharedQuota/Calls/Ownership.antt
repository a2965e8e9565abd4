-- ===== src/SharedQuota/Calls/Ownership.antt =====
-- What the calls of `src/foundry_router/state/quota.py` leave in the owners of a replica.
use foundry_router.Base.{
  ℕ, zero, suc, ◌+◌, ◌<◌, ◌≡◌, ◌⊎◌, refl, Bool, true, false, ◌||◌, Option, none, some, List, [],
  ◌∷◌, arith, leb, length, ◌==◌, nat_eq, nat_beq_iff, Bool-cases, Option-cases, inl, inr,
}
use foundry_router.Base.Int.{pos}
use foundry_router.Base.Dict.{Dict, lookup, insert, erase, lookup-insert, lookup-erase}
use foundry_router.SharedQuota.{
  QuotaState, Policy, Decision, duplicate, refused, admitted, decide, is_boundary, settle,
}
use foundry_router.SharedQuota.Calls.{
  Entity, Fetched, Written, write_raises, conflict, written, Round, Store, Outcome, value_error,
  store_error, returned, Done, Verdict, failed, refusal, grant, read_row, write_row, after_write,
  after_decision, reserve_round, reserve_loop, max_conflicts, max_owners, reconcile_owners,
  is_owned, after_reserve, reserve_owned, try_reserve_estimate, settle_round, settle_loop,
  owners_of, after_settle, settle_owned, settle_request,
}

module _ (day_of : ℕ → ℕ) (too_large : QuotaState → Bool) where
  -- The round has read a row, admitted the attempt and written the state.
  pub record Granted (group : ℕ) (p : Policy) (id tokens : ℕ) (over : Bool) (r : Round)
      : Type 0 where
    pub entity : Entity
    pub state : QuotaState
    pub after : QuotaState
    pub was_read : read_row day_of too_large group p r ≡ some (entity, state)
    pub was_admitted : decide day_of p r.now id tokens over state ≡ admitted after
    pub was_written : write_row day_of too_large entity after r.write ≡ written

  after_write-grant :
      (w : Written) (rest : Verdict)
      → after_write day_of too_large w rest ≡ grant
      → (w ≡ written) ⊎ (rest ≡ grant)
  after_write-grant write_raises rest h = cc
  after_write-grant written rest h = inl refl
  after_write-grant conflict rest h = inr h

  decided-grant :
      (group : ℕ) (p : Policy) (id tokens : ℕ) (over : Bool) (r : Round) (rest : Verdict)
      (e : Entity) (s : QuotaState) (d : Decision)
      → read_row day_of too_large group p r ≡ some (e, s)
      → decide day_of p r.now id tokens over s ≡ d
      → after_decision day_of too_large e r.write rest d ≡ grant
      → Granted group p id tokens over r ⊎ (rest ≡ grant)
  decided-grant group p id tokens over r rest e s duplicate was_read decided h = cc
  decided-grant group p id tokens over r rest e s refused was_read decided h = cc
  decided-grant group p id tokens over r rest e s (admitted t) was_read decided h =
      elim (after_write-grant (write_row day_of too_large e t r.write) rest h) [
        | inl wrote ↦ inl (record {
          entity = e;
          state = s;
          after = t;
          was_read = was_read;
          was_admitted = decided;
          was_written = wrote;
        })
        | inr more ↦ inr more
      ]

  reserve_round-grant :
      (group : ℕ) (p : Policy) (id tokens : ℕ) (over : Bool) (r : Round) (rest : Verdict)
      → reserve_round day_of too_large group p id tokens over r rest ≡ grant
      → Granted group p id tokens over r ⊎ (rest ≡ grant)
  unfolding reserve_round
  reserve_round-grant group p id tokens over r rest h =
      elim (Bool-cases (is_boundary day_of r.now)) [
        | inl edge ↦ absurd (no_grant (rw (edge, reserve_round) at h))
        | inr inside ↦ elim (Option-cases (read_row day_of too_large group p r)) [
          | inl lost ↦ absurd (no_read (rw (inside, lost, reserve_round) at h))
          | inr ((e, s), was_read) ↦
              decided-grant group p id tokens over r rest e s _ was_read refl
                (rw (inside, was_read, reserve_round) at h)
        ]
      ]
    where
      no_grant : refusal ≡ grant → ⊥
      no_grant h = cc

      no_read : failed ≡ grant → ⊥
      no_read h = cc

  -- A loop that grants has a round that does.
  pub reserve_loop-Granted :
      (n group : ℕ) (p : Policy) (id tokens : ℕ) (over : Bool) (env : ℕ → Round) (i : ℕ)
      → reserve_loop day_of too_large n group p id tokens over env i ≡ grant
      → (k : ℕ) × (k < i + n) × Granted group p id tokens over (env k)
  unfolding reserve_loop
  reserve_loop-Granted zero group p id tokens over env i h = cc
  reserve_loop-Granted (suc n) group p id tokens over env i h =
      elim (reserve_round-grant group p id tokens over (env i)
        (reserve_loop day_of too_large n group p id tokens over env (suc i)) h) [
          | inl granted ↦ (i, omega arith, granted)
          | inr more ↦
              let (k, below, granted) =
                reserve_loop-Granted n group p id tokens over env (suc i) more in
              (k, omega (arith, below), granted)
        ]

  -- What may be known of a reservation from its end.
  abbrev pub Accounts :
      Store → ℕ → (ℕ → Fetched) → (ℕ → Round) → ℕ → ℕ → ℕ → Bool → Outcome Bool → Type 0
  Accounts s now get env id g tokens over value_error = Unit
  Accounts s now get env id g tokens over (store_error owners) =
      (owners ≡ s.owners)
      ⊎ ((reconcile_owners day_of too_large s now get ≡ some owners) ⊎ (lookup id owners ≡ some g))
  Accounts s now get env id g tokens over (returned false owners) = lookup id owners ≡ none
  Accounts s now get env id g tokens over (returned true owners) =
      (lookup id owners ≡ some g)
      × ((p : Policy) × (lookup g s.policies ≡ some p)
          × ((k : ℕ) × (k < max_conflicts) × Granted g p id tokens over (env k)))

  lookup-owned : (id g : ℕ) (owners : Dict ℕ ℕ) → lookup id (insert id g owners) ≡ some g
  lookup-owned id g owners = ground (arith, lookup-insert id id g owners, nat_beq_iff id id)

  lookup-dropped : (id : ℕ) (owners : Dict ℕ ℕ) → lookup id (erase id owners) ≡ none
  lookup-dropped id owners = ground (arith, lookup-erase id id owners, nat_beq_iff id id)

  after_reserve-Accounts :
      (s : Store) (now : ℕ) (get : ℕ → Fetched) (env : ℕ → Round) (id g tokens : ℕ) (over : Bool)
      (owners : Dict ℕ ℕ) (p : Policy) (v : Verdict)
      → lookup g s.policies ≡ some p
      → reserve_loop day_of too_large max_conflicts g p id tokens over env 0 ≡ v
      → Accounts s now get env id g tokens over (after_reserve day_of too_large id g owners v)
  after_reserve-Accounts s now get env id g tokens over owners p failed found e =
      inr (inr (lookup-owned id g owners))
  after_reserve-Accounts s now get env id g tokens over owners p refusal found e =
      lookup-dropped id (insert id g owners)
  after_reserve-Accounts s now get env id g tokens over owners p grant found e = (
    lookup-owned id g owners,
    (p, found, reserve_loop-Granted max_conflicts g p id tokens over env 0 e),
  )

  reserve_owned-Accounts :
      (s : Store) (now : ℕ) (get : ℕ → Fetched) (env : ℕ → Round) (id g tokens : ℕ) (over : Bool)
      (owners : Dict ℕ ℕ)
      → reconcile_owners day_of too_large s now get ≡ some owners
      → Accounts s now get env id g tokens over
          (reserve_owned day_of too_large s id g tokens over env owners)
  unfolding reserve_owned
  reserve_owned-Accounts s now get env id g tokens over owners kept =
      elim (Option-cases (lookup g s.policies)) [
        | inl e ↦ rw (e, reserve_owned) (inr (inl kept))
        | inr (p, e) ↦
            elim (Bool-cases
              (leb max_owners (length owners) || is_owned day_of too_large id owners)) [
                | inl full ↦ rw (e, full, reserve_owned) (inr (inl kept))
                | inr free ↦
                    rw (e, free, reserve_owned)
                      (after_reserve-Accounts s now get env id g tokens over owners p _ e refl)
              ]
      ]

  -- A reservation with a natural number of tokens. If it returns that the attempt is admitted, then
  -- in one of the eight rounds the row was read, the attempt admitted and the state written, and
  -- the attempt is owned; if it returns that it is refused, the attempt is not owned. If it raises
  -- a store error, the owners are as before or as they were reconciled, or the attempt is owned.
  pub try_reserve_estimate-Accounts :
      (named : ℕ → Bool) (s : Store) (now : ℕ) (get : ℕ → Fetched) (env : ℕ → Round)
      (id g tokens age : ℕ) (over : Bool)
      → Accounts s now get env id g tokens over
          (try_reserve_estimate day_of too_large named s now get env id g (pos tokens) age over)
  unfolding try_reserve_estimate
  try_reserve_estimate-Accounts named s now get env id g tokens age over =
      elim (Bool-cases (named id)) [
        | inr unnamed ↦ rw (unnamed, try_reserve_estimate) tt
        | inl good ↦ elim (Bool-cases (age == s.max_age)) [
          | inr other ↦ rw (good, other, try_reserve_estimate) (inl refl)
          | inl same ↦ elim (Option-cases (reconcile_owners day_of too_large s now get)) [
            | inl lost ↦ rw (good, same, lost, try_reserve_estimate) (inl refl)
            | inr (owners, kept) ↦
                rw (good, same, kept, try_reserve_estimate)
                  (reserve_owned-Accounts s now get env id g tokens over owners kept)
          ]
        ]
      ]

  -- The round has read a row, settled the attempt in it and written the state.
  pub record Settled (group : ℕ) (p : Policy) (id : ℕ) (release : Bool) (actual : Option ℕ)
      (r : Round) : Type 0 where
    pub entity : Entity
    pub state : QuotaState
    pub after : QuotaState
    pub was_read : read_row day_of too_large group p r ≡ some (entity, state)
    pub was_settled : settle release actual id state ≡ some after
    pub was_written : write_row day_of too_large entity after r.write ≡ written

  settle_round-grant :
      (group : ℕ) (p : Policy) (id : ℕ) (release : Bool) (actual : Option ℕ) (r : Round)
      (rest : Verdict)
      → settle_round day_of too_large release actual id group p r rest ≡ grant
      → Settled group p id release actual r ⊎ (rest ≡ grant)
  unfolding settle_round
  settle_round-grant group p id release actual r rest h =
      elim (Option-cases (read_row day_of too_large group p r)) [
        | inl lost ↦ absurd (no_grant (rw (lost, settle_round) at h))
        | inr ((e, s), was_read) ↦ elim (Option-cases (settle release actual id s)) [
          | inl bad ↦ absurd (no_grant (rw (was_read, bad, settle_round) at h))
          | inr (t, settled) ↦
              elim (after_write-grant (write_row day_of too_large e t r.write) rest
                (rw (was_read, settled, settle_round) at h)) [
                  | inl wrote ↦ inl (record {
                    entity = e;
                    state = s;
                    after = t;
                    was_read = was_read;
                    was_settled = settled;
                    was_written = wrote;
                  })
                  | inr more ↦ inr more
                ]
        ]
      ]
    where
      no_grant : failed ≡ grant → ⊥
      no_grant h = cc

  settle_loop-Settled :
      (n group : ℕ) (p : Policy) (id : ℕ) (release : Bool) (actual : Option ℕ) (env : ℕ → Round)
      (i : ℕ)
      → settle_loop day_of too_large n release actual id group p env i ≡ grant
      → (k : ℕ) × (k < i + n) × Settled group p id release actual (env k)
  unfolding settle_loop
  settle_loop-Settled zero group p id release actual env i h = cc
  settle_loop-Settled (suc n) group p id release actual env i h =
      elim (settle_round-grant group p id release actual (env i)
        (settle_loop day_of too_large n release actual id group p env (suc i)) h) [
          | inl settled ↦ (i, omega arith, settled)
          | inr more ↦
              let (k, below, settled) =
                settle_loop-Settled n group p id release actual env (suc i) more in
              (k, omega (arith, below), settled)
        ]

  -- What may be known of a settlement from its end.
  abbrev pub Settles :
      Store → (ℕ → Fetched) → (ℕ → Round) → Bool → Option ℕ → ℕ → Outcome Done → Type 0
  Settles s get env release actual id value_error = ⊥
  Settles s get env release actual id (store_error owners) =
      (owners ≡ s.owners)
      ⊎ ((g : ℕ) × (p : Policy) × (owners_of day_of too_large s.policies id get
            ≡ some ((g, p) ∷ []))
          × (lookup id owners ≡ some g))
  Settles s get env release actual id (returned d owners) =
      (lookup id owners ≡ none)
      × ((owners_of day_of too_large s.policies id get ≡ some [])
          ⊎ ((g : ℕ) × (p : Policy) × (owners_of day_of too_large s.policies id get
                ≡ some ((g, p) ∷ []))
              × ((k : ℕ) × (k < max_conflicts) × Settled g p id release actual (env k))))

  after_settle-Settles :
      (s : Store) (get : ℕ → Fetched) (env : ℕ → Round) (release : Bool) (actual : Option ℕ)
      (id g : ℕ) (p : Policy) (v : Verdict)
      → owners_of day_of too_large s.policies id get ≡ some ((g, p) ∷ [])
      → settle_loop day_of too_large max_conflicts release actual id g p env 0 ≡ v
      → Settles s get env release actual id (after_settle day_of too_large id g s.owners v)
  after_settle-Settles s get env release actual id g p failed here e =
      inr (g, p, here, lookup-owned id g s.owners)
  after_settle-Settles s get env release actual id g p refusal here e =
      inr (g, p, here, lookup-owned id g s.owners)
  after_settle-Settles s get env release actual id g p grant here e = (
    lookup-dropped id (insert id g s.owners),
    inr (g, p, here, settle_loop-Settled max_conflicts g p id release actual env 0 e),
  )

  settle_owned-Settles :
      (s : Store) (get : ℕ → Fetched) (env : ℕ → Round) (release : Bool) (actual : Option ℕ)
      (id : ℕ) (gs : List (ℕ × Policy))
      → owners_of day_of too_large s.policies id get ≡ some gs
      → Settles s get env release actual id
          (settle_owned day_of too_large s release actual id env gs)
  unfolding settle_owned
  settle_owned-Settles s get env release actual id [] here = (lookup-dropped id s.owners, inl here)
  settle_owned-Settles s get env release actual id ((g, p) ∷ []) here =
      after_settle-Settles s get env release actual id g p _ here refl
  settle_owned-Settles s get env release actual id ((g, p) ∷ h ∷ gs) here = inl refl

  -- A settlement that returns leaves the attempt unowned, and either no row of a group had it or
  -- in one of the eight rounds the row of the one group whose row had it was read, the attempt
  -- settled in it and the state written. One that raises leaves the owners as they were, or the
  -- attempt owned by the one group whose row had it.
  pub settle_request-Settles :
      (s : Store) (get : ℕ → Fetched) (env : ℕ → Round) (release : Bool) (actual : Option ℕ)
      (id : ℕ)
      → Settles s get env release actual id
          (settle_request day_of too_large s get env release actual id)
  unfolding settle_request
  settle_request-Settles s get env release actual id =
      elim (Option-cases (owners_of day_of too_large s.policies id get)) [
        | inl lost ↦ rw (lost, settle_request) (inl refl)
        | inr (gs, here) ↦
            rw (here, settle_request) (settle_owned-Settles s get env release actual id gs here)
      ]
