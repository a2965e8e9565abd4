-- ===== src/SharedQuota/Calls/Progress.antt =====
-- When a reservation of `src/foundry_router/state/quota.py` comes through in spite of conflicts.
use foundry_router.Base.{
  ℕ, zero, suc, ◌+◌, ◌≤◌, ◌<◌, ◌≡◌, refl, ◌∙◌, Bool, true, false, ◌||◌, some, arith, leb, length,
  ◌==◌, nat_eq,
}
use mathlib.Core.Path.{subst}
use foundry_router.Base.Int.{pos}
use foundry_router.Base.Dict.{Dict, lookup, insert}
use foundry_router.SharedQuota.{QuotaState, Policy, admitted, decide, is_boundary}
use foundry_router.SharedQuota.Calls.{
  Entity, Fetched, Written, conflict, written, Round, Store, returned, store_error, Verdict, grant,
  failed, read_row, write_row, after_write, reserve_round, reserve_loop, max_conflicts, max_owners,
  reconcile_owners, is_owned, reserve_owned, try_reserve_estimate,
}

module _ (day_of : ℕ → ℕ) (too_large : QuotaState → Bool) where
  -- The round is not near midnight, reads the row and admits the attempt; its write ends so.
  pub record Admits (group : ℕ) (p : Policy) (id tokens : ℕ) (over : Bool) (w : Written) (r : Round)
      : Type 0 where
    pub inside : is_boundary day_of r.now ≡ false
    pub entity : Entity
    pub state : QuotaState
    pub after : QuotaState
    pub was_read : read_row day_of too_large group p r ≡ some (entity, state)
    pub was_admitted : decide day_of p r.now id tokens over state ≡ admitted after
    pub ended : write_row day_of too_large entity after r.write ≡ w

  module _ (group : ℕ) (p : Policy) (id tokens : ℕ) (over : Bool) where
    -- What the round makes of the rounds that may follow is what its write makes of them.
    reserve_round-write :
        (w : Written) (r : Round) (rest : Verdict)
        → Admits group p id tokens over w r
        → reserve_round day_of too_large group p id tokens over r rest
          ≡ after_write day_of too_large w rest
    unfolding reserve_round
    reserve_round-write w r rest h =
        rw (h.inside, h.was_read, h.was_admitted, h.ended, reserve_round) refl

    reserve_loop-grant :
        (n k : ℕ) (env : ℕ → Round) (i : ℕ)
        → k < n
        → ((j : ℕ) → i ≤ j → j < i + k → Admits group p id tokens over conflict (env j))
        → Admits group p id tokens over written (env (i + k))
        → reserve_loop day_of too_large n group p id tokens over env i ≡ grant
    unfolding reserve_loop
    reserve_loop-grant zero k env i enough before last = absurd (omega (arith, enough))
    reserve_loop-grant (suc n) zero env i enough before last =
        reserve_round-write written (env i)
          (reserve_loop day_of too_large n group p id tokens over env (suc i))
          (subst (λ j. Admits group p id tokens over written (env j)) (omega arith) last)
    reserve_loop-grant (suc n) (suc k) env i enough before last =
        reserve_round-write conflict (env i)
          (reserve_loop day_of too_large n group p id tokens over env (suc i))
          (before i (omega arith) (omega arith))
        ∙ reserve_loop-grant n k env (suc i) (omega (arith, enough))
            (λ j low high. before j (omega (arith, low)) (omega (arith, high)))
            (subst (λ j. Admits group p id tokens over written (env j)) (omega arith) last)

  -- A reservation that passes the checks before the loop, with an age and an identifier as they
  -- have to be, owners that are reconciled, a policy of its group, room for an owner and no owner
  -- of its identifier: if one of its eight rounds reads the row, admits the attempt and writes it,
  -- and each round before that admits it and meets a conflict, then it returns that the attempt is
  -- admitted, and the attempt is owned.
  pub try_reserve_estimate-grant :
      (named : ℕ → Bool) (s : Store) (now : ℕ) (get : ℕ → Fetched) (env : ℕ → Round)
      (id g tokens k : ℕ) (over : Bool) (owners : Dict ℕ ℕ) (p : Policy)
      → named id ≡ true
      → reconcile_owners day_of too_large s now get ≡ some owners
      → lookup g s.policies ≡ some p
      → leb max_owners (length owners) || is_owned day_of too_large id owners ≡ false
      → k < max_conflicts
      → ((j : ℕ) → j < k → Admits g p id tokens over conflict (env j))
      → Admits g p id tokens over written (env k)
      → try_reserve_estimate day_of too_large named s now get env id g (pos tokens) s.max_age over
        ≡ returned true (insert id g owners)
  unfolding try_reserve_estimate reserve_owned
  try_reserve_estimate-grant named s now get env id g tokens k over owners p good kept found free
        enough before last =
      let same : (s.max_age == s.max_age) ≡ true = ground arith in
      rw
        (
          good,
          same,
          kept,
          found,
          free,
          reserve_loop-grant g p id tokens over max_conflicts k env 0 enough
              (λ j low high. before j (omega (arith, high)))
              (subst (λ j. Admits g p id tokens over written (env j)) (omega arith) last),
          try_reserve_estimate,
          reserve_owned,
        )
        refl

  -- Conflicts to the end leave no grant.
  reserve_loop-failed :
      (n group : ℕ) (p : Policy) (id tokens : ℕ) (over : Bool) (env : ℕ → Round) (i : ℕ)
      → ((j : ℕ) → i ≤ j → j < i + n → Admits group p id tokens over conflict (env j))
      → reserve_loop day_of too_large n group p id tokens over env i ≡ failed
  unfolding reserve_loop
  reserve_loop-failed zero group p id tokens over env i h = refl
  reserve_loop-failed (suc n) group p id tokens over env i h =
      reserve_round-write group p id tokens over conflict (env i)
        (reserve_loop day_of too_large n group p id tokens over env (suc i))
        (h i (omega arith) (omega arith))
      ∙ reserve_loop-failed n group p id tokens over env (suc i)
          (λ j low high. h j (omega (arith, low)) (omega (arith, high)))

  -- A reservation that passes the checks before the loop, with an age and an identifier as they
  -- have to be, owners that are reconciled, a policy of its group, room for an owner and no owner
  -- of its identifier: if each of its eight rounds reads the row, admits the attempt and meets a
  -- conflict, then it raises a store error, and the attempt stays owned.
  pub try_reserve_estimate-store_error :
      (named : ℕ → Bool) (s : Store) (now : ℕ) (get : ℕ → Fetched) (env : ℕ → Round)
      (id g tokens : ℕ) (over : Bool) (owners : Dict ℕ ℕ) (p : Policy)
      → named id ≡ true
      → reconcile_owners day_of too_large s now get ≡ some owners
      → lookup g s.policies ≡ some p
      → leb max_owners (length owners) || is_owned day_of too_large id owners ≡ false
      → ((j : ℕ) → j < max_conflicts → Admits g p id tokens over conflict (env j))
      → try_reserve_estimate day_of too_large named s now get env id g (pos tokens) s.max_age over
        ≡ store_error (insert id g owners)
  unfolding try_reserve_estimate reserve_owned
  try_reserve_estimate-store_error named s now get env id g tokens over owners p good kept found
        free conflicts =
      let same : (s.max_age == s.max_age) ≡ true = ground arith in
      rw
        (
          good,
          same,
          kept,
          found,
          free,
          reserve_loop-failed max_conflicts g p id tokens over env 0
              (λ j low high. conflicts j (omega (arith, high))),
          try_reserve_estimate,
          reserve_owned,
        )
        refl
