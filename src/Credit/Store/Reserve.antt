-- ===== src/Credit/Store/Reserve.antt =====
-- Assignments of `src/foundry_router/credit.py` against the safety reserve of the account.
use foundry_router.Base.{
  ℕ, ◌+◌, ◌≤◌, ◌<◌, ◌↔◌, ◌≡◌, Bool, true, false, Option, none, some, arith, nat_eq, nat_beq_iff,
  Bool-cases, Option-cases, inl, inr,
}
use foundry_router.Base.Dict.{lookup, lookup-insert}
use foundry_router.Credit.Cycle.{Date, Time}
use foundry_router.Credit.Store.{
  Account, Store, Outcome, finished, returns, raises, then_do, sweep, rollover, Policy,
  safety_reserve, available_credit, assess, is_assignable, assign, account_of, resolve_credit_group,
  try_assign_swept, try_assign,
}

-- What an account holds in flight and has to keep in reserve is within what remains of it.
abbrev pub IsCovered : Policy → Account → Type 0
IsCovered p a = a.reserved_inflight + safety_reserve p a ≤ a.estimated_remaining

assess-covers :
    (at : Date → ℕ) (now : Time) (p : Policy) (cost : ℕ) (a : Account)
    → is_assignable (assess at now p cost a) ≡ true
    → a.reserved_inflight + cost + safety_reserve p a ≤ a.estimated_remaining
unfolding assess available_credit
assess-covers at now p cost a h = ground arith

-- An account can take a request exactly if something is available above what it holds in flight
-- and the safety reserve, and the cost of the request fits into it.
pub assess-is_assignable_iff :
    (at : Date → ℕ) (now : Time) (p : Policy) (cost : ℕ) (a : Account)
    → (is_assignable (assess at now p cost a) ≡ true) ↔ (
        (a.reserved_inflight + safety_reserve p a < a.estimated_remaining)
        × (a.reserved_inflight + cost + safety_reserve p a ≤ a.estimated_remaining))
unfolding assess available_credit
assess-is_assignable_iff at now p cost a =
    ((λ h. (ground arith, ground arith)), (λ h. ground arith))

-- Where a call returns that the request has been assigned, the account is covered.
abbrev pub AssignedIsCovered : Policy → ℕ → Outcome Bool → Type 0
AssignedIsCovered p g (returns true t) =
    (a : Account) × (lookup g t.snapshots ≡ some a) × IsCovered p a
AssignedIsCovered p g (returns false t) = Unit
AssignedIsCovered p g (raises e t) = Unit

assign-IsCovered :
    (at : Date → ℕ) (now : Time) (clock : ℕ) (p : Policy) (id g cost : ℕ) (a : Account) (s : Store)
    → AssignedIsCovered p g (assign at now clock p id g cost a s)
unfolding assign safety_reserve
assign-IsCovered at now clock p id g cost a s =
    elim (Bool-cases (is_assignable (assess at now p cost a))) [
      | inl able ↦
          let b : Account = record a { reserved_inflight = a.reserved_inflight + cost } in
          rw (able, assign, AssignedIsCovered)
            (
              b,
              ground (arith, lookup-insert g g b s.snapshots, nat_beq_iff g g),
              assess-covers at now p cost a able,
            )
      | inr unable ↦ rw (unable, assign, AssignedIsCovered) tt
    ]

try_assign_swept-IsCovered :
    (at : Date → ℕ) (now : Time) (clock : ℕ) (p : Policy) (id g cost : ℕ) (s : Store)
    → lookup id s.reservations ≡ none
    → AssignedIsCovered p g (try_assign_swept at now clock p id g cost s)
unfolding try_assign_swept
try_assign_swept-IsCovered at now clock p id g cost s fresh = elim (Option-cases (account_of s g)) [
  | inl e ↦ rw (fresh, e, try_assign_swept, AssignedIsCovered) tt
  | inr (a, e) ↦
      rw (fresh, e, try_assign_swept)
        (assign-IsCovered at now clock p id g cost (rollover at now a) s)
]

-- A request that has no reservation after the sweep is assigned only if, its cost included, what
-- its account holds in flight and the safety reserve are within what remains of the account.
pub try_assign-IsCovered :
    (at : Date → ℕ) (now : Time) (clock created : ℕ) (p : Policy) (age : Option ℕ) (id b cost : ℕ)
    (s t : Store)
    → sweep clock age s ≡ returns finished t
    → lookup id t.reservations ≡ none
    → AssignedIsCovered p
        (resolve_credit_group s.credit_aliases b)
        (try_assign at now clock created p age id b cost s)
unfolding try_assign then_do
try_assign-IsCovered at now clock created p age id b cost s t swept fresh =
    rw (swept, try_assign, then_do)
      (try_assign_swept-IsCovered at now created p id (resolve_credit_group s.credit_aliases b) cost
        t fresh)
