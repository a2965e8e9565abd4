-- ===== src/Routing/Claim.antt =====
-- The end of `select_candidate_backend` of `src/foundry_router/routing/__init__.py`: the candidates
-- in their order, each with the claims on its credit, its quota and its combination, and what is
-- given back when a later claim is refused or raises. The stores are an interface; a call raises or
-- gives a value, and either way leaves a state. That the task is cancelled, and the cleanup that
-- follows a TimeoutError that a store itself raises, are left out.
pub mod Balance
pub mod Late
pub mod Failure
pub mod Ledger
mod Tests
use foundry_router.Base.{
  ℕ, suc, Bool, true, false, not, ◌&&◌, Option, none, some, List, [], ◌∷◌, ◌++◌, if◌then◌else◌,
}

pub data Answer {ℓ} (A : Type ℓ) : Type ℓ where
  raises : Answer A
  gives : A → Answer A

pub data Done : Type 0 where
  done : Done

-- The calls that the selection makes for its request: on the credit of a backend, on the quota of
-- a group under the identifier of an attempt, and on the combination of a backend.
pub record Stores {ℓ} (S : Type ℓ) : Type ℓ where
  pub try_assign : ℕ → S → Answer Bool × S
  pub finalize_credit : Option ℕ → S → Answer Done × S
  pub try_reserve : ℕ → ℕ → Bool → S → Answer Bool × S
  pub release_quota : ℕ → S → Answer Done × S
  pub admit_combination : ℕ → Bool → S → Answer (Option ℕ) × S
  pub release_ticket : Option ℕ → S → Answer Done × S

-- What the selection knows when it comes to the claims. `attempt_id` gives the identifiers of the
-- attempts on the quota: the one of the request, or new ones. `is_expired` gives the answers of
-- `intake_expired`, and `is_logged` whether the decision for a backend is logged without a raise.
pub record Selection : Type 0 where
  pub credit_metered : ℕ → Bool
  pub quota_group : ℕ → ℕ
  pub is_limited : ℕ → Bool
  pub has_rate_limits : Bool
  pub has_exclusion : Bool
  pub protected_fallback : Bool
  pub is_probe : Bool
  pub attempt_id : ℕ → ℕ
  pub is_expired : ℕ → Bool
  pub is_logged : ℕ → Bool

-- `selected` has the backend, the ticket and the attempt, `race_lost` whether a reservation of
-- quota failed. `raised` tells whether all calls that give claims back have returned; `unlogged`,
-- with the backend and the attempt, is the exception of the log.
pub data Ending : Type 0 where
  expired : Ending
  selected : ℕ → Option ℕ → ℕ → Ending
  race_lost : Bool → Ending
  raised : Bool → Ending
  unlogged : ℕ → ℕ → Ending

-- A value is handed on, an exception ends the selection.
pub on_return {ℓ κ} :
    {S : Type ℓ} {A : Type κ} → Answer A × S → (S → Ending × S) → (A → S → Ending × S) → Ending × S
on_return (raises, s) undo go = undo s
on_return (gives a, s) undo go = go a s

module _ {ℓ} {S : Type ℓ} (o : Stores S) where
  abbrev pub give_up : S → Ending × S
  give_up s = (raised false, s)

  abbrev pub returned : Answer Done → Bool
  returned raises = false
  returned (gives d) = true

  -- `protected_cleanup`: every operation runs, whatever the others do. The result tells whether
  -- all have returned.
  pub protected_cleanup : List (S → Answer Done × S) → S → Bool × S
  protected_cleanup [] s = (true, s)
  protected_cleanup (f ∷ fs) s =
      let (a, t) = f s in let (ok, u) = protected_cleanup fs t in (returned a && ok, u)

  abbrev pub raise_after : List (S → Answer Done × S) → S → Ending × S
  raise_after fs s = let (ok, t) = protected_cleanup fs s in (raised ok, t)

  module _ (q : Selection) where
    abbrev pub holds_quota : ℕ → Bool
    holds_quota b = q.has_rate_limits && q.is_limited b

    -- The credit: a backend that is not metered gives back what an earlier candidate has left.
    pub claim_credit : ℕ → S → Answer Bool × S
    claim_credit b s =
        if q.credit_metered b
        then o.try_assign b s
        else (let (a, t) = o.finalize_credit none s in
            (elim a [ raises ↦ raises | gives d ↦ gives true ], t))

    -- The log of the decision, and the result.
    pub log_selected : ℕ → ℕ → Option ℕ → S → Ending × S
    log_selected b attempt ticket s =
        if q.is_logged b
        then (selected b ticket attempt, s)
        else (if q.has_exclusion
            then (unlogged b attempt, (o.release_ticket ticket s).1)
            else (unlogged b attempt, s))

    abbrev pub quota_cleanup : ℕ → List (S → Answer Done × S)
    quota_cleanup attempt = if q.has_rate_limits then o.release_quota attempt ∷ [] else []

    -- No ticket: the credit and the attempt are given back, and the next candidate is tried.
    pub return_quota : Bool → ℕ → (S → Ending × S) → S → Ending × S
    return_quota true attempt rest s = on_return (o.release_quota attempt s) give_up (λ d t. rest t)
    return_quota false attempt rest s = rest s

    pub return_claims : ℕ → ℕ → (S → Ending × S) → S → Ending × S
    return_claims b attempt rest s =
        on_return (o.finalize_credit (some b) s) give_up
          (λ d t. return_quota q.has_rate_limits attempt rest t)

    abbrev pub on_ticket : ℕ → ℕ → (S → Ending × S) → Option ℕ → S → Ending × S
    on_ticket b attempt rest none s = return_claims b attempt rest s
    on_ticket b attempt rest (some ticket) s = log_selected b attempt (some ticket) s

    -- The combination.
    pub claim_combination : ℕ → ℕ → (S → Ending × S) → S → Ending × S
    claim_combination b attempt rest s =
        if q.has_exclusion
        then on_return (o.admit_combination b q.is_probe s)
            (raise_after (o.finalize_credit (some b) ∷ quota_cleanup attempt))
            (on_ticket b attempt rest)
        else log_selected b attempt none s

    -- The quota was reserved or not; `rest` is told whether it was not.
    pub on_reserved : ℕ → ℕ → (Bool → S → Ending × S) → Bool → Bool → S → Ending × S
    on_reserved b attempt rest lost true s = claim_combination b attempt (rest lost) s
    on_reserved b attempt rest lost false s =
        on_return (o.finalize_credit (some b) s) give_up (λ d t. rest true t)

    pub claim_quota : ℕ → ℕ → (Bool → S → Ending × S) → Bool → S → Ending × S
    claim_quota b attempt rest lost s =
        if holds_quota b
        then on_return (o.try_reserve attempt (q.quota_group b) q.protected_fallback s)
            (raise_after (o.finalize_credit (some b) ∷ o.release_quota attempt ∷ []))
            (on_reserved b attempt rest lost)
        else claim_combination b attempt (rest lost) s

    -- The loop over the candidates: `i` of them have been tried, with `n` attempts on quotas, and
    -- `lost` tells whether one of these has been refused.
    pub claim_candidates : List ℕ → ℕ → ℕ → Bool → S → Ending × S
    claim_candidates [] i n lost s = (race_lost lost, s)
    claim_candidates (b ∷ bs) i n lost s =
        if q.is_expired i
        then (expired, s)
        else on_return (claim_credit b s) give_up (λ reserved t.
          if reserved
          then claim_quota b (q.attempt_id n) (claim_candidates bs (suc i) (suc n)) lost t
          else claim_candidates bs (suc i) n lost t)

    -- What the result of a selection that is too late names: its backend, ticket and attempt.
    abbrev pub backend_of : Ending → Option ℕ
    backend_of (selected b ticket attempt) = some b
    backend_of _ = none

    abbrev pub ticket_of : Ending → Option ℕ
    ticket_of (selected b ticket attempt) = ticket
    ticket_of _ = none

    -- `result.quota_attempt_id or request_id`
    abbrev pub attempt_of : ℕ → Ending → ℕ
    attempt_of request_id (selected b ticket attempt) = attempt
    attempt_of request_id _ = request_id

    abbrev pub ticket_cleanup : Ending → List (S → Answer Done × S)
    ticket_cleanup e = if q.has_exclusion then o.release_ticket (ticket_of e) ∷ [] else []

    pub late_cleanup : ℕ → Ending → List (S → Answer Done × S)
    late_cleanup request_id e =
        o.finalize_credit (backend_of e)
        ∷ (ticket_cleanup e ++ quota_cleanup (attempt_of request_id e))

    -- An exception, which is no TimeoutError, is passed on; any other end after the deadline is given back. The result tells
    -- whether all calls of the cleanup have returned.
    pub end_selection : ℕ → Bool → Ending × S → (Ending × Bool) × S
    end_selection request_id late (raised ok, s) = ((raised ok, true), s)
    end_selection request_id late (unlogged b attempt, s) = ((unlogged b attempt, true), s)
    end_selection request_id late (e, s) =
        if late
        then (let (ok, t) = protected_cleanup (late_cleanup request_id e) s in ((expired, ok), t))
        else ((e, true), s)
