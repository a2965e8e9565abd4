-- ===== src/Routing/Claim/Failure.antt =====
-- When a selection of `src/foundry_router/routing/__init__.py` ends with an exception and calls that
-- give claims back may not all have returned.
use foundry_router.Base.{
  ℕ, suc, ◌≡◌, refl, sym, ap, ◌∙◌, Bool, true, false, not, ◌||◌, ◌&&◌, Option, none, some, List, [],
  ◌∷◌, All, if◌then◌else◌, Bool-cases, inl, inr,
}
use foundry_router.Routing.Claim.{
  Answer, raises, gives, Done, Stores, Selection, Ending, expired, selected, race_lost, raised,
  unlogged, protected_cleanup, raise_after, returned, claim_credit, log_selected, quota_cleanup,
  return_quota, return_claims, on_ticket, claim_combination, on_reserved, claim_quota,
  claim_candidates, holds_quota, late_cleanup, backend_of, ticket_of, attempt_of, end_selection,
}
use foundry_router.Routing.Claim.Balance.{on_return-either}

abbrev pub is_raised : Answer Done → Bool
is_raised raises = true
is_raised (gives d) = false

-- `failed` tells whether a claim of the credit or a call that gives back has raised.
pub record Flags {ℓ} {S : Type ℓ} (o : Stores S) (failed : S → Bool) : Type ℓ where
  pub assign_raised : (b : ℕ) (s t : S) → o.try_assign b s ≡ (raises, t) → failed t ≡ true
  pub on_finalize :
      (b : Option ℕ) (s : S)
      → failed (o.finalize_credit b s).1 ≡ (failed s || is_raised (o.finalize_credit b s).0)
  pub on_release :
      (a : ℕ) (s : S)
      → failed (o.release_quota a s).1 ≡ (failed s || is_raised (o.release_quota a s).0)
  pub on_ticket_release :
      (k : Option ℕ) (s : S)
      → failed (o.release_ticket k s).1 ≡ (failed s || is_raised (o.release_ticket k s).0)

pub or_true : (b : Bool) → (b || true) ≡ true
or_true false = refl
or_true true = refl

or_false : (b : Bool) → (b || false) ≡ b
or_false false = refl
or_false true = refl

module _ {ℓ} {S : Type ℓ} (o : Stores S) (failed : S → Bool) (v : Flags o failed) where
  -- An exception with which calls that give back may not all have returned has a call that raised.
  abbrev pub Explained : Ending × S → Type 0
  Explained (raised false, s) = failed s ≡ true
  Explained (raised true, s) = Unit
  Explained (expired, s) = Unit
  Explained (selected b ticket attempt, s) = Unit
  Explained (race_lost lost, s) = Unit
  Explained (unlogged b attempt, s) = Unit

  abbrev IsTracked : (S → Answer Done × S) → Type ℓ
  IsTracked f = (s : S) → failed (f s).1 ≡ (failed s || is_raised (f s).0)

  first_or_rest :
      (a : Answer Done) (b ok : Bool)
      → ((b || is_raised a) || not ok) ≡ (b || not (returned o a && ok))
  first_or_rest raises false ok = refl
  first_or_rest raises true ok = refl
  first_or_rest (gives d) false ok = refl
  first_or_rest (gives d) true ok = refl

  cleanup-failed :
      (fs : List (S → Answer Done × S)) (s : S)
      → All IsTracked fs
      → failed (protected_cleanup o fs s).1 ≡ (failed s || not (protected_cleanup o fs s).0)
  unfolding protected_cleanup
  cleanup-failed [] s k = sym (or_false (failed s))
  cleanup-failed (f ∷ fs) s (h, k) =
      cleanup-failed fs (f s).1 k
      ∙ ap (λ x. x || not (protected_cleanup o fs (f s).1).0) (h s)
      ∙ first_or_rest (f s).0 (failed s) (protected_cleanup o fs (f s).1).0

  raise_after-Explained :
      (fs : List (S → Answer Done × S)) (s : S) → All IsTracked fs → Explained (raise_after o fs s)
  raise_after-Explained fs s k = explained (protected_cleanup o fs s) (cleanup-failed fs s k)
    where
      explained : (r : Bool × S) → failed r.1 ≡ (failed s || not r.0) → Explained (raised r.0, r.1)
      explained (true, t) h = tt
      explained (false, t) h = h ∙ or_true (failed s)

  raising : (f : S → Answer Done × S) (s t : S) → IsTracked f → f s ≡ (raises, t) → failed t ≡ true
  raising f s t h e =
      sym (ap (λ (x : Answer Done × S). failed x.1) e)
      ∙ h s
      ∙ ap (λ (x : Answer Done × S). failed s || is_raised x.0) e
      ∙ or_true (failed s)

  module _ (q : Selection) where
    quota_cleanup-IsTracked : (attempt : ℕ) → All IsTracked (quota_cleanup o q attempt)
    quota_cleanup-IsTracked attempt = elim (Bool-cases q.has_rate_limits) [
      | inl e ↦ rw e (v.on_release attempt, tt)
      | inr e ↦ rw e tt
    ]

    return_claims-Explained :
        (b attempt : ℕ) (rest : S → Ending × S) (s : S)
        → ((t : S) → Explained (rest t))
        → Explained (return_claims o q b attempt rest s)
    unfolding return_claims return_quota
    return_claims-Explained b attempt rest s k =
        on_return-either Explained (o.finalize_credit (some b) s) _ _
          (λ t e. raising (o.finalize_credit (some b)) s t (v.on_finalize (some b)) e)
          (λ d t e. returned_quota q.has_rate_limits t)
      where
        returned_quota :
            (limits : Bool) (t : S) → Explained (return_quota o q limits attempt rest t)
        returned_quota true t =
            on_return-either Explained (o.release_quota attempt t) _ _
              (λ u e. raising (o.release_quota attempt) t u (v.on_release attempt) e) (λ d u e. k u)
        returned_quota false t = k t

    log_selected-Explained :
        (b attempt : ℕ) (ticket : Option ℕ) (s : S)
        → Explained (log_selected o q b attempt ticket s)
    unfolding log_selected
    log_selected-Explained b attempt ticket s = elim (Bool-cases (q.is_logged b)) [
      | inl e ↦ rw (e, log_selected) tt
      | inr e ↦ elim (Bool-cases q.has_exclusion) [
        | inl x ↦ rw (e, x, log_selected) tt
        | inr x ↦ rw (e, x, log_selected) tt
      ]
    ]

    claim_combination-Explained :
        (b attempt : ℕ) (rest : S → Ending × S) (s : S)
        → ((t : S) → Explained (rest t))
        → Explained (claim_combination o q b attempt rest s)
    unfolding claim_combination
    claim_combination-Explained b attempt rest s k = elim (Bool-cases q.has_exclusion) [
      | inr e ↦ simp (e, claim_combination) (log_selected-Explained b attempt none s)
      | inl e ↦
          simp (e, claim_combination)
            (on_return-either Explained (o.admit_combination b q.is_probe s) _ _
              (λ t f.
                raise_after-Explained (o.finalize_credit (some b) ∷ quota_cleanup o q attempt) t
                  (v.on_finalize (some b), quota_cleanup-IsTracked attempt))
              (λ a t f. on_admission a t))
    ]
      where
        on_admission : (a : Option ℕ) (t : S) → Explained (on_ticket o q b attempt rest a t)
        on_admission none t = return_claims-Explained b attempt rest t k
        on_admission (some x) t = log_selected-Explained b attempt (some x) t

    claim_quota-Explained :
        (b attempt : ℕ) (rest : Bool → S → Ending × S) (lost : Bool) (s : S)
        → ((l : Bool) (t : S) → Explained (rest l t))
        → Explained (claim_quota o q b attempt rest lost s)
    unfolding claim_quota on_reserved
    claim_quota-Explained b attempt rest lost s k = elim (Bool-cases (holds_quota o q b)) [
      | inr e ↦ simp (e, claim_quota) (claim_combination-Explained b attempt (rest lost) s (k lost))
      | inl e ↦
          simp (e, claim_quota)
            (on_return-either Explained
              (o.try_reserve attempt (q.quota_group b) q.protected_fallback s) _ _
              (λ t f.
                raise_after-Explained (o.finalize_credit (some b) ∷ o.release_quota attempt ∷ []) t
                  (v.on_finalize (some b), (v.on_release attempt, tt)))
              (λ ok t f. reserved_or_not ok t))
    ]
      where
        reserved_or_not : (ok : Bool) (t : S) → Explained (on_reserved o q b attempt rest lost ok t)
        reserved_or_not true t = claim_combination-Explained b attempt (rest lost) t (k lost)
        reserved_or_not false t =
            on_return-either Explained (o.finalize_credit (some b) t) _ _
              (λ u e. raising (o.finalize_credit (some b)) t u (v.on_finalize (some b)) e)
              (λ d u e. k true u)

    claim_credit-raised : (b : ℕ) (s t : S) → claim_credit o q b s ≡ (raises, t) → failed t ≡ true
    unfolding claim_credit
    claim_credit-raised b s t f = elim (Bool-cases (q.credit_metered b)) [
      | inl e ↦ v.assign_raised b s t (rw (e, claim_credit) at f)
      | inr e ↦
          unmetered (o.finalize_credit none s) (v.on_finalize none s) (rw (e, claim_credit) at f)
    ]
      where
        unmetered :
            (r : Answer Done × S)
            → failed r.1 ≡ (failed s || is_raised r.0)
            → ◌≡◌ {A = Answer Bool × S}
                (elim r.0 [ raises ↦ raises | gives d ↦ gives true ], r.1)
                (raises, t)
            → failed t ≡ true
        unmetered (raises, u) h g =
            ap failed (sym (ap (λ (x : Answer Bool × S). x.1) g)) ∙ h ∙ or_true (failed s)
        unmetered (gives d, u) h g = absurd (differs g)
          where
            differs : ◌≡◌ {A = Answer Bool × S} (gives true, u) (raises, t) → ⊥
            differs g = cc

    claimed :
        (b attempt : ℕ) (rest : Bool → S → Ending × S) (next : S → Ending × S) (lost ok : Bool)
        (t : S)
        → ((l : Bool) (u : S) → Explained (rest l u))
        → ((u : S) → Explained (next u))
        → Explained (if ok then claim_quota o q b attempt rest lost t else next t)
    claimed b attempt rest next lost true t k m = claim_quota-Explained b attempt rest lost t k
    claimed b attempt rest next lost false t k m = m t

    claim_candidates-Explained :
        (bs : List ℕ) (i n : ℕ) (lost : Bool) (s : S)
        → Explained (claim_candidates o q bs i n lost s)
    unfolding claim_candidates
    claim_candidates-Explained [] i n lost s = tt
    claim_candidates-Explained (b ∷ bs) i n lost s = elim (Bool-cases (q.is_expired i)) [
      | inl e ↦ rw (e, claim_candidates) tt
      | inr e ↦
          rw (e, claim_candidates)
            (on_return-either Explained (claim_credit o q b s) _ _
              (λ t f. claim_credit-raised b s t f)
              (λ ok t f.
                claimed b (q.attempt_id n) (claim_candidates o q bs (suc i) (suc n))
                  (claim_candidates o q bs (suc i) n lost) lost ok t
                  (λ l u. claim_candidates-Explained bs (suc i) (suc n) l u)
                  (λ u. claim_candidates-Explained bs (suc i) n lost u)))
    ]

    late_cleanup-IsTracked :
        (request_id : ℕ) (e : Ending) → All IsTracked (late_cleanup o q request_id e)
    unfolding late_cleanup
    late_cleanup-IsTracked request_id e = elim (Bool-cases q.has_exclusion) [
      | inl x ↦
          rw (x, late_cleanup)
            (
              v.on_finalize (backend_of o q e),
              (
                v.on_ticket_release (ticket_of o q e),
                quota_cleanup-IsTracked (attempt_of o q request_id e),
              ),
            )
      | inr x ↦
          rw (x, late_cleanup)
            (
              v.on_finalize (backend_of o q e),
              quota_cleanup-IsTracked (attempt_of o q request_id e),
            )
    ]

    -- The same of the end, late or not, and of the cleanup after the deadline.
    abbrev pub EndExplained : (Ending × Bool) × S → Type 0
    EndExplained ((e, true), s) = Explained (e, s)
    EndExplained ((e, false), s) = failed s ≡ true

    late-Explained :
        (request_id : ℕ) (e : Ending) (s : S)
        → EndExplained (
            let (ok, t) = protected_cleanup o (late_cleanup o q request_id e) s in
            ((expired, ok), t))
    late-Explained request_id e s =
        explained (protected_cleanup o (late_cleanup o q request_id e) s)
          (cleanup-failed (late_cleanup o q request_id e) s (late_cleanup-IsTracked request_id e))
      where
        explained :
            (r : Bool × S) → failed r.1 ≡ (failed s || not r.0) → EndExplained ((expired, r.0), r.1)
        explained (true, t) h = tt
        explained (false, t) h = h ∙ or_true (failed s)

    end_explained :
        (request_id : ℕ) (late : Bool) (r : Ending × S)
        → Explained r
        → EndExplained (end_selection o q request_id late r)
    unfolding end_selection
    end_explained request_id late (raised ok, s) h = h
    end_explained request_id late (unlogged b attempt, s) h = tt
    end_explained request_id false (expired, s) h = tt
    end_explained request_id true (expired, s) h = late-Explained request_id expired s
    end_explained request_id false (race_lost lost, s) h = tt
    end_explained request_id true (race_lost lost, s) h =
        late-Explained request_id (race_lost lost) s
    end_explained request_id false (selected b ticket attempt, s) h = tt
    end_explained request_id true (selected b ticket attempt, s) h =
        late-Explained request_id (selected b ticket attempt) s

    pub end_selection-EndExplained :
        (bs : List ℕ) (request_id : ℕ) (late lost : Bool) (s : S)
        → EndExplained (end_selection o q request_id late (claim_candidates o q bs 0 0 lost s))
    end_selection-EndExplained bs request_id late lost s =
        end_explained request_id late (claim_candidates o q bs 0 0 lost s)
          (claim_candidates-Explained bs 0 0 lost s)
