-- ===== src/Routing/Claim/Ledger.antt =====
-- The claims and returns of `src/foundry_router/routing/__init__.py`, counted by the answers that
-- the stores give, whatever the stores are.
use foundry_router.Base.{
  ℕ, ◌≡◌, refl, sym, ap, ◌∙◌, Bool, true, false, Option, none, some, List, inl, inr, ◌==◌, ◌||◌,
  nat_eq, nat_beq_iff, if◌then◌else◌, ◌⊎◌,
}
use foundry_router.Routing.Claim.{
  Answer, raises, gives, Done, done, Stores, Selection, end_selection, claim_candidates,
}
use foundry_router.Routing.Claim.Balance.{Held, nothing, Promises}
use foundry_router.Routing.Claim.Failure.{
  is_raised, or_true, Flags, EndExplained, end_selection-EndExplained,
}
use foundry_router.Routing.Claim.Late.{Ends, selection_end}

-- The ledger after each answer. The credit is one for the request. An attempt is counted from a
-- reservation that is made or raises, and a ticket from its admission, until it is given back
-- itself: a claim beside one that is still held does not take its place. An admission that raises
-- gives no ticket.
abbrev after_assign : Answer Bool → Held → Held
after_assign (gives true) h = record h { credit = true }
after_assign (gives false) h = h
after_assign raises h = h

abbrev after_finalize : Answer Done → Held → Held
after_finalize (gives done) h = record h { credit = false }
after_finalize raises h = h

abbrev beside : Option ℕ → ℕ → Option ℕ
beside none a = some a
beside (some b) a = some b

abbrev after_reserve : ℕ → Answer Bool → Held → Held
after_reserve a (gives true) h = record h { quota = beside h.quota a }
after_reserve a (gives false) h = h
after_reserve a raises h = record h { quota = beside h.quota a }

-- What is left of one that is held when `a` is given back.
abbrev without : ℕ → Option ℕ → Option ℕ
without a none = none
without a (some b) = if a == b then none else some b

abbrev after_release : ℕ → Answer Done → Held → Held
after_release a (gives done) h = record h { quota = without a h.quota }
after_release a raises h = h

abbrev after_admit : Answer (Option ℕ) → Held → Held
after_admit (gives (some k)) h = record h { ticket = beside h.ticket k }
after_admit (gives none) h = h
after_admit raises h = h

abbrev after_ticket : Option ℕ → Answer Done → Held → Held
after_ticket (some k) (gives done) h = record h { ticket = without k h.ticket }
after_ticket none (gives done) h = h
after_ticket k raises h = h

abbrev noted {ℓ κ} :
    {S : Type ℓ} {A : Type κ}
    → (Answer A → Held → Held)
    → Held
    → Answer A × S
    → Answer A × (S × Held)
noted f h (a, t) = (a, (t, f a h))

-- The stores `o`, with the ledger beside their state.
abbrev pub with_ledger {ℓ} : {S : Type ℓ} → Stores S → Stores (S × Held)
with_ledger o = record {
  try_assign = λ b p. noted after_assign p.1 (o.try_assign b p.0);
  finalize_credit = λ b p. noted after_finalize p.1 (o.finalize_credit b p.0);
  try_reserve = λ a g over p. noted (after_reserve a) p.1 (o.try_reserve a g over p.0);
  release_quota = λ a p. noted (after_release a) p.1 (o.release_quota a p.0);
  admit_combination = λ b probe p. noted after_admit p.1 (o.admit_combination b probe p.0);
  release_ticket = λ k p. noted (after_ticket k) p.1 (o.release_ticket k p.0);
}

abbrev pub ledger {ℓ} : {S : Type ℓ} → S × Held → Held
ledger p = p.1

noted-answer {ℓ κ} :
    {S : Type ℓ} {A : Type κ} (f : Answer A → Held → Held) (h : Held) (r : Answer A × S)
    (a : Answer A) (t : S × Held)
    → noted f h r ≡ (a, t)
    → t.1 ≡ f a h
noted-answer {S = S} {A = A} f h (b, u) a t e =
    sym (ap (λ (x : Answer A × (S × Held)). x.1.1) e)
    ∙ ap (λ (x : Answer A × (S × Held)). f x.0 h) e

without_self : (a : ℕ) (o : Option ℕ) → (o ≡ none) ⊎ (o ≡ some a) → without a o ≡ none
without_self a o (inl e) = rw e refl
without_self a o (inr e) = rw (e, (nat_beq_iff a a).1 refl) refl

module _ {ℓ} {S : Type ℓ} (o : Stores S) where
  unsure_ledger :
      (a : ℕ) (h : Held)
      → (after_reserve a raises h ≡ h) ⊎ (after_reserve a raises h ≡ record h { quota = some a })
  unsure_ledger a h =
      elim h.quota
        as (λ x.
          (record h { quota = beside x a } ≡ record h { quota = x })
          ⊎ (record h { quota = beside x a } ≡ record h { quota = some a })) [
            | none ↦ inr refl
            | some b ↦ inl refl
          ]

  ticket_kept :
      (k : Option ℕ) (r : Answer Done) (h : Held)
      → ((after_ticket k r h).credit ≡ h.credit) × ((after_ticket k r h).quota ≡ h.quota)
  ticket_kept (some k) (gives done) h = (refl, refl)
  ticket_kept none (gives done) h = (refl, refl)
  ticket_kept k raises h = (refl, refl)

  ticket_returned :
      (k : Option ℕ) (h : Held) → h.ticket ≡ k → (after_ticket k (gives done) h).ticket ≡ none
  ticket_returned none h e = e
  ticket_returned (some k) h e = without_self k h.ticket (inr e)

  -- What the ledger does is what the lemmas on the selection ask of a view of the stores.
  pub ledger_keeps : Promises (with_ledger o) ledger
  ledger_keeps = record {
    assigned = λ b p q e. noted-answer after_assign p.1 (o.try_assign b p.0) (gives true) q e;
    unassigned =
        λ b p q e h. noted-answer after_assign p.1 (o.try_assign b p.0) (gives false) q e ∙ h;
    finalized =
        λ b p q e. noted-answer after_finalize p.1 (o.finalize_credit b p.0) (gives done) q e;
    reserved = λ a g over p q e free.
        noted-answer (after_reserve a) p.1 (o.try_reserve a g over p.0) (gives true) q e
        ∙ ap (λ x. record p.1 { quota = beside x a }) free;
    refused = λ a g over p q e.
        noted-answer (after_reserve a) p.1 (o.try_reserve a g over p.0) (gives false) q e;
    unsure = λ a g over p q e.
        unsure a p.1 q.1
          (noted-answer (after_reserve a) p.1 (o.try_reserve a g over p.0) raises q e);
    released = λ a p q e mine.
        noted-answer (after_release a) p.1 (o.release_quota a p.0) (gives done) q e
        ∙ ap (λ x. record p.1 { quota = x }) (without_self a p.1.quota mine);
    admitted = λ b probe k p q e free.
        noted-answer after_admit p.1 (o.admit_combination b probe p.0) (gives (some k)) q e
        ∙ ap (λ x. record p.1 { ticket = beside x k }) free;
    unadmitted = λ b probe p q e. unadmitted b probe p q e;
    ticket_released = λ k p. ticket_kept k (o.release_ticket k p.0).0 p.1;
    ticket_gone = λ k p q e mine.
        ap (λ (x : Held). x.ticket)
          (noted-answer (after_ticket k) p.1 (o.release_ticket k p.0) (gives done) q e)
        ∙ ticket_returned k p.1 mine;
  }
    where
      unsure :
          (a : ℕ) (h h' : Held)
          → h' ≡ after_reserve a raises h
          → (h' ≡ h) ⊎ (h' ≡ record h { quota = some a })
      unsure a h h' e = elim (unsure_ledger a h) [ inl x ↦ inl (e ∙ x) | inr x ↦ inr (e ∙ x) ]

      unadmitted :
          (b : ℕ) (probe : Bool) (p q : S × Held)
          → ((with_ledger o).admit_combination b probe p ≡ (gives none, q))
            ⊎ ((with_ledger o).admit_combination b probe p ≡ (raises, q))
          → q.1 ≡ p.1
      unadmitted b probe p q (inl e) =
          noted-answer after_admit p.1 (o.admit_combination b probe p.0) (gives none) q e
      unadmitted b probe p q (inr e) =
          noted-answer after_admit p.1 (o.admit_combination b probe p.0) raises q e

-- The stores `o`, with a flag beside their state: a claim of the credit, or a call that gives back,
-- has raised.
abbrev flagged {ℓ κ} :
    {S : Type ℓ} {A : Type κ} → (Answer A → Bool) → Bool → Answer A × S → Answer A × (S × Bool)
flagged f b r = (r.0, (r.1, b || f r.0))

abbrev is_no_answer : Answer Bool → Bool
is_no_answer raises = true
is_no_answer (gives b) = false

abbrev never {ℓ} : {A : Type ℓ} → Answer A → Bool
never a = false

abbrev pub with_flag {ℓ} : {S : Type ℓ} → Stores S → Stores (S × Bool)
with_flag o = record {
  try_assign = λ b p. flagged is_no_answer p.1 (o.try_assign b p.0);
  finalize_credit = λ b p. flagged is_raised p.1 (o.finalize_credit b p.0);
  try_reserve = λ a g over p. flagged never p.1 (o.try_reserve a g over p.0);
  release_quota = λ a p. flagged is_raised p.1 (o.release_quota a p.0);
  admit_combination = λ b probe p. flagged never p.1 (o.admit_combination b probe p.0);
  release_ticket = λ k p. flagged is_raised p.1 (o.release_ticket k p.0);
}

-- The stores `o` with both.
abbrev pub noting {ℓ} : {S : Type ℓ} → Stores S → Stores ((S × Bool) × Held)
noting o = with_ledger (with_flag o)

abbrev pub has_failed {ℓ} : {S : Type ℓ} → (S × Bool) × Held → Bool
has_failed p = p.0.1

module _ {ℓ} {S : Type ℓ} (o : Stores S) where
  pub flag_keeps : Flags (noting o) has_failed
  flag_keeps = record {
    assign_raised = λ b p q e.
        sym (ap (λ (x : Answer Bool × ((S × Bool) × Held)). x.1.0.1) e)
        ∙ ap (λ (x : Answer Bool × ((S × Bool) × Held)). p.0.1 || is_no_answer x.0) e
        ∙ or_true p.0.1;
    on_finalize = λ b p. refl;
    on_release = λ a p. refl;
    on_ticket_release = λ k p. refl;
  }

  -- Whatever the stores answer, the ledger of the answers, empty at first, tells at the end of the
  -- selection, late or not: that nothing is held if no candidate is selected, or after a deadline
  -- if all calls of the cleanup return, or if a store raises and all calls that give claims back
  -- return; that exactly the credit if the backend is metered, the attempt if its group is limited,
  -- and the ticket, which there is if there is an exclusion store, are held if one is selected; and
  -- that this credit and this attempt are held if the log raises. It says nothing only if a claim
  -- of the credit or a call that gives back has raised.
  pub end_selection-Ends :
      (q : Selection) (bs : List ℕ) (request_id : ℕ) (late lost : Bool) (s : S)
      → let start : (S × Bool) × Held = ((s, false), nothing) in
        let end =
          end_selection
            (noting o)
            q
            request_id
            late
            (claim_candidates (noting o) q bs 0 0 lost start) in
        Ends (noting o) ledger (ledger_keeps (with_flag o)) q end
        × EndExplained (noting o) has_failed flag_keeps q end
  end_selection-Ends q bs request_id late lost s = (
    selection_end (noting o) ledger (ledger_keeps (with_flag o)) q bs request_id late lost
        ((s, false), nothing) refl,
    end_selection-EndExplained (noting o) has_failed flag_keeps q bs request_id late lost
        ((s, false), nothing),
  )
