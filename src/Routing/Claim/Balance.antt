-- ===== src/Routing/Claim/Balance.antt =====
-- What a request holds of the stores when `select_candidate_backend` of
-- `src/foundry_router/routing/__init__.py` ends.
use foundry_router.Base.{
  ℕ, suc, ◌≡◌, ◌⊎◌, refl, sym, ap, ◌∙◌, Bool, true, false, Option, none, some, List, [], ◌∷◌,
  if◌then◌else◌, Bool-cases, inl, inr,
}
use foundry_router.Routing.Claim.{
  Answer, raises, gives, Done, done, Stores, Selection, Ending, expired, selected, race_lost,
  raised, unlogged, on_return, protected_cleanup, raise_after, holds_quota, claim_credit,
  log_selected, quota_cleanup, return_quota, return_claims, on_ticket, claim_combination,
  on_reserved, claim_quota, claim_candidates,
}

-- What the request holds: the cost on a credit account, an attempt on a quota, a ticket.
pub record Held : Type 0 where
  pub credit : Bool
  pub quota : Option ℕ
  pub ticket : Option ℕ

abbrev pub nothing : Held
nothing = record { credit = false; quota = none; ticket = none }

-- What a view of the stores tells after each answer. An exception of `try_reserve` may come before
-- or after the write; one of `admit_combination` comes before it.
pub record Promises {ℓ} {S : Type ℓ} (o : Stores S) (held : S → Held) : Type ℓ where
  pub assigned :
      (b : ℕ) (s t : S)
      → o.try_assign b s ≡ (gives true, t)
      → held t ≡ record (held s) { credit = true }
  pub unassigned :
      (b : ℕ) (s t : S) → o.try_assign b s ≡ (gives false, t) → held s ≡ nothing → held t ≡ nothing
  pub finalized :
      (b : Option ℕ) (s t : S)
      → o.finalize_credit b s ≡ (gives done, t)
      → held t ≡ record (held s) { credit = false }
  pub reserved :
      (a g : ℕ) (over : Bool) (s t : S)
      → o.try_reserve a g over s ≡ (gives true, t)
      → (held s).quota ≡ none
      → held t ≡ record (held s) { quota = some a }
  pub refused :
      (a g : ℕ) (over : Bool) (s t : S)
      → o.try_reserve a g over s ≡ (gives false, t)
      → held t ≡ held s
  pub unsure :
      (a g : ℕ) (over : Bool) (s t : S)
      → o.try_reserve a g over s ≡ (raises, t)
      → (held t ≡ held s) ⊎ (held t ≡ record (held s) { quota = some a })
  pub released :
      (a : ℕ) (s t : S)
      → o.release_quota a s ≡ (gives done, t)
      → ((held s).quota ≡ none) ⊎ ((held s).quota ≡ some a)
      → held t ≡ record (held s) { quota = none }
  pub admitted :
      (b : ℕ) (probe : Bool) (k : ℕ) (s t : S)
      → o.admit_combination b probe s ≡ (gives (some k), t)
      → (held s).ticket ≡ none
      → held t ≡ record (held s) { ticket = some k }
  pub unadmitted :
      (b : ℕ) (probe : Bool) (s t : S)
      → (o.admit_combination b probe s ≡ (gives none, t))
        ⊎ (o.admit_combination b probe s ≡ (raises, t))
      → held t ≡ held s
  pub ticket_released :
      (k : Option ℕ) (s : S)
      → ((held (o.release_ticket k s).1).credit ≡ (held s).credit)
        × ((held (o.release_ticket k s).1).quota ≡ (held s).quota)
  pub ticket_gone :
      (k : Option ℕ) (s t : S)
      → o.release_ticket k s ≡ (gives done, t)
      → (held s).ticket ≡ k
      → (held t).ticket ≡ none

-- A call is seen through by its two results.
pub on_return-either {ℓ κ μ} :
    {S : Type ℓ} {A : Type κ} (P : Ending × S → Type μ) (r : Answer A × S) (undo : S → Ending × S)
    (go : A → S → Ending × S)
    → ((t : S) → r ≡ (raises, t) → P (undo t))
    → ((a : A) (t : S) → r ≡ (gives a, t) → P (go a t))
    → P (on_return r undo go)
unfolding on_return
on_return-either P (raises, s) undo go f g = f s refl
on_return-either P (gives a, s) undo go f g = g a s refl

module _ {ℓ} {S : Type ℓ} (o : Stores S) (held : S → Held) (v : Promises o held)
    (q : Selection) where
  abbrev pub quota_of : ℕ → ℕ → Option ℕ
  quota_of b attempt = if holds_quota o q b then some attempt else none

  abbrev pub has_ticket : Option ℕ → Bool
  has_ticket none = false
  has_ticket (some k) = true

  -- What is known of the end of a selection that has begun with nothing held.
  abbrev pub Balanced : Ending × S → Type 0
  Balanced (expired, s) = held s ≡ nothing
  Balanced (race_lost lost, s) = held s ≡ nothing
  Balanced (raised true, s) = held s ≡ nothing
  Balanced (raised false, s) = Unit
  Balanced (selected b ticket attempt, s) =
      (held s ≡ record { credit = q.credit_metered b; quota = quota_of b attempt; ticket = ticket })
      × (has_ticket ticket ≡ q.has_exclusion)
  Balanced (unlogged b attempt, s) =
      ((held s).credit ≡ q.credit_metered b) × ((held s).quota ≡ quota_of b attempt)

  -- With at most the credit and the attempt held, the two calls that give them back leave nothing.
  given_back :
      (b : Option ℕ) (attempt : ℕ) (s t u : S)
      → (held s).ticket ≡ none
      → ((held s).quota ≡ none) ⊎ ((held s).quota ≡ some attempt)
      → o.finalize_credit b s ≡ (gives done, t)
      → o.release_quota attempt t ≡ (gives done, u)
      → held u ≡ nothing
  given_back b attempt s t u no_ticket mine f r =
      let at_t = v.finalized b s t f in
      v.released attempt t u r (elim mine [
        | inl e ↦ inl (ap (λ (h : Held). h.quota) at_t ∙ e)
        | inr e ↦ inr (ap (λ (h : Held). h.quota) at_t ∙ e)
      ])
      ∙ ap (λ (h : Held). record h { quota = none }) at_t
      ∙ ap (λ k. record { credit = false; quota = none; ticket = k }) no_ticket

  abbrev claims : ℕ → ℕ → Option ℕ → Held
  claims b attempt ticket = record {
    credit = q.credit_metered b;
    quota = quota_of b attempt;
    ticket = ticket;
  }

  -- The two results of a call that gives something back.
  pub Done-cases :
      (r : Answer Done × S) → ((t : S) × (r ≡ (raises, t))) ⊎ ((t : S) × (r ≡ (gives done, t)))
  Done-cases (raises, t) = inl (t, refl)
  Done-cases (gives done, t) = inr (t, refl)

  quota_of-either :
      (b attempt : ℕ) → (quota_of b attempt ≡ none) ⊎ (quota_of b attempt ≡ some attempt)
  quota_of-either b attempt = elim (Bool-cases (holds_quota o q b)) [
    | inl e ↦ inr (rw e refl)
    | inr e ↦ inl (rw e refl)
  ]

  raise_after-Balanced :
      (b : Option ℕ) (attempt : ℕ) (s : S)
      → (held s).ticket ≡ none
      → ((held s).quota ≡ none) ⊎ ((held s).quota ≡ some attempt)
      → Balanced (raise_after o (o.finalize_credit b ∷ o.release_quota attempt ∷ []) s)
  unfolding protected_cleanup
  raise_after-Balanced b attempt s no_ticket mine = elim (Done-cases (o.finalize_credit b s)) [
    | inl (t, f) ↦ rw (f, protected_cleanup) tt
    | inr (t, f) ↦ elim (Done-cases (o.release_quota attempt t)) [
      | inl (u, r) ↦ rw (f, r, protected_cleanup) tt
      | inr (u, r) ↦ rw (f, r, protected_cleanup) (given_back b attempt s t u no_ticket mine f r)
    ]
  ]

  finalized_only :
      (b : Option ℕ) (s t : S)
      → (held s).ticket ≡ none
      → (held s).quota ≡ none
      → o.finalize_credit b s ≡ (gives done, t)
      → held t ≡ nothing
  finalized_only b s t no_ticket no_quota f =
      v.finalized b s t f
      ∙ ap (λ k. record { credit = false; quota = k; ticket = (held s).ticket }) no_quota
      ∙ ap (λ k. record { credit = false; quota = none; ticket = k }) no_ticket

  raise_after_one-Balanced :
      (b : Option ℕ) (s : S)
      → (held s).ticket ≡ none
      → (held s).quota ≡ none
      → Balanced (raise_after o (o.finalize_credit b ∷ []) s)
  unfolding protected_cleanup
  raise_after_one-Balanced b s no_ticket no_quota = elim (Done-cases (o.finalize_credit b s)) [
    | inl (t, f) ↦ rw (f, protected_cleanup) tt
    | inr (t, f) ↦ rw (f, protected_cleanup) (finalized_only b s t no_ticket no_quota f)
  ]

  -- The quota of the request is none, or its attempt.
  quota_held :
      (b attempt : ℕ) (s : S)
      → held s ≡ claims b attempt none
      → ((held s).quota ≡ none) ⊎ ((held s).quota ≡ some attempt)
  quota_held b attempt s h = elim (quota_of-either b attempt) [
    | inl n ↦ inl (ap (λ (x : Held). x.quota) h ∙ n)
    | inr n ↦ inr (ap (λ (x : Held). x.quota) h ∙ n)
  ]

  no_limits : (b attempt : ℕ) → q.has_rate_limits ≡ false → quota_of b attempt ≡ none
  no_limits b attempt e = rw e refl

  -- An exception of the combination's claim, with the claims of a backend held.
  combination_raises :
      (b attempt : ℕ) (s : S)
      → held s ≡ claims b attempt none
      → Balanced (raise_after o (o.finalize_credit (some b) ∷ quota_cleanup o q attempt) s)
  combination_raises b attempt s h = elim (Bool-cases q.has_rate_limits) [
    | inl e ↦ rw e (
        raise_after-Balanced (some b) attempt s (ap (λ (k : Held). k.ticket) h)
          (quota_held b attempt s h))
    | inr e ↦ rw e (
        raise_after_one-Balanced (some b) s (ap (λ (k : Held). k.ticket) h)
          (ap (λ (k : Held). k.quota) h ∙ no_limits b attempt e))
  ]

  return_quota-Balanced :
      (limits : Bool) (b : Option ℕ) (attempt : ℕ) (rest : S → Ending × S) (s t : S)
      → (held s).ticket ≡ none
      → ((held s).quota ≡ none) ⊎ ((held s).quota ≡ some attempt)
      → (limits ≡ false → (held s).quota ≡ none)
      → o.finalize_credit b s ≡ (gives done, t)
      → ((u : S) → held u ≡ nothing → Balanced (rest u))
      → Balanced (return_quota o q limits attempt rest t)
  unfolding return_quota on_return
  return_quota-Balanced false b attempt rest s t no_ticket mine free f k =
      k t (finalized_only b s t no_ticket (free refl) f)
  return_quota-Balanced true b attempt rest s t no_ticket mine free f k =
      elim (Done-cases (o.release_quota attempt t)) [
        | inl (u, r) ↦ rw (r, return_quota, on_return) tt
        | inr (u, r) ↦
            rw (r, return_quota, on_return) (k u (given_back b attempt s t u no_ticket mine f r))
      ]

  return_claims-Balanced :
      (b attempt : ℕ) (rest : S → Ending × S) (s : S)
      → held s ≡ claims b attempt none
      → ((t : S) → held t ≡ nothing → Balanced (rest t))
      → Balanced (return_claims o q b attempt rest s)
  unfolding return_claims on_return
  return_claims-Balanced b attempt rest s h k = elim (Done-cases (o.finalize_credit (some b) s)) [
    | inl (t, f) ↦ rw (f, return_claims, on_return) tt
    | inr (t, f) ↦
        rw (f, return_claims, on_return)
          (return_quota-Balanced q.has_rate_limits (some b) attempt rest s t
            (ap (λ (x : Held). x.ticket) h) (quota_held b attempt s h)
            (λ e. ap (λ (x : Held). x.quota) h ∙ no_limits b attempt e) f k)
  ]

  log_selected-Balanced :
      (b attempt : ℕ) (ticket : Option ℕ) (s : S)
      → held s ≡ claims b attempt ticket
      → has_ticket ticket ≡ q.has_exclusion
      → Balanced (log_selected o q b attempt ticket s)
  unfolding log_selected
  log_selected-Balanced b attempt ticket s h x_ticket = elim (Bool-cases (q.is_logged b)) [
    | inl e ↦ rw (e, log_selected) (h, x_ticket)
    | inr e ↦ elim (Bool-cases q.has_exclusion) [
      | inl x ↦
          rw (e, x, log_selected)
            (let (c, n) = v.ticket_released ticket s in
              (c ∙ ap (λ (x : Held). x.credit) h, n ∙ ap (λ (x : Held). x.quota) h))
      | inr x ↦
          rw (e, x, log_selected) (ap (λ (x : Held). x.credit) h, ap (λ (x : Held). x.quota) h)
    ]
  ]

  claim_combination-Balanced :
      (b attempt : ℕ) (rest : S → Ending × S) (s : S)
      → held s ≡ claims b attempt none
      → ((t : S) → held t ≡ nothing → Balanced (rest t))
      → Balanced (claim_combination o q b attempt rest s)
  unfolding claim_combination
  claim_combination-Balanced b attempt rest s h k = elim (Bool-cases q.has_exclusion) [
    | inr e ↦ simp (e, claim_combination) (log_selected-Balanced b attempt none s h (sym e))
    | inl e ↦
        simp (e, claim_combination)
          (on_return-either Balanced (o.admit_combination b q.is_probe s) _ _
            (λ t f. combination_raises b attempt t (v.unadmitted b q.is_probe s t (inr f) ∙ h))
            (on_admission (sym e)))
  ]
    where
      on_admission :
          true ≡ q.has_exclusion
          → (a : Option ℕ) (t : S) → o.admit_combination b q.is_probe s ≡ (gives a, t)
          → Balanced (on_ticket o q b attempt rest a t)
      on_admission x_ticket none t f =
          return_claims-Balanced b attempt rest t (v.unadmitted b q.is_probe s t (inl f) ∙ h) k
      on_admission x_ticket (some x) t f =
          log_selected-Balanced b attempt (some x) t
            (v.admitted b q.is_probe x s t f (ap (λ (y : Held). y.ticket) h)
              ∙ ap (λ (y : Held). record y { ticket = some x }) h)
            x_ticket

  on_reserved-Balanced :
      (b attempt : ℕ) (rest : Bool → S → Ending × S) (lost ok : Bool) (s t : S)
      → holds_quota o q b ≡ true
      → held s ≡ record { credit = q.credit_metered b; quota = none; ticket = none }
      → o.try_reserve attempt (q.quota_group b) q.protected_fallback s ≡ (gives ok, t)
      → ((l : Bool) (u : S) → held u ≡ nothing → Balanced (rest l u))
      → Balanced (on_reserved o q b attempt rest lost ok t)
  unfolding on_reserved
  on_reserved-Balanced b attempt rest lost true s t e h f k =
      claim_combination-Balanced b attempt (rest lost) t
        (v.reserved attempt (q.quota_group b) q.protected_fallback s t f
            (ap (λ (x : Held). x.quota) h)
          ∙ ap (λ (x : Held). record x { quota = some attempt }) h
          ∙ ap (λ y. record { credit = q.credit_metered b; quota = y; ticket = none })
              (sym (limited_quota e)))
        (k lost)
    where
      limited_quota : holds_quota o q b ≡ true → quota_of b attempt ≡ some attempt
      limited_quota e = rw e refl
  on_reserved-Balanced b attempt rest lost false s t e h f k =
      let at_t = v.refused attempt (q.quota_group b) q.protected_fallback s t f ∙ h in
      on_return-either Balanced (o.finalize_credit (some b) t) _ _ (λ u r. tt)
        (λ d u r. k true u (
          finalized_only (some b) t u (ap (λ (x : Held). x.ticket) at_t)
            (ap (λ (x : Held). x.quota) at_t) (is_done d u r)))
    where
      is_done :
          (d : Done) (u : S)
          → o.finalize_credit (some b) t ≡ (gives d, u)
          → o.finalize_credit (some b) t ≡ (gives done, u)
      is_done done u r = r

  claim_quota-Balanced :
      (b attempt : ℕ) (rest : Bool → S → Ending × S) (lost : Bool) (s : S)
      → held s ≡ record { credit = q.credit_metered b; quota = none; ticket = none }
      → ((l : Bool) (u : S) → held u ≡ nothing → Balanced (rest l u))
      → Balanced (claim_quota o q b attempt rest lost s)
  unfolding claim_quota
  claim_quota-Balanced b attempt rest lost s h k = elim (Bool-cases (holds_quota o q b)) [
    | inr e ↦
        simp (e, claim_quota)
          (claim_combination-Balanced b attempt (rest lost) s
            (h
              ∙ ap (λ y. record { credit = q.credit_metered b; quota = y; ticket = none })
                  (sym (unlimited e)))
            (k lost))
    | inl e ↦
        simp (e, claim_quota)
          (on_return-either Balanced
            (o.try_reserve attempt (q.quota_group b) q.protected_fallback s) _ _ on_raise
            (λ ok t f. on_reserved-Balanced b attempt rest lost ok s t e h f k))
  ]
    where
      unlimited : holds_quota o q b ≡ false → quota_of b attempt ≡ none
      unlimited e = rw e refl

      on_raise :
          (t : S)
          → o.try_reserve attempt (q.quota_group b) q.protected_fallback s ≡ (raises, t)
          → Balanced (raise_after o (o.finalize_credit (some b) ∷ o.release_quota attempt ∷ []) t)
      on_raise t f = elim (v.unsure attempt (q.quota_group b) q.protected_fallback s t f) [
        | inl same ↦
            raise_after-Balanced (some b) attempt t (ap (λ (x : Held). x.ticket) (same ∙ h))
              (inl (ap (λ (x : Held). x.quota) (same ∙ h)))
        | inr taken ↦
            raise_after-Balanced (some b) attempt t
              (ap (λ (x : Held). x.ticket) taken ∙ ap (λ (x : Held). x.ticket) h)
              (inr (ap (λ (x : Held). x.quota) taken))
      ]

  -- The credit is claimed exactly where it is metered.
  claim_credit-held :
      (b : ℕ) (reserved : Bool) (s t : S)
      → held s ≡ nothing
      → claim_credit o q b s ≡ (gives reserved, t)
      → held t ≡ record {
        credit = if reserved then q.credit_metered b else false;
        quota = none;
        ticket = none;
      }
  unfolding claim_credit
  claim_credit-held b reserved s t h f = elim (Bool-cases (q.credit_metered b)) [
    | inl e ↦ assigned reserved e (rw (e, claim_credit) at f)
    | inr e ↦ elim (Done-cases (o.finalize_credit none s)) [
      | inl (u, r) ↦ absurd (no_raise u (rw (e, r, claim_credit) at f))
      | inr (u, r) ↦ cleared u e r (rw (e, r, claim_credit) at f)
    ]
  ]
    where
      no_raise : (u : S) → ◌≡◌ {A = Answer Bool × S} (raises, u) (gives reserved, t) → ⊥
      no_raise u g = cc

      assigned :
          (ok : Bool)
          → q.credit_metered b ≡ true
          → o.try_assign b s ≡ (gives ok, t)
          → held t ≡ record {
            credit = if ok then q.credit_metered b else false;
            quota = none;
            ticket = none;
          }
      assigned true e g =
          v.assigned b s t g
          ∙ ap (λ (x : Held). record x { credit = true }) h
          ∙ ap (λ y. record { credit = y; quota = none; ticket = none }) (sym e)
      assigned false e g = v.unassigned b s t g h

      cleared :
          (u : S)
          → q.credit_metered b ≡ false
          → o.finalize_credit none s ≡ (gives done, u)
          → ◌≡◌ {A = Answer Bool × S} (gives true, u) (gives reserved, t)
          → held t ≡ record {
            credit = if reserved then q.credit_metered b else false;
            quota = none;
            ticket = none;
          }
      cleared u e r g =
          let same : u ≡ t = cc in
          let claimed : reserved ≡ true = cc in
          ap held (sym same)
          ∙ v.finalized none s u r
          ∙ ap (λ (x : Held). record x { credit = false }) h
          ∙ ap (λ y. record { credit = y; quota = none; ticket = none })
              (sym (ap (λ x. if x then q.credit_metered b else false) claimed ∙ e))

  pub claim_candidates-Balanced :
      (bs : List ℕ) (i n : ℕ) (lost : Bool) (s : S)
      → held s ≡ nothing
      → Balanced (claim_candidates o q bs i n lost s)
  unfolding claim_candidates
  claim_candidates-Balanced [] i n lost s h = h
  claim_candidates-Balanced (b ∷ bs) i n lost s h = elim (Bool-cases (q.is_expired i)) [
    | inl e ↦ rw (e, claim_candidates) h
    | inr e ↦
        rw (e, claim_candidates)
          (on_return-either Balanced (claim_credit o q b s) _ _ (λ t f. tt)
            (on_credit (λ l u. claim_candidates-Balanced bs (suc i) (suc n) l u)
              (λ u. claim_candidates-Balanced bs (suc i) n lost u)))
  ]
    where
      on_credit :
          ((l : Bool) (u : S)
            → held u ≡ nothing
            → Balanced (claim_candidates o q bs (suc i) (suc n) l u))
          → ((u : S) → held u ≡ nothing → Balanced (claim_candidates o q bs (suc i) n lost u))
          → (reserved : Bool) (t : S) → claim_credit o q b s ≡ (gives reserved, t)
          → Balanced (
              if reserved
              then claim_quota o q b
                  (q.attempt_id n)
                  (claim_candidates o q bs (suc i) (suc n))
                  lost
                  t
              else claim_candidates o q bs (suc i) n lost t)
      on_credit k k' true t f =
          claim_quota-Balanced b (q.attempt_id n) (claim_candidates o q bs (suc i) (suc n)) lost t
            (claim_credit-held b true s t h f) k
      on_credit k k' false t f = k' t (claim_credit-held b false s t h f)
