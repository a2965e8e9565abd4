-- ===== src/Routing/Claim/Late.antt =====
-- What a request holds of the stores when the selection of
-- `src/foundry_router/routing/__init__.py` ends before or after its deadline.
use foundry_router.Base.{
  ℕ, ◌≡◌, ◌⊎◌, refl, sym, ap, ◌∙◌, Bool, true, false, Option, none, some, List, [], ◌∷◌, ◌++◌,
  if◌then◌else◌, Bool-cases, inl, inr,
}
use foundry_router.Routing.Claim.{
  Answer, gives, Done, done, Stores, Selection, Ending, expired, selected, race_lost, raised,
  unlogged, protected_cleanup, holds_quota, backend_of, ticket_of, attempt_of, late_cleanup,
  end_selection, claim_candidates,
}
use foundry_router.Routing.Claim.Balance.{
  Held, nothing, Promises, Balanced, quota_of, has_ticket, Done-cases, claim_candidates-Balanced,
}

holds_nothing : (h : Held) → h.credit ≡ false → h.quota ≡ none → h.ticket ≡ none → h ≡ nothing
holds_nothing h c n k = cc

module _ {ℓ} {S : Type ℓ} (o : Stores S) (held : S → Held) (v : Promises o held)
    (q : Selection) where
  -- If all calls of a cleanup have returned, the first has.
  cleanup-cons :
      (f : S → Answer Done × S) (fs : List (S → Answer Done × S)) (s t : S)
      → protected_cleanup o (f ∷ fs) s ≡ (true, t)
      → (u : S) × (f s ≡ (gives done, u)) × (protected_cleanup o fs u ≡ (true, t))
  unfolding protected_cleanup
  cleanup-cons f fs s t h = elim (Done-cases o held v q (f s)) [
    | inl (u, e) ↦ absurd (no_raise u (rw (e, protected_cleanup) at h))
    | inr (u, e) ↦ (u, e, rw (e, protected_cleanup) at h)
  ]
    where
      no_raise : (u : S) → ◌≡◌ {A = Bool × S} (false, (protected_cleanup o fs u).1) (true, t) → ⊥
      no_raise u g = cc

  late_quota :
      (limits : Bool) (a : ℕ) (s t : S)
      → (held s).credit ≡ false
      → (held s).ticket ≡ none
      → ((held s).quota ≡ none) ⊎ ((held s).quota ≡ some a)
      → (limits ≡ false → (held s).quota ≡ none)
      → protected_cleanup o (if limits then o.release_quota a ∷ [] else []) s ≡ (true, t)
      → held t ≡ nothing
  unfolding protected_cleanup
  late_quota false a s t c k mine free h =
      let same : s ≡ t = cc in ap held (sym same) ∙ holds_nothing (held s) c (free refl) k
  late_quota true a s t c k mine free h =
      let (u, r, rest) = cleanup-cons (o.release_quota a) [] s t h in
      let same : u ≡ t = cc in
      let at_u = v.released a s u r mine in
      ap held (sym same)
      ∙ holds_nothing (held u) (ap (λ (x : Held). x.credit) at_u ∙ c)
          (ap (λ (x : Held). x.quota) at_u) (ap (λ (x : Held). x.ticket) at_u ∙ k)

  late_ticket :
      (exclusion limits : Bool) (k : Option ℕ) (a : ℕ) (s t : S)
      → (held s).credit ≡ false
      → (held s).ticket ≡ k
      → (exclusion ≡ false → k ≡ none)
      → ((held s).quota ≡ none) ⊎ ((held s).quota ≡ some a)
      → (limits ≡ false → (held s).quota ≡ none)
      → protected_cleanup o
          ((if exclusion then o.release_ticket k ∷ [] else [])
            ++ (if limits then o.release_quota a ∷ [] else []))
          s
        ≡ (true, t)
      → held t ≡ nothing
  late_ticket false limits k a s t c at_k none_k mine free h =
      late_quota limits a s t c (at_k ∙ none_k refl) mine free h
  late_ticket true limits k a s t c at_k none_k mine free h =
      let (u, r, rest) =
        cleanup-cons (o.release_ticket k) (if limits then o.release_quota a ∷ [] else []) s t h in
      let kept_credit : (held u).credit ≡ (held s).credit =
        sym (ap (λ (x : Answer Done × S). (held x.1).credit) r) ∙ (v.ticket_released k s).0 in
      let kept_quota : (held u).quota ≡ (held s).quota =
        sym (ap (λ (x : Answer Done × S). (held x.1).quota) r) ∙ (v.ticket_released k s).1 in
      late_quota limits a u t (kept_credit ∙ c) (v.ticket_gone k s u r at_k)
        (elim mine [ inl e ↦ inl (kept_quota ∙ e) | inr e ↦ inr (kept_quota ∙ e) ])
        (λ e. kept_quota ∙ free e) rest

  -- The cleanup after the deadline, for a result that names what is held.
  late_cleanup-nothing :
      (request_id : ℕ) (e : Ending) (s t : S)
      → (held s).ticket ≡ ticket_of o q e
      → (q.has_exclusion ≡ false → ticket_of o q e ≡ none)
      → ((held s).quota ≡ none) ⊎ ((held s).quota ≡ some (attempt_of o q request_id e))
      → (q.has_rate_limits ≡ false → (held s).quota ≡ none)
      → protected_cleanup o (late_cleanup o q request_id e) s ≡ (true, t)
      → held t ≡ nothing
  unfolding late_cleanup
  late_cleanup-nothing request_id e s t at_k none_k mine free h =
      let (u, f, rest) = cleanup-cons (o.finalize_credit (backend_of o q e)) _ s t h in
      let at_u = v.finalized (backend_of o q e) s u f in
      let same_quota = ap (λ (x : Held). x.quota) at_u in
      late_ticket q.has_exclusion q.has_rate_limits (ticket_of o q e) (attempt_of o q request_id e)
        u t (ap (λ (x : Held). x.credit) at_u) (ap (λ (x : Held). x.ticket) at_u ∙ at_k) none_k
        (elim mine [ inl x ↦ inl (same_quota ∙ x) | inr x ↦ inr (same_quota ∙ x) ])
        (λ x. same_quota ∙ free x) rest

  -- What is known when the selection has ended, with whether the calls of the cleanup after the
  -- deadline have all returned.
  abbrev pub Ends : (Ending × Bool) × S → Type 0
  Ends ((e, true), s) = Balanced o held v q (e, s)
  Ends ((e, false), s) = Unit

  expired-Ends :
      (r : Bool × S) → ((t : S) → r ≡ (true, t) → held t ≡ nothing) → Ends ((expired, r.0), r.1)
  expired-Ends (true, t) k = k t refl
  expired-Ends (false, t) k = tt

  -- An end with nothing held, in time or late.
  nothing-Ends :
      (request_id : ℕ) (e : Ending) (s : S)
      → ticket_of o q e ≡ none
      → held s ≡ nothing
      → Ends (
          let (ok, t) = protected_cleanup o (late_cleanup o q request_id e) s in ((expired, ok), t))
  nothing-Ends request_id e s no_ticket h =
      expired-Ends (protected_cleanup o (late_cleanup o q request_id e) s) (λ t f.
        late_cleanup-nothing request_id e s t (ap (λ (x : Held). x.ticket) h ∙ sym no_ticket)
          (λ x. no_ticket) (inl (ap (λ (x : Held). x.quota) h)) (λ x. ap (λ (x : Held). x.quota) h)
          f)

  quota_of-cases :
      (b attempt : ℕ)
      → (quota_of o held v q b attempt ≡ none) ⊎ (quota_of o held v q b attempt ≡ some attempt)
  quota_of-cases b attempt = elim (Bool-cases (holds_quota o q b)) [
    | inl e ↦ inr (rw e refl)
    | inr e ↦ inl (rw e refl)
  ]

  selected-Ends :
      (request_id b attempt : ℕ) (ticket : Option ℕ) (s : S)
      → Balanced o held v q (selected b ticket attempt, s)
      → Ends (
          let (ok, t) =
            protected_cleanup o (late_cleanup o q request_id (selected b ticket attempt)) s in
          ((expired, ok), t))
  selected-Ends request_id b attempt ticket s (h, given) =
      let at_quota = ap (λ (x : Held). x.quota) h in
      expired-Ends (protected_cleanup o (late_cleanup o q request_id (selected b ticket attempt)) s)
        (λ t f.
          late_cleanup-nothing request_id (selected b ticket attempt) s t
            (ap (λ (x : Held). x.ticket) h) (no_exclusion ticket given)
            (elim (quota_of-cases b attempt) [
              | inl x ↦ inl (at_quota ∙ x)
              | inr x ↦ inr (at_quota ∙ x)
            ])
            (λ x. at_quota ∙ no_limits x) f)
    where
      no_exclusion :
          (k : Option ℕ)
          → has_ticket o held v q k ≡ q.has_exclusion
          → q.has_exclusion ≡ false
          → k ≡ none
      no_exclusion none g x = refl
      no_exclusion (some k) g x = cc

      no_limits : q.has_rate_limits ≡ false → quota_of o held v q b attempt ≡ none
      no_limits x = rw x refl

  ends :
      (request_id : ℕ) (late : Bool) (r : Ending × S)
      → Balanced o held v q r
      → Ends (end_selection o q request_id late r)
  unfolding end_selection
  ends request_id late (raised ok, s) h = h
  ends request_id late (unlogged b attempt, s) h = h
  ends request_id false (expired, s) h = h
  ends request_id true (expired, s) h = nothing-Ends request_id expired s refl h
  ends request_id false (race_lost lost, s) h = h
  ends request_id true (race_lost lost, s) h = nothing-Ends request_id (race_lost lost) s refl h
  ends request_id false (selected b ticket attempt, s) h = h
  ends request_id true (selected b ticket attempt, s) h =
      selected-Ends request_id b attempt ticket s h

  pub selection_end :
      (bs : List ℕ) (request_id : ℕ) (late lost : Bool) (s : S)
      → held s ≡ nothing
      → Ends (end_selection o q request_id late (claim_candidates o q bs 0 0 lost s))
  selection_end bs request_id late lost s h =
      ends request_id late (claim_candidates o q bs 0 0 lost s)
        (claim_candidates-Balanced o held v q bs 0 0 lost s h)
