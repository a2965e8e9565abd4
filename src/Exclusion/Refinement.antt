-- ===== src/Exclusion/Refinement.antt =====
-- The store of `src/foundry_router/routing/exclusion.py` and the automaton of `Phase`.
use foundry_router.Base.{
  ℕ, ◌≡◌, refl, ap, sym, ◌∙◌, Bool, true, false, ◌&&◌, ◌||◌, Option, none, some, arith, ltb, ◌==◌,
  if◌then◌else◌, Bool-cases, Option-cases, inl, inr,
}
use mathlib.Core.Option.{some-injective}
use mathlib.Core.Path.{subst}
use foundry_router.Base.Dict.{lookup, lookup-insert}
use foundry_router.Exclusion.{
  Key, key_eq, key_beq_iff, CombinationRecord, AdmissionTicket, Store, expire, put, refresh,
  fresh_record, settle, drop_token, is_ordinary, attempt_on, attempt_found, stale_ticket,
  record_attempt,
}
use foundry_router.Exclusion.Phase.{
  Phase, counting, elapse, on_outcome, phase, IsValidRecord, IsCurrent, expire-IsCurrent,
  expire-IsValid, phase-expire, phase-settle,
}

-- Every record of the store is valid.
abbrev pub IsValid : Store → Type 0
IsValid s = (k : Key) (r : CombinationRecord) → lookup k s.records ≡ some r → IsValidRecord r

-- The phase of a combination; one with no record counts no failure.
abbrev pub phase_of : Option CombinationRecord → Phase
phase_of none = counting 0
phase_of (some r) = phase r

abbrev pub phase_at : Store → Key → Phase
phase_at s k = phase_of (lookup k s.records)

pub put-IsValid :
    (k : Key) (r : CombinationRecord) (s : Store)
    → IsValid s
    → IsValidRecord r
    → IsValid (put k r s)
put-IsValid k r s v w j q e = elim (Bool-cases (key_eq.same k j)) [
  | inl same ↦
      subst IsValidRecord
        (some-injective r q (rw same at (rw (lookup-insert k j r s.records) at e))) w
  | inr other ↦ v j q (rw other at (rw (lookup-insert k j r s.records) at e))
]

pub refresh-IsValid : (now : ℕ) (k : Key) (s : Store) → IsValid s → IsValid (refresh now k s)
unfolding refresh
refresh-IsValid now k s v = elim (Option-cases (lookup k s.records)) [
  | inl e ↦ rw (e, refresh) v
  | inr (r, e) ↦ rw (e, refresh) (put-IsValid k (expire now r) s v (expire-IsValid now r (v k r e)))
]

abbrev pub expired : ℕ → Option CombinationRecord → Option CombinationRecord
expired now none = none
expired now (some r) = some (expire now r)

-- The record of the key after the refresh, if there is one, is valid and current.
lookup-refresh :
    (now : ℕ) (k j : Key) (s : Store)
    → lookup j (refresh now k s).records
      ≡ (if k == j then expired now (lookup k s.records) else lookup j s.records)
unfolding refresh
lookup-refresh now k j s = elim (Option-cases (lookup k s.records)) [
  | inl e ↦
      rw (e, refresh)
        (elim (Bool-cases (key_eq.same k j)) [
          | inl same ↦ rw same (ap (λ i. lookup i s.records) (sym ((key_beq_iff k j).0 same)) ∙ e)
          | inr other ↦ rw other
        ])
  | inr (r, e) ↦ rw (e, refresh) (lookup-insert k j (expire now r) s.records)
]

pub refresh-epoch : (now : ℕ) (k : Key) (s : Store) → (refresh now k s).epoch ≡ s.epoch
unfolding refresh
refresh-epoch now k s = ground arith

-- An outcome that the store takes no notice of: its ticket is stale, or it is an ordinary one and
-- the combination has been excluded since.
abbrev pub is_excluded : ℕ → Option CombinationRecord → Bool
is_excluded now none = false
is_excluded now (some r) = ltb now r.excluded_until_monotonic

abbrev pub is_ignored : ℕ → Key → Option AdmissionTicket → Store → Bool
is_ignored now k t s = stale_ticket k s t || (is_excluded now (lookup k s.records) && is_ordinary t)

pub fresh-IsValid : IsValidRecord fresh_record
fresh-IsValid = inl (refl, omega arith)

pub drop_token-IsValid :
    (t : Option AdmissionTicket) (r : CombinationRecord)
    → IsValidRecord r
    → IsValidRecord (drop_token t r)
drop_token-IsValid none r v = v
drop_token-IsValid (some t) r v = ground arith

pub drop_token-phase :
    (t : Option AdmissionTicket) (r : CombinationRecord)
    → (phase (drop_token t r) ≡ phase r)
      × ((drop_token t r).excluded_until_monotonic ≡ r.excluded_until_monotonic)
drop_token-phase none r = (refl, refl)
drop_token-phase (some t) r = (ground arith, ground arith)

pub lookup-insert_self :
    (k : Key) (r : CombinationRecord) (s : Store) → lookup k (put k r s).records ≡ some r
lookup-insert_self k r s =
    let same = (key_beq_iff k k).1 refl in rw same at (lookup-insert k k r s.records)

phase_at-put : (k : Key) (r : CombinationRecord) (s : Store) → phase_at (put k r s) k ≡ phase r
phase_at-put k r s = ap phase_of (lookup-insert_self k r s)

-- An attempt on a valid and current record.
attempt_on-refines :
    (now wall : ℕ) (k : Key) (success countable : Bool) (t : Option AdmissionTicket)
    (r : CombinationRecord) (s : Store)
    → IsValidRecord r
    → IsCurrent now r
    → (ltb now r.excluded_until_monotonic && is_ordinary t) ≡ false
    → let p = on_outcome now success countable (phase r) in
      let out = attempt_on now wall k success countable t r s in
      (out.0 ≡ p.0) × (phase_at out.1 k ≡ p.1)
unfolding attempt_on
attempt_on-refines now wall k success countable t r s v c counted =
    let d = drop_token t r in
    let same = drop_token-phase t r in
    let step = phase-settle now wall success countable d (drop_token-IsValid t r v) (rw same.1 c) in
    rw (counted, attempt_on)
      (
        step.0 ∙ ap (λ p. (on_outcome now success countable p).0) same.0,
        phase_at-put k (settle now wall success countable d).1 s
            ∙ step.1
            ∙ ap (λ p. (on_outcome now success countable p).1) same.0,
      )

pub lookup-refresh_self :
    (now : ℕ) (k : Key) (s : Store)
    → lookup k (refresh now k s).records ≡ expired now (lookup k s.records)
lookup-refresh_self now k s =
    let same = (key_beq_iff k k).1 refl in rw same at (lookup-refresh now k k s)

-- The refreshed state holds the phase that the time which has passed leaves.
phase_at-refresh :
    (now : ℕ) (k : Key) (s : Store)
    → IsValid s
    → phase_at (refresh now k s) k ≡ elapse now (phase_at s k)
phase_at-refresh now k s v =
    ap phase_of (lookup-refresh_self now k s) ∙ (elim (Option-cases (lookup k s.records)) [
      | inl e ↦ rw (e, phase_at)
      | inr (r, e) ↦ rw (e, phase_at) (phase-expire now r (v k r e))
    ])

expired-IsCurrent :
    (now : ℕ) (o : Option CombinationRecord) (r : CombinationRecord)
    → expired now o ≡ some r
    → IsCurrent now r
expired-IsCurrent now none r e = cc
expired-IsCurrent now (some q) r e =
    subst (IsCurrent now) (some-injective (expire now q) r e) (expire-IsCurrent now q)

pub refresh-IsCurrent :
    (now : ℕ) (k : Key) (s : Store) (r : CombinationRecord)
    → lookup k (refresh now k s).records ≡ some r
    → IsCurrent now r
refresh-IsCurrent now k s r e =
    expired-IsCurrent now (lookup k s.records) r (sym (lookup-refresh_self now k s) ∙ e)

attempt_found-refines :
    (now wall : ℕ) (k : Key) (success countable : Bool) (t : Option AdmissionTicket) (s : Store)
    (o : Option CombinationRecord)
    → lookup k s.records ≡ o
    → ((r : CombinationRecord) → o ≡ some r → IsValidRecord r × IsCurrent now r)
    → (is_excluded now o && is_ordinary t) ≡ false
    → let p = on_outcome now success countable (phase_of o) in
      let out = attempt_found now wall k success countable t s o in
      (out.0 ≡ p.0) × (phase_at out.1 k ≡ p.1)
unfolding attempt_found
attempt_found-refines now wall k success true t s none e v counted =
    attempt_on-refines now wall k success true t fresh_record s fresh-IsValid (inl refl)
      (ground arith)
attempt_found-refines now wall k true false t s none e v counted = (refl, ap phase_of e)
attempt_found-refines now wall k false false t s none e v counted = (refl, ap phase_of e)
attempt_found-refines now wall k success true t s (some r) e v counted =
    attempt_on-refines now wall k success true t r s (v r refl).0 (v r refl).1 counted
attempt_found-refines now wall k success false t s (some r) e v counted =
    attempt_on-refines now wall k success false t r s (v r refl).0 (v r refl).1 counted

-- An attempt that is ignored leaves the phases.
attempt_found-ignored :
    (now wall : ℕ) (k : Key) (success countable : Bool) (t : Option AdmissionTicket) (s : Store)
    (o : Option CombinationRecord)
    → lookup k s.records ≡ o
    → (is_excluded now o && is_ordinary t) ≡ true
    → let out = attempt_found now wall k success countable t s o in
      (out.0 ≡ none) × (phase_at out.1 k ≡ phase_of o)
unfolding attempt_found attempt_on
attempt_found-ignored now wall k success true t s none e h = cc
attempt_found-ignored now wall k success false t s none e h = cc
attempt_found-ignored now wall k success true t s (some r) e h =
    rw (h, attempt_on) (refl, phase_at-put k r s)
attempt_found-ignored now wall k success false t s (some r) e h =
    rw (h, attempt_on) (refl, phase_at-put k r s)

-- The store implements the automaton: an attempt first lets the time pass on its combination; then,
-- if its ticket is stale, or is an ordinary one and the combination is excluded, it has no effect,
-- and else it makes the automaton's step on the outcome and returns its transition.
pub record_attempt-refines :
    (now wall : ℕ) (k : Key) (success countable : Bool) (t : Option AdmissionTicket) (s : Store)
    → IsValid s
    → let p = elapse now (phase_at s k) in
      let q = on_outcome now success countable p in
      let out = record_attempt now wall k success countable t s in
      (is_ignored now k t (refresh now k s) ≡ true → (out.0 ≡ none) × (phase_at out.1 k ≡ p))
      × (is_ignored now k t (refresh now k s) ≡ false → (out.0 ≡ q.0) × (phase_at out.1 k ≡ q.1))
unfolding record_attempt
record_attempt-refines now wall k success countable t s v =
    let s' = refresh now k s in
    let o = lookup k s'.records in
    let p = phase_at-refresh now k s v in
    let made =
      attempt_found-refines now wall k success countable t s' o refl
        (λ r e. (refresh-IsValid now k s v k r e, refresh-IsCurrent now k s r e)) in
    let passed = attempt_found-ignored now wall k success countable t s' o refl in
    elim (Bool-cases (stale_ticket k s' t)) [
      | inl stale ↦ rw (stale, record_attempt) ((λ h. (refl, p)), (λ h. cc))
      | inr fits ↦
          rw (fits, record_attempt)
            (
              (λ h. ((passed h).0, (passed h).1 ∙ p)),
              (λ h. (
                (made h).0 ∙ ap (λ x. (on_outcome now success countable x).0) p,
                (made h).1 ∙ ap (λ x. (on_outcome now success countable x).1) p,
              )),
            )
    ]
