-- ===== src/Exclusion/Calls.antt =====
-- Histories of the store's calls, by a step relation: requests that are admitted, released and
-- settled in any order, while the clock runs.
use foundry_router.Base.{
  ℕ, ◌≡◌, refl, Bool, true, false, not, ◌||◌, ◌&&◌, Option, none, some, List, [], ◌∷◌, nat_eq,
  arith, ltb, ◌==◌, Bool-cases, Option-cases, inl, inr,
}
use mathlib.Core.Option.{some-injective}
use mathlib.Core.Path.{subst}
use foundry_router.Base.Dict.{Dict, lookup}
use foundry_router.Exclusion.{
  Key, key_eq, CombinationRecord, AdmissionTicket, Store, expire, refresh, admit_refreshed, admit,
  release, release_found, token_beq, fresh_record, is_some, is_ordinary, settle, drop_token,
  attempt_on, attempt_found, stale_ticket, record_attempt, reset,
}
use foundry_router.Exclusion.Phase.{IsValidRecord, IsCurrent, settle-IsValid, expire-IsValid}
use foundry_router.Exclusion.Refinement.{
  IsValid, put-IsValid, refresh-IsValid, refresh-IsCurrent, drop_token-IsValid, drop_token-phase,
  fresh-IsValid, expired,
}
use foundry_router.Exclusion.Filter.{expire_all, filter_candidates, snapshot}

admit_refreshed-IsValid :
    (token : ℕ) (k : Key) (probe : Bool) (s : Store)
    → IsValid s
    → IsValid (admit_refreshed token k probe s).1
unfolding admit_refreshed
admit_refreshed-IsValid token k probe s v = elim (Option-cases (lookup k s.records)) [
  | inl e ↦ rw (e, admit_refreshed) v
  | inr (r, e) ↦
      rw (e, admit_refreshed)
        (elim (Bool-cases (ltb 0 r.excluded_until_monotonic)) [
          | inl shut ↦ rw shut (elim (Bool-cases (not probe || is_some r.probe_token)) [
            | inl busy ↦ rw busy v
            | inr idle ↦
                rw idle (put-IsValid k (record r { probe_token = some token }) s v (v k r e))
          ])
          | inr counting ↦ rw counting v
        ])
]

attempt_on-IsValid :
    (now wall : ℕ) (k : Key) (success countable : Bool) (t : Option AdmissionTicket)
    (r : CombinationRecord) (s : Store)
    → IsValid s
    → IsValidRecord r
    → IsCurrent now r
    → IsValid (attempt_on now wall k success countable t r s).1
unfolding attempt_on
attempt_on-IsValid now wall k success countable t r s v w c =
    elim (Bool-cases (ltb now r.excluded_until_monotonic && is_ordinary t)) [
      | inl ignored ↦ rw (ignored, attempt_on) (put-IsValid k r s v w)
      | inr counted ↦
          rw (counted, attempt_on)
            (put-IsValid k (settle now wall success countable (drop_token t r)).1 s v (
              settle-IsValid now wall success countable (drop_token t r) (drop_token-IsValid t r w)
                (rw (drop_token-phase t r).1 c)))
    ]

attempt_found-IsValid :
    (now wall : ℕ) (k : Key) (success countable : Bool) (t : Option AdmissionTicket) (s : Store)
    (o : Option CombinationRecord)
    → IsValid s
    → ((r : CombinationRecord) → o ≡ some r → IsValidRecord r × IsCurrent now r)
    → IsValid (attempt_found now wall k success countable t s o).1
unfolding attempt_found
attempt_found-IsValid now wall k success true t s none v c =
    attempt_on-IsValid now wall k success true t fresh_record s v fresh-IsValid (inl refl)
attempt_found-IsValid now wall k success false t s none v c = v
attempt_found-IsValid now wall k success true t s (some r) v c =
    attempt_on-IsValid now wall k success true t r s v (c r refl).0 (c r refl).1
attempt_found-IsValid now wall k success false t s (some r) v c =
    attempt_on-IsValid now wall k success false t r s v (c r refl).0 (c r refl).1

record_attempt-IsValid :
    (now wall : ℕ) (k : Key) (success countable : Bool) (t : Option AdmissionTicket) (s : Store)
    → IsValid s
    → IsValid (record_attempt now wall k success countable t s).1
unfolding record_attempt
record_attempt-IsValid now wall k success countable t s v =
    let s' = refresh now k s in
    let v' = refresh-IsValid now k s v in
    elim (Bool-cases (stale_ticket k s' t)) [
      | inl stale ↦ rw (stale, record_attempt) v'
      | inr fits ↦
          rw (fits, record_attempt)
            (attempt_found-IsValid now wall k success countable t s' (lookup k s'.records) v'
              (λ r e. (v' k r e, refresh-IsCurrent now k s r e)))
    ]

release_found-IsValid :
    (t : AdmissionTicket) (s : Store) (o : Option CombinationRecord)
    → IsValid s
    → ((r : CombinationRecord) → o ≡ some r → IsValidRecord r)
    → IsValid (release_found t s o)
unfolding release_found
release_found-IsValid t s none v w = v
release_found-IsValid t s (some r) v w =
    elim (Bool-cases (
      (t.epoch == s.epoch)
      && (r.generation == t.generation)
      && token_beq r.probe_token t.probe_token)) [
        | inl same ↦
            rw (same, release_found)
              (put-IsValid t.key (record r { probe_token = none }) s v (w r refl))
        | inr other ↦ rw (other, release_found) v
      ]

release-IsValid : (t : Option AdmissionTicket) (s : Store) → IsValid s → IsValid (release t s)
unfolding release
release-IsValid none s v = v
release-IsValid (some t) s v = elim (Bool-cases (is_some t.probe_token)) [
  | inr ordinary ↦ rw (ordinary, release) v
  | inl probe ↦
      rw (probe, release)
        (release_found-IsValid t s (lookup t.key s.records) v (λ r e. v t.key r e))
]

pub lookup-expire_all :
    (now : ℕ) (k : Key) (d : Dict Key CombinationRecord)
    → lookup k (expire_all now d) ≡ expired now (lookup k d)
unfolding expire_all lookup
lookup-expire_all now k [] = refl
lookup-expire_all now k ((j, r) ∷ d) = ground (arith, lookup-expire_all now k d)

expired-IsValid :
    (now : ℕ) (o : Option CombinationRecord) (q : CombinationRecord)
    → ((r : CombinationRecord) → o ≡ some r → IsValidRecord r)
    → expired now o ≡ some q
    → IsValidRecord q
expired-IsValid now none q v e = cc
expired-IsValid now (some r) q v e =
    subst IsValidRecord (some-injective (expire now r) q e) (expire-IsValid now r (v r refl))

expire_all-IsValid :
    (now : ℕ) (s : Store) → IsValid s → IsValid (record s { records = expire_all now s.records })
expire_all-IsValid now s v k q e =
    expired-IsValid now (lookup k s.records) q (v k) (rw (lookup-expire_all now k s.records) at e)

-- One call, at any time and with any arguments.
pub data Step (s : Store) : Store → Type 0 where
  admits : (now token : ℕ) (k : Key) (probe : Bool) → Step s (admit now token k probe s).1
  releases : (t : Option AdmissionTicket) → Step s (release t s)
  attempts :
      (now wall : ℕ) (k : Key) (success countable : Bool) (t : Option AdmissionTicket)
      → Step s (record_attempt now wall k success countable t s).1
  filters :
      (now : ℕ) (bs : List ℕ) (operation : ℕ) (mode : Bool)
      → Step s (filter_candidates now bs operation mode s).1
  snapshots : (now : ℕ) → Step s (snapshot now s).1
  resets : Step s (reset s)

pub data Reach (s : Store) : Store → Type 0 where
  here : Reach s s
  next : {t u : Store} → Reach s t → Step t u → Reach s u

abbrev pub empty : Store
empty = record { records = []; epoch = 0 }

Step-IsValid : {s t : Store} → Step s t → IsValid s → IsValid t
unfolding admit filter_candidates snapshot reset lookup
Step-IsValid {s} (admits now token k probe) v =
    admit_refreshed-IsValid token k probe (refresh now k s) (refresh-IsValid now k s v)
Step-IsValid {s} (releases t) v = release-IsValid t s v
Step-IsValid {s} (attempts now wall k success countable t) v =
    record_attempt-IsValid now wall k success countable t s v
Step-IsValid {s} (filters now bs operation mode) v = expire_all-IsValid now s v
Step-IsValid {s} (snapshots now) v = expire_all-IsValid now s v
Step-IsValid resets v = λ k r e. cc

-- In every state that calls can reach from the start, each combination either counts fewer than
-- three failures, or has three and a window of half an hour from its exclusion or last failed
-- probe.
pub Reach-IsValid : {s : Store} → Reach empty s → IsValid s
unfolding lookup
Reach-IsValid here = λ k r e. cc
Reach-IsValid (next r st) = Step-IsValid st (Reach-IsValid r)
