-- ===== src/Exclusion/Fencing.antt =====
-- The tickets and probes of `src/foundry_router/routing/exclusion.py`.
use foundry_router.Base.{
  ℕ, suc, ◌≤◌, ◌<◌, ◌≡◌, refl, ap, sym, ◌∙◌, Bool, true, false, ◌&&◌, Option, none, some, List, [],
  ◌∷◌, All, arith, ltb, nat_eq, nat_beq_iff, Bool-cases, inl, inr,
}
use foundry_router.Base.Dict.{lookup}
use foundry_router.Exclusion.{
  Key, key_eq, CombinationRecord, AdmissionTicket, Store, expire, put, refresh, ticket, is_some,
  admit_refreshed, admit, release_found, release, fresh_record, Transition, entered, decayed,
  cleared_window, is_stale, settle, drop_token, is_ordinary, attempt_on, attempt_found,
  stale_ticket, record_attempt, reset,
}
use foundry_router.Exclusion.Refinement.{
  lookup-insert_self, lookup-refresh_self, expired, refresh-epoch,
}

-- The combination is excluded until after `now`, and its record is this one.
abbrev pub IsShut : ℕ → Key → CombinationRecord → Store → Type 0
IsShut now k r s = (lookup k s.records ≡ some r) × (now < r.excluded_until_monotonic)

expire_shut :
    (now : ℕ) (r : CombinationRecord) → now < r.excluded_until_monotonic → expire now r ≡ r
unfolding expire
expire_shut now r h = ground arith

refresh_shut :
    (now : ℕ) (k : Key) (r : CombinationRecord) (s : Store)
    → IsShut now k r s
    → lookup k (refresh now k s).records ≡ some r
refresh_shut now k r s h =
    rw (lookup-refresh_self now k s, h.0) (ground (arith, expire_shut now r h.1))

admit_probe :
    (token : ℕ) (k : Key) (r : CombinationRecord) (s : Store)
    → lookup k s.records ≡ some r
    → 0 < r.excluded_until_monotonic
    → r.probe_token ≡ none
    → admit_refreshed token k true s ≡ (
      some (ticket k s r.generation (some token)),
      put k (record r { probe_token = some token }) s,
    )
unfolding admit_refreshed
admit_probe token k r s e h idle = rw (e, admit_refreshed) (ground arith)

admit_busy :
    (token : ℕ) (k : Key) (probe : Bool) (r : CombinationRecord) (s : Store)
    → lookup k s.records ≡ some r
    → 0 < r.excluded_until_monotonic
    → is_some r.probe_token ≡ true
    → admit_refreshed token k probe s ≡ (none, s)
unfolding admit_refreshed
admit_busy token k probe r s e h busy = rw (e, admit_refreshed) (ground arith)

-- The holder of the token gives it back.
release_own :
    (t : AdmissionTicket) (r : CombinationRecord) (token : ℕ) (s : Store)
    → lookup t.key s.records ≡ some r
    → t.epoch ≡ s.epoch
    → r.generation ≡ t.generation
    → r.probe_token ≡ some token
    → t.probe_token ≡ some token
    → release (some t) s ≡ put t.key (record r { probe_token = none }) s
unfolding release release_found
release_own t r token s e epoch generation held own =
    rw (own, e, release, release_found)
      (ground (
        arith,
        nat_beq_iff t.epoch s.epoch,
        nat_beq_iff r.generation t.generation,
        nat_beq_iff token token,
      ))

-- A request for a combination: its time, its random token, and whether it asks for a probe.
pub record Request : Type 0 where
  pub now : ℕ
  pub token : ℕ
  pub probe : Bool

-- Requests for one combination, one directly after the other: what each gets, and the state.
pub ask : Key → List Request → Store → List (Option AdmissionTicket) × Store
ask k [] s = ([], s)
ask k (q ∷ qs) s =
    let (got, t) = admit q.now q.token k q.probe s in let (rest, u) = ask k qs t in (got ∷ rest, u)

-- While a probe is out, requests get nothing and leave its record.
ask_busy :
    (k : Key) (r : CombinationRecord) (qs : List Request) (s : Store)
    → lookup k s.records ≡ some r
    → is_some r.probe_token ≡ true
    → All (λ q. q.now < r.excluded_until_monotonic) qs
    → All (λ got. got ≡ none) (ask k qs s).0
      × (lookup k (ask k qs s).1.records ≡ some r)
      × ((ask k qs s).1.epoch ≡ s.epoch)
unfolding ask admit
ask_busy k r [] s e busy lasts = (tt, e, refl)
ask_busy k r (q ∷ qs) s e busy lasts =
    let t = refresh q.now k s in
    let still = refresh_shut q.now k r s (e, lasts.0) in
    let (nothing, found, same) = ask_busy k r qs t still busy lasts.1 in
    rw (admit_busy q.token k q.probe r t still (omega (arith, lasts.0)) busy)
      ((refl, nothing), found, same ∙ refresh-epoch q.now k s)

-- Of an excluded combination with no probe, while its window lasts: the first request for a probe
-- gets one; each of any number of requests for the combination that come directly after it, with no
-- other call between, gets none; and if the probe is then given back unused, the next request for a
-- probe gets one.
pub probe_exclusive :
    (now after token token' : ℕ) (k : Key) (qs : List Request) (r : CombinationRecord) (s : Store)
    → IsShut now k r s
    → r.probe_token ≡ none
    → All (λ q. q.now < r.excluded_until_monotonic) qs
    → after < r.excluded_until_monotonic
    → let claimed = admit now token k true s in
      let asked = ask k qs claimed.1 in
      (claimed.0 ≡ some (ticket k s r.generation (some token)))
      × All (λ got. got ≡ none) asked.0
      × ((admit after token' k true (release claimed.0 asked.1)).0
          ≡ some (ticket k s r.generation (some token')))
unfolding admit
probe_exclusive now after token token' k qs r s shut idle lasts lasting =
    let t = refresh now k s in
    let found = refresh_shut now k r s shut in
    let claimed = admit_probe token k r t found (omega (arith, shut.1)) idle in
    let held = record r { probe_token = some token } in
    let u = put k held t in
    let mine = ticket k t r.generation (some token) in
    let (nothing, still, same) = ask_busy k held qs u (lookup-insert_self k held t) refl lasts in
    rw claimed (
      ap (λ e. some (ticket_at e token)) (refresh-epoch now k s),
      nothing,
      rw (release_own mine held token (ask k qs u).1 still (sym same) refl refl refl)
          (claim_again (ask k qs u).1 (same ∙ refresh-epoch now k s)),
    )
  where
    ticket_at : ℕ → ℕ → AdmissionTicket
    ticket_at e x = record { key = k; epoch = e; generation = r.generation; probe_token = some x }

    given : CombinationRecord
    given = record r { probe_token = none }

    claim_again :
        (w : Store)
        → w.epoch ≡ s.epoch
        → (admit_refreshed token' k true (refresh after k (put k given w))).0
          ≡ some (ticket k s r.generation (some token'))
    claim_again w e =
        let v = put k given w in
        rw
          (admit_probe token' k given (refresh after k v)
            (refresh_shut after k given v (lookup-insert_self k given w, lasting))
            (omega (arith, lasting)) refl)
          (ap (λ e. some (ticket_at e token')) (refresh-epoch after k v ∙ e))

-- The generation of a combination; one with no record has 0.
abbrev pub generation_of : Option CombinationRecord → ℕ
generation_of none = 0
generation_of (some r) = r.generation

abbrev pub generation_at : Store → Key → ℕ
generation_at s k = generation_of (lookup k s.records)

-- The transitions that open or close a window.
abbrev pub turns : Option Transition → Bool
turns none = false
turns (some entered) = true
turns (some decayed) = false
turns (some cleared_window) = true

-- Such an outcome begins a new generation.
settle-generation :
    (now wall : ℕ) (success countable : Bool) (r : CombinationRecord)
    → turns (settle now wall success countable r).0 ≡ true
    → r.generation < (settle now wall success countable r).1.generation
unfolding settle
settle-generation now wall true countable r h = ground arith
settle-generation now wall false true r h = ground arith
settle-generation now wall false false r h = cc

expire-generation :
    (now : ℕ) (o : Option CombinationRecord) → generation_of o ≤ generation_of (expired now o)
unfolding expire
expire-generation now none = omega arith
expire-generation now (some r) = ground arith

refresh-generation :
    (now : ℕ) (k : Key) (s : Store) → generation_at s k ≤ generation_at (refresh now k s) k
refresh-generation now k s =
    rw (lookup-refresh_self now k s, generation_at) (expire-generation now (lookup k s.records))

drop_token-generation :
    (t : Option AdmissionTicket) (r : CombinationRecord)
    → (drop_token t r).generation ≡ r.generation
drop_token-generation none r = refl
drop_token-generation (some t) r = ground arith

attempt_on-generation :
    (now wall : ℕ) (k : Key) (success countable : Bool) (t : Option AdmissionTicket)
    (r : CombinationRecord) (s : Store)
    → turns (attempt_on now wall k success countable t r s).0 ≡ true
    → r.generation < generation_at (attempt_on now wall k success countable t r s).1 k
unfolding attempt_on
attempt_on-generation now wall k success countable t r s h =
    let made = settle now wall success countable (drop_token t r) in
    elim (Bool-cases (ltb now r.excluded_until_monotonic && is_ordinary t)) [
      | inl ignored ↦ absurd (absurd_turn (rw (ignored, attempt_on) at h))
      | inr counted ↦
          rw (counted, attempt_on, generation_at, lookup-insert_self k made.1 s)
            (rw (drop_token-generation t r) at (
              settle-generation now wall success countable (drop_token t r)
                (rw (counted, attempt_on) at h)))
    ]
  where
    absurd_turn : false ≡ true → ⊥
    absurd_turn e = cc

attempt_found-generation :
    (now wall : ℕ) (k : Key) (success countable : Bool) (t : Option AdmissionTicket) (s : Store)
    (o : Option CombinationRecord)
    → turns (attempt_found now wall k success countable t s o).0 ≡ true
    → generation_of o < generation_at (attempt_found now wall k success countable t s o).1 k
unfolding attempt_found
attempt_found-generation now wall k success true t s none h =
    attempt_on-generation now wall k success true t fresh_record s h
attempt_found-generation now wall k success false t s none h = cc
attempt_found-generation now wall k success true t s (some r) h =
    attempt_on-generation now wall k success true t r s h
attempt_found-generation now wall k success false t s (some r) h =
    attempt_on-generation now wall k success false t r s h

record_attempt-generation :
    (now wall : ℕ) (k : Key) (success countable : Bool) (t : Option AdmissionTicket) (s : Store)
    → turns (record_attempt now wall k success countable t s).0 ≡ true
    → generation_at (refresh now k s) k
      < generation_at (record_attempt now wall k success countable t s).1 k
unfolding record_attempt
record_attempt-generation now wall k success countable t s h =
    let s' = refresh now k s in
    elim (Bool-cases (stale_ticket k s' t)) [
      | inl stale ↦ absurd (no_turn (rw (stale, record_attempt) at h))
      | inr fits ↦
          rw (fits, record_attempt)
            (attempt_found-generation now wall k success countable t s' (lookup k s'.records)
              (rw (fits, record_attempt) at h))
    ]
  where
    no_turn : false ≡ true → ⊥
    no_turn e = cc

-- A ticket of an earlier generation does not fit.
older_stale :
    (k : Key) (t : AdmissionTicket) (s : Store) (o : Option CombinationRecord)
    → t.generation < generation_of o
    → is_stale k s o t ≡ true
unfolding is_stale
older_stale k t s none h = absurd (omega arith)
older_stale k t s (some r) h = ground (arith, nat_beq_iff t.generation r.generation)

-- Once an attempt has opened or closed a window, no ticket that was given out before it can count:
-- any attempt with such a ticket, at whatever time and with whatever outcome, only lets the time
-- pass on its combination.
pub older_ticket_ignored :
    (now wall later wall' : ℕ) (k : Key) (success countable success' countable' : Bool)
    (t : Option AdmissionTicket) (old : AdmissionTicket) (s : Store)
    → turns (record_attempt now wall k success countable t s).0 ≡ true
    → old.generation ≤ generation_at (refresh now k s) k
    → let s' = (record_attempt now wall k success countable t s).1 in
      record_attempt later wall' k success' countable' (some old) s' ≡ (none, refresh later k s')
unfolding record_attempt
older_ticket_ignored now wall later wall' k success countable success' countable' t old s turned
      before =
    let s' = (record_attempt now wall k success countable t s).1 in
    stale_ignored later wall' k success' countable' old s' (
      older_stale k old (refresh later k s') (lookup k (refresh later k s').records) (
        omega (
          arith,
          record_attempt-generation now wall k success countable t s turned,
          refresh-generation later k s',
        )))
  where
    stale_ignored :
        (later wall : ℕ) (k : Key) (success countable : Bool) (old : AdmissionTicket) (s : Store)
        → is_stale k (refresh later k s) (lookup k (refresh later k s).records) old ≡ true
        → record_attempt later wall k success countable (some old) s ≡ (none, refresh later k s)
    stale_ignored later wall k success countable old s h = rw (h, record_attempt)

-- After a reset, an attempt with a ticket that was given out before it, of whatever combination,
-- changes nothing and returns no transition.
pub reset_ticket_ignored :
    (now wall : ℕ) (k : Key) (success countable : Bool) (old : AdmissionTicket) (s : Store)
    → old.epoch ≤ s.epoch
    → record_attempt now wall k success countable (some old) (reset s) ≡ (none, reset s)
unfolding record_attempt reset refresh lookup is_stale
reset_ticket_ignored now wall k success countable old s before =
    ground (arith, nat_beq_iff old.epoch (suc s.epoch))
