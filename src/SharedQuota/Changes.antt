-- ===== src/SharedQuota/Changes.antt =====
-- Each change that a round of `src/foundry_router/state/quota.py` makes to a row, with what it does
-- to the attempts that have been granted.
use foundry_router.Base.{
  ℕ, ◌+◌, ◌≡◌, refl, sym, Bool, true, false, Option, none, some, List, [], ◌∷◌, ◌++◌, All, arith,
  ◌==◌, nat_eq, nat_beq_iff, Bool-cases, Option-cases, inl, inr,
}
use mathlib.Core.Option.{some-injective}
use mathlib.Core.Path.{subst}
use foundry_router.Base.Int.{ℤ, pos}
use foundry_router.Base.Dict.{lookup, insert}
use foundry_router.RateLimit.{Limits}
use foundry_router.SharedQuota.{
  Attempt, QuotaState, Policy, admitted, has_id, requests_used, used_on, passes, pred, find,
  drop_id, settle_id, fresh, admit, over_limits, decide, release_attempt, finish_attempt,
  settle_found, settle,
}
use foundry_router.SharedQuota.Window.{
  weight, requests_used-append, requests_used-settle_id, requests_used-drop_id, find-id,
  used_on-insert, used_on-pred-le,
}
use foundry_router.SharedQuota.Linked.{
  AtMost-mono, passes-AtMost, holds, drop_same, IsUnique, Linked,
}

-- One change of a state that has been opened at `now`, and the attempts that are granted after it.
-- `leaves` is a write of what was read: a snapshot, a synchronization, and a settlement that finds
-- no pending attempt.
pub data Change (day_of : ℕ → ℕ) (p : Policy) (now : ℕ) (s : QuotaState) (taken : List Attempt)
    : QuotaState → List Attempt → Type 0 where
  admits :
      (id tokens : ℕ) {t : QuotaState}
      → decide day_of p now id tokens false s ≡ admitted t
      → Change day_of p now s taken t (
          taken
          ++ record { id = id; at = now; tokens = tokens; pending = true; day = day_of now } ∷ [])
  finishes :
      (id : ℕ) (actual : Option ℕ) {t : QuotaState}
      → settle false actual id s ≡ some t
      → Change day_of p now s taken t taken
  releases :
      (id : ℕ) (r : Attempt) {t : QuotaState}
      → find id s.records ≡ some r
      → r.pending ≡ true
      → settle true none id s ≡ some t
      → Change day_of p now s taken t (drop_same r taken)
  leaves : Change day_of p now s taken s taken

holds-append :
    (taken : List Attempt) (x r : Attempt) → holds taken r ≡ true → holds (taken ++ x ∷ []) r ≡ true
holds-append [] x r h = cc
holds-append (y ∷ taken) x r h = ground (arith, holds-append taken x r)

holds-last : (taken : List Attempt) (r : Attempt) → holds (taken ++ r ∷ []) r ≡ true
holds-last [] r = ground (arith, nat_beq_iff r.id r.id, nat_beq_iff r.at r.at)
holds-last (y ∷ taken) r = ground (arith, holds-last taken r)

held-append :
    (taken rs : List Attempt) (r : Attempt)
    → All (λ x. holds taken x ≡ true) rs
    → All (λ x. holds (taken ++ r ∷ []) x ≡ true) (rs ++ r ∷ [])
held-append taken [] r h = (holds-last taken r, tt)
held-append taken (x ∷ rs) r h = (holds-append taken r x h.0, held-append taken rs r h.1)

module _ (day_of : ℕ → ℕ) where
  decide-admitted :
      (p : Policy) (now id tokens : ℕ) (s t : QuotaState)
      → decide day_of p now id tokens false s ≡ admitted t
      → (over_limits day_of p.limits now tokens s ≡ false) × (admit day_of now id tokens s ≡ t)
  unfolding decide
  decide-admitted p now id tokens s t e = ground arith

  admit-Linked :
      (p : Policy) (taken : List Attempt) (now id tokens : ℕ) (s : QuotaState)
      → s.watermark ≡ now
      → over_limits day_of p.limits now tokens s ≡ false
      → Linked p.limits taken s
      → Linked p.limits
          (taken
            ++ record { id = id; at = now; tokens = tokens; pending = true; day = day_of now } ∷ [])
          (admit day_of now id tokens s)
  unfolding admit over_limits
  admit-Linked p taken now id tokens s fresh under k =
      let r : Attempt = record {
        id = id;
        at = now;
        tokens = tokens;
        pending = true;
        day = day_of now;
      } in
      let few : passes p.limits.rpm (requests_used now s.records + 1) ≡ false = ground arith in
      let day_few : passes p.limits.rpd (used_on s.daily (day_of now) + 1) ≡ false = ground arith in
      record {
        within = rw fresh (
            AtMost-mono p.limits.rpm _ (requests_used now s.records + 1)
              (ground (arith, requests_used-append now s.records r))
              (passes-AtMost p.limits.rpm _ few));
        daily_bound = λ d.
            rw (used_on-insert d (day_of now) (pos (used_on s.daily (day_of now) + 1)) s.daily)
              (elim (Bool-cases (day_of now == d)) [
                | inl same ↦ rw same (passes-AtMost p.limits.rpd _ day_few)
                | inr other ↦ rw other (k.daily_bound d)
              ]);
        covered = λ t h. omega (
          arith,
          requests_used-append t s.records r,
          requests_used-append t taken r,
          k.covered t h,
        );
        held = held-append taken s.records r k.held;
      }

settle_id-held :
    (taken : List Attempt) (id : ℕ) (actual : Option ℕ) (rs : List Attempt)
    → All (λ x. holds taken x ≡ true) rs
    → All (λ x. holds taken x ≡ true) (settle_id id actual rs)
unfolding settle_id
settle_id-held taken id actual [] h = tt
settle_id-held taken id actual (r ∷ rs) h = ground (arith, settle_id-held taken id actual rs)

finish-Linked :
    (l : Limits) (taken : List Attempt) (actual : Option ℕ) (r : Attempt) (s : QuotaState)
    → Linked l taken s
    → Linked l taken (finish_attempt actual r s)
unfolding finish_attempt
finish-Linked l taken actual r s k = record {
  within =
      AtMost-mono l.rpm _ (requests_used s.watermark s.records)
        (omega (arith, requests_used-settle_id s.watermark r.id actual s.records)) k.within;
  daily_bound = k.daily_bound;
  covered = λ t h. omega (arith, requests_used-settle_id t r.id actual s.records, k.covered t h);
  held = settle_id-held taken r.id actual s.records k.held;
}

find-All {ℓ} :
    (P : Attempt → Type ℓ) (id : ℕ) (r : Attempt) (rs : List Attempt)
    → find id rs ≡ some r
    → All P rs
    → P r
unfolding find
find-All P id r [] e a = cc
find-All P id r (x ∷ rs) e a = elim (Bool-cases (x.id == id)) [
  | inl same ↦ subst P (some-injective x r (rw (same, find) at e)) a.0
  | inr other ↦ find-All P id r rs (rw (other, find) at e) a.1
]

requests_used-drop_same :
    (t : ℕ) (r : Attempt) (taken : List Attempt)
    → holds taken r ≡ true
    → requests_used t taken ≡ weight t r + requests_used t (drop_same r taken)
unfolding drop_same
requests_used-drop_same t r [] h = cc
requests_used-drop_same t r (x ∷ taken) h =
    ground (arith, requests_used-drop_same t r taken, nat_beq_iff x.at r.at)

holds-drop_same :
    (r x : Attempt) (taken : List Attempt)
    → (x.id == r.id) ≡ false
    → holds taken x ≡ true
    → holds (drop_same r taken) x ≡ true
unfolding drop_same
holds-drop_same r x [] other h = h
holds-drop_same r x (y ∷ taken) other h = ground (
  arith,
  holds-drop_same r x taken other,
  nat_beq_iff y.id r.id,
  nat_beq_iff y.id x.id,
  nat_beq_iff x.id r.id,
)

others_held :
    (taken : List Attempt) (r : Attempt) (rs : List Attempt)
    → has_id rs r.id ≡ false
    → All (λ x. holds taken x ≡ true) rs
    → All (λ x. holds (drop_same r taken) x ≡ true) rs
others_held taken r [] other h = tt
others_held taken r (x ∷ rs) other h =
    (holds-drop_same r x taken (ground arith) h.0, others_held taken r rs (ground arith) h.1)

drop_id-held :
    (taken : List Attempt) (r : Attempt) (rs : List Attempt)
    → find r.id rs ≡ some r
    → IsUnique rs
    → All (λ x. holds taken x ≡ true) rs
    → All (λ x. holds (drop_same r taken) x ≡ true) (drop_id r.id rs)
unfolding find drop_id
drop_id-held taken r [] e u h = tt
drop_id-held taken r (x ∷ rs) e u h = elim (Bool-cases (x.id == r.id)) [
  | inl same ↦
      rw (same, drop_id) (others_held taken r rs (rw ((nat_beq_iff x.id r.id).0 same) at u.0) h.1)
  | inr other ↦
      rw (other, drop_id)
        (
          holds-drop_same r x taken other h.0,
          drop_id-held taken r rs (rw (other, find) at e) u.1 h.1,
        )
]

release-Linked :
    (l : Limits) (taken : List Attempt) (id : ℕ) (r : Attempt) (n : ℤ) (s : QuotaState)
    → find id s.records ≡ some r
    → lookup r.day s.daily ≡ some n
    → IsUnique s.records
    → Linked l taken s
    → Linked l
        (drop_same r taken)
        (record s { records = drop_id r.id s.records; daily = insert r.day (pred n) s.daily })
release-Linked l taken id r n s e day u k =
    let same = find-id id r s.records e in
    let found : find r.id s.records ≡ some r = rw (sym same) at e in
    let held : holds taken r ≡ true =
      find-All (λ x. holds taken x ≡ true) id r s.records e k.held in
    record {
      within =
          AtMost-mono l.rpm _ (requests_used s.watermark s.records)
            (omega (arith, requests_used-drop_id s.watermark r.id r s.records found)) k.within;
      daily_bound = λ d.
          AtMost-mono l.rpd _ (used_on s.daily d) (used_on-pred-le d r.day n s.daily day)
            (k.daily_bound d);
      covered = λ t h. omega (
        arith,
        requests_used-drop_id t r.id r s.records found,
        requests_used-drop_same t r taken held,
        k.covered t h,
      );
      held = drop_id-held taken r s.records found u k.held;
    }

settle_finish-Linked :
    (l : Limits) (taken : List Attempt) (actual : Option ℕ) (o : Option Attempt) (s t : QuotaState)
    → settle_found false actual o s ≡ some t
    → Linked l taken s
    → Linked l taken t
unfolding settle_found finish_attempt
settle_finish-Linked l taken actual none s t e k = subst (Linked l taken) (some-injective s t e) k
settle_finish-Linked l taken actual (some r) s t e k = elim (Bool-cases r.pending) [
  | inl waits ↦
      subst (Linked l taken)
        (some-injective (finish_attempt actual r s) t (rw (waits, settle_found) at e))
        (finish-Linked l taken actual r s k)
  | inr done ↦ subst (Linked l taken) (some-injective s t (rw (done, settle_found) at e)) k
]

settle_release-Linked :
    (l : Limits) (taken : List Attempt) (id : ℕ) (r : Attempt) (s t : QuotaState)
    → find id s.records ≡ some r
    → r.pending ≡ true
    → settle true none id s ≡ some t
    → IsUnique s.records
    → Linked l taken s
    → Linked l (drop_same r taken) t
unfolding settle settle_found release_attempt
settle_release-Linked l taken id r s t found waits e u k =
    elim (Option-cases (lookup r.day s.daily)) [
      | inl missing ↦
          absurd (no_state (rw (found, waits, missing, settle, settle_found, release_attempt) at e))
      | inr (n, day) ↦
          subst (Linked l (drop_same r taken))
            (some-injective _ t
              (rw (found, waits, day, settle, settle_found, release_attempt) at e))
            (release-Linked l taken id r n s found day u k)
    ]
  where
    no_state : none ≡ some t → ⊥
    no_state h = cc

-- A change keeps the row linked to the attempts that are granted after it.
pub Change-Linked :
    {day_of : ℕ → ℕ} {p : Policy} {now : ℕ} {s t : QuotaState} {taken after : List Attempt}
    → Change day_of p now s taken t after
    → s.watermark ≡ now
    → IsUnique s.records
    → Linked p.limits taken s
    → Linked p.limits after t
unfolding settle
Change-Linked {day_of} {p} {now} {s} {t} {taken} (admits id tokens e) same u k =
    let (under, made) = decide-admitted day_of p now id tokens s t e in
    subst (Linked p.limits _) made (admit-Linked day_of p taken now id tokens s same under k)
Change-Linked {p} {s} {t} {taken} (finishes id actual e) same u k =
    settle_finish-Linked p.limits taken actual (find id s.records) s t e k
Change-Linked {p} {s} {t} {taken} (releases id r found waits e) same u k =
    settle_release-Linked p.limits taken id r s t found waits e u k
Change-Linked leaves same u k = k

decide-fingerprint :
    (day_of : ℕ → ℕ) (p : Policy) (now id tokens : ℕ) (s t : QuotaState)
    → decide day_of p now id tokens false s ≡ admitted t
    → t.fingerprint ≡ s.fingerprint
unfolding decide admit
decide-fingerprint day_of p now id tokens s t e = ground arith

settle-fingerprint :
    (release : Bool) (actual : Option ℕ) (id : ℕ) (s t : QuotaState)
    → settle release actual id s ≡ some t
    → t.fingerprint ≡ s.fingerprint
unfolding settle settle_found release_attempt finish_attempt
settle-fingerprint release actual id s t e = ground arith

pub Change-fingerprint :
    {day_of : ℕ → ℕ} {p : Policy} {now : ℕ} {s t : QuotaState} {taken after : List Attempt}
    → Change day_of p now s taken t after
    → t.fingerprint ≡ s.fingerprint
Change-fingerprint {day_of} {p} {now} {s} {t} (admits id tokens e) =
    decide-fingerprint day_of p now id tokens s t e
Change-fingerprint {s} {t} (finishes id actual e) = settle-fingerprint false actual id s t e
Change-fingerprint {s} {t} (releases id r found waits e) = settle-fingerprint true none id s t e
Change-fingerprint leaves = refl
