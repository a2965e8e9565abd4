-- ===== src/SharedQuota/Replicas.antt =====
-- Any number of replicas on the row of one group, `src/foundry_router/state/quota.py`. The table
-- answers a read with the row and its version, and writes only where the version is still that one,
-- as its ETag does. Reads and writes of the replicas come in any order; what a replica has read may
-- be old when it writes. All replicas have the same policy, and no request goes over the limits by
-- the protected fallback.
use foundry_router.Base.{
  ℕ, suc, ◌≤◌, ◌<◌, ◌≡◌, refl, ◌∙◌, Option, none, some, List, [], arith, ◌==◌, nat_eq,
  if◌then◌else◌, Bool-cases, inl, inr,
}
use mathlib.Core.Option.{some-injective}
use mathlib.Core.Path.{subst}
use foundry_router.Base.Dict.{lookup}
use foundry_router.SharedQuota.{
  Attempt, QuotaState, Policy, requests_used, used_on, fresh, open_state,
}
use foundry_router.SharedQuota.Linked.{
  AtMost, AtMost-mono, IsUnique, Linked, open_state-eq, pruned-Linked, pruned-watermark,
  pruned-fingerprint,
}
use foundry_router.SharedQuota.Window.{requests_used-later}
use foundry_router.SharedQuota.Changes.{Change, Change-Linked, Change-fingerprint}

-- What a replica has read: the version, the time and the state that `_read` gave.
pub data Local : Type 0 where
  idle : Local
  holding : ℕ → ℕ → QuotaState → Local

-- The row with its version, the replicas, and the attempts that have been granted to requests and
-- have not been released.
pub record System : Type 0 where
  pub version : ℕ
  pub row : Option QuotaState
  pub replica : ℕ → Local
  pub taken : List Attempt

abbrev pub update : (ℕ → Local) → ℕ → Local → ℕ → Local
update f i a j = if i == j then a else f j

AtMost-zero : (cap : Option ℕ) → AtMost cap 0
AtMost-zero none = tt
AtMost-zero (some cap) = omega arith

module _ (day_of : ℕ → ℕ) (group : ℕ) (p : Policy) where
  pub data Step (s : System) : System → Type 0 where
    creates :
        (now : ℕ)
        → s.row ≡ none
        → Step s (record s { version = suc s.version; row = some (fresh day_of group p now) })
    reads :
        (i now : ℕ) (e t : QuotaState)
        → s.row ≡ some e
        → open_state day_of group p now e ≡ some t
        → Step s (record s { replica = update s.replica i (holding s.version now t) })
    writes :
        (i now : ℕ) (read t : QuotaState) (taken : List Attempt)
        → s.replica i ≡ holding s.version now read
        → Change day_of p now read s.taken t taken
        → Step s (record s {
          version = suc s.version;
          row = some t;
          replica = update s.replica i idle;
          taken = taken;
        })
    gives_up : (i : ℕ) → Step s (record s { replica = update s.replica i idle })

  pub data Reach (s : System) : System → Type 0 where
    here : Reach s s
    next : {t u : System} → Reach s t → Step t u → Reach s u

  abbrev pub start : System
  start = record { version = 0; row = none; replica = λ i. idle; taken = [] }

  -- A state that is linked to the granted attempts, as one of this policy.
  abbrev IsGood : List Attempt → QuotaState → Type 0
  IsGood taken t = Linked p.limits taken t × (t.fingerprint ≡ p.fingerprint)

  -- What was read at the version that is still there is opened from the row.
  abbrev IsFresh : System → Local → Type 0
  IsFresh s idle = Unit
  IsFresh s (holding v now t) =
      (v ≤ s.version)
      × (v ≡ s.version → IsGood s.taken t × (t.watermark ≡ now) × IsUnique t.records)

  record Inv (s : System) : Type 0 where
    on_row : (t : QuotaState) → s.row ≡ some t → IsGood s.taken t
    on_none : s.row ≡ none → s.taken ≡ []
    local : (i : ℕ) → IsFresh s (s.replica i)

  opened :
      (taken : List Attempt) (now : ℕ) (e t : QuotaState)
      → IsGood taken e
      → open_state day_of group p now e ≡ some t
      → IsGood taken t × (t.watermark ≡ now) × IsUnique t.records
  opened taken now e t (k, f) o =
      let (later, same, u) = open_state-eq day_of group p now e t f o in
      subst (λ x. IsGood taken x × (x.watermark ≡ now) × IsUnique x.records) same
        (
          (pruned-Linked day_of p.limits taken now e later k, pruned-fingerprint day_of now e ∙ f),
          pruned-watermark day_of now e,
          u,
        )

  fresh-IsGood : (now : ℕ) → IsGood [] (fresh day_of group p now)
  unfolding fresh lookup
  fresh-IsGood now = (
    record {
      within = AtMost-zero p.limits.rpm;
      daily_bound = λ d. AtMost-zero p.limits.rpd;
      covered = λ t h. omega arith;
      held = tt;
    },
    refl,
  )

  -- What is older than the version is no matter any more.
  aged : (s t : System) (a : Local) → s.version < t.version → IsFresh s a → IsFresh t a
  aged s t idle h f = tt
  aged s t (holding v now x) h f = (omega arith, λ e. absurd (omega (arith, f.0)))

  updated :
      (s t : System) (i : ℕ) (a : Local)
      → ((j : ℕ) → IsFresh t (s.replica j))
      → IsFresh t a
      → (j : ℕ) → IsFresh t (update s.replica i a j)
  updated s t i a all new j = elim (Bool-cases (i == j)) [
    | inl same ↦ rw same new
    | inr other ↦ rw other (all j)
  ]

  Step-Inv : {s t : System} → Step s t → Inv s → Inv t
  Step-Inv {s} (creates now e) inv =
      let none_taken = inv.on_none e in
      let after : System = record s {
        version = suc s.version;
        row = some (fresh day_of group p now);
      } in
      record {
        on_row =
            λ t h. subst (IsGood s.taken) (some-injective _ t h) (rw none_taken (fresh-IsGood now));
        on_none = λ h. cc;
        local = λ i. aged s after (s.replica i) (omega arith) (inv.local i);
      }
  Step-Inv {s} (reads i now e t found o) inv =
      let new = opened s.taken now e t (inv.on_row e found) o in
      record {
        on_row = inv.on_row;
        on_none = inv.on_none;
        local = updated s s i (holding s.version now t) inv.local (omega arith, λ h. new);
      }
  Step-Inv {s} (writes i now read t taken held change) inv =
      let had : IsFresh s (holding s.version now read) = subst (IsFresh s) held (inv.local i) in
      let (good, same, u) = had.1 refl in
      let after : System = record s { version = suc s.version; row = some t; taken = taken } in
      record {
        on_row = λ x h.
            subst (IsGood taken) (some-injective t x h)
              (Change-Linked change same u good.0, Change-fingerprint change ∙ good.1);
        on_none = λ h. cc;
        local =
            updated s after i idle (λ j. aged s after (s.replica j) (omega arith) (inv.local j)) tt;
      }
  Step-Inv {s} (gives_up i) inv = record {
    on_row = inv.on_row;
    on_none = inv.on_none;
    local = updated s s i idle inv.local tt;
  }

  Reach-Inv : {s : System} → Reach start s → Inv s
  Reach-Inv here = record { on_row = λ t h. cc; on_none = λ h. refl; local = λ i. tt }
  Reach-Inv (next r st) = Step-Inv st (Reach-Inv r)

  -- If all replicas have the same policy, and no request may go over the limits, then however the
  -- replicas interleave, the attempts that they have been granted and have not released
  -- never number more than the requests per minute in any window that ends at the row's watermark
  -- or later, and the row counts no day past the requests per day.
  pub Reach_bounded :
      {s : System} (t : ℕ) (e : QuotaState)
      → Reach start s
      → s.row ≡ some e
      → e.watermark ≤ t
      → AtMost p.limits.rpm (requests_used t s.taken)
        × ((d : ℕ) → AtMost p.limits.rpd (used_on e.daily d))
  Reach_bounded {s} t e r found later =
      let (k, f) = (Reach-Inv r).on_row e found in
      (
        AtMost-mono p.limits.rpm _ (requests_used e.watermark e.records)
            (omega (arith, k.covered t later, requests_used-later e.watermark t e.records later))
            k.within,
        k.daily_bound,
      )
