-- ===== src/SharedQuota/Linked.antt =====
-- The row of a group of `src/foundry_router/state/quota.py` against the attempts that all replicas
-- together have been granted and have not released.
use foundry_router.Base.{
  ℕ, ◌≤◌, ◌≡◌, refl, ◌∙◌, Bool, true, false, ◌&&◌, Option, none, some, List, [], ◌∷◌, any, All,
  arith, ltb, ◌==◌, nat_eq, nat_beq_iff, if◌then◌else◌, Bool-cases, inl, inr,
}
use foundry_router.Base.Int.{ℤ}
use foundry_router.Base.Dict.{Dict}
use foundry_router.RateLimit.{Limits}
use foundry_router.SharedQuota.{
  Attempt, QuotaState, Policy, has_id, are_valid_records, is_valid_state, expire, prune_records,
  requests_used, used_on, passes, pruned, prune, adopt, open_state,
}
use foundry_router.SharedQuota.Window.{requests_used-prune, requests_used-later, used_on-keep-le}

abbrev pub AtMost : Option ℕ → ℕ → Type 0
AtMost none used = Unit
AtMost (some cap) used = used ≤ cap

pub AtMost-mono : (cap : Option ℕ) (m n : ℕ) → m ≤ n → AtMost cap n → AtMost cap m
AtMost-mono none m n h a = tt
AtMost-mono (some cap) m n h a = omega arith

pub passes-AtMost : (cap : Option ℕ) (n : ℕ) → passes cap n ≡ false → AtMost cap n
passes-AtMost none n h = tt
passes-AtMost (some cap) n h = ground arith

-- The same attempt, by its identifier and its time.
abbrev pub is_same : Attempt → Attempt → Bool
is_same r x = (x.id == r.id) && (x.at == r.at)

abbrev pub holds : List Attempt → Attempt → Bool
holds taken r = any (is_same r) taken

unfoldable pub drop_same : Attempt → List Attempt → List Attempt
drop_same r [] = []
drop_same r (x ∷ xs) = if is_same r x then xs else x ∷ drop_same r xs

abbrev pub IsUnique : List Attempt → Type 0
IsUnique [] = Unit
IsUnique (r ∷ rs) = (has_id rs r.id ≡ false) × IsUnique rs

-- The row is within the limits on requests, and in each window from its watermark on it counts at
-- least the attempts that have been granted.
pub record Linked (l : Limits) (taken : List Attempt) (s : QuotaState) : Type 0 where
  pub within : AtMost l.rpm (requests_used s.watermark s.records)
  pub daily_bound : (d : ℕ) → AtMost l.rpd (used_on s.daily d)
  pub covered : (t : ℕ) → s.watermark ≤ t → requests_used t taken ≤ requests_used t s.records
  pub held : All (λ r. holds taken r ≡ true) s.records

has_id-prune :
    (age now id : ℕ) (rs : List Attempt)
    → has_id rs id ≡ false
    → has_id (prune_records age now rs) id ≡ false
unfolding prune_records expire
has_id-prune age now id [] h = refl
has_id-prune age now id (r ∷ rs) h = ground (arith, has_id-prune age now id rs)

prune_records-IsUnique :
    (age now : ℕ) (rs : List Attempt) → IsUnique rs → IsUnique (prune_records age now rs)
unfolding prune_records expire
prune_records-IsUnique age now [] u = tt
prune_records-IsUnique age now (r ∷ rs) u =
    ground (arith, has_id-prune age now r.id rs, prune_records-IsUnique age now rs)

valid-IsUnique :
    (watermark : ℕ) (daily : Dict ℕ ℤ) (rs : List Attempt)
    → are_valid_records watermark daily rs ≡ true
    → IsUnique rs
unfolding are_valid_records
valid-IsUnique watermark daily [] h = tt
valid-IsUnique watermark daily (r ∷ rs) h = ground (arith, valid-IsUnique watermark daily rs)

prune_records-held :
    (taken : List Attempt) (age now : ℕ) (rs : List Attempt)
    → All (λ r. holds taken r ≡ true) rs
    → All (λ r. holds taken r ≡ true) (prune_records age now rs)
unfolding prune_records expire
prune_records-held taken age now [] h = tt
prune_records-held taken age now (r ∷ rs) h = ground (arith, prune_records-held taken age now rs)

module _ (day_of : ℕ → ℕ) where
  pub pruned-Linked :
      (l : Limits) (taken : List Attempt) (now : ℕ) (s : QuotaState)
      → s.watermark ≤ now
      → Linked l taken s
      → Linked l taken (pruned day_of now s)
  unfolding pruned
  pruned-Linked l taken now s later k = record {
    within =
        AtMost-mono l.rpm _ (requests_used s.watermark s.records)
          (omega (
            arith,
            requests_used-prune s.age now now s.records (omega arith),
            requests_used-later s.watermark now s.records later,
          ))
          k.within;
    daily_bound = λ d.
        AtMost-mono l.rpd _ (used_on s.daily d) (used_on-keep-le day_of now d s.daily)
          (k.daily_bound d);
    covered = λ t h.
        omega (arith, requests_used-prune s.age now t s.records h, k.covered t (omega arith));
    held = prune_records-held taken s.age now s.records k.held;
  }

  pub pruned-fingerprint :
      (now : ℕ) (s : QuotaState) → (pruned day_of now s).fingerprint ≡ s.fingerprint
  unfolding pruned
  pruned-fingerprint now s = refl

  pub pruned-watermark : (now : ℕ) (s : QuotaState) → (pruned day_of now s).watermark ≡ now
  unfolding pruned
  pruned-watermark now s = refl

  adopt_same :
      (p : Policy) (now day : ℕ) (s : QuotaState)
      → s.fingerprint ≡ p.fingerprint
      → adopt day_of p now day s ≡ some s
  unfolding adopt
  adopt_same p now day s same = rw ((nat_beq_iff s.fingerprint p.fingerprint).1 same, adopt)

  pruned-IsUnique :
      (group now : ℕ) (s : QuotaState)
      → is_valid_state group s ≡ true
      → IsUnique (pruned day_of now s).records
  unfolding is_valid_state pruned
  pruned-IsUnique group now s good =
      let valid : are_valid_records s.watermark s.daily s.records ≡ true = ground arith in
      prune_records-IsUnique s.age now s.records
        (valid-IsUnique s.watermark s.daily s.records valid)

  -- What a state that is opened is: the pruned one, of the row's policy, with its identifiers
  -- unique.
  pub open_state-eq :
      (group : ℕ) (p : Policy) (now : ℕ) (s t : QuotaState)
      → s.fingerprint ≡ p.fingerprint
      → open_state day_of group p now s ≡ some t
      → (s.watermark ≤ now) × (pruned day_of now s ≡ t) × IsUnique (pruned day_of now s).records
  unfolding open_state prune
  open_state-eq group p now s t same e = elim (Bool-cases (is_valid_state group s)) [
    | inr bad ↦ absurd (no_state (rw (bad, open_state) at e))
    | inl good ↦ elim (Bool-cases (ltb now s.watermark)) [
      | inl back ↦ absurd (no_state (rw (good, back, open_state, prune) at e))
      | inr on ↦
          let opened : adopt day_of p now s.day (pruned day_of now s) ≡ some t =
            rw (good, on, open_state, prune) at e in
          (
            ground arith,
            cc (opened, adopt_same p now s.day (pruned day_of now s) (kept same)),
            pruned-IsUnique group now s good,
          )
    ]
  ]
    where
      no_state : none ≡ some t → ⊥
      no_state h = cc

      kept : s.fingerprint ≡ p.fingerprint → (pruned day_of now s).fingerprint ≡ p.fingerprint
      kept h = pruned-fingerprint now s ∙ h
