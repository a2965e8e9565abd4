-- ===== src/SharedQuota/Window.antt =====
-- What the functions of `src/foundry_router/state/quota.py` on lists of attempts do to the counts
-- of the window and of the days.
use foundry_router.Base.{
  ℕ, ◌+◌, ◌≤◌, ◌≡◌, refl, Option, none, some, List, [], ◌∷◌, ◌++◌, keep, arith, ◌==◌, nat_eq,
  nat_beq_iff, if◌then◌else◌, Bool-cases, inl, inr,
}
use foundry_router.Base.Int.{ℤ, pos}
use foundry_router.Base.Dict.{Dict, lookup, insert, lookup-insert}
use foundry_router.SharedQuota.{
  Attempt, count_of, expire, is_recent, prune_records, requests_used, used_on, pred, find, drop_id,
  settle_id, is_counted,
}

-- The number of an attempt in the window that ends at a time: one or none.
abbrev pub weight : ℕ → Attempt → ℕ
weight t r = if is_recent t r then 1 else 0

pub requests_used-cons :
    (t : ℕ) (r : Attempt) (rs : List Attempt)
    → requests_used t (r ∷ rs) ≡ weight t r + requests_used t rs
requests_used-cons t r rs = ground arith

pub requests_used-append :
    (t : ℕ) (rs : List Attempt) (r : Attempt)
    → requests_used t (rs ++ r ∷ []) ≡ requests_used t rs + weight t r
requests_used-append t [] r = ground arith
requests_used-append t (x ∷ rs) r = ground (arith, requests_used-append t rs r)

-- What is pruned has left the window for good.
pub requests_used-prune :
    (age now t : ℕ) (rs : List Attempt)
    → now ≤ t
    → requests_used t (prune_records age now rs) ≡ requests_used t rs
unfolding prune_records expire
requests_used-prune age now t [] later = refl
requests_used-prune age now t (r ∷ rs) later =
    ground (arith, requests_used-prune age now t rs later)

pub requests_used-later :
    (now t : ℕ) (rs : List Attempt) → now ≤ t → requests_used t rs ≤ requests_used now rs
requests_used-later now t [] later = omega arith
requests_used-later now t (r ∷ rs) later = ground (arith, requests_used-later now t rs later)

pub requests_used-settle_id :
    (t id : ℕ) (actual : Option ℕ) (rs : List Attempt)
    → requests_used t (settle_id id actual rs) ≡ requests_used t rs
unfolding settle_id
requests_used-settle_id t id actual [] = refl
requests_used-settle_id t id actual (r ∷ rs) =
    ground (arith, requests_used-settle_id t id actual rs)

-- Dropping the attempt that is found takes its weight off.
pub requests_used-drop_id :
    (t id : ℕ) (r : Attempt) (rs : List Attempt)
    → find id rs ≡ some r
    → requests_used t rs ≡ weight t r + requests_used t (drop_id id rs)
unfolding find drop_id
requests_used-drop_id t id r [] e = cc
requests_used-drop_id t id r (x ∷ rs) e = elim (Bool-cases (x.id == id)) [
  | inl same ↦ rw (same, drop_id) (let e' : some x ≡ some r = rw (same, find) at e in ground arith)
  | inr other ↦
      rw (other, drop_id)
        (let e' : find id rs ≡ some r = rw (other, find) at e in
          ground (arith, requests_used-drop_id t id r rs e'))
]

pub find-id : (id : ℕ) (r : Attempt) (rs : List Attempt) → find id rs ≡ some r → r.id ≡ id
unfolding find
find-id id r [] e = cc
find-id id r (x ∷ rs) e = ground (arith, find-id id r rs, nat_beq_iff x.id id)

lookup-keep_day :
    (day_of : ℕ → ℕ) (now d : ℕ) (daily : Dict ℕ ℤ)
    → lookup d (keep (is_counted day_of now) daily)
      ≡ (if is_counted day_of now (d, pos 0) then lookup d daily else none)
unfolding lookup
lookup-keep_day day_of now d [] = ground arith
lookup-keep_day day_of now d ((j, n) ∷ daily) =
    ground (arith, lookup-keep_day day_of now d daily, nat_beq_iff j d)

pub used_on-keep-le :
    (day_of : ℕ → ℕ) (now d : ℕ) (daily : Dict ℕ ℤ)
    → used_on (keep (is_counted day_of now) daily) d ≤ used_on daily d
used_on-keep-le day_of now d daily = rw (lookup-keep_day day_of now d daily, used_on) (ground arith)

pub used_on-insert :
    (d day : ℕ) (n : ℤ) (daily : Dict ℕ ℤ)
    → used_on (insert day n daily) d ≡ (if day == d then count_of n else used_on daily d)
used_on-insert d day n daily = rw (lookup-insert day d n daily, used_on) (ground arith)

pub used_on-pred-le :
    (d day : ℕ) (n : ℤ) (daily : Dict ℕ ℤ)
    → lookup day daily ≡ some n
    → used_on (insert day (pred n) daily) d ≤ used_on daily d
used_on-pred-le d day n daily e =
    rw (used_on-insert d day (pred n) daily) (elim (Bool-cases (day == d)) [
      | inl same ↦ rw same (rw ((nat_beq_iff day d).0 same) at (pred_le (count_below e)))
      | inr other ↦ rw other (omega arith)
    ])
  where
    count_below : lookup day daily ≡ some n → count_of n ≤ used_on daily day
    count_below h = rw (h, used_on) (omega arith)

    pred_le : count_of n ≤ used_on daily day → count_of (pred n) ≤ used_on daily day
    pred_le h = ground arith
