-- ===== src/Exclusion/Filter/Agreement.antt =====
-- The choice of candidates of `src/foundry_router/routing/exclusion.py` and their admission.
use foundry_router.Base.{
  ℕ, ◌≡◌, ap, ◌∙◌, Bool, true, false, not, ◌&&◌, ◌||◌, Option, none, some, List, [], ◌∷◌, arith,
  ltb, ◌==◌, nat_eq, nat_beq_iff, is_empty, All, Bool-cases, Option-cases, inl, inr,
}
use foundry_router.Base.Dict.{Dict, lookup, insert}
use foundry_router.Base.Sort.{sorted, sorted-All}
use foundry_router.Exclusion.{
  Key, key_eq, CombinationRecord, Store, expire, refresh, is_some, admit_refreshed, admit,
}
use foundry_router.Exclusion.Filter.{
  expire_all, ExclusionInfo, combination, info_of, excluded_info, eligible_of, excluded_of, idle_of,
  info_le, names, first, filter_candidates,
}
use foundry_router.Exclusion.Refinement.{expired, lookup-refresh_self}

-- Would a request for the key, or a probe of it, be admitted?
abbrev pub is_admitted : ℕ → ℕ → Key → Bool → Store → Bool
is_admitted now token k probe s = is_some (admit now token k probe s).0

-- The record that is found can be used: it is not excluded, or a probe is asked for and idle.
abbrev pub is_open : Bool → Option CombinationRecord → Bool
is_open probe none = true
is_open probe (some r) =
    not (ltb 0 r.excluded_until_monotonic) || (probe && not (is_some r.probe_token))

admit_refreshed-is_open :
    (token : ℕ) (k : Key) (probe : Bool) (s : Store)
    → is_some (admit_refreshed token k probe s).0 ≡ is_open probe (lookup k s.records)
unfolding admit_refreshed
admit_refreshed-is_open token k probe s = elim (Option-cases (lookup k s.records)) [
  | inl e ↦ rw (e, admit_refreshed)
  | inr (r, e) ↦ rw (e, admit_refreshed) (ground arith)
]

admit-is_open :
    (now token : ℕ) (k : Key) (probe : Bool) (s : Store)
    → is_admitted now token k probe s ≡ is_open probe (expired now (lookup k s.records))
unfolding admit
admit-is_open now token k probe s =
    admit_refreshed-is_open token k probe (refresh now k s)
    ∙ ap (is_open probe) (lookup-refresh_self now k s)

info_of-open :
    (now : ℕ) (probe : Bool) (r : CombinationRecord)
    → info_of now r ≡ none
    → is_open probe (some (expire now r)) ≡ true
unfolding info_of expire
info_of-open now probe r h = ground arith

info_of-idle :
    (now : ℕ) (r : CombinationRecord) (i : ExclusionInfo)
    → info_of now r ≡ some i
    → i.probe_inflight ≡ false
    → is_open true (some (expire now r)) ≡ true
unfolding info_of expire
info_of-idle now r i h idle = ground arith

open_unless_excluded :
    (now operation b : ℕ) (mode probe : Bool) (s : Store)
    → excluded_info now operation mode s b ≡ none
    → is_open probe (expired now (lookup (combination b operation mode) s.records)) ≡ true
unfolding excluded_info
open_unless_excluded now operation b mode probe s h =
    elim (Option-cases (lookup (combination b operation mode) s.records)) [
      | inl e ↦ rw e
      | inr (r, e) ↦ rw e (info_of-open now probe r (rw (e, excluded_info) at h))
    ]

open_to_probe :
    (now operation b : ℕ) (mode : Bool) (i : ExclusionInfo) (s : Store)
    → excluded_info now operation mode s b ≡ some i
    → i.probe_inflight ≡ false
    → is_open true (expired now (lookup (combination b operation mode) s.records)) ≡ true
unfolding excluded_info
open_to_probe now operation b mode i s h idle =
    elim (Option-cases (lookup (combination b operation mode) s.records)) [
      | inl e ↦ rw e
      | inr (r, e) ↦ rw e (info_of-idle now r i (rw (e, excluded_info) at h) idle)
    ]

module _ (now operation : ℕ) (mode : Bool) (s : Store) where
  eligible_of-All :
      (bs : List ℕ)
      → All (λ b. excluded_info now operation mode s b ≡ none) (eligible_of now operation mode s bs)
  unfolding eligible_of
  eligible_of-All [] = tt
  eligible_of-All (b ∷ bs) = elim (Option-cases (excluded_info now operation mode s b)) [
    | inl e ↦ rw (e, eligible_of) (e, eligible_of-All bs)
    | inr (i, e) ↦ rw (e, eligible_of) (eligible_of-All bs)
  ]

  -- The information is that on its backend.
  abbrev IsInfo : ℕ × ExclusionInfo → Type 0
  IsInfo (b, i) = excluded_info now operation mode s b ≡ some i

  insert-All :
      (b : ℕ) (i : ExclusionInfo) (d : Dict ℕ ExclusionInfo)
      → IsInfo (b, i)
      → All IsInfo d
      → All IsInfo (insert b i d)
  unfolding insert
  insert-All b i [] h a = (h, tt)
  insert-All b i ((j, w) ∷ d) h a = elim (Bool-cases (j == b)) [
    | inl same ↦ rw (same, insert) (rw ((nat_beq_iff j b).0 same) h, a.1)
    | inr other ↦ rw (other, insert) (a.0, insert-All b i d h a.1)
  ]

  excluded_of-All :
      (bs : List ℕ) (out : Dict ℕ ExclusionInfo)
      → All IsInfo out
      → All IsInfo (excluded_of now operation mode s bs out)
  unfolding excluded_of
  excluded_of-All [] out a = a
  excluded_of-All (b ∷ bs) out a = elim (Option-cases (excluded_info now operation mode s b)) [
    | inl e ↦ rw (e, excluded_of) (excluded_of-All bs out a)
    | inr (i, e) ↦
        rw (e, excluded_of) (excluded_of-All bs (insert b i out) (insert-All b i out e a))
  ]

  idle_of-All :
      (d : Dict ℕ ExclusionInfo)
      → All IsInfo d
      → All (λ e. IsInfo e × (e.1.probe_inflight ≡ false)) (idle_of d)
  unfolding idle_of
  idle_of-All [] a = tt
  idle_of-All ((b, i) ∷ d) a = ground (arith, a, idle_of-All d a.1)

names-All :
    (P : ℕ → Type 0) (d : Dict ℕ ExclusionInfo)
    → All (λ (e : ℕ × ExclusionInfo). P e.0) d
    → All P (names d)
names-All P [] a = tt
names-All P ((b, i) ∷ d) a = (a.0, names-All P d a.1)

All-imp {ℓ} :
    {A : Type ℓ} (P Q : A → Type 0) (xs : List A) → ((x : A) → P x → Q x) → All P xs → All Q xs
All-imp P Q [] f a = tt
All-imp P Q (x ∷ xs) f a = (f x a.0, All-imp P Q xs f a.1)

-- Each backend that `filter_candidates` leaves is admitted at that time on the state that it
-- leaves, as a probe if it names one and as ordinary work if it does not.
pub filter_candidates-admitted :
    (now token operation : ℕ) (bs : List ℕ) (mode : Bool) (s : Store)
    → let (found, s') = filter_candidates now bs operation mode s in
      All
        (λ b.
          is_admitted now token (combination b operation mode) (is_some found.probe_backend_id) s'
          ≡ true)
        found.eligible
unfolding filter_candidates
filter_candidates-admitted now token operation bs mode s =
    let s' : Store = record s { records = expire_all now s.records } in
    let eligible = eligible_of now operation mode s' bs in
    let excluded = excluded_of now operation mode s' bs [] in
    elim (Bool-cases (is_empty eligible)) [
      | inl shut ↦ rw shut (
          probes_admitted s' (sorted info_le (idle_of excluded)) (
            sorted-All info_le _ (idle_of excluded) (
              idle_of-All now operation mode s' excluded
                (excluded_of-All now operation mode s' bs [] tt))))
      | inr some_left ↦ rw some_left (
          All-imp (λ b. excluded_info now operation mode s' b ≡ none) _ eligible
            (λ b h.
              admit-is_open now token (combination b operation mode) false s'
              ∙ open_unless_excluded now operation b mode false s' h)
            (eligible_of-All now operation mode s' bs))
    ]
  where
    probes_admitted :
        (s' : Store) (d : Dict ℕ ExclusionInfo)
        → All (λ e. IsInfo now operation mode s' e × (e.1.probe_inflight ≡ false)) d
        → All
            (λ b.
              is_admitted now token (combination b operation mode) (is_some (first (names d))) s'
              ≡ true)
            (names d)
    probes_admitted s' [] a = tt
    probes_admitted s' ((b, i) ∷ d) a =
        names-All (λ c. is_admitted now token (combination c operation mode) true s' ≡ true)
          ((b, i) ∷ d)
          (All-imp (λ e. IsInfo now operation mode s' e × (e.1.probe_inflight ≡ false)) _
            ((b, i) ∷ d)
            (λ e h.
              admit-is_open now token (combination e.0 operation mode) true s'
              ∙ open_to_probe now operation e.0 mode e.1 s' h.0 h.1)
            a)
