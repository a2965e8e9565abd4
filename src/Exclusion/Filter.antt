-- ===== src/Exclusion/Filter.antt =====
-- `filter_candidates` and `snapshot` of `src/foundry_router/routing/exclusion.py`.
pub mod Agreement
use foundry_router.Base.{
  ℕ, Bool, not, ◌&&◌, ◌||◌, Option, none, some, List, [], ◌∷◌, ltb, ◌==◌, nat_eq, is_empty,
  if◌then◌else◌,
}
use foundry_router.Base.Dict.{Dict, lookup, insert}
use foundry_router.Base.Sort.{sorted}
use foundry_router.Exclusion.{Key, key_eq, CombinationRecord, Store, expire, is_some}

unfoldable pub expire_all : ℕ → Dict Key CombinationRecord → Dict Key CombinationRecord
expire_all now [] = []
expire_all now ((k, r) ∷ d) = (k, expire now r) ∷ expire_all now d

-- The entry of an excluded backend.
pub record ExclusionInfo : Type 0 where
  pub consecutive_failures : ℕ
  pub excluded_until_wall : ℕ
  pub excluded_since_monotonic : ℕ
  pub probe_inflight : Bool

pub record ExclusionFilterResult : Type 0 where
  pub eligible : List ℕ
  pub excluded : Dict ℕ ExclusionInfo
  pub probe_backend_id : Option ℕ
  pub probe_candidates : List ℕ

abbrev pub combination : ℕ → ℕ → Bool → Key
combination b operation mode = record { backend_id = b; operation = operation; stream_mode = mode }

-- The entry of a record that is excluded now.
pub info_of : ℕ → CombinationRecord → Option ExclusionInfo
info_of now r =
    if ltb now r.excluded_until_monotonic
    then some (record {
      consecutive_failures = r.count;
      excluded_until_wall = r.excluded_until_wall;
      excluded_since_monotonic = r.excluded_since_monotonic;
      probe_inflight = is_some r.probe_token;
    })
    else none

-- The entry of a backend whose combination is excluded now.
pub excluded_info : ℕ → ℕ → Bool → Store → ℕ → Option ExclusionInfo
excluded_info now operation mode s b = elim (lookup (combination b operation mode) s.records) [
  | none ↦ none
  | some r ↦ info_of now r
]

-- The loop over the backends: those that are eligible, in order.
pub eligible_of : ℕ → ℕ → Bool → Store → List ℕ → List ℕ
eligible_of now operation mode s [] = []
eligible_of now operation mode s (b ∷ bs) =
    let rest = eligible_of now operation mode s bs in
    elim (excluded_info now operation mode s b) [ none ↦ b ∷ rest | some _ ↦ rest ]

-- The loop over the backends: those that are excluded, as a dictionary.
pub excluded_of : ℕ → ℕ → Bool → Store → List ℕ → Dict ℕ ExclusionInfo → Dict ℕ ExclusionInfo
excluded_of now operation mode s [] out = out
excluded_of now operation mode s (b ∷ bs) out =
    excluded_of now operation mode s bs
      (elim (excluded_info now operation mode s b) [ none ↦ out | some i ↦ insert b i out ])

-- Those with no probe in flight.
pub idle_of : Dict ℕ ExclusionInfo → Dict ℕ ExclusionInfo
idle_of [] = []
idle_of ((b, i) ∷ d) = let rest = idle_of d in if i.probe_inflight then rest else (b, i) ∷ rest

-- The order of the pairs of the time of exclusion and the backend.
abbrev pub info_le : ℕ × ExclusionInfo → ℕ × ExclusionInfo → Bool
info_le (a, i) (b, j) =
    ltb i.excluded_since_monotonic j.excluded_since_monotonic
    || ((i.excluded_since_monotonic == j.excluded_since_monotonic) && not (ltb b a))

abbrev pub names : Dict ℕ ExclusionInfo → List ℕ
names [] = []
names ((b, i) ∷ d) = b ∷ names d

abbrev pub first : List ℕ → Option ℕ
first [] = none
first (b ∷ bs) = some b

unfoldable pub filter_candidates : ℕ → List ℕ → ℕ → Bool → Store → ExclusionFilterResult × Store
filter_candidates now bs operation mode s =
    let s' = record s { records = expire_all now s.records } in
    let eligible = eligible_of now operation mode s' bs in
    let excluded = excluded_of now operation mode s' bs [] in
    let probes = names (sorted info_le (idle_of excluded)) in
    (
      if is_empty eligible
          then record {
            eligible = probes;
            excluded = excluded;
            probe_backend_id = first probes;
            probe_candidates = probes;
          }
          else record {
            eligible = eligible;
            excluded = excluded;
            probe_backend_id = none;
            probe_candidates = [];
          },
      s',
    )

-- What `snapshot` says of a combination; a wall time of 0.0 is None.
pub record CombinationInfo : Type 0 where
  pub consecutive_failures : ℕ
  pub excluded : Bool
  pub excluded_until_wall : Option ℕ
  pub probe_inflight : Bool

abbrev pub or_none : ℕ → Option ℕ
or_none n = if n == 0 then none else some n

-- The combinations that count a failure or are excluded.
pub snapshot_of : ℕ → Dict Key CombinationRecord → Dict Key CombinationInfo
snapshot_of now [] = []
snapshot_of now ((k, r) ∷ d) =
    let rest = snapshot_of now d in
    if ltb 0 r.count || ltb now r.excluded_until_monotonic
    then (
      k,
      record {
        consecutive_failures = r.count;
        excluded = ltb now r.excluded_until_monotonic;
        excluded_until_wall = or_none r.excluded_until_wall;
        probe_inflight = is_some r.probe_token;
      },
    )
      ∷ rest
    else rest

unfoldable pub snapshot : ℕ → Store → Dict Key CombinationInfo × Store
snapshot now s =
    let s' = record s { records = expire_all now s.records } in (snapshot_of now s'.records, s')
