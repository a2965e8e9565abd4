-- ===== src/Credit/Store/Sync.antt =====
-- `credit_membership` and `metered_credit_groups` of `src/foundry_router/credit_groups.py`, and
-- `sync_from_settings` of `InMemoryCreditStore` in `src/foundry_router/credit.py`. Whether an
-- identifier is a safe name of a group is an argument.
pub mod Keeps
mod Tests
use foundry_router.Base.{
  ℕ, min, Bool, true, false, not, ◌&&◌, ◌||◌, Option, none, some, List, [], ◌∷◌, any, all, length,
  is_empty, bool_beq, ◌==◌, nat_eq, if◌then◌else◌, ◌>>=◌,
}
use foundry_router.Base.Dict.{Dict, lookup, insert}
use foundry_router.Credit.Cycle.{Date, Time, CycleWindow, calculate_cycle_window}
use foundry_router.Credit.Store.{
  Account, Store, Outcome, returns, raises, Error, invalid_membership, pending_reservations,
}

pub record BackendConfig : Type 0 where
  pub credit_group : Option ℕ
  pub credit_metered : Bool

-- An amount is none if it is negative or not finite.
pub record CreditSettings : Type 0 where
  pub backends : Dict ℕ BackendConfig
  pub cycle_allowance : Dict ℕ (Option ℕ)
  pub initial_remaining : Dict ℕ (Option ℕ)
  pub cycle_start_day : Dict ℕ ℕ

abbrev pub group_or : ℕ → Option ℕ → ℕ
group_or backend none = backend
group_or backend (some g) = g

-- `group in aliases and aliases[group] != group`, for no value of the aliases.
abbrev pub is_canonical : Dict ℕ ℕ → ℕ × ℕ → Bool
is_canonical aliases (b, g) = elim (lookup g aliases) [ none ↦ true | some h ↦ h == g ]

-- `group in metering and metering[group] != metered`
abbrev pub is_mixed : Option Bool → Bool → Bool
is_mixed none metered = false
is_mixed (some m) metered = not (bool_beq m metered)

-- The loop over the backends, with the aliases and the metering so far; none is a ValueError.
unfoldable pub membership_loop :
    (ℕ → Bool) → Dict ℕ BackendConfig → Dict ℕ ℕ → Dict ℕ Bool → Option (Dict ℕ ℕ)
membership_loop is_safe [] aliases metering =
    if all (is_canonical aliases) aliases then some aliases else none
membership_loop is_safe ((b, c) ∷ bs) aliases metering =
    let g = group_or b c.credit_group in
    let rest =
      membership_loop is_safe bs (insert b g aliases) (insert g c.credit_metered metering) in
    if not (is_safe g) || is_mixed (lookup g metering) c.credit_metered then none else rest

unfoldable pub credit_membership : (ℕ → Bool) → Dict ℕ BackendConfig → Option (Dict ℕ ℕ)
credit_membership is_safe backends = membership_loop is_safe backends [] []

abbrev pub has_group : List ℕ → ℕ → Bool
has_group groups g = any (λ h. h == g) groups

-- A set of groups is a list without repetition.
abbrev pub add_group : ℕ → List ℕ → List ℕ
add_group g groups = if has_group groups g then groups else g ∷ groups

unfoldable pub metered_of : Dict ℕ ℕ → Dict ℕ BackendConfig → List ℕ
metered_of aliases [] = []
metered_of aliases ((b, c) ∷ bs) =
    let rest = metered_of aliases bs in
    if c.credit_metered then add_group (group_or b (lookup b aliases)) rest else rest

abbrev pub is_same_alias : Dict ℕ ℕ → ℕ × ℕ → Bool
is_same_alias d (b, g) = elim (lookup b d) [ none ↦ false | some h ↦ g == h ]

-- The comparisons of dictionaries and of sets.
unfoldable pub are_same_aliases : Dict ℕ ℕ → Dict ℕ ℕ → Bool
are_same_aliases d d' = (length d == length d') && all (is_same_alias d') d

unfoldable pub are_same_groups : List ℕ → List ℕ → Bool
are_same_groups gs hs = all (has_group hs) gs && all (has_group gs) hs

abbrev pub amount_of : Dict ℕ (Option ℕ) → ℕ → Option ℕ
amount_of d g = elim (lookup g d) [ none ↦ none | some a ↦ a ]

-- The account of a group after the settings: a new one, or the old one with a new allowance.
unfoldable pub synced_account : (Date → ℕ) → Time → ℕ → ℕ → ℕ → Option Account → Account
synced_account at now allowance remaining day none = record {
  cycle_start_day = day;
  cycle_allowance = allowance;
  estimated_remaining = min remaining allowance;
  cycle_start = (calculate_cycle_window at now day).current_cycle_start;
  reserved_inflight = 0;
  debited_total = 0;
  recovered_debit_total = 0;
}
synced_account at now allowance remaining day (some a) = record a {
  cycle_start_day = day;
  cycle_allowance = allowance;
}

-- One group: whether it is complete in the settings, and the accounts.
unfoldable pub sync_group :
    (Date → ℕ) → Time → CreditSettings → ℕ → Dict ℕ Account → Bool × Dict ℕ Account
sync_group at now c g d = elim (amount_of c.cycle_allowance g) [
  | none ↦ (false, d)
  | some allowance ↦ elim (amount_of c.initial_remaining g) [
    | none ↦ (false, d)
    | some remaining ↦ elim (lookup g c.cycle_start_day) [
      | none ↦ (false, d)
      | some day ↦ (true, insert g (synced_account at now allowance remaining day (lookup g d)) d)
    ]
  ]
]

unfoldable pub sync_groups :
    (Date → ℕ) → Time → CreditSettings → List ℕ → Dict ℕ Account → Bool × Dict ℕ Account
sync_groups at now c [] d = (true, d)
sync_groups at now c (g ∷ gs) d =
    let (ok, d') = sync_group at now c g d in
    let (complete, d'') = sync_groups at now c gs d' in (ok && complete, d'')

-- The accounts of the groups, and if all are complete the new membership.
unfoldable pub sync_accounts :
    (Date → ℕ) → Time → CreditSettings → Dict ℕ ℕ → List ℕ → Store → Outcome Bool
sync_accounts at now c aliases groups s =
    let (complete, d) = sync_groups at now c groups s.snapshots in
    returns complete (
      if complete
      then record s { snapshots = d; credit_aliases = aliases; metered_groups = groups }
      else record s { snapshots = d })

abbrev pub is_same_membership : Dict ℕ ℕ → List ℕ → Store → Bool
is_same_membership aliases groups s =
    are_same_aliases aliases s.credit_aliases && are_same_groups groups s.metered_groups

-- `sync_from_settings`: `unchanged` tells whether the settings are the object that was synchronized
-- last, and the result whether they are from now on.
unfoldable pub sync_from_settings :
    (ℕ → Bool) → (Date → ℕ) → Time → CreditSettings → Bool → Store → Outcome Bool
sync_from_settings is_safe at now c unchanged s = elim (credit_membership is_safe c.backends) [
  | none ↦ raises invalid_membership s
  | some aliases ↦
      let groups = metered_of aliases c.backends in
      if unchanged && is_same_membership aliases groups s
      then returns true s
      else (if not (is_same_membership aliases groups s) && not (is_empty s.reservations)
          then raises pending_reservations s
          else sync_accounts at now c aliases groups s)
]
