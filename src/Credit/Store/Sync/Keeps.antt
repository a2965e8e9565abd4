-- ===== src/Credit/Store/Sync/Keeps.antt =====
-- What a synchronization of `src/foundry_router/credit.py` leaves of the accounts.
use foundry_router.Base.{
  ℕ, ◌≡◌, ◌⊎◌, refl, ap, ◌∙◌, Bool, true, false, not, ◌&&◌, some, List, [], ◌∷◌, is_empty, ◌==◌,
  nat_eq, nat_beq_iff, if◌then◌else◌, Bool-cases, Option-cases, inl, inr,
}
use foundry_router.Base.Dict.{Dict, lookup, insert, lookup-insert}
use foundry_router.Credit.Cycle.{Date, Time}
use foundry_router.Credit.Store.{Account, Reservation, Store, Outcome, returns, raises}
use foundry_router.Credit.Store.Sync.{
  CreditSettings, credit_membership, metered_of, is_same_membership, amount_of, synced_account,
  sync_group, sync_groups, sync_accounts, sync_from_settings,
}

-- The same account, but for its start day and its allowance.
abbrev pub IsResized : Account → Account → Type 0
IsResized a b =
    b ≡ record a { cycle_start_day = b.cycle_start_day; cycle_allowance = b.cycle_allowance }

-- Every account is still there, with what remains of it and all it has been debited.
abbrev pub Keeps : Dict ℕ Account → Dict ℕ Account → Type 0
Keeps d d' =
    (g : ℕ) (a : Account)
    → lookup g d ≡ some a
    → (b : Account) × (lookup g d' ≡ some b) × IsResized a b

Keeps-refl : (d : Dict ℕ Account) → Keeps d d
Keeps-refl d g a e = (a, e, refl)

IsResized-trans : (a b c : Account) → IsResized a b → IsResized b c → IsResized a c
IsResized-trans a b c h k =
    k
    ∙ ap
        (λ (x : Account). record x {
          cycle_start_day = c.cycle_start_day;
          cycle_allowance = c.cycle_allowance;
        })
        h

Keeps-trans : (d e f : Dict ℕ Account) → Keeps d e → Keeps e f → Keeps d f
Keeps-trans d e f h k g a at_d =
    let (b, at_e, same) = h g a at_d in
    let (c, at_f, more) = k g b at_e in (c, at_f, IsResized-trans a b c same more)

Keeps-insert :
    (at : Date → ℕ) (now : Time) (allowance remaining day g : ℕ) (d : Dict ℕ Account)
    → Keeps d (insert g (synced_account at now allowance remaining day (lookup g d)) d)
unfolding synced_account
Keeps-insert at now allowance remaining day g d h a e =
    let new = synced_account at now allowance remaining day (lookup g d) in
    elim (Bool-cases (g == h)) [
      | inr other ↦ (a, lookup-insert g h new d ∙ otherwise other, refl)
      | inl same ↦ (
        record a { cycle_start_day = day; cycle_allowance = allowance },
        lookup-insert g h new d ∙ here same,
        refl,
      )
    ]
  where
    otherwise :
        g == h ≡ false
        → (if g == h
            then some (synced_account at now allowance remaining day (lookup g d))
            else lookup h d)
          ≡ some a
    otherwise x = rw x e

    here :
        g == h ≡ true
        → (if g == h
            then some (synced_account at now allowance remaining day (lookup g d))
            else lookup h d)
          ≡ some (record a { cycle_start_day = day; cycle_allowance = allowance })
    here x =
        let at_g : lookup g d ≡ some a = ap (λ k. lookup k d) ((nat_beq_iff g h).0 x) ∙ e in
        rw x (ap (λ o. some (synced_account at now allowance remaining day o)) at_g)

sync_group-Keeps :
    (at : Date → ℕ) (now : Time) (c : CreditSettings) (g : ℕ) (d : Dict ℕ Account)
    → Keeps d (sync_group at now c g d).1
unfolding sync_group
sync_group-Keeps at now c g d = elim (Option-cases (amount_of c.cycle_allowance g)) [
  | inl e ↦ rw (e, sync_group) (Keeps-refl d)
  | inr (allowance, e) ↦ elim (Option-cases (amount_of c.initial_remaining g)) [
    | inl f ↦ rw (e, f, sync_group) (Keeps-refl d)
    | inr (remaining, f) ↦ elim (Option-cases (lookup g c.cycle_start_day)) [
      | inl k ↦ rw (e, f, k, sync_group) (Keeps-refl d)
      | inr (day, k) ↦ rw (e, f, k, sync_group) (Keeps-insert at now allowance remaining day g d)
    ]
  ]
]

sync_groups-Keeps :
    (at : Date → ℕ) (now : Time) (c : CreditSettings) (gs : List ℕ) (d : Dict ℕ Account)
    → Keeps d (sync_groups at now c gs d).1
unfolding sync_groups
sync_groups-Keeps at now c [] d = Keeps-refl d
sync_groups-Keeps at now c (g ∷ gs) d =
    Keeps-trans d (sync_group at now c g d).1
      (sync_groups at now c gs (sync_group at now c g d).1).1 (sync_group-Keeps at now c g d)
      (sync_groups-Keeps at now c gs (sync_group at now c g d).1)

-- What a synchronization does to the money and the membership.
abbrev pub Syncs : Store → Outcome Bool → Type 0
Syncs s (raises e t) = t ≡ s
Syncs s (returns complete t) =
    (t.reservations ≡ s.reservations)
    × Keeps s.snapshots t.snapshots
    × (((t.credit_aliases ≡ s.credit_aliases) × (t.metered_groups ≡ s.metered_groups))
        ⊎ ((s.reservations ≡ []) ⊎ (is_same_membership t.credit_aliases t.metered_groups s ≡ true)))

sync_accounts-Syncs :
    (at : Date → ℕ) (now : Time) (c : CreditSettings) (aliases : Dict ℕ ℕ) (groups : List ℕ)
    (s : Store)
    → (s.reservations ≡ []) ⊎ (is_same_membership aliases groups s ≡ true)
    → Syncs s (sync_accounts at now c aliases groups s)
unfolding sync_accounts
sync_accounts-Syncs at now c aliases groups s allowed =
    by_complete (sync_groups at now c groups s.snapshots)
      (sync_groups-Keeps at now c groups s.snapshots)
  where
    by_complete :
        (r : Bool × Dict ℕ Account)
        → Keeps s.snapshots r.1
        → Syncs s (
            returns r.0 (
              if r.0
              then record s { snapshots = r.1; credit_aliases = aliases; metered_groups = groups }
              else record s { snapshots = r.1 }))
    by_complete (true, d) k = (refl, k, inr allowed)
    by_complete (false, d) k = (refl, k, inl (refl, refl))

-- A synchronization that raises leaves the state. One that returns leaves the reservations and
-- every account, which may only get another start day and allowance; and the membership is then as
-- it was, or equal to it, or there was no reservation.
pub sync_from_settings-Syncs :
    (is_safe : ℕ → Bool) (at : Date → ℕ) (now : Time) (c : CreditSettings) (unchanged : Bool)
    (s : Store)
    → Syncs s (sync_from_settings is_safe at now c unchanged s)
unfolding sync_from_settings
sync_from_settings-Syncs is_safe at now c unchanged s =
    elim (Option-cases (credit_membership is_safe c.backends)) [
      | inl e ↦ rw (e, sync_from_settings) refl
      | inr (aliases, e) ↦
          let groups = metered_of aliases c.backends in
          elim (Bool-cases (unchanged && is_same_membership aliases groups s)) [
            | inl f ↦ rw (e, f, sync_from_settings) (refl, Keeps-refl s.snapshots, inl (refl, refl))
            | inr f ↦
                elim (Bool-cases
                  (not (is_same_membership aliases groups s) && not (is_empty s.reservations))) [
                    | inl k ↦ rw (e, f, k, sync_from_settings) refl
                    | inr k ↦
                        rw (e, f, k, sync_from_settings)
                          (sync_accounts-Syncs at now c aliases groups s
                            (allowed s.reservations (is_same_membership aliases groups s) k))
                  ]
          ]
    ]
  where
    allowed :
        (d : Dict ℕ Reservation) (same : Bool)
        → not same && not (is_empty d) ≡ false
        → (d ≡ []) ⊎ (same ≡ true)
    allowed [] same h = inl refl
    allowed (x ∷ d) true h = inr refl
    allowed (x ∷ d) false h = cc
