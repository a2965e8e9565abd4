-- ===== src/SharedQuota/Calls/Sync.antt =====
-- `sync_from_settings` of `src/foundry_router/state/quota.py`. The fingerprint of a policy is an
-- argument, as a hash of what the settings say of it; the settings have dropped the groups with no
-- limit.
use foundry_router.Base.{
  ℕ, ◌≡◌, ◌⊎◌, refl, Bool, true, false, not, ◌&&◌, ◌||◌, Option, none, some, List, [], ◌∷◌, all,
  length, is_empty, leb, ltb, ◌==◌, nat_eq, if◌then◌else◌, Bool-cases, Option-cases, inl, inr, All,
  zero, suc, ◌+◌, ◌<◌, arith,
}
use foundry_router.Base.Dict.{Dict, lookup}
use foundry_router.Base.Sort.{sorted}
use foundry_router.RateLimit.{Limits}
use foundry_router.SharedQuota.{QuotaState, Policy, max_age}
use foundry_router.SharedQuota.Calls.{
  Entity, Fetched, Written, write_raises, written, conflict, Round, Store, max_conflicts, read_row,
  write_row, touch_loop, reconcile_owners,
}

-- What the settings say: the limits of the groups, the age, and each backend with the group of its
-- quota, if it is given.
pub record Settings : Type 0 where
  pub limits : Dict ℕ Limits
  pub age : ℕ
  pub backends : Dict ℕ (Option ℕ)

pub data SyncEnd : Type 0 where
  rejected synced : Store → SyncEnd

abbrev pub member : ℕ × Option ℕ → ℕ × ℕ
member (key, none) = (key, key)
member (key, some group) = (key, group)

abbrev pub members : Dict ℕ (Option ℕ) → List (ℕ × ℕ)
members [] = []
members (b ∷ bs) = member b ∷ members bs

abbrev pub member_le : ℕ × ℕ → ℕ × ℕ → Bool
member_le a b = ltb a.0 b.0 || ((a.0 == b.0) && leb a.1 b.1)

pub membership : Settings → List (ℕ × ℕ)
membership c = sorted member_le (members c.backends)

abbrev pub same_limit : Option ℕ → Option ℕ → Bool
same_limit none none = true
same_limit none (some m) = false
same_limit (some n) none = false
same_limit (some n) (some m) = n == m

-- A group has the same limits and the same fingerprint.
abbrev pub is_same_policy : Dict ℕ Policy → ℕ × Policy → Bool
is_same_policy d (g, p) = elim (lookup g d) [
  | none ↦ false
  | some q ↦
      same_limit p.limits.rpm q.limits.rpm
      && same_limit p.limits.tpm q.limits.tpm
      && same_limit p.limits.rpd q.limits.rpd
      && (p.fingerprint == q.fingerprint)
]

-- The two comparisons of dictionaries.
pub are_same_policies : Dict ℕ Policy → Dict ℕ Policy → Bool
are_same_policies d d' = (length d == length d') && all (is_same_policy d') d

module _ (day_of : ℕ → ℕ) (too_large : QuotaState → Bool)
    (fingerprint_of : ℕ → Limits → ℕ → List (ℕ × ℕ) → ℕ) where
  abbrev pub policies_of : ℕ → List (ℕ × ℕ) → Dict ℕ Limits → Dict ℕ Policy
  policies_of age ms [] = []
  policies_of age ms ((g, l) ∷ d) =
      (g, record { limits = l; fingerprint = fingerprint_of g l age ms; age = age })
      ∷ policies_of age ms d

  -- The loop over the groups, which reads each row and writes it back.
  pub touch_all : Dict ℕ Policy → (ℕ → ℕ → Round) → Bool
  touch_all [] env = true
  touch_all ((g, p) ∷ d) env =
      let rest = touch_all d env in
      elim (touch_loop day_of too_large max_conflicts g p (env g) 0) [
        | none ↦ false
        | some seen ↦ rest
      ]

  -- The part after the owners have been reconciled: a failure restores the old policies.
  pub sync_owned : Settings → (ℕ → ℕ → Round) → Store → SyncEnd
  sync_owned c env s =
      let new = policies_of c.age (membership c) c.limits in
      if not (is_empty s.owners) && not (are_same_policies new s.policies)
      then rejected s
      else (if touch_all new env
          then synced (record s { policies = new; max_age = c.age })
          else rejected s)

  pub sync_from_settings : Settings → ℕ → (ℕ → Fetched) → (ℕ → ℕ → Round) → Store → SyncEnd
  sync_from_settings c now get env s =
      if not (ltb 0 c.age && leb c.age max_age)
      then rejected s
      else elim (reconcile_owners day_of too_large s now get) [
        | none ↦ rejected s
        | some owners ↦ sync_owned c env (record s { owners = owners })
      ]

  -- The round has read the row, opened with the policy, and written it back.
  pub record Touched (group : ℕ) (p : Policy) (r : Round) : Type 0 where
    pub entity : Entity
    pub state : QuotaState
    pub was_read : read_row day_of too_large group p r ≡ some (entity, state)
    pub was_written : write_row day_of too_large entity state r.write ≡ written

  -- A loop that ends with a state has a round that does.
  touch_loop-Touched :
      (n group : ℕ) (p : Policy) (env : ℕ → Round) (i : ℕ) (seen : ℕ × QuotaState)
      → touch_loop day_of too_large n group p env i ≡ some seen
      → (k : ℕ) × (k < i + n) × Touched group p (env k)
  unfolding touch_loop
  touch_loop-Touched zero group p env i seen h = cc
  touch_loop-Touched (suc n) group p env i seen h =
      elim (Option-cases (read_row day_of too_large group p (env i))) [
        | inl lost ↦ absurd (no_state (rw (lost, touch_loop) at h))
        | inr ((e, s), was_read) ↦
            by_write e s was_read (write_row day_of too_large e s (env i).write) refl
              (touch_loop-Touched n group p env (suc i) seen) (rw (was_read, touch_loop) at h)
      ]
    where
      no_state : ◌≡◌ {A = Option (ℕ × QuotaState)} none (some seen) → ⊥
      no_state x = cc

      by_write :
          (e : Entity) (s : QuotaState)
          → read_row day_of too_large group p (env i) ≡ some (e, s)
          → (w : Written) → write_row day_of too_large e s (env i).write ≡ w
          → (touch_loop day_of too_large n group p env (suc i) ≡ some seen
              → (k : ℕ) × (k < suc i + n) × Touched group p (env k))
          → elim w [
            | write_raises ↦ none
            | written ↦ some ((env i).now, s)
            | conflict ↦ touch_loop day_of too_large n group p env (suc i)
          ]
            ≡ some seen
          → (k : ℕ) × (k < i + suc n) × Touched group p (env k)
      by_write e s was_read write_raises wrote again h = absurd (no_state h)
      by_write e s was_read written wrote again h = (
        i,
        omega arith,
        record { entity = e; state = s; was_read = was_read; was_written = wrote },
      )
      by_write e s was_read conflict wrote again h =
          let (k, below, touched) = again h in (k, omega (arith, below), touched)

  -- The row of a group has been read and written back in one of the eight rounds.
  abbrev WasTouched : (ℕ → ℕ → Round) → ℕ × Policy → Type 0
  WasTouched env (g, p) = (k : ℕ) × (k < max_conflicts) × Touched g p (env g k)

  touch_all-touched :
      (d : Dict ℕ Policy) (env : ℕ → ℕ → Round) → touch_all d env ≡ true → All (WasTouched env) d
  unfolding touch_all
  touch_all-touched [] env h = tt
  touch_all-touched ((g, p) ∷ d) env h =
      elim (Option-cases (touch_loop day_of too_large max_conflicts g p (env g) 0)) [
        | inl e ↦ absurd (no_rest (rw (e, touch_all) at h))
        | inr (seen, e) ↦ (
          touch_loop-Touched max_conflicts g p (env g) 0 seen e,
          touch_all-touched d env (rw (e, touch_all) at h),
        )
      ]
    where
      no_rest : false ≡ true → ⊥
      no_rest h = cc

  -- What may be known of a synchronization from its end.
  abbrev pub Synchronizes : Settings → (ℕ → ℕ → Round) → Store → SyncEnd → Type 0
  Synchronizes c env s (rejected t) = (t.policies ≡ s.policies) × (t.max_age ≡ s.max_age)
  Synchronizes c env s (synced t) =
      (t.max_age ≡ c.age)
      × (t.policies ≡ policies_of c.age (membership c) c.limits)
      × ((t.owners ≡ []) ⊎ (are_same_policies t.policies s.policies ≡ true))
      × All (WasTouched env) t.policies

  sync_owned-Synchronizes :
      (c : Settings) (env : ℕ → ℕ → Round) (s : Store) → Synchronizes c env s (sync_owned c env s)
  unfolding sync_owned
  sync_owned-Synchronizes c env s =
      let new = policies_of c.age (membership c) c.limits in
      elim (Bool-cases (not (is_empty s.owners) && not (are_same_policies new s.policies))) [
        | inl changed ↦ rw (changed, sync_owned) (refl, refl)
        | inr kept ↦ elim (Bool-cases (touch_all new env)) [
          | inr lost ↦ rw (kept, lost, sync_owned) (refl, refl)
          | inl all_written ↦
              rw (kept, all_written, sync_owned)
                (
                  refl,
                  refl,
                  drained s.owners (are_same_policies new s.policies) kept,
                  touch_all-touched new env all_written,
                )
        ]
      ]
    where
      drained :
          (owners : Dict ℕ ℕ) (same : Bool)
          → not (is_empty owners) && not same ≡ false
          → (owners ≡ []) ⊎ (same ≡ true)
      drained [] same h = inl refl
      drained (o ∷ os) true h = inr refl
      drained (o ∷ os) false h = cc

  -- A synchronization that raises leaves the limits, the fingerprints and the age as they were. One
  -- that returns leaves those of the settings, has read and written back the row of each group,
  -- and while attempts are owned the limits and the fingerprints are the same as before.
  pub sync_from_settings-Synchronizes :
      (c : Settings) (now : ℕ) (get : ℕ → Fetched) (env : ℕ → ℕ → Round) (s : Store)
      → Synchronizes c env s (sync_from_settings c now get env s)
  unfolding sync_from_settings
  sync_from_settings-Synchronizes c now get env s =
      elim (Bool-cases (not (ltb 0 c.age && leb c.age max_age))) [
        | inl bad ↦ rw (bad, sync_from_settings) (refl, refl)
        | inr good ↦ elim (Option-cases (reconcile_owners day_of too_large s now get)) [
          | inl lost ↦ rw (good, lost, sync_from_settings) (refl, refl)
          | inr (owners, kept) ↦
              rw (good, kept, sync_from_settings)
                (sync_owned-Synchronizes c env (record s { owners = owners }))
        ]
      ]
