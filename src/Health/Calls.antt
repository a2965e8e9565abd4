-- ===== src/Health/Calls.antt =====
-- Histories of the calls of the health store, by a step relation.
use foundry_router.Base.{
  ℕ, ◌≡◌, refl, ap, sym, ◌∙◌, true, some, List, [], ◌∷◌, arith, ◌==◌, nat_eq, nat_beq_iff,
  Bool-cases, Option-cases, inl, inr,
}
use foundry_router.Base.Int.{ℤ}
use foundry_router.Base.Dict.{Dict, lookup, insert, lookup-insert}
use foundry_router.Health.Store.{
  HealthState, HealthRecord, HealthSnapshot, HealthStore, is_disabled, active_record,
  write_unless_disabled, set_backend_active, set_backend_cooldown, recover, recovered, snapshot_of,
  snapshot_each, snapshot_backend_health,
}
use foundry_router.Health.Report.{is_disabled_at}

-- One call but `reset`, with any arguments; a cooldown may be set to any state, as the code lets
-- its caller choose.
pub data Step (s : HealthStore) : HealthStore → Type 0 where
  activates : (b : ℕ) → Step s (set_backend_active b s)
  cools :
      (now b : ℕ) (state : HealthState) (cooldown : ℤ)
      → Step s (set_backend_cooldown now b state cooldown s)
  snapshots : (now : ℕ) (bs : List ℕ) → Step s (snapshot_backend_health now bs s).1

pub data Reach (s : HealthStore) : HealthStore → Type 0 where
  here : Reach s s
  next : {t u : HealthStore} → Reach s t → Step t u → Reach s u

write-disabled :
    (b g : ℕ) (r : HealthRecord) (s : HealthStore)
    → is_disabled_at g s ≡ true
    → lookup g (write_unless_disabled b r s) ≡ lookup g s
unfolding write_unless_disabled
write-disabled b g r s h = elim (Option-cases (lookup b s)) [
  | inl e ↦
      rw (e, write_unless_disabled, lookup-insert b g r s)
        (elim (Bool-cases (b == g)) [
          | inl same ↦ cc (rw ((nat_beq_iff b g).0 same) at e, h)
          | inr other ↦ rw other
        ])
  | inr (old, e) ↦
      rw (e, write_unless_disabled)
        (elim (Bool-cases (is_disabled old.state)) [
          | inl off ↦ rw off
          | inr on ↦
              rw (on, lookup-insert b g r s)
                (elim (Bool-cases (b == g)) [
                  | inl same ↦ cc (rw ((nat_beq_iff b g).0 same) at e, h, on)
                  | inr other ↦ rw other
                ])
        ])
]

-- A record that is disabled, or is not there, is left by `recover`.
recover-disabled : (now : ℕ) (r : HealthRecord) → is_disabled r.state ≡ true → recover now r ≡ r
unfolding recover
recover-disabled now r h = ground arith

recovered-disabled :
    (now b g : ℕ) (s : HealthStore)
    → is_disabled_at g s ≡ true
    → lookup g (recovered now b s) ≡ lookup g s
unfolding recovered
recovered-disabled now b g s h = elim (Option-cases (lookup b s)) [
  | inl e ↦ rw (e, recovered)
  | inr (r, e) ↦
      rw (e, recovered, lookup-insert b g (recover now r) s)
        (elim (Bool-cases (b == g)) [
          | inl same ↦
              let at_g = rw ((nat_beq_iff b g).0 same) at e in
              rw same (ap some (recover-disabled now r (rw (at_g, is_disabled_at) at h)) ∙ sym at_g)
          | inr other ↦ rw other
        ])
]

disabled_at-same :
    (g : ℕ) (s t : HealthStore)
    → lookup g t ≡ lookup g s
    → is_disabled_at g s ≡ true
    → is_disabled_at g t ≡ true
disabled_at-same g s t same h = rw (same, is_disabled_at) h

snapshot_each-disabled :
    (now g : ℕ) (bs : List ℕ) (s : HealthStore) (out : Dict ℕ HealthSnapshot)
    → is_disabled_at g s ≡ true
    → lookup g (snapshot_each now bs s out).1 ≡ lookup g s
unfolding snapshot_each
snapshot_each-disabled now g [] s out h = refl
snapshot_each-disabled now g (b ∷ bs) s out h =
    let same = recovered-disabled now b g s h in
    snapshot_each-disabled now g bs (recovered now b s)
      (insert b (snapshot_of now (lookup b s)) out)
      (disabled_at-same g s (recovered now b s) same h)
    ∙ same

Step-disabled :
    {s t : HealthStore} (g : ℕ) → Step s t → is_disabled_at g s ≡ true → lookup g t ≡ lookup g s
unfolding set_backend_active set_backend_cooldown snapshot_backend_health
Step-disabled {s} g (activates b) h = write-disabled b g active_record s h
Step-disabled {s} g (cools now b state cooldown) h = write-disabled b g _ s h
Step-disabled {s} g (snapshots now bs) h = snapshot_each-disabled now g bs s [] h

-- Until the store is reset, no history of calls changes the record of a backend that is disabled.
pub Reach-disabled :
    {s t : HealthStore} (g : ℕ) → Reach s t → is_disabled_at g s ≡ true → lookup g t ≡ lookup g s
Reach-disabled g here h = refl
Reach-disabled {s} g (next {t} r st) h =
    let same = Reach-disabled g r h in Step-disabled g st (disabled_at-same g s t same h) ∙ same
