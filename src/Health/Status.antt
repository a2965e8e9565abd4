-- ===== src/Health/Status.antt =====
-- When the candidates are refused, and the status of the refusal.
use foundry_router.Base.{
  ℕ, ◌≡◌, ◌↔◌, refl, true, false, not, List, [], ◌∷◌, arith, any, all, All, Bool-cases, inl, inr,
}
use foundry_router.Health.Store.{
  HealthState, active, quota_cooldown, error_cooldown, disabled, HealthSnapshot, HealthStore,
  is_cooldown, snapshot_backend_health,
}
use foundry_router.Health.Response.{
  Outcome, no_response, key_error, response, is_quota, respond, cooldown_exhausted_response,
}
use foundry_router.Health.Retry.{reports, is_response, cooldown_exhausted_response-reports}

cool_iff :
    (xs : List HealthSnapshot)
    → (any (λ y. not (is_cooldown y.state)) xs ≡ false) ↔ All (λ y. is_cooldown y.state ≡ true) xs
cool_iff [] = (λ h. tt, λ h. refl)
cool_iff (x ∷ xs) = (λ h. ground (arith, cool_iff xs), λ h. ground (arith, cool_iff xs))

is_quota_iff : (x : HealthState) → (is_quota x ≡ true) ↔ (x ≡ quota_cooldown)
is_quota_iff active = (λ h. cc, λ h. cc)
is_quota_iff quota_cooldown = (λ h. refl, λ h. refl)
is_quota_iff error_cooldown = (λ h. cc, λ h. cc)
is_quota_iff disabled = (λ h. cc, λ h. cc)

quota_all_iff :
    (xs : List HealthSnapshot)
    → (all (λ y. is_quota y.state) xs ≡ true) ↔ All (λ y. y.state ≡ quota_cooldown) xs
quota_all_iff [] = (λ h. tt, λ h. refl)
quota_all_iff (x ∷ xs) = (
  λ h. ground (arith, quota_all_iff xs, is_quota_iff x.state),
  λ h. ground (arith, quota_all_iff xs, is_quota_iff x.state),
)

abbrev pub status_of : Outcome → ℕ
status_of no_response = 0
status_of key_error = 0
status_of (response r) = r.status_code

respond-status :
    (x : HealthSnapshot) (xs : List HealthSnapshot)
    → ((is_response (respond (x ∷ xs)) ≡ true) ↔ All (λ y. is_cooldown y.state ≡ true) (x ∷ xs))
      × (is_response (respond (x ∷ xs)) ≡ true
          → (status_of (respond (x ∷ xs)) ≡ 429) ↔ All (λ y. y.state ≡ quota_cooldown) (x ∷ xs))
unfolding respond
respond-status x xs =
    let (cool, all_cool) = cool_iff (x ∷ xs) in
    let (quota, all_quota) = quota_all_iff (x ∷ xs) in
    elim (Bool-cases (any (λ y. not (is_cooldown y.state)) (x ∷ xs))) [
      | inl ready ↦ rw (ready, respond) (((λ h. cc), (λ h. cc (all_cool h))), (λ h. cc))
      | inr chilled ↦
          rw (chilled, respond)
            (
              ((λ h. cool chilled), (λ h. refl)),
              λ h. elim (Bool-cases (all (λ y. is_quota y.state) (x ∷ xs))) [
                | inl same ↦ rw (same, respond) ((λ h. quota same), (λ h. refl))
                | inr other ↦
                    rw (other, respond) ((λ h. absurd (omega arith)), (λ h. cc (all_quota h)))
              ],
            )
    ]

-- The candidates of a snapshot, if there is one, are refused exactly if each is in cooldown by its
-- report, and then with the status 429 exactly if each is in quota cooldown.
pub cooldown_exhausted_response-decides :
    (now b : ℕ) (bs : List ℕ) (s : HealthStore)
    → let out = cooldown_exhausted_response (b ∷ bs) (snapshot_backend_health now (b ∷ bs) s).0 in
      let found = reports now (b ∷ bs) s in
      ((is_response out ≡ true) ↔ All (λ y. is_cooldown y.state ≡ true) found)
      × (is_response out ≡ true → (status_of out ≡ 429) ↔ All (λ y. y.state ≡ quota_cooldown) found)
unfolding reports
cooldown_exhausted_response-decides now b bs s =
    rw (cooldown_exhausted_response-reports now (b ∷ bs) s) (respond-status _ _)
