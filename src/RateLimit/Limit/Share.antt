-- ===== src/RateLimit/Limit/Share.antt =====
-- The replicas' shares of a limit, of `effective_quota_limits` in
-- `src/foundry_router/ratelimit.py`, against the limit that the provider sets.
use foundry_router.Base.{
  ℕ, ◌+◌, ◌*◌, ◌≤◌, ◌<◌, ◌≡◌, ◌↔◌, refl, Option, none, some, List, [], ◌∷◌, ◌++◌, arith, nat_eq,
  All,
}
use foundry_router.Base.Dict.{Dict}
use foundry_router.RateLimit.{Limits}
use foundry_router.RateLimit.Limit.{
  rpm, tpm, rpd, share_limits, effective_quota_limits, Dimension, zero_dimension,
  zero_share_dimensions,
}

-- As many replicas as there are shares stay within the limit, and one more request each would not.
abbrev pub IsFloor : ℕ → Option ℕ → Option ℕ → Type 0
IsFloor share none none = Unit
IsFloor share (some limit) (some part) =
    (share * part ≤ limit) × (0 < share → limit < share * (part + 1))
IsFloor share _ _ = ⊥

-- A dimension that is configured is still positive.
abbrev pub IsServed : Option ℕ → Type 0
IsServed none = Unit
IsServed (some part) = 0 < part

-- No configured dimension of the limits has come down to nothing.
abbrev pub ServesAll : Limits → Type 0
ServesAll l = IsServed l.rpm × IsServed l.tpm × IsServed l.rpd

zero_dimension-nil :
    (g : ℕ) (dim : Dimension) (o : Option ℕ) → (zero_dimension g dim o ≡ []) ↔ IsServed o
unfolding zero_dimension
zero_dimension-nil g dim none = (λ h. tt, λ h. refl)
zero_dimension-nil g dim (some part) = (λ h. ground arith, λ h. ground arith)

append-nil_iff {ℓ} : {A : Type ℓ} (xs ys : List A) → (xs ++ ys ≡ []) ↔ ((xs ≡ []) × (ys ≡ []))
append-nil_iff [] ys = (λ h. (refl, h), λ h. h.1)
append-nil_iff (x ∷ xs) ys = (λ h. cc, λ h. cc)

-- The list of zero shares is empty exactly if every replica can serve every group: each dimension
-- that is configured is positive in its limits.
pub zero_share_dimensions-nil :
    (d : Dict ℕ Limits) (share : ℕ)
    → (zero_share_dimensions d share ≡ [])
      ↔ All (λ (e : ℕ × Limits). ServesAll e.1) (effective_quota_limits d share)
unfolding zero_share_dimensions effective_quota_limits
zero_share_dimensions-nil [] share = (λ h. tt, λ h. refl)
zero_share_dimensions-nil ((g, l) ∷ d) share =
    let e = share_limits share l in
    let rest = zero_share_dimensions-nil d share in
    let (split_rpm, join_rpm) = append-nil_iff (zero_dimension g rpm e.rpm) _ in
    let (split_tpm, join_tpm) = append-nil_iff (zero_dimension g tpm e.tpm) _ in
    let (split_rpd, join_rpd) =
      append-nil_iff (zero_dimension g rpd e.rpd) (zero_share_dimensions d share) in
    let on_rpm = zero_dimension-nil g rpm e.rpm in
    let on_tpm = zero_dimension-nil g tpm e.tpm in
    let on_rpd = zero_dimension-nil g rpd e.rpd in
    (
      λ h.
          let h1 = split_rpm h in
          let h2 = split_tpm h1.1 in
          let h3 = split_rpd h2.1 in ((on_rpm.0 h1.0, on_tpm.0 h2.0, on_rpd.0 h3.0), rest.0 h3.1),
      λ h.
          join_rpm
            (on_rpm.1 h.0.0, join_tpm (on_tpm.1 h.0.1, join_rpd (on_rpd.1 h.0.2, rest.1 h.1))),
    )
