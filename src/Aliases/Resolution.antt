-- ===== src/Aliases/Resolution.antt =====
-- Resolution by aliases that have been validated.
use foundry_router.Base.{
  ℕ, ◌≡◌, refl, sym, ap, ◌∙◌, Bool, true, false, none, some, List, [], ◌∷◌, arith, nat_eq,
  nat_beq_iff, Option-cases, inl, inr,
}
use foundry_router.Base.Dict.{Dict, lookup}
use foundry_router.Aliases.{
  AliasError, valid, invalid, is_canonical, entry_error, target_error, validate_alias_entries,
  resolve_model_alias,
}

target_of :
    (canonical : List ℕ) (aliases d : Dict ℕ ℕ) (name target : ℕ)
    → target_error canonical aliases d ≡ none
    → lookup name d ≡ some target
    → (is_canonical canonical target ≡ true) × (lookup target aliases ≡ none)
unfolding target_error lookup
target_of canonical aliases [] name target h e = cc
target_of canonical aliases ((alias, t) ∷ d) name target h e =
    ground (arith, target_of canonical aliases d name target, nat_beq_iff alias name)

alias_of :
    (is_token : ℕ → Bool) (canonical : List ℕ) (d : Dict ℕ ℕ) (name target : ℕ)
    → entry_error is_token canonical d ≡ none
    → lookup name d ≡ some target
    → is_canonical canonical name ≡ false
unfolding entry_error lookup
alias_of is_token canonical [] name target h e = cc
alias_of is_token canonical ((alias, t) ∷ d) name target h e =
    ground (arith, alias_of is_token canonical d name target, nat_beq_iff alias name)

-- What has been validated is the entries, and neither loop found an error.
valid_parts :
    (is_token : ℕ → Bool) (canonical : List ℕ) (value aliases : Dict ℕ ℕ)
    → validate_alias_entries is_token canonical value ≡ valid aliases
    → (value ≡ aliases)
      × (entry_error is_token canonical value ≡ none)
      × (target_error canonical value value ≡ none)
unfolding validate_alias_entries
valid_parts is_token canonical value aliases h =
    elim (Option-cases (entry_error is_token canonical value)) [
      | inr (e, bad) ↦ absurd (not_valid (rw (bad, validate_alias_entries) at h))
      | inl fine ↦ elim (Option-cases (target_error canonical value value)) [
        | inr (e, bad) ↦ absurd (not_valid (rw (fine, bad, validate_alias_entries) at h))
        | inl good ↦ (same (rw (fine, good, validate_alias_entries) at h), fine, good)
      ]
    ]
  where
    not_valid : {e : AliasError} → invalid e ≡ valid aliases → ⊥
    not_valid h = cc

    same : valid value ≡ valid aliases → value ≡ aliases
    same h = cc

resolve_none :
    (name : ℕ) (aliases : Dict ℕ ℕ)
    → lookup name aliases ≡ none
    → resolve_model_alias name aliases
      ≡ record { requested_model = name; resolved_model = name; is_alias = false }
unfolding resolve_model_alias
resolve_none name aliases e = rw (e, resolve_model_alias)

resolve_some :
    (name target : ℕ) (aliases : Dict ℕ ℕ)
    → lookup name aliases ≡ some target
    → resolve_model_alias name aliases
      ≡ record { requested_model = name; resolved_model = target; is_alias = true }
unfolding resolve_model_alias
resolve_some name target aliases e = rw (e, resolve_model_alias)

-- Of entries that the validation accepts: a name that is resolved as an alias is not canonical and
-- its model is; any other name is its own model; and the model of a name is its own model, so one
-- step is enough.
pub resolve_model_alias-one_step :
    (is_token : ℕ → Bool) (canonical : List ℕ) (value aliases : Dict ℕ ℕ) (requested : ℕ)
    → validate_alias_entries is_token canonical value ≡ valid aliases
    → let r = resolve_model_alias requested aliases in
      (r.is_alias ≡ true
        → (is_canonical canonical requested ≡ false)
          × (is_canonical canonical r.resolved_model ≡ true))
      × (r.is_alias ≡ false → r.resolved_model ≡ requested)
      × ((resolve_model_alias r.resolved_model aliases).resolved_model ≡ r.resolved_model)
resolve_model_alias-one_step is_token canonical value aliases requested h =
    let (same, fine, good) = valid_parts is_token canonical value aliases h in
    elim (Option-cases (lookup requested aliases)) [
      | inl e ↦
          let own = resolve_none requested aliases e in
          rw own ((λ h. cc), (λ h. refl), ap (λ r. r.resolved_model) own)
      | inr (target, e) ↦
          let found : lookup requested value ≡ some target = ap (lookup requested) same ∙ e in
          let (known, unnamed) = target_of canonical value value requested target good found in
          let alone : lookup target aliases ≡ none = ap (lookup target) (sym same) ∙ unnamed in
          rw (resolve_some requested target aliases e) (
            (λ h. (alias_of is_token canonical value requested target fine found, known)),
            (λ h. cc),
            ap (λ r. r.resolved_model) (resolve_none target aliases alone),
          )
    ]
