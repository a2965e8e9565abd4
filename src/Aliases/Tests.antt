-- ===== src/Aliases/Tests.antt =====
-- Runs of `src/foundry_router/config/model_aliases.py` on one alias of two models.
use foundry_router.Base.{ℕ, ◌≡◌, refl, true, false, List, [], ◌∷◌, nat_eq, ltb}
use foundry_router.Base.Dict.{Dict, lookup}
use foundry_router.Aliases.{
  invalid, chained, is_canonical, entry_error, target_error, validate_alias_entries,
  resolve_model_alias,
}
use foundry_router.Aliases.Resolution.{resolve_model_alias-one_step}

abbrev two_models : List ℕ
two_models = 1 ∷ 2 ∷ []

abbrev one_alias : Dict ℕ ℕ
one_alias = (9, 2) ∷ []

chain_refused : validate_alias_entries (ltb 0) two_models ((8, 9) ∷ (9, 2) ∷ []) ≡ invalid chained
unfolding validate_alias_entries entry_error target_error lookup
chain_refused = refl

resolve_model_alias-one_step_example :
    let r = resolve_model_alias 9 one_alias in
    (r.is_alias ≡ true
      → (is_canonical two_models 9 ≡ false) × (is_canonical two_models r.resolved_model ≡ true))
    × (r.is_alias ≡ false → r.resolved_model ≡ 9)
    × ((resolve_model_alias r.resolved_model one_alias).resolved_model ≡ r.resolved_model)
unfolding validate_alias_entries entry_error target_error lookup
resolve_model_alias-one_step_example =
    resolve_model_alias-one_step (ltb 0) two_models one_alias one_alias 9 refl
