-- ===== src/Routing/Rank/Tests.antt =====
-- Runs of the ranking of `src/foundry_router/routing/__init__.py`.
use foundry_router.Base.{ℕ, ◌≡◌, refl, some, List, [], ◌∷◌, ◌++◌, All, nat_eq}
use mathlib.Core.List.{Perm}
use foundry_router.Base.Dict.{Dict, lookup}
use foundry_router.Base.Sort.{sorted, insert_sorted}
use foundry_router.Routing.Rank.{Entry, backends_of, ranked_model_backends, select_backend}
use foundry_router.Routing.Rank.Order.{IsIn, IsRanked, ranked_model_backends_lem}

abbrev models : Dict ℕ (Dict ℕ ℕ)
models = (5, (1, 10) ∷ (2, 30) ∷ (3, 30) ∷ []) ∷ []

heaviest : select_backend models 5 ≡ some 2
unfolding select_backend ranked_model_backends sorted insert_sorted lookup
heaviest = refl

ranked_model_backends_lem_example :
    (entries removed : List Entry) × (ranked_model_backends models 5 (2 ∷ []) ≡ backends_of entries)
    × Perm (entries ++ removed) ((1, 10) ∷ (2, 30) ∷ (3, 30) ∷ [])
    × All (λ e. ¬ IsIn e.0 (2 ∷ [])) entries
    × All (λ e. IsIn e.0 (2 ∷ [])) removed
    × IsRanked entries
unfolding lookup
ranked_model_backends_lem_example =
    ranked_model_backends_lem models 5 (2 ∷ []) ((1, 10) ∷ (2, 30) ∷ (3, 30) ∷ []) refl
