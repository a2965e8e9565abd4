-- ===== src/Routing/Rank.antt =====
-- `ranked_model_backends` and `select_backend` of `src/foundry_router/routing/__init__.py`. A
-- weight is a number in the order of the floats.
pub mod Order
mod Tests
use foundry_router.Base.{
  ℕ, Bool, true, false, not, ◌&&◌, ◌||◌, Option, none, some, List, [], ◌∷◌, any, keep, ltb, ◌==◌,
  nat_eq,
}
use foundry_router.Base.Dict.{Dict, lookup}
use foundry_router.Base.Sort.{sorted}

-- A backend of a pool with its weight.
abbrev pub Entry : Type 0
Entry = ℕ × ℕ

-- The order of the keys `(-weight, backend)`.
abbrev pub rank_le : Entry → Entry → Bool
rank_le (a, v) (b, w) = ltb w v || ((v == w) && not (ltb b a))

abbrev pub is_allowed : List ℕ → Entry → Bool
is_allowed excluded (b, w) = not (any (λ x. x == b) excluded)

abbrev pub backends_of : List Entry → List ℕ
backends_of [] = []
backends_of ((b, w) ∷ es) = b ∷ backends_of es

pub ranked_model_backends : Dict ℕ (Dict ℕ ℕ) → ℕ → List ℕ → List ℕ
ranked_model_backends models model excluded = elim (lookup model models) [
  | none ↦ []
  | some pool ↦ backends_of (sorted rank_le (keep (is_allowed excluded) pool))
]

abbrev pub first_of : List ℕ → Option ℕ
first_of [] = none
first_of (b ∷ bs) = some b

pub select_backend : Dict ℕ (Dict ℕ ℕ) → ℕ → Option ℕ
select_backend models model = first_of (ranked_model_backends models model [])
