-- ===== src/Routing/Rank/Order.antt =====
-- The ranking of a pool's backends, and the one that is selected.
use foundry_router.Base.{
  ℕ, ◌<◌, ◌≤◌, ◌≡◌, ◌⊎◌, Bool, true, false, not, some, List, [], ◌∷◌, ◌++◌, any, keep, All, arith,
  ◌==◌, nat_eq, nat_beq_iff, Bool-cases, inl, inr,
}
use mathlib.Core.List.{Perm}
use mathlib.Core.List.Perm
use foundry_router.Base.Dict.{Dict, lookup}
use foundry_router.Base.Sort.{sorted, sorted-perm, sorted-All, IsSorted, sorted-IsSorted}
use foundry_router.Routing.Rank.{Entry, rank_le, is_allowed, backends_of, ranked_model_backends}

rank_le_total : (x y : Entry) → rank_le x y ≡ false → rank_le y x ≡ true
rank_le_total (a, v) (b, w) h = ground arith

rank_le_trans : (x y z : Entry) → rank_le x y ≡ true → rank_le y z ≡ true → rank_le x z ≡ true
rank_le_trans (a, u) (b, v) (c, w) h k = ground arith

-- A backend goes before another if its weight is larger, or the same and its name not later.
abbrev pub GoesBefore : Entry → Entry → Type 0
GoesBefore (a, v) (b, w) = (w < v) ⊎ ((v ≡ w) × (a ≤ b))

-- Each backend goes before all behind it.
abbrev pub IsRanked : List Entry → Type 0
IsRanked [] = Unit
IsRanked (e ∷ es) = All (GoesBefore e) es × IsRanked es

abbrev pub IsIn : ℕ → List ℕ → Type 0
IsIn b [] = ⊥
IsIn b (x ∷ xs) = (x ≡ b) ⊎ IsIn b xs

All-map {κ μ} :
    (P : Entry → Type κ) (Q : Entry → Type μ) (es : List Entry)
    → ((e : Entry) → P e → Q e)
    → All P es
    → All Q es
All-map P Q [] f h = tt
All-map P Q (e ∷ es) f h = (f e h.0, All-map P Q es f h.1)

rank_le-GoesBefore : (e f : Entry) → rank_le e f ≡ true → GoesBefore e f
rank_le-GoesBefore (a, v) (b, w) h = ground arith

sorted-IsRanked : (es : List Entry) → IsSorted rank_le es → IsRanked es
sorted-IsRanked [] s = tt
sorted-IsRanked (e ∷ es) s = (
  All-map (λ f. rank_le e f ≡ true) (GoesBefore e) es (rank_le-GoesBefore e) s.0,
  sorted-IsRanked es s.1,
)

is_in : (b : ℕ) (xs : List ℕ) → any (λ x. x == b) xs ≡ true → IsIn b xs
is_in b [] h = cc
is_in b (x ∷ xs) h = elim (Bool-cases (x == b)) [
  | inl e ↦ inl ((nat_beq_iff x b).0 e)
  | inr e ↦ inr (is_in b xs (rw e at h))
]

is_absent : (b : ℕ) (xs : List ℕ) → any (λ x. x == b) xs ≡ false → IsIn b xs → ⊥
is_absent b [] h k = k
is_absent b (x ∷ xs) h (inl e) = ground (arith, nat_beq_iff x b, h, e)
is_absent b (x ∷ xs) h (inr k) = is_absent b xs (ground arith) k

keep-All : (f : Entry → Bool) (es : List Entry) → All (λ e. f e ≡ true) (keep f es)
keep-All f [] = tt
keep-All f (e ∷ es) = elim (Bool-cases (f e)) [
  | inl x ↦ rw x (x, keep-All f es)
  | inr x ↦ rw x (keep-All f es)
]

moved_in : (e : Entry) (xs ys : List Entry) → Perm (xs ++ e ∷ ys) (e ∷ xs ++ ys)
moved_in e [] ys = Perm.refl (e ∷ ys)
moved_in e (x ∷ xs) ys = Perm.trans (Perm.cons x (moved_in e xs ys)) (Perm.swap e x (xs ++ ys))

-- What a test keeps and what it does not are all.
keep-perm : (f : Entry → Bool) (es : List Entry) → Perm (keep f es ++ keep (λ e. not (f e)) es) es
keep-perm f [] = Perm.refl []
keep-perm f (e ∷ es) = elim (Bool-cases (f e)) [
  | inl x ↦ rw x (Perm.cons e (keep-perm f es))
  | inr x ↦ rw x (
      Perm.trans (moved_in e (keep f es) (keep (λ y. not (f y)) es)) (Perm.cons e (keep-perm f es)))
]

-- The backends of a model that has a pool: the entries of the pool fall into those that are
-- excluded and those that are not, each as often as it is there, and the result has the latter, in
-- the order of their weights from the largest and of their names where weights are equal.
pub ranked_model_backends_lem :
    (models : Dict ℕ (Dict ℕ ℕ)) (model : ℕ) (excluded : List ℕ) (pool : Dict ℕ ℕ)
    → lookup model models ≡ some pool
    → (entries removed : List Entry) × (ranked_model_backends models model excluded
        ≡ backends_of entries)
      × Perm (entries ++ removed) pool
      × All (λ e. ¬ IsIn e.0 excluded) entries
      × All (λ e. IsIn e.0 excluded) removed
      × IsRanked entries
unfolding ranked_model_backends
ranked_model_backends_lem models model excluded pool found =
    let allowed = keep (is_allowed excluded) pool in
    let removed = keep (λ e. not (is_allowed excluded e)) pool in
    (
      sorted rank_le allowed,
      removed,
      rw (found, ranked_model_backends),
      Perm.trans (Perm.append_right removed (sorted-perm rank_le allowed))
          (keep-perm (is_allowed excluded) pool),
      sorted-All rank_le (λ e. ¬ IsIn e.0 excluded) allowed
          (All-map (λ e. is_allowed excluded e ≡ true) (λ e. ¬ IsIn e.0 excluded) allowed
            (λ (b, w) h. is_absent b excluded (ground arith))
            (keep-All (is_allowed excluded) pool)),
      All-map (λ e. not (is_allowed excluded e) ≡ true) (λ e. IsIn e.0 excluded) removed
          (λ (b, w) h. is_in b excluded (ground arith))
          (keep-All (λ e. not (is_allowed excluded e)) pool),
      sorted-IsRanked (sorted rank_le allowed)
          (sorted-IsSorted rank_le rank_le_total rank_le_trans allowed),
    )
