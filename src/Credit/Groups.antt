-- ===== src/Credit/Groups.antt =====
-- `normalize_reconciliation` of `src/foundry_router/credit_groups.py`, and what it and
-- `credit_membership` say of a group. An amount that is no number, not finite or negative is none.
mod Tests
use foundry_router.Base.{
  ℕ, ◌≡◌, arith, refl, sym, ap, ◌∙◌, Bool, true, false, not, ◌&&◌, ◌||◌, Option, none, some, List,
  [], ◌∷◌, all, All, ◌==◌, nat_eq, nat_beq_iff, if◌then◌else◌, Bool-cases, Option-cases, inl, inr,
}
use mathlib.Core.Option.{some-injective}
use mathlib.Core.Path.{subst}
use foundry_router.Base.Dict.{Dict, lookup, insert, lookup-insert}
use foundry_router.Credit.Store.{resolve_credit_group}
use foundry_router.Credit.Store.Sync.{
  BackendConfig, is_canonical, is_mixed, group_or, membership_loop, credit_membership,
}

-- `group in normalized and normalized[group] != value`
abbrev pub is_conflict : Option ℕ → ℕ → Bool
is_conflict none value = false
is_conflict (some v) value = not (v == value)

-- The loop over the amounts, with the amounts of groups so far; none is a ValueError.
pub normalize_loop : Dict ℕ ℕ → Dict ℕ (Option ℕ) → Dict ℕ ℕ → Option (Dict ℕ ℕ)
normalize_loop aliases [] normalized = some normalized
normalize_loop aliases ((id, none) ∷ amounts) normalized = normalize_loop aliases amounts normalized
normalize_loop aliases ((id, some value) ∷ amounts) normalized =
    let g = resolve_credit_group aliases id in
    let rest = normalize_loop aliases amounts (insert g value normalized) in
    if is_conflict (lookup g normalized) value then none else rest

pub normalize_reconciliation : Dict ℕ ℕ → Dict ℕ (Option ℕ) → Option (Dict ℕ ℕ)
normalize_reconciliation aliases amounts = normalize_loop aliases amounts []

-- Inserting a value without a conflict changes no entry.
insert-keeps :
    (g h value v : ℕ) (n : Dict ℕ ℕ)
    → is_conflict (lookup g n) value ≡ false
    → lookup h n ≡ some v
    → lookup h (insert g value n) ≡ some v
insert-keeps g h value v n fits e = lookup-insert g h value n ∙ elim (Bool-cases (g == h)) [
  | inr other ↦ rw other e
  | inl same ↦ rw same (ap some (agrees same))
]
  where
    agrees : g == h ≡ true → value ≡ v
    agrees same =
        let at_g : lookup g n ≡ some v = ap (λ k. lookup k n) ((nat_beq_iff g h).0 same) ∙ e in
        let fits' : is_conflict (some v) value ≡ false =
          sym (ap (λ o. is_conflict o value) at_g) ∙ fits in
        ground (arith, nat_beq_iff v value)

normalize_loop-keeps :
    (aliases : Dict ℕ ℕ) (amounts : Dict ℕ (Option ℕ)) (n d : Dict ℕ ℕ) (h v : ℕ)
    → normalize_loop aliases amounts n ≡ some d
    → lookup h n ≡ some v
    → lookup h d ≡ some v
unfolding normalize_loop
normalize_loop-keeps aliases [] n d h v e at_n = ap (lookup h) (sym (some-injective n d e)) ∙ at_n
normalize_loop-keeps aliases ((id, none) ∷ amounts) n d h v e at_n =
    normalize_loop-keeps aliases amounts n d h v e at_n
normalize_loop-keeps aliases ((id, some value) ∷ amounts) n d h v e at_n =
    let g = resolve_credit_group aliases id in
    elim (Bool-cases (is_conflict (lookup g n) value)) [
      | inl bad ↦ absurd (no_result (rw (bad, normalize_loop) at e))
      | inr fits ↦
          normalize_loop-keeps aliases amounts (insert g value n) d h v
            (rw (fits, normalize_loop) at e) (insert-keeps g h value v n fits at_n)
    ]
  where
    no_result : ◌≡◌ {A = Option (Dict ℕ ℕ)} none (some d) → ⊥
    no_result e = cc

-- An amount is that of its group.
abbrev pub Agrees : Dict ℕ ℕ → Dict ℕ ℕ → ℕ × Option ℕ → Type 0
Agrees aliases d (id, none) = Unit
Agrees aliases d (id, some value) = lookup (resolve_credit_group aliases id) d ≡ some value

normalize_loop-Agrees :
    (aliases : Dict ℕ ℕ) (amounts : Dict ℕ (Option ℕ)) (n d : Dict ℕ ℕ)
    → normalize_loop aliases amounts n ≡ some d
    → All (Agrees aliases d) amounts
unfolding normalize_loop
normalize_loop-Agrees aliases [] n d e = tt
normalize_loop-Agrees aliases ((id, none) ∷ amounts) n d e =
    (tt, normalize_loop-Agrees aliases amounts n d e)
normalize_loop-Agrees aliases ((id, some value) ∷ amounts) n d e =
    let g = resolve_credit_group aliases id in
    elim (Bool-cases (is_conflict (lookup g n) value)) [
      | inl bad ↦ absurd (no_result (rw (bad, normalize_loop) at e))
      | inr fits ↦
          let rest : normalize_loop aliases amounts (insert g value n) ≡ some d =
            rw (fits, normalize_loop) at e in
          (
            normalize_loop-keeps aliases amounts (insert g value n) d g value rest
                (ground (arith, lookup-insert g g value n, nat_beq_iff g g)),
            normalize_loop-Agrees aliases amounts (insert g value n) d rest,
          )
    ]
  where
    no_result : ◌≡◌ {A = Option (Dict ℕ ℕ)} none (some d) → ⊥
    no_result e = cc

-- If the amounts are accepted, every one that is valid is the amount of its group in the result.
pub normalize_reconciliation-Agrees :
    (aliases : Dict ℕ ℕ) (amounts : Dict ℕ (Option ℕ)) (d : Dict ℕ ℕ)
    → normalize_reconciliation aliases amounts ≡ some d
    → All (Agrees aliases d) amounts
unfolding normalize_reconciliation
normalize_reconciliation-Agrees aliases amounts d e = normalize_loop-Agrees aliases amounts [] d e

membership_loop-canonical :
    (is_safe : ℕ → Bool) (bs : Dict ℕ BackendConfig) (aliases d : Dict ℕ ℕ) (metering : Dict ℕ Bool)
    → membership_loop is_safe bs aliases metering ≡ some d
    → all (is_canonical d) d ≡ true
unfolding membership_loop
membership_loop-canonical is_safe [] aliases d metering e =
    elim (Bool-cases (all (is_canonical aliases) aliases)) [
      | inr bad ↦ absurd (no_result (rw (bad, membership_loop) at e))
      | inl good ↦
          subst (λ x. all (is_canonical x) x ≡ true)
            (some-injective aliases d (rw (good, membership_loop) at e)) good
    ]
  where
    no_result : ◌≡◌ {A = Option (Dict ℕ ℕ)} none (some d) → ⊥
    no_result e = cc
membership_loop-canonical is_safe ((b, c) ∷ bs) aliases d metering e =
    let g = group_or b c.credit_group in
    elim (Bool-cases (not (is_safe g) || is_mixed (lookup g metering) c.credit_metered)) [
      | inl bad ↦ absurd (no_result (rw (bad, membership_loop) at e))
      | inr good ↦
          membership_loop-canonical is_safe bs (insert b g aliases) d
            (insert g c.credit_metered metering) (rw (good, membership_loop) at e)
    ]
  where
    no_result : ◌≡◌ {A = Option (Dict ℕ ℕ)} none (some d) → ⊥
    no_result e = cc

-- What is tested of all entries holds of the one that is found.
all-lookup :
    (d : Dict ℕ ℕ) (f : ℕ × ℕ → Bool) (b g : ℕ)
    → all f d ≡ true
    → lookup b d ≡ some g
    → f (b, g) ≡ true
unfolding lookup
all-lookup [] f b g h e = cc
all-lookup ((k, v) ∷ d) f b g h e = elim (Bool-cases (k == b)) [
  | inl same ↦
      ap f (found same (some-injective v g (rw (same, lookup) at e)))
      ∙ (both (f (k, v)) (all f d) h).0
  | inr other ↦ all-lookup d f b g (both (f (k, v)) (all f d) h).1 (rw (other, lookup) at e)
]
  where
    found : k == b ≡ true → v ≡ g → ◌≡◌ {A = ℕ × ℕ} (b, g) (k, v)
    found same x = let key : k ≡ b = (nat_beq_iff k b).0 same in cc

    both : (x y : Bool) → x && y ≡ true → (x ≡ true) × (y ≡ true)
    both x y h = ground arith

-- Of a membership that is accepted, the group of an identifier is its own group, so that resolving
-- once is enough.
pub credit_membership-one_step :
    (is_safe : ℕ → Bool) (backends : Dict ℕ BackendConfig) (aliases : Dict ℕ ℕ) (id : ℕ)
    → credit_membership is_safe backends ≡ some aliases
    → resolve_credit_group aliases (resolve_credit_group aliases id)
      ≡ resolve_credit_group aliases id
unfolding credit_membership resolve_credit_group
credit_membership-one_step is_safe backends aliases id e = elim (Option-cases (lookup id aliases)) [
  | inl x ↦ ap (resolve_credit_group aliases) (alone x)
  | inr (g, x) ↦ ap (resolve_credit_group aliases) (found g x) ∙ own g x ∙ sym (found g x)
]
  where
    alone : lookup id aliases ≡ none → resolve_credit_group aliases id ≡ id
    alone x = rw (x, resolve_credit_group) refl

    found : (g : ℕ) → lookup id aliases ≡ some g → resolve_credit_group aliases id ≡ g
    found g x = rw (x, resolve_credit_group) refl

    own : (g : ℕ) → lookup id aliases ≡ some g → resolve_credit_group aliases g ≡ g
    own g x =
        let fits : is_canonical aliases (id, g) ≡ true =
          all-lookup aliases (is_canonical aliases) id g
            (membership_loop-canonical is_safe backends [] aliases [] e) x in
        elim (Option-cases (lookup g aliases)) [
          | inl y ↦ rw (y, resolve_credit_group) refl
          | inr (h, y) ↦
              rw (y, resolve_credit_group) ((nat_beq_iff h g).0 (rw (y, is_canonical) at fits))
        ]
