-- ===== src/Credit/Groups/Tests.antt =====
-- Membership and amounts of `src/foundry_router/credit_groups.py` on two backends of one group.
use foundry_router.Base.{ℕ, ◌≡◌, refl, true, Option, none, some, [], ◌∷◌, All, nat_eq}
use foundry_router.Base.Dict.{Dict, lookup, insert}
use foundry_router.Credit.Store.{resolve_credit_group}
use foundry_router.Credit.Store.Sync.{BackendConfig, credit_membership, membership_loop}
use foundry_router.Credit.Groups.{
  normalize_reconciliation, normalize_loop, Agrees, normalize_reconciliation-Agrees,
  credit_membership-one_step,
}

abbrev backends : Dict ℕ BackendConfig
backends =
    (3, record { credit_group = some 7; credit_metered = true })
    ∷ (4, record { credit_group = some 7; credit_metered = true })
    ∷ []

abbrev aliases : Dict ℕ ℕ
aliases = (3, 7) ∷ (4, 7) ∷ []

abbrev amounts : Dict ℕ (Option ℕ)
amounts = (3, some 50) ∷ (9, none) ∷ (4, some 50) ∷ []

conflict : normalize_reconciliation aliases ((3, some 50) ∷ (4, some 60) ∷ []) ≡ none
unfolding normalize_reconciliation normalize_loop resolve_credit_group lookup insert
conflict = refl

accepted : normalize_reconciliation aliases amounts ≡ some ((7, 50) ∷ [])
unfolding normalize_reconciliation normalize_loop resolve_credit_group lookup insert
accepted = refl

normalize_reconciliation-Agrees_example : All (Agrees aliases ((7, 50) ∷ [])) amounts
normalize_reconciliation-Agrees_example =
    normalize_reconciliation-Agrees aliases amounts ((7, 50) ∷ []) accepted

membership : credit_membership (λ g. true) backends ≡ some aliases
unfolding credit_membership membership_loop lookup insert
membership = refl

credit_membership-one_step_example :
    resolve_credit_group aliases (resolve_credit_group aliases 3) ≡ resolve_credit_group aliases 3
credit_membership-one_step_example =
    credit_membership-one_step (λ g. true) backends aliases 3 membership
