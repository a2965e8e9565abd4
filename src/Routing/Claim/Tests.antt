-- ===== src/Routing/Claim/Tests.antt =====
-- A run of the claims of `src/foundry_router/routing/__init__.py` on three candidates: the quota of
-- the first is used up, the combination of the second is not admitted, and the third is selected.
use foundry_router.Base.{
  ℕ, ◌+◌, ◌≡◌, refl, Bool, true, false, Option, none, some, [], ◌∷◌, ◌==◌, nat_eq, if◌then◌else◌,
}
use foundry_router.Routing.Claim.{
  Answer, gives, done, Stores, Selection, selected, claim_candidates, claim_credit, claim_quota,
  claim_combination, on_return, on_reserved, return_claims, return_quota, log_selected,
  end_selection, expired, protected_cleanup, late_cleanup,
}
use foundry_router.Routing.Claim.Balance.{Held, nothing}
use foundry_router.Routing.Claim.Failure.{EndExplained}
use foundry_router.Routing.Claim.Late.{Ends}
use foundry_router.Routing.Claim.Ledger.{
  noting, with_flag, has_failed, flag_keeps, ledger, ledger_keeps, end_selection-Ends,
}

abbrev reserve_unless_used_up : ℕ → ℕ → Bool → Held → Answer Bool × Held
reserve_unless_used_up a g over s =
    if g == 7 then (gives false, s) else (gives true, record s { quota = some a })

abbrev admit_unless_excluded : ℕ → Bool → Held → Answer (Option ℕ) × Held
admit_unless_excluded b probe s =
    if b == 2 then (gives none, s) else (gives (some 40), record s { ticket = some 40 })

-- Stores whose state is what the request holds.
abbrev stores : Stores Held
stores = record {
  try_assign = λ b s. (gives true, record s { credit = true });
  finalize_credit = λ b s. (gives done, record s { credit = false });
  try_reserve = reserve_unless_used_up;
  release_quota = λ a s. (gives done, record s { quota = none });
  admit_combination = admit_unless_excluded;
  release_ticket = λ k s. (gives done, record s { ticket = none });
}

abbrev three : Selection
three = record {
  credit_metered = λ b. true;
  quota_group = λ b. b + 6;
  is_limited = λ b. true;
  has_rate_limits = true;
  has_exclusion = true;
  protected_fallback = false;
  is_probe = false;
  attempt_id = λ n. n + 1000;
  is_expired = λ i. false;
  is_logged = λ b. true;
}

claims_of_three :
    claim_candidates stores three (1 ∷ 2 ∷ 3 ∷ []) 0 0 false nothing
    ≡ (selected 3 (some 40) 1002, record { credit = true; quota = some 1002; ticket = some 40 })
unfolding claim_candidates claim_credit claim_quota claim_combination on_return on_reserved
    return_claims return_quota log_selected
claims_of_three = refl

-- After the deadline the one that was selected is given back.
late_claims_of_three :
    end_selection stores three 900 true
      (claim_candidates stores three (1 ∷ 2 ∷ 3 ∷ []) 0 0 false nothing)
    ≡ ((expired, true), nothing)
unfolding claim_candidates claim_credit claim_quota claim_combination on_return on_reserved
    return_claims return_quota log_selected end_selection protected_cleanup late_cleanup
late_claims_of_three = refl

end_selection-Ends_example :
    let start : (Held × Bool) × Held = ((nothing, false), nothing) in
    let end =
      end_selection
        (noting stores)
        three
        900
        true
        (claim_candidates (noting stores) three (1 ∷ 2 ∷ 3 ∷ []) 0 0 false start) in
    Ends (noting stores) ledger (ledger_keeps (with_flag stores)) three end
    × EndExplained (noting stores) has_failed (flag_keeps stores) three end
end_selection-Ends_example = end_selection-Ends stores three (1 ∷ 2 ∷ 3 ∷ []) 900 true false nothing
