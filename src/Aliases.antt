-- ===== src/Aliases.antt =====
-- The model aliases of `src/foundry_router/config/model_aliases.py`: the validation of parsed
-- entries and the resolution of a name. A name is a number in the order of the strings; the test of
-- a single token is an argument.
pub mod Resolution
mod Tests
use foundry_router.Base.{
  ℕ, Bool, true, false, not, ◌||◌, ◌&&◌, Option, none, some, List, [], ◌∷◌, ◌++◌, any, keep, ltb,
  ◌==◌, nat_eq, if◌then◌else◌,
}
use foundry_router.Base.Dict.{Dict, lookup, insert}
use foundry_router.Base.Sort.{sorted}

pub data AliasError : Type 0 where
  bad_token collides self_reference chained unknown_target : AliasError

pub data Checked : Type 0 where
  valid : Dict ℕ ℕ → Checked
  invalid : AliasError → Checked

abbrev pub is_canonical : List ℕ → ℕ → Bool
is_canonical canonical name = any (λ c. c == name) canonical

abbrev pub is_alias_of : Dict ℕ ℕ → ℕ → Bool
is_alias_of aliases name = elim (lookup name aliases) [ none ↦ false | some t ↦ true ]

-- The first error of the loop over the entries, if there is one; `is_token` is the test that
-- `_validate_alias_token` makes.
pub entry_error : (ℕ → Bool) → List ℕ → Dict ℕ ℕ → Option AliasError
entry_error is_token canonical [] = none
entry_error is_token canonical ((alias, target) ∷ d) =
    let rest = entry_error is_token canonical d in
    if not (is_token alias) || not (is_token target)
    then some bad_token
    else (if is_canonical canonical alias
        then some collides
        else (if alias == target then some self_reference else rest))

-- The first error of the loop over the targets.
pub target_error : List ℕ → Dict ℕ ℕ → Dict ℕ ℕ → Option AliasError
target_error canonical aliases [] = none
target_error canonical aliases ((alias, target) ∷ d) =
    let rest = target_error canonical aliases d in
    if is_alias_of aliases target
    then some chained
    else (if not (is_canonical canonical target) then some unknown_target else rest)

-- `_validate_alias_entries`, on entries with different aliases, of strings.
pub validate_alias_entries : (ℕ → Bool) → List ℕ → Dict ℕ ℕ → Checked
validate_alias_entries is_token canonical value = elim (entry_error is_token canonical value) [
  | some e ↦ invalid e
  | none ↦ elim (target_error canonical value value) [ some e ↦ invalid e | none ↦ valid value ]
]

pub record ModelAliasResolution : Type 0 where
  pub requested_model : ℕ
  pub resolved_model : ℕ
  pub is_alias : Bool

pub resolve_model_alias : ℕ → Dict ℕ ℕ → ModelAliasResolution
resolve_model_alias requested aliases = elim (lookup requested aliases) [
  | none ↦ record { requested_model = requested; resolved_model = requested; is_alias = false }
  | some target ↦ record { requested_model = requested; resolved_model = target; is_alias = true }
]
