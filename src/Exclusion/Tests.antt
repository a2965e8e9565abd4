-- ===== src/Exclusion/Tests.antt =====
-- Runs of `src/foundry_router/routing/exclusion.py` on one combination.
use foundry_router.Base.{
  ℕ, ◌≡◌, refl, true, false, Option, none, some, List, [], ◌∷◌, All, arith, nat_eq,
}
use foundry_router.Base.Int.{pos}
use foundry_router.Base.Dict.{lookup, insert}
use foundry_router.Exclusion.{
  Key, key_eq, CombinationRecord, AdmissionTicket, Store, is_some, ticket, admit, release,
  record_attempt, reset, refresh, expire, settle, attempt_on, attempt_found, Transition, entered,
  classify_exclusion_event, int,
}
use foundry_router.Exclusion.Phase.{elapse, on_outcome}
use foundry_router.Exclusion.Refinement.{IsValid, phase_at, is_ignored, record_attempt-refines}
use foundry_router.Exclusion.Calls.{Reach, here, next, attempts, empty, Reach-IsValid}
use foundry_router.Exclusion.Filter.{filter_candidates, combination}
use foundry_router.Exclusion.Filter.Agreement.{is_admitted, filter_candidates-admitted}
use foundry_router.Exclusion.Fencing.{
  Request, ask, probe_exclusive, older_ticket_ignored, reset_ticket_ignored,
}

abbrev chat : Key
chat = record { backend_id = 1; operation = 2; stream_mode = false }

abbrev failed : ℕ → Store → Option Transition × Store
failed now s = record_attempt now now chat false true none s

abbrev failed_twice : Store
failed_twice = (failed 20 (failed 10 empty).1).1

not_found : classify_exclusion_event (int (pos 404)) false false ≡ true
unfolding classify_exclusion_event
not_found = refl

too_many : classify_exclusion_event (int (pos 429)) true false ≡ false
unfolding classify_exclusion_event
too_many = refl

two_are_counted : (failed 20 (failed 10 empty).1).0 ≡ none
unfolding record_attempt refresh attempt_found attempt_on settle expire lookup insert
two_are_counted = refl

third_excludes : (failed 30 failed_twice).0 ≡ some entered
unfolding record_attempt refresh attempt_found attempt_on settle expire lookup insert
third_excludes = refl

abbrev reach_twice : Reach empty failed_twice
reach_twice =
    next (next here (attempts 10 10 chat false true none)) (attempts 20 20 chat false true none)

Reach-IsValid_example : IsValid failed_twice
Reach-IsValid_example =
    Reach-IsValid
      (next (next here (attempts 10 10 chat false true none)) (attempts 20 20 chat false true none))

record_attempt-refines_example :
    let p = elapse 30 (phase_at failed_twice chat) in
    let q = on_outcome 30 false true p in
    let out = failed 30 failed_twice in
    (is_ignored 30 chat none (refresh 30 chat failed_twice) ≡ true
      → (out.0 ≡ none) × (phase_at out.1 chat ≡ p))
    × (is_ignored 30 chat none (refresh 30 chat failed_twice) ≡ false
        → (out.0 ≡ q.0) × (phase_at out.1 chat ≡ q.1))
record_attempt-refines_example =
    record_attempt-refines 30 30 chat false true none failed_twice (Reach-IsValid reach_twice)

abbrev shut_record : CombinationRecord
shut_record = record {
  count = 3;
  excluded_until_monotonic = 1000;
  excluded_since_monotonic = 30;
  excluded_until_wall = 1000;
  generation = 1;
  probe_token = none;
}

abbrev shut_store : Store
shut_store = record { records = (chat, shut_record) ∷ []; epoch = 4 }

-- Two requests while the probe is out.
abbrev two_requests : List Request
two_requests =
    record { now = 200; token = 52; probe = false }
    ∷ record { now = 250; token = 54; probe = true }
    ∷ []

probe_exclusive_example :
    let claimed = admit 100 51 chat true shut_store in
    let asked = ask chat two_requests claimed.1 in
    (claimed.0 ≡ some (ticket chat shut_store 1 (some 51)))
    × All (λ got. got ≡ none) asked.0
    × ((admit 300 53 chat true (release claimed.0 asked.1)).0
        ≡ some (ticket chat shut_store 1 (some 53)))
unfolding lookup
probe_exclusive_example =
    probe_exclusive 100 300 51 53 chat two_requests shut_record shut_store (refl, omega arith) refl
      (omega arith, (omega arith, tt)) (omega arith)

abbrev old_ticket : AdmissionTicket
old_ticket = record { key = chat; epoch = 0; generation = 0; probe_token = none }

older_ticket_ignored_example :
    let s' = (failed 30 failed_twice).1 in
    record_attempt 40 40 chat true false (some old_ticket) s' ≡ (none, refresh 40 chat s')
unfolding record_attempt refresh attempt_found attempt_on settle expire lookup insert
older_ticket_ignored_example =
    older_ticket_ignored 30 30 40 40 chat false true true false none old_ticket failed_twice refl
      (omega arith)

reset_ticket_ignored_example :
    record_attempt 40 40 chat true false (some old_ticket) (reset shut_store)
    ≡ (none, reset shut_store)
reset_ticket_ignored_example =
    reset_ticket_ignored 40 40 chat true false old_ticket shut_store (omega arith)

filter_candidates-admitted_example :
    let (found, s') = filter_candidates 100 (1 ∷ []) 2 false shut_store in
    All
      (λ b. is_admitted 100 51 (combination b 2 false) (is_some found.probe_backend_id) s' ≡ true)
      found.eligible
filter_candidates-admitted_example = filter_candidates-admitted 100 51 2 (1 ∷ []) false shut_store
