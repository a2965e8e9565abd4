-- ===== src/Lib.antt =====
-- Foundry Router: an HTTP router in front of several providers of language models. For each
-- request it picks a backend, and it gives up a backend that is over its quota or that fails.
--
-- The parts that decide this keep their state in memory or in a table, behind one lock each, and
-- the code holds the lock for the whole body of a method. So each method is here a function from a
-- state and its arguments to a result and a new state, and a history of calls is a sequence of
-- steps. Clocks, random tokens, the time zone, the answers of the table and the settings are
-- arguments. Times are whole nanoseconds, where the code has floats; identifiers are numbers, in
-- the order of the strings, and 0 is "".
--
-- - `RateLimit`: `InMemoryRateLimitStore` of `src/foundry_router/ratelimit.py`. `RateLimit` has the
--   state, the deque of a group's usage (`prune_usage`), releases and the sweep of expired
--   reservations; `Admission` has `try_reserve_estimate`, `record_estimate`, `finalize_request` and
--   `reset`; `Snapshot` has `snapshot_quota_groups`; `Limit` has the share of a replica. A record of
--   usage has the identity of its Python object, through which `finalize_request` writes into a
--   deque. `History` has sequences of calls.
-- - `SharedQuota`: `AzureTableRateLimitStore` of `src/foundry_router/state/quota.py`, the quota that
--   all replicas share. `SharedQuota` has the state that a row of the table holds and what one round
--   of each operation makes of it; `Calls` has the calls with their loops, where the answers of the
--   table and the times of the rounds are an argument, and `Calls.Sync` the synchronization from the
--   settings; `Changes` and `Replicas` have any number of replicas on one row, with reads and
--   conditional writes in any order. A row is the state that its JSON text parses to.
-- - `Exclusion`: `CombinationExclusionStore` of `src/foundry_router/routing/exclusion.py`.
--   `Exclusion` has the records and the calls `admit`, `release`, `record_attempt` and `reset`;
--   `Filter` has `filter_candidates`; `Phase` has the abstract automaton; `Calls` has the step
--   relation of all calls in any order.
-- - `Health`: `InMemoryHealthStore` of `src/foundry_router/health/__init__.py` and the response when
--   every candidate is in cooldown.
-- - `Credit`: `src/foundry_router/credit.py`. `Cycle` has `calculate_cycle_window`, with the
--   arithmetic of dates as an argument; `Store` has the reservations, settlements, sweeps and
--   assessments of `InMemoryCreditStore` on whole amounts, where the code has floats: no sum or
--   difference is rounded, and the safety reserve and a day's part of the spending are rounded down.
--   `Store.Sync` has the synchronization from the settings with the membership of groups,
--   `Store.Live` assessments, cost ceilings and live snapshots, `Store.Spending` what a settlement
--   does to an account, `Groups` the reconciled amounts of `src/foundry_router/credit_groups.py`.
-- - `Routing`: `src/foundry_router/routing/__init__.py`. `Rank` has the order of a pool's backends,
--   `Quota` has `quota_can_fit`, `Eligible` has the candidates that health and quota leave with the
--   emergency fallback, `Claim` has the loop of `select_candidate_backend` that claims credit, quota
--   and combination of one candidate after the other, on an interface of the three stores, whatever
--   they answer, and gives claims back with `protected_cleanup` of `src/foundry_router/cleanup.py`.
-- - `Aliases`: `src/foundry_router/config/model_aliases.py`, the validation of entries and the
--   resolution of a name.
-- - `Base`: Boolean tests, lists, dictionaries in insertion order and stable sorting.
--
-- Routing calls `filter_candidates` and the snapshots to choose a backend, then `admit` and
-- `try_reserve_estimate` to claim it, then `finalize_request` or `release_request` and
-- `record_attempt` with the outcome. The loops of the code run over a list, or as in
-- `SharedQuota.Calls` for at most eight rounds, which the code fixes.
--
-- Not modelled: the stores of credit and of health in a table, the table service, the scores of
-- candidates, that a task is cancelled while it waits for a store, the cleanup that follows a
-- TimeoutError of a store, the translation of requests and all input and output.
pub mod Base
pub mod RateLimit
pub mod SharedQuota
pub mod Exclusion
pub mod Credit
pub mod Aliases
pub mod Health
pub mod Routing
