-- ===== src/Credit.antt =====
-- The credit budgets of `src/foundry_router/credit.py`: the cycles of an account, the debits, and
-- `InMemoryCreditStore`. Amounts are whole numbers of a small unit of money, where the code has
-- floats.
pub mod Cycle
pub mod Store
pub mod Groups
