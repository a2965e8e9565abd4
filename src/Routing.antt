-- ===== src/Routing.antt =====
-- The choice of a backend, `src/foundry_router/routing/__init__.py`.
pub mod Quota
pub mod Rank
pub mod Claim
pub mod Eligible
