-- ===== src/Health.antt =====
-- The health of the backends, `src/foundry_router/health/__init__.py`: `InMemoryHealthStore` and
-- the response when every candidate is in cooldown. Each method holds the store's lock for its
-- whole body. Times are whole nanoseconds.
pub mod Store
pub mod Response
pub mod Report
pub mod Retry
pub mod Status
pub mod Calls
mod Tests
