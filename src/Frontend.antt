-- ===== src/Frontend.antt =====
-- The web client's core, frontend/src/app/core: its session, its interceptors and its stores.
pub mod Session
pub mod Network
pub mod SingleFlight
pub mod SignOut
pub mod Interceptors
pub mod RecentlyViewed
mod Tests
