-- ===== src/Routing.antt =====
-- starlette/routing.py
pub mod Path
pub mod Scope
pub mod Routes
pub mod Matches
pub mod Dispatch
pub mod Reverse
pub mod Lifespan
mod Tests
