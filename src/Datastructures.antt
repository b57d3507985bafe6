-- ===== src/Datastructures.antt =====
-- starlette/datastructures.py
pub mod Headers
pub mod MultiDict
pub mod Url
pub mod State
mod Tests
