-- ===== src/Middleware.antt =====
-- starlette/middleware: the components that stand around an application.
pub mod Cors
pub mod Exceptions
pub mod Gzip
pub mod TrustedHost
pub mod ServerErrors
pub mod Authentication
pub mod Sessions
pub mod Cached
pub mod Base
mod Tests
