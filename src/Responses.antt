-- ===== src/Responses.antt =====
-- starlette/responses.py: the headers of a response, byte ranges, and the sending of a file.
pub mod Range
pub mod Chunks
pub mod Multipart
pub mod Headers
pub mod File
pub mod Sending
pub mod Cookies
mod Tests
