-- ===== src/Protocol/RoundTrip.antt =====
-- The parsers of protocol.cpp read back what its `make_*` functions write.
pub mod Words
mod Requests
pub mod Feedback
pub use Requests.*
