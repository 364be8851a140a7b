-- ===== src/Helpers.antt =====
-- src/LibForumHelpers: identifiers, addresses and the circular buffer.
pub mod Uuid
pub mod IpAddress
pub mod CircularBuffer
mod Tests
