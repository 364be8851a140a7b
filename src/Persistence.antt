-- ===== src/Persistence.antt =====
-- src/LibForumPersistence: the files of event blobs.
pub mod Blobs
pub mod Payload
pub mod Events
mod Tests
