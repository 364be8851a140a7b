-- ===== src/Persistence/Events/Observer.antt =====
-- src/LibForumPersistence/private/EventObserver.cpp, one module for each kind of entity.
pub mod Users
pub mod Threads
pub mod Messages
pub mod Visits
pub mod Tags
pub mod Categories
pub mod Requirements
pub mod Assignments
pub mod Attachments
