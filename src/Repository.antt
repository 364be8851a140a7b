-- ===== src/Repository.antt =====
-- src/LibForumData/private: the repositories. Collection has the entities, Common what the operations share.
-- Changes, ForumChanges and Grants are the changes of the collection; Required, ForumRequired and Assigned
-- the operations with their rules. Import has what the importer calls; the other modules follow runs.
pub mod Collection
pub mod Common
pub mod Changes
pub mod ForumChanges
pub mod Grants
pub mod Required
pub mod ForumRequired
pub mod Assigned
pub mod Import
pub mod Outcome
pub mod Operations
pub mod Recovery
pub mod Restart
mod Tests
