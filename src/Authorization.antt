-- ===== src/Authorization.antt =====
-- The authorization of src/LibForumData: privilege values, grants, the checks built on them, and
-- throttling.
pub mod Privileges
pub mod Entities
pub mod Store
pub mod Allowed
pub mod Enumeration
pub mod Restriction
pub mod Throttling
pub mod Enums
pub mod DefaultThrottling
pub mod DefaultAuthorization
pub mod Batch
pub mod Tests
