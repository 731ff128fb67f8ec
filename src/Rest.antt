-- ===== src/Rest.antt =====
-- The services behind the REST routes: documents (src/modules/uml-domain) and projects
-- (src/modules/projects).
pub mod Replies
pub mod Documents
pub mod Projects
mod Tests
