-- ===== src/Replication.antt =====
-- internal/replication: copying Git refs from a repository's primary node to its replicas.
pub mod Plan
pub mod Handoff
pub mod Engine
pub mod Git
pub mod Deletion
pub mod Rename
