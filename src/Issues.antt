-- ===== src/Issues.antt =====
-- internal/issues: labels, milestones, reactions and attachments, kept the same on every node.
pub mod Merge
pub mod Items
pub mod Reactions
pub mod Attachments
pub mod Deleted
