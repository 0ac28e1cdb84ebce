-- ===== src/Folders.antt =====
-- worker/folder_mapping: which folders hold sent mail and drafts (Aliases), and which are dropped
-- from a path (Collapse).
pub mod Aliases
pub mod Collapse
pub mod Mapper
