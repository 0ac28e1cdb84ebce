-- ===== src/StateDb.antt =====
-- worker/resume: the resume database. The text of the columns, the tables and the engine below them are in Columns, Tables
-- and Engine, the operations of state_db.cpp in Lifecycle, Creation and Queries, the proofs in the
-- others.
pub mod Columns
pub mod Tables
pub mod Engine
pub mod Lifecycle
pub mod Creation
pub mod Queries
pub mod Steps
pub mod Counts
pub mod Known
pub mod Atomic
pub mod Created
pub mod Success
pub mod Resume
pub mod Version
pub mod Resumed
