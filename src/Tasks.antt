-- ===== src/Tasks.antt =====
-- tasks/mod.rs and its children: the phases of a task.
pub mod Info
pub mod Helper
pub mod Voting
pub mod Progress
pub mod GroupTask
pub mod SignTask
pub mod SignPdfTask
pub mod DecryptTask
pub mod Running
pub mod Task
pub mod Restarted
pub mod Updated
