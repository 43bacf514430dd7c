-- ===== src/Kernel.antt =====
-- core/smart_core.c: tasks, critical sections, the deadline scheduler, the tick and task creation.
pub mod State
pub mod Critical
pub mod Schedule
pub mod Block
pub mod Wake
pub mod Create
pub mod Info
mod Tests
