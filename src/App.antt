-- ===== src/App.antt =====
-- src/main.c: the state of the interactive program and what a key does to it, one frame at a time.
pub mod State
pub mod Rows
pub mod Actions
pub mod Handlers
pub mod Step
pub mod History
pub mod Valid
pub mod Screens
pub mod Reachable
pub mod Quits
pub mod Lessons
pub mod Signals
pub mod Selection
pub mod Order
