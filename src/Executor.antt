-- ===== src/Executor.antt =====
-- native/runtime/task_executor.cpp: the executor of joined range groups.
pub mod Partition
pub mod Examples
