-- ===== src/Executor.antt =====
-- The statements of src/executor.c on the tables of an execution context.
pub mod Insert
pub mod Select
pub mod Execute
pub mod Indexed
pub mod Answers
pub mod Loaded
pub mod Rectangular
pub mod SelectLaws
pub mod RowLaws
pub mod NextId
pub mod InsertLaws
pub mod Session
pub mod Examples
