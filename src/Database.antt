-- ===== src/Database.antt =====
-- What src/executor.c, src/runtime.c and src/storage.c promise together: tables as lists of rows.
pub mod State
pub mod Tables
pub mod Frame
pub mod Loading
pub mod BuiltTable
pub mod Lookup
pub mod Selection
pub mod Kept
pub mod Values
pub mod Insertion
pub mod Change
pub mod Open
pub mod PlainInsert
pub mod NextId
pub mod GeneratedInsert
pub mod Refinement
pub mod Progress
pub mod Deterministic
pub mod Independent
pub mod Examples
