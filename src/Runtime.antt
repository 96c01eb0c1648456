-- ===== src/Runtime.antt =====
-- src/runtime.c: the tables that an execution has loaded, with their id indexes.
pub mod Id
pub mod IdLaws
pub mod Index
pub mod Context
pub mod Located
pub mod Built
pub mod NextId
pub mod Complete
pub mod Examples
