-- ===== src/Schema.antt =====
-- src/schema.c: the columns of a table.
pub mod Trim
pub mod Load
pub mod Laws
pub mod LoadLaws
pub mod Written
pub mod Examples
