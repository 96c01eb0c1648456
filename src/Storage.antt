-- ===== src/Storage.antt =====
-- src/storage.c: rows as escaped lines of a `.data` file.
pub mod Field
pub mod Row
pub mod File
pub mod Table
pub mod FieldLaws
pub mod RowLaws
pub mod FileLaws
pub mod TableLaws
pub mod Paths
pub mod ScanLaws
pub mod CarriageReturn
pub mod Examples
