-- ===== src/Schema/Load.antt =====
-- `load_table_schema` and `schema_find_column_index` of src/schema.c.
use bptree_sql_engine.Prelude.{
  ℕ, zero, suc, Bool, true, false, ◌||◌, Option, none, some, List, [], ◌∷◌, ◌++◌, if◌then◌else◌,
  Bytes, codes, length, Result, ok, err, ◌>>=◌,
}
use bptree_sql_engine.Storage.File.{Disk, bytes_eq, build_table_path, Stream, read_line}
use bptree_sql_engine.Schema.Trim.{trim_in_place}

pub record TableSchema : Type 0 where
  pub table_name : Bytes
  pub columns : List Bytes

pub data SchemaError : Type 0 where
  table_not_found cannot_open_schema no_columns : SchemaError
  duplicate_column : Bytes → SchemaError

-- The loop that compares a line with the columns before it.
unfoldable pub contains : List Bytes → Bytes → Bool
contains [] line = false
contains (column ∷ columns) line = bytes_eq column line || contains columns line

-- The `while (1)` over the lines. A line takes at least one byte of the file, so fuel above the
-- number of bytes is not used up.
unfoldable pub read_columns : ℕ → Stream → List Bytes → Result SchemaError (List Bytes)
read_columns zero stream columns = ok columns
read_columns (suc fuel) stream columns = elim (read_line stream) [
  | none ↦ ok columns
  | some (text, stream') ↦ elim (trim_in_place text) [
    | [] ↦ read_columns fuel stream' columns
    | c ∷ cs ↦ elim (contains columns (c ∷ cs)) [
      | true ↦ err (duplicate_column (c ∷ cs))
      | false ↦ read_columns fuel stream' (columns ++ (c ∷ cs) ∷ [])
    ]
  ]
]

abbrev pub checked_schema : Bytes → List Bytes → Result SchemaError TableSchema
checked_schema table_name [] = err no_columns
checked_schema table_name (column ∷ columns) =
    ok (record { table_name = table_name; columns = column ∷ columns })

abbrev pub schema_of : Bytes → Option Bytes → Result SchemaError TableSchema
schema_of table_name none = err table_not_found
schema_of table_name (some content) = do
  columns ← read_columns (suc (length content)) (record { position = 0; rest = content }) []
  checked_schema table_name columns

abbrev pub schema_path : Bytes → Bytes → Bytes
schema_path db_dir table_name = build_table_path db_dir table_name (codes ".schema")

unfoldable pub load_table_schema : Disk → Bytes → Bytes → Result SchemaError TableSchema
load_table_schema disk db_dir table_name =
    let path = schema_path db_dir table_name in
    if disk.refused path then err cannot_open_schema else schema_of table_name (disk.file path)

abbrev pub next_index : Option ℕ → Option ℕ
next_index none = none
next_index (some i) = some (suc i)

-- `none` is -1.
unfoldable pub schema_find_column_index : List Bytes → Bytes → Option ℕ
schema_find_column_index [] name = none
schema_find_column_index (column ∷ columns) name =
    if bytes_eq column name then some zero else next_index (schema_find_column_index columns name)
