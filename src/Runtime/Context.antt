-- ===== src/Runtime/Context.antt =====
-- `TableRuntime`, `ExecutionContext` and `get_or_load_table_runtime` of src/runtime.c.
--
-- The source hands out a pointer into the array of tables; here it is the position in the list.
use bptree_sql_engine.Prelude.{
  ℕ, zero, Bool, true, false, Option, none, some, List, [], ◌∷◌, ◌++◌, if◌then◌else◌, Bytes, codes,
  length, Result, ok, err,
}
use bptree_sql_engine.Bptree.Node.{Tree}
use bptree_sql_engine.Bptree.Insert.{bptree_init}
use bptree_sql_engine.Storage.File.{Disk, bytes_eq}
use bptree_sql_engine.Storage.Table.{StorageError, ensure_table_data_file}
use bptree_sql_engine.Schema.Load.{
  TableSchema, SchemaError, load_table_schema, schema_find_column_index, next_index,
}
use bptree_sql_engine.Runtime.Index.{IndexError, build_id_index_for_table}

-- `has_id_column` and `id_column_index` are one option.
pub record TableRuntime : Type 0 where
  pub table_name : Bytes
  pub schema : TableSchema
  pub id_column : Option ℕ
  pub id_index_ready : Bool
  pub next_id : ℕ
  pub id_index : Tree

pub record ExecutionContext : Type 0 where
  pub db_dir : Bytes
  pub tables : List TableRuntime

-- `init_execution_context`
unfoldable pub init_execution_context : Bytes → ExecutionContext
init_execution_context db_dir = record { db_dir = db_dir; tables = [] }

pub data RuntimeError : Type 0 where
  schema_error : SchemaError → RuntimeError
  storage_error : StorageError → RuntimeError
  index_error : IndexError → RuntimeError

-- The loop over the tables that are loaded.
unfoldable pub find_table : List TableRuntime → Bytes → Option ℕ
find_table [] name = none
find_table (table ∷ tables) name =
    if bytes_eq table.table_name name then some zero else next_index (find_table tables name)

abbrev pub id_name : Bytes
id_name = codes "id"

abbrev pub indexed_table :
    Bytes → TableSchema → Option ℕ → Result IndexError (Tree × ℕ) → Result RuntimeError TableRuntime
indexed_table name schema id_column (err e) = err (index_error e)
indexed_table name schema id_column (ok (tree, next_id)) = ok (record {
  table_name = name;
  schema = schema;
  id_column = id_column;
  id_index_ready = true;
  next_id = next_id;
  id_index = tree;
})

-- A table with no id column has an empty index that is never ready.
abbrev pub build_table :
    Disk → Bytes → Bytes → TableSchema → Option ℕ → Result RuntimeError TableRuntime
build_table disk db_dir name schema none = ok (record {
  table_name = name;
  schema = schema;
  id_column = none;
  id_index_ready = false;
  next_id = 0;
  id_index = bptree_init;
})
build_table disk db_dir name schema (some i) =
    indexed_table name schema (some i) (build_id_index_for_table disk db_dir schema i)

-- Behind the schema: the `.data` file is created if it is missing, and stays also where the index
-- cannot be built.
abbrev pub load_data :
    Disk
    → Bytes
    → Bytes
    → TableSchema
    → Result StorageError Disk
    → Result RuntimeError TableRuntime × Disk
load_data disk db_dir name schema (err e) = (err (storage_error e), disk)
load_data disk db_dir name schema (ok disk') =
    (build_table disk' db_dir name schema (schema_find_column_index schema.columns id_name), disk')

abbrev pub load_table :
    Disk → Bytes → Bytes → Result SchemaError TableSchema → Result RuntimeError TableRuntime × Disk
load_table disk db_dir name (err e) = (err (schema_error e), disk)
load_table disk db_dir name (ok schema) =
    load_data disk db_dir name schema (ensure_table_data_file disk db_dir name)

abbrev pub add_table :
    ExecutionContext
    → Result RuntimeError TableRuntime × Disk
    → Result RuntimeError ℕ × ExecutionContext × Disk
add_table ctx (err e, disk) = (err e, ctx, disk)
add_table ctx (ok table, disk) =
    (ok (length ctx.tables), record ctx { tables = ctx.tables ++ table ∷ [] }, disk)

abbrev pub found_or_loaded :
    ExecutionContext → Disk → Bytes → Option ℕ → Result RuntimeError ℕ × ExecutionContext × Disk
found_or_loaded ctx disk name (some i) = (ok i, ctx, disk)
found_or_loaded ctx disk name none =
    add_table ctx (load_table disk ctx.db_dir name (load_table_schema disk ctx.db_dir name))

unfoldable pub get_or_load_table_runtime :
    ExecutionContext → Disk → Bytes → Result RuntimeError ℕ × ExecutionContext × Disk
get_or_load_table_runtime ctx disk name = found_or_loaded ctx disk name (find_table ctx.tables name)
