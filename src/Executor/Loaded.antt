-- ===== src/Executor/Loaded.antt =====
-- A table that `get_or_load_table_runtime` of src/runtime.c loads agrees with its file.
use bptree_sql_engine.Prelude.{
  ℕ, ◌≡◌, refl, sym, ap, ◌∙◌, subst, false, Option, none, some, List, arith, Bytes, length, All,
  Result, ok, err,
}
use bptree_sql_engine.Bptree.Node.{Tree}
use bptree_sql_engine.Storage.Row.{Row}
use bptree_sql_engine.Storage.File.{Disk, write_file}
use bptree_sql_engine.Storage.Table.{data_path, touch, ensure_table_data_file}
use bptree_sql_engine.Storage.TableLaws.{IsRow, write_rows, stored, content_of, bytes_eq_refl}
use bptree_sql_engine.Schema.Load.{TableSchema, schema_find_column_index}
use bptree_sql_engine.Runtime.Index.{IndexError, build_id_index_for_table}
use bptree_sql_engine.Runtime.Context.{
  TableRuntime, RuntimeError, id_name, indexed_table, build_table, load_data, load_table,
}
use bptree_sql_engine.Runtime.Built.{build_id_index-Indexes}
use bptree_sql_engine.Executor.Indexed.{IsIndexed}

pub touch-content :
    (disk : Disk) (path : Bytes) (o : Option Bytes)
    → disk.file path ≡ o
    → (touch disk path o).file path ≡ some (stored o)
unfolding write_file
touch-content disk path none e = rw (bytes_eq_refl path) refl
touch-content disk path (some content) e = e

pub touch-refused :
    (disk : Disk) (path : Bytes) (o : Option Bytes) → (touch disk path o).refused ≡ disk.refused
unfolding write_file
touch-refused disk path none = refl
touch-refused disk path (some content) = refl

abbrev pub Loads : Disk → Bytes → ℕ → List Row → Result RuntimeError TableRuntime → Type 0
Loads disk db_dir i rows (ok table) = IsIndexed table disk db_dir i rows
Loads disk db_dir i rows (err e) = Unit

pub indexed_table-Loads :
    (disk : Disk) (db_dir : Bytes) (schema : TableSchema) (i : ℕ) (rows : List Row)
    → schema_find_column_index schema.columns id_name ≡ some i
    → disk.refused (data_path db_dir schema.table_name) ≡ false
    → disk.file (data_path db_dir schema.table_name) ≡ some (write_rows rows)
    → All (IsRow (length schema.columns)) rows
    → (r : Result IndexError (Tree × ℕ)) → build_id_index_for_table disk db_dir schema i ≡ r
    → Loads disk db_dir i rows (indexed_table schema.table_name schema (some i) r)
indexed_table-Loads disk db_dir schema i rows c e f h (err x) g = tt
indexed_table-Loads disk db_dir schema i rows c e f h (ok (tree, next_id)) g =
    let (indexes, unused, fits, ids, positive) =
      build_id_index-Indexes disk db_dir schema i next_id tree rows e f h g in
    record {
      column = refl;
      ready = refl;
      column_of = c;
      readable = e;
      content = f;
      shapes = h;
      ids = ids;
      index = indexes;
      unused = unused;
      fits = omega (arith, fits);
    }

-- A table with an `id` column that is loaded from a file of rows, or from no file, agrees with the
-- file.
pub load_table-IsIndexed :
    (disk disk' : Disk) (db_dir : Bytes) (schema : TableSchema) (i : ℕ) (rows : List Row)
    (table : TableRuntime)
    → schema_find_column_index schema.columns id_name ≡ some i
    → disk.refused (data_path db_dir schema.table_name) ≡ false
    → content_of disk db_dir schema.table_name ≡ write_rows rows
    → All (IsRow (length schema.columns)) rows
    → load_table disk db_dir schema.table_name (ok schema) ≡ (ok table, disk')
    → IsIndexed table disk' db_dir i rows
unfolding ensure_table_data_file
load_table-IsIndexed disk disk' db_dir schema i rows table c e f h g =
    let path = data_path db_dir schema.table_name in
    let touched = touch disk path (disk.file path) in
    let ensured : ensure_table_data_file disk db_dir schema.table_name ≡ ok touched = rw e refl in
    let run : load_table disk db_dir schema.table_name (ok schema) ≡ (
      indexed_table schema.table_name schema (some i)
          (build_id_index_for_table touched db_dir schema i),
      touched,
    ) =
      ap (load_data disk db_dir schema.table_name schema) ensured
      ∙ ap (λ o. (build_table touched db_dir schema.table_name schema o, touched)) c in
    let loaded =
      indexed_table-Loads touched db_dir schema i rows c
        (ap (λ r. r path) (touch-refused disk path (disk.file path)) ∙ e)
        (touch-content disk path (disk.file path) refl ∙ ap some f) h _ refl in
    subst (λ x. Loads x.1 db_dir i rows x.0) (sym run ∙ g) loaded
