-- ===== src/Database/BuiltTable.antt =====
-- The table that src/runtime.c builds from a schema and a file of rows agrees with the file.
use bptree_sql_engine.Prelude.{
  ℕ, ◌≡◌, refl, sym, ap, ◌∙◌, subst, true, false, Option, none, some, List, Bytes, length, All,
  Result, ok, err,
}
use bptree_sql_engine.Bptree.Node.{Tree}
use bptree_sql_engine.Storage.Row.{Row}
use bptree_sql_engine.Storage.File.{Disk}
use bptree_sql_engine.Storage.Table.{data_path}
use bptree_sql_engine.Storage.TableLaws.{IsRow, write_rows}
use bptree_sql_engine.Storage.ScanLaws.{scan-path}
use bptree_sql_engine.Schema.Load.{TableSchema, load_table_schema, schema_find_column_index}
use bptree_sql_engine.Runtime.Index.{
  IndexError, build_id_index_callback, initial_state, built_index, build_id_index_for_table,
}
use bptree_sql_engine.Runtime.Context.{
  TableRuntime, RuntimeError, index_error, id_name, indexed_table, build_table,
}
use bptree_sql_engine.Runtime.NextId.{Follows, built_index-Follows}
use bptree_sql_engine.Executor.Indexed.{IsIndexed}
use bptree_sql_engine.Executor.Loaded.{indexed_table-Loads}
use bptree_sql_engine.Database.State.{CannotIndex, Agrees}

module _ (disk : Disk) (db_dir : Bytes) (schema : TableSchema) (rows : List Row)
    (loaded : load_table_schema disk db_dir schema.table_name ≡ ok schema)
    (readable : disk.refused (data_path db_dir schema.table_name) ≡ false)
    (content : disk.file (data_path db_dir schema.table_name) ≡ some (write_rows rows))
    (shapes : All (IsRow (length schema.columns)) rows) where
  -- What the build of the table of a schema gives.
  abbrev pub Builds : Result RuntimeError TableRuntime → Type 0
  Builds (ok table) =
      (table.table_name ≡ schema.table_name)
      × (table.schema ≡ schema)
      × Agrees disk db_dir rows table
  Builds (err e) =
      (i : ℕ) × (x : IndexError) × (e ≡ index_error x)
      × (schema_find_column_index schema.columns id_name ≡ some i)
      × CannotIndex schema i rows x

  indexed_table-Builds :
      (i : ℕ)
      → schema_find_column_index schema.columns id_name ≡ some i
      → (r : Result IndexError (Tree × ℕ)) → build_id_index_for_table disk db_dir schema i ≡ r
      → Builds (indexed_table schema.table_name schema (some i) r)
  unfolding build_id_index_for_table
  indexed_table-Builds i c (err x) e = (
    i,
    x,
    refl,
    c,
    ap built_index (
          sym (
            scan-path (build_id_index_callback i) (length schema.columns) disk db_dir
              schema.table_name rows initial_state readable content shapes))
        ∙ e,
  )
  indexed_table-Builds i c (ok (tree, next_id)) e =
      let t =
        indexed_table-Loads disk db_dir schema i rows c readable content shapes (ok (tree, next_id))
          e in
      let table : TableRuntime = record {
        table_name = schema.table_name;
        schema = schema;
        id_column = some i;
        id_index_ready = true;
        next_id = next_id;
        id_index = tree;
      } in
      (
        refl,
        refl,
        record {
          loaded = loaded;
          id_column = sym c;
          readable = readable;
          content = content;
          shapes = shapes;
          indexed = λ j f.
              let same : i ≡ j = cc in subst (λ k. IsIndexed table disk db_dir k rows) same t;
          follows = λ j f.
              let same : i ≡ j = cc in
              subst (λ k. Follows k next_id rows) same
                (built_index-Follows i (length schema.columns) rows tree next_id (
                  ap built_index (
                    sym (
                      scan-path (build_id_index_callback i) (length schema.columns) disk db_dir
                        schema.table_name rows initial_state readable content shapes))
                  ∙ e));
        },
      )

  pub build_table-Builds :
      (o : Option ℕ)
      → schema_find_column_index schema.columns id_name ≡ o
      → Builds (build_table disk db_dir schema.table_name schema o)
  build_table-Builds none c = (
    refl,
    refl,
    record {
      loaded = loaded;
      id_column = sym c;
      readable = readable;
      content = content;
      shapes = shapes;
      indexed = λ j f. absurd cc;
      follows = λ j f. absurd cc;
    },
  )
  build_table-Builds (some i) c = indexed_table-Builds i c _ refl
