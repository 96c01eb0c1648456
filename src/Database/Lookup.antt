-- ===== src/Database/Lookup.antt =====
-- `get_or_load_table_runtime` of src/runtime.c: the context behind it still represents the database,
-- and the table that it returns agrees with its file.
use bptree_sql_engine.Prelude.{
  ℕ, ◌≡◌, refl, sym, ap, ◌∙◌, subst, Bool, false, Option, none, some, [], ◌∷◌, ◌++◌, Bytes, length,
  get_elem?, All, Result, ok, err, Bool-cases, inl, inr,
}
use bptree_sql_engine.Storage.File.{Disk}
use bptree_sql_engine.Storage.Table.{data_path, touch, ensure_table_data_file}
use bptree_sql_engine.Storage.TableLaws.{IsRow, write_rows, stored}
use bptree_sql_engine.Schema.Load.{TableSchema, SchemaError, load_table_schema}
use bptree_sql_engine.Schema.LoadLaws.{load_schema-AreColumns}
use bptree_sql_engine.Runtime.Context.{
  TableRuntime, ExecutionContext, RuntimeError, index_error, load_table, add_table, find_table,
  found_or_loaded, get_or_load_table_runtime,
}
use bptree_sql_engine.Sql.Ast.{Statement}
use bptree_sql_engine.Executor.Insert.{table_error}
use bptree_sql_engine.Executor.Loaded.{touch-content, touch-refused}
use bptree_sql_engine.Database.State.{
  Database, Catalog, CannotIndex, Step, no_schema, no_file, no_index, table_of, Agrees, Represents,
}
use bptree_sql_engine.Database.Tables.{find_table-get_elem?, find_table-last, get_elem?-last}
use bptree_sql_engine.Database.Loading.{touch-Represents, add_table-Represents}
use bptree_sql_engine.Database.BuiltTable.{Builds, build_table-Builds}

module _ (catalog : Catalog) (locked : Bytes → Bool) (db : Database) (stmt : Statement) where
  -- What the look-up of a table leaves: the database is still represented, and the table that is
  -- returned is in the context and has the name, or the error is one that the statement may give.
  abbrev pub Looked : Bytes → Result RuntimeError ℕ × ExecutionContext × Disk → Type 0
  Looked name (ok i, ctx, disk) =
      Represents catalog locked db (ctx, disk)
      × (find_table ctx.tables name ≡ some i)
      × ((table : TableRuntime) × (get_elem? ctx.tables i ≡ some table) × (table.table_name ≡ name))
  Looked name (err e, ctx, disk) =
      Represents catalog locked db (ctx, disk)
      × Step catalog locked db stmt (err (table_error e)) db

  add_table-Looked :
      (ctx : ExecutionContext) (disk : Disk) (schema : TableSchema)
      (loaded : load_table_schema disk ctx.db_dir schema.table_name ≡ ok schema)
      (readable : disk.refused (data_path ctx.db_dir schema.table_name) ≡ false)
      (content : disk.file (data_path ctx.db_dir schema.table_name)
        ≡ some (write_rows (db schema.table_name)))
      (shapes : All (IsRow (length schema.columns)) (db schema.table_name))
      → Represents catalog locked db (ctx, disk)
      → find_table ctx.tables schema.table_name ≡ none
      → table_of stmt ≡ schema.table_name
      → catalog schema.table_name ≡ ok schema
      → (r : Result RuntimeError TableRuntime)
      → Builds disk ctx.db_dir schema (db schema.table_name) loaded readable content shapes r
      → Looked schema.table_name (add_table ctx (r, disk))
  add_table-Looked ctx disk schema loaded readable content shapes r e g f (err x)
        (i, y, same, at, cannot) =
      let fails : Step catalog locked db stmt (err (table_error (index_error y))) db =
        no_index stmt schema i y (ap catalog g ∙ f) at
          (subst (λ n. CannotIndex schema i (db n) y) (sym g) cannot) in
      (r, subst (λ z. Step catalog locked db stmt (err (table_error z)) db) (sym same) fails)
  add_table-Looked ctx disk schema loaded readable content shapes r e g f (ok table)
        (named, same, a) =
      let new : find_table ctx.tables table.table_name ≡ none =
        ap (find_table ctx.tables) named ∙ e in
      (
        add_table-Represents catalog locked db ctx disk table new
            (subst (λ n. Agrees disk ctx.db_dir (db n) table) (sym named) a) r,
        ap (find_table (ctx.tables ++ table ∷ [])) (sym named)
            ∙ find_table-last ctx.tables table new,
        (table, get_elem?-last ctx.tables table, named),
      )

  load_schema-Looked :
      (ctx : ExecutionContext) (disk : Disk) (schema : TableSchema)
      → Represents catalog locked db (ctx, disk)
      → find_table ctx.tables schema.table_name ≡ none
      → table_of stmt ≡ schema.table_name
      → catalog schema.table_name ≡ ok schema
      → Looked schema.table_name
          (add_table ctx (load_table disk ctx.db_dir schema.table_name (ok schema)))
  unfolding ensure_table_data_file
  load_schema-Looked ctx disk schema r e g f =
      let path = data_path ctx.db_dir schema.table_name in
      elim (Bool-cases (disk.refused path)) [
        | inl refused ↦
            rw (refused, load_table)
              (
                r,
                no_file stmt schema (ap catalog g ∙ f)
                    (ap locked g ∙ sym (r.locks schema.table_name) ∙ refused),
              )
        | inr open_to ↦
            let touched = touch disk path (disk.file path) in
            let r' = touch-Represents catalog locked db ctx disk schema.table_name e r in
            let held = r'.contents schema.table_name schema f in
            let loaded = r'.schemas schema.table_name ∙ f in
            let readable : touched.refused path ≡ false =
              ap (λ h. h path) (touch-refused disk path (disk.file path)) ∙ open_to in
            let touched_content = touch-content disk path (disk.file path) refl in
            let content : touched.file path ≡ some (write_rows (db schema.table_name)) =
              touched_content ∙ ap some (sym (ap stored touched_content) ∙ held.content) in
            rw (open_to, load_table)
              (add_table-Looked ctx touched schema loaded readable content held.shapes r' e g f _ (
                build_table-Builds touched ctx.db_dir schema (db schema.table_name) loaded readable
                  content held.shapes _ refl))
      ]

  missing-Looked :
      (ctx : ExecutionContext) (disk : Disk) (name : Bytes)
      → Represents catalog locked db (ctx, disk)
      → find_table ctx.tables name ≡ none
      → table_of stmt ≡ name
      → (s : Result SchemaError TableSchema) → load_table_schema disk ctx.db_dir name ≡ s
      → Looked name (add_table ctx (load_table disk ctx.db_dir name s))
  missing-Looked ctx disk name r e g (err x) f =
      (r, no_schema stmt x (ap catalog g ∙ sym (r.schemas name) ∙ f))
  missing-Looked ctx disk name r e g (ok schema) f =
      let named : schema.table_name ≡ name =
        (load_schema-AreColumns disk ctx.db_dir name schema f).0 in
      let known : catalog name ≡ ok schema = sym (r.schemas name) ∙ f in
      subst (λ n. Looked n (add_table ctx (load_table disk ctx.db_dir n (ok schema)))) named
        (load_schema-Looked ctx disk schema r (ap (find_table ctx.tables) named ∙ e) (g ∙ sym named)
          (ap catalog named ∙ known))

  found-Looked :
      (ctx : ExecutionContext) (disk : Disk) (name : Bytes)
      → Represents catalog locked db (ctx, disk)
      → table_of stmt ≡ name
      → (o : Option ℕ) → find_table ctx.tables name ≡ o
      → Looked name (found_or_loaded ctx disk name o)
  found-Looked ctx disk name r g (some i) e = (r, e, find_table-get_elem? ctx.tables name i e)
  found-Looked ctx disk name r g none e =
      missing-Looked ctx disk name r e g (load_table_schema disk ctx.db_dir name) refl

  pub get_or_load-Looked :
      (ctx : ExecutionContext) (disk : Disk)
      → Represents catalog locked db (ctx, disk)
      → Looked (table_of stmt) (get_or_load_table_runtime ctx disk (table_of stmt))
  unfolding get_or_load_table_runtime
  get_or_load-Looked ctx disk r =
      found-Looked ctx disk (table_of stmt) r refl (find_table ctx.tables (table_of stmt)) refl
