-- ===== src/Database/PlainInsert.antt =====
-- An INSERT of src/executor.c into a table with no id column.
use bptree_sql_engine.Prelude.{
  ℕ, ◌≡◌, ◌≢◌, refl, sym, ap, ◌∙◌, subst, Bool, true, false, none, some, ◌⊎◌, List, [], ◌∷◌, ◌++◌,
  append-nil, arith, Bytes, length, All-append, Result, ok, err, Result-cases, inl, inr,
}
use bptree_sql_engine.Storage.Row.{Row, write_row}
use bptree_sql_engine.Storage.File.{Disk}
use bptree_sql_engine.Storage.Table.{
  data_path, append_row_to_table_with_offset, append_row_to_table,
}
use bptree_sql_engine.Storage.TableLaws.{
  IsRow, write_rows, write_rows-append, stored, content_of, Appends, append_lem,
}
use bptree_sql_engine.Storage.Paths.{ChangesOnly, append-ChangesOnly}
use bptree_sql_engine.Schema.Load.{schema_find_column_index}
use bptree_sql_engine.Schema.LoadLaws.{load_schema-AreColumns}
use bptree_sql_engine.Runtime.Context.{TableRuntime, ExecutionContext, id_name}
use bptree_sql_engine.Sql.Ast.{InsertStatement, insert_stmt}
use bptree_sql_engine.Executor.Insert.{ExecError, build_insert_row_existing_behavior}
use bptree_sql_engine.Executor.Execute.{
  insert_by_column, appended, insert_plain, insert_into_table, stored_back,
}
use bptree_sql_engine.Database.State.{append_to, Database, Catalog, inserted, row_refused, Agrees}
use bptree_sql_engine.Database.Frame.{load_table_schema-frame}
use bptree_sql_engine.Database.Kept.{AllKeep, ValuesKeep, last_value-AllKeep}
use bptree_sql_engine.Database.Values.{build_insert_row_existing-Placed}
use bptree_sql_engine.Database.Open.{
  Refines, Open, Open-Agrees, Open-catalog, Open-same, Open-appended,
}

nonempty :
    (row : Row) (columns : List Bytes) → length row ≡ length columns → columns ≢ [] → row ≢ []
nonempty row [] e h same = h refl
nonempty row (c ∷ columns) e h same = absurd (omega (arith, e, ap length same))

module _ (catalog : Catalog) (locked : Bytes → Bool) (db : Database) (name : Bytes) (i : ℕ)
    (table : TableRuntime) (ctx : ExecutionContext) (disk : Disk)
    (o : Open catalog locked db name i table ctx disk) where
  -- A row with a value for each column is one that the storage gives back.
  pub Open-IsRow :
      (row : Row)
      → length row ≡ length table.schema.columns
      → AllKeep row
      → IsRow (length table.schema.columns) row
  Open-IsRow row e k =
      let a = Open-Agrees catalog locked db name i table ctx disk o in
      record {
        nonempty =
            nonempty row table.schema.columns e
              (load_schema-AreColumns disk ctx.db_dir table.table_name table.schema a.loaded).1;
        columns = e;
        ends = last_value-AllKeep row k;
      }

  -- The append of a row does not fail.
  pub Open-append :
      (row : Row)
      → IsRow (length table.schema.columns) row
      → (disk' : Disk) × (offset : ℕ) × (append_row_to_table_with_offset disk ctx.db_dir name row
          ≡ ok (disk', offset))
        × Appends disk ctx.db_dir name row (ok (disk', offset))
  Open-append row is =
      let a = Open-Agrees catalog locked db name i table ctx disk o in
      let readable : disk.refused (data_path ctx.db_dir name) ≡ false =
        subst (λ n. disk.refused (data_path ctx.db_dir n) ≡ false) o.named a.readable in
      elim (Result-cases (append_row_to_table_with_offset disk ctx.db_dir name row)) [
        | inl ((disk', offset), e) ↦ (
          disk',
          offset,
          e,
          subst (Appends disk ctx.db_dir name row) e (append_lem disk ctx.db_dir name row),
        )
        | inr (x, e) ↦ absurd (
            refusal
              (subst (Appends disk ctx.db_dir name row) e (append_lem disk ctx.db_dir name row))
              readable)
      ]
    where
      refusal :
          (row ≡ []) ⊎ (disk.refused (data_path ctx.db_dir name) ≡ true)
          → disk.refused (data_path ctx.db_dir name) ≢ false
      refusal (inl h) e = is.nonempty h
      refusal (inr h) e = cc

  -- The file behind the append.
  appended-content :
      (row : Row) (disk' : Disk) (offset : ℕ)
      → Appends disk ctx.db_dir name row (ok (disk', offset))
      → disk'.file (data_path ctx.db_dir table.table_name) ≡ some (write_rows (db name ++ row ∷ []))
  appended-content row disk' offset p =
      let a = Open-Agrees catalog locked db name i table ctx disk o in
      let before : content_of disk ctx.db_dir name ≡ write_rows (db name) =
        subst (λ n. content_of disk ctx.db_dir n ≡ write_rows (db name)) o.named
          (ap stored a.content) in
      ap (λ n. disk'.file (data_path ctx.db_dir n)) o.named
      ∙ p.1
      ∙ ap some (
          ap (λ l. l ++ write_row row) before
          ∙ ap (λ l. write_rows (db name) ++ l) (sym (append-nil (write_row row)))
          ∙ sym (write_rows-append (db name) (row ∷ [])))

  -- A table with no id column, behind the append of a row.
  plain-Agrees :
      (row : Row) (disk' : Disk) (offset : ℕ)
      → schema_find_column_index table.schema.columns id_name ≡ none
      → IsRow (length table.schema.columns) row
      → ChangesOnly (data_path ctx.db_dir name) disk disk'
      → Appends disk ctx.db_dir name row (ok (disk', offset))
      → Agrees disk' ctx.db_dir (db name ++ row ∷ []) table
  plain-Agrees row disk' offset e is c p =
      let a = Open-Agrees catalog locked db name i table ctx disk o in
      record {
        loaded = load_table_schema-frame disk disk' ctx.db_dir name c table.table_name ∙ a.loaded;
        id_column = a.id_column;
        readable = ap (λ f. f (data_path ctx.db_dir table.table_name)) c.refused ∙ a.readable;
        content = appended-content row disk' offset p;
        shapes =
            All-append (IsRow (length table.schema.columns)) (db name) (row ∷ []) a.shapes (is, tt);
        indexed = λ j f. absurd (cc (a.id_column, e, f));
        follows = λ j f. absurd (cc (a.id_column, e, f));
      }

module _ (catalog : Catalog) (locked : Bytes → Bool) (db : Database) (stmt : InsertStatement)
    (i : ℕ) (table : TableRuntime) (ctx : ExecutionContext) (disk : Disk)
    (o : Open catalog locked db stmt.table_name i table ctx disk)
    (none_found : schema_find_column_index table.schema.columns id_name ≡ none) where
  plain-Refines :
      (row : Row)
      → ValuesKeep stmt.values
      → build_insert_row_existing_behavior table.schema stmt ≡ ok row
      → Refines catalog locked db (insert_stmt stmt) (
          stored_back ctx i
            (appended table disk (append_row_to_table disk ctx.db_dir stmt.table_name row)))
  unfolding append_row_to_table
  plain-Refines row k e =
      let (shape, keep) = build_insert_row_existing-Placed table.schema stmt row k e in
      let is = Open-IsRow catalog locked db stmt.table_name i table ctx disk o row shape keep in
      let (disk', offset, run, p) =
        Open-append catalog locked db stmt.table_name i table ctx disk o row is in
      let c = append-ChangesOnly disk disk' ctx.db_dir stmt.table_name row offset run in
      rw run (
        append_to db stmt.table_name row,
        inserted stmt table.schema row
            (Open-catalog catalog locked db stmt.table_name i table ctx disk o) none_found e,
        Open-appended catalog locked db stmt.table_name i table ctx disk o row disk' table o.named c
            (plain-Agrees catalog locked db stmt.table_name i table ctx disk o row disk' offset
              none_found is c p),
      )

  -- An INSERT into a table with no id column.
  pub insert_plain-Refines :
      ValuesKeep stmt.values
      → Refines catalog locked db
          (insert_stmt stmt)
          (stored_back ctx i (insert_into_table table disk ctx.db_dir stmt))
  unfolding insert_into_table
  insert_plain-Refines k =
      let a = Open-Agrees catalog locked db stmt.table_name i table ctx disk o in
      let column : table.id_column ≡ none = a.id_column ∙ none_found in
      let run : (r : Result ExecError Row)
          → build_insert_row_existing_behavior table.schema stmt ≡ r
          → insert_into_table table disk ctx.db_dir stmt
            ≡ insert_plain table disk ctx.db_dir stmt.table_name r =
        λ r e.
          ap (insert_by_column table disk ctx.db_dir stmt) column
          ∙ ap (insert_plain table disk ctx.db_dir stmt.table_name) e in
      elim (Result-cases (build_insert_row_existing_behavior table.schema stmt)) [
        | inl (row, e) ↦
            subst (λ x. Refines catalog locked db (insert_stmt stmt) (stored_back ctx i x))
              (sym (run (ok row) e)) (plain-Refines row k e)
        | inr (x, e) ↦
            subst (λ y. Refines catalog locked db (insert_stmt stmt) (stored_back ctx i y))
              (sym (run (err x) e))
              (
                db,
                row_refused stmt table.schema x
                    (Open-catalog catalog locked db stmt.table_name i table ctx disk o) none_found
                    e,
                Open-same catalog locked db stmt.table_name i table ctx disk o,
              )
      ]
