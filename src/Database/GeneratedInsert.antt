-- ===== src/Database/GeneratedInsert.antt =====
-- An INSERT of src/executor.c into a table whose ids are generated.
use bptree_sql_engine.Prelude.{
  ℕ, ==→eq, ◌≡◌, sym, ap, ◌∙◌, subst, Bool, not, some, Bytes, Result, ok, err, guard, ◌>>◌, ◌==◌,
  Bool-cases, Result-cases, inl, inr,
}
use bptree_sql_engine.Storage.Row.{Row}
use bptree_sql_engine.Storage.File.{Disk}
use bptree_sql_engine.Storage.Table.{data_path}
use bptree_sql_engine.Schema.Load.{schema_find_column_index}
use bptree_sql_engine.Schema.Laws.{find_column-get_elem?}
use bptree_sql_engine.Runtime.Context.{TableRuntime, ExecutionContext, id_name}
use bptree_sql_engine.Sql.Ast.{InsertStatement, insert_stmt}
use bptree_sql_engine.Executor.Insert.{
  id_overflow, ExecError, validate_insert_columns_for_auto_id, build_insert_row_with_generated_id,
}
use bptree_sql_engine.Executor.Execute.{
  insert_generated, result_insert, insert_by_column, insert_into_table, generated_row, stored_back,
}
use bptree_sql_engine.Database.State.{
  inserted_id, columns_refused, ids_used_up, append_to, Database, Catalog, IsNextId, Step, Agrees,
}
use bptree_sql_engine.Database.Kept.{ValuesKeep, last_value-AllKeep}
use bptree_sql_engine.Database.Values.{build_insert_row-AllKeep, build_insert_row_complete}
use bptree_sql_engine.Database.Open.{
  Refines, Open, Open-Agrees, Open-catalog, Open-same, Open-appended,
}
use bptree_sql_engine.Executor.NextId.{generated_row-parts}
use bptree_sql_engine.Executor.InsertLaws.{generated_row-HasIdAt, insert_into_table-IsIndexed}
use bptree_sql_engine.Database.Insertion.{Changes, insert_generated-Changes, generated-Agrees}
use bptree_sql_engine.Database.NextId.{AllBelow-located, Follows-next, Follows-last}

module _ (catalog : Catalog) (locked : Bytes → Bool) (db : Database) (stmt : InsertStatement)
    (i : ℕ) (table : TableRuntime) (ctx : ExecutionContext) (disk : Disk)
    (o : Open catalog locked db stmt.table_name i table ctx disk) (k : ℕ)
    (found : schema_find_column_index table.schema.columns id_name ≡ some k) where
  known : catalog stmt.table_name ≡ ok table.schema
  known = Open-catalog catalog locked db stmt.table_name i table ctx disk o

  agrees : Agrees disk ctx.db_dir (db stmt.table_name) table
  agrees = Open-Agrees catalog locked db stmt.table_name i table ctx disk o

  column : table.id_column ≡ some k
  column = agrees.id_column ∙ found

  by_row :
      (r : Result ExecError Row)
      → generated_row table k stmt ≡ r
      → insert_into_table table disk ctx.db_dir stmt
        ≡ insert_generated table disk ctx.db_dir stmt.table_name r
  unfolding insert_into_table
  by_row r e =
      ap (insert_by_column table disk ctx.db_dir stmt) column
      ∙ ap (insert_generated table disk ctx.db_dir stmt.table_name) e

  refused-Refines :
      (x : ExecError)
      → generated_row table k stmt ≡ err x
      → Step catalog locked db (insert_stmt stmt) (err x) db
      → Refines catalog locked db
          (insert_stmt stmt)
          (stored_back ctx i (insert_into_table table disk ctx.db_dir stmt))
  refused-Refines x e step =
      subst (λ y. Refines catalog locked db (insert_stmt stmt) (stored_back ctx i y))
        (sym (by_row (err x) e))
        (db, step, Open-same catalog locked db stmt.table_name i table ctx disk o)

  generated-Refines :
      (row : Row)
      → ValuesKeep stmt.values
      → generated_row table k stmt ≡ ok row
      → Refines catalog locked db
          (insert_stmt stmt)
          (stored_back ctx i (insert_into_table table disk ctx.db_dir stmt))
  generated-Refines row keep e =
      let rows = db stmt.table_name in
      let t = agrees.indexed k column in
      let (valid, nonzero, built) = generated_row-parts table k stmt row e in
      let (at, nonzero', id) = generated_row-HasIdAt disk ctx.db_dir table k rows row stmt t e in
      let ends =
        last_value-AllKeep row
          (build_insert_row-AllKeep table.schema k table.next_id stmt row keep built) in
      let (table', disk', run, schema, t') =
        insert_into_table-IsIndexed disk ctx.db_dir table k rows row stmt t (sym o.named) e ends in
      let c =
        subst (Changes table disk (data_path ctx.db_dir stmt.table_name))
          (sym (by_row (ok row) e) ∙ run)
          (insert_generated-Changes table disk ctx.db_dir stmt.table_name (ok row)) in
      let a' =
        generated-Agrees table table' disk disk' ctx.db_dir k rows row
          (result_insert (some table.next_id)) agrees column id
          (subst
            (λ n.
              Changes table disk (data_path ctx.db_dir n)
                (ok (result_insert (some table.next_id)), table', disk'))
            (sym o.named) c)
          t' in
      let next : IsNextId k table.next_id rows = (
        AllBelow-located k table.next_id 0 rows (λ j le. t.unused j nonzero le),
        Follows-next k table.next_id rows nonzero (agrees.follows k column),
      ) in
      subst (λ x. Refines catalog locked db (insert_stmt stmt) (stored_back ctx i x)) (sym run)
        (
          append_to db stmt.table_name row,
          inserted_id stmt table.schema k table.next_id row known found valid built id next,
          Open-appended catalog locked db stmt.table_name i table ctx disk o row disk' table'
              (c.name ∙ o.named) c.disk_changes a',
        )

  -- An INSERT into a table whose ids are generated.
  pub insert_generated-Refines :
      ValuesKeep stmt.values
      → Refines catalog locked db
          (insert_stmt stmt)
          (stored_back ctx i (insert_into_table table disk ctx.db_dir stmt))
  insert_generated-Refines keep =
      let row_of : ℕ → Result ExecError Row =
        build_insert_row_with_generated_id table.schema k stmt in
      elim (Result-cases (validate_insert_columns_for_auto_id table.schema k stmt)) [
        | inr (x, e) ↦
            refused-Refines x
              (ap (λ v. v >> (guard (not (table.next_id == 0)) id_overflow >> row_of table.next_id))
                e)
              (columns_refused stmt table.schema k x known found e)
        | inl (u, e) ↦ elim (Bool-cases (table.next_id == 0)) [
          | inl z ↦
              refused-Refines id_overflow
                (ap
                    (λ v.
                      v >> (guard (not (table.next_id == 0)) id_overflow >> row_of table.next_id))
                    e
                  ∙ ap (λ b. guard (not b) id_overflow >> row_of table.next_id) z)
                (ids_used_up stmt table.schema k known found e (
                  Follows-last k table.next_id (db stmt.table_name) (==→eq table.next_id 0 z)
                    (agrees.follows k column)))
          | inr z ↦
              let (row, built) =
                build_insert_row_complete table.schema k table.next_id stmt
                  (find_column-get_elem? table.schema.columns id_name k found).0 e in
              generated-Refines row keep (
                ap
                  (λ v. v >> (guard (not (table.next_id == 0)) id_overflow >> row_of table.next_id))
                  e
                ∙ ap (λ b. guard (not b) id_overflow >> row_of table.next_id) z
                ∙ built)
        ]
      ]
