-- ===== src/Database/Refinement.antt =====
-- The statements of src/executor.c refine the steps of a database.
use bptree_sql_engine.Prelude.{
  ℕ, sym, subst, Bool, Bytes, Result, ok, err, Option-cases, Result-cases, inl, inr,
}
use bptree_sql_engine.Storage.File.{Disk}
use bptree_sql_engine.Schema.Load.{schema_find_column_index}
use bptree_sql_engine.Runtime.Context.{TableRuntime, ExecutionContext, RuntimeError, id_name}
use bptree_sql_engine.Sql.Ast.{
  InsertStatement, SelectStatement, Statement, insert_stmt, select_stmt,
}
use bptree_sql_engine.Executor.Select.{validate_select_columns}
use bptree_sql_engine.Executor.Execute.{
  State, insert_into_table, stored_back, insert_at_table, insert_loaded, execute_insert,
  select_from_table, select_at_table, select_loaded, execute_select, execute_statement,
}
use bptree_sql_engine.Database.State.{
  Database, Catalog, selected, selection_refused, Represents, KeepsValues,
}
use bptree_sql_engine.Database.Lookup.{Looked, get_or_load-Looked}
use bptree_sql_engine.Database.Selection.{select_from_table-answer, select_from_table-refused}
use bptree_sql_engine.Database.Kept.{ValuesKeep}
use bptree_sql_engine.Database.Open.{Refines, Open, Open-Agrees, Open-catalog}
use bptree_sql_engine.Database.PlainInsert.{insert_plain-Refines}
use bptree_sql_engine.Database.GeneratedInsert.{insert_generated-Refines}

module _ (catalog : Catalog) (locked : Bytes → Bool) (db : Database) where
  module _ (ctx : ExecutionContext) (disk : Disk) (i : ℕ) (table : TableRuntime) where
    select-Refines :
        (stmt : SelectStatement)
        → Open catalog locked db stmt.table_name i table ctx disk
        → Refines catalog locked db
            (select_stmt stmt)
            (select_from_table disk ctx.db_dir table stmt, (ctx, disk))
    select-Refines stmt o =
        let a = Open-Agrees catalog locked db stmt.table_name i table ctx disk o in
        let known = Open-catalog catalog locked db stmt.table_name i table ctx disk o in
        elim (Result-cases (validate_select_columns table.schema stmt)) [
          | inl (u, e) ↦
              subst (λ x. Refines catalog locked db (select_stmt stmt) (x, (ctx, disk)))
                (sym (select_from_table-answer disk ctx.db_dir (db stmt.table_name) table stmt a e))
                (db, selected stmt table.schema known e, o.represents)
          | inr (x, e) ↦
              subst (λ y. Refines catalog locked db (select_stmt stmt) (y, (ctx, disk)))
                (sym
                  (select_from_table-refused disk ctx.db_dir (db stmt.table_name) table stmt a x e))
                (db, selection_refused stmt table.schema x known e, o.represents)
        ]

  insert-Refines :
      (ctx : ExecutionContext) (disk : Disk) (i : ℕ) (table : TableRuntime) (stmt : InsertStatement)
      → Open catalog locked db stmt.table_name i table ctx disk
      → ValuesKeep stmt.values
      → Refines catalog locked db
          (insert_stmt stmt)
          (stored_back ctx i (insert_into_table table disk ctx.db_dir stmt))
  insert-Refines ctx disk i table stmt o keep =
      elim (Option-cases (schema_find_column_index table.schema.columns id_name)) [
        | inl e ↦ insert_plain-Refines catalog locked db stmt i table ctx disk o e keep
        | inr (k, e) ↦ insert_generated-Refines catalog locked db stmt i table ctx disk o k e keep
      ]

  insert_loaded-Refines :
      (stmt : InsertStatement) (x : Result RuntimeError ℕ × ExecutionContext × Disk)
      → Looked catalog locked db (insert_stmt stmt) stmt.table_name x
      → ValuesKeep stmt.values
      → Refines catalog locked db (insert_stmt stmt) (insert_loaded stmt x)
  insert_loaded-Refines stmt (err e, ctx, disk) (r, step) keep = (db, step, r)
  insert_loaded-Refines stmt (ok i, ctx, disk) (r, found, (table, at, named)) keep =
      subst (λ t. Refines catalog locked db (insert_stmt stmt) (insert_at_table ctx disk stmt i t))
        (sym at)
        (insert-Refines ctx disk i table stmt
          (record { represents = r; found = found; at = at; named = named }) keep)

  select_loaded-Refines :
      (stmt : SelectStatement) (x : Result RuntimeError ℕ × ExecutionContext × Disk)
      → Looked catalog locked db (select_stmt stmt) stmt.table_name x
      → Refines catalog locked db (select_stmt stmt) (select_loaded stmt x)
  select_loaded-Refines stmt (err e, ctx, disk) (r, step) = (db, step, r)
  select_loaded-Refines stmt (ok i, ctx, disk) (r, found, (table, at, named)) =
      subst (λ t. Refines catalog locked db (select_stmt stmt) (select_at_table ctx disk stmt t))
        (sym at)
        (select-Refines ctx disk i table stmt
          (record { represents = r; found = found; at = at; named = named }))

-- The engine refines the database: where the context and the disk represent a database, the outcome
-- of any statement whose values do not end in `\r` is a step of this database, with the result or
-- the error that the step says, and the context and the disk behind it represent the database behind
-- the step.
pub execute_statement-Refines :
    (catalog : Catalog) (locked : Bytes → Bool) (db : Database) (stmt : Statement) (state : State)
    → Represents catalog locked db state
    → KeepsValues stmt
    → Refines catalog locked db stmt (execute_statement stmt state)
unfolding execute_statement execute_insert execute_select
execute_statement-Refines catalog locked db (insert_stmt stmt) (ctx, disk) r keep =
    insert_loaded-Refines catalog locked db stmt _
      (get_or_load-Looked catalog locked db (insert_stmt stmt) ctx disk r) keep
execute_statement-Refines catalog locked db (select_stmt stmt) (ctx, disk) r keep =
    select_loaded-Refines catalog locked db stmt _
      (get_or_load-Looked catalog locked db (select_stmt stmt) ctx disk r)
