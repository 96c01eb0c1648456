-- ===== src/Database/Progress.antt =====
-- Which step a statement of src/executor.c is on a table that nothing is wrong with.
use bptree_sql_engine.Prelude.{
  ℕ, ◌≡◌, refl, sym, ap, ◌∙◌, subst, Bool, false, some, Bytes, Result, ok,
}
use bptree_sql_engine.Storage.Row.{Row}
use bptree_sql_engine.Schema.Load.{TableSchema, schema_find_column_index}
use bptree_sql_engine.Runtime.Id.{uint64_max}
use bptree_sql_engine.Runtime.Index.{IndexError}
use bptree_sql_engine.Runtime.Context.{id_name}
use bptree_sql_engine.Runtime.NextId.{HasStored}
use bptree_sql_engine.Sql.Ast.{InsertStatement, SelectStatement, insert_stmt, select_stmt}
use bptree_sql_engine.Executor.Insert.{
  ExecError, validate_insert_columns_for_auto_id, build_insert_row_with_generated_id,
}
use bptree_sql_engine.Executor.Select.{
  validate_select_columns, initialize_query_result_columns, where_index_of,
}
use bptree_sql_engine.Executor.Indexed.{select_rows}
use bptree_sql_engine.Executor.Execute.{ExecResult, result_insert, result_select}
use bptree_sql_engine.Database.State.{
  Database, Catalog, append_to, IsNextId, CannotIndex, by_index, Step, selected, selection_refused,
  inserted, row_refused, inserted_id, columns_refused, ids_used_up, no_schema, no_file, no_index,
}

module _ (catalog : Catalog) (locked : Bytes → Bool) (db : Database) (schema : TableSchema) (i : ℕ)
    (found : schema_find_column_index schema.columns id_name ≡ some i) where
  -- Nothing is wrong with a table.
  pub record IsUsable (name : Bytes) : Type 0 where
    pub known : catalog name ≡ ok schema
    pub unlocked : locked name ≡ false
    pub indexable : (e : IndexError) → CannotIndex schema i (db name) e → ⊥

  same_schema :
      (name : Bytes) (other : TableSchema)
      → IsUsable name
      → catalog name ≡ ok other
      → schema ≡ other
  same_schema name other u h = cc (u.known, h)

  same_column :
      (other : TableSchema) (j : ℕ)
      → schema ≡ other
      → schema_find_column_index other.columns id_name ≡ some j
      → i ≡ j
  same_column other j e g = cc (found, ap (λ s. schema_find_column_index s.columns id_name) e, g)

  -- What an INSERT does.
  pub insert-Step :
      (stmt : InsertStatement) (r : Result ExecError ExecResult) (db' : Database)
      → IsUsable stmt.table_name
      → validate_insert_columns_for_auto_id schema i stmt ≡ ok tt
      → (HasStored i uint64_max (db stmt.table_name) → ⊥)
      → Step catalog locked db (insert_stmt stmt) r db'
      → (id : ℕ) × (row : Row) × (r ≡ ok (result_insert (some id)))
        × (db' ≡ append_to db stmt.table_name row)
        × (build_insert_row_with_generated_id schema i stmt id ≡ ok row)
        × IsNextId i id (db stmt.table_name)
  insert-Step stmt r db' u valid unused (inserted s other row h g k) = absurd (
      cc (found, ap (λ s. schema_find_column_index s.columns id_name) (same_schema _ other u h), g))
  insert-Step stmt r db' u valid unused (row_refused s other e h g k) = absurd (
      cc (found, ap (λ s. schema_find_column_index s.columns id_name) (same_schema _ other u h), g))
  insert-Step stmt r db' u valid unused (inserted_id s other j id row h g v b stored next) =
      let same = same_schema stmt.table_name other u h in
      let column = same_column other j same g in
      (
        id,
        row,
        refl,
        refl,
        ap (λ c. build_insert_row_with_generated_id schema c stmt id) column
            ∙ ap (λ s. build_insert_row_with_generated_id s j stmt id) same
            ∙ b,
        subst (λ c. IsNextId c id (db stmt.table_name)) (sym column) next,
      )
  insert-Step stmt r db' u valid unused (columns_refused s other j e h g v) =
      let same = same_schema stmt.table_name other u h in
      let column = same_column other j same g in
      absurd (
        cc (
          valid,
          ap (λ c. validate_insert_columns_for_auto_id schema c stmt) column,
          ap (λ s. validate_insert_columns_for_auto_id s j stmt) same,
          v,
        ))
  insert-Step stmt r db' u valid unused (ids_used_up s other j h g v last) =
      let column = same_column other j (same_schema stmt.table_name other u h) g in
      absurd (unused (subst (λ c. HasStored c uint64_max (db stmt.table_name)) (sym column) last))
  insert-Step stmt r db' u valid unused (no_schema s e h) = absurd (cc (u.known, h))
  insert-Step stmt r db' u valid unused (no_file s other h g) = absurd (cc (u.unlocked, g))
  insert-Step stmt r db' u valid unused (no_index s other j e h g cannot) =
      let same = same_schema stmt.table_name other u h in
      let column = same_column other j same g in
      absurd (
        u.indexable e (
          subst (λ c. CannotIndex schema c (db stmt.table_name) e) (sym column)
            (subst (λ s. CannotIndex s j (db stmt.table_name) e) (sym same) cannot)))

  abbrev answer_of : TableSchema → SelectStatement → ExecResult
  answer_of s stmt =
      result_select
        (record {
          columns = initialize_query_result_columns s stmt;
          rows = select_rows s stmt (where_index_of s stmt.where_clause) (db stmt.table_name);
        })
        (by_index s stmt)

  -- What a SELECT does.
  pub select-Step :
      (stmt : SelectStatement) (r : Result ExecError ExecResult) (db' : Database)
      → IsUsable stmt.table_name
      → validate_select_columns schema stmt ≡ ok tt
      → Step catalog locked db (select_stmt stmt) r db'
      → (r ≡ ok (answer_of schema stmt)) × (db' ≡ db)
  select-Step stmt r db' u valid (selected s other h v) =
      (ap (λ s. ok (answer_of s stmt)) (sym (same_schema stmt.table_name other u h)), refl)
  select-Step stmt r db' u valid (selection_refused s other e h v) = absurd (
      cc (
        valid,
        ap (λ s. validate_select_columns s stmt) (same_schema stmt.table_name other u h),
        v,
      ))
  select-Step stmt r db' u valid (no_schema s e h) = absurd (cc (u.known, h))
  select-Step stmt r db' u valid (no_file s other h g) = absurd (cc (u.unlocked, g))
  select-Step stmt r db' u valid (no_index s other j e h g cannot) =
      let same = same_schema stmt.table_name other u h in
      let column = same_column other j same g in
      absurd (
        u.indexable e (
          subst (λ c. CannotIndex schema c (db stmt.table_name) e) (sym column)
            (subst (λ s. CannotIndex s j (db stmt.table_name) e) (sym same) cannot)))
