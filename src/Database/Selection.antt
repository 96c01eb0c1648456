-- ===== src/Database/Selection.antt =====
-- A SELECT of src/executor.c on a table that agrees with its file.
use bptree_sql_engine.Prelude.{
  ℕ, ◌≡◌, refl, sym, ap, ◌∙◌, Bool, true, false, Option, none, some, ◌⊎◌, List, Bytes, Result, ok,
  err, ◌>>◌, ◌>>=◌, Bool-cases, Option-cases, inl, inr,
}
use bptree_sql_engine.Storage.Row.{Row}
use bptree_sql_engine.Storage.File.{Disk, bytes_eq}
use bptree_sql_engine.Storage.TableLaws.{bytes_eq→eq}
use bptree_sql_engine.Schema.Load.{schema_find_column_index}
use bptree_sql_engine.Runtime.Id.{parse_canonical_positive_uint64}
use bptree_sql_engine.Runtime.Context.{TableRuntime, id_name}
use bptree_sql_engine.Sql.Ast.{WhereClause, SelectStatement}
use bptree_sql_engine.Executor.Insert.{ExecError}
use bptree_sql_engine.Executor.Select.{
  Selected, validate_select_columns, initialize_query_result_columns, where_index_of,
  try_parse_indexable_id_literal, can_use_id_index,
}
use bptree_sql_engine.Executor.Indexed.{select_rows, full_scan-select_rows}
use bptree_sql_engine.Executor.SelectLaws.{id-column, id_index-select_rows}
use bptree_sql_engine.Executor.Execute.{ExecResult, result_select, run_select, select_from_table}
use bptree_sql_engine.Database.State.{by_index, Agrees}

module _ (disk : Disk) (db_dir : Bytes) (rows : List Row) (table : TableRuntime)
    (stmt : SelectStatement) (a : Agrees disk db_dir rows table) where
  -- The index is used with a key, or not at all, as the schema and the statement say.
  abbrev Chooses : Type 0
  Chooses =
      ((can_use_id_index table stmt ≡ none) × (by_index table.schema stmt ≡ false))
      ⊎ ((i : ℕ) × (key : ℕ) × (clause : WhereClause) × (can_use_id_index table stmt
            ≡ some (i, key))
          × (by_index table.schema stmt ≡ true)
          × (table.id_column ≡ some i)
          × (stmt.where_clause ≡ some clause)
          × (clause.column_name ≡ id_name)
          × (parse_canonical_positive_uint64 clause.value.text ≡ some key))

  can_use_id_index-Chooses : Chooses
  unfolding can_use_id_index try_parse_indexable_id_literal
  can_use_id_index-Chooses = elim (Option-cases table.id_column) [
    | inl c ↦ inl (rw c refl, rw (sym a.id_column ∙ c, by_index) refl)
    | inr (i, c) ↦
        let found : schema_find_column_index table.schema.columns id_name ≡ some i =
          sym a.id_column ∙ c in
        let ready = (a.indexed i c).ready in
        elim (Option-cases stmt.where_clause) [
          | inl e ↦ inl (rw (c, e) refl, rw (found, by_index, e) refl)
          | inr (clause, e) ↦ elim (Bool-cases (bytes_eq clause.column_name id_name)) [
            | inl f ↦ elim (Option-cases (parse_canonical_positive_uint64 clause.value.text)) [
              | inl g ↦ inl (
                rw (c, can_use_id_index, e, ready, f, g) refl,
                rw (found, by_index, e, f, g) refl,
              )
              | inr (key, g) ↦ inr (
                i,
                key,
                clause,
                (rw (c, can_use_id_index, e, ready, f, g) refl),
                (rw (found, by_index, e, f, g) refl),
                c,
                e,
                bytes_eq→eq clause.column_name id_name f,
                g,
              )
            ]
            | inr f ↦
                inl (rw (c, can_use_id_index, e, ready, f) refl, rw (found, by_index, e, f) refl)
          ]
        ]
  ]

  abbrev answer : Option ℕ → Bool → Selected
  answer where_index used_index = (
    record {
      columns = initialize_query_result_columns table.schema stmt;
      rows = select_rows table.schema stmt where_index rows;
    },
    used_index,
  )

  -- Both ways of answering give the rows that satisfy the condition.
  run_select-answer :
      run_select disk db_dir table stmt (can_use_id_index table stmt)
      ≡ ok (answer (where_index_of table.schema stmt.where_clause) (by_index table.schema stmt))
  run_select-answer = elim can_use_id_index-Chooses [
    | inl (choice, by) ↦
        ap (run_select disk db_dir table stmt) choice
        ∙ full_scan-select_rows disk db_dir table stmt rows a.readable a.content a.shapes
        ∙ ap (λ used. ok (answer (where_index_of table.schema stmt.where_clause) used)) (sym by)
    | inr (i, key, clause, choice, by, c, e, f, g) ↦
        let where_index : where_index_of table.schema stmt.where_clause ≡ some i =
          ap (where_index_of table.schema) e
          ∙ id-column table.schema clause i (sym a.id_column ∙ c) f in
        ap (run_select disk db_dir table stmt) choice
        ∙ id_index-select_rows disk db_dir table i key rows stmt clause (a.indexed i c) e g
        ∙ ap (λ w. ok (answer w true)) (sym where_index)
        ∙ ap (λ used. ok (answer (where_index_of table.schema stmt.where_clause) used)) (sym by)
  ]

  abbrev finished : Result ExecError Selected → Result ExecError ExecResult
  finished r = r >>= λ selected. ok (result_select selected.0 selected.1)

  -- A SELECT whose columns are known.
  pub select_from_table-answer :
      validate_select_columns table.schema stmt ≡ ok tt
      → select_from_table disk db_dir table stmt
        ≡ ok (
            result_select
              (record {
                columns = initialize_query_result_columns table.schema stmt;
                rows =
                    select_rows table.schema stmt
                      (where_index_of table.schema stmt.where_clause)
                      rows;
              })
              (by_index table.schema stmt))
  unfolding select_from_table
  select_from_table-answer valid =
      ap (λ v. finished (v >> run_select disk db_dir table stmt (can_use_id_index table stmt)))
        valid
      ∙ ap finished run_select-answer

  pub select_from_table-refused :
      (e : ExecError)
      → validate_select_columns table.schema stmt ≡ err e
      → select_from_table disk db_dir table stmt ≡ err e
  unfolding select_from_table
  select_from_table-refused e refused =
      ap (λ v. finished (v >> run_select disk db_dir table stmt (can_use_id_index table stmt)))
        refused
