-- ===== src/Database/Deterministic.antt =====
-- The steps of a database determine the results of the statements of src/executor.c.
use bptree_sql_engine.Prelude.{
  ℕ, ◌<◌, ◌≡◌, refl, sym, ap, ◌∙◌, subst, Bool, none, some, ◌⊎◌, inl, inr, List, [], ◌∷◌, arith,
  Bytes, Result, ok,
}
use bptree_sql_engine.Storage.Row.{Row}
use bptree_sql_engine.Schema.Load.{TableSchema, schema_find_column_index}
use bptree_sql_engine.Runtime.Context.{id_name}
use bptree_sql_engine.Runtime.NextId.{HasStored}
use bptree_sql_engine.Sql.Ast.{Statement, SelectStatement, insert_stmt, select_stmt}
use bptree_sql_engine.Executor.Insert.{
  ExecError, build_insert_row_existing_behavior, build_insert_row_with_generated_id,
}
use bptree_sql_engine.Executor.Select.{initialize_query_result_columns, where_index_of}
use bptree_sql_engine.Executor.Indexed.{select_rows}
use bptree_sql_engine.Executor.Execute.{ExecResult, result_insert, result_select}
use bptree_sql_engine.Database.State.{
  Database, Catalog, AllBelow, IsNextId, append_to, by_index, Step, selected, selection_refused,
  inserted, inserted_id, no_schema, no_file, no_index,
}

-- An id that is stored is below what all are below.
pub HasStored-AllBelow :
    (i id k : ℕ) (rows : List Row) → AllBelow i id rows → HasStored i k rows → k < id
HasStored-AllBelow i id k [] b h = absurd h
HasStored-AllBelow i id k (row ∷ rows) (b, bs) (inl e) = b k e
HasStored-AllBelow i id k (row ∷ rows) (b, bs) (inr h) = HasStored-AllBelow i id k rows bs h

-- There is one next id.
IsNextId-unique :
    (i id id' : ℕ) (rows : List Row) → IsNextId i id rows → IsNextId i id' rows → id ≡ id'
IsNextId-unique i id id' rows (b, inl (e, one)) (b', inl (e', one')) = one ∙ sym one'
IsNextId-unique i id id' rows (b, inl (e, one)) (b', inr (last, h, next)) =
    absurd (subst (HasStored i last) e h)
IsNextId-unique i id id' rows (b, inr (last, h, next)) (b', inl (e, one)) =
    absurd (subst (HasStored i last) e h)
IsNextId-unique i id id' rows (b, inr (last, h, next)) (b', inr (last', h', next')) =
    let least = HasStored-AllBelow i id last' rows b h' in
    let most = HasStored-AllBelow i id' last rows b' h in omega (arith, least, most, next, next')

module _ (catalog : Catalog) (locked : Bytes → Bool) (db : Database) where
  -- What the steps that succeed have in common.
  abbrev Outcome : Type 0
  Outcome = ExecResult × Database

  abbrev answered : SelectStatement → TableSchema → Outcome
  answered stmt schema = (
    result_select
        (record {
          columns = initialize_query_result_columns schema stmt;
          rows =
              select_rows schema stmt (where_index_of schema stmt.where_clause)
                (db stmt.table_name);
        })
        (by_index schema stmt),
    db,
  )

  -- The outcome of a statement that succeeds.
  abbrev Succeeds : Statement → Outcome → Type 0
  Succeeds (select_stmt stmt) outcome =
      (schema : TableSchema) × (catalog stmt.table_name ≡ ok schema)
      × (outcome ≡ answered stmt schema)
  Succeeds (insert_stmt stmt) outcome =
      (schema : TableSchema) × (row : Row) × (catalog stmt.table_name ≡ ok schema)
      × (((schema_find_column_index schema.columns id_name ≡ none)
            × (build_insert_row_existing_behavior schema stmt ≡ ok row)
            × (outcome ≡ (result_insert none, append_to db stmt.table_name row)))
          ⊎ ((i : ℕ) × (id : ℕ) × (schema_find_column_index schema.columns id_name ≡ some i)
              × (build_insert_row_with_generated_id schema i stmt id ≡ ok row)
              × IsNextId i id (db stmt.table_name)
              × (outcome ≡ (result_insert (some id), append_to db stmt.table_name row))))

  Step-Succeeds :
      (stmt : Statement) (result : ExecResult) (db' : Database)
      → Step catalog locked db stmt (ok result) db'
      → Succeeds stmt (result, db')
  Step-Succeeds stmt result db' (selected s schema h v) = (schema, h, refl)
  Step-Succeeds stmt result db' (inserted s schema row h g b) = (schema, row, h, inl (g, b, refl))
  Step-Succeeds stmt result db' (inserted_id s schema i id row h g v b stored next) =
      (schema, row, h, inr (i, id, g, b, next, refl))

  same_outcome : (stmt : Statement) (o o' : Outcome) → Succeeds stmt o → Succeeds stmt o' → o ≡ o'
  same_outcome (select_stmt stmt) o o' (schema, h, e) (schema', h', e') =
      let same : schema ≡ schema' = cc (h, h') in e ∙ ap (answered stmt) same ∙ sym e'
  same_outcome (insert_stmt stmt) o o' (schema, row, h, inl (g, b, e))
        (schema', row', h', inl (g', b', e')) =
      let same : schema ≡ schema' = cc (h, h') in
      let row_same : row ≡ row' =
        cc (b, ap (λ s. build_insert_row_existing_behavior s stmt) same, b') in
      e ∙ ap (λ (r : Row). (result_insert none, append_to db stmt.table_name r)) row_same ∙ sym e'
  same_outcome (insert_stmt stmt) o o' (schema, row, h, inl (g, b, e))
        (schema', row', h', inr (i, id, g', b', n, e')) =
      let same : schema ≡ schema' = cc (h, h') in
      absurd (cc (g, ap (λ s. schema_find_column_index s.columns id_name) same, g'))
  same_outcome (insert_stmt stmt) o o' (schema, row, h, inr (i, id, g, b, n, e))
        (schema', row', h', inl (g', b', e')) =
      let same : schema ≡ schema' = cc (h, h') in
      absurd (cc (g, ap (λ s. schema_find_column_index s.columns id_name) same, g'))
  same_outcome (insert_stmt stmt) o o' (schema, row, h, inr (i, id, g, b, n, e))
        (schema', row', h', inr (j, k, g', b', m, e')) =
      let same : schema ≡ schema' = cc (h, h') in
      let column : i ≡ j = cc (g, ap (λ s. schema_find_column_index s.columns id_name) same, g') in
      let id_same : id ≡ k =
        IsNextId-unique j id k (db stmt.table_name)
          (subst (λ c. IsNextId c id (db stmt.table_name)) column n) m in
      let row_same : row ≡ row' = cc (
        b,
        ap (λ s. build_insert_row_with_generated_id s i stmt id) same,
        ap (λ c. build_insert_row_with_generated_id schema' c stmt id) column,
        ap (λ c. build_insert_row_with_generated_id schema' j stmt c) id_same,
        b',
      ) in
      e
      ∙ ap (λ (c : ℕ). (result_insert (some c), append_to db stmt.table_name row)) id_same
      ∙ ap (λ (r : Row). (result_insert (some k), append_to db stmt.table_name r)) row_same
      ∙ sym e'

  -- The steps of a database leave no choice: two steps of one statement that succeed have the same
  -- result, the same generated id included, and leave the same rows.
  pub Step-deterministic :
      (stmt : Statement) (result result' : ExecResult) (db' db'' : Database)
      → Step catalog locked db stmt (ok result) db'
      → Step catalog locked db stmt (ok result') db''
      → (result ≡ result') × (db' ≡ db'')
  Step-deterministic stmt result result' db' db'' step step' =
      let same =
        same_outcome stmt (result, db') (result', db'') (Step-Succeeds stmt result db' step)
          (Step-Succeeds stmt result' db'' step') in
      (ap (λ o. o.0) same, ap (λ o. o.1) same)

  -- A SELECT changes nothing, whether it succeeds or not.
  pub Step-select_stmt :
      (stmt : SelectStatement) (result : Result ExecError ExecResult) (db' : Database)
      → Step catalog locked db (select_stmt stmt) result db'
      → db' ≡ db
  Step-select_stmt stmt result db' (selected s schema h v) = refl
  Step-select_stmt stmt result db' (selection_refused s schema e h v) = refl
  Step-select_stmt stmt result db' (no_schema s e h) = refl
  Step-select_stmt stmt result db' (no_file s schema h l) = refl
  Step-select_stmt stmt result db' (no_index s schema i e h g k) = refl
