-- ===== src/Executor/InsertLaws.antt =====
-- An INSERT with a generated id.
use bptree_sql_engine.Prelude.{
  ℕ, ◌≡◌, ◌≢◌, refl, sym, ap, ◌∙◌, subst, false, some, List, [], ◌∷◌, ◌++◌, arith, Bytes, length,
  get_elem?, Result, ok, err, inl, inr,
}
use bptree_sql_engine.Bptree.IdMap.{bptree_id_map}
use bptree_sql_engine.Storage.Row.{Row}
use bptree_sql_engine.Storage.File.{Disk}
use bptree_sql_engine.Storage.FileLaws.{ends_in_cr, last_value}
use bptree_sql_engine.Storage.Table.{StorageError, append_row_to_table_with_offset}
use bptree_sql_engine.Storage.TableLaws.{IsRow, Appends, append_lem}
use bptree_sql_engine.Schema.Laws.{find_column-get_elem?}
use bptree_sql_engine.Runtime.Id.{format_uint64}
use bptree_sql_engine.Runtime.Index.{stored_id}
use bptree_sql_engine.Runtime.Context.{TableRuntime, id_name}
use bptree_sql_engine.Sql.Ast.{InsertStatement}
use bptree_sql_engine.Executor.Insert.{ExecError}
use bptree_sql_engine.Executor.RowLaws.{HasIdAt, build_insert_row-HasIdAt}
use bptree_sql_engine.Executor.Indexed.{IsIndexed}
use bptree_sql_engine.Executor.Execute.{
  ExecResult, result_insert, generated_row, index_row, index_appended, insert_generated,
  insert_by_column, insert_into_table,
}
use bptree_sql_engine.Executor.NextId.{
  generated_row-parts, generated_row-stored_id, IsIndexed-insert,
}

-- What a successful insertion leaves.
abbrev Inserted :
    TableRuntime → Bytes → ℕ → List Row → Result ExecError ExecResult × TableRuntime × Disk → Type 0
Inserted table db_dir i rows (result, table', disk') =
    (result ≡ ok (result_insert (some table.next_id)))
    × (table'.schema ≡ table.schema)
    × IsIndexed table' disk' db_dir i rows

index_appended-Inserted :
    (disk : Disk) (db_dir : Bytes) (table : TableRuntime) (i : ℕ) (rows : List Row) (row : Row)
    → IsIndexed table disk db_dir i rows
    → table.next_id ≢ 0
    → IsRow (length table.schema.columns) row
    → stored_id i row ≡ some table.next_id
    → (r : Result StorageError (Disk × ℕ)) → Appends disk db_dir table.table_name row r
    → Inserted table db_dir i (rows ++ row ∷ []) (index_appended table disk r)
index_appended-Inserted disk db_dir table i rows row t nonzero r id (err x) (inl h) =
    absurd (r.nonempty h)
index_appended-Inserted disk db_dir table i rows row t nonzero r id (err x) (inr h) =
    absurd (cc (t.readable, h))
index_appended-Inserted disk db_dir table i rows row t nonzero r id (ok (disk', offset)) a =
    let (tree, e) =
      bptree_id_map.fresh_insert table.id_index table.next_id offset t.index.shape
        (t.index.answers table.next_id ∙ t.unused table.next_id nonzero (omega arith)) in
    subst (λ x. Inserted table db_dir i (rows ++ row ∷ []) (index_row table disk' x)) (sym e)
      (
        refl,
        refl,
        IsIndexed-insert disk disk' db_dir table i offset rows row tree t nonzero r id a e,
      )

nonempty-row : (row : Row) (i : ℕ) (v : Bytes) → get_elem? row i ≡ some v → row ≢ []
nonempty-row [] i v e h = cc
nonempty-row (x ∷ row) i v e h = cc

-- The row of an INSERT has a value for each column, and stores the next id.
pub generated_row-HasIdAt :
    (disk : Disk) (db_dir : Bytes) (table : TableRuntime) (i : ℕ) (rows : List Row) (row : Row)
    (stmt : InsertStatement)
    → IsIndexed table disk db_dir i rows
    → generated_row table i stmt ≡ ok row
    → HasIdAt (length table.schema.columns) i (format_uint64 table.next_id) row
      × (table.next_id ≢ 0)
      × (stored_id i row ≡ some table.next_id)
generated_row-HasIdAt disk db_dir table i rows row stmt t e =
    let (valid, nonzero, built) = generated_row-parts table i stmt row e in
    let at : HasIdAt (length table.schema.columns) i (format_uint64 table.next_id) row =
      build_insert_row-HasIdAt table.schema i table.next_id stmt row
        (find_column-get_elem? table.schema.columns id_name i t.column_of).0 valid built in
    (at, nonzero, generated_row-stored_id table.schema i table.next_id row nonzero t.fits at)

-- An INSERT with a generated id into a table that agrees with its file succeeds, if the statement is
-- for this table and passes the checks of its columns and values, the next id has not wrapped round to
-- 0, and the last value of the row that is built does not end in `\r`: it returns the next id as the
-- generated one, and leaves a table, with the same schema, and a disk that agree again, with the row
-- behind the rows that were there.
pub insert_into_table-IsIndexed :
    (disk : Disk) (db_dir : Bytes) (table : TableRuntime) (i : ℕ) (rows : List Row) (row : Row)
    (stmt : InsertStatement)
    → IsIndexed table disk db_dir i rows
    → stmt.table_name ≡ table.table_name
    → generated_row table i stmt ≡ ok row
    → ends_in_cr (last_value row) ≡ false
    → (table' : TableRuntime) × (disk' : Disk) × (insert_into_table table disk db_dir stmt
        ≡ (ok (result_insert (some table.next_id)), table', disk'))
      × (table'.schema ≡ table.schema)
      × IsIndexed table' disk' db_dir i (rows ++ row ∷ [])
unfolding insert_into_table
insert_into_table-IsIndexed disk db_dir table i rows row stmt t name e ends =
    let (at, nonzero, id) = generated_row-HasIdAt disk db_dir table i rows row stmt t e in
    let r : IsRow (length table.schema.columns) row = record {
      nonempty = nonempty-row row i (format_uint64 table.next_id) at.1;
      columns = at.0;
      ends = ends;
    } in
    let result = append_row_to_table_with_offset disk db_dir table.table_name row in
    let done =
      index_appended-Inserted disk db_dir table i rows row t nonzero r id result
        (append_lem disk db_dir table.table_name row) in
    let x = index_appended table disk result in
    let run : insert_into_table table disk db_dir stmt ≡ x =
      ap (insert_by_column table disk db_dir stmt) t.column
      ∙ ap (insert_generated table disk db_dir stmt.table_name) e
      ∙ ap (λ n. index_appended table disk (append_row_to_table_with_offset disk db_dir n row))
          name in
    (x.1, x.2, run ∙ ap (λ r. (r, x.1, x.2)) done.0, done.1, done.2)
