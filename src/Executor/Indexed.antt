-- ===== src/Executor/Indexed.antt =====
-- A table that agrees with its file, and the full scan of it by src/executor.c.
use bptree_sql_engine.Prelude.{
  true, ℕ, ◌+◌, ◌^◌, ◌<◌, ◌≡◌, sym, ap, ◌∙◌, false, Option, none, some, List, [], ◌∷◌, ◌++◌,
  append_assoc, append-nil, ◌==◌, ==→eq, ==-refl, if◌then◌else◌, Bytes, length, All, ok, Bool-cases,
  inl, inr,
}
use bptree_sql_engine.Storage.Row.{Row, write_row}
use bptree_sql_engine.Storage.File.{Disk, bytes_eq}
use bptree_sql_engine.Storage.Table.{data_path}
use bptree_sql_engine.Storage.TableLaws.{IsRow, write_rows, bytes_eq_refl, bytes_eq→eq}
use bptree_sql_engine.Storage.ScanLaws.{run_rows, scan-path}
use bptree_sql_engine.Schema.Load.{TableSchema, schema_find_column_index}
use bptree_sql_engine.Runtime.Id.{parse_canonical_positive_uint64}
use bptree_sql_engine.Runtime.IdLaws.{parse_canonical-injective}
use bptree_sql_engine.Runtime.Context.{TableRuntime, id_name}
use bptree_sql_engine.Runtime.Located.{located, Indexes}
use bptree_sql_engine.Runtime.Built.{HasId, Unused}
use bptree_sql_engine.Sql.Ast.{SelectStatement}
use bptree_sql_engine.Executor.Select.{
  value_equals, row_matches_where_clause, project_single_row, select_full_scan_callback,
  initialize_query_result_columns, selected_with, scanned, where_index_of,
  execute_select_with_full_scan,
}

-- A table in memory that agrees with its file: the file holds `rows`, each has an id in the id
-- column, no two the same, the index is ready and finds the offset of each, and the next id is above all of them
-- or has wrapped round to 0.
pub record IsIndexed (table : TableRuntime) (disk : Disk) (db_dir : Bytes) (i : ℕ) (rows : List Row)
    : Type 0 where
  pub column : table.id_column ≡ some i
  pub ready : table.id_index_ready ≡ true
  pub column_of : schema_find_column_index table.schema.columns id_name ≡ some i
  pub readable : disk.refused (data_path db_dir table.table_name) ≡ false
  pub content : disk.file (data_path db_dir table.table_name) ≡ some (write_rows rows)
  pub shapes : All (IsRow (length table.schema.columns)) rows
  pub ids : All (HasId i) rows
  pub index : Indexes table.id_index (located i 0 rows)
  pub unused : Unused table.next_id (located i 0 rows)
  pub fits : table.next_id < 2 ^ 64

-- The reference: the rows that satisfy the condition, in their order, projected.
abbrev pub select_rows : TableSchema → SelectStatement → Option ℕ → List Row → List Row
select_rows schema stmt where_index [] = []
select_rows schema stmt where_index (row ∷ rows) =
    (if row_matches_where_clause stmt where_index row
      then project_single_row schema stmt row ∷ []
      else [])
    ++ select_rows schema stmt where_index rows

module _ (schema : TableSchema) (stmt : SelectStatement) (where_index : Option ℕ) (n : ℕ) where
  run_rows-select :
      (offset : ℕ) (rows found : List Row)
      → run_rows (select_full_scan_callback schema stmt where_index) n offset rows found
        ≡ ok (found ++ select_rows schema stmt where_index rows)
  unfolding select_full_scan_callback
  run_rows-select offset [] found = ap ok (sym (append-nil found))
  run_rows-select offset (row ∷ rows) found =
      elim (Bool-cases (row_matches_where_clause stmt where_index row)) [
        | inl e ↦
            rw (e, select_full_scan_callback)
              (run_rows-select (offset + length (write_row row)) rows
                  (found ++ project_single_row schema stmt row ∷ [])
                ∙ ap ok (append_assoc found (project_single_row schema stmt row ∷ []) _))
        | inr e ↦
            rw (e, select_full_scan_callback)
              (run_rows-select (offset + length (write_row row)) rows found)
      ]

-- A full scan of a file of rows returns the rows that satisfy the condition, in their order, each
-- projected to the columns of the statement.
pub full_scan-select_rows :
    (disk : Disk) (db_dir : Bytes) (table : TableRuntime) (stmt : SelectStatement) (rows : List Row)
    → disk.refused (data_path db_dir table.table_name) ≡ false
    → disk.file (data_path db_dir table.table_name) ≡ some (write_rows rows)
    → All (IsRow (length table.schema.columns)) rows
    → execute_select_with_full_scan disk db_dir table stmt
      ≡ ok (
        record {
          columns = initialize_query_result_columns table.schema stmt;
          rows = select_rows table.schema stmt (where_index_of table.schema stmt.where_clause) rows;
        },
        false,
      )
unfolding execute_select_with_full_scan
full_scan-select_rows disk db_dir table stmt rows e f h =
    let where_index = where_index_of table.schema stmt.where_clause in
    ap (λ r. selected_with table stmt false (scanned r))
      (scan-path (select_full_scan_callback table.schema stmt where_index)
          (length table.schema.columns) disk db_dir table.table_name rows [] e f h
        ∙ run_rows-select table.schema stmt where_index (length table.schema.columns) 0 rows [])

-- With an id as the condition's value, the rows that satisfy the condition are those with the id.
pub matches-id :
    (id key : ℕ) (value : Option Bytes) (text : Bytes)
    → elim value [ none ↦ none | some v ↦ parse_canonical_positive_uint64 v ] ≡ some id
    → parse_canonical_positive_uint64 text ≡ some key
    → value_equals value text ≡ (id == key)
matches-id id key none text e f = cc
matches-id id key (some v) text e f = elim (Bool-cases (bytes_eq v text)) [
  | inl same ↦
      let eq : id ≡ key =
        some-injective (sym e ∙ ap parse_canonical_positive_uint64 (bytes_eq→eq v text same) ∙ f) in
      same ∙ sym (ap (λ j. j == key) eq ∙ ==-refl key)
  | inr differs ↦ elim (Bool-cases (id == key)) [
    | inl eq ↦
        let same = parse_canonical-injective v text key (e ∙ ap some (==→eq id key eq)) f in
        absurd (cc (differs, ap (bytes_eq v) (sym same), bytes_eq_refl v))
    | inr ne ↦ differs ∙ sym ne
  ]
]
  where
    some-injective : {a b : ℕ} → some a ≡ some b → a ≡ b
    some-injective p = cc
