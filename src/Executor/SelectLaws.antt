-- ===== src/Executor/SelectLaws.antt =====
-- The two ways of answering a SELECT agree.
use bptree_sql_engine.Prelude.{
  ℕ, ◌+◌, ◌≡◌, refl, sym, ap, ◌∙◌, subst, true, false, Option, none, some, List, [], ◌∷◌, ◌++◌,
  append_assoc, ◌==◌, ==→eq, Bytes, length, length-append, get_elem?, All, Result, ok, Bool-cases,
  inl, inr,
}
use bptree_sql_engine.Bptree.Search.{scan_leaf}
use bptree_sql_engine.Storage.Row.{Row, write_row}
use bptree_sql_engine.Storage.File.{Disk}
use bptree_sql_engine.Storage.Table.{read_row_of}
use bptree_sql_engine.Storage.TableLaws.{IsRow, write_rows, read_row_of-write, read_row-path}
use bptree_sql_engine.Schema.Load.{TableSchema, schema_find_column_index}
use bptree_sql_engine.Runtime.Id.{parse_canonical_positive_uint64}
use bptree_sql_engine.Runtime.Index.{stored_id}
use bptree_sql_engine.Runtime.Context.{TableRuntime, id_name}
use bptree_sql_engine.Runtime.Located.{located, Distinct}
use bptree_sql_engine.Runtime.Built.{HasId}
use bptree_sql_engine.Sql.Ast.{WhereClause, SelectStatement}
use bptree_sql_engine.Executor.Insert.{ExecError}
use bptree_sql_engine.Executor.Select.{
  row_matches_where_clause, initialize_query_result_columns, QueryResult, row_result, rows_at,
  selected_with, where_index_of, execute_select_with_id_index, execute_select_with_full_scan,
}
use bptree_sql_engine.Executor.Indexed.{IsIndexed, select_rows, full_scan-select_rows, matches-id}

-- What `execute_select_with_id_index` does with the rows of a file.
module _ (schema : TableSchema) (stmt : SelectStatement) (clause : WhereClause) (i key n : ℕ)
    (has_clause : stmt.where_clause ≡ some clause)
    (is_key : parse_canonical_positive_uint64 clause.value.text ≡ some key) where
  pub matches-row :
      (row : Row) (id : ℕ)
      → stored_id i row ≡ some id
      → row_matches_where_clause stmt (some i) row ≡ (id == key)
  unfolding row_matches_where_clause
  matches-row row id e =
      rw has_clause (matches-id id key (get_elem? row i) clause.value.text e is_key)

  located-here :
      (offset id : ℕ) (row : Row) (rows : List Row)
      → stored_id i row ≡ some id
      → (id == key) ≡ true
      → scan_leaf (located i offset (row ∷ rows)) key ≡ some offset
  unfolding scan_leaf
  located-here offset id row rows e same = rw (e, scan_leaf, same) refl

  located-later :
      (offset id : ℕ) (row : Row) (rows : List Row)
      → stored_id i row ≡ some id
      → (id == key) ≡ false
      → scan_leaf (located i offset (row ∷ rows)) key
        ≡ scan_leaf (located i (offset + length (write_row row)) rows) key
  unfolding scan_leaf
  located-later offset id row rows e other = rw (e, scan_leaf, other) refl

  pub select_rows-absent :
      (offset : ℕ) (rows : List Row)
      → All (HasId i) rows
      → scan_leaf (located i offset rows) key ≡ none
      → select_rows schema stmt (some i) rows ≡ []
  select_rows-absent offset [] h e = refl
  select_rows-absent offset (row ∷ rows) ((id, g), h) e = elim (Bool-cases (id == key)) [
    | inl same ↦ absurd (cc (e, located-here offset id row rows g same))
    | inr other ↦
        rw (matches-row row id g, other)
          (select_rows-absent (offset + length (write_row row)) rows h
            (sym (located-later offset id row rows g other) ∙ e))
  ]

  -- The row at the offset that the index gives, as the result of the SELECT.
  abbrev looked_up : Bytes → Option ℕ → Result ExecError (List Row)
  looked_up content none = ok []
  looked_up content (some offset) = row_result schema stmt i (read_row_of offset n (some content))

  Distinct-row :
      (offset id : ℕ) (row : Row) (rows : List Row)
      → stored_id i row ≡ some id
      → Distinct (located i offset (row ∷ rows))
      → (scan_leaf (located i (offset + length (write_row row)) rows) id ≡ none)
        × Distinct (located i (offset + length (write_row row)) rows)
  Distinct-row offset id row rows g d = rw g at d

  looked_up-select_rows :
      (before : Bytes) (rows : List Row)
      → All (IsRow n) rows
      → All (HasId i) rows
      → Distinct (located i (length before) rows)
      → looked_up (before ++ write_rows rows) (scan_leaf (located i (length before) rows) key)
        ≡ ok (select_rows schema stmt (some i) rows)
  unfolding scan_leaf
  looked_up-select_rows before [] r h d = refl
  looked_up-select_rows before (row ∷ rows) r ((id, g), h) d =
      let rest = Distinct-row (length before) id row rows g d in
      elim (Bool-cases (id == key)) [
        | inl same ↦
            ap (looked_up (before ++ write_rows (row ∷ rows)))
              (located-here (length before) id row rows g same)
            ∙ ap (row_result schema stmt i) (read_row_of-write before (write_rows rows) row n r.0)
            ∙ rw
                (
                  matches-row row id g,
                  same,
                  select_rows-absent (length before + length (write_row row)) rows h (
                      subst
                        (λ j.
                          scan_leaf (located i (length before + length (write_row row)) rows) j
                          ≡ none)
                        (==→eq id key same) rest.0),
                )
                refl
        | inr other ↦
            ap (looked_up (before ++ write_rows (row ∷ rows)))
              (located-later (length before) id row rows g other)
            ∙ ap
                (λ content.
                  looked_up content
                    (scan_leaf (located i (length before + length (write_row row)) rows) key))
                (sym (append_assoc before (write_row row) (write_rows rows)))
            ∙ subst
                (λ (p : ℕ).
                  looked_up ((before ++ write_row row) ++ write_rows rows)
                    (scan_leaf (located i p rows) key)
                  ≡ ok (select_rows schema stmt (some i) (row ∷ rows)))
                (length-append before (write_row row))
                (looked_up-select_rows (before ++ write_row row) rows r.1 h (
                    subst (λ (p : ℕ). Distinct (located i p rows))
                      (sym (length-append before (write_row row))) rest.1)
                  ∙ rw (matches-row row id g, other) refl)
      ]

rows_at-looked_up :
    (disk : Disk) (db_dir : Bytes) (table : TableRuntime) (i key : ℕ) (rows : List Row)
    (stmt : SelectStatement) (clause : WhereClause)
    → IsIndexed table disk db_dir i rows
    → (e : stmt.where_clause ≡ some clause)
    → (g : parse_canonical_positive_uint64 clause.value.text ≡ some key) → (found : Option ℕ)
    → rows_at disk db_dir table stmt i found
      ≡ looked_up table.schema stmt clause i key
          (length table.schema.columns)
          e
          g
          (write_rows rows)
          found
rows_at-looked_up disk db_dir table i key rows stmt clause t e g none = refl
rows_at-looked_up disk db_dir table i key rows stmt clause t e g (some offset) =
    ap (row_result table.schema stmt i) (
      read_row-path disk db_dir table.table_name offset (length table.schema.columns) t.readable
      ∙ ap (read_row_of offset (length table.schema.columns)) t.content)

pub id-column :
    (schema : TableSchema) (clause : WhereClause) (i : ℕ)
    → schema_find_column_index schema.columns id_name ≡ some i
    → clause.column_name ≡ id_name
    → where_index_of schema (some clause) ≡ some i
id-column schema clause i e f = ap (schema_find_column_index schema.columns) f ∙ e

-- What the index path returns: the rows with the key, projected.
pub id_index-select_rows :
    (disk : Disk) (db_dir : Bytes) (table : TableRuntime) (i key : ℕ) (rows : List Row)
    (stmt : SelectStatement) (clause : WhereClause)
    → IsIndexed table disk db_dir i rows
    → stmt.where_clause ≡ some clause
    → parse_canonical_positive_uint64 clause.value.text ≡ some key
    → execute_select_with_id_index disk db_dir table stmt i key
      ≡ ok (
        record {
          columns = initialize_query_result_columns table.schema stmt;
          rows = select_rows table.schema stmt (some i) rows;
        },
        true,
      )
unfolding execute_select_with_id_index
id_index-select_rows disk db_dir table i key rows stmt clause t e g =
    ap (selected_with table stmt true) (
      ap (rows_at disk db_dir table stmt i) (t.index.answers key)
      ∙ rows_at-looked_up disk db_dir table i key rows stmt clause t e g
          (scan_leaf (located i 0 rows) key)
      ∙ looked_up-select_rows table.schema stmt clause i key (length table.schema.columns) e g []
          rows t.shapes t.ids t.index.distinct)

-- On a table that agrees with its file, a SELECT whose condition is that the column `id` is a
-- positive 64-bit number in canonical form: the id index and the full scan, which reads every row,
-- both succeed and return the same columns and rows. They differ in `used_index` alone.
pub id_index-full_scan :
    (disk : Disk) (db_dir : Bytes) (table : TableRuntime) (i key : ℕ) (rows : List Row)
    (stmt : SelectStatement) (clause : WhereClause)
    → IsIndexed table disk db_dir i rows
    → stmt.where_clause ≡ some clause
    → clause.column_name ≡ id_name
    → parse_canonical_positive_uint64 clause.value.text ≡ some key
    → (result : QueryResult) × (execute_select_with_id_index disk db_dir table stmt i key
        ≡ ok (result, true))
      × (execute_select_with_full_scan disk db_dir table stmt ≡ ok (result, false))
id_index-full_scan disk db_dir table i key rows stmt clause t e f g =
    let where_index : where_index_of table.schema stmt.where_clause ≡ some i =
      ap (where_index_of table.schema) e ∙ id-column table.schema clause i t.column_of f in
    (
      _,
      id_index-select_rows disk db_dir table i key rows stmt clause t e g,
      full_scan-select_rows disk db_dir table stmt rows t.readable t.content t.shapes
          ∙ ap
              (λ w. ok (
                record {
                  columns = initialize_query_result_columns table.schema stmt;
                  rows = select_rows table.schema stmt w rows;
                },
                false,
              ))
              where_index,
    )
