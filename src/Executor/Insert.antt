-- ===== src/Executor/Insert.antt =====
-- The rows that src/executor.c builds for an INSERT.
use bptree_sql_engine.Prelude.{
  ℕ, zero, suc, ◌-◌, Bool, true, false, Option, none, some, List, [], ◌∷◌, ◌==◌, Bytes, length, set,
  replicate, Result, ok, err, ◌>>◌, guard,
}
use bptree_sql_engine.Storage.Row.{Row}
use bptree_sql_engine.Storage.Table.{StorageError}
use bptree_sql_engine.Bptree.Insert.{TreeError}
use bptree_sql_engine.Schema.Load.{TableSchema, schema_find_column_index}
use bptree_sql_engine.Runtime.Id.{format_uint64}
use bptree_sql_engine.Runtime.Context.{RuntimeError}
use bptree_sql_engine.Sql.Ast.{LiteralValue, InsertStatement}

-- The errors of src/executor.c, with the module's error where one is passed on with a prefix.
-- `reads_past_values` stands for a read behind the end of `stmt->values`, which C leaves undefined.
pub data ExecError : Type 0 where
  table_error : RuntimeError → ExecError
  storage_failed : StorageError → ExecError
  index_failed : TreeError → ExecError
  value_count_mismatch id_overflow explicit_id invalid_column empty_columns lost_table : ExecError
  reads_past_values : ExecError
  unknown_column duplicate_column : Bytes → ExecError

-- `seen_columns[column_index] != 0`
abbrev pub seen_at : List Bool → ℕ → Bool
seen_at [] i = false
seen_at (b ∷ seen) zero = b
seen_at (b ∷ seen) (suc i) = seen_at seen i

-- The columns with `stmt->values[i].text`; `none` is a read behind the last value.
abbrev pub Pairs : Type 0
Pairs = List (Bytes × Option Bytes)

abbrev pub pair_values : List Bytes → List LiteralValue → Pairs
pair_values [] values = []
pair_values (column ∷ columns) [] = (column, none) ∷ pair_values columns []
pair_values (column ∷ columns) (value ∷ values) =
    (column, some value.text) ∷ pair_values columns values

abbrev pub texts : List LiteralValue → Row
texts [] = []
texts (value ∷ values) = value.text ∷ texts values

-- The loop over the column list of the statement.
unfoldable pub place_values : TableSchema → Pairs → List Bool → Row → Result ExecError Row
place_values schema [] seen row = ok row
place_values schema ((column, text) ∷ pairs) seen row =
    elim (schema_find_column_index schema.columns column) [
      | none ↦ err (unknown_column column)
      | some i ↦ elim (seen_at seen i) [
        | true ↦ err (duplicate_column column)
        | false ↦ elim text [
          | none ↦ err reads_past_values
          | some value ↦ place_values schema pairs (set seen i true) (set row i value)
        ]
      ]
    ]

-- `calloc` of the flags, and of the values with `dup_string("")`
abbrev pub none_seen : TableSchema → List Bool
none_seen schema = replicate (length schema.columns) false

abbrev pub empty_row_of : TableSchema → Row
empty_row_of schema = replicate (length schema.columns) []

unfoldable pub build_insert_row_existing_behavior :
    TableSchema → InsertStatement → Result ExecError Row
build_insert_row_existing_behavior schema stmt = elim stmt.columns [
  | [] ↦
      guard (length stmt.values == length schema.columns) value_count_mismatch
      >> ok (texts stmt.values)
  | _ ∷ _ ↦
      guard (length stmt.columns == length stmt.values) value_count_mismatch
      >> place_values schema (pair_values stmt.columns stmt.values) (none_seen schema)
          (empty_row_of schema)
]

-- The loop over the columns of an INSERT whose id is generated.
unfoldable pub check_columns :
    TableSchema → ℕ → List Bytes → List Bool → Result ExecError (Unit {0})
check_columns schema id_column [] seen = ok tt
check_columns schema id_column (column ∷ columns) seen =
    elim (schema_find_column_index schema.columns column) [
      | none ↦ err (unknown_column column)
      | some i ↦ elim (i == id_column) [
        | true ↦ err explicit_id
        | false ↦ elim (seen_at seen i) [
          | true ↦ err (duplicate_column column)
          | false ↦ check_columns schema id_column columns (set seen i true)
        ]
      ]
    ]

-- Called only where the table has an id column.
unfoldable pub validate_insert_columns_for_auto_id :
    TableSchema → ℕ → InsertStatement → Result ExecError (Unit {0})
validate_insert_columns_for_auto_id schema id_column stmt = elim stmt.columns [
  | [] ↦ guard (length stmt.values == length schema.columns - 1) value_count_mismatch
  | _ ∷ _ ↦
      guard (length stmt.columns == length stmt.values) value_count_mismatch
      >> check_columns schema id_column stmt.columns (none_seen schema)
]

abbrev pub add_cell : Bytes → Result ExecError Row → Result ExecError Row
add_cell cell (err e) = err e
add_cell cell (ok row) = ok (cell ∷ row)

-- The loop over the positions, which takes `stmt->values[value_index]` for each but `id_column`: first
-- behind the id, and then from a position `id_column` places in front of it.
abbrev pub fill_rest : Row → Row → Result ExecError Row
fill_rest [] texts = ok []
fill_rest (cell ∷ row) [] = err reads_past_values
fill_rest (cell ∷ row) (text ∷ texts) = add_cell text (fill_rest row texts)

unfoldable pub fill_around : ℕ → Row → Row → Result ExecError Row
fill_around id_column [] texts = ok []
fill_around zero (id ∷ row) texts = add_cell id (fill_rest row texts)
fill_around (suc id_column) (cell ∷ row) [] = err reads_past_values
fill_around (suc id_column) (cell ∷ row) (text ∷ texts) =
    add_cell text (fill_around id_column row texts)

unfoldable pub place_around : TableSchema → ℕ → Pairs → Row → Result ExecError Row
place_around schema id_column [] row = ok row
place_around schema id_column ((column, text) ∷ pairs) row =
    elim (schema_find_column_index schema.columns column) [
      | none ↦ err invalid_column
      | some i ↦ elim (i == id_column) [
        | true ↦ err invalid_column
        | false ↦ elim text [
          | none ↦ err reads_past_values
          | some value ↦ place_around schema id_column pairs (set row i value)
        ]
      ]
    ]

unfoldable pub build_insert_row_with_generated_id :
    TableSchema → ℕ → InsertStatement → ℕ → Result ExecError Row
build_insert_row_with_generated_id schema id_column stmt generated_id =
    let row = set (empty_row_of schema) id_column (format_uint64 generated_id) in
    elim stmt.columns [
      | [] ↦ fill_around id_column row (texts stmt.values)
      | _ ∷ _ ↦ place_around schema id_column (pair_values stmt.columns stmt.values) row
    ]
