-- ===== src/Database/Values.antt =====
-- The rows that src/executor.c builds hold only values of the statement, the id and empty values.
use bptree_sql_engine.Prelude.{
  ℕ, zero, suc, ◌+◌, ◌-◌, ◌<◌, arith, Option, none, some, ◌==◌, ◌≡◌, refl, ap, ◌∙◌, subst, Bool,
  true, false, List, [], ◌∷◌, Bytes, length, set, length-set, All, guard, ◌>>◌, ==→eq, Result, ok,
  Bool-cases, Option-cases, inl, inr,
}
use bptree_sql_engine.Storage.Row.{Row}
use bptree_sql_engine.Schema.Load.{TableSchema, schema_find_column_index}
use bptree_sql_engine.Runtime.Id.{format_uint64}
use bptree_sql_engine.Sql.Ast.{LiteralValue, InsertStatement}
use bptree_sql_engine.Executor.Insert.{
  ExecError, Pairs, pair_values, texts, place_values, none_seen, empty_row_of,
  build_insert_row_existing_behavior, place_around, build_insert_row_with_generated_id, seen_at,
  add_cell, fill_rest, fill_around, value_count_mismatch, check_columns,
  validate_insert_columns_for_auto_id,
}
use bptree_sql_engine.Executor.RowLaws.{length-replicate}
use bptree_sql_engine.Database.Kept.{
  Keeps, AllKeep, format-Keeps, set-AllKeep, replicate-AllKeep, ValuesKeep, texts-AllKeep, Placed,
  fill_around-Placed,
}

-- A text that is read; none is read behind the last value.
abbrev TextKeeps : Option Bytes → Type 0
TextKeeps none = Unit
TextKeeps (some text) = Keeps text

abbrev PairsKeep : Pairs → Type 0
PairsKeep = All (λ p. TextKeeps p.1)

pair_values-PairsKeep :
    (columns : List Bytes) (values : List LiteralValue)
    → ValuesKeep values
    → PairsKeep (pair_values columns values)
pair_values-PairsKeep [] values h = tt
pair_values-PairsKeep (column ∷ columns) [] h = (tt, pair_values-PairsKeep columns [] tt)
pair_values-PairsKeep (column ∷ columns) (value ∷ values) h =
    (h.0, pair_values-PairsKeep columns values h.1)

set-Placed :
    (n i : ℕ) (row : Row) (text : Bytes)
    → (length row ≡ n) × AllKeep row
    → Keeps text
    → (length (set row i text) ≡ n) × AllKeep (set row i text)
set-Placed n i row text (e, h) k = (length-set row i text ∙ e, set-AllKeep row i text h k)

place_values-Placed :
    (schema : TableSchema) (n : ℕ) (pairs : Pairs) (seen : List Bool) (row : Row)
    → PairsKeep pairs
    → (length row ≡ n) × AllKeep row
    → Placed n (place_values schema pairs seen row)
unfolding place_values
place_values-Placed schema n [] seen row k h = h
place_values-Placed schema n ((column, none) ∷ pairs) seen row (k, ks) h =
    elim (Option-cases (schema_find_column_index schema.columns column)) [
      | inl e ↦ rw (e, place_values) tt
      | inr (i, e) ↦ elim (Bool-cases (seen_at seen i)) [
        | inl f ↦ rw (e, place_values, f) tt
        | inr f ↦ rw (e, place_values, f) tt
      ]
    ]
place_values-Placed schema n ((column, some text) ∷ pairs) seen row (k, ks) h =
    elim (Option-cases (schema_find_column_index schema.columns column)) [
      | inl e ↦ rw (e, place_values) tt
      | inr (i, e) ↦ elim (Bool-cases (seen_at seen i)) [
        | inl f ↦ rw (e, place_values, f) tt
        | inr f ↦
            rw (e, place_values, f)
              (place_values-Placed schema n pairs (set seen i true) (set row i text) ks
                (set-Placed n i row text h k))
      ]
    ]

place_around-Placed :
    (schema : TableSchema) (i n : ℕ) (pairs : Pairs) (row : Row)
    → PairsKeep pairs
    → (length row ≡ n) × AllKeep row
    → Placed n (place_around schema i pairs row)
unfolding place_around
place_around-Placed schema i n [] row k h = h
place_around-Placed schema i n ((column, none) ∷ pairs) row (k, ks) h =
    elim (Option-cases (schema_find_column_index schema.columns column)) [
      | inl e ↦ rw (e, place_around) tt
      | inr (j, e) ↦ elim (Bool-cases (j == i)) [
        | inl f ↦ rw (e, place_around, f) tt
        | inr f ↦ rw (e, place_around, f) tt
      ]
    ]
place_around-Placed schema i n ((column, some text) ∷ pairs) row (k, ks) h =
    elim (Option-cases (schema_find_column_index schema.columns column)) [
      | inl e ↦ rw (e, place_around) tt
      | inr (j, e) ↦ elim (Bool-cases (j == i)) [
        | inl f ↦ rw (e, place_around, f) tt
        | inr f ↦
            rw (e, place_around, f)
              (place_around-Placed schema i n pairs (set row j text) ks
                (set-Placed n j row text h k))
      ]
    ]

length-texts : (values : List LiteralValue) → length (texts values) ≡ length values
length-texts [] = refl
length-texts (value ∷ values) = ap suc (length-texts values)

empty-Placed :
    (schema : TableSchema)
    → (length (empty_row_of schema) ≡ length schema.columns) × AllKeep (empty_row_of schema)
empty-Placed schema =
    (length-replicate (length schema.columns) [], replicate-AllKeep (length schema.columns))

guarded-Placed :
    (n : ℕ) (b : Bool) (e : ExecError) (r : Result ExecError Row)
    → (b ≡ true → Placed n r)
    → Placed n (guard b e >> r)
guarded-Placed n true e r h = h refl
guarded-Placed n false e r h = tt

existing-Placed :
    (schema : TableSchema) (name : Bytes) (columns : List Bytes) (values : List LiteralValue)
    → ValuesKeep values
    → Placed (length schema.columns) (
        build_insert_row_existing_behavior schema
          (record { table_name = name; columns = columns; values = values }))
unfolding build_insert_row_existing_behavior
existing-Placed schema name [] values k =
    guarded-Placed (length schema.columns) _ _ (ok (texts values)) λ e. (
      length-texts values ∙ ==→eq (length values) (length schema.columns) e,
      texts-AllKeep values k,
    )
existing-Placed schema name (column ∷ columns) values k =
    guarded-Placed (length schema.columns) _ _ _ λ e.
      place_values-Placed schema (length schema.columns) (pair_values (column ∷ columns) values)
        (none_seen schema) (empty_row_of schema) (pair_values-PairsKeep (column ∷ columns) values k)
        (empty-Placed schema)

generated-AllKeep :
    (schema : TableSchema) (i id : ℕ) (name : Bytes) (columns : List Bytes)
    (values : List LiteralValue)
    → ValuesKeep values
    → Placed (length schema.columns) (
        build_insert_row_with_generated_id schema i
          (record { table_name = name; columns = columns; values = values })
          id)
unfolding build_insert_row_with_generated_id
generated-AllKeep schema i id name [] values k =
    let start =
      set-Placed (length schema.columns) i (empty_row_of schema) (format_uint64 id)
        (empty-Placed schema) (format-Keeps id) in
    let row = set (empty_row_of schema) i (format_uint64 id) in
    subst (λ n. Placed n (fill_around i row (texts values))) start.0
      (fill_around-Placed i row (texts values) start.1 (texts-AllKeep values k))
generated-AllKeep schema i id name (column ∷ columns) values k =
    place_around-Placed schema i (length schema.columns) (pair_values (column ∷ columns) values) _
      (pair_values-PairsKeep (column ∷ columns) values k)
      (set-Placed (length schema.columns) i (empty_row_of schema) (format_uint64 id)
        (empty-Placed schema) (format-Keeps id))

-- The row of a table with no id column: a value for each column, and none that ends in `\r` if the
-- statement has none.
pub build_insert_row_existing-Placed :
    (schema : TableSchema) (stmt : InsertStatement) (row : Row)
    → ValuesKeep stmt.values
    → build_insert_row_existing_behavior schema stmt ≡ ok row
    → (length row ≡ length schema.columns) × AllKeep row
build_insert_row_existing-Placed schema stmt row k e =
    subst (Placed (length schema.columns)) e
      (existing-Placed schema stmt.table_name stmt.columns stmt.values k)

pub build_insert_row-AllKeep :
    (schema : TableSchema) (i id : ℕ) (stmt : InsertStatement) (row : Row)
    → ValuesKeep stmt.values
    → build_insert_row_with_generated_id schema i stmt id ≡ ok row
    → AllKeep row
build_insert_row-AllKeep schema i id stmt row k e =
    (subst (Placed (length schema.columns)) e
      (generated-AllKeep schema i id stmt.table_name stmt.columns stmt.values k)).1

-- What the checks passed can be placed, with a value for each column.
check_columns-place :
    (schema : TableSchema) (i : ℕ) (columns : List Bytes) (values : List LiteralValue)
    (seen : List Bool) (row : Row)
    → length columns ≡ length values
    → check_columns schema i columns seen ≡ ok tt
    → (row' : Row) × (place_around schema i (pair_values columns values) row ≡ ok row')
unfolding check_columns place_around
check_columns-place schema i [] values seen row l e = (row, refl)
check_columns-place schema i (column ∷ columns) [] seen row l e = absurd cc
check_columns-place schema i (column ∷ columns) (value ∷ values) seen row l e =
    elim (Option-cases (schema_find_column_index schema.columns column)) [
      | inl f ↦ absurd (cc (rw (f, check_columns) at e))
      | inr (j, f) ↦ elim (Bool-cases (j == i)) [
        | inl g ↦ absurd (cc (rw (f, check_columns, g) at e))
        | inr g ↦ elim (Bool-cases (seen_at seen j)) [
          | inl h ↦ absurd (cc (rw (f, check_columns, g, h) at e))
          | inr h ↦
              let (row', placed) =
                check_columns-place schema i columns values (set seen j true) (set row j value.text)
                  (omega (arith, l)) (rw (f, check_columns, g, h) at e) in
              (row', rw (f, place_around, g) placed)
        ]
      ]
    ]

abbrev IsFilled : Result ExecError Row → Type 0
IsFilled r = (row : Row) × (r ≡ ok row)

add_cell-IsFilled :
    (cell : Bytes) (r : Result ExecError Row) → IsFilled r → IsFilled (add_cell cell r)
add_cell-IsFilled cell r (row, e) = (cell ∷ row, ap (add_cell cell) e)

fill_rest-IsFilled :
    (row values : Row) → length values ≡ length row → IsFilled (fill_rest row values)
fill_rest-IsFilled [] values l = ([], refl)
fill_rest-IsFilled (cell ∷ row) [] l = absurd cc
fill_rest-IsFilled (cell ∷ row) (value ∷ values) l =
    add_cell-IsFilled value _ (fill_rest-IsFilled row values (omega (arith, l)))

-- With one value less than cells, no value behind the last is read.
fill_around-IsFilled :
    (i : ℕ) (row values : Row)
    → i < length row
    → length values + 1 ≡ length row
    → IsFilled (fill_around i row values)
unfolding fill_around
fill_around-IsFilled i [] values h l = ([], refl)
fill_around-IsFilled zero (cell ∷ row) values h l =
    add_cell-IsFilled cell _ (fill_rest-IsFilled row values (omega (arith, l)))
fill_around-IsFilled (suc i) (cell ∷ row) [] h l = absurd (omega arith)
fill_around-IsFilled (suc i) (cell ∷ row) (value ∷ values) h l =
    add_cell-IsFilled value _ (fill_around-IsFilled i row values (omega arith) (omega (arith, l)))

guarded-ok :
    (b : Bool) (x : ExecError) (r : Result ExecError (Unit {0}))
    → (guard b x >> r) ≡ ok tt
    → (b ≡ true) × (r ≡ ok tt)
guarded-ok true x r e = (refl, e)
guarded-ok false x r e = absurd cc

guard-ok : (b : Bool) (x : ExecError) → guard b x ≡ ok tt → b ≡ true
guard-ok true x e = refl
guard-ok false x e = absurd cc

built_complete :
    (schema : TableSchema) (i id : ℕ) (name : Bytes) (columns : List Bytes)
    (values : List LiteralValue)
    → i < length schema.columns
    → validate_insert_columns_for_auto_id schema i
        (record { table_name = name; columns = columns; values = values })
      ≡ ok tt
    → IsFilled (
        build_insert_row_with_generated_id schema i
          (record { table_name = name; columns = columns; values = values })
          id)
unfolding validate_insert_columns_for_auto_id build_insert_row_with_generated_id
built_complete schema i id name [] values h e =
    let counted =
      ==→eq (length values) (length schema.columns - 1) (guard-ok _ value_count_mismatch e) in
    let cells : length (set (empty_row_of schema) i (format_uint64 id)) ≡ length schema.columns =
      length-set (empty_row_of schema) i (format_uint64 id)
      ∙ length-replicate (length schema.columns) [] in
    fill_around-IsFilled i _ (texts values) (omega (arith, h, cells))
      (omega (arith, h, cells, counted, length-texts values))
built_complete schema i id name (column ∷ columns) values h e =
    let (counted, checked) = guarded-ok (length (column ∷ columns) == length values) _ _ e in
    check_columns-place schema i (column ∷ columns) values (none_seen schema) _
      (==→eq (length (column ∷ columns)) (length values) counted) checked

-- A statement that passes the checks, on a table with the id column at a position of its columns, has
-- a row for every generated id: the build of the row does not fail behind them, and it reads no value
-- behind the last one, neither where the columns are named nor where they are not.
pub build_insert_row_complete :
    (schema : TableSchema) (i id : ℕ) (stmt : InsertStatement)
    → i < length schema.columns
    → validate_insert_columns_for_auto_id schema i stmt ≡ ok tt
    → (row : Row) × (build_insert_row_with_generated_id schema i stmt id ≡ ok row)
build_insert_row_complete schema i id stmt h e =
    built_complete schema i id stmt.table_name stmt.columns stmt.values h e
