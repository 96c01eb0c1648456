-- ===== src/Executor/RowLaws.antt =====
-- The rows that src/executor.c builds with a generated id.
use bptree_sql_engine.Prelude.{
  ℕ, zero, suc, ◌<◌, ◌≡◌, ◌≢◌, refl, ap, ◌∙◌, subst, false, none, some, List, [], ◌∷◌, arith, ◌==◌,
  Bytes, length, get_elem?, set, length-set, replicate, Result, ok, err, Bool-cases, Option-cases,
  inl, inr,
}
use bptree_sql_engine.Storage.Row.{Row}
use bptree_sql_engine.Schema.Load.{TableSchema, schema_find_column_index}
use bptree_sql_engine.Runtime.Id.{format_uint64}
use bptree_sql_engine.Sql.Ast.{LiteralValue, InsertStatement}
use bptree_sql_engine.Executor.Insert.{
  ExecError, Pairs, pair_values, texts, empty_row_of, add_cell, fill_rest, fill_around,
  place_around, validate_insert_columns_for_auto_id, build_insert_row_with_generated_id,
}

module _ {A : Type 0} where
  pub length-replicate : (n : ℕ) (x : A) → length (replicate n x) ≡ n
  length-replicate zero x = refl
  length-replicate (suc n) x = ap suc (length-replicate n x)

  get_elem?-set : (xs : List A) (i : ℕ) (v : A) → i < length xs → get_elem? (set xs i v) i ≡ some v
  get_elem?-set [] i v h = absurd (omega arith)
  get_elem?-set (x ∷ xs) zero v h = refl
  get_elem?-set (x ∷ xs) (suc i) v h = get_elem?-set xs i v (omega arith)

  get_elem?-set_other :
      (xs : List A) (i j : ℕ) (v : A) → i ≢ j → get_elem? (set xs i v) j ≡ get_elem? xs j
  get_elem?-set_other [] i j v h = refl
  get_elem?-set_other (x ∷ xs) zero zero v h = absurd (h refl)
  get_elem?-set_other (x ∷ xs) zero (suc j) v h = refl
  get_elem?-set_other (x ∷ xs) (suc i) zero v h = refl
  get_elem?-set_other (x ∷ xs) (suc i) (suc j) v h =
      get_elem?-set_other xs i j v (λ e. h (ap suc e))

-- A row with `n` values, among them the id at position `i`.
abbrev pub HasIdAt : ℕ → ℕ → Bytes → Row → Type 0
HasIdAt n i id row = (length row ≡ n) × (get_elem? row i ≡ some id)

abbrev HasIdResult : ℕ → ℕ → Bytes → Result ExecError Row → Type 0
HasIdResult n i id (ok row) = HasIdAt n i id row
HasIdResult n i id (err e) = Unit

-- What a row is like in front of which a cell is put.
abbrev HasLength : ℕ → Result ExecError Row → Type 0
HasLength n (ok row) = length row ≡ n
HasLength n (err e) = Unit

add_cell-HasLength :
    (n : ℕ) (cell : Bytes) (r : Result ExecError Row)
    → HasLength n r
    → HasLength (suc n) (add_cell cell r)
add_cell-HasLength n cell (ok row) h = ap suc h
add_cell-HasLength n cell (err e) h = tt

fill_rest-HasLength : (row values : Row) → HasLength (length row) (fill_rest row values)
fill_rest-HasLength [] values = refl
fill_rest-HasLength (cell ∷ row) [] = tt
fill_rest-HasLength (cell ∷ row) (value ∷ values) =
    add_cell-HasLength (length row) value _ (fill_rest-HasLength row values)

first-HasIdAt :
    (n : ℕ) (id : Bytes) (r : Result ExecError Row)
    → HasLength n r
    → HasIdResult (suc n) zero id (add_cell id r)
first-HasIdAt n id (ok row) h = (ap suc h, refl)
first-HasIdAt n id (err e) h = tt

add_cell-HasIdAt :
    (n i : ℕ) (id cell : Bytes) (r : Result ExecError Row)
    → HasIdResult n i id r
    → HasIdResult (suc n) (suc i) id (add_cell cell r)
add_cell-HasIdAt n i id cell (ok row) h = (ap suc h.0, h.1)
add_cell-HasIdAt n i id cell (err e) h = tt

fill_around-HasIdAt :
    (n i : ℕ) (id : Bytes) (row values : Row)
    → HasIdAt n i id row
    → HasIdResult n i id (fill_around i row values)
unfolding fill_around
fill_around-HasIdAt n i id [] values (e, h) = absurd cc
fill_around-HasIdAt n zero id (cell ∷ row) values (e, h) =
    let same : cell ≡ id = cc h in
    subst (λ m. HasIdResult m zero id (add_cell cell (fill_rest row values))) e
      (subst (λ c. HasIdResult (suc (length row)) zero c (add_cell cell (fill_rest row values)))
        same (first-HasIdAt (length row) cell _ (fill_rest-HasLength row values)))
fill_around-HasIdAt n (suc i) id (cell ∷ row) [] h = tt
fill_around-HasIdAt n (suc i) id (cell ∷ row) (value ∷ values) (e, h) =
    subst (λ m. HasIdResult m (suc i) id (add_cell value (fill_around i row values))) e
      (add_cell-HasIdAt (length row) i id value _
        (fill_around-HasIdAt (length row) i id row values (refl, h)))

differs : (j i : ℕ) → (j == i) ≡ false → j ≢ i
differs j i f g = ground arith

place_around-HasIdAt :
    (schema : TableSchema) (i n : ℕ) (id : Bytes) (pairs : Pairs) (row : Row)
    → HasIdAt n i id row
    → HasIdResult n i id (place_around schema i pairs row)
unfolding place_around
place_around-HasIdAt schema i n id [] row h = h
place_around-HasIdAt schema i n id ((column, none) ∷ pairs) row h =
    elim (Option-cases (schema_find_column_index schema.columns column)) [
      | inl e ↦ rw (e, place_around) tt
      | inr (j, e) ↦ elim (Bool-cases (j == i)) [
        | inl f ↦ rw (e, place_around, f) tt
        | inr f ↦ rw (e, place_around, f) tt
      ]
    ]
place_around-HasIdAt schema i n id ((column, some text) ∷ pairs) row h =
    elim (Option-cases (schema_find_column_index schema.columns column)) [
      | inl e ↦ rw (e, place_around) tt
      | inr (j, e) ↦ elim (Bool-cases (j == i)) [
        | inl f ↦ rw (e, place_around, f) tt
        | inr f ↦
            rw (e, place_around, f)
              (place_around-HasIdAt schema i n id pairs (set row j text) (
                length-set row j text ∙ h.0,
                get_elem?-set_other row j i text (λ g. differs j i f g) ∙ h.1,
              ))
      ]
    ]

-- The row before the values are placed.
start-HasIdAt :
    (schema : TableSchema) (i : ℕ) (id : Bytes)
    → i < length schema.columns
    → HasIdAt (length schema.columns) i id (set (empty_row_of schema) i id)
start-HasIdAt schema i id h =
    let columns : length (empty_row_of schema) ≡ length schema.columns =
      length-replicate (length schema.columns) [] in
    (
      length-set (empty_row_of schema) i id ∙ columns,
      get_elem?-set (empty_row_of schema) i id (omega (arith, h, columns)),
    )

built-HasIdAt :
    (schema : TableSchema) (i id : ℕ) (name : Bytes) (columns : List Bytes)
    (values : List LiteralValue)
    → i < length schema.columns
    → validate_insert_columns_for_auto_id schema i
        (record { table_name = name; columns = columns; values = values })
      ≡ ok tt
    → HasIdResult (length schema.columns) i (format_uint64 id) (
        build_insert_row_with_generated_id schema i
          (record { table_name = name; columns = columns; values = values })
          id)
unfolding validate_insert_columns_for_auto_id build_insert_row_with_generated_id
built-HasIdAt schema i id name [] values h v =
    fill_around-HasIdAt (length schema.columns) i (format_uint64 id) _ (texts values)
      (start-HasIdAt schema i (format_uint64 id) h)
built-HasIdAt schema i id name (column ∷ columns) values h v =
    place_around-HasIdAt schema i (length schema.columns) (format_uint64 id)
      (pair_values (column ∷ columns) values) _ (start-HasIdAt schema i (format_uint64 id) h)

-- The row for a generated id, of a statement that the checks pass, has a value for each column and
-- the decimal print of the id in the id column.
pub build_insert_row-HasIdAt :
    (schema : TableSchema) (i id : ℕ) (stmt : InsertStatement) (row : Row)
    → i < length schema.columns
    → validate_insert_columns_for_auto_id schema i stmt ≡ ok tt
    → build_insert_row_with_generated_id schema i stmt id ≡ ok row
    → HasIdAt (length schema.columns) i (format_uint64 id) row
build_insert_row-HasIdAt schema i id stmt row h v e =
    subst (HasIdResult (length schema.columns) i (format_uint64 id)) e
      (built-HasIdAt schema i id stmt.table_name stmt.columns stmt.values h v)
