-- ===== src/Schema/LoadLaws.antt =====
-- What a schema that `load_table_schema` of src/schema.c has loaded is like.
use bptree_sql_engine.Prelude.{
  ◌<◌, length, arith, ◌⊎◌, if◌then◌else◌, ◌>>=◌, ℕ, zero, suc, ◌≡◌, ◌≢◌, refl, ap, subst, Bool,
  true, false, ◌||◌, Option, none, some, List, [], ◌∷◌, ◌++◌, Bytes, All, All-append, Result, ok,
  err, Bool-cases, Option-cases, inl, inr,
}
use bptree_sql_engine.Storage.File.{Disk, bytes_eq, Stream, read_line}
use bptree_sql_engine.Storage.FileLaws.{Shrinks, read_line-Shrinks}
use bptree_sql_engine.Storage.TableLaws.{bytes_eq_refl, bytes_eq→eq}
use bptree_sql_engine.Schema.Trim.{trim_in_place}
use bptree_sql_engine.Schema.Load.{
  TableSchema, SchemaError, contains, read_columns, checked_schema, schema_of, schema_path,
  load_table_schema,
}

-- No column stands twice.
abbrev pub DistinctColumns : List Bytes → Type 0
DistinctColumns [] = Unit
DistinctColumns (column ∷ columns) = (contains columns column ≡ false) × DistinctColumns columns

-- The columns of a table: there is one, none is empty, and none stands twice.
pub record AreColumns (columns : List Bytes) : Type 0 where
  pub distinct : DistinctColumns columns
  pub filled : All (λ column. column ≢ []) columns

pub bytes_eq-false : (xs ys : Bytes) → bytes_eq xs ys ≡ false → bytes_eq ys xs ≡ false
bytes_eq-false xs ys e = elim (Bool-cases (bytes_eq ys xs)) [
  | inl f ↦ absurd (cc (e, ap (bytes_eq xs) (bytes_eq→eq ys xs f), bytes_eq_refl xs))
  | inr f ↦ f
]

pub both-false : (a b : Bool) → (a || b) ≡ false → (a ≡ false) × (b ≡ false)
both-false true b e = absurd cc
both-false false b e = (refl, e)

pub contains-last :
    (columns : List Bytes) (line column : Bytes)
    → bytes_eq line column ≡ false
    → contains columns column ≡ false
    → contains (columns ++ line ∷ []) column ≡ false
unfolding contains
contains-last [] line column e h = rw e refl
contains-last (c ∷ columns) line column e h =
    let (here, later) = both-false (bytes_eq c column) (contains columns column) h in
    rw here (contains-last columns line column e later)

DistinctColumns-last :
    (columns : List Bytes) (line : Bytes)
    → contains columns line ≡ false
    → DistinctColumns columns
    → DistinctColumns (columns ++ line ∷ [])
unfolding contains
DistinctColumns-last [] line h d = (refl, tt)
DistinctColumns-last (c ∷ columns) line h d =
    let (here, later) = both-false (bytes_eq c line) (contains columns line) h in
    (
      contains-last columns line c (bytes_eq-false c line here) d.0,
      DistinctColumns-last columns line later d.1,
    )

AreColumns-last :
    (columns : List Bytes) (c : ℕ) (cs : Bytes)
    → AreColumns columns
    → contains columns (c ∷ cs) ≡ false
    → AreColumns (columns ++ (c ∷ cs) ∷ [])
AreColumns-last columns c cs h e = record {
  distinct = DistinctColumns-last columns (c ∷ cs) e h.distinct;
  filled = All-append (λ column. column ≢ []) columns ((c ∷ cs) ∷ []) h.filled ((λ f. cc), tt);
}

abbrev ColumnsResult : Result SchemaError (List Bytes) → Type 0
ColumnsResult (ok columns) = AreColumns columns
ColumnsResult (err e) = Unit

Bytes-cases : (line : Bytes) → (line ≡ []) ⊎ ((c : ℕ) × (cs : Bytes) × (line ≡ c ∷ cs))
Bytes-cases [] = inl refl
Bytes-cases (c ∷ cs) = inr (c, cs, refl)

read_columns-AreColumns :
    (fuel : ℕ) (stream : Stream) (columns : List Bytes)
    → AreColumns columns
    → ColumnsResult (read_columns fuel stream columns)
unfolding read_columns
read_columns-AreColumns zero stream columns h = h
read_columns-AreColumns (suc fuel) stream columns h = elim (Option-cases (read_line stream)) [
  | inl e ↦ rw (e, read_columns) h
  | inr ((text, stream'), e) ↦ elim (Bytes-cases (trim_in_place text)) [
    | inl f ↦ rw (e, read_columns, f) (read_columns-AreColumns fuel stream' columns h)
    | inr (c, cs, f) ↦ elim (Bool-cases (contains columns (c ∷ cs))) [
      | inl g ↦ rw (e, read_columns, f, g) tt
      | inr g ↦
          rw (e, read_columns, f, g)
            (read_columns-AreColumns fuel stream' (columns ++ (c ∷ cs) ∷ [])
              (AreColumns-last columns c cs h g))
    ]
  ]
]

abbrev SchemaResult : Bytes → Result SchemaError TableSchema → Type 0
SchemaResult name (ok schema) =
    (schema.table_name ≡ name) × (schema.columns ≢ []) × AreColumns schema.columns
SchemaResult name (err e) = Unit

checked_schema-SchemaResult :
    (name : Bytes) (r : Result SchemaError (List Bytes))
    → ColumnsResult r
    → SchemaResult name (r >>= λ columns. checked_schema name columns)
checked_schema-SchemaResult name (err e) h = tt
checked_schema-SchemaResult name (ok []) h = tt
checked_schema-SchemaResult name (ok (column ∷ columns)) h = (refl, (λ e. cc), h)

schema_of-SchemaResult :
    (name : Bytes) (content : Option Bytes) → SchemaResult name (schema_of name content)
schema_of-SchemaResult name none = tt
schema_of-SchemaResult name (some content) =
    checked_schema-SchemaResult name _
      (read_columns-AreColumns _ _ [] (record { distinct = tt; filled = tt }))

-- A schema that is loaded has the name of the table and at least one column; none of its columns is
-- empty, and none stands twice.
pub load_schema-AreColumns :
    (disk : Disk) (db_dir name : Bytes) (schema : TableSchema)
    → load_table_schema disk db_dir name ≡ ok schema
    → (schema.table_name ≡ name) × (schema.columns ≢ []) × AreColumns schema.columns
unfolding load_table_schema
load_schema-AreColumns disk db_dir name schema e = subst (SchemaResult name) e (
    either (disk.refused (schema_path db_dir name))
      (schema_of-SchemaResult name (disk.file (schema_path db_dir name))))
  where
    either :
        (b : Bool)
        → SchemaResult name (schema_of name (disk.file (schema_path db_dir name)))
        → SchemaResult name (
            if b
            then err SchemaError.cannot_open_schema
            else schema_of name (disk.file (schema_path db_dir name)))
    either true h = tt
    either false h = h

-- Fuel above the number of bytes is as good as any other such fuel: the loop over the lines of a
-- schema file ends by itself.
pub read_columns_fuel :
    (fuel fuel' position : ℕ) (cs : Bytes) (columns : List Bytes)
    → length cs < fuel
    → length cs < fuel'
    → read_columns fuel (record { position = position; rest = cs }) columns
      ≡ read_columns fuel' (record { position = position; rest = cs }) columns
unfolding read_columns
read_columns_fuel zero fuel' position cs columns h h' = absurd (omega arith)
read_columns_fuel (suc fuel) zero position cs columns h h' = absurd (omega arith)
read_columns_fuel (suc fuel) (suc fuel') position cs columns h h' =
    elim (Option-cases (read_line (record { position = position; rest = cs }))) [
      | inl e ↦ rw (e, read_columns)
      | inr ((text, stream'), e) ↦
          let shorter = subst (Shrinks (length cs)) e (read_line-Shrinks position cs) in
          let later : (l : List Bytes)
              → read_columns fuel stream' l ≡ read_columns fuel' stream' l =
            λ l.
              read_columns_fuel fuel fuel' stream'.position stream'.rest l (omega (arith, shorter))
                (omega (arith, shorter)) in
          elim (Bytes-cases (trim_in_place text)) [
            | inl f ↦ rw (e, read_columns, f) (later columns)
            | inr (c, cs, f) ↦ elim (Bool-cases (contains columns (c ∷ cs))) [
              | inl g ↦ rw (e, read_columns, f, g)
              | inr g ↦ rw (e, read_columns, f, g) (later (columns ++ (c ∷ cs) ∷ []))
            ]
          ]
    ]
