-- ===== src/Schema/Written.antt =====
-- The schema file of a table, written one column a line, as `load_table_schema` of src/schema.c
-- reads it.
use bptree_sql_engine.Prelude.{
  ℕ, zero, suc, ◌+◌, ◌<◌, ◌≡◌, ◌≢◌, refl, sym, ap, ◌∙◌, subst, false, none, some, List, [], ◌∷◌,
  ◌++◌, append_assoc, append-nil, Bytes, length, length-append, All, ok, arith,
}
use bptree_sql_engine.Storage.Field.{newline}
use bptree_sql_engine.Storage.File.{Disk, bytes_eq, strip_cr, read_line}
use bptree_sql_engine.Storage.FieldLaws.{Lacks}
use bptree_sql_engine.Storage.FileLaws.{read_line-line}
use bptree_sql_engine.Schema.Trim.{is_space, trim_start, trim_end, trim_in_place}
use bptree_sql_engine.Schema.Load.{contains, read_columns, schema_path, load_table_schema}
use bptree_sql_engine.Schema.LoadLaws.{DistinctColumns, bytes_eq-false, both-false, contains-last}

-- The columns, one a line.
unfoldable pub write_columns : List Bytes → Bytes
write_columns [] = []
write_columns (column ∷ columns) = column ++ newline ∷ write_columns columns

abbrev Solid : Bytes → Type 0
Solid = All (λ c. is_space c ≡ false)

-- A name without white space, which is not empty.
abbrev pub IsName : Bytes → Type 0
IsName name = (name ≢ []) × Solid name

Solid-Lacks : (name : Bytes) → Solid name → Lacks newline name
unfolding is_space
Solid-Lacks [] h = tt
Solid-Lacks (c ∷ cs) (h, hs) = ((λ e. cc (subst (λ b. is_space b ≡ false) e h)), Solid-Lacks cs hs)

Solid-strip_cr : (name : Bytes) → Solid name → strip_cr name ≡ name
unfolding strip_cr is_space
Solid-strip_cr [] h = refl
Solid-strip_cr (c ∷ []) h = ground arith
Solid-strip_cr (c ∷ d ∷ cs) (h, hs) = ap (λ l. c ∷ l) (Solid-strip_cr (d ∷ cs) hs)

Solid-trim_end : (name : Bytes) → Solid name → trim_end name ≡ name
unfolding trim_end
Solid-trim_end [] h = refl
Solid-trim_end (c ∷ cs) (h, hs) = rw h (ap (λ l. c ∷ l) (Solid-trim_end cs hs))

Solid-trim_in_place : (name : Bytes) → Solid name → trim_in_place name ≡ name
unfolding trim_in_place trim_start
Solid-trim_in_place [] h = refl
Solid-trim_in_place (c ∷ cs) (h, hs) = rw h (Solid-trim_end (c ∷ cs) (h, hs))

-- The columns that are to be read are not among those that were read.
abbrev Fresh : List Bytes → List Bytes → Type 0
Fresh columns = All (λ column. contains columns column ≡ false)

Fresh-last :
    (columns : List Bytes) (name : Bytes) (names : List Bytes)
    → Fresh columns names
    → contains names name ≡ false
    → Fresh (columns ++ name ∷ []) names
unfolding contains
Fresh-last columns name [] h e = tt
Fresh-last columns name (next ∷ names) (h, hs) e =
    let (here, later) = both-false (bytes_eq next name) (contains names name) e in
    (
      contains-last columns name next (bytes_eq-false next name here) h,
      Fresh-last columns name names hs later,
    )

Fresh-nothing : (names : List Bytes) → Fresh [] names
unfolding contains
Fresh-nothing [] = tt
Fresh-nothing (name ∷ names) = (refl, Fresh-nothing names)

read_line-end : (position : ℕ) → read_line (record { position = position; rest = [] }) ≡ none
unfolding read_line
read_line-end position = refl

read_columns-write_columns :
    (fuel position : ℕ) (names columns : List Bytes)
    → length (write_columns names) < fuel
    → All IsName names
    → DistinctColumns names
    → Fresh columns names
    → read_columns fuel (record { position = position; rest = write_columns names }) columns
      ≡ ok (columns ++ names)
unfolding read_columns write_columns
read_columns-write_columns zero position names columns l h d f = absurd (omega arith)
read_columns-write_columns (suc fuel) position [] columns l h d f =
    rw (read_columns, read_line-end position) (ap (λ r. ok r) (sym (append-nil columns)))
read_columns-write_columns (suc fuel) position ([] ∷ names) columns l h d f = absurd (h.0.0 refl)
read_columns-write_columns (suc fuel) position ((c ∷ cs) ∷ names) columns l (h, hs) (e, d) (f, fs) =
    let line : read_line (record { position = position; rest = write_columns ((c ∷ cs) ∷ names) })
        ≡ some (
          c ∷ cs,
          record { position = position + length (c ∷ cs) + 1; rest = write_columns names },
        ) =
      read_line-line (c ∷ cs) (write_columns names) position (Solid-Lacks (c ∷ cs) h.1)
      ∙ ap
          (λ t.
            some
              (t, record { position = position + length (c ∷ cs) + 1; rest = write_columns names }))
          (Solid-strip_cr (c ∷ cs) h.1) in
    let shorter : length (write_columns names) < fuel =
      omega (arith, l, length-append (c ∷ cs) (newline ∷ write_columns names)) in
    let later =
      read_columns-write_columns fuel (position + length (c ∷ cs) + 1) names
        (columns ++ (c ∷ cs) ∷ []) shorter hs d (Fresh-last columns (c ∷ cs) names fs e) in
    rw (read_columns, line, Solid-trim_in_place (c ∷ cs) h.1, f)
      (later ∙ ap (λ r. ok r) (append_assoc columns ((c ∷ cs) ∷ []) names))

-- A schema file that was written with one column a line, names without white space of which none
-- stands twice, is loaded as these columns in their order.
pub load_schema-write_columns :
    (disk : Disk) (db_dir name : Bytes) (columns : List Bytes)
    → columns ≢ []
    → All IsName columns
    → DistinctColumns columns
    → disk.refused (schema_path db_dir name) ≡ false
    → disk.file (schema_path db_dir name) ≡ some (write_columns columns)
    → load_table_schema disk db_dir name ≡ ok (record { table_name = name; columns = columns })
unfolding load_table_schema
load_schema-write_columns disk db_dir name [] n h d r f = absurd (n refl)
load_schema-write_columns disk db_dir name (column ∷ columns) n h d r f = rw (
  r,
  f,
  read_columns-write_columns (suc (length (write_columns (column ∷ columns)))) 0 (column ∷ columns)
      [] (omega arith) h d (Fresh-nothing (column ∷ columns)),
)
