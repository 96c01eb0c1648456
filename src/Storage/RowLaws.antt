-- ===== src/Storage/RowLaws.antt =====
-- A row that is written to a line is split into the same fields again.
use bptree_sql_engine.Prelude.{
  ℕ, ◌≡◌, ◌≢◌, refl, ◌∙◌, zero, suc, ◌-◌, ==-refl, replicate, length-take, length-append, false,
  Option, none, some, [], ◌∷◌, ◌++◌, append_assoc, append-nil, arith, Bytes, length, All-append,
}
use bptree_sql_engine.Storage.Field.{
  backslash, pipe, newline, escape_byte, escape_field, unescape_field,
}
use bptree_sql_engine.Storage.FieldLaws.{unescape-escape, Lacks, escape_field-Lacks}
use bptree_sql_engine.Storage.Row.{
  Row, normalized, split_loop, split_escaped_row, normalize_field_count, parse_line_into_row,
  write_fields,
}

split_loop-escape_byte :
    (c : ℕ) (rest : Bytes) (fields : Row) (raw : Bytes)
    → split_loop (escape_byte c ++ rest) fields raw false
      ≡ split_loop rest fields (raw ++ escape_byte c) false
unfolding split_loop escape_byte
split_loop-escape_byte c rest fields raw = ground (
  arith,
  append_assoc raw (backslash ∷ []) (backslash ∷ []),
  append_assoc raw (backslash ∷ []) (pipe ∷ []),
  append_assoc raw (backslash ∷ []) (b'n' ∷ []),
)

split_loop-escape_field :
    (value rest : Bytes) (fields : Row) (raw : Bytes)
    → split_loop (escape_field value ++ rest) fields raw false
      ≡ split_loop rest fields (raw ++ escape_field value) false
unfolding escape_field
split_loop-escape_field [] rest fields raw = rw append-nil
split_loop-escape_field (c ∷ value) rest fields raw = rw (
  append_assoc (escape_byte c) (escape_field value) rest,
  split_loop-escape_byte c (escape_field value ++ rest) fields raw,
  split_loop-escape_field value rest fields (raw ++ escape_byte c),
  append_assoc raw (escape_byte c) (escape_field value),
)

split_loop-pipe :
    (line : Bytes) (fields : Row) (raw value : Bytes)
    → unescape_field raw ≡ some value
    → split_loop (pipe ∷ line) fields raw false ≡ split_loop line (fields ++ value ∷ []) [] false
unfolding split_loop
split_loop-pipe line fields raw value e = rw (e, split_loop)

split_loop-write_fields :
    (row : Row) (value : Bytes) (fields : Row)
    → split_loop (write_fields row) fields (escape_field value) false ≡ some (fields ++ value ∷ row)
unfolding split_loop write_fields
split_loop-write_fields [] value fields = rw (unescape-escape value)
split_loop-write_fields (next ∷ row) value fields = rw (
  split_loop-pipe (escape_field next ++ write_fields row) fields (escape_field value) value
      (unescape-escape value),
  split_loop-escape_field next (write_fields row) (fields ++ value ∷ []) [],
  split_loop-write_fields row next (fields ++ value ∷ []),
  append_assoc fields (value ∷ []) (next ∷ row),
)

-- The line of a row, without its newline.
abbrev pub line_of : Row → Bytes
line_of [] = []
line_of (value ∷ row) = escape_field value ++ write_fields row

-- The line that is written for a row with at least one value is split into the values of the row,
-- whatever bytes they hold.
pub split-write : (row : Row) → row ≢ [] → split_escaped_row (line_of row) ≡ some row
unfolding split_escaped_row
split-write [] h = absurd (h refl)
split-write (value ∷ row) h =
    split_loop-escape_field value (write_fields row) [] [] ∙ split_loop-write_fields row value []

-- The line of a row with at least one value is parsed as this row, whatever bytes its values hold, if
-- as many columns are expected as the row has values.
pub parse_line-write :
    (row : Row) → row ≢ [] → parse_line_into_row (line_of row) (length row) ≡ some row
unfolding parse_line_into_row
parse_line-write row h = rw (split-write row h, ==-refl (length row))

write_fields-Lacks : (row : Row) → Lacks newline (write_fields row)
unfolding write_fields
write_fields-Lacks [] = tt
write_fields-Lacks (value ∷ row) = (
  ground arith,
  All-append _ (escape_field value) (write_fields row) (escape_field-Lacks value)
      (write_fields-Lacks row),
)

-- A line holds no newline.
pub line_of-Lacks : (row : Row) → Lacks newline (line_of row)
line_of-Lacks [] = tt
line_of-Lacks (value ∷ row) =
    All-append _ (escape_field value) (write_fields row) (escape_field-Lacks value)
      (write_fields-Lacks row)

length-replicate {ℓ} : {A : Type ℓ} (n : ℕ) (x : A) → length (replicate n x) ≡ n
length-replicate zero x = refl
length-replicate (suc n) x = omega (arith, length-replicate n x)

length-normalize :
    (fields : Row) (expected : ℕ) → length (normalize_field_count fields expected) ≡ expected
unfolding normalize_field_count
length-normalize fields expected = ground (
  arith,
  length-take expected fields,
  length-append fields (replicate (expected - length fields) []),
  length-replicate {A = Bytes} (expected - length fields) [],
)

length-normalized :
    (fields : Option Row) (expected : ℕ) (row : Row)
    → normalized fields expected ≡ some row
    → length row ≡ expected
length-normalized none expected row e = cc
length-normalized (some fields) expected row e = ground (arith, length-normalize fields expected)

-- Whatever a line holds, a row that is read from it has the expected number of fields.
pub length-parse_line :
    (line : Bytes) (expected : ℕ) (row : Row)
    → parse_line_into_row line expected ≡ some row
    → length row ≡ expected
unfolding parse_line_into_row
length-parse_line line expected row e = length-normalized (split_escaped_row line) expected row e
