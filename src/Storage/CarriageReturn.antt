-- ===== src/Storage/CarriageReturn.antt =====
-- What becomes of a `\r` at the end of a row, which `escape_field` of src/storage.c leaves as it is
-- and `read_line` drops.
use bptree_sql_engine.Prelude.{
  ℕ, ◌+◌, ◌≡◌, ◌≢◌, subst, refl, ap, ◌∙◌, some, [], ◌∷◌, ◌++◌, append_assoc, append-nil, Bytes,
  length, drop-length-append, ok,
}
use bptree_sql_engine.Storage.Field.{escape_byte, escape_field}
use bptree_sql_engine.Storage.Row.{Row, write_fields, write_row}
use bptree_sql_engine.Storage.RowLaws.{line_of, line_of-Lacks, parse_line-write}
use bptree_sql_engine.Storage.File.{Disk, strip_cr, read_line}
use bptree_sql_engine.Storage.FileLaws.{read_line-line, strip_cr-append}
use bptree_sql_engine.Storage.Table.{
  append_row_to_table_with_offset, row_of_line, read_row_of, read_row_at_offset,
}
use bptree_sql_engine.Storage.TableLaws.{
  write_row-line, Appends, append_lem, read_row-path, content_of,
}

escape_field-cr :
    (value : Bytes) → escape_field (value ++ b'\r' ∷ []) ≡ escape_field value ++ b'\r' ∷ []
unfolding escape_field escape_byte
escape_field-cr [] = refl
escape_field-cr (c ∷ value) =
    rw (escape_field-cr value, append_assoc (escape_byte c) (escape_field value) (b'\r' ∷ []))

write_fields-last :
    (values : Row) (value : Bytes)
    → write_fields (values ++ (value ++ b'\r' ∷ []) ∷ [])
      ≡ write_fields (values ++ value ∷ []) ++ b'\r' ∷ []
unfolding write_fields
write_fields-last [] value = rw (
  append-nil (escape_field (value ++ b'\r' ∷ [])),
  append-nil (escape_field value),
  escape_field-cr value,
)
write_fields-last (v ∷ values) value = rw (
  write_fields-last values value,
  append_assoc (escape_field v) (write_fields (values ++ value ∷ [])) (b'\r' ∷ []),
)

line_of-cr :
    (values : Row) (value : Bytes)
    → line_of (values ++ (value ++ b'\r' ∷ []) ∷ []) ≡ line_of (values ++ value ∷ []) ++ b'\r' ∷ []
unfolding write_fields
line_of-cr [] value = rw (
  append-nil (escape_field (value ++ b'\r' ∷ [])),
  append-nil (escape_field value),
  escape_field-cr value,
)
line_of-cr (v ∷ values) value = rw (
  write_fields-last values value,
  append_assoc (escape_field v) (write_fields (values ++ value ∷ [])) (b'\r' ∷ []),
)

read_line-cr :
    (values : Row) (value : Bytes) (position : ℕ)
    → read_line
        (record { position = position; rest = write_row (values ++ (value ++ b'\r' ∷ []) ∷ []) })
      ≡ some (
        line_of (values ++ value ∷ []),
        record {
          position = position + length (line_of (values ++ (value ++ b'\r' ∷ []) ∷ [])) + 1;
          rest = [];
        },
      )
read_line-cr values value position = rw (write_row-line (values ++ (value ++ b'\r' ∷ []) ∷ [])) (
    read_line-line (line_of (values ++ (value ++ b'\r' ∷ []) ∷ [])) [] position
      (line_of-Lacks (values ++ (value ++ b'\r' ∷ []) ∷ []))
    ∙ ap
        (λ l. some (
          l,
          record {
            position = position + length (line_of (values ++ (value ++ b'\r' ∷ []) ∷ [])) + 1;
            rest = [];
          },
        ))
        (ap strip_cr (line_of-cr values value) ∙ strip_cr-append (line_of (values ++ value ∷ []))))

snoc-ne-nil : (values : Row) (value : Bytes) → values ++ value ∷ [] ≢ []
snoc-ne-nil [] value = cc
snoc-ne-nil (v ∷ values) value = cc

-- A carriage return at the end of the last value of a row is lost: the row that was appended with
-- the last value `value ++ \r` is read back with the last value `value`.
pub read-append_cr :
    (disk disk' : Disk) (db_dir table_name : Bytes) (values : Row) (value : Bytes) (row_offset : ℕ)
    → append_row_to_table_with_offset disk db_dir table_name (values ++ (value ++ b'\r' ∷ []) ∷ [])
      ≡ ok (disk', row_offset)
    → read_row_at_offset disk' db_dir table_name row_offset (length (values ++ value ∷ []))
      ≡ ok (values ++ value ∷ [])
read-append_cr disk disk' db_dir table_name values value row_offset e =
    let row = values ++ (value ++ b'\r' ∷ []) ∷ [] in
    let n = length (values ++ value ∷ []) in
    let (at, content, open_to) =
      subst (Appends disk db_dir table_name row) e (append_lem disk db_dir table_name row) in
    let before = content_of disk db_dir table_name in
    read_row-path disk' db_dir table_name row_offset n open_to
    ∙ ap (λ o. read_row_of row_offset n o) content
    ∙ ap (λ (k : ℕ). read_row_of k n (some (before ++ write_row row))) at
    ∙ rw (
      drop-length-append before (write_row row),
      read_line-cr values value (length before),
      parse_line-write (values ++ value ∷ []) (snoc-ne-nil values value),
      row_of_line,
    )
