-- ===== src/Storage/TableLaws.antt =====
-- Appending a row and reading it back at its offset.
use bptree_sql_engine.Prelude.{
  ℕ, ◌+◌, ◌≡◌, ◌≢◌, ◌⊎◌, inl, subst, refl, sym, ap, ◌∙◌, true, false, Option, none, some, List, [],
  ◌∷◌, ◌++◌, append_assoc, append-nil, arith, Bytes, length, length-append, drop-length-append,
  Result, ok, err,
}
use bptree_sql_engine.Storage.Field.{newline}
use bptree_sql_engine.Storage.Row.{Row, write_row, parse_line_into_row}
use bptree_sql_engine.Storage.RowLaws.{line_of, parse_line-write}
use bptree_sql_engine.Storage.File.{Disk, bytes_eq, write_file, read_line}
use bptree_sql_engine.Storage.FileLaws.{ends_in_cr, last_value, read_line-row}
use bptree_sql_engine.Storage.Table.{
  StorageError, data_path, ensure_table_data_file, append_row_to_table_with_offset, row_of_line,
  read_row_of, read_row_at_offset,
}

-- A row of a table with `n` columns whose last value does not end in `\r`.
pub record IsRow (n : ℕ) (row : Row) : Type 0 where
  pub nonempty : row ≢ []
  pub columns : length row ≡ n
  pub ends : ends_in_cr (last_value row) ≡ false

-- The content of a file that rows were written to.
abbrev pub write_rows : List Row → Bytes
write_rows [] = []
write_rows (row ∷ rows) = write_row row ++ write_rows rows

pub write_row-line : (row : Row) → write_row row ≡ line_of row ++ newline ∷ []
unfolding write_row
write_row-line [] = refl
write_row-line (value ∷ row) = refl

pub write_rows-append : (xs ys : List Row) → write_rows (xs ++ ys) ≡ write_rows xs ++ write_rows ys
write_rows-append [] ys = refl
write_rows-append (x ∷ xs) ys =
    rw (write_rows-append xs ys) (sym (append_assoc (write_row x) (write_rows xs) (write_rows ys)))

pub length-write_row : (row : Row) → length (write_row row) ≡ length (line_of row) + 1
length-write_row row =
    ap length (write_row-line row) ∙ omega (arith, length-append (line_of row) (newline ∷ []))

-- Reading from the start of a written row.
pub read_line-write_row :
    (row : Row) (rest : Bytes) (position n : ℕ)
    → IsRow n row
    → read_line (record { position = position; rest = write_row row ++ rest })
      ≡ some (line_of row, record { position = position + length (write_row row); rest = rest })
read_line-write_row row rest position n r =
    rw (write_row-line row, append_assoc (line_of row) (newline ∷ []) rest)
      (read_line-row row rest position r.ends
        ∙ ap (λ p. some (line_of row, record { position = p; rest = rest }))
            (omega (arith, length-append (line_of row) (newline ∷ []))))

pub parse_line-row :
    (row : Row) (n : ℕ) → IsRow n row → parse_line_into_row (line_of row) n ≡ some row
parse_line-row row n r = rw (← r.columns) (parse_line-write row r.nonempty)

-- A row is read at the number of bytes in front of it.
pub read_row_of-write :
    (before rest : Bytes) (row : Row) (n : ℕ)
    → IsRow n row
    → read_row_of (length before) n (some (before ++ (write_row row ++ rest))) ≡ ok row
read_row_of-write before rest row n r = rw (
  drop-length-append before (write_row row ++ rest),
  read_line-write_row row rest (length before) n r,
  parse_line-row row n r,
  row_of_line,
)

pub bytes_eq_refl : (xs : Bytes) → bytes_eq xs xs ≡ true
bytes_eq_refl [] = refl
bytes_eq_refl (x ∷ xs) = ground (arith, bytes_eq_refl xs)

pub bytes_eq→eq : (xs ys : Bytes) → bytes_eq xs ys ≡ true → xs ≡ ys
bytes_eq→eq [] [] h = refl
bytes_eq→eq [] (y ∷ ys) h = cc
bytes_eq→eq (x ∷ xs) [] h = cc
bytes_eq→eq (x ∷ xs) (y ∷ ys) h = ground (arith, bytes_eq→eq xs ys)

-- What is in the file of a table, a missing file counting as an empty one.
abbrev pub stored : Option Bytes → Bytes
stored none = []
stored (some content) = content

abbrev pub content_of : Disk → Bytes → Bytes → Bytes
content_of disk db_dir table_name = stored (disk.file (data_path db_dir table_name))

-- What a call of the append does.
abbrev pub Appends : Disk → Bytes → Bytes → Row → Result StorageError (Disk × ℕ) → Type 0
Appends disk db_dir table_name row (ok (disk', offset)) =
    (offset ≡ length (content_of disk db_dir table_name))
    × (disk'.file (data_path db_dir table_name)
        ≡ some (content_of disk db_dir table_name ++ write_row row))
    × (disk'.refused (data_path db_dir table_name) ≡ false)
Appends disk db_dir table_name row (err e) =
    (row ≡ []) ⊎ (disk.refused (data_path db_dir table_name) ≡ true)

pub append_lem :
    (disk : Disk) (db_dir table_name : Bytes) (row : Row)
    → Appends disk db_dir table_name row
        (append_row_to_table_with_offset disk db_dir table_name row)
unfolding append_row_to_table_with_offset ensure_table_data_file write_file
append_lem disk db_dir table_name [] = inl refl
append_lem disk db_dir table_name (value ∷ row) =
    ground (arith, bytes_eq_refl (data_path db_dir table_name))

pub read_row-path :
    (disk : Disk) (db_dir table_name : Bytes) (row_offset n : ℕ)
    → disk.refused (data_path db_dir table_name) ≡ false
    → read_row_at_offset disk db_dir table_name row_offset n
      ≡ read_row_of row_offset n (disk.file (data_path db_dir table_name))
unfolding read_row_at_offset
read_row-path disk db_dir table_name row_offset n e = rw e

-- A row that was appended is read back from the returned offset: all its values, whatever bytes
-- they hold, if it has the table's number of columns and its last value does not end in `\r`.
pub read-append :
    (disk disk' : Disk) (db_dir table_name : Bytes) (row : Row) (n row_offset : ℕ)
    → IsRow n row
    → append_row_to_table_with_offset disk db_dir table_name row ≡ ok (disk', row_offset)
    → read_row_at_offset disk' db_dir table_name row_offset n ≡ ok row
read-append disk disk' db_dir table_name row n row_offset r e =
    let (at, content, open_to) =
      subst (Appends disk db_dir table_name row) e (append_lem disk db_dir table_name row) in
    let before = content_of disk db_dir table_name in
    read_row-path disk' db_dir table_name row_offset n open_to
    ∙ ap (λ o. read_row_of row_offset n o)
        (content ∙ ap (λ l. some (before ++ l)) (sym (append-nil (write_row row))))
    ∙ ap (λ (k : ℕ). read_row_of k n (some (before ++ (write_row row ++ [])))) at
    ∙ read_row_of-write before [] row n r

-- An append that succeeds returns the length of the old content, and writes the line of the row
-- behind it.
pub append-content :
    (disk disk' : Disk) (db_dir table_name : Bytes) (row : Row) (row_offset : ℕ)
    → append_row_to_table_with_offset disk db_dir table_name row ≡ ok (disk', row_offset)
    → (row_offset ≡ length (content_of disk db_dir table_name))
      × (content_of disk' db_dir table_name ≡ content_of disk db_dir table_name ++ write_row row)
append-content disk disk' db_dir table_name row row_offset e =
    let (at, content, open_to) =
      subst (Appends disk db_dir table_name row) e (append_lem disk db_dir table_name row) in
    (at, ap stored content)
