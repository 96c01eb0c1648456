-- ===== src/Storage/Table.antt =====
-- The operations of src/storage.c on the `.data` file of a table.
use bptree_sql_engine.Prelude.{
  ℕ, zero, suc, ◌+◌, not, Option, none, some, List, [], ◌∷◌, ◌++◌, if◌then◌else◌, Bytes, codes,
  length, drop, Result, ok, err, ◌>>=◌, ◌>>◌, guard,
}
use bptree_sql_engine.Storage.Row.{Row, write_row, parse_line_into_row}
use bptree_sql_engine.Storage.File.{Disk, write_file, build_table_path, Stream, read_line}

pub data StorageError : Type 0 where
  empty_row cannot_open no_row_at_offset callback_failed : StorageError
  malformed_row : ℕ → StorageError
  malformed_row_at : ℕ → StorageError

abbrev pub data_path : Bytes → Bytes → Bytes
data_path db_dir table_name = build_table_path db_dir table_name (codes ".data")

-- `fopen` with "ab": the file is created if it is missing, and unchanged if it is there.
abbrev pub touch : Disk → Bytes → Option Bytes → Disk
touch disk path none = write_file disk path []
touch disk path (some content) = disk

unfoldable pub ensure_table_data_file : Disk → Bytes → Bytes → Result StorageError Disk
ensure_table_data_file disk db_dir table_name =
    let path = data_path db_dir table_name in
    if disk.refused path then err cannot_open else ok (touch disk path (disk.file path))

-- `fopen` with "ab+", `ftell` at the end of the file, and the writes.
abbrev pub append_content : Disk → Bytes → Row → Option Bytes → Disk × ℕ
append_content disk path row none = (write_file disk path (write_row row), 0)
append_content disk path row (some content) =
    (write_file disk path (content ++ write_row row), length content)

unfoldable pub append_row_to_table_with_offset :
    Disk → Bytes → Bytes → Row → Result StorageError (Disk × ℕ)
append_row_to_table_with_offset disk db_dir table_name [] = err empty_row
append_row_to_table_with_offset disk db_dir table_name (value ∷ row) = do
  disk' ← ensure_table_data_file disk db_dir table_name
  let path = data_path db_dir table_name
  guard (not (disk'.refused path)) cannot_open
  ok (append_content disk' path (value ∷ row) (disk'.file path))

unfoldable pub append_row_to_table : Disk → Bytes → Bytes → Row → Result StorageError Disk
append_row_to_table disk db_dir table_name row = do
  (disk', offset) ← append_row_to_table_with_offset disk db_dir table_name row
  ok disk'

-- What a `RowScanCallback` returns: 0 with its new state, 1, or -1.
pub data Signal (S : Type 0) : Type 0 where
  continue : S → Signal S
  stop : S → Signal S
  fail : Signal S

-- What the scan does with the signal of a callback.
abbrev pub resume : {S : Type 0} → Signal S → (S → Result StorageError S) → Result StorageError S
resume (continue state) next = next state
resume (stop state) next = ok state
resume fail next = err callback_failed

-- The `while (1)` of the scan. Each round reads at least one byte, so fuel above the number of
-- bytes is never used up.
module _ {S : Type 0} (callback : Row → ℕ → S → Signal S) (expected_column_count : ℕ) where
  unfoldable pub scan_loop : ℕ → ℕ → Stream → S → Result StorageError S
  scan_loop zero line_number stream state = ok state
  scan_loop (suc fuel) line_number stream state = elim (read_line stream) [
    | none ↦ ok state
    | some (line, stream') ↦ elim (parse_line_into_row line expected_column_count) [
      | none ↦ err (malformed_row (line_number + 1))
      | some row ↦
          resume (callback row stream.position state)
            λ state'. scan_loop fuel (line_number + 1) stream' state'
    ]
  ]

  abbrev pub scan_content : Bytes → S → Result StorageError S
  scan_content content state =
      scan_loop (suc (length content)) 0 (record { position = 0; rest = content }) state

  -- A missing file is an empty table.
  abbrev pub scan_file : Option Bytes → S → Result StorageError S
  scan_file none state = ok state
  scan_file (some content) state = scan_content content state

  unfoldable pub scan_table_rows_with_offsets : Disk → Bytes → Bytes → S → Result StorageError S
  scan_table_rows_with_offsets disk db_dir table_name state =
      let path = data_path db_dir table_name in
      if disk.refused path then err cannot_open else scan_file (disk.file path) state

-- The line at an offset of the file, as a row.
abbrev pub row_of_line : ℕ → ℕ → Option (Bytes × Stream) → Result StorageError Row
row_of_line row_offset expected none = err no_row_at_offset
row_of_line row_offset expected (some (line, stream)) = elim (parse_line_into_row line expected) [
  | none ↦ err (malformed_row_at row_offset)
  | some row ↦ ok row
]

abbrev pub read_row_of : ℕ → ℕ → Option Bytes → Result StorageError Row
read_row_of row_offset expected none = err cannot_open
read_row_of row_offset expected (some content) =
    row_of_line row_offset expected
      (read_line (record { position = row_offset; rest = drop row_offset content }))

unfoldable pub read_row_at_offset : Disk → Bytes → Bytes → ℕ → ℕ → Result StorageError Row
read_row_at_offset disk db_dir table_name row_offset expected =
    let path = data_path db_dir table_name in
    if disk.refused path then err cannot_open else read_row_of row_offset expected (disk.file path)

abbrev pub read_all_rows_callback : Row → ℕ → List Row → Signal (List Row)
read_all_rows_callback row row_offset rows = continue (rows ++ row ∷ [])

unfoldable pub read_all_rows_from_table : Disk → Bytes → Bytes → ℕ → Result StorageError (List Row)
unfolding scan_table_rows_with_offsets
read_all_rows_from_table disk db_dir table_name expected =
    scan_table_rows_with_offsets read_all_rows_callback expected disk db_dir table_name []
