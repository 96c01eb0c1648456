-- ===== src/Storage/Examples.antt =====
-- Runs of src/storage.c.
use bptree_sql_engine.Prelude.{
  ℕ, ◌≡◌, refl, none, some, [], ◌∷◌, arith, false, Bytes, codes, Result, ok, err,
}
use bptree_sql_engine.Storage.Field.{escape_field}
use bptree_sql_engine.Storage.Row.{Row, parse_line_into_row, write_row}
use bptree_sql_engine.Storage.RowLaws.{line_of, parse_line-write}
use bptree_sql_engine.Storage.File.{Disk, write_file, build_table_path, directory_prefix}
use bptree_sql_engine.Storage.Table.{
  StorageError, append_row_to_table_with_offset, read_row_at_offset, scan_content, scan_loop,
  read_all_rows_callback, read_all_rows_from_table, ensure_table_data_file,
}
use bptree_sql_engine.Storage.TableLaws.{IsRow, write_rows, read-append}
use bptree_sql_engine.Storage.ScanLaws.{
  run_rows, scan-run_rows, scan_loop_fuel, read_rows-write_rows,
}
use bptree_sql_engine.Storage.CarriageReturn.{read-append_cr}

abbrev text : Bytes
text = codes "a|b\\\nc"

abbrev pub row_one : Row
row_one = codes "1" ∷ text ∷ []

abbrev pub row_two : Row
row_two = codes "2" ∷ [] ∷ []

pub row_one-IsRow : IsRow 2 row_one
row_one-IsRow = record { nonempty = λ e. cc; columns = refl; ends = refl }

pub row_two-IsRow : IsRow 2 row_two
row_two-IsRow = record { nonempty = λ e. cc; columns = refl; ends = refl }

abbrev bare : Disk
bare = record { file = λ path. none; refused = λ path. false }

abbrev disk_of : Result StorageError (Disk × ℕ) → Disk
disk_of (ok (disk, offset)) = disk
disk_of (err e) = bare

abbrev db : Bytes
db = codes "db"

abbrev users : Bytes
users = codes "users"

abbrev disk_one : Disk
unfolding append_row_to_table_with_offset
disk_one = disk_of (append_row_to_table_with_offset bare db users row_two)

abbrev disk_two : Disk
unfolding append_row_to_table_with_offset
disk_two = disk_of (append_row_to_table_with_offset disk_one db users row_one)

second_append : append_row_to_table_with_offset disk_one db users row_one ≡ ok (disk_two, 3)
unfolding append_row_to_table_with_offset ensure_table_data_file write_file build_table_path
    directory_prefix write_row escape_field
second_append = refl

parse_line-write_example : parse_line_into_row (line_of row_one) 2 ≡ some row_one
parse_line-write_example = parse_line-write row_one (λ e. cc)

read-append_example : read_row_at_offset disk_two db users 3 2 ≡ ok row_one
read-append_example = read-append disk_one disk_two db users row_one 2 3 row_one-IsRow second_append

scan-run_rows_example :
    scan_content read_all_rows_callback 2 (write_rows (row_one ∷ row_two ∷ [])) []
    ≡ run_rows read_all_rows_callback 2 0 (row_one ∷ row_two ∷ []) []
scan-run_rows_example =
    scan-run_rows read_all_rows_callback 2 (row_one ∷ row_two ∷ []) []
      (row_one-IsRow, (row_two-IsRow, tt))

read_rows-write_rows_example :
    read_all_rows_from_table disk_two db users 2 ≡ ok (row_two ∷ row_one ∷ [])
unfolding disk_two ensure_table_data_file write_file build_table_path directory_prefix write_row
    escape_field
read_rows-write_rows_example =
    read_rows-write_rows disk_two db users 2 (row_two ∷ row_one ∷ []) refl refl
      (row_two-IsRow, (row_one-IsRow, tt))

scan_loop_fuel_example :
    scan_loop read_all_rows_callback 2 9 0 (record { position = 0; rest = codes "1|a\n2|\\" }) []
    ≡ scan_loop read_all_rows_callback 2 20 0 (record { position = 0; rest = codes "1|a\n2|\\" }) []
scan_loop_fuel_example =
    scan_loop_fuel read_all_rows_callback 2 9 20 0 0 (codes "1|a\n2|\\") [] (omega arith)
      (omega arith)

abbrev disk_cr : Disk
unfolding append_row_to_table_with_offset
disk_cr = disk_of (append_row_to_table_with_offset bare db users (codes "3" ∷ codes "x\r" ∷ []))

cr_append :
    append_row_to_table_with_offset bare db users (codes "3" ∷ codes "x\r" ∷ []) ≡ ok (disk_cr, 0)
unfolding append_row_to_table_with_offset ensure_table_data_file write_file build_table_path
    directory_prefix
cr_append = refl

read-append_cr_example : read_row_at_offset disk_cr db users 0 2 ≡ ok (codes "3" ∷ codes "x" ∷ [])
read-append_cr_example =
    read-append_cr bare disk_cr db users (codes "3" ∷ []) (codes "x") 0 cr_append
