-- ===== src/Storage/ScanLaws.antt =====
-- The scan of a whole table.
use bptree_sql_engine.Prelude.{
  ℕ, zero, suc, false, ◌+◌, ◌<◌, ◌≡◌, refl, sym, ap, subst, Option-cases, inl, inr, ◌∙◌, some, List,
  [], ◌∷◌, ◌++◌, arith, append-nil, append_assoc, Bytes, length, length-append, All, Result, ok,
}
use bptree_sql_engine.Storage.Row.{Row, write_row, parse_line_into_row}
use bptree_sql_engine.Storage.File.{Disk, Stream, read_line}
use bptree_sql_engine.Storage.FileLaws.{Shrinks, read_line-Shrinks}
use bptree_sql_engine.Storage.Table.{
  StorageError, Signal, continue, stop, fail, resume, scan_loop, scan_content, data_path,
  scan_table_rows_with_offsets, read_all_rows_callback, read_all_rows_from_table,
}
use bptree_sql_engine.Storage.TableLaws.{
  IsRow, write_rows, length-write_row, read_line-write_row, parse_line-row,
}

resume-ext :
    {S : Type 0} (signal : Signal S) (f g : S → Result StorageError S)
    → ((state : S) → f state ≡ g state)
    → resume signal f ≡ resume signal g
resume-ext (continue state) f g h = h state
resume-ext (stop state) f g h = refl
resume-ext fail f g h = refl

module _ {S : Type 0} (callback : Row → ℕ → S → Signal S) (n : ℕ) where
  -- The reference: the callback is called on each row in turn, with its offset.
  abbrev pub run_rows : ℕ → List Row → S → Result StorageError S
  run_rows offset [] state = ok state
  run_rows offset (row ∷ rows) state =
      resume (callback row offset state) (run_rows (offset + length (write_row row)) rows)

  scan_step :
      (fuel line_number position : ℕ) (row : Row) (rest : Bytes) (state : S)
      → IsRow n row
      → scan_loop callback n
          (suc fuel)
          line_number
          (record { position = position; rest = write_row row ++ rest })
          state
        ≡ resume (callback row position state) (
            scan_loop callback n fuel
              (line_number + 1)
              (record { position = position + length (write_row row); rest = rest }))
  unfolding scan_loop
  scan_step fuel line_number position row rest state r =
      rw (read_line-write_row row rest position n r, scan_loop, parse_line-row row n r)

  pub scan_loop-run_rows :
      (fuel line_number offset : ℕ) (rows : List Row) (state : S)
      → All (IsRow n) rows
      → length (write_rows rows) < fuel
      → scan_loop callback n fuel line_number
          (record { position = offset; rest = write_rows rows })
          state
        ≡ run_rows offset rows state
  unfolding scan_loop read_line
  scan_loop-run_rows zero line_number offset rows state h lt = absurd (omega arith)
  scan_loop-run_rows (suc fuel) line_number offset [] state h lt = refl
  scan_loop-run_rows (suc fuel) line_number offset (row ∷ rows) state h lt =
      scan_step fuel line_number offset row (write_rows rows) state h.0
      ∙ resume-ext (callback row offset state) _ _ λ state'.
        scan_loop-run_rows fuel (line_number + 1) (offset + length (write_row row)) rows state' h.1
          (omega (arith, length-append (write_row row) (write_rows rows), length-write_row row))

  -- Fuel above the number of bytes that are left is as good as any other such fuel: the loop ends
  -- by itself, whatever the file holds.
  pub scan_loop_fuel :
      (fuel fuel' line_number position : ℕ) (cs : Bytes) (state : S)
      → length cs < fuel
      → length cs < fuel'
      → scan_loop callback n fuel line_number (record { position = position; rest = cs }) state
        ≡ scan_loop callback n fuel' line_number (record { position = position; rest = cs }) state
  unfolding scan_loop
  scan_loop_fuel zero fuel' line_number position cs state h h' = absurd (omega arith)
  scan_loop_fuel (suc fuel) zero line_number position cs state h h' = absurd (omega arith)
  scan_loop_fuel (suc fuel) (suc fuel') line_number position cs state h h' =
      elim (Option-cases (read_line (record { position = position; rest = cs }))) [
        | inl e ↦ rw (e, scan_loop)
        | inr (a, e) ↦ elim (Option-cases (parse_line_into_row a.0 n)) [
          | inl f ↦ rw (e, scan_loop, f)
          | inr (row, f) ↦
              rw (e, scan_loop, f)
                (resume-ext (callback row position state) _ _ λ state'.
                  scan_loop_fuel fuel fuel' (line_number + 1) a.1.position a.1.rest state'
                    (omega (arith, shorter a e)) (omega (arith, shorter a e)))
        ]
      ]
    where
      shorter :
          (a : Bytes × Stream)
          → read_line (record { position = position; rest = cs }) ≡ some a
          → length a.1.rest < length cs
      shorter a e = subst (Shrinks (length cs)) e (read_line-Shrinks position cs)

-- A scan of a file that rows were written to, each with a value for each of the `n` columns, at least
-- one, and with a last value that does not end in `\r`, calls the callback on each of these rows in
-- order, with the offset at which the row stands, until the callback stops or fails.
pub scan-run_rows :
    {S : Type 0} (callback : Row → ℕ → S → Signal S) (n : ℕ) (rows : List Row) (state : S)
    → All (IsRow n) rows
    → scan_content callback n (write_rows rows) state ≡ run_rows callback n 0 rows state
scan-run_rows callback n rows state h =
    scan_loop-run_rows callback n (suc (length (write_rows rows))) 0 0 rows state h (omega arith)

pub scan-path :
    {S : Type 0} (callback : Row → ℕ → S → Signal S) (n : ℕ) (disk : Disk) (db_dir name : Bytes)
    (rows : List Row) (state : S)
    → disk.refused (data_path db_dir name) ≡ false
    → disk.file (data_path db_dir name) ≡ some (write_rows rows)
    → All (IsRow n) rows
    → scan_table_rows_with_offsets callback n disk db_dir name state
      ≡ run_rows callback n 0 rows state
unfolding scan_table_rows_with_offsets
scan-path callback n disk db_dir name rows state e f h =
    rw (e, f, scan_table_rows_with_offsets) (scan-run_rows callback n rows state h)

read_rows-rows :
    (n offset : ℕ) (rows found : List Row)
    → run_rows read_all_rows_callback n offset rows found ≡ ok (found ++ rows)
read_rows-rows n offset [] found = ap ok (sym (append-nil found))
read_rows-rows n offset (row ∷ rows) found =
    read_rows-rows n (offset + length (write_row row)) rows (found ++ row ∷ [])
    ∙ ap ok (append_assoc found (row ∷ []) rows)

-- `read_all_rows_from_table` returns the rows that were written to a file that can be opened, in their
-- order, if each has a value for each of the `n` columns, at least one, and a last value that does not
-- end in `\r`.
pub read_rows-write_rows :
    (disk : Disk) (db_dir name : Bytes) (n : ℕ) (rows : List Row)
    → disk.refused (data_path db_dir name) ≡ false
    → disk.file (data_path db_dir name) ≡ some (write_rows rows)
    → All (IsRow n) rows
    → read_all_rows_from_table disk db_dir name n ≡ ok rows
unfolding read_all_rows_from_table
read_rows-write_rows disk db_dir name n rows e f h =
    scan-path read_all_rows_callback n disk db_dir name rows [] e f h ∙ read_rows-rows n 0 rows []
