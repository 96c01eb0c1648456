-- ===== src/Program/PrintLaws.antt =====
-- The table that `print_exec_result` of src/result.c prints.
use bptree_sql_engine.Prelude.{
  ℕ, zero, suc, ◌+◌, ◌-◌, ◌≤◌, ◌==◌, ◌≡◌, refl, sym, ap, ◌∙◌, subst, List, [], ◌∷◌, ◌++◌, arith,
  if◌then◌else◌, Bytes, codes, length, replicate, take, drop, drop-length-append, append-nil, All,
  Bool,
}
use bptree_sql_engine.Storage.Row.{Row}
use bptree_sql_engine.Executor.Select.{QueryResult}
use bptree_sql_engine.Executor.Execute.{result_select}
use bptree_sql_engine.Program.Print.{
  space, header_widths, pad, row_line, row_lines, result_widths, table_lines, print_exec_result,
}
use bptree_sql_engine.Program.PrintedLines.{lines_of, OneLine, count_line, lines_of-print}
use bptree_sql_engine.Program.PrintWidths.{
  Fits, Fits-Wider, line_width, length-row_line, length-separator_line, length-pad,
  column_widths-Fits, column_widths-Wider,
}

length-header_widths : (columns : List Bytes) → length (header_widths columns) ≡ length columns
length-header_widths [] = refl
length-header_widths (column ∷ columns) = ap suc (length-header_widths columns)

header_widths-Fits : (columns : List Bytes) → Fits (header_widths columns) columns
header_widths-Fits [] = tt
header_widths-Fits (column ∷ columns) = (omega arith, header_widths-Fits columns)

row_lines-width :
    (widths : List ℕ) (rows : List Row)
    → All (Fits widths) rows
    → All (λ line. length line ≡ line_width widths) (row_lines widths rows)
row_lines-width widths [] h = tt
row_lines-width widths (row ∷ rows) (f, h) =
    (length-row_line widths row f, row_lines-width widths rows h)

pub table_lines-width :
    (result : QueryResult)
    → All (λ row. length row ≡ length result.columns) result.rows
    → All (λ line. length line ≡ line_width (result_widths result)) (table_lines result)
unfolding table_lines
table_lines-width result h =
    let start = header_widths result.columns in
    (
      length-row_line (result_widths result) result.columns (
          Fits-Wider start _ result.columns (column_widths-Wider start result.rows)
            (header_widths-Fits result.columns)),
      (
        length-separator_line (result_widths result),
        row_lines-width (result_widths result) result.rows (
            column_widths-Fits (length result.columns) start result.rows
              (length-header_widths result.columns) h),
      ),
    )

-- The text without the spaces at its end.
abbrev pub strip_byte : ℕ → Bytes → Bytes
strip_byte c [] = if c == space then [] else c ∷ []
strip_byte c (d ∷ rest) = c ∷ d ∷ rest

abbrev pub strip_spaces : Bytes → Bytes
strip_spaces [] = []
strip_spaces (c ∷ text) = strip_byte c (strip_spaces text)

-- The values of a line, cut at the widths of the columns.
abbrev pub read_cells : List ℕ → Bytes → Row
read_cells [] line = []
read_cells (width ∷ widths) line =
    strip_spaces (take width line) ∷ read_cells widths (drop (width + 3) line)

strip_spaces-replicate : (n : ℕ) → strip_spaces (replicate n space) ≡ []
strip_spaces-replicate zero = refl
strip_spaces-replicate (suc n) = rw (strip_spaces-replicate n) refl

strip_spaces-append :
    (text : Bytes) (n : ℕ) → strip_spaces (text ++ replicate n space) ≡ strip_spaces text
strip_spaces-append [] n = strip_spaces-replicate n
strip_spaces-append (c ∷ text) n = ap (strip_byte c) (strip_spaces-append text n)

take-length-append : (xs ys : Bytes) → take (length xs) (xs ++ ys) ≡ xs
take-length-append [] ys = refl
take-length-append (x ∷ xs) ys = ap (λ l. x ∷ l) (take-length-append xs ys)

take-pad :
    (width : ℕ) (value rest : Bytes)
    → length value ≤ width
    → take width (pad width value ++ rest) ≡ pad width value
take-pad width value rest h =
    subst (λ w. take w (pad width value ++ rest) ≡ pad width value) (length-pad width value h)
      (take-length-append (pad width value) rest)

drop-nil : (m : ℕ) → drop {A = ℕ} m [] ≡ []
drop-nil zero = refl
drop-nil (suc m) = refl

drop-two : (n k m : ℕ) (xs : Bytes) → m ≡ n + k → drop m xs ≡ drop k (drop n xs)
drop-two zero k m xs e = ap (λ j. drop j xs) (omega (arith, e))
drop-two (suc n) zero m [] e = drop-nil m
drop-two (suc n) (suc k) m [] e = drop-nil m
drop-two (suc n) k zero (x ∷ xs) e = absurd (omega (arith, e))
drop-two (suc n) k (suc m) (x ∷ xs) e = drop-two n k m xs (omega (arith, e))

drop-pad :
    (width : ℕ) (value rest : Bytes)
    → length value ≤ width
    → drop (width + 3) (pad width value ++ (codes " | " ++ rest)) ≡ rest
drop-pad width value rest h =
    drop-two width 3 (width + 3) (pad width value ++ (codes " | " ++ rest)) refl
    ∙ ap (drop 3) (
        subst (λ w. drop w (pad width value ++ (codes " | " ++ rest)) ≡ codes " | " ++ rest)
          (length-pad width value h) (drop-length-append (pad width value) (codes " | " ++ rest)))

read_cell :
    (width : ℕ) (value rest : Bytes)
    → length value ≤ width
    → strip_spaces value ≡ value
    → strip_spaces (take width (pad width value ++ rest)) ≡ value
read_cell width value rest h s =
    ap strip_spaces (take-pad width value rest h)
    ∙ strip_spaces-append value (width - length value)
    ∙ s

-- A row whose values fit the widths and do not end in a space is read back from its printed line.
pub read_cells-row_line :
    (widths : List ℕ) (row : Row)
    → Fits widths row
    → All (λ value. strip_spaces value ≡ value) row
    → read_cells widths (row_line widths row) ≡ row
unfolding row_line
read_cells-row_line [] [] h s = refl
read_cells-row_line (width ∷ []) (value ∷ []) h s =
    ap (λ v. v ∷ [])
      (ap (λ l. strip_spaces (take width l)) (sym (append-nil (pad width value)))
        ∙ read_cell width value [] h.0 s.0)
read_cells-row_line (width ∷ width' ∷ widths) (value ∷ value' ∷ row) h s =
    let rest = row_line (width' ∷ widths) (value' ∷ row) in
    rw (read_cell width value (codes " | " ++ rest) h.0 s.0, drop-pad width value rest h.0)
      (ap (λ l. value ∷ l) (read_cells-row_line (width' ∷ widths) (value' ∷ row) h.1 s.1))
read_cells-row_line [] (value ∷ row) h s = absurd h
read_cells-row_line (width ∷ []) (value ∷ value' ∷ row) h s = absurd h.1
read_cells-row_line (width ∷ width' ∷ widths) (value ∷ []) h s = absurd h.1
read_cells-row_line (width ∷ widths) [] h s = absurd h

length-row_lines :
    (widths : List ℕ) (rows : List Row) → length (row_lines widths rows) ≡ length rows
length-row_lines widths [] = refl
length-row_lines widths (row ∷ rows) = ap suc (length-row_lines widths rows)

abbrev pub read_table : List ℕ → List Bytes → List Row
read_table widths [] = []
read_table widths (line ∷ lines) = read_cells widths line ∷ read_table widths lines

read_table-row_lines :
    (widths : List ℕ) (rows : List Row)
    → All (Fits widths) rows
    → All (All (λ value. strip_spaces value ≡ value)) rows
    → read_table widths (row_lines widths rows) ≡ rows
read_table-row_lines widths [] h s = refl
read_table-row_lines widths (row ∷ rows) (f, h) (t, s) =
    ap (λ r. r ∷ read_table widths (row_lines widths rows)) (read_cells-row_line widths row f t)
    ∙ ap (λ l. row ∷ l) (read_table-row_lines widths rows h s)

read_table-append :
    (widths : List ℕ) (lines more : List Bytes)
    → take (length lines) (read_table widths (lines ++ more)) ≡ read_table widths lines
read_table-append widths [] more = refl
read_table-append widths (line ∷ lines) more =
    ap (λ l. read_cells widths line ∷ l) (read_table-append widths lines more)

read_rows :
    (result : QueryResult)
    → All (λ row. length row ≡ length result.columns) result.rows
    → All (All (λ value. strip_spaces value ≡ value)) result.rows
    → read_table (result_widths result) (row_lines (result_widths result) result.rows) ≡ result.rows
read_rows result h s =
    let start = header_widths result.columns in
    read_table-row_lines (result_widths result) result.rows
      (column_widths-Fits (length result.columns) start result.rows
        (length-header_widths result.columns) h)
      s

-- The rows behind the header and the separator of a printed text, cut at the widths of the columns,
-- without the spaces that end a cell.
abbrev pub read_printed : QueryResult → Bytes → List Row
read_printed result text =
    take (length result.rows) (read_table (result_widths result) (drop 2 (lines_of text)))

-- The rows can be read from what is printed for a SELECT: if every row has a value for each column, no
-- column and no value holds a newline, and no value ends in a space, then the rows are what the
-- lines of the printed text hold behind the header and the separator, cut at the widths of the
-- columns, without the spaces that end a cell.
pub read_printed-print :
    (result : QueryResult) (used_index : Bool)
    → All (λ row. length row ≡ length result.columns) result.rows
    → OneLine result
    → All (All (λ value. strip_spaces value ≡ value)) result.rows
    → read_printed result (print_exec_result (result_select result used_index)) ≡ result.rows
unfolding table_lines
read_printed-print result used_index h one s =
    let widths = result_widths result in
    let rest = [] ∷ count_line result ∷ [] in
    ap (λ l. take (length result.rows) (read_table widths (drop 2 l)))
      (lines_of-print result used_index one)
    ∙ subst
        (λ n.
          take n (read_table widths (row_lines widths result.rows ++ rest))
          ≡ read_table widths (row_lines widths result.rows))
        (length-row_lines widths result.rows)
        (read_table-append widths (row_lines widths result.rows) rest)
    ∙ read_rows result h s
