-- ===== src/Program/PrintedLines.antt =====
-- The bytes that `print_exec_result` of src/result.c writes, as lines.
use bptree_sql_engine.Prelude.{
  ℕ, zero, suc, ◌+◌, ◌-◌, ◌/◌, ◌%◌, ◌≡◌, ◌≢◌, refl, sym, ap, ◌∙◌, Bool, true, false, List, [], ◌∷◌,
  ◌++◌, append_assoc, arith, ltb, ◌==◌, Bytes, codes, length, replicate, All, All-append,
  Bool-cases, inl, inr,
}
use bptree_sql_engine.Storage.Row.{Row}
use bptree_sql_engine.Storage.Field.{newline}
use bptree_sql_engine.Storage.FieldLaws.{Lacks}
use bptree_sql_engine.Runtime.Id.{digits, format_uint64}
use bptree_sql_engine.Executor.Select.{QueryResult}
use bptree_sql_engine.Executor.Execute.{result_select}
use bptree_sql_engine.Program.Print.{
  space, dash, pad, joined, cells, dashes, row_line, separator_line, row_lines, result_widths,
  table_lines, put_lines, print_exec_result,
}

-- The text between the newlines; a line that no newline ends is the last.
abbrev pub add_byte : ℕ → List Bytes → List Bytes
add_byte c [] = (c ∷ []) ∷ []
add_byte c (line ∷ lines) = (c ∷ line) ∷ lines

unfoldable pub lines_of : Bytes → List Bytes
lines_of [] = []
lines_of (c ∷ text) = elim (c == newline) [
  | true ↦ [] ∷ lines_of text
  | false ↦ add_byte c (lines_of text)
]

lines_of-line :
    (line rest : Bytes)
    → Lacks newline line
    → lines_of (line ++ newline ∷ rest) ≡ line ∷ lines_of rest
unfolding lines_of
lines_of-line [] rest h = refl
lines_of-line (c ∷ line) rest (h, hs) = elim (Bool-cases (c == newline)) [
  | inl e ↦ absurd (h (ground arith))
  | inr e ↦ rw (lines_of, e) (ap (add_byte c) (lines_of-line line rest hs))
]

lines_of-put_lines :
    (lines : List Bytes) (rest : Bytes)
    → All (Lacks newline) lines
    → lines_of (put_lines lines ++ rest) ≡ lines ++ lines_of rest
lines_of-put_lines [] rest h = refl
lines_of-put_lines (line ∷ lines) rest (h, hs) =
    ap lines_of (append_assoc line (newline ∷ put_lines lines) rest)
    ∙ lines_of-line line (put_lines lines ++ rest) h
    ∙ ap (λ l. line ∷ l) (lines_of-put_lines lines rest hs)

replicate-Lacks : (n c : ℕ) → c ≢ newline → Lacks newline (replicate n c)
replicate-Lacks zero c h = tt
replicate-Lacks (suc n) c h = (h, replicate-Lacks n c h)

pad-Lacks : (width : ℕ) (text : Bytes) → Lacks newline text → Lacks newline (pad width text)
pad-Lacks width text h =
    All-append _ text (replicate (width - length text) space) h
      (replicate-Lacks (width - length text) space (ground arith))

joined-Lacks :
    (separator : Bytes) (cells : List Bytes)
    → Lacks newline separator
    → All (Lacks newline) cells
    → Lacks newline (joined separator cells)
joined-Lacks separator [] s h = tt
joined-Lacks separator (cell ∷ []) s h = h.0
joined-Lacks separator (cell ∷ cell' ∷ cells) s h =
    All-append _ cell (separator ++ joined separator (cell' ∷ cells)) h.0 (
      All-append _ separator (joined separator (cell' ∷ cells)) s
        (joined-Lacks separator (cell' ∷ cells) s h.1))

cells-Lacks :
    (widths : List ℕ) (row : Row) → All (Lacks newline) row → All (Lacks newline) (cells widths row)
cells-Lacks [] row h = tt
cells-Lacks (width ∷ widths) [] h = tt
cells-Lacks (width ∷ widths) (value ∷ row) h =
    (pad-Lacks width value h.0, cells-Lacks widths row h.1)

dashes-Lacks : (widths : List ℕ) → All (Lacks newline) (dashes widths)
dashes-Lacks [] = tt
dashes-Lacks (width ∷ widths) = (replicate-Lacks width dash (ground arith), dashes-Lacks widths)

row_line-Lacks :
    (widths : List ℕ) (row : Row) → All (Lacks newline) row → Lacks newline (row_line widths row)
unfolding row_line
row_line-Lacks widths row h =
    joined-Lacks (codes " | ") (cells widths row) (ground arith) (cells-Lacks widths row h)

separator_line-Lacks : (widths : List ℕ) → Lacks newline (separator_line widths)
unfolding separator_line
separator_line-Lacks widths =
    joined-Lacks (codes "-+-") (dashes widths) (ground arith) (dashes-Lacks widths)

row_lines-Lacks :
    (widths : List ℕ) (rows : List Row)
    → All (All (Lacks newline)) rows
    → All (Lacks newline) (row_lines widths rows)
row_lines-Lacks widths [] h = tt
row_lines-Lacks widths (row ∷ rows) h =
    (row_line-Lacks widths row h.0, row_lines-Lacks widths rows h.1)

-- No column and no value of a result holds a newline.
abbrev pub OneLine : QueryResult → Type 0
OneLine result = All (Lacks newline) result.columns × All (All (Lacks newline)) result.rows

table_lines-Lacks :
    (result : QueryResult) → OneLine result → All (Lacks newline) (table_lines result)
unfolding table_lines
table_lines-Lacks result h = (
  row_line-Lacks (result_widths result) result.columns h.0,
  (
    separator_line-Lacks (result_widths result),
    row_lines-Lacks (result_widths result) result.rows h.1,
  ),
)

digits-Lacks : (fuel n : ℕ) (out : Bytes) → Lacks newline out → Lacks newline (digits fuel n out)
unfolding digits
digits-Lacks zero n out h = h
digits-Lacks (suc fuel) n out h = elim (Bool-cases (ltb n 10)) [
  | inl e ↦ rw (e, digits) (ground arith, h)
  | inr e ↦ rw (e, digits) (digits-Lacks fuel (n / 10) ((b'0' + n % 10) ∷ out) (ground arith, h))
]

format-Lacks : (n : ℕ) → Lacks newline (format_uint64 n)
unfolding format_uint64
format-Lacks n = digits-Lacks (suc n) n [] tt

-- The last line, behind an empty one.
abbrev pub count_line : QueryResult → Bytes
count_line result = format_uint64 (length result.rows) ++ codes " rows selected"

words-Lacks : Lacks newline (codes " rows selected")
words-Lacks = ground arith

-- What is printed for a SELECT whose columns and values hold no newline, line by line: the table, an
-- empty line and the number of rows.
pub lines_of-print :
    (result : QueryResult) (used_index : Bool)
    → OneLine result
    → lines_of (print_exec_result (result_select result used_index))
      ≡ table_lines result ++ [] ∷ count_line result ∷ []
unfolding print_exec_result lines_of
lines_of-print result used_index h =
    let counted : lines_of (format_uint64 (length result.rows) ++ codes " rows selected\n")
        ≡ count_line result ∷ [] =
      ap lines_of (
        sym (
          append_assoc (format_uint64 (length result.rows)) (codes " rows selected")
            (newline ∷ [])))
      ∙ lines_of-line (count_line result) [] (
          All-append _ (format_uint64 (length result.rows)) (codes " rows selected")
            (format-Lacks (length result.rows)) words-Lacks) in
    ap lines_of (
      append_assoc (put_lines (table_lines result)) (newline ∷ format_uint64 (length result.rows))
        (codes " rows selected\n"))
    ∙ lines_of-put_lines (table_lines result)
        (newline ∷ format_uint64 (length result.rows) ++ codes " rows selected\n")
        (table_lines-Lacks result h)
    ∙ ap (λ l. table_lines result ++ l)
        (lines_of-line [] (format_uint64 (length result.rows) ++ codes " rows selected\n") tt
          ∙ ap (λ l. [] ∷ l) counted)
