-- ===== src/Program/Print.antt =====
-- `print_exec_result` of src/result.c: the bytes that are written to stdout.
--
-- A value has no NUL byte, so `strlen` is its length, and a width fits `int`.
use bptree_sql_engine.Prelude.{
  ℕ, ◌-◌, List, [], ◌∷◌, ◌++◌, ltb, if◌then◌else◌, Bytes, codes, length, replicate,
}
use bptree_sql_engine.Storage.Row.{Row}
use bptree_sql_engine.Storage.Field.{newline}
use bptree_sql_engine.Runtime.Id.{format_uint64}
use bptree_sql_engine.Executor.Select.{QueryResult}
use bptree_sql_engine.Executor.Execute.{ExecResult, result_insert, result_select}

abbrev pub space : ℕ
space = b' '

abbrev pub dash : ℕ
dash = b'-'

abbrev pub max_size : ℕ → ℕ → ℕ
max_size left right = if ltb right left then left else right

-- The widths of the headers, which are the widths that the loop over the rows starts with.
abbrev pub header_widths : List Bytes → List ℕ
header_widths [] = []
header_widths (column ∷ columns) = length column ∷ header_widths columns

-- The inner loop, over the columns of one row. Each row has a value for each column.
unfoldable pub widen : List ℕ → Row → List ℕ
widen [] row = []
widen (width ∷ widths) [] = width ∷ widths
widen (width ∷ widths) (value ∷ row) = max_size width (length value) ∷ widen widths row

-- The loop over the rows.
unfoldable pub column_widths : List ℕ → List Row → List ℕ
column_widths widths [] = widths
column_widths widths (row ∷ rows) = column_widths (widen widths row) rows

-- `printf("%-*s", width, text)`
abbrev pub pad : ℕ → Bytes → Bytes
pad width text = text ++ replicate (width - length text) space

-- A loop over the columns that puts `separator` behind each cell but the last.
abbrev pub joined : Bytes → List Bytes → Bytes
joined separator [] = []
joined separator (cell ∷ []) = cell
joined separator (cell ∷ cell' ∷ cells) = cell ++ (separator ++ joined separator (cell' ∷ cells))

abbrev pub cells : List ℕ → Row → List Bytes
cells [] row = []
cells (width ∷ widths) [] = []
cells (width ∷ widths) (value ∷ row) = pad width value ∷ cells widths row

abbrev pub dashes : List ℕ → List Bytes
dashes [] = []
dashes (width ∷ widths) = replicate width dash ∷ dashes widths

-- A line of the header or of a row.
unfoldable pub row_line : List ℕ → Row → Bytes
row_line widths row = joined (codes " | ") (cells widths row)

-- The line of `print_separator`.
unfoldable pub separator_line : List ℕ → Bytes
separator_line widths = joined (codes "-+-") (dashes widths)

abbrev pub row_lines : List ℕ → List Row → List Bytes
row_lines widths [] = []
row_lines widths (row ∷ rows) = row_line widths row ∷ row_lines widths rows

abbrev pub result_widths : QueryResult → List ℕ
result_widths result = column_widths (header_widths result.columns) result.rows

-- The lines of the table, as the loops write them. A value that holds a newline makes more than one line
-- of the output from one of these.
unfoldable pub table_lines : QueryResult → List Bytes
table_lines result =
    let widths = result_widths result in
    row_line widths result.columns ∷ separator_line widths ∷ row_lines widths result.rows

abbrev pub put_lines : List Bytes → Bytes
put_lines [] = []
put_lines (line ∷ lines) = line ++ newline ∷ put_lines lines

unfoldable pub print_exec_result : ExecResult → Bytes
print_exec_result (result_insert generated_id) = codes "INSERT 1\n"
print_exec_result (result_select result used_index) =
    put_lines (table_lines result)
    ++ newline ∷ format_uint64 (length result.rows)
    ++ codes " rows selected\n"

-- What a run writes to stdout: each result behind the statement that gave it.
unfoldable pub output : List ExecResult → Bytes
output [] = []
output (result ∷ results) = print_exec_result result ++ output results

-- `print_usage` of src/cli.c
unfoldable print_usage : Bytes → Bytes
print_usage program_name =
    codes "Usage: "
    ++ program_name
    ++ codes " -d <db_dir> -f <sql_file>\n"
    ++ codes "       "
    ++ program_name
    ++ codes " --db <db_dir> --file <sql_file>\n"
    ++ codes "       "
    ++ program_name
    ++ codes " -h | --help\n"
