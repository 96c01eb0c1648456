-- ===== src/Program/PrintExamples.antt =====
-- A printed table.
use bptree_sql_engine.Prelude.{
  ◌≡◌, refl, false, true, none, some, arith, [], ◌∷◌, if◌then◌else◌, codes,
}
use bptree_sql_engine.Bptree.Insert.{bptree_init}
use bptree_sql_engine.Storage.File.{Disk, bytes_eq}
use bptree_sql_engine.Runtime.Id.{digits, format_uint64}
use bptree_sql_engine.Runtime.Context.{TableRuntime}
use bptree_sql_engine.Sql.Ast.{SelectStatement}
use bptree_sql_engine.Executor.Select.{QueryResult}
use bptree_sql_engine.Executor.Execute.{result_insert, result_select}
use bptree_sql_engine.Program.Print.{
  widen, column_widths, row_line, separator_line, table_lines, print_exec_result, output,
}
use bptree_sql_engine.Program.PrintedLines.{OneLine}
use bptree_sql_engine.Program.PrintLaws.{read_printed, read_printed-print}

abbrev disk : Disk
disk = record {
  file = λ path. if bytes_eq path (codes "db/t.data") then some (codes "kim|7\no|\n") else none;
  refused = λ path. false;
}

abbrev table : TableRuntime
table = record {
  table_name = codes "t";
  schema = record { table_name = codes "t"; columns = codes "name" ∷ codes "n" ∷ [] };
  id_column = none;
  id_index_ready = false;
  next_id = 0;
  id_index = bptree_init;
}

abbrev query : SelectStatement
query = record { table_name = codes "t"; select_all = true; columns = []; where_clause = none }

abbrev result : QueryResult
result = record {
  columns = codes "name" ∷ codes "n" ∷ [];
  rows = (codes "kim" ∷ codes "7" ∷ []) ∷ (codes "o" ∷ [] ∷ []) ∷ [];
}

result-OneLine : OneLine result
result-OneLine = (ground arith, ground arith)

read_printed-print_example :
    read_printed result (print_exec_result (result_select result true)) ≡ result.rows
read_printed-print_example =
    read_printed-print result true (refl, (refl, tt)) result-OneLine
      ((refl, (refl, tt)), ((refl, (refl, tt)), tt))

printed :
    output (result_insert (some 1) ∷ result_select result false ∷ [])
    ≡ codes "INSERT 1\nname | n\n-----+--\nkim  | 7\no    |  \n\n2 rows selected\n"
unfolding widen column_widths row_line separator_line table_lines print_exec_result output digits
    format_uint64
printed = refl
