-- ===== src/Program/Examples.antt =====
-- A run of the whole program: an INSERT and a SELECT of the generated id.
use bptree_sql_engine.Prelude.{
  ◌≡◌, refl, true, false, none, some, List, [], ◌∷◌, arith, if◌then◌else◌, Bytes, codes, ok, All,
  inr,
}
use bptree_sql_engine.Bptree.Search.{scan_leaf, bptree_search, find_leaf_node, find_in_children}
use bptree_sql_engine.Bptree.Insert.{
  insert_index, key_at_is, insert_into_leaf, bptree_init, replace_root, bptree_insert, insert_node,
  insert_into_child,
}
use bptree_sql_engine.Storage.Field.{escape_byte, escape_field, unescape_byte, unescape_field}
use bptree_sql_engine.Storage.Row.{
  split_loop, split_escaped_row, normalize_field_count, parse_line_into_row, write_fields,
  write_row,
}
use bptree_sql_engine.Storage.File.{
  Disk, bytes_eq, write_file, directory_prefix, build_table_path, read_chunk, strip_cr, read_line,
}
use bptree_sql_engine.Storage.Table.{
  ensure_table_data_file, append_row_to_table_with_offset, scan_loop, scan_table_rows_with_offsets,
  read_row_at_offset,
}
use bptree_sql_engine.Schema.Trim.{is_space, trim_start, trim_end, trim_in_place}
use bptree_sql_engine.Schema.Load.{
  contains, read_columns, load_table_schema, schema_find_column_index,
}
use bptree_sql_engine.Runtime.Id.{
  canonical_loop, parse_canonical_positive_uint64, digits, format_uint64,
}
use bptree_sql_engine.Runtime.Index.{build_id_index_callback, build_id_index_for_table}
use bptree_sql_engine.Runtime.Context.{
  init_execution_context, find_table, get_or_load_table_runtime,
}
use bptree_sql_engine.Sql.Ast.{
  value_string, value_number, SelectStatement, Statement, insert_stmt, select_stmt,
}
use bptree_sql_engine.Sql.Lexer.{
  eof, token_select, token_semicolon, chars_equal_ignore_case, strings_equal_ignore_case,
  keyword_type, word, tokenize_identifier, number_text, tokenize_number, string_text,
  tokenize_string, tokenize_symbol, next_token, tokenize_loop, tokenize_sql,
}
use bptree_sql_engine.Sql.Parser.{
  parser_peek, parser_match, parser_skip_semicolons, parser_expect_with_message, parse_identifier,
  parse_literal, more_items, parse_identifier_list, parse_literal_list, parse_where_clause,
  parse_insert, parse_select, parse_next_statement,
}
use bptree_sql_engine.Executor.Insert.{
  check_columns, validate_insert_columns_for_auto_id, place_around,
  build_insert_row_with_generated_id,
}
use bptree_sql_engine.Executor.Select.{
  validate_select_columns, initialize_query_result_columns, row_matches_where_clause,
  project_single_row, select_full_scan_callback, try_parse_indexable_id_literal, can_use_id_index,
  execute_select_with_id_index, execute_select_with_full_scan,
}
use bptree_sql_engine.Executor.Execute.{
  State, result_insert, result_select, insert_into_table, execute_insert, select_from_table,
  execute_select, execute_statement,
}
use bptree_sql_engine.Sql.Lexed.{IsIdentifier, IsNumber}
use bptree_sql_engine.Sql.SqlText.{IsSql, sql_text}
use bptree_sql_engine.Program.Script.{text_script}
use bptree_sql_engine.Program.ScriptLaws.{text_script-sql_text}
use bptree_sql_engine.Program.Cli.{parse_args, parse_cli_args}
use bptree_sql_engine.Program.Main.{status_ok, run_tokens, main}
use bptree_sql_engine.Program.MainLaws.{run_tokens_fuel}
use bptree_sql_engine.Sql.Printed.{mark}

abbrev pub sql : Bytes
sql = codes "insert into t (name) values ('kim'); select name from t where id = 1;"

abbrev pub disk : Disk
disk = record {
  file = λ path.
      if bytes_eq path (codes "db/t.schema")
      then some (codes "id\nname\n")
      else if bytes_eq path (codes "a.sql")
      then some sql
      else none;
  refused = λ path. false;
}

abbrev pub arguments : List Bytes
arguments = codes "-d" ∷ codes "db" ∷ codes "-f" ∷ codes "a.sql" ∷ []

abbrev pub insertion : Statement
insertion = insert_stmt (record {
  table_name = codes "t";
  columns = codes "name" ∷ [];
  values = record { type = value_string; text = codes "kim" } ∷ [];
})

abbrev pub selection : SelectStatement
selection = record { table_name = codes "t"; select_all = true; columns = []; where_clause = none }

abbrev pub start : State
start = (init_execution_context (codes "db"), disk)

-- The results, the SQL file, which is there as before, and the first statement by itself, on a
-- context without tables and on one that a SELECT has loaded the table into.
pub whole_run :
    ((main arguments disk).0
      ≡ result_insert (some 1)
        ∷ result_select
            (record { columns = codes "name" ∷ []; rows = (codes "kim" ∷ []) ∷ [] })
            true
        ∷ [])
    × ((main arguments disk).2.1.file (codes "a.sql") ≡ some sql)
    × ((main arguments disk).2.1.refused (codes "a.sql") ≡ false)
    × ((execute_statement insertion start).0 ≡ ok (result_insert (some 1)))
    × ((execute_statement insertion (execute_statement (select_stmt selection) start).1).0
        ≡ ok (result_insert (some 1)))
unfolding scan_leaf bptree_search find_leaf_node find_in_children insert_index key_at_is
    insert_into_leaf bptree_init replace_root bptree_insert insert_node insert_into_child
    escape_byte escape_field unescape_byte unescape_field split_loop split_escaped_row
    normalize_field_count parse_line_into_row write_fields write_row write_file directory_prefix
    build_table_path read_chunk strip_cr read_line ensure_table_data_file
    append_row_to_table_with_offset scan_loop scan_table_rows_with_offsets read_row_at_offset
    is_space trim_start trim_end trim_in_place contains read_columns load_table_schema
    schema_find_column_index canonical_loop parse_canonical_positive_uint64 digits format_uint64
    build_id_index_callback build_id_index_for_table init_execution_context find_table
    get_or_load_table_runtime chars_equal_ignore_case strings_equal_ignore_case keyword_type word
    tokenize_identifier number_text tokenize_number string_text tokenize_string tokenize_symbol
    next_token tokenize_loop tokenize_sql parser_peek parser_match parser_skip_semicolons
    parser_expect_with_message parse_identifier parse_literal more_items parse_identifier_list
    parse_literal_list parse_where_clause parse_insert parse_select parse_next_statement
    check_columns validate_insert_columns_for_auto_id place_around
    build_insert_row_with_generated_id validate_select_columns initialize_query_result_columns
    row_matches_where_clause project_single_row select_full_scan_callback
    try_parse_indexable_id_literal can_use_id_index execute_select_with_id_index
    execute_select_with_full_scan insert_into_table execute_insert select_from_table execute_select
    execute_statement parse_args parse_cli_args run_tokens main
whole_run = (refl, refl, refl, refl, refl)

run_tokens_fuel_example :
    run_tokens 4
      (mark token_semicolon ∷ mark token_select ∷ eof ∷ [])
      []
      (init_execution_context [], disk)
    ≡ run_tokens 7
        (mark token_semicolon ∷ mark token_select ∷ eof ∷ [])
        []
        (init_execution_context [], disk)
run_tokens_fuel_example =
    run_tokens_fuel 4 7 (mark token_semicolon ∷ mark token_select ∷ eof ∷ []) []
      (init_execution_context [], disk) (omega arith) (omega arith)

abbrev statements : List Statement
statements =
    insertion
    ∷ select_stmt (record {
      table_name = codes "t";
      select_all = false;
      columns = codes "id" ∷ codes "name" ∷ [];
      where_clause = some (record {
        column_name = codes "id";
        value = record { type = value_number; text = codes "-2.5" };
      });
    })
    ∷ []

id-IsIdentifier : IsIdentifier (codes "id")
unfolding keyword_type strings_equal_ignore_case chars_equal_ignore_case
id-IsIdentifier = (refl, (refl, tt), refl)

name-IsIdentifier : IsIdentifier (codes "name")
unfolding keyword_type strings_equal_ignore_case chars_equal_ignore_case
name-IsIdentifier = (refl, (refl, (refl, (refl, tt))), refl)

table-IsIdentifier : IsIdentifier (codes "t")
unfolding keyword_type strings_equal_ignore_case chars_equal_ignore_case
table-IsIdentifier = (refl, tt, refl)

literal-IsNumber : IsNumber (codes "-2.5")
literal-IsNumber = inr (
  codes "2.5",
  refl,
  inr (codes "2", codes "5", refl, (λ e. cc e), (refl, tt), (λ e. cc e), (refl, tt)),
)

statements-IsSql : All IsSql statements
statements-IsSql = (
  (table-IsIdentifier, (name-IsIdentifier, tt), (tt, tt)),
  (
    (
      table-IsIdentifier,
      (id-IsIdentifier, (name-IsIdentifier, tt)),
      (id-IsIdentifier, literal-IsNumber),
    ),
    tt,
  ),
)

text_script-sql_text_example : text_script (sql_text statements) ≡ (statements, status_ok)
text_script-sql_text_example =
    text_script-sql_text statements (λ e. cc e) ((λ e. cc e), ((λ e. cc e), tt)) statements-IsSql
