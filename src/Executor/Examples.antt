-- ===== src/Executor/Examples.antt =====
-- A session of src/executor.c on a small table.
use bptree_sql_engine.Storage.Field.{escape_field, escape_byte, unescape_field, unescape_byte}
use bptree_sql_engine.Executor.Insert.{
  validate_insert_columns_for_auto_id, check_columns, build_insert_row_with_generated_id,
  place_around,
}
use bptree_sql_engine.Database.Values.{build_insert_row_complete}
use bptree_sql_engine.Runtime.Id.{uint64_max}
use bptree_sql_engine.Runtime.NextId.{HasStored}
use bptree_sql_engine.Runtime.Complete.{build_id_index_complete}
use bptree_sql_engine.Prelude.{
  inl, inr, ℕ, ◌≤◌, ◌≡◌, refl, true, false, none, some, List, [], ◌∷◌, ◌++◌, arith, if◌then◌else◌,
  Bytes, codes, All, Result, ok, err,
}
use bptree_sql_engine.Bptree.Node.{Tree}
use bptree_sql_engine.Bptree.Insert.{
  empty, bptree_insert, bptree_init, replace_root, insert_node, insert_into_leaf, insert_index,
  key_at_is,
}
use bptree_sql_engine.Storage.File.{
  Disk, bytes_eq, build_table_path, directory_prefix, read_line, read_chunk, strip_cr,
}
use bptree_sql_engine.Storage.Row.{
  Row, write_row, write_fields, split_escaped_row, split_loop, parse_line_into_row,
  normalize_field_count,
}
use bptree_sql_engine.Storage.Table.{
  ensure_table_data_file, data_path, scan_table_rows_with_offsets, scan_loop,
}
use bptree_sql_engine.Storage.TableLaws.{IsRow, write_rows}
use bptree_sql_engine.Storage.Examples.{row_one, row_two, row_one-IsRow, row_two-IsRow}
use bptree_sql_engine.Schema.Load.{TableSchema, schema_find_column_index}
use bptree_sql_engine.Runtime.Id.{format_uint64, parse_canonical_positive_uint64, canonical_loop}
use bptree_sql_engine.Runtime.Index.{IndexError, build_id_index_for_table, build_id_index_callback}
use bptree_sql_engine.Runtime.Context.{TableRuntime, id_name, load_table}
use bptree_sql_engine.Runtime.Located.{Indexes, located}
use bptree_sql_engine.Runtime.Built.{HasId, Unused, build_id_index-Indexes}
use bptree_sql_engine.Sql.Ast.{
  value_number, value_string, InsertStatement, WhereClause, SelectStatement,
}
use bptree_sql_engine.Executor.Select.{
  QueryResult, execute_select_with_id_index, execute_select_with_full_scan,
  initialize_query_result_columns, validate_select_columns, project_single_row,
}
use bptree_sql_engine.Executor.Indexed.{IsIndexed}
use bptree_sql_engine.Executor.Answers.{answer, full_scan-answer}
use bptree_sql_engine.Executor.Loaded.{load_table-IsIndexed}
use bptree_sql_engine.Executor.Session.{insert-select}
use bptree_sql_engine.Executor.SelectLaws.{id_index-full_scan}
use bptree_sql_engine.Executor.Execute.{
  result_insert, result_select, insert_into_table, select_from_table,
}
use bptree_sql_engine.Executor.InsertLaws.{insert_into_table-IsIndexed}

abbrev db : Bytes
db = codes "db"

abbrev users : TableSchema
users = record { table_name = codes "users"; columns = id_name ∷ codes "name" ∷ [] }

abbrev rows : List Row
rows = row_two ∷ row_one ∷ []

abbrev disk : Disk
disk = record {
  file =
      λ path. if bytes_eq path (data_path db (codes "users")) then some (write_rows rows) else none;
  refused = λ path. false;
}

rows-IsRow : All (IsRow 2) rows
rows-IsRow = (row_two-IsRow, (row_one-IsRow, tt))

abbrev index_of : Result IndexError (Tree × ℕ) → Tree
index_of (ok (tree, next_id)) = tree
index_of (err e) = empty

abbrev index : Tree
unfolding build_id_index_for_table
index = index_of (build_id_index_for_table disk db users 0)

built : build_id_index_for_table disk db users 0 ≡ ok (index, 3)
unfolding index build_id_index_for_table scan_table_rows_with_offsets scan_loop build_table_path
    directory_prefix read_line read_chunk strip_cr write_row write_fields split_escaped_row
    split_loop parse_line_into_row normalize_field_count escape_field escape_byte unescape_field
    unescape_byte build_id_index_callback parse_canonical_positive_uint64 canonical_loop
    bptree_insert bptree_init replace_root insert_node insert_into_leaf insert_index key_at_is
built = refl

build_id_index-Indexes_example :
    Indexes index (located 0 0 rows)
    × Unused 3 (located 0 0 rows)
    × (3 ≤ 18446744073709551615)
    × All (HasId 0) rows
    × (1 ≤ 3)
unfolding build_table_path directory_prefix
build_id_index-Indexes_example =
    build_id_index-Indexes disk db users 0 3 index rows refl refl rows-IsRow built

abbrev table : TableRuntime
table = record {
  table_name = codes "users";
  schema = users;
  id_column = some 0;
  id_index_ready = true;
  next_id = 3;
  id_index = index;
}

loaded : load_table disk db (codes "users") (ok users) ≡ (ok table, disk)
unfolding index build_id_index_for_table scan_table_rows_with_offsets scan_loop build_table_path
    directory_prefix read_line read_chunk strip_cr write_row write_fields split_escaped_row
    split_loop parse_line_into_row normalize_field_count escape_field escape_byte unescape_field
    unescape_byte build_id_index_callback parse_canonical_positive_uint64 canonical_loop
    bptree_insert bptree_init replace_root insert_node insert_into_leaf insert_index key_at_is
    ensure_table_data_file schema_find_column_index
loaded = refl

table-IsIndexed : IsIndexed table disk db 0 rows
unfolding build_table_path directory_prefix schema_find_column_index
table-IsIndexed =
    let (indexes, unused, fits, ids, positive) =
      build_id_index-Indexes disk db users 0 3 index rows refl refl rows-IsRow built in
    record {
      column = refl;
      ready = refl;
      column_of = refl;
      readable = refl;
      content = refl;
      shapes = rows-IsRow;
      ids = ids;
      index = indexes;
      unused = unused;
      fits = omega arith;
    }

abbrev condition : WhereClause
condition = record {
  column_name = id_name;
  value = record { type = value_string; text = codes "1" };
}

abbrev query : SelectStatement
query = record {
  table_name = codes "users";
  select_all = false;
  columns = codes "name" ∷ [];
  where_clause = some condition;
}

id_index-full_scan_example :
    (result : QueryResult) × (execute_select_with_id_index disk db table query 0 1
      ≡ ok (result, true))
    × (execute_select_with_full_scan disk db table query ≡ ok (result, false))
unfolding parse_canonical_positive_uint64
id_index-full_scan_example =
    id_index-full_scan disk db table 0 1 rows query condition table-IsIndexed refl refl refl

full_scan-answer_example :
    execute_select_with_full_scan disk db table query
    ≡ ok (record { columns = codes "name" ∷ []; rows = answer users.columns query rows }, false)
unfolding build_table_path directory_prefix
full_scan-answer_example = full_scan-answer disk db table query rows refl refl rows-IsRow

abbrev insertion : InsertStatement
insertion = record {
  table_name = codes "users";
  columns = codes "name" ∷ [];
  values = record { type = value_string; text = codes "kim" } ∷ [];
}

abbrev new_row : Row
new_row = codes "3" ∷ codes "kim" ∷ []

insert_into_table-IsIndexed_example :
    (table' : TableRuntime) × (disk' : Disk) × (insert_into_table table disk db insertion
      ≡ (ok (result_insert (some 3)), table', disk'))
    × (table'.schema ≡ users)
    × IsIndexed table' disk' db 0 (rows ++ new_row ∷ [])
unfolding validate_insert_columns_for_auto_id check_columns schema_find_column_index
    build_insert_row_with_generated_id place_around format_uint64
insert_into_table-IsIndexed_example =
    insert_into_table-IsIndexed disk db table 0 rows new_row insertion table-IsIndexed refl refl
      refl

load_table-IsIndexed_example : IsIndexed table disk db 0 rows
unfolding schema_find_column_index write_row build_table_path escape_field directory_prefix
load_table-IsIndexed_example =
    load_table-IsIndexed disk disk db users 0 rows table refl refl refl rows-IsRow loaded

abbrev by_new_id : WhereClause
by_new_id = record {
  column_name = id_name;
  value = record { type = value_number; text = codes "3" };
}

abbrev new_query : SelectStatement
new_query = record {
  table_name = codes "users";
  select_all = true;
  columns = [];
  where_clause = some by_new_id;
}

insert-select_example :
    (table' : TableRuntime) × (disk' : Disk) × (insert_into_table table disk db insertion
      ≡ (ok (result_insert (some 3)), table', disk'))
    × (select_from_table disk' db table' new_query
        ≡ ok (result_select (record { columns = users.columns; rows = new_row ∷ [] }) true))
unfolding validate_insert_columns_for_auto_id check_columns schema_find_column_index
    build_insert_row_with_generated_id place_around format_uint64 parse_canonical_positive_uint64
    validate_select_columns initialize_query_result_columns project_single_row
insert-select_example =
    insert-select disk db table 0 rows new_row insertion new_query by_new_id table-IsIndexed refl
      refl refl refl refl refl refl

no_last_id : HasStored 0 uint64_max rows → ⊥
unfolding parse_canonical_positive_uint64 canonical_loop
no_last_id (inl e) = cc
no_last_id (inr (inl e)) = cc
no_last_id (inr (inr h)) = absurd h

build_id_index_complete_example :
    (result : Tree × ℕ) × (build_id_index_for_table disk db users 0 ≡ ok result)
unfolding build_table_path directory_prefix
build_id_index_complete_example =
    build_id_index_complete disk db users 0 rows refl refl rows-IsRow table-IsIndexed.ids
      table-IsIndexed.index.distinct no_last_id

build_insert_row_complete_example :
    (row : Row) × (build_insert_row_with_generated_id users 0 insertion 3 ≡ ok row)
unfolding validate_insert_columns_for_auto_id check_columns schema_find_column_index
build_insert_row_complete_example = build_insert_row_complete users 0 3 insertion (omega arith) refl
