-- ===== src/Database/Examples.antt =====
-- A step of a database: the first INSERT.
use bptree_sql_engine.Prelude.{refl, false, some, [], ◌∷◌, inl, codes, ok}
use bptree_sql_engine.Storage.Row.{Row}
use bptree_sql_engine.Schema.Load.{schema_find_column_index}
use bptree_sql_engine.Runtime.Id.{
  canonical_loop, parse_canonical_positive_uint64, digits, format_uint64,
}
use bptree_sql_engine.Runtime.Context.{id_name}
use bptree_sql_engine.Sql.Ast.{value_string, InsertStatement, insert_stmt}
use bptree_sql_engine.Executor.Insert.{
  check_columns, validate_insert_columns_for_auto_id, place_around,
  build_insert_row_with_generated_id,
}
use bptree_sql_engine.Executor.Execute.{result_insert}
use bptree_sql_engine.Database.State.{Catalog, Database, Step, inserted_id, append_to}

abbrev catalog : Catalog
catalog name = ok (record { table_name = name; columns = id_name ∷ codes "name" ∷ [] })

abbrev empty_database : Database
empty_database name = []

abbrev insertion : InsertStatement
insertion = record {
  table_name = codes "users";
  columns = codes "name" ∷ [];
  values = record { type = value_string; text = codes "kim" } ∷ [];
}

abbrev new_row : Row
new_row = codes "1" ∷ codes "kim" ∷ []

first_insert :
    Step catalog
      (λ name. false)
      empty_database
      (insert_stmt insertion)
      (ok (result_insert (some 1)))
      (append_to empty_database (codes "users") new_row)
unfolding schema_find_column_index check_columns validate_insert_columns_for_auto_id place_around
    build_insert_row_with_generated_id canonical_loop parse_canonical_positive_uint64 digits
    format_uint64
first_insert = inserted_id insertion _ 0 1 new_row refl refl refl refl refl (tt, inl (refl, refl))
