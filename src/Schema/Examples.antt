-- ===== src/Schema/Examples.antt =====
-- A schema file of src/schema.c.
use bptree_sql_engine.Schema.Trim.{trim_in_place}
use bptree_sql_engine.Prelude.{
  ◌≡◌, ◌≢◌, refl, false, none, some, [], ◌∷◌, if◌then◌else◌, Bytes, codes, ok,
}
use bptree_sql_engine.Storage.File.{Disk, bytes_eq, build_table_path, directory_prefix, read_line}
use bptree_sql_engine.Schema.Load.{
  TableSchema, schema_path, read_columns, load_table_schema, contains,
}
use bptree_sql_engine.Schema.Written.{write_columns, load_schema-write_columns}
use bptree_sql_engine.Schema.Trim.{is_space}
use bptree_sql_engine.Schema.LoadLaws.{AreColumns, load_schema-AreColumns}

abbrev content : Bytes
content = codes " id \n\nname\r\n"

abbrev disk : Disk
disk = record {
  file = λ path.
      if bytes_eq path (schema_path (codes "db") (codes "users")) then some content else none;
  refused = λ path. false;
}

abbrev users : TableSchema
users = record { table_name = codes "users"; columns = codes "id" ∷ codes "name" ∷ [] }

load_schema-AreColumns_example :
    (users.table_name ≡ codes "users") × (users.columns ≢ []) × AreColumns users.columns
unfolding load_table_schema build_table_path directory_prefix read_columns read_line trim_in_place
    contains
load_schema-AreColumns_example = load_schema-AreColumns disk (codes "db") (codes "users") users refl

abbrev written : Disk
written = record { file = λ path. some (write_columns users.columns); refused = λ path. false }

load_schema-write_columns_example :
    load_table_schema written (codes "db") (codes "users") ≡ ok users
unfolding contains is_space
load_schema-write_columns_example =
    load_schema-write_columns written (codes "db") (codes "users") users.columns (λ e. cc e)
      (((λ e. cc e), (refl, (refl, tt))), (((λ e. cc e), (refl, (refl, (refl, (refl, tt))))), tt))
      (refl, (refl, tt)) refl refl
