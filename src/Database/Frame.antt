-- ===== src/Database/Frame.antt =====
-- A change of the file of one table leaves the other tables and the schemas alone.
use bptree_sql_engine.Prelude.{ℕ, ◌≡◌, ◌≢◌, ap, ◌∙◌, false, List, Bytes, if◌then◌else◌, err}
use bptree_sql_engine.Storage.Row.{Row}
use bptree_sql_engine.Storage.File.{Disk}
use bptree_sql_engine.Storage.Table.{data_path}
use bptree_sql_engine.Storage.TableLaws.{stored}
use bptree_sql_engine.Storage.Paths.{ChangesOnly, data_path-injective, schema_path-data_path}
use bptree_sql_engine.Schema.Load.{
  cannot_open_schema, TableSchema, load_table_schema, schema_of, schema_path,
}
use bptree_sql_engine.Runtime.Context.{TableRuntime}
use bptree_sql_engine.Executor.Indexed.{IsIndexed}
use bptree_sql_engine.Database.State.{Holds, Agrees}

module _ (disk disk' : Disk) (db_dir name : Bytes)
    (c : ChangesOnly (data_path db_dir name) disk disk') where
  pub load_table_schema-frame :
      (other : Bytes) → load_table_schema disk' db_dir other ≡ load_table_schema disk db_dir other
  unfolding load_table_schema
  load_table_schema-frame other =
      let path = schema_path db_dir other in
      ap (λ r. if r path then err cannot_open_schema else schema_of other (disk'.file path))
        c.refused
      ∙ ap (λ o. if disk.refused path then err cannot_open_schema else schema_of other o)
          (c.others path (schema_path-data_path db_dir other name))

  pub file-frame :
      (other : Bytes)
      → other ≢ name
      → disk'.file (data_path db_dir other) ≡ disk.file (data_path db_dir other)
  file-frame other h =
      c.others (data_path db_dir other) (λ e. h (data_path-injective db_dir other name e))

  pub Holds-frame :
      (other : Bytes) (schema : TableSchema) (rows : List Row)
      → other ≢ name
      → Holds disk db_dir other schema rows
      → Holds disk' db_dir other schema rows
  Holds-frame other schema rows h held = record {
    content = ap stored (file-frame other h) ∙ held.content;
    shapes = held.shapes;
  }

  module _ (table : TableRuntime) (rows : List Row) (h : table.table_name ≢ name) where
    readable-frame :
        disk.refused (data_path db_dir table.table_name) ≡ false
        → disk'.refused (data_path db_dir table.table_name) ≡ false
    readable-frame e = ap (λ r. r (data_path db_dir table.table_name)) c.refused ∙ e

    IsIndexed-frame :
        (i : ℕ) → IsIndexed table disk db_dir i rows → IsIndexed table disk' db_dir i rows
    IsIndexed-frame i t = record {
      column = t.column;
      ready = t.ready;
      column_of = t.column_of;
      readable = readable-frame t.readable;
      content = file-frame table.table_name h ∙ t.content;
      shapes = t.shapes;
      ids = t.ids;
      index = t.index;
      unused = t.unused;
      fits = t.fits;
    }

    pub Agrees-frame : Agrees disk db_dir rows table → Agrees disk' db_dir rows table
    Agrees-frame a = record {
      loaded = load_table_schema-frame table.table_name ∙ a.loaded;
      id_column = a.id_column;
      readable = readable-frame a.readable;
      content = file-frame table.table_name h ∙ a.content;
      shapes = a.shapes;
      indexed = λ i e. IsIndexed-frame i (a.indexed i e);
      follows = a.follows;
    }
