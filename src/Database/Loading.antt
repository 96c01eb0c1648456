-- ===== src/Database/Loading.antt =====
-- `get_or_load_table_runtime` of src/runtime.c: a table that was loaded represents the rows of its
-- file, and so the context behind it still represents the database.
use bptree_sql_engine.Prelude.{
  ◌≡◌, refl, sym, ap, ◌∙◌, subst, Bool, none, [], ◌∷◌, ◌++◌, Bytes, All-append, Bool-cases, inl,
  inr,
}
use bptree_sql_engine.Storage.File.{Disk, bytes_eq}
use bptree_sql_engine.Storage.Table.{data_path, touch}
use bptree_sql_engine.Storage.TableLaws.{stored, bytes_eq_refl, bytes_eq→eq}
use bptree_sql_engine.Storage.Paths.{touch-ChangesOnly}
use bptree_sql_engine.Runtime.Context.{TableRuntime, ExecutionContext, find_table}
use bptree_sql_engine.Executor.Loaded.{touch-content}
use bptree_sql_engine.Database.State.{Database, Catalog, Holds, Agrees, Represents}
use bptree_sql_engine.Database.Tables.{All-absent, DistinctNames-append}
use bptree_sql_engine.Database.Frame.{load_table_schema-frame, Holds-frame, Agrees-frame}

module _ (catalog : Catalog) (locked : Bytes → Bool) (db : Database) where
  -- The file is created where it is missing.
  pub touch-Represents :
      (ctx : ExecutionContext) (disk : Disk) (name : Bytes)
      → find_table ctx.tables name ≡ none
      → Represents catalog locked db (ctx, disk)
      → Represents catalog locked db
          (ctx, touch disk (data_path ctx.db_dir name) (disk.file (data_path ctx.db_dir name)))
  touch-Represents ctx disk name e r =
      let path = data_path ctx.db_dir name in
      let touched = touch disk path (disk.file path) in
      let c = touch-ChangesOnly path disk (disk.file path) in
      record {
        schemas =
            λ other. load_table_schema-frame disk touched ctx.db_dir name c other ∙ r.schemas other;
        locks = λ other. ap (λ f. f (data_path ctx.db_dir other)) c.refused ∙ r.locks other;
        contents = λ other schema f. elim (Bool-cases (bytes_eq other name)) [
          | inl same ↦
              let held = r.contents other schema f in
              subst
                (λ n.
                  Holds disk ctx.db_dir n schema (db n) → Holds touched ctx.db_dir n schema (db n))
                (sym (bytes_eq→eq other name same))
                (λ held. record {
                  content =
                      ap stored (touch-content disk path (disk.file path) refl) ∙ held.content;
                  shapes = held.shapes;
                })
                held
          | inr differs ↦
              Holds-frame disk touched ctx.db_dir name c other schema (db other)
                (λ same. cc (ap (bytes_eq other) same, bytes_eq_refl other, differs))
                (r.contents other schema f)
        ];
        tables =
            All-absent (λ t. Agrees disk ctx.db_dir (db t.table_name) t)
              (λ t. Agrees touched ctx.db_dir (db t.table_name) t) name
              (λ t h a. Agrees-frame disk touched ctx.db_dir name c t (db t.table_name) h a)
              ctx.tables e r.tables;
        distinct = r.distinct;
      }

  -- A table that agrees with its file, behind the tables of the context.
  pub add_table-Represents :
      (ctx : ExecutionContext) (disk : Disk) (table : TableRuntime)
      → find_table ctx.tables table.table_name ≡ none
      → Agrees disk ctx.db_dir (db table.table_name) table
      → Represents catalog locked db (ctx, disk)
      → Represents catalog locked db (record ctx { tables = ctx.tables ++ table ∷ [] }, disk)
  add_table-Represents ctx disk table e a r = record {
    schemas = r.schemas;
    locks = r.locks;
    contents = r.contents;
    tables =
        All-append (λ t. Agrees disk ctx.db_dir (db t.table_name) t) ctx.tables (table ∷ [])
          r.tables (a, tt);
    distinct = DistinctNames-append ctx.tables table e r.distinct;
  }
