-- ===== src/Database/Open.antt =====
-- What it means that a statement of src/executor.c refines a step of a database, and a table that was
-- looked up.
use bptree_sql_engine.Prelude.{ℕ, ◌≡◌, Bool, some, [], ◌∷◌, ◌++◌, Bytes, get_elem?, set, ok}
use bptree_sql_engine.Storage.Row.{Row}
use bptree_sql_engine.Storage.File.{Disk}
use bptree_sql_engine.Storage.Table.{data_path}
use bptree_sql_engine.Storage.Paths.{ChangesOnly}
use bptree_sql_engine.Runtime.Context.{TableRuntime, ExecutionContext, find_table}
use bptree_sql_engine.Sql.Ast.{Statement}
use bptree_sql_engine.Executor.Execute.{Outcome}
use bptree_sql_engine.Database.State.{append_to, Database, Catalog, Step, Agrees, Represents}
use bptree_sql_engine.Database.Change.{
  found-Agrees, found-catalog, same-Represents, appended-Represents,
}

module _ (catalog : Catalog) (locked : Bytes → Bool) (db : Database) where
  -- The outcome of a statement is a step of the database, and the state behind it represents the
  -- database behind the step.
  abbrev pub Refines : Statement → Outcome → Type 0
  Refines stmt (result, state) =
      (db' : Database) × Step catalog locked db stmt result db'
      × Represents catalog locked db' state

  -- A table that was looked up.
  pub record Open (name : Bytes) (i : ℕ) (table : TableRuntime) (ctx : ExecutionContext)
      (disk : Disk) : Type 0 where
    pub represents : Represents catalog locked db (ctx, disk)
    pub found : find_table ctx.tables name ≡ some i
    pub at : get_elem? ctx.tables i ≡ some table
    pub named : table.table_name ≡ name

  module _ (name : Bytes) (i : ℕ) (table : TableRuntime) (ctx : ExecutionContext) (disk : Disk)
      (o : Open name i table ctx disk) where
    pub Open-Agrees : Agrees disk ctx.db_dir (db name) table
    Open-Agrees =
        found-Agrees catalog locked db ctx disk name i o.represents o.found table o.at o.named

    pub Open-catalog : catalog name ≡ ok table.schema
    Open-catalog =
        found-catalog catalog locked db ctx disk name i o.represents o.found table o.at o.named

    pub Open-same :
        Represents catalog locked db (record ctx { tables = set ctx.tables i table }, disk)
    Open-same =
        same-Represents catalog locked db ctx disk name i o.represents o.found table o.at o.named

    pub Open-appended :
        (row : Row) (disk' : Disk) (table' : TableRuntime)
        → table'.table_name ≡ name
        → ChangesOnly (data_path ctx.db_dir name) disk disk'
        → Agrees disk' ctx.db_dir (db name ++ row ∷ []) table'
        → Represents catalog locked
            (append_to db name row)
            (record ctx { tables = set ctx.tables i table' }, disk')
    Open-appended =
        appended-Represents catalog locked db ctx disk name i o.represents o.found table o.at
          o.named
