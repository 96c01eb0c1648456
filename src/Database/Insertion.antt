-- ===== src/Database/Insertion.antt =====
-- An INSERT of src/executor.c into a table that agrees with its file: what it leaves alone, and what
-- the table is behind it.
use bptree_sql_engine.Prelude.{
  ℕ, ◌+◌, ◌%◌, ◌^◌, ◌≡◌, refl, sym, ap, ◌∙◌, subst, some, List, [], ◌∷◌, ◌++◌, Bytes, Result, ok,
  err, inr,
}
use bptree_sql_engine.Bptree.Node.{Tree}
use bptree_sql_engine.Bptree.Insert.{TreeError, bptree_insert}
use bptree_sql_engine.Storage.Row.{Row}
use bptree_sql_engine.Storage.File.{Disk}
use bptree_sql_engine.Storage.Table.{StorageError, data_path, append_row_to_table_with_offset}
use bptree_sql_engine.Storage.Paths.{ChangesOnly, ChangesOnly-refl, append-ChangesOnly}
use bptree_sql_engine.Schema.Load.{load_table_schema, schema_find_column_index}
use bptree_sql_engine.Runtime.Index.{stored_id}
use bptree_sql_engine.Runtime.NextId.{Follows, HasStored-last}
use bptree_sql_engine.Runtime.Context.{TableRuntime, id_name}
use bptree_sql_engine.Executor.Insert.{ExecError}
use bptree_sql_engine.Executor.Indexed.{IsIndexed}
use bptree_sql_engine.Executor.Execute.{ExecResult, index_row, index_appended, insert_generated}
use bptree_sql_engine.Database.State.{Agrees}
use bptree_sql_engine.Database.Frame.{load_table_schema-frame}

abbrev Inserting : Type 0
Inserting = Result ExecError ExecResult × TableRuntime × Disk

-- The next id behind an INSERT: the following one, if the INSERT has succeeded.
abbrev Next : Result ExecError ExecResult → ℕ → ℕ → Type 0
Next (ok result) next_id next_id' = next_id' ≡ (next_id + 1) % 2 ^ 64
Next (err e) next_id next_id' = next_id' ≡ next_id

-- An INSERT changes the index and the next id of its table, and the file at `path`.
pub record Changes (table : TableRuntime) (disk : Disk) (path : Bytes) (r : Inserting)
    : Type 0 where
  pub name : r.1.table_name ≡ table.table_name
  pub schema : r.1.schema ≡ table.schema
  pub column : r.1.id_column ≡ table.id_column
  pub next : Next r.0 table.next_id r.1.next_id
  pub disk_changes : ChangesOnly path disk r.2

Changes-refl :
    (table : TableRuntime) (disk disk' : Disk) (path : Bytes) (e : ExecError)
    → ChangesOnly path disk disk'
    → Changes table disk path (err e, table, disk')
Changes-refl table disk disk' path e c = record {
  name = refl;
  schema = refl;
  column = refl;
  next = refl;
  disk_changes = c;
}

module _ (table : TableRuntime) (disk : Disk) (path : Bytes) where
  index_row-Changes :
      (disk' : Disk) (r : Result TreeError Tree)
      → ChangesOnly path disk disk'
      → Changes table disk path (index_row table disk' r)
  index_row-Changes disk' (err e) c = Changes-refl table disk disk' path _ c
  index_row-Changes disk' (ok tree) c = record {
    name = refl;
    schema = refl;
    column = refl;
    next = refl;
    disk_changes = c;
  }

  index_appended-Changes :
      (r : Result StorageError (Disk × ℕ))
      → ((disk' : Disk) (offset : ℕ) → r ≡ ok (disk', offset) → ChangesOnly path disk disk')
      → Changes table disk path (index_appended table disk r)
  index_appended-Changes (err e) h =
      Changes-refl table disk disk path _ (ChangesOnly-refl path disk)
  index_appended-Changes (ok (disk', offset)) h =
      index_row-Changes disk' (bptree_insert table.id_index table.next_id offset)
        (h disk' offset refl)

pub insert_generated-Changes :
    (table : TableRuntime) (disk : Disk) (db_dir name : Bytes) (row : Result ExecError Row)
    → Changes table disk (data_path db_dir name) (insert_generated table disk db_dir name row)
insert_generated-Changes table disk db_dir name (err e) =
    Changes-refl table disk disk _ _ (ChangesOnly-refl _ disk)
insert_generated-Changes table disk db_dir name (ok row) =
    index_appended-Changes table disk (data_path db_dir name)
      (append_row_to_table_with_offset disk db_dir name row)
      (λ disk' offset e. append-ChangesOnly disk disk' db_dir name row offset e)

-- The table behind an INSERT with a generated id agrees with the file.
pub generated-Agrees :
    (table table' : TableRuntime) (disk disk' : Disk) (db_dir : Bytes) (i : ℕ) (rows : List Row)
    (row : Row) (result : ExecResult)
    → Agrees disk db_dir rows table
    → table.id_column ≡ some i
    → stored_id i row ≡ some table.next_id
    → Changes table disk (data_path db_dir table.table_name) (ok result, table', disk')
    → IsIndexed table' disk' db_dir i (rows ++ row ∷ [])
    → Agrees disk' db_dir (rows ++ row ∷ []) table'
generated-Agrees table table' disk disk' db_dir i rows row result a e id c t = record {
  loaded =
      load_table_schema-frame disk disk' db_dir table.table_name c.disk_changes table'.table_name
      ∙ ap (λ n. load_table_schema disk db_dir n) c.name
      ∙ a.loaded
      ∙ ap ok (sym c.schema);
  id_column =
      c.column ∙ a.id_column ∙ ap (λ s. schema_find_column_index s.columns id_name) (sym c.schema);
  readable = t.readable;
  content = t.content;
  shapes = t.shapes;
  indexed = λ j f.
      let same : i ≡ j = cc (c.column, e, f) in
      subst (λ k. IsIndexed table' disk' db_dir k (rows ++ row ∷ [])) same t;
  follows = λ j f.
      let same : i ≡ j = cc (c.column, e, f) in
      subst (λ k. Follows k table'.next_id (rows ++ row ∷ [])) same
        (inr (table.next_id, HasStored-last i table.next_id rows row id, c.next));
}
