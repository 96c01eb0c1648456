-- ===== src/Database/Change.antt =====
-- A change of one table in the context and of its file: what is represented behind it.
use bptree_sql_engine.Prelude.{
  ℕ, ◌≡◌, ◌≢◌, refl, sym, ap, ◌∙◌, subst, Bool, false, some, [], ◌∷◌, ◌++◌, Bytes, get_elem?, set,
  ok, Bool-cases, inl, inr,
}
use bptree_sql_engine.Storage.Row.{Row}
use bptree_sql_engine.Storage.File.{Disk, bytes_eq}
use bptree_sql_engine.Storage.Table.{data_path}
use bptree_sql_engine.Storage.TableLaws.{write_rows, stored, bytes_eq_refl, bytes_eq→eq}
use bptree_sql_engine.Storage.Paths.{ChangesOnly, ChangesOnly-refl}
use bptree_sql_engine.Schema.Load.{load_table_schema}
use bptree_sql_engine.Runtime.Context.{TableRuntime, ExecutionContext, find_table}
use bptree_sql_engine.Database.State.{Database, Catalog, append_to, Holds, Agrees, Represents}
use bptree_sql_engine.Database.Tables.{All-set, DistinctNames-set, All-get_elem?}
use bptree_sql_engine.Database.Frame.{load_table_schema-frame, Holds-frame, Agrees-frame}

pub bytes_eq-differs : (xs ys : Bytes) → xs ≢ ys → bytes_eq xs ys ≡ false
bytes_eq-differs xs ys h = elim (Bool-cases (bytes_eq xs ys)) [
  | inl e ↦ absurd (h (bytes_eq→eq xs ys e))
  | inr e ↦ e
]

pub append_to-same :
    (db : Database) (name : Bytes) (row : Row) → append_to db name row name ≡ db name ++ row ∷ []
append_to-same db name row = rw (bytes_eq_refl name) refl

pub append_to-other :
    (db : Database) (name other : Bytes) (row : Row)
    → other ≢ name
    → append_to db name row other ≡ db other
append_to-other db name other row h = rw (bytes_eq-differs other name h) refl

module _ (catalog : Catalog) (locked : Bytes → Bool) (db : Database) (ctx : ExecutionContext)
    (disk : Disk) (name : Bytes) (i : ℕ) (r : Represents catalog locked db (ctx, disk))
    (found : find_table ctx.tables name ≡ some i) where
  -- One table has changed, with its file.
  pub changed-Represents :
      (db' : Database) (disk' : Disk) (table' : TableRuntime)
      → table'.table_name ≡ name
      → ChangesOnly (data_path ctx.db_dir name) disk disk'
      → ((other : Bytes) → other ≢ name → db' other ≡ db other)
      → Agrees disk' ctx.db_dir (db' name) table'
      → Represents catalog locked db' (record ctx { tables = set ctx.tables i table' }, disk')
  changed-Represents db' disk' table' named c off a =
      let schemas : (other : Bytes) → _ =
        λ other. load_table_schema-frame disk disk' ctx.db_dir name c other ∙ r.schemas other in
      record {
        schemas = schemas;
        locks = λ other. ap (λ f. f (data_path ctx.db_dir other)) c.refused ∙ r.locks other;
        contents = λ other schema f. elim (Bool-cases (bytes_eq other name)) [
          | inl e ↦
              let same : other ≡ name = bytes_eq→eq other name e in
              let loaded : catalog name ≡ ok table'.schema =
                sym (schemas name)
                ∙ subst (λ n. load_table_schema disk' ctx.db_dir n ≡ ok table'.schema) named
                    a.loaded in
              let known : table'.schema ≡ schema = cc (loaded, ap catalog same, f) in
              let held : Holds disk' ctx.db_dir name table'.schema (db' name) = record {
                content =
                    subst
                      (λ n. stored (disk'.file (data_path ctx.db_dir n)) ≡ write_rows (db' name))
                      named (ap stored a.content);
                shapes = a.shapes;
              } in
              subst (λ s. Holds disk' ctx.db_dir other s (db' other)) known
                (subst (λ n. Holds disk' ctx.db_dir n table'.schema (db' n)) (sym same) held)
          | inr e ↦
              let differs : other ≢ name =
                λ same. cc (ap (bytes_eq other) same, bytes_eq_refl other, e) in
              subst (Holds disk' ctx.db_dir other schema) (sym (off other differs)) (
                Holds-frame disk disk' ctx.db_dir name c other schema (db other) differs
                  (r.contents other schema f))
        ];
        tables =
            All-set (λ t. Agrees disk ctx.db_dir (db t.table_name) t)
              (λ t. Agrees disk' ctx.db_dir (db' t.table_name) t) name
              (λ t h b.
                subst (λ rows. Agrees disk' ctx.db_dir rows t) (sym (off t.table_name h))
                  (Agrees-frame disk disk' ctx.db_dir name c t (db t.table_name) h b))
              table' ctx.tables i found r.distinct
              (subst (λ n. Agrees disk' ctx.db_dir (db' n) table') (sym named) a) r.tables;
        distinct = DistinctNames-set table' name ctx.tables i named found r.distinct;
      }

  module _ (table : TableRuntime) (at : get_elem? ctx.tables i ≡ some table)
      (named : table.table_name ≡ name) where
    -- The table that was found agrees with its file.
    pub found-Agrees : Agrees disk ctx.db_dir (db name) table
    found-Agrees =
        subst (λ n. Agrees disk ctx.db_dir (db n) table) named
          (All-get_elem? (λ t. Agrees disk ctx.db_dir (db t.table_name) t) ctx.tables i table at
            r.tables)

    pub found-catalog : catalog name ≡ ok table.schema
    found-catalog =
        sym (r.schemas name)
        ∙ subst (λ n. load_table_schema disk ctx.db_dir n ≡ ok table.schema) named
            found-Agrees.loaded

    -- Nothing has changed.
    pub same-Represents :
        Represents catalog locked db (record ctx { tables = set ctx.tables i table }, disk)
    same-Represents =
        changed-Represents db disk table named (ChangesOnly-refl _ disk) (λ other h. refl)
          found-Agrees

    -- The table and its file have changed, by a row.
    pub appended-Represents :
        (row : Row) (disk' : Disk) (table' : TableRuntime)
        → table'.table_name ≡ name
        → ChangesOnly (data_path ctx.db_dir name) disk disk'
        → Agrees disk' ctx.db_dir (db name ++ row ∷ []) table'
        → Represents catalog locked
            (append_to db name row)
            (record ctx { tables = set ctx.tables i table' }, disk')
    appended-Represents row disk' table' named' c a =
        changed-Represents (append_to db name row) disk' table' named' c
          (λ other h. append_to-other db name other row h)
          (subst (λ rows. Agrees disk' ctx.db_dir rows table') (sym (append_to-same db name row)) a)
