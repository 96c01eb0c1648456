-- ===== src/Executor/NextId.antt =====
-- The row of an INSERT with a generated id, and the table behind it.
use bptree_sql_engine.Prelude.{
  ℕ, zero, suc, ◌+◌, ◌%◌, ◌^◌, ◌<◌, ◌≡◌, ◌≢◌, refl, sym, ap, ◌∙◌, subst, true, false, Option, none,
  some, List, [], ◌∷◌, ◌++◌, arith, append-nil, ◌==◌, Bytes, length, All-append, Result, ok, err,
  ◌>>◌, guard, not,
}
use bptree_sql_engine.Bptree.Node.{Items, Tree}
use bptree_sql_engine.Bptree.Search.{scan_leaf}
use bptree_sql_engine.Bptree.Insert.{bptree_insert}
use bptree_sql_engine.Storage.Row.{Row, write_row}
use bptree_sql_engine.Storage.File.{Disk}
use bptree_sql_engine.Storage.TableLaws.{
  IsRow, write_rows, write_rows-append, Appends, content_of, stored,
}
use bptree_sql_engine.Schema.Load.{TableSchema}
use bptree_sql_engine.Runtime.Id.{parse_canonical_positive_uint64, format_uint64}
use bptree_sql_engine.Runtime.IdLaws.{parse-format}
use bptree_sql_engine.Runtime.Index.{stored_id}
use bptree_sql_engine.Runtime.Context.{TableRuntime}
use bptree_sql_engine.Runtime.Located.{
  entry_of, located, located-append, Indexes, Indexes-insert, scan_leaf-last,
}
use bptree_sql_engine.Runtime.Built.{HasId, Unused, other-key}
use bptree_sql_engine.Sql.Ast.{InsertStatement}
use bptree_sql_engine.Executor.Insert.{
  ExecError, validate_insert_columns_for_auto_id, build_insert_row_with_generated_id,
}
use bptree_sql_engine.Executor.RowLaws.{HasIdAt}
use bptree_sql_engine.Executor.Indexed.{IsIndexed}
use bptree_sql_engine.Executor.Execute.{generated_row}

-- What the checks have shown where a row is built.
pub generated_row-parts :
    (table : TableRuntime) (i : ℕ) (stmt : InsertStatement) (row : Row)
    → generated_row table i stmt ≡ ok row
    → (validate_insert_columns_for_auto_id table.schema i stmt ≡ ok tt)
      × (table.next_id ≢ 0)
      × (build_insert_row_with_generated_id table.schema i stmt table.next_id ≡ ok row)
generated_row-parts table i stmt row e =
    parts (validate_insert_columns_for_auto_id table.schema i stmt) table.next_id
      (build_insert_row_with_generated_id table.schema i stmt table.next_id) e
  where
    parts :
        (v : Result ExecError (Unit {0})) (id : ℕ) (b : Result ExecError Row)
        → (v >> (guard (not (id == 0)) ExecError.id_overflow >> b)) ≡ ok row
        → (v ≡ ok tt) × (id ≢ 0) × (b ≡ ok row)
    parts (err x) id b e = absurd cc
    parts (ok u) zero b e = absurd cc
    parts (ok u) (suc id) b e =
        let nonzero : (suc id == 0) ≡ false = ground arith in
        (refl, λ z. omega arith, (rw nonzero at e))

-- The id that the row of an INSERT stores.
pub generated_row-stored_id :
    (schema : TableSchema) (i id : ℕ) (row : Row)
    → id ≢ 0
    → id < 2 ^ 64
    → HasIdAt (length schema.columns) i (format_uint64 id) row
    → stored_id i row ≡ some id
generated_row-stored_id schema i id row nonzero fits h =
    ap
      (λ (value : Option Bytes). elim value [
        | none ↦ none
        | some text ↦ parse_canonical_positive_uint64 text
      ])
      h.1
    ∙ parse-format id (positive id nonzero) (omega arith)
  where
    positive : (n : ℕ) → n ≢ 0 → 0 < n
    positive n h =
        elim n as (λ m. m ≢ 0 → 0 < m) [ zero ↦ λ g. absurd (g refl) | suc m ↦ λ g. omega arith ] h

-- The entries and the next id behind an insertion.
Unused-next :
    (id offset : ℕ) (xs : Items)
    → id < 2 ^ 64
    → id ≢ 0
    → scan_leaf xs id ≡ none
    → Unused id xs
    → Unused ((id + 1) % 2 ^ 64) (xs ++ (id, offset) ∷ [])
Unused-next id offset xs fits nonzero new h j g le =
    scan_leaf-last xs id offset j new
    ∙ other-key id j (scan_leaf xs j) offset (ground arith)
    ∙ h j nonzero (ground arith)

pub IsIndexed-insert :
    (disk disk' : Disk) (db_dir : Bytes) (table : TableRuntime) (i offset : ℕ) (rows : List Row)
    (row : Row) (tree : Tree)
    → IsIndexed table disk db_dir i rows
    → table.next_id ≢ 0
    → IsRow (length table.schema.columns) row
    → stored_id i row ≡ some table.next_id
    → Appends disk db_dir table.table_name row (ok (disk', offset))
    → bptree_insert table.id_index table.next_id offset ≡ ok tree
    → IsIndexed
        (record table {
          next_id = (table.next_id + 1) % 2 ^ 64;
          id_index_ready = true;
          id_index = tree;
        })
        disk'
        db_dir
        i
        (rows ++ row ∷ [])
IsIndexed-insert disk disk' db_dir table i offset rows row tree t nonzero r id a e =
    let before : content_of disk db_dir table.table_name ≡ write_rows rows = ap stored t.content in
    let entries : located i 0 (rows ++ row ∷ [])
        ≡ located i 0 rows ++ (table.next_id, offset) ∷ [] =
      located-append i 0 rows row
      ∙ ap (λ l. located i 0 rows ++ l)
          (ap (λ o. entry_of o (0 + length (write_rows rows)) []) id
            ∙ ap (λ p. (table.next_id, p) ∷ []) (omega (arith, a.0, ap length before))) in
    record {
      column = t.column;
      ready = refl;
      column_of = t.column_of;
      readable = a.2;
      content =
          a.1
          ∙ ap some (
              ap (λ l. l ++ write_row row) before
              ∙ ap (λ l. write_rows rows ++ l) (sym (append-nil (write_row row)))
              ∙ sym (write_rows-append rows (row ∷ [])));
      shapes = All-append (IsRow (length table.schema.columns)) rows (row ∷ []) t.shapes (r, tt);
      ids = All-append (HasId i) rows (row ∷ []) t.ids ((table.next_id, id), tt);
      index =
          subst (Indexes tree) (sym entries)
            (Indexes-insert table.id_index tree (located i 0 rows) table.next_id offset t.index e);
      unused = subst (Unused ((table.next_id + 1) % 2 ^ 64)) (sym entries) (
          Unused-next table.next_id offset (located i 0 rows) t.fits nonzero
            (t.unused table.next_id nonzero (omega arith)) t.unused);
      fits = omega arith;
    }
