-- ===== src/Benchmark/Steps.antt =====
-- The statements of src/benchmark.c on a database that holds its rows.
use bptree_sql_engine.Prelude.{
  ℕ, suc, ◌+◌, ◌%◌, ◌<◌, ◌≡◌, refl, sym, ap, ◌∙◌, subst, Bool, false, some, [], ◌∷◌, ◌++◌, arith,
  Bytes, ok,
}
use bptree_sql_engine.Storage.Row.{Row}
use bptree_sql_engine.Storage.FileLaws.{ends_in_cr}
use bptree_sql_engine.Schema.Load.{schema_find_column_index}
use bptree_sql_engine.Runtime.Id.{uint64_max, format_uint64}
use bptree_sql_engine.Runtime.Context.{id_name}
use bptree_sql_engine.Runtime.NextId.{HasStored}
use bptree_sql_engine.Sql.Ast.{insert_stmt}
use bptree_sql_engine.Executor.Insert.{
  validate_insert_columns_for_auto_id, build_insert_row_with_generated_id, fill_around,
}
use bptree_sql_engine.Executor.Execute.{result_insert, State, execute_statement}
use bptree_sql_engine.Database.State.{
  Database, Catalog, CannotIndex, IsNextId, Represents, KeepsValues,
}
use bptree_sql_engine.Database.Kept.{format-Keeps}
use bptree_sql_engine.Database.Change.{append_to-same}
use bptree_sql_engine.Database.Refinement.{execute_statement-Refines}
use bptree_sql_engine.Database.Progress.{IsUsable, insert-Step}
use bptree_sql_engine.Benchmark.Run.{bulk_statement}
use bptree_sql_engine.Benchmark.Rows.{
  benchmark_schema, benchmark_row, benchmark_rows, benchmark_rows-indexable, benchmark_rows-no_last,
  benchmark_rows-next,
}

ends-cons : (xs : Bytes) → ends_in_cr xs ≡ false → ends_in_cr (b'_' ∷ xs) ≡ false
ends-cons [] e = refl
ends-cons (x ∷ xs) e = e

bulk_statement-KeepsValues :
    (table_name : Bytes) (i : ℕ) → KeepsValues (insert_stmt (bulk_statement table_name i))
bulk_statement-KeepsValues table_name i =
    (ends-cons (format_uint64 (i + 1)) (format-Keeps (i + 1)), (format-Keeps (20 + i % 50), tt))

module _ (catalog : Catalog) (locked : Bytes → Bool) (table_name : Bytes)
    (known : catalog table_name ≡ ok (benchmark_schema table_name))
    (unlocked : locked table_name ≡ false) where
  -- A state that represents a database with the rows of the first `n` rounds.
  pub record Filled (n : ℕ) (state : State) : Type 0 where
    pub database : Database
    pub represents : Represents catalog locked database state
    pub rows : database table_name ≡ benchmark_rows n

  pub found : schema_find_column_index (benchmark_schema table_name).columns id_name ≡ some 0
  unfolding schema_find_column_index
  found = refl

  pub usable :
      (db : Database) (n : ℕ)
      → db table_name ≡ benchmark_rows n
      → n < uint64_max
      → IsUsable catalog locked db (benchmark_schema table_name) 0 found table_name
  usable db n e h = record {
    known = known;
    unlocked = unlocked;
    indexable = λ x cannot.
        benchmark_rows-indexable table_name n x h
          (subst (λ rows. CannotIndex (benchmark_schema table_name) 0 rows x) e cannot);
  }

  bulk-valid :
      (i : ℕ)
      → validate_insert_columns_for_auto_id
          (benchmark_schema table_name)
          0
          (bulk_statement table_name i)
        ≡ ok tt
  unfolding validate_insert_columns_for_auto_id
  bulk-valid i = refl

  bulk-row :
      (i : ℕ) (row : Row)
      → build_insert_row_with_generated_id
          (benchmark_schema table_name)
          0
          (bulk_statement table_name i)
          (i + 1)
        ≡ ok row
      → benchmark_row i ≡ row
  unfolding build_insert_row_with_generated_id fill_around
  bulk-row i row e = cc

  -- An INSERT of the benchmark.
  pub bulk-step :
      (i : ℕ) (state : State)
      → i < uint64_max
      → Filled i state
      → (execute_statement (insert_stmt (bulk_statement table_name i)) state).0
          ≡ ok (result_insert (some (i + 1)))
        × Filled (suc i) (execute_statement (insert_stmt (bulk_statement table_name i)) state).1
  bulk-step i state h f =
      let db = f.database in
      let stmt = bulk_statement table_name i in
      let (db', step, r) =
        execute_statement-Refines catalog locked db (insert_stmt stmt) state f.represents
          (bulk_statement-KeepsValues table_name i) in
      let (id, row, result, after, built, next) =
        insert-Step catalog locked db (benchmark_schema table_name) 0 found stmt _ db'
          (usable db i f.rows h) (bulk-valid i)
          (λ s. benchmark_rows-no_last i h (subst (HasStored 0 uint64_max) f.rows s)) step in
      let same_id : id ≡ i + 1 =
        benchmark_rows-next i id (omega arith) (subst (IsNextId 0 id) f.rows next) in
      let same_row : benchmark_row i ≡ row = bulk-row i row (
        ap (build_insert_row_with_generated_id (benchmark_schema table_name) 0 stmt) (sym same_id)
        ∙ built) in
      (
        result ∙ ap (λ k. ok (result_insert (some k))) same_id,
        record {
          database = db';
          represents = r;
          rows =
              ap (λ d. d table_name) after
              ∙ append_to-same db table_name row
              ∙ ap (λ l. l ++ row ∷ []) f.rows
              ∙ ap (λ x. benchmark_rows i ++ x ∷ []) (sym same_row);
        },
      )
