-- ===== src/Benchmark/Laws.antt =====
-- The benchmark of src/benchmark.c succeeds.
use bptree_sql_engine.Prelude.{
  ℕ, zero, suc, ◌+◌, ◌≤◌, ◌<◌, ◌≡◌, refl, ap, ◌∙◌, subst, Bool, true, false, not, ◌&&◌, Option,
  some, arith, ◌==◌, if◌then◌else◌, Bytes, length, ok, err,
}
use native.Mathlib.Nat.{mod-lt}
use bptree_sql_engine.Runtime.Id.{uint64_max}
use bptree_sql_engine.Sql.Ast.{WhereClause, insert_stmt, select_stmt}
use bptree_sql_engine.Executor.Select.{
  validate_select_columns, where_index_of, row_matches_where_clause,
}
use bptree_sql_engine.Executor.Indexed.{select_rows}
use bptree_sql_engine.Executor.Execute.{ExecResult, State, execute_statement}
use bptree_sql_engine.Database.State.{Catalog, Represents, by_index}
use bptree_sql_engine.Database.Refinement.{execute_statement-Refines}
use bptree_sql_engine.Database.Progress.{select-Step}
use bptree_sql_engine.Benchmark.Run.{
  BenchmarkError, bulk_statement, go_on, benchmark_bulk_insert, probe, probe_id, is_expected,
  select_loop,
}
use bptree_sql_engine.Benchmark.Rows.{benchmark_schema, benchmark_row}
use bptree_sql_engine.Benchmark.Probes.{one_match}
use bptree_sql_engine.Benchmark.Steps.{Filled, found, usable, bulk-step}

expected :
    (used u : Bool) (k : ℕ) → u ≡ used → k ≡ 1 → ((if used then u else not u) && k == 1) ≡ true
expected true u k e f = rw (e, f) refl
expected false u k e f = rw (e, f) refl

-- A probe is in the range of the rows.
probe_id-range :
    (row_count i : ℕ)
    → 0 < row_count
    → (0 < probe_id row_count i) × (probe_id row_count i ≤ row_count)
probe_id-range row_count i h = (omega (arith, mod-lt i h), omega arith)

module _ (catalog : Catalog) (locked : Bytes → Bool) (table_name : Bytes)
    (known : catalog table_name ≡ ok (benchmark_schema table_name))
    (unlocked : locked table_name ≡ false) where
  abbrev FilledHere : ℕ → State → Type 0
  FilledHere = Filled catalog locked table_name known unlocked

  -- The loop of the inserts succeeds, and leaves the rows of all its rounds.
  pub bulk_insert-Filled :
      (left i : ℕ) (state : State)
      → i + left ≤ uint64_max
      → FilledHere i state
      → (state' : State) × (benchmark_bulk_insert left i table_name state ≡ (ok tt, state'))
        × FilledHere (i + left) state'
  unfolding benchmark_bulk_insert
  bulk_insert-Filled zero i state h f =
      (state, refl, subst (λ n. FilledHere n state) (omega arith) f)
  bulk_insert-Filled (suc left) i state h f =
      let outcome = execute_statement (insert_stmt (bulk_statement table_name i)) state in
      let (run, f') = bulk-step catalog locked table_name known unlocked i state (omega arith) f in
      let (last, later, g) =
        bulk_insert-Filled left (i + 1) outcome.1 (omega arith)
          (subst (λ n. FilledHere n outcome.1) (omega arith) f') in
      (
        last,
        ap
              (λ r.
                go_on (r, outcome.1)
                  λ result state'. benchmark_bulk_insert left (i + 1) table_name state')
              run
            ∙ later,
        subst (λ n. FilledHere n last) (omega arith) g,
      )

  module _ (clause : ℕ → WhereClause) (used : Bool) (unexpected : BenchmarkError) (w : Option ℕ)
      (valid : (key : ℕ)
        → validate_select_columns (benchmark_schema table_name) (probe table_name (clause key))
          ≡ ok tt)
      (at : (key : ℕ) → where_index_of (benchmark_schema table_name) (some (clause key)) ≡ w)
      (by : (key : ℕ)
        → 0 < key
        → key ≤ uint64_max
        → by_index (benchmark_schema table_name) (probe table_name (clause key)) ≡ used)
      (picks : (key i : ℕ)
        → 0 < key
        → key ≤ uint64_max
        → i + 1 ≤ uint64_max
        → row_matches_where_clause (probe table_name (clause key)) w (benchmark_row i)
          ≡ (i + 1 == key)) where
    -- A probe answers as expected.
    pub probe-step :
        (key n : ℕ) (state : State)
        → n < uint64_max
        → 0 < key
        → key ≤ n
        → FilledHere n state
        → (result : ExecResult) × ((execute_statement
              (select_stmt (probe table_name (clause key)))
              state).0
            ≡ ok result)
          × (is_expected used result ≡ true)
          × FilledHere n (execute_statement (select_stmt (probe table_name (clause key))) state).1
    probe-step key n state h p le f =
        let db = f.database in
        let schema = benchmark_schema table_name in
        let stmt = probe table_name (clause key) in
        let (db', step, r) =
          execute_statement-Refines catalog locked db (select_stmt stmt) state f.represents tt in
        let (result, same) =
          select-Step catalog locked db schema 0 (found catalog locked table_name known unlocked)
            stmt _ db' (usable catalog locked table_name known unlocked db n f.rows h) (valid key)
            step in
        let one : length
              (select_rows schema stmt (where_index_of schema (some (clause key))) (db table_name))
            ≡ 1 =
          ap (λ o. length (select_rows schema stmt o (db table_name))) (at key)
          ∙ ap (λ l. length (select_rows schema stmt w l)) f.rows
          ∙ one_match schema stmt w key n (λ i lt. picks key i p (omega arith) (omega arith)) n
              (omega arith) p le in
        (
          _,
          result,
          expected used (by_index schema stmt) _ (by key p (omega arith)) one,
          record {
            database = db;
            represents = subst (λ d. Represents catalog locked d _) same r;
            rows = f.rows;
          },
        )

    -- The loop of the probes succeeds.
    pub select_loop-Filled :
        (left i n : ℕ) (state : State)
        → n < uint64_max
        → 0 < n
        → FilledHere n state
        → (state' : State) × (select_loop clause used unexpected left i table_name n state
            ≡ (ok tt, state'))
          × FilledHere n state'
    unfolding select_loop
    select_loop-Filled zero i n state h p f = (state, refl, f)
    select_loop-Filled (suc left) i n state h p f =
        let (positive, le) = probe_id-range n i p in
        let outcome =
          execute_statement (select_stmt (probe table_name (clause (probe_id n i)))) state in
        let (result, run, good, f') = probe-step (probe_id n i) n state h positive le f in
        let (last, later, g) = select_loop-Filled left (i + 1) n outcome.1 h p f' in
        (
          last,
          ap
                (λ r.
                  go_on (r, outcome.1)
                    λ result' state'.
                      if is_expected used result'
                      then select_loop clause used unexpected left (i + 1) table_name n state'
                      else (err unexpected, state'))
                run
              ∙ ap
                  (λ (b : Bool).
                    if b
                    then select_loop clause used unexpected left (i + 1) table_name n outcome.1
                    else (err unexpected, outcome.1))
                  good
              ∙ later,
          g,
        )
