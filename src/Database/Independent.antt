-- ===== src/Database/Independent.antt =====
-- The results of src/executor.c depend on the rows of the tables alone, and not on what a context has
-- loaded.
use bptree_sql_engine.Prelude.{◌≡◌, sym, subst, Bool, Bytes, Result, ok}
use bptree_sql_engine.Sql.Ast.{Statement}
use bptree_sql_engine.Executor.Insert.{ExecError}
use bptree_sql_engine.Executor.Execute.{ExecResult, State, execute_statement}
use bptree_sql_engine.Database.State.{Database, Catalog, Step, Represents, KeepsValues}
use bptree_sql_engine.Database.Deterministic.{Step-deterministic}
use bptree_sql_engine.Database.Refinement.{execute_statement-Refines}

-- Two contexts, each with its disk, that represent the same database, however many of its tables each
-- has loaded: if a statement whose values do not end in `\r` succeeds on both, then with the same
-- result, which says for a SELECT also whether the index answered and for an INSERT the generated id,
-- and what is left on both sides represents the same database again.
pub execute_statement_independent :
    (catalog : Catalog) (locked : Bytes → Bool) (db : Database) (stmt : Statement)
    (state state' : State) (result result' : ExecResult)
    → Represents catalog locked db state
    → Represents catalog locked db state'
    → KeepsValues stmt
    → (execute_statement stmt state).0 ≡ ok result
    → (execute_statement stmt state').0 ≡ ok result'
    → (result ≡ result')
      × (db' : Database) × Represents catalog locked db' (execute_statement stmt state).1
      × Represents catalog locked db' (execute_statement stmt state').1
execute_statement_independent catalog locked db stmt state state' result result' r r' keep e e' =
    let (behind, step, left) = execute_statement-Refines catalog locked db stmt state r keep in
    let (behind', step', left') = execute_statement-Refines catalog locked db stmt state' r' keep in
    let (same, same_rows) =
      Step-deterministic catalog locked db stmt result result' behind behind'
        (subst (λ (o : Result ExecError ExecResult). Step catalog locked db stmt o behind) e step)
        (subst (λ (o : Result ExecError ExecResult). Step catalog locked db stmt o behind') e'
          step') in
    (
      same,
      behind,
      left,
      subst (λ d. Represents catalog locked d (execute_statement stmt state').1) (sym same_rows)
          left',
    )
