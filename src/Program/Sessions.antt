-- ===== src/Program/Sessions.antt =====
-- A run of `main` of src/main.c as a session with a database.
use bptree_sql_engine.Prelude.{
  ℕ, zero, suc, ◌≡◌, refl, sym, ◌∙◌, subst, Bool, false, List, [], ◌∷◌, ◌++◌, append_assoc,
  append-nil, Bytes, All, Result, ok, err, Bool-cases, inl, inr,
}
use bptree_sql_engine.Storage.FileLaws.{ends_in_cr}
use bptree_sql_engine.Sql.Ast.{Statement, insert_stmt, select_stmt}
use bptree_sql_engine.Sql.Lexer.{token_eof, Token}
use bptree_sql_engine.Sql.Parser.{has_type, parser_skip_semicolons, parse_next_statement}
use bptree_sql_engine.Sql.FromTokens.{AllTexts, Gives}
use bptree_sql_engine.Sql.StatementValues.{StatementHas, skip_semicolons-AllTexts, parse_next-Gives}
use bptree_sql_engine.Executor.Insert.{ExecError}
use bptree_sql_engine.Executor.Execute.{ExecResult, State, execute_statement}
use bptree_sql_engine.Database.State.{
  Database, Catalog, Step, selection_refused, row_refused, columns_refused, ids_used_up, no_schema,
  no_file, no_index, Represents, KeepsValues,
}
use bptree_sql_engine.Database.Open.{Refines}
use bptree_sql_engine.Database.Refinement.{execute_statement-Refines}
use bptree_sql_engine.Program.Main.{
  Status, status_ok, status_exec_error, Run, final_status, after, run_tokens,
}
use bptree_sql_engine.Program.Script.{Script, with_first, token_script}
use bptree_sql_engine.Program.MainLaws.{tokens-cases, parse-cases}

-- A session of a database with the statements of a script, in their order: the results, the status at
-- the end, which is the `ending` of the script if all its statements succeed and otherwise the error
-- of the first that fails, and the database behind them. A statement that fails is the last that is
-- executed.
pub data Session (catalog : Catalog) (locked : Bytes → Bool)
    : Database → List Statement → Status → List ExecResult → Status → Database → Type 0 where
  done : (db : Database) (ending : Status) → Session catalog locked db [] ending [] ending db
  failed :
      (db : Database) (stmt : Statement) (stmts : List Statement) (ending : Status) (e : ExecError)
      → Step catalog locked db stmt (err e) db
      → Session catalog locked db (stmt ∷ stmts) ending [] (status_exec_error e) db
  next :
      (db db' db'' : Database) (stmt : Statement) (stmts : List Statement) (ending : Status)
      (result : ExecResult) (results : List ExecResult) (status : Status)
      → Step catalog locked db stmt (ok result) db'
      → Session catalog locked db' stmts ending results status db''
      → Session catalog locked db (stmt ∷ stmts) ending (result ∷ results) status db''

module _ (catalog : Catalog) (locked : Bytes → Bool) where
  -- The results behind `printed` and the status are those of a session with the script, and the state
  -- represents the database behind it.
  pub record IsSession (db : Database) (script : Script) (printed : List ExecResult) (run : Run)
      : Type 0 where
    pub last : Database
    pub results : List ExecResult
    pub output : run.0 ≡ printed ++ results
    pub session : Session catalog locked db script.0 script.1 results run.1 last
    pub represents : Represents catalog locked last run.2

  -- A statement that fails changes nothing.
  Step-err :
      (db db' : Database) (stmt : Statement) (e : ExecError)
      → Step catalog locked db stmt (err e) db'
      → db' ≡ db
  Step-err db db' stmt e (selection_refused s schema x h g) = refl
  Step-err db db' stmt e (row_refused s schema x h g k) = refl
  Step-err db db' stmt e (columns_refused s schema i x h g k) = refl
  Step-err db db' stmt e (ids_used_up s schema i h g k l) = refl
  Step-err db db' stmt e (no_schema s x h) = refl
  Step-err db db' stmt e (no_file s schema h g) = refl
  Step-err db db' stmt e (no_index s schema i x h g k) = refl

  pub nothing-IsSession :
      (db : Database) (printed : List ExecResult) (ending : Status) (state : State)
      → Represents catalog locked db state
      → IsSession db ([], ending) printed (printed, ending, state)
  nothing-IsSession db printed ending state r = record {
    last = db;
    results = [];
    output = sym (append-nil printed);
    session = done db ending;
    represents = r;
  }

  -- The end of the text.
  end-IsSession :
      (db : Database) (printed : List ExecResult) (ending : Status) (state : State)
      → final_status printed ≡ ending
      → Represents catalog locked db state
      → IsSession db ([], ending) printed (printed, final_status printed, state)
  end-IsSession db printed ending state e r =
      subst (λ s. IsSession db ([], s) printed (printed, final_status printed, state)) e
        (nothing-IsSession db printed (final_status printed) state r)

  final_status-last :
      (printed : List ExecResult) (result : ExecResult)
      → final_status (printed ++ result ∷ []) ≡ status_ok
  final_status-last [] result = refl
  final_status-last (first ∷ printed) result = refl

  -- A statement, and the run behind it.
  after-IsSession :
      (db : Database) (script : Script) (printed : List ExecResult) (stmt : Statement)
      (outcome : Result ExecError ExecResult × State) (next_run : List ExecResult → State → Run)
      → Refines catalog locked db stmt outcome
      → ((db' : Database) (p : List ExecResult) (state : State)
          → final_status p ≡ status_ok
          → Represents catalog locked db' state
          → IsSession db' script p (next_run p state))
      → IsSession db (with_first stmt script) printed (after printed outcome next_run)
  after-IsSession db script printed stmt (err e, state) next_run (db', step, r) h =
      let same : db' ≡ db = Step-err db db' stmt e step in
      record {
        last = db;
        results = [];
        output = sym (append-nil printed);
        session =
            failed db stmt script.0 script.1 e
              (subst (Step catalog locked db stmt (err e)) same step);
        represents = subst (λ d. Represents catalog locked d state) same r;
      }
  after-IsSession db script printed stmt (ok result, state) next_run (db', step, r) h =
      let later = h db' (printed ++ result ∷ []) state (final_status-last printed result) r in
      record {
        last = later.last;
        results = result ∷ later.results;
        output = later.output ∙ append_assoc printed (result ∷ []) later.results;
        session =
            next db db' later.last stmt script.0 script.1 result later.results _ step later.session;
        represents = later.represents;
      }

  abbrev Keeps : Bytes → Type 0
  Keeps text = ends_in_cr text ≡ false

  StatementHas-KeepsValues : (stmt : Statement) → StatementHas Keeps stmt → KeepsValues stmt
  StatementHas-KeepsValues (insert_stmt stmt) h = h
  StatementHas-KeepsValues (select_stmt stmt) h = h

  -- The loop of `main` over the statements of a text, none of whose tokens ends in `\r`, on a
  -- context and a disk that represent a database: what it prints and its status are those of a session
  -- of the database with the statements of the text, and the context and the disk that it leaves
  -- represent the database behind the session.
  pub run_tokens-IsSession :
      (fuel : ℕ) (tokens : List Token) (ending : Status) (db : Database) (printed : List ExecResult)
      (state : State)
      → final_status printed ≡ ending
      → Represents catalog locked db state
      → All (λ token. ends_in_cr token.text ≡ false) tokens
      → IsSession db
          (token_script fuel tokens ending)
          printed
          (run_tokens fuel tokens printed state)
  unfolding run_tokens token_script
  run_tokens-IsSession zero tokens ending db printed state i r h =
      end-IsSession db printed ending state i r
  run_tokens-IsSession (suc fuel) tokens ending db printed state i r h =
      elim (tokens-cases (parser_skip_semicolons tokens)) [
        | inl e ↦ rw (run_tokens, token_script, e) (end-IsSession db printed ending state i r)
        | inr (token, later, e) ↦ elim (Bool-cases (has_type token token_eof)) [
          | inl f ↦ rw (run_tokens, token_script, e, f) (end-IsSession db printed ending state i r)
          | inr f ↦ elim (parse-cases (parse_next_statement (token ∷ later))) [
            | inl (x, g) ↦
                rw (run_tokens, token_script, e, f, g) (nothing-IsSession db printed _ state r)
            | inr (stmt, rest, g) ↦
                let here : AllTexts Keeps (token ∷ later) =
                  subst (AllTexts Keeps) e (skip_semicolons-AllTexts Keeps tokens h) in
                let (values, behind) =
                  subst (Gives Keeps (StatementHas Keeps)) g
                    (parse_next-Gives Keeps (token ∷ later) here) in
                rw (run_tokens, token_script, e, f, g)
                  (after-IsSession db (token_script fuel rest status_ok) printed stmt
                    (execute_statement stmt state) (run_tokens fuel rest)
                    (execute_statement-Refines catalog locked db stmt state r
                      (StatementHas-KeepsValues stmt values))
                    (λ db' p state' i' r'.
                      run_tokens-IsSession fuel rest status_ok db' p state' i' r' behind))
          ]
        ]
      ]
