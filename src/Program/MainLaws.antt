-- ===== src/Program/MainLaws.antt =====
-- The loop of `main` of src/main.c ends.
use bptree_sql_engine.Prelude.{
  ℕ, zero, suc, ◌≤◌, ◌<◌, ◌≡◌, refl, subst, List, [], ◌∷◌, ◌++◌, arith, length, Result, ok, err,
  Bool-cases, inl, inr, ◌⊎◌,
}
use bptree_sql_engine.Sql.Ast.{Statement}
use bptree_sql_engine.Sql.Lexer.{token_eof, Token}
use bptree_sql_engine.Sql.Parser.{
  ParseError, Parse, has_type, parser_skip_semicolons, parse_next_statement,
}
use bptree_sql_engine.Sql.ListProgress.{Leaves}
use bptree_sql_engine.Sql.ParserProgress.{parse_next-Leaves, Skipped, skip_semicolons-Skipped}
use bptree_sql_engine.Executor.Insert.{ExecError}
use bptree_sql_engine.Executor.Execute.{ExecResult, State, execute_statement}
use bptree_sql_engine.Program.Main.{Run, after, run_tokens}

after-ext :
    (printed : List ExecResult) (result : Result ExecError ExecResult) (state : State)
    (f g : List ExecResult → State → Run)
    → ((p : List ExecResult) (s : State) → f p s ≡ g p s)
    → after printed (result, state) f ≡ after printed (result, state) g
after-ext printed (ok result) state f g h = h (printed ++ result ∷ []) state
after-ext printed (err e) state f g h = refl

pub tokens-cases :
    (tokens : List Token)
    → (tokens ≡ []) ⊎ ((token : Token) × (rest : List Token) × (tokens ≡ token ∷ rest))
tokens-cases [] = inl refl
tokens-cases (token ∷ rest) = inr (token, rest, refl)

pub parse-cases :
    (r : Parse Statement)
    → ((e : ParseError) × (r ≡ err e))
      ⊎ ((stmt : Statement) × (rest : List Token) × (r ≡ ok (stmt, rest)))
parse-cases (err e) = inl (e, refl)
parse-cases (ok (stmt, rest)) = inr (stmt, rest, refl)

-- Fuel above the number of tokens is as good as any other such fuel: the loop over the statements,
-- which starts with one more than the number of tokens, never runs out of it.
pub run_tokens_fuel :
    (fuel fuel' : ℕ) (tokens : List Token) (printed : List ExecResult) (state : State)
    → length tokens < fuel
    → length tokens < fuel'
    → run_tokens fuel tokens printed state ≡ run_tokens fuel' tokens printed state
unfolding run_tokens
run_tokens_fuel zero fuel' tokens printed state h h' = absurd (omega arith)
run_tokens_fuel (suc fuel) zero tokens printed state h h' = absurd (omega arith)
run_tokens_fuel (suc fuel) (suc fuel') tokens printed state h h' =
    elim (tokens-cases (parser_skip_semicolons tokens)) [
      | inl e ↦ rw (run_tokens, e) refl
      | inr (token, later, e) ↦
          let skipped : Skipped (length tokens) (token ∷ later) =
            subst (Skipped (length tokens)) e (skip_semicolons-Skipped tokens) in
          elim (Bool-cases (has_type token token_eof)) [
            | inl f ↦ rw (run_tokens, e, f) refl
            | inr f ↦ elim (parse-cases (parse_next_statement (token ∷ later))) [
              | inl (x, g) ↦ rw (run_tokens, e, f, g) refl
              | inr (stmt, rest, g) ↦
                  let left : length rest ≤ length later =
                    subst (Leaves (length later)) g (parse_next-Leaves token later skipped.0) in
                  rw (run_tokens, e, f, g)
                    (after-ext printed (execute_statement stmt state).0
                      (execute_statement stmt state).1 _ _
                      λ p s.
                        run_tokens_fuel fuel fuel' rest p s (omega (arith, left, skipped.1))
                          (omega (arith, left, skipped.1)))
            ]
          ]
    ]
