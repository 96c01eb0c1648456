-- ===== src/Sql/ParserProgress.antt =====
-- A parse takes at least one token.
use bptree_sql_engine.Prelude.{
  ℕ, ◌≤◌, ◌<◌, ◌≡◌, false, Option, none, some, List, [], ◌∷◌, arith, length, ok, err, Bool-cases,
  inl, inr,
}
use bptree_sql_engine.Sql.Ast.{Statement}
use bptree_sql_engine.Sql.Lexer.{
  token_eof, token_lparen, token_rparen, token_semicolon, token_star, token_insert, token_into,
  token_values, token_select, token_from, Token,
}
use bptree_sql_engine.Sql.Parser.{
  Parse, has_type, parser_match, parser_skip_semicolons, parse_identifier, parse_identifier_list,
  parse_literal_list, parse_where_clause, columns_behind, parse_insert, projection_behind,
  parse_select, skip_one, terminated, statement_at, parse_next_statement,
}
use bptree_sql_engine.Sql.ListProgress.{
  Leaves, Leaves-bind, Leaves-tokens, expect-Leaves, identifier-Leaves, identifier_list-Leaves,
  literal_list-Leaves, LeavesOption, match-Leaves, where-Leaves,
}

columns-Leaves :
    (n : ℕ) (tokens : List Token) (o : Option (List Token))
    → length tokens ≤ n
    → LeavesOption n o
    → Leaves n (columns_behind tokens o)
columns-Leaves n tokens none h g = h
columns-Leaves n tokens (some rest) h g =
    Leaves-bind n (parse_identifier_list rest) _ (identifier_list-Leaves n rest g)
      λ columns rest1 g1. Leaves-tokens n _ _ (expect-Leaves n rest1 token_rparen g1) λ rest2 g2. g2

insert-Leaves : (n : ℕ) (tokens : List Token) → length tokens ≤ n → Leaves n (parse_insert tokens)
unfolding parse_insert
insert-Leaves n tokens h = Leaves-tokens n _ _ (expect-Leaves n tokens token_into h) λ rest1 g1.
    Leaves-bind n (parse_identifier rest1) _ (identifier-Leaves n rest1 g1) λ name rest2 g2.
      Leaves-bind n (columns_behind rest2 (parser_match rest2 token_lparen)) _
        (columns-Leaves n rest2 _ g2 (match-Leaves n rest2 token_lparen g2))
        λ columns rest3 g3. Leaves-tokens n _ _ (expect-Leaves n rest3 token_values g3) λ rest4 g4.
          Leaves-tokens n _ _ (expect-Leaves n rest4 token_lparen g4) λ rest5 g5.
            Leaves-bind n (parse_literal_list rest5) _ (literal_list-Leaves n rest5 g5)
              λ values rest6 g6.
                Leaves-tokens n _ _ (expect-Leaves n rest6 token_rparen g6) λ rest7 g7. g7

projection-Leaves :
    (n : ℕ) (tokens : List Token) (o : Option (List Token))
    → length tokens ≤ n
    → LeavesOption n o
    → Leaves n (projection_behind tokens o)
projection-Leaves n tokens (some rest) h g = g
projection-Leaves n tokens none h g =
    Leaves-bind n (parse_identifier_list tokens) _ (identifier_list-Leaves n tokens h)
      λ columns rest g1. g1

select-Leaves : (n : ℕ) (tokens : List Token) → length tokens ≤ n → Leaves n (parse_select tokens)
unfolding parse_select
select-Leaves n tokens h =
    Leaves-bind n (projection_behind tokens (parser_match tokens token_star)) _
      (projection-Leaves n tokens _ h (match-Leaves n tokens token_star h))
      λ projection rest1 g1. Leaves-tokens n _ _ (expect-Leaves n rest1 token_from g1) λ rest2 g2.
        Leaves-bind n (parse_identifier rest2) _ (identifier-Leaves n rest2 g2) λ name rest3 g3.
          Leaves-bind n (parse_where_clause rest3) _ (where-Leaves n rest3 g3) λ clause rest4 g4. g4

terminated-Leaves : (n : ℕ) (r : Parse Statement) → Leaves n r → Leaves n (terminated r)
terminated-Leaves n (err e) h = tt
terminated-Leaves n (ok (stmt, tokens)) h =
    skipped (parser_match tokens token_semicolon) (match-Leaves n tokens token_semicolon h)
  where
    skipped : (o : Option (List Token)) → LeavesOption n o → length (skip_one tokens o) ≤ n
    skipped none g = h
    skipped (some rest) g = g

-- A statement takes its first token.
statement_at-Leaves :
    (token : Token) (tokens : List Token) → Leaves (length tokens) (statement_at (token ∷ tokens))
statement_at-Leaves token tokens = elim (Bool-cases (has_type token token_eof)) [
  | inl e ↦ rw e tt
  | inr e ↦ elim (Bool-cases (has_type token token_insert)) [
    | inl f ↦
        rw (e, f)
          (terminated-Leaves (length tokens) _ (insert-Leaves (length tokens) tokens (omega arith)))
    | inr f ↦ elim (Bool-cases (has_type token token_select)) [
      | inl g ↦
          rw (e, f, g)
            (terminated-Leaves (length tokens) _
              (select-Leaves (length tokens) tokens (omega arith)))
      | inr g ↦ rw (e, f, g) tt
    ]
  ]
]

-- Whatever the tokens are, behind a statement there are fewer left than there were at its first token.
pub parse_next-Leaves :
    (token : Token) (tokens : List Token)
    → has_type token token_semicolon ≡ false
    → Leaves (length tokens) (parse_next_statement (token ∷ tokens))
unfolding parse_next_statement parser_skip_semicolons
parse_next-Leaves token tokens e = rw e (statement_at-Leaves token tokens)

-- What is left when the semicolons are skipped: fewer tokens or as many, and no semicolon in front.
abbrev pub Skipped : ℕ → List Token → Type 0
Skipped n [] = Unit
Skipped n (token ∷ tokens) = (has_type token token_semicolon ≡ false) × (length tokens < n)

Skipped-weaken : (n m : ℕ) (tokens : List Token) → n ≤ m → Skipped n tokens → Skipped m tokens
Skipped-weaken n m [] h g = tt
Skipped-weaken n m (token ∷ tokens) h g = (g.0, omega (arith, g.1))

pub skip_semicolons-Skipped :
    (tokens : List Token) → Skipped (length tokens) (parser_skip_semicolons tokens)
unfolding parser_skip_semicolons
skip_semicolons-Skipped [] = tt
skip_semicolons-Skipped (token ∷ tokens) = elim (Bool-cases (has_type token token_semicolon)) [
  | inl e ↦ rw e (Skipped-weaken (length tokens) _ _ (omega arith) (skip_semicolons-Skipped tokens))
  | inr e ↦ rw e (e, omega arith)
]
