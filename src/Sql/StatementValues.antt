-- ===== src/Sql/StatementValues.antt =====
-- The values of an INSERT are texts of its tokens.
use bptree_sql_engine.Prelude.{
  Option, none, some, List, [], ◌∷◌, All, ok, err, Bytes, Bool-cases, inl, inr,
}
use bptree_sql_engine.Sql.Ast.{Statement, insert_stmt, select_stmt}
use bptree_sql_engine.Sql.Lexer.{
  token_eof, token_lparen, token_rparen, token_semicolon, token_star, token_insert, token_into,
  token_values, token_select, token_from, Token,
}
use bptree_sql_engine.Sql.Parser.{
  Parse, has_type, parser_match, parser_skip_semicolons, parse_identifier, parse_identifier_list,
  parse_literal_list, parse_where_clause, columns_behind, parse_insert, projection_behind,
  parse_select, skip_one, terminated, statement_at, parse_next_statement,
}
use bptree_sql_engine.Sql.FromTokens.{
  AllTexts, Gives, GivesOption, Any, HasText, Gives-bind, Gives-tokens, match-Gives, expect-Gives,
  identifier-Gives, identifier_list-Gives, literal_list-Gives, where-Gives,
}

module _ (P : Bytes → Type 0) where
  -- Every value of an INSERT satisfies `P`.
  abbrev pub StatementHas : Statement → Type 0
  StatementHas (insert_stmt stmt) = All (λ value. P value.text) stmt.values
  StatementHas (select_stmt stmt) = Unit

  columns-Gives :
      (tokens : List Token) (o : Option (List Token))
      → AllTexts P tokens
      → GivesOption P o
      → Gives P (Any P) (columns_behind tokens o)
  columns-Gives tokens none h g = (tt, h)
  columns-Gives tokens (some rest) h g =
      Gives-bind P (All (Any P)) (Any P) (parse_identifier_list rest) _
        (identifier_list-Gives P rest g)
        λ columns rest1 q g1.
          Gives-tokens P (Any P) _ _ (expect-Gives P rest1 token_rparen g1) λ rest2 g2. (tt, g2)

  insert-Gives :
      (tokens : List Token) → AllTexts P tokens → Gives P StatementHas (parse_insert tokens)
  unfolding parse_insert
  insert-Gives tokens h =
      Gives-tokens P StatementHas _ _ (expect-Gives P tokens token_into h) λ rest1 g1.
        Gives-bind P (Any P) StatementHas (parse_identifier rest1) _ (identifier-Gives P rest1 g1)
          λ name rest2 q2 g2.
            Gives-bind P (Any P) StatementHas
              (columns_behind rest2 (parser_match rest2 token_lparen)) _
              (columns-Gives rest2 _ g2 (match-Gives P rest2 token_lparen g2))
              λ columns rest3 q3 g3.
                Gives-tokens P StatementHas _ _ (expect-Gives P rest3 token_values g3) λ rest4 g4.
                  Gives-tokens P StatementHas _ _ (expect-Gives P rest4 token_lparen g4) λ rest5 g5.
                    Gives-bind P (All (HasText P)) StatementHas (parse_literal_list rest5) _
                      (literal_list-Gives P rest5 g5)
                      λ values rest6 q6 g6.
                        Gives-tokens P StatementHas _ _ (expect-Gives P rest6 token_rparen g6)
                          λ rest7 g7. (q6, g7)

  projection-Gives :
      (tokens : List Token) (o : Option (List Token))
      → AllTexts P tokens
      → GivesOption P o
      → Gives P (Any P) (projection_behind tokens o)
  projection-Gives tokens (some rest) h g = (tt, g)
  projection-Gives tokens none h g =
      Gives-bind P (All (Any P)) (Any P) (parse_identifier_list tokens) _
        (identifier_list-Gives P tokens h) λ columns rest q g1. (tt, g1)

  select-Gives :
      (tokens : List Token) → AllTexts P tokens → Gives P StatementHas (parse_select tokens)
  unfolding parse_select
  select-Gives tokens h =
      Gives-bind P (Any P) StatementHas (projection_behind tokens (parser_match tokens token_star))
        _ (projection-Gives tokens _ h (match-Gives P tokens token_star h))
        λ projection rest1 q1 g1.
          Gives-tokens P StatementHas _ _ (expect-Gives P rest1 token_from g1) λ rest2 g2.
            Gives-bind P (Any P) StatementHas (parse_identifier rest2) _
              (identifier-Gives P rest2 g2)
              λ name rest3 q3 g3.
                Gives-bind P (Any P) StatementHas (parse_where_clause rest3) _
                  (where-Gives P rest3 g3) λ clause rest4 q4 g4. (tt, g4)

  terminated-Gives :
      (r : Parse Statement) → Gives P StatementHas r → Gives P StatementHas (terminated r)
  terminated-Gives (err e) h = tt
  terminated-Gives (ok (stmt, tokens)) (h, g) =
      (h, skipped (parser_match tokens token_semicolon) (match-Gives P tokens token_semicolon g))
    where
      skipped : (o : Option (List Token)) → GivesOption P o → AllTexts P (skip_one tokens o)
      skipped none k = g
      skipped (some rest) k = k

  statement_at-Gives :
      (tokens : List Token) → AllTexts P tokens → Gives P StatementHas (statement_at tokens)
  statement_at-Gives [] h = tt
  statement_at-Gives (token ∷ tokens) h = elim (Bool-cases (has_type token token_eof)) [
    | inl e ↦ rw e tt
    | inr e ↦ elim (Bool-cases (has_type token token_insert)) [
      | inl f ↦ rw (e, f) (terminated-Gives _ (insert-Gives tokens h.1))
      | inr f ↦ elim (Bool-cases (has_type token token_select)) [
        | inl g ↦ rw (e, f, g) (terminated-Gives _ (select-Gives tokens h.1))
        | inr g ↦ rw (e, f, g) tt
      ]
    ]
  ]

  pub skip_semicolons-AllTexts :
      (tokens : List Token) → AllTexts P tokens → AllTexts P (parser_skip_semicolons tokens)
  unfolding parser_skip_semicolons
  skip_semicolons-AllTexts [] h = tt
  skip_semicolons-AllTexts (token ∷ tokens) h = elim (Bool-cases (has_type token token_semicolon)) [
    | inl e ↦ rw e (skip_semicolons-AllTexts tokens h.1)
    | inr e ↦ rw e h
  ]

  -- What holds of the texts of the tokens holds of the values of the statement that is parsed, and of
  -- the texts of the tokens behind it.
  pub parse_next-Gives :
      (tokens : List Token) → AllTexts P tokens → Gives P StatementHas (parse_next_statement tokens)
  unfolding parse_next_statement
  parse_next-Gives tokens h = statement_at-Gives _ (skip_semicolons-AllTexts tokens h)
