-- ===== src/Sql/FromTokens.antt =====
-- The values of a statement are texts of the tokens that src/parser.c reads.
use bptree_sql_engine.Prelude.{
  Option, none, some, List, [], ◌∷◌, All, Result, ok, err, ◌>>=◌, Bytes, Bool-cases, inl, inr,
}
use bptree_sql_engine.Sql.Ast.{LiteralValue}
use bptree_sql_engine.Sql.Lexer.{
  TokenType, token_identifier, token_string, token_number, token_comma, token_where, token_equal,
  Token,
}
use bptree_sql_engine.Sql.Parser.{
  ParseError, Parse, has_type, parser_match, parser_expect_with_message, parse_identifier,
  parse_literal, cons_parsed, more_items, parse_identifier_list, parse_literal_list, where_behind,
  parse_where_clause,
}

module _ (P : Bytes → Type 0) where
  abbrev pub AllTexts : List Token → Type 0
  AllTexts = All (λ token. P token.text)

  -- What is parsed satisfies `Q`, and the texts of the tokens behind it satisfy `P`.
  abbrev pub Gives : {A : Type 0} → (A → Type 0) → Parse A → Type 0
  Gives Q (ok (a, tokens)) = Q a × AllTexts tokens
  Gives Q (err e) = Unit

  abbrev pub GivesTokens : Result ParseError (List Token) → Type 0
  GivesTokens (ok tokens) = AllTexts tokens
  GivesTokens (err e) = Unit

  abbrev pub GivesOption : Option (List Token) → Type 0
  GivesOption (some tokens) = AllTexts tokens
  GivesOption none = Unit

  abbrev pub Any : {A : Type 0} → A → Type 0
  Any a = Unit

  abbrev pub HasText : LiteralValue → Type 0
  HasText value = P value.text

  pub Gives-bind :
      {A B : Type 0} (Q : A → Type 0) (R : B → Type 0) (r : Parse A) (f : A × List Token → Parse B)
      → Gives Q r
      → ((a : A) (tokens : List Token) → Q a → AllTexts tokens → Gives R (f (a, tokens)))
      → Gives R (r >>= f)
  Gives-bind Q R (ok (a, tokens)) f h g = g a tokens h.0 h.1
  Gives-bind Q R (err e) f h g = tt

  pub Gives-tokens :
      {B : Type 0} (R : B → Type 0) (r : Result ParseError (List Token)) (f : List Token → Parse B)
      → GivesTokens r
      → ((tokens : List Token) → AllTexts tokens → Gives R (f tokens))
      → Gives R (r >>= f)
  Gives-tokens R (ok tokens) f h g = g tokens h
  Gives-tokens R (err e) f h g = tt

  pub match-Gives :
      (tokens : List Token) (type : TokenType)
      → AllTexts tokens
      → GivesOption (parser_match tokens type)
  unfolding parser_match
  match-Gives [] type h = tt
  match-Gives (token ∷ tokens) type h = elim (Bool-cases (has_type token type)) [
    | inl e ↦ rw (parser_match, e) h.1
    | inr e ↦ rw (parser_match, e) tt
  ]

  pub expect-Gives :
      (tokens : List Token) (type : TokenType)
      → AllTexts tokens
      → GivesTokens (parser_expect_with_message tokens type)
  unfolding parser_expect_with_message parser_match
  expect-Gives [] type h = tt
  expect-Gives (token ∷ tokens) type h = elim (Bool-cases (has_type token type)) [
    | inl e ↦ rw (parser_expect_with_message, parser_match, e) h.1
    | inr e ↦ rw (parser_expect_with_message, parser_match, e) tt
  ]

  pub identifier-Gives :
      (tokens : List Token) → AllTexts tokens → Gives Any (parse_identifier tokens)
  unfolding parse_identifier
  identifier-Gives [] h = tt
  identifier-Gives (token ∷ tokens) h = elim (Bool-cases (has_type token token_identifier)) [
    | inl e ↦ rw (parse_identifier, e) (tt, h.1)
    | inr e ↦ rw (parse_identifier, e) tt
  ]

  literal-Gives : (tokens : List Token) → AllTexts tokens → Gives HasText (parse_literal tokens)
  unfolding parse_literal
  literal-Gives [] h = tt
  literal-Gives (token ∷ tokens) h = elim (Bool-cases (has_type token token_string)) [
    | inl e ↦ rw (parse_literal, e) h
    | inr e ↦ elim (Bool-cases (has_type token token_number)) [
      | inl f ↦ rw (parse_literal, e, f) h
      | inr f ↦ rw (parse_literal, e, f) tt
    ]
  ]

  cons-Gives :
      {A : Type 0} (Q : A → Type 0) (a : A) (r : Parse (List A))
      → Q a
      → Gives (All Q) r
      → Gives (All Q) (cons_parsed a r)
  cons-Gives Q a (ok x) q h = ((q, h.0), h.1)
  cons-Gives Q a (err e) q h = tt

  -- The items behind the commas.
  more_items-Gives :
      {A : Type 0} (Q : A → Type 0) (item : List Token → Parse A) (missing : ParseError)
      → ((tokens : List Token) → AllTexts tokens → Gives Q (item tokens))
      → (tokens : List Token) → AllTexts tokens
      → Gives (All Q) (more_items item missing tokens)
  unfolding more_items
  more_items-Gives Q item missing each [] h = (tt, tt)
  more_items-Gives Q item missing each (comma ∷ []) h =
      elim (Bool-cases (has_type comma token_comma)) [
        | inl e ↦ rw (more_items, e) tt
        | inr e ↦ rw (more_items, e) (tt, h)
      ]
  more_items-Gives {A = A} Q item missing each (comma ∷ token ∷ tokens) h =
      elim (Bool-cases (has_type comma token_comma)) [
        | inl e ↦
            rw (more_items, e)
              (taken (item (token ∷ [])) (each (token ∷ []) (h.1.0, tt))
                (more_items-Gives Q item missing each tokens h.1.1))
        | inr e ↦ rw (more_items, e) (tt, h)
      ]
    where
      taken :
          (r : Parse A)
          → Gives Q r
          → Gives (All Q) (more_items item missing tokens)
          → Gives (All Q) (elim r [
            | ok (a, _) ↦ cons_parsed a (more_items item missing tokens)
            | err e ↦ err e
          ])
      taken (ok (a, rest)) q g = cons-Gives Q a (more_items item missing tokens) q.0 g
      taken (err e) q g = tt

  pub identifier_list-Gives :
      (tokens : List Token) → AllTexts tokens → Gives (All Any) (parse_identifier_list tokens)
  unfolding parse_identifier_list
  identifier_list-Gives tokens h =
      Gives-bind Any (All Any) (parse_identifier tokens) _ (identifier-Gives tokens h)
        λ name rest q g. cons-Gives Any name _ tt (
          more_items-Gives Any parse_identifier ParseError.expected_identifier identifier-Gives rest
            g)

  pub literal_list-Gives :
      (tokens : List Token) → AllTexts tokens → Gives (All HasText) (parse_literal_list tokens)
  unfolding parse_literal_list
  literal_list-Gives tokens h =
      Gives-bind HasText (All HasText) (parse_literal tokens) _ (literal-Gives tokens h)
        λ value rest q g.
          cons-Gives HasText value _ q (
            more_items-Gives HasText parse_literal ParseError.expected_literal literal-Gives rest g)

  pub where-Gives : (tokens : List Token) → AllTexts tokens → Gives Any (parse_where_clause tokens)
  unfolding parse_where_clause
  where-Gives tokens h = behind (parser_match tokens token_where) (match-Gives tokens token_where h)
    where
      behind : (o : Option (List Token)) → GivesOption o → Gives Any (where_behind tokens o)
      behind none g = (tt, h)
      behind (some rest) g =
          Gives-bind Any Any (parse_identifier rest) _ (identifier-Gives rest g)
            λ column rest1 q g1.
              Gives-tokens Any _ _ (expect-Gives rest1 token_equal g1) λ rest2 g2.
                Gives-bind HasText Any (parse_literal rest2) _ (literal-Gives rest2 g2)
                  λ value rest3 q g3. (tt, g3)
