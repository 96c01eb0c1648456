-- ===== src/Sql/ListProgress.antt =====
-- The parts of a statement leave no more tokens than there were.
use bptree_sql_engine.Prelude.{
  ℕ, ◌≤◌, Option, none, some, List, [], ◌∷◌, arith, length, Result, ok, err, ◌>>=◌, Bool-cases, inl,
  inr,
}
use bptree_sql_engine.Sql.Lexer.{
  TokenType, token_identifier, token_string, token_number, token_comma, token_where, token_equal,
  Token,
}
use bptree_sql_engine.Sql.Parser.{
  ParseError, Parse, has_type, parser_match, parser_expect_with_message, parse_identifier,
  parse_literal, cons_parsed, more_items, parse_identifier_list, parse_literal_list, where_behind,
  parse_where_clause,
}

-- At most `n` tokens are left behind a parse that succeeds.
abbrev pub Leaves : {A : Type 0} → ℕ → Parse A → Type 0
Leaves n (ok (a, tokens)) = length tokens ≤ n
Leaves n (err e) = Unit

abbrev LeavesTokens : ℕ → Result ParseError (List Token) → Type 0
LeavesTokens n (ok tokens) = length tokens ≤ n
LeavesTokens n (err e) = Unit

Leaves-weaken : {A : Type 0} (n m : ℕ) (r : Parse A) → n ≤ m → Leaves n r → Leaves m r
Leaves-weaken n m (ok a) h g = omega arith
Leaves-weaken n m (err e) h g = tt

-- One parse behind another.
pub Leaves-bind :
    {A B : Type 0} (n : ℕ) (r : Parse A) (f : A × List Token → Parse B)
    → Leaves n r
    → ((a : A) (tokens : List Token) → length tokens ≤ n → Leaves n (f (a, tokens)))
    → Leaves n (r >>= f)
Leaves-bind n (ok (a, tokens)) f h g = g a tokens h
Leaves-bind n (err e) f h g = tt

pub Leaves-tokens :
    {B : Type 0} (n : ℕ) (r : Result ParseError (List Token)) (f : List Token → Parse B)
    → LeavesTokens n r
    → ((tokens : List Token) → length tokens ≤ n → Leaves n (f tokens))
    → Leaves n (r >>= f)
Leaves-tokens n (ok tokens) f h g = g tokens h
Leaves-tokens n (err e) f h g = tt

pub expect-Leaves :
    (n : ℕ) (tokens : List Token) (type : TokenType)
    → length tokens ≤ n
    → LeavesTokens n (parser_expect_with_message tokens type)
unfolding parser_expect_with_message parser_match
expect-Leaves n [] type h = tt
expect-Leaves n (token ∷ tokens) type h = elim (Bool-cases (has_type token type)) [
  | inl e ↦ rw (parser_expect_with_message, parser_match, e) (omega arith)
  | inr e ↦ rw (parser_expect_with_message, parser_match, e) tt
]

pub identifier-Leaves :
    (n : ℕ) (tokens : List Token) → length tokens ≤ n → Leaves n (parse_identifier tokens)
unfolding parse_identifier
identifier-Leaves n [] h = tt
identifier-Leaves n (token ∷ tokens) h = elim (Bool-cases (has_type token token_identifier)) [
  | inl e ↦ rw (parse_identifier, e) (omega arith)
  | inr e ↦ rw (parse_identifier, e) tt
]

literal-Leaves : (n : ℕ) (tokens : List Token) → length tokens ≤ n → Leaves n (parse_literal tokens)
unfolding parse_literal
literal-Leaves n [] h = tt
literal-Leaves n (token ∷ tokens) h = elim (Bool-cases (has_type token token_string)) [
  | inl e ↦ rw (parse_literal, e) (omega arith)
  | inr e ↦ elim (Bool-cases (has_type token token_number)) [
    | inl f ↦ rw (parse_literal, e, f) (omega arith)
    | inr f ↦ rw (parse_literal, e, f) tt
  ]
]

cons-Leaves :
    {A : Type 0} (n : ℕ) (a : A) (r : Parse (List A)) → Leaves n r → Leaves n (cons_parsed a r)
cons-Leaves n a (ok x) h = h
cons-Leaves n a (err e) h = tt

more_items-Leaves :
    {A : Type 0} (item : List Token → Parse A) (missing : ParseError) (n : ℕ) (tokens : List Token)
    → length tokens ≤ n
    → Leaves n (more_items item missing tokens)
unfolding more_items
more_items-Leaves item missing n [] h = omega arith
more_items-Leaves item missing n (comma ∷ []) h = elim (Bool-cases (has_type comma token_comma)) [
  | inl e ↦ rw (more_items, e) tt
  | inr e ↦ rw (more_items, e) h
]
more_items-Leaves {A = A} item missing n (comma ∷ token ∷ tokens) h =
    elim (Bool-cases (has_type comma token_comma)) [
      | inl e ↦
          rw (more_items, e)
            (taken (item (token ∷ [])) (more_items-Leaves item missing n tokens (omega arith)))
      | inr e ↦ rw (more_items, e) h
    ]
  where
    taken :
        (r : Parse A)
        → Leaves n (more_items item missing tokens)
        → Leaves n
            (elim r [ ok (a, _) ↦ cons_parsed a (more_items item missing tokens) | err e ↦ err e ])
    taken (ok (a, rest)) g = cons-Leaves n a (more_items item missing tokens) g
    taken (err e) g = tt

pub identifier_list-Leaves :
    (n : ℕ) (tokens : List Token) → length tokens ≤ n → Leaves n (parse_identifier_list tokens)
unfolding parse_identifier_list
identifier_list-Leaves n tokens h =
    Leaves-bind n (parse_identifier tokens) _ (identifier-Leaves n tokens h) λ name rest g.
      cons-Leaves n name _
        (more_items-Leaves parse_identifier ParseError.expected_identifier n rest g)

pub literal_list-Leaves :
    (n : ℕ) (tokens : List Token) → length tokens ≤ n → Leaves n (parse_literal_list tokens)
unfolding parse_literal_list
literal_list-Leaves n tokens h =
    Leaves-bind n (parse_literal tokens) _ (literal-Leaves n tokens h) λ value rest g.
      cons-Leaves n value _ (more_items-Leaves parse_literal ParseError.expected_literal n rest g)

-- What stands behind a token of a type, if it is there.
abbrev pub LeavesOption : ℕ → Option (List Token) → Type 0
LeavesOption n none = Unit
LeavesOption n (some tokens) = length tokens ≤ n

pub match-Leaves :
    (n : ℕ) (tokens : List Token) (type : TokenType)
    → length tokens ≤ n
    → LeavesOption n (parser_match tokens type)
unfolding parser_match
match-Leaves n [] type h = tt
match-Leaves n (token ∷ tokens) type h = elim (Bool-cases (has_type token type)) [
  | inl e ↦ rw (parser_match, e) (omega arith)
  | inr e ↦ rw (parser_match, e) tt
]

pub where-Leaves :
    (n : ℕ) (tokens : List Token) → length tokens ≤ n → Leaves n (parse_where_clause tokens)
unfolding parse_where_clause
where-Leaves n tokens h =
    behind (parser_match tokens token_where) (match-Leaves n tokens token_where h)
  where
    behind : (o : Option (List Token)) → LeavesOption n o → Leaves n (where_behind tokens o)
    behind none g = h
    behind (some rest) g =
        Leaves-bind n (parse_identifier rest) _ (identifier-Leaves n rest g) λ column rest1 g1.
          Leaves-tokens n _ _ (expect-Leaves n rest1 token_equal g1) λ rest2 g2.
            Leaves-bind n (parse_literal rest2) _ (literal-Leaves n rest2 g2) λ value rest3 g3. g3
