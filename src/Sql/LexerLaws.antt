-- ===== src/Sql/LexerLaws.antt =====
-- String literals, keywords and the end of the tokens.
use bptree_sql_engine.Prelude.{
  ℕ, zero, suc, ◌≤◌, ◌<◌, ◌≡◌, ◌≢◌, refl, ap, subst, List, [], ◌∷◌, arith, Bytes, length, Result,
  ok, err, ◌>>=◌, Bool-cases, inl, inr,
}
use bptree_sql_engine.Schema.Trim.{is_space}
use bptree_sql_engine.Sql.Lexer.{
  token_eof, Token, LexError, next_token, followed, tokenize_loop, tokenize_sql,
}
use bptree_sql_engine.Sql.LexerProgress.{Progress, next_token-Progress}

-- The last token is an EOF, and it is the only one.
abbrev pub EndsInEof : List Token → Type 0
EndsInEof [] = ⊥
EndsInEof (token ∷ []) = token.type ≡ token_eof
EndsInEof (token ∷ next ∷ tokens) = (token.type ≢ token_eof) × EndsInEof (next ∷ tokens)

EndsInEof-cons :
    (token : Token) (tokens : List Token)
    → token.type ≢ token_eof
    → EndsInEof tokens
    → EndsInEof (token ∷ tokens)
EndsInEof-cons token [] h g = absurd g
EndsInEof-cons token (next ∷ tokens) h g = (h, g)

abbrev EofResult : Result LexError (List Token) → Type 0
EofResult (ok tokens) = EndsInEof tokens
EofResult (err e) = Unit

followed-EofResult :
    (n : ℕ) (r : Result LexError (Token × Bytes)) (later : Bytes → Result LexError (List Token))
    → Progress n r
    → ((rest : Bytes) → EofResult (later rest))
    → EofResult (followed r later)
followed-EofResult n (err e) later p h = tt
followed-EofResult n (ok (token, rest)) later p h = consed (later rest) (h rest)
  where
    consed :
        (r : Result LexError (List Token))
        → EofResult r
        → EofResult (r >>= λ tokens. ok (token ∷ tokens))
    consed (err e) g = tt
    consed (ok tokens) g = EndsInEof-cons token tokens p.0 g

tokenize_loop-EofResult : (fuel : ℕ) (cs : Bytes) → EofResult (tokenize_loop fuel cs)
unfolding tokenize_loop
tokenize_loop-EofResult zero cs = refl
tokenize_loop-EofResult (suc fuel) [] = refl
tokenize_loop-EofResult (suc fuel) (c ∷ cs) = elim (Bool-cases (is_space c)) [
  | inl e ↦ rw (e, tokenize_loop) (tokenize_loop-EofResult fuel cs)
  | inr e ↦
      rw (e, tokenize_loop)
        (followed-EofResult (length cs) (next_token c cs) (tokenize_loop fuel)
          (next_token-Progress c cs) (tokenize_loop-EofResult fuel))
]

-- The tokens of a text that has no error end in an EOF, and hold no other: the parser's look at the
-- next token stays within the array.
pub tokenize_sql-EndsInEof :
    (sql : Bytes) (tokens : List Token) → tokenize_sql sql ≡ ok tokens → EndsInEof tokens
unfolding tokenize_sql
tokenize_sql-EndsInEof sql tokens e =
    subst EofResult e (tokenize_loop-EofResult (suc (length sql)) sql)

followed-ext :
    (n : ℕ) (r : Result LexError (Token × Bytes)) (f g : Bytes → Result LexError (List Token))
    → Progress n r
    → ((rest : Bytes) → length rest ≤ n → f rest ≡ g rest)
    → followed r f ≡ followed r g
followed-ext n (err e) f g p h = refl
followed-ext n (ok (token, rest)) f g p h =
    ap (λ r. r >>= λ tokens. ok (token ∷ tokens)) (h rest p.1)

-- Fuel above the number of bytes is as good as any other such fuel: `tokenize_sql`, which starts
-- with one more than the number of bytes, never runs out of it.
pub tokenize_loop_fuel :
    (fuel fuel' : ℕ) (cs : Bytes)
    → length cs < fuel
    → length cs < fuel'
    → tokenize_loop fuel cs ≡ tokenize_loop fuel' cs
unfolding tokenize_loop
tokenize_loop_fuel zero fuel' cs h h' = absurd (omega arith)
tokenize_loop_fuel (suc fuel) zero cs h h' = absurd (omega arith)
tokenize_loop_fuel (suc fuel) (suc fuel') [] h h' = refl
tokenize_loop_fuel (suc fuel) (suc fuel') (c ∷ cs) h h' = elim (Bool-cases (is_space c)) [
  | inl e ↦ rw (e, tokenize_loop) (tokenize_loop_fuel fuel fuel' cs (omega arith) (omega arith))
  | inr e ↦
      rw (e, tokenize_loop)
        (followed-ext (length cs) (next_token c cs) (tokenize_loop fuel) (tokenize_loop fuel')
          (next_token-Progress c cs)
          λ rest le. tokenize_loop_fuel fuel fuel' rest (omega arith) (omega arith))
]
