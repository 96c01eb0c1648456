-- ===== src/Sql/TokenBytes.antt =====
-- The texts of the tokens of src/lexer.c consist of bytes of the source text.
use bptree_sql_engine.Prelude.{
  if-both, length, ℕ, zero, suc, ◌≡◌, subst, Bool, true, false, not, ◌&&◌, ◌||◌, ◌==◌, ==→eq, List,
  [], ◌∷◌, All, Result, ok, err, ◌>>=◌, Bytes, Bool-cases, inl, inr,
}
use bptree_sql_engine.Schema.Trim.{is_space}
use bptree_sql_engine.Sql.Lexer.{
  TokenType, token_number, token_string, Token, LexError, is_digit, is_alpha, longer, is_word, word,
  tokenize_identifier, starts_with_digit, number_text, signed, token_of, tokenize_number, quote,
  string_text, tokenize_string, tokenize_symbol, next_token, followed, tokenize_loop, tokenize_sql,
}
use bptree_sql_engine.Sql.FromTokens.{AllTexts}

module _ (P : ℕ → Type 0) where
  abbrev Texts : Result LexError (Bytes × Bytes) → Type 0
  Texts (ok (text, rest)) = All P text × All P rest
  Texts (err e) = Unit

  abbrev Reads : Result LexError (Token × Bytes) → Type 0
  Reads (ok (token, rest)) = All P token.text × All P rest
  Reads (err e) = Unit

  abbrev Tokens : Result LexError (List Token) → Type 0
  Tokens (ok tokens) = AllTexts (All P) tokens
  Tokens (err e) = Unit

  longer-Texts : (c : ℕ) (r : Result LexError (Bytes × Bytes)) → P c → Texts r → Texts (longer c r)
  longer-Texts c (err e) p h = tt
  longer-Texts c (ok (text, rest)) p h = ((p, h.0), h.1)

  word-Texts : (cs : Bytes) → All P cs → All P (word cs).0 × All P (word cs).1
  unfolding word
  word-Texts [] h = (tt, tt)
  word-Texts (c ∷ cs) h = elim (Bool-cases (is_word c)) [
    | inl e ↦ let rest = word-Texts cs h.1 in rw (e, word) ((h.0, rest.0), rest.1)
    | inr e ↦ rw (e, word) (tt, h)
  ]

  number_text-Texts : (seen_dot : Bool) (cs : Bytes) → All P cs → Texts (number_text seen_dot cs)
  unfolding number_text
  number_text-Texts seen_dot [] h = (tt, tt)
  number_text-Texts seen_dot (c ∷ cs) h = elim (Bool-cases (is_digit c)) [
    | inl e ↦ rw (e, number_text) (longer-Texts c _ h.0 (number_text-Texts seen_dot cs h.1))
    | inr e ↦ elim (Bool-cases (not seen_dot && c == b'.')) [
      | inl f ↦ elim (Bool-cases (starts_with_digit cs)) [
        | inl g ↦ rw (e, number_text, f, g) (longer-Texts c _ h.0 (number_text-Texts true cs h.1))
        | inr g ↦ rw (e, number_text, f, g) tt
      ]
      | inr f ↦ rw (e, number_text, f) (tt, h)
    ]
  ]

  signed-Texts : (cs : Bytes) → All P cs → Texts (signed cs)
  signed-Texts [] h = number_text-Texts false [] h
  signed-Texts (c ∷ cs) h =
      if-both Texts (c == b'-') (longer-Texts c _ h.0 (number_text-Texts false cs h.1))
        (number_text-Texts false (c ∷ cs) h)

  string_text-Texts : (cs : Bytes) → All P cs → Texts (string_text cs)
  unfolding string_text
  string_text-Texts [] h = tt
  string_text-Texts (c ∷ []) h = if-both Texts (c == quote) (tt, tt) tt
  string_text-Texts (c ∷ d ∷ cs) h = elim (Bool-cases (c == quote)) [
    | inl e ↦ elim (Bool-cases (d == quote)) [
      | inl f ↦
          rw (e, string_text, f)
            (longer-Texts quote _ (subst P (==→eq c quote e) h.0) (string_text-Texts cs h.1.1))
      | inr f ↦ rw (e, string_text, f) (tt, h.1)
    ]
    | inr e ↦ rw (e, string_text) (longer-Texts c _ h.0 (string_text-Texts (d ∷ cs) h.1))
  ]

  token_of-Reads :
      (type : TokenType) (r : Result LexError (Bytes × Bytes)) → Texts r → Reads (token_of type r)
  token_of-Reads type (err e) h = tt
  token_of-Reads type (ok (text, rest)) h = h

  tokenize_string-Reads : (cs : Bytes) → All P cs → Reads (tokenize_string cs)
  unfolding tokenize_string
  tokenize_string-Reads [] h = tt
  tokenize_string-Reads (c ∷ cs) h = token_of-Reads token_string _ (string_text-Texts cs h.1)

  symbol-Reads : (c : ℕ) (cs : Bytes) → P c → All P cs → Reads (tokenize_symbol c cs)
  unfolding tokenize_symbol
  symbol-Reads c cs p h =
      let one : All P (c ∷ []) × All P cs = ((p, tt), h) in
      if-both Reads (c == b',') one (
        if-both Reads (c == b'(') one (
          if-both Reads (c == b')') one (
            if-both Reads (c == b';') one
              (if-both Reads (c == b'*') one (if-both Reads (c == b'=') one tt)))))

  next_token-Reads : (c : ℕ) (cs : Bytes) → All P (c ∷ cs) → Reads (next_token c cs)
  unfolding next_token tokenize_identifier tokenize_number
  next_token-Reads c cs h = if-both Reads (is_alpha c || c == b'_') (word-Texts (c ∷ cs) h) (
      if-both Reads (is_digit c || (c == b'-' && starts_with_digit cs))
        (token_of-Reads token_number _ (signed-Texts (c ∷ cs) h))
        (if-both Reads (c == quote) (tokenize_string-Reads (c ∷ cs) h) (symbol-Reads c cs h.0 h.1)))

  consed-Tokens :
      (token : Token) (r : Result LexError (List Token))
      → All P token.text
      → Tokens r
      → Tokens (r >>= λ tokens. ok (token ∷ tokens))
  consed-Tokens token (err e) t h = tt
  consed-Tokens token (ok tokens) t h = (t, h)

  followed-Tokens :
      (r : Result LexError (Token × Bytes)) (later : Bytes → Result LexError (List Token))
      → Reads r
      → ((rest : Bytes) → All P rest → Tokens (later rest))
      → Tokens (followed r later)
  followed-Tokens (err e) later h g = tt
  followed-Tokens (ok (token, rest)) later h g = consed-Tokens token (later rest) h.0 (g rest h.1)

  tokenize_loop-Tokens : (fuel : ℕ) (cs : Bytes) → All P cs → Tokens (tokenize_loop fuel cs)
  unfolding tokenize_loop
  tokenize_loop-Tokens zero cs h = (tt, tt)
  tokenize_loop-Tokens (suc fuel) [] h = (tt, tt)
  tokenize_loop-Tokens (suc fuel) (c ∷ cs) h = elim (Bool-cases (is_space c)) [
    | inl e ↦ rw (e, tokenize_loop) (tokenize_loop-Tokens fuel cs h.1)
    | inr e ↦
        rw (e, tokenize_loop)
          (followed-Tokens (next_token c cs) _ (next_token-Reads c cs h)
            λ rest g. tokenize_loop-Tokens fuel rest g)
  ]

  -- What holds of every byte of a text holds of every byte of the texts of its tokens.
  pub tokenize_sql-AllTexts :
      (sql : Bytes) (tokens : List Token)
      → All P sql
      → tokenize_sql sql ≡ ok tokens
      → AllTexts (All P) tokens
  unfolding tokenize_sql
  tokenize_sql-AllTexts sql tokens h e =
      subst Tokens e (tokenize_loop-Tokens (suc (length sql)) sql h)
