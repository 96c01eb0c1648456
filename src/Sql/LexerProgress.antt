-- ===== src/Sql/LexerProgress.antt =====
-- A token of src/lexer.c takes at least one byte, and is not an EOF.
use bptree_sql_engine.Prelude.{
  ℕ, ◌≤◌, ◌≡◌, ◌≢◌, Bool, true, false, not, ◌&&◌, ◌||◌, [], ◌∷◌, arith, ◌==◌, if◌then◌else◌, Bytes,
  length, Result, ok, err, Bool-cases, inl, inr,
}
use bptree_sql_engine.Sql.Lexer.{
  TokenType, token_eof, token_string, token_number, token_comma, token_lparen, token_rparen,
  token_semicolon, token_star, token_equal, Token, LexError, keyword_type, word, is_word, is_alpha,
  is_digit, number_text, signed, starts_with_digit, tokenize_identifier, tokenize_number,
  tokenize_symbol, symbol, longer, token_of, quote, string_text, tokenize_string, next_token,
}

-- A token was read that is not the end, and at most `n` bytes are left.
abbrev pub Progress : ℕ → Result LexError (Token × Bytes) → Type 0
Progress n (ok (token, rest)) = (token.type ≢ token_eof) × (length rest ≤ n)
Progress n (err e) = Unit

abbrev Shorter : ℕ → Result LexError (Bytes × Bytes) → Type 0
Shorter n (ok (text, rest)) = length rest ≤ n
Shorter n (err e) = Unit

longer-Shorter :
    (c n m : ℕ) (r : Result LexError (Bytes × Bytes)) → n ≤ m → Shorter n r → Shorter m (longer c r)
longer-Shorter c n m (ok a) h g = omega arith
longer-Shorter c n m (err e) h g = tt

token_of-Progress :
    (type : TokenType) (n : ℕ) (r : Result LexError (Bytes × Bytes))
    → type ≢ token_eof
    → Shorter n r
    → Progress n (token_of type r)
token_of-Progress type n (ok a) h g = (h, g)
token_of-Progress type n (err e) h g = tt

word-Shorter : (cs : Bytes) → length (word cs).1 ≤ length cs
unfolding word
word-Shorter [] = omega arith
word-Shorter (c ∷ cs) = elim (Bool-cases (is_word c)) [
  | inl e ↦ rw (e, word) (omega (arith, word-Shorter cs))
  | inr e ↦ rw (e, word) (omega arith)
]

keyword_type-not-eof : (text : Bytes) → keyword_type text ≢ token_eof
unfolding keyword_type
keyword_type-not-eof text h = ground arith

number_text-Shorter : (seen_dot : Bool) (cs : Bytes) → Shorter (length cs) (number_text seen_dot cs)
unfolding number_text
number_text-Shorter seen_dot [] = omega arith
number_text-Shorter seen_dot (c ∷ cs) = elim (Bool-cases (is_digit c)) [
  | inl e ↦
      rw (e, number_text)
        (longer-Shorter c (length cs) _ _ (omega arith) (number_text-Shorter seen_dot cs))
  | inr e ↦ elim (Bool-cases (not seen_dot && c == b'.')) [
    | inl f ↦ elim (Bool-cases (starts_with_digit cs)) [
      | inl g ↦
          rw (e, number_text, f, g)
            (longer-Shorter c (length cs) _ _ (omega arith) (number_text-Shorter true cs))
      | inr g ↦ rw (e, number_text, f, g) tt
    ]
    | inr f ↦ rw (e, number_text, f) (omega arith)
  ]
]

string_text-Shorter : (cs : Bytes) → Shorter (length cs) (string_text cs)
unfolding string_text
string_text-Shorter [] = tt
string_text-Shorter (c ∷ []) = ground arith
string_text-Shorter (c ∷ d ∷ cs) = elim (Bool-cases (c == quote)) [
  | inl e ↦ elim (Bool-cases (d == quote)) [
    | inl f ↦
        rw (e, string_text, f)
          (longer-Shorter quote (length cs) _ _ (omega arith) (string_text-Shorter cs))
    | inr f ↦ rw (e, string_text, f) (omega arith)
  ]
  | inr e ↦
      rw (e, string_text)
        (longer-Shorter c (length (d ∷ cs)) _ _ (omega arith) (string_text-Shorter (d ∷ cs)))
]

identifier-Progress :
    (c : ℕ) (cs : Bytes)
    → (is_alpha c || c == b'_') ≡ true
    → Progress (length cs) (tokenize_identifier (c ∷ cs))
unfolding tokenize_identifier word
identifier-Progress c cs e =
    let starts : is_word c ≡ true = ground arith in
    rw (starts, word) (keyword_type-not-eof _, word-Shorter cs)

signed-Shorter :
    (c : ℕ) (cs : Bytes)
    → (is_digit c || (c == b'-' && starts_with_digit cs)) ≡ true
    → Shorter (length cs) (signed (c ∷ cs))
unfolding number_text
signed-Shorter c cs e = elim (Bool-cases (c == b'-')) [
  | inl f ↦ rw f (longer-Shorter c (length cs) _ _ (omega arith) (number_text-Shorter false cs))
  | inr f ↦
      let digit : is_digit c ≡ true = ground arith in
      rw (f, digit, number_text)
        (longer-Shorter c (length cs) _ _ (omega arith) (number_text-Shorter false cs))
]

symbol-Progress : (c : ℕ) (cs : Bytes) → Progress (length cs) (tokenize_symbol c cs)
unfolding tokenize_symbol
symbol-Progress c cs = either (c == b',') _ _ (known token_comma λ e. cc) (
    either (c == b'(') _ _ (known token_lparen λ e. cc) (
      either (c == b')') _ _ (known token_rparen λ e. cc) (
        either (c == b';') _ _ (known token_semicolon λ e. cc) (
          either (c == b'*') _ _ (known token_star λ e. cc)
            (either (c == b'=') _ _ (known token_equal λ e. cc) tt)))))
  where
    known : (type : TokenType) → type ≢ token_eof → Progress (length cs) (symbol type c cs)
    known type h = (h, omega arith)

    either :
        (b : Bool) (x y : Result LexError (Token × Bytes))
        → Progress (length cs) x
        → Progress (length cs) y
        → Progress (length cs) (if b then x else y)
    either true x y h g = h
    either false x y h g = g

pub next_token-Progress : (c : ℕ) (cs : Bytes) → Progress (length cs) (next_token c cs)
unfolding next_token tokenize_number tokenize_string
next_token-Progress c cs = elim (Bool-cases (is_alpha c || c == b'_')) [
  | inl e ↦ rw e (identifier-Progress c cs e)
  | inr e ↦ elim (Bool-cases (is_digit c || (c == b'-' && starts_with_digit cs))) [
    | inl f ↦
        rw (e, f) (token_of-Progress token_number (length cs) _ (λ g. cc) (signed-Shorter c cs f))
    | inr f ↦ elim (Bool-cases (c == quote)) [
      | inl g ↦
          rw (e, f, g)
            (token_of-Progress token_string (length cs) _ (λ g. cc) (string_text-Shorter cs))
      | inr g ↦ rw (e, f, g) (symbol-Progress c cs)
    ]
  ]
]
