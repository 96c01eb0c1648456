-- ===== src/Sql/Lexed.antt =====
-- The tokens of src/lexer.c as text, with a space behind each, and the lexer on this text.
use bptree_sql_engine.Prelude.{
  ℕ, zero, suc, ◌≤◌, ◌<◌, ◌≡◌, ◌≢◌, refl, sym, ap, ◌∙◌, subst, Bool, true, false, ◌||◌, List, [],
  ◌∷◌, ◌++◌, append_assoc, arith, ◌==◌, Bytes, length, length-append, All, ok, ◌>>=◌, ◌⊎◌, inl, inr,
}
use bptree_sql_engine.Schema.Trim.{is_space}
use bptree_sql_engine.Sql.Lexer.{
  TokenType, token_identifier, token_string, token_number, token_comma, token_lparen, token_rparen,
  token_semicolon, token_star, token_insert, token_into, token_values, token_select, token_from,
  token_where, token_equal, token_eof, Token, is_digit, is_alpha, is_word, chars_equal_ignore_case,
  strings_equal_ignore_case, keyword_type, word, tokenize_identifier, starts_with_digit,
  number_text, tokenize_number, quote, token_of, tokenize_symbol, next_token, eof, tokenize_loop,
  tokenize_sql,
}
use bptree_sql_engine.Sql.LexerProgress.{Progress, next_token-Progress}
use bptree_sql_engine.Sql.Literals.{quoted, tokenize_string-quoted}
use bptree_sql_engine.Sql.Printed.{mark, name_token}

abbrev pub blank : ℕ
blank = b' '

-- The text of a token: a string stands in quotes, with each quote in it twice.
abbrev pub written : TokenType → Bytes → Bytes
written token_string text = quote ∷ (quoted text ++ quote ∷ [])
written _ text = text

abbrev pub token_text : Token → Bytes
token_text token = written token.type token.text

abbrev pub print_tokens : List Token → Bytes
print_tokens [] = []
print_tokens (token ∷ tokens) = token_text token ++ blank ∷ print_tokens tokens

-- In front of a space, the text is read as this token.
abbrev pub Lexes : Token → Type 0
Lexes token =
    (rest : Bytes)
    → (c : ℕ) × (cs : Bytes) × (token_text token ++ blank ∷ rest ≡ c ∷ cs)
      × (is_space c ≡ false)
      × (next_token c cs ≡ ok (token, blank ∷ rest))

-- A token and the space behind it.
tokenize_loop-token :
    (fuel c : ℕ) (cs rest : Bytes) (token : Token)
    → is_space c ≡ false
    → next_token c cs ≡ ok (token, blank ∷ rest)
    → tokenize_loop (suc (suc fuel)) (c ∷ cs)
      ≡ (tokenize_loop fuel rest >>= λ tokens. ok (token ∷ tokens))
unfolding tokenize_loop is_space
tokenize_loop-token fuel c cs rest token solid next = rw (tokenize_loop, solid, next) refl

tokenize_loop-print :
    (fuel : ℕ) (tokens : List Token)
    → All Lexes tokens
    → length (print_tokens tokens) < fuel
    → tokenize_loop fuel (print_tokens tokens) ≡ ok (tokens ++ eof ∷ [])
unfolding tokenize_loop
tokenize_loop-print zero tokens h l = absurd (omega arith)
tokenize_loop-print (suc fuel) [] h l = refl
tokenize_loop-print (suc zero) (token ∷ tokens) h l =
    absurd (omega (arith, l, length-append (token_text token) (blank ∷ print_tokens tokens)))
tokenize_loop-print (suc (suc fuel)) (token ∷ tokens) (h, hs) l =
    let (c, cs, first, solid, next) = h (print_tokens tokens) in
    let shorter : suc (length (print_tokens tokens)) ≤ length cs =
      (subst (Progress (length cs)) next (next_token-Progress c cs)).1 in
    let counted : length (print_tokens (token ∷ tokens)) ≡ length (c ∷ cs) = ap length first in
    ap (tokenize_loop (suc (suc fuel))) first
    ∙ tokenize_loop-token fuel c cs (print_tokens tokens) token solid next
    ∙ ap (λ r. r >>= λ later. ok (token ∷ later))
        (tokenize_loop-print fuel tokens hs (omega (arith, l, shorter, counted)))

pub tokenize_sql-print :
    (tokens : List Token)
    → All Lexes tokens
    → tokenize_sql (print_tokens tokens) ≡ ok (tokens ++ eof ∷ [])
unfolding tokenize_sql
tokenize_sql-print tokens h =
    tokenize_loop-print (suc (length (print_tokens tokens))) tokens h (omega arith)

-- A name: letters, digits and underscores, of which no digit is the first, and no keyword.
abbrev pub IsIdentifier : Bytes → Type 0
IsIdentifier [] = ⊥
IsIdentifier (c ∷ cs) =
    ((is_alpha c || c == b'_') ≡ true)
    × All (λ d. is_word d ≡ true) cs
    × (keyword_type (c ∷ cs) ≡ token_identifier)

word-blank :
    (text rest : Bytes)
    → All (λ d. is_word d ≡ true) text
    → word (text ++ blank ∷ rest) ≡ (text, blank ∷ rest)
unfolding word
word-blank [] rest h = refl
word-blank (c ∷ text) rest (h, hs) = rw (word, h, word-blank text rest hs) refl

pub name_token-Lexes : (name : Bytes) → IsIdentifier name → Lexes (name_token name)
unfolding next_token tokenize_identifier is_space
name_token-Lexes [] h rest = absurd h
name_token-Lexes (c ∷ cs) (a, ws, k) rest =
    let w : is_word c ≡ true = ground arith in
    (c, cs ++ blank ∷ rest, refl, ground arith, rw (a, word-blank (c ∷ cs) rest (w, ws), k) refl)

pub string-Lexes : (text : Bytes) → Lexes (record { type = token_string; text = text })
unfolding next_token is_space
string-Lexes text rest = (
  quote,
  quoted text ++ quote ∷ blank ∷ rest,
  ap (λ l. quote ∷ l) (append_assoc (quoted text) (quote ∷ []) (blank ∷ rest)),
  refl,
  tokenize_string-quoted text (blank ∷ rest) (λ e. cc e),
)

-- The types of tokens with a text of their own.
abbrev pub IsMark : TokenType → Type 0
IsMark token_comma = Unit
IsMark token_lparen = Unit
IsMark token_rparen = Unit
IsMark token_semicolon = Unit
IsMark token_star = Unit
IsMark token_equal = Unit
IsMark token_insert = Unit
IsMark token_into = Unit
IsMark token_values = Unit
IsMark token_select = Unit
IsMark token_from = Unit
IsMark token_where = Unit
IsMark _ = ⊥

pub mark-Lexes : (type : TokenType) → IsMark type → Lexes (mark type)
unfolding next_token tokenize_identifier tokenize_symbol word keyword_type is_space
    strings_equal_ignore_case chars_equal_ignore_case
mark-Lexes token_comma h rest = (_, _, refl, refl, refl)
mark-Lexes token_lparen h rest = (_, _, refl, refl, refl)
mark-Lexes token_rparen h rest = (_, _, refl, refl, refl)
mark-Lexes token_semicolon h rest = (_, _, refl, refl, refl)
mark-Lexes token_star h rest = (_, _, refl, refl, refl)
mark-Lexes token_equal h rest = (_, _, refl, refl, refl)
mark-Lexes token_insert h rest = (_, _, refl, refl, refl)
mark-Lexes token_into h rest = (_, _, refl, refl, refl)
mark-Lexes token_values h rest = (_, _, refl, refl, refl)
mark-Lexes token_select h rest = (_, _, refl, refl, refl)
mark-Lexes token_from h rest = (_, _, refl, refl, refl)
mark-Lexes token_where h rest = (_, _, refl, refl, refl)
mark-Lexes token_eof h rest = absurd h
mark-Lexes token_identifier h rest = absurd h
mark-Lexes token_string h rest = absurd h
mark-Lexes token_number h rest = absurd h

abbrev Digits : Bytes → Type 0
Digits = All (λ d. is_digit d ≡ true)

-- Digits, with a point and more digits behind it or without.
abbrev Unsigned : Bytes → Type 0
Unsigned text =
    ((text ≢ []) × Digits text)
    ⊎ ((whole : Bytes) × (fraction : Bytes) × (text ≡ whole ++ b'.' ∷ fraction)
        × (whole ≢ [])
        × Digits whole
        × (fraction ≢ [])
        × Digits fraction)

-- A number, with a sign or without.
abbrev pub IsNumber : Bytes → Type 0
IsNumber text = Unsigned text ⊎ ((size : Bytes) × (text ≡ b'-' ∷ size) × Unsigned size)

number_text-Digits :
    (seen : Bool) (text rest : Bytes)
    → Digits text
    → number_text seen (text ++ blank ∷ rest) ≡ ok (text, blank ∷ rest)
unfolding number_text
number_text-Digits true [] rest h = refl
number_text-Digits false [] rest h = refl
number_text-Digits seen (c ∷ text) rest (h, hs) =
    rw (number_text, h, number_text-Digits seen text rest hs) refl

number_text-point :
    (whole fraction rest : Bytes)
    → Digits whole
    → fraction ≢ []
    → Digits fraction
    → number_text false ((whole ++ b'.' ∷ fraction) ++ blank ∷ rest)
      ≡ ok (whole ++ b'.' ∷ fraction, blank ∷ rest)
unfolding number_text
number_text-point [] [] rest w n f = absurd (n refl)
number_text-point [] (d ∷ fraction) rest w n (f, fs) =
    rw (number_text, f, number_text-Digits true (d ∷ fraction) rest (f, fs)) refl
number_text-point (c ∷ whole) fraction rest (w, ws) n f =
    rw (number_text, w, number_text-point whole fraction rest ws n f) refl

-- What stands at the start of a number without a sign, and how it is read.
StartsWith : Bytes → Type 0
StartsWith text =
    (c : ℕ) × (cs : Bytes) × (text ≡ c ∷ cs)
    × (is_digit c ≡ true)
    × ((rest : Bytes) → number_text false (text ++ blank ∷ rest) ≡ ok (text, blank ∷ rest))

Unsigned-StartsWith : (text : Bytes) → Unsigned text → StartsWith text
unfolding StartsWith
Unsigned-StartsWith [] (inl (n, h)) = absurd (n refl)
Unsigned-StartsWith (c ∷ cs) (inl (n, h)) =
    (c, cs, refl, h.0, λ rest. number_text-Digits false (c ∷ cs) rest h)
Unsigned-StartsWith text (inr ([], fraction, e, n, h, m, g)) = absurd (n refl)
Unsigned-StartsWith text (inr (c ∷ cs, fraction, e, n, h, m, g)) = (
  c,
  cs ++ b'.' ∷ fraction,
  e,
  h.0,
  λ rest.
      subst (λ t. number_text false (t ++ blank ∷ rest) ≡ ok (t, blank ∷ rest)) (sym e)
        (number_text-point (c ∷ cs) fraction rest h m g),
)

unsigned-Lexes :
    (text : Bytes) → StartsWith text → Lexes (record { type = token_number; text = text })
unfolding StartsWith next_token tokenize_number is_space
unsigned-Lexes text (c, cs, e, d, read) rest =
    let letter : (is_alpha c || c == b'_') ≡ false = ground arith in
    let no_sign : (c == b'-') ≡ false = ground arith in
    (
      c,
      cs ++ blank ∷ rest,
      ap (λ t. t ++ blank ∷ rest) e,
      ground arith,
      rw (letter, d, no_sign)
          (ap (token_of token_number)
            (ap (λ t. number_text false (t ++ blank ∷ rest)) (sym e) ∙ read rest)),
    )

signed-Lexes :
    (text : Bytes) → StartsWith text → Lexes (record { type = token_number; text = b'-' ∷ text })
unfolding StartsWith next_token tokenize_number is_space
signed-Lexes text (c, cs, e, d, read) rest = (
  b'-',
  text ++ blank ∷ rest,
  refl,
  refl,
  rw (ap (λ t. starts_with_digit (t ++ blank ∷ rest)) e ∙ d, read rest) refl,
)

pub number-Lexes :
    (text : Bytes) → IsNumber text → Lexes (record { type = token_number; text = text })
number-Lexes text (inl h) = unsigned-Lexes text (Unsigned-StartsWith text h)
number-Lexes text (inr (size, e, h)) =
    subst (λ t. Lexes (record { type = token_number; text = t })) (sym e)
      (signed-Lexes size (Unsigned-StartsWith size h))
