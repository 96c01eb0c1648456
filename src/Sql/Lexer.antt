-- ===== src/Sql/Lexer.antt =====
-- src/lexer.c.
--
-- A string is the list of its bytes before the NUL; what the source reads from `sql[*index]` on is
-- the rest of the list. The classes of characters are those of the C locale.
use bptree_sql_engine.Prelude.{
  ℕ, zero, suc, ◌-◌, Bool, true, false, ◌&&◌, ◌||◌, not, List, [], ◌∷◌, leb, ◌==◌, if◌then◌else◌,
  Bytes, codes, length, Result, ok, err, ◌>>=◌,
}
use bptree_sql_engine.Schema.Trim.{is_space}

pub data TokenType : Type 0 where
  token_eof token_identifier token_string token_number token_comma token_lparen : TokenType
  token_rparen token_semicolon token_star token_insert token_into token_values : TokenType
  token_select token_from token_where token_equal : TokenType

pub record Token : Type 0 where
  pub type : TokenType
  pub text : Bytes

pub data LexError : Type 0 where
  invalid_number unterminated_string invalid_character : LexError

abbrev pub between : ℕ → ℕ → ℕ → Bool
between low high c = leb low c && leb c high

abbrev pub is_digit : ℕ → Bool
is_digit c = between b'0' b'9' c

abbrev pub is_alpha : ℕ → Bool
is_alpha c = between b'a' b'z' c || between b'A' b'Z' c

-- `toupper`
abbrev pub upper : ℕ → ℕ
upper c = if between b'a' b'z' c then c - 32 else c

unfoldable pub chars_equal_ignore_case : ℕ → ℕ → Bool
chars_equal_ignore_case a b = upper a == upper b

unfoldable pub strings_equal_ignore_case : Bytes → Bytes → Bool
unfolding chars_equal_ignore_case
strings_equal_ignore_case [] [] = true
strings_equal_ignore_case [] (d ∷ rhs) = false
strings_equal_ignore_case (c ∷ lhs) [] = false
strings_equal_ignore_case (c ∷ lhs) (d ∷ rhs) =
    chars_equal_ignore_case c d && strings_equal_ignore_case lhs rhs

unfoldable pub keyword_type : Bytes → TokenType
keyword_type text =
    if strings_equal_ignore_case text (codes "INSERT")
    then token_insert
    else if strings_equal_ignore_case text (codes "INTO")
    then token_into
    else if strings_equal_ignore_case text (codes "VALUES")
    then token_values
    else if strings_equal_ignore_case text (codes "SELECT")
    then token_select
    else if strings_equal_ignore_case text (codes "FROM")
    then token_from
    else if strings_equal_ignore_case text (codes "WHERE")
    then token_where
    else token_identifier

-- One character more in front of the text of a token.
abbrev pub longer : ℕ → Result LexError (Bytes × Bytes) → Result LexError (Bytes × Bytes)
longer c (err e) = err e
longer c (ok (text, rest)) = ok (c ∷ text, rest)

abbrev pub is_word : ℕ → Bool
is_word c = is_alpha c || is_digit c || c == b'_'

-- The longest prefix of letters, digits and underscores, and what is behind it.
unfoldable pub word : Bytes → Bytes × Bytes
word [] = ([], [])
word (c ∷ cs) = elim (is_word c) [
  | true ↦ let (text, rest) = word cs in (c ∷ text, rest)
  | false ↦ ([], c ∷ cs)
]

unfoldable pub tokenize_identifier : Bytes → Result LexError (Token × Bytes)
tokenize_identifier cs =
    let (text, rest) = word cs in ok (record { type = keyword_type text; text = text }, rest)

abbrev pub starts_with_digit : Bytes → Bool
starts_with_digit [] = false
starts_with_digit (c ∷ cs) = is_digit c

-- The loop of `tokenize_number`.
unfoldable pub number_text : Bool → Bytes → Result LexError (Bytes × Bytes)
number_text seen_dot [] = ok ([], [])
number_text seen_dot (c ∷ cs) = elim (is_digit c) [
  | true ↦ longer c (number_text seen_dot cs)
  | false ↦ elim (not seen_dot && c == b'.') [
    | true ↦ elim (starts_with_digit cs) [
      | true ↦ longer c (number_text true cs)
      | false ↦ err invalid_number
    ]
    | false ↦ ok ([], c ∷ cs)
  ]
]

abbrev pub signed : Bytes → Result LexError (Bytes × Bytes)
signed [] = number_text false []
signed (c ∷ cs) = if c == b'-' then longer c (number_text false cs) else number_text false (c ∷ cs)

abbrev pub token_of : TokenType → Result LexError (Bytes × Bytes) → Result LexError (Token × Bytes)
token_of type (err e) = err e
token_of type (ok (text, rest)) = ok (record { type = type; text = text }, rest)

unfoldable pub tokenize_number : Bytes → Result LexError (Token × Bytes)
tokenize_number cs = token_of token_number (signed cs)

abbrev pub quote : ℕ
quote = 39

-- The loop of `tokenize_string`, behind the opening quote: two quotes stand for one.
unfoldable pub string_text : Bytes → Result LexError (Bytes × Bytes)
string_text [] = err unterminated_string
string_text (c ∷ []) = if c == quote then ok ([], []) else err unterminated_string
string_text (c ∷ d ∷ cs) = elim (c == quote) [
  | true ↦ elim (d == quote) [ true ↦ longer quote (string_text cs) | false ↦ ok ([], d ∷ cs) ]
  | false ↦ longer c (string_text (d ∷ cs))
]

unfoldable pub tokenize_string : Bytes → Result LexError (Token × Bytes)
tokenize_string [] = err unterminated_string
tokenize_string (c ∷ cs) = token_of token_string (string_text cs)

abbrev pub symbol : TokenType → ℕ → Bytes → Result LexError (Token × Bytes)
symbol type c cs = ok (record { type = type; text = c ∷ [] }, cs)

unfoldable pub tokenize_symbol : ℕ → Bytes → Result LexError (Token × Bytes)
tokenize_symbol c cs =
    if c == b','
    then symbol token_comma c cs
    else if c == b'('
    then symbol token_lparen c cs
    else if c == b')'
    then symbol token_rparen c cs
    else if c == b';'
    then symbol token_semicolon c cs
    else if c == b'*'
    then symbol token_star c cs
    else if c == b'='
    then symbol token_equal c cs
    else err invalid_character

-- The token that starts at a byte which is not a space.
unfoldable pub next_token : ℕ → Bytes → Result LexError (Token × Bytes)
next_token c cs =
    if is_alpha c || c == b'_'
    then tokenize_identifier (c ∷ cs)
    else if is_digit c || (c == b'-' && starts_with_digit cs)
    then tokenize_number (c ∷ cs)
    else if c == quote
    then tokenize_string (c ∷ cs)
    else tokenize_symbol c cs

abbrev pub eof : Token
eof = record { type = token_eof; text = [] }

-- A token in front of those that are read behind it.
abbrev pub followed :
    Result LexError (Token × Bytes)
    → (Bytes → Result LexError (List Token))
    → Result LexError (List Token)
followed (err e) later = err e
followed (ok (token, rest)) later = later rest >>= λ tokens. ok (token ∷ tokens)

-- The `while` of `tokenize_sql`. Each round reads at least one byte.
unfoldable pub tokenize_loop : ℕ → Bytes → Result LexError (List Token)
tokenize_loop zero cs = ok (eof ∷ [])
tokenize_loop (suc fuel) [] = ok (eof ∷ [])
tokenize_loop (suc fuel) (c ∷ cs) = elim (is_space c) [
  | true ↦ tokenize_loop fuel cs
  | false ↦ followed (next_token c cs) λ rest. tokenize_loop fuel rest
]

unfoldable pub tokenize_sql : Bytes → Result LexError (List Token)
unfolding tokenize_loop
tokenize_sql sql = tokenize_loop (suc (length sql)) sql
