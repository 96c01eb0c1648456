-- ===== src/Sql/Literals.antt =====
-- String literals and keywords of src/lexer.c.
use bptree_sql_engine.Prelude.{
  ℕ, ◌≡◌, ◌≢◌, refl, sym, ap, ◌∙◌, false, [], ◌∷◌, ◌++◌, map, arith, ◌==◌, ==→eq, if◌then◌else◌,
  Bytes, codes, ok, Bool-cases, inl, inr,
}
use bptree_sql_engine.Sql.Lexer.{
  token_string, upper, chars_equal_ignore_case, strings_equal_ignore_case, keyword_type, longer,
  token_of, quote, string_text, tokenize_string,
}

-- A value as the body of a string literal: each quote twice.
abbrev pub quoted : Bytes → Bytes
quoted [] = []
quoted (c ∷ text) = if c == quote then quote ∷ quote ∷ quoted text else c ∷ quoted text

-- What may follow a literal: anything but a quote, which would belong to it.
abbrev pub NoQuote : Bytes → Type 0
NoQuote [] = Unit
NoQuote (c ∷ cs) = c ≢ quote

string_text-end : (rest : Bytes) → NoQuote rest → string_text (quote ∷ rest) ≡ ok ([], rest)
unfolding string_text
string_text-end [] h = refl
string_text-end (c ∷ rest) h = ground arith

string_text-plain :
    (c : ℕ) (cs : Bytes) → c ≢ quote → cs ≢ [] → string_text (c ∷ cs) ≡ longer c (string_text cs)
unfolding string_text
string_text-plain c [] h g = absurd (g refl)
string_text-plain c (d ∷ cs) h g = ground arith

==-differs : (a b : ℕ) → (a == b) ≡ false → a ≢ b
==-differs a b h g = ground arith

append-nonempty : (xs : Bytes) (y : ℕ) (ys : Bytes) → xs ++ y ∷ ys ≢ []
append-nonempty [] y ys h = cc
append-nonempty (x ∷ xs) y ys h = cc

string_text-quoted :
    (text rest : Bytes) → NoQuote rest → string_text (quoted text ++ quote ∷ rest) ≡ ok (text, rest)
unfolding string_text
string_text-quoted [] rest h = string_text-end rest h
string_text-quoted (c ∷ text) rest h = elim (Bool-cases (c == quote)) [
  | inl e ↦ rw e (
      ap (longer quote) (string_text-quoted text rest h)
      ∙ ap (λ d. ok (d ∷ text, rest)) (sym (==→eq c quote e)))
  | inr e ↦ rw e (
      string_text-plain c (quoted text ++ quote ∷ rest) (==-differs c quote e)
        (append-nonempty (quoted text) quote rest)
      ∙ ap (longer c) (string_text-quoted text rest h))
]

-- A string literal is read back as its value, whatever bytes this holds, if its quotes are written
-- twice and no quote follows the literal.
pub tokenize_string-quoted :
    (text rest : Bytes)
    → NoQuote rest
    → tokenize_string (quote ∷ (quoted text ++ quote ∷ rest))
      ≡ ok (record { type = token_string; text = text }, rest)
unfolding tokenize_string
tokenize_string-quoted text rest h = ap (token_of token_string) (string_text-quoted text rest h)

upper-upper : (c : ℕ) → upper (upper c) ≡ upper c
upper-upper c = ground arith

equal-upper :
    (text keyword : Bytes)
    → strings_equal_ignore_case (map upper text) keyword ≡ strings_equal_ignore_case text keyword
unfolding strings_equal_ignore_case chars_equal_ignore_case
equal-upper [] [] = refl
equal-upper [] (d ∷ keyword) = refl
equal-upper (c ∷ text) [] = refl
equal-upper (c ∷ text) (d ∷ keyword) = rw (upper-upper c, equal-upper text keyword) refl

-- The case of its letters does not matter to whether a word is a keyword, and to which one.
pub keyword_type-upper : (text : Bytes) → keyword_type (map upper text) ≡ keyword_type text
unfolding keyword_type
keyword_type-upper text =
    rw
      (
        equal-upper text (codes "INSERT"),
        equal-upper text (codes "INTO"),
        equal-upper text (codes "VALUES"),
        equal-upper text (codes "SELECT"),
        equal-upper text (codes "FROM"),
        equal-upper text (codes "WHERE"),
      )
      refl
