-- ===== src/Storage/FieldLaws.antt =====
-- Escaping of one field: the round trip, the buffer sizes, and the bytes that stay out.
use bptree_sql_engine.Prelude.{
  ℕ, suc, ◌≤◌, ◌≡◌, ◌≢◌, refl, subst, Bool-cases, inl, inr, Option, none, some, [], ◌∷◌, ◌++◌,
  arith, ◌==◌, Bytes, length, length-append, All, All-append,
}
use bptree_sql_engine.Storage.Field.{
  backslash, newline, escaped_size, escape_byte, escape_field, unescape_byte, prepend,
  unescape_field,
}

unescape_field-escape_byte :
    (c : ℕ) (rest : Bytes)
    → unescape_field (escape_byte c ++ rest) ≡ prepend (some c) (unescape_field rest)
unfolding unescape_field escape_byte
unescape_field-escape_byte c [] = ground arith
unescape_field-escape_byte c (d ∷ rest) = ground arith

-- Every value is read back from its escaped form.
pub unescape-escape : (value : Bytes) → unescape_field (escape_field value) ≡ some value
unfolding escape_field unescape_field
unescape-escape [] = refl
unescape-escape (c ∷ value) =
    rw (unescape_field-escape_byte c (escape_field value), unescape-escape value)

-- The second loop of `escape_field` writes as many bytes as the first loop counted.
pub length-escape_field : (value : Bytes) → length (escape_field value) ≡ escaped_size value
unfolding escape_field escaped_size
length-escape_field [] = refl
length-escape_field (c ∷ value) =
    ground (arith, length-append (escape_byte c) (escape_field value), length-escape_field value)

abbrev Fits : ℕ → Option Bytes → Type 0
Fits n none = Unit
Fits n (some out) = length out ≤ n

Fits-prepend :
    (n : ℕ) (c : Option ℕ) (out : Option Bytes) → Fits n out → Fits (suc n) (prepend c out)
Fits-prepend n none out h = tt
Fits-prepend n (some c) none h = tt
Fits-prepend n (some c) (some out) h = omega arith

Fits-suc : (n : ℕ) (out : Option Bytes) → Fits n out → Fits (suc n) out
Fits-suc n none h = tt
Fits-suc n (some out) h = omega arith

unescape_field-Fits : (value : Bytes) → Fits (length value) (unescape_field value)
unfolding unescape_field
unescape_field-Fits [] = omega arith
unescape_field-Fits (c ∷ []) = ground arith
unescape_field-Fits (c ∷ d ∷ value) = elim (Bool-cases (c == backslash)) [
  | inl e ↦
      rw (e, unescape_field, Fits)
        (Fits-suc (suc (length value)) (prepend (unescape_byte d) (unescape_field value)) (
          Fits-prepend (length value) (unescape_byte d) (unescape_field value)
            (unescape_field-Fits value)))
  | inr e ↦
      rw (e, unescape_field, Fits)
        (Fits-prepend (suc (length value)) (some c) (unescape_field (d ∷ value))
          (unescape_field-Fits (d ∷ value)))
]

-- What `unescape_field` writes fits the buffer, which has the size of its input.
pub length-unescape_field :
    (value out : Bytes) → unescape_field value ≡ some out → length out ≤ length value
length-unescape_field value out e = subst (Fits (length value)) e (unescape_field-Fits value)

abbrev pub Lacks : ℕ → Bytes → Type 0
Lacks b = All (λ c. c ≢ b)

escape_byte-Lacks : (c : ℕ) → Lacks newline (escape_byte c)
unfolding escape_byte
escape_byte-Lacks c = ground arith

-- An escaped value holds no newline.
pub escape_field-Lacks : (value : Bytes) → Lacks newline (escape_field value)
unfolding escape_field
escape_field-Lacks [] = tt
escape_field-Lacks (c ∷ value) =
    All-append _ (escape_byte c) (escape_field value) (escape_byte-Lacks c)
      (escape_field-Lacks value)
