-- ===== src/Storage/Field.antt =====
-- `escape_field` and `unescape_field` of src/storage.c.
use bptree_sql_engine.Prelude.{
  ℕ, ◌+◌, true, false, ◌||◌, Option, none, some, [], ◌∷◌, ◌++◌, ◌==◌, if◌then◌else◌, Bytes,
}

abbrev pub backslash : ℕ
backslash = b'\\'

abbrev pub pipe : ℕ
pipe = b'|'

abbrev pub newline : ℕ
newline = b'\n'

-- The first loop of `escape_field`: the size of the buffer, less its terminator.
unfoldable pub escaped_size : Bytes → ℕ
escaped_size [] = 0
escaped_size (c ∷ src) =
    (if c == backslash || (c == pipe || c == newline) then 2 else 1) + escaped_size src

-- What one round of the second loop writes.
unfoldable pub escape_byte : ℕ → Bytes
escape_byte c =
    if c == backslash
    then backslash ∷ backslash ∷ []
    else if c == pipe
    then backslash ∷ pipe ∷ []
    else if c == newline
    then backslash ∷ b'n' ∷ []
    else c ∷ []

unfoldable pub escape_field : Bytes → Bytes
unfolding escape_byte
escape_field [] = []
escape_field (c ∷ src) = escape_byte c ++ escape_field src

-- The byte that stands for `\c`.
unfoldable pub unescape_byte : ℕ → Option ℕ
unescape_byte c =
    if c == backslash
    then some backslash
    else if c == pipe
    then some pipe
    else if c == b'n'
    then some newline
    else none

abbrev pub prepend : Option ℕ → Option Bytes → Option Bytes
prepend none rest = none
prepend (some c) none = none
prepend (some c) (some rest) = some (c ∷ rest)

-- `none` is the `NULL` that the source returns for a malformed escape.
unfoldable pub unescape_field : Bytes → Option Bytes
unfolding unescape_byte
unescape_field [] = some []
unescape_field (c ∷ []) = if c == backslash then none else some (c ∷ [])
unescape_field (c ∷ d ∷ value) = elim (c == backslash) [
  | true ↦ prepend (unescape_byte d) (unescape_field value)
  | false ↦ prepend (some c) (unescape_field (d ∷ value))
]
