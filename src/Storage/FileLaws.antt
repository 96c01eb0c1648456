-- ===== src/Storage/FileLaws.antt =====
-- Reading lines: what `read_line` returns for a line that a row was written to.
use bptree_sql_engine.Prelude.{
  ℕ, ◌+◌, ◌≡◌, ◌≢◌, refl, ap, ◌∙◌, Bool, true, false, Option, none, some, [], ◌∷◌, ◌++◌, append-nil,
  ◌<◌, ◌≤◌, arith, ◌==◌, Bytes, length,
}
use bptree_sql_engine.Storage.Field.{newline, pipe, escape_byte, escape_field}
use bptree_sql_engine.Storage.FieldLaws.{Lacks}
use bptree_sql_engine.Storage.Row.{Row, write_fields}
use bptree_sql_engine.Storage.RowLaws.{line_of, line_of-Lacks}
use bptree_sql_engine.Storage.File.{Stream, read_chunk, strip_cr, finish_line, read_line}

read_chunk-line :
    (line rest : Bytes) (position : ℕ)
    → Lacks newline line
    → read_chunk position (line ++ newline ∷ rest) ≡ record {
      text = line;
      ended = true;
      stream = record { position = position + length line + 1; rest = rest };
    }
unfolding read_chunk
read_chunk-line [] rest position h = ground arith
read_chunk-line (c ∷ line) rest position h =
    ground (arith, read_chunk-line line rest (position + 1) h.1)

-- The last byte is `\r`.
abbrev pub ends_in_cr : Bytes → Bool
ends_in_cr [] = false
ends_in_cr (c ∷ []) = c == b'\r'
ends_in_cr (c ∷ d ∷ cs) = ends_in_cr (d ∷ cs)

strip_cr-id : (line : Bytes) → ends_in_cr line ≡ false → strip_cr line ≡ line
unfolding strip_cr
strip_cr-id [] h = refl
strip_cr-id (c ∷ []) h = rw h
strip_cr-id (c ∷ d ∷ cs) h = ap (λ l. c ∷ l) (strip_cr-id (d ∷ cs) h)

pub strip_cr-append : (line : Bytes) → strip_cr (line ++ b'\r' ∷ []) ≡ line
unfolding strip_cr
strip_cr-append [] = refl
strip_cr-append (c ∷ []) = refl
strip_cr-append (c ∷ d ∷ cs) = ap (λ l. c ∷ l) (strip_cr-append (d ∷ cs))

-- A line is read without its newline, and without a `\r` at its end; the stream is then behind
-- the newline.
pub read_line-line :
    (line rest : Bytes) (position : ℕ)
    → Lacks newline line
    → read_line (record { position = position; rest = line ++ newline ∷ rest })
      ≡ some (strip_cr line, record { position = position + length line + 1; rest = rest })
unfolding read_line
read_line-line line rest position h = rw (read_chunk-line line rest position h) (finish line)
  where
    finish :
        (line : Bytes) {stream : Stream}
        → finish_line true line stream ≡ some (strip_cr line, stream)
    finish [] = refl
    finish (c ∷ cs) = refl

ends_in_cr-append :
    (xs : Bytes) (y : ℕ) (ys : Bytes) → ends_in_cr (xs ++ y ∷ ys) ≡ ends_in_cr (y ∷ ys)
ends_in_cr-append [] y ys = refl
ends_in_cr-append (x ∷ []) y ys = refl
ends_in_cr-append (x ∷ z ∷ xs) y ys = ends_in_cr-append (z ∷ xs) y ys

ends_in_cr-escape_byte :
    (c : ℕ) (rest : Bytes) → ends_in_cr (escape_byte c ++ rest) ≡ ends_in_cr (c ∷ rest)
unfolding escape_byte
ends_in_cr-escape_byte c [] = ground arith
ends_in_cr-escape_byte c (d ∷ rest) = ground arith

ends_in_cr-skip : (c : ℕ) (xs : Bytes) → xs ≢ [] → ends_in_cr (c ∷ xs) ≡ ends_in_cr xs
ends_in_cr-skip c [] h = absurd (h refl)
ends_in_cr-skip c (d ∷ xs) h = refl

escape_field-ne-nil : (c : ℕ) (value : Bytes) → escape_field (c ∷ value) ≢ []
unfolding escape_field escape_byte
escape_field-ne-nil c value = ground arith

ends_in_cr-escape_field : (value : Bytes) → ends_in_cr (escape_field value) ≡ ends_in_cr value
unfolding escape_field
ends_in_cr-escape_field [] = refl
ends_in_cr-escape_field (c ∷ []) = ends_in_cr-escape_byte c []
ends_in_cr-escape_field (c ∷ d ∷ value) =
    ends_in_cr-escape_byte c (escape_field (d ∷ value))
    ∙ ends_in_cr-skip c (escape_field (d ∷ value)) (escape_field-ne-nil d value)
    ∙ ends_in_cr-escape_field (d ∷ value)

abbrev pub last_value : Row → Bytes
last_value [] = []
last_value (value ∷ []) = value
last_value (value ∷ next ∷ row) = last_value (next ∷ row)

ends_in_cr-pipe : (xs : Bytes) → ends_in_cr (pipe ∷ xs) ≡ ends_in_cr xs
ends_in_cr-pipe [] = refl
ends_in_cr-pipe (x ∷ xs) = refl

pub ends_in_cr-line_of : (row : Row) → ends_in_cr (line_of row) ≡ ends_in_cr (last_value row)
unfolding write_fields
ends_in_cr-line_of [] = refl
ends_in_cr-line_of (value ∷ []) =
    rw (append-nil (escape_field value)) (ends_in_cr-escape_field value)
ends_in_cr-line_of (value ∷ next ∷ row) =
    ends_in_cr-append (escape_field value) pipe (line_of (next ∷ row))
    ∙ ends_in_cr-pipe (line_of (next ∷ row))
    ∙ ends_in_cr-line_of (next ∷ row)

-- The line of a row whose last value does not end in `\r` is read back whole.
pub read_line-row :
    (row : Row) (rest : Bytes) (position : ℕ)
    → ends_in_cr (last_value row) ≡ false
    → read_line (record { position = position; rest = line_of row ++ newline ∷ rest })
      ≡ some (line_of row, record { position = position + length (line_of row) + 1; rest = rest })
read_line-row row rest position h =
    read_line-line (line_of row) rest position (line_of-Lacks row)
    ∙ ap (λ l. some (l, record { position = position + length (line_of row) + 1; rest = rest }))
        (strip_cr-id (line_of row) (ends_in_cr-line_of row ∙ h))

abbrev pub Shrinks : ℕ → Option (Bytes × Stream) → Type 0
Shrinks n none = Unit
Shrinks n (some (line, stream)) = length stream.rest < n

read_chunk-le :
    (position : ℕ) (cs : Bytes) → length (read_chunk position cs).stream.rest ≤ length cs
unfolding read_chunk
read_chunk-le position [] = omega arith
read_chunk-le position (c ∷ cs) = ground (arith, read_chunk-le (position + 1) cs)

finish_line-Shrinks :
    (n : ℕ) (ended : Bool) (text : Bytes) (stream : Stream)
    → length stream.rest < n
    → Shrinks n (finish_line ended text stream)
finish_line-Shrinks n false [] stream h = tt
finish_line-Shrinks n false (c ∷ cs) stream h = h
finish_line-Shrinks n true [] stream h = h
finish_line-Shrinks n true (c ∷ cs) stream h = h

read_chunk-lt :
    (position c : ℕ) (cs : Bytes)
    → length (read_chunk position (c ∷ cs)).stream.rest < length (c ∷ cs)
unfolding read_chunk
read_chunk-lt position c cs = ground (arith, read_chunk-le (position + 1) cs)

-- Each line that is read takes at least one byte of the stream.
pub read_line-Shrinks :
    (position : ℕ) (cs : Bytes)
    → Shrinks (length cs) (read_line (record { position = position; rest = cs }))
unfolding read_line
read_line-Shrinks position [] = tt
read_line-Shrinks position (c ∷ cs) =
    finish_line-Shrinks (length (c ∷ cs)) _ _ _ (read_chunk-lt position c cs)
