-- ===== src/Storage/File.antt =====
-- The files that src/storage.c and src/schema.c read and write: what is used of the C library's
-- streams, and `read_line` and `build_table_path`, which both files define alike.
use bptree_sql_engine.Prelude.{
  ℕ, ◌+◌, Bool, true, false, ◌&&◌, ◌||◌, Option, none, some, [], ◌∷◌, ◌++◌, ◌==◌, if◌then◌else◌,
  Bytes,
}
use bptree_sql_engine.Storage.Field.{newline}

-- A file system: the contents of the files, and the paths that `fopen` refuses for another reason
-- than a missing file, for reading as for writing.
pub record Disk : Type 0 where
  pub file : Bytes → Option Bytes
  pub refused : Bytes → Bool

abbrev pub bytes_eq : Bytes → Bytes → Bool
bytes_eq [] [] = true
bytes_eq [] (d ∷ ds) = false
bytes_eq (c ∷ cs) [] = false
bytes_eq (c ∷ cs) (d ∷ ds) = (c == d) && bytes_eq cs ds

unfoldable pub write_file : Disk → Bytes → Bytes → Disk
write_file disk path content = record disk {
  file = λ p. if bytes_eq p path then some content else disk.file p;
}

-- `db_dir[db_len - 1]`
abbrev pub ends_in_separator : Bytes → Bool
ends_in_separator [] = false
ends_in_separator (c ∷ []) = c == b'/' || c == b'\\'
ends_in_separator (c ∷ d ∷ cs) = ends_in_separator (d ∷ cs)

-- The directory with the `/` that is put behind it.
unfoldable pub directory_prefix : Bytes → Bytes
directory_prefix [] = []
directory_prefix (c ∷ cs) = if ends_in_separator (c ∷ cs) then c ∷ cs else (c ∷ cs) ++ b'/' ∷ []

unfoldable pub build_table_path : Bytes → Bytes → Bytes → Bytes
build_table_path db_dir table_name suffix = directory_prefix db_dir ++ (table_name ++ suffix)

-- A stream that is open for reading: `ftell`, and the bytes behind that position.
pub record Stream : Type 0 where
  pub position : ℕ
  pub rest : Bytes

-- What the `fgetc` loop of `read_line` has read: the bytes before the newline or the end of the
-- file, whether there was a newline, and the stream behind it.
pub record Chunk : Type 0 where
  pub text : Bytes
  pub ended : Bool
  pub stream : Stream

unfoldable pub read_chunk : ℕ → Bytes → Chunk
read_chunk position [] = record {
  text = [];
  ended = false;
  stream = record { position = position; rest = [] };
}
read_chunk position (c ∷ cs) = elim (c == newline) [
  | true ↦ record {
    text = [];
    ended = true;
    stream = record { position = position + 1; rest = cs };
  }
  | false ↦ let chunk = read_chunk (position + 1) cs in record chunk { text = c ∷ chunk.text }
]

-- A `\r` at the end of the line is dropped.
unfoldable pub strip_cr : Bytes → Bytes
strip_cr [] = []
strip_cr (c ∷ []) = if c == b'\r' then [] else c ∷ []
strip_cr (c ∷ d ∷ cs) = c ∷ strip_cr (d ∷ cs)

abbrev pub finish_line : Bool → Bytes → Stream → Option (Bytes × Stream)
finish_line false [] stream = none
finish_line ended text stream = some (strip_cr text, stream)

-- The files hold no NUL byte, at which the line would end as a C string. `none` is the return value 0,
-- at the end of the file; otherwise the line and the stream behind it.
unfoldable pub read_line : Stream → Option (Bytes × Stream)
unfolding read_chunk strip_cr
read_line stream =
    let chunk = read_chunk stream.position stream.rest in
    finish_line chunk.ended chunk.text chunk.stream
