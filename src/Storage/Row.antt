-- ===== src/Storage/Row.antt =====
-- Rows and lines: `split_escaped_row`, `normalize_field_count` and `parse_line_into_row` of
-- src/storage.c, and the writing loop of `append_row_to_table_with_offset`.
use bptree_sql_engine.Prelude.{
  ℕ, ◌-◌, Bool, true, false, Option, none, some, List, [], ◌∷◌, ◌++◌, ltb, ◌==◌, if◌then◌else◌,
  Bytes, length, take, replicate,
}
use bptree_sql_engine.Storage.Field.{backslash, pipe, newline, escape_field, unescape_field}

-- `Row` of include/schema.h: the values in the order of the columns.
abbrev pub Row : Type 0
Row = List Bytes

abbrev pub push_field : Row → Option Bytes → Option Row
push_field fields none = none
push_field fields (some value) = some (fields ++ value ∷ [])

-- The loop over the line; the arguments behind it are `fields`, `current_raw` and `escape_pending`.
unfoldable pub split_loop : Bytes → Row → Bytes → Bool → Option Row
split_loop [] fields raw true = none
split_loop [] fields raw false = push_field fields (unescape_field raw)
split_loop (c ∷ line) fields raw true = split_loop line fields (raw ++ c ∷ []) false
split_loop (c ∷ line) fields raw false = elim (c == backslash) [
  | true ↦ split_loop line fields (raw ++ c ∷ []) true
  | false ↦ elim (c == pipe) [
    | true ↦ elim (push_field fields (unescape_field raw)) [
      | none ↦ none
      | some fields' ↦ split_loop line fields' [] false
    ]
    | false ↦ split_loop line fields (raw ++ c ∷ []) false
  ]
]

unfoldable pub split_escaped_row : Bytes → Option Row
unfolding split_loop
split_escaped_row line = split_loop line [] [] false

-- Superfluous fields are dropped, and missing ones are empty.
unfoldable pub normalize_field_count : Row → ℕ → Row
normalize_field_count fields expected =
    if length fields == expected
    then fields
    else if ltb expected (length fields)
    then take expected fields
    else fields ++ replicate (expected - length fields) []

abbrev pub normalized : Option Row → ℕ → Option Row
normalized none expected = none
normalized (some fields) expected = some (normalize_field_count fields expected)

unfoldable pub parse_line_into_row : Bytes → ℕ → Option Row
unfolding split_escaped_row normalize_field_count
parse_line_into_row line expected = normalized (split_escaped_row line) expected

-- The fields behind the first, each behind a `|`.
unfoldable pub write_fields : Row → Bytes
write_fields [] = []
write_fields (value ∷ row) = pipe ∷ escape_field value ++ write_fields row

-- The bytes that are written for a row, with the newline.
unfoldable pub write_row : Row → Bytes
unfolding write_fields
write_row [] = newline ∷ []
write_row (value ∷ row) = (escape_field value ++ write_fields row) ++ newline ∷ []
