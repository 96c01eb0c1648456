-- ===== src/Runtime/Index.antt =====
-- `build_id_index_callback` and `build_id_index_for_table` of src/runtime.c.
use bptree_sql_engine.Prelude.{
  ℕ, ◌+◌, Bool, true, false, not, ◌||◌, Option, none, some, ltb, ◌==◌, if◌then◌else◌, Bytes, length,
  get_elem?, Result, ok, err,
}
use bptree_sql_engine.Bptree.Node.{Tree}
use bptree_sql_engine.Bptree.Insert.{TreeError, bptree_init, bptree_insert}
use bptree_sql_engine.Storage.Row.{Row}
use bptree_sql_engine.Storage.File.{Disk}
use bptree_sql_engine.Storage.Table.{
  StorageError, Signal, continue, fail, scan_table_rows_with_offsets,
}
use bptree_sql_engine.Schema.Load.{TableSchema}
use bptree_sql_engine.Runtime.Id.{uint64_max, parse_canonical_positive_uint64}

-- `IdIndexBuildState`, less the column index, which does not change
pub record BuildState : Type 0 where
  pub tree : Tree
  pub max_id : ℕ
  pub saw_row : Bool

pub data IndexError : Type 0 where
  scan_failed : StorageError → IndexError
  next_id_overflow : IndexError

-- `NULL` values are not modelled: a value that is there is a string.
abbrev pub stored_id : ℕ → Row → Option ℕ
stored_id id_column row = elim (get_elem? row id_column) [
  | none ↦ none
  | some text ↦ parse_canonical_positive_uint64 text
]

abbrev pub max_seen : BuildState → ℕ → ℕ
max_seen state id = if not state.saw_row || ltb state.max_id id then id else state.max_id

abbrev pub record_id : BuildState → ℕ → Result TreeError Tree → Signal BuildState
record_id state id (err e) = fail
record_id state id (ok tree) =
    continue (record { tree = tree; max_id = max_seen state id; saw_row = true })

abbrev pub index_id : BuildState → ℕ → Option ℕ → Signal BuildState
index_id state row_offset none = fail
index_id state row_offset (some id) = record_id state id (bptree_insert state.tree id row_offset)

unfoldable pub build_id_index_callback : ℕ → Row → ℕ → BuildState → Signal BuildState
build_id_index_callback id_column row row_offset state =
    index_id state row_offset (stored_id id_column row)

abbrev pub initial_state : BuildState
initial_state = record { tree = bptree_init; max_id = 0; saw_row = false }

-- The tree and the next id.
abbrev pub built_index : Result StorageError BuildState → Result IndexError (Tree × ℕ)
built_index (err e) = err (scan_failed e)
built_index (ok state) =
    if not state.saw_row
    then ok (state.tree, 1)
    else if state.max_id == uint64_max
    then err next_id_overflow
    else ok (state.tree, state.max_id + 1)

unfoldable pub build_id_index_for_table :
    Disk → Bytes → TableSchema → ℕ → Result IndexError (Tree × ℕ)
build_id_index_for_table disk db_dir schema id_column = built_index (
    scan_table_rows_with_offsets (build_id_index_callback id_column) (length schema.columns) disk
      db_dir schema.table_name initial_state)
