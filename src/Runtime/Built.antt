-- ===== src/Runtime/Built.antt =====
-- What `build_id_index_for_table` of src/runtime.c builds.
use bptree_sql_engine.Prelude.{
  ℕ, ◌+◌, ◌≤◌, ◌<◌, ◌≡◌, ◌≢◌, refl, sym, ap, ◌∙◌, subst, Bool, true, false, Option, none, some,
  List, [], ◌∷◌, ◌++◌, arith, append_assoc, append-nil, ◌||◌, not, ltb, get_elem?, ◌==◌,
  if◌then◌else◌, Bytes, length, All, Result, ok, err, Bool-cases, Option-cases, inl, inr,
}
use bptree_sql_engine.Bptree.Node.{Items, Tree}
use bptree_sql_engine.Bptree.Search.{scan_leaf}
use bptree_sql_engine.Bptree.Insert.{TreeError, bptree_insert}
use bptree_sql_engine.Storage.Row.{Row, write_row}
use bptree_sql_engine.Storage.File.{Disk}
use bptree_sql_engine.Storage.Table.{StorageError, resume, data_path}
use bptree_sql_engine.Storage.TableLaws.{IsRow, write_rows}
use bptree_sql_engine.Storage.ScanLaws.{run_rows, scan-path}
use bptree_sql_engine.Schema.Load.{TableSchema}
use bptree_sql_engine.Runtime.Id.{uint64_max, parse_canonical_positive_uint64}
use bptree_sql_engine.Runtime.IdLaws.{parse_canonical_sound}
use bptree_sql_engine.Runtime.Index.{
  BuildState, IndexError, stored_id, max_seen, record_id, build_id_index_callback, initial_state,
  built_index, build_id_index_for_table,
}
use bptree_sql_engine.Runtime.Located.{
  located, Indexes, Indexes-init, Indexes-insert, scan_leaf-last, scan_leaf-nil, fresh,
}

-- No entry has an id that is at least `next_id`, unless `next_id` has wrapped round to 0.
abbrev pub Unused : ℕ → Items → Type 0
Unused next_id xs = (j : ℕ) → next_id ≢ 0 → next_id ≤ j → scan_leaf xs j ≡ none

-- The state of the scan when the entries `xs` have been inserted.
abbrev pub Built : Items → BuildState → Type 0
Built xs state =
    Indexes state.tree xs
    × ((j : ℕ) → (state.saw_row ≡ true → state.max_id < j) → scan_leaf xs j ≡ none)
    × (state.max_id ≤ uint64_max)

abbrev pub HasId : ℕ → Row → Type 0
HasId i row = (id : ℕ) × (stored_id i row ≡ some id)

abbrev BuiltResult : ℕ → Items → List Row → Result StorageError BuildState → Type 0
BuiltResult i xs rows (ok state) = Built xs state × All (HasId i) rows
BuiltResult i xs rows (err e) = Unit

id-bound :
    (i id : ℕ) (value : Option Bytes)
    → elim value [ none ↦ none | some text ↦ parse_canonical_positive_uint64 text ] ≡ some id
    → (0 < id) × (id ≤ uint64_max)
id-bound i id none e = cc
id-bound i id (some text) e = let sound = parse_canonical_sound text id e in (sound.1, sound.2)

-- An id that a row stores is a positive 64-bit number.
pub stored_id-bound :
    (i id : ℕ) (row : Row) → stored_id i row ≡ some id → (0 < id) × (id ≤ uint64_max)
stored_id-bound i id row e = id-bound i id (get_elem? row i) e

max_seen-high :
    (saw : Bool) (m id j : ℕ)
    → (if not saw || ltb m id then id else m) < j
    → (id < j) × (saw ≡ true → m < j)
max_seen-high true m id j h = ground arith
max_seen-high false m id j h = (h, λ e. cc)

max_seen-fits :
    (saw : Bool) (m id : ℕ)
    → id ≤ uint64_max
    → m ≤ uint64_max
    → (if not saw || ltb m id then id else m) ≤ uint64_max
max_seen-fits true m id h g = ground arith
max_seen-fits false m id h g = h

pub other-key :
    (id j : ℕ) (o : Option ℕ) (offset : ℕ) → id < j → (if id == j then some offset else o) ≡ o
other-key id j o offset h = ground arith

pub Built-record :
    (state : BuildState) (xs : Items) (id offset : ℕ) (tree : Tree)
    → id ≤ uint64_max
    → Built xs state
    → bptree_insert state.tree id offset ≡ ok tree
    → Built
        (xs ++ (id, offset) ∷ [])
        (record { tree = tree; max_id = max_seen state id; saw_row = true })
Built-record state xs id offset tree fits b e = (
  Indexes-insert state.tree tree xs id offset b.0 e,
  λ j h.
      let high = max_seen-high state.saw_row state.max_id id j (h refl) in
      scan_leaf-last xs id offset j (fresh state.tree tree xs id offset b.0 e)
      ∙ other-key id j (scan_leaf xs j) offset high.0
      ∙ b.1 j high.1,
  max_seen-fits state.saw_row state.max_id id fits b.2,
)

module _ (i n : ℕ) where
  extended :
      (xs : Items) (row : Row) (rows : List Row) (r : Result StorageError BuildState)
      → HasId i row
      → BuiltResult i xs rows r
      → BuiltResult i xs (row ∷ rows) r
  extended xs row rows (ok state) h b = (b.0, (h, b.1))
  extended xs row rows (err e) h b = tt

  inserted :
      (offset id : ℕ) (row : Row) (rows : List Row) (xs ys : Items) (state : BuildState)
      (k : BuildState → Result StorageError BuildState)
      → stored_id i row ≡ some id
      → Built xs state
      → ((state' : BuildState)
          → Built (xs ++ (id, offset) ∷ []) state'
          → BuiltResult i ((xs ++ (id, offset) ∷ []) ++ ys) rows (k state'))
      → (result : Result TreeError Tree) → bptree_insert state.tree id offset ≡ result
      → BuiltResult i (xs ++ (id, offset) ∷ ys) (row ∷ rows) (resume (record_id state id result) k)
  inserted offset id row rows xs ys state k e b later (err x) f = tt
  inserted offset id row rows xs ys state k e b later (ok tree) f =
      let state' : BuildState = record {
        tree = tree;
        max_id = max_seen state id;
        saw_row = true;
      } in
      extended _ row rows _ (id, e)
        (subst (λ l. BuiltResult i l rows (k state')) (append_assoc xs ((id, offset) ∷ []) ys)
          (later state' (Built-record state xs id offset tree (stored_id-bound i id row e).1 b f)))

  run_rows-Built :
      (offset : ℕ) (rows : List Row) (xs : Items) (state : BuildState)
      → Built xs state
      → BuiltResult i
          (xs ++ located i offset rows)
          rows
          (run_rows (build_id_index_callback i) n offset rows state)
  unfolding build_id_index_callback
  run_rows-Built offset [] xs state b = (subst (λ l. Built l state) (sym (append-nil xs)) b, tt)
  run_rows-Built offset (row ∷ rows) xs state b = elim (Option-cases (stored_id i row)) [
    | inl e ↦ rw (e, build_id_index_callback) tt
    | inr (id, e) ↦
        rw (e, build_id_index_callback)
          (inserted offset id row rows xs _ state _ e b
            (λ state' b'.
              run_rows-Built (offset + length (write_row row)) rows (xs ++ (id, offset) ∷ []) state'
                b')
            _ refl)
  ]

-- What a built index and its next id are good for.
abbrev IndexResult : ℕ → List Row → Result IndexError (Tree × ℕ) → Type 0
IndexResult i rows (ok (tree, next_id)) =
    Indexes tree (located i 0 rows)
    × Unused next_id (located i 0 rows)
    × (next_id ≤ uint64_max)
    × All (HasId i) rows
    × (1 ≤ next_id)
IndexResult i rows (err e) = Unit

built_index-result :
    (i : ℕ) (rows : List Row) (r : Result StorageError BuildState)
    → BuiltResult i (located i 0 rows) rows r
    → IndexResult i rows (built_index r)
built_index-result i rows (err e) b = tt
built_index-result i rows (ok state) b = elim (Bool-cases state.saw_row) [
  | inl e ↦ elim (Bool-cases (state.max_id == uint64_max)) [
    | inl f ↦ rw (e, f) tt
    | inr f ↦
        rw (e, f)
          (
            b.0.0,
            λ j nonzero h. b.0.1 j (λ _. omega arith),
            differs state.max_id b.0.2 f,
            b.1,
            omega arith,
          )
  ]
  | inr e ↦
      rw e (b.0.0, λ j nonzero h. b.0.1 j (λ g. absurd (cc (e, g))), omega arith, b.1, omega arith)
]
  where
    differs : (m : ℕ) → m ≤ uint64_max → (m == uint64_max) ≡ false → m + 1 ≤ uint64_max
    differs m h e = ground arith

-- The index that is built from a file of rows, if the build succeeds: every row has an id, a tree
-- that answers each id with the offset of the row that has it, no id twice, and a next id that is
-- positive, above all of them and at most UINT64_MAX.
pub build_id_index-Indexes :
    (disk : Disk) (db_dir : Bytes) (schema : TableSchema) (i next_id : ℕ) (tree : Tree)
    (rows : List Row)
    → disk.refused (data_path db_dir schema.table_name) ≡ false
    → disk.file (data_path db_dir schema.table_name) ≡ some (write_rows rows)
    → All (IsRow (length schema.columns)) rows
    → build_id_index_for_table disk db_dir schema i ≡ ok (tree, next_id)
    → Indexes tree (located i 0 rows)
      × Unused next_id (located i 0 rows)
      × (next_id ≤ uint64_max)
      × All (HasId i) rows
      × (1 ≤ next_id)
unfolding build_id_index_for_table
build_id_index-Indexes disk db_dir schema i next_id tree rows e f h g =
    subst (IndexResult i rows)
      (sym (
          ap built_index (
            scan-path (build_id_index_callback i) (length schema.columns) disk db_dir
              schema.table_name rows initial_state e f h))
        ∙ g)
      (built_index-result i rows _ (
        run_rows-Built i (length schema.columns) 0 rows [] initial_state
          (Indexes-init, λ j h. scan_leaf-nil j, omega arith)))
