-- ===== src/Runtime/Complete.antt =====
-- When `build_id_index_for_table` of src/runtime.c succeeds.
use bptree_sql_engine.Prelude.{
  ℕ, ◌+◌, ◌≡◌, refl, sym, ap, ◌∙◌, subst, true, false, none, some, List, [], ◌∷◌, ◌++◌,
  append_assoc, arith, ◌==◌, ==→eq, Bytes, length, All, ok, Bool-cases, inl, inr,
}
use bptree_sql_engine.Bptree.Node.{Items, Tree}
use bptree_sql_engine.Bptree.Search.{scan_leaf}
use bptree_sql_engine.Bptree.IdMap.{bptree_id_map}
use bptree_sql_engine.Storage.Row.{Row, write_row}
use bptree_sql_engine.Storage.File.{Disk}
use bptree_sql_engine.Storage.Table.{data_path}
use bptree_sql_engine.Storage.TableLaws.{IsRow, write_rows}
use bptree_sql_engine.Storage.ScanLaws.{run_rows, scan-path}
use bptree_sql_engine.Schema.Load.{TableSchema}
use bptree_sql_engine.Runtime.Id.{uint64_max}
use bptree_sql_engine.Runtime.Index.{
  BuildState, max_seen, build_id_index_callback, initial_state, built_index,
  build_id_index_for_table,
}
use bptree_sql_engine.Runtime.Located.{entry_of, located, Distinct, Indexes-init, scan_leaf-nil}
use bptree_sql_engine.Runtime.Built.{Built, HasId, Built-record, stored_id-bound}
use bptree_sql_engine.Runtime.NextId.{HasStored, Seen, SeenResult, run_rows-Seen}

scan_leaf-skip :
    (k key o : ℕ) (xs : Items) → (key == k) ≡ false → scan_leaf ((k, o) ∷ xs) key ≡ scan_leaf xs key
unfolding scan_leaf
scan_leaf-skip k key o xs e = ground arith

-- A key that is absent is not the key of an entry.
absent :
    (xs ys : Items) (key offset k : ℕ)
    → scan_leaf (xs ++ (key, offset) ∷ ys) k ≡ none
    → (key == k) ≡ false
unfolding scan_leaf
absent [] ys key offset k e = ground arith
absent ((a, o) ∷ xs) ys key offset k e = elim (Bool-cases (a == k)) [
  | inl f ↦ absurd (cc (rw f at e))
  | inr f ↦ absent xs ys key offset k (rw f at e)
]

-- A key does not stand in front of another entry with this key.
Distinct-middle :
    (xs ys : Items) (key offset : ℕ) → Distinct (xs ++ (key, offset) ∷ ys) → scan_leaf xs key ≡ none
Distinct-middle [] ys key offset d = scan_leaf-nil key
Distinct-middle ((k, o) ∷ xs) ys key offset d =
    scan_leaf-skip k key o xs (absent xs ys key offset k d.0) ∙ Distinct-middle xs ys key offset d.1

module _ (i n : ℕ) where
  -- The scan builds an index if every row has an id, and no id stands twice.
  run_rows_complete :
      (offset : ℕ) (rows : List Row) (xs : Items) (state : BuildState)
      → Built xs state
      → All (HasId i) rows
      → Distinct (xs ++ located i offset rows)
      → (state' : BuildState) × (run_rows (build_id_index_callback i) n offset rows state
          ≡ ok state')
  unfolding build_id_index_callback
  run_rows_complete offset [] xs state b h d = (state, refl)
  run_rows_complete offset (row ∷ rows) xs state b ((id, e), h) d =
      let later = located i (offset + length (write_row row)) rows in
      let distinct : Distinct (xs ++ (id, offset) ∷ later) =
        subst (λ o. Distinct (xs ++ entry_of o offset later)) e d in
      let new : scan_leaf xs id ≡ none = Distinct-middle xs later id offset distinct in
      let (tree, inserted) =
        bptree_id_map.fresh_insert state.tree id offset b.0.shape (b.0.answers id ∙ new) in
      let state' : BuildState = record {
        tree = tree;
        max_id = max_seen state id;
        saw_row = true;
      } in
      let (last, run) =
        run_rows_complete (offset + length (write_row row)) rows (xs ++ (id, offset) ∷ []) state'
          (Built-record state xs id offset tree (stored_id-bound i id row e).1 b inserted) h
          (subst Distinct (sym (append_assoc xs ((id, offset) ∷ []) later)) distinct) in
      (last, rw (e, build_id_index_callback, inserted) run)

  built_index_complete :
      (rows : List Row) (state : BuildState)
      → Seen i rows state
      → (HasStored i uint64_max rows → ⊥)
      → (index : Tree × ℕ) × (built_index (ok state) ≡ ok index)
  built_index_complete rows state (inl (e, no_rows)) h = ((state.tree, 1), rw e refl)
  built_index_complete rows state (inr (e, stored)) h =
      elim (Bool-cases (state.max_id == uint64_max)) [
        | inl f ↦
            absurd (h (subst (λ k. HasStored i k rows) (==→eq state.max_id uint64_max f) stored))
        | inr f ↦ ((state.tree, state.max_id + 1), rw (e, f) refl)
      ]

  -- The rows of a file can be indexed if every row has an id, no id stands twice, and none is the
  -- greatest 64-bit number.
  pub run_rows-index_complete :
      (rows : List Row)
      → All (HasId i) rows
      → Distinct (located i 0 rows)
      → (HasStored i uint64_max rows → ⊥)
      → (index : Tree × ℕ) × (built_index
            (run_rows (build_id_index_callback i) n 0 rows initial_state)
          ≡ ok index)
  run_rows-index_complete rows ids distinct no_last =
      let (state, run) =
        run_rows_complete 0 rows [] initial_state
          (Indexes-init, λ j h. scan_leaf-nil j, omega arith) ids distinct in
      let seen : SeenResult i rows (ok state) =
        subst (SeenResult i rows) run
          (run_rows-Seen i n 0 rows [] initial_state (inl (refl, refl))) in
      let (index, built) = built_index_complete rows state seen no_last in
      (index, ap built_index run ∙ built)

-- The index of a file of rows is built, without an error, if every row has a canonical positive id,
-- no id stands twice, and none is the greatest 64-bit number, which would leave no next id.
pub build_id_index_complete :
    (disk : Disk) (db_dir : Bytes) (schema : TableSchema) (i : ℕ) (rows : List Row)
    → disk.refused (data_path db_dir schema.table_name) ≡ false
    → disk.file (data_path db_dir schema.table_name) ≡ some (write_rows rows)
    → All (IsRow (length schema.columns)) rows
    → All (HasId i) rows
    → Distinct (located i 0 rows)
    → (HasStored i uint64_max rows → ⊥)
    → (index : Tree × ℕ) × (build_id_index_for_table disk db_dir schema i ≡ ok index)
unfolding build_id_index_for_table
build_id_index_complete disk db_dir schema i rows e f h ids distinct no_last =
    let (index, built) =
      run_rows-index_complete i (length schema.columns) rows ids distinct no_last in
    (
      index,
      ap built_index (
            scan-path (build_id_index_callback i) (length schema.columns) disk db_dir
              schema.table_name rows initial_state e f h)
          ∙ built,
    )
