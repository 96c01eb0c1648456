-- ===== src/Runtime/NextId.antt =====
-- The next id that `build_id_index_for_table` of src/runtime.c returns is one more than the greatest
-- id of the file.
use bptree_sql_engine.Prelude.{
  ℕ, ◌+◌, ◌%◌, ◌^◌, ◌≤◌, ◌≡◌, ◌≢◌, refl, sym, ◌∙◌, subst, true, false, not, ◌||◌, some, ◌⊎◌, inl,
  inr, List, [], ◌∷◌, ◌++◌, append_assoc, append-nil, arith, ltb, ◌==◌, ==→eq, length, Result, ok,
  err, Bool-cases, Option-cases,
}
use bptree_sql_engine.Bptree.Node.{Tree}
use bptree_sql_engine.Bptree.Insert.{TreeError}
use bptree_sql_engine.Storage.Row.{Row, write_row}
use bptree_sql_engine.Storage.Table.{StorageError, resume}
use bptree_sql_engine.Storage.ScanLaws.{run_rows}
use bptree_sql_engine.Runtime.Id.{uint64_max}
use bptree_sql_engine.Runtime.Index.{
  BuildState, stored_id, max_seen, record_id, build_id_index_callback, initial_state, built_index,
}
use bptree_sql_engine.Runtime.Built.{stored_id-bound}

-- Some row stores the id.
abbrev pub HasStored : ℕ → ℕ → List Row → Type 0
HasStored i id [] = ⊥
HasStored i id (row ∷ rows) = (stored_id i row ≡ some id) ⊎ HasStored i id rows

pub HasStored-last :
    (i id : ℕ) (rows : List Row) (row : Row)
    → stored_id i row ≡ some id
    → HasStored i id (rows ++ row ∷ [])
HasStored-last i id [] row e = inl e
HasStored-last i id (r ∷ rows) row e = inr (HasStored-last i id rows row e)

HasStored-append :
    (i id : ℕ) (rows more : List Row) → HasStored i id rows → HasStored i id (rows ++ more)
HasStored-append i id (row ∷ rows) more (inl e) = inl e
HasStored-append i id (row ∷ rows) more (inr h) = inr (HasStored-append i id rows more h)
HasStored-append i id [] more h = absurd h

pub HasStored-bound : (i id : ℕ) (rows : List Row) → HasStored i id rows → id ≤ uint64_max
HasStored-bound i id [] h = absurd h
HasStored-bound i id (row ∷ rows) (inl e) = (stored_id-bound i id row e).1
HasStored-bound i id (row ∷ rows) (inr h) = HasStored-bound i id rows h

no_wrap : (m : ℕ) → m ≤ uint64_max → m ≢ uint64_max → m + 1 ≡ (m + 1) % 2 ^ 64
no_wrap m h differs = elim (Bool-cases (m == uint64_max)) [
  | inl e ↦ absurd (differs (==→eq m uint64_max e))
  | inr e ↦ ground arith
]

-- The next id of a table with these rows: 1, or the one behind an id that is stored, which wraps
-- round.
abbrev pub Follows : ℕ → ℕ → List Row → Type 0
Follows i next_id rows =
    ((rows ≡ []) × (next_id ≡ 1)) ⊎ ((id : ℕ) × HasStored i id rows × (next_id ≡ (id + 1) % 2 ^ 64))

-- What the scan has seen: no row yet, or a row that stores `max_id`.
abbrev pub Seen : ℕ → List Row → BuildState → Type 0
Seen i rows state =
    ((state.saw_row ≡ false) × (rows ≡ []))
    ⊎ ((state.saw_row ≡ true) × HasStored i state.max_id rows)

abbrev pub SeenResult : ℕ → List Row → Result StorageError BuildState → Type 0
SeenResult i rows (ok state) = Seen i rows state
SeenResult i rows (err e) = Unit

max_seen-HasStored :
    (i id : ℕ) (rows : List Row) (row : Row) (state : BuildState)
    → stored_id i row ≡ some id
    → Seen i rows state
    → HasStored i (max_seen state id) (rows ++ row ∷ [])
max_seen-HasStored i id rows row state e s =
    elim (Bool-cases (not state.saw_row || ltb state.max_id id)) [
      | inl f ↦ rw f (HasStored-last i id rows row e)
      | inr f ↦ rw f (older s f)
    ]
  where
    older :
        Seen i rows state
        → (not state.saw_row || ltb state.max_id id) ≡ false
        → HasStored i state.max_id (rows ++ row ∷ [])
    older (inl (g, none_yet)) f = absurd (cc (f, g))
    older (inr (g, h)) f = HasStored-append i state.max_id rows (row ∷ []) h

module _ (i n : ℕ) where
  recorded-SeenResult :
      (id : ℕ) (seen : List Row) (row : Row) (rows : List Row) (state : BuildState)
      (k : BuildState → Result StorageError BuildState)
      → stored_id i row ≡ some id
      → Seen i seen state
      → ((state' : BuildState)
          → Seen i (seen ++ row ∷ []) state'
          → SeenResult i ((seen ++ row ∷ []) ++ rows) (k state'))
      → (r : Result TreeError Tree)
      → SeenResult i (seen ++ row ∷ rows) (resume (record_id state id r) k)
  recorded-SeenResult id seen row rows state k e s later (err x) = tt
  recorded-SeenResult id seen row rows state k e s later (ok tree) =
      let state' : BuildState = record {
        tree = tree;
        max_id = max_seen state id;
        saw_row = true;
      } in
      subst (λ l. SeenResult i l (k state')) (append_assoc seen (row ∷ []) rows)
        (later state' (inr (refl, max_seen-HasStored i id seen row state e s)))

  pub run_rows-Seen :
      (offset : ℕ) (rows seen : List Row) (state : BuildState)
      → Seen i seen state
      → SeenResult i (seen ++ rows) (run_rows (build_id_index_callback i) n offset rows state)
  unfolding build_id_index_callback
  run_rows-Seen offset [] seen state s = subst (λ l. Seen i l state) (sym (append-nil seen)) s
  run_rows-Seen offset (row ∷ rows) seen state s = elim (Option-cases (stored_id i row)) [
    | inl e ↦ rw (e, build_id_index_callback) tt
    | inr (id, e) ↦
        rw (e, build_id_index_callback)
          (recorded-SeenResult id seen row rows state _ e s
            (λ state' s'.
              run_rows-Seen (offset + length (write_row row)) rows (seen ++ row ∷ []) state' s')
            _)
  ]

built_index-next :
    (state : BuildState) (tree : Tree) (next_id : ℕ)
    → built_index (ok state) ≡ ok (tree, next_id)
    → ((state.saw_row ≡ false) × (next_id ≡ 1))
      ⊎ ((state.saw_row ≡ true) × (state.max_id ≢ uint64_max) × (next_id ≡ state.max_id + 1))
built_index-next state tree next_id e = elim (Bool-cases state.saw_row) [
  | inl f ↦ elim (Bool-cases (state.max_id == uint64_max)) [
    | inl g ↦ absurd (cc (rw (f, g) at e))
    | inr g ↦ inr (f, (λ h. ground arith), cc (rw (f, g) at e))
  ]
  | inr f ↦ inl (f, cc (rw f at e))
]

pub built_index-Follows :
    (i n : ℕ) (rows : List Row) (tree : Tree) (next_id : ℕ)
    → built_index (run_rows (build_id_index_callback i) n 0 rows initial_state) ≡ ok (tree, next_id)
    → Follows i next_id rows
built_index-Follows i n rows tree next_id e =
    follows (run_rows (build_id_index_callback i) n 0 rows initial_state)
      (run_rows-Seen i n 0 rows [] initial_state (inl (refl, refl))) e
  where
    follows :
        (r : Result StorageError BuildState)
        → SeenResult i rows r
        → built_index r ≡ ok (tree, next_id)
        → Follows i next_id rows
    follows (err x) s e = absurd cc
    follows (ok state) (inl (f, no_rows)) e = elim (built_index-next state tree next_id e) [
      | inl (g, one) ↦ inl (no_rows, one)
      | inr (g, differs, next) ↦ absurd (cc (f, g))
    ]
    follows (ok state) (inr (f, h)) e = elim (built_index-next state tree next_id e) [
      | inl (g, one) ↦ absurd (cc (f, g))
      | inr (g, differs, next) ↦ inr (
        state.max_id,
        h,
        next ∙ no_wrap state.max_id (HasStored-bound i state.max_id rows h) differs,
      )
    ]
