-- ===== src/Bptree/IdMap.antt =====
-- What the runtime and the executor rely on of the index: a map from ids to row offsets, to which
-- entries are added and from which none is removed. The B+Tree of src/bptree.c is one.
use bptree_sql_engine.Prelude.{
  ℕ, ◌≡◌, refl, Option, none, some, ◌==◌, if◌then◌else◌, Result, ok, err,
}
use bptree_sql_engine.Bptree.Node.{Tree}
use bptree_sql_engine.Bptree.Search.{scan_leaf, bptree_search}
use bptree_sql_engine.Bptree.Insert.{TreeError, duplicate_key, bptree_init, bptree_insert}
use bptree_sql_engine.Bptree.Invariant.{IsTree}
use bptree_sql_engine.Bptree.Laws.{insert-IsTree, search-insert, insert_fresh, insert_duplicate}

-- The operations with their laws. A caller sees neither nodes nor splits.
pub record IdMap (T : Type 0) : Type 1 where
  pub init : T
  pub insert : T → ℕ → ℕ → Result TreeError T
  pub search : T → ℕ → Option ℕ
  pub IsValid : T → Type 0
  pub valid_init : IsValid init
  pub search_init : (j : ℕ) → search init j ≡ none
  pub valid_insert :
      (t t' : T) (key offset : ℕ) → IsValid t → insert t key offset ≡ ok t' → IsValid t'
  pub search_insert :
      (t t' : T) (key offset j : ℕ)
      → IsValid t
      → insert t key offset ≡ ok t'
      → search t' j ≡ (if key == j then some offset else search t j)
  pub fresh_insert :
      (t : T) (key offset : ℕ)
      → IsValid t
      → search t key ≡ none
      → (t' : T) × (insert t key offset ≡ ok t')
  pub duplicate_insert :
      (t : T) (key offset found : ℕ)
      → IsValid t
      → search t key ≡ some found
      → insert t key offset ≡ err (duplicate_key key)

pub search-init : (j : ℕ) → bptree_search bptree_init j ≡ none
unfolding bptree_init bptree_search scan_leaf
search-init j = refl

pub init-IsTree : IsTree bptree_init
unfolding bptree_init
init-IsTree = refl

-- The B+Tree keeps what the interface promises.
abbrev pub bptree_id_map : IdMap Tree
bptree_id_map = record {
  init = bptree_init;
  insert = bptree_insert;
  search = bptree_search;
  IsValid = IsTree;
  valid_init = init-IsTree;
  search_init = search-init;
  valid_insert = insert-IsTree;
  search_insert = search-insert;
  fresh_insert = insert_fresh;
  duplicate_insert = insert_duplicate;
}
