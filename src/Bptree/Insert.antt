-- ===== src/Bptree/Insert.antt =====
-- Insertion into the B+Tree of src/bptree.c.
--
-- The source walks down to a leaf and, while nodes overflow, up again over the parent pointers. Here
-- the way up is the return from the recursion that walked down: `insert_node` returns what has become
-- of a node, and `insert_into_parent` takes it at the parent. No parent pointer is stored, so none
-- can be wrong; the order of the leaf chain is the order of the leaves.
use bptree_sql_engine.Prelude.{
  ℕ, zero, suc, ◌+◌, ◌/◌, ◌≡◌, arith, Bool, true, false, Option, none, some, [], ◌∷◌, ltb, leb,
  ◌==◌, if◌then◌else◌, length, take, drop, insert_at, Result, ok, err,
}
use bptree_sql_engine.Bptree.Node.{
  Items, Node, leaf, internal, Children, last, more, Tree, count, max_keys,
}
use bptree_sql_engine.Bptree.Search.{child_index}

-- What an insertion has made of a node: it grew, or it is split in two at a separator, or it is left
-- as it was because the key is there already.
pub data Outcome : Type 0 where
  grown : Node → Outcome
  split : Node → ℕ → Node → Outcome
  duplicate : Outcome

-- The loop that looks for the first key which is not less than `key`.
unfoldable pub insert_index : Items → ℕ → ℕ
insert_index [] key = zero
insert_index ((k, _) ∷ xs) key = elim (ltb k key) [
  | true ↦ suc (insert_index xs key)
  | false ↦ zero
]

-- `index < key_count && keys[index] == key`
unfoldable pub key_at_is : Items → ℕ → ℕ → Bool
key_at_is [] index key = false
key_at_is ((k, _) ∷ xs) zero key = k == key
key_at_is (_ ∷ xs) (suc index) key = key_at_is xs index key

unfoldable pub insert_into_leaf : Items → ℕ → ℕ → Outcome
insert_into_leaf xs key offset =
    let index = insert_index xs key in
    if key_at_is xs index key then duplicate else grown (leaf (insert_at index (key, offset) xs))

-- `keys[0]` of the new leaf, which holds at least one key.
abbrev pub first_key : Items → ℕ
first_key [] = 0
first_key ((k, _) ∷ xs) = k

abbrev pub divide : Items → ℕ → Outcome
divide temp left_count =
    split (leaf (take left_count temp)) (first_key (drop left_count temp))
      (leaf (drop left_count temp))

unfoldable pub split_leaf_and_insert : Items → ℕ → ℕ → Outcome
split_leaf_and_insert xs key offset =
    let index = insert_index xs key in
    if key_at_is xs index key
    then duplicate
    else divide (insert_at index (key, offset) xs) ((length xs + 1) / 2)

-- The left half of a split child is the child itself, changed in place.
unfoldable pub set_child : Children → ℕ → Node → Children
set_child (last c) i d = last d
set_child (more c k s) zero d = more d k s
set_child (more c k s) (suc i) d = more c k (set_child s i d)

unfoldable pub insert_into_internal_node : Children → ℕ → Node → ℕ → Node → Children
insert_into_internal_node (last c) i left separator right = more left separator (last right)
insert_into_internal_node (more c k s) zero left separator right =
    more left separator (more right k s)
insert_into_internal_node (more c k s) (suc i) left separator right =
    more c k (insert_into_internal_node s i left separator right)

-- The first `n` keys of the temporary arrays, with the children round them.
unfoldable pub take_children : ℕ → Children → Children
take_children zero (last c) = last c
take_children zero (more c k s) = last c
take_children (suc n) (last c) = last c
take_children (suc n) (more c k s) = more c k (take_children n s)

-- `temp_keys[n]`, which exists where it is read.
unfoldable pub key_at : ℕ → Children → ℕ
key_at n (last c) = 0
key_at zero (more c k s) = k
key_at (suc n) (more c k s) = key_at n s

-- The children behind `n` keys, with the keys between them.
unfoldable pub drop_children : ℕ → Children → Children
drop_children zero s = s
drop_children (suc n) (last c) = last c
drop_children (suc n) (more c k s) = drop_children n s

unfoldable pub divide_children : Children → ℕ → Outcome
divide_children temp split_index =
    split (internal (take_children split_index temp)) (key_at split_index temp)
      (internal (drop_children (suc split_index) temp))

unfoldable pub split_internal_and_insert : Children → ℕ → Node → ℕ → Node → Outcome
unfolding divide_children
split_internal_and_insert s i left separator right =
    divide_children (insert_into_internal_node s i left separator right) ((count s + 1) / 2)

-- What becomes of a parent with the children `s` when its child `i` is left with the outcome.
unfoldable pub insert_into_parent : Children → ℕ → Outcome → Outcome
insert_into_parent s i (grown child) = grown (internal (set_child s i child))
insert_into_parent s i (split left separator right) =
    if ltb (count s) max_keys
    then grown (internal (insert_into_internal_node s i left separator right))
    else split_internal_and_insert s i left separator right
insert_into_parent s i duplicate = duplicate

unfoldable mutual
  pub insert_node : Node → ℕ → ℕ → Outcome
  insert_node (leaf xs) key offset =
      if ltb (length xs) max_keys
      then insert_into_leaf xs key offset
      else split_leaf_and_insert xs key offset
  insert_node (internal s) key offset =
      insert_into_parent s (child_index s key) (insert_into_child s key offset)

  -- The insertion at the child that `find_leaf_node` takes.
  pub insert_into_child : Children → ℕ → ℕ → Outcome
  insert_into_child (last c) key offset = insert_node c key offset
  insert_into_child (more c k s) key offset = elim (leb k key) [
    | true ↦ insert_into_child s key offset
    | false ↦ insert_node c key offset
  ]

pub insert_into_child_later :
    (c : Node) (k : ℕ) (s : Children) (key offset : ℕ)
    → leb k key ≡ true
    → insert_into_child (more c k s) key offset ≡ insert_into_child s key offset
unfolding insert_node
insert_into_child_later c k s key offset e = ground arith

pub insert_into_child_here :
    (c : Node) (k : ℕ) (s : Children) (key offset : ℕ)
    → leb k key ≡ false
    → insert_into_child (more c k s) key offset ≡ insert_node c key offset
unfolding insert_node
insert_into_child_here c k s key offset e = ground arith

pub data TreeError : Type 0 where
  duplicate_key : ℕ → TreeError
  nonzero_count_of_empty key_count_overflow keys_not_increasing leaf_key_out_of_range : TreeError
  leaf_depth_mismatch invalid_child_range chain_not_sorted key_count_mismatch : TreeError

abbrev pub empty : Tree
empty = record { root = none; key_count = 0 }

-- `bptree_init`, and what `bptree_destroy` leaves
unfoldable pub bptree_init : Tree
bptree_init = empty

-- The root's outcome: a split root gets a new root above it.
unfoldable pub replace_root : Tree → ℕ → Outcome → Result TreeError Tree
replace_root tree key (grown root) =
    ok (record { root = some root; key_count = tree.key_count + 1 })
replace_root tree key (split left separator right) = ok (record {
  root = some (internal (more left separator (last right)));
  key_count = tree.key_count + 1;
})
replace_root tree key duplicate = err (duplicate_key key)

insert_at_root : Tree → Option Node → ℕ → ℕ → Result TreeError Tree
insert_at_root tree none key offset =
    ok (record { root = some (leaf ((key, offset) ∷ [])); key_count = 1 })
insert_at_root tree (some root) key offset = replace_root tree key (insert_node root key offset)

unfoldable pub bptree_insert : Tree → ℕ → ℕ → Result TreeError Tree
unfolding insert_at_root
bptree_insert tree key offset = insert_at_root tree tree.root key offset
