-- ===== src/Bptree/Examples.antt =====
-- Runs of the B+Tree of src/bptree.c: a full leaf that an insertion splits.
use bptree_sql_engine.Prelude.{
  ℕ, zero, suc, ◌+◌, ◌*◌, ◌^◌, ◌≤◌, ◌<◌, ◌≡◌, refl, none, some, [], ◌∷◌, Result, ok, err, arith,
}
use bptree_sql_engine.Bptree.Node.{Items, Node, leaf, internal, last, more, Tree}
use bptree_sql_engine.Bptree.Search.{scan_leaf, bptree_search, find_leaf_node}
use bptree_sql_engine.Bptree.Insert.{
  empty, duplicate_key, TreeError, bptree_init, insert_into_leaf, bptree_insert, replace_root,
  insert_node, split_leaf_and_insert, key_at_is, insert_index,
}
use bptree_sql_engine.Bptree.Validate.{
  bptree_validate, validate_node, increasing, all_in_range, check_depth, walk_chain,
}
use bptree_sql_engine.Bptree.Invariant.{IsNode, IsTree}
use bptree_sql_engine.Bptree.Sorted.{put}
use bptree_sql_engine.Bptree.Laws.{
  entries, search-insert, insert-IsTree, search-scan, insert_fresh, insert_duplicate,
  entries-insert,
}
use bptree_sql_engine.Bptree.Filled.{IsFilledTree, insert-IsFilledTree}
use bptree_sql_engine.Bptree.Height.{insert_all, insert_all-height}
use bptree_sql_engine.Bptree.Valid.{validate_complete, validate_sound}

-- The keys `key`, `key + 2` and so on.
abbrev evens : ℕ → ℕ → Items
evens zero key = []
evens (suc n) key = (key, key + 100) ∷ evens n (key + 2)

abbrev full : Tree
full = record { root = some (leaf (evens 63 0)); key_count = 63 }

abbrev tree_of : Result TreeError Tree → Tree
tree_of (ok tree) = tree
tree_of (err e) = empty

-- Two leaves below a root.
abbrev divided : Tree
unfolding bptree_insert
divided = tree_of (bptree_insert full 41 9)

full-IsTree : IsTree full
unfolding bptree_validate validate_node increasing all_in_range check_depth walk_chain
full-IsTree = validate_sound full refl

divided-insert : bptree_insert full 41 9 ≡ ok divided
unfolding divided replace_root insert_node split_leaf_and_insert key_at_is insert_index
divided-insert = refl

validate_sound_example : IsTree divided
unfolding divided bptree_validate replace_root insert_node split_leaf_and_insert key_at_is
    insert_index validate_node increasing all_in_range check_depth walk_chain
validate_sound_example = validate_sound divided refl

search-insert_example : bptree_search divided 41 ≡ some 9
unfolding bptree_search
search-insert_example = search-insert full divided 41 9 41 full-IsTree divided-insert

insert-IsTree_example : IsTree divided
insert-IsTree_example = insert-IsTree full divided 41 9 full-IsTree divided-insert

search-scan_example : bptree_search divided 60 ≡ scan_leaf (entries divided) 60
search-scan_example =
    search-scan divided 60 (insert-IsTree full divided 41 9 full-IsTree divided-insert)

insert_fresh_example : (tree : Tree) × (bptree_insert full 41 9 ≡ ok tree)
unfolding bptree_search scan_leaf find_leaf_node
insert_fresh_example = insert_fresh full 41 9 full-IsTree refl

insert_duplicate_example : bptree_insert full 40 9 ≡ err (duplicate_key 40)
unfolding bptree_search scan_leaf find_leaf_node
insert_duplicate_example = insert_duplicate full 40 9 140 full-IsTree refl

entries-insert_example : entries divided ≡ put 41 9 (evens 63 0)
entries-insert_example = entries-insert full divided 41 9 full-IsTree divided-insert

insert-IsFilledTree_example : IsFilledTree divided
insert-IsFilledTree_example = insert-IsFilledTree full divided 41 9 (omega arith) divided-insert

validate_complete_example : bptree_validate divided ≡ ok tt
validate_complete_example =
    validate_complete divided (insert-IsTree full divided 41 9 full-IsTree divided-insert)

abbrev divided_root : Node
divided_root = internal (more (leaf (evens 32 0)) 64 (last (leaf (evens 32 64))))

-- Sixty-four entries, whose last splits the root.
abbrev many : Tree
unfolding bptree_insert bptree_init replace_root insert_node insert_into_leaf split_leaf_and_insert
    key_at_is insert_index
many = tree_of (insert_all (evens 64 0) bptree_init)

insert_all-height_example :
    (bottom : ℕ) × IsNode none none 0 bottom divided_root × (0 < bottom → 2 * 32 ^ bottom ≤ 64)
unfolding many bptree_insert bptree_init replace_root insert_node insert_into_leaf
    split_leaf_and_insert key_at_is insert_index
insert_all-height_example = insert_all-height (evens 64 0) many divided_root refl refl
