-- ===== src/Bptree/Invariant.antt =====
-- What a well-formed B+Tree of src/bptree.c is, as predicates.
use bptree_sql_engine.Prelude.{ℕ, suc, ◌≤◌, ◌<◌, ◌≡◌, Option, none, some, [], ◌∷◌, length}
use bptree_sql_engine.Bptree.Node.{
  Items, Node, leaf, internal, Children, last, more, Tree, count, items, max_keys,
}
use bptree_sql_engine.Bptree.Validate.{Bound}

abbrev pub AtLeast : Bound → ℕ → Type 0
AtLeast none key = Unit
AtLeast (some lower) key = lower ≤ key

abbrev pub Below : Bound → ℕ → Type 0
Below none key = Unit
Below (some upper) key = key < upper

abbrev pub IsRange : Bound → Bound → Type 0
IsRange none upper = Unit
IsRange (some lower) none = Unit
IsRange (some lower) (some upper) = lower < upper

-- The keys strictly increase and lie in the range.
abbrev pub IsSorted : Bound → Bound → Items → Type 0
IsSorted lower upper [] = Unit
IsSorted lower upper ((k, _) ∷ xs) =
    AtLeast lower k × Below upper k × IsSorted (some (suc k)) upper xs

-- A node at `depth` in a tree whose leaves are all at `bottom`: no node is overfull, the keys are
-- sorted, and the separators bound the subtrees.
abbrev mutual
  pub IsNode : Bound → Bound → ℕ → ℕ → Node → Type 0
  IsNode lower upper depth bottom (leaf xs) =
      (depth ≡ bottom) × (length xs ≤ max_keys) × IsSorted lower upper xs
  IsNode lower upper depth bottom (internal s) =
      (count s ≤ max_keys) × AreChildren lower upper (suc depth) bottom s

  pub AreChildren : Bound → Bound → ℕ → ℕ → Children → Type 0
  AreChildren lower upper depth bottom (last c) =
      IsRange lower upper × IsNode lower upper depth bottom c
  AreChildren lower upper depth bottom (more c k s) =
      IsRange lower (some k)
      × IsNode lower (some k) depth bottom c
      × AreChildren (some k) upper depth bottom s

-- The root's invariant, with the number of keys that the tree records.
abbrev pub IsRoot : Option Node → ℕ → Type 0
IsRoot none key_count = key_count ≡ 0
IsRoot (some root) key_count =
    (bottom : ℕ) × IsNode none none 0 bottom root × (length (items root) ≡ key_count)

abbrev pub IsTree : Tree → Type 0
IsTree tree = IsRoot tree.root tree.key_count
