-- ===== src/Bptree/HalfFull.antt =====
-- Nodes that are at least half full, and what an insertion makes of them.

use bptree_sql_engine.Prelude.{
  ℕ, zero, suc, ◌+◌, ◌/◌, ◌≤◌, ◌≡◌, arith, ltb, leb, length, length-take, length-drop,
  length-insert_at, insert_at, take, drop, Bool-cases, inl, inr,
}
use bptree_sql_engine.Bptree.Node.{
  Items, Node, leaf, internal, Children, last, more, count, max_keys,
}
use bptree_sql_engine.Bptree.Search.{child_index}
use bptree_sql_engine.Bptree.Insert.{
  Outcome, grown, split, duplicate, key_at_is, insert_index, insert_into_leaf,
  split_leaf_and_insert, set_child, insert_into_internal_node, take_children, drop_children,
  divide_children, split_internal_and_insert, insert_into_parent, insert_node, insert_into_child,
}
use bptree_sql_engine.Bptree.Shape.{
  count-insert_into_internal_node, count-set_child, count-take_children, count-drop_children,
}

abbrev mutual
  pub IsFilled : Node → Type 0
  IsFilled (leaf xs) = 32 ≤ length xs
  IsFilled (internal s) = (31 ≤ count s) × AreFilled s

  pub AreFilled : Children → Type 0
  AreFilled (last c) = IsFilled c
  AreFilled (more c k s) = IsFilled c × AreFilled s

abbrev pub FilledOutcome : Outcome → Type 0
FilledOutcome (grown n) = IsFilled n
FilledOutcome (split l k r) = IsFilled l × IsFilled r
FilledOutcome duplicate = Unit

-- The same of the children with the outcome of child `i` in place.
abbrev pub FilledAt : Children → ℕ → Outcome → Type 0
FilledAt s i (grown d) = AreFilled (set_child s i d)
FilledAt s i (split l k r) = AreFilled (insert_into_internal_node s i l k r)
FilledAt s i duplicate = Unit

set_child-AreFilled :
    (s : Children) (i : ℕ) (d : Node) → AreFilled s → IsFilled d → AreFilled (set_child s i d)
unfolding set_child
set_child-AreFilled (last c) i d h f = f
set_child-AreFilled (more c k s) zero d h f = (f, h.1)
set_child-AreFilled (more c k s) (suc i) d h f = (h.0, set_child-AreFilled s i d h.1 f)

insert-AreFilled :
    (s : Children) (i : ℕ) (l : Node) (m : ℕ) (r : Node)
    → AreFilled s
    → IsFilled l
    → IsFilled r
    → AreFilled (insert_into_internal_node s i l m r)
unfolding insert_into_internal_node
insert-AreFilled (last c) i l m r h f g = (f, g)
insert-AreFilled (more c k s) zero l m r h f g = (f, (g, h.1))
insert-AreFilled (more c k s) (suc i) l m r h f g = (h.0, insert-AreFilled s i l m r h.1 f g)

pub FilledAt-outcome :
    (s : Children) (i : ℕ) (o : Outcome) → AreFilled s → FilledOutcome o → FilledAt s i o
FilledAt-outcome s i (grown d) h f = set_child-AreFilled s i d h f
FilledAt-outcome s i (split l k r) h f = insert-AreFilled s i l k r h f.0 f.1
FilledAt-outcome s i duplicate h f = tt

take_children-AreFilled : (n : ℕ) (s : Children) → AreFilled s → AreFilled (take_children n s)
unfolding take_children
take_children-AreFilled zero (last c) h = h
take_children-AreFilled zero (more c k s) h = h.0
take_children-AreFilled (suc n) (last c) h = h
take_children-AreFilled (suc n) (more c k s) h = (h.0, take_children-AreFilled n s h.1)

drop_children-AreFilled : (n : ℕ) (s : Children) → AreFilled s → AreFilled (drop_children n s)
unfolding drop_children
drop_children-AreFilled zero s h = h
drop_children-AreFilled (suc n) (last c) h = h
drop_children-AreFilled (suc n) (more c k s) h = drop_children-AreFilled n s h.1

-- A node that is split has halves that are filled, whatever it was before.
pub split_leaf-FilledOutcome :
    (xs : Items) (key offset : ℕ)
    → max_keys ≤ length xs
    → FilledOutcome (split_leaf_and_insert xs key offset)
unfolding split_leaf_and_insert
split_leaf-FilledOutcome xs key offset h =
    elim (Bool-cases (key_at_is xs (insert_index xs key) key)) [
      | inl e ↦ rw e tt
      | inr e ↦ rw e (half, other)
    ]
  where
    whole : length (insert_at (insert_index xs key) (key, offset) xs) ≡ suc (length xs)
    whole = length-insert_at (insert_index xs key) (key, offset) xs

    half :
        32 ≤ length (take ((length xs + 1) / 2) (insert_at (insert_index xs key) (key, offset) xs))
    half = omega (
      arith,
      whole,
      length-take ((length xs + 1) / 2) (insert_at (insert_index xs key) (key, offset) xs),
    )

    other :
        32 ≤ length (drop ((length xs + 1) / 2) (insert_at (insert_index xs key) (key, offset) xs))
    other = omega (
      arith,
      whole,
      length-drop ((length xs + 1) / 2) (insert_at (insert_index xs key) (key, offset) xs),
    )

pub split_internal-FilledOutcome :
    (s : Children) (i : ℕ) (l : Node) (m : ℕ) (r : Node)
    → max_keys ≤ count s
    → AreFilled (insert_into_internal_node s i l m r)
    → FilledOutcome (split_internal_and_insert s i l m r)
unfolding split_internal_and_insert divide_children
split_internal-FilledOutcome s i l m r h f =
    let n = (count s + 1) / 2 in
    let temp = insert_into_internal_node s i l m r in
    let whole = count-insert_into_internal_node s i l m r in
    (
      (omega (arith, whole, count-take_children n temp), take_children-AreFilled n temp f),
      (
        omega (arith, whole, count-drop_children (suc n) temp),
        drop_children-AreFilled (suc n) temp f,
      ),
    )

insert_into_parent-FilledOutcome :
    (s : Children) (i : ℕ) (o : Outcome)
    → 31 ≤ count s
    → FilledAt s i o
    → FilledOutcome (insert_into_parent s i o)
unfolding insert_into_parent
insert_into_parent-FilledOutcome s i (grown d) h f = (omega (arith, count-set_child s i d), f)
insert_into_parent-FilledOutcome s i (split l k r) h f =
    elim (Bool-cases (ltb (count s) max_keys)) [
      | inl e ↦ rw e (omega (arith, count-insert_into_internal_node s i l k r), f)
      | inr e ↦ rw e (split_internal-FilledOutcome s i l k r (ground arith) f)
    ]
insert_into_parent-FilledOutcome s i duplicate h f = tt

insert_into_leaf-FilledOutcome :
    (xs : Items) (key offset : ℕ) → 32 ≤ length xs → FilledOutcome (insert_into_leaf xs key offset)
unfolding insert_into_leaf
insert_into_leaf-FilledOutcome xs key offset h =
    elim (Bool-cases (key_at_is xs (insert_index xs key) key)) [
      | inl e ↦ rw e tt
      | inr e ↦ rw e (omega (arith, length-insert_at (insert_index xs key) (key, offset) xs))
    ]

module _ (key offset : ℕ) where
  mutual
    unfolding insert_node

    pub insert_node-FilledOutcome :
        (n : Node) → IsFilled n → FilledOutcome (insert_node n key offset)
    insert_node-FilledOutcome (leaf xs) h = elim (Bool-cases (ltb (length xs) max_keys)) [
      | inl e ↦ rw e (insert_into_leaf-FilledOutcome xs key offset h)
      | inr e ↦ rw e (split_leaf-FilledOutcome xs key offset (ground arith))
    ]
    insert_node-FilledOutcome (internal s) h =
        insert_into_parent-FilledOutcome s (child_index s key) _ h.0
          (FilledAt-outcome s (child_index s key) _ h.1 (insert_into_child-FilledOutcome s h.1))

    pub insert_into_child-FilledOutcome :
        (s : Children) → AreFilled s → FilledOutcome (insert_into_child s key offset)
    insert_into_child-FilledOutcome (last c) h = insert_node-FilledOutcome c h
    insert_into_child-FilledOutcome (more c k s) h = elim (Bool-cases (leb k key)) [
      | inl e ↦ rw (e, insert_into_child, FilledOutcome) (insert_into_child-FilledOutcome s h.1)
      | inr e ↦ rw (e, insert_into_child, FilledOutcome) (insert_node-FilledOutcome c h.0)
    ]
