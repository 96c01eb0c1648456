-- ===== src/Bptree/Shape.antt =====
-- Insertion keeps the tree well-formed.
use bptree_sql_engine.Prelude.{
  ℕ, zero, suc, ◌+◌, ◌≤◌, ◌≡◌, refl, some, arith, ltb, leb, length, Bool-cases, sym, subst, leb→le,
  ltb→lt, inl, inr,
}
use bptree_sql_engine.Bptree.Node.{Node, leaf, internal, Children, last, more, count, max_keys}
use bptree_sql_engine.Bptree.Search.{child_index, child_index_later, child_index_here}
use bptree_sql_engine.Bptree.Insert.{
  Outcome, grown, split, duplicate, set_child, insert_into_internal_node, take_children,
  drop_children, divide_children, split_internal_and_insert, insert_into_parent, insert_node,
  insert_into_child, insert_into_child_later, insert_into_child_here,
}
use bptree_sql_engine.Bptree.Validate.{Bound}
use bptree_sql_engine.Bptree.Invariant.{AtLeast, Below, IsNode, AreChildren}
use bptree_sql_engine.Bptree.Outcome.{
  IsOutcome, insert_into_leaf-IsOutcome, split_leaf_and_insert-IsOutcome, Fits, Fits-last,
  Fits-here, Fits-later, key_at_bounds, take_children-AreChildren, drop_children-AreChildren,
}

pub count-set_child : (s : Children) (i : ℕ) (d : Node) → count (set_child s i d) ≡ count s
unfolding set_child
count-set_child (last c) i d = refl
count-set_child (more c k s) zero d = refl
count-set_child (more c k s) (suc i) d = omega (arith, count-set_child s i d)

pub count-insert_into_internal_node :
    (s : Children) (i : ℕ) (l : Node) (m : ℕ) (r : Node)
    → count (insert_into_internal_node s i l m r) ≡ suc (count s)
unfolding insert_into_internal_node
count-insert_into_internal_node (last c) i l m r = refl
count-insert_into_internal_node (more c k s) zero l m r = refl
count-insert_into_internal_node (more c k s) (suc i) l m r =
    omega (arith, count-insert_into_internal_node s i l m r)

pub count-take_children : (n : ℕ) (s : Children) → n ≤ count s → count (take_children n s) ≡ n
unfolding take_children
count-take_children zero (last c) h = refl
count-take_children zero (more c k s) h = refl
count-take_children (suc n) (last c) h = absurd (omega arith)
count-take_children (suc n) (more c k s) h = omega (arith, count-take_children n s (omega arith))

pub count-drop_children :
    (n : ℕ) (s : Children) → n ≤ count s → count (drop_children n s) + n ≡ count s
unfolding drop_children
count-drop_children zero s h = omega arith
count-drop_children (suc n) (last c) h = absurd (omega arith)
count-drop_children (suc n) (more c k s) h = omega (arith, count-drop_children n s (omega arith))

module _ (lower upper : Bound) (depth bottom : ℕ) where
  divide_children-IsOutcome :
      (s : Children)
      → AreChildren lower upper (suc depth) bottom s
      → count s ≡ suc max_keys
      → IsOutcome lower upper depth bottom (divide_children s 32)
  unfolding divide_children
  divide_children-IsOutcome s h e =
      let (low, high) = key_at_bounds upper (suc depth) bottom 32 lower s h (omega arith) in
      (
        low,
        (
          omega (arith, count-take_children 32 s),
          take_children-AreChildren upper (suc depth) bottom 32 lower s h (omega arith),
        ),
        high,
        (
          omega (arith, count-drop_children 33 s),
          drop_children-AreChildren upper (suc depth) bottom 32 lower s h (omega arith),
        ),
      )

  insert_into_parent-IsOutcome :
      (s : Children) (i : ℕ) (o : Outcome)
      → count s ≤ max_keys
      → Fits lower upper (suc depth) bottom s i o
      → IsOutcome lower upper depth bottom (insert_into_parent s i o)
  unfolding insert_into_parent split_internal_and_insert
  insert_into_parent-IsOutcome s i (grown d) h f = (omega (arith, count-set_child s i d), f)
  insert_into_parent-IsOutcome s i (split l k r) h f = elim (Bool-cases (ltb (count s) max_keys)) [
    | inl e ↦ rw e (omega (arith, count-insert_into_internal_node s i l k r, ltb→lt _ _ e), f)
    | inr e ↦
        let full : count s ≡ max_keys = ground arith in
        rw (e, full)
          (divide_children-IsOutcome (insert_into_internal_node s i l k r) f
            (omega (arith, count-insert_into_internal_node s i l k r)))
  ]
  insert_into_parent-IsOutcome s i duplicate h f = tt

Fits-subst :
    (lower upper : Bound) (depth bottom : ℕ) (s : Children) {i j : ℕ} {o p : Outcome}
    → i ≡ j
    → o ≡ p
    → Fits lower upper depth bottom s j p
    → Fits lower upper depth bottom s i o
Fits-subst lower upper depth bottom s {i} {j} {o} {p} e f h =
    subst (λ x. Fits lower upper depth bottom s x o) (sym e)
      (subst (λ x. Fits lower upper depth bottom s j x) (sym f) h)

module _ (key offset bottom : ℕ) where
  mutual
    unfolding insert_node

    pub insert_node-IsOutcome :
        (n : Node) (lower upper : Bound) (depth : ℕ)
        → IsNode lower upper depth bottom n
        → AtLeast lower key
        → Below upper key
        → IsOutcome lower upper depth bottom (insert_node n key offset)
    insert_node-IsOutcome (leaf xs) lower upper depth h l u =
        elim (Bool-cases (ltb (length xs) max_keys)) [
          | inl e ↦ rw e (
              insert_into_leaf-IsOutcome lower upper depth bottom xs key offset h l u
                (ltb→lt _ _ e))
          | inr e ↦ rw e (
              split_leaf_and_insert-IsOutcome lower upper depth bottom xs key offset h l u
                (ground arith))
        ]
    insert_node-IsOutcome (internal s) lower upper depth h l u =
        insert_into_parent-IsOutcome lower upper depth bottom s (child_index s key) _ h.0
          (insert_into_child-Fits s lower upper (suc depth) h.1 l u)

    insert_into_child-Fits :
        (s : Children) (lower upper : Bound) (depth : ℕ)
        → AreChildren lower upper depth bottom s
        → AtLeast lower key
        → Below upper key
        → Fits lower upper depth bottom s (child_index s key) (insert_into_child s key offset)
    insert_into_child-Fits (last c) lower upper depth h l u =
        Fits-last upper depth bottom lower c (child_index (last c) key) _ h.0
          (insert_node-IsOutcome c lower upper depth h.1 l u)
    insert_into_child-Fits (more c k s) lower upper depth h l u = elim (Bool-cases (leb k key)) [
      | inl e ↦
          Fits-subst lower upper depth bottom (more c k s) (child_index_later c k s key e)
            (insert_into_child_later c k s key offset e)
            (Fits-later upper depth bottom lower c k s (child_index s key) _ h.0 h.1
              (insert_into_child-Fits s (some k) upper depth h.2 (leb→le _ _ e) u))
      | inr e ↦
          Fits-subst lower upper depth bottom (more c k s) (child_index_here c k s key e)
            (insert_into_child_here c k s key offset e)
            (Fits-here upper depth bottom lower c k s _ h.0 h.2
              (insert_node-IsOutcome c lower (some k) depth h.1 l (ground arith)))
    ]
