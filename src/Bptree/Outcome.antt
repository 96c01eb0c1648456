-- ===== src/Bptree/Outcome.antt =====
-- What an insertion makes of a node, well-formed, and how a parent takes it.
use bptree_sql_engine.Prelude.{
  ℕ, zero, suc, ◌<◌, ◌≡◌, some, arith, length, length-take, length-drop, Bool-cases, inl, inr,
}
use bptree_sql_engine.Bptree.Node.{Items, Node, leaf, Children, last, more, count, max_keys}
use bptree_sql_engine.Bptree.Insert.{
  Outcome, grown, split, duplicate, insert_into_leaf, split_leaf_and_insert, set_child,
  insert_into_internal_node, take_children, key_at, drop_children, divide,
}
use bptree_sql_engine.Bptree.Validate.{Bound}
use bptree_sql_engine.Bptree.Invariant.{AtLeast, Below, IsRange, IsSorted, IsNode, AreChildren}
use bptree_sql_engine.Bptree.Sorted.{
  put, has_key, insert_at-insert_index, key_at_is-insert_index, put-IsSorted, length-put,
  first_key-drop, take-IsSorted, drop-IsSorted, IsRange-first_key,
}

-- What an insertion makes of a node: well-formed nodes that share its range.
abbrev pub IsOutcome : Bound → Bound → ℕ → ℕ → Outcome → Type 0
IsOutcome lower upper depth bottom (grown node) = IsNode lower upper depth bottom node
IsOutcome lower upper depth bottom (split left k right) =
    IsRange lower (some k)
    × IsNode lower (some k) depth bottom left
    × IsRange (some k) upper
    × IsNode (some k) upper depth bottom right
IsOutcome lower upper depth bottom duplicate = Unit

module _ (lower upper : Bound) (depth bottom : ℕ) where
  pub insert_into_leaf-IsOutcome :
      (xs : Items) (key offset : ℕ)
      → IsNode lower upper depth bottom (leaf xs)
      → AtLeast lower key
      → Below upper key
      → length xs < max_keys
      → IsOutcome lower upper depth bottom (insert_into_leaf xs key offset)
  unfolding insert_into_leaf
  insert_into_leaf-IsOutcome xs key offset n l u h =
      rw (insert_at-insert_index xs key offset, key_at_is-insert_index xs key lower upper n.2)
        (elim (Bool-cases (has_key key xs)) [
          | inl e ↦ rw e tt
          | inr e ↦ rw e (
            n.0,
            omega (arith, length-put xs key offset),
            put-IsSorted xs key offset lower upper n.2 l u e,
          )
        ])

  divide-IsOutcome :
      (xs : Items)
      → IsSorted lower upper xs
      → length xs ≡ suc max_keys
      → depth ≡ bottom
      → IsOutcome lower upper depth bottom (divide xs 32)
  divide-IsOutcome xs s h e = (
    IsRange-first_key 31 xs lower upper s (omega arith),
    (e, omega (arith, length-take 32 xs), take-IsSorted 32 xs lower upper s (omega arith)),
    ground (arith, first_key-drop 32 xs lower upper s),
    (e, omega (arith, length-drop 32 xs), drop-IsSorted 32 xs lower upper s (omega arith)),
  )

  pub split_leaf_and_insert-IsOutcome :
      (xs : Items) (key offset : ℕ)
      → IsNode lower upper depth bottom (leaf xs)
      → AtLeast lower key
      → Below upper key
      → length xs ≡ max_keys
      → IsOutcome lower upper depth bottom (split_leaf_and_insert xs key offset)
  unfolding split_leaf_and_insert
  split_leaf_and_insert-IsOutcome xs key offset n l u h =
      rw (insert_at-insert_index xs key offset, key_at_is-insert_index xs key lower upper n.2, h)
        (elim (Bool-cases (has_key key xs)) [
          | inl e ↦ rw e tt
          | inr e ↦ rw e (
              divide-IsOutcome (put key offset xs)
                (put-IsSorted xs key offset lower upper n.2 l u e)
                (omega (arith, length-put xs key offset)) n.0)
        ])

-- The children after the outcome at the child on the way to `key`, before any split of the parent.
abbrev pub Fits : Bound → Bound → ℕ → ℕ → Children → ℕ → Outcome → Type 0
Fits lower upper depth bottom s i (grown child) =
    AreChildren lower upper depth bottom (set_child s i child)
Fits lower upper depth bottom s i (split left k right) =
    AreChildren lower upper depth bottom (insert_into_internal_node s i left k right)
Fits lower upper depth bottom s i duplicate = Unit

module _ (upper : Bound) (depth bottom : ℕ) where
  pub Fits-last :
      (lower : Bound) (c : Node) (i : ℕ) (o : Outcome)
      → IsRange lower upper
      → IsOutcome lower upper depth bottom o
      → Fits lower upper depth bottom (last c) i o
  unfolding set_child insert_into_internal_node
  Fits-last lower c i (grown d) r h = (r, h)
  Fits-last lower c i (split left k right) r h = (h.0, h.1, (h.2, h.3))
  Fits-last lower c i duplicate r h = tt

  pub Fits-here :
      (lower : Bound) (c : Node) (k : ℕ) (s : Children) (o : Outcome)
      → IsRange lower (some k)
      → AreChildren (some k) upper depth bottom s
      → IsOutcome lower (some k) depth bottom o
      → Fits lower upper depth bottom (more c k s) zero o
  unfolding set_child insert_into_internal_node
  Fits-here lower c k s (grown d) r n h = (r, h, n)
  Fits-here lower c k s (split left m right) r n h = (h.0, h.1, (h.2, h.3, n))
  Fits-here lower c k s duplicate r n h = tt

  pub Fits-later :
      (lower : Bound) (c : Node) (k : ℕ) (s : Children) (i : ℕ) (o : Outcome)
      → IsRange lower (some k)
      → IsNode lower (some k) depth bottom c
      → Fits (some k) upper depth bottom s i o
      → Fits lower upper depth bottom (more c k s) (suc i) o
  unfolding set_child insert_into_internal_node
  Fits-later lower c k s i (grown d) r n h = (r, n, h)
  Fits-later lower c k s i (split left m right) r n h = (r, n, h)
  Fits-later lower c k s i duplicate r n h = tt

  pub key_at_bounds :
      (n : ℕ) (lower : Bound) (s : Children)
      → AreChildren lower upper depth bottom s
      → n < count s
      → IsRange lower (some (key_at n s)) × IsRange (some (key_at n s)) upper
  unfolding key_at
  key_at_bounds n lower (last c) h lt = absurd (omega arith)
  key_at_bounds zero lower (more c k (last d)) h lt = (h.0, h.2.0)
  key_at_bounds zero lower (more c k (more d m s)) h lt =
      ground (arith, key_at_bounds zero (some k) (more d m s) h.2)
  key_at_bounds (suc n) lower (more c k s) h lt = ground (arith, key_at_bounds n (some k) s h.2)

  pub take_children-AreChildren :
      (n : ℕ) (lower : Bound) (s : Children)
      → AreChildren lower upper depth bottom s
      → n < count s
      → AreChildren lower (some (key_at n s)) depth bottom (take_children n s)
  unfolding key_at take_children
  take_children-AreChildren n lower (last c) h lt = absurd (omega arith)
  take_children-AreChildren zero lower (more c k s) h lt = (h.0, h.1)
  take_children-AreChildren (suc n) lower (more c k s) h lt =
      (h.0, h.1, take_children-AreChildren n (some k) s h.2 (omega arith))

  pub drop_children-AreChildren :
      (n : ℕ) (lower : Bound) (s : Children)
      → AreChildren lower upper depth bottom s
      → n < count s
      → AreChildren (some (key_at n s)) upper depth bottom (drop_children (suc n) s)
  unfolding key_at drop_children
  drop_children-AreChildren n lower (last c) h lt = absurd (omega arith)
  drop_children-AreChildren zero lower (more c k s) h lt = h.2
  drop_children-AreChildren (suc n) lower (more c k s) h lt =
      drop_children-AreChildren n (some k) s h.2 (omega arith)
