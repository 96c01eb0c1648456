-- ===== src/Bptree/Content.antt =====
-- What a tree holds: insertion and search against the entries in the order of the leaf chain.
use bptree_sql_engine.Prelude.{
  ℕ, zero, suc, ◌+◌, ◌/◌, ◌<◌, ◌≡◌, refl, sym, ap, ◌∙◌, subst, true, false, some, ◌++◌,
  append_assoc, arith, ltb, leb, length, take-append-drop, Bool-cases, inl, inr, leb→le,
}
use bptree_sql_engine.Bptree.Node.{
  Items, Node, leaf, internal, Children, last, more, count, items, items_of, max_keys,
}
use bptree_sql_engine.Bptree.Search.{child_index, child_index_later, child_index_here}
use bptree_sql_engine.Bptree.Insert.{
  Outcome, grown, split, duplicate, insert_into_leaf, split_leaf_and_insert, set_child,
  insert_into_internal_node, take_children, drop_children, divide_children,
  split_internal_and_insert, insert_into_parent, insert_node, insert_into_child,
  insert_into_child_later, insert_into_child_here,
}
use bptree_sql_engine.Bptree.Validate.{Bound}
use bptree_sql_engine.Bptree.Invariant.{IsSorted, IsNode, AreChildren}
use bptree_sql_engine.Bptree.Shape.{count-insert_into_internal_node}
use bptree_sql_engine.Bptree.Sorted.{put, has_key, insert_at-insert_index, key_at_is-insert_index}
use bptree_sql_engine.Bptree.Leaf.{
  put-append_left, put-append_right, has_key-append_left, has_key-append_right,
}
use bptree_sql_engine.Bptree.Lookup.{items-IsSorted, items_of-IsSorted}

module _ (key offset : ℕ) where
  -- The outcome holds the entries `xs` with the new one put in its place, or the key is in `xs`.
  abbrev pub Stores : Items → Outcome → Type 0
  Stores xs (grown n) = (has_key key xs ≡ false) × (items n ≡ put key offset xs)
  Stores xs (split left k right) =
      (has_key key xs ≡ false) × (items left ++ items right ≡ put key offset xs)
  Stores xs duplicate = has_key key xs ≡ true

  -- The same of the children with the outcome of child `i` in place.
  abbrev StoresAt : Items → Children → ℕ → Outcome → Type 0
  StoresAt xs s i (grown d) =
      (has_key key xs ≡ false) × (items_of (set_child s i d) ≡ put key offset xs)
  StoresAt xs s i (split left k right) =
      (has_key key xs ≡ false)
      × (items_of (insert_into_internal_node s i left k right) ≡ put key offset xs)
  StoresAt xs s i duplicate = has_key key xs ≡ true

  StoresAt-last :
      (c : Node) (i : ℕ) (o : Outcome) → Stores (items c) o → StoresAt (items c) (last c) i o
  unfolding set_child insert_into_internal_node
  StoresAt-last c i (grown d) h = h
  StoresAt-last c i (split left k right) h = h
  StoresAt-last c i duplicate h = h

  StoresAt-here :
      (c : Node) (k : ℕ) (s : Children) (o : Outcome)
      → put key offset (items c ++ items_of s) ≡ put key offset (items c) ++ items_of s
      → has_key key (items c ++ items_of s) ≡ has_key key (items c)
      → Stores (items c) o
      → StoresAt (items c ++ items_of s) (more c k s) zero o
  unfolding set_child insert_into_internal_node
  StoresAt-here c k s (grown d) p q h = (q ∙ h.0, rw (p, h.1))
  StoresAt-here c k s (split left m right) p q h =
      (q ∙ h.0, rw (p, ← h.1) (sym (append_assoc (items left) (items right) (items_of s))))
  StoresAt-here c k s duplicate p q h = q ∙ h

  StoresAt-later :
      (c : Node) (k : ℕ) (s : Children) (i : ℕ) (o : Outcome)
      → put key offset (items c ++ items_of s) ≡ items c ++ put key offset (items_of s)
      → has_key key (items c ++ items_of s) ≡ has_key key (items_of s)
      → StoresAt (items_of s) s i o
      → StoresAt (items c ++ items_of s) (more c k s) (suc i) o
  unfolding set_child insert_into_internal_node
  StoresAt-later c k s i (grown d) p q h = (q ∙ h.0, rw (p, h.1))
  StoresAt-later c k s i (split left m right) p q h = (q ∙ h.0, rw (p, h.1))
  StoresAt-later c k s i duplicate p q h = q ∙ h

items_of-take-drop :
    (n : ℕ) (s : Children)
    → n < count s
    → items_of (take_children n s) ++ items_of (drop_children (suc n) s) ≡ items_of s
unfolding take_children drop_children
items_of-take-drop n (last c) h = absurd (omega arith)
items_of-take-drop zero (more c k s) h = refl
items_of-take-drop (suc n) (more c k s) h =
    append_assoc (items c) (items_of (take_children n s)) (items_of (drop_children (suc n) s))
    ∙ ap (λ l. items c ++ l) (items_of-take-drop n s (omega arith))

module _ (key offset : ℕ) where
  insert_into_leaf-Stores :
      (xs : Items) (lower upper : Bound)
      → IsSorted lower upper xs
      → Stores key offset xs (insert_into_leaf xs key offset)
  unfolding insert_into_leaf
  insert_into_leaf-Stores xs lower upper s =
      rw (insert_at-insert_index xs key offset, key_at_is-insert_index xs key lower upper s)
        (elim (Bool-cases (has_key key xs)) [ inl e ↦ rw e e | inr e ↦ rw e (e, refl) ])

  split_leaf_and_insert-Stores :
      (xs : Items) (lower upper : Bound)
      → IsSorted lower upper xs
      → Stores key offset xs (split_leaf_and_insert xs key offset)
  unfolding split_leaf_and_insert
  split_leaf_and_insert-Stores xs lower upper s =
      rw (insert_at-insert_index xs key offset, key_at_is-insert_index xs key lower upper s)
        (elim (Bool-cases (has_key key xs)) [
          | inl e ↦ rw e e
          | inr e ↦ rw e (e, take-append-drop ((length xs + 1) / 2) (put key offset xs))
        ])

  insert_into_parent-Stores :
      (xs : Items) (s : Children) (i : ℕ) (o : Outcome)
      → StoresAt key offset xs s i o
      → Stores key offset xs (insert_into_parent s i o)
  unfolding insert_into_parent split_internal_and_insert divide_children
  insert_into_parent-Stores xs s i (grown d) h = h
  insert_into_parent-Stores xs s i (split l k r) h = elim (Bool-cases (ltb (count s) max_keys)) [
    | inl e ↦ rw e h
    | inr e ↦ rw e (
      h.0,
      items_of-take-drop ((count s + 1) / 2) (insert_into_internal_node s i l k r)
            (omega (arith, count-insert_into_internal_node s i l k r))
          ∙ h.1,
    )
  ]
  insert_into_parent-Stores xs s i duplicate h = h

  StoresAt-subst :
      (xs : Items) (s : Children) {i j : ℕ} {o p : Outcome}
      → i ≡ j
      → o ≡ p
      → StoresAt key offset xs s j p
      → StoresAt key offset xs s i o
  StoresAt-subst xs s {i} {j} {o} {p} e f h =
      subst (λ x. StoresAt key offset xs s x o) (sym e)
        (subst (λ x. StoresAt key offset xs s j x) (sym f) h)

module _ (key offset bottom : ℕ) where
  mutual
    unfolding insert_node

    -- Insertion into a node stores the entry among those of the subtree.
    pub insert_node-Stores :
        (n : Node) (lower upper : Bound) (depth : ℕ)
        → IsNode lower upper depth bottom n
        → Stores key offset (items n) (insert_node n key offset)
    insert_node-Stores (leaf xs) lower upper depth h =
        elim (Bool-cases (ltb (length xs) max_keys)) [
          | inl e ↦ rw e (insert_into_leaf-Stores key offset xs lower upper h.2)
          | inr e ↦ rw e (split_leaf_and_insert-Stores key offset xs lower upper h.2)
        ]
    insert_node-Stores (internal s) lower upper depth h =
        insert_into_parent-Stores key offset (items_of s) s (child_index s key) _
          (insert_into_child-StoresAt s lower upper (suc depth) h.1)

    insert_into_child-StoresAt :
        (s : Children) (lower upper : Bound) (depth : ℕ)
        → AreChildren lower upper depth bottom s
        → StoresAt key offset (items_of s) s (child_index s key) (insert_into_child s key offset)
    insert_into_child-StoresAt (last c) lower upper depth h =
        StoresAt-last key offset c (child_index (last c) key) _
          (insert_node-Stores c lower upper depth h.1)
    insert_into_child-StoresAt (more c k s) lower upper depth h =
        let before = items-IsSorted c lower (some k) depth bottom h.1 in
        let behind = items_of-IsSorted s (some k) upper depth bottom h.2 in
        elim (Bool-cases (leb k key)) [
          | inl e ↦
              StoresAt-subst key offset (items c ++ items_of s) (more c k s)
                (child_index_later c k s key e) (insert_into_child_later c k s key offset e)
                (StoresAt-later key offset c k s (child_index s key) _
                  (put-append_left k key offset (items c) (items_of s) lower before (leb→le _ _ e))
                  (has_key-append_left k key offset (items c) (items_of s) lower before
                    (leb→le _ _ e))
                  (insert_into_child-StoresAt s (some k) upper depth h.2))
          | inr e ↦
              let less : key < k = ground arith in
              StoresAt-subst key offset (items c ++ items_of s) (more c k s)
                (child_index_here c k s key e) (insert_into_child_here c k s key offset e)
                (StoresAt-here key offset c k s _
                  (put-append_right k key offset (items c) (items_of s) upper behind less)
                  (has_key-append_right k key offset (items c) (items_of s) upper behind less)
                  (insert_node-Stores c lower (some k) depth h.1))
        ]
