-- ===== src/Bptree/Valid.antt =====
-- `bptree_validate` accepts exactly the well-formed trees.
use bptree_sql_engine.Prelude.{
  ℕ, zero, suc, ◌+◌, ◌≡◌, refl, ap, ◌∙◌, subst, Bool, true, false, Option, none, some, [], ◌∷◌,
  arith, leb, length, Result, ok, err, ◌>>=◌, ◌>>◌, guard, leb→le, ==-refl,
}
use bptree_sql_engine.Bptree.Node.{
  Items, Node, leaf, internal, Children, last, more, Tree, count, keys, items, max_keys,
}
use bptree_sql_engine.Bptree.Validate.{
  Bound, is_range, increasing, leaf_keys, all_in_range, check_depth, validate_node,
  validate_children, walk_chain, bptree_validate,
}
use bptree_sql_engine.Bptree.Invariant.{IsSorted, IsNode, AreChildren, IsRoot, IsTree}
use bptree_sql_engine.Bptree.Lookup.{items-IsSorted}
use bptree_sql_engine.Bptree.Checks.{validate_node_complete, Agrees, is_range_sound, IsSorted-sound}

-- What the validation of a subtree has shown when it returns `state'`.
abbrev Shows : Option ℕ → Option ℕ → (ℕ → Type 0) → Type 0
Shows state state' P = (bottom : ℕ) × (state' ≡ some bottom) × Agrees state bottom × P bottom

guard-true :
    {E A : Type 0} (b : Bool) (e : E) (m : Result E A) {a : A}
    → (guard b e >> m) ≡ ok a
    → (b ≡ true) × (m ≡ ok a)
guard-true true e m h = (refl, h)
guard-true false e m h = cc

bind_ok :
    {E A B : Type 0} (m : Result E A) (f : A → Result E B) {b : B}
    → (m >>= f) ≡ ok b
    → (a : A) × (m ≡ ok a) × (f a ≡ ok b)
bind_ok (ok a) f h = (a, refl, h)
bind_ok (err e) f h = cc

check_depth-Shows :
    (state state' : Option ℕ) (depth : ℕ)
    → check_depth state depth ≡ ok state'
    → Shows state state' (λ bottom. depth ≡ bottom)
unfolding check_depth
check_depth-Shows none state' depth h = (depth, ground arith, tt, refl)
check_depth-Shows (some e) state' depth h = (depth, ground arith, ground arith, refl)

mutual
  unfolding validate_node

  validate_node-Shows :
      (n : Node) (lower upper : Bound) (depth : ℕ) (state state' : Option ℕ)
      → validate_node n lower upper depth state ≡ ok state'
      → Shows state state' (λ bottom. IsNode lower upper depth bottom n)
  validate_node-Shows (leaf xs) lower upper depth state state' h =
      let (size, h1) = guard-true (leb (length xs) max_keys) _ _ h in
      let (sorted, h2) = guard-true (increasing (leaf_keys xs)) _ _ h1 in
      let (ranged, h3) = guard-true (all_in_range lower upper (leaf_keys xs)) _ _ h2 in
      let (bottom, e, a, d) = check_depth-Shows state state' depth h3 in
      (bottom, e, a, (d, leb→le _ _ size, IsSorted-sound lower upper xs sorted ranged))
  validate_node-Shows (internal s) lower upper depth state state' h =
      let (size, h1) = guard-true (leb (count s) max_keys) _ _ h in
      let (sorted, h2) = guard-true (increasing (keys s)) _ _ h1 in
      let (bottom, e, a, c) = validate_children-Shows s lower upper (suc depth) state state' h2 in
      (bottom, e, a, (leb→le _ _ size, c))

  validate_children-Shows :
      (s : Children) (lower upper : Bound) (depth : ℕ) (state state' : Option ℕ)
      → validate_children s lower upper depth state ≡ ok state'
      → Shows state state' (λ bottom. AreChildren lower upper depth bottom s)
  validate_children-Shows (last c) lower upper depth state state' h =
      let (range, h1) = guard-true (is_range lower upper) _ _ h in
      let (bottom, e, a, n) = validate_node-Shows c lower upper depth state state' h1 in
      (bottom, e, a, (is_range_sound lower upper range, n))
  validate_children-Shows (more c k s) lower upper depth state state' h =
      let (range, h1) = guard-true (is_range lower (some k)) _ _ h in
      let (between, h2, h3) = bind_ok (validate_node c lower (some k) depth state) _ h1 in
      let (bottom, e, a, n) = validate_node-Shows c lower (some k) depth state between h2 in
      let (bottom', e', a', r) = validate_children-Shows s (some k) upper depth between state' h3 in
      let same : bottom ≡ bottom' = subst (λ o. Agrees o bottom') e a' in
      (
        bottom',
        e',
        subst (λ b. Agrees state b) same a,
        (
          is_range_sound lower (some k) range,
          subst (λ b. IsNode lower (some k) depth b c) same n,
          r,
        ),
      )

walk_chain-IsSorted :
    (k n : ℕ) (upper : Bound) (xs : Items)
    → IsSorted (some (suc k)) upper xs
    → walk_chain (some k) (leaf_keys xs) n ≡ ok (n + length xs)
unfolding walk_chain
walk_chain-IsSorted k n upper [] s = ap ok (omega arith)
walk_chain-IsSorted k n upper ((j, v) ∷ xs) s =
    let rest = walk_chain-IsSorted j (n + 1) upper xs s.2 in
    let sum : n + 1 + length xs ≡ n + suc (length xs) = omega arith in ground (arith, rest, sum)

walk_chain-sorted :
    (lower upper : Bound) (xs : Items)
    → IsSorted lower upper xs
    → walk_chain none (leaf_keys xs) 0 ≡ ok (length xs)
unfolding walk_chain
walk_chain-sorted lower upper [] s = refl
walk_chain-sorted lower upper ((j, v) ∷ xs) s =
    walk_chain-IsSorted j (0 + 1) upper xs s.2 ∙ ap ok (omega arith)

validate-IsRoot_complete :
    (root : Option Node) (n : ℕ)
    → IsRoot root n
    → bptree_validate (record { root = root; key_count = n }) ≡ ok tt
unfolding bptree_validate
validate-IsRoot_complete none n h = ground arith
validate-IsRoot_complete (some root) n (bottom, shape, counted) = rw (
  validate_node_complete bottom root none none zero none shape tt,
  walk_chain-sorted none none (items root) (items-IsSorted root none none 0 bottom shape),
  counted,
  ==-refl n,
)

-- The validation passes every well-formed tree.
pub validate_complete : (tree : Tree) → IsTree tree → bptree_validate tree ≡ ok tt
validate_complete tree h = validate-IsRoot_complete tree.root tree.key_count h

validate-IsRoot_sound :
    (root : Option Node) (n : ℕ)
    → bptree_validate (record { root = root; key_count = n }) ≡ ok tt
    → IsRoot root n
unfolding bptree_validate
validate-IsRoot_sound none n h = ground arith
validate-IsRoot_sound (some root) n h =
    let (state, h1, h2) = bind_ok (validate_node root none none zero none) _ h in
    let (bottom, e, a, shape) = validate_node-Shows root none none zero none state h1 in
    let (counted, h3, h4) = bind_ok (walk_chain none (leaf_keys (items root)) 0) _ h2 in
    let walked =
      walk_chain-sorted none none (items root) (items-IsSorted root none none 0 bottom shape) in
    (bottom, shape, ground (arith, h3, h4, walked))

-- The validation passes well-formed trees only.
pub validate_sound : (tree : Tree) → bptree_validate tree ≡ ok tt → IsTree tree
validate_sound tree h = validate-IsRoot_sound tree.root tree.key_count h
