-- ===== src/Bptree/Checks.antt =====
-- The checks of `validate_node` pass in a well-formed tree.
use bptree_sql_engine.Prelude.{
  ℕ, suc, ◌≡◌, refl, true, Option, none, some, [], ◌∷◌, arith, length, ok, le→leb,
}
use bptree_sql_engine.Bptree.Node.{
  Items, Node, leaf, internal, Children, last, more, count, keys, max_keys,
}
use bptree_sql_engine.Bptree.Validate.{
  Bound, is_range, increasing_from, increasing, leaf_keys, all_in_range, check_depth, validate_node,
  validate_children,
}
use bptree_sql_engine.Bptree.Invariant.{AtLeast, IsRange, IsSorted, IsNode, AreChildren}

-- The depth that the validation has recorded, if any, is `bottom`.
abbrev pub Agrees : Option ℕ → ℕ → Type 0
Agrees none bottom = Unit
Agrees (some expected) bottom = expected ≡ bottom

is_range_iff_true : (lower upper : Bound) → IsRange lower upper → is_range lower upper ≡ true
is_range_iff_true none upper h = refl
is_range_iff_true (some l) none h = refl
is_range_iff_true (some l) (some u) h = ground arith

pub is_range_sound : (lower upper : Bound) → is_range lower upper ≡ true → IsRange lower upper
is_range_sound none upper h = tt
is_range_sound (some l) none h = tt
is_range_sound (some l) (some u) h = ground arith

increasing_from-IsSorted :
    (k : ℕ) (upper : Bound) (xs : Items)
    → IsSorted (some (suc k)) upper xs
    → increasing_from k (leaf_keys xs) ≡ true
unfolding increasing_from
increasing_from-IsSorted k upper [] s = refl
increasing_from-IsSorted k upper ((j, v) ∷ xs) s =
    ground (arith, increasing_from-IsSorted j upper xs s.2)

increasing-IsSorted :
    (lower upper : Bound) (xs : Items) → IsSorted lower upper xs → increasing (leaf_keys xs) ≡ true
unfolding increasing
increasing-IsSorted lower upper [] s = refl
increasing-IsSorted lower upper ((j, v) ∷ xs) s = increasing_from-IsSorted j upper xs s.2

all_in_range-IsSorted :
    (lower upper : Bound) (m : ℕ) (xs : Items)
    → AtLeast lower m
    → IsSorted (some m) upper xs
    → all_in_range lower upper (leaf_keys xs) ≡ true
unfolding all_in_range
all_in_range-IsSorted lower upper m [] h s = refl
all_in_range-IsSorted lower upper m ((j, v) ∷ xs) h s =
    ground (arith, all_in_range-IsSorted lower upper (suc j) xs)

all_in_range_complete :
    (lower upper : Bound) (xs : Items)
    → IsSorted lower upper xs
    → all_in_range lower upper (leaf_keys xs) ≡ true
unfolding all_in_range
all_in_range_complete lower upper [] s = refl
all_in_range_complete lower upper ((j, v) ∷ xs) s =
    ground (arith, all_in_range-IsSorted lower upper (suc j) xs)

IsSorted-sound_from :
    (k : ℕ) (lower upper : Bound) (xs : Items)
    → increasing_from k (leaf_keys xs) ≡ true
    → all_in_range lower upper (leaf_keys xs) ≡ true
    → IsSorted (some (suc k)) upper xs
unfolding increasing_from all_in_range
IsSorted-sound_from k lower upper [] i a = tt
IsSorted-sound_from k lower upper ((j, v) ∷ xs) i a =
    ground (arith, IsSorted-sound_from j lower upper xs)

pub IsSorted-sound :
    (lower upper : Bound) (xs : Items)
    → increasing (leaf_keys xs) ≡ true
    → all_in_range lower upper (leaf_keys xs) ≡ true
    → IsSorted lower upper xs
unfolding increasing all_in_range
IsSorted-sound lower upper [] i a = tt
IsSorted-sound lower upper ((j, v) ∷ xs) i a = ground (arith, IsSorted-sound_from j lower upper xs)

increasing_from-AreChildren :
    (k : ℕ) (upper : Bound) (depth bottom : ℕ) (s : Children)
    → AreChildren (some k) upper depth bottom s
    → increasing_from k (keys s) ≡ true
unfolding increasing_from
increasing_from-AreChildren k upper depth bottom (last c) h = refl
increasing_from-AreChildren k upper depth bottom (more c j s) h =
    ground (arith, increasing_from-AreChildren j upper depth bottom s h.2)

increasing-AreChildren :
    (lower upper : Bound) (depth bottom : ℕ) (s : Children)
    → AreChildren lower upper depth bottom s
    → increasing (keys s) ≡ true
unfolding increasing
increasing-AreChildren lower upper depth bottom (last c) h = refl
increasing-AreChildren lower upper depth bottom (more c j s) h =
    increasing_from-AreChildren j upper depth bottom s h.2

check_depth_complete :
    (state : Option ℕ) (depth : ℕ) → Agrees state depth → check_depth state depth ≡ ok (some depth)
unfolding check_depth
check_depth_complete none depth a = refl
check_depth_complete (some e) depth a = ground arith

module _ (bottom : ℕ) where
  mutual
    unfolding validate_node

    pub validate_node_complete :
        (n : Node) (lower upper : Bound) (depth : ℕ) (state : Option ℕ)
        → IsNode lower upper depth bottom n
        → Agrees state bottom
        → validate_node n lower upper depth state ≡ ok (some bottom)
    validate_node_complete (leaf xs) lower upper depth state h a =
        rw
          (
            le→leb (length xs) max_keys h.1,
            increasing-IsSorted lower upper xs h.2,
            all_in_range_complete lower upper xs h.2,
            h.0,
          )
          (check_depth_complete state bottom a)
    validate_node_complete (internal s) lower upper depth state h a =
        rw
          (
            le→leb (count s) max_keys h.0,
            increasing-AreChildren lower upper (suc depth) bottom s h.1,
          )
          (validate_children_complete s lower upper (suc depth) state h.1 a)

    validate_children_complete :
        (s : Children) (lower upper : Bound) (depth : ℕ) (state : Option ℕ)
        → AreChildren lower upper depth bottom s
        → Agrees state bottom
        → validate_children s lower upper depth state ≡ ok (some bottom)
    validate_children_complete (last c) lower upper depth state h a =
        rw (is_range_iff_true lower upper h.0)
          (validate_node_complete c lower upper depth state h.1 a)
    validate_children_complete (more c k s) lower upper depth state h a =
        rw
          (
            is_range_iff_true lower (some k) h.0,
            validate_node_complete c lower (some k) depth state h.1 a,
          )
          (validate_children_complete s (some k) upper depth (some bottom) h.2 refl)
