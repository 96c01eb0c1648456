-- ===== src/Bptree/Height.antt =====
-- The height of a half full tree is logarithmic in the number of keys.
use native.Mathlib.Nat.{pow-suc, le_trans}
use bptree_sql_engine.Prelude.{
  ℕ, zero, suc, ◌+◌, ◌*◌, ◌^◌, ◌≤◌, ◌<◌, ◌≡◌, refl, sym, ap, ◌∙◌, subst, Option, none, some, inl,
  inr, [], ◌∷◌, arith, length, length-append, Result, ok, ◌>>=◌, Result-cases,
}
use bptree_sql_engine.Bptree.Node.{
  Items, Tree, Node, leaf, internal, Children, last, more, count, items, items_of,
}
use bptree_sql_engine.Bptree.Validate.{Bound}
use bptree_sql_engine.Bptree.Invariant.{IsTree, IsNode, AreChildren}
use bptree_sql_engine.Bptree.HalfFull.{IsFilled, AreFilled}
use bptree_sql_engine.Bptree.Insert.{TreeError, bptree_init, bptree_insert}
use bptree_sql_engine.Bptree.Sorted.{length-put}
use bptree_sql_engine.Bptree.Laws.{entries, insert-IsTree, entries-insert}
use bptree_sql_engine.Bptree.Filled.{IsFilledTree, insert-IsFilledTree}

mutual
  IsNode-le :
      (n : Node) (lower upper : Bound) (depth bottom : ℕ)
      → IsNode lower upper depth bottom n
      → depth ≤ bottom
  IsNode-le (leaf xs) lower upper depth bottom n = omega arith
  IsNode-le (internal s) lower upper depth bottom n =
      omega (arith, AreChildren-le s lower upper (suc depth) bottom n.1)

  AreChildren-le :
      (s : Children) (lower upper : Bound) (depth bottom : ℕ)
      → AreChildren lower upper depth bottom s
      → depth ≤ bottom
  AreChildren-le (last c) lower upper depth bottom n = IsNode-le c lower upper depth bottom n.1
  AreChildren-le (more c k s) lower upper depth bottom n =
      IsNode-le c lower (some k) depth bottom n.1

pow_le : (p c : ℕ) → 31 ≤ c → p * 32 ≤ (c + 1) * p
pow_le p c h = grind arith

mutual
  -- A filled subtree whose leaves are `h` levels below it.
  length-IsFilled :
      (n : Node) (lower upper : Bound) (depth bottom h : ℕ)
      → IsNode lower upper depth bottom n
      → IsFilled n
      → depth + h ≡ bottom
      → 32 ^ suc h ≤ length (items n)
  length-IsFilled (leaf xs) lower upper depth bottom zero n f e = f
  length-IsFilled (leaf xs) lower upper depth bottom (suc h) n f e = absurd (omega arith)
  length-IsFilled (internal s) lower upper depth bottom zero n f e =
      absurd (omega (arith, AreChildren-le s lower upper (suc depth) bottom n.1))
  length-IsFilled (internal s) lower upper depth bottom (suc h) n f e = rw (pow-suc 32 (suc h)) (
      le_trans (pow_le (32 ^ suc h) (count s) f.0)
        (length-AreFilled s lower upper (suc depth) bottom h n.1 f.1 (omega arith)))

  length-AreFilled :
      (s : Children) (lower upper : Bound) (depth bottom h : ℕ)
      → AreChildren lower upper depth bottom s
      → AreFilled s
      → depth + h ≡ bottom
      → (count s + 1) * 32 ^ suc h ≤ length (items_of s)
  length-AreFilled (last c) lower upper depth bottom h n f e =
      omega (arith, length-IsFilled c lower upper depth bottom h n.1 f e)
  length-AreFilled (more c k s) lower upper depth bottom h n f e = omega (
    arith,
    length-IsFilled c lower (some k) depth bottom h n.1 f.0 e,
    length-AreFilled s (some k) upper depth bottom h n.2 f.1 e,
    length-append (items c) (items_of s),
  )

-- In a tree that is well-formed and half full, with the leaves `bottom` levels below the root and
-- `bottom` not 0, there are at least `2 * 32 ^ bottom` keys: the walk of a search from the root
-- to a leaf is logarithmic in the number of keys.
pub height_bound :
    (root : Node) (n bottom : ℕ)
    → IsNode none none 0 bottom root
    → length (items root) ≡ n
    → IsFilledTree (record { root = some root; key_count = n })
    → 0 < bottom
    → 2 * 32 ^ bottom ≤ n
height_bound (leaf xs) n bottom h e f lt = absurd (omega arith)
height_bound (internal s) n zero h e f lt = absurd (omega arith)
height_bound (internal s) n (suc b) h e f lt =
    let kids = length-AreFilled s none none 1 (suc b) b h.1 f.1 (omega arith) in
    le_trans (two_le (32 ^ suc b) (count s) f.0) (rw (← e) kids)
  where
    two_le : (p c : ℕ) → 1 ≤ c → 2 * p ≤ (c + 1) * p
    two_le p c g = grind arith

-- The insertion of entries one after the other.
abbrev pub insert_all : Items → Tree → Result TreeError Tree
insert_all [] tree = ok tree
insert_all ((key, offset) ∷ xs) tree = bptree_insert tree key offset >>= insert_all xs

-- What insertions keep, with the number of keys.
abbrev HasKeys : ℕ → Tree → Type 0
HasKeys n tree = IsTree tree × IsFilledTree tree × (length (entries tree) ≡ n)

insert-HasKeys :
    (n key offset : ℕ) (tree tree' : Tree)
    → HasKeys n tree
    → bptree_insert tree key offset ≡ ok tree'
    → HasKeys (suc n) tree'
insert-HasKeys n key offset tree tree' (t, f, e) g = (
  insert-IsTree tree tree' key offset t g,
  insert-IsFilledTree tree tree' key offset f g,
  ap length (entries-insert tree tree' key offset t g)
      ∙ length-put (entries tree) key offset
      ∙ ap suc e,
)

insert_all-HasKeys :
    (xs : Items) (n : ℕ) (tree tree' : Tree)
    → HasKeys n tree
    → insert_all xs tree ≡ ok tree'
    → HasKeys (n + length xs) tree'
insert_all-HasKeys [] n tree tree' h e =
    let same : tree ≡ tree' = cc e in
    subst (HasKeys (n + 0)) same (subst (λ m. HasKeys m tree) (omega arith) h)
insert_all-HasKeys ((key, offset) ∷ xs) n tree tree' h e =
    elim (Result-cases (bptree_insert tree key offset)) [
      | inl (next, g) ↦
          subst (λ m. HasKeys m tree') (omega arith)
            (insert_all-HasKeys xs (suc n) next tree' (insert-HasKeys n key offset tree next h g)
              (ap (λ r. r >>= insert_all xs) (sym g) ∙ e))
      | inr (x, g) ↦ absurd (cc (ap (λ r. r >>= insert_all xs) (sym g) ∙ e))
    ]

height_of_root :
    (root : Option Node) (n key_count : ℕ) (node : Node)
    → HasKeys n (record { root = root; key_count = key_count })
    → root ≡ some node
    → (bottom : ℕ) × IsNode none none 0 bottom node × (0 < bottom → 2 * 32 ^ bottom ≤ n)
height_of_root none n key_count node h e = absurd cc
height_of_root (some root) n key_count node ((bottom, shape, counted), f, l) e =
    let same : root ≡ node = cc e in
    subst (λ (m : Node). (b : ℕ) × IsNode none none 0 b m × (0 < b → 2 * 32 ^ b ≤ n)) same
      (bottom, shape, λ lt. height_bound root n bottom shape l f lt)

-- A tree that is built from the empty tree by insertions which all succeed has its leaves at one
-- depth, and if this is not 0, then at least `2 * 32 ^ depth` entries were inserted: the number of
-- nodes that a search reads is logarithmic in the number of keys.
pub insert_all-height :
    (xs : Items) (tree : Tree) (root : Node)
    → insert_all xs bptree_init ≡ ok tree
    → tree.root ≡ some root
    → (bottom : ℕ) × IsNode none none 0 bottom root × (0 < bottom → 2 * 32 ^ bottom ≤ length xs)
unfolding bptree_init
insert_all-height xs tree root e r =
    height_of_root tree.root (length xs) tree.key_count root
      (subst (λ n. HasKeys n tree) (omega arith)
        (insert_all-HasKeys xs 0 bptree_init tree (refl, tt, refl) e))
      r
