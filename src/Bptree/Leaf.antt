-- ===== src/Bptree/Leaf.antt =====
-- The operations on one leaf, against sorted association lists.
use bptree_sql_engine.Prelude.{
  ℕ, suc, ◌≤◌, ◌<◌, ◌≡◌, ◌↔◌, refl, false, none, some, [], ◌∷◌, ◌++◌, arith, ◌==◌, if◌then◌else◌,
}
use bptree_sql_engine.Bptree.Node.{Items}
use bptree_sql_engine.Bptree.Search.{scan_leaf}
use bptree_sql_engine.Bptree.Validate.{Bound}
use bptree_sql_engine.Bptree.Invariant.{IsSorted}
use bptree_sql_engine.Bptree.Sorted.{put, has_key, has_key-lt}

module _ (k key offset : ℕ) where
  pub put-append_left :
      (xs ys : Items) (lower : Bound)
      → IsSorted lower (some k) xs
      → k ≤ key
      → put key offset (xs ++ ys) ≡ xs ++ put key offset ys
  unfolding put
  put-append_left [] ys lower s h = refl
  put-append_left ((j, v) ∷ xs) ys lower s h =
      ground (arith, put-append_left xs ys (some (suc j)) s.2)

  pub has_key-append_left :
      (xs ys : Items) (lower : Bound)
      → IsSorted lower (some k) xs
      → k ≤ key
      → has_key key (xs ++ ys) ≡ has_key key ys
  unfolding has_key
  has_key-append_left [] ys lower s h = refl
  has_key-append_left ((j, v) ∷ xs) ys lower s h =
      ground (arith, has_key-append_left xs ys (some (suc j)) s.2)

  pub scan_leaf-append_left :
      (xs ys : Items) (lower : Bound)
      → IsSorted lower (some k) xs
      → k ≤ key
      → scan_leaf (xs ++ ys) key ≡ scan_leaf ys key
  unfolding scan_leaf
  scan_leaf-append_left [] ys lower s h = refl
  scan_leaf-append_left ((j, v) ∷ xs) ys lower s h =
      ground (arith, scan_leaf-append_left xs ys (some (suc j)) s.2)

  put_below :
      (ys : Items) (lower : ℕ) (upper : Bound)
      → IsSorted (some lower) upper ys
      → key < lower
      → put key offset ys ≡ (key, offset) ∷ ys
  unfolding put
  put_below [] lower upper s h = refl
  put_below ((j, v) ∷ ys) lower upper s h = ground arith

  pub put-append_right :
      (xs ys : Items) (upper : Bound)
      → IsSorted (some k) upper ys
      → key < k
      → put key offset (xs ++ ys) ≡ put key offset xs ++ ys
  unfolding put
  put-append_right [] ys upper s h = put_below ys k upper s h
  put-append_right ((j, v) ∷ xs) ys upper s h = ground (arith, put-append_right xs ys upper s)

  pub has_key-append_right :
      (xs ys : Items) (upper : Bound)
      → IsSorted (some k) upper ys
      → key < k
      → has_key key (xs ++ ys) ≡ has_key key xs
  unfolding has_key
  has_key-append_right [] ys upper s h = has_key-lt ys key k upper s h
  has_key-append_right ((j, v) ∷ xs) ys upper s h =
      ground (arith, has_key-append_right xs ys upper s)

-- A key that is not there is not found, and one that is there is.
pub has_key-scan_leaf :
    (xs : Items) (key : ℕ) → (has_key key xs ≡ false) ↔ (scan_leaf xs key ≡ none)
unfolding has_key scan_leaf
has_key-scan_leaf [] key = (λ _. refl, λ _. refl)
has_key-scan_leaf ((j, v) ∷ xs) key = (
  λ h. ground (arith, (has_key-scan_leaf xs key).0),
  λ h. ground (arith, (has_key-scan_leaf xs key).1),
)

module _ (k key : ℕ) where
  pub scan_leaf-append_right :
      (xs ys : Items) (upper : Bound)
      → IsSorted (some k) upper ys
      → key < k
      → scan_leaf (xs ++ ys) key ≡ scan_leaf xs key
  unfolding scan_leaf
  scan_leaf-append_right [] ys upper s h =
      (has_key-scan_leaf ys key).0 (has_key-lt ys key k upper s h)
  scan_leaf-append_right ((j, v) ∷ xs) ys upper s h =
      ground (arith, scan_leaf-append_right xs ys upper s)

-- The entry that is put is found, and the others are as before.
pub scan_leaf-put :
    (xs : Items) (key offset j : ℕ)
    → has_key key xs ≡ false
    → scan_leaf (put key offset xs) j ≡ (if key == j then some offset else scan_leaf xs j)
unfolding scan_leaf put has_key
scan_leaf-put [] key offset j h = refl
scan_leaf-put ((i, v) ∷ xs) key offset j h = ground (arith, scan_leaf-put xs key offset j)
