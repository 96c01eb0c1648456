-- ===== src/Bptree/Sorted.antt =====
-- Sorted arrays of entries, against sorted association lists.
use bptree_sql_engine.Prelude.{
  ℕ, zero, suc, ◌≤◌, ◌<◌, ◌≡◌, refl, Bool, false, ◌||◌, some, [], ◌∷◌, ◌++◌, arith, ltb, ◌==◌,
  if◌then◌else◌, length, take, drop, insert_at,
}
use bptree_sql_engine.Bptree.Node.{Items}
use bptree_sql_engine.Bptree.Insert.{insert_index, key_at_is, first_key}
use bptree_sql_engine.Bptree.Validate.{Bound}
use bptree_sql_engine.Bptree.Invariant.{AtLeast, Below, IsRange, IsSorted}

-- The reference: the entry is put before the first entry whose key is not less.
unfoldable pub put : ℕ → ℕ → Items → Items
put key offset [] = (key, offset) ∷ []
put key offset ((k, v) ∷ xs) =
    if ltb k key then (k, v) ∷ put key offset xs else (key, offset) ∷ (k, v) ∷ xs

unfoldable pub has_key : ℕ → Items → Bool
has_key key [] = false
has_key key ((k, _) ∷ xs) = k == key || has_key key xs

pub insert_at-insert_index :
    (xs : Items) (key offset : ℕ)
    → insert_at (insert_index xs key) (key, offset) xs ≡ put key offset xs
unfolding insert_index put
insert_at-insert_index [] key offset = refl
insert_at-insert_index ((k, v) ∷ xs) key offset =
    ground (arith, insert_at-insert_index xs key offset)

pub has_key-lt :
    (xs : Items) (key lower : ℕ) (upper : Bound)
    → IsSorted (some lower) upper xs
    → key < lower
    → has_key key xs ≡ false
unfolding has_key
has_key-lt [] key lower upper s h = refl
has_key-lt ((k, v) ∷ xs) key lower upper s h = ground (arith, has_key-lt xs key (suc k) upper)

pub key_at_is-insert_index :
    (xs : Items) (key : ℕ) (lower upper : Bound)
    → IsSorted lower upper xs
    → key_at_is xs (insert_index xs key) key ≡ has_key key xs
unfolding insert_index key_at_is has_key
key_at_is-insert_index [] key lower upper s = refl
key_at_is-insert_index ((k, v) ∷ xs) key lower upper s = ground (
  arith,
  key_at_is-insert_index xs key (some (suc k)) upper s.2,
  has_key-lt xs key (suc k) upper s.2,
)

pub put-IsSorted :
    (xs : Items) (key offset : ℕ) (lower upper : Bound)
    → IsSorted lower upper xs
    → AtLeast lower key
    → Below upper key
    → has_key key xs ≡ false
    → IsSorted lower upper (put key offset xs)
unfolding put has_key
put-IsSorted [] key offset lower upper s l u h = (l, u, tt)
put-IsSorted ((k, v) ∷ xs) key offset lower upper s l u h =
    ground (arith, put-IsSorted xs key offset (some (suc k)) upper s.2)

pub length-put : (xs : Items) (key offset : ℕ) → length (put key offset xs) ≡ suc (length xs)
unfolding put
length-put [] key offset = refl
length-put ((k, v) ∷ xs) key offset = ground (arith, length-put xs key offset)

pub IsSorted-weaken :
    (xs : Items) (l m : ℕ) (upper : Bound)
    → l ≤ m
    → IsSorted (some m) upper xs
    → IsSorted (some l) upper xs
IsSorted-weaken [] l m upper h s = tt
IsSorted-weaken ((k, v) ∷ xs) l m upper h s = ground arith

pub first_key-drop :
    (n : ℕ) (xs : Items) (lower upper : Bound)
    → IsSorted lower upper xs
    → n < length xs
    → AtLeast lower (first_key (drop n xs)) × Below upper (first_key (drop n xs))
first_key-drop n [] lower upper s h = absurd (omega arith)
first_key-drop zero ((k, v) ∷ xs) lower upper s h = (s.0, s.1)
first_key-drop (suc n) ((k, v) ∷ xs) lower upper s h =
    ground (arith, first_key-drop n xs (some (suc k)) upper s.2)

-- A sorted array cut at `n` is two sorted arrays with the first key of the second between them.
pub take-IsSorted :
    (n : ℕ) (xs : Items) (lower upper : Bound)
    → IsSorted lower upper xs
    → n < length xs
    → IsSorted lower (some (first_key (drop n xs))) (take n xs)
take-IsSorted zero xs lower upper s h = tt
take-IsSorted (suc n) [] lower upper s h = absurd (omega arith)
take-IsSorted (suc n) ((k, v) ∷ xs) lower upper s h = ground (
  arith,
  first_key-drop n xs (some (suc k)) upper s.2,
  take-IsSorted n xs (some (suc k)) upper s.2,
)

pub drop-IsSorted :
    (n : ℕ) (xs : Items) (lower upper : Bound)
    → IsSorted lower upper xs
    → n < length xs
    → IsSorted (some (first_key (drop n xs))) upper (drop n xs)
drop-IsSorted n [] lower upper s h = absurd (omega arith)
drop-IsSorted zero ((k, v) ∷ xs) lower upper s h = ground arith
drop-IsSorted (suc n) ((k, v) ∷ xs) lower upper s h =
    drop-IsSorted n xs (some (suc k)) upper s.2 (omega arith)

-- The first key of the second part is in range, and above the lower bound if the first part is not empty.
pub IsRange-first_key :
    (n : ℕ) (xs : Items) (lower upper : Bound)
    → IsSorted lower upper xs
    → suc n < length xs
    → IsRange lower (some (first_key (drop (suc n) xs)))
IsRange-first_key n [] lower upper s h = absurd (omega arith)
IsRange-first_key n ((k, v) ∷ xs) lower upper s h =
    ground (arith, first_key-drop n xs (some (suc k)) upper s.2)

pub IsRange-trans :
    (lower upper : Bound) (k : ℕ)
    → IsRange lower (some k)
    → IsRange (some k) upper
    → IsRange lower upper
IsRange-trans lower upper k g h = ground arith

-- Arrays on the two sides of a separator.
pub IsSorted-lower :
    (k : ℕ) (lower upper : Bound) (xs : Items)
    → AtLeast lower k
    → IsSorted (some k) upper xs
    → IsSorted lower upper xs
IsSorted-lower k lower upper [] r s = tt
IsSorted-lower k lower upper ((j, v) ∷ xs) r s = ground arith

module _ (k : ℕ) (upper : Bound) where
  pub append-IsSorted :
      (xs ys : Items) (lower : Bound)
      → IsSorted lower (some k) xs
      → IsSorted (some k) upper ys
      → AtLeast lower k
      → IsRange (some k) upper
      → IsSorted lower upper (xs ++ ys)
  append-IsSorted [] ys lower sx sy r q = IsSorted-lower k lower upper ys r sy
  append-IsSorted ((j, v) ∷ xs) ys lower sx sy r q =
      ground (arith, append-IsSorted xs ys (some (suc j)) sx.2 sy, q)
