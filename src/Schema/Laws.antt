-- ===== src/Schema/Laws.antt =====
-- `schema_find_column_index` of src/schema.c.
use bptree_sql_engine.Prelude.{
  ℕ, suc, ◌<◌, ◌≡◌, ◌⊎◌, refl, sym, ap, ◌∙◌, subst, Bool, true, false, Option, none, some, List, [],
  ◌∷◌, arith, if◌then◌else◌, Bytes, length, get_elem?, Bool-cases, inl, inr,
}
use bptree_sql_engine.Storage.File.{bytes_eq}
use bptree_sql_engine.Storage.TableLaws.{bytes_eq→eq}
use bptree_sql_engine.Schema.Load.{contains, next_index, schema_find_column_index}

-- Where an index comes from: it is 0 and the test passes, or it is one more than another.
pub head-or-later :
    (b : Bool) (rest : Option ℕ) (i : ℕ)
    → (if b then some 0 else next_index rest) ≡ some i
    → ((b ≡ true) × (i ≡ 0)) ⊎ ((b ≡ false) × (k : ℕ) × (rest ≡ some k) × (i ≡ suc k))
head-or-later true rest i e = inl (refl, some-injective (sym e))
  where
    some-injective : {a b : ℕ} → some a ≡ some b → a ≡ b
    some-injective p = cc
head-or-later false none i e = cc
head-or-later false (some k) i e = inr (refl, k, refl, some-injective (sym e))
  where
    some-injective : {a b : ℕ} → some a ≡ some b → a ≡ b
    some-injective p = cc

-- An index that is found is within the columns, and the column there has the name.
pub find_column-get_elem? :
    (columns : List Bytes) (name : Bytes) (i : ℕ)
    → schema_find_column_index columns name ≡ some i
    → (i < length columns) × (get_elem? columns i ≡ some name)
unfolding schema_find_column_index
find_column-get_elem? [] name i e = cc
find_column-get_elem? (column ∷ columns) name i e =
    elim (head-or-later (bytes_eq column name) (schema_find_column_index columns name) i e) [
      | inl (same, z) ↦
          subst (λ j. (j < suc (length columns)) × (get_elem? (column ∷ columns) j ≡ some name))
            (sym z) (omega arith, ap some (bytes_eq→eq column name same))
      | inr (other, k, found, s) ↦
          let rest = find_column-get_elem? columns name k found in
          subst (λ j. (j < suc (length columns)) × (get_elem? (column ∷ columns) j ≡ some name))
            (sym s) (omega (arith, rest.0), rest.1)
    ]

abbrev pub is_some : Option ℕ → Bool
is_some none = false
is_some (some i) = true

-- The search for a column finds an index exactly where one of the columns has the name, as the
-- comparison of a new column with the columns before it says.
pub find_column-contains :
    (columns : List Bytes) (name : Bytes)
    → is_some (schema_find_column_index columns name) ≡ contains columns name
unfolding schema_find_column_index contains
find_column-contains [] name = refl
find_column-contains (column ∷ columns) name = elim (Bool-cases (bytes_eq column name)) [
  | inl e ↦ rw e refl
  | inr e ↦
      rw e
        (is_some-next (schema_find_column_index columns name) ∙ find_column-contains columns name)
]
  where
    is_some-next : (o : Option ℕ) → is_some (next_index o) ≡ is_some o
    is_some-next none = refl
    is_some-next (some i) = refl
