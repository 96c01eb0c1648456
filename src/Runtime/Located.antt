-- ===== src/Runtime/Located.antt =====
-- The entries that the id index of a table should have.
use bptree_sql_engine.Prelude.{
  ℕ, ◌+◌, ◌≡◌, refl, sym, ap, ◌∙◌, false, Option, none, some, List, [], ◌∷◌, ◌++◌, arith, ◌==◌,
  if◌then◌else◌, length, length-append, ok, Option-cases, inl, inr,
}
use bptree_sql_engine.Bptree.Node.{Items, Tree}
use bptree_sql_engine.Bptree.Search.{scan_leaf}
use bptree_sql_engine.Bptree.Insert.{bptree_init, bptree_insert}
use bptree_sql_engine.Bptree.IdMap.{IdMap, bptree_id_map}
use bptree_sql_engine.Storage.Row.{Row, write_row}
use bptree_sql_engine.Storage.TableLaws.{write_rows}
use bptree_sql_engine.Runtime.Index.{stored_id}

-- The id of a row, where it has one, with the offset of the row.
abbrev pub entry_of : Option ℕ → ℕ → Items → Items
entry_of none offset xs = xs
entry_of (some id) offset xs = (id, offset) ∷ xs

-- The ids of rows, the first of which stands at `offset`.
abbrev pub located : ℕ → ℕ → List Row → Items
located i offset [] = []
located i offset (row ∷ rows) =
    entry_of (stored_id i row) offset (located i (offset + length (write_row row)) rows)

abbrev pub Distinct : Items → Type 0
Distinct [] = Unit
Distinct ((k, offset) ∷ xs) = (scan_leaf xs k ≡ none) × Distinct xs

pub scan_leaf-last :
    (xs : Items) (k offset j : ℕ)
    → scan_leaf xs k ≡ none
    → scan_leaf (xs ++ (k, offset) ∷ []) j ≡ (if k == j then some offset else scan_leaf xs j)
unfolding scan_leaf
scan_leaf-last [] k offset j h = refl
scan_leaf-last ((a, o) ∷ xs) k offset j h = ground (arith, scan_leaf-last xs k offset j)

scan_leaf-later :
    (xs : Items) (a o k : ℕ)
    → scan_leaf ((a, o) ∷ xs) k ≡ none
    → ((k == a) ≡ false) × (scan_leaf xs k ≡ none)
unfolding scan_leaf
scan_leaf-later xs a o k h = ground arith

pub Distinct-last :
    (xs : Items) (k offset : ℕ)
    → scan_leaf xs k ≡ none
    → Distinct xs
    → Distinct (xs ++ (k, offset) ∷ [])
unfolding scan_leaf
Distinct-last [] k offset h d = (refl, tt)
Distinct-last ((a, o) ∷ xs) k offset h d =
    let other = scan_leaf-later xs a o k h in
    (
      scan_leaf-last xs k offset a other.1 ∙ rw (other.0, d.0) refl,
      Distinct-last xs k offset other.1 d.1,
    )

pub scan_leaf-nil : (j : ℕ) → scan_leaf [] j ≡ none
unfolding scan_leaf
scan_leaf-nil j = refl

module _ {T : Type 0} (m : IdMap T) where
  -- A map that answers as a list of entries with distinct keys does.
  pub record Answers (t : T) (xs : Items) : Type 0 where
    pub shape : m.IsValid t
    pub answers : (j : ℕ) → m.search t j ≡ scan_leaf xs j
    pub distinct : Distinct xs

  pub Answers-init : Answers m.init []
  Answers-init = record {
    shape = m.valid_init;
    answers = λ j. m.search_init j ∙ sym (scan_leaf-nil j);
    distinct = tt;
  }

  pub insert-new :
      (t t' : T) (xs : Items) (k offset : ℕ)
      → Answers t xs
      → m.insert t k offset ≡ ok t'
      → scan_leaf xs k ≡ none
  insert-new t t' xs k offset h e = elim (Option-cases (m.search t k)) [
    | inl f ↦ sym (h.answers k) ∙ f
    | inr (o, f) ↦ absurd (cc (m.duplicate_insert t k offset o h.shape f, e))
  ]

  -- Insertion adds an entry.
  pub Answers-insert :
      (t t' : T) (xs : Items) (k offset : ℕ)
      → Answers t xs
      → m.insert t k offset ≡ ok t'
      → Answers t' (xs ++ (k, offset) ∷ [])
  Answers-insert t t' xs k offset h e =
      let new = insert-new t t' xs k offset h e in
      record {
        shape = m.valid_insert t t' k offset h.shape e;
        answers = λ j.
            m.search_insert t t' k offset j h.shape e
            ∙ ap (λ (o : Option ℕ). if k == j then some offset else o) (h.answers j)
            ∙ sym (scan_leaf-last xs k offset j new);
        distinct = Distinct-last xs k offset new h.distinct;
      }

-- The same of the B+Tree that a table keeps.
abbrev pub Indexes : Tree → Items → Type 0
Indexes = Answers bptree_id_map

pub Indexes-init : Indexes bptree_init []
Indexes-init = Answers-init bptree_id_map

pub fresh :
    (tree tree' : Tree) (xs : Items) (k offset : ℕ)
    → Indexes tree xs
    → bptree_insert tree k offset ≡ ok tree'
    → scan_leaf xs k ≡ none
fresh = insert-new bptree_id_map

pub Indexes-insert :
    (tree tree' : Tree) (xs : Items) (k offset : ℕ)
    → Indexes tree xs
    → bptree_insert tree k offset ≡ ok tree'
    → Indexes tree' (xs ++ (k, offset) ∷ [])
Indexes-insert = Answers-insert bptree_id_map

entry_of-append :
    (id : Option ℕ) (offset : ℕ) (xs ys : Items)
    → entry_of id offset (xs ++ ys) ≡ entry_of id offset xs ++ ys
entry_of-append none offset xs ys = refl
entry_of-append (some id) offset xs ys = refl

pub located-append :
    (i offset : ℕ) (rows : List Row) (row : Row)
    → located i offset (rows ++ row ∷ [])
      ≡ located i offset rows ++ entry_of (stored_id i row) (offset + length (write_rows rows)) []
located-append i offset [] row = ap (λ p. entry_of (stored_id i row) p []) (omega arith)
located-append i offset (r ∷ rows) row =
    ap (entry_of (stored_id i r) offset) (located-append i (offset + length (write_row r)) rows row)
    ∙ entry_of-append (stored_id i r) offset (located i (offset + length (write_row r)) rows) _
    ∙ ap (λ p. located i offset (r ∷ rows) ++ entry_of (stored_id i row) p [])
        (omega (arith, length-append (write_row r) (write_rows rows)))
