-- ===== src/Database/Tables.antt =====
-- The tables of a context: `find_table` of src/runtime.c, and a table that is changed in place.
use bptree_sql_engine.Prelude.{
  ℕ, zero, suc, ◌≡◌, ◌≢◌, refl, sym, ap, ◌∙◌, false, Option, none, some, List, [], ◌∷◌, ◌++◌, Bytes,
  length, get_elem?, set, All, subst, ◌⊎◌, Bool-cases, inl, inr,
}
use bptree_sql_engine.Storage.File.{bytes_eq}
use bptree_sql_engine.Storage.TableLaws.{bytes_eq_refl, bytes_eq→eq}
use bptree_sql_engine.Schema.Load.{next_index}
use bptree_sql_engine.Runtime.Context.{TableRuntime, find_table}
use bptree_sql_engine.Database.State.{DistinctNames}

find_table-nil : (name : Bytes) (i : ℕ) → find_table [] name ≢ some i
unfolding find_table
find_table-nil name i e = cc

find_table-nil-none : (name : Bytes) → find_table [] name ≡ none
unfolding find_table
find_table-nil-none name = refl

bytes_eq-absurd : (xs ys : Bytes) → xs ≡ ys → bytes_eq xs ys ≢ false
bytes_eq-absurd xs ys e f = cc (ap (bytes_eq xs) e, bytes_eq_refl xs, f)

bytes_eq_sym : (xs ys : Bytes) → bytes_eq xs ys ≡ false → bytes_eq ys xs ≡ false
bytes_eq_sym xs ys e = elim (Bool-cases (bytes_eq ys xs)) [
  | inl f ↦ absurd (bytes_eq-absurd xs ys (sym (bytes_eq→eq ys xs f)) e)
  | inr f ↦ f
]

-- Where a table is found: it is the first, or among the others.
abbrev Found : TableRuntime → List TableRuntime → Bytes → ℕ → Type 0
Found table tables name i =
    ((table.table_name ≡ name) × (i ≡ 0))
    ⊎ ((j : ℕ) × (bytes_eq table.table_name name ≡ false)
        × (find_table tables name ≡ some j)
        × (i ≡ suc j))

next_index-some :
    (o : Option ℕ) (i : ℕ) → next_index o ≡ some i → (j : ℕ) × (o ≡ some j) × (i ≡ suc j)
next_index-some none i e = absurd cc
next_index-some (some j) i e = (j, refl, cc)

find_table-Found :
    (table : TableRuntime) (tables : List TableRuntime) (name : Bytes) (i : ℕ)
    → find_table (table ∷ tables) name ≡ some i
    → Found table tables name i
unfolding find_table
find_table-Found table tables name i e = elim (Bool-cases (bytes_eq table.table_name name)) [
  | inl f ↦ inl (bytes_eq→eq table.table_name name f, cc (e, f))
  | inr f ↦
      let here : find_table (table ∷ tables) name ≡ next_index (find_table tables name) =
        rw f refl in
      let (j, g, h) = next_index-some (find_table tables name) i (sym here ∙ e) in inr (j, f, g, h)
]

-- The table that is found has the name.
pub find_table-get_elem? :
    (tables : List TableRuntime) (name : Bytes) (i : ℕ)
    → find_table tables name ≡ some i
    → (table : TableRuntime) × (get_elem? tables i ≡ some table) × (table.table_name ≡ name)
find_table-get_elem? [] name i e = absurd (find_table-nil name i e)
find_table-get_elem? (table ∷ tables) name i e = elim (find_table-Found table tables name i e) [
  | inl (same, at) ↦ (table, ap (get_elem? (table ∷ tables)) at, same)
  | inr (j, other, f, at) ↦
      let (t, here, same) = find_table-get_elem? tables name j f in
      (t, ap (get_elem? (table ∷ tables)) at ∙ here, same)
]

-- A table that is not first in the list.
find_table-skip :
    (table : TableRuntime) (tables : List TableRuntime) (name : Bytes)
    → bytes_eq table.table_name name ≡ false
    → find_table (table ∷ tables) name ≡ next_index (find_table tables name)
unfolding find_table
find_table-skip table tables name e = rw e refl

-- What a missing name says of the first table and of the others.
pub find_table-absent :
    (table : TableRuntime) (tables : List TableRuntime) (name : Bytes)
    → find_table (table ∷ tables) name ≡ none
    → (bytes_eq table.table_name name ≡ false) × (find_table tables name ≡ none)
unfolding find_table
find_table-absent table tables name e = elim (Bool-cases (bytes_eq table.table_name name)) [
  | inl f ↦ absurd (cc (e, f))
  | inr f ↦ (f, next_index-none (find_table tables name) (sym (rw f refl) ∙ e))
]
  where
    next_index-none : (o : Option ℕ) → next_index o ≡ none → o ≡ none
    next_index-none none e = refl
    next_index-none (some j) e = absurd cc

module _ (P Q : TableRuntime → Type 0) (name : Bytes)
    (others : (t : TableRuntime) → t.table_name ≢ name → P t → Q t) where
  -- All tables satisfy `Q` if none has the name.
  pub All-absent :
      (tables : List TableRuntime) → find_table tables name ≡ none → All P tables → All Q tables
  All-absent [] e h = tt
  All-absent (table ∷ tables) e (p, h) =
      let (differs, rest) = find_table-absent table tables name e in
      (
        others table (λ same. bytes_eq-absurd table.table_name name same differs) p,
        All-absent tables rest h,
      )

  -- All tables satisfy `Q` behind a change of the one with the name.
  pub All-set :
      (table' : TableRuntime) (tables : List TableRuntime) (i : ℕ)
      → find_table tables name ≡ some i
      → DistinctNames tables
      → Q table'
      → All P tables
      → All Q (set tables i table')
  All-set table' [] i e d q h = tt
  All-set table' (table ∷ tables) i e d q (p, h) = elim (find_table-Found table tables name i e) [
    | inl (same, at) ↦
        subst (λ k. All Q (set (table ∷ tables) k table')) (sym at)
          (q, All-absent tables (ap (find_table tables) (sym same) ∙ d.0) h)
    | inr (j, differs, f, at) ↦
        subst (λ k. All Q (set (table ∷ tables) k table')) (sym at)
          (
            others table (λ same. bytes_eq-absurd table.table_name name same differs) p,
            All-set table' tables j f d.1 q h,
          )
  ]

module _ (table' : TableRuntime) (name other : Bytes) (has_name : table'.table_name ≡ name) where
  find_table-set :
      (tables : List TableRuntime) (i : ℕ)
      → find_table tables name ≡ some i
      → find_table (set tables i table') other ≡ find_table tables other
  unfolding find_table
  find_table-set [] i e = refl
  find_table-set (table ∷ tables) i e = elim (find_table-Found table tables name i e) [
    | inl (same, at) ↦ rw (at, has_name, same) refl
    | inr (j, differs, f, at) ↦ rw (at, find_table-set tables j f) refl
  ]

-- A table that is changed in place keeps its name, and so all names stay distinct.
pub DistinctNames-set :
    (table' : TableRuntime) (name : Bytes) (tables : List TableRuntime) (i : ℕ)
    → table'.table_name ≡ name
    → find_table tables name ≡ some i
    → DistinctNames tables
    → DistinctNames (set tables i table')
DistinctNames-set table' name [] i e f d = tt
DistinctNames-set table' name (table ∷ tables) i e f d =
    elim (find_table-Found table tables name i f) [
      | inl (same, at) ↦
          subst (λ k. DistinctNames (set (table ∷ tables) k table')) (sym at)
            (ap (find_table tables) (e ∙ sym same) ∙ d.0, d.1)
      | inr (j, differs, g, at) ↦
          subst (λ k. DistinctNames (set (table ∷ tables) k table')) (sym at)
            (
              find_table-set table' name table.table_name e tables j g ∙ d.0,
              DistinctNames-set table' name tables j e g d.1,
            )
    ]

find_table-append :
    (tables : List TableRuntime) (table : TableRuntime) (name : Bytes)
    → bytes_eq table.table_name name ≡ false
    → find_table tables name ≡ none
    → find_table (tables ++ table ∷ []) name ≡ none
unfolding find_table
find_table-append [] table name e f = rw e refl
find_table-append (t ∷ tables) table name e f =
    let (differs, rest) = find_table-absent t tables name f in
    rw (differs, find_table-append tables table name e rest) refl

-- A table with a new name behind the others.
pub DistinctNames-append :
    (tables : List TableRuntime) (table : TableRuntime)
    → find_table tables table.table_name ≡ none
    → DistinctNames tables
    → DistinctNames (tables ++ table ∷ [])
DistinctNames-append [] table e d = (find_table-nil-none table.table_name, tt)
DistinctNames-append (t ∷ tables) table e d =
    let (differs, rest) = find_table-absent t tables table.table_name e in
    (
      find_table-append tables table t.table_name
          (bytes_eq_sym t.table_name table.table_name differs) d.0,
      DistinctNames-append tables table rest d.1,
    )

-- The new table is found behind the others.
pub find_table-last :
    (tables : List TableRuntime) (table : TableRuntime)
    → find_table tables table.table_name ≡ none
    → find_table (tables ++ table ∷ []) table.table_name ≡ some (length tables)
unfolding find_table
find_table-last [] table e = rw (bytes_eq_refl table.table_name) refl
find_table-last (t ∷ tables) table e =
    let (differs, rest) = find_table-absent t tables table.table_name e in
    rw (differs, find_table-last tables table rest) refl

pub get_elem?-last :
    {A : Type 0} (xs : List A) (x : A) → get_elem? (xs ++ x ∷ []) (length xs) ≡ some x
get_elem?-last [] x = refl
get_elem?-last (y ∷ xs) x = get_elem?-last xs x

pub All-get_elem? :
    {A : Type 0} (P : A → Type 0) (xs : List A) (i : ℕ) (x : A)
    → get_elem? xs i ≡ some x
    → All P xs
    → P x
All-get_elem? P [] i x e h = absurd cc
All-get_elem? P (y ∷ xs) zero x e (p, h) = let same : y ≡ x = cc in subst P same p
All-get_elem? P (y ∷ xs) (suc i) x e (p, h) = All-get_elem? P xs i x e h
