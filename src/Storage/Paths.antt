-- ===== src/Storage/Paths.antt =====
-- The files of src/storage.c: which path belongs to which table, and what a write leaves alone.
use bptree_sql_engine.Prelude.{
  ℕ, ◌≡◌, ◌≢◌, refl, ap, ◌∙◌, subst, Option, none, some, [], ◌∷◌, ◌++◌, arith, Bytes, codes, length,
  length-append, Result, ok, err, Bool-cases, inl, inr,
}
use bptree_sql_engine.Storage.Row.{Row, write_row}
use bptree_sql_engine.Storage.File.{Disk, bytes_eq, write_file, directory_prefix, build_table_path}
use bptree_sql_engine.Storage.Table.{
  StorageError, data_path, touch, ensure_table_data_file, append_content,
  append_row_to_table_with_offset,
}
use bptree_sql_engine.Storage.TableLaws.{bytes_eq→eq}

pub append_cancel_left : (xs ys zs : Bytes) → xs ++ ys ≡ xs ++ zs → ys ≡ zs
append_cancel_left [] ys zs e = e
append_cancel_left (x ∷ xs) ys zs e = append_cancel_left xs ys zs cc

pub append_cancel_right : (xs ys zs : Bytes) → xs ++ zs ≡ ys ++ zs → xs ≡ ys
append_cancel_right [] [] zs e = refl
append_cancel_right (x ∷ xs) (y ∷ ys) zs e =
    let tails : xs ++ zs ≡ ys ++ zs = cc in
    let rest : xs ≡ ys = append_cancel_right xs ys zs tails in cc
append_cancel_right [] (y ∷ ys) zs e = absurd (omega (arith, ap length e, length-append ys zs))
append_cancel_right (x ∷ xs) [] zs e = absurd (omega (arith, ap length e, length-append xs zs))

-- Two tables of a directory have the same file only if they have the same name.
pub data_path-injective :
    (db_dir name other : Bytes) → data_path db_dir name ≡ data_path db_dir other → name ≡ other
unfolding build_table_path
data_path-injective db_dir name other e =
    append_cancel_right name other (codes ".data")
      (append_cancel_left (directory_prefix db_dir) _ _ e)

abbrev third_byte : Bytes → ℕ
third_byte (a ∷ b ∷ c ∷ cs) = c
third_byte cs = 0

suffixes-differ : (name other : Bytes) → name ++ codes ".schema" ≢ other ++ codes ".data"
suffixes-differ (x ∷ name) (y ∷ other) e = suffixes-differ name other cc
suffixes-differ [] [] e = absurd (omega (arith, ap length e))
suffixes-differ [] (a ∷ []) e = absurd (omega (arith, ap length e))
suffixes-differ [] (a ∷ b ∷ []) e =
    let third : b'c' ≡ b'.' = ap third_byte e in absurd (omega (arith, third))
suffixes-differ [] (a ∷ b ∷ c ∷ other) e =
    absurd (omega (arith, ap length e, length-append other (codes ".data")))
suffixes-differ (x ∷ name) [] e =
    absurd (omega (arith, ap length e, length-append name (codes ".schema")))

-- No table has the schema file of a table as its data.
pub schema_path-data_path :
    (db_dir name other : Bytes)
    → build_table_path db_dir name (codes ".schema") ≢ data_path db_dir other
unfolding build_table_path
schema_path-data_path db_dir name other e =
    suffixes-differ name other (append_cancel_left (directory_prefix db_dir) _ _ e)

-- Only the file at `path` may differ.
pub record ChangesOnly (path : Bytes) (disk disk' : Disk) : Type 0 where
  pub others : (p : Bytes) → p ≢ path → disk'.file p ≡ disk.file p
  pub refused : disk'.refused ≡ disk.refused

pub ChangesOnly-refl : (path : Bytes) (disk : Disk) → ChangesOnly path disk disk
ChangesOnly-refl path disk = record { others = λ p h. refl; refused = refl }

pub ChangesOnly-trans :
    (path : Bytes) (disk disk' disk'' : Disk)
    → ChangesOnly path disk disk'
    → ChangesOnly path disk' disk''
    → ChangesOnly path disk disk''
ChangesOnly-trans path disk disk' disk'' c d = record {
  others = λ p h. d.others p h ∙ c.others p h;
  refused = d.refused ∙ c.refused;
}

pub write_file-ChangesOnly :
    (path content : Bytes) (disk : Disk) → ChangesOnly path disk (write_file disk path content)
unfolding write_file
write_file-ChangesOnly path content disk = record {
  others = λ p h. elim (Bool-cases (bytes_eq p path)) [
    | inl e ↦ absurd (h (bytes_eq→eq p path e))
    | inr e ↦ rw e refl
  ];
  refused = refl;
}

pub touch-ChangesOnly :
    (path : Bytes) (disk : Disk) (o : Option Bytes) → ChangesOnly path disk (touch disk path o)
touch-ChangesOnly path disk none = write_file-ChangesOnly path [] disk
touch-ChangesOnly path disk (some content) = ChangesOnly-refl path disk

append_content-ChangesOnly :
    (path : Bytes) (disk : Disk) (row : Row) (o : Option Bytes)
    → ChangesOnly path disk (append_content disk path row o).0
append_content-ChangesOnly path disk row none = write_file-ChangesOnly path (write_row row) disk
append_content-ChangesOnly path disk row (some content) =
    write_file-ChangesOnly path (content ++ write_row row) disk

abbrev AppendChanges : Bytes → Disk → Result StorageError (Disk × ℕ) → Type 0
AppendChanges path disk (ok (disk', offset)) = ChangesOnly path disk disk'
AppendChanges path disk (err e) = Unit

append-AppendChanges :
    (disk : Disk) (db_dir name : Bytes) (row : Row)
    → AppendChanges
        (data_path db_dir name)
        disk
        (append_row_to_table_with_offset disk db_dir name row)
unfolding append_row_to_table_with_offset ensure_table_data_file
append-AppendChanges disk db_dir name [] = tt
append-AppendChanges disk db_dir name (value ∷ row) =
    let path = data_path db_dir name in
    let touched = touch disk path (disk.file path) in
    elim (Bool-cases (disk.refused path)) [
      | inl e ↦ rw e tt
      | inr e ↦ elim (Bool-cases (touched.refused path)) [
        | inl f ↦ rw (e, f) tt
        | inr f ↦
            rw (e, f)
              (ChangesOnly-trans path disk touched _ (touch-ChangesOnly path disk (disk.file path))
                (append_content-ChangesOnly path touched (value ∷ row) (touched.file path)))
      ]
    ]

-- An append changes no file but the data of its table.
pub append-ChangesOnly :
    (disk disk' : Disk) (db_dir name : Bytes) (row : Row) (offset : ℕ)
    → append_row_to_table_with_offset disk db_dir name row ≡ ok (disk', offset)
    → ChangesOnly (data_path db_dir name) disk disk'
append-ChangesOnly disk disk' db_dir name row offset e =
    subst (AppendChanges (data_path db_dir name) disk) e (append-AppendChanges disk db_dir name row)
