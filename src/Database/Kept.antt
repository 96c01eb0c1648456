-- ===== src/Database/Kept.antt =====
-- No value of a row that src/executor.c builds ends in `\r` if none of the statement does.
use bptree_sql_engine.Prelude.{
  ℕ, zero, suc, ◌+◌, ◌/◌, ◌%◌, ◌≡◌, refl, ◌∙◌, false, List, [], ◌∷◌, arith, ltb, Bytes, set, ap,
  length, Result, ok, err, replicate, All, Bool-cases, inl, inr,
}
use bptree_sql_engine.Storage.Row.{Row}
use bptree_sql_engine.Storage.FileLaws.{ends_in_cr, last_value}
use bptree_sql_engine.Runtime.Id.{digits, format_uint64}
use bptree_sql_engine.Sql.Ast.{LiteralValue}
use bptree_sql_engine.Executor.Insert.{ExecError, texts, add_cell, fill_rest, fill_around}

abbrev pub Keeps : Bytes → Type 0
Keeps value = ends_in_cr value ≡ false

abbrev pub AllKeep : Row → Type 0
AllKeep = All Keeps

pub last_value-AllKeep : (row : Row) → AllKeep row → ends_in_cr (last_value row) ≡ false
last_value-AllKeep [] h = refl
last_value-AllKeep (x ∷ []) h = h.0
last_value-AllKeep (x ∷ y ∷ row) h = last_value-AllKeep (y ∷ row) h.1

digits-ends :
    (fuel n c : ℕ) (out : Bytes) → ends_in_cr (digits fuel n (c ∷ out)) ≡ ends_in_cr (c ∷ out)
unfolding digits
digits-ends zero n c out = refl
digits-ends (suc fuel) n c out = elim (Bool-cases (ltb n 10)) [
  | inl e ↦ rw (e, digits) refl
  | inr e ↦ rw (e, digits) (digits-ends fuel (n / 10) (b'0' + n % 10) (c ∷ out))
]

pub format-Keeps : (n : ℕ) → Keeps (format_uint64 n)
unfolding format_uint64
format-Keeps n = elim (Bool-cases (ltb n 10)) [
  | inl e ↦ rw (e, digits) (ground arith)
  | inr e ↦ rw (e, digits) (digits-ends n (n / 10) (b'0' + n % 10) [] ∙ ground arith)
]

pub set-AllKeep : (row : Row) (i : ℕ) (v : Bytes) → AllKeep row → Keeps v → AllKeep (set row i v)
set-AllKeep [] i v h k = tt
set-AllKeep (x ∷ row) zero v h k = (k, h.1)
set-AllKeep (x ∷ row) (suc i) v h k = (h.0, set-AllKeep row i v h.1 k)

pub replicate-AllKeep : (n : ℕ) → AllKeep (replicate n [])
replicate-AllKeep zero = tt
replicate-AllKeep (suc n) = (refl, replicate-AllKeep n)

abbrev pub ValuesKeep : List LiteralValue → Type 0
ValuesKeep = All (λ value. ends_in_cr value.text ≡ false)

pub texts-AllKeep : (values : List LiteralValue) → ValuesKeep values → AllKeep (texts values)
texts-AllKeep [] h = tt
texts-AllKeep (value ∷ values) h = (h.0, texts-AllKeep values h.1)

-- What a row that is built is like: as long as the row that it was started from, and with no value
-- that ends in `\r`.
abbrev pub Placed : ℕ → Result ExecError Row → Type 0
Placed n (ok row) = (length row ≡ n) × AllKeep row
Placed n (err e) = Unit

add_cell-Placed :
    (n : ℕ) (cell : Bytes) (r : Result ExecError Row)
    → Keeps cell
    → Placed n r
    → Placed (suc n) (add_cell cell r)
add_cell-Placed n cell (ok row) k h = (ap suc h.0, (k, h.1))
add_cell-Placed n cell (err e) k h = tt

fill_rest-Placed : (row values : Row) → AllKeep values → Placed (length row) (fill_rest row values)
fill_rest-Placed [] values k = (refl, tt)
fill_rest-Placed (x ∷ row) [] k = tt
fill_rest-Placed (x ∷ row) (v ∷ values) k =
    add_cell-Placed (length row) v _ k.0 (fill_rest-Placed row values k.1)

pub fill_around-Placed :
    (i : ℕ) (row values : Row)
    → AllKeep row
    → AllKeep values
    → Placed (length row) (fill_around i row values)
unfolding fill_around
fill_around-Placed i [] values h k = (refl, tt)
fill_around-Placed zero (x ∷ row) values h k =
    add_cell-Placed (length row) x _ h.0 (fill_rest-Placed row values k)
fill_around-Placed (suc i) (x ∷ row) [] h k = tt
fill_around-Placed (suc i) (x ∷ row) (v ∷ values) h k =
    add_cell-Placed (length row) v _ k.0 (fill_around-Placed i row values h.1 k.1)
