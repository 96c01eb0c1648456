-- ===== src/Program/PrintWidths.antt =====
-- The widths of the columns that `print_exec_result` of src/result.c computes, and of its lines.
use bptree_sql_engine.Prelude.{
  ℕ, zero, suc, ◌+◌, ◌-◌, ◌≤◌, ◌≡◌, refl, sym, ap, ◌∙◌, List, [], ◌∷◌, ◌++◌, arith, Bytes, codes,
  length, length-append, replicate, All,
}
use bptree_sql_engine.Storage.Row.{Row}
use bptree_sql_engine.Program.Print.{
  space, dash, widen, column_widths, pad, row_line, separator_line,
}

-- A value for each column, and no value wider than its column.
abbrev pub Fits : List ℕ → Row → Type 0
Fits [] [] = Unit
Fits [] (value ∷ row) = ⊥
Fits (width ∷ widths) [] = ⊥
Fits (width ∷ widths) (value ∷ row) = (length value ≤ width) × Fits widths row

-- The width of a line: three bytes between two columns.
abbrev pub line_width : List ℕ → ℕ
line_width [] = 0
line_width (width ∷ []) = width
line_width (width ∷ width' ∷ widths) = width + (3 + line_width (width' ∷ widths))

length-replicate : {A : Type 0} (n : ℕ) (x : A) → length (replicate n x) ≡ n
length-replicate zero x = refl
length-replicate (suc n) x = ap suc (length-replicate n x)

pub length-pad :
    (width : ℕ) (value : Bytes) → length value ≤ width → length (pad width value) ≡ width
length-pad width value h = omega (
  arith,
  length-append value (replicate (width - length value) space),
  length-replicate (width - length value) space,
  h,
)

length-three :
    (x y : Bytes) (a b : ℕ) (separator : Bytes)
    → length x ≡ a
    → length y ≡ b
    → length separator ≡ 3
    → length (x ++ (separator ++ y)) ≡ a + (3 + b)
length-three x y a b separator e f g =
    omega (arith, length-append x (separator ++ y), length-append separator y, e, f, g)

pub length-row_line :
    (widths : List ℕ) (row : Row)
    → Fits widths row
    → length (row_line widths row) ≡ line_width widths
unfolding row_line
length-row_line [] [] h = refl
length-row_line (width ∷ []) (value ∷ []) h = length-pad width value h.0
length-row_line (width ∷ width' ∷ widths) (value ∷ value' ∷ row) h =
    length-three (pad width value) (row_line (width' ∷ widths) (value' ∷ row)) width _ (codes " | ")
      (length-pad width value h.0) (length-row_line (width' ∷ widths) (value' ∷ row) h.1) refl
length-row_line [] (value ∷ row) h = absurd h
length-row_line (width ∷ []) (value ∷ value' ∷ row) h = absurd h.1
length-row_line (width ∷ width' ∷ widths) (value ∷ []) h = absurd h.1
length-row_line (width ∷ widths) [] h = absurd h

pub length-separator_line : (widths : List ℕ) → length (separator_line widths) ≡ line_width widths
unfolding separator_line
length-separator_line [] = refl
length-separator_line (width ∷ []) = length-replicate width dash
length-separator_line (width ∷ width' ∷ widths) =
    length-three (replicate width dash) (separator_line (width' ∷ widths)) width _ (codes "-+-")
      (length-replicate width dash) (length-separator_line (width' ∷ widths)) refl

-- `widths'` are at least as wide as `widths`, column by column.
abbrev pub Wider : List ℕ → List ℕ → Type 0
Wider [] [] = Unit
Wider [] (w ∷ ws) = ⊥
Wider (w ∷ ws) [] = ⊥
Wider (w ∷ ws) (w' ∷ ws') = (w ≤ w') × Wider ws ws'

Wider-refl : (ws : List ℕ) → Wider ws ws
Wider-refl [] = tt
Wider-refl (w ∷ ws) = (omega arith, Wider-refl ws)

Wider-trans : (us vs ws : List ℕ) → Wider us vs → Wider vs ws → Wider us ws
Wider-trans [] [] [] h g = tt
Wider-trans (u ∷ us) (v ∷ vs) (w ∷ ws) h g = (omega (arith, h.0, g.0), Wider-trans us vs ws h.1 g.1)
Wider-trans [] (v ∷ vs) ws h g = absurd h
Wider-trans (u ∷ us) [] ws h g = absurd h
Wider-trans [] [] (w ∷ ws) h g = absurd g
Wider-trans (u ∷ us) (v ∷ vs) [] h g = absurd g

pub Fits-Wider : (us vs : List ℕ) (row : Row) → Wider us vs → Fits us row → Fits vs row
Fits-Wider [] [] [] h g = tt
Fits-Wider (u ∷ us) (v ∷ vs) (value ∷ row) h g =
    (omega (arith, h.0, g.0), Fits-Wider us vs row h.1 g.1)
Fits-Wider [] (v ∷ vs) row h g = absurd h
Fits-Wider (u ∷ us) [] row h g = absurd h
Fits-Wider [] [] (value ∷ row) h g = absurd g
Fits-Wider (u ∷ us) (v ∷ vs) [] h g = absurd g

widen-Wider : (ws : List ℕ) (row : Row) → Wider ws (widen ws row)
unfolding widen
widen-Wider [] row = tt
widen-Wider (w ∷ ws) [] = Wider-refl (w ∷ ws)
widen-Wider (w ∷ ws) (value ∷ row) = (ground arith, widen-Wider ws row)

widen-Fits : (ws : List ℕ) (row : Row) → length row ≡ length ws → Fits (widen ws row) row
unfolding widen
widen-Fits [] [] h = tt
widen-Fits [] (value ∷ row) h = absurd (omega (arith, h))
widen-Fits (w ∷ ws) [] h = absurd (omega (arith, h))
widen-Fits (w ∷ ws) (value ∷ row) h = (ground arith, widen-Fits ws row (omega (arith, h)))

pub length-Wider : (us vs : List ℕ) → Wider us vs → length vs ≡ length us
length-Wider [] [] h = refl
length-Wider (u ∷ us) (v ∷ vs) h = ap suc (length-Wider us vs h.1)
length-Wider [] (v ∷ vs) h = absurd h
length-Wider (u ∷ us) [] h = absurd h

pub column_widths-Wider : (ws : List ℕ) (rows : List Row) → Wider ws (column_widths ws rows)
unfolding column_widths
column_widths-Wider ws [] = Wider-refl ws
column_widths-Wider ws (row ∷ rows) =
    Wider-trans ws (widen ws row) _ (widen-Wider ws row) (column_widths-Wider (widen ws row) rows)

-- The widths fit every row with a value for each column.
pub column_widths-Fits :
    (n : ℕ) (ws : List ℕ) (rows : List Row)
    → length ws ≡ n
    → All (λ row. length row ≡ n) rows
    → All (Fits (column_widths ws rows)) rows
unfolding column_widths
column_widths-Fits n ws [] e h = tt
column_widths-Fits n ws (row ∷ rows) e (shape, h) =
    let same : length row ≡ length ws = shape ∙ sym e in
    (
      Fits-Wider (widen ws row) _ row (column_widths-Wider (widen ws row) rows)
          (widen-Fits ws row same),
      column_widths-Fits n (widen ws row) rows
          (length-Wider ws (widen ws row) (widen-Wider ws row) ∙ e) h,
    )
