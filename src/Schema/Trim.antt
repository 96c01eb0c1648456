-- ===== src/Schema/Trim.antt =====
-- `trim_in_place` of src/schema.c, and `isspace` of the C library in the C locale.
use bptree_sql_engine.Prelude.{
  ℕ, Bool, true, false, ◌&&◌, ◌||◌, [], ◌∷◌, leb, ◌==◌, if◌then◌else◌, Bytes,
}

unfoldable pub is_space : ℕ → Bool
is_space c = c == b' ' || (leb 9 c && leb c 13)

-- The loop that moves `start`.
unfoldable pub trim_start : Bytes → Bytes
trim_start [] = []
trim_start (c ∷ text) = if is_space c then trim_start text else c ∷ text

abbrev pub keep : Bool → ℕ → Bytes → Bytes
keep true c [] = []
keep true c (d ∷ text) = c ∷ d ∷ text
keep false c text = c ∷ text

-- The loop that moves `end`: a space is dropped if nothing but spaces stands behind it.
unfoldable pub trim_end : Bytes → Bytes
trim_end [] = []
trim_end (c ∷ text) = keep (is_space c) c (trim_end text)

unfoldable pub trim_in_place : Bytes → Bytes
unfolding trim_start trim_end is_space
trim_in_place text = trim_end (trim_start text)
