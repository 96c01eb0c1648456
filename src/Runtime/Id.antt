-- ===== src/Runtime/Id.antt =====
-- `parse_canonical_positive_uint64`, `parse_stored_id_value` and `try_parse_indexable_id_literal` of
-- src/runtime.c, and the format `%PRIu64` of the C library, with which src/executor.c prints ids.
use bptree_sql_engine.Prelude.{
  ℕ, zero, suc, ◌+◌, ◌-◌, ◌*◌, ◌/◌, ◌%◌, ◌^◌, true, false, ◌||◌, Option, none, some, [], ◌∷◌, ltb,
  ◌==◌, if◌then◌else◌, Bytes,
}

-- `UINT64_MAX`
abbrev pub uint64_max : ℕ
uint64_max = 18446744073709551615

abbrev pub digit_of : ℕ → ℕ
digit_of c = c - b'0'

-- The loop over `text[i]`, with `value`; the last test stands behind the loop.
unfoldable pub canonical_loop : Bytes → ℕ → Option ℕ
canonical_loop [] value = if value == 0 then none else some value
canonical_loop (c ∷ text) value =
    if ltb c b'0' || ltb b'9' c
    then none
    else if ltb ((uint64_max - digit_of c) / 10) value
    then none
    else canonical_loop text ((value * 10 + digit_of c) % 2 ^ 64)

unfoldable pub parse_canonical_positive_uint64 : Bytes → Option ℕ
unfolding canonical_loop
parse_canonical_positive_uint64 [] = none
parse_canonical_positive_uint64 (c ∷ text) = if c == b'0' then none else canonical_loop (c ∷ text) 0

-- The digits of `n`, put in front of `out`. The number gets smaller in each round, so fuel above it
-- is enough.
unfoldable pub digits : ℕ → ℕ → Bytes → Bytes
digits zero n out = out
digits (suc fuel) n out = elim (ltb n 10) [
  | true ↦ (b'0' + n) ∷ out
  | false ↦ digits fuel (n / 10) ((b'0' + n % 10) ∷ out)
]

unfoldable pub format_uint64 : ℕ → Bytes
unfolding digits
format_uint64 n = digits (suc n) n []
