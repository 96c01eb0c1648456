-- ===== src/Benchmark/CliLaws.antt =====
-- The counts on the command line of tools/benchmark_bptree.c.
use bptree_sql_engine.Prelude.{
  ℕ, zero, suc, ◌+◌, ◌*◌, ◌/◌, ◌%◌, ◌≤◌, ◌<◌, ◌≡◌, refl, ap, ◌∙◌, true, false, ltb, ◌==◌, some, [],
  ◌∷◌, arith, Bytes, Bool-cases, inl, inr,
}
use bptree_sql_engine.Schema.Trim.{is_space, trim_start}
use bptree_sql_engine.Sql.Lexer.{is_digit}
use bptree_sql_engine.Runtime.Id.{uint64_max, digits, format_uint64}
use bptree_sql_engine.Benchmark.Cli.{digits_value, whole, parse_size_arg}

digits_value-digit :
    (d v : ℕ) (out : Bytes)
    → d < 10
    → digits_value ((b'0' + d) ∷ out) v ≡ digits_value out (v * 10 + d)
unfolding digits_value
digits_value-digit d v out h =
    let digit : is_digit (b'0' + d) ≡ true = ground arith in
    rw (digits_value, digit) (ap (λ n. digits_value out (v * 10 + n)) (omega arith))

digits_value-digits :
    (fuel n : ℕ) (out : Bytes) → n < fuel → digits_value (digits fuel n out) 0 ≡ digits_value out n
unfolding digits
digits_value-digits zero n out h = absurd (omega arith)
digits_value-digits (suc fuel) n out h = elim (Bool-cases (ltb n 10)) [
  | inl e ↦
      rw (e, digits)
        (digits_value-digit n 0 out (ground arith) ∙ ap (digits_value out) (omega arith))
  | inr e ↦
      rw (e, digits)
        (digits_value-digits fuel (n / 10) ((b'0' + n % 10) ∷ out) (ground arith)
          ∙ digits_value-digit (n % 10) (n / 10) out (omega arith)
          ∙ ap (digits_value out) (omega arith))
]

-- The first byte of a number is a digit.
abbrev StartsWithDigit : Bytes → Type 0
StartsWithDigit [] = ⊥
StartsWithDigit (c ∷ text) = (b'0' ≤ c) × (c ≤ b'9')

digits-StartsWithDigit : (fuel n : ℕ) (out : Bytes) → n < fuel → StartsWithDigit (digits fuel n out)
unfolding digits
digits-StartsWithDigit zero n out h = absurd (omega arith)
digits-StartsWithDigit (suc fuel) n out h = elim (Bool-cases (ltb n 10)) [
  | inl e ↦ rw (e, digits, StartsWithDigit) (ground arith)
  | inr e ↦
      rw (e, digits, StartsWithDigit)
        (digits-StartsWithDigit fuel (n / 10) ((b'0' + n % 10) ∷ out) (ground arith))
]

parse_size_arg-digits :
    (text : Bytes) → StartsWithDigit text → parse_size_arg text ≡ whole false (digits_value text 0)
unfolding parse_size_arg trim_start is_space
parse_size_arg-digits [] h = absurd h
parse_size_arg-digits (c ∷ text) h =
    let no_space : is_space c ≡ false = ground arith in
    let no_minus : (c == b'-') ≡ false = ground arith in
    let no_plus : (c == b'+') ≡ false = ground arith in
    let digit : is_digit c ≡ true = ground arith in rw (no_space, no_minus, no_plus, digit) refl

-- A count that is printed in decimal digits is read back from the command line, if it fits 64 bits.
pub parse_size_arg-format : (n : ℕ) → n ≤ uint64_max → parse_size_arg (format_uint64 n) ≡ some n
unfolding format_uint64 digits_value
parse_size_arg-format n h =
    parse_size_arg-digits (digits (suc n) n []) (digits-StartsWithDigit (suc n) n [] (omega arith))
    ∙ ap (whole false) (digits_value-digits (suc n) n [] (omega arith))
    ∙ ground arith
