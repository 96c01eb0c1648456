-- ===== src/Runtime/IdLaws.antt =====
-- The texts that are accepted as ids are the decimal prints of the positive 64-bit numbers.
use bptree_sql_engine.Prelude.{
  ℕ, zero, suc, ◌+◌, ◌*◌, ◌/◌, ◌%◌, ◌^◌, ◌≤◌, ◌<◌, ◌≡◌, ◌≢◌, refl, sym, ap, ◌∙◌, false, some, [],
  ◌∷◌, ◌++◌, append_assoc, append-nil, arith, ltb, Bytes, Bool-cases, inl, inr,
}
use bptree_sql_engine.Runtime.Id.{
  uint64_max, digit_of, canonical_loop, parse_canonical_positive_uint64, digits, format_uint64,
}

digits-append : (fuel n : ℕ) (out : Bytes) → digits fuel n out ≡ digits fuel n [] ++ out
unfolding digits
digits-append zero n out = refl
digits-append (suc fuel) n out = elim (Bool-cases (ltb n 10)) [
  | inl e ↦ rw (e, digits)
  | inr e ↦
      rw (e, digits)
        (digits-append fuel (n / 10) ((b'0' + n % 10) ∷ out)
          ∙ sym (append_assoc (digits fuel (n / 10) []) ((b'0' + n % 10) ∷ []) out)
          ∙ ap (λ l. l ++ out) (sym (digits-append fuel (n / 10) ((b'0' + n % 10) ∷ []))))
]

digits_fuel :
    (fuel fuel' n : ℕ) (out : Bytes) → n < fuel → n < fuel' → digits fuel n out ≡ digits fuel' n out
unfolding digits
digits_fuel zero fuel' n out h h' = absurd (omega arith)
digits_fuel (suc fuel) zero n out h h' = absurd (omega arith)
digits_fuel (suc fuel) (suc fuel') n out h h' =
    ground (arith, digits_fuel fuel fuel' (n / 10) ((b'0' + n % 10) ∷ out))

format_digit : (d : ℕ) → d < 10 → format_uint64 d ≡ (b'0' + d) ∷ []
unfolding format_uint64
format_digit d h = ground arith

-- One more digit.
format_step :
    (v d : ℕ) → 0 < v → d < 10 → format_uint64 (v * 10 + d) ≡ format_uint64 v ++ (b'0' + d) ∷ []
unfolding format_uint64
format_step v d h g =
    let more : ltb (v * 10 + d) 10 ≡ false = ground arith in
    let high : (v * 10 + d) / 10 ≡ v = omega arith in
    let low : (v * 10 + d) % 10 ≡ d = omega arith in
    rw (more, digits, high, low)
      (digits_fuel (v * 10 + d) (suc v) v ((b'0' + d) ∷ []) (omega arith) (omega arith)
        ∙ digits-append (suc v) v ((b'0' + d) ∷ []))

abbrev IsDigit : ℕ → Type 0
IsDigit c = (b'0' ≤ c) × (c ≤ b'9')

-- A round that goes on has read a digit, and its product and sum have not wrapped around.
canonical_loop-cons :
    (c : ℕ) (text : Bytes) (v n : ℕ)
    → canonical_loop (c ∷ text) v ≡ some n
    → IsDigit c
      × (v * 10 + digit_of c ≤ uint64_max)
      × (canonical_loop text (v * 10 + digit_of c) ≡ some n)
unfolding canonical_loop
canonical_loop-cons c text v n e = ground arith

canonical_loop_sound :
    (text : Bytes) (v n : ℕ)
    → 0 < v
    → v ≤ uint64_max
    → canonical_loop text v ≡ some n
    → (format_uint64 n ≡ format_uint64 v ++ text) × (v ≤ n) × (n ≤ uint64_max)
unfolding canonical_loop
canonical_loop_sound [] v n h fits e = (rw append-nil (ground arith), ground arith, ground arith)
canonical_loop_sound (c ∷ text) v n h fits e =
    let (digit, small, rest) = canonical_loop-cons c text v n e in
    let (same, least, most) =
      canonical_loop_sound text (v * 10 + digit_of c) n (omega arith) small rest in
    let byte : b'0' + digit_of c ≡ c = omega arith in
    (
      same
          ∙ ap (λ l. l ++ text) (format_step v (digit_of c) h (omega arith))
          ∙ append_assoc (format_uint64 v) ((b'0' + digit_of c) ∷ []) text
          ∙ ap (λ (b : ℕ). format_uint64 v ++ b ∷ text) byte,
      omega arith,
      most,
    )

-- An accepted text is the decimal print of its value, which is positive and fits 64 bits: no sign, no
-- leading zero, no wrapped overflow.
pub parse_canonical_sound :
    (text : Bytes) (n : ℕ)
    → parse_canonical_positive_uint64 text ≡ some n
    → (text ≡ format_uint64 n) × (0 < n) × (n ≤ uint64_max)
unfolding parse_canonical_positive_uint64
parse_canonical_sound [] n e = cc
parse_canonical_sound (c ∷ text) n e =
    let nonzero : c ≢ b'0' = ground arith in
    let started : canonical_loop (c ∷ text) 0 ≡ some n = ground arith in
    let (digit, small, rest) = canonical_loop-cons c text 0 n started in
    let value : 0 * 10 + digit_of c ≡ digit_of c = omega arith in
    let (same, least, most) =
      canonical_loop_sound text (digit_of c) n (omega arith) (omega arith) (rw value at rest) in
    let byte : b'0' + digit_of c ≡ c = omega arith in
    (
      sym (
          same
          ∙ ap (λ l. l ++ text) (format_digit (digit_of c) (omega arith))
          ∙ ap (λ (b : ℕ). b ∷ text) byte),
      omega arith,
      most,
    )

canonical_loop-value :
    (d v : ℕ) (text : Bytes)
    → d < 10
    → v * 10 + d ≤ uint64_max
    → canonical_loop ((b'0' + d) ∷ text) v ≡ canonical_loop text (v * 10 + d)
unfolding canonical_loop
canonical_loop-value d v text h fits =
    let digit : digit_of (b'0' + d) ≡ d = omega arith in
    let whole : (v * 10 + d) % 2 ^ 64 ≡ v * 10 + d = omega arith in rw (digit, whole) (ground arith)

canonical_loop-digits :
    (fuel n : ℕ) (out : Bytes)
    → n < fuel
    → n ≤ uint64_max
    → canonical_loop (digits fuel n out) 0 ≡ canonical_loop out n
unfolding digits
canonical_loop-digits zero n out h fits = absurd (omega arith)
canonical_loop-digits (suc fuel) n out h fits = elim (Bool-cases (ltb n 10)) [
  | inl e ↦
      rw (e, digits)
        (canonical_loop-value n 0 out (ground arith) (omega arith)
          ∙ ap (canonical_loop out) (omega arith))
  | inr e ↦
      rw (e, digits)
        (canonical_loop-digits fuel (n / 10) ((b'0' + n % 10) ∷ out) (ground arith) (omega arith)
          ∙ canonical_loop-value (n % 10) (n / 10) out (omega arith) (omega arith)
          ∙ ap (canonical_loop out) (omega arith))
]

-- The print of a positive number starts with another digit than 0.
abbrev StartsNonzero : Bytes → Type 0
StartsNonzero [] = ⊥
StartsNonzero (c ∷ text) = c ≢ b'0'

digits-StartsNonzero :
    (fuel n : ℕ) (out : Bytes) → n < fuel → 0 < n → StartsNonzero (digits fuel n out)
unfolding digits
digits-StartsNonzero zero n out h p = absurd (omega arith)
digits-StartsNonzero (suc fuel) n out h p = elim (Bool-cases (ltb n 10)) [
  | inl e ↦ rw (e, digits, StartsNonzero) (omega arith)
  | inr e ↦
      rw (e, digits, StartsNonzero)
        (digits-StartsNonzero fuel (n / 10) ((b'0' + n % 10) ∷ out) (ground arith) (ground arith))
]

parse_canonical-loop :
    (text : Bytes)
    → StartsNonzero text
    → parse_canonical_positive_uint64 text ≡ canonical_loop text 0
unfolding parse_canonical_positive_uint64
parse_canonical-loop [] h = absurd h
parse_canonical-loop (c ∷ text) h = ground arith

-- The decimal print of every positive 64-bit number is accepted, with this number as its value.
pub parse-format :
    (n : ℕ) → 0 < n → n ≤ uint64_max → parse_canonical_positive_uint64 (format_uint64 n) ≡ some n
unfolding format_uint64 canonical_loop
parse-format n p fits =
    parse_canonical-loop (format_uint64 n) (digits-StartsNonzero (suc n) n [] (omega arith) p)
    ∙ canonical_loop-digits (suc n) n [] (omega arith) fits
    ∙ ground arith

-- Two texts with the same value are the same text.
pub parse_canonical-injective :
    (text other : Bytes) (n : ℕ)
    → parse_canonical_positive_uint64 text ≡ some n
    → parse_canonical_positive_uint64 other ≡ some n
    → text ≡ other
parse_canonical-injective text other n e f =
    (parse_canonical_sound text n e).0 ∙ sym ((parse_canonical_sound other n f).0)
