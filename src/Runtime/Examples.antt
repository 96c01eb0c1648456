-- ===== src/Runtime/Examples.antt =====
-- Ids as texts, as src/runtime.c reads them.
use bptree_sql_engine.Prelude.{◌≤◌, ◌<◌, ◌≡◌, refl, some, arith, codes}
use bptree_sql_engine.Runtime.Id.{uint64_max, parse_canonical_positive_uint64, format_uint64}
use bptree_sql_engine.Runtime.IdLaws.{
  parse_canonical_sound, parse-format, parse_canonical-injective,
}

parse_canonical_sound_example :
    (codes "1024" ≡ format_uint64 1024) × (0 < 1024) × (1024 ≤ uint64_max)
unfolding parse_canonical_positive_uint64
parse_canonical_sound_example = parse_canonical_sound (codes "1024") 1024 refl

parse-format_example : parse_canonical_positive_uint64 (format_uint64 uint64_max) ≡ some uint64_max
parse-format_example = parse-format uint64_max (omega arith) (omega arith)

parse_canonical-injective_example : codes "70" ≡ format_uint64 70
unfolding parse_canonical_positive_uint64
parse_canonical-injective_example =
    parse_canonical-injective (codes "70") (format_uint64 70) 70 refl
      (parse-format 70 (omega arith) (omega arith))
