-- ===== src/Benchmark/Cli.antt =====
-- tools/benchmark_bptree.c: the command line of the benchmark.
--
-- The texts that it prints are left out; times are not part of the report.
use bptree_sql_engine.Prelude.{
  ℕ, ◌+◌, ◌-◌, ◌*◌, ◌%◌, ◌^◌, Bool, true, false, ◌==◌, ltb, Option, none, some, List, [], ◌∷◌,
  if◌then◌else◌, Bytes, codes, Result, ok, err,
}
use bptree_sql_engine.Storage.File.{Disk, bytes_eq}
use bptree_sql_engine.Schema.Trim.{trim_start}
use bptree_sql_engine.Sql.Lexer.{is_digit}
use bptree_sql_engine.Runtime.Id.{uint64_max}
use bptree_sql_engine.Runtime.Context.{init_execution_context}
use bptree_sql_engine.Executor.Execute.{State}
use bptree_sql_engine.Benchmark.Run.{BenchmarkError, BenchmarkReport, run_benchmark}

-- The digits that `strtoull` reads, behind `value`, and what is left.
unfoldable pub digits_value : Bytes → ℕ → ℕ × Bytes
digits_value [] value = (value, [])
digits_value (c ∷ text) value =
    if is_digit c then digits_value text (value * 10 + (c - b'0')) else (value, c ∷ text)

-- The value of `strtoull`, which is `ULLONG_MAX` for a greater number, and wraps for a negative one.
abbrev pub clamped : Bool → ℕ → ℕ
clamped negative value =
    if ltb uint64_max value
    then uint64_max
    else if negative
    then (2 ^ 64 - value) % 2 ^ 64
    else value

-- `*endptr == '\0'`
abbrev pub whole : Bool → ℕ × Bytes → Option ℕ
whole negative (value, []) = some (clamped negative value)
whole negative (value, c ∷ rest) = none

-- Without a digit nothing is converted, and `endptr` is `text`, which is not empty.
abbrev pub from_digits : Bool → Bytes → Option ℕ
from_digits negative [] = none
from_digits negative (c ∷ text) =
    if is_digit c then whole negative (digits_value (c ∷ text) 0) else none

-- `strtoull`, behind the spaces: an optional sign and the digits.
abbrev pub from_sign : Bytes → Option ℕ
from_sign [] = none
from_sign (c ∷ text) =
    if c == b'-'
    then from_digits true text
    else if c == b'+'
    then from_digits false text
    else from_digits false (c ∷ text)

unfoldable pub parse_size_arg : Bytes → Option ℕ
parse_size_arg text = from_sign (trim_start text)

pub record BenchmarkOptions : Type 0 where
  pub db_dir : Option Bytes
  pub table_name : Bytes
  pub row_count : ℕ
  pub probe_count : ℕ

abbrev pub default_options : BenchmarkOptions
default_options = record {
  db_dir = none;
  table_name = codes "users";
  row_count = 1000000;
  probe_count = 100;
}

pub data BenchmarkFlag : Type 0 where
  directory_flag table_flag rows_flag probes_flag other_flag : BenchmarkFlag

abbrev pub benchmark_flag_of : Bytes → BenchmarkFlag
benchmark_flag_of arg = elim (bytes_eq arg (codes "-d")) [
  | true ↦ directory_flag
  | false ↦ elim (bytes_eq arg (codes "-t")) [
    | true ↦ table_flag
    | false ↦ elim (bytes_eq arg (codes "-n")) [
      | true ↦ rows_flag
      | false ↦ elim (bytes_eq arg (codes "-p")) [ true ↦ probes_flag | false ↦ other_flag ]
    ]
  ]
]

-- The loop over `argv`. `none` is `STATUS_INVALID_ARGS`.
unfoldable pub parse_benchmark_args : List Bytes → BenchmarkOptions → Option BenchmarkOptions
parse_benchmark_args [] options = some options
parse_benchmark_args (arg ∷ []) options = none
parse_benchmark_args (arg ∷ value ∷ args) options = elim (benchmark_flag_of arg) [
  | directory_flag ↦ parse_benchmark_args args (record options { db_dir = some value })
  | table_flag ↦ parse_benchmark_args args (record options { table_name = value })
  | rows_flag ↦ elim (parse_size_arg value) [
    | none ↦ none
    | some count ↦ parse_benchmark_args args (record options { row_count = count })
  ]
  | probes_flag ↦ elim (parse_size_arg value) [
    | none ↦ none
    | some count ↦ parse_benchmark_args args (record options { probe_count = count })
  ]
  | other_flag ↦ none
]

-- What the program does: it refuses its arguments, or runs the benchmark.
pub data Ending : Type 0 where
  invalid_args : Ending
  benchmark_failed : BenchmarkError → Ending
  benchmark_reported : BenchmarkReport → Ending

abbrev pub ending : Result BenchmarkError BenchmarkReport × State → Ending × State
ending (err e, state) = (benchmark_failed e, state)
ending (ok report, state) = (benchmark_reported report, state)

abbrev pub run_options : (Bytes → Bool) → Disk → BenchmarkOptions → Option Bytes → Ending × State
run_options directory_fails disk options none = (invalid_args, (init_execution_context [], disk))
run_options directory_fails disk options (some db_dir) = ending (
    run_benchmark directory_fails disk db_dir options.table_name options.row_count
      options.probe_count)

abbrev pub run_parsed : (Bytes → Bool) → Disk → Option BenchmarkOptions → Ending × State
run_parsed directory_fails disk none = (invalid_args, (init_execution_context [], disk))
run_parsed directory_fails disk (some options) =
    run_options directory_fails disk options options.db_dir

unfoldable pub benchmark_main : (Bytes → Bool) → List Bytes → Disk → Ending × State
benchmark_main directory_fails args disk =
    run_parsed directory_fails disk (parse_benchmark_args args default_options)
