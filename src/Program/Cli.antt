-- ===== src/Program/Cli.antt =====
-- `parse_cli_args` of src/cli.c, on the arguments behind the program's name.
use bptree_sql_engine.Prelude.{
  Bool, true, false, ◌||◌, Option, none, some, List, [], ◌∷◌, Bytes, codes,
}
use bptree_sql_engine.Storage.File.{bytes_eq}

pub record CliOptions : Type 0 where
  pub db_dir : Option Bytes
  pub sql_file : Option Bytes
  pub help_requested : Bool

abbrev pub init_options : CliOptions
init_options = record { db_dir = none; sql_file = none; help_requested = false }

pub data Flag : Type 0 where
  help db file other : Flag

-- The chain of `strcmp`.
abbrev pub flag_of : Bytes → Flag
flag_of arg = elim (bytes_eq arg (codes "-h") || bytes_eq arg (codes "--help")) [
  | true ↦ help
  | false ↦ elim (bytes_eq arg (codes "-d") || bytes_eq arg (codes "--db")) [
    | true ↦ db
    | false ↦ elim (bytes_eq arg (codes "-f") || bytes_eq arg (codes "--file")) [
      | true ↦ file
      | false ↦ other
    ]
  ]
]

-- The loop over `argv`; an option that takes a value takes the next argument, whatever it is. `none`
-- is `STATUS_INVALID_ARGS`.
unfoldable pub parse_args : List Bytes → CliOptions → Option CliOptions
parse_args [] options = some options
parse_args (arg ∷ []) options = elim (flag_of arg) [
  | help ↦ some (record options { help_requested = true })
  | _ ↦ none
]
parse_args (arg ∷ value ∷ args) options = elim (flag_of arg) [
  | help ↦ parse_args (value ∷ args) (record options { help_requested = true })
  | db ↦ parse_args args (record options { db_dir = some value })
  | file ↦ parse_args args (record options { sql_file = some value })
  | other ↦ none
]

-- What the command line asks for.
pub data Command : Type 0 where
  show_usage : Command
  run : Bytes → Bytes → Command

abbrev pub paths : Option Bytes → Option Bytes → Option Command
paths (some db_dir) (some sql_file) = some (run db_dir sql_file)
paths (some db_dir) none = none
paths none sql_file = none

abbrev pub checked : Option CliOptions → Option Command
checked none = none
checked (some options) = elim options.help_requested [
  | true ↦ some show_usage
  | false ↦ paths options.db_dir options.sql_file
]

unfoldable pub parse_cli_args : List Bytes → Option Command
unfolding parse_args
parse_cli_args args = checked (parse_args args init_options)
