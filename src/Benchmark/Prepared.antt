-- ===== src/Benchmark/Prepared.antt =====
-- The files that `ensure_benchmark_schema` of src/benchmark.c prepares.
use bptree_sql_engine.Prelude.{
  ℕ, zero, suc, ◌≤◌, ◌<◌, ◌≡◌, ◌≢◌, refl, sym, ap, ◌∙◌, subst, Bool, false, some, List, [], ◌∷◌,
  ◌++◌, append_assoc, arith, if◌then◌else◌, Bytes, codes, length, take, ok, err, Bool-cases, inl,
  inr,
}
use bptree_sql_engine.Storage.Row.{Row}
use bptree_sql_engine.Storage.File.{
  Disk, bytes_eq, write_file, ends_in_separator, directory_prefix, build_table_path, read_chunk,
  strip_cr, read_line,
}
use bptree_sql_engine.Storage.Table.{data_path}
use bptree_sql_engine.Storage.TableLaws.{stored, bytes_eq_refl, bytes_eq→eq}
use bptree_sql_engine.Storage.Paths.{
  ChangesOnly, write_file-ChangesOnly, append_cancel_left, append_cancel_right,
  schema_path-data_path,
}
use bptree_sql_engine.Schema.Trim.{is_space, trim_start, trim_end, trim_in_place}
use bptree_sql_engine.Schema.Load.{
  cannot_open_schema, TableSchema, contains, read_columns, schema_of, schema_path,
  load_table_schema,
}
use bptree_sql_engine.Database.State.{Database, Holds}
use bptree_sql_engine.Database.Frame.{load_table_schema-frame, Holds-frame}
use bptree_sql_engine.Benchmark.Run.{file_path, schema_text}
use bptree_sql_engine.Benchmark.Rows.{benchmark_schema}

take-all : (n : ℕ) (xs : Bytes) → length xs ≤ n → take n xs ≡ xs
take-all zero [] h = refl
take-all zero (x ∷ xs) h = absurd (omega arith)
take-all (suc n) [] h = refl
take-all (suc n) (x ∷ xs) h = ap (λ l. x ∷ l) (take-all n xs (omega arith))

-- The path that the benchmark writes is the one that the engine reads: the directory does not end in
-- a separator, and the path fits the buffer.
pub file_path-table_path :
    (db_dir table_name suffix : Bytes)
    → db_dir ≢ []
    → ends_in_separator db_dir ≡ false
    → length (build_table_path db_dir table_name suffix) < 1024
    → file_path db_dir table_name suffix ≡ build_table_path db_dir table_name suffix
unfolding build_table_path directory_prefix
file_path-table_path [] table_name suffix h e fits = absurd (h refl)
file_path-table_path (c ∷ cs) table_name suffix h e fits =
    let same : (c ∷ cs) ++ (codes "/" ++ (table_name ++ suffix))
        ≡ build_table_path (c ∷ cs) table_name suffix =
      sym (append_assoc (c ∷ cs) (codes "/") (table_name ++ suffix))
      ∙ ap (λ (b : Bool). (if b then c ∷ cs else (c ∷ cs) ++ b'/' ∷ []) ++ (table_name ++ suffix))
          (sym e) in
    ap (take 1023) same ∙ take-all 1023 (build_table_path (c ∷ cs) table_name suffix) (omega arith)

schema_path-injective :
    (db_dir name other : Bytes) → schema_path db_dir name ≡ schema_path db_dir other → name ≡ other
unfolding build_table_path
schema_path-injective db_dir name other e =
    append_cancel_right name other (codes ".schema")
      (append_cancel_left (directory_prefix db_dir) _ _ e)

write_file-file :
    (disk : Disk) (path content : Bytes) → (write_file disk path content).file path ≡ some content
unfolding write_file
write_file-file disk path content = rw (bytes_eq_refl path) refl

module _ (disk : Disk) (db_dir table_name : Bytes) where
  -- The disk behind the two writes.
  abbrev pub with_schema : Disk
  with_schema = write_file disk (schema_path db_dir table_name) schema_text

  abbrev pub prepared : Disk
  prepared = write_file with_schema (data_path db_dir table_name) []

  schema-changes : ChangesOnly (schema_path db_dir table_name) disk with_schema
  schema-changes = write_file-ChangesOnly (schema_path db_dir table_name) schema_text disk

  data-changes : ChangesOnly (data_path db_dir table_name) with_schema prepared
  data-changes = write_file-ChangesOnly (data_path db_dir table_name) [] with_schema

  pub schema-refused : with_schema.refused ≡ disk.refused
  schema-refused = schema-changes.refused

  pub prepared-refused : prepared.refused ≡ disk.refused
  prepared-refused = data-changes.refused ∙ schema-changes.refused

  -- The table has the benchmark's schema.
  pub prepared-schema :
      disk.refused (schema_path db_dir table_name) ≡ false
      → load_table_schema prepared db_dir table_name ≡ ok (benchmark_schema table_name)
  unfolding load_table_schema read_columns read_line read_chunk strip_cr trim_in_place trim_start
      trim_end is_space contains
  prepared-schema e =
      let path = schema_path db_dir table_name in
      let content : prepared.file path ≡ some schema_text =
        data-changes.others path (schema_path-data_path db_dir table_name table_name)
        ∙ write_file-file disk path schema_text in
      let open_to : prepared.refused path ≡ false = ap (λ r. r path) prepared-refused ∙ e in
      ap
        (λ (b : Bool).
          if b then err cannot_open_schema else schema_of table_name (prepared.file path))
        open_to
      ∙ ap (schema_of table_name) content

  -- The rows of the other tables, and none in this one.
  abbrev pub emptied : Database → Database
  emptied db name = if bytes_eq name table_name then [] else db name

  other-schema :
      (name : Bytes)
      → name ≢ table_name
      → load_table_schema prepared db_dir name ≡ load_table_schema disk db_dir name
  unfolding load_table_schema
  other-schema name h =
      let path = schema_path db_dir name in
      load_table_schema-frame with_schema prepared db_dir table_name data-changes name
      ∙ ap (λ r. if r path then err cannot_open_schema else schema_of name (with_schema.file path))
          schema-changes.refused
      ∙ ap (λ o. if disk.refused path then err cannot_open_schema else schema_of name o)
          (schema-changes.others path (λ e. h (schema_path-injective db_dir name table_name e)))

  other-Holds :
      (name : Bytes) (schema : TableSchema) (rows : List Row)
      → name ≢ table_name
      → Holds disk db_dir name schema rows
      → Holds prepared db_dir name schema rows
  other-Holds name schema rows h held =
      Holds-frame with_schema prepared db_dir table_name data-changes name schema rows h (record {
        content =
            ap stored (
              schema-changes.others (data_path db_dir name)
                (λ e. schema_path-data_path db_dir table_name name (sym e)))
            ∙ held.content;
        shapes = held.shapes;
      })

  -- The files hold what they held, and no row of the table.
  pub prepared-Holds :
      (db : Database)
      → ((name : Bytes) (schema : TableSchema)
          → name ≢ table_name
          → load_table_schema disk db_dir name ≡ ok schema
          → Holds disk db_dir name schema (db name))
      → (name : Bytes) (schema : TableSchema) → load_table_schema prepared db_dir name ≡ ok schema
      → Holds prepared db_dir name schema (emptied db name)
  prepared-Holds db others name schema e = elim (Bool-cases (bytes_eq name table_name)) [
    | inl f ↦
        subst (λ rows. Holds prepared db_dir name schema rows)
          (sym (ap (λ (b : Bool). if b then [] else db name) f))
          (subst (λ n. Holds prepared db_dir n schema []) (sym (bytes_eq→eq name table_name f))
            (record {
              content = ap stored (write_file-file with_schema (data_path db_dir table_name) []);
              shapes = tt;
            }))
    | inr f ↦
        let differs : name ≢ table_name =
          λ same. cc (ap (bytes_eq name) same, bytes_eq_refl name, f) in
        subst (λ rows. Holds prepared db_dir name schema rows)
          (sym (ap (λ (b : Bool). if b then [] else db name) f))
          (other-Holds name schema (db name) differs
            (others name schema differs (sym (other-schema name differs) ∙ e)))
  ]
