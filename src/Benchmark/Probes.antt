-- ===== src/Benchmark/Probes.antt =====
-- The probes of src/benchmark.c find one row each.
use bptree_sql_engine.Prelude.{
  ℕ, zero, suc, ◌+◌, ◌≤◌, ◌<◌, ◌≡◌, refl, ap, ◌∙◌, Bool, true, false, Option, some, List, [], ◌∷◌,
  ◌++◌, arith, ◌==◌, if◌then◌else◌, Bytes, length, length-append, ok, ◌⊎◌, inl, inr, ==→eq,
  Bool-cases,
}
use bptree_sql_engine.Storage.Row.{Row}
use bptree_sql_engine.Schema.Load.{TableSchema, schema_find_column_index}
use bptree_sql_engine.Runtime.Id.{uint64_max, format_uint64}
use bptree_sql_engine.Runtime.IdLaws.{parse-format}
use bptree_sql_engine.Sql.Ast.{SelectStatement}
use bptree_sql_engine.Executor.Select.{
  row_matches_where_clause, project_single_row, where_index_of, validate_select_columns,
}
use bptree_sql_engine.Executor.Indexed.{select_rows, matches-id}
use bptree_sql_engine.Executor.Session.{select_rows-append}
use bptree_sql_engine.Database.State.{by_index, is_canonical}
use bptree_sql_engine.Benchmark.Run.{probe, id_clause, name_clause}
use bptree_sql_engine.Benchmark.Rows.{benchmark_schema, benchmark_row, benchmark_rows}

compare_keys : (m key : ℕ) → key ≤ suc m → (key ≡ m + 1) ⊎ (key ≤ m)
compare_keys m key h = elim (Bool-cases (key == m + 1)) [
  | inl e ↦ inl (==→eq key (m + 1) e)
  | inr e ↦ inr (ground arith)
]

-- A condition that the row of round `i` satisfies where `i + 1` is `key`.
module _ (schema : TableSchema) (stmt : SelectStatement) (w : Option ℕ) (key n : ℕ)
    (picks : (i : ℕ)
      → i < n
      → row_matches_where_clause stmt w (benchmark_row i) ≡ (i + 1 == key)) where
  abbrev pub matching : ℕ → List Row
  matching m = select_rows schema stmt w (benchmark_rows m)

  more :
      (m : ℕ)
      → m < n
      → length (matching (suc m)) ≡ length (matching m) + (if m + 1 == key then 1 else 0)
  more m h =
      ap length (select_rows-append schema stmt w (benchmark_rows m) (benchmark_row m ∷ []))
      ∙ length-append (matching m) _
      ∙ ap (λ k. length (matching m) + k)
          (one (row_matches_where_clause stmt w (benchmark_row m)) (picks m h))
    where
      one :
          (b : Bool)
          → b ≡ (m + 1 == key)
          → length ((if b then project_single_row schema stmt (benchmark_row m) ∷ [] else []) ++ [])
            ≡ (if m + 1 == key then 1 else 0)
      one true e = ap (λ (c : Bool). if c then 1 else 0) e
      one false e = ap (λ (c : Bool). if c then 1 else 0) e

  none_before : (m : ℕ) → m ≤ n → m < key → length (matching m) ≡ 0
  none_before zero h g = refl
  none_before (suc m) h g =
      let before = none_before m (omega arith) (omega arith) in
      more m (omega arith) ∙ ground (arith, before)

  -- Exactly one row is found.
  pub one_match : (m : ℕ) → m ≤ n → 0 < key → key ≤ m → length (matching m) ≡ 1
  one_match zero h p g = absurd (omega arith)
  one_match (suc m) h p g = elim (compare_keys m key g) [
    | inl e ↦
        let before = none_before m (omega arith) (omega arith) in
        more m (omega arith) ∙ ground (arith, before)
    | inr e ↦
        let before = one_match m (omega arith) p e in more m (omega arith) ∙ ground (arith, before)
  ]

module _ (table_name : Bytes) (key i : ℕ) (p : 0 < key) (fits : key ≤ uint64_max)
    (row_fits : i + 1 ≤ uint64_max) where
  pub id-picks :
      row_matches_where_clause (probe table_name (id_clause key)) (some 0) (benchmark_row i)
      ≡ (i + 1 == key)
  unfolding row_matches_where_clause
  id-picks =
      matches-id (i + 1) key (some (format_uint64 (i + 1))) (format_uint64 key)
        (parse-format (i + 1) (omega arith) row_fits) (parse-format key p fits)

  pub name-picks :
      row_matches_where_clause (probe table_name (name_clause key)) (some 1) (benchmark_row i)
      ≡ (i + 1 == key)
  unfolding row_matches_where_clause
  name-picks =
      matches-id (i + 1) key (some (format_uint64 (i + 1))) (format_uint64 key)
        (parse-format (i + 1) (omega arith) row_fits) (parse-format key p fits)

module _ (table_name : Bytes) (key : ℕ) where
  pub id-where : where_index_of (benchmark_schema table_name) (some (id_clause key)) ≡ some 0
  unfolding schema_find_column_index
  id-where = refl

  pub name-where : where_index_of (benchmark_schema table_name) (some (name_clause key)) ≡ some 1
  unfolding schema_find_column_index
  name-where = refl

  pub id-by_index :
      0 < key
      → key ≤ uint64_max
      → by_index (benchmark_schema table_name) (probe table_name (id_clause key)) ≡ true
  unfolding schema_find_column_index
  id-by_index p fits = ap is_canonical (parse-format key p fits)

  pub name-by_index :
      by_index (benchmark_schema table_name) (probe table_name (name_clause key)) ≡ false
  unfolding schema_find_column_index
  name-by_index = refl

  pub id-valid :
      validate_select_columns (benchmark_schema table_name) (probe table_name (id_clause key))
      ≡ ok tt
  unfolding schema_find_column_index validate_select_columns
  id-valid = refl

  pub name-valid :
      validate_select_columns (benchmark_schema table_name) (probe table_name (name_clause key))
      ≡ ok tt
  unfolding schema_find_column_index validate_select_columns
  name-valid = refl
