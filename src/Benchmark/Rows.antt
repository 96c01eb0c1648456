-- ===== src/Benchmark/Rows.antt =====
-- The rows that src/benchmark.c inserts.
use bptree_sql_engine.Prelude.{
  ℕ, zero, suc, ◌+◌, ◌%◌, ◌≤◌, ◌<◌, ◌≡◌, ◌≢◌, sym, ap, ◌∙◌, subst, inl, inr, none, some, List, [],
  ◌∷◌, ◌++◌, arith, Bytes, codes, length, All, All-append, Option-cases,
}
use bptree_sql_engine.Bptree.Node.{Items}
use bptree_sql_engine.Bptree.Search.{scan_leaf}
use bptree_sql_engine.Storage.Row.{Row, write_row}
use bptree_sql_engine.Storage.TableLaws.{write_rows}
use bptree_sql_engine.Schema.Load.{TableSchema}
use bptree_sql_engine.Runtime.Id.{uint64_max, format_uint64}
use bptree_sql_engine.Runtime.IdLaws.{parse-format}
use bptree_sql_engine.Runtime.Index.{stored_id, IndexError}
use bptree_sql_engine.Runtime.Context.{id_name}
use bptree_sql_engine.Runtime.Located.{
  entry_of, located, located-append, Distinct, Distinct-last, scan_leaf-nil,
}
use bptree_sql_engine.Runtime.Built.{HasId}
use bptree_sql_engine.Runtime.NextId.{HasStored, HasStored-last}
use bptree_sql_engine.Runtime.Complete.{run_rows-index_complete}
use bptree_sql_engine.Database.State.{AllBelow, IsNextId, CannotIndex}
use bptree_sql_engine.Database.Deterministic.{HasStored-AllBelow}
use bptree_sql_engine.Benchmark.Run.{user_name}

abbrev pub benchmark_schema : Bytes → TableSchema
benchmark_schema table_name = record {
  table_name = table_name;
  columns = id_name ∷ codes "name" ∷ codes "age" ∷ [];
}

-- The row of round `i`.
abbrev pub benchmark_row : ℕ → Row
benchmark_row i = format_uint64 (i + 1) ∷ user_name (i + 1) ∷ format_uint64 (20 + i % 50) ∷ []

-- The rows of the first `n` rounds.
abbrev pub benchmark_rows : ℕ → List Row
benchmark_rows zero = []
benchmark_rows (suc n) = benchmark_rows n ++ benchmark_row n ∷ []

pub benchmark_row-stored_id :
    (i : ℕ) → i + 1 ≤ uint64_max → stored_id 0 (benchmark_row i) ≡ some (i + 1)
benchmark_row-stored_id i h = parse-format (i + 1) (omega arith) h

pub benchmark_rows-ids : (n : ℕ) → n ≤ uint64_max → All (HasId 0) (benchmark_rows n)
benchmark_rows-ids zero h = tt
benchmark_rows-ids (suc n) h =
    All-append (HasId 0) (benchmark_rows n) (benchmark_row n ∷ [])
      (benchmark_rows-ids n (omega arith)) ((n + 1, benchmark_row-stored_id n (omega arith)), tt)

AllBelow-weaken :
    (i id id' : ℕ) (rows : List Row) → id ≤ id' → AllBelow i id rows → AllBelow i id' rows
AllBelow-weaken i id id' [] h b = tt
AllBelow-weaken i id id' (row ∷ rows) h (b, bs) =
    (λ k e. omega (arith, b k e, h), AllBelow-weaken i id id' rows h bs)

pub benchmark_rows-AllBelow : (n : ℕ) → n ≤ uint64_max → AllBelow 0 (n + 1) (benchmark_rows n)
benchmark_rows-AllBelow zero h = tt
benchmark_rows-AllBelow (suc n) h =
    All-append (λ row. (k : ℕ) → stored_id 0 row ≡ some k → k < suc n + 1) (benchmark_rows n)
      (benchmark_row n ∷ [])
      (AllBelow-weaken 0 (n + 1) (suc n + 1) (benchmark_rows n) (omega arith)
        (benchmark_rows-AllBelow n (omega arith)))
      (
        λ k e.
            let same : n + 1 ≡ k = cc (benchmark_row-stored_id n (omega arith), e) in
            omega (arith, same),
        tt,
      )

pub benchmark_rows-no_last :
    (n : ℕ) → n < uint64_max → HasStored 0 uint64_max (benchmark_rows n) → ⊥
benchmark_rows-no_last n h s = absurd (
    omega (
      arith,
      h,
      HasStored-AllBelow 0 (n + 1) uint64_max (benchmark_rows n)
          (benchmark_rows-AllBelow n (omega arith)) s,
    ))

other_key :
    (k j offset : ℕ) (xs : Items)
    → k < j
    → scan_leaf xs j ≡ none
    → scan_leaf ((k, offset) ∷ xs) j ≡ none
unfolding scan_leaf
other_key k j offset xs h e = ground arith

append-nonempty : (rows : List Row) (row : Row) → rows ++ row ∷ [] ≢ []
append-nonempty [] row e = cc
append-nonempty (r ∷ rows) row e = cc

-- An id that no row stores has no entry.
scan_leaf-AllBelow :
    (i id j offset : ℕ) (rows : List Row)
    → AllBelow i id rows
    → id ≤ j
    → scan_leaf (located i offset rows) j ≡ none
scan_leaf-AllBelow i id j offset [] b h = scan_leaf-nil j
scan_leaf-AllBelow i id j offset (row ∷ rows) (b, bs) h = elim (Option-cases (stored_id i row)) [
  | inl e ↦ rw e (scan_leaf-AllBelow i id j (offset + length (write_row row)) rows bs h)
  | inr (k, e) ↦ rw e (
      other_key k j offset _ (omega (arith, b k e, h))
        (scan_leaf-AllBelow i id j (offset + length (write_row row)) rows bs h))
]

pub benchmark_rows-Distinct : (n : ℕ) → n ≤ uint64_max → Distinct (located 0 0 (benchmark_rows n))
benchmark_rows-Distinct zero h = tt
benchmark_rows-Distinct (suc n) h =
    let rows = benchmark_rows n in
    let entries : located 0 0 (rows ++ benchmark_row n ∷ [])
        ≡ located 0 0 rows ++ (n + 1, length (write_rows rows)) ∷ [] =
      located-append 0 0 rows (benchmark_row n)
      ∙ ap (λ o. located 0 0 rows ++ entry_of o (0 + length (write_rows rows)) [])
          (benchmark_row-stored_id n (omega arith))
      ∙ ap (λ (p : ℕ). located 0 0 rows ++ (n + 1, p) ∷ []) (omega arith) in
    subst Distinct (sym entries) (
      Distinct-last (located 0 0 rows) (n + 1) (length (write_rows rows))
        (scan_leaf-AllBelow 0 (n + 1) (n + 1) 0 rows (benchmark_rows-AllBelow n (omega arith))
          (omega arith))
        (benchmark_rows-Distinct n (omega arith)))

-- A table with these rows can be indexed.
pub benchmark_rows-indexable :
    (table_name : Bytes) (n : ℕ) (e : IndexError)
    → n < uint64_max
    → CannotIndex (benchmark_schema table_name) 0 (benchmark_rows n) e
    → ⊥
benchmark_rows-indexable table_name n e h cannot =
    let (index, built) =
      run_rows-index_complete 0 3 (benchmark_rows n) (benchmark_rows-ids n (omega arith))
        (benchmark_rows-Distinct n (omega arith)) (benchmark_rows-no_last n h) in
    cc (cannot, built)

last_stored : (n : ℕ) → n + 1 ≤ uint64_max → HasStored 0 (n + 1) (benchmark_rows (suc n))
last_stored n h =
    HasStored-last 0 (n + 1) (benchmark_rows n) (benchmark_row n) (benchmark_row-stored_id n h)

-- The id that is generated next.
pub benchmark_rows-next :
    (n id : ℕ) → n ≤ uint64_max → IsNextId 0 id (benchmark_rows n) → id ≡ n + 1
benchmark_rows-next zero id h (below, inl (none_yet, one)) = one ∙ omega arith
benchmark_rows-next zero id h (below, inr (last, stored, next)) = absurd stored
benchmark_rows-next (suc n) id h (below, inl (none_yet, one)) =
    absurd (append-nonempty (benchmark_rows n) (benchmark_row n) none_yet)
benchmark_rows-next (suc n) id h (below, inr (last, stored, next)) =
    let least = HasStored-AllBelow 0 id (n + 1) _ below (last_stored n (omega arith)) in
    let most = HasStored-AllBelow 0 (suc n + 1) last _ (benchmark_rows-AllBelow (suc n) h) stored in
    omega (arith, least, most, next)
