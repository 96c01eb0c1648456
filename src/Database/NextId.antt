-- ===== src/Database/NextId.antt =====
-- The next id of a table, as the rows of its file determine it.
use bptree_sql_engine.Prelude.{
  ℕ, ◌+◌, ◌%◌, ◌^◌, ◌<◌, ◌≤◌, ltb, ltb→lt, ==→eq, ==-refl, ◌≡◌, ◌≢◌, sym, ap, ◌∙◌, subst, false,
  none, ◌⊎◌, List, [], ◌∷◌, arith, length, ◌==◌, Bool-cases, Option-cases, inl, inr,
}
use bptree_sql_engine.Storage.Row.{Row, write_row}
use bptree_sql_engine.Runtime.Index.{stored_id}
use bptree_sql_engine.Database.State.{AllBelow}
use bptree_sql_engine.Bptree.Node.{Items}
use bptree_sql_engine.Bptree.Search.{scan_leaf}
use bptree_sql_engine.Runtime.Id.{uint64_max}
use bptree_sql_engine.Runtime.NextId.{HasStored, HasStored-bound, Follows}
use bptree_sql_engine.Runtime.Located.{located}

apart :
    (key j offset : ℕ) (xs : Items)
    → scan_leaf ((key, offset) ∷ xs) j ≡ none
    → (key ≢ j) × (scan_leaf xs j ≡ none)
unfolding scan_leaf
apart key j offset xs h = elim (Bool-cases (key == j)) [
  | inl e ↦ absurd (cc (rw e at h))
  | inr e ↦ (λ same. cc (ap (λ n. key == n) (sym same), ==-refl key, e), (rw e at h))
]

below : {R : Type 0} (id key k : ℕ) → (id ≤ k → (key ≢ k) × R) → key ≡ k → k < id
below id key k h e = elim (Bool-cases (ltb k id)) [
  | inl f ↦ ltb→lt k id f
  | inr f ↦ absurd ((h (ground arith)).0 e)
]

-- Ids that are not in use from `id` on are below it.
pub AllBelow-located :
    (i id offset : ℕ) (rows : List Row)
    → ((j : ℕ) → id ≤ j → scan_leaf (located i offset rows) j ≡ none)
    → AllBelow i id rows
AllBelow-located i id offset [] h = tt
AllBelow-located i id offset (row ∷ rows) h = elim (Option-cases (stored_id i row)) [
  | inl e ↦
      let later : (j : ℕ)
          → id ≤ j
          → scan_leaf (located i (offset + length (write_row row)) rows) j ≡ none =
        λ j le. (rw e at h) j le in
      (
        λ k f. absurd (cc (e, f)),
        AllBelow-located i id (offset + length (write_row row)) rows later,
      )
  | inr (key, e) ↦
      let here : (j : ℕ)
          → id ≤ j
          → (key ≢ j) × (scan_leaf (located i (offset + length (write_row row)) rows) j ≡ none) =
        λ j le. apart key j offset _ ((rw e at h) j le) in
      (
        λ k f. below id key k (here k) (cc (e, f)),
        AllBelow-located i id (offset + length (write_row row)) rows (λ j le. (here j le).1),
      )
]

module _ (i next_id : ℕ) (rows : List Row) where
  -- A next id that has not wrapped round.
  pub Follows-next :
      next_id ≢ 0
      → Follows i next_id rows
      → ((rows ≡ []) × (next_id ≡ 1)) ⊎ ((last : ℕ) × HasStored i last rows × (next_id ≡ last + 1))
  Follows-next nonzero (inl first) = inl first
  Follows-next nonzero (inr (last, h, e)) = elim (Bool-cases (next_id == 0)) [
    | inl z ↦ absurd (nonzero (==→eq next_id 0 z))
    | inr z ↦ inr (last, h, behind last next_id (HasStored-bound i last rows h) z e)
  ]
    where
      behind : (m n : ℕ) → m ≤ uint64_max → (n == 0) ≡ false → n ≡ (m + 1) % 2 ^ 64 → n ≡ m + 1
      behind m n h z e = ground arith

  -- One that has.
  pub Follows-last : next_id ≡ 0 → Follows i next_id rows → HasStored i uint64_max rows
  Follows-last z (inl (none_yet, one)) = absurd (omega (arith, one, z))
  Follows-last z (inr (last, h, e)) =
      subst (λ k. HasStored i k rows) (wraps last (HasStored-bound i last rows h) (sym z ∙ e)) h
    where
      wraps : (m : ℕ) → m ≤ uint64_max → 0 ≡ (m + 1) % 2 ^ 64 → m ≡ uint64_max
      wraps m h e = omega arith
