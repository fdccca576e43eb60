-- ===== src/Memory/Purge.antt =====
-- What `PurgeTerminalOlderThan` of internal/store/memory.go deletes, and how much of it.
use circle_wallet_service.Prelude.{
  ℕ, ◌+◌, ◌≤◌, ◌<◌, ◌≡◌, refl, Bool, true, false, ◌&&◌, none, some, arith, String, ◌==◌, eq_iff,
  if◌then◌else◌, Option-cases, Bool-cases, inl, inr, length, ◌⊎◌,
}
use circle_wallet_service.GoMap.{lookup, keys, lookup-delete, length-delete, mem-keys}
use circle_wallet_service.Memory.{
  MemoryStore, is_aged, forget, purge_row, purge_terminal_older_than, limit_reached,
}
use circle_wallet_service.Memory.Batches.{
  after_row, batch_loop_inv, batch_loop_pays, batch_loop_done,
}

-- Whether the row of an id is terminal and older than the cutoff.
abbrev pub aged_at : ℕ → String → MemoryStore → Bool
aged_at cutoff id s = elim (lookup id s.records) [ none ↦ false | some r ↦ is_aged cutoff r ]

module _ (cutoff : ℕ) where
  purge_row-lookup :
      (j id : String) (s : MemoryStore) (n : ℕ)
      → lookup j (after_row (purge_row cutoff) id s n).0.records
        ≡ (if id == j && aged_at cutoff id s then none else lookup j s.records)
  unfolding purge_row
  purge_row-lookup j id s n = elim (Option-cases (lookup id s.records)) [
    | inl e ↦ rw e (ground arith)
    | inr (r, e) ↦ rw e (elim (Bool-cases (is_aged cutoff r)) [
      | inl a ↦ rw a (unfold forget in ground (arith, lookup-delete id j s.records))
      | inr a ↦ rw a (ground arith)
    ])
  ]

  purge_row-keeps :
      (j : String) (t s : MemoryStore)
      → aged_at cutoff j t ≡ false
      → (id : String) (s : MemoryStore) (n : ℕ) → lookup j s.records ≡ lookup j t.records
      → lookup j (after_row (purge_row cutoff) id s n).0.records ≡ lookup j t.records
  purge_row-keeps j t _ young id s n e = ground (arith, purge_row-lookup j id s n, eq_iff id j)

  purge_row-does :
      (id : String) (s : MemoryStore) (n : ℕ)
      → aged_at cutoff id (after_row (purge_row cutoff) id s n).0 ≡ false
  purge_row-does id s n = ground (arith, purge_row-lookup id id s n, eq_iff id id)

  purge_row-kept :
      (j id : String) (s : MemoryStore) (n : ℕ)
      → aged_at cutoff j s ≡ false
      → aged_at cutoff j (after_row (purge_row cutoff) id s n).0 ≡ false
  purge_row-kept j id s n h = ground (arith, purge_row-lookup j id s n, eq_iff id j)

  -- A row is left as it was, or dropped.
  purge_row-drops :
      (j : String) (t : MemoryStore) (id : String) (s : MemoryStore) (n : ℕ)
      → (lookup j s.records ≡ none) ⊎ (lookup j s.records ≡ lookup j t.records)
      → (lookup j (after_row (purge_row cutoff) id s n).0.records ≡ none)
        ⊎ (lookup j (after_row (purge_row cutoff) id s n).0.records ≡ lookup j t.records)
  purge_row-drops j t id s n h = ground (arith, purge_row-lookup j id s n, eq_iff id j)

  purge_row-pays :
      (id : String) (s : MemoryStore) (n : ℕ)
      → (length (after_row (purge_row cutoff) id s n).0.records
            + (after_row (purge_row cutoff) id s n).1
          ≤ length s.records + n)
        × (n ≤ (after_row (purge_row cutoff) id s n).1)
        × ((after_row (purge_row cutoff) id s n).1 ≤ n + 1)
  unfolding purge_row
  purge_row-pays id s n = elim (Option-cases (lookup id s.records)) [
    | inl e ↦ rw e (omega arith)
    | inr (r, e) ↦ rw e (elim (Bool-cases (is_aged cutoff r)) [
      | inl a ↦ rw a (unfold forget in ground (arith, length-delete id s.records e))
      | inr a ↦ rw a (omega arith)
    ])
  ]

  purge-young :
      (limit : ℕ) (s : MemoryStore) (id : String)
      → aged_at cutoff id s ≡ false
      → lookup id (purge_terminal_older_than cutoff limit s).0.records ≡ lookup id s.records
  unfolding purge_terminal_older_than
  purge-young limit s id young =
      batch_loop_inv (λ t. lookup id t.records ≡ lookup id s.records) (purge_row cutoff)
        (purge_row-keeps id s s young) limit (keys s.records) s 0 refl

  purge-drops :
      (limit : ℕ) (s : MemoryStore) (id : String)
      → (lookup id (purge_terminal_older_than cutoff limit s).0.records ≡ none)
        ⊎ (lookup id (purge_terminal_older_than cutoff limit s).0.records ≡ lookup id s.records)
  unfolding purge_terminal_older_than
  purge-drops limit s id =
      batch_loop_inv
        (λ t. (lookup id t.records ≡ none) ⊎ (lookup id t.records ≡ lookup id s.records))
        (purge_row cutoff) (purge_row-drops id s) limit (keys s.records) s 0 (inr refl)

  purge-clears :
      (limit : ℕ) (s : MemoryStore) (id : String)
      → limit_reached limit (purge_terminal_older_than cutoff limit s).1 ≡ false
      → aged_at cutoff id (purge_terminal_older_than cutoff limit s).0 ≡ false
  unfolding purge_terminal_older_than
  purge-clears limit s id h = elim (Option-cases (lookup id s.records)) [
    | inl e ↦ ground (arith, purge-young limit s id)
    | inr (r, e) ↦
        batch_loop_done (purge_row cutoff) (λ id t n. (purge_row-pays id t n).1)
          (λ id t. aged_at cutoff id t ≡ false) purge_row-does purge_row-kept limit (keys s.records)
          s 0 id (mem-keys id s.records e) h
  ]

limit_reached_under : (limit n : ℕ) → (n < limit) ⊎ (limit ≡ 0) → limit_reached limit n ≡ false
unfolding limit_reached
limit_reached_under limit n h = ground arith

-- A purge keeps every row that is not terminal or not older than the cutoff as it was, and never
-- alters a row that it keeps.
pub purge_keeps :
    (cutoff limit : ℕ) (s : MemoryStore) (id : String)
    → let t = (purge_terminal_older_than cutoff limit s).0 in
      ((aged_at cutoff id s ≡ true) ⊎ (lookup id t.records ≡ lookup id s.records))
      × ((lookup id t.records ≡ none) ⊎ (lookup id t.records ≡ lookup id s.records))
purge_keeps cutoff limit s id = (
  elim (Bool-cases (aged_at cutoff id s)) [
    | inl e ↦ inl e
    | inr e ↦ inr (purge-young cutoff limit s id e)
  ],
  purge-drops cutoff limit s id,
)

-- A purge that removes fewer rows than its limit, or that has no limit (0), leaves no terminal row
-- older than the cutoff.
pub purge_clears :
    (cutoff limit : ℕ) (s : MemoryStore) (id : String)
    → let (t, n) = purge_terminal_older_than cutoff limit s in
      (n < limit) ⊎ (limit ≡ 0) → aged_at cutoff id t ≡ false
purge_clears cutoff limit s id h = purge-clears cutoff limit s id (limit_reached_under limit _ h)

-- A purge with a limit removes at most that many rows, and the map shrinks by what it reports.
pub purge_bounded :
    (cutoff limit : ℕ) (s : MemoryStore)
    → 0 < limit
    → let (t, n) = purge_terminal_older_than cutoff limit s in
      (length t.records + n ≤ length s.records) × (n ≤ limit)
unfolding purge_terminal_older_than
purge_bounded cutoff limit s pos =
    let p =
      batch_loop_pays (purge_row cutoff) (λ _. Unit {0}) (λ t. length t.records) (λ _ _ _ u. u)
        (λ id t n _. purge_row-pays cutoff id t n) limit (keys s.records) s 0 tt in
    (omega arith, p.2 pos (omega arith))
