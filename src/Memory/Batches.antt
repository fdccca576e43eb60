-- ===== src/Memory/Batches.antt =====
-- What any batch of internal/store/memory.go does: a loop over the records that stops at a limit.
use circle_wallet_service.Prelude.{
  ℕ, ◌+◌, ◌≤◌, ◌<◌, ◌≡◌, refl, false, Option, List, [], ◌∷◌, Memᴰ, arith, String, if◌then◌else◌,
  Bool-cases, inl, inr,
}
use circle_wallet_service.GoMap.{lookup}
use circle_wallet_service.Store.{TransactionRecord}
use circle_wallet_service.Memory.{MemoryStore, batch_loop, limit_reached}

abbrev pub Row : Type 0
Row = String → Option TransactionRecord → MemoryStore × ℕ → MemoryStore × ℕ

module _ (P : MemoryStore → Type 0) (row : Row)
    (keep : (id : String) (s : MemoryStore) (n : ℕ)
      → P s
      → P (row id (lookup id s.records) (s, n)).0) where
  -- A batch keeps what each of its rows keeps.
  pub batch_loop_inv :
      (limit : ℕ) (ids : List String) (s : MemoryStore) (n : ℕ)
      → P s
      → P (batch_loop row limit ids (s, n)).0
  unfolding batch_loop
  batch_loop_inv limit [] s n v = v
  batch_loop_inv limit (id ∷ ids) s n v =
      let (s', n') = row id (lookup id s.records) (s, n) in
      let rest : P (batch_loop row limit ids (s', n')).0 =
        batch_loop_inv limit ids s' n' (keep id s n v) in
      elim (Bool-cases (limit_reached limit n)) [ inl e ↦ rw e v | inr e ↦ rw e rest ]

module _ (row : Row) where
  -- The state after one row.
  abbrev pub after_row : String → MemoryStore → ℕ → MemoryStore × ℕ
  after_row id s n = row id (lookup id s.records) (s, n)

  -- One step of the batch, by the test of the limit.
  batch_loop-step :
      (limit : ℕ) (id : String) (ids : List String) (s : MemoryStore) (n : ℕ)
      → batch_loop row limit (id ∷ ids) (s, n)
        ≡ (if limit_reached limit n then (s, n) else batch_loop row limit ids (after_row id s n))
  unfolding batch_loop
  batch_loop-step limit id ids s n = refl

module _ (row : Row) (P : MemoryStore → Type 0) (size : MemoryStore → ℕ)
    (keep : (id : String) (s : MemoryStore) (n : ℕ) → P s → P (after_row row id s n).0)
    (pays : (id : String) (s : MemoryStore) (n : ℕ)
      → P s
      → (size (after_row row id s n).0 + (after_row row id s n).1 ≤ size s + n)
        × (n ≤ (after_row row id s n).1)
        × ((after_row row id s n).1 ≤ n + 1)) where
  -- Each row that the batch counts makes the store smaller, and the count ends within the limit.
  pub batch_loop_pays :
      (limit : ℕ) (ids : List String) (s : MemoryStore) (n : ℕ)
      → P s
      → (size (batch_loop row limit ids (s, n)).0 + (batch_loop row limit ids (s, n)).1
          ≤ size s + n)
        × (n ≤ (batch_loop row limit ids (s, n)).1)
        × (0 < limit → n ≤ limit → (batch_loop row limit ids (s, n)).1 ≤ limit)
  unfolding limit_reached
  batch_loop_pays limit [] s n v = unfold batch_loop in omega arith
  batch_loop_pays limit (id ∷ ids) s n v =
      let rest =
        batch_loop_pays limit ids (after_row row id s n).0 (after_row row id s n).1
          (keep id s n v) in
      let step = pays id s n v in rw (batch_loop-step row limit id ids s n) (ground arith)

module _ (row : Row)
    (grows : (id : String) (s : MemoryStore) (n : ℕ) → n ≤ (after_row row id s n).1) where
  batch_loop_grows :
      (limit : ℕ) (ids : List String) (s : MemoryStore) (n : ℕ)
      → n ≤ (batch_loop row limit ids (s, n)).1
  batch_loop_grows limit [] s n = unfold batch_loop in omega arith
  batch_loop_grows limit (id ∷ ids) s n = rw (batch_loop-step row limit id ids s n) (
      ground (
        arith,
        grows id s n,
        batch_loop_grows limit ids (after_row row id s n).0 (after_row row id s n).1,
      ))

  -- Below the limit at the end, the limit was never met.
  batch_loop-open :
      (limit : ℕ) (id : String) (ids : List String) (s : MemoryStore) (n : ℕ)
      → limit_reached limit (batch_loop row limit (id ∷ ids) (s, n)).1 ≡ false
      → batch_loop row limit (id ∷ ids) (s, n) ≡ batch_loop row limit ids (after_row row id s n)
  unfolding limit_reached
  batch_loop-open limit id ids s n h =
      ground (arith, batch_loop-step row limit id ids s n, batch_loop_grows limit (id ∷ ids) s n)

  module _ (Done : String → MemoryStore → Type 0)
      (does : (id : String) (s : MemoryStore) (n : ℕ) → Done id (after_row row id s n).0)
      (keeps : (j id : String) (s : MemoryStore) (n : ℕ)
        → Done j s
        → Done j (after_row row id s n).0) where
    -- A batch that ends below its limit has visited every row.
    pub batch_loop_done :
        (limit : ℕ) (ids : List String) (s : MemoryStore) (n : ℕ) (j : String)
        → Memᴰ j ids
        → limit_reached limit (batch_loop row limit ids (s, n)).1 ≡ false
        → Done j (batch_loop row limit ids (s, n)).0
    batch_loop_done limit [] s n j m h = elim m [ ]
    batch_loop_done limit (id ∷ ids) s n j (Memᴰ.head e) h =
        let (s', n') = after_row row id s n in
        rw (batch_loop-open limit id ids s n h)
          (batch_loop_inv (Done j) row (keeps j) limit ids s' n' (rw e (does id s n)))
    batch_loop_done limit (id ∷ ids) s n j (Memᴰ.tail m) h =
        let (s', n') = after_row row id s n in
        let e = batch_loop-open limit id ids s n h in
        rw e (batch_loop_done limit ids s' n' j m (rw e at h))
