-- ===== src/MemoryQueue/Loops.antt =====
-- The loop of internal/store/memory_queue.go that requeues the rows that pass a test.
use circle_wallet_service.Prelude.{
  ℕ, ◌+◌, ◌≡◌, refl, Bool, false, Option, none, some, List, [], ◌∷◌, Memᴰ, arith, String, ◌==◌,
  eq_iff, if◌then◌else◌, Option-cases, Bool-cases, inl, inr, ◌⊎◌, ◌∙◌,
}
use circle_wallet_service.GoMap.{GoMap, IsNodup, lookup, keys, lookup-insert, mem-keys}
use circle_wallet_service.Store.{TransactionRecord}
use circle_wallet_service.Memory.{MemoryStore}
use circle_wallet_service.MemoryQueue.{requeued_row, requeue_row, requeue_loop, count_rows}

-- The row that the loop leaves for a row.
abbrev pub requeue_if :
    (TransactionRecord → Bool) → ℕ → Option TransactionRecord → Option TransactionRecord
requeue_if p now none = none
requeue_if p now (some r) = some (if p r then requeued_row now r else r)

-- All but the records are as they were.
abbrev pub SameRest : MemoryStore → MemoryStore → Type 0
SameRest t s =
    (t.sequences ≡ s.sequences) × (t.idempotency_idx ≡ s.idempotency_idx) × (t.ttl ≡ s.ttl)

-- What the loop notes, over the rows as they were.
unfoldable pub tally {ℓ} :
    {A : Type ℓ}
    → (TransactionRecord → Bool)
    → (TransactionRecord → A → A)
    → GoMap TransactionRecord
    → List String
    → A
    → A
tally p note m [] a = a
tally p note m (id ∷ ids) a =
    tally p note m ids (elim (lookup id m) [ none ↦ a | some r ↦ if p r then note r a else a ])

module _ {ℓ} {A : Type ℓ} (p : TransactionRecord → Bool) (note : TransactionRecord → A → A)
    (now : ℕ) where
  abbrev after : String → MemoryStore → A → MemoryStore × A
  after id s a = requeue_row p note now id (lookup id s.records) (s, a)

  lookup-requeue_row :
      (id j : String) (s : MemoryStore) (a : A)
      → lookup j (after id s a).0.records
        ≡ (if id == j then requeue_if p now (lookup j s.records) else lookup j s.records)
  unfolding requeue_row
  lookup-requeue_row id j s a = elim (Option-cases (lookup id s.records)) [
    | inl e ↦ rw e (ground (arith, eq_iff id j))
    | inr (r, e) ↦ rw e (elim (Bool-cases (p r)) [
      | inl q ↦
          rw q (ground (arith, eq_iff id j, lookup-insert id j (requeued_row now r) s.records))
      | inr q ↦ rw q (ground (arith, eq_iff id j))
    ])
  ]

  requeue_row-SameRest :
      (id : String) (o : Option TransactionRecord) (s : MemoryStore) (a : A)
      → SameRest (requeue_row p note now id o (s, a)).0 s
  unfolding requeue_row
  requeue_row-SameRest id none s a = (refl, refl, refl)
  requeue_row-SameRest id (some r) s a = elim (Bool-cases (p r)) [
    | inl q ↦ rw q (refl, refl, refl)
    | inr q ↦ rw q (refl, refl, refl)
  ]

  pub requeue_loop-SameRest :
      (ids : List String) (s : MemoryStore) (a : A)
      → SameRest (requeue_loop p note now ids (s, a)).0 s
  unfolding requeue_loop
  requeue_loop-SameRest [] s a = (refl, refl, refl)
  requeue_loop-SameRest (id ∷ ids) s a =
      let (t, b) = after id s a in
      let (x, y, z) = requeue_loop-SameRest ids t b in
      let (x', y', z') = requeue_row-SameRest id (lookup id s.records) s a in
      (x ∙ x', y ∙ y', z ∙ z')

  -- A requeued row fails the test.
  module _ (once : (r : TransactionRecord) → p (requeued_row now r) ≡ false) where
    requeue_if_idem :
        (o : Option TransactionRecord) → requeue_if p now (requeue_if p now o) ≡ requeue_if p now o
    requeue_if_idem none = refl
    requeue_if_idem (some r) = ground (arith, once r)

    requeue_loop-either :
        (ids : List String) (s : MemoryStore) (a : A) (j : String)
        → (lookup j (requeue_loop p note now ids (s, a)).0.records ≡ lookup j s.records)
          ⊎ (lookup j (requeue_loop p note now ids (s, a)).0.records
              ≡ requeue_if p now (lookup j s.records))
    unfolding requeue_loop
    requeue_loop-either [] s a j = inl refl
    requeue_loop-either (id ∷ ids) s a j =
        let (t, b) = after id s a in
        ground (
          arith,
          requeue_loop-either ids t b j,
          lookup-requeue_row id j s a,
          requeue_if_idem (lookup j s.records),
        )

    requeue_loop-visited :
        (ids : List String) (s : MemoryStore) (a : A) (j : String)
        → Memᴰ j ids
        → lookup j (requeue_loop p note now ids (s, a)).0.records
          ≡ requeue_if p now (lookup j s.records)
    unfolding requeue_loop
    requeue_loop-visited [] s a j m = elim m [ ]
    requeue_loop-visited (id ∷ ids) s a j (Memᴰ.head e) =
        let (t, b) = after id s a in
        ground (
          arith,
          requeue_loop-either ids t b j,
          lookup-requeue_row id j s a,
          eq_iff id j,
          requeue_if_idem (lookup j s.records),
        )
    requeue_loop-visited (id ∷ ids) s a j (Memᴰ.tail m) =
        let (t, b) = after id s a in
        ground (
          arith,
          requeue_loop-visited ids t b j m,
          lookup-requeue_row id j s a,
          requeue_if_idem (lookup j s.records),
        )

    -- The loop over all rows requeues exactly those that pass the test.
    pub requeue_loop-lookup :
        (s : MemoryStore) (a : A) (j : String)
        → lookup j (requeue_loop p note now (keys s.records) (s, a)).0.records
          ≡ requeue_if p now (lookup j s.records)
    requeue_loop-lookup s a j = elim (Option-cases (lookup j s.records)) [
      | inl e ↦ ground (arith, requeue_loop-either (keys s.records) s a j)
      | inr (r, e) ↦ requeue_loop-visited (keys s.records) s a j (mem-keys j s.records e)
    ]

  requeue_row-note :
      (id : String) (o : Option TransactionRecord) (s : MemoryStore) (a : A)
      → (requeue_row p note now id o (s, a)).1
        ≡ elim o [ none ↦ a | some r ↦ if p r then note r a else a ]
  unfolding requeue_row
  requeue_row-note id none s a = refl
  requeue_row-note id (some r) s a = elim (Bool-cases (p r)) [
    | inl q ↦ rw q refl
    | inr q ↦ rw q refl
  ]

  requeue_loop-note :
      (m : GoMap TransactionRecord) (ids : List String) (s : MemoryStore) (a : A)
      → IsNodup ids
      → ((j : String) → Memᴰ j ids → lookup j s.records ≡ lookup j m)
      → (requeue_loop p note now ids (s, a)).1 ≡ tally p note m ids a
  unfolding requeue_loop tally
  requeue_loop-note m [] s a d same = refl
  requeue_loop-note m (id ∷ ids) s a d same =
      let (t, b) = after id s a in
      rw (← same id (Memᴰ.head refl)) (
        rw (← requeue_row-note id (lookup id s.records) s a) (
          requeue_loop-note m ids t b d.1
            (λ j h. ground (arith, lookup-requeue_row id j s a, d.0 j h, same j (Memᴰ.tail h)))))

  pub requeue_loop-tally :
      (s : MemoryStore) (a : A)
      → IsNodup (keys s.records)
      → (requeue_loop p note now (keys s.records) (s, a)).1
        ≡ tally p note s.records (keys s.records) a
  requeue_loop-tally s a d = requeue_loop-note s.records (keys s.records) s a d (λ _ _. refl)

pub tally-count :
    (p : TransactionRecord → Bool) (m : GoMap TransactionRecord) (ids : List String) (n : ℕ)
    → tally p (λ _ k. k + 1) m ids n ≡ n + count_rows p m ids
unfolding tally count_rows
tally-count p m [] n = omega arith
tally-count p m (id ∷ ids) n = ground (arith, tally-count p m ids n, tally-count p m ids (n + 1))
