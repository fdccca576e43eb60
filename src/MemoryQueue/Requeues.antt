-- ===== src/MemoryQueue/Requeues.antt =====
-- `RecoverStaleProcessing` and `ShiftSenderSequences` of internal/store/memory_queue.go: which rows
-- go back to the queue, and what the counters lose.
use circle_wallet_service.Prelude.{
  ℕ, ◌+◌, ◌-◌, ◌≡◌, refl, Bool, false, ◌&&◌, Option, none, some, List, [], ◌∷◌, arith, String, ◌==◌,
  eq_iff, if◌then◌else◌, Option-cases, Bool-cases, inl, inr, ap, ◌∙◌,
}
use circle_wallet_service.GoMap.{
  GoMap, IsDistinct, lookup, insert, keys, lookup-insert, keys-IsNodup, insert-IsDistinct,
}
use circle_wallet_service.Store.{TransactionRecord}
use circle_wallet_service.Memory.{MemoryStore}
use circle_wallet_service.MemoryQueue.{
  requeued_row, requeue_loop, count_rows, count_at, next_sequence, is_stale, is_shifted, lower,
  lower_loop, note_recovered, recover_stale_processing, shift_sender_sequences,
}
use circle_wallet_service.MemoryQueue.Loops.{
  requeue_if, requeue_loop-SameRest, requeue_loop-lookup, tally, requeue_loop-tally, tally-count,
}

is_stale-requeued :
    (cutoff now : ℕ) (r : TransactionRecord) → is_stale cutoff (requeued_row now r) ≡ false
unfolding is_stale requeued_row
is_stale-requeued cutoff now r = ground arith

is_shifted-requeued :
    (addr : String) (n now : ℕ) (r : TransactionRecord)
    → is_shifted addr n (requeued_row now r) ≡ false
unfolding is_shifted requeued_row
is_shifted-requeued addr n now r = ground arith

-- The rows of a store that pass a test.
abbrev pub rows_where : (TransactionRecord → Bool) → MemoryStore → ℕ
rows_where p s = count_rows p s.records (keys s.records)

abbrev of_sender : (TransactionRecord → Bool) → String → TransactionRecord → Bool
of_sender p addr r = p r && r.sender_address == addr

module _ (p : TransactionRecord → Bool) (m : GoMap TransactionRecord) where
  recovered-counts :
      (ids : List String) (counts : GoMap ℕ) (n : ℕ) (addr : String)
      → count_at (tally p note_recovered m ids (counts, n)).0 addr
        ≡ count_at counts addr + count_rows (of_sender p addr) m ids
  unfolding tally count_rows note_recovered
  recovered-counts [] counts n addr = omega arith
  recovered-counts (id ∷ ids) counts n addr = elim (Option-cases (lookup id m)) [
    | inl e ↦ ground (arith, recovered-counts ids counts n addr)
    | inr (r, e) ↦ elim (Bool-cases (p r)) [
      | inl q ↦
          let counts' : GoMap ℕ =
            insert r.sender_address (count_at counts r.sender_address + 1) counts in
          ground (
            arith,
            recovered-counts ids counts' (n + 1) addr,
            lookup-insert r.sender_address addr (count_at counts r.sender_address + 1) counts,
            eq_iff r.sender_address addr,
          )
      | inr q ↦ ground (arith, recovered-counts ids counts n addr)
    ]
  ]

  recovered-total :
      (ids : List String) (counts : GoMap ℕ) (n : ℕ)
      → (tally p note_recovered m ids (counts, n)).1 ≡ n + count_rows p m ids
  unfolding tally count_rows note_recovered
  recovered-total [] counts n = omega arith
  recovered-total (id ∷ ids) counts n = elim (Option-cases (lookup id m)) [
    | inl e ↦ ground (arith, recovered-total ids counts n)
    | inr (r, e) ↦ ground (
      arith,
      recovered-total ids counts n,
      recovered-total ids (insert r.sender_address (count_at counts r.sender_address + 1) counts)
          (n + 1),
    )
  ]

  note_if-IsDistinct :
      (o : Option TransactionRecord) (acc : GoMap ℕ × ℕ)
      → IsDistinct acc.0
      → IsDistinct
          (elim o as (λ _. GoMap ℕ × ℕ) [
            | none ↦ acc
            | some r ↦ if p r then note_recovered r acc else acc
          ]).0
  unfolding note_recovered
  note_if-IsDistinct none acc d = d
  note_if-IsDistinct (some r) (counts, n) d = elim (Bool-cases (p r)) [
    | inl q ↦
        rw q (insert-IsDistinct r.sender_address (count_at counts r.sender_address + 1) counts d)
    | inr q ↦ rw q d
  ]

  recovered-IsDistinct :
      (ids : List String) (acc : GoMap ℕ × ℕ)
      → IsDistinct acc.0
      → IsDistinct (tally p note_recovered m ids acc).0
  unfolding tally
  recovered-IsDistinct [] acc d = d
  recovered-IsDistinct (id ∷ ids) acc d =
      recovered-IsDistinct ids _ (note_if-IsDistinct (lookup id m) acc d)

count_at_empty : (addr : String) → count_at [] addr ≡ 0
unfolding lookup
count_at_empty addr = refl

lower_loop-next :
    (counts : GoMap ℕ) (s : MemoryStore) (addr : String)
    → IsDistinct counts
    → next_sequence addr (lower_loop counts s) ≡ lower (count_at counts addr) (next_sequence addr s)
unfolding lower_loop lower lookup
lower_loop-next [] s addr d = ground arith
lower_loop-next ((a, cnt) ∷ counts) s addr d = ground (
  arith,
  eq_iff a addr,
  lookup-insert a addr (lower cnt (next_sequence a s)) s.sequences,
  lower_loop-next counts
      (record s { sequences = insert a (lower cnt (next_sequence a s)) s.sequences }) addr d.1,
)

pub lower_loop-records :
    (counts : GoMap ℕ) (s : MemoryStore) → (lower_loop counts s).records ≡ s.records
unfolding lower_loop
lower_loop-records [] s = refl
lower_loop-records ((a, cnt) ∷ counts) s =
    lower_loop-records counts
      (record s { sequences = insert a (lower cnt (next_sequence a s)) s.sequences })

-- What a requeue did: exactly the rows of a test went back to the queue with no sequence number, and
-- the counter of a sender lost as many as it had such rows, but never fell below zero.
pub record Requeued (p : TransactionRecord → Bool) (now : ℕ) (s t : MemoryStore) : Type 0 where
  pub rows : (id : String) → lookup id t.records ≡ requeue_if p now (lookup id s.records)
  pub counters :
      (addr : String)
      → next_sequence addr t ≡ lower (rows_where (of_sender p addr) s) (next_sequence addr s)

module _ (now cutoff : ℕ) (s : MemoryStore) (d : IsDistinct s.records) where
  abbrev done : MemoryStore × (GoMap ℕ × ℕ)
  done = requeue_loop (is_stale cutoff) note_recovered now (keys s.records) (s, ([], 0))

  done-tally : done.1 ≡ tally (is_stale cutoff) note_recovered s.records (keys s.records) ([], 0)
  done-tally =
      requeue_loop-tally (is_stale cutoff) note_recovered now s ([], 0) (keys-IsNodup s.records d)

  done-counters :
      (addr : String)
      → next_sequence addr (lower_loop done.1.0 done.0)
        ≡ lower (rows_where (of_sender (is_stale cutoff) addr) s) (next_sequence addr s)
  done-counters addr =
      let same =
        (requeue_loop-SameRest (is_stale cutoff) note_recovered now (keys s.records) s ([], 0)).0 in
      rw (done-tally) (
        lower_loop-next _ done.0 addr
          (recovered-IsDistinct (is_stale cutoff) s.records (keys s.records) ([], 0) tt)
        ∙ ground (
          arith,
          same,
          recovered-counts (is_stale cutoff) s.records (keys s.records) [] 0 addr,
          count_at_empty addr,
        ))

  done-rows :
      (id : String)
      → lookup id (lower_loop done.1.0 done.0).records
        ≡ requeue_if (is_stale cutoff) now (lookup id s.records)
  done-rows id = rw (lower_loop-records done.1.0 done.0) (
      requeue_loop-lookup (is_stale cutoff) note_recovered now (is_stale-requeued cutoff now) s
        ([], 0) id)

-- A recovery requeues exactly the processing rows that carry a sequence number, carry no hash, and
-- were last written before `now - older_than`; the counter of each sender falls by the number of its
-- own rows among them, and not below zero; the result is the number of rows requeued.
pub recover_exact :
    (now older_than : ℕ) (s : MemoryStore)
    → IsDistinct s.records
    → Requeued (is_stale (now - older_than)) now s (recover_stale_processing now older_than s).0
      × ((recover_stale_processing now older_than s).1 ≡ rows_where (is_stale (now - older_than)) s)
unfolding recover_stale_processing
recover_exact now older_than s d = (
  record {
    rows = done-rows now (now - older_than) s d;
    counters = done-counters now (now - older_than) s d;
  },
  ap (λ (a : GoMap ℕ × ℕ). a.1) (done-tally now (now - older_than) s d)
      ∙ (recovered-total (is_stale (now - older_than)) s.records (keys s.records) [] 0
          ∙ omega arith),
)

shifted-of_sender :
    (addr other : String) (n : ℕ) (m : GoMap TransactionRecord) (ids : List String)
    → count_rows (of_sender (is_shifted addr n) other) m ids
      ≡ (if addr == other then count_rows (is_shifted addr n) m ids else 0)
unfolding count_rows is_shifted
shifted-of_sender addr other n m [] = ground arith
shifted-of_sender addr other n m (id ∷ ids) = elim (Option-cases (lookup id m)) [
  | inl e ↦ ground (arith, shifted-of_sender addr other n m ids)
  | inr (r, e) ↦ ground (
    arith,
    shifted-of_sender addr other n m ids,
    eq_iff r.sender_address addr,
    eq_iff r.sender_address other,
    eq_iff addr other,
  )
]

-- A shift requeues exactly the queued and processing rows of the sender whose sequence number is
-- above the failed one, whether or not they carry a hash; the counter of the sender falls by their
-- number, not below zero, and the other counters stay.
pub shift_exact :
    (now : ℕ) (addr : String) (failed_seq : ℕ) (s : MemoryStore)
    → IsDistinct s.records
    → Requeued (is_shifted addr failed_seq) now s (shift_sender_sequences now addr failed_seq s)
shift_exact now addr failed_seq s d = record {
  rows = λ id.
      unfold shift_sender_sequences in
      ground
        (arith, requeue_loop-lookup p note now (is_shifted-requeued addr failed_seq now) s 0 id);
  counters = λ other.
      unfold shift_sender_sequences lower in
      ground (
        arith,
        noted,
        (requeue_loop-SameRest p note now (keys s.records) s 0).0,
        shifted-of_sender addr other failed_seq s.records (keys s.records),
        eq_iff addr other,
        lookup-insert addr other (lower (rows_where p s) (next_sequence addr s)) s.sequences,
      );
}
  where
    p : TransactionRecord → Bool
    p = is_shifted addr failed_seq

    note : TransactionRecord → ℕ → ℕ
    note _ n = n + 1

    noted : (requeue_loop p note now (keys s.records) (s, 0)).1 ≡ rows_where p s
    noted =
        requeue_loop-tally p note now s 0 (keys-IsNodup s.records d)
        ∙ (tally-count p s.records (keys s.records) 0 ∙ omega arith)
