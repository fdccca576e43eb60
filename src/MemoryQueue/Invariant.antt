-- ===== src/MemoryQueue/Invariant.antt =====
-- The methods of the in-memory store (internal/store/memory.go and memory_queue.go) as the steps of
-- any history, and what every history keeps.
use circle_wallet_service.Prelude.{
  ℕ, ◌+◌, ◌-◌, ◌≡◌, refl, Bool, true, false, Option, none, some, List, [], ◌∷◌, String, ◌==◌,
  if◌then◌else◌, Bool-cases, inl, inr, Result, ok, err, u64,
}
use circle_wallet_service.GoMap.{GoMap, lookup, insert, keys, insert-IsDistinct}
use circle_wallet_service.Store.{TransactionRecord, TxnStatus, StoreError}
use circle_wallet_service.Memory.{
  MemoryStore, new_memory_store, create, update, update_if_status, purge_terminal_older_than,
  clear_idempotency_older_than, evict,
}
use circle_wallet_service.Memory.Index.{
  IsIndexed, key_at, rewrite-IsIndexed, create-IsIndexed, update-IsIndexed,
  update_if_status-IsIndexed,
}
use circle_wallet_service.Memory.Sweeps.{purge-IsIndexed, clear-IsIndexed, evict-IsIndexed}
use circle_wallet_service.Memory.Distinct.{
  OneEach, create-OneEach, update-OneEach, update_if_status-OneEach, purge-OneEach, clear-OneEach,
  evict-OneEach,
}
use circle_wallet_service.MemoryQueue.{
  Entry, candidate, claim_entry, claimed_row, claim_next_queued_for_sender, reconcile_sequence,
  force_reset_sequence_to_chain, requeued_row, requeue_row, requeue_loop, lower_loop,
  recover_stale_processing, shift_sender_sequences, release_sequence, next_sequence, is_stale,
  is_shifted, note_recovered,
}
use circle_wallet_service.MemoryQueue.Claims.{IsCandidate, candidate-IsCandidate}

pub data Call : Type 0 where
  creates : ℕ → TransactionRecord → Call
  updates : ℕ → TransactionRecord → Call
  updates_if_status : ℕ → TransactionRecord → TxnStatus → Call
  purges clears : ℕ → ℕ → Call
  evicts : ℕ → Call
  claims : ℕ → String → Call
  reconciles forces : String → ℕ → Call
  recovers : ℕ → ℕ → Call
  shifts : ℕ → String → ℕ → Call
  releases : String → Call

-- A call that fails leaves the store as it was.
abbrev pub or_same : MemoryStore → Result StoreError MemoryStore → MemoryStore
or_same s (ok t) = t
or_same s (err e) = s

abbrev pub or_same_if : MemoryStore → Result StoreError (Bool × MemoryStore) → MemoryStore
or_same_if s (ok (b, t)) = t
or_same_if s (err e) = s

unfoldable pub step : Call → MemoryStore → MemoryStore
step (creates now rec) s = or_same s (create now rec s)
step (updates now rec) s = or_same s (update now rec s)
step (updates_if_status now rec expected) s = or_same_if s (update_if_status now rec expected s)
step (purges cutoff limit) s = (purge_terminal_older_than cutoff limit s).0
step (clears cutoff limit) s = (clear_idempotency_older_than cutoff limit s).0
step (evicts now) s = evict now s
step (claims now addr) s = (claim_next_queued_for_sender now addr s).1
step (reconciles addr n) s = reconcile_sequence addr n s
step (forces addr n) s = force_reset_sequence_to_chain addr n s
step (recovers now older_than) s = (recover_stale_processing now older_than s).0
step (shifts now addr n) s = shift_sender_sequences now addr n s
step (releases addr) s = release_sequence addr s

unfoldable pub run : List Call → MemoryStore → MemoryStore
run [] s = s
run (c ∷ cs) s = run cs (step c s)

pub record IsWell (s : MemoryStore) : Type 0 where
  pub indexed : IsIndexed s
  pub one_each : OneEach s

-- The counters play no part.
sequences-IsWell : (s : MemoryStore) (m : GoMap ℕ) → IsWell s → IsWell (record s { sequences = m })
sequences-IsWell s m v = record {
  indexed = record {
    points_back = v.indexed.points_back;
    never_empty = v.indexed.never_empty;
    complete = v.indexed.complete;
  };
  one_each = v.one_each;
}

rewrite-IsWell :
    (id : String) (rec row : TransactionRecord) (s : MemoryStore)
    → IsWell s
    → lookup id s.records ≡ some rec
    → row.idempotency_key ≡ rec.idempotency_key
    → IsWell (record s { records = insert id row s.records })
rewrite-IsWell id rec row s v found same = record {
  indexed = rewrite-IsIndexed id rec row s s.sequences v.indexed found same;
  one_each = insert-IsDistinct id row s.records v.one_each;
}

claim_entry-IsWell :
    (now : ℕ) (addr : String) (cand : Option Entry) (s : MemoryStore)
    → IsCandidate addr s.records cand
    → IsWell s
    → IsWell (claim_entry now addr cand s).1
unfolding claim_entry claimed_row
claim_entry-IsWell now addr none s h v = v
claim_entry-IsWell now addr (some (id, rec)) s h v =
    sequences-IsWell _ (insert addr (u64 (next_sequence addr s + 1)) s.sequences)
      (rewrite-IsWell id rec (claimed_row now (next_sequence addr s) rec) s v h.0 refl)

module _ {A : Type 0} (p : TransactionRecord → Bool) (note : TransactionRecord → A → A)
    (now : ℕ) where
  requeue_row-IsWell :
      (id : String) (o : Option TransactionRecord) (s : MemoryStore) (a : A)
      → lookup id s.records ≡ o
      → IsWell s
      → IsWell (requeue_row p note now id o (s, a)).0
  unfolding requeue_row requeued_row
  requeue_row-IsWell id none s a e v = v
  requeue_row-IsWell id (some r) s a e v = elim (Bool-cases (p r)) [
    | inl q ↦ rw q (rewrite-IsWell id r (requeued_row now r) s v e refl)
    | inr q ↦ rw q v
  ]

  requeue_loop-IsWell :
      (ids : List String) (s : MemoryStore) (a : A)
      → IsWell s
      → IsWell (requeue_loop p note now ids (s, a)).0
  unfolding requeue_loop
  requeue_loop-IsWell [] s a v = v
  requeue_loop-IsWell (id ∷ ids) s a v =
      let (t, b) = requeue_row p note now id (lookup id s.records) (s, a) in
      requeue_loop-IsWell ids t b (requeue_row-IsWell id (lookup id s.records) s a refl v)

lower_loop-IsWell : (counts : GoMap ℕ) (s : MemoryStore) → IsWell s → IsWell (lower_loop counts s)
unfolding lower_loop
lower_loop-IsWell [] s v = v
lower_loop-IsWell ((addr, n) ∷ counts) s v = lower_loop-IsWell counts _ (sequences-IsWell s _ v)

or_same-IsWell :
    (s : MemoryStore) (r : Result StoreError MemoryStore)
    → IsWell s
    → ((t : MemoryStore) → r ≡ ok t → IsWell t)
    → IsWell (or_same s r)
or_same-IsWell s (ok t) v h = h t refl
or_same-IsWell s (err e) v h = v

or_same_if-IsWell :
    (s : MemoryStore) (r : Result StoreError (Bool × MemoryStore))
    → IsWell s
    → ((b : Bool) (t : MemoryStore) → r ≡ ok (b, t) → IsWell t)
    → IsWell (or_same_if s r)
or_same_if-IsWell s (ok (b, t)) v h = h b t refl
or_same_if-IsWell s (err e) v h = v

if-IsWell : (b : Bool) {s t : MemoryStore} → IsWell s → IsWell t → IsWell (if b then s else t)
if-IsWell true v w = v
if-IsWell false v w = w

shift-IsWell :
    (now : ℕ) (addr : String) (n : ℕ) (s : MemoryStore)
    → IsWell s
    → IsWell (shift_sender_sequences now addr n s)
unfolding shift_sender_sequences
shift-IsWell now addr n s v =
    let rest = requeue_loop-IsWell (is_shifted addr n) (λ _ a. a + 1) now (keys s.records) s 0 v in
    if-IsWell _ (sequences-IsWell _ _ rest) rest

reconcile-IsWell :
    (addr : String) (n : ℕ) (s : MemoryStore) → IsWell s → IsWell (reconcile_sequence addr n s)
unfolding reconcile_sequence
reconcile-IsWell addr n s v = if-IsWell _ (sequences-IsWell s _ v) v

force-IsWell :
    (addr : String) (n : ℕ) (s : MemoryStore)
    → IsWell s
    → IsWell (force_reset_sequence_to_chain addr n s)
unfolding force_reset_sequence_to_chain
force-IsWell addr n s v = sequences-IsWell s _ v

release-IsWell : (addr : String) (s : MemoryStore) → IsWell s → IsWell (release_sequence addr s)
unfolding release_sequence
release-IsWell addr s v = if-IsWell _ (sequences-IsWell s _ v) v

recover-IsWell :
    (now older_than : ℕ) (s : MemoryStore)
    → IsWell s
    → IsWell (recover_stale_processing now older_than s).0
unfolding recover_stale_processing
recover-IsWell now older_than s v =
    let (t, (counts, n)) =
      requeue_loop (is_stale (now - older_than)) note_recovered now (keys s.records) (s, ([], 0)) in
    lower_loop-IsWell counts t (
      requeue_loop-IsWell (is_stale (now - older_than)) note_recovered now (keys s.records) s
        ([], 0) v)

-- Every method keeps the store in order: the index names exactly the records that carry a key, and
-- an id has one record.
step-IsWell : (c : Call) (s : MemoryStore) → IsWell s → IsWell (step c s)
unfolding step
step-IsWell (creates now rec) s v = or_same-IsWell s (create now rec s) v (λ t h. record {
  indexed = create-IsIndexed now rec s v.indexed h;
  one_each = create-OneEach now rec s v.one_each h;
})
step-IsWell (updates now rec) s v = or_same-IsWell s (update now rec s) v (λ t h. record {
  indexed = update-IsIndexed now rec s v.indexed h;
  one_each = update-OneEach now rec s v.one_each h;
})
step-IsWell (updates_if_status now rec expected) s v =
    or_same_if-IsWell s (update_if_status now rec expected s) v (λ b t h. record {
      indexed = update_if_status-IsIndexed now rec expected s v.indexed h;
      one_each = update_if_status-OneEach now rec expected s v.one_each h;
    })
step-IsWell (purges cutoff limit) s v = record {
  indexed = purge-IsIndexed cutoff limit s v.indexed;
  one_each = purge-OneEach cutoff limit s v.one_each;
}
step-IsWell (clears cutoff limit) s v = record {
  indexed = clear-IsIndexed cutoff limit s v.indexed;
  one_each = clear-OneEach cutoff limit s v.one_each;
}
step-IsWell (evicts now) s v = record {
  indexed = evict-IsIndexed now s v.indexed;
  one_each = evict-OneEach now s v.one_each;
}
step-IsWell (claims now addr) s v =
    unfold claim_next_queued_for_sender in
    claim_entry-IsWell now addr (candidate addr s) s (candidate-IsCandidate addr s) v
step-IsWell (reconciles addr n) s v = reconcile-IsWell addr n s v
step-IsWell (forces addr n) s v = force-IsWell addr n s v
step-IsWell (recovers now older_than) s v = recover-IsWell now older_than s v
step-IsWell (shifts now addr n) s v = shift-IsWell now addr n s v
step-IsWell (releases addr) s v = release-IsWell addr s v

pub new-IsWell : (ttl : ℕ) → IsWell (new_memory_store ttl)
unfolding new_memory_store lookup
new-IsWell ttl = record {
  indexed = record {
    points_back = λ k id h. cc;
    never_empty = λ k id h. cc;
    complete = λ id k h. cc;
  };
  one_each = tt;
}

pub run-IsWell : (cs : List Call) (s : MemoryStore) → IsWell s → IsWell (run cs s)
unfolding run
run-IsWell [] s v = v
run-IsWell (c ∷ cs) s v = run-IsWell cs (step c s) (step-IsWell c s v)

-- After any history of calls on a new store, two records that carry the same non-empty idempotency
-- key are one record, and an id has one record.
pub run_unique_keys :
    (ttl : ℕ) (cs : List Call) (i j k : String)
    → (k == "") ≡ false
    → key_at i (run cs (new_memory_store ttl)).records ≡ some k
    → key_at j (run cs (new_memory_store ttl)).records ≡ some k
    → (i ≡ j) × OneEach (run cs (new_memory_store ttl))
run_unique_keys ttl cs i j k keyed h h' =
    let v = run-IsWell cs (new_memory_store ttl) (new-IsWell ttl) in
    let a = v.indexed.complete i k h keyed in
    let b = v.indexed.complete j k h' keyed in (cc, v.one_each)
