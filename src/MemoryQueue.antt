-- ===== src/MemoryQueue.antt =====
-- internal/store/memory_queue.go: claims and sequence numbers over the in-memory store. A row is
-- written through the pointer that the map of records holds, so each write goes to its key.
pub mod Claims
mod Loops
pub mod Requeues
pub mod Invariant
use circle_wallet_service.Prelude.{
  ℕ, ◌+◌, ◌-◌, Bool, false, ◌&&◌, ◌||◌, Option, none, some, List, [], ◌∷◌, String, ◌==◌, str_lt,
  ltb, leb, nat_eq, u64, if◌then◌else◌, is_set,
}
use circle_wallet_service.GoMap.{GoMap, lookup, insert, keys}
use circle_wallet_service.Store.{TransactionRecord, status_eq, queued, processing, submitted}
use circle_wallet_service.Memory.{MemoryStore}

-- m[k], with the zero value where the key is missing
abbrev pub count_at : GoMap ℕ → String → ℕ
count_at m k = elim (lookup k m) [ none ↦ 0 | some n ↦ n ]

-- s.sequences[senderAddress]
abbrev pub next_sequence : String → MemoryStore → ℕ
next_sequence addr s = count_at s.sequences addr

abbrev set_sequence : String → ℕ → MemoryStore → MemoryStore
set_sequence addr n s = record s { sequences = insert addr n s.sequences }

-- The entry that the pointer `candidate` refers to: its key and its value.
abbrev pub Entry : Type 0
Entry = String × TransactionRecord

unfoldable pub is_queued_for : String → TransactionRecord → Bool
is_queued_for addr rec = status_eq rec.status queued && rec.sender_address == addr

unfoldable pub older : TransactionRecord → TransactionRecord → Bool
older a b = ltb a.created_at b.created_at || (nat_eq a.created_at b.created_at && str_lt a.id b.id)

better : String → String → Option TransactionRecord → Option Entry → Option Entry
better addr id none cand = cand
better addr id (some rec) none = if is_queued_for addr rec then some (id, rec) else none
better addr id (some rec) (some (k, c)) =
    if is_queued_for addr rec && older rec c then some (id, rec) else some (k, c)

candidate_from : String → GoMap TransactionRecord → List String → Option Entry → Option Entry
candidate_from addr m [] cand = cand
candidate_from addr m (id ∷ ids) cand =
    candidate_from addr m ids (better addr id (lookup id m) cand)

unfoldable pub candidate : String → MemoryStore → Option Entry
unfolding candidate_from better
candidate addr s = candidate_from addr s.records (keys s.records) none

unfoldable pub claimed_row : ℕ → ℕ → TransactionRecord → TransactionRecord
claimed_row now seq rec = record rec {
  status = processing;
  sequence_number = some seq;
  updated_at = now;
}

claim_entry : ℕ → String → Option Entry → MemoryStore → Option TransactionRecord × MemoryStore
unfolding claimed_row
claim_entry now addr none s = (none, s)
claim_entry now addr (some (id, rec)) s =
    let allocated = next_sequence addr s in
    let row = claimed_row now allocated rec in
    (
      some row,
      record s {
        records = insert id row s.records;
        sequences = insert addr (u64 (allocated + 1)) s.sequences;
      },
    )

unfoldable pub claim_next_queued_for_sender :
    ℕ → String → MemoryStore → Option TransactionRecord × MemoryStore
unfolding claim_entry
claim_next_queued_for_sender now addr s = claim_entry now addr (candidate addr s) s

-- oldest[rec.SenderAddress] = rec.CreatedAt, where it is missing or later
note_oldest : Option TransactionRecord → GoMap ℕ → GoMap ℕ
note_oldest none oldest = oldest
note_oldest (some rec) oldest =
    if status_eq rec.status queued
    then elim (lookup rec.sender_address oldest) [
      | none ↦ insert rec.sender_address rec.created_at oldest
      | some t ↦
          if ltb rec.created_at t then insert rec.sender_address rec.created_at oldest else oldest
    ]
    else oldest

oldest_loop : GoMap TransactionRecord → List String → GoMap ℕ → GoMap ℕ
unfolding note_oldest
oldest_loop m [] oldest = oldest
oldest_loop m (id ∷ ids) oldest = oldest_loop m ids (note_oldest (lookup id m) oldest)

sender_before : GoMap ℕ → String → String → Bool
sender_before oldest a b =
    if nat_eq (count_at oldest a) (count_at oldest b)
    then str_lt a b
    else ltb (count_at oldest a) (count_at oldest b)

sender_into : GoMap ℕ → String → List String → List String
unfolding sender_before
sender_into oldest a [] = a ∷ []
sender_into oldest a (b ∷ bs) =
    if sender_before oldest a b then a ∷ b ∷ bs else b ∷ sender_into oldest a bs

sort_senders : GoMap ℕ → List String → List String
unfolding sender_into
sort_senders oldest [] = []
sort_senders oldest (a ∷ as') = sender_into oldest a (sort_senders oldest as')

unfoldable pub list_queued_senders : MemoryStore → List String
unfolding oldest_loop sort_senders
list_queued_senders s =
    let oldest = oldest_loop s.records (keys s.records) [] in sort_senders oldest (keys oldest)

unfoldable pub reconcile_sequence : String → ℕ → MemoryStore → MemoryStore
reconcile_sequence addr chain_seq s =
    if ltb (next_sequence addr s) chain_seq then set_sequence addr chain_seq s else s

-- A row of the sender that was broadcast at a sequence the chain has not passed.
unfoldable pub is_inflight : String → ℕ → TransactionRecord → Bool
is_inflight addr chain_seq rec =
    rec.sender_address == addr
    && (status_eq rec.status submitted
        && elim rec.sequence_number [ none ↦ false | some n ↦ leb chain_seq n ])

unfoldable pub count_rows : (TransactionRecord → Bool) → GoMap TransactionRecord → List String → ℕ
count_rows p m [] = 0
count_rows p m (id ∷ ids) =
    let rest = count_rows p m ids in
    elim (lookup id m) [ none ↦ rest | some rec ↦ if p rec then rest + 1 else rest ]

pub inflight : String → ℕ → MemoryStore → ℕ
inflight addr chain_seq s = count_rows (is_inflight addr chain_seq) s.records (keys s.records)

unfoldable pub force_reset_sequence_to_chain : String → ℕ → MemoryStore → MemoryStore
force_reset_sequence_to_chain addr chain_seq s =
    set_sequence addr (u64 (chain_seq + inflight addr chain_seq s)) s

-- cur - n, bounded at zero
unfoldable pub lower : ℕ → ℕ → ℕ
lower n cur = if leb cur n then 0 else cur - n

unfoldable pub requeued_row : ℕ → TransactionRecord → TransactionRecord
requeued_row now rec = record rec { status = queued; sequence_number = none; updated_at = now }

unfoldable pub is_stale : ℕ → TransactionRecord → Bool
is_stale cutoff rec =
    status_eq rec.status processing
    && (is_set rec.sequence_number && (rec.txn_hash == "" && ltb rec.updated_at cutoff))

pub requeue_row {ℓ} :
    {A : Type ℓ}
    → (TransactionRecord → Bool)
    → (TransactionRecord → A → A)
    → ℕ
    → String
    → Option TransactionRecord
    → MemoryStore × A
    → MemoryStore × A
requeue_row p note now id none acc = acc
requeue_row p note now id (some rec) (s, a) =
    if p rec
    then (record s { records = insert id (requeued_row now rec) s.records }, note rec a)
    else (s, a)

-- for _, rec := range s.records { if !p(rec) { continue }; requeue rec; note it }
pub requeue_loop {ℓ} :
    {A : Type ℓ}
    → (TransactionRecord → Bool)
    → (TransactionRecord → A → A)
    → ℕ
    → List String
    → MemoryStore × A
    → MemoryStore × A
requeue_loop p note now [] acc = acc
requeue_loop p note now (id ∷ ids) acc =
    requeue_loop p note now ids (requeue_row p note now id (lookup id acc.0.records) acc)

-- senderCounts[rec.SenderAddress]++; affected++
note_recovered : TransactionRecord → GoMap ℕ × ℕ → GoMap ℕ × ℕ
note_recovered rec (counts, n) =
    (insert rec.sender_address (count_at counts rec.sender_address + 1) counts, n + 1)

-- for addr, cnt := range senderCounts
pub lower_loop : GoMap ℕ → MemoryStore → MemoryStore
lower_loop [] s = s
lower_loop ((addr, cnt) ∷ counts) s =
    lower_loop counts (set_sequence addr (lower cnt (next_sequence addr s)) s)

unfoldable pub recover_stale_processing : ℕ → ℕ → MemoryStore → MemoryStore × ℕ
unfolding requeue_loop requeue_row note_recovered lower_loop is_stale requeued_row lower
recover_stale_processing now older_than s =
    let done =
      requeue_loop (is_stale (now - older_than)) note_recovered now (keys s.records) (s, ([], 0)) in
    (lower_loop done.1.0 done.0, done.1.1)

unfoldable pub is_shifted : String → ℕ → TransactionRecord → Bool
is_shifted addr failed_seq rec =
    rec.sender_address == addr
    && ((status_eq rec.status queued || status_eq rec.status processing)
        && elim rec.sequence_number [ none ↦ false | some n ↦ ltb failed_seq n ])

unfoldable pub shift_sender_sequences : ℕ → String → ℕ → MemoryStore → MemoryStore
unfolding requeue_loop requeue_row is_shifted requeued_row lower
shift_sender_sequences now addr failed_seq s =
    let (s', n) =
      requeue_loop (is_shifted addr failed_seq) (λ _ n. n + 1) now (keys s.records) (s, 0) in
    if ltb 0 n then set_sequence addr (lower n (next_sequence addr s')) s' else s'

unfoldable pub release_sequence : String → MemoryStore → MemoryStore
release_sequence addr s =
    let cur = next_sequence addr s in if ltb 0 cur then set_sequence addr (cur - 1) s else s
