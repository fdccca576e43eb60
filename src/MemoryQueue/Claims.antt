-- ===== src/MemoryQueue/Claims.antt =====
-- `ClaimNextQueuedForSender` of internal/store/memory_queue.go: the row that it takes.
use circle_wallet_service.Prelude.{
  ℕ, ◌+◌, ◌-◌, ◌<◌, u64_mod, ◌≡◌, refl, Bool, true, false, ◌&&◌, Option, none, some, List, [], ◌∷◌,
  Memᴰ, arith, String, ◌==◌, eq_iff, if◌then◌else◌, Option-cases, Bool-cases, inl, inr,
  str_lt_irrefl, str_lt_trans, u64,
}
use circle_wallet_service.GoMap.{GoMap, lookup, keys, lookup-insert, mem-keys}
use circle_wallet_service.Store.{TransactionRecord}
use circle_wallet_service.Memory.{MemoryStore}
use circle_wallet_service.MemoryQueue.{
  Entry, next_sequence, is_queued_for, older, better, candidate_from, candidate, claimed_row,
  claim_entry, claim_next_queued_for_sender, release_sequence,
}

pub older_irrefl : (a : TransactionRecord) → older a a ≡ false
unfolding older
older_irrefl a = ground (arith, str_lt_irrefl a.id)

pub older_trans :
    (a b c : TransactionRecord) → older a b ≡ true → older b c ≡ true → older a c ≡ true
unfolding older
older_trans a b c h k = ground (arith, str_lt_trans a.id b.id c.id)

-- Whether a row would take the candidate's place: it is queued for the sender, and older than the
-- candidate, if there is one.
abbrev pub beats : String → Option TransactionRecord → Option Entry → Bool
beats addr none cand = false
beats addr (some r) none = is_queued_for addr r
beats addr (some r) (some (k, c)) = is_queued_for addr r && older r c

better-beats :
    (addr id : String) (o : Option TransactionRecord) (cand : Option Entry)
    → beats addr o (better addr id o cand) ≡ false
unfolding better
better-beats addr id none cand = refl
better-beats addr id (some r) none = ground (arith, older_irrefl r)
better-beats addr id (some r) (some (k, c)) = ground (arith, older_irrefl r)

better_keeps :
    (addr id : String) (o p : Option TransactionRecord) (cand : Option Entry)
    → beats addr p cand ≡ false
    → beats addr p (better addr id o cand) ≡ false
unfolding better
better_keeps addr id o none cand h = refl
better_keeps addr id none (some r) cand h = h
better_keeps addr id (some q) (some r) none h = ground (arith, older_irrefl r)
better_keeps addr id (some q) (some r) (some (k, c)) h = ground (arith, older_trans r q c)

module _ (addr : String) (m : GoMap TransactionRecord) where
  -- The candidate is a queued row of the sender.
  abbrev pub IsCandidate : Option Entry → Type 0
  IsCandidate none = Unit
  IsCandidate (some (id, rec)) = (lookup id m ≡ some rec) × (is_queued_for addr rec ≡ true)

  better-IsCandidate :
      (id : String) (o : Option TransactionRecord) (cand : Option Entry)
      → lookup id m ≡ o
      → IsCandidate cand
      → IsCandidate (better addr id o cand)
  unfolding better
  better-IsCandidate id none cand e h = h
  better-IsCandidate id (some r) none e h = elim (Bool-cases (is_queued_for addr r)) [
    | inl q ↦ rw q (e, q)
    | inr q ↦ rw q tt
  ]
  better-IsCandidate id (some r) (some (k, c)) e h = elim (Bool-cases (is_queued_for addr r)) [
    | inl q ↦ elim (Bool-cases (older r c)) [ inl o ↦ rw (q, o) (e, q) | inr o ↦ rw (q, o) h ]
    | inr q ↦ rw q h
  ]

  candidate_from-IsCandidate :
      (ids : List String) (cand : Option Entry)
      → IsCandidate cand
      → IsCandidate (candidate_from addr m ids cand)
  unfolding candidate_from
  candidate_from-IsCandidate [] cand h = h
  candidate_from-IsCandidate (id ∷ ids) cand h =
      candidate_from-IsCandidate ids (better addr id (lookup id m) cand)
        (better-IsCandidate id (lookup id m) cand refl h)

  candidate_from_keeps :
      (ids : List String) (cand : Option Entry) (p : Option TransactionRecord)
      → beats addr p cand ≡ false
      → beats addr p (candidate_from addr m ids cand) ≡ false
  unfolding candidate_from
  candidate_from_keeps [] cand p h = h
  candidate_from_keeps (id ∷ ids) cand p h =
      candidate_from_keeps ids (better addr id (lookup id m) cand) p
        (better_keeps addr id (lookup id m) p cand h)

  candidate_from_oldest :
      (ids : List String) (cand : Option Entry) (j : String)
      → Memᴰ j ids
      → beats addr (lookup j m) (candidate_from addr m ids cand) ≡ false
  unfolding candidate_from
  candidate_from_oldest [] cand j h = elim h [ ]
  candidate_from_oldest (id ∷ ids) cand j (Memᴰ.head e) = rw e (
      candidate_from_keeps ids (better addr id (lookup id m) cand) (lookup id m)
        (better-beats addr id (lookup id m) cand))
  candidate_from_oldest (id ∷ ids) cand j (Memᴰ.tail h) =
      candidate_from_oldest ids (better addr id (lookup id m) cand) j h

candidate-oldest :
    (addr : String) (s : MemoryStore) (j : String)
    → beats addr (lookup j s.records) (candidate addr s) ≡ false
unfolding candidate
candidate-oldest addr s j = elim (Option-cases (lookup j s.records)) [
  | inl e ↦ rw e refl
  | inr (r, e) ↦
      candidate_from_oldest addr s.records (keys s.records) none j (mem-keys j s.records e)
]

pub candidate-IsCandidate :
    (addr : String) (s : MemoryStore) → IsCandidate addr s.records (candidate addr s)
unfolding candidate
candidate-IsCandidate addr s = candidate_from-IsCandidate addr s.records (keys s.records) none tt

-- What one claim did: the row that it took, and what it left alone.
pub record Taken (now : ℕ) (addr : String) (s t : MemoryStore) (row : TransactionRecord)
    : Type 0 where
  pub id : String
  pub was : TransactionRecord
  pub stored : lookup id s.records ≡ some was
  pub was_queued : is_queued_for addr was ≡ true
  pub oldest : (j : String) → beats addr (lookup j s.records) (some (id, was)) ≡ false
  pub taken : row ≡ claimed_row now (next_sequence addr s) was
  pub written :
      (j : String) → lookup j t.records ≡ (if id == j then some row else lookup j s.records)
  pub counted :
      (other : String)
      → next_sequence other t
        ≡ (if addr == other then u64 (next_sequence addr s + 1) else next_sequence other s)

claim_entry-Taken :
    (now : ℕ) (addr : String) (s t : MemoryStore) (row : TransactionRecord) (cand : Option Entry)
    → candidate addr s ≡ cand
    → claim_entry now addr cand s ≡ (some row, t)
    → Taken now addr s t row
unfolding claim_entry
claim_entry-Taken now addr s t row none e h = absurd (ground arith)
claim_entry-Taken now addr s t row (some (id, rec)) e h =
    let valid : IsCandidate addr s.records (some (id, rec)) =
      rw e at (candidate-IsCandidate addr s) in
    record {
      id = id;
      was = rec;
      stored = valid.0;
      was_queued = valid.1;
      oldest = λ j. ground (arith, candidate-oldest addr s j);
      taken = ground arith;
      written = λ j.
          ground (arith, lookup-insert id j (claimed_row now (next_sequence addr s) rec) s.records);
      counted = λ other. ground (
        arith,
        eq_iff addr other,
        lookup-insert addr other (u64 (next_sequence addr s + 1)) s.sequences,
      );
    }

-- A claim that returns a row took the oldest queued row of the sender (by creation, then id), gave
-- it the sender's next sequence number and moved it to processing, raised that counter by one (mod
-- 2^64), and left every other row and every other counter as it was.
pub claim_fifo :
    (now : ℕ) (addr : String) (s t : MemoryStore) (row : TransactionRecord)
    → claim_next_queued_for_sender now addr s ≡ (some row, t)
    → Taken now addr s t row
unfolding claim_next_queued_for_sender
claim_fifo now addr s t row h = claim_entry-Taken now addr s t row (candidate addr s) refl h

claim_entry-none :
    (now : ℕ) (addr : String) (s : MemoryStore) (cand : Option Entry)
    → candidate addr s ≡ cand
    → (claim_entry now addr cand s).0 ≡ none
    → (claim_entry now addr cand s ≡ (none, s))
      × ((j : String) → beats addr (lookup j s.records) none ≡ false)
unfolding claim_entry
claim_entry-none now addr s none e h = (refl, λ j. rw e at (candidate-oldest addr s j))
claim_entry-none now addr s (some (id, rec)) e h = absurd (ground arith)

-- A claim returns no row only if the sender has none queued, and then it changes nothing.
pub claim_none :
    (now : ℕ) (addr : String) (s : MemoryStore)
    → (claim_next_queued_for_sender now addr s).0 ≡ none
    → (claim_next_queued_for_sender now addr s ≡ (none, s))
      × ((j : String) → beats addr (lookup j s.records) none ≡ false)
unfolding claim_next_queued_for_sender
claim_none now addr s h = claim_entry-none now addr s (candidate addr s) refl h

release-next :
    (addr other : String) (t : MemoryStore)
    → next_sequence other (release_sequence addr t)
      ≡ (if addr == other then next_sequence addr t - 1 else next_sequence other t)
unfolding release_sequence
release-next addr other t =
    ground
      (arith, eq_iff addr other, lookup-insert addr other (next_sequence addr t - 1) t.sequences)

-- Releasing the sequence number of a claim that took a row gives every counter back as it was before
-- the claim, unless the counter stood at the last 64-bit number.
pub claim-release :
    (now : ℕ) (addr : String) (s t : MemoryStore) (row : TransactionRecord) (other : String)
    → claim_next_queued_for_sender now addr s ≡ (some row, t)
    → next_sequence addr s + 1 < u64_mod
    → next_sequence other (release_sequence addr t) ≡ next_sequence other s
claim-release now addr s t row other h small =
    let c = claim_fifo now addr s t row h in
    ground (
      arith,
      release-next addr other t,
      c.counted addr,
      c.counted other,
      eq_iff addr addr,
      eq_iff addr other,
      small,
    )
