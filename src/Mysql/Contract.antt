-- ===== src/Mysql/Contract.antt =====
-- What a claim of the Queue interface of internal/store/store.go promises, whichever store serves it.
use circle_wallet_service.Prelude.{
  ℕ, ◌+◌, ◌≡◌, refl, sym, true, false, Option, none, some, arith, String, ◌==◌, if◌then◌else◌, u64,
  str_lt_total,
}
use circle_wallet_service.GoMap.{lookup}
use circle_wallet_service.Store.{TransactionRecord}
use circle_wallet_service.Memory.{MemoryStore}
use circle_wallet_service.MemoryQueue.{
  next_sequence, is_queued_for, older, claimed_row, claim_next_queued_for_sender,
}
use circle_wallet_service.MemoryQueue.Claims.{claim_fifo, claim_none}

-- What a client can see of a store: its records, by id, and the counter of each sender.
pub record View : Type 0 where
  pub rows : String → Option TransactionRecord
  pub next : String → ℕ

abbrev pub memory_view : MemoryStore → View
memory_view s = record { rows = λ id. lookup id s.records; next = λ addr. next_sequence addr s }

-- Two views of the same records and counters.
abbrev pub Same : View → View → Type 0
Same v w = ((id : String) → v.rows id ≡ w.rows id) × ((addr : String) → v.next addr ≡ w.next addr)

-- A record stands under its own id.
abbrev pub IsKeyed : View → Type 0
IsKeyed v = (id : String) (r : TransactionRecord) → v.rows id ≡ some r → r.id ≡ id

-- A claim that took a row: the oldest queued one of the sender, which got the next number.
pub record Took (now : ℕ) (addr : String) (v w : View) (row : TransactionRecord) : Type 0 where
  pub id : String
  pub was : TransactionRecord
  pub held : v.rows id ≡ some was
  pub waiting : is_queued_for addr was ≡ true
  pub oldest :
      (j : String) (r : TransactionRecord)
      → v.rows j ≡ some r
      → is_queued_for addr r ≡ true
      → older r was ≡ false
  pub taken : row ≡ claimed_row now (v.next addr) was
  pub written : (j : String) → w.rows j ≡ (if id == j then some row else v.rows j)
  pub counted :
      (other : String)
      → w.next other ≡ (if addr == other then u64 (v.next addr + 1) else v.next other)

-- A claim that found nothing.
pub record Idle (addr : String) (v w : View) : Type 0 where
  pub empty :
      (j : String) (r : TransactionRecord) → v.rows j ≡ some r → is_queued_for addr r ≡ false
  pub kept : Same w v

abbrev pub Claimed : ℕ → String → View → View → Option TransactionRecord → Type 0
Claimed now addr v w none = Idle addr v w
Claimed now addr v w (some row) = Took now addr v w row

same_row_id :
    (addr : String) (v v' w w' : View) (now : ℕ) (row row' : TransactionRecord)
    → Same v v'
    → IsKeyed v
    → (c : Took now addr v w row) → (d : Took now addr v' w' row') → c.id ≡ d.id
unfolding older
same_row_id addr v v' w w' now row row' same keyed c d =
    let held' : v.rows d.id ≡ some d.was = rw (same.0 d.id) d.held in
    ground (
      arith,
      keyed c.id c.was c.held,
      keyed d.id d.was held',
      c.oldest d.id d.was held' d.waiting,
      d.oldest c.id c.was (rw (sym (same.0 c.id)) c.held) c.waiting,
      str_lt_total c.was.id d.was.id,
    )

-- Two stores that show the same records and counters give the same answer to a claim, and show the same
-- afterwards.
pub answer_unique :
    (addr : String) (v v' w w' : View) (now : ℕ) (o o' : Option TransactionRecord)
    → Same v v'
    → IsKeyed v
    → Claimed now addr v w o
    → Claimed now addr v' w' o'
    → (o ≡ o') × Same w w'
answer_unique addr v v' w w' now none none same keyed c d = (
  refl,
  (
    λ id. ground (arith, c.kept.0 id, d.kept.0 id, same.0 id),
    λ a. ground (arith, c.kept.1 a, d.kept.1 a, same.1 a),
  ),
)
answer_unique addr v v' w w' now none (some row) same keyed c d =
    absurd (ground (arith, c.empty d.id d.was (rw (same.0 d.id) d.held), d.waiting))
answer_unique addr v v' w w' now (some row) none same keyed c d =
    absurd (ground (arith, d.empty c.id c.was (rw (sym (same.0 c.id)) c.held), c.waiting))
answer_unique addr v v' w w' now (some row) (some row') same keyed c d =
    let ids = same_row_id addr v v' w w' now row row' same keyed c d in
    let rows : row ≡ row' =
      ground (arith, c.taken, d.taken, c.held, d.held, same.0 c.id, same.1 addr, ids) in
    (
      ground (arith, rows),
      (
        λ j. ground (arith, c.written j, d.written j, same.0 j, rows, ids),
        λ a. ground (arith, c.counted a, d.counted a, same.1 a, same.1 addr),
      ),
    )

memory_claim_of :
    (now : ℕ) (addr : String) (s t : MemoryStore) (o : Option TransactionRecord)
    → claim_next_queued_for_sender now addr s ≡ (o, t)
    → Claimed now addr (memory_view s) (memory_view t) o
memory_claim_of now addr s t none h =
    let idle = claim_none now addr s (rw h refl) in
    let same : t ≡ s = ground (arith, idle.0) in
    record {
      empty = λ j r e. ground (arith, idle.1 j, e);
      kept = (λ id. rw same refl, λ a. rw same refl);
    }
memory_claim_of now addr s t (some row) h =
    let c = claim_fifo now addr s t row h in
    record {
      id = c.id;
      was = c.was;
      held = c.stored;
      waiting = c.was_queued;
      oldest = λ j r e q. ground (arith, c.oldest j, e);
      taken = c.taken;
      written = c.written;
      counted = c.counted;
    }

-- The in-memory store keeps the contract of a claim.
pub memory_claim-Claimed :
    (now : ℕ) (addr : String) (s : MemoryStore)
    → Claimed now addr
        (memory_view s)
        (memory_view (claim_next_queued_for_sender now addr s).1)
        (claim_next_queued_for_sender now addr s).0
memory_claim-Claimed now addr s = memory_claim_of now addr s _ _ refl
