-- ===== src/Poller.antt =====
-- internal/poller/poller.go: how submitted rows, and processing rows whose hash was stored before the
-- post, reach their end. The rows of a page are confirmed one after the other: each confirmation is
-- one call of the node and one conditional write of its own row. The rate limiter, the logs and the
-- end of the context are left out.
pub mod Confirm
pub mod Sweep
use circle_wallet_service.Prelude.{
  ℕ, zero, suc, ◌+◌, Bool, true, false, ◌&&◌, Option, none, some, List, [], ◌∷◌, String, ◌==◌, ltb,
  nat_eq, length, if◌then◌else◌, Result, ok, err,
}
use circle_wallet_service.Store.{
  TransactionRecord, TxnStatus, StoreError, processing, submitted, confirmed, failed, expired,
}
use circle_wallet_service.Memory.{update_if_status, list_by_status_paged}
use circle_wallet_service.Submitter.{World, attempt, notify}

-- The node: TransactionByHashCtx, Success() of its answer, and the VM status of a user transaction.
pub record Chain : Type 1 where
  pub Txn : Type 0
  pub by_hash : String → Result String Txn
  pub success : Txn → Option Bool
  pub user_vm_status : Txn → Option String

pub expired_row : ℕ → String → TransactionRecord → TransactionRecord
expired_row now msg rec = record rec { status = expired; error_message = msg; updated_at = now }

pub confirmed_row : ℕ → TransactionRecord → TransactionRecord
confirmed_row now rec = record rec { status = confirmed; updated_at = now }

pub failed_on_chain : ℕ → String → TransactionRecord → TransactionRecord
failed_on_chain now msg rec = record rec { status = failed; error_message = msg; updated_at = now }

-- if updated { p.notifier.Notify(ctx, rec) }
notify_if_updated : TransactionRecord → Result StoreError Bool × World → World
notify_if_updated row (ok true, w) = notify row w
notify_if_updated row (ok false, w) = w
notify_if_updated row (err e, w) = w

unfoldable pub settle : TransactionRecord → TxnStatus → World → World
unfolding notify_if_updated
settle row expected w = notify_if_updated row (attempt (update_if_status w.clock row expected) w)

-- burst, pageSize and sweepConcurrency of `New`, where a value is out of range.
pub or_default : ℕ → ℕ → ℕ
or_default size default = if nat_eq size 0 then default else size

-- page[len(page)-1]
last_row : List TransactionRecord → Option TransactionRecord
last_row [] = none
last_row (r ∷ []) = some r
last_row (r ∷ q ∷ rs) = last_row (q ∷ rs)

module _ (chain : Chain) where
  open chain use {Txn, by_hash, success, user_vm_status}

  pub vm_status : Txn → String
  vm_status txn = elim (user_vm_status txn) [ none ↦ "unknown vm_status" | some v ↦ v ]

  judged : TransactionRecord → TxnStatus → Txn → Option Bool → World → World
  unfolding confirmed_row failed_on_chain vm_status
  judged rec expected txn none w = w
  judged rec expected txn (some true) w = settle (confirmed_row w.clock rec) expected w
  judged rec expected txn (some false) w =
      settle (failed_on_chain w.clock (vm_status txn) rec) expected w

  looked_up : TransactionRecord → TxnStatus → Result String Txn → World → World
  unfolding judged expired_row
  looked_up rec expected (err e) w =
      if ltb rec.expires_at w.clock
      then settle (expired_row w.clock "transaction expired; on-chain lookup failed" rec) expected w
      else w
  looked_up rec expected (ok txn) w = judged rec expected txn (success txn) w

  unfoldable pub confirm_record : TransactionRecord → TxnStatus → World → World
  unfolding looked_up expired_row
  confirm_record rec expected w =
      if rec.txn_hash == ""
      then if ltb rec.expires_at w.clock
        then settle (expired_row w.clock "transaction expired without submission hash" rec) expected
            w
        else w
      else looked_up rec expected (by_hash rec.txn_hash) w

  -- if requireHash && rec.TxnHash == "" { continue }
  visit : TxnStatus → Bool → TransactionRecord → World → World
  visit expected require_hash rec w =
      if require_hash && rec.txn_hash == "" then w else confirm_record rec expected w

  unfoldable pub process_page : List TransactionRecord → TxnStatus → Bool → World → World
  unfolding visit
  process_page [] expected require_hash w = w
  process_page (rec ∷ page) expected require_hash w =
      process_page page expected require_hash (visit expected require_hash rec w)

  -- From the last row of a page, `none` where the page is empty: the loop ends, or goes round.
  from_last :
      ℕ
      → TxnStatus
      → Bool
      → (ℕ → String → World → Bool × World)
      → List TransactionRecord
      → Option TransactionRecord
      → World
      → Bool × World
  from_last size status require_hash again page none w = (true, w)
  from_last size status require_hash again page (some last) w =
      let next = process_page page status require_hash w in
      let rest = again last.updated_at last.id next in
      if ltb (length page) size then (true, next) else rest

  swept :
      ℕ
      → TxnStatus
      → Bool
      → (ℕ → String → World → Bool × World)
      → Result StoreError (List TransactionRecord) × World
      → Bool × World
  unfolding last_row from_last
  swept size status require_hash again (err e, w) = (true, w)
  swept size status require_hash again (ok page, w) =
      from_last size status require_hash again page (last_row page) w

  -- The loop of `sweepStatus` from a cursor, on fuel: the answer is whether it ended.
  unfoldable pub sweep_pages : ℕ → ℕ → TxnStatus → Bool → ℕ → String → World → Bool × World
  unfolding swept
  sweep_pages zero size status require_hash t id w = (false, w)
  sweep_pages (suc fuel) size status require_hash t id w =
      swept size status require_hash (sweep_pages fuel size status require_hash)
        (attempt (λ s. ok (list_by_status_paged status size t id s, s)) w)

  unfoldable pub sweep_status : ℕ → TxnStatus → Bool → World → World
  unfolding or_default
  sweep_status page_size status require_hash w =
      (sweep_pages (length w.store.records + 1) (or_default page_size 500) status require_hash 0 ""
        w).1

  unfoldable pub poll : ℕ → World → World
  poll page_size w =
      sweep_status page_size processing true (sweep_status page_size submitted false w)
