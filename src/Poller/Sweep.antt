-- ===== src/Poller/Sweep.antt =====
-- The loop of `sweepStatus` in internal/poller/poller.go, and the rows that are left beyond its
-- cursor.
use circle_wallet_service.Prelude.{
  ℕ, zero, suc, ◌+◌, ◌≤◌, ◌<◌, ◌≡◌, refl, sym, ap, ◌∙◌, Bool, true, false, ◌&&◌, ◌⊎◌, inl, inr,
  Option, none, some, List, [], ◌∷◌, Memᴰ, String, ◌==◌, eq_iff, ltb, arith, Bool-cases,
  Option-cases, length, Result, ok,
}
use circle_wallet_service.GoMap.{GoMap, lookup, keys, mem-keys}
use circle_wallet_service.Store.{TransactionRecord, TxnStatus, StoreError, status_eq, is_terminal}
use circle_wallet_service.Memory.{list_by_status_paged}
use circle_wallet_service.Memory.Pages.{
  Source, page-Source, waits, after_cursor_trans, after_cursor_irrefl,
}
use circle_wallet_service.MemoryQueue.{count_rows}
use circle_wallet_service.Submitter.{World}
use circle_wallet_service.Submitter.Calls.{Outcome, ran, refused, attempt-Outcome}
use circle_wallet_service.Poller.{
  Chain, visit, confirm_record, process_page, last_row, from_last, swept, sweep_pages,
  confirmed_row, failed_on_chain, expired_row,
}
use circle_wallet_service.Poller.Confirm.{
  Verdict, has_succeeded, has_failed, is_unsent, is_unseen, Written, confirm_settles,
}

abbrev ended_at : String → GoMap TransactionRecord → Bool
ended_at j m = elim (lookup j m) [ none ↦ false | some r ↦ is_terminal r.status ]

-- Every row is as it was, or was there and is terminal now.
abbrev Fades : GoMap TransactionRecord → GoMap TransactionRecord → Type 0
Fades m n =
    (j : String)
    → (lookup j n ≡ lookup j m)
      ⊎ ((ended_at j n ≡ true) × ((old : TransactionRecord) × (lookup j m ≡ some old)))

Fades-trans : (l m n : GoMap TransactionRecord) → Fades l m → Fades m n → Fades l n
Fades-trans l m n p q j = elim (q j) [
  | inl e ↦ elim (p j) [ inl d ↦ inl (e ∙ d) | inr (d, was) ↦ inr (ground (arith, e, d), was) ]
  | inr (d, (old, was)) ↦ elim (p j) [
    | inl e ↦ inr (d, (old, sym e ∙ was))
    | inr (_, before) ↦ inr (d, before)
  ]
]

Fades-from : (l m n : GoMap TransactionRecord) → l ≡ m → Fades l n → Fades m n
Fades-from l m n e f = rw e at f

module _ (p : TransactionRecord → Bool) (m n : GoMap TransactionRecord) where
  -- Where each row counted in `n` is counted in `m`, by the other test.
  count_rows_le :
      (q : TransactionRecord → Bool) (ids : List String)
      → ((j : String)
          → (elim (lookup j n) as (λ _. Bool) [ none ↦ false | some r ↦ q r ]) ≡ true
          → (elim (lookup j m) as (λ _. Bool) [ none ↦ false | some r ↦ p r ]) ≡ true)
      → count_rows q n ids ≤ count_rows p m ids
  unfolding count_rows
  count_rows_le q [] h = omega arith
  count_rows_le q (id ∷ ids) h = ground (arith, count_rows_le q ids h, h id)

  count_rows_lt :
      (q : TransactionRecord → Bool) (ids : List String) (k : String)
      → ((j : String)
          → (elim (lookup j n) as (λ _. Bool) [ none ↦ false | some r ↦ q r ]) ≡ true
          → (elim (lookup j m) as (λ _. Bool) [ none ↦ false | some r ↦ p r ]) ≡ true)
      → Memᴰ k ids
      → (elim (lookup k m) as (λ _. Bool) [ none ↦ false | some r ↦ p r ]) ≡ true
      → (elim (lookup k n) as (λ _. Bool) [ none ↦ false | some r ↦ q r ]) ≡ false
      → count_rows q n ids + 1 ≤ count_rows p m ids
  unfolding count_rows
  count_rows_lt q [] k h i here gone = elim i [ ]
  count_rows_lt q (id ∷ ids) k h (Memᴰ.head e) here gone =
      ground (arith, count_rows_le q ids h, rw e at here, rw e at gone)
  count_rows_lt q (id ∷ ids) k h (Memᴰ.tail i) here gone =
      ground (arith, count_rows_lt q ids k h i here gone, h id)

module _ (chain : Chain) (expected : TxnStatus) where
  Verdict-is_terminal :
      (rec row : TransactionRecord) (now : ℕ)
      → Verdict chain rec now row
      → is_terminal row.status ≡ true
  unfolding confirmed_row failed_on_chain expired_row
  Verdict-is_terminal rec row now v = elim v as (λ end _. is_terminal end.status ≡ true) [
    | has_succeeded txn f e ↦ refl
    | has_failed txn f e ↦ refl
    | is_unsent msg u l ↦ refl
    | is_unseen msg x f l ↦ refl
  ]

  Written-Fades :
      (row : TransactionRecord) (w w' : World)
      → Written row expected w w'
      → is_terminal row.status ≡ true
      → Fades w.store.records w'.store.records
  Written-Fades row w w' c done j = elim (Bool-cases (row.id == j)) [
    | inl e ↦ inr (ground (arith, c.written j), (c.old, rw ((eq_iff row.id j).0 e) at c.stored))
    | inr e ↦ inl (ground (arith, c.written j))
  ]

  confirm-Fades :
      (rec : TransactionRecord) (w : World)
      → Fades w.store.records (confirm_record chain rec expected w).store.records
  confirm-Fades rec w = elim (confirm_settles chain rec expected w) [
    | inl same ↦ λ j. inl (ap (λ s. lookup j s.records) same.0)
    | inr s ↦ Written-Fades s.row w _ s.change (Verdict-is_terminal rec s.row w.clock s.verdict)
  ]

  visit-Fades :
      (require_hash : Bool) (rec : TransactionRecord) (w : World)
      → Fades w.store.records (visit chain expected require_hash rec w).store.records
  unfolding visit
  visit-Fades require_hash rec w = elim (Bool-cases (require_hash && rec.txn_hash == "")) [
    | inl e ↦ λ j. inl (rw e refl)
    | inr e ↦ rw e (confirm-Fades rec w)
  ]

  process_page-Fades :
      (page : List TransactionRecord) (require_hash : Bool) (w : World)
      → Fades w.store.records (process_page chain page expected require_hash w).store.records
  unfolding process_page
  process_page-Fades [] require_hash w = λ j. inl refl
  process_page-Fades (rec ∷ page) require_hash w =
      let next = visit chain expected require_hash rec w in
      Fades-trans w.store.records next.store.records
        (process_page chain page expected require_hash next).store.records
        (visit-Fades require_hash rec w) (process_page-Fades page require_hash next)

last_row-Mem :
    (page : List TransactionRecord) (r : TransactionRecord) → last_row page ≡ some r → Memᴰ r page
unfolding last_row
last_row-Mem [] r h = cc
last_row-Mem (q ∷ []) r h = Memᴰ.head cc
last_row-Mem (q ∷ p ∷ page) r h = Memᴰ.tail (last_row-Mem (p ∷ page) r h)

-- Whether the row of an id passes a test.
abbrev at : (TransactionRecord → Bool) → GoMap TransactionRecord → String → Bool
at p m j = elim (lookup j m) [ none ↦ false | some r ↦ p r ]

terminal_ne :
    (a b : TxnStatus) → is_terminal a ≡ true → is_terminal b ≡ false → status_eq a b ≡ false
terminal_ne a b h k = ground (arith, h, k)

-- A page makes progress: fewer rows wait beyond its last row than did beyond the cursor.
waits_fewer :
    (status : TxnStatus) (t : ℕ) (id : String) (m n : GoMap TransactionRecord) (ids : List String)
    (r : TransactionRecord)
    → is_terminal status ≡ false
    → Source (waits status t id) m ids r
    → Fades m n
    → count_rows (waits status r.updated_at r.id) n ids + 1 ≤ count_rows (waits status t id) m ids
waits_fewer status t id m n ids r live src f =
    count_rows_lt (waits status t id) m n (waits status r.updated_at r.id) ids src.key older_too
      src.listed (rw src.stored src.kept) gone
  where
    older_too :
        (j : String)
        → at (waits status r.updated_at r.id) n j ≡ true
        → at (waits status t id) m j ≡ true
    older_too j h = elim (Option-cases (lookup j n)) [
      | inl e ↦ absurd (ground (arith, h, e))
      | inr (q, e) ↦ elim (f j) [
        | inl same ↦ ground (arith, h, e, same, src.kept, after_cursor_trans t id r q)
        | inr (d, _) ↦ absurd (ground (arith, h, e, d, live, terminal_ne q.status status))
      ]
    ]

    gone : at (waits status r.updated_at r.id) n src.key ≡ false
    gone = elim (f src.key) [
      | inl same ↦ ground (arith, same, src.stored, after_cursor_irrefl r)
      | inr (d, _) ↦ elim (Option-cases (lookup src.key n)) [
        | inl e ↦ ground (arith, e)
        | inr (q, e) ↦ ground (arith, e, d, live, terminal_ne q.status status)
      ]
    ]

module _ (chain : Chain) (size : ℕ) (status : TxnStatus) (require_hash : Bool) (ids : List String)
    (live : is_terminal status ≡ false) where
  abbrev Ends : (ℕ → String → World → Bool × World) → ℕ → Type 0
  Ends again n =
      (t : ℕ) (id : String) (w : World)
      → ((j : String) (r : TransactionRecord) → lookup j w.store.records ≡ some r → Memᴰ j ids)
      → count_rows (waits status t id) w.store.records ids < n
      → (again t id w).0 ≡ true

  page-Ends :
      (n : ℕ) (again : ℕ → String → World → Bool × World)
      → Ends again n
      → (t : ℕ) (id : String) (w v : World) (page : List TransactionRecord)
        (last : Option TransactionRecord)
      → page ≡ list_by_status_paged status size t id w.store
      → last_row page ≡ last
      → v.store ≡ w.store
      → ((j : String) (q : TransactionRecord) → lookup j w.store.records ≡ some q → Memᴰ j ids)
      → count_rows (waits status t id) w.store.records ids < suc n
      → (from_last chain size status require_hash again page last v).0 ≡ true
  unfolding from_last
  page-Ends n again go t id w v page none pe e se dom few = refl
  page-Ends n again go t id w v page (some r) pe e se dom few =
      elim (Bool-cases (ltb (length page) size)) [
        | inl b ↦ rw b refl
        | inr b ↦
            let next = process_page chain page status require_hash v in
            let src = page-Source status size t id w.store r (rw pe at (last_row-Mem page r e)) in
            let here : Source (waits status t id) w.store.records ids r = record {
              key = src.key;
              listed = dom src.key r src.stored;
              stored = src.stored;
              kept = src.kept;
            } in
            let f : Fades w.store.records next.store.records =
              Fades-from v.store.records w.store.records next.store.records (ap (λ s. s.records) se)
                (process_page-Fades chain status page require_hash v) in
            let fewer =
              waits_fewer status t id w.store.records next.store.records ids r live here f in
            rw b (
              go r.updated_at r.id next
                (λ j q h. elim (f j) [
                  | inl same ↦ dom j q (sym same ∙ h)
                  | inr (_, (old, was)) ↦ dom j old was
                ])
                (omega (arith, fewer, few)))
      ]

  swept-Ends :
      (n : ℕ) (again : ℕ → String → World → Bool × World)
      → Ends again n
      → (t : ℕ) (id : String) (w : World) {r : Result StoreError (List TransactionRecord) × World}
      → Outcome (λ s. ok (list_by_status_paged status size t id s, s)) w r
      → ((j : String) (q : TransactionRecord) → lookup j w.store.records ≡ some q → Memᴰ j ids)
      → count_rows (waits status t id) w.store.records ids < suc n
      → (swept chain size status require_hash again r).0 ≡ true
  unfolding swept
  swept-Ends n again go t id w (refused fs e) dom few = refl
  swept-Ends n again go t id w (ran fs page s e) dom few =
      let pe : page ≡ list_by_status_paged status size t id w.store = cc in
      let se : s ≡ w.store = cc in
      page-Ends n again go t id w (record w { store = s; faults = fs }) page (last_row page) pe refl
        se dom few

  sweep_pages-Ends : (n : ℕ) → Ends (sweep_pages chain n size status require_hash) n
  unfolding sweep_pages
  sweep_pages-Ends zero t id w dom few = absurd (omega (arith, few))
  sweep_pages-Ends (suc n) t id w dom few =
      swept-Ends n (sweep_pages chain n size status require_hash) (sweep_pages-Ends n) t id w
        (attempt-Outcome _ w) dom few

count_rows_all :
    (p : TransactionRecord → Bool) (m n : GoMap TransactionRecord)
    → count_rows p n (keys m) ≤ length m
unfolding count_rows keys
count_rows_all p [] n = omega arith
count_rows_all p ((k, v) ∷ m) n = ground (arith, count_rows_all p m n)

-- A sweep of a status that is not terminal ends, from any store and any outcome of the database
-- calls, within as many pages as there are rows, and one more: with every page, fewer rows wait
-- beyond the cursor, whatever the node answers.
pub sweep_ends :
    (chain : Chain) (size : ℕ) (status : TxnStatus) (require_hash : Bool) (w : World)
    → is_terminal status ≡ false
    → (sweep_pages chain (length w.store.records + 1) size status require_hash 0 "" w).0 ≡ true
sweep_ends chain size status require_hash w live =
    sweep_pages-Ends chain size status require_hash (keys w.store.records) live
      (length w.store.records + 1) 0 "" w (λ j q h. mem-keys j w.store.records h)
      (omega (arith, count_rows_all (waits status 0 "") w.store.records w.store.records))
