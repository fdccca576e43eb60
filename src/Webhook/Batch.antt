-- ===== src/Webhook/Batch.antt =====
-- One batch of internal/webhook/worker.go over the table of deliveries. The deliveries of a batch are
-- posted by goroutines, each of which writes only its own row; here they run one after the other.
use circle_wallet_service.Prelude.{
  ℕ, ◌≡◌, refl, Bool, true, false, some, List, [], ◌∷◌, Memᴰ, arith, String, ◌==◌, eq_iff, map,
  take, if◌then◌else◌, Bool-cases, inl, inr, sym, ◌∙◌, eq_refl, Mem-map, mem-take,
}
use circle_wallet_service.GoMap.{IsNodup}
use circle_wallet_service.Webhook.{DeliveryRecord, Reply, deliver}
use circle_wallet_service.Webhook.Retries.{deliver-id}
use circle_wallet_service.Mysql.{Engine, Database}
use circle_wallet_service.Mysql.Outbox.{
  is_due, set_delivering, claim_pending_deliveries, update_delivery, delivery_with, set_outcome,
}
use circle_wallet_service.Mysql.Outbox.Claims.{claim_due}
use circle_wallet_service.Mysql.Outbox.Distinct.{
  ids, take-IsNodup, claim-IsNodup, claimed-delivery_with,
}
use circle_wallet_service.Mysql.Outbox.Stuck.{update_delivery-at}

-- What the worker meets outside of it: the clock before and after a post, the reply, and whether the
-- write of the outcome reaches the database.
pub record Outside : Type 0 where
  pub now : DeliveryRecord → ℕ
  pub later : DeliveryRecord → ℕ
  pub reply : DeliveryRecord → Reply
  pub saves : DeliveryRecord → Bool

module _ (engine : Engine) (decimal : ℕ → String) (max_retries : ℕ) (outside : Outside) where
  abbrev pub outcome : DeliveryRecord → DeliveryRecord
  outcome rec =
      deliver decimal max_retries (outside.now rec) (outside.later rec) (outside.reply rec) rec

  -- deliver, with the write at its end
  unfoldable pub deliver_one : DeliveryRecord → Database → Database
  deliver_one rec db = if outside.saves rec then update_delivery engine (outcome rec) db else db

  unfoldable pub deliver_all : List DeliveryRecord → Database → Database
  unfolding deliver_one
  deliver_all [] db = db
  deliver_all (rec ∷ recs) db = deliver_all recs (deliver_one rec db)

  -- `started` deliveries get their goroutine before the context ends.
  unfoldable pub process_batch : ℕ → ℕ → Database → Database
  unfolding deliver_all
  process_batch now started db =
      let (records, claimed) = claim_pending_deliveries now 10 db in
      deliver_all (take started records) claimed

  outcome-id : (rec : DeliveryRecord) → (outcome rec).id ≡ rec.id
  outcome-id rec =
      deliver-id decimal max_retries (outside.now rec) (outside.later rec) (outside.reply rec) rec

  deliver_one-other :
      (rec : DeliveryRecord) (db : Database) (id : String)
      → (rec.id == id) ≡ false
      → delivery_with id (deliver_one rec db).webhook_deliveries
        ≡ delivery_with id db.webhook_deliveries
  unfolding deliver_one
  deliver_one-other rec db id other = elim (Bool-cases (outside.saves rec)) [
    | inr lost ↦ rw lost refl
    | inl saved ↦
        rw (saved, update_delivery-at engine (outcome rec) db id, outcome-id rec, other) refl
  ]

  deliver_all-other :
      (recs : List DeliveryRecord) (db : Database) (id : String)
      → ((j : String) → Memᴰ j (map (λ (d : DeliveryRecord). d.id) recs) → (id == j) ≡ false)
      → delivery_with id (deliver_all recs db).webhook_deliveries
        ≡ delivery_with id db.webhook_deliveries
  unfolding deliver_all
  deliver_all-other [] db id other = refl
  deliver_all-other (rec ∷ recs) db id other =
      deliver_all-other recs (deliver_one rec db) id (λ j m. other j (Memᴰ.tail m))
      ∙ deliver_one-other rec db id
          (ground (arith, eq_iff rec.id id, eq_iff id rec.id, other rec.id (Memᴰ.head refl)))

  deliver_one-own :
      (rec : DeliveryRecord) (db : Database) (row : DeliveryRecord)
      → outside.saves rec ≡ true
      → delivery_with rec.id db.webhook_deliveries ≡ some row
      → delivery_with rec.id (deliver_one rec db).webhook_deliveries
        ≡ some (set_outcome engine (outcome rec) row)
  unfolding deliver_one
  deliver_one-own rec db row saved held =
      rw
        (
          saved,
          update_delivery-at engine (outcome rec) db rec.id,
          outcome-id rec,
          eq_refl rec.id,
          held,
        )
        refl

  -- When the claimed deliveries of a batch have been posted, the row of each one whose write reached the
  -- database holds its own outcome, whatever came of the others; their ids must differ.
  pub deliver_all_settles :
      (recs : List DeliveryRecord) (db : Database) (rec row : DeliveryRecord)
      → IsNodup (map (λ (d : DeliveryRecord). d.id) recs)
      → Memᴰ rec recs
      → outside.saves rec ≡ true
      → delivery_with rec.id db.webhook_deliveries ≡ some row
      → delivery_with rec.id (deliver_all recs db).webhook_deliveries
        ≡ some (set_outcome engine (outcome rec) row)
  unfolding deliver_all
  deliver_all_settles [] db rec row once m saved held = elim m [ ]
  deliver_all_settles (first ∷ recs) db rec row once (Memᴰ.head e) saved held = rw (sym e) (
      deliver_all-other recs (deliver_one rec db) rec.id (rw (sym e) at once.0)
      ∙ deliver_one-own rec db row saved held)
  deliver_all_settles (first ∷ recs) db rec row once (Memᴰ.tail m) saved held =
      deliver_all_settles recs (deliver_one first db) rec row once.1 m saved (
        deliver_one-other first db rec.id
          (once.0 rec.id (Mem-map (λ (d : DeliveryRecord). d.id) recs m))
        ∙ held)

  -- A batch records every delivery that it claimed, started and could write, with its own outcome,
  -- whatever came of the others; the delivery was a pending row that was due.
  pub process_batch_settles :
      (now started : ℕ) (db : Database) (rec : DeliveryRecord)
      → IsNodup (ids db.webhook_deliveries)
      → Memᴰ rec (take started (claim_pending_deliveries now 10 db).0)
      → outside.saves rec ≡ true
      → ((row : DeliveryRecord) × (Memᴰ row db.webhook_deliveries
            × ((is_due now row ≡ true) × (rec ≡ set_delivering row))))
        × (delivery_with rec.id (process_batch now started db).webhook_deliveries
            ≡ some (set_outcome engine (outcome rec) rec))
  unfolding process_batch
  process_batch_settles now started db rec once m saved =
      let out = (claim_pending_deliveries now 10 db).0 in
      let claimed = mem-take started out m in
      (
        (claim_due now 10 db).1 rec claimed,
        deliver_all_settles (take started out) (claim_pending_deliveries now 10 db).1 rec rec
            (take-IsNodup started out (claim-IsNodup now 10 db once)) m saved
            (claimed-delivery_with now 10 db rec once claimed),
      )
