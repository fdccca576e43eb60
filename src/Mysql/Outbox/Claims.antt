-- ===== src/Mysql/Outbox/Claims.antt =====
-- `ClaimPendingDeliveries` of internal/store/mysql/webhook.go: the deliveries that it hands out.
use circle_wallet_service.Prelude.{
  ℕ, ◌≤◌, ◌≡◌, refl, Bool, true, false, List, [], ◌∷◌, Memᴰ, arith, eq_iff, length, take,
  if◌then◌else◌, Bool-cases, inl, inr, ◌≢◌, leb, length-map, length-take-le, mem-take, mem-map,
}
use circle_wallet_service.Webhook.{DeliveryRecord, pending, delivery_eq}
use circle_wallet_service.Mysql.{Database}
use circle_wallet_service.Mysql.Outbox.{
  update_deliveries, is_due, due_into, due_order, is_among, set_delivering,
  claim_pending_deliveries,
}

under_head :
    {x y : DeliveryRecord} {xs ys : List DeliveryRecord}
    → (Memᴰ x xs → Memᴰ x ys)
    → Memᴰ x (y ∷ xs)
    → Memᴰ x (y ∷ ys)
under_head f (Memᴰ.head e) = Memᴰ.head e
under_head f (Memᴰ.tail m) = Memᴰ.tail (f m)

swapped :
    {x y z : DeliveryRecord} {xs : List DeliveryRecord} → Memᴰ x (y ∷ z ∷ xs) → Memᴰ x (z ∷ y ∷ xs)
swapped (Memᴰ.head e) = Memᴰ.tail (Memᴰ.head e)
swapped (Memᴰ.tail (Memᴰ.head e)) = Memᴰ.head e
swapped (Memᴰ.tail (Memᴰ.tail m)) = Memᴰ.tail (Memᴰ.tail m)

pub mem-due_into :
    (d : DeliveryRecord) (xs : List DeliveryRecord) {x : DeliveryRecord}
    → Memᴰ x (due_into d xs)
    → Memᴰ x (d ∷ xs)
unfolding due_into
mem-due_into d [] m = m
mem-due_into d (y ∷ ys) m = elim (Bool-cases (leb d.next_retry_at y.next_retry_at)) [
  | inl e ↦ rw e at m
  | inr e ↦ swapped (under_head (λ n. mem-due_into d ys n) (rw e at m))
]

pub mem-due_order :
    (now : ℕ) (ds : List DeliveryRecord) {x : DeliveryRecord}
    → Memᴰ x (due_order now ds)
    → Memᴰ x ds × (is_due now x ≡ true)
unfolding due_order
mem-due_order now [] m = elim m [ ]
mem-due_order now (d ∷ ds) {x} m = elim (Bool-cases (is_due now d)) [
  | inl e ↦ due e (λ n. mem-due_order now ds n) (mem-due_into d (due_order now ds) (rw e at m))
  | inr e ↦ let h = mem-due_order now ds (rw e at m) in (Memᴰ.tail h.0, h.1)
]
  where
    due :
        is_due now d ≡ true
        → (Memᴰ x (due_order now ds) → Memᴰ x ds × (is_due now x ≡ true))
        → Memᴰ x (d ∷ due_order now ds)
        → Memᴰ x (d ∷ ds) × (is_due now x ≡ true)
    due e k (Memᴰ.head q) = (Memᴰ.head q, rw q e)
    due e k (Memᴰ.tail n) = let h = k n in (Memᴰ.tail h.0, h.1)

-- A claim hands out at most as many deliveries as its limit, each of them a row that was pending and
-- due, marked as being delivered.
pub claim_due :
    (now limit : ℕ) (db : Database)
    → (length (claim_pending_deliveries now limit db).0 ≤ limit)
      × ((d : DeliveryRecord)
          → Memᴰ d (claim_pending_deliveries now limit db).0
          → (row : DeliveryRecord) × (Memᴰ row db.webhook_deliveries
              × ((is_due now row ≡ true) × (d ≡ set_delivering row))))
unfolding claim_pending_deliveries
claim_due now limit db = (
  rw (length-map set_delivering (take limit (due_order now db.webhook_deliveries)))
      (length-take-le limit (due_order now db.webhook_deliveries)),
  λ d m.
      let h = mem-map set_delivering (take limit (due_order now db.webhook_deliveries)) m in
      let r =
        mem-due_order now db.webhook_deliveries
          (mem-take limit (due_order now db.webhook_deliveries) h.1.0) in
      (h.0, (r.0, (r.1, h.1.1))),
)

mem-update_deliveries :
    (p : DeliveryRecord → Bool) (f : DeliveryRecord → DeliveryRecord) (ds : List DeliveryRecord)
    {x : DeliveryRecord}
    → Memᴰ x (update_deliveries p f ds)
    → (d : DeliveryRecord) × (Memᴰ d ds × (x ≡ (if p d then f d else d)))
unfolding update_deliveries
mem-update_deliveries p f [] m = elim m [ ]
mem-update_deliveries p f (d ∷ ds) (Memᴰ.head e) = (d, (Memᴰ.head refl, e))
mem-update_deliveries p f (d ∷ ds) (Memᴰ.tail m) =
    let h = mem-update_deliveries p f ds m in (h.0, (Memᴰ.tail h.1.0, h.1.1))

pub mem-is_among :
    (xs : List DeliveryRecord) (x d : DeliveryRecord)
    → Memᴰ x xs
    → x.id ≡ d.id
    → is_among xs d ≡ true
unfolding is_among
mem-is_among [] x d m e = elim m [ ]
mem-is_among (y ∷ ys) x d (Memᴰ.head q) e = ground (arith, q, e, eq_iff y.id d.id)
mem-is_among (y ∷ ys) x d (Memᴰ.tail m) e = ground (arith, mem-is_among ys x d m e)

-- A row that a claim leaves under the id of a delivery that it handed out is being delivered.
claimed_status :
    (now limit : ℕ) (db : Database) (d row : DeliveryRecord)
    → Memᴰ d (claim_pending_deliveries now limit db).0
    → Memᴰ row (claim_pending_deliveries now limit db).1.webhook_deliveries
    → d.id ≡ row.id
    → delivery_eq row.status pending ≡ false
unfolding claim_pending_deliveries
claimed_status now limit db d row m n same =
    let out = take limit (due_order now db.webhook_deliveries) in
    let (x, (at_x, d_is)) = mem-map set_delivering out m in
    let (r, (at_r, row_is)) =
      mem-update_deliveries (is_among out) set_delivering db.webhook_deliveries n in
    let same_id : x.id ≡ r.id = ground (arith, d_is, row_is, same) in
    ground (arith, row_is, mem-is_among out x r at_x same_id)

-- Two claims in a row, at any times and with any limits, do not hand out the same delivery.
pub claim_pending_deliveries-once :
    (now limit now' limit' : ℕ) (db : Database) (d d' : DeliveryRecord)
    → Memᴰ d (claim_pending_deliveries now limit db).0
    → Memᴰ d' (claim_pending_deliveries now' limit' (claim_pending_deliveries now limit db).1).0
    → d.id ≢ d'.id
claim_pending_deliveries-once now limit now' limit' db d d' m m' same =
    let (row, (at_row, (due, d_is))) =
      (claim_due now' limit' (claim_pending_deliveries now limit db).1).1 d' m' in
    absurd (
      unfold is_due in
      ground (arith, due, claimed_status now limit db d row m at_row (ground (arith, same, d_is))))
