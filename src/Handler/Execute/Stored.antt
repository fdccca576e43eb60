-- ===== src/Handler/Execute/Stored.antt =====
-- What `Execute` of internal/handler/execute.go has stored when it accepts a request.
use circle_wallet_service.Prelude.{
  ℕ, ◌≡◌, refl, ap, ◌∙◌, true, false, none, some, inl, inr, String, ◌==◌, arith, Bool-cases,
  Result-cases, Option-cases, Option, Result, ok, err, bind_ok, not, ◌==◌, Bool, ◌>>=◌,
}
use circle_wallet_service.Store.{
  TransactionRecord, StoreError, queued, idempotency_conflict, already_exists, not_found, database,
  cancelled,
}
use circle_wallet_service.Handler.Backend.{Backend}
use circle_wallet_service.Handler.WebhookUrl.{Net, validate_webhook_url}
use circle_wallet_service.Handler.Execute.{
  Codec, ExecuteRequest, FeePayerInfo, Response, accepts, effective_key, new_row, replay_winner,
  created, enqueue, looked_for, execute, check_webhook, require, or_bad, or_internal,
  has_three_parts, key_matches, check_payer,
}
use circle_wallet_service.Text.{split_colons, concat, runes}

-- The fields of a new row that the request does not choose.
pub record IsNew (fresh_id key : String) (now : ℕ) (rec : TransactionRecord) : Type 0 where
  pub id : rec.id ≡ fresh_id
  pub keyed : rec.idempotency_key ≡ key
  pub status : rec.status ≡ queued
  pub created_at : rec.created_at ≡ now
  pub updated_at : rec.updated_at ≡ now

-- A row that was accepted: it is new, and the store has created it.
pub record IsAccepted (store : Backend) (fresh_id key : String) (rec : TransactionRecord)
    (w w' : store.World) : Type 0 where
  pub new : IsNew fresh_id key (store.clock w) rec
  pub made : store.create rec w ≡ (ok tt, w')

-- A step that accepts nothing by itself.
abbrev Refuses : {A : Type 0} → Result Response A → Type 0
Refuses m = (rec : TransactionRecord) → m ≡ err (accepts false rec) → ⊥

then_Refuses :
    {A B : Type 0} (m : Result Response A) (f : A → Result Response B)
    → Refuses m
    → ((a : A) → Refuses (f a))
    → Refuses (m >>= f)
then_Refuses (ok a) f hm hf rec h = hf a rec h
then_Refuses (err e) f hm hf rec h = hm rec (ground (arith, h))

require-Refuses : (b : Bool) (msg : String) → Refuses (require b msg)
require-Refuses true msg rec h = ground (arith, h)
require-Refuses false msg rec h = ground (arith, h)

or_bad-Refuses : {A : Type 0} (r : Result String A) (msg : String → String) → Refuses (or_bad r msg)
or_bad-Refuses (ok a) msg rec h = ground (arith, h)
or_bad-Refuses (err e) msg rec h = ground (arith, h)

or_internal-Refuses :
    {A : Type 0} (r : Result String A) (msg : String) → Refuses (or_internal r msg)
or_internal-Refuses (ok a) msg rec h = ground (arith, h)
or_internal-Refuses (err e) msg rec h = ground (arith, h)

module _ (net : Net) (codec : Codec) (expiration : ℕ) where
  open codec use {Payload, parse_address, marshal, verify_key}

  new_row-IsNew :
      (now : ℕ) (fresh_id key : String) (req : ExecuteRequest Payload) (rec : TransactionRecord)
      → new_row net codec expiration now fresh_id key req ≡ ok rec
      → IsNew fresh_id key now rec
  unfolding new_row
  new_row-IsNew now fresh_id key req rec h =
      let (_, (_, h0)) = bind_ok (check_webhook net codec expiration req.webhook_url) _ h in
      let (_, (_, h1)) =
        bind_ok (require (not (req.wallet_id == "")) "wallet_id is required") _ h0 in
      let (_, (_, h2)) = bind_ok (require (not (req.address == "")) "address is required") _ h1 in
      let (_, (_, h3)) =
        bind_ok (require (not (req.function_id == "")) "function_id is required") _ h2 in
      let (_, (_, h4)) =
        bind_ok
          (require (has_three_parts (split_colons (runes req.function_id)))
            "function_id must be in format <address>::<module>::<function>")
          _ h3 in
      let (_, (_, h5)) =
        bind_ok (or_bad (parse_address req.address) (concat "invalid address: ")) _ h4 in
      let (_, (_, h6)) =
        bind_ok (key_matches net codec expiration req.address req.public_key "public_key") _ h5 in
      let (_, (_, h7)) = bind_ok (check_payer net codec expiration req.fee_payer) _ h6 in
      let (_, (_, h8)) =
        bind_ok (or_internal (marshal req.payload) "failed to encode payload") _ h7 in
      record {
        id = ground (arith, h8);
        keyed = ground (arith, h8);
        status = ground (arith, h8);
        created_at = ground (arith, h8);
        updated_at = ground (arith, h8);
      }

  key_matches-Refuses :
      (address key what : String) → Refuses (key_matches net codec expiration address key what)
  unfolding key_matches
  key_matches-Refuses address key what rec h = elim (Bool-cases (key == "")) [
    | inl e ↦ ground (arith, h, e)
    | inr e ↦ elim (Option-cases (verify_key address key)) [
      | inl f ↦ ground (arith, h, e, f)
      | inr (why, f) ↦ ground (arith, h, e, f)
    ]
  ]

  check_webhook-Refuses : (url : String) → Refuses (check_webhook net codec expiration url)
  unfolding check_webhook
  check_webhook-Refuses url rec h = elim (Bool-cases (url == "")) [
    | inl e ↦ ground (arith, h, e)
    | inr e ↦ or_bad-Refuses (validate_webhook_url net url) (λ e. e) rec (ground (arith, h, e))
  ]

  check_payer-Refuses :
      (payer : Option FeePayerInfo) → Refuses (check_payer net codec expiration payer)
  unfolding check_payer
  check_payer-Refuses none rec h = ground (arith, h)
  check_payer-Refuses (some p) rec h =
      then_Refuses (require (not (p.wallet_id == "")) "fee_payer.wallet_id is required") _
        (require-Refuses _ _)
        (λ _.
          then_Refuses (require (not (p.address == "")) "fee_payer.address is required") _
            (require-Refuses _ _)
            (λ _.
              then_Refuses (or_bad (parse_address p.address) (concat "invalid fee_payer.address: "))
                _ (or_bad-Refuses _ _)
                (λ addr.
                  then_Refuses
                    (key_matches net codec expiration p.address p.public_key "fee_payer.public_key")
                    _ (key_matches-Refuses _ _ _) (λ _ r g. ground (arith, g)))))
        rec h

  new_row-Refuses :
      (now : ℕ) (fresh_id key : String) (req : ExecuteRequest Payload)
      → Refuses (new_row net codec expiration now fresh_id key req)
  unfolding new_row
  new_row-Refuses now fresh_id key req rec h =
      then_Refuses (check_webhook net codec expiration req.webhook_url) _
        (check_webhook-Refuses req.webhook_url)
        (λ _.
          then_Refuses (require (not (req.wallet_id == "")) "wallet_id is required") _
            (require-Refuses _ _)
            (λ _.
              then_Refuses (require (not (req.address == "")) "address is required") _
                (require-Refuses _ _)
                (λ _.
                  then_Refuses (require (not (req.function_id == "")) "function_id is required") _
                    (require-Refuses _ _)
                    (λ _.
                      then_Refuses
                        (require (has_three_parts (split_colons (runes req.function_id)))
                          "function_id must be in format <address>::<module>::<function>")
                        _ (require-Refuses _ _)
                        (λ _.
                          then_Refuses
                            (or_bad (parse_address req.address) (concat "invalid address: ")) _
                            (or_bad-Refuses _ _)
                            (λ _.
                              then_Refuses
                                (key_matches net codec expiration req.address req.public_key
                                  "public_key")
                                _ (key_matches-Refuses _ _ _)
                                (λ _.
                                  then_Refuses (check_payer net codec expiration req.fee_payer) _
                                    (check_payer-Refuses req.fee_payer)
                                    (λ _.
                                      then_Refuses
                                        (or_internal (marshal req.payload)
                                          "failed to encode payload")
                                        _ (or_internal-Refuses _ _)
                                        (λ _. λ r g. ground (arith, g))))))))))
        rec h

module _ (store : Backend) where
  open store use {World}

  replay_winner-replays :
      (r : Result StoreError (Option TransactionRecord) × World) (rec : TransactionRecord)
      → (replay_winner store r).0 ≡ accepts false rec
      → ⊥
  unfolding replay_winner
  replay_winner-replays (ok (some existing), w) rec h = ground (arith, h)
  replay_winner-replays (ok none, w) rec h = ground (arith, h)
  replay_winner-replays (err e, w) rec h = ground (arith, h)

  created-accepts :
      (row rec : TransactionRecord) (out : Result StoreError (Unit {0}) × World)
      → (created store row out).0 ≡ accepts false rec
      → (row ≡ rec) × (out ≡ (ok tt, (created store row out).1))
  unfolding created
  created-accepts row rec (ok u, w) h = (ground (arith, h), refl)
  created-accepts row rec (err idempotency_conflict, w) h =
      absurd (replay_winner-replays (store.get_by_idempotency_key row.idempotency_key w) rec h)
  created-accepts row rec (err already_exists, w) h = absurd (ground (arith, h))
  created-accepts row rec (err not_found, w) h = absurd (ground (arith, h))
  created-accepts row rec (err database, w) h = absurd (ground (arith, h))
  created-accepts row rec (err cancelled, w) h = absurd (ground (arith, h))

module _ (store : Backend) (net : Net) (codec : Codec) (expiration : ℕ) where
  open store use {World}
  open codec use {Payload}

  enqueued-IsAccepted :
      (fresh_id key : String) (req : ExecuteRequest Payload) (rec : TransactionRecord) (w : World)
      → let r = enqueue store (new_row net codec expiration (store.clock w) fresh_id key req) w in
        r.0 ≡ accepts false rec → IsAccepted store fresh_id key rec w r.1
  unfolding enqueue
  enqueued-IsAccepted fresh_id key req rec w h =
      elim (Result-cases (new_row net codec expiration (store.clock w) fresh_id key req)) [
        | inl (row, e) ↦
            let (same, made) = created-accepts store row rec (store.create row w) (rw e at h) in
            rw e (record {
              new =
                  rw (← same)
                    (new_row-IsNew net codec expiration (store.clock w) fresh_id key req row e);
              made = rw (← same) made;
            })
        | inr (why, e) ↦ absurd (
            new_row-Refuses net codec expiration (store.clock w) fresh_id key req rec
              (e ∙ ap err (rw e at h)))
      ]

  looked_for-IsAccepted :
      (fresh_id key : String) (req : ExecuteRequest Payload) (rec : TransactionRecord)
      (out : Result StoreError (Option TransactionRecord) × World)
      → (looked_for store net codec expiration fresh_id key req out).0 ≡ accepts false rec
      → IsAccepted store fresh_id key rec out.1
          (looked_for store net codec expiration fresh_id key req out).1
  unfolding looked_for
  looked_for-IsAccepted fresh_id key req rec (err e, w) h = absurd (ground (arith, h))
  looked_for-IsAccepted fresh_id key req rec (ok (some old), w) h = absurd (ground (arith, h))
  looked_for-IsAccepted fresh_id key req rec (ok none, w) h =
      enqueued-IsAccepted fresh_id key req rec w h

  -- A request that is accepted, and not as a replay, has a new row, which the store has created in the
  -- end: queued, under the id that was drawn and the effective key, with the time of the request.
  pub execute-IsAccepted :
      (fresh_id header : String) (req : ExecuteRequest Payload) (rec : TransactionRecord)
      (w : World)
      → (execute store net codec expiration fresh_id (ok req) header w).0 ≡ accepts false rec
      → (w1 : World) × IsAccepted store fresh_id
          (effective_key req.idempotency_key header)
          rec
          w1
          (execute store net codec expiration fresh_id (ok req) header w).1
  unfolding execute
  execute-IsAccepted fresh_id header req rec w h =
      let key = effective_key req.idempotency_key header in
      elim (Bool-cases (key == "")) [
        | inl e ↦ (w, rw e (enqueued-IsAccepted fresh_id key req rec w (rw e at h)))
        | inr e ↦ (
          (store.get_by_idempotency_key key w).1,
          rw e (
              looked_for-IsAccepted fresh_id key req rec (store.get_by_idempotency_key key w)
                (rw e at h)),
        )
      ]

  -- A key that a lookup finds is answered with its record.
  pub execute-known :
      (fresh_id header : String) (req : ExecuteRequest Payload) (rec : TransactionRecord)
      (w w' : World)
      → (effective_key req.idempotency_key header == "") ≡ false
      → store.get_by_idempotency_key (effective_key req.idempotency_key header) w
        ≡ (ok (some rec), w')
      → execute store net codec expiration fresh_id (ok req) header w ≡ (accepts true rec, w')
  unfolding execute looked_for
  execute-known fresh_id header req rec w w' keyed there = rw (keyed, there) refl
