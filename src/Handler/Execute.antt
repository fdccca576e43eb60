-- ===== src/Handler/Execute.antt =====
-- `Execute` of internal/handler/execute.go: a request becomes a queued row, or the answer to an
-- earlier request with the same idempotency key is given again. The answer is what the handler
-- writes: a status code with an error, or the record whose fields the body shows.
pub mod Replay
pub mod Stored
use circle_wallet_service.Prelude.{
  ℕ, ◌+◌, Bool, true, false, not, ◌&&◌, ◌||◌, Option, none, some, List, [], ◌∷◌, String, ◌==◌,
  nat_eq, if◌then◌else◌, Result, ok, err, ◌>>=◌, ◌>>◌,
}
use circle_wallet_service.Text.{split_colons, concat, runes}
use circle_wallet_service.Store.{
  TransactionRecord, StoreError, queued, idempotency_conflict, already_exists, not_found, database,
  cancelled,
}
use circle_wallet_service.Handler.Backend.{Backend}
use circle_wallet_service.Handler.WebhookUrl.{Net, validate_webhook_url}

pub record FeePayerInfo : Type 0 where
  pub wallet_id : String
  pub address : String
  pub public_key : String

-- The body. The type arguments and the arguments are one value, which is only encoded.
pub record ExecuteRequest (Payload : Type 0) : Type 0 where
  pub wallet_id : String
  pub address : String
  pub public_key : String
  pub function_id : String
  pub payload : Payload
  pub max_gas_amount : Option ℕ
  pub webhook_url : String
  pub idempotency_key : String
  pub fee_payer : Option FeePayerInfo

pub data Response : Type 0 where
  refuses : ℕ → String → Response
  -- 202, with whether the X-Idempotency-Replayed header is set
  accepts : Bool → TransactionRecord → Response

-- aptos.ParseAddress, StringLong, CircleWallet.VerifyWallet by address and key (none where it is
-- nil), and json.Marshal of the payload.
pub record Codec : Type 1 where
  pub Payload : Type 0
  pub Address : Type 0
  pub parse_address : String → Result String Address
  pub string_long : Address → String
  pub verify_key : String → String → Option String
  pub marshal : Payload → Result String String

filled : List ℕ → Bool
filled [] = false
filled (c ∷ part) = true

pub has_three_parts : List (List ℕ) → Bool
unfolding filled
has_three_parts (a ∷ b ∷ c ∷ []) = filled a && (filled b && filled c)
has_three_parts _ = false

bad_request : {A : Type 0} → String → Result Response A
bad_request msg = err (refuses 400 msg)

abbrev require : Bool → String → Result Response (Unit {0})
require true msg = ok tt
require false msg = err (refuses 400 msg)

abbrev or_bad : {A : Type 0} → Result String A → (String → String) → Result Response A
or_bad (ok a) msg = ok a
or_bad (err e) msg = err (refuses 400 (msg e))

abbrev none_or_bad : Option String → (String → String) → Result Response (Unit {0})
none_or_bad none msg = ok tt
none_or_bad (some e) msg = err (refuses 400 (msg e))

abbrev or_internal : {A : Type 0} → Result String A → String → Result Response A
or_internal (ok a) msg = ok a
or_internal (err e) msg = err (refuses 500 msg)

-- The wallet and the address of a fee payer, empty where there is none.
pub record Payer : Type 0 where
  pub wallet_id : String
  pub address : String

-- The key of the body, else the one of the header.
abbrev pub effective_key : String → String → String
effective_key body header = if body == "" then header else body

module _ (store : Backend) where
  open store use {World}

  -- After the loser of a race was refused by the store.
  replay_winner : Result StoreError (Option TransactionRecord) × World → Response × World
  replay_winner (ok (some existing), w) = (accepts true existing, w)
  replay_winner (ok none, w) = (refuses 500 "idempotency conflict", w)
  replay_winner (err e, w) = (refuses 500 "idempotency conflict", w)

  created : TransactionRecord → Result StoreError (Unit {0}) × World → Response × World
  unfolding replay_winner
  created rec (ok _, w) = (accepts false rec, w)
  created rec (err idempotency_conflict, w) =
      replay_winner (store.get_by_idempotency_key rec.idempotency_key w)
  created rec (err already_exists, w) = (refuses 500 "failed to store transaction", w)
  created rec (err not_found, w) = (refuses 500 "failed to store transaction", w)
  created rec (err database, w) = (refuses 500 "failed to store transaction", w)
  created rec (err cancelled, w) = (refuses 500 "failed to store transaction", w)

  enqueue : Result Response TransactionRecord → World → Response × World
  unfolding created
  enqueue (err r) w = (r, w)
  enqueue (ok rec) w = created rec (store.create rec w)

module _ (net : Net) (codec : Codec) (expiration : ℕ) where
  open codec use {Payload, Address, parse_address, string_long, verify_key, marshal}

  key_matches : String → String → String → Result Response (Unit {0})
  key_matches address key what =
      if key == ""
      then ok tt
      else none_or_bad (verify_key address key) (λ e. concat what (concat " mismatch: " e))

  check_webhook : String → Result Response (Unit {0})
  check_webhook url = if url == "" then ok tt else or_bad (validate_webhook_url net url) (λ e. e)

  check_payer : Option FeePayerInfo → Result Response Payer
  unfolding key_matches
  check_payer none = ok (record { wallet_id = ""; address = "" })
  check_payer (some p) = do
    require (not (p.wallet_id == "")) "fee_payer.wallet_id is required"
    require (not (p.address == "")) "fee_payer.address is required"
    addr ← or_bad (parse_address p.address) (concat "invalid fee_payer.address: ")
    key_matches p.address p.public_key "fee_payer.public_key"
    ok (record { wallet_id = p.wallet_id; address = string_long addr })

  -- The validation and the row that it leads to.
  unfoldable pub new_row :
      ℕ → String → String → ExecuteRequest Payload → Result Response TransactionRecord
  unfolding check_webhook check_payer key_matches has_three_parts split_colons
  new_row now fresh_id key req = do
    check_webhook req.webhook_url
    require (not (req.wallet_id == "")) "wallet_id is required"
    require (not (req.address == "")) "address is required"
    require (not (req.function_id == "")) "function_id is required"
    require (has_three_parts (split_colons (runes req.function_id)))
        "function_id must be in format <address>::<module>::<function>"
    sender ← or_bad (parse_address req.address) (concat "invalid address: ")
    key_matches req.address req.public_key "public_key"
    payer ← check_payer req.fee_payer
    payload ← or_internal (marshal req.payload) "failed to encode payload"
    ok (record {
      id = fresh_id;
      idempotency_key = key;
      status = queued;
      txn_hash = "";
      sender_address = string_long sender;
      function_id = req.function_id;
      wallet_id = req.wallet_id;
      fee_payer_wallet_id = payer.wallet_id;
      fee_payer_address = payer.address;
      payload_json = payload;
      sequence_number = none;
      max_gas_amount = req.max_gas_amount;
      error_message = "";
      webhook_url = req.webhook_url;
      attempt_count = 0;
      last_error = "";
      failure_kind = "";
      vm_status = "";
      created_at = now;
      updated_at = now;
      expires_at = now + expiration;
    })

module _ (store : Backend) (net : Net) (codec : Codec) (expiration : ℕ) where
  open store use {World}
  open codec use {Payload}

  -- After the first look for the key.
  looked_for :
      String
      → String
      → ExecuteRequest Payload
      → Result StoreError (Option TransactionRecord) × World
      → Response × World
  unfolding enqueue
  looked_for fresh_id key req (err e, w) = (refuses 500 "failed to check idempotency", w)
  looked_for fresh_id key req (ok (some existing), w) = (accepts true existing, w)
  looked_for fresh_id key req (ok none, w) =
      enqueue store (new_row net codec expiration (store.clock w) fresh_id key req) w

  unfoldable pub execute :
      String → Result String (ExecuteRequest Payload) → String → World → Response × World
  unfolding looked_for enqueue
  execute fresh_id (err e) header w = (refuses 400 (concat "invalid request body: " e), w)
  execute fresh_id (ok req) header w =
      let key = effective_key req.idempotency_key header in
      if key == ""
      then enqueue store (new_row net codec expiration (store.clock w) fresh_id key req) w
      else looked_for fresh_id key req (store.get_by_idempotency_key key w)
