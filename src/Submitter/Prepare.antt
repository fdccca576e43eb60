-- ===== src/Submitter/Prepare.antt =====
-- `prepareRecord` and `reconcileAndRequeue` of internal/submitter/submitter.go.
use circle_wallet_service.Prelude.{
  ℕ, ◌+◌, ◌-◌, ◌/◌, Bool, true, false, not, ◌&&◌, ◌||◌, Option, none, some, String, ◌==◌, ltb,
  nat_eq, u64, if◌then◌else◌, Result, ok, err, ◌>>=◌, ◌>>◌,
}
use circle_wallet_service.Text.{concat}
use circle_wallet_service.Store.{TransactionRecord}
use circle_wallet_service.Aptos.Errors.{
  GoError, error_text, is_sequence_vm_status, is_transient_simulation_error,
}
use circle_wallet_service.Submitter.{
  World, mark_permanent_failure, mark_simulation_failure, requeue_transient, apply_reconcile,
}
use circle_wallet_service.Submitter.Remote.{Remote, Simulated}

-- The settings of internal/config that the submitter reads, durations in nanoseconds.
pub record Settings : Type 0 where
  pub max_retry_duration : ℕ
  pub simulate_before_submit : Bool
  pub calibrate_gas : Bool

pub record SignedItem (Signed : Type 0) : Type 0 where
  pub rec : TransactionRecord
  pub signed_txn : Signed
  pub seq_num : ℕ
  pub hash : String

-- Why a row was not signed: what is done to it.
pub data Refusal (Address : Type 0) : Type 0 where
  permanent : String → String → Refusal Address
  simulation_rejected : String → Refusal Address
  transient : String → Refusal Address
  sequence_mismatch : Address → Refusal Address

-- The deferred branches of `prepareRecord` return at once.
-- if cond { return refusal }
abbrev pub refuse_if : {E : Type 0} → Bool → E → Result E (Unit {0})
refuse_if true e = err e
refuse_if false e = ok tt

-- v, err := call; if err != nil { return refusal }
abbrev pub or_refuse : {E A : Type 0} → Result String A → (String → E) → Result E A
or_refuse (ok a) e = ok a
or_refuse (err m) e = err (e m)

abbrev pub none_or : {E : Type 0} → Option String → (String → E) → Result E (Unit {0})
none_or (some m) e = err (e m)
none_or none e = ok tt

abbrev pub some_or : {E A : Type 0} → Option A → E → Result E A
some_or (some a) e = ok a
some_or none e = err e

unfoldable pub invalid : {Address : Type 0} → String → Refusal Address
invalid = permanent "validation"

pub has_separate_fee_payer : TransactionRecord → Bool
has_separate_fee_payer rec =
    not (rec.fee_payer_wallet_id == "") && not (rec.fee_payer_address == "")

module _ (api : Remote) (cfg : Settings) where
  open api use {Address, Entry, RawTxn, Signed}

  -- What the checks before the build found: the keys and the addresses.
  pub record Parties : Type 0 where
    pub sender_key : String
    pub fee_payer_key : String
    pub sender : Address
    pub fee_payer : Address
    pub entry : Entry

  unfoldable pub check_age : ℕ → TransactionRecord → Result (Refusal Address) (Unit {0})
  check_age now rec = do
    refuse_if (ltb rec.expires_at now) (permanent "expired" "transaction expired before submit")
    refuse_if (ltb cfg.max_retry_duration (now - rec.created_at))
        (permanent "expired" "max retry duration exceeded")

  unfoldable pub check_parties : TransactionRecord → Result (Refusal Address) Parties
  unfolding invalid has_separate_fee_payer
  check_parties rec = do
    sender_key ← or_refuse (api.resolve rec.wallet_id) (λ e.
        invalid (concat "resolve public key for wallet " (concat rec.wallet_id (concat ": " e))))
    none_or (api.verify_wallet rec.sender_address sender_key)
        (λ e. invalid (concat "invalid wallet: " e))
    payload ←
        or_refuse (api.unmarshal rec.payload_json) (λ e. invalid (concat "bad payload_json: " e))
    entry ← or_refuse (api.build_entry rec.function_id payload) invalid
    sender ← or_refuse (api.parse_address rec.sender_address) invalid
    fee_payer ←
        (if has_separate_fee_payer rec
          then or_refuse (api.parse_address rec.fee_payer_address)
              (λ e. invalid (concat "invalid fee_payer_address: " e))
          else ok sender)
    fee_payer_key ←
        (if has_separate_fee_payer rec
          then or_refuse (api.resolve rec.fee_payer_wallet_id)
              (λ e. transient (concat "resolve fee-payer public key: " e))
          else ok sender_key)
    ok (record {
      sender_key = sender_key;
      fee_payer_key = fee_payer_key;
      sender = sender;
      fee_payer = fee_payer;
      entry = entry;
    })

  -- gas_used * 1.5, on uint64
  pub calibrated_gas : ℕ → ℕ
  calibrated_gas used = u64 (used + used / 2)

  -- The transaction rebuilt at the calibrated gas, or the first one where that fails or is not
  -- wanted.
  calibrate : Parties → ℕ → ℕ → RawTxn → Simulated → RawTxn
  unfolding calibrated_gas
  calibrate p max_gas seq raw sim =
      if cfg.calibrate_gas
        && ltb 0 sim.gas_used
        && (nat_eq max_gas 0 || ltb (calibrated_gas sim.gas_used) max_gas)
      then elim (api.rebuild p.sender p.fee_payer p.entry (calibrated_gas sim.gas_used) seq) [
        | ok rebuilt ↦ rebuilt
        | err e ↦ raw
      ]
      else raw

  unfoldable pub simulated :
      Parties → ℕ → ℕ → RawTxn → Result GoError Simulated → Result (Refusal Address) RawTxn
  unfolding calibrate
  simulated p max_gas seq raw (err e) =
      if is_transient_simulation_error e
      then err (transient (concat "simulate: " (error_text e)))
      else err (permanent "simulation" (concat "simulation failed: " (error_text e)))
  simulated p max_gas seq raw (ok sim) =
      if sim.success
      then ok (calibrate p max_gas seq raw sim)
      else if is_sequence_vm_status sim.vm_status
      then err (sequence_mismatch p.sender)
      else err (simulation_rejected sim.vm_status)

  unfoldable pub simulate_first : Parties → ℕ → ℕ → RawTxn → Result (Refusal Address) RawTxn
  unfolding simulated
  simulate_first p max_gas seq raw =
      if cfg.simulate_before_submit
      then simulated p max_gas seq raw (api.simulate raw p.sender_key p.fee_payer_key)
      else ok raw

  unfoldable pub sign_all : TransactionRecord → Parties → RawTxn → Result (Refusal Address) Signed
  unfolding has_separate_fee_payer
  sign_all rec p raw = do
    sender_auth ← or_refuse (api.sign raw rec.wallet_id p.sender_key) transient
    fee_payer_auth ←
        (if has_separate_fee_payer rec
          then or_refuse (api.sign raw rec.fee_payer_wallet_id p.fee_payer_key)
              (λ e. transient (concat "fee-payer sign: " e))
          else ok sender_auth)
    some_or (api.assemble raw sender_auth fee_payer_auth)
        (permanent "assembly" "failed to assemble signed transaction")

  unfoldable pub signed_item : ℕ → TransactionRecord → Result (Refusal Address) (SignedItem Signed)
  unfolding check_age check_parties simulate_first sign_all
  signed_item now rec = do
    check_age now rec
    seq ← some_or rec.sequence_number (transient "no sequence number allocated")
    p ← check_parties rec
    let max_gas = elim rec.max_gas_amount as (λ _. ℕ) [ none ↦ 0 | some g ↦ g ]
    raw ← or_refuse (api.build p.sender p.fee_payer p.entry max_gas seq) transient
    raw' ← simulate_first p max_gas seq raw
    txn ← sign_all rec p raw'
    h ← or_refuse (api.hash txn) (λ e. permanent "assembly" (concat "compute txn hash: " e))
    ok (record { rec = rec; signed_txn = txn; seq_num = seq; hash = h })

  -- info, err := client.AccountCtx(..); chainSeq, err := info.SequenceNumber()
  pub chain_sequence : Address → Result String ℕ
  chain_sequence sender = do
    info ← or_refuse (api.account sender) (λ e. concat "reconcile account info: " e)
    or_refuse (api.sequence_number info) (λ e. concat "reconcile sequence number: " e)

  unfoldable pub reconcile_and_requeue : TransactionRecord → Address → World → World
  unfolding chain_sequence
  reconcile_and_requeue rec sender w = elim (chain_sequence sender) [
    | err e ↦ requeue_transient rec e w
    | ok chain_seq ↦
        apply_reconcile rec (elim rec.sequence_number [ none ↦ 0 | some n ↦ n ]) chain_seq w
  ]

  -- What a refusal does to the row, and whether it is transient.
  unfoldable pub refused : TransactionRecord → Refusal Address → World → Bool × World
  unfolding reconcile_and_requeue
  refused rec (permanent kind msg) w = (false, mark_permanent_failure rec kind msg w)
  refused rec (simulation_rejected status) w =
      (false, mark_simulation_failure rec status (concat "simulation rejected: " status) w)
  refused rec (transient msg) w = (true, requeue_transient rec msg w)
  refused rec (sequence_mismatch sender) w = (true, reconcile_and_requeue rec sender w)

  -- (item, false), (nil, false) on permanent failure, (nil, true) on transient failure
  unfoldable pub prepared :
      TransactionRecord
      → Result (Refusal Address) (SignedItem Signed)
      → World
      → Option (SignedItem Signed) × Bool × World
  unfolding refused
  prepared rec (ok item) w = (some item, false, w)
  prepared rec (err e) w = let (b, w') = refused rec e w in (none, b, w')

  unfoldable pub prepare_record :
      TransactionRecord → World → Option (SignedItem Signed) × Bool × World
  unfolding prepared
  prepare_record rec w = prepared rec (signed_item w.clock rec) w
