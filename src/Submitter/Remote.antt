-- ===== src/Submitter/Remote.antt =====
-- What the submitter calls outside of its repository, or through internal/aptos and internal/circle
-- on the network: each call is a function to its answer. Nothing is assumed of the answers.
use circle_wallet_service.Prelude.{ℕ, Bool, Option, String, Result}
use circle_wallet_service.Aptos.Errors.{GoError}

-- The part of a simulated `api.UserTransaction` that is read.
pub record Simulated : Type 0 where
  pub success : Bool
  pub vm_status : String
  pub gas_used : ℕ

pub record Remote : Type 1 where
  pub Address : Type 0
  pub Payload : Type 0
  pub Entry : Type 0
  pub RawTxn : Type 0
  pub Auth : Type 0
  pub Signed : Type 0
  pub AccountInfo : Type 0
  -- pkCache.Resolve(walletID)
  pub resolve : String → Result String String
  -- wallet.VerifyWallet(), by address and public key; `none` is a nil error
  pub verify_wallet : String → String → Option String
  -- json.Unmarshal of payload_json
  pub unmarshal : String → Result String Payload
  -- abi.BuildEntryFunctionPayload(functionID, typeArguments, arguments)
  pub build_entry : String → Payload → Result String Entry
  -- aptos.ParseAddress
  pub parse_address : String → Result String Address
  -- client.BuildFeePayerTransactionCtx: sender, fee payer, payload, max gas, sequence
  pub build : Address → Address → Entry → ℕ → ℕ → Result String RawTxn
  -- client.SimulateFeePayerTransaction, with the two public keys
  pub simulate : RawTxn → String → String → Result GoError Simulated
  -- the second build, at the calibrated gas
  pub rebuild : Address → Address → Entry → ℕ → ℕ → Result String RawTxn
  -- signer.SignTransaction: wallet id and public key
  pub sign : RawTxn → String → String → Result String Auth
  -- ToFeePayerSignedTransaction, `none` where it is not ok
  pub assemble : RawTxn → Auth → Auth → Option Signed
  -- signedTxn.Hash()
  pub hash : Signed → Result String String
  -- SubmitTransactionCtx: the hash that the node returns
  pub submit : Signed → Result String String
  -- client.AccountCtx
  pub account : Address → Result String AccountInfo
  -- info.SequenceNumber(): the chain's sequence number of the account
  pub sequence_number : AccountInfo → Result String ℕ
