-- ===== src/Aptos/Client.antt =====
-- internal/aptos/client.go: the requests that the service makes of a node. The SDK, the JSON decoder
-- and the transport of net/http are parameters; a call that is wrapped with a context answers whichever
-- of the two `select` takes.
pub mod ViewArgs
use Prim.Native.Char.{code}
use Prim.Native.String.{String}
use circle_wallet_service.Prelude.{
  ℕ, ◌+◌, ◌/◌, ◌-◌, ◌%◌, Bool, true, false, ◌&&◌, Option, none, some, List, [], ◌∷◌, ◌++◌, ◌==◌,
  ltb, nat_eq, map, ℤ, if◌then◌else◌, Result, ok, err, ◌>>=◌, ◌>>◌,
}
use circle_wallet_service.Text.{concat, runes, trim_space}
use circle_wallet_service.Aptos.Errors.{GoError, simulate_http, plain_error, net_error}
use circle_wallet_service.Submitter.Remote.{Simulated}

-- An HTTP request, always a POST.
pub record Posted (Body : Type 0) : Type 0 where
  pub url : String
  pub headers : List (String × String)
  pub body : Body

-- What `Do` and `io.ReadAll` give: the client could not send, or the status and what was read.
pub data Exchange : Type 0 where
  unsent : String → Exchange
  replied : ℕ → Result GoError String → Exchange

-- The body of a view request, before json.Marshal.
pub record ViewBody : Type 0 where
  pub function : String
  pub type_arguments : List String
  pub arguments : List (List ℕ)

pub record Node : Type 1 where
  -- the SDK's client and its types
  pub Inner : Type 0
  pub Address : Type 0
  pub Payload : Type 0
  pub SingleTxn : Type 0
  pub RawTxn : Type 0
  pub Signed : Type 0
  pub AccountInfo : Type 0
  pub Transaction : Type 0
  pub PublicKey : Type 0
  pub Signature : Type 0
  pub new_inner : String → ℕ → Result String Inner
  pub set_header : String → String → Inner → Inner
  -- the options, in the order they are given: expiration and gas, after the sequence number
  pub build_transaction : Inner → Address → Payload → ℤ → ℕ → Result String SingleTxn
  pub build_multi_agent : Inner → Address → Address → Payload → ℕ → ℤ → ℕ → Result String RawTxn
  pub submit_transaction : Inner → Signed → Result String String
  pub account : Inner → Address → Result String AccountInfo
  pub transaction_by_hash : Inner → String → Result String Transaction
  pub from_hex : String → Result String PublicKey
  -- &crypto.Ed25519Signature{}
  pub zero_signature : Signature
  -- ToFeePayerSignedTransaction without further signers, and the BCS bytes of what it gives
  pub assemble : RawTxn → PublicKey × Signature → PublicKey × Signature → Option Signed
  pub bcs_bytes : Signed → Result String (List ℕ)
  -- http.NewRequestWithContext, where it fails; then the exchange
  pub new_request : String → Option String
  pub post_bytes : Posted (List ℕ) → Exchange
  pub post_view : Posted ViewBody → Exchange
  -- json.Unmarshal of the two answers; no element of a simulation's is null
  pub simulations : String → Result String (List Simulated)
  pub View : Type 0
  pub view_result : String → Result String View
  pub itoa : ℕ → String

-- strings.TrimRight(s, "/")
unfoldable pub without_slashes : String → String
without_slashes String.[] = String.[]
without_slashes (String.◌∷◌ c s) =
    let rest = without_slashes s in
    if nat_eq (code c) b'/' && (rest == "") then String.[] else String.◌∷◌ c rest

-- select on the answer of a goroutine and on ctx.Done(), whose error is `some` where it is taken
unfoldable pub unless_done : {A : Type 0} → Option String → Result String A → Result String A
unless_done none answer = answer
unless_done (some why) answer = err why

-- fmt.Errorf("...: %w", err)
abbrev wrapped : {A : Type 0} → String → Result String A → Result String A
wrapped prefix (ok a) = ok a
wrapped prefix (err e) = err (concat prefix e)

-- The same, in a function whose errors are looked into.
abbrev plain : {A : Type 0} → String → Result String A → Result GoError A
plain prefix (ok a) = ok a
plain prefix (err e) = err (plain_error (concat prefix e))

abbrev rewrapped : {A : Type 0} → String → Result GoError A → Result GoError A
rewrapped prefix (ok a) = ok a
rewrapped prefix (err (simulate_http n e)) = err (simulate_http n (concat prefix e))
rewrapped prefix (err (net_error e)) = err (net_error (concat prefix e))
rewrapped prefix (err (plain_error e)) = err (plain_error (concat prefix e))

abbrev present : {A : Type 0} → Option A → GoError → Result GoError A
present (some a) e = ok a
present none e = err e

abbrev unless_failed : Option String → (String → GoError) → Result GoError (Unit {0})
unless_failed (some m) e = err (e m)
unless_failed none e = ok tt

-- fmt.Sprintf("%x", b)
abbrev hex_digit : ℕ → ℕ
hex_digit n = if ltb n 10 then b'0' + n else b'a' + n - 10

unfoldable pub hex_of : List ℕ → List ℕ
hex_of [] = []
hex_of (b ∷ bs) = hex_digit (b / 16) ∷ hex_digit (b % 16) ∷ hex_of bs

unfoldable pub hex_arg : List ℕ → List ℕ
hex_arg bs = b'0' ∷ b'x' ∷ hex_of bs

module _ (node : Node) where
  open node use {
    Inner, Address, Payload, SingleTxn, RawTxn, Signed, AccountInfo, Transaction, PublicKey,
    Signature, View,
  }

  pub record Client : Type 0 where
    pub inner : Inner
    pub node_url : String
    pub api_key : String
    pub expiration_sec : ℤ
    pub max_gas_amount : ℕ

  with_key : String → Inner → Inner
  with_key key inner =
      if key == "" then inner else node.set_header "Authorization" (concat "Bearer " key) inner

  unfoldable pub new_client : String → ℕ → ℤ → ℕ → String → Result String Client
  unfolding with_key without_slashes
  new_client url chain_id expiration gas api_key = do
    inner ← wrapped "create aptos client: " (node.new_inner url chain_id)
    let key = trim_space api_key
    ok (record {
      inner = with_key key inner;
      node_url = without_slashes url;
      api_key = key;
      expiration_sec = expiration;
      max_gas_amount = gas;
    })

  -- gas := c.maxGasAmount; if maxGasAmount > 0 { gas = maxGasAmount }
  abbrev gas_for : Client → ℕ → ℕ
  gas_for c gas = if ltb 0 gas then gas else c.max_gas_amount

  unfoldable pub build_transaction : Client → Address → Payload → ℕ → Result String SingleTxn
  build_transaction c sender payload gas =
      wrapped "build transaction: "
        (node.build_transaction c.inner sender payload c.expiration_sec (gas_for c gas))

  unfoldable pub build_fee_payer_transaction :
      Client → Address → Address → Payload → ℕ → ℕ → Result String RawTxn
  build_fee_payer_transaction c sender fee_payer payload gas seq =
      wrapped "build transaction: " (
        node.build_multi_agent c.inner sender fee_payer payload seq c.expiration_sec
          (gas_for c gas))

  unfoldable pub build_fee_payer_transaction_ctx :
      Option String → Client → Address → Address → Payload → ℕ → ℕ → Result String RawTxn
  unfolding unless_done
  build_fee_payer_transaction_ctx done c sender fee_payer payload gas seq =
      unless_done done (build_fee_payer_transaction c sender fee_payer payload gas seq)

  unfoldable pub submit_transaction_ctx : Option String → Client → Signed → Result String String
  unfolding unless_done
  submit_transaction_ctx done c signed = unless_done done (node.submit_transaction c.inner signed)

  unfoldable pub account_ctx : Option String → Client → Address → Result String AccountInfo
  unfolding unless_done
  account_ctx done c addr = unless_done done (node.account c.inner addr)

  unfoldable pub transaction_by_hash_ctx :
      Option String → Client → String → Result String Transaction
  unfolding unless_done
  transaction_by_hash_ctx done c hash = unless_done done (node.transaction_by_hash c.inner hash)

  -- The header with the key, if there is one.
  abbrev authorization : Client → List (String × String)
  authorization c =
      if c.api_key == "" then [] else ("Authorization", concat "Bearer " c.api_key) ∷ []

  unfoldable pub build_sim_auth : String → Result String (PublicKey × Signature)
  build_sim_auth hex =
      if trim_space hex == ""
      then err "public key is empty"
      else do key ← wrapped "parse public key: " (node.from_hex hex); ok (key, node.zero_signature)

  first_simulation : List Simulated → Result GoError Simulated
  first_simulation [] = err (plain_error "simulate returned empty result")
  first_simulation (sim ∷ sims) = ok sim

  unfoldable pub simulate_answered : Exchange → Result GoError Simulated
  unfolding first_simulation
  simulate_answered (unsent why) = err (net_error (concat "simulate request: " why))
  simulate_answered (replied status body) = do
    text ← rewrapped "read simulate response: " body
    (if nat_eq status 200
        then (do
          sims ← plain "parse simulate response: " (node.simulations text)
          first_simulation sims)
        else err (
            simulate_http status
              (concat (concat "simulate HTTP " (node.itoa status)) (concat ": " text))))

  -- What is posted, or why nothing can be.
  unfoldable pub simulation_request :
      Client → RawTxn → String → String → Result GoError (Posted (List ℕ))
  unfolding build_sim_auth
  simulation_request c raw sender_key fee_payer_key = do
    sender ← plain "sender sim auth: " (build_sim_auth sender_key)
    fee_payer ← plain "fee payer sim auth: " (build_sim_auth fee_payer_key)
    txn ←
        present (node.assemble raw sender fee_payer)
          (plain_error "failed to assemble simulation transaction")
    bytes ← plain "bcs serialize simulation: " (node.bcs_bytes txn)
    unless_failed (node.new_request (concat c.node_url "/transactions/simulate"))
        (λ e. plain_error (concat "build simulate request: " e))
    ok (record {
      url = concat c.node_url "/transactions/simulate";
      headers =
          ("Content-Type", "application/x.aptos.signed_transaction+bcs")
          ∷ ("Accept", "application/json")
          ∷ authorization c;
      body = bytes;
    })

  unfoldable pub simulate_fee_payer_transaction :
      Client → RawTxn → String → String → Result GoError Simulated
  simulate_fee_payer_transaction c raw sender_key fee_payer_key = do
    req ← simulation_request c raw sender_key fee_payer_key
    simulate_answered (node.post_bytes req)

  unfoldable pub view_request : Client → String → List String → List (List ℕ) → Posted ViewBody
  unfolding hex_arg
  view_request c function type_args args = record {
    url = concat c.node_url "/view";
    headers = ("Content-Type", "application/json") ∷ authorization c;
    body = record { function = function; type_arguments = type_args; arguments = map hex_arg args };
  }

  view_answered : Exchange → Result GoError View
  view_answered (unsent why) = err (net_error (concat "view request: " why))
  view_answered (replied status body) = do
    text ← rewrapped "read view response: " body
    (if nat_eq status 200
        then plain "parse view response: " (node.view_result text)
        else err (
            plain_error
              (concat (concat "view error (HTTP " (node.itoa status)) (concat "): " text))))

  unfoldable pub view : Client → String → List String → List (List ℕ) → Result GoError View
  unfolding view_request view_answered
  view c function type_args args = do
    unless_failed (node.new_request (concat c.node_url "/view"))
        (λ e. plain_error (concat "build view request: " e))
    view_answered (node.post_view (view_request c function type_args args))
