-- ===== src/Tests/ClientExamples.antt =====
-- The theorems on the client of a node, with a node that answers 503.
use circle_wallet_service.Prelude.{
  ℕ, ◌≡◌, refl, inr, sym, ◌∙◌, none, some, List, [], ◌∷◌, String, pos, ok,
}
use circle_wallet_service.Aptos.Client.{
  Node, Client, Posted, replied, simulation_request, build_sim_auth,
}
use circle_wallet_service.Text.{trim_space}
use circle_wallet_service.Submitter.Prepare.{Parties, check_parties, prepare_record}
use circle_wallet_service.Submitter.Wired.{Wallets, remote}
use circle_wallet_service.Submitter.Unavailable.{IsSpared, unreached-IsSpared}
use circle_wallet_service.Submitter.{World}
use circle_wallet_service.Tests.SubmitterExamples.{settings}
use circle_wallet_service.Tests.Samples.{held, flying}

abbrev overloaded : Node
overloaded = record {
  Inner = String;
  Address = String;
  Payload = String;
  SingleTxn = ℕ;
  RawTxn = ℕ;
  Signed = ℕ;
  AccountInfo = ℕ;
  Transaction = String;
  PublicKey = String;
  Signature = ℕ;
  new_inner = λ url _. ok url;
  set_header = λ _ _ inner. inner;
  build_transaction = λ _ _ _ _ _. ok 0;
  build_multi_agent = λ _ _ _ _ seq _ _. ok seq;
  submit_transaction = λ _ _. ok "0xhash";
  account = λ _ _. ok 4;
  transaction_by_hash = λ _ hash. ok hash;
  from_hex = ok;
  zero_signature = 0;
  assemble = λ raw _ _. some raw;
  bcs_bytes = λ raw. ok (raw ∷ []);
  new_request = λ _. none;
  post_bytes = λ _. replied 503 (ok "unavailable");
  post_view = λ _. replied 200 (ok "[1]");
  simulations = λ _. ok [];
  View = String;
  view_result = ok;
  itoa = λ _. "503";
}

abbrev client : Client overloaded
client = record {
  inner = "sdk";
  node_url = "https://node";
  api_key = "";
  expiration_sec = pos 60;
  max_gas_amount = 100;
}

abbrev wallets : Wallets overloaded
wallets = record {
  Arguments = String;
  Auth = String;
  resolve = λ _. ok "pk";
  verify_wallet = λ _ _. none;
  unmarshal = ok;
  build_entry = λ _ p. ok p;
  parse_address = ok;
  sign = λ _ _ _. ok "sig";
  assemble = λ raw _ _. some raw;
  hash = λ _. ok "0xhash";
  sequence_number = ok;
  build_done = none;
  submit_done = none;
  account_done = none;
}

abbrev moment : World
moment = record { clock = 40; store = flying; faults = []; notified = []; broadcasts = [] }

abbrev parties : Parties (remote overloaded client wallets) settings
parties = record {
  sender_key = "pk";
  fee_payer_key = "pk";
  sender = held.sender_address;
  fee_payer = held.sender_address;
  entry = held.payload_json;
}

has_parties : check_parties (remote overloaded client wallets) settings held ≡ ok parties
unfolding check_parties
has_parties = refl

can_ask :
    (p : Parties (remote overloaded client wallets) settings) (gas seq raw : ℕ)
    → check_parties (remote overloaded client wallets) settings held ≡ ok p
    → (remote overloaded client wallets).build p.sender p.fee_payer p.entry gas seq ≡ ok raw
    → (req : Posted (List ℕ)) × (simulation_request overloaded client raw p.sender_key
          p.fee_payer_key
        ≡ ok req)
unfolding simulation_request build_sim_auth trim_space
can_ask p gas seq raw valid built =
    let same : p ≡ parties = cc (sym valid ∙ has_parties) in rw same (_, refl)

unreached-IsSpared_example :
    IsSpared overloaded client wallets settings held moment
      (prepare_record (remote overloaded client wallets) settings held moment)
unreached-IsSpared_example =
    unreached-IsSpared overloaded client wallets settings held moment refl (λ _. inr refl) can_ask
