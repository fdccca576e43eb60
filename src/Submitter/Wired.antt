-- ===== src/Submitter/Wired.antt =====
-- internal/submitter/submitter.go over internal/aptos/client.go: what the submitter calls is filled by
-- the client of a node, and the wallets stay parameters.
use circle_wallet_service.Prelude.{ℕ, Option, String, Result}
use circle_wallet_service.Aptos.Client.{
  Node, Client, build_fee_payer_transaction, build_fee_payer_transaction_ctx,
  submit_transaction_ctx, account_ctx, simulate_fee_payer_transaction,
}
use circle_wallet_service.Submitter.Remote.{Remote}

-- What does not go to the node; and which of the contexts of the calls to it is done first.
pub record Wallets (node : Node) : Type 1 where
  pub Arguments : Type 0
  pub Auth : Type 0
  pub resolve : String → Result String String
  pub verify_wallet : String → String → Option String
  pub unmarshal : String → Result String Arguments
  pub build_entry : String → Arguments → Result String node.Payload
  pub parse_address : String → Result String node.Address
  pub sign : node.RawTxn → String → String → Result String Auth
  pub assemble : node.RawTxn → Auth → Auth → Option node.Signed
  pub hash : node.Signed → Result String String
  pub sequence_number : node.AccountInfo → Result String ℕ
  pub build_done : Option String
  pub submit_done : Option String
  pub account_done : Option String

module _ (node : Node) (c : Client node) (wallets : Wallets node) where
  -- The submitter's calls, by the client of the node.
  abbrev pub remote : Remote
  remote = record {
    Address = node.Address;
    Payload = wallets.Arguments;
    Entry = node.Payload;
    RawTxn = node.RawTxn;
    Auth = wallets.Auth;
    Signed = node.Signed;
    AccountInfo = node.AccountInfo;
    resolve = wallets.resolve;
    verify_wallet = wallets.verify_wallet;
    unmarshal = wallets.unmarshal;
    build_entry = wallets.build_entry;
    parse_address = wallets.parse_address;
    build = build_fee_payer_transaction_ctx node wallets.build_done c;
    simulate = simulate_fee_payer_transaction node c;
    rebuild = build_fee_payer_transaction node c;
    sign = wallets.sign;
    assemble = wallets.assemble;
    hash = wallets.hash;
    submit = submit_transaction_ctx node wallets.submit_done c;
    account = account_ctx node wallets.account_done c;
    sequence_number = wallets.sequence_number;
  }
