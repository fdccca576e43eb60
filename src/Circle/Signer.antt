-- ===== src/Circle/Signer.antt =====
-- internal/circle/signer.go: a transaction is signed by Circle and the authenticator made of what it
-- answers. The SDK is a record of parameters.
pub mod Signs
use circle_wallet_service.Prelude.{ℕ, List, String, Result, ok, err, ◌>>=◌}
use circle_wallet_service.Text.{concat}
use circle_wallet_service.Aptos.Client.{hex_arg}
use circle_wallet_service.Circle.Client.{
  Crypto, Client, Api, SignRequest, wrap, encrypt_entity_secret, sign_transaction,
}

pub record Keys : Type 1 where
  pub RawTxn : Type 0
  pub Signature : Type 0
  pub PublicKey : Type 0
  pub Authenticator : Type 0
  pub bcs_bytes : RawTxn → Result String (List ℕ)
  pub signature_from_hex : String → Result String Signature
  pub public_key_from_hex : String → Result String PublicKey
  pub from_key_and_signature : PublicKey → Signature → Result String Authenticator

-- What Circle is asked to sign.
unfoldable pub sign_request : String → List ℕ → String → SignRequest
unfolding hex_arg
sign_request wallet_id bytes ciphertext = record {
  wallet_id = wallet_id;
  raw_transaction = hex_arg bytes;
  entity_secret_ciphertext = ciphertext;
  memo = "";
}

module _ (crypto : Crypto) (keys : Keys) where
  open keys use {RawTxn, Authenticator}

  pub record Signer : Type 0 where
    pub client : Client crypto
    pub entity_secret : String

  unfoldable pub account_authenticator_from_circle : String → String → Result String Authenticator
  account_authenticator_from_circle signature pub_key = do
    sig ← wrap "bad signature: " (keys.signature_from_hex signature)
    key ← wrap "bad public key: " (keys.public_key_from_hex pub_key)
    wrap "bad authenticator: " (keys.from_key_and_signature key sig)

  -- The call of Circle, and the authenticator.
  unfoldable pub requested : Api crypto → SignRequest → String → Result String Authenticator
  requested api req pub_key = do
    signature ← wrap "circle sign/transaction: " (sign_transaction crypto api req)
    account_authenticator_from_circle signature pub_key

  unfoldable pub with_ciphertext :
      Api crypto
      → List ℕ
      → String
      → String
      → Signer
      → Result String String × Client crypto
      → Result String Authenticator × Signer
  with_ciphertext api bytes wallet_id pub_key s (err e, c) =
      (err (concat "encrypt entity secret: " e), record s { client = c })
  with_ciphertext api bytes wallet_id pub_key s (ok ciphertext, c) =
      (requested api (sign_request wallet_id bytes ciphertext) pub_key, record s { client = c })

  unfoldable pub with_bytes :
      Api crypto
      → String
      → String
      → Signer
      → Result String (List ℕ)
      → Result String Authenticator × Signer
  unfolding with_ciphertext
  with_bytes api wallet_id pub_key s (err e) = (err (concat "BCS serialize: " e), s)
  with_bytes api wallet_id pub_key s (ok bytes) =
      with_ciphertext api bytes wallet_id pub_key s
        (encrypt_entity_secret crypto api s.entity_secret s.client)

  unfoldable pub sign :
      Api crypto → RawTxn → String → String → Signer → Result String Authenticator × Signer
  unfolding with_bytes
  sign api raw wallet_id pub_key s = with_bytes api wallet_id pub_key s (keys.bcs_bytes raw)
