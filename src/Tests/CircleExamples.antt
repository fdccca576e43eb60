-- ===== src/Tests/CircleExamples.antt =====
-- The theorem on signatures, with a Circle that answers its key and a signature.
use circle_wallet_service.Prelude.{ℕ, ◌≡◌, refl, none, some, List, [], ◌∷◌, String, arith, ok, err}
use circle_wallet_service.Text.{runes}
use circle_wallet_service.Aptos.Client.{hex_of, hex_arg}
use circle_wallet_service.Aptos.Client.ViewArgs.{AreBytes}
use circle_wallet_service.Circle.Client.{
  Crypto, Api, answered, encrypt_entity_secret, with_secret, encrypted, get_rsa_key,
  cached_or_fetched, fetch_key, learned, read_key, body_if, without_0x, sign_transaction,
  is_two_hundreds,
}
use circle_wallet_service.Circle.Signer.{
  Keys, Signer, sign, with_bytes, with_ciphertext, requested, account_authenticator_from_circle,
  sign_request,
}
use circle_wallet_service.Circle.Signer.Signs.{IsSigned, IsCipher, sign-IsSigned}

abbrev crypto : Crypto
crypto = record {
  RsaKey = String;
  Nonce = ℕ;
  decode_secret = ok;
  wallet_of = λ _. err "no wallet";
  key_of = ok;
  signature_of = ok;
  PublicKey = String;
  pem_block = λ text. some (runes text);
  parse_pkix = λ _. ok "rsa";
  as_rsa = some;
  encrypt = λ nonce _ secret. ok (nonce ∷ secret);
  base64 = λ _. "sealed";
  new_request = λ _. none;
  itoa = λ _. "200";
}

abbrev keys : Keys
keys = record {
  RawTxn = String;
  Signature = String;
  PublicKey = String;
  Authenticator = String × String;
  bcs_bytes = λ _. ok (1 ∷ 255 ∷ []);
  signature_from_hex = ok;
  public_key_from_hex = ok;
  from_key_and_signature = λ key sig. ok (key, sig);
}

abbrev api : Api crypto
api = record { get = λ _. answered 200 "key"; post = λ _. answered 201 "signature"; nonce = 7 }

abbrev signer : Signer crypto keys
signer = record {
  client = record { api_key = "k"; rsa_key = none; key_requests = 0 };
  entity_secret = "0xab";
}

only_bytes : (bytes : List ℕ) → keys.bcs_bytes "txn" ≡ ok bytes → AreBytes bytes
only_bytes bytes e =
    let same : bytes ≡ 1 ∷ 255 ∷ [] = ground (arith, e) in rw same (omega arith, (omega arith, tt))

is_signed : (sign crypto keys api "txn" "wallet" "pk" signer).0 ≡ ok ("pk", "signature")
unfolding sign with_bytes with_ciphertext requested account_authenticator_from_circle sign_request
    encrypt_entity_secret with_secret encrypted get_rsa_key cached_or_fetched fetch_key learned
    read_key body_if sign_transaction is_two_hundreds without_0x hex_arg hex_of
is_signed = refl

sign-IsSigned_example :
    (text : String) × (IsSigned crypto keys api "txn" "wallet" "pk" ("pk", "signature") text
      × IsCipher crypto api "0xab" signer.client text
          (sign crypto keys api "txn" "wallet" "pk" signer).1.client)
sign-IsSigned_example =
    sign-IsSigned crypto keys api "txn" "wallet" "pk" signer ("pk", "signature") only_bytes
      is_signed
