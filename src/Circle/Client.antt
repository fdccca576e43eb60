-- ===== src/Circle/Client.antt =====
-- internal/circle/client.go: the client of Circle's wallet API, which keeps Circle's RSA key once it has
-- been fetched. HTTP, JSON and the cryptography are parameters.
use circle_wallet_service.Prelude.{
  ℕ, ◌+◌, Bool, ◌&&◌, Option, none, some, List, [], ◌∷◌, String, leb, ltb, nat_eq, if◌then◌else◌,
  Result, ok, err, ◌>>=◌, ◌>>◌,
}
use circle_wallet_service.Text.{concat, runes}

-- What `Do` and `io.ReadAll` give.
pub data Answer : Type 0 where
  unsent unread : String → Answer
  answered : ℕ → String → Answer

pub record WalletResponse : Type 0 where
  pub id : String
  pub address : String
  pub initial_public_key : String

pub record SignRequest : Type 0 where
  pub wallet_id : String
  -- the code points of a text
  pub raw_transaction : List ℕ
  pub entity_secret_ciphertext : String
  pub memo : String

pub record Crypto : Type 1 where
  pub RsaKey : Type 0
  -- one draw of rand.Reader
  pub Nonce : Type 0
  -- hex.DecodeString of the text after a prefix 0x, if there is one
  pub decode_secret : List ℕ → Result String (List ℕ)
  -- the fields of the answers, by json.Unmarshal
  pub wallet_of : String → Result String WalletResponse
  pub key_of : String → Result String String
  pub signature_of : String → Result String String
  -- pem.Decode, where it finds a block; x509.ParsePKIXPublicKey; and the assertion that it is RSA
  pub PublicKey : Type 0
  pub pem_block : String → Option (List ℕ)
  pub parse_pkix : List ℕ → Result String PublicKey
  pub as_rsa : PublicKey → Option RsaKey
  -- rsa.EncryptOAEP with SHA-256, and base64
  pub encrypt : Nonce → RsaKey → List ℕ → Result String (List ℕ)
  pub base64 : List ℕ → String
  -- http.NewRequestWithContext, where it fails
  pub new_request : String → Option String
  pub itoa : ℕ → String

-- if err != nil { return fmt.Errorf("...: %w", err) }
abbrev pub wrap : {A : Type 0} → String → Result String A → Result String A
wrap what (ok a) = ok a
wrap what (err e) = err (concat what e)

abbrev required : {A : Type 0} → Option A → String → Result String A
required (some a) e = ok a
required none e = err e

abbrev unless_failed : Option String → String → Result String (Unit {0})
unless_failed (some e) what = err (concat what e)
unless_failed none what = ok tt

abbrev base_url : String
base_url = "https://api.circle.com/v1/w3s"

abbrev pub key_url : String
key_url = concat base_url "/config/entity/publicKey"

-- strings.TrimPrefix(s, "0x")
unfoldable pub without_0x : List ℕ → List ℕ
without_0x [] = []
without_0x (c ∷ []) = c ∷ []
without_0x (c ∷ d ∷ cs) = if nat_eq c b'0' && nat_eq d b'x' then cs else c ∷ d ∷ cs

unfoldable pub is_two_hundreds : ℕ → Bool
is_two_hundreds status = leb 200 status && ltb status 300

module _ (crypto : Crypto) where
  open crypto use {RsaKey, Nonce}

  pub record Client : Type 0 where
    pub api_key : String
    pub rsa_key : Option RsaKey
    -- how many times the key was asked for
    pub key_requests : ℕ

  -- What the API answers during one call.
  pub record Api : Type 0 where
    pub get : String → Answer
    pub post : SignRequest → Answer
    pub nonce : Nonce

  unfoldable pub new_client : String → Client
  new_client key = record { api_key = key; rsa_key = none; key_requests = 0 }

  -- The body of an answer whose status will do.
  unfoldable pub body_if : (ℕ → Bool) → String → Answer → Result String String
  body_if good what (unsent e) = err (concat "send request: " e)
  body_if good what (unread e) = err (concat "read response: " e)
  body_if good what (answered status body) =
      if good status
      then ok body
      else err (concat (concat what (crypto.itoa status)) (concat "): " body))

  unfoldable pub get_wallet : Api → String → Result String WalletResponse
  unfolding body_if
  get_wallet api wallet_id =
      let url = concat base_url (concat "/wallets/" wallet_id) in
      do
        unless_failed (crypto.new_request url) "create request: "
        body ← body_if (λ n. nat_eq n 200) "circle API error (status " (api.get url)
        wrap "decode response: " (crypto.wallet_of body)

  -- The key in an answer.
  unfoldable pub read_key : Answer → Result String RsaKey
  unfolding body_if
  read_key answer = do
    body ← body_if (λ n. nat_eq n 200) "circle API error (status " answer
    text ← wrap "decode response: " (crypto.key_of body)
    block ← required (crypto.pem_block text) "failed to decode Circle PEM key"
    key ← wrap "parse Circle public key: " (crypto.parse_pkix block)
    required (crypto.as_rsa key) "circle public key is not RSA"

  unfoldable pub learned : Result String RsaKey → Client → Result String RsaKey × Client
  learned (ok key) c = (ok key, record c { rsa_key = some key; key_requests = c.key_requests + 1 })
  learned (err e) c = (err e, record c { key_requests = c.key_requests + 1 })

  unfoldable pub fetch_key : Api → String → Option String → Client → Result String RsaKey × Client
  unfolding learned
  fetch_key api url (some e) c = (err (concat "create request: " e), c)
  fetch_key api url none c = learned (read_key (api.get url)) c

  unfoldable pub cached_or_fetched : Api → Option RsaKey → Client → Result String RsaKey × Client
  unfolding fetch_key
  cached_or_fetched api (some key) c = (ok key, c)
  cached_or_fetched api none c = fetch_key api key_url (crypto.new_request key_url) c

  unfoldable pub get_rsa_key : Api → Client → Result String RsaKey × Client
  unfolding cached_or_fetched
  get_rsa_key api c = cached_or_fetched api c.rsa_key c

  unfoldable pub encrypted :
      Api → List ℕ → Result String RsaKey × Client → Result String String × Client
  encrypted api secret (err e, c) = (err e, c)
  encrypted api secret (ok key, c) = (
    do bytes ← wrap "encrypt: " (crypto.encrypt api.nonce key secret); ok (crypto.base64 bytes),
    c,
  )

  unfoldable pub with_secret : Api → Result String (List ℕ) → Client → Result String String × Client
  unfolding encrypted
  with_secret api (err e) c = (err (concat "decode entity secret: " e), c)
  with_secret api (ok secret) c = encrypted api secret (get_rsa_key api c)

  unfoldable pub encrypt_entity_secret : Api → String → Client → Result String String × Client
  unfolding with_secret without_0x
  encrypt_entity_secret api hex c =
      with_secret api (crypto.decode_secret (without_0x (runes hex))) c

  -- The signature that Circle answers.
  unfoldable pub sign_transaction : Api → SignRequest → Result String String
  unfolding body_if is_two_hundreds
  sign_transaction api req =
      let url = concat base_url "/developer/sign/transaction" in
      do
        unless_failed (crypto.new_request url) "create request: "
        body ← body_if is_two_hundreds "circle sign/transaction error (status " (api.post req)
        wrap "decode response: " (crypto.signature_of body)
