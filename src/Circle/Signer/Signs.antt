-- ===== src/Circle/Signer/Signs.antt =====
-- What a signature of internal/circle/signer.go stands on.
use circle_wallet_service.Prelude.{
  ℕ, ◌+◌, ◌≡◌, refl, ◌⊎◌, inl, inr, Option, none, some, List, String, arith, Result, ok, err,
  bind_ok, Result-cases,
}
use circle_wallet_service.Text.{runes}
use circle_wallet_service.Aptos.Client.ViewArgs.{AreBytes, read_arg, read_arg-hex_arg}
use circle_wallet_service.Circle.Client.{
  Crypto, Client, Api, wrap, key_url, without_0x, read_key, get_rsa_key, learned, fetch_key,
  cached_or_fetched, encrypted, with_secret, encrypt_entity_secret, sign_transaction,
}
use circle_wallet_service.Circle.Signer.{
  Keys, Signer, account_authenticator_from_circle, requested, sign_request, with_ciphertext,
  with_bytes, sign,
}

wrap_ok : {A : Type 0} (what : String) (m : Result String A) {a : A} → wrap what m ≡ ok a → m ≡ ok a
wrap_ok what (ok a) h = h
wrap_ok what (err e) h = absurd (ground (arith, h))

module _ (crypto : Crypto) where
  -- Where the key of an answer is from, and what is kept.
  pub data KeyFrom (api : Api crypto) (c : Client crypto)
      : Result String crypto.RsaKey × Client crypto → Type 0 where
    kept : (key : crypto.RsaKey) → c.rsa_key ≡ some key → KeyFrom api c (ok key, c)
    fetched :
        (key : crypto.RsaKey)
        → c.rsa_key ≡ none
        → read_key crypto (api.get key_url) ≡ ok key
        → KeyFrom api c (ok key, record c { rsa_key = some key; key_requests = c.key_requests + 1 })
    failed : (e : String) (d : Client crypto) → KeyFrom api c (err e, d)

  learned-KeyFrom :
      (api : Api crypto) (c : Client crypto) (r : Result String crypto.RsaKey)
      → c.rsa_key ≡ none
      → read_key crypto (api.get key_url) ≡ r
      → KeyFrom api c (learned crypto r c)
  unfolding learned
  learned-KeyFrom api c (ok key) e f = fetched key e f
  learned-KeyFrom api c (err why) e f = failed why _

  fetch_key-KeyFrom :
      (api : Api crypto) (c : Client crypto) (o : Option String)
      → c.rsa_key ≡ none
      → KeyFrom api c (fetch_key crypto api key_url o c)
  unfolding fetch_key
  fetch_key-KeyFrom api c none e = learned-KeyFrom api c (read_key crypto (api.get key_url)) e refl
  fetch_key-KeyFrom api c (some why) e = failed _ c

  cached_or_fetched-KeyFrom :
      (api : Api crypto) (c : Client crypto) (o : Option crypto.RsaKey)
      → c.rsa_key ≡ o
      → KeyFrom api c (cached_or_fetched crypto api o c)
  unfolding cached_or_fetched
  cached_or_fetched-KeyFrom api c none e = fetch_key-KeyFrom api c (crypto.new_request key_url) e
  cached_or_fetched-KeyFrom api c (some key) e = kept key e

  get_rsa_key-KeyFrom :
      (api : Api crypto) (c : Client crypto) → KeyFrom api c (get_rsa_key crypto api c)
  unfolding get_rsa_key
  get_rsa_key-KeyFrom api c = cached_or_fetched-KeyFrom api c c.rsa_key refl

  -- A text that was made with the key that the client has from now on.
  pub record IsCipher (api : Api crypto) (hex : String) (c : Client crypto) (text : String)
      (d : Client crypto) : Type 0 where
    pub secret : List ℕ
    pub key : crypto.RsaKey
    pub bytes : List ℕ
    pub decoded : crypto.decode_secret (without_0x (runes hex)) ≡ ok secret
    pub made : crypto.encrypt api.nonce key secret ≡ ok bytes
    pub encoded : text ≡ crypto.base64 bytes
    pub known : d.rsa_key ≡ some key
    -- the key it had, and nothing was asked for; or it had none, and asked once
    pub origin :
        ((c.rsa_key ≡ some key) × (d ≡ c))
        ⊎ (((c.rsa_key ≡ none) × (read_key crypto (api.get key_url) ≡ ok key))
            × (d.key_requests ≡ c.key_requests + 1))

  encrypted-IsCipher :
      (api : Api crypto) (hex : String) (secret : List ℕ) (c : Client crypto)
      (out : Result String crypto.RsaKey × Client crypto) (text : String)
      → crypto.decode_secret (without_0x (runes hex)) ≡ ok secret
      → KeyFrom api c out
      → (encrypted crypto api secret out).0 ≡ ok text
      → IsCipher api hex c text (encrypted crypto api secret out).1
  unfolding encrypted
  encrypted-IsCipher api hex secret c _ text d (kept key e) h =
      let (bytes, (m, t)) = bind_ok (wrap "encrypt: " (crypto.encrypt api.nonce key secret)) _ h in
      record {
        secret = secret;
        key = key;
        bytes = bytes;
        decoded = d;
        made = wrap_ok "encrypt: " _ m;
        encoded = ground (arith, t);
        known = e;
        origin = inl (e, refl);
      }
  encrypted-IsCipher api hex secret c _ text d (fetched key e f) h =
      let (bytes, (m, t)) = bind_ok (wrap "encrypt: " (crypto.encrypt api.nonce key secret)) _ h in
      record {
        secret = secret;
        key = key;
        bytes = bytes;
        decoded = d;
        made = wrap_ok "encrypt: " _ m;
        encoded = ground (arith, t);
        known = refl;
        origin = inr ((e, f), refl);
      }
  encrypted-IsCipher api hex secret c _ text d (failed e c') h = absurd (ground (arith, h))

  encrypt-IsCipher :
      (api : Api crypto) (hex : String) (c : Client crypto) (text : String)
      → (encrypt_entity_secret crypto api hex c).0 ≡ ok text
      → IsCipher api hex c text (encrypt_entity_secret crypto api hex c).1
  unfolding encrypt_entity_secret with_secret
  encrypt-IsCipher api hex c text h =
      elim (Result-cases (crypto.decode_secret (without_0x (runes hex)))) [
        | inr (e, f) ↦ absurd (ground (arith, f, h))
        | inl (secret, f) ↦ rw f (
            encrypted-IsCipher api hex secret c (get_rsa_key crypto api c) text f
              (get_rsa_key-KeyFrom api c) (rw f at h))
      ]

module _ (crypto : Crypto) (keys : Keys) where
  -- What Circle was asked, and the authenticator made of its answer.
  pub record IsSigned (api : Api crypto) (raw : keys.RawTxn) (wallet_id pub_key : String)
      (auth : keys.Authenticator) (ciphertext : String) : Type 0 where
    pub bytes : List ℕ
    pub signature : String
    pub sig : keys.Signature
    pub key : keys.PublicKey
    pub serialized : keys.bcs_bytes raw ≡ ok bytes
    pub answered :
        sign_transaction crypto api (sign_request wallet_id bytes ciphertext) ≡ ok signature
    pub read : read_arg (sign_request wallet_id bytes ciphertext).raw_transaction ≡ some bytes
    pub parsed : keys.signature_from_hex signature ≡ ok sig
    pub named : keys.public_key_from_hex pub_key ≡ ok key
    pub joined : keys.from_key_and_signature key sig ≡ ok auth

  requested-IsSigned :
      (api : Api crypto) (raw : keys.RawTxn) (wallet_id pub_key : String) (bytes : List ℕ)
      (auth : keys.Authenticator) (ciphertext : String)
      → keys.bcs_bytes raw ≡ ok bytes
      → AreBytes bytes
      → requested crypto keys api (sign_request wallet_id bytes ciphertext) pub_key ≡ ok auth
      → IsSigned api raw wallet_id pub_key auth ciphertext
  unfolding requested account_authenticator_from_circle sign_request
  requested-IsSigned api raw wallet_id pub_key bytes auth ciphertext e small h =
      let (signature, (a, h1)) = bind_ok (wrap "circle sign/transaction: " _) _ h in
      let (sig, (b, h2)) =
        bind_ok (wrap "bad signature: " (keys.signature_from_hex signature)) _ h1 in
      let (key, (d, h3)) =
        bind_ok (wrap "bad public key: " (keys.public_key_from_hex pub_key)) _ h2 in
      record {
        bytes = bytes;
        signature = signature;
        sig = sig;
        key = key;
        serialized = e;
        answered = wrap_ok "circle sign/transaction: " _ a;
        read = read_arg-hex_arg bytes small;
        parsed = wrap_ok "bad signature: " _ b;
        named = wrap_ok "bad public key: " _ d;
        joined = wrap_ok "bad authenticator: " _ h3;
      }

  with_ciphertext-IsSigned :
      (api : Api crypto) (raw : keys.RawTxn) (wallet_id pub_key : String) (bytes : List ℕ)
      (s : Signer crypto keys) (out : Result String String × Client crypto)
      (auth : keys.Authenticator)
      → keys.bcs_bytes raw ≡ ok bytes
      → AreBytes bytes
      → (with_ciphertext crypto keys api bytes wallet_id pub_key s out).0 ≡ ok auth
      → (text : String) × (((out.0 ≡ ok text)
            × ((with_ciphertext crypto keys api bytes wallet_id pub_key s out).1.client ≡ out.1))
          × IsSigned api raw wallet_id pub_key auth text)
  unfolding with_ciphertext
  with_ciphertext-IsSigned api raw wallet_id pub_key bytes s (err e, c) auth b small h =
      absurd (ground (arith, h))
  with_ciphertext-IsSigned api raw wallet_id pub_key bytes s (ok text, c) auth b small h =
      (text, ((refl, refl), requested-IsSigned api raw wallet_id pub_key bytes auth text b small h))

  -- An authenticator is given only for what Circle signed: it was sent the bytes of the transaction, as
  -- digits that read back as these, the wallet, and the entity secret encrypted with Circle's key; the
  -- signature is the one it answered, joined to the public key. The key is the one that the client had, and
  -- then nothing is asked for; or it is asked for once, and kept. The serializer gives bytes.
  pub sign-IsSigned :
      (api : Api crypto) (raw : keys.RawTxn) (wallet_id pub_key : String) (s : Signer crypto keys)
      (auth : keys.Authenticator)
      → ((bytes : List ℕ) → keys.bcs_bytes raw ≡ ok bytes → AreBytes bytes)
      → (sign crypto keys api raw wallet_id pub_key s).0 ≡ ok auth
      → (text : String) × (IsSigned api raw wallet_id pub_key auth text
          × IsCipher crypto api s.entity_secret s.client text
              (sign crypto keys api raw wallet_id pub_key s).1.client)
  unfolding sign with_bytes
  sign-IsSigned api raw wallet_id pub_key s auth small h =
      elim (Result-cases (keys.bcs_bytes raw)) [
        | inr (e, f) ↦ absurd (ground (arith, f, h))
        | inl (bytes, f) ↦
            let out = encrypt_entity_secret crypto api s.entity_secret s.client in
            let (text, ((made, left), signed)) =
              with_ciphertext-IsSigned api raw wallet_id pub_key bytes s out auth f (small bytes f)
                (rw f at h) in
            (
              text,
              (
                signed,
                rw (f, left) (encrypt-IsCipher crypto api s.entity_secret s.client text made),
              ),
            )
      ]
