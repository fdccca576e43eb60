-- ===== src/Submitter/Unavailable.antt =====
-- `prepareRecord` of internal/submitter/submitter.go while the node is out of reach.
use circle_wallet_service.Prelude.{
  ℕ, ◌≡◌, refl, arith, ◌-◌, ltb, Bool, ◌⊎◌, inl, inr, true, false, Option, none, some, List, String,
  Result, ok, err, ◌>>=◌, if◌then◌else◌,
}
use circle_wallet_service.Store.{TransactionRecord}
use circle_wallet_service.Aptos.Errors.{
  GoError, simulate_http, net_error, plain_error, is_transient_simulation_error,
}
use circle_wallet_service.Aptos.Client.{
  Node, Client, Posted, Exchange, unsent, replied, simulate_fee_payer_transaction,
  simulation_request, simulate_answered,
}
use circle_wallet_service.Submitter.{World, requeue_transient, mark_permanent_failure}
use circle_wallet_service.Submitter.Remote.{Remote}
use circle_wallet_service.Submitter.Wired.{Wallets, remote}
use circle_wallet_service.Submitter.Prepare.{
  Settings, Refusal, permanent, simulation_rejected, transient, sequence_mismatch, Parties,
  check_age, check_parties, has_separate_fee_payer, invalid, or_refuse, refuse_if, none_or, some_or,
  SignedItem, simulated, simulate_first, signed_item, prepared, refused, prepare_record,
}

or_refuse_ok :
    {E A : Type 0} (m : Result String A) (e : String → E) {a : A} → or_refuse m e ≡ ok a → m ≡ ok a
or_refuse_ok (ok b) e h = ground (arith, h)
or_refuse_ok (err s) e h = absurd (ground (arith, h))

module _ (node : Node) (c : Client node) (wallets : Wallets node) where
  -- Not sent, not read for want of the network, or answered 429 or 503.
  abbrev pub IsBusy : Exchange → Type 0
  IsBusy (unsent why) = Unit
  IsBusy (replied status (ok text)) = (status ≡ 429) ⊎ (status ≡ 503)
  IsBusy (replied status (err (net_error e))) = Unit
  IsBusy (replied status (err e)) = ⊥

  -- A row is put back, or fails as expired or invalid.
  abbrev pub IsPutBack : Refusal node.Address → Type 0
  IsPutBack (permanent kind msg) = (kind ≡ "expired") ⊎ (kind ≡ "validation")
  IsPutBack (simulation_rejected status) = ⊥
  IsPutBack (transient msg) = Unit
  IsPutBack (sequence_mismatch sender) = ⊥

  -- The same of a step that may succeed, or may not.
  abbrev Ends : {A : Type 0} → Type 0 → Result (Refusal node.Address) A → Type 0
  Ends Q (ok a) = Q
  Ends Q (err e) = IsPutBack e

  Ends-bind :
      (Q : Type 0) {A B : Type 0} (m : Result (Refusal node.Address) A)
      (f : A → Result (Refusal node.Address) B)
      → Ends Unit m
      → ((a : A) → m ≡ ok a → Ends Q (f a))
      → Ends Q (m >>= f)
  Ends-bind Q (ok a) f h k = k a refl
  Ends-bind Q (err e) f h k = h

  Ends-first :
      {A B : Type 0} (m : Result (Refusal node.Address) A) (f : A → Result (Refusal node.Address) B)
      → Ends ⊥ m
      → Ends ⊥ (m >>= f)
  Ends-first (ok a) f h = absurd h
  Ends-first (err e) f h = h

  Ends-never :
      {A : Type 0} (m : Result (Refusal node.Address) A)
      → Ends ⊥ m
      → (r : Refusal node.Address) × ((m ≡ err r) × IsPutBack r)
  Ends-never (ok a) h = absurd h
  Ends-never (err r) h = (r, (refl, h))

  Ends-or_refuse :
      {A : Type 0} (m : Result String A) (e : String → Refusal node.Address)
      → ((s : String) → IsPutBack (e s))
      → Ends Unit (or_refuse m e)
  Ends-or_refuse (ok a) e h = tt
  Ends-or_refuse (err s) e h = h s

  Ends-none_or :
      (m : Option String) (e : String → Refusal node.Address)
      → ((s : String) → IsPutBack (e s))
      → Ends Unit (none_or m e)
  Ends-none_or none e h = tt
  Ends-none_or (some s) e h = h s

  Ends-refuse_if : (b : Bool) (e : Refusal node.Address) → IsPutBack e → Ends Unit (refuse_if b e)
  Ends-refuse_if true e h = h
  Ends-refuse_if false e h = tt

  Ends-some_or :
      {A : Type 0} (m : Option A) (e : Refusal node.Address) → IsPutBack e → Ends Unit (some_or m e)
  Ends-some_or (some a) e h = tt
  Ends-some_or none e h = h

  Ends-if :
      {A : Type 0} (b : Bool) (m n : Result (Refusal node.Address) A)
      → Ends Unit m
      → Ends Unit n
      → Ends Unit (if b then m else n)
  Ends-if true m n h k = h
  Ends-if false m n h k = k

  answered-IsTransient :
      (x : Exchange)
      → IsBusy x
      → (e : GoError) × ((simulate_answered node x ≡ err e)
          × (is_transient_simulation_error e ≡ true))
  unfolding simulate_answered is_transient_simulation_error
  answered-IsTransient (unsent why) h = (_, (refl, refl))
  answered-IsTransient (replied status (ok text)) (inl h) = rw h (_, (refl, refl))
  answered-IsTransient (replied status (ok text)) (inr h) = rw h (_, (refl, refl))
  answered-IsTransient (replied status (err (net_error e))) h = (_, (refl, refl))
  answered-IsTransient (replied status (err (simulate_http n e))) h = absurd h
  answered-IsTransient (replied status (err (plain_error e))) h = absurd h

module _ (node : Node) (c : Client node) (wallets : Wallets node) (cfg : Settings) where
  abbrev api : Remote
  api = remote node c wallets

  abbrev End : {A : Type 0} → Type 0 → Result (Refusal node.Address) A → Type 0
  End = Ends node c wallets

  abbrev refuses :
      {A : Type 0} (m : Result String A) (e : String → Refusal node.Address)
      → ((s : String) → IsPutBack node c wallets (e s))
      → End Unit (or_refuse m e)
  refuses = Ends-or_refuse node c wallets

  abbrev branch :
      {A : Type 0} (b : Bool) (m n : Result (Refusal node.Address) A)
      → End Unit m
      → End Unit n
      → End Unit (if b then m else n)
  branch = Ends-if node c wallets

  abbrev bind :
      (Q : Type 0) {A B : Type 0} (m : Result (Refusal node.Address) A)
      (f : A → Result (Refusal node.Address) B)
      → End Unit m
      → ((a : A) → End Q (f a))
      → End Q (m >>= f)
  bind Q m f h k = Ends-bind node c wallets Q m f h (λ a _. k a)

  age_ends : (now : ℕ) (rec : TransactionRecord) → End Unit (check_age api cfg now rec)
  unfolding check_age
  age_ends now rec =
      bind Unit (refuse_if _ _) _
        (Ends-refuse_if node c wallets (ltb rec.expires_at now) _ (inl refl))
        (λ _.
          Ends-refuse_if node c wallets (ltb cfg.max_retry_duration (now - rec.created_at)) _
            (inl refl))

  parties_ends : (rec : TransactionRecord) → End Unit (check_parties api cfg rec)
  unfolding check_parties invalid
  parties_ends rec = bind Unit _ _ (refuses (api.resolve rec.wallet_id) _ (λ _. inr refl)) (λ key.
      bind Unit _ _
        (Ends-none_or node c wallets (api.verify_wallet rec.sender_address key) _ (λ _. inr refl))
        (λ _. bind Unit _ _ (refuses (api.unmarshal rec.payload_json) _ (λ _. inr refl)) (λ payload.
          bind Unit _ _ (refuses (api.build_entry rec.function_id payload) _ (λ _. inr refl))
            (λ entry.
              bind Unit _ _ (refuses (api.parse_address rec.sender_address) _ (λ _. inr refl))
                (λ sender.
                  bind Unit _ _
                    (branch (has_separate_fee_payer rec) _ _
                      (refuses (api.parse_address rec.fee_payer_address) _ (λ _. inr refl)) tt)
                    (λ fee_payer.
                      bind Unit _ _
                        (branch (has_separate_fee_payer rec) _ _
                          (refuses (api.resolve rec.fee_payer_wallet_id) _ (λ _. tt)) tt)
                        (λ fee_payer_key. tt)))))))

  simulation_ends :
      (p : Parties api cfg) (gas seq : ℕ) (raw : node.RawTxn) (req : Posted (List ℕ))
      → cfg.simulate_before_submit ≡ true
      → IsBusy node c wallets (node.post_bytes req)
      → simulation_request node c raw p.sender_key p.fee_payer_key ≡ ok req
      → End ⊥ (simulate_first api cfg p gas seq raw)
  unfolding simulate_first simulated simulate_fee_payer_transaction
  simulation_ends p gas seq raw req on busy asked =
      let (x, (answer, t)) = answered-IsTransient node c wallets (node.post_bytes req) busy in
      rw (on, asked, answer, t) tt

  item_ends :
      (now : ℕ) (rec : TransactionRecord)
      → cfg.simulate_before_submit ≡ true
      → ((req : Posted (List ℕ)) → IsBusy node c wallets (node.post_bytes req))
      → ((p : Parties api cfg) (gas seq : ℕ) (raw : node.RawTxn)
          → check_parties api cfg rec ≡ ok p
          → api.build p.sender p.fee_payer p.entry gas seq ≡ ok raw
          → (req : Posted (List ℕ)) × (simulation_request node c raw p.sender_key p.fee_payer_key
              ≡ ok req))
      → End ⊥ (signed_item api cfg now rec)
  unfolding signed_item
  item_ends now rec on busy asks = bind ⊥ _ _ (age_ends now rec) (λ _.
      bind ⊥ _ _ (Ends-some_or node c wallets rec.sequence_number _ tt) (λ seq.
        Ends-bind node c wallets ⊥ _ _ (parties_ends rec) (λ p valid.
          Ends-bind node c wallets ⊥ _ _
            (refuses (api.build p.sender p.fee_payer p.entry _ seq) _ (λ _. tt))
            (λ raw built.
              let (req, asked) = asks p _ seq raw valid (or_refuse_ok _ _ built) in
              Ends-first node c wallets _ _
                (simulation_ends p _ seq raw req on (busy req) asked)))))

  -- What is done to the row: it is requeued, or failed as expired or invalid.
  abbrev pub IsSpared :
      TransactionRecord → World → Option (SignedItem node.Signed) × Bool × World → Type 0
  IsSpared rec w out =
      ((msg : String) × (out ≡ (none, true, requeue_transient rec msg w)))
      ⊎ ((kind : String) × ((msg : String) × ((out
                ≡ (none, false, mark_permanent_failure rec kind msg w))
              × ((kind ≡ "expired") ⊎ (kind ≡ "validation")))))

  prepared-IsSpared :
      (rec : TransactionRecord) (w : World) (r : Refusal node.Address)
      → IsPutBack node c wallets r
      → IsSpared rec w (prepared api cfg rec (err r) w)
  unfolding prepared refused
  prepared-IsSpared rec w (permanent kind msg) h = inr (kind, (msg, (refl, h)))
  prepared-IsSpared rec w (simulation_rejected status) h = absurd h
  prepared-IsSpared rec w (transient msg) h = inl (msg, refl)
  prepared-IsSpared rec w (sequence_mismatch sender) h = absurd h

  -- If every simulation that is sent fails on the network or is answered 429 or 503, no row is signed,
  -- and none is failed or has its counter reconciled on the word of a simulation: the row goes through
  -- the requeue for another attempt, or is failed as expired or invalid. This takes that simulation is
  -- on, and that the simulation of what is built for the row, with the keys found for it, can be asked
  -- for.
  pub unreached-IsSpared :
      (rec : TransactionRecord) (w : World)
      → cfg.simulate_before_submit ≡ true
      → ((req : Posted (List ℕ)) → IsBusy node c wallets (node.post_bytes req))
      → ((p : Parties api cfg) (gas seq : ℕ) (raw : node.RawTxn)
          → check_parties api cfg rec ≡ ok p
          → api.build p.sender p.fee_payer p.entry gas seq ≡ ok raw
          → (req : Posted (List ℕ)) × (simulation_request node c raw p.sender_key p.fee_payer_key
              ≡ ok req))
      → IsSpared rec w (prepare_record api cfg rec w)
  unfolding prepare_record
  unreached-IsSpared rec w on busy asks =
      let (r, (e, put_back)) =
        Ends-never node c wallets (signed_item api cfg w.clock rec)
          (item_ends w.clock rec on busy asks) in
      rw e (prepared-IsSpared rec w r put_back)
