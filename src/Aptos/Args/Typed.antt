-- ===== src/Aptos/Args/Typed.antt =====
-- The bytes that internal/aptos/args.go answers are those of a value of the type.
use circle_wallet_service.Prelude.{
  ℕ, ◌+◌, ◌^◌, ◌<◌, ◌≤◌, ◌≡◌, sym, Bool, ◌&&◌, ◌||◌, not, List, [], ◌∷◌, ◌++◌, String, All, arith,
  ltb, leb, nat_eq, length, Bool-cases, Option-cases, Result-cases, inl, inr, Result, ok, bind_ok,
}
use circle_wallet_service.Aptos.Args.{
  Sdk, ArgError, Json, Jsons, number, text, boolean, array, nil, cons, joined, serialize_address,
  serialize_bool, serialize_string, to_uint64, to_big_int, from_float, parsed, serialize_uint,
  serialize_big, serialize_vector, with_element, serialize_argument,
}
use circle_wallet_service.Aptos.Args.Types.{
  MoveType, address, bool, u8, u16, u32, u64, u128, u256, move_string, object_of, vector, type_text,
  each, elements_of, encode, within_width, KnowsFramework, serialize_argument-encode,
}

module _ (sdk : Sdk) where
  open sdk use {Float, Address}

  -- uint64(f) is a uint64.
  abbrev pub FitsWord : Type 0
  FitsWord = (f : Float) → sdk.as_u64 f < 2 ^ 64

  abbrev IsUint : ℕ → List ℕ → Type 0
  IsUint bits b = (n : ℕ) × ((n < 2 ^ bits) × (b ≡ sdk.uint_bytes bits n))

  abbrev IsAddress : List ℕ → Type 0
  IsAddress b = (a : Address) × (b ≡ sdk.address_bytes a)

  -- The BCS bytes of some value of a type; an object is its address, and a vector is the number of its
  -- elements, and then their bytes.
  abbrev pub IsBytesOf : MoveType → List ℕ → Type 0
  IsBytesOf address b = IsAddress b
  IsBytesOf bool b = (v : Bool) × (b ≡ sdk.bool_bytes v)
  IsBytesOf u8 b = IsUint 8 b
  IsBytesOf u16 b = IsUint 16 b
  IsBytesOf u32 b = IsUint 32 b
  IsBytesOf u64 b = IsUint 64 b
  IsBytesOf u128 b = IsUint 128 b
  IsBytesOf u256 b = IsUint 256 b
  IsBytesOf move_string b = (s : String) × (b ≡ sdk.string_bytes s)
  IsBytesOf (object_of t) b = IsAddress b
  IsBytesOf (vector t) b =
      (bs : List (List ℕ)) × (All (IsBytesOf t) bs × (b ≡ sdk.uleb128 (length bs) ++ joined sdk bs))

  ok_inj : {A : Type 0} {a b : A} → ◌≡◌ {A = Result ArgError A} (ok a) (ok b) → a ≡ b
  ok_inj h = ground (arith, h)

  serialize_address-IsAddress :
      (v : Json Float) (b : List ℕ) → serialize_address sdk v ≡ ok b → IsAddress b
  unfolding serialize_address
  serialize_address-IsAddress (text s) b h =
      let (a, (_, k)) = bind_ok (parsed sdk s) _ h in (a, sym (ok_inj k))
  serialize_address-IsAddress _ b h = absurd (ground (arith, h))

  bool_typed :
      (v : Json Float) (b : List ℕ)
      → serialize_bool sdk v ≡ ok b
      → (c : Bool) × (b ≡ sdk.bool_bytes c)
  unfolding serialize_bool
  bool_typed (boolean c) b h = (c, sym (ok_inj h))
  bool_typed _ b h = absurd (ground (arith, h))

  string_typed :
      (v : Json Float) (b : List ℕ)
      → serialize_string sdk v ≡ ok b
      → (s : String) × (b ≡ sdk.string_bytes s)
  unfolding serialize_string
  string_typed (text s) b h = (s, sym (ok_inj h))
  string_typed _ b h = absurd (ground (arith, h))

  to_uint64-fits : (v : Json Float) (n : ℕ) → FitsWord → to_uint64 sdk v ≡ ok n → n < 2 ^ 64
  unfolding to_uint64 from_float
  to_uint64-fits (number f) n word h = elim (Option-cases (sdk.whole f)) [
    | inl e ↦ absurd (ground (arith, h, e))
    | inr (m, e) ↦ let is_n : sdk.as_u64 f ≡ n = ground (arith, h, e) in rw (← is_n) (word f)
  ]
  to_uint64-fits (text s) n word h = elim (Option-cases (sdk.decimal s)) [
    | inl e ↦ absurd (ground (arith, h, e))
    | inr ((negative, m), e) ↦
        elim (Bool-cases ((not negative || nat_eq m 0) && ltb m 18446744073709551616)) [
          | inl f ↦ ground (arith, h, e, f)
          | inr f ↦ absurd (ground (arith, h, e, f))
        ]
  ]
  to_uint64-fits _ n word h = absurd (ground (arith, h))

  -- A width below 64 is checked; 64 needs no check.
  serialize_uint-IsUint :
      (bits : ℕ) (v : Json Float) (b : List ℕ)
      → FitsWord
      → bits ≤ 64
      → serialize_uint sdk bits v ≡ ok b
      → IsUint bits b
  unfolding serialize_uint
  serialize_uint-IsUint bits v b word narrow h =
      let (n, (read, k)) = bind_ok (to_uint64 sdk v) _ h in
      (n, within_width sdk bits n b narrow (to_uint64-fits v n word read) k)

  serialize_big-IsUint :
      (bits : ℕ) (v : Json Float) (b : List ℕ) → serialize_big sdk bits v ≡ ok b → IsUint bits b
  unfolding serialize_big
  serialize_big-IsUint bits v b h =
      let ((negative, n), (read, k)) = bind_ok (to_big_int sdk v) _ h in
      elim (Bool-cases ((negative && ltb 0 n) || leb (2 ^ bits) n)) [
        | inl e ↦ absurd (ground (arith, k, e))
        | inr e ↦ (n, (ground (arith, e), ground (arith, k, e)))
      ]

  -- The elements, each of the type if each that is converted is.
  each_typed :
      (t : MoveType) (i : ℕ) (vs : Jsons Float) (bs : List (List ℕ))
      → ((v : Json Float) (b : List ℕ) → encode sdk t v ≡ ok b → IsBytesOf t b)
      → each sdk (encode sdk t) i vs ≡ ok bs
      → All (IsBytesOf t) bs
  unfolding each with_element
  each_typed t i nil bs one h = let e : [] ≡ bs = ok_inj h in rw (sym e) tt
  each_typed t i (cons v vs) bs one h = elim (Result-cases (encode sdk t v)) [
    | inr (why, e) ↦ absurd (ground (arith, h, e))
    | inl (b, e) ↦ elim (Result-cases (each sdk (encode sdk t) (i + 1) vs)) [
      | inr (why, f) ↦ absurd (ground (arith, h, e, f))
      | inl (rest, f) ↦
          let same : bs ≡ b ∷ rest = ground (arith, h, e, f) in
          rw same (one v b e, each_typed t (i + 1) vs rest one f)
    ]
  ]

  vector_typed :
      (t : MoveType) (v : Json Float) (b : List ℕ)
      → ((w : Json Float) (c : List ℕ) → encode sdk t w ≡ ok c → IsBytesOf t c)
      → encode sdk (vector t) v ≡ ok b
      → IsBytesOf (vector t) b
  unfolding encode elements_of serialize_vector
  vector_typed t (array vs) b one h = elim (Result-cases (each sdk (encode sdk t) 0 vs)) [
    | inr (why, e) ↦ absurd (ground (arith, h, e))
    | inl (bs, e) ↦ (bs, (each_typed t 0 vs bs one e, ground (arith, h, e)))
  ]
  vector_typed t _ b one h = absurd (ground (arith, h))

  encode_typed :
      (t : MoveType) (v : Json Float) (b : List ℕ)
      → FitsWord
      → encode sdk t v ≡ ok b
      → IsBytesOf t b
  unfolding encode
  encode_typed address v b word h = serialize_address-IsAddress v b h
  encode_typed bool v b word h = bool_typed v b h
  encode_typed u8 v b word h = serialize_uint-IsUint 8 v b word (omega arith) h
  encode_typed u16 v b word h = serialize_uint-IsUint 16 v b word (omega arith) h
  encode_typed u32 v b word h = serialize_uint-IsUint 32 v b word (omega arith) h
  encode_typed u64 v b word h = serialize_uint-IsUint 64 v b word (omega arith) h
  encode_typed u128 v b word h = serialize_big-IsUint 128 v b h
  encode_typed u256 v b word h = serialize_big-IsUint 256 v b h
  encode_typed move_string v b word h = string_typed v b h
  encode_typed (object_of t) v b word h = serialize_address-IsAddress v b h
  encode_typed (vector t) v b word h = vector_typed t v b (λ w c. encode_typed t w c word) h

  -- What `SerializeArgument` answers for the text of a type are the bytes of a value of that type.
  pub serialize_argument_typed :
      (t : MoveType) (v : Json Float) (b : List ℕ)
      → KnowsFramework sdk
      → FitsWord
      → serialize_argument sdk (type_text t) v ≡ ok b
      → IsBytesOf t b
  serialize_argument_typed t v b known word h =
      encode_typed t v b word (rw (serialize_argument-encode sdk t v known) at h)
