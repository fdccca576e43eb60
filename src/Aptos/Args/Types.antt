-- ===== src/Aptos/Args/Types.antt =====
-- The conversion of internal/aptos/args.go against a conversion by the Move type itself.
use circle_wallet_service.Prelude.{
  ℕ, ◌+◌, ◌^◌, ◌<◌, ◌≤◌, ◌≡◌, refl, ap, ◌∙◌, true, false, ◌&&◌, some, List, [], ◌∷◌, ◌++◌, arith,
  ltb, leb, length-append, if◌then◌else◌, Bool-cases, Option-cases, inl, inr, Result, ok, err, ◌⊎◌,
  ltb→lt, nat_eq,
}
use circle_wallet_service.Text.{runes, starts_with, split_colons}
use circle_wallet_service.Aptos.Args.{
  Sdk, Converts, ArgError, exceeds_max, expected_array, Json, Jsons, number, text, boolean, null,
  object, array, nil, cons, before_angle, same_runes, but_last, drop, inner_type, object_path,
  is_object_type, serialize_address, serialize_bool, serialize_string, to_uint64, from_float,
  serialize_uint, serialize_big, serialize_vector, dispatch, with_element, serialize_argument,
  serialize_each,
}

-- The Move types that an argument may have.
pub data MoveType : Type 0 where
  address bool u8 u16 u32 u64 u128 u256 move_string : MoveType
  object_of vector : MoveType → MoveType

-- The text of a type, as the node writes it.
unfoldable pub type_text : MoveType → List ℕ
type_text address = runes "address"
type_text bool = runes "bool"
type_text u8 = runes "u8"
type_text u16 = runes "u16"
type_text u32 = runes "u32"
type_text u64 = runes "u64"
type_text u128 = runes "u128"
type_text u256 = runes "u256"
type_text move_string = runes "0x1::string::String"
type_text (object_of t) = runes "0x1::object::Object<" ++ (type_text t ++ runes ">")
type_text (vector t) = runes "vector<" ++ (type_text t ++ runes ">")

but_last_snoc : (cs : List ℕ) (c : ℕ) → but_last (cs ++ (c ∷ [])) ≡ cs
unfolding but_last
but_last_snoc [] c = refl
but_last_snoc (a ∷ []) c = refl
but_last_snoc (a ∷ b ∷ cs) c = ap (λ r. a ∷ r) (but_last_snoc (b ∷ cs) c)

inner_type-vector : (t : MoveType) → inner_type (type_text (vector t)) ≡ type_text t
unfolding type_text inner_type drop
inner_type-vector t = ap (drop 7) (but_last_snoc (runes "vector<" ++ type_text t) b'>')

module _ (sdk : Sdk) where
  open sdk use {Float, Address}

  -- The elements of an array, each converted by the same function.
  unfoldable pub each :
      (Json Float → Result ArgError (List ℕ)) → ℕ → Jsons Float → Result ArgError (List (List ℕ))
  unfolding with_element
  each f i nil = ok []
  each f i (cons v vs) = with_element sdk i (f v) (each f (i + 1) vs)

  unfoldable pub elements_of :
      (Json Float → Result ArgError (List ℕ)) → Json Float → Result ArgError (List (List ℕ))
  unfolding each
  elements_of f (array vs) = each f 0 vs
  elements_of f _ = err expected_array

  -- The conversion by the type.
  unfoldable pub encode : MoveType → Json Float → Result ArgError (List ℕ)
  unfolding elements_of serialize_vector
  encode address v = serialize_address sdk v
  encode bool v = serialize_bool sdk v
  encode u8 v = serialize_uint sdk 8 v
  encode u16 v = serialize_uint sdk 16 v
  encode u32 v = serialize_uint sdk 32 v
  encode u64 v = serialize_uint sdk 64 v
  encode u128 v = serialize_big sdk 128 v
  encode u256 v = serialize_big sdk 256 v
  encode move_string v = serialize_string sdk v
  encode (object_of t) v = serialize_address sdk v
  encode (vector t) v = serialize_vector sdk v (elements_of (encode t) v)

  -- The address of the framework.
  abbrev pub KnowsFramework : Type 0
  KnowsFramework =
      (a : Address) × ((sdk.parse_address (runes "0x1") ≡ some a) × (sdk.address_one a ≡ true))

  dispatch-vector :
      (t : MoveType) (v : Json Float) (elements : Result ArgError (List (List ℕ)))
      → dispatch sdk (type_text (vector t)) v elements ≡ serialize_vector sdk v elements
  unfolding dispatch type_text same_runes is_object_type object_path before_angle split_colons
      starts_with
  dispatch-vector t v elements = ground (arith, length-append (type_text t) (runes ">"))

  -- The elements that `serialize_argument` hands to the switch.
  elements_at : List ℕ → Json Float → Result ArgError (List (List ℕ))
  elements_at t (array vs) = serialize_each sdk (inner_type t) 0 vs
  elements_at t _ = err expected_array

  serialize_argument-dispatch :
      (t : List ℕ) (v : Json Float)
      → serialize_argument sdk t v ≡ dispatch sdk t v (elements_at t v)
  unfolding elements_at serialize_argument
  serialize_argument-dispatch t (number f) = refl
  serialize_argument-dispatch t (text s) = refl
  serialize_argument-dispatch t (boolean b) = refl
  serialize_argument-dispatch t null = refl
  serialize_argument-dispatch t object = refl
  serialize_argument-dispatch t (array vs) = refl

  dispatch-object_of :
      (t : MoveType) (v : Json Float) (elements : Result ArgError (List (List ℕ)))
      → KnowsFramework
      → dispatch sdk (type_text (object_of t)) v elements ≡ serialize_address sdk v
  unfolding dispatch type_text same_runes is_object_type object_path before_angle split_colons
  dispatch-object_of t v elements (a, (e, one)) = ground (arith, e, one)

  serialize_each-each :
      (t : MoveType) (i : ℕ) (vs : Jsons Float)
      → ((v : Json Float) → serialize_argument sdk (type_text t) v ≡ encode t v)
      → serialize_each sdk (type_text t) i vs ≡ each (encode t) i vs
  unfolding each serialize_each
  serialize_each-each t i nil k = refl
  serialize_each-each t i (cons v vs) k =
      rw (serialize_each, k v, serialize_each-each t (i + 1) vs k) refl

  elements_at-elements_of :
      (t : MoveType) (v : Json Float)
      → ((w : Json Float) → serialize_argument sdk (type_text t) w ≡ encode t w)
      → elements_at (type_text (vector t)) v ≡ elements_of (encode t) v
  unfolding elements_at elements_of
  elements_at-elements_of t (array vs) k =
      rw (elements_at, inner_type-vector t) (serialize_each-each t 0 vs k)
  elements_at-elements_of t (number f) k = refl
  elements_at-elements_of t (text s) k = refl
  elements_at-elements_of t (boolean b) k = refl
  elements_at-elements_of t null k = refl
  elements_at-elements_of t object k = refl

  -- The switch on the text of a type does what the type says: an argument is converted by the type that
  -- its text stands for, elements of vectors included, whatever the argument is.
  pub serialize_argument-encode :
      (t : MoveType) (v : Json Float)
      → KnowsFramework
      → serialize_argument sdk (type_text t) v ≡ encode t v
  unfolding encode dispatch type_text same_runes is_object_type object_path before_angle
      split_colons
  serialize_argument-encode address v k = serialize_argument-dispatch (runes "address") v
  serialize_argument-encode bool v k = serialize_argument-dispatch (runes "bool") v
  serialize_argument-encode u8 v k = serialize_argument-dispatch (runes "u8") v
  serialize_argument-encode u16 v k = serialize_argument-dispatch (runes "u16") v
  serialize_argument-encode u32 v k = serialize_argument-dispatch (runes "u32") v
  serialize_argument-encode u64 v k = serialize_argument-dispatch (runes "u64") v
  serialize_argument-encode u128 v k = serialize_argument-dispatch (runes "u128") v
  serialize_argument-encode u256 v k = serialize_argument-dispatch (runes "u256") v
  serialize_argument-encode move_string v k =
      serialize_argument-dispatch (runes "0x1::string::String") v
  serialize_argument-encode (object_of t) v k =
      serialize_argument-dispatch (type_text (object_of t)) v ∙ dispatch-object_of t v _ k
  serialize_argument-encode (vector t) v k =
      serialize_argument-dispatch (type_text (vector t)) v
      ∙ (dispatch-vector t v _
          ∙ ap (λ e. serialize_vector sdk v e)
              (elements_at-elements_of t v (λ w. serialize_argument-encode t w k)))

  abbrev pub checked : ℕ → ℕ → Result ArgError (List ℕ)
  checked bits n =
      if ltb bits 64 && leb (2 ^ bits) n then err exceeds_max else ok (sdk.uint_bytes bits n)

  pub within_width :
      (bits n : ℕ) (bytes : List ℕ)
      → bits ≤ 64
      → n < 18446744073709551616
      → checked bits n ≡ ok bytes
      → (n < 2 ^ bits) × (bytes ≡ sdk.uint_bytes bits n)
  within_width bits n bytes narrow small h = elim (Bool-cases (ltb bits 64)) [
    | inl e ↦ (ground (arith, h, e), ground (arith, h, e))
    | inr e ↦
        let full : bits ≡ 64 = ground (arith, e, narrow) in (rw full small, ground (arith, h, e))
  ]

  -- The number that an argument stands for.
  abbrev pub Stands : Json Float → ℕ → Type 0
  Stands (number f) n = sdk.whole f ≡ some n
  Stands (text s) n =
      (sdk.decimal s ≡ some (false, n)) ⊎ ((sdk.decimal s ≡ some (true, n)) × (n ≡ 0))
  Stands _ n = ⊥

  -- An unsigned integer of at most 64 bits is never cut: what is serialized is the number that the
  -- argument stands for, and it is below 2 to the power of the width; of the numbers in JSON this holds
  -- below 2 to the power of 64.
  pub serialize_uint_exact :
      (bits : ℕ) (v : Json Float) (bytes : List ℕ)
      → Converts sdk
      → bits ≤ 64
      → ((f : Float) (n : ℕ) → v ≡ number f → sdk.whole f ≡ some n → n < 18446744073709551616)
      → serialize_uint sdk bits v ≡ ok bytes
      → (n : ℕ) × (Stands v n × ((n < 2 ^ bits) × (bytes ≡ sdk.uint_bytes bits n)))
  unfolding serialize_uint to_uint64 from_float
  serialize_uint_exact bits (number f) bytes law narrow fits h = elim (Option-cases (sdk.whole f)) [
    | inl e ↦ absurd (ground (arith, h, e))
    | inr (n, e) ↦
        let small = fits f n refl e in
        (
          n,
          (e, within_width bits n bytes narrow small (ground (arith, h, e, law.exact f n e small))),
        )
  ]
  serialize_uint_exact bits (text s) bytes law narrow fits h = elim (Option-cases (sdk.decimal s)) [
    | inl e ↦ absurd (ground (arith, h, e))
    | inr ((true, n), e) ↦ elim (Bool-cases (nat_eq n 0)) [
      | inr some_n ↦ absurd (ground (arith, h, e, some_n))
      | inl none_n ↦
          let is_0 : n ≡ 0 = ground (arith, none_n) in
          (
            n,
            (
              inr (e, is_0),
              within_width bits n bytes narrow (omega (arith, is_0)) (ground (arith, h, e, is_0)),
            ),
          )
    ]
    | inr ((false, n), e) ↦ elim (Bool-cases (ltb n 18446744073709551616)) [
      | inr big ↦ absurd (ground (arith, h, e, big))
      | inl small ↦ (
        n,
        (inl e, within_width bits n bytes narrow (ltb→lt _ _ small) (ground (arith, h, e, small))),
      )
    ]
  ]
  serialize_uint_exact bits (boolean b) bytes law narrow fits h = absurd (ground (arith, h))
  serialize_uint_exact bits null bytes law narrow fits h = absurd (ground (arith, h))
  serialize_uint_exact bits object bytes law narrow fits h = absurd (ground (arith, h))
  serialize_uint_exact bits (array vs) bytes law narrow fits h = absurd (ground (arith, h))
