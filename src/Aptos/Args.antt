-- ===== src/Aptos/Args.antt =====
-- internal/aptos/args.go: the conversion of JSON arguments by the text of their Move type. A text is the
-- list of its code points, which are its bytes as long as it is ASCII, as the types of Move are. The
-- parser of addresses and the BCS serializer are those of the SDK, the numbers those of math/big and
-- float64.
pub mod Types
pub mod Typed
use circle_wallet_service.Prelude.{
  ℕ, zero, suc, ◌+◌, ◌-◌, ◌^◌, ◌<◌, ◌≡◌, Bool, true, false, not, ◌&&◌, ◌||◌, Option, none, some,
  List, [], ◌∷◌, ◌++◌, String, ltb, leb, nat_eq, if◌then◌else◌, Result, ok, err, ◌>>=◌, length,
}
use circle_wallet_service.Text.{runes, starts_with, split_colons}

-- What the conversion takes from the libraries.
pub record Sdk : Type 1 where
  pub Float : Type 0
  -- the number that a float64 stands for, if it is whole and not negative
  pub whole : Float → Option ℕ
  -- uint64(f)
  pub as_u64 : Float → ℕ
  -- new(big.Int).SetString(s, 10): the sign, and the absolute value
  pub decimal : String → Option (Bool × ℕ)
  pub Address : Type 0
  -- ParseStringRelaxed
  pub parse_address : List ℕ → Option Address
  pub address_one : Address → Bool
  -- the bytes of the BCS serializer
  pub address_bytes : Address → List ℕ
  pub bool_bytes : Bool → List ℕ
  pub uint_bytes : ℕ → ℕ → List ℕ
  pub string_bytes : String → List ℕ
  pub uleb128 : ℕ → List ℕ

-- A conversion from float64 is exact where the number fits.
pub record Converts (sdk : Sdk) : Type 0 where
  pub exact :
      (f : sdk.Float) (n : ℕ) → sdk.whole f ≡ some n → n < 18446744073709551616 → sdk.as_u64 f ≡ n

pub data ArgError : Type 0 where
  unsupported expected_string expected_bool expected_array expected_number : ArgError
  not_integer not_numeric overflows exceeds_max out_of_range invalid_address : ArgError
  invalid_function_id : ArgError
  -- a slice out of range
  panics : ArgError
  in_element : ℕ → ArgError → ArgError

mutual
  pub data Json (F : Type 0) : Type 0 where
    number : F → Json F
    text : String → Json F
    boolean : Bool → Json F
    null object : Json F
    array : Jsons F → Json F

  pub data Jsons (F : Type 0) : Type 0 where
    nil : Jsons F
    cons : Json F → Jsons F → Jsons F

-- base[:strings.Index(base, "<")]
unfoldable pub before_angle : List ℕ → List ℕ
before_angle [] = []
before_angle (c ∷ cs) = let rest = before_angle cs in if nat_eq c b'<' then [] else c ∷ rest

unfoldable pub same_runes : List ℕ → List ℕ → Bool
same_runes [] [] = true
same_runes (c ∷ cs) (d ∷ ds) = let rest = same_runes cs ds in if nat_eq c d then rest else false
same_runes _ _ = false

-- typeStr[:len(typeStr)-1]
unfoldable pub but_last : List ℕ → List ℕ
but_last [] = []
but_last (c ∷ []) = []
but_last (c ∷ d ∷ cs) = c ∷ but_last (d ∷ cs)

unfoldable pub drop : ℕ → List ℕ → List ℕ
drop zero cs = cs
drop (suc n) [] = []
drop (suc n) (c ∷ cs) = drop n cs

-- typeStr[len("vector<"):len(typeStr)-1]
unfoldable pub inner_type : List ℕ → List ℕ
unfolding but_last drop
inner_type t = drop 7 (but_last t)

module _ (sdk : Sdk) where
  open sdk use {Float, Address}

  -- The address of a struct path with the module and the name of objects.
  object_path : List (List ℕ) → Bool
  object_path (addr ∷ module_name ∷ name ∷ []) =
      if same_runes module_name (runes "object") && same_runes name (runes "Object")
      then elim (sdk.parse_address addr) [ none ↦ false | some a ↦ sdk.address_one a ]
      else false
  object_path _ = false

  unfoldable pub is_object_type : List ℕ → Bool
  unfolding object_path before_angle
  is_object_type t = object_path (split_colons (before_angle t))

  parsed : String → Result ArgError Address
  parsed s = elim (sdk.parse_address (runes s)) as (λ _. Result ArgError Address) [
    | none ↦ err invalid_address
    | some a ↦ ok a
  ]

  -- The parts of a function id, none of them empty.
  three_parts : List (List ℕ) → Result ArgError (List ℕ × (List ℕ × List ℕ))
  three_parts ((a ∷ addr) ∷ (m ∷ module_name) ∷ (f ∷ function) ∷ []) =
      ok (a ∷ addr, (m ∷ module_name, f ∷ function))
  three_parts _ = err invalid_function_id

  with_address : List ℕ × (List ℕ × List ℕ) → Result ArgError (Address × (List ℕ × List ℕ))
  with_address (addr, names) =
      elim (sdk.parse_address addr) as (λ _. Result ArgError (Address × (List ℕ × List ℕ))) [
        | none ↦ err invalid_address
        | some a ↦ ok (a, names)
      ]

  unfoldable pub parse_function_id : String → Result ArgError (Address × (List ℕ × List ℕ))
  unfolding three_parts with_address
  parse_function_id s = three_parts (split_colons (runes s)) >>= with_address

  unfoldable pub serialize_address : Json Float → Result ArgError (List ℕ)
  unfolding parsed
  serialize_address (text s) = parsed s >>= λ a. ok (sdk.address_bytes a)
  serialize_address _ = err expected_string

  unfoldable pub serialize_bool : Json Float → Result ArgError (List ℕ)
  serialize_bool (boolean b) = ok (sdk.bool_bytes b)
  serialize_bool _ = err expected_bool

  unfoldable pub serialize_string : Json Float → Result ArgError (List ℕ)
  serialize_string (text s) = ok (sdk.string_bytes s)
  serialize_string _ = err expected_string

  from_float : Float → Result ArgError ℕ
  from_float f = elim (sdk.whole f) as (λ _. Result ArgError ℕ) [
    | none ↦ err not_integer
    | some _ ↦ ok (sdk.as_u64 f)
  ]

  unfoldable pub to_uint64 : Json Float → Result ArgError ℕ
  unfolding from_float
  to_uint64 (number f) = from_float f
  to_uint64 (text s) = elim (sdk.decimal s) as (λ _. Result ArgError ℕ) [
    | none ↦ err not_numeric
    | some (negative, n) ↦
        if (not negative || nat_eq n 0) && ltb n 18446744073709551616 then ok n else err overflows
  ]
  to_uint64 _ = err expected_number

  -- The sign and the absolute value.
  unfoldable pub to_big_int : Json Float → Result ArgError (Bool × ℕ)
  unfolding from_float
  to_big_int (number f) = from_float f >>= λ n. ok (false, n)
  to_big_int (text s) = elim (sdk.decimal s) as (λ _. Result ArgError (Bool × ℕ)) [
    | none ↦ err not_numeric
    | some n ↦ ok n
  ]
  to_big_int _ = err expected_number

  unfoldable pub serialize_uint : ℕ → Json Float → Result ArgError (List ℕ)
  serialize_uint bits v = to_uint64 v >>= λ n.
      if ltb bits 64 && leb (2 ^ bits) n then err exceeds_max else ok (sdk.uint_bytes bits n)

  -- serializeU128 and serializeU256, which differ in the width only
  unfoldable pub serialize_big : ℕ → Json Float → Result ArgError (List ℕ)
  serialize_big bits v = to_big_int v >>= λ (negative, n).
      if (negative && ltb 0 n) || leb (2 ^ bits) n
      then err out_of_range
      else ok (sdk.uint_bytes bits n)

  -- for _, b := range serialized { ser.FixedBytes(b) }
  unfoldable pub joined : List (List ℕ) → List ℕ
  joined [] = []
  joined (b ∷ bs) = b ++ joined bs

  -- The elements of an array, as far as they were serialized before.
  serialize_vector : Json Float → Result ArgError (List (List ℕ)) → Result ArgError (List ℕ)
  unfolding joined
  serialize_vector (array vs) (ok elements) = ok (sdk.uleb128 (length elements) ++ joined elements)
  serialize_vector (array vs) (err e) = err e
  serialize_vector _ _ = err expected_array

  -- The switch on the text of the type; "vector<" itself is cut past its end.
  dispatch : List ℕ → Json Float → Result ArgError (List (List ℕ)) → Result ArgError (List ℕ)
  unfolding serialize_vector
  dispatch t v elements =
      if same_runes t (runes "address") || is_object_type t
      then serialize_address v
      else if same_runes t (runes "bool")
      then serialize_bool v
      else if same_runes t (runes "u8")
      then serialize_uint 8 v
      else if same_runes t (runes "u16")
      then serialize_uint 16 v
      else if same_runes t (runes "u32")
      then serialize_uint 32 v
      else if same_runes t (runes "u64")
      then serialize_uint 64 v
      else if same_runes t (runes "u128")
      then serialize_big 128 v
      else if same_runes t (runes "u256")
      then serialize_big 256 v
      else if same_runes t (runes "0x1::string::String")
      then serialize_string v
      else if starts_with (runes "vector<") t
      then (if ltb (length t) 8 then err panics else serialize_vector v elements)
      else err unsupported

  -- One element, before the others.
  with_element :
      ℕ
      → Result ArgError (List ℕ)
      → Result ArgError (List (List ℕ))
      → Result ArgError (List (List ℕ))
  with_element i (err e) _ = err (in_element i e)
  with_element i (ok b) (err e) = err e
  with_element i (ok b) (ok bs) = ok (b ∷ bs)

  unfoldable mutual
    unfolding dispatch with_element

    pub serialize_argument : List ℕ → Json Float → Result ArgError (List ℕ)
    serialize_argument t (array vs) = dispatch t (array vs) (serialize_each (inner_type t) 0 vs)
    serialize_argument t v = dispatch t v (err expected_array)

    pub serialize_each : List ℕ → ℕ → Jsons Float → Result ArgError (List (List ℕ))
    serialize_each t i nil = ok []
    serialize_each t i (cons v vs) =
        with_element i (serialize_argument t v) (serialize_each t (i + 1) vs)
