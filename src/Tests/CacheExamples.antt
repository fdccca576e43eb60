-- ===== src/Tests/CacheExamples.antt =====
-- The theorems on the caches and on the conversion of arguments, at concrete inputs.
use circle_wallet_service.Prelude.{
  ℕ, ◌%◌, ◌^◌, ◌<◌, ◌≡◌, refl, false, none, some, List, [], ◌∷◌, String, ◌==◌, eq_iff, arith,
  if◌then◌else◌, take, Result, ok, err,
}
use circle_wallet_service.GoMap.{lookup}
use circle_wallet_service.Handler.Query.{Chain, QueryRequest, query, length_of}
use circle_wallet_service.Aptos.Abi.{
  new_abi_cache, get_function_params, get_module, lookup_function,
}
use circle_wallet_service.Text.{runes, starts_with, split_colons}
use circle_wallet_service.Lru.{Lru, remove, store, find}
use circle_wallet_service.Lru.Recency.{contains}
use circle_wallet_service.Lru.Bounded.{IsWell, store_recent}
use circle_wallet_service.Circle.PubkeyCache.{
  ensure_0x_prefix, resolve, new_public_key_cache, new-IsWell, resolve_again,
}
use circle_wallet_service.Aptos.Args.{
  Sdk, Converts, parse_function_id, is_object_type, before_angle, number, text, array, nil, cons,
  same_runes, serialize_uint, to_uint64, serialize_argument,
}
use circle_wallet_service.Aptos.Args.Typed.{FitsWord}
use circle_wallet_service.Handler.Query.Typed.{AreBytesOf, params_of, query_typed}
use circle_wallet_service.Aptos.Args.Types.{
  u8, vector, type_text, encode, Stands, serialize_argument-encode, serialize_uint_exact,
}

-- A cache of two keys that is full.
abbrev full : Lru String
full = record {
  entries = ("w1", "0x1") ∷ ("w2", "0x2") ∷ [];
  order = "w2" ∷ "w1" ∷ [];
  max_entries = 2;
}

full-IsWell : IsWell full
unfolding contains lookup
full-IsWell = record {
  once = (refl, (refl, tt));
  agrees = λ j. ground (arith, eq_iff "w1" j, eq_iff "w2" j);
  bounded = omega arith;
}

store_recent_example :
    IsWell (store "w3" "0x3" full)
    × (((store "w3" "0x3" full).order ≡ take 2 ("w3" ∷ remove "w3" ("w2" ∷ "w1" ∷ [])))
        × ((j : String)
            → lookup j (store "w3" "0x3" full).entries ≡ (
                if contains j (take 2 ("w3" ∷ remove "w3" ("w2" ∷ "w1" ∷ [])))
                then (if "w3" == j then some "0x3" else lookup j full.entries)
                else none)))
store_recent_example = store_recent "w3" "0x3" full full-IsWell

abbrev api : String → Result String String
api wallet = ok "0xab"

abbrev down : String → Result String String
down wallet = err "unavailable"

abbrev warm : Lru String
warm = (resolve (λ s. s) api "w1" new_public_key_cache).1

resolves_first : resolve (λ s. s) api "w1" new_public_key_cache ≡ (ok "0xab", warm)
unfolding resolve new_public_key_cache find lookup ensure_0x_prefix starts_with
resolves_first = refl

resolve_again_example : (resolve (λ s. s) down "w1" warm).0 ≡ ok "0xab"
resolve_again_example =
    resolve_again (λ s. s) api down "w1" "0xab" new_public_key_cache warm (new-IsWell (λ s. s))
      (unfold new_public_key_cache in omega arith) resolves_first

-- Numbers are natural, and an address is its text.
abbrev pub sdk : Sdk
sdk = record {
  Float = ℕ;
  whole = λ f. some f;
  as_u64 = λ f. f % 18446744073709551616;
  decimal = λ s. if s == "250" then some (false, 250) else none;
  Address = List ℕ;
  parse_address = λ t. some t;
  address_one = λ t. same_runes t (runes "0x1");
  address_bytes = λ t. t;
  bool_bytes = λ b. (if b then 1 else 0) ∷ [];
  uint_bytes = λ bits n. n ∷ [];
  string_bytes = runes;
  uleb128 = λ n. n ∷ [];
}

sdk-Converts : Converts sdk
sdk-Converts = record { exact = λ f n e small. ground (arith, e, small) }

serialize_argument-encode_example :
    serialize_argument sdk (type_text (vector u8)) (array (cons (number 7) (cons (text "250") nil)))
    ≡ encode sdk (vector u8) (array (cons (number 7) (cons (text "250") nil)))
serialize_argument-encode_example =
    serialize_argument-encode sdk (vector u8) (array (cons (number 7) (cons (text "250") nil)))
      (runes "0x1", (refl, unfold same_runes in refl))

takes_250 : serialize_uint sdk 8 (text "250") ≡ ok (250 ∷ [])
unfolding serialize_uint to_uint64
takes_250 = refl

serialize_uint_exact_example :
    (n : ℕ) × (Stands sdk (text "250") n × ((n < 2 ^ 8) × (250 ∷ [] ≡ sdk.uint_bytes 8 n)))
serialize_uint_exact_example =
    serialize_uint_exact sdk 8 (text "250") (250 ∷ []) sdk-Converts (omega arith)
      (λ f n e w. ground (arith, e)) takes_250

abbrev pub chain : Chain sdk
chain = record {
  module_key = λ a m. "0x1::m";
  name_text = λ f. "f";
  module_at = λ key. ok (record { name = "f"; params = "u8" ∷ [] } ∷ []);
  view = λ name types args. ok "[8]";
  message = λ e. "refused";
  itoa = λ n. "1";
  quote = λ s. s;
}

abbrev asks : QueryRequest ℕ
asks = record { function_id = "0x1::m::f"; type_arguments = []; arguments = cons (number 7) nil }

calls_view : (query sdk chain 10 20 (ok asks) new_abi_cache).0.1 ≡ some ((7 ∷ []) ∷ [])
unfolding query length_of new_abi_cache get_function_params get_module lookup_function lookup
    parse_function_id split_colons serialize_argument is_object_type serialize_uint to_uint64
    same_runes before_angle
calls_view = refl

fits_word : FitsWord sdk
fits_word f = omega arith

parses_place : parse_function_id sdk "0x1::m::f" ≡ ok (runes "0x1", (runes "m", runes "f"))
unfolding parse_function_id split_colons
parses_place = refl

finds_params :
    params_of sdk chain 10 20 new_abi_cache (runes "0x1", (runes "m", runes "f")) ≡ ok ("u8" ∷ [])
unfolding get_function_params get_module lookup_function lookup new_abi_cache
finds_params = refl

query_typed_example : AreBytesOf sdk chain (u8 ∷ []) ((7 ∷ []) ∷ [])
query_typed_example =
    query_typed sdk chain 10 20 asks new_abi_cache ((7 ∷ []) ∷ [])
      (runes "0x1", (runes "m", runes "f")) ("u8" ∷ []) (u8 ∷ [])
      (runes "0x1", (refl, unfold same_runes in refl)) fits_word parses_place finds_params
      (unfold type_text in refl) calls_view
