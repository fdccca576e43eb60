-- ===== src/Aptos/Client/ViewArgs.antt =====
-- The arguments of `View` in internal/aptos/client.go.
use circle_wallet_service.Prelude.{
  ℕ, ◌+◌, ◌-◌, ◌*◌, ◌/◌, ◌%◌, ◌<◌, ◌≡◌, refl, Option, none, some, List, [], ◌∷◌, String, arith, leb,
  nat_eq, ◌&&◌, map, All, if◌then◌else◌,
}
use circle_wallet_service.Aptos.Client.{Node, Client, hex_digit, hex_of, hex_arg, view_request}

-- How hexadecimal digits are read.
unfoldable pub read_digit : ℕ → Option ℕ
read_digit c =
    if leb b'0' c && leb c b'9'
    then some (c - b'0')
    else if leb b'a' c && leb c b'f'
    then some (c - b'a' + 10)
    else none

-- Two digits of a byte.
unfoldable pub read_byte : Option ℕ → Option ℕ → Option (List ℕ) → Option (List ℕ)
read_byte (some h) (some l) (some bs) = some ((h * 16 + l) ∷ bs)
read_byte (some h) (some l) none = none
read_byte (some h) none rest = none
read_byte none l rest = none

unfoldable pub read_hex : List ℕ → Option (List ℕ)
unfolding read_byte
read_hex [] = some []
read_hex (c ∷ []) = none
read_hex (c ∷ d ∷ cs) = let rest = read_hex cs in read_byte (read_digit c) (read_digit d) rest

-- The bytes after the prefix 0x.
unfoldable pub read_arg : List ℕ → Option (List ℕ)
read_arg [] = none
read_arg (c ∷ []) = none
read_arg (c ∷ d ∷ cs) =
    let bytes = read_hex cs in if nat_eq c b'0' && nat_eq d b'x' then bytes else none

abbrev pub AreBytes : List ℕ → Type 0
AreBytes bs = All (λ b. b < 256) bs

read_digit-hex_digit : (n : ℕ) → n < 16 → read_digit (hex_digit n) ≡ some n
unfolding read_digit
read_digit-hex_digit n h = ground (arith, h)

read_hex-hex_of : (bs : List ℕ) → AreBytes bs → read_hex (hex_of bs) ≡ some bs
unfolding read_hex hex_of read_byte
read_hex-hex_of [] h = refl
read_hex-hex_of (b ∷ bs) h =
    let high = read_digit-hex_digit (b / 16) (omega (arith, h.0)) in
    let low = read_digit-hex_digit (b % 16) (omega arith) in
    let joined : b / 16 * 16 + b % 16 ≡ b = omega arith in
    rw (high, low, read_hex-hex_of bs h.1, joined) refl

pub read_arg-hex_arg : (bs : List ℕ) → AreBytes bs → read_arg (hex_arg bs) ≡ some bs
unfolding read_arg hex_arg
read_arg-hex_arg bs h = read_hex-hex_of bs h

reads_args :
    (args : List (List ℕ)) → All AreBytes args → map read_arg (map hex_arg args) ≡ map some args
reads_args [] h = refl
reads_args (bs ∷ args) h = rw (read_arg-hex_arg bs h.0, reads_args args h.1) refl

-- A node that reads the digits of the arguments in the body of a view request has the bytes that the
-- handler serialized, in their order.
pub view_request_read :
    (node : Node) (c : Client node) (function : String) (type_args : List String)
    (args : List (List ℕ))
    → All AreBytes args
    → map read_arg (view_request node c function type_args args).body.arguments ≡ map some args
unfolding view_request
view_request_read node c function type_args args h = reads_args args h
