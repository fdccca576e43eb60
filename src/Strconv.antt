-- ===== src/Strconv.antt =====
-- The conversions of package strconv that the configuration uses. An error is `none`.
use circle_wallet_service.Prelude.{
  ℕ, ◌+◌, ◌-◌, ◌*◌, Bool, true, false, ◌&&◌, ◌||◌, Option, none, some, List, [], ◌∷◌, String, ◌==◌,
  ltb, leb, nat_eq, if◌then◌else◌, ℤ, pos, neg,
}

-- The value of decimal digits, behind what was read before them.
digits : ℕ → List ℕ → Option ℕ
digits n [] = some n
digits n (c ∷ text) =
    let rest = digits (n * 10 + (c - b'0')) text in if leb b'0' c && leb c b'9' then rest else none

below : ℕ → Option ℕ → Option ℕ
below limit none = none
below limit (some n) = if ltb n limit then some n else none

-- strconv.ParseUint(text, 10, bits), where `limit` is 2^bits
unfoldable pub parse_uint : ℕ → List ℕ → Option ℕ
unfolding digits below
parse_uint limit [] = none
parse_uint limit (c ∷ text) = below limit (digits 0 (c ∷ text))

signed : (ℕ → ℤ) → Option ℕ → Option ℤ
signed sign none = none
signed sign (some n) = some (sign n)

-- strconv.Atoi, where an int has 64 bits
unfoldable pub atoi : List ℕ → Option ℤ
unfolding parse_uint signed digits below
atoi [] = none
atoi (c ∷ text) =
    if nat_eq c b'-'
    then signed neg (parse_uint 9223372036854775809 text)
    else if nat_eq c b'+'
    then signed pos (parse_uint 9223372036854775808 text)
    else signed pos (parse_uint 9223372036854775808 (c ∷ text))

abbrev is_one_of : List String → String → Bool
is_one_of [] s = false
is_one_of (t ∷ ts) s = s == t || is_one_of ts s

-- strconv.ParseBool
unfoldable pub parse_bool : String → Option Bool
parse_bool s =
    if is_one_of ("1" ∷ "t" ∷ "T" ∷ "TRUE" ∷ "true" ∷ "True" ∷ []) s
    then some true
    else if is_one_of ("0" ∷ "f" ∷ "F" ∷ "FALSE" ∷ "false" ∷ "False" ∷ []) s
    then some false
    else none
