-- ===== src/Text.antt =====
-- The text tests of the standard library that the service uses on messages: a message is the list of
-- its code points.
use Prim.Native.Char.{code}
use Prim.Native.String.{String, ◌++◌}
use circle_wallet_service.Prelude.{
  ℕ, ◌+◌, ◌-◌, Bool, true, false, ◌&&◌, ◌||◌, List, [], ◌∷◌, leb, nat_eq, if◌then◌else◌,
}

-- a + b
abbrev pub concat : String → String → String
concat a b = a ++ b

abbrev pub runes : String → List ℕ
runes (String.◌∷◌ letter text) = let rest = runes text in code letter ∷ rest
runes String.[] = []

-- unicode.ToLower, as far as a search for ASCII text can tell: U+0130 and U+212A are the only code
-- points outside of ASCII whose lower case is in ASCII.
unfoldable pub to_lower : ℕ → ℕ
to_lower c =
    if leb b'A' c && leb c b'Z'
    then c + 32
    else if nat_eq c 0x130
    then b'i'
    else if nat_eq c 0x212a
    then b'k'
    else c

-- unicode.ToUpper, in the same sense: U+0131 and U+017F come to ASCII.
unfoldable pub to_upper : ℕ → ℕ
to_upper c =
    if leb b'a' c && leb c b'z'
    then c - 32
    else if nat_eq c 0x131
    then b'I'
    else if nat_eq c 0x17f
    then b'S'
    else c

-- strings.HasPrefix(text, part)
unfoldable pub starts_with : List ℕ → List ℕ → Bool
starts_with [] text = true
starts_with (p ∷ part) [] = false
starts_with (p ∷ part) (q ∷ text) =
    let rest = starts_with part text in if nat_eq q p then rest else false

-- strings.Contains(text, part)
unfoldable pub occurs_in : List ℕ → List ℕ → Bool
unfolding starts_with
occurs_in part [] = starts_with part []
occurs_in part (q ∷ text) =
    let later = occurs_in part text in if starts_with part (q ∷ text) then true else later

-- strings.Split(s, "::")
push : ℕ → List (List ℕ) → List (List ℕ)
push c [] = (c ∷ []) ∷ []
push c (part ∷ parts) = (c ∷ part) ∷ parts

unfoldable pub split_colons : List ℕ → List (List ℕ)
unfolding push
split_colons [] = [] ∷ []
split_colons (c ∷ []) = (c ∷ []) ∷ []
split_colons (c ∷ d ∷ text) =
    let after = split_colons text in
    let on = split_colons (d ∷ text) in
    if nat_eq c b':' && nat_eq d b':' then [] ∷ after else push c on

-- unicode.IsSpace
unfoldable pub is_space : ℕ → Bool
is_space c =
    (leb 9 c && leb c 13)
    || (nat_eq c 32
        || (nat_eq c 0x85
            || (nat_eq c 0xa0
                || (nat_eq c 0x1680
                    || ((leb 0x2000 c && leb c 0x200a)
                        || (nat_eq c 0x2028
                            || (nat_eq c 0x2029
                                || (nat_eq c 0x202f || (nat_eq c 0x205f || nat_eq c 0x3000)))))))))

trim_left : String → String
unfolding is_space
trim_left String.[] = String.[]
trim_left (String.◌∷◌ c s) =
    let rest = trim_left s in if is_space (code c) then rest else String.◌∷◌ c s

glue : Bool → String → String → String
glue false s rest = s
glue true s String.[] = String.[]
glue true s (String.◌∷◌ d rest) = s

trim_right : String → String
unfolding is_space glue
trim_right String.[] = String.[]
trim_right (String.◌∷◌ c s) =
    let rest = trim_right s in glue (is_space (code c)) (String.◌∷◌ c rest) rest

-- strings.TrimSpace
unfoldable pub trim_space : String → String
unfolding trim_left trim_right
trim_space s = trim_right (trim_left s)
