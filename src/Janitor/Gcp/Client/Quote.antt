-- ===== src/Janitor/Gcp/Client/Quote.antt =====
-- `urllib.parse.quote(text, safe="")`
use Prim.Native.Char.{code}
use Prim.Native.Nat.{◌/◌, ◌%◌}
use deployment.Base.{
  ℕ, zero, suc, ◌+◌, String, ◌<>◌, Bool, ◌||◌, ◌&&◌, List, [], ◌∷◌, ltb, leb, eqb, if◌then◌else◌,
}

-- The characters that stay.
abbrev is_unreserved : ℕ → Bool
is_unreserved c =
    (leb b'a' c && leb c b'z')
    || (leb b'A' c && leb c b'Z')
    || (leb b'0' c && leb c b'9')
    || eqb c b'_'
    || eqb c b'.'
    || eqb c b'-'
    || eqb c b'~'

-- The bytes of a character in UTF-8.
abbrev utf8 : ℕ → List ℕ
utf8 c =
    if ltb c 0x80
    then c ∷ []
    else if ltb c 0x800
    then (0xc0 + c / 64) ∷ (0x80 + c % 64) ∷ []
    else if ltb c 0x10000
    then (0xe0 + c / 4096) ∷ (0x80 + c / 64 % 64) ∷ (0x80 + c % 64) ∷ []
    else (0xf0 + c / 262144) ∷ (0x80 + c / 4096 % 64) ∷ (0x80 + c / 64 % 64) ∷ (0x80 + c % 64) ∷ []

abbrev hex_digit : ℕ → List String → String
hex_digit n [] = ""
hex_digit zero (d ∷ digits) = d
hex_digit (suc n) (d ∷ digits) = hex_digit n digits

abbrev hex_digits : List String
hex_digits =
    "0" ∷ "1" ∷ "2" ∷ "3" ∷ "4" ∷ "5" ∷ "6" ∷ "7" ∷ "8" ∷ "9" ∷ "A" ∷ "B" ∷ "C" ∷ "D" ∷ "E" ∷ "F"
    ∷ []

abbrev percent : List ℕ → String
percent [] = ""
percent (b ∷ bytes) =
    "%" <> hex_digit (b / 16) hex_digits <> hex_digit (b % 16) hex_digits <> percent bytes

unfoldable pub quote : String → String
quote String.[] = String.[]
quote (String.◌∷◌ c s) =
    let later = quote s in
    if is_unreserved (code c) then String.◌∷◌ c later else percent (utf8 (code c)) <> later
