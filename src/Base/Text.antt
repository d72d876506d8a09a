-- ===== src/Base/Text.antt =====
-- What the contracts use of Python's `str` and `re`: `strip`, `encode`, and the reviewed patterns.
-- A text is read as its code points.
pub mod Strip
use Prim.Native.Char.{code}
use mathlib.Core.List.{reverse}
use deployment.Base.{
  ℕ, ◌+◌, String, Bool, true, false, ◌&&◌, ◌||◌, List, [], ◌∷◌, ltb, leb, eqb, all, length,
  if◌then◌else◌,
}

abbrev pub codes : String → List ℕ
codes String.[] = []
codes (String.◌∷◌ c s) = code c ∷ codes s

-- `str.isspace` of one character, after CPython's table.
unfoldable pub is_space : ℕ → Bool
is_space c =
    (leb 9 c && leb c 13)
    || (leb 28 c && leb c 32)
    || eqb c 0x85
    || eqb c 0xa0
    || eqb c 0x1680
    || (leb 0x2000 c && leb c 0x200a)
    || eqb c 0x2028
    || eqb c 0x2029
    || eqb c 0x202f
    || eqb c 0x205f
    || eqb c 0x3000

unfoldable pub lstrip : List ℕ → List ℕ
lstrip [] = []
lstrip (c ∷ s) = let rest = lstrip s in if is_space c then rest else c ∷ s

-- `str.strip()`
unfoldable pub strip : List ℕ → List ℕ
unfolding lstrip
strip s = reverse (lstrip (reverse (lstrip s)))

-- `len(s.encode("utf-8"))`
abbrev utf8_width : ℕ → ℕ
utf8_width c = if ltb c 0x80 then 1 else if ltb c 0x800 then 2 else if ltb c 0x10000 then 3 else 4

unfoldable pub utf8_length : List ℕ → ℕ
utf8_length [] = 0
utf8_length (c ∷ s) = utf8_width c + utf8_length s

-- `[0-9a-f]`
abbrev pub is_hex : ℕ → Bool
is_hex c = (leb b'0' c && leb c b'9') || (leb b'a' c && leb c b'f')

-- `[0-9a-f]{n}`
unfoldable pub is_hex_of_length : ℕ → List ℕ → Bool
is_hex_of_length n s = eqb (length s) n && all is_hex s

-- `[a-z0-9]`
abbrev pub is_word : ℕ → Bool
is_word c = (leb b'a' c && leb c b'z') || (leb b'0' c && leb c b'9')

-- `[._-]`
abbrev pub is_joint : ℕ → Bool
is_joint c = eqb c b'.' || eqb c b'_' || eqb c b'-'

-- `[a-z0-9]+(?:[._-][a-z0-9]+)*`, by whether a group is open that still wants a character.
unfoldable pub is_diagnostic : Bool → List ℕ → Bool
is_diagnostic true [] = false
is_diagnostic false [] = true
is_diagnostic true (c ∷ s) = if is_word c then is_diagnostic false s else false
is_diagnostic false (c ∷ s) =
    let go_on = is_diagnostic false s in
    let group = is_diagnostic true s in
    if is_word c then go_on else if is_joint c then group else false

-- `[0-9]`
abbrev pub is_digit : ℕ → Bool
is_digit c = leb b'0' c && leb c b'9'

-- `[1-9][0-9]*`
unfoldable pub is_decimal : List ℕ → Bool
is_decimal [] = false
is_decimal (c ∷ s) = leb b'1' c && leb c b'9' && all is_digit s

-- A pattern of fixed length, where `0` stands for `[0-9]` and any other character for itself.
unfoldable pub follows : List ℕ → List ℕ → Bool
follows [] [] = true
follows [] (_ ∷ _) = false
follows (_ ∷ _) [] = false
follows (p ∷ ps) (c ∷ cs) =
    let rest = follows ps cs in (if eqb p b'0' then is_digit c else eqb p c) && rest

-- `str.endswith` of one character
unfoldable pub ends_with : ℕ → List ℕ → Bool
ends_with last [] = false
ends_with last (c ∷ []) = eqb c last
ends_with last (_ ∷ c ∷ s) = ends_with last (c ∷ s)
