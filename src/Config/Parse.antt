-- ===== src/Config/Parse.antt =====
-- `strconv.ParseUint` in base 10, `strconv.Atoi` and `strings.Split` at a comma, as the settings use
-- them. A value out of range is an error.
use Prim.Native.Char.{Char, code}
use ledger_service.Prelude.{
  ℕ, ◌+◌, ◌-◌, ◌*◌, ◌^◌, ◌≡◌, refl, Bool, ◌&&◌, leb, ltb, ◌==◌, String, Option, none, some, List,
  [], ◌∷◌, if◌then◌else◌,
}
use ledger_service.Prelude.Int.{ℤ, pos, sub_ℕ}
use ledger_service.Service.Text.{is_empty}

abbrev is_digit : ℕ → Bool
is_digit c = leb 48 c && leb c 57

-- the digits behind those that have the value `n`
unfoldable pub parse_digits : ℕ → String → Option ℕ
parse_digits n String.[] = some n
parse_digits n (String.◌∷◌ c s) =
    let rest = parse_digits (n * 10 + (code c - 48)) s in if is_digit (code c) then rest else none

-- the value of a text of digits
unfoldable pub natural : String → Option ℕ
unfolding parse_digits
natural s = if is_empty s then none else parse_digits 0 s

-- `strconv.ParseUint(s, 10, bits)`
unfoldable pub parse_uint : String → ℕ → Option ℕ
unfolding natural
parse_uint s bits = elim (natural s) [
  | none ↦ none
  | some n ↦ if ltb n (2 ^ bits) then some n else none
]

abbrev negative : Option ℕ → Option ℤ
negative none = none
negative (some n) = if leb n (2 ^ 63) then some (sub_ℕ 0 n) else none

abbrev positive : Option ℕ → Option ℤ
positive none = none
positive (some n) = if ltb n (2 ^ 63) then some (pos n) else none

-- `strconv.Atoi`
unfoldable pub atoi : String → Option ℤ
unfolding natural
atoi String.[] = none
atoi (String.◌∷◌ c s) =
    if code c == b'-'
    then negative (natural s)
    else if code c == b'+'
    then positive (natural s)
    else positive (natural (String.◌∷◌ c s))

-- a character in front of the first part
abbrev push : Char → List String → List String
push c [] = String.◌∷◌ c "" ∷ []
push c (part ∷ parts) = String.◌∷◌ c part ∷ parts

-- `strings.Split(s, ",")`
unfoldable pub split_comma : String → List String
split_comma String.[] = "" ∷ []
split_comma (String.◌∷◌ c s) =
    let rest = split_comma s in if code c == b',' then "" ∷ rest else push c rest

atoi_example : atoi "-12" ≡ some (sub_ℕ 0 12)
unfolding atoi
atoi_example = refl

parse_uint_example : parse_uint "4294967296" 32 ≡ none
unfolding parse_uint
parse_uint_example = refl

split_comma_example : split_comma "a:1,,b" ≡ "a:1" ∷ "" ∷ "b" ∷ []
unfolding split_comma
split_comma_example = refl
