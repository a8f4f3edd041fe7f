-- ===== src/Settings.antt =====
-- What the programs' start reads settings with: the environment, and the functions of `str` that they
-- call on its values.
mod Tests
use Prim.Native.Char.{Char, code}
use Prim.Native.Nat.{◌-◌}
use Prim.Native.String.{String}
use text.Mathlib.Text.{◌==◌ as str_eq}
use object_store.Common.{
  ℕ, ◌+◌, ◌*◌, List, [], ◌∷◌, Bool, true, false, ◌&&◌, ◌||◌, Option, none, some, leb, ltb, ◌==◌,
  if◌then◌else◌,
}

-- `env::var(name).ok()`
abbrev pub Env : Type 0
Env = String → Option String

-- `char::is_whitespace`, on a code point.
abbrev pub is_whitespace : ℕ → Bool
is_whitespace c =
    (leb 9 c && leb c 13)
    || (c == 32)
    || (c == 133)
    || (c == 160)
    || (c == 5760)
    || (leb 8192 c && leb c 8202)
    || (c == 8232)
    || (c == 8233)
    || (c == 8239)
    || (c == 8287)
    || (c == 12288)

-- `trim`
unfoldable pub trim_start : String → String
trim_start String.[] = String.[]
trim_start (String.◌∷◌ c s) =
    let rest = trim_start s in if is_whitespace (code c) then rest else String.◌∷◌ c s

abbrev pub is_empty : String → Bool
is_empty String.[] = true
is_empty (String.◌∷◌ c s) = false

unfoldable pub trim_end : String → String
trim_end String.[] = String.[]
trim_end (String.◌∷◌ c s) =
    let rest = trim_end s in
    if is_empty rest && is_whitespace (code c) then String.[] else String.◌∷◌ c rest

abbrev pub trim : String → String
trim s = trim_end (trim_start s)

-- `split(',')`, of which there is always a first part.
abbrev pub comma : ℕ
comma = 44

abbrev pub before_first : Char → List String → List String
before_first c [] = (String.◌∷◌ c String.[]) ∷ []
before_first c (part ∷ parts) = String.◌∷◌ c part ∷ parts

unfoldable pub split_commas : String → List String
split_commas String.[] = String.[] ∷ []
split_commas (String.◌∷◌ c s) =
    let rest = split_commas s in if code c == comma then String.[] ∷ rest else before_first c rest

-- `parse` of an unsigned integer of at most `max`: digits, and perhaps a plus sign before them.
unfoldable pub parse_digits : ℕ → ℕ → String → Option ℕ
parse_digits max n String.[] = some n
parse_digits max n (String.◌∷◌ c s) =
    let next = n * 10 + (code c - 48) in
    let rest = parse_digits max next s in
    if leb 48 (code c) && leb (code c) 57 then (if ltb max next then none else rest) else none

unfoldable pub parse_unsigned : ℕ → String → Option ℕ
unfolding parse_digits
parse_unsigned max String.[] = none
parse_unsigned max (String.◌∷◌ c s) =
    if code c == 43
    then (if is_empty s then none else parse_digits max 0 s)
    else parse_digits max 0 (String.◌∷◌ c s)

-- `parse::<bool>`
abbrev pub parse_bool : String → Option Bool
parse_bool s = if str_eq s "true" then some true else if str_eq s "false" then some false else none
