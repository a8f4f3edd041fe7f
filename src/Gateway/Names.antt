-- ===== src/Gateway/Names.antt =====
-- `validate_object_name`, on the code points of the name.
pub mod Segments
use Prim.Native.Char.{code}
use Prim.Native.String.{String}
use object_store.Common.{
  ℕ, ◌+◌, List, [], ◌∷◌, Bool, true, false, not, ◌&&◌, ◌||◌, ltb, ◌==◌, if◌then◌else◌,
}

-- The code points of a text.
abbrev pub codes : String → List ℕ
codes String.[] = []
codes (String.◌∷◌ c s) = code c ∷ codes s

-- `name.len()` counts the bytes of UTF-8.
abbrev pub utf8_len : ℕ → ℕ
utf8_len c = if ltb c 128 then 1 else if ltb c 2048 then 2 else if ltb c 65536 then 3 else 4

unfoldable pub byte_len : List ℕ → ℕ
byte_len [] = 0
byte_len (c ∷ cs) = utf8_len c + byte_len cs

abbrev pub max_object_name_length : ℕ
max_object_name_length = 1024

abbrev pub slash : ℕ
slash = 47

-- `starts_with('/')`, `ends_with('/')` and `contains("//")`
unfoldable pub starts_with_slash : List ℕ → Bool
starts_with_slash [] = false
starts_with_slash (c ∷ cs) = c == slash

unfoldable pub ends_with_slash : List ℕ → Bool
ends_with_slash [] = false
ends_with_slash (c ∷ []) = c == slash
ends_with_slash (c ∷ d ∷ cs) = ends_with_slash (d ∷ cs)

unfoldable pub has_double_slash : List ℕ → Bool
has_double_slash [] = false
has_double_slash (c ∷ []) = false
has_double_slash (c ∷ d ∷ cs) =
    let rest = has_double_slash (d ∷ cs) in if (c == slash) && (d == slash) then true else rest

-- `char::is_alphanumeric` is a parameter: a table of Unicode.
module _ (is_alphanumeric : ℕ → Bool) where
  abbrev pub is_allowed : ℕ → Bool
  is_allowed c = is_alphanumeric c || (c == b'-') || (c == b'_') || (c == b'.') || (c == b'/')

  unfoldable pub all_allowed : List ℕ → Bool
  all_allowed [] = true
  all_allowed (c ∷ cs) = is_allowed c && all_allowed cs

  -- Whether the function returns `Ok`.
  unfoldable pub validate : List ℕ → Bool
  unfolding byte_len starts_with_slash ends_with_slash has_double_slash all_allowed
  validate [] = false
  validate (c ∷ cs) =
      if ltb max_object_name_length (byte_len (c ∷ cs))
      then false
      else if not (all_allowed (c ∷ cs))
      then false
      else if starts_with_slash (c ∷ cs) || ends_with_slash (c ∷ cs)
      then false
      else not (has_double_slash (c ∷ cs))

  unfoldable pub validate_object_name : String → Bool
  unfolding validate
  validate_object_name name = validate (codes name)
