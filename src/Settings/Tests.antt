-- ===== src/Settings/Tests.antt =====
-- Runs of the functions of `str`.
use object_store.Common.{◌≡◌, refl, [], ◌∷◌, none, some}
use object_store.Settings.{trim, trim_start, trim_end, split_commas, parse_unsigned}

trim_test : trim "  a b " ≡ "a b"
unfolding trim_end trim_start
trim_test = refl

split_commas_test : split_commas "a,,b" ≡ "a" ∷ "" ∷ "b" ∷ []
unfolding split_commas
split_commas_test = refl

parse_unsigned_test : parse_unsigned 65535 "+3000" ≡ some 3000
unfolding parse_unsigned
parse_unsigned_test = refl

parse_unsigned_test_large : parse_unsigned 65535 "65536" ≡ none
unfolding parse_unsigned
parse_unsigned_test_large = refl
