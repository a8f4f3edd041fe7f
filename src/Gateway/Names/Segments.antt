-- ===== src/Gateway/Names/Segments.antt =====
-- The names that are accepted, by the segments between their slashes.
use object_store.Common.{
  ℕ, ◌≡◌, refl, ◌∙◌, ap, sym, List, [], ◌∷◌, Bool, true, false, not, ◌&&◌, ◌||◌, arith, ltb, ◌==◌,
  if◌then◌else◌, ◌+◌, ◌/◌, ◌%◌, ◌≤◌, ◌++◌, ◌↔◌, ◌⊎◌, inl, inr, Bool-cases, All, length,
  length-append,
}
use object_store.Gateway.Names.{
  slash, byte_len, utf8_len, max_object_name_length, is_allowed, ends_with_slash, has_double_slash,
  all_allowed, validate,
}

-- The segments of a name, of which there is always a first.
abbrev pub before_first : ℕ → List (List ℕ) → List (List ℕ)
before_first c [] = (c ∷ []) ∷ []
before_first c (s ∷ ss) = (c ∷ s) ∷ ss

abbrev pub split : List ℕ → List (List ℕ)
split [] = [] ∷ []
split (c ∷ cs) = if c == slash then [] ∷ split cs else before_first c (split cs)

abbrev pub none_empty : List (List ℕ) → Bool
none_empty [] = true
none_empty ([] ∷ ss) = false
none_empty ((c ∷ cs) ∷ ss) = none_empty ss

abbrev rest_of : List (List ℕ) → List (List ℕ)
rest_of [] = []
rest_of (s ∷ ss) = ss

none_empty-before_first :
    (c : ℕ) (ss : List (List ℕ)) → none_empty (before_first c ss) ≡ none_empty (rest_of ss)
none_empty-before_first c [] = refl
none_empty-before_first c (s ∷ ss) = refl

rest_of-before_first : (c : ℕ) (ss : List (List ℕ)) → rest_of (before_first c ss) ≡ rest_of ss
rest_of-before_first c [] = refl
rest_of-before_first c (s ∷ ss) = refl

none_empty-split :
    (c : ℕ) (cs : List ℕ)
    → (none_empty (rest_of (split (c ∷ cs)))
        ≡ (not (ends_with_slash (c ∷ cs)) && not (has_double_slash (c ∷ cs))))
      × (none_empty (split (c ∷ cs)) ≡ (
          not (c == slash) && (not (ends_with_slash (c ∷ cs)) && not (has_double_slash (c ∷ cs)))))
unfolding ends_with_slash has_double_slash
none_empty-split c [] = ground arith
none_empty-split c (d ∷ ds) =
    let ih = none_empty-split d ds in
    ground (
      arith,
      ih.0,
      ih.1,
      none_empty-before_first c (split (d ∷ ds)),
      rest_of-before_first c (split (d ∷ ds)),
    )

and_true : (a b : Bool) → (a && b) ≡ true → (a ≡ true) × (b ≡ true)
and_true true b e = (refl, e)
and_true false b e = absurd (cc e)

-- The tests of `validate`, one after another.
chain :
    (long allowed start end double : Bool)
    → (if long
        then false
        else if not allowed
        then false
        else if start || end
        then false
        else not double)
      ≡ (not long && (allowed && (not start && (not end && not double))))
chain true allowed start end double = refl
chain false false start end double = refl
chain false true true end double = refl
chain false true false true double = refl
chain false true false false double = refl

validate-tests :
    (is_alphanumeric : ℕ → Bool) (cs : List ℕ)
    → validate is_alphanumeric cs ≡ (
        not (ltb max_object_name_length (byte_len cs))
        && (all_allowed is_alphanumeric cs && none_empty (split cs)))
unfolding validate
validate-tests is_alphanumeric [] = ground arith
validate-tests is_alphanumeric (c ∷ cs) =
    chain (ltb max_object_name_length (byte_len (c ∷ cs))) (all_allowed is_alphanumeric (c ∷ cs))
      (c == slash) (ends_with_slash (c ∷ cs)) (has_double_slash (c ∷ cs))
    ∙ ap
        (λ (b : Bool).
          not (ltb max_object_name_length (byte_len (c ∷ cs)))
          && (all_allowed is_alphanumeric (c ∷ cs) && b))
        (sym (none_empty-split c cs).1)

-- The bytes of a code point and of a text in UTF-8.
abbrev pub utf8 : ℕ → List ℕ
utf8 c =
    if ltb c 128
    then c ∷ []
    else if ltb c 2048
    then (192 + c / 64) ∷ (128 + c % 64) ∷ []
    else if ltb c 65536
    then (224 + c / 4096) ∷ (128 + c / 64 % 64) ∷ (128 + c % 64) ∷ []
    else (240 + c / 262144) ∷ (128 + c / 4096 % 64) ∷ (128 + c / 64 % 64) ∷ (128 + c % 64) ∷ []

abbrev pub utf8_bytes : List ℕ → List ℕ
utf8_bytes [] = []
utf8_bytes (c ∷ cs) = utf8 c ++ utf8_bytes cs

length-utf8 : (c : ℕ) → length (utf8 c) ≡ utf8_len c
length-utf8 c = elim (Bool-cases (ltb c 128)) [
  | inl a ↦ rw a refl
  | inr a ↦ elim (Bool-cases (ltb c 2048)) [
    | inl b ↦ rw (a, b) refl
    | inr b ↦ elim (Bool-cases (ltb c 65536)) [
      | inl d ↦ rw (a, b, d) refl
      | inr d ↦ rw (a, b, d) refl
    ]
  ]
]

length-utf8_bytes : (cs : List ℕ) → length (utf8_bytes cs) ≡ byte_len cs
unfolding byte_len
length-utf8_bytes [] = refl
length-utf8_bytes (c ∷ cs) =
    omega (arith, length-append (utf8 c) (utf8_bytes cs), length-utf8 c, length-utf8_bytes cs)

-- A segment is not empty and has letters, digits, dashes, underscores and dots.
module _ (is_alphanumeric : ℕ → Bool) where
  abbrev pub IsNameChar : ℕ → Type 0
  IsNameChar c = (is_alphanumeric c ≡ true) ⊎ (c ≡ b'-') ⊎ (c ≡ b'_') ⊎ (c ≡ b'.') ⊎ (c ≡ b'/')

  is_allowed-IsNameChar : (c : ℕ) → (is_allowed is_alphanumeric c ≡ true) ↔ IsNameChar c
  is_allowed-IsNameChar c = (forward, backward)
    where
      forward : is_allowed is_alphanumeric c ≡ true → IsNameChar c
      forward e = ground (arith, e)

      backward : IsNameChar c → is_allowed is_alphanumeric c ≡ true
      backward h = ground (arith, h)

  all_allowed-IsNameChar :
      (cs : List ℕ) → (all_allowed is_alphanumeric cs ≡ true) ↔ All IsNameChar cs
  unfolding all_allowed
  all_allowed-IsNameChar [] = ((λ e. tt), (λ h. refl))
  all_allowed-IsNameChar (c ∷ cs) =
      let here = is_allowed-IsNameChar c in
      let later = all_allowed-IsNameChar cs in
      (
        (λ e.
            let both = and_true (is_allowed is_alphanumeric c) (all_allowed is_alphanumeric cs) e in
            (here.0 both.0, later.0 both.1)),
        (λ h. rw (here.1 h.0, later.1 h.1) refl),
      )

  -- `validate` accepts a name exactly if its UTF-8 has at most 1024 bytes, each of its characters is
  -- alphanumeric or a dash, an underscore, a dot or a slash, and no segment between, before or after
  -- its slashes is empty.
  pub validate-split :
      (cs : List ℕ)
      → (validate is_alphanumeric cs ≡ true)
        ↔ ((length (utf8_bytes cs) ≤ 1024) × All IsNameChar cs × (none_empty (split cs) ≡ true))
  validate-split cs = (forward, backward)
    where
      forward :
          validate is_alphanumeric cs ≡ true
          → (length (utf8_bytes cs) ≤ 1024) × All IsNameChar cs × (none_empty (split cs) ≡ true)
      forward e =
          let (short, rest) =
            and_true (not (ltb max_object_name_length (byte_len cs)))
              (all_allowed is_alphanumeric cs && none_empty (split cs))
              (sym (validate-tests is_alphanumeric cs) ∙ e) in
          let (allowed, full) =
            and_true (all_allowed is_alphanumeric cs) (none_empty (split cs)) rest in
          (ground (arith, short, length-utf8_bytes cs), (all_allowed-IsNameChar cs).0 allowed, full)

      backward :
          (length (utf8_bytes cs) ≤ 1024) × All IsNameChar cs × (none_empty (split cs) ≡ true)
          → validate is_alphanumeric cs ≡ true
      backward (short, allowed, full) =
          let small : ltb max_object_name_length (byte_len cs) ≡ false =
            ground (arith, short, length-utf8_bytes cs) in
          rw (validate-tests is_alphanumeric cs, small, (all_allowed-IsNameChar cs).1 allowed, full)
            refl
