-- ===== src/StorageNode/Config/Load.antt =====
-- What a configuration that is loaded is like.
use Prim.Native.String.{String, ◌++◌ as text_append}
use text.Mathlib.Text.{starts_with}
use text.Mathlib.TextEquality.{starts_with_iff}
use text.Mathlib.TextLemmas.{prefix-append, cons-append}
use object_store.Common.{
  ℕ, ◌<◌, ◌≡◌, ◌≢◌, refl, sym, ◌∙◌, subst, List, [], ◌∷◌, map, true, false, ◌&&◌, Bool-cases, inl,
  inr, Option, none, some, arith, All, length, ◌==◌, ==_iff, ◌^◌, ◌-◌, if◌then◌else◌,
}
use object_store.Settings.{
  Env, is_empty, trim, trim_start, trim_end, split_commas, parse_unsigned, parse_bool,
}
use object_store.StorageNode.Config.{
  StorageNodeConfig, empty_address, Loaded, loaded, failed, has_scheme, with_scheme, any_empty,
  validate, override, urls_of, apply_env_overrides, normalized, checked, load,
}

abbrev pub HasScheme : String → Type 0
HasScheme address = has_scheme address ≡ true

with_scheme-HasScheme : (address : String) → HasScheme (with_scheme address)
with_scheme-HasScheme address = elim (Bool-cases (has_scheme address)) [
  | inl t ↦ rw t t
  | inr f ↦
      let here : starts_with (text_append "http://" address) "http://" ≡ true =
        (starts_with_iff (text_append "http://" address) "http://").1
          (prefix-append "http://" address) in
      rw f (rw here refl)
]

-- A text that begins with an h is not blank.
abbrev pub BeginsH : String → Type 0
BeginsH s = (u : String) × (s ≡ String.◌∷◌ "h" u)

trim-BeginsH : (s : String) → BeginsH s → is_empty (trim s) ≡ false
unfolding trim_start trim_end
trim-BeginsH s (u, e) = rw e (by_rest (trim_end u))
  where
    by_rest :
        (rest : String)
        → is_empty (if is_empty rest && false then String.[] else String.◌∷◌ "h" rest) ≡ false
    by_rest String.[] = refl
    by_rest (String.◌∷◌ c rest) = refl

HasScheme-BeginsH : (address : String) → HasScheme address → BeginsH address
HasScheme-BeginsH address h = elim (Bool-cases (starts_with address "http://")) [
  | inl t ↦
      let (u, e) = (starts_with_iff address "http://").0 t in
      (text_append "ttp://" u, sym e ∙ cons-append "h" "ttp://" u)
  | inr f ↦
      let t : starts_with address "https://" ≡ true = rw f at h in
      let (u, e) = (starts_with_iff address "https://").0 t in
      (text_append "ttps://" u, sym e ∙ cons-append "h" "ttps://" u)
]

any_empty-HasScheme :
    (addresses : List String) → All HasScheme addresses → any_empty addresses ≡ false
unfolding any_empty
any_empty-HasScheme [] h = refl
any_empty-HasScheme (a ∷ addresses) (here, rest) =
    let blank = trim-BeginsH a (HasScheme-BeginsH a here) in
    rw blank (any_empty-HasScheme addresses rest)

map-HasScheme :
    (f : String → String) (addresses : List String)
    → ((a : String) → HasScheme (f a))
    → All HasScheme (map f addresses)
map-HasScheme f [] h = tt
map-HasScheme f (a ∷ addresses) h = (h a, map-HasScheme f addresses h)

module _ {A : Type 0} (P : StorageNodeConfig → Type 0) where
  -- A variable keeps what its value keeps.
  override-keeps :
      (env : Env) (name : String) (parse : String → Option A)
      (set : A → StorageNodeConfig → StorageNodeConfig) (c : StorageNodeConfig)
      → P c
      → ((text : String) (a : A) → parse text ≡ some a → P (set a c))
      → P (override env name parse set c)
  override-keeps env name parse set c h k = by_value (env name)
    where
      by_parse :
          (text : String) (r : Option A)
          → parse text ≡ r
          → P (elim r [ none ↦ c | some a ↦ set a c ])
      by_parse text none e = h
      by_parse text (some a) e = k text a e

      by_value :
          (v : Option String)
          → P (elim v [ none ↦ c | some text ↦ elim (parse text) [ none ↦ c | some a ↦ set a c ] ])
      by_value none = h
      by_value (some text) = by_parse text (parse text) refl

abbrev Schemes : StorageNodeConfig → Type 0
Schemes c = All HasScheme c.metadata_addresses

apply_env_overrides-Schemes :
    (env : Env) (c0 : StorageNodeConfig) → Schemes c0 → Schemes (apply_env_overrides env c0)
unfolding apply_env_overrides
apply_env_overrides-Schemes env c0 h0 = h7
  where
    by_urls : (text : String) (urls : List String) → urls_of text ≡ some urls → All HasScheme urls
    by_urls text urls e =
        let same : map (λ s. with_scheme (trim s)) (split_commas text) ≡ urls = cc e in
        subst (All HasScheme) same (
          map-HasScheme (λ s. with_scheme (trim s)) (split_commas text)
            (λ s. with_scheme-HasScheme (trim s)))

    c1 : StorageNodeConfig
    c1 = override env "METADATA_URLS" urls_of (λ urls c. record c { metadata_addresses = urls }) c0

    h1 : Schemes c1
    h1 =
        override-keeps Schemes env "METADATA_URLS" urls_of
          (λ urls c. record c { metadata_addresses = urls }) c0 h0 by_urls

    c2 : StorageNodeConfig
    c2 = override env "GRPC_PORT" (parse_unsigned (2 ^ 16 - 1)) (λ n c. record c { port = n }) c1

    h2 : Schemes c2
    h2 =
        override-keeps Schemes env "GRPC_PORT" (parse_unsigned (2 ^ 16 - 1))
          (λ n c. record c { port = n }) c1 h1 (λ t a e. h1)

    c3 : StorageNodeConfig
    c3 =
        override env "METRICS_PORT" (parse_unsigned (2 ^ 16 - 1))
          (λ n c. record c { metrics_port = n }) c2

    h3 : Schemes c3
    h3 =
        override-keeps Schemes env "METRICS_PORT" (parse_unsigned (2 ^ 16 - 1))
          (λ n c. record c { metrics_port = n }) c2 h2 (λ t a e. h2)

    c4 : StorageNodeConfig
    c4 =
        override env "ALLOCATED_SLOTS" (parse_unsigned (2 ^ 64 - 1))
          (λ n c. record c { allocated_slots = some n }) c3

    h4 : Schemes c4
    h4 =
        override-keeps Schemes env "ALLOCATED_SLOTS" (parse_unsigned (2 ^ 64 - 1))
          (λ n c. record c { allocated_slots = some n }) c3 h3 (λ t a e. h3)

    c5 : StorageNodeConfig
    c5 =
        override env "FSYNC_EVERY_N_WRITES" (parse_unsigned (2 ^ 64 - 1))
          (λ n c. record c { fsync_every_n_writes = some n }) c4

    h5 : Schemes c5
    h5 =
        override-keeps Schemes env "FSYNC_EVERY_N_WRITES" (parse_unsigned (2 ^ 64 - 1))
          (λ n c. record c { fsync_every_n_writes = some n }) c4 h4 (λ t a e. h4)

    c6 : StorageNodeConfig
    c6 = override env "FSYNC_ON_DELETE" parse_bool (λ b c. record c { fsync_on_delete = b }) c5

    h6 : Schemes c6
    h6 =
        override-keeps Schemes env "FSYNC_ON_DELETE" parse_bool
          (λ b c. record c { fsync_on_delete = b }) c5 h5 (λ t a e. h5)

    c7 : StorageNodeConfig
    c7 = override env "FAST_RECOVER" parse_bool (λ b c. record c { fast_recover = b }) c6

    h7 : Schemes c7
    h7 =
        override-keeps Schemes env "FAST_RECOVER" parse_bool (λ b c. record c { fast_recover = b })
          c6 h6 (λ t a e. h6)

abbrev pub IsUsable : StorageNodeConfig → Type 0
IsUsable c =
    (0 < length c.metadata_addresses)
    × All HasScheme c.metadata_addresses
    × (0 < c.port)
    × (0 < c.metrics_port)

abbrev pub Ends : Loaded StorageNodeConfig → Type 0
Ends (loaded c) = IsUsable c
Ends (failed e) = e ≢ empty_address

is_not_zero : (n : ℕ) → (n == 0) ≡ false → 0 < n
is_not_zero n e = ground (arith, ==_iff n 0)

abbrev with_fields : StorageNodeConfig → List String → ℕ → ℕ → StorageNodeConfig
with_fields c addresses p q = record c {
  metadata_addresses = addresses;
  port = p;
  metrics_port = q;
}

validate-Ends :
    (c : StorageNodeConfig) (addresses : List String) (p q : ℕ)
    → All HasScheme addresses
    → Ends (checked (with_fields c addresses p q) (validate (with_fields c addresses p q)))
unfolding validate
validate-Ends c [] p q h = λ e. absurd (cc e)
validate-Ends c (a ∷ addresses) p q h =
    let full = any_empty-HasScheme (a ∷ addresses) h in
    rw full (elim (Bool-cases (p == 0)) [
      | inl e ↦ rw e (λ k. absurd (cc k))
      | inr e ↦ elim (Bool-cases (q == 0)) [
        | inl f ↦ rw (e, f) (λ k. absurd (cc k))
        | inr f ↦ rw (e, f) (omega arith, h, is_not_zero p e, is_not_zero q f)
      ]
    ])

-- Whatever the file and the environment have, a configuration that is loaded has an address, only
-- addresses that begin with http:// or https://, and ports above 0; and loading never fails with
-- the error of an empty address.
pub load-Ends :
    (from_yaml : String → Option StorageNodeConfig) (env : Env) (contents : Option String)
    → Ends (load from_yaml env contents)
unfolding load
load-Ends from_yaml env none = λ e. absurd (cc e)
load-Ends from_yaml env (some contents) = by_parse (from_yaml contents) refl
  where
    by_parse :
        (r : Option StorageNodeConfig)
        → from_yaml contents ≡ r
        → Ends (load from_yaml env (some contents))
    by_parse none e = rw (e, load) (λ k. absurd (cc k))
    by_parse (some c) e =
        let d = apply_env_overrides env (normalized c) in
        let schemes =
          apply_env_overrides-Schemes env (normalized c)
            (map-HasScheme with_scheme c.metadata_addresses with_scheme-HasScheme) in
        rw (e, load) (validate-Ends d d.metadata_addresses d.port d.metrics_port schemes)
