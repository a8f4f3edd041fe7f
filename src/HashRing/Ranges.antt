-- ===== src/HashRing/Ranges.antt =====
-- The hash ranges of a node against the owner of a position.
use Prim.Native.String.{String}
use text.Mathlib.Text.{◌==◌ as str_eq}
use object_store.Common.{
  ℕ, ◌+◌, ◌≤◌, ◌<◌, ◌≡◌, ◌≢◌, refl, inl, inr, List, [], ◌∷◌, ◌++◌, true, false, ◌&&◌, ◌||◌, none,
  arith, ltb, dec_lt, lt→ltb, Bool-cases, leb,
}
use object_store.Common.Map.{Map}
use object_store.HashRing.{
  HashRing, first_from, owner_at, get_owner, get_owned_ranges, hash_in_ranges, vnode_ranges,
  ranges_from, last_position, is_of, u64_max, wrapping_next,
}
use object_store.HashRing.Order.{Ascends, IsRing}
use object_store.HashRing.Owner.{get_owner-eq}

hash_in_ranges-append :
    (h : ℕ) (xs ys : List (ℕ × ℕ))
    → hash_in_ranges h (xs ++ ys) ≡ (hash_in_ranges h xs || hash_in_ranges h ys)
unfolding hash_in_ranges
hash_in_ranges-append h [] ys = refl
hash_in_ranges-append h (x ∷ xs) ys = ground (arith, hash_in_ranges-append h xs ys)

-- A vnode after another has the positions between them, its own included.
between :
    (h prev pos : ℕ)
    → prev < pos
    → pos < u64_max
    → hash_in_ranges h (vnode_ranges prev pos) ≡ (ltb prev h && leb h pos)
unfolding hash_in_ranges
between h prev pos lt max =
    let p : wrapping_next prev ≡ prev + 1 = omega arith in
    let q : wrapping_next pos ≡ pos + 1 = omega arith in
    let t : ltb prev pos ≡ true = lt→ltb prev pos lt in rw t (rw (p, q) (ground arith))

-- The first vnode has the positions from the last one round.
around :
    (h last pos : ℕ)
    → pos ≤ last
    → last < u64_max
    → hash_in_ranges h (vnode_ranges last pos) ≡ ((ltb last h && ltb h u64_max) || leb h pos)
unfolding hash_in_ranges
around h last pos le max =
    let p : wrapping_next last ≡ last + 1 = omega arith in
    let q : wrapping_next pos ≡ pos + 1 = omega arith in
    let t : ltb last pos ≡ false = ground arith in rw t (rw (p, q) (ground arith))

ranges_from-first_from :
    (h prev : ℕ) (node : String) (m : Map ℕ String)
    → Ascends prev m
    → hash_in_ranges h (ranges_from node prev m) ≡ (ltb prev h && is_of node (first_from h m))
unfolding ranges_from first_from hash_in_ranges
ranges_from-first_from h prev node [] a = ground arith
ranges_from-first_from h prev node ((pos, owner) ∷ m) a =
    let rest = ranges_from-first_from h pos node m a.2 in
    elim (Bool-cases (str_eq owner node)) [
      | inl t ↦
          rw (t, hash_in_ranges-append h (vnode_ranges prev pos))
            (rw (between h prev pos a.0 a.1, rest) (ground arith))
      | inr t ↦ rw t (rw rest (ground arith))
    ]

-- The last position is at or above the others, and nothing is found above it only.
last_position-lt :
    (lo : ℕ) (m : Map ℕ String)
    → lo < u64_max
    → Ascends lo m
    → (lo ≤ last_position lo m) × (last_position lo m < u64_max)
unfolding last_position
last_position-lt lo [] h a = omega arith
last_position-lt lo ((pos, owner) ∷ m) h a =
    let k = last_position-lt pos m a.1 a.2 in (omega arith, k.1)

first_from-last :
    (h lo : ℕ) (m : Map ℕ String)
    → Ascends lo m
    → lo < h
    → (last_position lo m < h → first_from h m ≡ none)
      × (h ≤ last_position lo m → first_from h m ≢ none)
unfolding last_position first_from
first_from-last h lo [] a below = ((λ _. refl), (λ le. absurd (omega arith)))
first_from-last h lo ((pos, owner) ∷ m) a below = elim (dec_lt pos h) [
  | yes less ↦
      let skip : leb h pos ≡ false = ground arith in rw skip (first_from-last h pos m a.2 less)
  | no more ↦
      let take : leb h pos ≡ true = ground arith in
      let k = last_position-lt pos m a.1 a.2 in
      rw take ((λ less. absurd (omega arith)), (λ _ e. cc))
]

owned :
    (h : ℕ) (node : String) (m : Map ℕ String)
    → IsRing m
    → hash_in_ranges h (get_owned_ranges node (record { ring = m }))
      ≡ (is_of node (owner_at h m) && ltb h u64_max)
unfolding get_owned_ranges hash_in_ranges owner_at first_from
owned h node [] ok = refl
owned h node ((pos, owner) ∷ m) ok =
    let rest = ranges_from-first_from h pos node m ok.1 in
    let above = last_position-lt pos m ok.0 ok.1 in
    let gone = λ (p : pos < h). (first_from-last h pos m ok.1 p).0 in
    let there = λ (p : pos < h). (first_from-last h pos m ok.1 p).1 in
    elim (Bool-cases (str_eq owner node)) [
      | inl t ↦
          rw (t, hash_in_ranges-append h (vnode_ranges (last_position pos m) pos))
            (rw (around h (last_position pos m) pos above.0 above.1, rest)
              (ground (arith, gone, there)))
      | inr t ↦ rw t (rw rest (ground (arith, gone, there)))
    ]

-- For a ring in order whose positions are below the largest u64: the position of a key lies in the
-- ranges of a node exactly if the node owns the key, but for the largest u64, which lies in the
-- ranges of no node.
pub hash_in_ranges-get_owner :
    (xxh3 : String → ℕ) (key node : String) (r : HashRing)
    → IsRing r.ring
    → hash_in_ranges (xxh3 key) (get_owned_ranges node r)
      ≡ (is_of node (get_owner xxh3 key r) && ltb (xxh3 key) u64_max)
hash_in_ranges-get_owner xxh3 key node r ok =
    rw (get_owner-eq xxh3 key r) (owned (xxh3 key) node r.ring ok)
