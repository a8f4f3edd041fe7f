-- ===== src/HashRing.antt =====
-- storage-metadata/src/hash_ring.rs: the consistent hash ring. The hash `xxh3_64` of the crate
-- `xxhash-rust` is a parameter.
pub mod Order
pub mod Owner
pub mod Members
pub mod Ranges
mod Tests
use Prim.Native.String.{String, ◌++◌ as str_append, compare as str_compare}
use text.Mathlib.Text.{◌==◌ as str_eq, is_le, char_at?}
use object_store.Common.{
  ℕ, zero, suc, ◌+◌, ◌-◌, ◌/◌, ◌%◌, ◌^◌, List, [], ◌∷◌, ◌++◌, Bool, true, false, not, ◌&&◌, ◌||◌,
  Option, none, some, map, length, ltb, leb, ◌==◌, if◌then◌else◌,
}
use object_store.Common.Map.{Map, values}

abbrev pub vnodes_per_node : ℕ
vnodes_per_node = 150

abbrev pub u64_max : ℕ
u64_max = 2 ^ 64 - 1

-- `wrapping_add(1)` on a u64.
abbrev pub wrapping_next : ℕ → ℕ
wrapping_next x = (x + 1) % 2 ^ 64

-- The ring is a `BTreeMap`: an association list in ascending order of the keys.
pub record HashRing : Type 0 where
  pub ring : Map ℕ String

unfoldable pub new : HashRing
new = record { ring = [] }

-- `BTreeMap::insert`
unfoldable pub insert : ℕ → String → Map ℕ String → Map ℕ String
insert k v [] = (k, v) ∷ []
insert k v ((j, w) ∷ m) =
    let rest = insert k v m in
    if ltb k j then (k, v) ∷ (j, w) ∷ m else if k == j then (k, v) ∷ m else (j, w) ∷ rest

-- `format!("{}", i)` of a u32: its decimal digits, the last first by recursion on the fuel.
digit : ℕ → String
digit n = elim (char_at? "0123456789" n) [ none ↦ "" | some c ↦ String.◌∷◌ c String.[] ]

decimal : ℕ → ℕ → String
decimal zero n = ""
decimal (suc fuel) n =
    let high = decimal fuel (n / 10) in
    if ltb n 10 then digit n else str_append high (digit (n % 10))

-- `format!("{}-vnode-{}", node_id, i)`; a u32 has ten digits at most.
unfoldable pub vnode_key : String → ℕ → String
unfolding digit decimal
vnode_key node_id i = str_append node_id (str_append "-vnode-" (decimal 10 i))

-- Whether an entry belongs to the node.
abbrev pub is_of : String → Option String → Bool
is_of node_id none = false
is_of node_id (some owner) = str_eq owner node_id

-- `retain(|_, v| v != node_id)`
unfoldable pub retain_others : String → Map ℕ String → Map ℕ String
retain_others node_id [] = []
retain_others node_id ((pos, owner) ∷ m) =
    if str_eq owner node_id then retain_others node_id m else (pos, owner) ∷ retain_others node_id m

unfoldable pub remove_node : String → HashRing → HashRing
remove_node node_id r = record { ring = retain_others node_id r.ring }

-- `range(hash..).next()`
unfoldable pub first_from : ℕ → Map ℕ String → Option String
first_from hash [] = none
first_from hash ((pos, owner) ∷ m) = if leb hash pos then some owner else first_from hash m

-- `values().next()`
abbrev pub first : Map ℕ String → Option String
first [] = none
first ((pos, owner) ∷ m) = some owner

-- The part of `get_owner` after the key is hashed: the first vnode at or after the position, or
-- else the first of all.
unfoldable pub owner_at : ℕ → Map ℕ String → Option String
owner_at hash ring = elim (first_from hash ring) [ some owner ↦ some owner | none ↦ first ring ]

module _ (xxh3 : String → ℕ) where
  -- The loop of `add_node`, with `n` vnodes left from `i` on.
  unfoldable pub add_vnodes : String → ℕ → ℕ → Map ℕ String → Map ℕ String
  add_vnodes node_id zero i m = m
  add_vnodes node_id (suc n) i m =
      add_vnodes node_id n (i + 1) (insert (xxh3 (vnode_key node_id i)) node_id m)

  unfoldable pub add_node : String → HashRing → HashRing
  unfolding add_vnodes
  add_node node_id r = record { ring = add_vnodes node_id vnodes_per_node 0 r.ring }

  unfoldable pub get_owner : String → HashRing → Option String
  unfolding owner_at first_from
  get_owner key r = elim r.ring [ [] ↦ none | _ ∷ _ ↦ owner_at (xxh3 key) r.ring ]

-- The ranges of one vnode, from the position of the one before it.
abbrev pub vnode_ranges : ℕ → ℕ → List (ℕ × ℕ)
vnode_ranges prev_pos pos =
    if ltb prev_pos pos
    then (wrapping_next prev_pos, wrapping_next pos) ∷ []
    else (wrapping_next prev_pos, u64_max) ∷ (0, wrapping_next pos) ∷ []

-- The loop of `get_owned_ranges`: `prev_pos` is the position of the vnode before the list.
unfoldable pub ranges_from : String → ℕ → Map ℕ String → List (ℕ × ℕ)
ranges_from node_id prev_pos [] = []
ranges_from node_id prev_pos ((pos, owner) ∷ m) =
    (if str_eq owner node_id then vnode_ranges prev_pos pos else []) ++ ranges_from node_id pos m

-- `positions[len - 1].0`
unfoldable pub last_position : ℕ → Map ℕ String → ℕ
last_position pos [] = pos
last_position pos ((next, owner) ∷ m) = last_position next m

unfoldable pub get_owned_ranges : String → HashRing → List (ℕ × ℕ)
unfolding ranges_from last_position
get_owned_ranges node_id r = elim r.ring [
  | [] ↦ []
  | (pos, owner) ∷ m ↦ ranges_from node_id (last_position pos m) ((pos, owner) ∷ m)
]

-- One range of `hash_in_ranges`.
abbrev pub in_range : ℕ → ℕ × ℕ → Bool
in_range hash (start, end) =
    if leb start end then leb start hash && ltb hash end else leb start hash || ltb hash end

unfoldable pub hash_in_ranges : ℕ → List (ℕ × ℕ) → Bool
hash_in_ranges hash [] = false
hash_in_ranges hash (r ∷ rs) = if in_range hash r then true else hash_in_ranges hash rs

-- `sort`, by insertion, and `dedup` of the node ids.
insert_sorted : String → List String → List String
insert_sorted x [] = x ∷ []
insert_sorted x (y ∷ ys) = if is_le (str_compare x y) then x ∷ y ∷ ys else y ∷ insert_sorted x ys

sort : List String → List String
unfolding insert_sorted
sort [] = []
sort (x ∷ xs) = insert_sorted x (sort xs)

dedup : List String → List String
dedup [] = []
dedup (x ∷ []) = x ∷ []
dedup (x ∷ y ∷ ys) = let rest = dedup (y ∷ ys) in if str_eq x y then rest else x ∷ rest

unfoldable pub nodes : HashRing → List String
unfolding sort dedup
nodes r = dedup (sort (values r.ring))

unfoldable pub node_count : HashRing → ℕ
node_count r = length (nodes r)

unfoldable pub is_empty : HashRing → Bool
is_empty r = elim r.ring [ [] ↦ true | _ ∷ _ ↦ false ]
