-- ===== src/HashRing/Order.antt =====
-- The order of the ring, which joining and leaving nodes keep.
use Prim.Native.String.{String}
use text.Mathlib.Text.{◌==◌ as str_eq}
use object_store.Common.{ℕ, zero, suc, ◌+◌, ◌≤◌, ◌<◌, [], ◌∷◌, arith, Bool-cases, inl, inr}
use object_store.Common.Map.{Map}
use object_store.HashRing.{
  HashRing, insert, retain_others, remove_node, add_vnodes, add_node, vnodes_per_node, vnode_key,
  u64_max,
}

-- Positions in strictly ascending order, above `lo` and below the largest u64.
abbrev pub Ascends : ℕ → Map ℕ String → Type 0
Ascends lo [] = Unit
Ascends lo ((pos, owner) ∷ m) = (lo < pos) × (pos < u64_max) × Ascends pos m

abbrev pub IsRing : Map ℕ String → Type 0
IsRing [] = Unit
IsRing ((pos, owner) ∷ m) = (pos < u64_max) × Ascends pos m

insert-Ascends :
    (lo k : ℕ) (v : String) (m : Map ℕ String)
    → lo < k
    → k < u64_max
    → Ascends lo m
    → Ascends lo (insert k v m)
unfolding insert
insert-Ascends lo k v [] h max a = (h, max, tt)
insert-Ascends lo k v ((j, w) ∷ m) h max a = ground (arith, insert-Ascends j k v m)

insert-IsRing :
    (k : ℕ) (v : String) (m : Map ℕ String) → k < u64_max → IsRing m → IsRing (insert k v m)
unfolding insert
insert-IsRing k v [] max a = (max, tt)
insert-IsRing k v ((j, w) ∷ m) max a = ground (arith, insert-Ascends j k v m)

Ascends-mono : (lo hi : ℕ) (m : Map ℕ String) → lo ≤ hi → Ascends hi m → Ascends lo m
Ascends-mono lo hi [] h a = tt
Ascends-mono lo hi ((j, w) ∷ m) h a = (omega arith, a.1, a.2)

retain-Ascends :
    (lo : ℕ) (node : String) (m : Map ℕ String) → Ascends lo m → Ascends lo (retain_others node m)
unfolding retain_others
retain-Ascends lo node [] a = tt
retain-Ascends lo node ((j, w) ∷ m) a =
    let rest = retain-Ascends j node m a.2 in
    elim (Bool-cases (str_eq w node)) [
      | inl t ↦ rw t (Ascends-mono lo j (retain_others node m) (omega arith) rest)
      | inr t ↦ rw t (a.0, a.1, rest)
    ]

IsRing-Ascends : (lo : ℕ) (m : Map ℕ String) → Ascends lo m → IsRing m
IsRing-Ascends lo [] a = tt
IsRing-Ascends lo ((j, w) ∷ m) a = (a.1, a.2)

retain-IsRing : (node : String) (m : Map ℕ String) → IsRing m → IsRing (retain_others node m)
unfolding retain_others
retain-IsRing node [] a = tt
retain-IsRing node ((j, w) ∷ m) a =
    let rest = retain-Ascends j node m a.1 in
    elim (Bool-cases (str_eq w node)) [
      | inl t ↦ rw t (IsRing-Ascends j (retain_others node m) rest)
      | inr t ↦ rw t (a.0, rest)
    ]

-- A node that leaves keeps the ring in order.
pub remove_node-IsRing :
    (node : String) (r : HashRing) → IsRing r.ring → IsRing (remove_node node r).ring
unfolding remove_node
remove_node-IsRing node r a = retain-IsRing node r.ring a

module _ (xxh3 : String → ℕ) (node : String)
    (below : (i : ℕ) → xxh3 (vnode_key node i) < u64_max) where
  add_vnodes-IsRing : (n i : ℕ) (m : Map ℕ String) → IsRing m → IsRing (add_vnodes xxh3 node n i m)
  unfolding add_vnodes
  add_vnodes-IsRing zero i m a = a
  add_vnodes-IsRing (suc n) i m a =
      add_vnodes-IsRing n (i + 1) _ (insert-IsRing (xxh3 (vnode_key node i)) node m (below i) a)

  -- So does a node that joins, if none of its vnodes is at the largest u64.
  pub add_node-IsRing : (r : HashRing) → IsRing r.ring → IsRing (add_node xxh3 node r).ring
  unfolding add_node
  add_node-IsRing r a = add_vnodes-IsRing vnodes_per_node 0 r.ring a
