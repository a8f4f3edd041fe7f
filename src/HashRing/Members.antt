-- ===== src/HashRing/Members.antt =====
-- Which nodes a ring has: a predicate of every owner of a vnode, through joining and leaving.
use Prim.Native.String.{String}
use text.Mathlib.Text.{◌==◌ as str_eq}
use text.Mathlib.TextEquality.{eq_iff}
use object_store.Common.{
  ℕ, zero, suc, ◌+◌, ◌≡◌, refl, sym, ◌∙◌, subst, List, [], ◌∷◌, Bool, true, false, ◌||◌, Option,
  none, some, arith, All, All-mono, if◌then◌else◌, ltb, leb, ◌==◌,
}
use object_store.Common.Map.{Map, values}
use object_store.HashRing.{
  HashRing, insert, insert_sorted, sort, dedup, nodes, add_vnodes, add_node, retain_others,
  remove_node, first_from, first, owner_at, get_owner, vnodes_per_node, vnode_key,
}
use object_store.HashRing.Owner.{get_owner-eq}

-- `contains` of a list of node ids.
unfoldable pub holds : List String → String → Bool
holds [] id = false
holds (i ∷ ids) id = if str_eq i id then true else holds ids id

holds-insert_sorted :
    (x w : String) (ys : List String) → holds (insert_sorted x ys) w ≡ (str_eq x w || holds ys w)
unfolding holds insert_sorted
holds-insert_sorted x w [] = ground arith
holds-insert_sorted x w (y ∷ ys) = ground (arith, holds-insert_sorted x w ys)

holds-sort : (w : String) (xs : List String) → holds (sort xs) w ≡ holds xs w
unfolding holds sort
holds-sort w [] = refl
holds-sort w (x ∷ xs) = ground (arith, holds-sort w xs, holds-insert_sorted x w (sort xs))

holds-dedup : (w : String) (xs : List String) → holds (dedup xs) w ≡ holds xs w
unfolding holds dedup
holds-dedup w [] = refl
holds-dedup w (x ∷ []) = refl
holds-dedup w (x ∷ y ∷ ys) = ground (arith, holds-dedup w (y ∷ ys), eq_iff x y)

pub holds_self : (xs : List String) → All (λ w. holds xs w ≡ true) xs
unfolding holds
holds_self [] = tt
holds_self (x ∷ xs) = (
  ground (arith, eq_iff x x),
  All-mono (λ w. holds xs w ≡ true) (λ w. holds (x ∷ xs) w ≡ true) xs (λ w h. ground arith)
      (holds_self xs),
)

-- `nodes` has every owner.
pub holds-nodes : (r : HashRing) → All (λ w. holds (nodes r) w ≡ true) (values r.ring)
unfolding nodes
holds-nodes r =
    All-mono (λ w. holds (values r.ring) w ≡ true) (λ w. holds (nodes r) w ≡ true) (values r.ring)
      (λ w h. cc (h, holds-dedup w (sort (values r.ring)), holds-sort w (values r.ring)))
      (holds_self (values r.ring))

module _ (P : String → Type 0) where
  All-insert :
      (k : ℕ) (v : String) (m : Map ℕ String)
      → P v
      → All P (values m)
      → All P (values (insert k v m))
  unfolding insert
  All-insert k v [] p h = (p, tt)
  All-insert k v ((j, w) ∷ m) p h = by_order (All-insert k v m p h.1) (ltb k j) (k == j)
    where
      by_order :
          All P (values (insert k v m))
          → (a b : Bool)
          → All P (
              values (
                if a then (k, v) ∷ (j, w) ∷ m else if b then (k, v) ∷ m else (j, w) ∷ insert k v m))
      by_order rest true b = (p, h)
      by_order rest false true = (p, h.1)
      by_order rest false false = (h.0, rest)

  All-add_vnodes :
      (xxh3 : String → ℕ) (id : String) (n i : ℕ) (m : Map ℕ String)
      → P id
      → All P (values m)
      → All P (values (add_vnodes xxh3 id n i m))
  unfolding add_vnodes
  All-add_vnodes xxh3 id zero i m p h = h
  All-add_vnodes xxh3 id (suc n) i m p h =
      All-add_vnodes xxh3 id n (i + 1) (insert (xxh3 (vnode_key id i)) id m) p
        (All-insert (xxh3 (vnode_key id i)) id m p h)

  pub All-add_node :
      (xxh3 : String → ℕ) (id : String) (r : HashRing)
      → P id
      → All P (values r.ring)
      → All P (values (add_node xxh3 id r).ring)
  unfolding add_node
  All-add_node xxh3 id r p h = All-add_vnodes xxh3 id vnodes_per_node 0 r.ring p h

  All-first_from :
      (hash : ℕ) (w : String) (m : Map ℕ String)
      → All P (values m)
      → first_from hash m ≡ some w
      → P w
  unfolding first_from
  All-first_from hash w [] h e = absurd (cc e)
  All-first_from hash w ((pos, v) ∷ m) h e =
      by_position (All-first_from hash w m h.1) (leb hash pos) e
    where
      by_position :
          (first_from hash m ≡ some w → P w)
          → (b : Bool) → (if b then some v else first_from hash m) ≡ some w
          → P w
      by_position later true e = let same : v ≡ w = cc e in subst P same h.0
      by_position later false e = later e

  All-first : (w : String) (m : Map ℕ String) → All P (values m) → first m ≡ some w → P w
  All-first w [] h e = absurd (cc e)
  All-first w ((pos, v) ∷ m) h e = let same : v ≡ w = cc e in subst P same h.0

  All-owner_at :
      (hash : ℕ) (w : String) (m : Map ℕ String) → All P (values m) → owner_at hash m ≡ some w → P w
  unfolding owner_at
  All-owner_at hash w m h e = by_first (first_from hash m) refl e
    where
      by_first :
          (o : Option String)
          → first_from hash m ≡ o
          → elim o [ some v ↦ some v | none ↦ first m ] ≡ some w
          → P w
      by_first (some v) f e = All-first_from hash w m h (f ∙ e)
      by_first none f e = All-first w m h e

  -- An owner that `get_owner` names has the predicate.
  pub All-get_owner :
      (xxh3 : String → ℕ) (key w : String) (r : HashRing)
      → All P (values r.ring)
      → get_owner xxh3 key r ≡ some w
      → P w
  All-get_owner xxh3 key w r h e =
      All-owner_at (xxh3 key) w r.ring h (sym (get_owner-eq xxh3 key r) ∙ e)

All-retain :
    (P : String → Type 0) (id : String) (m : Map ℕ String)
    → All P (values m)
    → All (λ w. P w × (str_eq w id ≡ false)) (values (retain_others id m))
unfolding retain_others
All-retain P id [] h = tt
All-retain P id ((pos, v) ∷ m) h = by_owner (All-retain P id m h.1) (str_eq v id) refl
  where
    by_owner :
        All (λ w. P w × (str_eq w id ≡ false)) (values (retain_others id m))
        → (b : Bool) → str_eq v id ≡ b
        → All
            (λ w. P w × (str_eq w id ≡ false))
            (values (if b then retain_others id m else (pos, v) ∷ retain_others id m))
    by_owner rest true b = rest
    by_owner rest false b = ((h.0, b), rest)

-- Once a node has left, it owns nothing.
pub All-remove_node :
    (P : String → Type 0) (id : String) (r : HashRing)
    → All P (values r.ring)
    → All (λ w. P w × (str_eq w id ≡ false)) (values (remove_node id r).ring)
unfolding remove_node
All-remove_node P id r h = All-retain P id r.ring h
