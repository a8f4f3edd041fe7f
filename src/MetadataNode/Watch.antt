-- ===== src/MetadataNode/Watch.antt =====
-- Which nodes own keys after a tick of the watcher.
use Prim.Native.String.{String}
use text.Mathlib.Text.{◌==◌ as str_eq}
use text.Mathlib.TextEquality.{eq_iff}
use object_store.Common.{
  ◌<◌, ℕ, ◌≡◌, refl, ◌⊎◌, List, [], ◌∷◌, Bool, true, false, ◌||◌, some, arith, All, All-mono,
  if◌then◌else◌,
}
use object_store.Common.Map.{values}
use object_store.HashRing.{HashRing, nodes, add_node, remove_node, get_owner, u64_max, vnode_key}
use object_store.HashRing.Order.{IsRing, add_node-IsRing, remove_node-IsRing}
use object_store.HashRing.Members.{
  holds, holds_self, holds-nodes, All-add_node, All-get_owner, All-remove_node,
}
use object_store.MetadataNode.{Node}
use object_store.MetadataNode.Membership.{Live, add_live, remove_gone, update_ring, tick, ticks}

module _ (xxh3 : String → ℕ) (self_id : String) (live current : List String) where
  -- A node stays if it is this one or live.
  abbrev Stays : String → Type 0
  Stays w = (str_eq w self_id || holds live w) ≡ true

  -- Before the departures: it stays, or it is one of those that the loop still comes to.
  abbrev Until : List String → String → Type 0
  Until ids w = (str_eq w self_id || (holds live w || holds ids w)) ≡ true

  All-add_live :
      (ids : List String) (r : HashRing)
      → All (λ w. holds live w ≡ true) ids
      → All (Until current) (values r.ring)
      → All (Until current) (values (add_live xxh3 self_id current ids r).ring)
  unfolding add_live
  All-add_live [] r l h = h
  All-add_live (id ∷ ids) r l h =
      All-add_live ids _ l.1 (by_test (str_eq id self_id || holds current id))
    where
      by_test : (b : Bool) → All (Until current) (values (if b then r else add_node xxh3 id r).ring)
      by_test true = h
      by_test false = All-add_node (Until current) xxh3 id r (ground (arith, l.0)) h

  All-remove_gone :
      (ids : List String) (r : HashRing)
      → All (Until ids) (values r.ring)
      → All Stays (values (remove_gone xxh3 self_id live ids r).ring)
  unfolding remove_gone holds
  All-remove_gone [] r h = All-mono (Until []) Stays (values r.ring) (λ w e. ground (arith, e)) h
  All-remove_gone (id ∷ ids) r h =
      All-remove_gone ids _ (by_test (str_eq id self_id || holds live id) refl)
    where
      by_test :
          (b : Bool)
          → (str_eq id self_id || holds live id) ≡ b
          → All (Until ids) (values (if b then r else remove_node id r).ring)
      by_test true e =
          All-mono (Until (id ∷ ids)) (Until ids) (values r.ring)
            (λ w k. ground (arith, e, k, eq_iff id w)) h
      by_test false e =
          All-mono (λ w. Until (id ∷ ids) w × (str_eq w id ≡ false)) (Until ids)
            (values (remove_node id r).ring)
            (λ w k. ground (arith, k.0, k.1, eq_iff id w, eq_iff w id))
            (All-remove_node (Until (id ∷ ids)) id r h)

-- After a tick of the watcher, whatever the ring was, every key has as its owner the node itself or
-- one that the tick found live: a node that is gone owns nothing.
pub get_owner-tick :
    (xxh3 : String → ℕ) (live : Live) (n : Node) (key w : String)
    → get_owner xxh3 key (tick xxh3 live n).ring ≡ some w
    → (w ≡ n.node_id) ⊎ (holds live.ids w ≡ true)
unfolding tick update_ring
get_owner-tick xxh3 live n key w e =
    let now = nodes n.ring in
    let added = All-add_live xxh3 n.node_id live.ids now live.ids n.ring (holds_self live.ids) (
      All-mono (λ v. holds now v ≡ true) (Until xxh3 n.node_id live.ids now now)
        (values n.ring.ring) (λ v k. ground (arith, k)) (holds-nodes n.ring)) in
    let stays =
      All-get_owner (Stays xxh3 n.node_id live.ids now) xxh3 key w
        (remove_gone xxh3 n.node_id live.ids now (add_live xxh3 n.node_id now live.ids n.ring))
        (All-remove_gone xxh3 n.node_id live.ids now now
          (add_live xxh3 n.node_id now live.ids n.ring) added)
        e in
    ground (arith, stays, eq_iff w n.node_id)

module _ (xxh3 : String → ℕ) (self_id : String) (below : (key : String) → xxh3 key < u64_max) where
  add_live-IsRing :
      (current ids : List String) (r : HashRing)
      → IsRing r.ring
      → IsRing (add_live xxh3 self_id current ids r).ring
  unfolding add_live
  add_live-IsRing current [] r h = h
  add_live-IsRing current (id ∷ ids) r h =
      add_live-IsRing current ids _ (by_test (str_eq id self_id || holds current id))
    where
      by_test : (b : Bool) → IsRing (if b then r else add_node xxh3 id r).ring
      by_test true = h
      by_test false = add_node-IsRing xxh3 id (λ i. below (vnode_key id i)) r h

  remove_gone-IsRing :
      (live ids : List String) (r : HashRing)
      → IsRing r.ring
      → IsRing (remove_gone xxh3 self_id live ids r).ring
  unfolding remove_gone
  remove_gone-IsRing live [] r h = h
  remove_gone-IsRing live (id ∷ ids) r h =
      remove_gone-IsRing live ids _ (by_test (str_eq id self_id || holds live id))
    where
      by_test : (b : Bool) → IsRing (if b then r else remove_node id r).ring
      by_test true = h
      by_test false = remove_node-IsRing id r h

-- Where no key hashes to the largest u64, any ticks of the watcher keep the ring in strictly
-- ascending order, whichever nodes come and go.
pub ticks-IsRing :
    (xxh3 : String → ℕ) (below : (key : String) → xxh3 key < u64_max) (lives : List Live) (n : Node)
    → IsRing n.ring.ring
    → IsRing (ticks xxh3 lives n).ring.ring
unfolding ticks tick update_ring
ticks-IsRing xxh3 below [] n h = h
ticks-IsRing xxh3 below (live ∷ lives) n h = ticks-IsRing xxh3 below lives (tick xxh3 live n) (
    remove_gone-IsRing xxh3 n.node_id below live.ids (nodes n.ring) _
      (add_live-IsRing xxh3 n.node_id below (nodes n.ring) live.ids n.ring h))
