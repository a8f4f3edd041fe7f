-- ===== src/MetadataNode/Membership.antt =====
-- storage-metadata/src/cluster.rs: the ring as membership changes. Gossip is a parameter: what a
-- tick of the watcher reads of the live nodes, with the addresses that they announce.
use Prim.Native.String.{String}
use text.Mathlib.Text.{◌==◌ as str_eq}
use object_store.Common.{ℕ, List, [], ◌∷◌, Bool, true, ◌||◌, ltb, none, some, if◌then◌else◌}
use object_store.Common.Map.{Map, string_eq}
use object_store.HashRing.{HashRing, new, nodes, add_node, remove_node, get_owner, node_count}
use object_store.HashRing.Members.{holds}
use object_store.MetadataNode.{Node}

-- What a tick reads: the ids of the live nodes, and the addresses by id.
pub record Live : Type 0 where
  pub ids : List String
  pub addrs : Map String String

module _ (xxh3 : String → ℕ) (self_id : String) where
  -- The ring that `new` starts with.
  unfoldable pub own_ring : HashRing
  own_ring = add_node xxh3 self_id new

  -- The nodes that appear: `current` is the nodes before the tick.
  unfoldable pub add_live : List String → List String → HashRing → HashRing
  add_live current [] r = r
  add_live current (id ∷ ids) r =
      add_live current ids (if str_eq id self_id || holds current id then r else add_node xxh3 id r)

  -- The nodes that are gone: the loop runs through the nodes before the tick.
  unfoldable pub remove_gone : List String → List String → HashRing → HashRing
  remove_gone live [] r = r
  remove_gone live (id ∷ ids) r =
      remove_gone live ids (if str_eq id self_id || holds live id then r else remove_node id r)

  unfoldable pub update_ring : List String → HashRing → HashRing
  unfolding add_live remove_gone
  update_ring live r = remove_gone live (nodes r) (add_live (nodes r) live r)

-- A tick of the watcher. The connections are left out: a request connects where it has none.
unfoldable pub tick : (String → ℕ) → Live → Node → Node
unfolding update_ring
tick xxh3 live n = record n {
  ring = update_ring xxh3 n.node_id live.ids n.ring;
  peer_addrs = live.addrs;
}

-- The loop of the watcher, for so many ticks.
unfoldable pub ticks : (String → ℕ) → List Live → Node → Node
unfolding tick
ticks xxh3 [] n = n
ticks xxh3 (live ∷ lives) n = ticks xxh3 lives (tick xxh3 live n)

unfoldable pub is_local : (String → ℕ) → String → Node → Bool
is_local xxh3 key n = elim (get_owner xxh3 key n.ring) [
  | some owner ↦ str_eq owner n.node_id
  | none ↦ true
]

-- The addresses of the others.
unfoldable pub others : String → Map String String → List String
others self_id [] = []
others self_id ((id, addr) ∷ m) =
    if str_eq id self_id then others self_id m else addr ∷ others self_id m

unfoldable pub get_all_peer_addrs : Node → List String
unfolding others
get_all_peer_addrs n = others n.node_id n.peer_addrs

unfoldable pub is_clustered : Node → Bool
is_clustered n = ltb 1 (node_count n.ring)
