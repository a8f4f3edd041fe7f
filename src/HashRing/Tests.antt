-- ===== src/HashRing/Tests.antt =====
-- Runs of the ring on two entries, with a hash that sends every key to one position.
use Prim.Native.String.{String}
use object_store.Common.{ℕ, ◌≡◌, ◌≢◌, ◌⊎◌, [], ◌∷◌, ◌&&◌, none, some, arith, ltb}
use object_store.HashRing.{
  HashRing, get_owner, add_node, remove_node, get_owned_ranges, hash_in_ranges, is_of, u64_max,
}
use object_store.HashRing.Order.{IsRing}
use object_store.HashRing.Owner.{get_owner-add_node, get_owner-remove_node, get_owner-add_node_some}
use object_store.HashRing.Ranges.{hash_in_ranges-get_owner}

abbrev to_7 : String → ℕ
to_7 key = 7

abbrev two_nodes : HashRing
two_nodes = record { ring = (5, "a") ∷ (20, "b") ∷ [] }

two_nodes-IsRing : IsRing two_nodes.ring
two_nodes-IsRing = (omega arith, (omega arith, omega arith, tt))

get_owner-add_node_example :
    (get_owner to_7 "key" (add_node to_7 "c" two_nodes) ≡ get_owner to_7 "key" two_nodes)
    ⊎ (get_owner to_7 "key" (add_node to_7 "c" two_nodes) ≡ some "c")
get_owner-add_node_example = get_owner-add_node to_7 "key" "c" two_nodes

get_owner-remove_node_example :
    (get_owner to_7 "key" (remove_node "a" two_nodes) ≢ some "a")
    × ((w : String)
        → w ≢ "a"
        → get_owner to_7 "key" two_nodes ≡ some w
        → get_owner to_7 "key" (remove_node "a" two_nodes) ≡ some w)
get_owner-remove_node_example = get_owner-remove_node to_7 "key" "a" two_nodes

get_owner-add_node_some_example : get_owner to_7 "key" (add_node to_7 "c" two_nodes) ≢ none
get_owner-add_node_some_example = get_owner-add_node_some to_7 "key" "c" two_nodes

hash_in_ranges-get_owner_example :
    hash_in_ranges 7 (get_owned_ranges "b" two_nodes)
    ≡ (is_of "b" (get_owner to_7 "key" two_nodes) && ltb 7 u64_max)
hash_in_ranges-get_owner_example =
    hash_in_ranges-get_owner to_7 "key" "b" two_nodes two_nodes-IsRing
