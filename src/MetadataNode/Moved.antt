-- ===== src/MetadataNode/Moved.antt =====
-- What a node receives of another's objects.
use Prim.Native.String.{String}
use object_store.Common.{ℕ, ◌≡◌, refl, ap, ◌∙◌, List, [], ◌∷◌, ◌++◌, some, map, All}
use object_store.HashRing.{HashRing, get_owner, get_owned_ranges}
use object_store.HashRing.Order.{IsRing}
use object_store.MetadataStore.Types.{MetaChunk, MetaObject}
use object_store.MetadataStore.Migration.{objects_in_hash_ranges}
use object_store.MetadataStore.Owned.{GoesTo, objects_in_hash_ranges-GoesTo}
use object_store.MetadataNode.{Node}
use object_store.MetadataNode.Migrate.{
  TransferPartitionEntry, chunk_entries, stream_entries, transfer_partition, received_objects,
}

-- An object as it arrives: its size is not sent.
abbrev pub arrived : MetaObject × List MetaChunk → MetaObject
arrived p = record (p.0) { total_size = 0 }

received_objects-chunk_entries :
    (cs : List MetaChunk) (es : List TransferPartitionEntry)
    → received_objects (chunk_entries cs ++ es) ≡ received_objects es
unfolding received_objects chunk_entries
received_objects-chunk_entries [] es = refl
received_objects-chunk_entries (c ∷ cs) es = received_objects-chunk_entries cs es

received_objects-stream_entries :
    (ps : List (MetaObject × List MetaChunk))
    → received_objects (stream_entries ps) ≡ map arrived ps
unfolding received_objects stream_entries
received_objects-stream_entries [] = refl
received_objects-stream_entries ((o, cs) ∷ ps) =
    ap (λ (os : List MetaObject). record o { total_size = 0 } ∷ os)
      (received_objects-chunk_entries cs (stream_entries ps) ∙ received_objects-stream_entries ps)

abbrev pub IsOwned : (String → ℕ) → String → HashRing → MetaObject → Type 0
IsOwned xxh3 node r o = get_owner xxh3 o.name r ≡ some node

All-arrived :
    (xxh3 : String → ℕ) (node : String) (r : HashRing) (from : Node)
    (ps : List (MetaObject × List MetaChunk))
    → All (GoesTo xxh3 node r from.metadata_store.chunks) ps
    → All (IsOwned xxh3 node r) (map arrived ps)
All-arrived xxh3 node r from [] h = tt
All-arrived xxh3 node r from ((o, cs) ∷ ps) h = (h.0.0, All-arrived xxh3 node r from ps h.1)

-- What a node receives for the ranges that it owns on a ring in order are the objects that
-- `objects_in_hash_ranges` picks at the sender, in their order, with their chunk ids and checksums but
-- the size 0; and the ring gives the name of each to the receiver.
pub received_objects-transfer_partition :
    (xxh3 : String → ℕ) (node : String) (r : HashRing) (from : Node)
    → IsRing r.ring
    → (received_objects (transfer_partition xxh3 (get_owned_ranges node r) from)
        ≡ map arrived (objects_in_hash_ranges xxh3 (get_owned_ranges node r) from.metadata_store))
      × All
          (IsOwned xxh3 node r)
          (received_objects (transfer_partition xxh3 (get_owned_ranges node r) from))
unfolding transfer_partition
received_objects-transfer_partition xxh3 node r from h =
    let picked = objects_in_hash_ranges xxh3 (get_owned_ranges node r) from.metadata_store in
    let e = received_objects-stream_entries picked in
    (
      e,
      rw e (
          All-arrived xxh3 node r from picked
            (objects_in_hash_ranges-GoesTo xxh3 node r from.metadata_store h)),
    )
