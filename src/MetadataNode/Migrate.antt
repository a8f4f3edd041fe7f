-- ===== src/MetadataNode/Migrate.antt =====
-- Moving objects to a node that joins: storage-metadata/src/migration.rs, and `transfer_partition`
-- and `broadcast_chunk_index` of cluster_service.rs.
use Prim.Native.String.{String}
use object_store.Common.{
  ℕ, List, [], ◌∷◌, ◌++◌, Bool, true, false, ◌&&◌, none, some, map, if◌then◌else◌,
}
use object_store.Common.Map.{string_eq, lookup, insert}
use object_store.Common.Io.{ok}
use object_store.HashRing.{get_owned_ranges}
use object_store.MetadataStore.Types.{MetaChunk, MetaObject, ChunkStatus, Json}
use object_store.MetadataStore.Migration.{objects_in_hash_ranges, ingest_partition}
use object_store.ChunkIndex.{bulk_insert, entries}
use object_store.MetadataNode.{response, Node, Serve, on_index}
use object_store.MetadataNode.Cluster.{Cluster}
use object_store.MetadataNode.Membership.{get_all_peer_addrs, is_clustered}
use object_store.MetadataNode.Global.{broadcast}

pub data TransferPartitionEntry : Type 0 where
  object_entry : (name : String) (checksum : ℕ) (chunk_ids : List ℕ) → TransferPartitionEntry
  chunk_entry :
      (id : ℕ) (object_name : String) (checksum : ℕ) (storage_node_ids : List ℕ)
      → TransferPartitionEntry

unfoldable pub chunk_entries : List MetaChunk → List TransferPartitionEntry
chunk_entries [] = []
chunk_entries (c ∷ cs) =
    chunk_entry c.id c.object_name c.checksum c.storage_nodes ∷ chunk_entries cs

-- The objects that are picked, each followed by its chunks.
unfoldable pub stream_entries : List (MetaObject × List MetaChunk) → List TransferPartitionEntry
unfolding chunk_entries
stream_entries [] = []
stream_entries ((o, cs) ∷ rest) =
    object_entry o.name o.checksum o.chunks ∷ (chunk_entries cs ++ stream_entries rest)

unfoldable pub transfer_partition : (String → ℕ) → List (ℕ × ℕ) → Node → List TransferPartitionEntry
unfolding stream_entries
transfer_partition xxh3 ranges n =
    stream_entries (objects_in_hash_ranges xxh3 ranges n.metadata_store)

unfoldable pub received_objects : List TransferPartitionEntry → List MetaObject
received_objects [] = []
received_objects (object_entry name checksum ids ∷ es) =
    record { name = name; checksum = checksum; chunks = ids; total_size = 0 } ∷ received_objects es
received_objects (chunk_entry id name checksum nodes ∷ es) = received_objects es

unfoldable pub received_chunks : List TransferPartitionEntry → List MetaChunk
received_chunks [] = []
received_chunks (object_entry name checksum ids ∷ es) = received_chunks es
received_chunks (chunk_entry id name checksum nodes ∷ es) =
    record {
      id = id;
      object_name = name;
      checksum = checksum;
      storage_nodes = nodes;
      status = ChunkStatus.confirmed;
    }
    ∷ received_chunks es

abbrev pub is_empty {ℓ} : {A : Type ℓ} → List A → Bool
is_empty [] = true
is_empty (a ∷ as_) = false

abbrev pub index_entry : MetaChunk → ℕ × String
index_entry c = (c.id, c.object_name)

-- `broadcast_chunk_index` of a peer.
unfoldable pub receive_chunk_index : List (ℕ × String) → Serve (Unit {0})
receive_chunk_index es n = (response tt, on_index (bulk_insert es) n)

unfoldable pub broadcast_chunk_index_update : List (ℕ × String) → List String → Cluster → Cluster
unfolding broadcast receive_chunk_index
broadcast_chunk_index_update es peers c = broadcast (λ _. receive_chunk_index es) peers c

module _ (xxh3 : String → ℕ) (json : Json) where
  -- What the entries do to the node, if they can be saved.
  unfoldable pub ingest : List TransferPartitionEntry → Node → Bool × Node
  unfolding received_objects received_chunks
  ingest es n =
      let q = ingest_partition json (received_objects es) (received_chunks es) n.metadata_store in
      elim q.0 [
        | ok _ ↦ (
          true,
          on_index (bulk_insert (map index_entry (received_chunks es)))
              (record n { metadata_store = q.1 }),
        )
        | _ ↦ (false, record n { metadata_store = q.1 })
      ]

  -- `pull_partition` of the node at `addr`, from `source`.
  unfoldable pub pull_partition : String → List (ℕ × ℕ) → String → Cluster → Cluster
  unfolding transfer_partition ingest broadcast_chunk_index_update
  pull_partition addr ranges source c = elim (lookup source c) [
    | none ↦ c
    | some from ↦ elim (lookup addr c) [
      | none ↦ c
      | some n ↦
          let es = transfer_partition xxh3 ranges from in
          let q = ingest es n in
          let stored = insert addr q.1 c in
          if is_empty es
          then c
          else if q.0
          then broadcast_chunk_index_update (map index_entry (received_chunks es))
              (get_all_peer_addrs n) stored
          else stored
    ]
  ]

  unfoldable pub pull_all : String → List (ℕ × ℕ) → List String → Cluster → Cluster
  unfolding pull_partition
  pull_all addr ranges [] c = c
  pull_all addr ranges (source ∷ sources) c =
      pull_all addr ranges sources (pull_partition addr ranges source c)

  unfoldable pub broadcast_index : String → Cluster → Cluster
  unfolding broadcast_chunk_index_update
  broadcast_index addr c = elim (lookup addr c) [
    | none ↦ c
    | some n ↦
        if is_empty (entries n.chunk_index)
        then c
        else broadcast_chunk_index_update (entries n.chunk_index) (get_all_peer_addrs n) c
  ]

  -- `migrate_on_join`, once it has waited for peers.
  unfoldable pub migrate_on_join : String → Cluster → Cluster
  unfolding pull_all broadcast_index
  migrate_on_join addr c = elim (lookup addr c) [
    | none ↦ c
    | some n ↦
        let ranges = get_owned_ranges n.node_id n.ring in
        if is_clustered n && (if is_empty ranges then false else true)
        then broadcast_index addr (pull_all addr ranges (get_all_peer_addrs n) c)
        else c
  ]
