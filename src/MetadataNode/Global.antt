-- ===== src/MetadataNode/Global.antt =====
-- The requests of storage-metadata/src/main.rs that concern all nodes of a cluster: the storage
-- nodes, which every node is told of, and the listings, which gather from every node.
use Prim.Native.String.{String}
use object_store.Common.{
  ℕ, List, [], ◌∷◌, ◌++◌, Bool, Option, none, some, length, leb, ◌==◌, map, if◌then◌else◌,
}
use object_store.Common.Map.{Map, nat_eq, string_eq, lookup, insert, remove}
use object_store.Clients.{
  RpcCode, StorageNodeMessage, ChunkMessage, ObjectMessage, UnderReplicatedChunk,
}
use object_store.MetadataStore.Types.{MetaStorageNode, MetaChunk, MetaObject, MetadataStore, Random}
use object_store.MetadataStore.Objects
use object_store.MetadataStore.Chunks
use object_store.ChunkIndex.{populate_from_chunks}
use object_store.MetadataNode.{
  Response, response, status, panicked, diverged, Node, Serve, respond, on_store, on_index,
}
use object_store.MetadataNode.Local.{address_code, missing_or_internal, known_nodes, node_message}
use object_store.MetadataNode.Cluster.{Cluster, serve_at}
use object_store.MetadataNode.Membership.{get_all_peer_addrs}

-- The peers of a node that forwards.
abbrev pub peers_of : Node → List String
peers_of n = if n.clustered then get_all_peer_addrs n else []

-- A request at each of the addresses, whatever each answers.
unfoldable pub broadcast : {A : Type 0} → (String → Serve A) → List String → Cluster → Cluster
unfolding serve_at
broadcast serve [] c = c
broadcast serve (addr ∷ addrs) c = broadcast serve addrs (serve_at (serve addr) addr c).1

-- A request at a node, and on success the same at its peers.
unfoldable pub everywhere :
    {A : Type 0} → Serve A → (String → Serve A) → String → Cluster → Response A × Cluster
unfolding broadcast
everywhere served broadcasted addr c = elim (lookup addr c) [
  | none ↦ (status RpcCode.unavailable, c)
  | some n ↦ elim (served n).0 [
    | response a ↦ (response a, broadcast broadcasted (peers_of n) (insert addr (served n).1 c))
    | status e ↦ (status e, insert addr (served n).1 c)
    | panicked ↦ (panicked, insert addr (served n).1 c)
    | diverged ↦ (diverged, insert addr (served n).1 c)
  ]
]

-- The numbers that `rand` draws at each address are `rands`.
unfoldable pub put_storage_node :
    (String → Bool) → (String → Random) → String → String → Cluster → Response ℕ × Cluster
unfolding everywhere
put_storage_node is_uri rands addr address =
    everywhere (on_store address_code (Objects.construct_storage_node is_uri (rands addr) address))
      (λ peer.
        on_store (λ _. RpcCode.internal)
          (Objects.construct_storage_node is_uri (rands peer) address))
      addr

unfoldable pub delete_storage_node : String → ℕ → Cluster → Response (Unit {0}) × Cluster
unfolding everywhere
delete_storage_node addr id =
    everywhere (on_store (λ _. RpcCode.internal) (Objects.delete_storage_node id))
      (λ peer. on_store (λ _. RpcCode.internal) (Objects.delete_storage_node id)) addr

unfoldable pub get_storage_node : ℕ → Serve String
get_storage_node id n =
    (respond missing_or_internal (Objects.get_storage_node id n.metadata_store), n)

unfoldable pub list_storage_nodes : Serve (List StorageNodeMessage)
list_storage_nodes n =
    (response (map (λ m. node_message m.id m) (Objects.list_storage_nodes n.metadata_store)), n)

-- The chunks of an object that are there, with their storage nodes that are known.
unfoldable pub known_chunks : MetadataStore → List ℕ → List ChunkMessage
unfolding known_nodes
known_chunks s [] = []
known_chunks s (id ∷ ids) = elim (lookup id s.chunks) [
  | none ↦ known_chunks s ids
  | some c ↦
      record {
        id = c.id;
        checksum = c.checksum;
        storage_nodes = known_nodes s.storage_nodes c.storage_nodes;
      }
      ∷ known_chunks s ids
]

abbrev pub object_message : MetadataStore → MetaObject → ObjectMessage
object_message s o = record {
  name = o.name;
  checksum = o.checksum;
  chunks = known_chunks s o.chunks;
  total_size = o.total_size;
}

unfoldable pub list_local_objects : Node → List ObjectMessage
unfolding known_chunks
list_local_objects n = map (object_message n.metadata_store) (Objects.list_objects n.metadata_store)

abbrev pub under_replicated : MetaChunk → UnderReplicatedChunk
under_replicated c = record {
  chunk_id = c.id;
  checksum = c.checksum;
  current_storage_node_ids = c.storage_nodes;
}

abbrev pub or_three : ℕ → ℕ
or_three max_replicas = if max_replicas == 0 then 3 else max_replicas

unfoldable pub list_local_under_replicated_chunks : ℕ → Node → List UnderReplicatedChunk
list_local_under_replicated_chunks max_replicas n =
    map under_replicated
      (Chunks.list_under_replicated_chunks (or_three max_replicas) n.metadata_store)

-- The items of all the addresses, or nothing where one cannot be connected to.
unfoldable pub scatter_gather :
    {A : Type 0} → (Node → List A) → List String → Cluster → Option (List A)
scatter_gather items [] c = some []
scatter_gather items (addr ∷ addrs) c = elim (lookup addr c) [
  | none ↦ none
  | some n ↦ elim (scatter_gather items addrs c) [
    | none ↦ none
    | some rest ↦ some (items n ++ rest)
  ]
]

abbrev pub or_nothing : {A : Type 0} → Option (List A) → List A
or_nothing none = []
or_nothing (some items) = items

-- The node's own items, and those of its peers.
unfoldable pub gather : {A : Type 0} → (Node → List A) → String → Cluster → Response (List A)
unfolding scatter_gather
gather items addr c = elim (lookup addr c) [
  | none ↦ status RpcCode.unavailable
  | some n ↦ response (items n ++ or_nothing (scatter_gather items (peers_of n) c))
]

unfoldable pub list_objects : String → Cluster → Response (List ObjectMessage)
unfolding gather list_local_objects
list_objects addr c = gather list_local_objects addr c

-- `sort_by_key`, which is stable, by the number of replicas.
unfoldable pub insert_by_replicas :
    UnderReplicatedChunk → List UnderReplicatedChunk → List UnderReplicatedChunk
insert_by_replicas c [] = c ∷ []
insert_by_replicas c (d ∷ ds) =
    if leb (length c.current_storage_node_ids) (length d.current_storage_node_ids)
    then c ∷ d ∷ ds
    else d ∷ insert_by_replicas c ds

unfoldable pub sort_by_replicas : List UnderReplicatedChunk → List UnderReplicatedChunk
unfolding insert_by_replicas
sort_by_replicas [] = []
sort_by_replicas (c ∷ cs) = insert_by_replicas c (sort_by_replicas cs)

abbrev pub sorted : Response (List UnderReplicatedChunk) → Response (List UnderReplicatedChunk)
sorted (response cs) = response (sort_by_replicas cs)
sorted (status e) = status e
sorted panicked = panicked
sorted diverged = diverged

unfoldable pub list_under_replicated_chunks :
    ℕ → String → Cluster → Response (List UnderReplicatedChunk)
unfolding gather list_local_under_replicated_chunks sort_by_replicas
list_under_replicated_chunks max_replicas addr c =
    sorted (gather (list_local_under_replicated_chunks (or_three max_replicas)) addr c)

unfoldable pub populate_chunk_index : Node → Node
populate_chunk_index n = on_index (populate_from_chunks n.metadata_store.chunks) n

-- A round of `health_check`: a storage node that does not answer is removed. Who answers is a
-- parameter.
unfoldable pub unhealthy : (MetaStorageNode → Bool) → Map ℕ MetaStorageNode → List ℕ
unhealthy answers [] = []
unhealthy answers ((id, n) ∷ m) =
    let rest = unhealthy answers m in if answers n then rest else id ∷ rest

unfoldable pub remove_all : List ℕ → Map ℕ MetaStorageNode → Map ℕ MetaStorageNode
remove_all [] m = m
remove_all (id ∷ ids) m = remove_all ids (remove id m)

unfoldable pub health_check : (MetaStorageNode → Bool) → Node → Node
unfolding unhealthy remove_all
health_check answers n = record n {
  metadata_store = record (n.metadata_store) {
    storage_nodes =
        remove_all (unhealthy answers n.metadata_store.storage_nodes)
          n.metadata_store.storage_nodes;
  };
}
