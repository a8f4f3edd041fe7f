-- ===== src/Gateway/Mocks/Metadata.antt =====
-- `MockMetadataClient`.
use Prim.Native.String.{String}
use object_store.Common.{
  ℕ, ◌+◌, ◌-◌, ◌^◌, List, [], ◌∷◌, ◌++◌, Bool, false, Option, none, some, length, ltb, ◌==◌,
  if◌then◌else◌,
}
use object_store.Common.Map.{Map, nat_eq, string_eq, lookup, contains_key, insert, remove}
use object_store.Clients.{
  answered, refused, RpcCode, Call, StorageNodeMessage, ChunkMessage, ObjectMessage,
  GetObjectResponse, GetChunkResponse, AllocateChunkResponse, UnderReplicatedChunk,
}

pub record StoredObject : Type 0 where
  pub checksum : ℕ
  pub chunk_ids : List ℕ

pub record StoredChunk : Type 0 where
  pub object_name : String
  pub checksum : ℕ
  pub storage_node_ids : List ℕ

pub record MockMetadataClient : Type 0 where
  pub storage_nodes : List StorageNodeMessage
  pub objects : Map String StoredObject
  pub chunks : Map ℕ StoredChunk
  pub next_chunk_id : ℕ
  pub fail_list_storage_nodes : Bool
  pub fail_put_object : Bool
  pub fail_allocate_chunk : Bool

abbrev pub default_metadata : MockMetadataClient
default_metadata = record {
  storage_nodes = record { id = 1; address = "http://mock-storage:3000" } ∷ [];
  objects = [];
  chunks = [];
  next_chunk_id = 1;
  fail_list_storage_nodes = false;
  fail_put_object = false;
  fail_allocate_chunk = false;
}

-- `iter().find(|n| n.id == id)`
unfoldable pub find_node : ℕ → List StorageNodeMessage → Option StorageNodeMessage
find_node id [] = none
find_node id (n ∷ ns) = if n.id == id then some n else find_node id ns

-- The nodes with the ids, without those that are not known.
unfoldable pub nodes_of : List StorageNodeMessage → List ℕ → List StorageNodeMessage
unfolding find_node
nodes_of known [] = []
nodes_of known (id ∷ ids) = elim (find_node id known) [
  | none ↦ nodes_of known ids
  | some n ↦ n ∷ nodes_of known ids
]

abbrev pub chunk_message : List StorageNodeMessage → ℕ → StoredChunk → ChunkMessage
chunk_message known id c = record {
  id = id;
  checksum = c.checksum;
  storage_nodes = nodes_of known c.storage_node_ids;
}

-- The chunks with the ids, without those that are missing.
unfoldable pub chunks_of : List StorageNodeMessage → Map ℕ StoredChunk → List ℕ → List ChunkMessage
unfolding nodes_of
chunks_of known stored [] = []
chunks_of known stored (id ∷ ids) = elim (lookup id stored) [
  | none ↦ chunks_of known stored ids
  | some c ↦ chunk_message known id c ∷ chunks_of known stored ids
]

-- The object of a chunk, if there is one, gets it at its end.
unfoldable pub push_chunk : ℕ → String → Map String StoredObject → Map String StoredObject
push_chunk id name objects = elim (lookup name objects) [
  | none ↦ objects
  | some o ↦ insert name (record o { chunk_ids = o.chunk_ids ++ id ∷ [] }) objects
]

abbrev pub list_storage_nodes : Call MockMetadataClient (List StorageNodeMessage)
list_storage_nodes m =
    if m.fail_list_storage_nodes
    then (refused RpcCode.unavailable, m)
    else (answered m.storage_nodes, m)

unfoldable pub put_object : ℕ → String → Call MockMetadataClient (Unit {0})
put_object checksum name m =
    if m.fail_put_object
    then (refused RpcCode.internal, m)
    else if contains_key name m.objects
    then (refused RpcCode.already_exists, m)
    else (
      answered tt,
      record m { objects = insert name (record { checksum = checksum; chunk_ids = [] }) m.objects },
    )

unfoldable pub get_object : String → Call MockMetadataClient GetObjectResponse
unfolding chunks_of
get_object name m = elim (lookup name m.objects) [
  | none ↦ (refused RpcCode.not_found, m)
  | some o ↦ (
    answered
        (record { checksum = o.checksum; chunks = chunks_of m.storage_nodes m.chunks o.chunk_ids }),
    m,
  )
]

unfoldable pub delete_object : String → Call MockMetadataClient (Unit {0})
delete_object name m = elim (lookup name m.objects) [
  | none ↦ (refused RpcCode.not_found, m)
  | some _ ↦ (answered tt, record m { objects = remove name m.objects })
]

-- `*chunk_id += 1` on a `u64`. These services are built for tests only, with overflow checks: past
-- the largest number the addition panics, and there is no answer.
abbrev pub max_chunk_id : ℕ
max_chunk_id = 2 ^ 64 - 1

abbrev pub no_answer : {A : Type 0} → Call MockMetadataClient A
no_answer m = (refused RpcCode.unavailable, m)

-- The first of the storage nodes.
unfoldable pub allocate_chunk : String → ℕ → Call MockMetadataClient AllocateChunkResponse
allocate_chunk name checksum m =
    if m.fail_allocate_chunk then (refused RpcCode.internal, m) else elim m.storage_nodes [
      | [] ↦ (refused RpcCode.unavailable, m)
      | n ∷ _ ↦
          if ltb m.next_chunk_id max_chunk_id
          then (
            answered (record {
              chunk_id = m.next_chunk_id;
              storage_node_address = n.address;
              storage_node_id = n.id;
            }),
            record m { next_chunk_id = m.next_chunk_id + 1 },
          )
          else no_answer m
    ]

unfoldable pub confirm_chunk : ℕ → String → ℕ → ℕ → Call MockMetadataClient (Unit {0})
unfolding push_chunk
confirm_chunk id name checksum node_id m = (
  answered tt,
  record m {
    chunks =
        insert id
          (record { object_name = name; checksum = checksum; storage_node_ids = node_id ∷ [] })
          m.chunks;
    objects = push_chunk id name m.objects;
  },
)

unfoldable pub object_messages :
    List StorageNodeMessage → Map ℕ StoredChunk → Map String StoredObject → List ObjectMessage
unfolding chunks_of
object_messages known stored [] = []
object_messages known stored ((name, o) ∷ objects) =
    record {
      name = name;
      checksum = o.checksum;
      chunks = chunks_of known stored o.chunk_ids;
      total_size = 0;
    }
    ∷ object_messages known stored objects

abbrev pub list_objects : Call MockMetadataClient (List ObjectMessage)
list_objects m = (answered (object_messages m.storage_nodes m.chunks m.objects), m)

abbrev pub delete_chunk : ℕ → Call MockMetadataClient (Unit {0})
delete_chunk id m = (answered tt, record m { chunks = remove id m.chunks })

unfoldable pub put_chunk : String → ℕ → Call MockMetadataClient (ℕ × String)
unfolding push_chunk
put_chunk name checksum m = elim m.storage_nodes [
  | [] ↦ (refused RpcCode.unavailable, m)
  | n ∷ _ ↦
      if ltb m.next_chunk_id max_chunk_id
      then (
        answered (m.next_chunk_id, n.address),
        record m {
          next_chunk_id = m.next_chunk_id + 1;
          chunks =
              insert m.next_chunk_id
                (record { object_name = name; checksum = checksum; storage_node_ids = n.id ∷ [] })
                m.chunks;
          objects = push_chunk m.next_chunk_id name m.objects;
        },
      )
      else no_answer m
]

abbrev pub put_storage_node : String → Call MockMetadataClient ℕ
put_storage_node address m =
    let id = length m.storage_nodes + 1 in
    (
      answered id,
      record m { storage_nodes = m.storage_nodes ++ record { id = id; address = address } ∷ [] },
    )

unfoldable pub get_chunk : ℕ → Call MockMetadataClient GetChunkResponse
unfolding nodes_of
get_chunk id m = elim (lookup id m.chunks) [
  | none ↦ (refused RpcCode.not_found, m)
  | some c ↦ (
    answered (record {
      object_name = c.object_name;
      checksum = c.checksum;
      storage_nodes = nodes_of m.storage_nodes c.storage_node_ids;
    }),
    m,
  )
]

unfoldable pub get_storage_node : ℕ → Call MockMetadataClient String
unfolding find_node
get_storage_node id m = elim (find_node id m.storage_nodes) [
  | none ↦ (refused RpcCode.not_found, m)
  | some n ↦ (answered n.address, m)
]

-- `retain(|n| n.id != id)`
unfoldable pub without_node : ℕ → List StorageNodeMessage → List StorageNodeMessage
without_node id [] = []
without_node id (n ∷ ns) = if n.id == id then without_node id ns else n ∷ without_node id ns

unfoldable pub delete_storage_node : ℕ → Call MockMetadataClient (Unit {0})
unfolding without_node
delete_storage_node id m =
    let kept = without_node id m.storage_nodes in
    if length kept == length m.storage_nodes
    then (refused RpcCode.not_found, record m { storage_nodes = kept })
    else (answered tt, record m { storage_nodes = kept })

unfoldable pub under_replicated : ℕ → Map ℕ StoredChunk → List UnderReplicatedChunk
under_replicated max [] = []
under_replicated max ((id, c) ∷ stored) =
    let rest = under_replicated max stored in
    if ltb (length c.storage_node_ids) max
    then record {
      chunk_id = id;
      checksum = c.checksum;
      current_storage_node_ids = c.storage_node_ids;
    }
      ∷ rest
    else rest

abbrev pub list_under_replicated_chunks : ℕ → Call MockMetadataClient (List UnderReplicatedChunk)
list_under_replicated_chunks max m = (answered (under_replicated max m.chunks), m)

unfoldable pub add_chunk_replica : ℕ → ℕ → Call MockMetadataClient (Unit {0})
add_chunk_replica id node_id m = elim (lookup id m.chunks) [
  | none ↦ (refused RpcCode.not_found, m)
  | some c ↦ (
    answered tt,
    record m {
      chunks =
          insert id (record c { storage_node_ids = c.storage_node_ids ++ node_id ∷ [] }) m.chunks;
    },
  )
]

unfoldable pub update_object_checksum : String → ℕ → ℕ → Call MockMetadataClient (Unit {0})
update_object_checksum name checksum total_size m = elim (lookup name m.objects) [
  | none ↦ (refused RpcCode.not_found, m)
  | some o ↦
      (answered tt, record m { objects = insert name (record o { checksum = checksum }) m.objects })
]
