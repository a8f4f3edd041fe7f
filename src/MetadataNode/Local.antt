-- ===== src/MetadataNode/Local.antt =====
-- The requests on a node's own store: those of storage-metadata/src/main.rs once they are found to be
-- local, and those of cluster_service.rs, which another node forwards. `Uri::from_str`, serde_json
-- and the random numbers are parameters.
use Prim.Native.String.{String}
use object_store.Common.{ℕ, List, [], ◌∷◌, Option, none, some}
use object_store.Common.Map.{Map, nat_eq, lookup}
use object_store.Common.Io.{Result, ErrorKind}
use object_store.Clients.{
  RpcCode, StorageNodeMessage, ChunkMessage, GetObjectResponse, GetChunkResponse,
  AllocateChunkResponse,
}
use object_store.MetadataStore.Types.{
  MetaStorageNode, MetaChunk, MetaObject, MetadataStore, Json, Random,
}
use object_store.MetadataStore.Objects
use object_store.MetadataStore.Chunks
use object_store.ChunkIndex.{insert_entry, remove_entry, ChunkIndex}
use object_store.MetadataNode.{
  Response, response, status, panicked, diverged, Serve, on_store, on_index, and_then,
}

-- The statuses of the requests.
abbrev pub existing_or_internal : ErrorKind → RpcCode
existing_or_internal ErrorKind.already_exists = RpcCode.already_exists
existing_or_internal _ = RpcCode.internal

abbrev pub missing_or_internal : ErrorKind → RpcCode
missing_or_internal ErrorKind.not_found = RpcCode.not_found
missing_or_internal _ = RpcCode.internal

abbrev pub confirm_code : ErrorKind → RpcCode
confirm_code ErrorKind.not_found = RpcCode.not_found
confirm_code ErrorKind.already_exists = RpcCode.already_exists
confirm_code _ = RpcCode.internal

abbrev pub replica_code : ErrorKind → RpcCode
replica_code ErrorKind.not_found = RpcCode.not_found
replica_code ErrorKind.already_exists = RpcCode.already_exists
replica_code ErrorKind.invalid_input = RpcCode.failed_precondition
replica_code _ = RpcCode.internal

abbrev pub address_code : ErrorKind → RpcCode
address_code ErrorKind.invalid_input = RpcCode.invalid_argument
address_code _ = RpcCode.internal

abbrev pub node_message : ℕ → MetaStorageNode → StorageNodeMessage
node_message id n = record { id = id; address = n.address }

-- The storage nodes of a chunk; one that is not known is an error.
unfoldable pub all_nodes : Map ℕ MetaStorageNode → List ℕ → Option (List StorageNodeMessage)
all_nodes known [] = some []
all_nodes known (id ∷ ids) = elim (lookup id known) [
  | none ↦ none
  | some n ↦ elim (all_nodes known ids) [
    | none ↦ none
    | some rest ↦ some (node_message id n ∷ rest)
  ]
]

-- The storage nodes of a chunk that are known.
unfoldable pub known_nodes : Map ℕ MetaStorageNode → List ℕ → List StorageNodeMessage
known_nodes known [] = []
known_nodes known (id ∷ ids) = elim (lookup id known) [
  | none ↦ known_nodes known ids
  | some n ↦ node_message id n ∷ known_nodes known ids
]

-- The chunks of an object: one that is missing is an error, and so may one of its nodes be.
unfoldable pub chunks_with :
    (List ℕ → Option (List StorageNodeMessage))
    → Map ℕ MetaChunk
    → List ℕ
    → Option (List ChunkMessage)
chunks_with nodes_of chunks [] = some []
chunks_with nodes_of chunks (id ∷ ids) = elim (lookup id chunks) [
  | none ↦ none
  | some c ↦ elim (nodes_of c.storage_nodes) [
    | none ↦ none
    | some nodes ↦ elim (chunks_with nodes_of chunks ids) [
      | none ↦ none
      | some rest ↦ some (record { id = c.id; checksum = c.checksum; storage_nodes = nodes } ∷ rest)
    ]
  ]
]

abbrev pub or_internal : {A : Type 0} → Option A → Response A
or_internal none = status RpcCode.internal
or_internal (some a) = response a

-- The response to `get_object`, once the object is found.
abbrev pub object_response : ℕ → Option (List ChunkMessage) → Response GetObjectResponse
object_response checksum none = status RpcCode.internal
object_response checksum (some chunks) = response (record { checksum = checksum; chunks = chunks })

abbrev pub found_object :
    (List ℕ → Option (List StorageNodeMessage))
    → MetadataStore
    → Result MetaObject
    → Response GetObjectResponse
found_object nodes_of s (Result.ok o) =
    object_response o.checksum (chunks_with nodes_of s.chunks o.chunks)
found_object nodes_of s (Result.err e) = status (missing_or_internal e)
found_object nodes_of s Result.panicked = panicked
found_object nodes_of s Result.diverged = diverged

unfoldable pub get_object : String → Serve GetObjectResponse
unfolding all_nodes chunks_with
get_object name n = (
  found_object (all_nodes n.metadata_store.storage_nodes) n.metadata_store
      (Objects.get_object name n.metadata_store),
  n,
)

unfoldable pub forward_get_object : String → Serve GetObjectResponse
unfolding known_nodes chunks_with
forward_get_object name n = (
  found_object (λ ids. some (known_nodes n.metadata_store.storage_nodes ids)) n.metadata_store
      (Objects.get_object name n.metadata_store),
  n,
)

abbrev pub chunk_response :
    (List ℕ → Option (List StorageNodeMessage))
    → Result (String × MetaChunk)
    → Response GetChunkResponse
chunk_response nodes_of (Result.ok (name, c)) = elim (nodes_of c.storage_nodes) [
  | none ↦ status RpcCode.internal
  | some nodes ↦
      response (record { object_name = name; checksum = c.checksum; storage_nodes = nodes })
]
chunk_response nodes_of (Result.err e) = status (missing_or_internal e)
chunk_response nodes_of Result.panicked = panicked
chunk_response nodes_of Result.diverged = diverged

unfoldable pub get_chunk : ℕ → Serve GetChunkResponse
unfolding all_nodes
get_chunk id n = (
  chunk_response (all_nodes n.metadata_store.storage_nodes) (Chunks.get_chunk id n.metadata_store),
  n,
)

unfoldable pub forward_get_chunk : ℕ → Serve GetChunkResponse
unfolding known_nodes
forward_get_chunk id n = (
  chunk_response (λ ids. some (known_nodes n.metadata_store.storage_nodes ids))
      (Chunks.get_chunk id n.metadata_store),
  n,
)

abbrev pub allocation : ℕ × ℕ × String → AllocateChunkResponse
allocation (chunk_id, node_id, address) = record {
  chunk_id = chunk_id;
  storage_node_address = address;
  storage_node_id = node_id;
}

-- `allocate_chunk` and `forward_allocate_chunk`, which do the same.
unfoldable pub allocate_chunk : Random → String → Serve (ℕ × ℕ × String)
allocate_chunk rand name = on_store (λ _. RpcCode.unavailable) (Chunks.allocate_chunk rand name)

-- The chunks that the object has before it is deleted leave the index.
unfoldable pub chunk_ids : Result MetaObject → List ℕ
chunk_ids (Result.ok o) = o.chunks
chunk_ids _ = []

unfoldable pub remove_entries : List ℕ → ChunkIndex → ChunkIndex
remove_entries [] c = c
remove_entries (id ∷ ids) c = remove_entries ids (remove_entry id c).1

module _ (json : Json) where
  unfoldable pub put_object : ℕ → String → Serve (Unit {0})
  put_object checksum name = on_store existing_or_internal (Objects.put_object json checksum name)

  unfoldable pub forward_put_object : ℕ → String → Serve (Unit {0})
  forward_put_object checksum name =
      on_store (λ _. RpcCode.internal) (Objects.put_object json checksum name)

  -- `delete_object` and `forward_delete_object`, which do the same.
  unfoldable pub delete_object : String → Serve (Unit {0})
  unfolding chunk_ids remove_entries
  delete_object name n =
      and_then
        (λ _. on_index (remove_entries (chunk_ids (Objects.get_object name n.metadata_store))))
        (on_store missing_or_internal (Objects.delete_object json name) n)

  -- `put_chunk` and `forward_put_chunk` with the statuses of each.
  unfoldable pub put_chunk : (ErrorKind → RpcCode) → Random → String → ℕ → Serve (ℕ × String)
  put_chunk code rand name checksum n =
      and_then (λ made. on_index (insert_entry made.0 name))
        (on_store code (Chunks.put_chunk json rand name checksum) n)

  -- `confirm_chunk` and `forward_confirm_chunk`, which do the same.
  unfoldable pub confirm_chunk : ℕ → String → ℕ → ℕ → Serve (Unit {0})
  confirm_chunk id name checksum node_id n =
      and_then (λ _. on_index (insert_entry id name))
        (on_store confirm_code (Chunks.confirm_chunk json id name checksum node_id) n)

  -- `delete_chunk` and `forward_delete_chunk`, which do the same.
  unfoldable pub delete_chunk : ℕ → Serve (Unit {0})
  delete_chunk id n =
      and_then (λ _. on_index (λ c. (remove_entry id c).1))
        (on_store missing_or_internal (Chunks.delete_chunk json id) n)

  -- `add_chunk_replica` and `forward_add_chunk_replica`, which do the same.
  unfoldable pub add_chunk_replica : ℕ → ℕ → Serve (Unit {0})
  add_chunk_replica id node_id = on_store replica_code (Chunks.add_chunk_replica json id node_id)

  unfoldable pub update_object_checksum : String → ℕ → ℕ → Serve (Unit {0})
  update_object_checksum name checksum total_size =
      on_store missing_or_internal (Objects.update_object_checksum json name checksum total_size)
