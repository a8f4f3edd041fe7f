-- ===== src/Clients.antt =====
-- protos/src/clients.rs: the traits by which the gateway and the replication service call the
-- metadata service and the storage nodes. What answers them is behind a network, so a client is
-- a parameter: a record of calls, each on the state `W` of everything outside the caller.
use Prim.Native.String.{String}
use object_store.Common.{ℕ, List, Bool}

-- The code of a refused call, as far as the program tells codes apart. An error of a connection
-- has none, and stands as `unavailable`.
pub data RpcCode : Type 0 where
  already_exists not_found invalid_argument failed_precondition resource_exhausted internal
        unavailable :
      RpcCode

pub data Answer {ℓ} (A : Type ℓ) : Type ℓ where
  answered : A → Answer A
  refused : RpcCode → Answer A

abbrev pub Call : Type 0 → Type 0 → Type 0
Call W A = W → Answer A × W

pub record StorageNodeMessage : Type 0 where
  pub id : ℕ
  pub address : String

pub record ChunkMessage : Type 0 where
  pub id : ℕ
  pub checksum : ℕ
  pub storage_nodes : List StorageNodeMessage

pub record ObjectMessage : Type 0 where
  pub name : String
  pub checksum : ℕ
  pub chunks : List ChunkMessage
  pub total_size : ℕ

pub record GetObjectResponse : Type 0 where
  pub checksum : ℕ
  pub chunks : List ChunkMessage

pub record GetChunkResponse : Type 0 where
  pub object_name : String
  pub checksum : ℕ
  pub storage_nodes : List StorageNodeMessage

pub record AllocateChunkResponse : Type 0 where
  pub chunk_id : ℕ
  pub storage_node_address : String
  pub storage_node_id : ℕ

pub record UnderReplicatedChunk : Type 0 where
  pub chunk_id : ℕ
  pub checksum : ℕ
  pub current_storage_node_ids : List ℕ

-- The arguments of a call are the fields of its request, in their order.
pub record MetadataClient (W : Type 0) : Type 0 where
  pub list_storage_nodes : Call W (List StorageNodeMessage)
  pub put_object : ℕ → String → Call W (Unit {0})
  pub get_object : String → Call W GetObjectResponse
  pub delete_object : String → Call W (Unit {0})
  pub allocate_chunk : String → ℕ → Call W AllocateChunkResponse
  pub confirm_chunk : ℕ → String → ℕ → ℕ → Call W (Unit {0})
  pub list_objects : Call W (List ObjectMessage)
  pub delete_chunk : ℕ → Call W (Unit {0})
  pub put_chunk : String → ℕ → Call W (ℕ × String)
  pub put_storage_node : String → Call W ℕ
  pub get_chunk : ℕ → Call W GetChunkResponse
  pub get_storage_node : ℕ → Call W String
  pub delete_storage_node : ℕ → Call W (Unit {0})
  pub list_under_replicated_chunks : ℕ → Call W (List UnderReplicatedChunk)
  pub add_chunk_replica : ℕ → ℕ → Call W (Unit {0})
  pub update_object_checksum : String → ℕ → ℕ → Call W (Unit {0})

-- A client of a storage node is known by its address, the first argument.
pub record StorageNodeClient (W : Type 0) : Type 0 where
  pub get_chunk_size : String → Call W ℕ
  pub write_chunk : String → ℕ → List ℕ → Call W (Unit {0})
  pub read_chunk : String → ℕ → Call W (List ℕ)
  pub delete_chunk : String → ℕ → Call W (Unit {0})
  pub get_free_chunks : String → Call W ℕ
  pub check_health : String → Call W Bool

-- `connect` of the `StorageNodeClientFactory`, beside the clients.
pub record Clients (W : Type 0) : Type 0 where
  pub metadata : MetadataClient W
  pub storage : StorageNodeClient W
  pub connect : String → Call W (Unit {0})
