-- ===== src/MetadataNode.antt =====
-- The metadata service: a node's state and routing (storage-metadata/src/main.rs, forwarding.rs and
-- cluster.rs), its requests, and the cluster of such nodes.
pub mod Local
pub mod Cluster
pub mod Membership
pub mod Reads
pub mod Global
pub mod Migrate
mod Settled
mod Moved
mod Anywhere
mod Watch
mod Runs
mod Tests
use Prim.Native.String.{String}
use text.Mathlib.Text.{◌==◌ as str_eq}
use object_store.Common.{ℕ, Bool, Option, none, some, if◌then◌else◌}
use object_store.Common.Map.{Map, string_eq, lookup}
use object_store.Common.Io.{Result, ErrorKind, Op}
use object_store.Clients.{Answer, answered, refused, RpcCode}
use object_store.HashRing.{HashRing, get_owner}
use object_store.MetadataStore.Types.{MetadataStore}
use object_store.ChunkIndex.{ChunkIndex, get}

-- What a request comes to.
pub data Response (A : Type 0) : Type 0 where
  response : A → Response A
  status : RpcCode → Response A
  panicked : Response A
  diverged : Response A

-- `StorageMetadataImpl` with its `ClusterManager`: `clustered` says whether there is a forwarding
-- layer.
pub record Node : Type 0 where
  pub node_id : String
  pub clustered : Bool
  pub ring : HashRing
  pub peer_addrs : Map String String
  pub metadata_store : MetadataStore
  pub chunk_index : ChunkIndex

abbrev pub Serve : Type 0 → Type 0
Serve A = Node → Response A × Node

-- An error of the store gets the status that the request gives it.
abbrev pub respond : {A : Type 0} → (ErrorKind → RpcCode) → Result A → Response A
respond code (Result.ok a) = response a
respond code (Result.err e) = status (code e)
respond code Result.panicked = panicked
respond code Result.diverged = diverged

-- An operation under the lock of the store.
abbrev pub on_store : {A : Type 0} → (ErrorKind → RpcCode) → Op MetadataStore A → Serve A
on_store code op n =
    (respond code (op n.metadata_store).0, record n { metadata_store = (op n.metadata_store).1 })

abbrev pub on_index : (ChunkIndex → ChunkIndex) → Node → Node
on_index f n = record n { chunk_index = f n.chunk_index }

-- What follows a success.
abbrev pub and_then : {A : Type 0} → (A → Node → Node) → Response A × Node → Response A × Node
and_then f (response a, n) = (response a, f a n)
and_then f (status e, n) = (status e, n)
and_then f (panicked, n) = (panicked, n)
and_then f (diverged, n) = (diverged, n)

pub data RouteAction : Type 0 where
  local : RouteAction
  forward : String → RouteAction

module _ (xxh3 : String → ℕ) where
  unfoldable pub get_owner_addr : String → Node → Option String
  get_owner_addr key n = elim (get_owner xxh3 key n.ring) [
    | none ↦ none
    | some owner ↦ if str_eq owner n.node_id then none else lookup owner n.peer_addrs
  ]

  unfoldable pub route_by_object : String → Node → RouteAction
  unfolding get_owner_addr
  route_by_object object_name n =
      if n.clustered
      then elim (get_owner_addr object_name n) [ some addr ↦ forward addr | none ↦ local ]
      else local

  -- A chunk that is not in the index is an error here.
  unfoldable pub route_by_chunk : ℕ → Node → Answer RouteAction
  unfolding route_by_object
  route_by_chunk chunk_id n =
      if n.clustered
      then elim (get chunk_id n.chunk_index) [
        | none ↦ refused RpcCode.not_found
        | some object_name ↦ answered (route_by_object object_name n)
      ]
      else answered local
