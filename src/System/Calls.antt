-- ===== src/System/Calls.antt =====
-- The calls of an upload and a download, on a metadata node that owns its objects and on the storage
-- nodes by their addresses.
use Prim.Native.String.{String}
use text.Mathlib.Text.{◌==◌ as str_eq}
use object_store.Common.{ℕ, suc, List, if◌then◌else◌}
use object_store.Clients.{Answer, answered, refused, RpcCode, Call, Clients, AllocateChunkResponse}
use object_store.MetadataStore.Types.{Json, Random}
use object_store.MetadataNode.{Node, Serve, Response}
use object_store.MetadataNode
use object_store.MetadataNode.Local
use object_store.MetadataNode.Local.{allocation}
use object_store.MetadataNode.Global
use object_store.StorageNode.{
  StorageNodeImpl, Reply, Code, already_exists_code, resource_exhausted, not_found_code, internal,
  pending, get_chunk_size_request,
}
use object_store.StorageNode

-- `randoms` is what `rand` is asked for, `asked` how often it was.
pub record System : Type 0 where
  pub node : Node
  pub storage : String → StorageNodeImpl
  pub asked : ℕ

-- A request that panics or never ends is no answer to the gateway.
abbrev pub to_answer : {A : Type 0} → Response A → Answer A
to_answer (MetadataNode.response a) = answered a
to_answer (MetadataNode.status code) = refused code
to_answer MetadataNode.panicked = refused RpcCode.unavailable
to_answer MetadataNode.diverged = refused RpcCode.unavailable

abbrev pub rpc_code : Code → RpcCode
rpc_code already_exists_code = RpcCode.already_exists
rpc_code resource_exhausted = RpcCode.resource_exhausted
rpc_code not_found_code = RpcCode.not_found
rpc_code internal = RpcCode.internal
rpc_code pending = RpcCode.unavailable

abbrev pub of_reply : {A : Type 0} → Reply A → Answer A
of_reply (StorageNode.response a) = answered a
of_reply (StorageNode.status code) = refused (rpc_code code)

abbrev pub map_answer : {A B : Type 0} → (A → B) → Answer A → Answer B
map_answer f (answered a) = answered (f a)
map_answer f (refused code) = refused code

abbrev pub on_node : {A : Type 0} → Serve A → Call System A
on_node op w = (to_answer (op w.node).0, record w { node = (op w.node).1 })

-- The storage node at an address.
abbrev pub at_address : String → StorageNodeImpl → System → System
at_address address n w = record w {
  storage = λ other. if str_eq address other then n else w.storage other;
}

abbrev pub on_storage :
    {A : Type 0} → String → (StorageNodeImpl → Reply A × StorageNodeImpl) → Call System A
on_storage address op w =
    (of_reply (op (w.storage address)).0, at_address address (op (w.storage address)).1 w)

module _ (json : Json) (crc : List ℕ → ℕ) (randoms : ℕ → Random) (other : Clients System) where
  abbrev pub allocate : String → ℕ → Call System AllocateChunkResponse
  allocate name checksum w =
      let (r, n) = Local.allocate_chunk (randoms w.asked) name w.node in
      (map_answer allocation (to_answer r), record w { node = n; asked = suc w.asked })

  -- The calls that an upload or a download makes; the rest are those of `other`.
  abbrev pub system : Clients System
  system = record {
    metadata = record (other.metadata) {
      list_storage_nodes = on_node Global.list_storage_nodes;
      put_object = λ checksum name. on_node (Local.put_object json checksum name);
      get_object = λ name. on_node (Local.get_object name);
      allocate_chunk = allocate;
      confirm_chunk =
          λ id name checksum node_id. on_node (Local.confirm_chunk json id name checksum node_id);
      update_object_checksum =
          λ name checksum size. on_node (Local.update_object_checksum json name checksum size);
    };
    storage = record (other.storage) {
      get_chunk_size = λ address. on_storage address get_chunk_size_request;
      write_chunk = λ address id part w.
          let (r, w') = on_storage address (StorageNode.write_chunk crc id part) w in
          (map_answer (λ _. tt) r, w');
      read_chunk = λ address id w.
          let (r, w') = on_storage address (StorageNode.read_chunk crc id) w in
          (map_answer (λ q. q.1) r, w');
    };
    connect = λ address w. (answered tt, w);
  }
