-- ===== src/MetadataStore/Steps.antt =====
-- Runs of `MetadataStore`: any calls one after another.
use Prim.Native.String.{String}
use object_store.Common.{ℕ, ◌≡◌, refl, List, [], ◌∷◌, Bool, true, false, Option, none, some}
use object_store.Common.Map.{nat_eq, string_eq, lookup}
use object_store.Common.Io.{Result, ok, err, panicked, diverged}
use object_store.MetadataStore.Types.{
  MetaStorageNode, MetadataStore, Json, Random, generate_unique_id,
}
use object_store.MetadataStore.Objects.{
  put_object, delete_object, update_object_checksum, delete_storage_node, construct_storage_node,
}
use object_store.MetadataStore.Chunks.{
  allocate_chunk, put_chunk, confirm_chunk, delete_chunk, add_chunk_replica,
}
use object_store.MetadataStore.Listing.{IsValid}
use object_store.MetadataStore.Keeps.{
  allocate_chunk-IsValid, put_object-IsValid, update_object_checksum-IsValid, confirm_chunk-IsValid,
  add_chunk_replica-IsValid, put_chunk-IsValid,
}
use object_store.MetadataStore.Removals.{delete_chunk-IsValid, delete_object-IsValid}

-- A call of the store with its arguments.
pub data Call : Type 0 where
  put_object_call : (checksum : ℕ) (name : String) → Call
  delete_object_call : (name : String) → Call
  update_object_checksum_call : (name : String) (checksum total_size : ℕ) → Call
  allocate_chunk_call : (rand : Random) (name : String) → Call
  put_chunk_call : (rand : Random) (name : String) (checksum : ℕ) → Call
  confirm_chunk_call : (id : ℕ) (name : String) (checksum node_id : ℕ) → Call
  delete_chunk_call : (id : ℕ) → Call
  add_chunk_replica_call : (id node_id : ℕ) → Call
  construct_storage_node_call : (rand : Random) (address : String) → Call
  delete_storage_node_call : (node_id : ℕ) → Call

module _ (json : Json) (is_uri : String → Bool) where
  -- The store after the call, whatever the call returns.
  unfoldable pub step : Call → MetadataStore → MetadataStore
  step (put_object_call checksum name) s = (put_object json checksum name s).1
  step (delete_object_call name) s = (delete_object json name s).1
  step (update_object_checksum_call name checksum total_size) s =
      (update_object_checksum json name checksum total_size s).1
  step (allocate_chunk_call rand name) s = (allocate_chunk rand name s).1
  step (put_chunk_call rand name checksum) s = (put_chunk json rand name checksum s).1
  step (confirm_chunk_call id name checksum node_id) s =
      (confirm_chunk json id name checksum node_id s).1
  step (delete_chunk_call id) s = (delete_chunk json id s).1
  step (add_chunk_replica_call id node_id) s = (add_chunk_replica json id node_id s).1
  step (construct_storage_node_call rand address) s =
      (construct_storage_node is_uri rand address s).1
  step (delete_storage_node_call node_id) s = (delete_storage_node node_id s).1

  unfoldable pub run : List Call → MetadataStore → MetadataStore
  unfolding step
  run [] s = s
  run (call ∷ calls) s = run calls (step call s)

  construct_storage_node-IsValid :
      (rand : Random) (address : String) (s : MetadataStore)
      → IsValid s
      → IsValid (construct_storage_node is_uri rand address s).1
  unfolding construct_storage_node
  construct_storage_node-IsValid rand address s v =
      by_id (generate_unique_id rand.draws s.storage_nodes) refl (is_uri address) refl
    where
      by_id :
          (r : Result ℕ)
          → generate_unique_id rand.draws s.storage_nodes ≡ r
          → (b : Bool) → is_uri address ≡ b
          → IsValid (construct_storage_node is_uri rand address s).1
      by_id (ok id) e true f = rw (e, construct_storage_node) (rw f v)
      by_id (ok id) e false f = rw (e, construct_storage_node) (rw f v)
      by_id (err k) e b f = rw (e, construct_storage_node) v
      by_id panicked e b f = rw (e, construct_storage_node) v
      by_id diverged e b f = rw (e, construct_storage_node) v

  delete_storage_node-IsValid :
      (node_id : ℕ) (s : MetadataStore) → IsValid s → IsValid (delete_storage_node node_id s).1
  unfolding delete_storage_node
  delete_storage_node-IsValid node_id s v = by_node (lookup node_id s.storage_nodes) refl
    where
      by_node :
          (o : Option MetaStorageNode)
          → lookup node_id s.storage_nodes ≡ o
          → IsValid (delete_storage_node node_id s).1
      by_node none e = rw (e, delete_storage_node) v
      by_node (some n) e = rw (e, delete_storage_node) v

  pub step-IsValid : (call : Call) (s : MetadataStore) → IsValid s → IsValid (step call s)
  unfolding step
  step-IsValid (put_object_call checksum name) s v = put_object-IsValid json checksum name s v
  step-IsValid (delete_object_call name) s v = delete_object-IsValid json name s v
  step-IsValid (update_object_checksum_call name checksum total_size) s v =
      update_object_checksum-IsValid json name checksum total_size s v
  step-IsValid (allocate_chunk_call rand name) s v = allocate_chunk-IsValid rand name s v
  step-IsValid (put_chunk_call rand name checksum) s v =
      put_chunk-IsValid json rand name checksum s v
  step-IsValid (confirm_chunk_call id name checksum node_id) s v =
      confirm_chunk-IsValid json id name checksum node_id s v
  step-IsValid (delete_chunk_call id) s v = delete_chunk-IsValid json id s v
  step-IsValid (add_chunk_replica_call id node_id) s v =
      add_chunk_replica-IsValid json id node_id s v
  step-IsValid (construct_storage_node_call rand address) s v =
      construct_storage_node-IsValid rand address s v
  step-IsValid (delete_storage_node_call node_id) s v = delete_storage_node-IsValid node_id s v

  -- After any calls, whatever each returns, on a store where every chunk that an object lists is
  -- there, is confirmed and names the object, this is still so.
  pub run-IsValid : (calls : List Call) (s : MetadataStore) → IsValid s → IsValid (run calls s)
  unfolding run
  run-IsValid [] s v = v
  run-IsValid (call ∷ calls) s v = run-IsValid calls (step call s) (step-IsValid call s v)
