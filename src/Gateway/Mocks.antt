-- ===== src/Gateway/Mocks.antt =====
-- api-gateway/src/clients.rs: the clients that pass on what the generated ones do, and the services
-- in memory against which the gateway is tested. What an `Arc<Mutex<_>>` holds is a field.
pub mod Metadata
pub mod Storage
pub mod Services
pub mod Chunks
pub mod Mirrors
pub mod Writes
pub mod Lawful
use object_store.Clients.{MetadataClient, StorageNodeClient}

-- A real client calls its inner one.
abbrev pub real_metadata_client : {W : Type 0} → MetadataClient W → MetadataClient W
real_metadata_client inner = record {
  list_storage_nodes = inner.list_storage_nodes;
  put_object = inner.put_object;
  get_object = inner.get_object;
  delete_object = inner.delete_object;
  allocate_chunk = inner.allocate_chunk;
  confirm_chunk = inner.confirm_chunk;
  list_objects = inner.list_objects;
  delete_chunk = inner.delete_chunk;
  put_chunk = inner.put_chunk;
  put_storage_node = inner.put_storage_node;
  get_chunk = inner.get_chunk;
  get_storage_node = inner.get_storage_node;
  delete_storage_node = inner.delete_storage_node;
  list_under_replicated_chunks = inner.list_under_replicated_chunks;
  add_chunk_replica = inner.add_chunk_replica;
  update_object_checksum = inner.update_object_checksum;
}

abbrev pub real_storage_node_client : {W : Type 0} → StorageNodeClient W → StorageNodeClient W
real_storage_node_client inner = record {
  get_chunk_size = inner.get_chunk_size;
  write_chunk = inner.write_chunk;
  read_chunk = inner.read_chunk;
  delete_chunk = inner.delete_chunk;
  get_free_chunks = inner.get_free_chunks;
  check_health = inner.check_health;
}
