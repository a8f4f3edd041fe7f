-- ===== src/Gateway/Mocks/Services.antt =====
-- The two together, as the gateway calls them.
use Prim.Native.String.{String}
use object_store.Common.{false}
use object_store.Clients.{answered, Call, Clients}
use object_store.Gateway.Mocks.Metadata
use object_store.Gateway.Mocks.Metadata.{MockMetadataClient}
use object_store.Gateway.Mocks.Storage
use object_store.Gateway.Mocks.Storage.{MockStorageNodeClient, MockStorageNodeClientFactory}

pub record MockServices : Type 0 where
  pub metadata : MockMetadataClient
  pub factory : MockStorageNodeClientFactory

-- The client that the factory connects, whatever the address.
abbrev pub connect : MockStorageNodeClientFactory → MockStorageNodeClient
connect f = record {
  chunks = f.shared_chunks;
  chunk_size = f.chunk_size;
  fail_write = false;
  fail_read = false;
}

module _ {A : Type 0} where
  abbrev pub on_metadata : Call MockMetadataClient A → Call MockServices A
  on_metadata c w = ((c w.metadata).0, record w { metadata = (c w.metadata).1 })

  abbrev pub on_storage : Call MockStorageNodeClient A → String → Call MockServices A
  on_storage c address w = (
    (c (connect w.factory)).0,
    record w { factory = record (w.factory) { shared_chunks = (c (connect w.factory)).1.chunks } },
  )

abbrev pub mock_services : Clients MockServices
mock_services = record {
  metadata = record {
    list_storage_nodes = on_metadata Metadata.list_storage_nodes;
    put_object = λ checksum name. on_metadata (Metadata.put_object checksum name);
    get_object = λ name. on_metadata (Metadata.get_object name);
    delete_object = λ name. on_metadata (Metadata.delete_object name);
    allocate_chunk = λ name checksum. on_metadata (Metadata.allocate_chunk name checksum);
    confirm_chunk =
        λ id name checksum node_id. on_metadata (Metadata.confirm_chunk id name checksum node_id);
    list_objects = on_metadata Metadata.list_objects;
    delete_chunk = λ id. on_metadata (Metadata.delete_chunk id);
    put_chunk = λ name checksum. on_metadata (Metadata.put_chunk name checksum);
    put_storage_node = λ address. on_metadata (Metadata.put_storage_node address);
    get_chunk = λ id. on_metadata (Metadata.get_chunk id);
    get_storage_node = λ id. on_metadata (Metadata.get_storage_node id);
    delete_storage_node = λ id. on_metadata (Metadata.delete_storage_node id);
    list_under_replicated_chunks = λ max. on_metadata (Metadata.list_under_replicated_chunks max);
    add_chunk_replica = λ id node_id. on_metadata (Metadata.add_chunk_replica id node_id);
    update_object_checksum =
        λ name checksum size. on_metadata (Metadata.update_object_checksum name checksum size);
  };
  storage = record {
    get_chunk_size = on_storage Storage.get_chunk_size;
    write_chunk = λ address id part. on_storage (Storage.write_chunk id part) address;
    read_chunk = λ address id. on_storage (Storage.read_chunk id) address;
    delete_chunk = λ address id. on_storage (Storage.delete_chunk id) address;
    get_free_chunks = on_storage Storage.get_free_chunks;
    check_health = on_storage Storage.check_health;
  };
  connect = λ address w. (answered tt, w);
}
