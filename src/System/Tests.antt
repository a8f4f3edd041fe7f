-- ===== src/System/Tests.antt =====
-- An upload through a metadata node and one storage node with two slots.
use Prim.Native.String.{String}
use object_store.Common.{
  ℕ, ◌*◌, ◌%◌, ◌^◌, ◌≡◌, refl, subst, List, [], ◌∷◌, Bool, true, false, Option, none, some, arith,
  length, ltb,
}
use object_store.Common.Map.{nat_eq, string_eq, lookup, insert, contains_key}
use object_store.Clients.{refused, RpcCode, Clients}
use object_store.ChunkStore.Header.{slot_size}
use object_store.ChunkStore.File.{moves}
use object_store.ChunkStore.Store.Model.{Chunks}
use object_store.ChunkStore.Store.Get.{IsChecksum}
use object_store.MetadataStore.Types.{MetaStorageNode, Json, Random}
use object_store.MetadataNode.{Node}
use object_store.StorageNode.{StorageNodeImpl}
use object_store.MetadataNode.Global
use object_store.MetadataStore.Objects
use object_store.StorageNode
use object_store.ChunkStore.Store
use object_store.MetadataNode.Local
use object_store.MetadataStore.Types
use object_store.MetadataStore.Chunks
use object_store.ChunkStore.Bytes
use object_store.ChunkStore.File
use object_store.ChunkStore.Header
use object_store.ChunkStore.Slots
use object_store.System.StorageCalls.{IsSound}
use object_store.System.MetadataCalls.{IsRandom}
use object_store.System.Calls.{System, system}
use object_store.System.RoundTrip.{upload-download}
use object_store.System.Lawful.{Keeps, system-IsLawful}
use object_store.Services.{IsLawful}
use object_store.Gateway.State.{AppState, ok}
use object_store.Gateway.Download.{handle_get_object}
use object_store.Gateway.Upload.{handle_put_object}

abbrev crc : List ℕ → ℕ
crc bytes = length bytes % 2 ^ 32

crc_u32 : IsChecksum crc
crc_u32 bytes = omega arith

abbrev storage_node : StorageNodeImpl
storage_node = record {
  store = record {
    file = record { bytes = λ _. 0; size = slot_size * 2; answers = λ _. moves 5; calls = 0 };
    index = [];
    free_slots = 1 ∷ 0 ∷ [];
    total_slots = 2;
    fsync_every_n_writes = some 1;
    fsync_on_delete = true;
    write_counter = 0;
    poisoned = false;
  };
  metrics = record {
    chunks_written_total = 0;
    bytes_written_total = 0;
    chunks_read_total = 0;
    bytes_read_total = 0;
    chunks_deleted_total = 0;
    grpc_requests_total = [];
    free_slots_gauge = 0;
  };
}

abbrev no_chunks : Chunks
no_chunks _ = none

storage_node-IsSound : IsSound crc storage_node no_chunks
unfolding lookup
storage_node-IsSound = record {
  serves = record {
    valid = record {
      slots = record {
        injective = λ i j slot p q. absurd (cc p);
        used_not_free = λ i slot p. absurd (cc p);
        free_distinct = (((λ p. absurd (omega arith)), tt), (tt, tt));
        used_below = λ i slot p. absurd (cc p);
        free_below = (omega arith, (omega arith, tt));
      };
      size = refl;
    };
    live = refl;
    view = record { at = λ id. tt };
  };
  reliable = λ k. (4, refl);
}

abbrev known : MetaStorageNode
known = record { id = 1; address = "http://node" }

abbrev metadata_node : Node
metadata_node = record {
  node_id = "a";
  clustered = false;
  ring = record { ring = [] };
  peer_addrs = [];
  metadata_store = record {
    objects = [];
    chunks = [];
    storage_nodes = (1, known) ∷ [];
    contents = none;
    failures = λ k. none;
    saves = 0;
  };
  chunk_index = record { index = [] };
}

abbrev json : Json
json = record { encode = λ p. ""; decode = λ text. none }

abbrev first_of : List MetaStorageNode → Option MetaStorageNode
first_of [] = none
first_of (n ∷ ns) = some n

abbrev randoms : ℕ → Random
randoms k = record { draws = 7 ∷ 8 ∷ 9 ∷ []; choose = first_of }

randoms-IsRandom : (k : ℕ) → IsRandom (randoms k) metadata_node.metadata_store.storage_nodes
unfolding lookup
randoms-IsRandom k = record {
  draws_u64 = (omega arith, (omega arith, (omega arith, tt)));
  chooses = λ n e.
      let same : known ≡ n = cc e in
      subst
        (λ (m : MetaStorageNode). lookup m.id metadata_node.metadata_store.storage_nodes ≡ some m)
        same refl;
}

abbrev start : AppState System
start = record {
  world = record { node = metadata_node; storage = λ address. storage_node; asked = 0 };
  storage_connections = [];
  metrics = record {
    http_requests_total = [];
    objects_uploaded_total = 0;
    objects_downloaded_total = 0;
    objects_deleted_total = 0;
    bytes_uploaded_total = 0;
    bytes_downloaded_total = 0;
  };
}

-- The calls that neither an upload nor a download makes.
abbrev unanswered : Clients System
unanswered = record {
  metadata = record {
    list_storage_nodes = λ w. (refused RpcCode.unavailable, w);
    put_object = λ checksum name w. (refused RpcCode.unavailable, w);
    get_object = λ name w. (refused RpcCode.unavailable, w);
    delete_object = λ name w. (refused RpcCode.unavailable, w);
    allocate_chunk = λ name checksum w. (refused RpcCode.unavailable, w);
    confirm_chunk = λ id name checksum node_id w. (refused RpcCode.unavailable, w);
    list_objects = λ w. (refused RpcCode.unavailable, w);
    delete_chunk = λ id w. (refused RpcCode.unavailable, w);
    put_chunk = λ name checksum w. (refused RpcCode.unavailable, w);
    put_storage_node = λ address w. (refused RpcCode.unavailable, w);
    get_chunk = λ id w. (refused RpcCode.unavailable, w);
    get_storage_node = λ id w. (refused RpcCode.unavailable, w);
    delete_storage_node = λ id w. (refused RpcCode.unavailable, w);
    list_under_replicated_chunks = λ max w. (refused RpcCode.unavailable, w);
    add_chunk_replica = λ id node_id w. (refused RpcCode.unavailable, w);
    update_object_checksum = λ name checksum size w. (refused RpcCode.unavailable, w);
  };
  storage = record {
    get_chunk_size = λ address w. (refused RpcCode.unavailable, w);
    write_chunk = λ address id part w. (refused RpcCode.unavailable, w);
    read_chunk = λ address id w. (refused RpcCode.unavailable, w);
    delete_chunk = λ address id w. (refused RpcCode.unavailable, w);
    get_free_chunks = λ address w. (refused RpcCode.unavailable, w);
    check_health = λ address w. (refused RpcCode.unavailable, w);
  };
  connect = λ address w. (refused RpcCode.unavailable, w);
}

abbrev letters : ℕ → Bool
letters c = ltb 96 c

abbrev two : List ℕ
two = 1 ∷ 2 ∷ []

abbrev decode : String → Option (List ℕ)
decode text = some two

abbrev encode : List ℕ → String
encode [] = ""
encode (b ∷ bytes) = "AQI="

abbrev after_put : AppState System
after_put =
    (handle_put_object (system json crc randoms unanswered) crc letters decode "photo" "AQI="
      start).1

put_returns :
    (handle_put_object
      (system json crc randoms unanswered)
      crc
      letters
      decode
      "photo"
      "AQI="
      start).0
    ≡ ok 2
unfolding handle_put_object Global.list_storage_nodes Objects.list_storage_nodes Objects.put_object
    StorageNode.get_chunk_size_request StorageNode.write_chunk StorageNode.finish_write
    Store.get_chunk_size Store.put_chunk Store.clear_slot Store.find_slot Store.finish_put
    Store.free_slots Store.should_fsync_write Local.put_object Local.allocate_chunk
    Local.confirm_chunk contains_key insert Types.save Types.generate_unique_id
    Chunks.allocate_chunk Chunks.reserve Chunks.choose_storage_node Chunks.confirm_chunk
    Bytes.patched Bytes.to_le_bytes File.sync_data File.write_at File.write_loop Header.to_bytes
    Slots.write_chunk_at lookup
put_returns = refl

upload-download_example :
    (2 ≡ length two)
    × ((handle_get_object (system json crc randoms unanswered) encode letters "photo" after_put).0
        ≡ ok "AQI=")
upload-download_example =
    upload-download json crc randoms unanswered letters decode encode "photo" "AQI=" two 2 start
      crc_u32 randoms-IsRandom (λ address. (no_chunks, storage_node-IsSound)) refl put_returns

system-IsLawful_example : IsLawful (system json crc randoms unanswered) (Keeps crc randoms)
system-IsLawful_example = system-IsLawful json crc randoms unanswered crc_u32
