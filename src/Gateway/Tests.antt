-- ===== src/Gateway/Tests.antt =====
-- Runs of the gateway against services with one storage node, whose chunks are a list.
use object_store.Common.{
  ℕ, ◌≡◌, ◌≤◌, ◌↔◌, All, refl, List, [], ◌∷◌, Bool, true, false, Option, none, some, arith, ltb,
  ◌⊎◌, length,
}
use object_store.Common.Map.{Map, nat_eq, lookup, insert}
use object_store.Clients.{
  Answer, answered, refused, RpcCode, Clients, StorageNodeMessage, ChunkMessage,
}
use object_store.Gateway.Names.{codes, validate}
use object_store.Gateway.Names.Segments.{utf8_bytes, IsNameChar, none_empty, split, validate-split}
use object_store.Gateway.State.{conflict, internal_server_error, AppState, pure, ◌>>◌}
use object_store.Gateway.Retry.{retry_with_backoff, Retries, retry_with_backoff-Retries, IsRefused}
use object_store.Gateway.Download.{read_all, join_bytes, stream_chunks}
use object_store.Gateway.Download.Streaming.{whole, to_option, whole-stream_chunks}
use object_store.Gateway.Upload.{
  or_undo, count_multipart, Field, Multipart, pieces, flush_all, stream_field, put_piece,
  store_chunked, put_multipart, rollback,
}
use object_store.Gateway.Upload.Chunking.{stream_field-pieces}
use object_store.Gateway.Upload.Rollback.{put_multipart-err, FailsRolledBack}
use object_store.Gateway.Upload.Stored.{Ends, store_chunked-Ends}

abbrev World : Type 0
World = Map ℕ (List ℕ)

abbrev node : StorageNodeMessage
node = record { id = 1; address = "http://node" }

abbrev to_answer : Option (List ℕ) → Answer (List ℕ)
to_answer none = refused RpcCode.not_found
to_answer (some part) = answered part

-- A chunk's id is the number of chunks before it.
abbrev clients : Clients World
clients = record {
  metadata = record {
    list_storage_nodes = λ w. (answered (node ∷ []), w);
    put_object = λ checksum name w. (answered tt, w);
    get_object = λ name w. (refused RpcCode.not_found, w);
    delete_object = λ name w. (answered tt, []);
    allocate_chunk = λ name checksum w. (
      answered (record {
        chunk_id = length w;
        storage_node_address = node.address;
        storage_node_id = node.id;
      }),
      w,
    );
    confirm_chunk = λ id name checksum node_id w. (answered tt, w);
    list_objects = λ w. (answered [], w);
    delete_chunk = λ id w. (answered tt, w);
    put_chunk = λ name checksum w. (refused RpcCode.internal, w);
    put_storage_node = λ address w. (answered 1, w);
    get_chunk = λ id w. (refused RpcCode.not_found, w);
    get_storage_node = λ id w. (answered node.address, w);
    delete_storage_node = λ id w. (answered tt, w);
    list_under_replicated_chunks = λ max w. (answered [], w);
    add_chunk_replica = λ id node_id w. (answered tt, w);
    update_object_checksum = λ name checksum size w. (refused RpcCode.unavailable, w);
  };
  storage = record {
    get_chunk_size = λ address w. (answered 2, w);
    write_chunk = λ address id part w. (answered tt, insert id part w);
    read_chunk = λ address id w. (to_answer (lookup id w), w);
    delete_chunk = λ address id w. (answered tt, w);
    get_free_chunks = λ address w. (answered 9, w);
    check_health = λ address w. (answered true, w);
  };
  connect = λ address w. (answered tt, w);
}

abbrev start : AppState World
start = record {
  world = [];
  storage_connections = [];
  metrics = record {
    http_requests_total = [];
    objects_uploaded_total = 0;
    objects_downloaded_total = 0;
    objects_deleted_total = 0;
    bytes_uploaded_total = 0;
    bytes_downloaded_total = 0;
  };
}

abbrev crc : List ℕ → ℕ
crc bytes = length bytes

abbrev five : List ℕ
five = 1 ∷ 2 ∷ 3 ∷ 4 ∷ 5 ∷ []

abbrev ascii : ℕ → Bool
ascii c = ltb c 128

validate-split_example : (validate ascii (codes "a/b") ≡ true) ↔ (
    (length (utf8_bytes (codes "a/b")) ≤ 1024)
    × All (IsNameChar ascii) (codes "a/b")
    × (none_empty (split (codes "a/b")) ≡ true))
validate-split_example = validate-split ascii (codes "a/b")

retry_with_backoff-Retries_example :
    Retries 2
      (clients.storage.read_chunk "http://node" 7)
      []
      (retry_with_backoff 2 (clients.storage.read_chunk "http://node" 7) [])
retry_with_backoff-Retries_example =
    retry_with_backoff-Retries World (List ℕ) 2 (clients.storage.read_chunk "http://node" 7) []

abbrev listed : List ChunkMessage
listed = record { id = 0; checksum = 0; storage_nodes = node ∷ [] } ∷ []

whole-stream_chunks_example :
    whole (stream_chunks clients listed start).0
    ≡ to_option (join_bytes (read_all clients listed start).0)
whole-stream_chunks_example = whole-stream_chunks clients listed start

abbrev in_three : Field
in_three = record {
  name = some "file";
  fragments = (1 ∷ []) ∷ (2 ∷ 3 ∷ 4 ∷ []) ∷ (5 ∷ []) ∷ [];
  fails = false;
}

stream_field-pieces_example :
    stream_field (put_piece clients crc "photo") (rollback clients "photo") 2 in_three start
    ≡ or_undo
        (rollback clients "photo")
        (flush_all (put_piece clients crc "photo") (pieces 5 2 five) >> pure (5, five))
        start
stream_field-pieces_example =
    stream_field-pieces (AppState World) (put_piece clients crc "photo") (rollback clients "photo")
      2 in_three start (omega arith) refl (omega arith)

store_chunked-Ends_example :
    Ends clients crc "photo" five
      (pieces 5 2 five)
      start
      (store_chunked clients crc "photo" five (pieces 5 2 five) start)
store_chunked-Ends_example = store_chunked-Ends clients crc "photo" five (pieces 5 2 five) start

abbrev upload : Multipart
upload = record { fields = in_three ∷ []; fails = false }

put_multipart-err_example :
    let (created, w) = clients.metadata.put_object 0 "photo" start.world in
    let s' = (put_multipart clients crc "photo" 2 upload start).1 in
    ((internal_server_error ≡ conflict)
      × IsRefused created
      × (s' ≡ count_multipart "409" (record start { world = w })))
    ⊎ ((created ≡ answered tt)
        × FailsRolledBack clients crc "photo" 2 upload
            (record start { world = w })
            internal_server_error
            s')
unfolding put_multipart
put_multipart-err_example =
    put_multipart-err clients crc "photo" 2 upload start internal_server_error refl
