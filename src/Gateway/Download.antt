-- ===== src/Gateway/Download.antt =====
-- The handlers that read, list and delete objects.
pub mod Streaming
use Prim.Native.String.{String}
use object_store.Common.{ℕ, suc, List, [], ◌∷◌, ◌++◌, Bool, true, false, length, if◌then◌else◌}
use object_store.Clients.{
  Answer, answered, refused, RpcCode, Call, Clients, StorageNodeMessage, ChunkMessage,
  ObjectMessage, GetObjectResponse,
}
use object_store.Gateway.Names.{validate_object_name}
use object_store.Gateway.Retry.{retry_with_backoff}
use object_store.Gateway.State.{
  StatusCode, bad_request, not_found, internal_server_error, HttpResult, ok, err, panicked,
  diverged, Handler, pure, raise, ◌>>=◌, ◌>>◌, continue, AppState, Metrics, counted, count_request,
  call, expect, unnoted, get_or_connect,
}

-- What the body of `handle_get_object_stream` yields.
pub data StreamItem : Type 0 where
  bytes : List ℕ → StreamItem
  broken : StreamItem

pub record ListedChunk : Type 0 where
  pub id : ℕ
  pub text : String
  pub node_address : String

pub record ListedObject : Type 0 where
  pub name : String
  pub chunks : List ListedChunk

-- The responses that were read, joined, or the first failure.
unfoldable pub join_bytes : List (HttpResult (List ℕ)) → HttpResult (List ℕ)
join_bytes [] = ok []
join_bytes (ok part ∷ results) = elim (join_bytes results) [
  | ok rest ↦ ok (part ++ rest)
  | err e ↦ err e
  | panicked ↦ panicked
  | diverged ↦ diverged
]
join_bytes (err e ∷ results) = err e
join_bytes (panicked ∷ results) = panicked
join_bytes (diverged ∷ results) = diverged

abbrev pub bump_downloads : ℕ → Metrics → Metrics
bump_downloads n m = record m {
  objects_downloaded_total = counted m.objects_downloaded_total 1;
  bytes_downloaded_total = counted m.bytes_downloaded_total n;
}

-- The pairs of a chunk and a node that are to be deleted.
unfoldable pub targets_of : ℕ → List StorageNodeMessage → List (ℕ × String)
targets_of id [] = []
targets_of id (n ∷ ns) = (id, n.address) ∷ targets_of id ns

unfoldable pub delete_targets : List ChunkMessage → List (ℕ × String)
unfolding targets_of
delete_targets [] = []
delete_targets (c ∷ cs) = targets_of c.id c.storage_nodes ++ delete_targets cs

module _ {W : Type 0} (cl : Clients W) where
  -- One try of a read: a connection, and the call with its retries.
  unfoldable pub read_from : String → ℕ → Handler (AppState W) (List ℕ)
  unfolding get_or_connect retry_with_backoff
  read_from address id = do
    get_or_connect cl address
    answer ← call (retry_with_backoff 2 (cl.storage.read_chunk address id))
    expect internal_server_error unnoted answer

  -- The storage nodes of a chunk one after another, until one answers.
  unfoldable pub read_chunk : ℕ → List StorageNodeMessage → Handler (AppState W) (List ℕ)
  unfolding read_from
  read_chunk id [] s = (err internal_server_error, s)
  read_chunk id (n ∷ ns) s = elim (read_from n.address id s).0 [
    | ok part ↦ (ok part, (read_from n.address id s).1)
    | err _ ↦ read_chunk id ns (read_from n.address id s).1
    | panicked ↦ (panicked, (read_from n.address id s).1)
    | diverged ↦ (diverged, (read_from n.address id s).1)
  ]

  -- `join_all` of the reads, taken in the order of the chunks: all are made, also after a failure.
  unfoldable pub read_all : List ChunkMessage → AppState W → List (HttpResult (List ℕ)) × AppState W
  unfolding read_chunk
  read_all [] s = ([], s)
  read_all (c ∷ cs) s =
      let (r, s') = read_chunk c.id c.storage_nodes s in
      let (rs, s'') = read_all cs s' in (r ∷ rs, s'')

  -- The stream, run to its end: it stops at the first chunk that no node gives.
  unfoldable pub stream_chunks : List ChunkMessage → AppState W → List StreamItem × AppState W
  unfolding read_chunk
  stream_chunks [] s = ([], s)
  stream_chunks (c ∷ cs) s = elim (read_chunk c.id c.storage_nodes s).0 [
    | ok part ↦ (
      bytes part ∷ (stream_chunks cs (read_chunk c.id c.storage_nodes s).1).0,
      (stream_chunks cs (read_chunk c.id c.storage_nodes s).1).1,
    )
    | _ ↦ (broken ∷ [], (read_chunk c.id c.storage_nodes s).1)
  ]

  -- The first node of a chunk that takes a connection, without the cache.
  unfoldable pub first_connected : List StorageNodeMessage → Handler (AppState W) String
  first_connected [] s = (err internal_server_error, s)
  first_connected (n ∷ ns) s = elim (call (cl.connect n.address) s).0 [
    | ok (answered _) ↦ (ok n.address, (call (cl.connect n.address) s).1)
    | _ ↦ first_connected ns (call (cl.connect n.address) s).1
  ]

  -- The deletions on the storage nodes, whatever each comes to.
  unfoldable pub delete_from : String → ℕ → Handler (AppState W) (Unit {0})
  unfolding get_or_connect retry_with_backoff
  delete_from address id = do
    get_or_connect cl address
    answer ← call (retry_with_backoff 2 (cl.storage.delete_chunk address id))
    expect internal_server_error unnoted answer

  unfoldable pub delete_each : List (ℕ × String) → AppState W → AppState W
  unfolding delete_from
  delete_each [] s = s
  delete_each ((id, address) ∷ targets) s = delete_each targets (delete_from address id s).1

  -- The deletions from the metadata, whatever each comes to.
  unfoldable pub forget_chunks : List ChunkMessage → AppState W → AppState W
  forget_chunks [] s = s
  forget_chunks (c ∷ cs) s = forget_chunks cs (call (cl.metadata.delete_chunk c.id) s).1

module _ {W : Type 0} (cl : Clients W) (encode : List ℕ → String) where
  -- The end of `handle_get_object`.
  unfoldable pub finish_get : HttpResult (List ℕ) → Handler (AppState W) String
  finish_get (ok part) s = (
    ok (encode part),
    count_request "GET" "object" "200"
        (record s { metrics = bump_downloads (length part) s.metrics }),
  )
  finish_get (err e) s = (err e, count_request "GET" "object" "500" s)
  finish_get panicked s = (panicked, s)
  finish_get diverged s = (diverged, s)

  unfoldable pub read_object : List ChunkMessage → Handler (AppState W) String
  unfolding join_bytes read_all finish_get
  read_object chunks s = finish_get (join_bytes (read_all cl chunks s).0) (read_all cl chunks s).1

  unfoldable pub list_chunk : ChunkMessage → Handler (AppState W) ListedChunk
  unfolding first_connected
  list_chunk c = do
    address ← first_connected cl c.storage_nodes
    answer ← call (cl.storage.read_chunk address c.id)
    part ← expect internal_server_error unnoted answer
    pure (record { id = c.id; text = encode part; node_address = address })

  unfoldable pub list_chunks : List ChunkMessage → Handler (AppState W) (List ListedChunk)
  unfolding list_chunk
  list_chunks [] = pure []
  list_chunks (c ∷ cs) = do listed ← list_chunk c; rest ← list_chunks cs; pure (listed ∷ rest)

  unfoldable pub list_each : List ObjectMessage → Handler (AppState W) (List ListedObject)
  unfolding list_chunks
  list_each [] = pure []
  list_each (o ∷ os) = do
    chunks ← list_chunks o.chunks
    rest ← list_each os
    pure (record { name = o.name; chunks = chunks } ∷ rest)

  unfoldable pub handle_list_objects : Handler (AppState W) (List ListedObject)
  unfolding list_each
  handle_list_objects = do
    answer ← call cl.metadata.list_objects
    objects ← expect internal_server_error (count_request "GET" "list" "500") answer
    listed ← list_each objects
    (λ s. (ok listed, count_request "GET" "list" "200" s))

module _ {W : Type 0} (cl : Clients W) (is_alphanumeric : ℕ → Bool) where
  -- The counters go up when the response is made, before its body is read.
  unfoldable pub handle_get_object_stream : String → Handler (AppState W) (List StreamItem)
  unfolding stream_chunks validate_object_name
  handle_get_object_stream name s =
      if validate_object_name is_alphanumeric name
      then (do
        answer ← call (cl.metadata.get_object name)
        object ← expect not_found (count_request "GET" "object_stream" "404") answer
        (λ t.
            let counted_up = count_request "GET" "object_stream" "200" (record t {
              metrics = record (t.metrics) {
                objects_downloaded_total = counted t.metrics.objects_downloaded_total 1;
              };
            }) in
            (
              ok (stream_chunks cl object.chunks counted_up).0,
              (stream_chunks cl object.chunks counted_up).1,
            )))
          s
      else (err bad_request, count_request "GET" "object_stream" "400" s)

  unfoldable pub handle_delete_object : String → Handler (AppState W) (Unit {0})
  unfolding delete_targets delete_each forget_chunks validate_object_name
  handle_delete_object name s =
      if validate_object_name is_alphanumeric name
      then (do
        found ← call (cl.metadata.get_object name)
        object ← expect not_found (count_request "DELETE" "object" "404") found
        (λ t. (
          ok tt,
          forget_chunks cl object.chunks (delete_each cl (delete_targets object.chunks) t),
        ))
        deleted ← call (cl.metadata.delete_object name)
        expect internal_server_error (count_request "DELETE" "object" "500") deleted
        (λ t. (
          ok tt,
          count_request "DELETE" "object" "200" (record t {
            metrics = record (t.metrics) {
              objects_deleted_total = counted t.metrics.objects_deleted_total 1;
            };
          }),
        )))
          s
      else (err bad_request, count_request "DELETE" "object" "400" s)

module _ {W : Type 0} (cl : Clients W) (encode : List ℕ → String) (is_alphanumeric : ℕ → Bool) where
  unfoldable pub handle_get_object : String → Handler (AppState W) String
  unfolding read_object validate_object_name
  handle_get_object name s =
      if validate_object_name is_alphanumeric name
      then (do
        answer ← call (cl.metadata.get_object name)
        object ← expect not_found (count_request "GET" "object" "404") answer
        read_object cl encode object.chunks)
          s
      else (err bad_request, count_request "GET" "object" "400" s)
