-- ===== src/Gateway/Upload.antt =====
-- The handlers that store objects: from a body at once, and from a multipart stream.
pub mod Chunking
pub mod Rollback
pub mod Stored
use Prim.Native.String.{String}
use text.Mathlib.Text.{◌==◌ as str_eq}
use object_store.Common.{
  ℕ, zero, suc, ◌+◌, ◌*◌, List, [], ◌∷◌, ◌++◌, Bool, true, false, Option, none, some, length, take,
  drop, ltb, leb, ◌==◌, if◌then◌else◌,
}
use object_store.Clients.{
  Answer, answered, refused, RpcCode, Call, Clients, StorageNodeMessage, AllocateChunkResponse,
}
use object_store.Gateway.Names.{validate_object_name}
use object_store.Gateway.State.{
  StatusCode, bad_request, payload_too_large, conflict, not_found, internal_server_error,
  HttpResult, ok, err, panicked, diverged, Handler, pure, raise, ◌>>=◌, ◌>>◌, continue, AppState,
  Metrics, counted, count_request, call, expect, unnoted, get_or_connect,
}

abbrev pub max_object_size : ℕ
max_object_size = 10 * 1024 * 1024 * 1024

-- A multipart request as the extractor gives it: fields, each with its fragments, and whether
-- reading on ends in an error.
pub record Field : Type 0 where
  pub name : Option String
  pub fragments : List (List ℕ)
  pub fails : Bool

pub record Multipart : Type 0 where
  pub fields : List Field
  pub fails : Bool

-- The loop that looks for the field "file".
unfoldable pub find_file : List Field → Bool → HttpResult Field
find_file [] fails = err bad_request
find_file (f ∷ fs) fails = elim f.name [
  | some name ↦ if str_eq name "file" then ok f else find_file fs fails
  | none ↦ find_file fs fails
]

-- `chunks(n)` of a slice, for `n` above 0: on fuel, of which its length is enough.
unfoldable pub pieces : ℕ → ℕ → List ℕ → List (List ℕ)
pieces fuel n [] = []
pieces zero n (b ∷ bs) = []
pieces (suc fuel) n (b ∷ bs) = take n (b ∷ bs) ∷ pieces fuel n (drop n (b ∷ bs))

-- The slices of `chunks(n)`, which panics at 0.
unfoldable pub chunks : ℕ → List ℕ → HttpResult (List (List ℕ))
unfolding pieces
chunks n bytes = if n == 0 then panicked else ok (pieces (length bytes) n bytes)

abbrev pub bump_uploads : ℕ → Metrics → Metrics
bump_uploads n m = record m {
  objects_uploaded_total = counted m.objects_uploaded_total 1;
  bytes_uploaded_total = counted m.bytes_uploaded_total n;
}

-- `find_file` with what is done where a field could not be read, and where none was left.
unfoldable pub find_field : {S : Type 0} → (S → S) → Multipart → Handler S Field
unfolding find_file
find_field undo multipart s = elim (find_file multipart.fields multipart.fails) [
  | ok field ↦ (ok field, s)
  | err e ↦ if multipart.fails then (err e, undo s) else (err e, undo s)
  | panicked ↦ (panicked, s)
  | diverged ↦ (diverged, s)
]

-- A step with what is done where it fails.
abbrev pub undone : {S A : Type 0} → (S → S) → HttpResult A × S → HttpResult A × S
undone undo (err e, s) = (err e, undo s)
undone undo (ok a, s) = (ok a, s)
undone undo (panicked, s) = (panicked, s)
undone undo (diverged, s) = (diverged, s)

abbrev pub or_undo : {S A : Type 0} → (S → S) → Handler S A → Handler S A
or_undo undo step s = undone undo (step s)

-- The loops on an operation that stores a piece, whatever it does.
module _ {S : Type 0} (flush : List ℕ → Handler S (Unit {0})) where
  unfoldable pub flush_all : List (List ℕ) → Handler S (Unit {0})
  flush_all [] s = (ok tt, s)
  flush_all (c ∷ cs) s = (flush c >> flush_all cs) s

  -- `while buffer.len() >= chunk_size`: what is left in the buffer. A round takes `chunk_size`
  -- bytes away, so that the length is fuel enough for a size above 0.
  unfoldable pub flush_full : ℕ → ℕ → List ℕ → Handler S (List ℕ)
  flush_full zero n buffer s = if leb n (length buffer) then (diverged, s) else (ok buffer, s)
  flush_full (suc fuel) n buffer s =
      let more = (flush (take n buffer) >> flush_full fuel n (drop n buffer)) s in
      if leb n (length buffer) then more else (ok buffer, s)

  -- The fragments of the stream: the buffer that is left, the size, and what the hasher has seen.
  unfoldable pub stream_fragments :
      Bool → ℕ → List (List ℕ) → List ℕ → ℕ → List ℕ → Handler S (List ℕ × ℕ × List ℕ)
  unfolding flush_full
  stream_fragments fails n [] buffer total hashed s =
      (if fails then err bad_request else ok (buffer, total, hashed), s)
  stream_fragments fails n (f ∷ fs) buffer total hashed s =
      let more =
        (flush_full (length (buffer ++ f)) n (buffer ++ f) >>= λ rest.
        stream_fragments fails n fs rest (total + length f) (hashed ++ f))
          s in
      if ltb max_object_size (total + length f) then (err payload_too_large, s) else more

  unfoldable pub flush_remaining : List ℕ → Handler S (Unit {0})
  flush_remaining [] s = (ok tt, s)
  flush_remaining (b ∷ bs) s = flush (b ∷ bs) s

  -- The whole stream, with the piece that is left at its end, and what is done after an error of
  -- either.
  unfoldable pub stream_field : (S → S) → ℕ → Field → Handler S (ℕ × List ℕ)
  unfolding stream_fragments flush_remaining
  stream_field undo n field = do
    (buffer, total, hashed) ← or_undo undo (stream_fragments field.fails n field.fragments [] 0 [])
    or_undo undo (flush_remaining buffer)
    pure (total, hashed)

module _ {W : Type 0} where
  abbrev pub count_put : String → AppState W → AppState W
  count_put status s = count_request "PUT" "object" status s

  abbrev pub count_multipart : String → AppState W → AppState W
  count_multipart status s = count_request "PUT" "object_multipart" status s

module _ {W : Type 0} (cl : Clients W) where
  -- The roll-back of an object, whatever it comes to.
  abbrev pub rollback : String → AppState W → AppState W
  rollback name s = (call (cl.metadata.delete_object name) s).1

  -- The chunk size, as the first of the storage nodes gives it. `note` counts a failure.
  unfoldable pub chunk_size_of :
      (AppState W → AppState W) → List StorageNodeMessage → Handler (AppState W) ℕ
  chunk_size_of note [] s = (err internal_server_error, note s)
  chunk_size_of note (n ∷ ns) s =
      (do
        connected ← call (cl.connect n.address)
        expect internal_server_error unnoted connected
        answer ← call (cl.storage.get_chunk_size n.address)
        expect internal_server_error note answer)
        s

module _ {W : Type 0} (cl : Clients W) (crc : List ℕ → ℕ) where
  -- One round of the loop of `handle_put_object`.
  unfoldable pub put_piece : String → List ℕ → Handler (AppState W) (Unit {0})
  unfolding get_or_connect
  put_piece name piece = do
    allocated ← call (cl.metadata.allocate_chunk name (crc piece))
    alloc ← expect internal_server_error (rollback cl name) allocated
    get_or_connect cl alloc.storage_node_address
    written ← call (cl.storage.write_chunk alloc.storage_node_address alloc.chunk_id piece)
    expect internal_server_error (rollback cl name) written
    confirmed ←
        call (cl.metadata.confirm_chunk alloc.chunk_id name (crc piece) alloc.storage_node_id)
    expect internal_server_error (rollback cl name) confirmed

  -- The end of `handle_put_object`, once the bytes are cut.
  unfoldable pub store_chunked : String → List ℕ → List (List ℕ) → Handler (AppState W) ℕ
  unfolding flush_all put_piece
  store_chunked name bytes chunked = do
    created ← call (cl.metadata.put_object (crc bytes) name)
    expect conflict (count_put "409") created
    flush_all (put_piece name) chunked
    (λ s. (
      ok (length bytes),
      count_put "200" (record s { metrics = bump_uploads (length bytes) s.metrics }),
    ))

  -- `handle_put_object`, from the size of the decoded bytes on.
  unfoldable pub put_decoded : String → List ℕ → Handler (AppState W) ℕ
  unfolding chunks store_chunked chunk_size_of
  put_decoded name bytes = do
    answer ← call cl.metadata.list_storage_nodes
    storage_nodes ← expect internal_server_error (count_put "500") answer
    chunk_size ← chunk_size_of cl (count_put "500") storage_nodes
    chunked ← (λ s. (chunks chunk_size bytes, s))
    store_chunked name bytes chunked

  unfoldable pub flush_chunk_to_storage : String → List ℕ → Handler (AppState W) (Unit {0})
  unfolding get_or_connect
  flush_chunk_to_storage name buf = do
    allocated ← call (cl.metadata.allocate_chunk name (crc buf))
    alloc ← expect internal_server_error unnoted allocated
    get_or_connect cl alloc.storage_node_address
    written ← call (cl.storage.write_chunk alloc.storage_node_address alloc.chunk_id buf)
    expect internal_server_error unnoted written
    confirmed ← call (cl.metadata.confirm_chunk alloc.chunk_id name (crc buf) alloc.storage_node_id)
    expect internal_server_error unnoted confirmed

  -- What is done between the creation of the object and its success: the size of the stream. Each
  -- error rolls the object back where it comes up.
  unfoldable pub store_multipart : String → ℕ → Multipart → Handler (AppState W) ℕ
  unfolding find_field stream_field flush_chunk_to_storage
  store_multipart name chunk_size multipart = do
    field ← find_field (rollback cl name) multipart
    (total_size, hashed) ←
        stream_field (flush_chunk_to_storage name) (rollback cl name) chunk_size field
    updated ← call (cl.metadata.update_object_checksum name (crc hashed) total_size)
    expect internal_server_error (rollback cl name) updated
    pure total_size

  -- The end of `handle_put_object_multipart`, once the chunk size is known.
  unfoldable pub put_multipart : String → ℕ → Multipart → Handler (AppState W) ℕ
  unfolding store_multipart
  put_multipart name chunk_size multipart = do
    created ← call (cl.metadata.put_object 0 name)
    expect conflict (count_multipart "409") created
    total_size ← store_multipart name chunk_size multipart
    (λ t. (
      ok total_size,
      count_multipart "200" (record t { metrics = bump_uploads total_size t.metrics }),
    ))

module _ {W : Type 0} (cl : Clients W) (crc : List ℕ → ℕ) (is_alphanumeric : ℕ → Bool) where
  unfoldable pub handle_put_object :
      (String → Option (List ℕ)) → String → String → Handler (AppState W) ℕ
  unfolding put_decoded validate_object_name
  handle_put_object decode name payload s =
      if validate_object_name is_alphanumeric name
      then elim (decode payload) [
        | none ↦ (err bad_request, count_put "400" s)
        | some bytes ↦
            if ltb max_object_size (length bytes)
            then (err payload_too_large, count_put "413" s)
            else put_decoded cl crc name bytes s
      ]
      else (err bad_request, count_put "400" s)

  unfoldable pub handle_put_object_multipart : String → Multipart → Handler (AppState W) ℕ
  unfolding put_multipart chunk_size_of validate_object_name
  handle_put_object_multipart name multipart s =
      if validate_object_name is_alphanumeric name
      then (do
        answer ← call cl.metadata.list_storage_nodes
        storage_nodes ← expect internal_server_error unnoted answer
        chunk_size ← chunk_size_of cl unnoted storage_nodes
        put_multipart cl crc name chunk_size multipart)
          s
      else (err bad_request, count_multipart "400" s)
