-- ===== src/Gateway/RoundTrip/Multipart.antt =====
-- `handle_put_object_multipart` and then `handle_get_object`.
use Prim.Native.String.{String}
use object_store.Common.{
  ℕ, ◌≡◌, refl, ap, subst, List, [], ◌++◌, Bool, true, length, Bool-cases, inl, inr,
}
use object_store.Clients.{
  Answer, answered, refused, Clients, AllocateChunkResponse, StorageNodeMessage,
}
use object_store.Services.{View, IsLawful}
use object_store.Gateway.State.{
  conflict, internal_server_error, HttpResult, ok, err, panicked, diverged, pure, AppState, unnoted,
  call, expect, get_or_connect, ◌>>=◌, ◌>>◌,
}
use object_store.Gateway.Names.{validate_object_name}
use object_store.Gateway.Download.{handle_get_object}
use object_store.Gateway.Upload.{
  Field, Multipart, find_file, stream_field, flush_chunk_to_storage, store_multipart, put_multipart,
  handle_put_object_multipart, count_multipart, chunk_size_of, rollback, find_field,
}
use object_store.Gateway.Upload.Chunking.{concat}
use object_store.Gateway.Upload.Rollback.{Stores}
use object_store.Gateway.RoundTrip.OnOk.{OnOk, on_ok, on_run, on_answer}
use object_store.Gateway.RoundTrip.Streamed.{stream_field-Inv}
use object_store.Gateway.RoundTrip.Served.{Uploaded, handle_get_object-Serves}
use object_store.Gateway.RoundTrip.Pieces.{chunk_size_of-Is, creates-Uploaded, Stores-Uploaded}

-- A field that was found, with no call.
find_field-ok :
    {S : Type 0} (undo : S → S) (multipart : Multipart) (field : Field) (s t : S)
    → find_field undo multipart s ≡ (ok field, t)
    → (find_file multipart.fields multipart.fails ≡ ok field) × (s ≡ t)
unfolding find_field
find_field-ok {S} undo multipart field s t =
    by_search (find_file multipart.fields multipart.fails) refl
  where
    Goal : Type 0
    Goal =
        find_field undo multipart s ≡ (ok field, t)
        → (find_file multipart.fields multipart.fails ≡ ok field) × (s ≡ t)

    by_search : (r : HttpResult Field) → find_file multipart.fields multipart.fails ≡ r → Goal
    by_search (ok f) k = rw (k, find_field) (λ e. (cc e, ap (λ (q : HttpResult Field × S). q.1) e))
    by_search (err c) k = elim (Bool-cases multipart.fails) [
      | inl b ↦ rw (k, find_field) (rw b (λ e. absurd (cc e)))
      | inr b ↦ rw (k, find_field) (rw b (λ e. absurd (cc e)))
    ]
    by_search panicked k = rw (k, find_field) (λ e. absurd (cc e))
    by_search diverged k = rw (k, find_field) (λ e. absurd (cc e))

module _ {W : Type 0} (cl : Clients W) (crc : List ℕ → ℕ) (name : String) where
  flush_chunk_to_storage-Stores :
      (piece : List ℕ) (s : AppState W)
      → OnOk (λ _ s'. Stores cl crc name piece s s') (flush_chunk_to_storage cl crc name piece s)
  unfolding flush_chunk_to_storage
  flush_chunk_to_storage-Stores piece s =
      on_answer P (cl.metadata.allocate_chunk name (crc piece)) internal_server_error unnoted _ s
        (λ alloc w a.
          on_run P (get_or_connect cl alloc.storage_node_address) _ (record s { world = w })
            (λ _ t c.
              on_answer P (cl.storage.write_chunk alloc.storage_node_address alloc.chunk_id piece)
                internal_server_error unnoted _ t
                (λ _ w' d.
                  on_confirm alloc w w' t a c d
                    (cl.metadata.confirm_chunk alloc.chunk_id name (crc piece) alloc.storage_node_id
                      w')
                    refl)))
    where
      P : Unit {0} → AppState W → Type 0
      P _ s' = Stores cl crc name piece s s'

      on_confirm :
          (alloc : AllocateChunkResponse) (w w' : W) (t : AppState W)
          → cl.metadata.allocate_chunk name (crc piece) s.world ≡ (answered alloc, w)
          → get_or_connect cl alloc.storage_node_address (record s { world = w }) ≡ (ok tt, t)
          → cl.storage.write_chunk alloc.storage_node_address alloc.chunk_id piece t.world
            ≡ (answered tt, w')
          → (q : Answer (Unit {0}) × W)
          → cl.metadata.confirm_chunk alloc.chunk_id name (crc piece) alloc.storage_node_id w' ≡ q
          → OnOk P (expect internal_server_error unnoted q.0 (record t { world = q.1 }))
      on_confirm alloc w w' t a c d (answered _, w'') e = record {
        alloc = alloc;
        allocated = w;
        connected = t;
        written = w';
        confirmed = w'';
        allocates = a;
        connects = c;
        writes = d;
        confirms = e;
        after = refl;
      }
      on_confirm alloc w w' t a c d (refused _, w'') e = tt

module _ {W : Type 0} (cl : Clients W) (Is : W → View → Type 0) (law : IsLawful cl Is) where
  module _ (crc : List ℕ → ℕ) (name : String) (v : View) where
    flush_chunk_to_storage-Uploaded :
        (done piece : List ℕ) (s : AppState W)
        → Uploaded cl Is law v name done s.world
        → OnOk
            (λ _ t. Uploaded cl Is law v name (done ++ piece) t.world)
            (flush_chunk_to_storage cl crc name piece s)
    flush_chunk_to_storage-Uploaded done piece s u =
        by_end (flush_chunk_to_storage cl crc name piece s)
          (flush_chunk_to_storage-Stores cl crc name piece s)
      where
        by_end :
            (q : HttpResult (Unit {0}) × AppState W)
            → OnOk (λ _ s'. Stores cl crc name piece s s') q
            → OnOk (λ _ t. Uploaded cl Is law v name (done ++ piece) t.world) q
        by_end (ok _, t) h = Stores-Uploaded cl Is law crc name v done piece s t h u
        by_end (err e, t) h = tt
        by_end (panicked, t) h = tt
        by_end (diverged, t) h = tt

    -- The bytes of the first field "file", and their number.
    abbrev Received : Multipart → ℕ → AppState W → Type 0
    Received multipart size t =
        (field : Field) × (find_file multipart.fields multipart.fails ≡ ok field)
        × (size ≡ length (concat field.fragments))
        × Uploaded cl Is law v name (concat field.fragments) t.world

    store_multipart-Received :
        (n : ℕ) (multipart : Multipart) (s : AppState W)
        → Uploaded cl Is law v name [] s.world
        → OnOk (Received multipart) (store_multipart cl crc name n multipart s)
    unfolding store_multipart
    store_multipart-Received n multipart s u =
        on_run (Received multipart) (find_field (rollback cl name) multipart) _ s (λ field t found.
          let (named, kept) = find_field-ok (rollback cl name) multipart field s t found in
          on_field field t named
            (subst (λ (x : AppState W). Uploaded cl Is law v name [] x.world) kept u))
      where
        on_field :
            (field : Field) (t : AppState W)
            → find_file multipart.fields multipart.fails ≡ ok field
            → Uploaded cl Is law v name [] t.world
            → OnOk (Received multipart) (
                (stream_field (flush_chunk_to_storage cl crc name) (rollback cl name) n field
                    >>= λ (total_size, hashed).
                        call (cl.metadata.update_object_checksum name (crc hashed) total_size)
                        >>= λ updated.
                            expect internal_server_error (rollback cl name) updated
                            >> pure total_size)
                  t)
        on_field field t found h =
            on_ok
              (λ q s'.
                (q.0 ≡ length (concat field.fragments))
                × (q.1 ≡ concat field.fragments)
                × Uploaded cl Is law v name (concat field.fragments) s'.world)
              (Received multipart)
              (stream_field (flush_chunk_to_storage cl crc name) (rollback cl name) n field t) _
              (stream_field-Inv (flush_chunk_to_storage cl crc name)
                (λ bytes s'. Uploaded cl Is law v name bytes s'.world)
                flush_chunk_to_storage-Uploaded (rollback cl name) n field t h)
              (λ q s' (size, _, stored).
                on_answer (Received multipart)
                  (cl.metadata.update_object_checksum name (crc q.1) q.0) internal_server_error
                  (rollback cl name) (λ _. pure q.0) s'
                  (λ _ w e. (
                    field,
                    found,
                    size,
                    record {
                      view = stored.view;
                      is = law.updates name (crc q.1) q.0 s'.world w stored.view stored.is e;
                      serves = stored.serves;
                      others = stored.others;
                    },
                  )))

    put_multipart-Received :
        (n : ℕ) (multipart : Multipart) (s : AppState W)
        → Is s.world v
        → OnOk (Received multipart) (put_multipart cl crc name n multipart s)
    unfolding put_multipart
    put_multipart-Received n multipart s h =
        on_answer (Received multipart) (cl.metadata.put_object 0 name) conflict
          (count_multipart "409") _ s
          (λ _ w e.
            let t = record s { world = w } in
            on_ok (Received multipart) (Received multipart)
              (store_multipart cl crc name n multipart t) _
              (store_multipart-Received n multipart t
                (creates-Uploaded cl Is law 0 name s.world w v h e))
              (λ _ _ g. g))

    module _ (is_alphanumeric : ℕ → Bool) where
      handle_put_object_multipart-Received :
          (multipart : Multipart) (s : AppState W)
          → validate_object_name is_alphanumeric name ≡ true
          → Is s.world v
          → OnOk
              (Received multipart)
              (handle_put_object_multipart cl crc is_alphanumeric name multipart s)
      unfolding handle_put_object_multipart
      handle_put_object_multipart-Received multipart s valid h =
          let more =
            on_answer (Received multipart) cl.metadata.list_storage_nodes internal_server_error
              unnoted
              (λ nodes.
                chunk_size_of cl unnoted nodes >>= λ n. put_multipart cl crc name n multipart)
              s
              (λ nodes w e.
                on_ok (λ _ t. Is t.world v) (Received multipart)
                  (chunk_size_of cl unnoted nodes (record s { world = w })) _
                  (chunk_size_of-Is cl Is law unnoted nodes (record s { world = w }) v
                    (subst (λ (q : Answer (List StorageNodeMessage) × W). Is q.1 v) e
                      (law.lists_nodes s.world v h)))
                  (λ n t is. put_multipart-Received n multipart t is)) in
          rw (valid, handle_put_object_multipart) more

      handle_put_object_multipart-valid :
          (multipart : Multipart) (n : ℕ) (s : AppState W)
          → (handle_put_object_multipart cl crc is_alphanumeric name multipart s).0 ≡ ok n
          → validate_object_name is_alphanumeric name ≡ true
      unfolding handle_put_object_multipart
      handle_put_object_multipart-valid multipart n s e =
          elim (Bool-cases (validate_object_name is_alphanumeric name)) [
            | inl t ↦ t
            | inr f ↦ absurd (cc (rw (f, handle_put_object_multipart) at e))
          ]

      -- Over lawful services that keep a view, a multipart upload that returns a number has found the
      -- first field "file" and returns the number of its bytes, however they come in fragments; a
      -- download under the same name then gives the bytes, encoded, and the services keep a view in
      -- which every other object that was served still is.
      pub handle_get_object-handle_put_object_multipart :
          (encode : List ℕ → String) (multipart : Multipart) (n : ℕ) (s : AppState W)
          → Is s.world v
          → (handle_put_object_multipart cl crc is_alphanumeric name multipart s).0 ≡ ok n
          → let s' = (handle_put_object_multipart cl crc is_alphanumeric name multipart s).1 in
            (field : Field) × (find_file multipart.fields multipart.fails ≡ ok field)
            × (n ≡ length (concat field.fragments))
            × ((handle_get_object cl encode is_alphanumeric name s').0
                ≡ ok (encode (concat field.fragments)))
            × Uploaded cl Is law v name (concat field.fragments) s'.world
      handle_get_object-handle_put_object_multipart encode multipart n s h e =
          by_end (handle_put_object_multipart cl crc is_alphanumeric name multipart s) e
            (handle_put_object_multipart-Received multipart s valid h)
        where
          valid : validate_object_name is_alphanumeric name ≡ true
          valid = handle_put_object_multipart-valid multipart n s e

          by_end :
              (q : HttpResult ℕ × AppState W)
              → q.0 ≡ ok n
              → OnOk (Received multipart) q
              → (field : Field) × (find_file multipart.fields multipart.fails ≡ ok field)
                × (n ≡ length (concat field.fragments))
                × ((handle_get_object cl encode is_alphanumeric name q.1).0
                    ≡ ok (encode (concat field.fragments)))
                × Uploaded cl Is law v name (concat field.fragments) q.1.world
          by_end (ok m, s') k (field, found, size, u) = (
            field,
            found,
            cc (k, size),
            handle_get_object-Serves cl Is law is_alphanumeric encode name (concat field.fragments)
                s' u.view valid u.is u.serves,
            u,
          )
          by_end (err c, s') k g = absurd (cc k)
          by_end (panicked, s') k g = absurd (cc k)
          by_end (diverged, s') k g = absurd (cc k)
