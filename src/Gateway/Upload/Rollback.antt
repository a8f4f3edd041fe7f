-- ===== src/Gateway/Upload/Rollback.antt =====
-- What comes of an upload: each piece is allocated, written and confirmed, or the object is left
-- behind or rolled back.
use Prim.Native.String.{String}
use object_store.Common.{
  ℕ, ◌≡◌, refl, ◌∙◌, ap, subst, ℕ, List, [], ◌∷◌, ◌⊎◌, inl, inr, Bool-cases, Bool, true, false,
  if◌then◌else◌,
}
use object_store.Clients.{Answer, answered, refused, RpcCode, Clients, AllocateChunkResponse}
use object_store.Gateway.State.{
  StatusCode, conflict, internal_server_error, HttpResult, ok, err, panicked, diverged, Handler,
  continue, pure, ◌>>=◌, ◌>>◌, call, expect, AppState, is_cached, get_or_connect,
}
use object_store.Gateway.Retry.{IsRefused}
use object_store.Gateway.Upload.{
  rollback, put_piece, flush_all, Multipart, store_multipart, put_multipart, Field, find_file,
  find_field, undone, or_undo, stream_fragments, flush_remaining, stream_field,
  flush_chunk_to_storage, count_multipart, bump_uploads,
}

-- How a handler ends: in a state with one property, or in an error with another.
abbrev pub Comes :
    {S A : Type 0} → (A → S → Type 0) → (StatusCode → S → Type 0) → HttpResult A × S → Type 0
Comes P Q (ok a, s) = P a s
Comes P Q (err e, s) = Q e s
Comes P Q (panicked, s) = ⊥
Comes P Q (diverged, s) = ⊥

same_either : {A : Type 0} (b : Bool) (a : A) → (if b then a else a) ≡ a
same_either true a = refl
same_either false a = refl

module _ {W : Type 0} (cl : Clients W) where
  -- The last call deleted the object, or a storage node refused a connection.
  abbrev pub IsLeft : String → AppState W → Type 0
  IsLeft name s =
      ((t : AppState W) × (s ≡ rollback cl name t))
      ⊎ ((t : AppState W) × (address : String) × (get_or_connect cl address t
            ≡ (err internal_server_error, s)))

  get_or_connect-Comes :
      (address : String) (s : AppState W)
      → Comes (λ _ _. Unit) (λ e _. e ≡ internal_server_error) (get_or_connect cl address s)
  unfolding get_or_connect
  get_or_connect-Comes address s = elim (Bool-cases (is_cached address s.storage_connections)) [
    | inl t ↦ rw t tt
    | inr t ↦ rw t (by_answer (cl.connect address s.world) refl)
  ]
    where
      by_answer :
          (q : Answer (Unit {0}) × W)
          → cl.connect address s.world ≡ q
          → Comes
              (λ _ _. Unit)
              (λ e _. e ≡ internal_server_error)
              (elim (cl.connect address s.world).0 as (λ _. HttpResult (Unit {0}) × AppState W) [
                | answered _ ↦ (
                  ok tt,
                  record s {
                    world = (cl.connect address s.world).1;
                    storage_connections = address ∷ s.storage_connections;
                  },
                )
                | refused _ ↦
                    (err internal_server_error, record s { world = (cl.connect address s.world).1 })
              ])
      by_answer (answered a, w) e = rw e tt
      by_answer (refused c, w) e = rw e refl

  module _ (crc : List ℕ → ℕ) (name : String) where
    -- A piece is stored: it has an allocation, its node has it, and it is confirmed.
    pub record Stores (piece : List ℕ) (s s' : AppState W) : Type 0 where
      pub alloc : AllocateChunkResponse
      pub allocated : W
      pub connected : AppState W
      pub written : W
      pub confirmed : W
      pub allocates :
          cl.metadata.allocate_chunk name (crc piece) s.world ≡ (answered alloc, allocated)
      pub connects :
          get_or_connect cl alloc.storage_node_address (record s { world = allocated })
          ≡ (ok tt, connected)
      pub writes :
          cl.storage.write_chunk alloc.storage_node_address alloc.chunk_id piece connected.world
          ≡ (answered tt, written)
      pub confirms :
          cl.metadata.confirm_chunk alloc.chunk_id name (crc piece) alloc.storage_node_id written
          ≡ (answered tt, confirmed)
      pub after : s' ≡ record connected { world = confirmed }

    -- One piece after another.
    abbrev pub StoresAll : List (List ℕ) → AppState W → AppState W → Type 0
    StoresAll [] s s' = s' ≡ s
    StoresAll (p ∷ ps) s s' = (t : AppState W) × Stores p s t × StoresAll ps t s'

    abbrev pub Fails : StatusCode → AppState W → Type 0
    Fails e s = (e ≡ internal_server_error) × IsLeft name s

    put_piece-Comes :
        (piece : List ℕ) (s : AppState W)
        → Comes (λ _ s'. Stores piece s s') Fails (put_piece cl crc name piece s)
    unfolding put_piece
    put_piece-Comes piece s =
        by_allocation (cl.metadata.allocate_chunk name (crc piece) s.world) refl
      where
        by_confirmation :
            (alloc : AllocateChunkResponse) (w w' : W) (t : AppState W)
            → cl.metadata.allocate_chunk name (crc piece) s.world ≡ (answered alloc, w)
            → get_or_connect cl alloc.storage_node_address (record s { world = w }) ≡ (ok tt, t)
            → cl.storage.write_chunk alloc.storage_node_address alloc.chunk_id piece t.world
              ≡ (answered tt, w')
            → (q : Answer (Unit {0}) × W)
            → cl.metadata.confirm_chunk alloc.chunk_id name (crc piece) alloc.storage_node_id w' ≡ q
            → Comes (λ _ s'. Stores piece s s') Fails (put_piece cl crc name piece s)
        by_confirmation alloc w w' t a c d (answered _, w'') e =
            rw (a, put_piece)
              (rw c (
                rw d (
                  rw e (record {
                    alloc = alloc;
                    allocated = w;
                    connected = t;
                    written = w';
                    confirmed = w'';
                    allocates = a;
                    connects = c;
                    writes = d;
                    confirms = e;
                    after = refl;
                  }))))
        by_confirmation alloc w w' t a c d (refused _, w'') e =
            rw (a, put_piece) (rw c (rw d (rw e (refl, inl (record t { world = w'' }, refl)))))

        by_write :
            (alloc : AllocateChunkResponse) (w : W) (t : AppState W)
            → cl.metadata.allocate_chunk name (crc piece) s.world ≡ (answered alloc, w)
            → get_or_connect cl alloc.storage_node_address (record s { world = w }) ≡ (ok tt, t)
            → (q : Answer (Unit {0}) × W)
            → cl.storage.write_chunk alloc.storage_node_address alloc.chunk_id piece t.world ≡ q
            → Comes (λ _ s'. Stores piece s s') Fails (put_piece cl crc name piece s)
        by_write alloc w t a c (answered _, w') d = by_confirmation alloc w w' t a c d _ refl
        by_write alloc w t a c (refused _, w') d =
            rw (a, put_piece) (rw c (rw d (refl, inl (record t { world = w' }, refl))))

        by_connection :
            (alloc : AllocateChunkResponse) (w : W)
            → cl.metadata.allocate_chunk name (crc piece) s.world ≡ (answered alloc, w)
            → (q : HttpResult (Unit {0}) × AppState W)
            → get_or_connect cl alloc.storage_node_address (record s { world = w }) ≡ q
            → Comes (λ _ _. Unit) (λ e _. e ≡ internal_server_error) q
            → Comes (λ _ s'. Stores piece s s') Fails (put_piece cl crc name piece s)
        by_connection alloc w a (ok _, t) c h = by_write alloc w t a c _ refl
        by_connection alloc w a (err k, t) c h =
            rw (a, put_piece)
              (rw c (
                h,
                inr (
                  record s { world = w },
                  alloc.storage_node_address,
                  c ∙ ap (λ (x : StatusCode). (err x, t)) h,
                ),
              ))
        by_connection alloc w a (panicked, t) c h = absurd h
        by_connection alloc w a (diverged, t) c h = absurd h

        by_allocation :
            (q : Answer AllocateChunkResponse × W)
            → cl.metadata.allocate_chunk name (crc piece) s.world ≡ q
            → Comes (λ _ s'. Stores piece s s') Fails (put_piece cl crc name piece s)
        by_allocation (answered alloc, w) a =
            by_connection alloc w a _ refl
              (get_or_connect-Comes alloc.storage_node_address (record s { world = w }))
        by_allocation (refused _, w) a =
            rw (a, put_piece) (refl, inl (record s { world = w }, refl))

    then_all :
        (p : List ℕ) (ps : List (List ℕ)) (s : AppState W) (q : HttpResult (Unit {0}) × AppState W)
        (k : Handler (AppState W) (Unit {0}))
        → Comes (λ _ t. Stores p s t) Fails q
        → ((t : AppState W) → Comes (λ _ s'. StoresAll ps t s') Fails (k t))
        → Comes (λ _ s'. StoresAll (p ∷ ps) s s') Fails (continue q.0 (λ _. k) q.1)
    then_all p ps s (ok _, t) k h rest = on_ok (k t) (rest t)
      where
        on_ok :
            (q : HttpResult (Unit {0}) × AppState W)
            → Comes (λ _ s'. StoresAll ps t s') Fails q
            → Comes (λ _ s'. StoresAll (p ∷ ps) s s') Fails q
        on_ok (ok _, s') g = (t, h, g)
        on_ok (err e, s') g = g
        on_ok (panicked, s') g = g
        on_ok (diverged, s') g = g
    then_all p ps s (err e, t) k h rest = h
    then_all p ps s (panicked, t) k h rest = h
    then_all p ps s (diverged, t) k h rest = h

    -- The loop of `handle_put_object` ends in a state where every piece was allocated, written to
    -- the node of its allocation and confirmed with its checksum, one after another; or in the
    -- status 500, and then its last call deleted the object, or it was a storage node that refused
    -- a connection.
    pub flush_all-put_piece :
        (ps : List (List ℕ)) (s : AppState W)
        → Comes (λ _ s'. StoresAll ps s s') Fails (flush_all (put_piece cl crc name) ps s)
    unfolding flush_all
    flush_all-put_piece [] s = refl
    flush_all-put_piece (p ∷ ps) s =
        then_all p ps s (put_piece cl crc name p s) (flush_all (put_piece cl crc name) ps)
          (put_piece-Comes p s) (λ t. flush_all-put_piece ps t)

    abbrev pub flush : List ℕ → Handler (AppState W) (Unit {0})
    flush = flush_chunk_to_storage cl crc name

    -- Where a multipart upload fails once the object is created, the status, and the state that is
    -- then rolled back.
    pub data FailsAt (n : ℕ) (multipart : Multipart) (s : AppState W)
        : StatusCode → AppState W → Type 0 where
      at_search :
          {e : StatusCode}
          → find_file multipart.fields multipart.fails ≡ err e
          → FailsAt n multipart s e s
      at_stream :
          {field : Field} {e : StatusCode} {t : AppState W}
          → find_file multipart.fields multipart.fails ≡ ok field
          → stream_fragments flush field.fails n field.fragments [] 0 [] s ≡ (err e, t)
          → FailsAt n multipart s e t
      at_remaining :
          {field : Field} {buffer hashed : List ℕ} {total : ℕ} {e : StatusCode} {t u : AppState W}
          → find_file multipart.fields multipart.fails ≡ ok field
          → stream_fragments flush field.fails n field.fragments [] 0 [] s
            ≡ (ok (buffer, total, hashed), t)
          → flush_remaining flush buffer t ≡ (err e, u)
          → FailsAt n multipart s e u
      at_update :
          {field : Field} {buffer hashed : List ℕ} {total : ℕ} {code : RpcCode} {t u : AppState W}
          {w : W}
          → find_file multipart.fields multipart.fails ≡ ok field
          → stream_fragments flush field.fails n field.fragments [] 0 [] s
            ≡ (ok (buffer, total, hashed), t)
          → flush_remaining flush buffer t ≡ (ok tt, u)
          → cl.metadata.update_object_checksum name (crc hashed) total u.world ≡ (refused code, w)
          → FailsAt n multipart s internal_server_error (record u { world = w })

    -- A failure is of `FailsAt`, and its last call is for the deletion of the object.
    abbrev pub FailsRolledBack : ℕ → Multipart → AppState W → StatusCode → AppState W → Type 0
    FailsRolledBack n multipart s e s' =
        (t : AppState W) × FailsAt n multipart s e t × (s' ≡ rollback cl name t)

    module _ (n : ℕ) (multipart : Multipart) (s : AppState W) where
      abbrev Fine : {A : Type 0} → HttpResult A × AppState W → Type 0
      Fine (ok a, s') = Unit
      Fine (err e, s') = FailsRolledBack n multipart s e s'
      Fine (panicked, s') = Unit
      Fine (diverged, s') = Unit

      Fine-update :
          (field : Field) (buffer hashed : List ℕ) (total : ℕ) (t u : AppState W)
          → find_file multipart.fields multipart.fails ≡ ok field
          → stream_fragments flush field.fails n field.fragments [] 0 [] s
            ≡ (ok (buffer, total, hashed), t)
          → flush_remaining flush buffer t ≡ (ok tt, u)
          → Fine (
              (call (cl.metadata.update_object_checksum name (crc hashed) total) >>= λ updated.
              expect internal_server_error (rollback cl name) updated >> pure total)
                u)
      Fine-update field buffer hashed total t u f g h =
          by_answer (cl.metadata.update_object_checksum name (crc hashed) total u.world).0 refl
        where
          w : W
          w = (cl.metadata.update_object_checksum name (crc hashed) total u.world).1

          by_answer :
              (a : Answer (Unit {0}))
              → (cl.metadata.update_object_checksum name (crc hashed) total u.world).0 ≡ a
              → Fine (
                  (call (cl.metadata.update_object_checksum name (crc hashed) total) >>= λ updated.
                  expect internal_server_error (rollback cl name) updated >> pure total)
                    u)
          by_answer (answered _) e = rw e tt
          by_answer (refused code) e = rw e (
            record u { world = w },
            at_update f g h (ap (λ (x : Answer (Unit {0})). (x, w)) e),
            refl,
          )

      abbrev then_update : HttpResult (ℕ × List ℕ) × AppState W → HttpResult ℕ × AppState W
      then_update q =
          continue q.0
            (λ (total_size, hashed).
              call (cl.metadata.update_object_checksum name (crc hashed) total_size) >>= λ updated.
              expect internal_server_error (rollback cl name) updated >> pure total_size)
            q.1

      Fine-remaining :
          (field : Field) (buffer hashed : List ℕ) (total : ℕ) (t : AppState W)
          → find_file multipart.fields multipart.fails ≡ ok field
          → stream_fragments flush field.fails n field.fragments [] 0 [] s
            ≡ (ok (buffer, total, hashed), t)
          → (q : HttpResult (Unit {0}) × AppState W) → flush_remaining flush buffer t ≡ q
          → Fine (
              then_update (
                continue
                  (undone (rollback cl name) q).0
                  (λ _. pure (total, hashed))
                  (undone (rollback cl name) q).1))
      Fine-remaining field buffer hashed total t f g (ok _, u) h =
          Fine-update field buffer hashed total t u f g h
      Fine-remaining field buffer hashed total t f g (err e, u) h = (u, at_remaining f g h, refl)
      Fine-remaining field buffer hashed total t f g (panicked, u) h = tt
      Fine-remaining field buffer hashed total t f g (diverged, u) h = tt

      Fine-stream :
          (field : Field)
          → find_file multipart.fields multipart.fails ≡ ok field
          → (q : HttpResult (List ℕ × ℕ × List ℕ) × AppState W)
          → stream_fragments flush field.fails n field.fragments [] 0 [] s ≡ q
          → Fine (
              then_update (
                continue
                  (undone (rollback cl name) q).0
                  (λ (buffer, total, hashed).
                    or_undo (rollback cl name) (flush_remaining flush buffer)
                    >> pure (total, hashed))
                  (undone (rollback cl name) q).1))
      Fine-stream field f (ok (buffer, total, hashed), t) g =
          Fine-remaining field buffer hashed total t f g (flush_remaining flush buffer t) refl
      Fine-stream field f (err e, t) g = (t, at_stream f g, refl)
      Fine-stream field f (panicked, t) g = tt
      Fine-stream field f (diverged, t) g = tt

      store_multipart-Fine : Fine (store_multipart cl crc name n multipart s)
      unfolding store_multipart find_field stream_field
      store_multipart-Fine = by_search (find_file multipart.fields multipart.fails) refl
        where
          by_search :
              (r : HttpResult Field)
              → find_file multipart.fields multipart.fails ≡ r
              → Fine (store_multipart cl crc name n multipart s)
          by_search (ok field) f =
              rw (f, store_multipart, find_field)
                (Fine-stream field f
                  (stream_fragments flush field.fails n field.fragments [] 0 [] s) refl)
          by_search (err e) f =
              let ended : HttpResult Field × AppState W = (err e, rollback cl name s) in
              rw (f, store_multipart, find_field)
                (rw (same_either multipart.fails ended) (s, at_search f, refl))
          by_search panicked f = rw (f, store_multipart, find_field) tt
          by_search diverged f = rw (f, store_multipart, find_field) tt

    -- The end of `handle_put_object_multipart` ends in an error with 409, where the creation of the
    -- object is refused, and then has made no other call. After the creation it ends in an error
    -- where the search for the field, the stream, the piece that is left at its end, or the update
    -- of the checksum fails, with the status of that failure; and it has then made one more call, for the
    -- deletion of the object, whatever that answers.
    pub put_multipart-err :
        (n : ℕ) (multipart : Multipart) (s : AppState W) (e : StatusCode)
        → (put_multipart cl crc name n multipart s).0 ≡ err e
        → let (created, w) = cl.metadata.put_object 0 name s.world in
          let s' = (put_multipart cl crc name n multipart s).1 in
          ((e ≡ conflict)
            × IsRefused created
            × (s' ≡ count_multipart "409" (record s { world = w })))
          ⊎ ((created ≡ answered tt) × FailsRolledBack n multipart (record s { world = w }) e s')
    unfolding put_multipart
    put_multipart-err n multipart s e = by_creation (cl.metadata.put_object 0 name s.world).0 refl
      where
        w : W
        w = (cl.metadata.put_object 0 name s.world).1

        start : AppState W
        start = record s { world = w }

        Goal : Type 0
        Goal =
            (put_multipart cl crc name n multipart s).0 ≡ err e
            → ((e ≡ conflict)
                × IsRefused (cl.metadata.put_object 0 name s.world).0
                × ((put_multipart cl crc name n multipart s).1 ≡ count_multipart "409" start))
              ⊎ (((cl.metadata.put_object 0 name s.world).0 ≡ answered tt)
                  × FailsRolledBack n multipart start e (put_multipart cl crc name n multipart s).1)

        by_end :
            (cl.metadata.put_object 0 name s.world).0 ≡ answered tt
            → (q : HttpResult ℕ × AppState W) → Fine n multipart start q
            → (continue q.0
                (λ size t. (
                  ok size,
                  count_multipart "200" (record t { metrics = bump_uploads size t.metrics }),
                ))
                q.1).0
              ≡ err e
            → FailsRolledBack n multipart start e
                (continue q.0
                  (λ size t. (
                    ok size,
                    count_multipart "200" (record t { metrics = bump_uploads size t.metrics }),
                  ))
                  q.1).1
        by_end a (ok size, t) g k = absurd (cc k)
        by_end a (err c, t) g k =
            let same : c ≡ e = cc k in
            subst (λ (x : StatusCode). FailsRolledBack n multipart start x t) same g
        by_end a (panicked, t) g k = absurd (cc k)
        by_end a (diverged, t) g k = absurd (cc k)

        by_creation : (x : Answer (Unit {0})) → (cl.metadata.put_object 0 name s.world).0 ≡ x → Goal
        by_creation (answered _) a =
            rw (a, put_multipart)
              (λ k. inr (
                refl,
                by_end a (store_multipart cl crc name n multipart start)
                    (store_multipart-Fine n multipart start) k,
              ))
        by_creation (refused c) a = rw (a, put_multipart) (λ k. inl (cc k, tt, refl))
