-- ===== src/Gateway/Upload/Stored.antt =====
-- What a successful upload has done, and how a multipart upload fails.
use Prim.Native.String.{String}
use object_store.Common.{ℕ, ◌≡◌, refl, List, ◌⊎◌, inl, inr, length}
use object_store.Clients.{Answer, answered, refused, RpcCode, Clients}
use object_store.Gateway.State.{
  StatusCode, HttpResult, ok, err, panicked, diverged, continue, AppState, conflict,
}
use object_store.Gateway.Upload.{flush_all, put_piece, store_chunked, count_put, bump_uploads}
use object_store.Gateway.Upload.Rollback.{Comes, StoresAll, Fails, flush_all-put_piece}

module _ {W : Type 0} (cl : Clients W) (crc : List ℕ → ℕ) (name : String) where
  -- The object is created, its pieces are stored one after another, and the success is counted.
  pub record Uploads (bytes : List ℕ) (ps : List (List ℕ)) (s s' : AppState W) : Type 0 where
    pub created : W
    pub stored : AppState W
    pub creates : cl.metadata.put_object (crc bytes) name s.world ≡ (answered tt, created)
    pub stores : StoresAll cl crc name ps (record s { world = created }) stored
    pub after :
        s'
        ≡ count_put "200" (record stored { metrics = bump_uploads (length bytes) stored.metrics })

  -- The name is refused, and nothing but that is counted.
  pub record Conflicts (bytes : List ℕ) (e : StatusCode) (s s' : AppState W) : Type 0 where
    pub code : RpcCode
    pub created : W
    pub status : e ≡ conflict
    pub refuses : cl.metadata.put_object (crc bytes) name s.world ≡ (refused code, created)
    pub after : s' ≡ count_put "409" (record s { world = created })

  abbrev pub Ends : List ℕ → List (List ℕ) → AppState W → HttpResult ℕ × AppState W → Type 0
  Ends bytes ps s =
      Comes (λ n s'. (n ≡ length bytes) × Uploads bytes ps s s')
        (λ e s'. Conflicts bytes e s s' ⊎ Fails cl crc name e s')

  -- Where the object's bytes are cut into `ps`, the end of `handle_put_object` returns the number
  -- of bytes after the object was created with their checksum and each of the pieces was
  -- allocated, written and confirmed, in order; or it ends with 409, where the creation is
  -- refused; or with 500, and then its last call deleted the object, or it was a storage node that
  -- refused a connection.
  pub store_chunked-Ends :
      (bytes : List ℕ) (ps : List (List ℕ)) (s : AppState W)
      → Ends bytes ps s (store_chunked cl crc name bytes ps s)
  unfolding store_chunked
  store_chunked-Ends bytes ps s = by_creation (cl.metadata.put_object (crc bytes) name s.world) refl
    where
      by_pieces :
          (w : W)
          → cl.metadata.put_object (crc bytes) name s.world ≡ (answered tt, w)
          → (q : HttpResult (Unit {0}) × AppState W)
          → Comes
              (λ _ s'. StoresAll cl crc name ps (record s { world = w }) s')
              (Fails cl crc name)
              q
          → Ends bytes ps s (
              continue q.0
                (λ _ t. (
                  ok (length bytes),
                  count_put "200" (record t { metrics = bump_uploads (length bytes) t.metrics }),
                ))
                q.1)
      by_pieces w e (ok _, t) h =
          (refl, record { created = w; stored = t; creates = e; stores = h; after = refl })
      by_pieces w e (err k, t) h = inr h
      by_pieces w e (panicked, t) h = h
      by_pieces w e (diverged, t) h = h

      by_creation :
          (q : Answer (Unit {0}) × W)
          → cl.metadata.put_object (crc bytes) name s.world ≡ q
          → Ends bytes ps s (store_chunked cl crc name bytes ps s)
      by_creation (answered _, w) e =
          rw (e, store_chunked)
            (by_pieces w e (flush_all (put_piece cl crc name) ps (record s { world = w }))
              (flush_all-put_piece cl crc name ps (record s { world = w })))
      by_creation (refused c, w) e =
          rw (e, store_chunked)
            (inl (record { code = c; created = w; status = refl; refuses = e; after = refl }))
