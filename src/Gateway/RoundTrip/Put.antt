-- ===== src/Gateway/RoundTrip/Put.antt =====
-- `handle_put_object` and then `handle_get_object`.
use Prim.Native.String.{String}
use object_store.Common.{
  inl, inr, Bool-cases, ℕ, zero, suc, arith, ◌≡◌, refl, sym, subst, List, [], Bool, true, false,
  Option, some, length, ltb, ◌==◌,
}
use object_store.Clients.{Answer, answered, refused, Clients, StorageNodeMessage}
use object_store.Services.{View, IsLawful}
use object_store.Gateway.State.{HttpResult, ok, err, panicked, diverged, continue, AppState}
use object_store.Gateway.Names.{validate_object_name}
use object_store.Gateway.Download.{handle_get_object}
use object_store.Gateway.Upload.{
  pieces, chunks, store_chunked, put_decoded, handle_put_object, count_put, max_object_size,
}
use object_store.Gateway.Upload.Chunking.{concat, pieces_lem}
use object_store.Gateway.Upload.Stored.{Uploads, Ends, store_chunked-Ends}
use object_store.Gateway.RoundTrip.OnOk.{OnOk}
use object_store.Gateway.RoundTrip.Served.{Uploaded, handle_get_object-Serves}
use object_store.Gateway.RoundTrip.Pieces.{chunk_size_of-Is, creates-Uploaded, StoresAll-Uploaded}

chunks-pieces :
    (n : ℕ) (bytes : List ℕ) (ps : List (List ℕ)) → chunks n bytes ≡ ok ps → concat ps ≡ bytes
unfolding chunks
chunks-pieces zero bytes ps e = absurd (cc e)
chunks-pieces (suc n) bytes ps e =
    let above : (suc n == 0) ≡ false = ground arith in
    let cut = rw above at e in
    let same : pieces (length bytes) (suc n) bytes ≡ ps = cc cut in
    subst (λ (qs : List (List ℕ)). concat qs ≡ bytes) same
      (pieces_lem (suc n) bytes (omega arith)).0

module _ {W : Type 0} (cl : Clients W) (Is : W → View → Type 0) (law : IsLawful cl Is) where
  module _ (crc : List ℕ → ℕ) (name : String) (bytes : List ℕ) where
    Uploads-Uploaded :
        (ps : List (List ℕ)) (s s' : AppState W) (v : View)
        → concat ps ≡ bytes
        → Is s.world v
        → Uploads cl crc name bytes ps s s'
        → Uploaded cl Is law v name bytes s'.world
    Uploads-Uploaded ps s s' v whole h u =
        let made = creates-Uploaded cl Is law (crc bytes) name s.world u.created v h u.creates in
        let stored =
          StoresAll-Uploaded cl Is law crc name v ps [] (record s { world = u.created }) u.stored
            u.stores made in
        subst (λ (t : AppState W). Uploaded cl Is law v name bytes t.world) (sym u.after)
          (subst (λ (bs : List ℕ). Uploaded cl Is law v name bs u.stored.world) whole stored)

    store_chunked-Uploaded :
        (ps : List (List ℕ)) (s : AppState W) (v : View)
        → concat ps ≡ bytes
        → Is s.world v
        → OnOk
            (λ n s'. (n ≡ length bytes) × Uploaded cl Is law v name bytes s'.world)
            (store_chunked cl crc name bytes ps s)
    store_chunked-Uploaded ps s v whole h =
        by_end (store_chunked cl crc name bytes ps s) (store_chunked-Ends cl crc name bytes ps s)
      where
        by_end :
            (q : HttpResult ℕ × AppState W)
            → Ends cl crc name bytes ps s q
            → OnOk (λ n s'. (n ≡ length bytes) × Uploaded cl Is law v name bytes s'.world) q
        by_end (ok n, s') (size, u) = (size, Uploads-Uploaded ps s s' v whole h u)
        by_end (err e, s') g = tt
        by_end (panicked, s') g = tt
        by_end (diverged, s') g = tt

    put_decoded-Uploaded :
        (s : AppState W) (v : View)
        → Is s.world v
        → OnOk
            (λ n s'. (n ≡ length bytes) × Uploaded cl Is law v name bytes s'.world)
            (put_decoded cl crc name bytes s)
    unfolding put_decoded
    put_decoded-Uploaded s v h = by_nodes (cl.metadata.list_storage_nodes s.world).0 refl
      where
        Good : HttpResult ℕ × AppState W → Type 0
        Good q = OnOk (λ n s'. (n ≡ length bytes) × Uploaded cl Is law v name bytes s'.world) q

        by_chunks :
            (r : HttpResult (List (List ℕ))) (n : ℕ) (t : AppState W)
            → chunks n bytes ≡ r
            → Is t.world v
            → Good (continue r (store_chunked cl crc name bytes) t)
        by_chunks (ok ps) n t e is = store_chunked-Uploaded ps t v (chunks-pieces n bytes ps e) is
        by_chunks (err c) n t e is = tt
        by_chunks panicked n t e is = tt
        by_chunks diverged n t e is = tt

        by_size :
            (q : HttpResult ℕ × AppState W)
            → OnOk (λ _ t. Is t.world v) q
            → Good (
                continue q.0
                  (λ n t. continue (chunks n bytes) (store_chunked cl crc name bytes) t)
                  q.1)
        by_size (ok n, t) is = by_chunks (chunks n bytes) n t refl is
        by_size (err c, t) is = tt
        by_size (panicked, t) is = tt
        by_size (diverged, t) is = tt

        by_nodes :
            (a : Answer (List StorageNodeMessage))
            → (cl.metadata.list_storage_nodes s.world).0 ≡ a
            → Good (put_decoded cl crc name bytes s)
        by_nodes (answered nodes) e =
            rw (e, put_decoded)
              (by_size _ (
                chunk_size_of-Is cl Is law (count_put "500") nodes
                  (record s { world = (cl.metadata.list_storage_nodes s.world).1 }) v
                  (law.lists_nodes s.world v h)))
        by_nodes (refused _) e = rw (e, put_decoded) tt

    module _ (is_alphanumeric : ℕ → Bool) (encode : List ℕ → String) where
      handle_put_object-Uploaded :
          (decode : String → Option (List ℕ)) (payload : String) (s : AppState W) (v : View)
          → validate_object_name is_alphanumeric name ≡ true
          → decode payload ≡ some bytes
          → Is s.world v
          → OnOk
              (λ n s'. (n ≡ length bytes) × Uploaded cl Is law v name bytes s'.world)
              (handle_put_object cl crc is_alphanumeric decode name payload s)
      unfolding handle_put_object
      handle_put_object-Uploaded decode payload s v valid d h =
          by_room (ltb max_object_size (length bytes)) refl
        where
          by_room :
              (b : Bool)
              → ltb max_object_size (length bytes) ≡ b
              → OnOk
                  (λ n s'. (n ≡ length bytes) × Uploaded cl Is law v name bytes s'.world)
                  (handle_put_object cl crc is_alphanumeric decode name payload s)
          by_room true e = rw (valid, handle_put_object) (rw d (rw e tt))
          by_room false e = rw (valid, handle_put_object) (rw d (rw e (put_decoded-Uploaded s v h)))

      handle_put_object-valid :
          (decode : String → Option (List ℕ)) (payload : String) (n : ℕ) (s : AppState W)
          → (handle_put_object cl crc is_alphanumeric decode name payload s).0 ≡ ok n
          → validate_object_name is_alphanumeric name ≡ true
      unfolding handle_put_object
      handle_put_object-valid decode payload n s e =
          elim (Bool-cases (validate_object_name is_alphanumeric name)) [
            | inl t ↦ t
            | inr f ↦ absurd (cc (rw (f, handle_put_object) at e))
          ]

      -- Over lawful services that keep a view, an upload of the payload of some bytes that returns a
      -- number returns that of the bytes, a download under the same name then gives the bytes,
      -- encoded, and the services keep a view in which every other object that was served still is.
      pub handle_get_object-handle_put_object :
          (decode : String → Option (List ℕ)) (payload : String) (n : ℕ) (s : AppState W) (v : View)
          → Is s.world v
          → decode payload ≡ some bytes
          → (handle_put_object cl crc is_alphanumeric decode name payload s).0 ≡ ok n
          → let s' = (handle_put_object cl crc is_alphanumeric decode name payload s).1 in
            (n ≡ length bytes)
            × ((handle_get_object cl encode is_alphanumeric name s').0 ≡ ok (encode bytes))
            × Uploaded cl Is law v name bytes s'.world
      handle_get_object-handle_put_object decode payload n s v h d e =
          by_end (handle_put_object cl crc is_alphanumeric decode name payload s) e
            (handle_put_object-Uploaded decode payload s v valid d h)
        where
          valid : validate_object_name is_alphanumeric name ≡ true
          valid = handle_put_object-valid decode payload n s e

          by_end :
              (q : HttpResult ℕ × AppState W)
              → q.0 ≡ ok n
              → OnOk (λ n s'. (n ≡ length bytes) × Uploaded cl Is law v name bytes s'.world) q
              → (n ≡ length bytes)
                × ((handle_get_object cl encode is_alphanumeric name q.1).0 ≡ ok (encode bytes))
                × Uploaded cl Is law v name bytes q.1.world
          by_end (ok m, s') k (size, u) = (
            cc (k, size),
            handle_get_object-Serves cl Is law is_alphanumeric encode name bytes s' u.view valid
                u.is u.serves,
            u,
          )
          by_end (err c, s') k g = absurd (cc k)
          by_end (panicked, s') k g = absurd (cc k)
          by_end (diverged, s') k g = absurd (cc k)
