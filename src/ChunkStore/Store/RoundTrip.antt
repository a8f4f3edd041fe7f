-- ===== src/ChunkStore/Store/RoundTrip.antt =====
-- Calls of `put_chunk`, `delete_chunk` and `get_chunk` in a row.
use object_store.Common.{
  ℕ, ◌^◌, ◌≤◌, ◌<◌, ◌≡◌, ◌≢◌, refl, List, [], true, false, none, arith, length, ◌==◌,
}
use object_store.Common.Io.{ok, err, not_found}
use object_store.ChunkStore.Header.{slot_data_size}
use object_store.ChunkStore.File.{IsReliable}
use object_store.ChunkStore.Store.{ChunkStore, put_chunk, get_chunk, delete_chunk}
use object_store.ChunkStore.Store.Model.{IsValid, Chunks, with_chunk, without_chunk, Represents}
use object_store.ChunkStore.Store.Put.{put_chunk-Puts}
use object_store.ChunkStore.Store.Get.{IsChecksum, get_chunk-Gets}
use object_store.ChunkStore.Store.Delete.{delete_chunk-Deletes}

same : (id : ℕ) → (id == id) ≡ true
same id = ground arith

-- On a valid store whose lock is not poisoned, with a free slot and a reliable file, and for a
-- checksum of 32 bits, `put_chunk` of data that fits under a new id of 64 bits succeeds, and
-- `get_chunk` then returns the data and its checksum.
pub get_chunk-put_chunk :
    (crc : List ℕ → ℕ) (id : ℕ) (bytes : List ℕ) (s : ChunkStore) (m : Chunks)
    → IsChecksum crc
    → s.poisoned ≡ false
    → IsValid s
    → Represents crc s.file s.index m
    → id < 2 ^ 64
    → length bytes ≤ slot_data_size
    → m id ≡ none
    → s.free_slots ≢ []
    → IsReliable s.file
    → let s' = (put_chunk crc id bytes s).1 in
      ((put_chunk crc id bytes s).0 ≡ ok tt) × ((get_chunk crc id s').0 ≡ ok (bytes, crc bytes))
get_chunk-put_chunk crc id bytes s m crc_u32 live valid view id_u64 fits new free good =
    let p = put_chunk-Puts crc id bytes s m live valid view id_u64 fits in
    let done = p.succeeds new free good in
    let g =
      get_chunk-Gets crc id (put_chunk crc id bytes s).1 (with_chunk id bytes m) crc_u32 p.live
        p.valid (p.done done).1 in
    (done, g.found bytes (rw (same id) refl) (rw p.answers good))

-- On a valid store whose lock is not poisoned, for a checksum of 32 bits, after `delete_chunk`,
-- which may report an error, the chunk is not found.
get_chunk-delete_chunk :
    (crc : List ℕ → ℕ) (id : ℕ) (s : ChunkStore) (m : Chunks)
    → IsChecksum crc
    → s.poisoned ≡ false
    → IsValid s
    → Represents crc s.file s.index m
    → (get_chunk crc id (delete_chunk id s).1).0 ≡ err not_found
get_chunk-delete_chunk crc id s m crc_u32 live valid view =
    let d = delete_chunk-Deletes crc id s m live valid view in
    (get_chunk-Gets crc id (delete_chunk id s).1 (without_chunk id m) crc_u32 d.live d.valid
        d.view).missing
      (rw (same id) refl)
