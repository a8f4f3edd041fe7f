-- ===== src/System/StorageCalls.antt =====
-- What answered calls of a storage node have done.
use object_store.Common.{
  ℕ, ◌^◌, ◌≤◌, ◌<◌, ◌≡◌, refl, List, [], ◌∷◌, false, Option, none, some, arith, length, dec_lt,
}
use object_store.Common.Map.{nat_eq, lookup}
use object_store.Common.Io.{Result, ok, err, panicked, diverged}
use object_store.ChunkStore.Header.{slot_data_size}
use object_store.ChunkStore.File.{IsReliable}
use object_store.ChunkStore.Store.{ChunkStore, put_chunk, get_chunk}
use object_store.ChunkStore.Store.Model.{IsValid, Chunks, with_chunk, Represents}
use object_store.ChunkStore.Store.Put.{put_chunk-Puts, put_exists, put_full}
use object_store.ChunkStore.Store.Get.{IsChecksum, get_chunk-Gets}
use object_store.StorageNode.{
  StorageNodeImpl, Metrics, response, finish_write, write_chunk, read_chunk,
}
use object_store.StorageNode.Serves.{Serves, put-oversized, store-finish_write, store-finish_read}
use object_store.StorageNode.Requests.{Represents-bytes, read_chunk-Serves}

-- A put that succeeds has data that fits into a slot.
put_chunk-fits :
    (crc : List ℕ → ℕ) (id : ℕ) (bytes : List ℕ) (s : ChunkStore)
    → s.poisoned ≡ false
    → (put_chunk crc id bytes s).0 ≡ ok tt
    → length bytes ≤ slot_data_size
put_chunk-fits crc id bytes s live e = elim (dec_lt slot_data_size (length bytes)) [
  | no small ↦ omega arith
  | yes big ↦ absurd (by_index big (lookup id s.index) refl)
]
  where
    by_free :
        slot_data_size < length bytes
        → lookup id s.index ≡ none
        → (l : List ℕ) → s.free_slots ≡ l
        → ⊥
    by_free big new [] f = cc (e, put_full crc id bytes s live new f)
    by_free big new (slot ∷ rest) f =
        let (over, _) = put-oversized crc id bytes s live new (λ k. cc (k, f)) big in cc (e, over)

    by_index : slot_data_size < length bytes → (o : Option ℕ) → lookup id s.index ≡ o → ⊥
    by_index big none k = by_free big k s.free_slots refl
    by_index big (some slot) k = cc (e, put_exists crc id bytes s live slot k)

finish_write-response :
    (id len : ℕ) (m : Metrics) (q : Result (Unit {0}) × ChunkStore) (i : ℕ)
    → (finish_write id len m q).0 ≡ response i
    → q.0 ≡ ok tt
unfolding finish_write
finish_write-response id len m (ok _, s) i e = refl
finish_write-response id len m (err k, s) i e = absurd (cc e)
finish_write-response id len m (panicked, s) i e = absurd (cc e)
finish_write-response id len m (diverged, s) i e = absurd (cc e)

-- A node in order with a reliable file.
pub record IsSound (crc : List ℕ → ℕ) (n : StorageNodeImpl) (m : Chunks) : Type 0 where
  pub serves : Serves crc n m
  pub reliable : IsReliable n.store.file

module _ (crc : List ℕ → ℕ) where
  -- Only the store counts, and of its file the answers.
  IsSound-store :
      (n n' : StorageNodeImpl) (s : ChunkStore) (m m' : Chunks)
      → n'.store ≡ s
      → s.file.answers ≡ n.store.file.answers
      → IsValid s
      → s.poisoned ≡ false
      → Represents crc s.file s.index m'
      → IsSound crc n m
      → IsSound crc n' m'
  IsSound-store n n' s m m' e answers valid live view h = record {
    serves = record { valid = rw e valid; live = rw e live; view = rw e view };
    reliable = λ k. let (j, moved) = h.reliable k in (j, rw e (rw answers moved));
  }

  -- A write that is answered had a new id, and the node has its data.
  pub write_chunk-response :
      (id : ℕ) (bytes : List ℕ) (n : StorageNodeImpl) (m : Chunks) (i : ℕ)
      → id < 2 ^ 64
      → IsSound crc n m
      → (write_chunk crc id bytes n).0 ≡ response i
      → (m id ≡ none) × IsSound crc (write_chunk crc id bytes n).1 (with_chunk id bytes m)
  unfolding write_chunk
  write_chunk-response id bytes n m i id_u64 h e =
      let done =
        finish_write-response id (length bytes) n.metrics (put_chunk crc id bytes n.store) i e in
      let fits = put_chunk-fits crc id bytes n.store h.serves.live done in
      let p =
        put_chunk-Puts crc id bytes n.store m h.serves.live h.serves.valid h.serves.view id_u64
          fits in
      let (new, view) = p.done done in
      (
        new,
        IsSound-store n _ (put_chunk crc id bytes n.store).1 m (with_chunk id bytes m)
            (store-finish_write id (length bytes) n.metrics (put_chunk crc id bytes n.store))
            p.answers p.valid p.live view h,
      )

  -- A read of a chunk that the node has is answered with it.
  pub read_chunk-response :
      (id : ℕ) (bytes : List ℕ) (n : StorageNodeImpl) (m : Chunks)
      → IsChecksum crc
      → IsSound crc n m
      → m id ≡ some bytes
      → ((read_chunk crc id n).0 ≡ response (id, bytes, crc bytes))
        × IsSound crc (read_chunk crc id n).1 m
  unfolding read_chunk
  read_chunk-response id bytes n m crc_u32 h e =
      let g = get_chunk-Gets crc id n.store m crc_u32 h.serves.live h.serves.valid h.serves.view in
      (
        rw e at (read_chunk-Serves crc id n m crc_u32 h.serves h.reliable),
        IsSound-store n _ (get_chunk crc id n.store).1 m m
            (store-finish_read id n.metrics (get_chunk crc id n.store)) g.answers g.valid g.live
            (Represents-bytes crc id n.store _ m _ g h.serves.view) h,
      )
