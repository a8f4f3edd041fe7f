-- ===== src/StorageNode/Serves.antt =====
-- What a storage node answers, and a request that stops it.
use object_store.Common.{
  ℕ, ◌^◌, ◌≤◌, ◌<◌, ◌≡◌, ◌≢◌, refl, List, [], ◌∷◌, Bool, true, false, none, arith, length, leb,
}
use object_store.Common.Map.{nat_eq, lookup}
use object_store.Common.Io.{Result, ok, err, panicked, diverged}
use object_store.ChunkStore.Header.{ChunkHeader, slot_data_size}
use object_store.ChunkStore.File.{File}
use object_store.ChunkStore.Slots.{write_chunk_at}
use object_store.ChunkStore.Store.{ChunkStore, put_chunk, get_chunk, delete_chunk, finish_put}
use object_store.ChunkStore.Store.Model.{IsValid, Chunks, Represents}
use object_store.ChunkStore.Store.Put.{put_fills}
use object_store.StorageNode.{
  StorageNodeImpl, Metrics, internal, status, finish_write, finish_read, finish_removal,
  write_chunk, read_chunk, delete_request,
}

-- A request that the service answers from memory and file.
pub data Request : Type 0 where
  write : (id : ℕ) (bytes : List ℕ) → Request
  read_of : (id : ℕ) → Request
  delete : (id : ℕ) → Request

-- The ids are u64, and the data of a write fits into a slot.
abbrev pub Fits : Request → Type 0
Fits (write id bytes) = (id < 2 ^ 64) × (length bytes ≤ slot_data_size)
Fits (read_of id) = Unit
Fits (delete id) = Unit

-- A node in order, on a file that answers, with its chunks.
pub record Serves (crc : List ℕ → ℕ) (n : StorageNodeImpl) (m : Chunks) : Type 0 where
  pub valid : IsValid n.store
  pub live : n.store.poisoned ≡ false
  pub view : Represents crc n.store.file n.store.index m

-- A panic poisons the lock, and then every request for a chunk fails.
poisoned-put :
    (crc : List ℕ → ℕ) (id : ℕ) (bytes : List ℕ) (s : ChunkStore)
    → s.poisoned ≡ true
    → put_chunk crc id bytes s ≡ (panicked, s)
unfolding put_chunk
poisoned-put crc id bytes s p = ground arith

poisoned-get :
    (crc : List ℕ → ℕ) (id : ℕ) (s : ChunkStore)
    → s.poisoned ≡ true
    → get_chunk crc id s ≡ (panicked, s)
unfolding get_chunk
poisoned-get crc id s p = ground arith

poisoned-delete : (id : ℕ) (s : ChunkStore) → s.poisoned ≡ true → delete_chunk id s ≡ (panicked, s)
unfolding delete_chunk
poisoned-delete id s p = ground arith

write-oversized :
    (slot : ℕ) (h : ChunkHeader) (bytes : List ℕ) (fsync : Bool) (f : File)
    → slot_data_size < length bytes
    → write_chunk_at slot h bytes fsync f ≡ (panicked, f)
unfolding write_chunk_at
write-oversized slot h bytes fsync f big =
    let over : leb (length bytes) slot_data_size ≡ false = ground arith in rw over refl

-- `put_chunk` of data that no slot holds panics under the write lock of the index.
pub put-oversized :
    (crc : List ℕ → ℕ) (id : ℕ) (bytes : List ℕ) (s : ChunkStore)
    → s.poisoned ≡ false
    → lookup id s.index ≡ none
    → s.free_slots ≢ []
    → slot_data_size < length bytes
    → ((put_chunk crc id bytes s).0 ≡ panicked) × ((put_chunk crc id bytes s).1.poisoned ≡ true)
unfolding finish_put
put-oversized crc id bytes s live new free big = by_stack s.free_slots refl
  where
    by_stack :
        (l : List ℕ)
        → s.free_slots ≡ l
        → ((put_chunk crc id bytes s).0 ≡ panicked) × ((put_chunk crc id bytes s).1.poisoned ≡ true)
    by_stack [] e = absurd (free e)
    by_stack (slot ∷ rest) e =
        let (fsync, c, f) = put_fills crc id bytes s live slot rest new e in
        rw (f, write-oversized slot _ bytes fsync s.file big) (refl, refl)

-- A write of data that no slot holds, under a new id on a node whose lock is not poisoned and that
-- has a free slot, fails as `Internal`; and after it every request to write, read or delete any
-- chunk fails as `Internal` too, whatever is in the store.
pub write_chunk-oversized :
    (crc : List ℕ → ℕ) (id : ℕ) (bytes : List ℕ) (n : StorageNodeImpl)
    → n.store.poisoned ≡ false
    → lookup id n.store.index ≡ none
    → n.store.free_slots ≢ []
    → slot_data_size < length bytes
    → let n' = (write_chunk crc id bytes n).1 in
      ((write_chunk crc id bytes n).0 ≡ status internal)
      × ((j : ℕ) (data_j : List ℕ) → write_chunk crc j data_j n' ≡ (status internal, n'))
      × ((j : ℕ) → read_chunk crc j n' ≡ (status internal, n'))
      × ((j : ℕ) → delete_request j n' ≡ (status internal, n'))
unfolding write_chunk finish_write read_chunk finish_read delete_request finish_removal
write_chunk-oversized crc id bytes n live new free big =
    let (over, poison) = put-oversized crc id bytes n.store live new free big in
    by_result (put_chunk crc id bytes n.store) over poison
  where
    by_result :
        (q : Result (Unit {0}) × ChunkStore)
        → q.0 ≡ panicked
        → q.1.poisoned ≡ true
        → let w = finish_write id (length bytes) n.metrics q in
          (w.0 ≡ status internal)
          × ((j : ℕ) (data_j : List ℕ) → write_chunk crc j data_j w.1 ≡ (status internal, w.1))
          × ((j : ℕ) → read_chunk crc j w.1 ≡ (status internal, w.1))
          × ((j : ℕ) → delete_request j w.1 ≡ (status internal, w.1))
    by_result (ok _, s) e p = absurd (cc e)
    by_result (err _, s) e p = absurd (cc e)
    by_result (diverged, s) e p = absurd (cc e)
    by_result (panicked, s) e p = (
      refl,
      (λ j b. rw (poisoned-put crc j b s p) refl),
      (λ j. rw (poisoned-get crc j s p) refl),
      (λ j. rw (poisoned-delete j s p) refl),
    )

-- The node after a request.
unfoldable pub serve : (List ℕ → ℕ) → Request → StorageNodeImpl → StorageNodeImpl
serve crc (write id bytes) n = (write_chunk crc id bytes n).1
serve crc (read_of id) n = (read_chunk crc id n).1
serve crc (delete id) n = (delete_request id n).1

unfoldable pub serve_all : (List ℕ → ℕ) → List Request → StorageNodeImpl → StorageNodeImpl
unfolding serve
serve_all crc [] n = n
serve_all crc (r ∷ rs) n = serve_all crc rs (serve crc r n)

pub store-finish_write :
    (id len : ℕ) (m : Metrics) (q : Result (Unit {0}) × ChunkStore)
    → (finish_write id len m q).1.store ≡ q.1
unfolding finish_write
store-finish_write id len m (ok _, s) = refl
store-finish_write id len m (err _, s) = refl
store-finish_write id len m (panicked, s) = refl
store-finish_write id len m (diverged, s) = refl

pub store-finish_read :
    (id : ℕ) (m : Metrics) (q : Result (List ℕ × ℕ) × ChunkStore)
    → (finish_read id m q).1.store ≡ q.1
unfolding finish_read
store-finish_read id m (ok _, s) = refl
store-finish_read id m (err _, s) = refl
store-finish_read id m (panicked, s) = refl
store-finish_read id m (diverged, s) = refl

pub store-finish_removal :
    (id : ℕ) (m : Metrics) (q : Result (Unit {0}) × ChunkStore)
    → (finish_removal id m q).1.store ≡ q.1
unfolding finish_removal
store-finish_removal id m (ok _, s) = refl
store-finish_removal id m (err _, s) = refl
store-finish_removal id m (panicked, s) = refl
store-finish_removal id m (diverged, s) = refl
