-- ===== src/StorageNode/Requests.antt =====
-- A storage node in order stays so, whatever requests it gets.
use object_store.Common.{
  ℕ, ◌≡◌, refl, false, List, [], ◌∷◌, Option, none, some, length, All, ◌⊎◌, inl, inr,
}
use object_store.Common.Map.{nat_eq, lookup}
use object_store.Common.Io.{Result, ok, err, panicked, diverged, not_found}
use object_store.ChunkStore.File.{File, IsReliable}
use object_store.ChunkStore.Store.{ChunkStore, put_chunk, get_chunk, delete_chunk}
use object_store.ChunkStore.Store.Model.{
  Stored, HoldsData-bytes, IsValid, Chunks, with_chunk, without_chunk, Represents,
}
use object_store.ChunkStore.Store.Put.{Puts, put_chunk-Puts}
use object_store.ChunkStore.Store.Get.{IsChecksum, Gets, get_chunk-Gets}
use object_store.ChunkStore.Store.Delete.{delete_chunk-Deletes}
use object_store.StorageNode.{
  StorageNodeImpl, Reply, response, status, not_found_code, finish_read, write_chunk, read_chunk,
  delete_request,
}
use object_store.StorageNode.Serves.{
  Request, write, read_of, delete, Fits, Serves, serve, serve_all, store-finish_write,
  store-finish_read, store-finish_removal,
}

-- What a request may make of the chunks of the node.
abbrev pub Makes : Request → Chunks → Chunks → Type 0
Makes (write id bytes) m m' = (m' ≡ m) ⊎ ((m id ≡ none) × (m' ≡ with_chunk id bytes m))
Makes (read_of id) m m' = m' ≡ m
Makes (delete id) m m' = m' ≡ without_chunk id m

written-or-kept :
    (crc : List ℕ → ℕ) (id : ℕ) (bytes : List ℕ) (s s' : ChunkStore) (m : Chunks)
    (r : Result (Unit {0}))
    → Puts crc id bytes s m s' r
    → (m' : Chunks) × ((m' ≡ m) ⊎ ((m id ≡ none) × (m' ≡ with_chunk id bytes m)))
      × Represents crc s'.file s'.index m'
written-or-kept crc id bytes s s' m (ok _) p =
    (with_chunk id bytes m, inr ((p.done refl).0, refl), (p.done refl).1)
written-or-kept crc id bytes s s' m (err _) p = (m, inl refl, p.kept (λ e. cc e))
written-or-kept crc id bytes s s' m panicked p = absurd (p.calm refl)
written-or-kept crc id bytes s s' m diverged p = absurd (p.ends refl)

Stored-bytes :
    (crc : List ℕ → ℕ) (f g : File) (id : ℕ) (o : Option ℕ) (v : Option (List ℕ))
    → g.bytes ≡ f.bytes
    → Stored crc f id o v
    → Stored crc g id o v
Stored-bytes crc f g id none none e h = h
Stored-bytes crc f g id none (some _) e h = h
Stored-bytes crc f g id (some _) none e h = h
Stored-bytes crc f g id (some slot) (some bytes) e h = HoldsData-bytes crc f g slot id bytes e h

pub Represents-bytes :
    (crc : List ℕ → ℕ) (id : ℕ) (s s' : ChunkStore) (m : Chunks) (r : Result (List ℕ × ℕ))
    → Gets crc id s m s' r
    → Represents crc s.file s.index m
    → Represents crc s'.file s'.index m
Represents-bytes crc id s s' m r g view = record {
  at = λ j.
      Stored-bytes crc s.file s'.file j (lookup j s'.index) (m j) g.file (rw g.index (view.at j));
}

record OnStore (crc : List ℕ → ℕ) (s : ChunkStore) (m : Chunks) : Type 0 where
  valid : IsValid s
  live : s.poisoned ≡ false
  view : Represents crc s.file s.index m

-- Only the store of a node counts.
on_store :
    {crc : List ℕ → ℕ} {n : StorageNodeImpl} {s : ChunkStore} {m : Chunks}
    → n.store ≡ s
    → OnStore crc s m
    → Serves crc n m
on_store e v = record { valid = rw e v.valid; live = rw e v.live; view = rw e v.view }

serve-Serves :
    (crc : List ℕ → ℕ) (r : Request) (n : StorageNodeImpl) (m : Chunks)
    → IsChecksum crc
    → Fits r
    → Serves crc n m
    → (m' : Chunks) × Makes r m m' × Serves crc (serve crc r n) m'
unfolding serve write_chunk read_chunk delete_request
serve-Serves crc (write id bytes) n m crc_u32 fits v =
    let p = put_chunk-Puts crc id bytes n.store m v.live v.valid v.view fits.0 fits.1 in
    let (m', makes, view) = written-or-kept crc id bytes n.store _ m _ p in
    (
      m',
      makes,
      on_store (store-finish_write id (length bytes) n.metrics (put_chunk crc id bytes n.store))
          (record { valid = p.valid; live = p.live; view = view }),
    )
serve-Serves crc (read_of id) n m crc_u32 fits v =
    let g = get_chunk-Gets crc id n.store m crc_u32 v.live v.valid v.view in
    (
      m,
      refl,
      on_store (store-finish_read id n.metrics (get_chunk crc id n.store)) (record {
        valid = g.valid;
        live = g.live;
        view = Represents-bytes crc id n.store _ m _ g v.view;
      }),
    )
serve-Serves crc (delete id) n m crc_u32 fits v =
    let d = delete_chunk-Deletes crc id n.store m v.live v.valid v.view in
    (
      without_chunk id m,
      refl,
      on_store (store-finish_removal id n.metrics (delete_chunk id n.store))
          (record { valid = d.valid; live = d.live; view = d.view }),
    )

-- What a run of requests may make of the chunks of the node, one after another.
abbrev pub MakesAll : List Request → Chunks → Chunks → Type 0
MakesAll [] m m' = m' ≡ m
MakesAll (r ∷ rs) m m' = (k : Chunks) × Makes r m k × MakesAll rs k m'

-- Any requests with ids of 64 bits and data that fits into a slot, whatever the file answers, leave
-- a node in order in order, for a checksum of 32 bits. What it holds comes about request by
-- request: a write adds its chunk under a new id or nothing, a read nothing, and a removal takes
-- its chunk.
pub serve_all-Serves :
    (crc : List ℕ → ℕ) (rs : List Request) (n : StorageNodeImpl) (m : Chunks)
    → IsChecksum crc
    → All Fits rs
    → Serves crc n m
    → (m' : Chunks) × MakesAll rs m m' × Serves crc (serve_all crc rs n) m'
unfolding serve_all
serve_all-Serves crc [] n m crc_u32 fits v = (m, refl, v)
serve_all-Serves crc (r ∷ rs) n m crc_u32 fits v =
    let (k, makes, w) = serve-Serves crc r n m crc_u32 fits.0 v in
    let (m', all, z) = serve_all-Serves crc rs (serve crc r n) k crc_u32 fits.1 w in
    (m', (k, makes, all), z)

-- On a node in order and a reliable file, for a checksum of 32 bits, a request to read a chunk is
-- answered with the chunk and its checksum where the node holds it, and with `NotFound` elsewhere.
pub read_chunk-Serves :
    (crc : List ℕ → ℕ) (id : ℕ) (n : StorageNodeImpl) (m : Chunks)
    → IsChecksum crc
    → Serves crc n m
    → IsReliable n.store.file
    → (read_chunk crc id n).0
      ≡ elim (m id) [ none ↦ status not_found_code | some bytes ↦ response (id, bytes, crc bytes) ]
unfolding read_chunk finish_read
read_chunk-Serves crc id n m crc_u32 v good = by_view (m id) refl
  where
    g : Gets crc id n.store m (get_chunk crc id n.store).1 (get_chunk crc id n.store).0
    g = get_chunk-Gets crc id n.store m crc_u32 v.live v.valid v.view

    reply :
        (q : Result (List ℕ × ℕ) × ChunkStore) (r : Result (List ℕ × ℕ))
        → q.0 ≡ r
        → (finish_read id n.metrics q).0 ≡ (finish_read id n.metrics (r, q.1)).0
    reply q r e = rw (← e) refl

    by_view :
        (o : Option (List ℕ))
        → m id ≡ o
        → (read_chunk crc id n).0 ≡ elim o as (λ _. Reply (ℕ × List ℕ × ℕ)) [
          | none ↦ status not_found_code
          | some bytes ↦ response (id, bytes, crc bytes)
        ]
    by_view none e = reply (get_chunk crc id n.store) (err not_found) (g.missing e)
    by_view (some bytes) e =
        reply (get_chunk crc id n.store) (ok (bytes, crc bytes)) (g.found bytes e good)
