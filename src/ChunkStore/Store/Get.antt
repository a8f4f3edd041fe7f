-- ===== src/ChunkStore/Store/Get.antt =====
-- `get_chunk` against the abstract view.
use object_store.Common.{
  ℕ, ◌+◌, ◌^◌, ◌≤◌, ◌<◌, ◌≡◌, ◌≢◌, refl, ◌∙◌, List, false, Option, none, some, arith, length, ap,
  sym,
}
use object_store.Common.Map.{nat_eq, lookup}
use object_store.Common.Io.{Result, ok, err, panicked, diverged, not_found, continue}
use object_store.ChunkStore.Header.{ChunkHeader, new_header, from_bytes, from_bytes-to_bytes}
use object_store.ChunkStore.File.{File, IsReliable}
use object_store.ChunkStore.Slots.{data_offset, read_chunk_optimized}
use object_store.ChunkStore.Slots.Read.{
  header_in, data_in, chunk_in, Returns, read_chunk_optimized-Returns,
}
use object_store.ChunkStore.Store.{ChunkStore, get_chunk, verified}
use object_store.ChunkStore.Store.Model.{IsValid, Chunks, HoldsData, Stored, Represents}

-- What `crc32fast` promises of the type of its result.
abbrev pub IsChecksum : (List ℕ → ℕ) → Type 0
IsChecksum crc = (bytes : List ℕ) → crc bytes < 2 ^ 32

module _ (crc : List ℕ → ℕ) (crc_u32 : IsChecksum crc) (f : File) (slot id : ℕ) (bytes : List ℕ)
    (h : HoldsData crc f slot id bytes) where
  -- A stored chunk is read as it was written.
  pub header_in-HoldsData : header_in f slot ≡ new_header id (crc bytes) (length bytes)
  header_in-HoldsData =
      ap from_bytes h.holds.header_at
      ∙ from_bytes-to_bytes (new_header id (crc bytes) (length bytes)) (record {
        magic_u32 = omega arith;
        id_u64 = h.id_u64;
        checksum_u32 = crc_u32 bytes;
        data_len_u32 = omega (arith, h.fits);
      })

  pub data_in-HoldsData : data_in f slot ≡ bytes
  data_in-HoldsData = rw header_in-HoldsData h.holds.data_at

  pub chunk_in-HoldsData : chunk_in f slot ≡ (new_header id (crc bytes) (length bytes), bytes)
  chunk_in-HoldsData =
      rw (header_in-HoldsData)
        (ap (λ (b : List ℕ). (new_header id (crc bytes) (length bytes), b)) h.holds.data_at)

-- What a call of `get_chunk` on the store `s` with the view `m` comes to.
pub record Gets (crc : List ℕ → ℕ) (id : ℕ) (s : ChunkStore) (m : Chunks) (s' : ChunkStore)
    (r : Result (List ℕ × ℕ)) : Type 0 where
  pub valid : IsValid s'
  pub live : s'.poisoned ≡ false
  pub answers : s'.file.answers ≡ s.file.answers
  pub index : s'.index ≡ s.index
  pub file : s'.file.bytes ≡ s.file.bytes
  pub ends : (r ≢ panicked) × (r ≢ diverged)
  pub missing : m id ≡ none → r ≡ err not_found
  pub got : (bytes : List ℕ) (c : ℕ) → r ≡ ok (bytes, c) → (m id ≡ some bytes) × (c ≡ crc bytes)
  pub found : (bytes : List ℕ) → m id ≡ some bytes → IsReliable s.file → r ≡ ok (bytes, crc bytes)

verified-ok :
    (crc : List ℕ → ℕ) (id : ℕ) (bytes : List ℕ) (s : ChunkStore)
    → verified crc (new_header id (crc bytes) (length bytes), bytes) s ≡ (ok (bytes, crc bytes), s)
unfolding verified
verified-ok crc id bytes s = ground arith

-- The tests of `get_chunk` after a read that could only return this chunk.
then_verified :
    (crc : List ℕ → ℕ) (id : ℕ) (bytes : List ℕ) (s : ChunkStore) (n : ℕ) (f' : File)
    (r : Result (ChunkHeader × List ℕ))
    → Returns (new_header id (crc bytes) (length bytes), bytes) n s.file f' r
    → let q = continue r (verified crc) (record s { file = f' }) in
      (q.1 ≡ record s { file = f' })
      × ((b : List ℕ) (c : ℕ) → q.0 ≡ ok (b, c) → (b ≡ bytes) × (c ≡ crc bytes))
      × (IsReliable s.file → n ≤ s.file.size → q.0 ≡ ok (bytes, crc bytes))
      × (q.0 ≢ panicked)
      × (q.0 ≢ diverged)
then_verified crc id bytes s n f' (ok chunk) w =
    rw (w.got chunk refl, verified-ok crc id bytes (record s { file = f' }))
      (refl, (λ b c p. ground arith), (λ _ _. refl), (λ p. cc), (λ p. cc))
then_verified crc id bytes s n f' (err e) w =
    (refl, (λ b c p. cc p), (λ good fits. absurd (cc (w.reliable good fits))), (λ p. cc), (λ p. cc))
then_verified crc id bytes s n f' panicked w = absurd (w.calm refl)
then_verified crc id bytes s n f' diverged w = absurd (w.ends refl)

module _ (crc : List ℕ → ℕ) (crc_u32 : IsChecksum crc) (id : ℕ) (s : ChunkStore) (m : Chunks)
    (live : s.poisoned ≡ false) (valid : IsValid s) where
  get_none : lookup id s.index ≡ none → get_chunk crc id s ≡ (err not_found, s)
  unfolding get_chunk
  get_none e = ground arith

  -- The file after the read of a slot.
  abbrev read_on : ℕ → ChunkStore
  read_on slot = record s { file = (read_chunk_optimized slot s.file).1 }

  get_some :
      (slot : ℕ)
      → lookup id s.index ≡ some slot
      → get_chunk crc id s
        ≡ continue (read_chunk_optimized slot s.file).0 (verified crc) (read_on slot)
  unfolding get_chunk
  get_some slot e = ground arith

  get_at :
      (o : Option ℕ) (v : Option (List ℕ))
      → lookup id s.index ≡ o
      → m id ≡ v
      → Stored crc s.file id o v
      → Gets crc id s m (get_chunk crc id s).1 (get_chunk crc id s).0
  get_at none none e d h = rw (get_none e) (record {
    valid = valid;
    live = live;
    answers = refl;
    index = refl;
    file = refl;
    ends = ((λ p. cc), (λ p. cc));
    missing = λ _. refl;
    got = λ b c p. cc p;
    found = λ b p _. absurd (cc (p, d));
  })
  get_at none (some bytes) e d h = absurd h
  get_at (some slot) none e d h = absurd h
  get_at (some slot) (some bytes) e d h =
      let w = read_chunk_optimized-Returns slot s.file in
      let header = header_in-HoldsData crc crc_u32 s.file slot id bytes h in
      let chunk = chunk_in-HoldsData crc crc_u32 s.file slot id bytes h in
      let (state, got, found, calm, ends) = then_verified crc id bytes s _ _ _ (rw chunk at w) in
      let room : data_offset slot + (header_in s.file slot).data_len ≤ s.file.size =
        rw header (omega (arith, h.fits, valid.size, valid.slots.used_below id slot e)) in
      rw (get_some slot e) (record {
        valid = rw state (record { slots = valid.slots; size = w.size ∙ valid.size });
        live = rw state live;
        answers = rw state w.answers;
        index = rw state refl;
        file = rw state w.bytes;
        ends = (calm, ends);
        missing = λ p. absurd (cc (p, d));
        got = λ b c p. let (q, k) = got b c p in (cc (d, q), k ∙ ap crc (sym q));
        found = λ b p good. let same : bytes ≡ b = cc (d, p) in rw (← same) (found good room);
      })

-- On a valid store whose lock is not poisoned, for a checksum of 32 bits, `get_chunk` keeps the
-- store so and answers from the view: `NotFound` where the view has no chunk; whatever it returns is the chunk of the view
-- with its checksum; on a reliable file it does return it. It neither panics nor runs on, and
-- neither the index nor a byte of the file changes.
pub get_chunk-Gets :
    (crc : List ℕ → ℕ) (id : ℕ) (s : ChunkStore) (m : Chunks)
    → IsChecksum crc
    → s.poisoned ≡ false
    → IsValid s
    → Represents crc s.file s.index m
    → Gets crc id s m (get_chunk crc id s).1 (get_chunk crc id s).0
get_chunk-Gets crc id s m crc_u32 live valid view =
    get_at crc crc_u32 id s m live valid (lookup id s.index) (m id) refl refl (view.at id)
