-- ===== src/ChunkStore/Store/Recover.antt =====
-- `recover_index` rebuilds the view from the slots of the file.
use object_store.Common.{
  ℕ, zero, suc, ◌+◌, ◌*◌, ◌/◌, ◌≤◌, ◌<◌, ◌≡◌, ◌≢◌, refl, ◌∙◌, List, [], Bool, true, false, Option,
  none, some, arith, length, ◌==◌, Bool-cases, ap, subst, sym, ◌⊎◌, inl, inr, dec_lt,
}
use object_store.Common.Map.{nat_eq, lookup, lookup-insert}
use object_store.Common.Io.{Result, ok, continue}
use object_store.ChunkStore.Header.{
  ChunkHeader, slot_size, chunk_header_size, slot_data_size, magic_number, new_header, from_bytes,
}
use object_store.ChunkStore.Bytes.{slice}
use object_store.ChunkStore.File.{File, IsReliable, count_call, metadata_len}
use object_store.ChunkStore.Slots.{
  slot_offset, data_offset, read_chunk_header, read_chunk_optimized,
}
use object_store.ChunkStore.Slots.Read.{
  header_in, read_chunk_header-Returns, read_chunk_optimized-Returns,
}
use object_store.ChunkStore.Store.{
  ChunkStore, take_slot, free_slot, settle_slot, recover_header, recover_loop, recover_slots,
  recover_index,
}
use object_store.ChunkStore.Store.Model.{
  SlotsValid, SlotsValid-insert, SlotsValid-next, HoldsData-bytes, IsValid, Chunks, HoldsData,
  Stored, Represents,
}
use object_store.ChunkStore.Store.Get.{IsChecksum, header_in-HoldsData, chunk_in-HoldsData}

-- The file holds exactly the chunks of the view: each slot has no magic number or a chunk of the
-- view, and each chunk of the view is in a slot.
pub record Image (crc : List ℕ → ℕ) (f : File) (total : ℕ) (m : Chunks) : Type 0 where
  pub scan :
      (slot : ℕ)
      → slot < total
      → ((header_in f slot).magic ≢ magic_number)
        ⊎ ((id : ℕ) × (bytes : List ℕ) × (m id ≡ some bytes) × HoldsData crc f slot id bytes)
  pub there :
      (id : ℕ) (bytes : List ℕ)
      → m id ≡ some bytes
      → (slot : ℕ) × (slot < total) × HoldsData crc f slot id bytes

-- The first `i` slots of the file `f` are read.
record Scanned (crc : List ℕ → ℕ) (f : File) (total : ℕ) (m : Chunks) (i : ℕ) (s : ChunkStore)
    : Type 0 where
  slots : SlotsValid s.index s.free_slots i
  sound :
      (id slot : ℕ)
      → lookup id s.index ≡ some slot
      → (bytes : List ℕ) × (m id ≡ some bytes) × HoldsData crc f slot id bytes
  complete :
      (id slot : ℕ) (bytes : List ℕ)
      → slot < i
      → HoldsData crc f slot id bytes
      → (other : ℕ) × (lookup id s.index ≡ some other)
  bytes : s.file.bytes ≡ f.bytes
  size : s.file.size ≡ f.size
  answers : s.file.answers ≡ f.answers
  total_slots : s.total_slots ≡ total
  live : s.poisoned ≡ false

module _ (crc : List ℕ → ℕ) (crc_u32 : IsChecksum crc) (f : File) (total : ℕ) (m : Chunks)
    (good : IsReliable f) (size : f.size ≡ slot_size * total) (image : Image crc f total m) where
  -- No two headers are in one slot.
  one_id :
      (slot id j : ℕ) (b c : List ℕ) → HoldsData crc f slot id b → HoldsData crc f slot j c → id ≡ j
  one_id slot id j b c h k =
      ap (λ (x : ChunkHeader). x.id)
        (sym (header_in-HoldsData crc crc_u32 f slot id b h)
          ∙ header_in-HoldsData crc crc_u32 f slot j c k)

  -- A slot with a chunk of the view joins the index.
  taken :
      (i id : ℕ) (bytes : List ℕ) (s : ChunkStore)
      → m id ≡ some bytes
      → HoldsData crc f i id bytes
      → Scanned crc f total m i s
      → Scanned crc f total m (suc i) (take_slot id i s)
  unfolding take_slot
  taken i id bytes s e h v = record {
    slots =
        SlotsValid-insert id i (suc i) s.index s.free_slots
          (SlotsValid-next i s.index s.free_slots v.slots);
    sound = λ j slot p. elim (Bool-cases (id == j)) [
      | inl t ↦
          let same : id ≡ j = ground arith in
          let here : i ≡ slot = ground (arith, lookup-insert id j i s.index) in
          (bytes, rw (← same) e, rw (← same, ← here) h)
      | inr t ↦ v.sound j slot (ground (arith, lookup-insert id j i s.index))
    ];
    complete = λ j slot c below k. elim (Bool-cases (id == j)) [
      | inl t ↦ (i, ground (arith, lookup-insert id j i s.index))
      | inr t ↦ elim (dec_lt slot i) [
        | yes less ↦
            let (other, p) = v.complete j slot c less k in
            (other, ground (arith, lookup-insert id j i s.index))
        | no more ↦
            let here : slot ≡ i = omega arith in
            let other = one_id i id j bytes c h (rw here at k) in absurd (ground arith)
      ]
    ];
    bytes = v.bytes;
    size = v.size;
    answers = v.answers;
    total_slots = v.total_slots;
    live = v.live;
  }

  -- A slot without the magic number joins the stack.
  freed :
      (i : ℕ) (s : ChunkStore)
      → (header_in f i).magic ≢ magic_number
      → Scanned crc f total m i s
      → Scanned crc f total m (suc i) (free_slot i s)
  unfolding free_slot
  freed i s e v = record {
    slots = SlotsValid-next i s.index s.free_slots v.slots;
    sound = v.sound;
    complete = λ j slot c below k. elim (dec_lt slot i) [
      | yes less ↦ v.complete j slot c less k
      | no more ↦
          let here : slot ≡ i = omega arith in
          let held : HoldsData crc f i j c = rw here at k in
          absurd
            (e (ap (λ (x : ChunkHeader). x.magic) (header_in-HoldsData crc crc_u32 f i j c held)))
    ];
    bytes = v.bytes;
    size = v.size;
    answers = v.answers;
    total_slots = v.total_slots;
    live = v.live;
  }

  -- Reading changes the calls only.
  reread :
      (i : ℕ) (s : ChunkStore) (g : File)
      → g.bytes ≡ s.file.bytes
      → g.size ≡ s.file.size
      → g.answers ≡ s.file.answers
      → Scanned crc f total m i s
      → Scanned crc f total m i (record s { file = g })
  reread i s g b n a v = record {
    slots = v.slots;
    sound = v.sound;
    complete = v.complete;
    bytes = b ∙ v.bytes;
    size = n ∙ v.size;
    answers = a ∙ v.answers;
    total_slots = v.total_slots;
    live = v.live;
  }

  abbrev Done : ℕ → Result (Unit {0}) × ChunkStore → Type 0
  Done i q = (q.0 ≡ ok tt) × Scanned crc f total m i q.1

  header_free :
      (fast : Bool) (i : ℕ) (h : ChunkHeader) (s : ChunkStore)
      → h.magic ≢ magic_number
      → recover_header crc fast i h s ≡ (ok tt, free_slot i s)
  unfolding recover_header
  header_free fast i h s e = ground arith

  header_fast :
      (i id c n : ℕ) (s : ChunkStore)
      → n ≤ slot_data_size
      → recover_header crc true i (new_header id c n) s ≡ (ok tt, take_slot id i s)
  unfolding recover_header
  header_fast i id c n s fits = ground arith

  header_slow :
      (i id n : ℕ) (bytes : List ℕ) (s : ChunkStore) (g : File)
      → n ≤ slot_data_size
      → read_chunk_optimized i s.file ≡ (ok (new_header id (crc bytes) n, bytes), g)
      → recover_header crc false i (new_header id (crc bytes) n) s
        ≡ (ok tt, take_slot id i (record s { file = g }))
  unfolding recover_header settle_slot
  header_slow i id n bytes s g fits e = ground arith

  -- The body of the loop, once the header is read.
  used_step :
      (fast : Bool) (i id : ℕ) (bytes : List ℕ) (s : ChunkStore)
      → i < total
      → m id ≡ some bytes
      → HoldsData crc f i id bytes
      → Scanned crc f total m i s
      → Done (suc i) (recover_header crc fast i (new_header id (crc bytes) (length bytes)) s)
  used_step true i id bytes s below e h v =
      rw (header_fast i id (crc bytes) (length bytes) s h.fits) (refl, taken i id bytes s e h v)
  used_step false i id bytes s below e h v =
      let held = HoldsData-bytes crc f s.file i id bytes v.bytes h in
      let w = read_chunk_optimized-Returns i s.file in
      let header = header_in-HoldsData crc crc_u32 s.file i id bytes held in
      let room : data_offset i + (header_in s.file i).data_len ≤ s.file.size =
        rw header (omega (arith, h.fits, v.size, size)) in
      let got =
        w.reliable (rw v.answers good) room
        ∙ ap ok (chunk_in-HoldsData crc crc_u32 s.file i id bytes held) in
      let read : read_chunk_optimized i s.file ≡ (
        ok (new_header id (crc bytes) (length bytes), bytes),
        (read_chunk_optimized i s.file).1,
      ) =
        λ k. (got k, (read_chunk_optimized i s.file).1) in
      rw (header_slow i id (length bytes) bytes s _ h.fits read)
        (refl, taken i id bytes _ e h (reread i s _ w.bytes w.size w.answers v))

  header_step :
      (fast : Bool) (i : ℕ) (s : ChunkStore)
      → i < total
      → Scanned crc f total m i s
      → Done (suc i) (recover_header crc fast i (header_in f i) s)
  header_step fast i s below v = elim (image.scan i below) [
    | inl e ↦ rw (header_free fast i (header_in f i) s e) (refl, freed i s e v)
    | inr (id, bytes, e, h) ↦
        rw (header_in-HoldsData crc crc_u32 f i id bytes h)
          (used_step fast i id bytes s below e h v)
  ]

  then-Done :
      (i : ℕ) (q : Result (Unit {0}) × ChunkStore) (k : ChunkStore → Result (Unit {0}) × ChunkStore)
      → Done i q
      → ((s : ChunkStore) → Scanned crc f total m i s → Done total (k s))
      → Done total (continue q.0 (λ _. k) q.1)
  then-Done i q k (e, v) next = rw e (next q.1 v)

  loop :
      (fast : Bool) (n i : ℕ) (s : ChunkStore)
      → i + n ≡ total
      → Scanned crc f total m i s
      → Done total (recover_loop crc fast n i s)
  unfolding recover_loop
  loop fast zero i s e v =
      let here : i ≡ total = omega arith in (refl, subst (λ k. Scanned crc f total m k s) here v)
  loop fast (suc n) i s e v =
      let w = read_chunk_header-Returns i s.file in
      let g = (read_chunk_header i s.file).1 in
      let room : slot_offset i + chunk_header_size ≤ s.file.size = omega (arith, v.size, size) in
      let same : header_in s.file i ≡ header_in f i =
        ap (λ (b : ℕ → ℕ). from_bytes (slice b (slot_offset i) chunk_header_size)) v.bytes in
      let got = w.reliable (rw v.answers good) room ∙ ap ok same in
      let read : read_chunk_header i s.file ≡ (ok (header_in f i), g) = λ k. (got k, g) in
      rw (read, recover_loop)
        (then-Done (suc i) (recover_header crc fast i (header_in f i) (record s { file = g }))
          (recover_loop crc fast n (i + 1))
          (header_step fast i _ (omega arith) (reread i s g w.bytes w.size w.answers v))
          (λ t u.
            loop fast n (i + 1) t (omega arith) (subst (λ k. Scanned crc f total m k t) next u)))
    where
      next : suc i ≡ i + 1
      next = omega arith

  -- Once every slot is read, the index and the file agree with the view.
  Stored-Scanned :
      (s : ChunkStore) (id : ℕ) (o : Option ℕ) (v : Option (List ℕ))
      → Scanned crc f total m total s
      → lookup id s.index ≡ o
      → m id ≡ v
      → Stored crc s.file id o v
  Stored-Scanned s id none none w p q = tt
  Stored-Scanned s id none (some b) w p q =
      let (slot, below, h) = image.there id b q in
      let (other, r) = w.complete id slot b below h in absurd (cc (p, r))
  Stored-Scanned s id (some slot) none w p q =
      let (b, e, h) = w.sound id slot p in absurd (cc (e, q))
  Stored-Scanned s id (some slot) (some b) w p q =
      let (c, e, h) = w.sound id slot p in
      let same : c ≡ b = cc (e, q) in
      HoldsData-bytes crc f s.file slot id b w.bytes
        (subst (λ (x : List ℕ). HoldsData crc f slot id x) same h)

  IsValid-Scanned : (s : ChunkStore) → Scanned crc f total m total s → IsValid s
  IsValid-Scanned s w = record {
    slots = subst (λ k. SlotsValid s.index s.free_slots k) (sym w.total_slots) w.slots;
    size = w.size ∙ size ∙ ap (λ k. slot_size * k) (sym w.total_slots);
  }

abbrev emptied : ChunkStore → ChunkStore
emptied s = record s { index = []; free_slots = [] }

Scanned-emptied :
    (crc : List ℕ → ℕ) (s : ChunkStore) (m : Chunks)
    → s.poisoned ≡ false
    → Scanned crc s.file s.total_slots m 0 (emptied s)
unfolding lookup
Scanned-emptied crc s m live = record {
  slots = record {
    injective = λ i j slot p q. absurd (cc p);
    used_not_free = λ i slot p. tt;
    free_distinct = tt;
    used_below = λ i slot p. absurd (cc p);
    free_below = tt;
  };
  sound = λ id slot p. absurd (cc p);
  complete = λ id slot b below h. absurd (omega arith);
  bytes = refl;
  size = refl;
  answers = refl;
  total_slots = refl;
  live = live;
}

recover_slots-eq :
    (crc : List ℕ → ℕ) (fast : Bool) (s : ChunkStore)
    → s.poisoned ≡ false
    → s.file.size ≡ slot_size * s.total_slots
    → (recover_loop crc fast s.total_slots 0 (emptied s)).0 ≡ ok tt
    → recover_slots crc fast (s.file.size / slot_size) s
      ≡ (ok tt, (recover_loop crc fast s.total_slots 0 (emptied s)).1)
unfolding recover_slots
recover_slots-eq crc fast s live size e =
    let n : s.file.size / slot_size ≡ s.total_slots = omega arith in ground arith

-- The part under the lock.
recover_slots-Represents :
    (crc : List ℕ → ℕ) (fast : Bool) (s : ChunkStore) (m : Chunks)
    → IsChecksum crc
    → s.poisoned ≡ false
    → s.file.size ≡ slot_size * s.total_slots
    → IsReliable s.file
    → Image crc s.file s.total_slots m
    → let (r, s') = recover_slots crc fast (s.file.size / slot_size) s in
      (r ≡ ok tt) × IsValid s' × Represents crc s'.file s'.index m
recover_slots-Represents crc fast s m crc_u32 live size good image =
    let (e, w) =
      loop crc crc_u32 s.file s.total_slots m good size image fast s.total_slots 0 (emptied s)
        (omega arith) (Scanned-emptied crc s m live) in
    rw (recover_slots-eq crc fast s live size e) (
      refl,
      IsValid-Scanned crc crc_u32 s.file s.total_slots m good size image _ w,
      record {
        at = λ id.
            Stored-Scanned crc crc_u32 s.file s.total_slots m good size image _ id _ _ w refl refl;
      },
    )

-- A call on the file that reads nothing leaves the image.
abbrev asked : ChunkStore → ChunkStore
asked s = record s { file = count_call s.file }

Image-asked :
    (crc : List ℕ → ℕ) (s : ChunkStore) (m : Chunks)
    → Image crc s.file s.total_slots m
    → Image crc (asked s).file s.total_slots m
Image-asked crc s m image = record {
  scan = λ slot below. elim (image.scan slot below) [
    | inl free ↦ inl free
    | inr (id, bytes, e, h) ↦
        inr (id, bytes, e, HoldsData-bytes crc s.file (asked s).file slot id bytes refl h)
  ];
  there = λ id bytes e.
      let (slot, below, h) = image.there id bytes e in
      (slot, below, HoldsData-bytes crc s.file (asked s).file slot id bytes refl h);
}

recover_index-slots :
    (crc : List ℕ → ℕ) (fast : Bool) (s : ChunkStore)
    → IsReliable s.file
    → recover_index crc fast s ≡ recover_slots crc fast (s.file.size / slot_size) (asked s)
unfolding recover_index metadata_len
recover_index-slots crc fast s good =
    let (n, e) = good s.file.calls in rw (e, recover_index, metadata_len) refl

-- After a restart: from a file of the store's size that holds exactly the chunks of the view, and
-- answers reliably, with a lock that is not poisoned and a checksum of 32 bits, `recover_index`
-- succeeds in either mode, whatever index and stack it starts from, and leaves a valid store with
-- that view.
pub recover_index-Represents :
    (crc : List ℕ → ℕ) (fast : Bool) (s : ChunkStore) (m : Chunks)
    → IsChecksum crc
    → s.poisoned ≡ false
    → s.file.size ≡ slot_size * s.total_slots
    → IsReliable s.file
    → Image crc s.file s.total_slots m
    → ((recover_index crc fast s).0 ≡ ok tt)
      × IsValid (recover_index crc fast s).1
      × Represents crc (recover_index crc fast s).1.file (recover_index crc fast s).1.index m
recover_index-Represents crc fast s m crc_u32 live size good image =
    rw (recover_index-slots crc fast s good) (
      recover_slots-Represents crc fast (asked s) m crc_u32 live size good
        (Image-asked crc s m image))
