-- ===== src/ChunkStore/Store/Put.antt =====
-- `put_chunk` against the abstract view.
use object_store.Common.{
  ℕ, ◌+◌, ◌%◌, ◌^◌, ◌≤◌, ◌<◌, ◌≡◌, ◌≢◌, refl, ◌∙◌, inl, inr, List, [], ◌∷◌, Bool, true, false,
  Option, none, some, arith, length, ◌==◌, Option-cases, Bool-cases, ltb, lt→ltb, subst, sym,
}
use object_store.Common.Map.{Map, nat_eq, lookup, insert, contains_key-eq-lookup, lookup-insert}
use object_store.Common.Io.{Result, ok, err, panicked, diverged, already_exists, storage_full}
use object_store.ChunkStore.Header.{slot_size, slot_data_size, new_header}
use object_store.ChunkStore.File.{File, IsReliable}
use object_store.ChunkStore.Slots.{slot_offset, write_chunk_at}
use object_store.ChunkStore.Slots.Write.{HoldsChunk, WritesSlot, write_chunk_at-WritesSlot}
use object_store.ChunkStore.Store.{ChunkStore, should_fsync_write, finish_put, put_chunk, release}
use object_store.ChunkStore.Store.Model.{
  SlotsValid, SlotsValid-insert, IsValid, Chunks, with_chunk, HoldsData, Stored, Represents,
  Represents-Within,
}

-- `should_fsync_write` answers, and changes the counter at most.
pub should_fsync_write-ok :
    (s : ChunkStore)
    → (b : Bool) × (c : ℕ) × (should_fsync_write s ≡ (ok b, record s { write_counter = c }))
unfolding should_fsync_write
should_fsync_write-ok s = decide s.fsync_every_n_writes refl
  where
    decide :
        (o : Option ℕ)
        → s.fsync_every_n_writes ≡ o
        → (b : Bool) × (c : ℕ) × (should_fsync_write s ≡ (ok b, record s { write_counter = c }))
    decide none e = (false, s.write_counter, ground arith)
    decide (some n) e = elim (Bool-cases (ltb 0 n)) [
      | inl t ↦
          ((s.write_counter + 1) % 2 ^ 64 % n == 0, (s.write_counter + 1) % 2 ^ 64, ground arith)
      | inr t ↦ (false, s.write_counter, ground arith)
    ]

module _ (crc : List ℕ → ℕ) (id : ℕ) (bytes : List ℕ) (s : ChunkStore)
    (live : s.poisoned ≡ false) where
  pub put_exists :
      (slot : ℕ)
      → lookup id s.index ≡ some slot
      → put_chunk crc id bytes s ≡ (err already_exists, s)
  unfolding put_chunk
  put_exists slot e = ground (arith, contains_key-eq-lookup id s.index)

  pub put_full :
      lookup id s.index ≡ none
      → s.free_slots ≡ []
      → put_chunk crc id bytes s ≡ (err storage_full, s)
  unfolding put_chunk
  put_full e f = ground (arith, contains_key-eq-lookup id s.index)

  -- The store once the file is written.
  abbrev filled : ℕ → List ℕ → File → ChunkStore
  filled c rest f = record s { free_slots = rest; write_counter = c; file = f }

  pub put_fills :
      (slot : ℕ) (rest : List ℕ)
      → lookup id s.index ≡ none
      → s.free_slots ≡ slot ∷ rest
      → (fsync : Bool) × (c : ℕ) × (let q =
            write_chunk_at slot
              (new_header id (crc bytes) (length bytes % 2 ^ 32))
              bytes
              fsync
              s.file in
          put_chunk crc id bytes s ≡ release (finish_put id slot q.0 (filled c rest q.1)))
  unfolding put_chunk
  put_fills slot rest e f =
      let (b, c, q) = should_fsync_write-ok (record s { free_slots = rest }) in
      (b, c, ground (arith, contains_key-eq-lookup id s.index))

-- What a call of `put_chunk` on the store `s` with the view `m` comes to.
pub record Puts (crc : List ℕ → ℕ) (id : ℕ) (bytes : List ℕ) (s : ChunkStore) (m : Chunks)
    (s' : ChunkStore) (r : Result (Unit {0})) : Type 0 where
  pub valid : IsValid s'
  pub live : s'.poisoned ≡ false
  pub answers : s'.file.answers ≡ s.file.answers
  pub calm : r ≢ panicked
  pub ends : r ≢ diverged
  pub done : r ≡ ok tt → (m id ≡ none) × Represents crc s'.file s'.index (with_chunk id bytes m)
  pub kept : r ≢ ok tt → Represents crc s'.file s'.index m
  pub present : m id ≢ none → r ≡ err already_exists
  pub full : m id ≡ none → s.free_slots ≡ [] → r ≡ err storage_full
  pub succeeds : m id ≡ none → s.free_slots ≢ [] → IsReliable s.file → r ≡ ok tt

-- The view and the index have the same ids.
pub Stored-none :
    (crc : List ℕ → ℕ) (f : File) (id : ℕ) (o : Option ℕ) (v : Option (List ℕ))
    → Stored crc f id o v
    → ((o ≡ none) → (v ≡ none)) × ((v ≡ none) → (o ≡ none))
Stored-none crc f id none none h = ((λ _. refl), (λ _. refl))
Stored-none crc f id none (some v) h = absurd h
Stored-none crc f id (some o) none h = absurd h
Stored-none crc f id (some o) (some v) h = ((λ e. cc), (λ e. cc))

-- A chunk in a slot of its own joins the view.
Represents-insert :
    (crc : List ℕ → ℕ) (f : File) (index : Map ℕ ℕ) (m : Chunks) (id slot : ℕ) (bytes : List ℕ)
    → HoldsData crc f slot id bytes
    → Represents crc f index m
    → Represents crc f (insert id slot index) (with_chunk id bytes m)
Represents-insert crc f index m id slot bytes h view = record {
  at = λ j. rw (lookup-insert id j slot index) (elim (Bool-cases (id == j)) [
    | inl t ↦
        rw t (let same : id ≡ j = ground arith in subst (λ k. HoldsData crc f slot k bytes) same h)
    | inr t ↦ rw t (view.at j)
  ]);
}

module _ (crc : List ℕ → ℕ) (id : ℕ) (bytes : List ℕ) (s : ChunkStore) (m : Chunks)
    (live : s.poisoned ≡ false) (valid : IsValid s) (view : Represents crc s.file s.index m)
    (id_u64 : id < 2 ^ 64) (fits : length bytes ≤ slot_data_size) where
  absent : lookup id s.index ≡ none → m id ≡ none
  absent e = (Stored-none crc s.file id (lookup id s.index) (m id) (view.at id)).0 e

  -- Where a slot is free, by how the write to it ended.
  put_at :
      (slot c : ℕ) (rest : List ℕ) (f' : File) (r : Result (Unit {0}))
      → lookup id s.index ≡ none
      → s.free_slots ≡ slot ∷ rest
      → WritesSlot slot
          (λ g. HoldsChunk g slot (new_header id (crc bytes) (length bytes)) bytes)
          s.file
          f'
          r
      → SlotsValid s.index (slot ∷ rest) s.total_slots
      → Represents crc f' s.index m
      → let q = release (finish_put id slot r (filled crc id bytes s live c rest f')) in
        Puts crc id bytes s m q.1 q.0
  unfolding finish_put
  put_at slot c rest f' (ok _) new free w slots view' = record {
    valid = record {
      slots = SlotsValid-insert id slot s.total_slots s.index rest slots;
      size = w.within.size ∙ valid.size;
    };
    live = live;
    answers = w.within.answers;
    calm = λ p. cc;
    ends = λ p. cc;
    done = λ _. (
      absent new,
      Represents-insert crc f' s.index m id slot bytes
          (record { holds = w.stored refl; fits = fits; id_u64 = id_u64 }) view',
    );
    kept = λ n. absurd (n refl);
    present = λ n. absurd (n (absent new));
    full = λ _ e. absurd (cc (e, free));
    succeeds = λ _ _ _. refl;
  }
  put_at slot c rest f' (err e) new free w slots view' =
      let below : ltb slot s.total_slots ≡ true = lt→ltb _ _ slots.free_below.0 in
      rw below (record {
        valid = record { slots = slots; size = w.within.size ∙ valid.size };
        live = live;
        answers = w.within.answers;
        calm = λ p. cc;
        ends = λ p. cc;
        done = λ p. cc;
        kept = λ _. view';
        present = λ n. absurd (n (absent new));
        full = λ _ e. absurd (cc (e, free));
        succeeds = λ _ _ good. absurd (cc (w.reliable good));
      })
  put_at slot c rest f' panicked new free w slots view' = absurd (w.calm refl)
  put_at slot c rest f' diverged new free w slots view' = absurd (w.ends refl)

  put_new :
      (free : List ℕ)
      → s.free_slots ≡ free
      → lookup id s.index ≡ none
      → Puts crc id bytes s m (put_chunk crc id bytes s).1 (put_chunk crc id bytes s).0
  put_new [] free new = rw (put_full crc id bytes s live new free) (record {
    valid = valid;
    live = live;
    answers = refl;
    calm = λ p. cc;
    ends = λ p. cc;
    done = λ p. cc;
    kept = λ _. view;
    present = λ n. absurd (n (absent new));
    full = λ _ _. refl;
    succeeds = λ _ n _. absurd (n free);
  })
  put_new (slot ∷ rest) free new =
      let (fsync, c, e) = put_fills crc id bytes s live slot rest new free in
      let small : length bytes % 2 ^ 32 ≡ length bytes = omega arith in
      let slots = subst (λ l. SlotsValid s.index l s.total_slots) free valid.slots in
      let room : slot_offset slot + slot_size ≤ s.file.size =
        omega (arith, slots.free_below, valid.size) in
      rw (e, small)
        (let w =
            write_chunk_at-WritesSlot slot (new_header id (crc bytes) (length bytes)) bytes fsync
              s.file fits room in
          put_at slot c rest _ _ new free w slots (
            Represents-Within crc slot s.file _ s.index m w.within
              (λ i other p same. (slots.used_not_free i other p).0 (sym same)) view))

-- On a valid store whose lock is not poisoned, for an id and data that fit, `put_chunk` keeps both
-- so, neither panics nor runs on. It succeeds only for an id that the view lacks, and then the view gains exactly this
-- chunk; in every other case the view stays, under I/O errors too. An id that is there gives
-- `AlreadyExists`; a new one gives `StorageFull` where no slot is free; and where one is free and
-- the file is reliable, the call succeeds.
pub put_chunk-Puts :
    (crc : List ℕ → ℕ) (id : ℕ) (bytes : List ℕ) (s : ChunkStore) (m : Chunks)
    → s.poisoned ≡ false
    → IsValid s
    → Represents crc s.file s.index m
    → id < 2 ^ 64
    → length bytes ≤ slot_data_size
    → Puts crc id bytes s m (put_chunk crc id bytes s).1 (put_chunk crc id bytes s).0
put_chunk-Puts crc id bytes s m live valid view id_u64 fits =
    elim (Option-cases (lookup id s.index)) [
      | inl new ↦ put_new crc id bytes s m live valid view id_u64 fits s.free_slots refl new
      | inr (slot, old) ↦ rw (put_exists crc id bytes s live slot old) (record {
        valid = valid;
        live = live;
        answers = refl;
        calm = λ p. cc;
        ends = λ p. cc;
        done = λ p. cc;
        kept = λ _. view;
        present = λ _. refl;
        full = λ e _. absurd (there slot old e);
        succeeds = λ e _ _. absurd (there slot old e);
      })
    ]
  where
    there : (slot : ℕ) → lookup id s.index ≡ some slot → m id ≡ none → ⊥
    there slot old e =
        cc (old, (Stored-none crc s.file id (lookup id s.index) (m id) (view.at id)).1 e)
