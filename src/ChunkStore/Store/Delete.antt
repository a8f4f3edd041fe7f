-- ===== src/ChunkStore/Store/Delete.antt =====
-- `delete_chunk` against the abstract view.
use object_store.Common.{
  ℕ, ◌+◌, ◌≤◌, ◌≡◌, ◌≢◌, refl, ◌∙◌, List, ◌∷◌, true, false, none, some, arith, if◌then◌else◌, ◌==◌,
  Option-cases, Bool-cases, ap, sym, ◌⊎◌, inl, inr, ltb, lt→ltb,
}
use object_store.Common.Map.{Map, nat_eq, lookup, remove, lookup-remove}
use object_store.Common.Io.{ErrorKind, Result, ok, err, panicked, diverged, other, continue}
use object_store.ChunkStore.Header.{slot_size, zero_header}
use object_store.ChunkStore.File.{
  File, IsReliable, sync_data, sync_data-cases, answer, fails, count_call,
}
use object_store.ChunkStore.Slots.{slot_offset}
use object_store.ChunkStore.Slots.Write.{Within, WritesSlot, write-WritesSlot}
use object_store.ChunkStore.Store.{
  ChunkStore, delete_chunk, finish_delete, clear_slot, release, on_file,
}
use object_store.ChunkStore.Store.Model.{
  SlotsValid, SlotsValid-remove, SlotsValid-push, IsValid, Chunks, without_chunk, Represents,
  Represents-Within,
}

-- What a call of `delete_chunk` on the store `s` with the view `m` comes to.
pub record Deletes (crc : List ℕ → ℕ) (id : ℕ) (s : ChunkStore) (m : Chunks) (s' : ChunkStore)
    (r : Result (Unit {0})) : Type 0 where
  pub valid : IsValid s'
  pub live : s'.poisoned ≡ false
  pub answers : s'.file.answers ≡ s.file.answers
  pub calm : r ≢ panicked
  pub ends : r ≢ diverged
  pub view : Represents crc s'.file s'.index (without_chunk id m)
  pub succeeds : IsReliable s.file → r ≡ ok tt
  pub freed :
      r ≡ ok tt → (slot : ℕ) → lookup id s.index ≡ some slot → s'.free_slots ≡ slot ∷ s.free_slots

-- The store with the entry gone and a file.
abbrev removed : ℕ → ChunkStore → File → ChunkStore
removed id s f = record s { index = remove id s.index; file = f }

-- A chunk leaves the view with its entry.
Represents-remove :
    (crc : List ℕ → ℕ) (f : File) (index : Map ℕ ℕ) (m : Chunks) (id : ℕ)
    → Represents crc f index m
    → Represents crc f (remove id index) (without_chunk id m)
Represents-remove crc f index m id view = record {
  at = λ j.
      rw (lookup-remove id j index)
        (elim (Bool-cases (id == j)) [ inl t ↦ rw t tt | inr t ↦ rw t (view.at j) ]);
}

-- Nothing is there to be removed.
Represents-absent :
    (crc : List ℕ → ℕ) (f : File) (index : Map ℕ ℕ) (m : Chunks) (id : ℕ)
    → lookup id index ≡ none
    → Represents crc f index m
    → Represents crc f index (without_chunk id m)
Represents-absent crc f index m id e view = record {
  at = λ j. elim (Bool-cases (id == j)) [
    | inl t ↦ rw t (let same : id ≡ j = ground arith in rw (← same) (rw e tt))
    | inr t ↦ rw t (view.at j)
  ];
}

counted : {slot : ℕ} {f f' : File} → Within slot f f' → Within slot f (count_call f')
counted w = record { outside = w.outside; size = w.size; answers = w.answers }

module _ (crc : List ℕ → ℕ) (id : ℕ) (s : ChunkStore) (m : Chunks) (live : s.poisoned ≡ false)
    (valid : IsValid s) (view : Represents crc s.file s.index m) where
  delete_none : lookup id s.index ≡ none → delete_chunk id s ≡ (ok tt, s)
  unfolding delete_chunk
  delete_none e = ground arith

  delete_some :
      (slot : ℕ)
      → lookup id s.index ≡ some slot
      → delete_chunk id s ≡ release (finish_delete slot (removed id s s.file))
  unfolding delete_chunk
  delete_some slot e = ground arith

  module _ (slot : ℕ) (there : lookup id s.index ≡ some slot) (f' : File)
      (w : Within slot s.file f') where
    slots : SlotsValid (remove id s.index) s.free_slots s.total_slots
    slots = SlotsValid-remove id s.total_slots s.index s.free_slots valid.slots

    unused : (i : ℕ) → lookup i (remove id s.index) ≢ some slot
    unused i p = ground (arith, lookup-remove id i s.index, valid.slots.injective id i slot there)

    gone : Represents crc f' (remove id s.index) (without_chunk id m)
    gone =
        Represents-Within crc slot s.file f' (remove id s.index) (without_chunk id m) w
          (λ i other p same. unused i (p ∙ ap some (sym same)))
          (Represents-remove crc s.file s.index m id view)

    -- An error leaves the chunk out of the index and its slot off the stack.
    failed : (e : ErrorKind) → ¬ IsReliable s.file → Deletes crc id s m (removed id s f') (err e)
    failed e unreliable = record {
      valid = record { slots = slots; size = w.size ∙ valid.size };
      live = live;
      answers = w.answers;
      calm = λ p. cc;
      ends = λ p. cc;
      view = gone;
      succeeds = λ good. absurd (unreliable good);
      freed = λ p. absurd (cc p);
    }

    cleared : let q = release (clear_slot slot (removed id s f')) in Deletes crc id s m q.1 q.0
    unfolding clear_slot
    cleared =
        let below : ltb slot s.total_slots ≡ true =
          lt→ltb _ _ (valid.slots.used_below id slot there) in
        rw below (record {
          valid = record {
            slots =
                SlotsValid-push slot s.total_slots (remove id s.index) s.free_slots unused
                  (valid.slots.used_not_free id slot there) (valid.slots.used_below id slot there)
                  slots;
            size = w.size ∙ valid.size;
          };
          live = live;
          answers = w.answers;
          calm = λ p. cc;
          ends = λ p. cc;
          view = gone;
          succeeds = λ _. refl;
          freed = λ _ freed_slot e. let same : slot ≡ freed_slot = cc (there, e) in rw same;
        })

  -- What `sync_data`, where it is called, leaves to be done.
  synced :
      (slot : ℕ) (there : lookup id s.index ≡ some slot) (f' : File)
      → Within slot s.file f'
      → (u : Result (Unit {0}) × ChunkStore)
      → (((answer f' ≡ fails) × (u ≡ (err other, removed id s (count_call f'))))
          ⊎ ((u ≡ (ok tt, removed id s (count_call f'))) ⊎ (u ≡ (ok tt, removed id s f'))))
      → let q = release (continue u.0 (λ _. clear_slot slot) u.1) in Deletes crc id s m q.1 q.0
  synced slot there f' w u (inl (e, q)) = rw q (
      failed slot there (count_call f') (counted w) other
        (λ good. let (n, p) = good f'.calls in cc (e, p, w.answers)))
  synced slot there f' w u (inr (inl q)) = rw q (cleared slot there (count_call f') (counted w))
  synced slot there f' w u (inr (inr q)) = rw q (cleared slot there f' w)

  -- From the write of the zero header on, by how it ended.
  delete_at :
      (slot : ℕ) (f' : File) (r : Result (Unit {0})) (P : File → Type 0)
      → lookup id s.index ≡ some slot
      → WritesSlot slot P s.file f' r
      → let q = release (
          continue r
            (λ _ t.
              let u = (if t.fsync_on_delete then on_file sync_data t else (ok tt, t)) in
              continue u.0 (λ _. clear_slot slot) u.1)
            (removed id s f')) in
        Deletes crc id s m q.1 q.0
  delete_at slot f' (ok _) P there w =
      synced slot there f' w.within _ (elim (Bool-cases s.fsync_on_delete) [
        | inl on ↦ elim (sync_data-cases f') [
          | inl (e, q) ↦ inl (e, ground arith)
          | inr q ↦ inr (inl (ground arith))
        ]
        | inr off ↦ inr (inr (ground arith))
      ])
  delete_at slot f' (err e) P there w =
      failed slot there f' w.within e (λ good. cc (w.reliable good))
  delete_at slot f' panicked P there w = absurd (w.calm refl)
  delete_at slot f' diverged P there w = absurd (w.ends refl)

-- On a valid store whose lock is not poisoned, whatever the file answers, `delete_chunk` keeps both
-- so, neither panics nor runs on, and takes
-- exactly this chunk from the view, also where it reports an error; when it succeeds, the chunk's
-- slot is on top of the stack of free slots; and on a reliable file it succeeds, for an id that is
-- not there too.
pub delete_chunk-Deletes :
    (crc : List ℕ → ℕ) (id : ℕ) (s : ChunkStore) (m : Chunks)
    → s.poisoned ≡ false
    → IsValid s
    → Represents crc s.file s.index m
    → Deletes crc id s m (delete_chunk id s).1 (delete_chunk id s).0
unfolding finish_delete
delete_chunk-Deletes crc id s m live valid view = elim (Option-cases (lookup id s.index)) [
  | inl e ↦ rw (delete_none crc id s m live valid view e) (record {
    valid = valid;
    live = live;
    answers = refl;
    calm = λ p. cc;
    ends = λ p. cc;
    view = Represents-absent crc s.file s.index m id e view;
    succeeds = λ _. refl;
    freed = λ _ slot p. absurd (cc (e, p));
  })
  | inr (slot, e) ↦
      let room : slot_offset slot + slot_size ≤ s.file.size =
        omega (arith, valid.size, valid.slots.used_below id slot e) in
      rw (delete_some crc id s m live valid view slot e) (
        delete_at crc id s m live valid view slot _ _ _ e (
          write-WritesSlot slot zero_header (slot_offset slot) s.file (omega arith) (omega arith)
            room))
]
