-- ===== src/ChunkStore/Slots/Write.antt =====
-- What `write_chunk_at` does to the file: one slot changes, and it holds the chunk when the call
-- succeeds.
use object_store.Common.{
  ℕ, ◌+◌, ◌≤◌, ◌≡◌, ◌≢◌, refl, ◌∙◌, inl, inr, Bool, true, false, List, [], ◌∷◌, arith, length,
  if◌then◌else◌, leb,
}
use object_store.Common.Io.{Result, ok, err, panicked, diverged, continue, pure}
use object_store.ChunkStore.Bytes.{slice, Outside, patched, slice-eq, slice-patched}
use object_store.ChunkStore.Header.{
  ChunkHeader, slot_size, chunk_header_size, slot_data_size, to_bytes, length-to_bytes,
}
use object_store.ChunkStore.File.{File, IsReliable, write_all_at, sync_data, sync_data-cases}
use object_store.ChunkStore.File.Writes.{write_all_at-Writes}
use object_store.ChunkStore.Slots.{slot_offset, data_offset, write_data, write_chunk_at}

-- The slot holds this header and, behind it, this data.
pub record HoldsChunk (f : File) (slot : ℕ) (header : ChunkHeader) (bytes : List ℕ) : Type 0 where
  pub header_at : slice f.bytes (slot_offset slot) chunk_header_size ≡ to_bytes header
  pub data_at : slice f.bytes (data_offset slot) (length bytes) ≡ bytes

-- At most the slot differs between the two files.
pub record Within (slot : ℕ) (f f' : File) : Type 0 where
  pub outside : (i : ℕ) → Outside (slot_offset slot) slot_size i → f'.bytes i ≡ f.bytes i
  pub size : f'.size ≡ f.size
  pub answers : f'.answers ≡ f.answers

pub Within-trans : {slot : ℕ} {f g h : File} → Within slot f g → Within slot g h → Within slot f h
Within-trans a b = record {
  outside = λ i o. b.outside i o ∙ a.outside i o;
  size = b.size ∙ a.size;
  answers = b.answers ∙ a.answers;
}

-- How an operation on one slot ends.
pub record WritesSlot (slot : ℕ) (P : File → Type 0) (f f' : File) (r : Result (Unit {0}))
    : Type 0 where
  pub within : Within slot f f'
  pub stored : r ≡ ok tt → P f'
  pub ends : r ≢ diverged
  pub calm : r ≢ panicked
  pub reliable : IsReliable f → r ≡ ok tt

-- One such operation after another.
pub then_slot :
    (slot : ℕ) (P Q : File → Type 0) (f f' : File) (r : Result (Unit {0}))
    (k : File → Result (Unit {0}) × File)
    → WritesSlot slot P f f' r
    → (P f' → Within slot f f' → WritesSlot slot Q f' (k f').1 (k f').0)
    → let q = continue r (λ _. k) f' in WritesSlot slot Q f q.1 q.0
then_slot slot P Q f f' (ok tt) k w v =
    let next = v (w.stored refl) w.within in
    record {
      within = Within-trans w.within next.within;
      stored = next.stored;
      ends = next.ends;
      calm = next.calm;
      reliable = λ h. next.reliable (rw w.within.answers h);
    }
then_slot slot P Q f f' (err e) k w v = record {
  within = w.within;
  stored = λ p. cc;
  ends = λ p. cc;
  calm = λ p. cc;
  reliable = λ h. absurd (cc (w.reliable h));
}
then_slot slot P Q f f' panicked k w v = absurd (w.calm refl)
then_slot slot P Q f f' diverged k w v = absurd (w.ends refl)

-- `write_all_at` of bytes that lie in the slot.
pub write-WritesSlot :
    (slot : ℕ) (buf : List ℕ) (off : ℕ) (f : File)
    → slot_offset slot ≤ off
    → off + length buf ≤ slot_offset slot + slot_size
    → slot_offset slot + slot_size ≤ f.size
    → WritesSlot slot
        (λ g. (i : ℕ) → g.bytes i ≡ patched (f.bytes i) off buf i)
        f
        (write_all_at buf off f).1
        (write_all_at buf off f).0
write-WritesSlot slot buf off f lo hi fits =
    let w = write_all_at-Writes buf off f in
    record {
      within = record {
        outside = λ i o. w.outside i (ground arith);
        size = w.size (omega arith);
        answers = w.answers;
      };
      stored = w.written;
      ends = w.ends;
      calm = w.calm;
      reliable = w.reliable;
    }

-- An empty write leaves the data of any slot as it is asked to be.
data-WritesSlot :
    (slot : ℕ) (header : ChunkHeader) (bytes : List ℕ) (f : File)
    → length bytes ≤ slot_data_size
    → slot_offset slot + slot_size ≤ f.size
    → slice f.bytes (slot_offset slot) chunk_header_size ≡ to_bytes header
    → WritesSlot slot
        (λ g. HoldsChunk g slot header bytes)
        f
        (write_data bytes (data_offset slot) f).1
        (write_data bytes (data_offset slot) f).0
unfolding write_data slice
data-WritesSlot slot header [] f h fits e = record {
  within = record { outside = λ i o. refl; size = refl; answers = refl };
  stored = λ _. record { header_at = e; data_at = refl };
  ends = λ p. cc;
  calm = λ p. cc;
  reliable = λ _. refl;
}
data-WritesSlot slot header (b ∷ bs) f h fits e =
    let w = write-WritesSlot slot (b ∷ bs) (data_offset slot) f (omega arith) (omega arith) fits in
    let w' = write_all_at-Writes (b ∷ bs) (data_offset slot) f in
    record {
      within = w.within;
      stored = λ p. record {
        header_at =
            slice-eq _ f.bytes (slot_offset slot) chunk_header_size
              (λ i lo hi. w'.outside i (inl (omega arith)))
            ∙ e;
        data_at = slice-patched f.bytes _ (data_offset slot) (b ∷ bs) (w.stored p);
      };
      ends = w.ends;
      calm = w.calm;
      reliable = w.reliable;
    }

-- The call that may follow, which changes no byte.
sync-WritesSlot :
    (slot : ℕ) (header : ChunkHeader) (bytes : List ℕ) (fsync : Bool) (f : File)
    → HoldsChunk f slot header bytes
    → let q = (if fsync then sync_data else pure tt) f in
      WritesSlot slot (λ g. HoldsChunk g slot header bytes) f q.1 q.0
sync-WritesSlot slot header bytes false f h = record {
  within = record { outside = λ i o. refl; size = refl; answers = refl };
  stored = λ _. h;
  ends = λ p. cc;
  calm = λ p. cc;
  reliable = λ _. refl;
}
sync-WritesSlot slot header bytes true f h = elim (sync_data-cases f) [
  | inl (e, q) ↦ rw q (record {
    within = record { outside = λ i o. refl; size = refl; answers = refl };
    stored = λ p. cc;
    ends = λ p. cc;
    calm = λ p. cc;
    reliable = λ v. let (n, p) = v f.calls in absurd (cc (e, p));
  })
  | inr q ↦ rw q (record {
    within = record { outside = λ i o. refl; size = refl; answers = refl };
    stored = λ _. record { header_at = h.header_at; data_at = h.data_at };
    ends = λ p. cc;
    calm = λ p. cc;
    reliable = λ _. refl;
  })
]

-- For a chunk that fits, the call changes no byte outside the slot; when it succeeds the slot holds
-- the header and the data; it neither panics nor runs on; and it succeeds where each call on the
-- file moves at least a byte.
pub write_chunk_at-WritesSlot :
    (slot : ℕ) (header : ChunkHeader) (bytes : List ℕ) (fsync : Bool) (f : File)
    → length bytes ≤ slot_data_size
    → slot_offset slot + slot_size ≤ f.size
    → let q = write_chunk_at slot header bytes fsync f in
      WritesSlot slot (λ g. HoldsChunk g slot header bytes) f q.1 q.0
unfolding write_chunk_at
write_chunk_at-WritesSlot slot header bytes fsync f h fits =
    let room : leb (length bytes) slot_data_size ≡ true = ground arith in
    let w =
      write-WritesSlot slot (to_bytes header) (slot_offset slot) f (omega arith)
        (omega (arith, length-to_bytes header)) fits in
    let headed = (write_all_at (to_bytes header) (slot_offset slot) f).1 in
    rw room (
      then_slot slot _ _ f _ _ _ w λ put_header within.
        then_slot slot _ _ headed _ _ _
          (data-WritesSlot slot header bytes headed h (omega (arith, within.size))
            (header_read headed put_header))
          λ holds _. sync-WritesSlot slot header bytes fsync _ holds)
  where
    header_read :
        (g : File)
        → ((i : ℕ) → g.bytes i ≡ patched (f.bytes i) (slot_offset slot) (to_bytes header) i)
        → slice g.bytes (slot_offset slot) chunk_header_size ≡ to_bytes header
    header_read g p =
        rw (length-to_bytes header) at
          (slice-patched f.bytes g.bytes (slot_offset slot) (to_bytes header) p)
