-- ===== src/ChunkStore/Store.antt =====
-- `ChunkStore` of storage-node/src/chunk_store.rs: its state and its operations. The checksum
-- comes from the crate `crc32fast` and is a parameter.
pub mod Model
pub mod Put
pub mod Get
pub mod Delete
pub mod Recover
pub mod RoundTrip
use object_store.Common.{
  ℕ, zero, suc, ◌+◌, ◌*◌, ◌/◌, ◌%◌, ◌^◌, List, [], ◌∷◌, Bool, true, false, Option, none, some,
  length, ltb, ◌==◌, if◌then◌else◌,
}
use object_store.Common.Map.{Map, nat_eq, lookup, contains_key, insert, remove}
use object_store.Common.Io.{
  Op, Result, ErrorKind, ok, err, panicked, diverged, already_exists, storage_full, not_found,
  invalid_data, pure, raise, ◌>>=◌, ◌>>◌,
}
use object_store.ChunkStore.Header.{
  ChunkHeader, slot_size, slot_data_size, magic_number, new_header, zero_header,
}
use object_store.ChunkStore.File.{File, write_all_at, sync_data, metadata_len, set_len}
use object_store.ChunkStore.Slots.{
  slot_offset, write_chunk_at, read_chunk_header, read_chunk_optimized,
}

abbrev pub allocated_arena_size : ℕ
allocated_arena_size = 2048

pub record ChunkStoreOptions : Type 0 where
  pub fsync_every_n_writes : Option ℕ
  pub fsync_on_delete : Bool
  pub fast_recover : Bool

abbrev pub default_options : ChunkStoreOptions
default_options = record {
  fsync_every_n_writes = some 1;
  fsync_on_delete = true;
  fast_recover = false;
}

-- The head of `free_slots` is the top of the stack. `poisoned` is the state of the lock on
-- `index`: a panic under its write guard makes every later `unwrap` of it panic.
pub record ChunkStore : Type 0 where
  pub file : File
  pub index : Map ℕ ℕ
  pub free_slots : List ℕ
  pub total_slots : ℕ
  pub fsync_every_n_writes : Option ℕ
  pub fsync_on_delete : Bool
  pub write_counter : ℕ
  pub poisoned : Bool

-- 0, …, n - 1, the last on top.
unfoldable pub slots_below : ℕ → List ℕ
slots_below zero = []
slots_below (suc n) = n ∷ slots_below n

abbrev pub unwrap_or : Option ℕ → ℕ → ℕ
unwrap_or none d = d
unwrap_or (some n) d = n

-- `?` on a result.
abbrev bind {ℓ κ} : {A : Type ℓ} {B : Type κ} → Result A → (A → Result B) → Result B
bind (ok a) f = f a
bind (err e) f = err e
bind panicked f = panicked
bind diverged f = diverged

-- `ChunkStore::open`. `opened` is what the system answers to the opening of the path: the file as it
-- was, or just created empty, or an error.
unfoldable pub open_store : Result File → Option ℕ → ChunkStoreOptions → Result ChunkStore
open_store opened allocated_slots options =
    let slots = unwrap_or allocated_slots allocated_arena_size in
    bind opened λ f. bind (set_len (slot_size * slots) f).0 λ _. ok (record {
      file = (set_len (slot_size * slots) f).1;
      index = [];
      free_slots = slots_below slots;
      total_slots = slots;
      fsync_every_n_writes = options.fsync_every_n_writes;
      fsync_on_delete = options.fsync_on_delete;
      write_counter = 0;
      poisoned = false;
    })

-- A call on the file of the store.
abbrev pub on_file {ℓ} :
    {A : Type ℓ} → (File → Result A × File) → ChunkStore → Result A × ChunkStore
on_file m s = ((m s.file).0, record s { file = (m s.file).1 })

unfoldable pub find_slot : Op ChunkStore (Option ℕ)
find_slot s = elim s.free_slots [
  | [] ↦ (ok none, s)
  | slot ∷ rest ↦ (ok (some slot), record s { free_slots = rest })
]

unfoldable pub clear_slot : ℕ → Op ChunkStore (Unit {0})
clear_slot slot s =
    if ltb slot s.total_slots
    then (ok tt, record s { free_slots = slot ∷ s.free_slots })
    else (panicked, s)

-- The counter of the writes wraps at 2 ^ 64.
unfoldable pub should_fsync_write : Op ChunkStore Bool
should_fsync_write s = elim s.fsync_every_n_writes [
  | none ↦ (ok false, s)
  | some n ↦
      let count = (s.write_counter + 1) % 2 ^ 64 in
      if ltb 0 n then (ok (count % n == 0), record s { write_counter = count }) else (ok false, s)
]

-- What becomes of the lock when the guarded code ends.
abbrev pub release : Result (Unit {0}) × ChunkStore → Result (Unit {0}) × ChunkStore
release (panicked, s) = (panicked, record s { poisoned = true })
release (r, s) = (r, s)

-- `self.index.write().unwrap()`, held to the end of the operation.
abbrev pub with_index : Op ChunkStore (Unit {0}) → Op ChunkStore (Unit {0})
with_index m s = if s.poisoned then (panicked, s) else release (m s)

-- `let _ = self.clear_slot(..); return Err(err)`: a panic goes on, any other result is dropped.
keep_error : ErrorKind → Result (Unit {0}) × ChunkStore → Result (Unit {0}) × ChunkStore
keep_error e (panicked, s) = (panicked, s)
keep_error e (_, s) = (err e, s)

-- The end of `put_chunk`, from the result of the write on.
unfoldable pub finish_put : ℕ → ℕ → Result (Unit {0}) → Op ChunkStore (Unit {0})
unfolding keep_error clear_slot
finish_put id slot (ok _) s = (ok tt, record s { index = insert id slot s.index })
finish_put id slot (err e) s = keep_error e (clear_slot slot s)
finish_put id slot panicked s = (panicked, s)
finish_put id slot diverged s = (diverged, s)

-- The end of `delete_chunk`, once the entry is out of the index.
unfoldable pub finish_delete : ℕ → Op ChunkStore (Unit {0})
finish_delete slot = do
  on_file (write_all_at zero_header (slot_offset slot))
  (λ s. if s.fsync_on_delete then on_file sync_data s else (ok tt, s))
  clear_slot slot

unfoldable pub delete_chunk : ℕ → Op ChunkStore (Unit {0})
unfolding finish_delete
delete_chunk id = with_index λ s. elim (lookup id s.index) [
  | none ↦ (ok tt, s)
  | some slot ↦ finish_delete slot (record s { index = remove id s.index })
]

-- A slot that `recover_index` finds occupied or free.
unfoldable pub take_slot : ℕ → ℕ → ChunkStore → ChunkStore
take_slot id slot s = record s { index = insert id slot s.index }

unfoldable pub free_slot : ℕ → ChunkStore → ChunkStore
free_slot slot s = record s { free_slots = slot ∷ s.free_slots }

abbrev pub modify : (ChunkStore → ChunkStore) → Op ChunkStore (Unit {0})
modify f s = (ok tt, f s)

module _ (crc : List ℕ → ℕ) where
  -- The part of `put_chunk` after the allocation.
  fill_slot : ℕ → List ℕ → ℕ → Op ChunkStore (Unit {0})
  fill_slot id bytes slot = do
    fsync ← should_fsync_write
    let header = new_header id (crc bytes) (length bytes % 2 ^ 32)
    (λ s.
        let (r, s') = on_file (write_chunk_at slot header bytes fsync) s in finish_put id slot r s')

  unfoldable pub put_chunk : ℕ → List ℕ → Op ChunkStore (Unit {0})
  unfolding fill_slot find_slot
  put_chunk id bytes = with_index λ s.
      if contains_key id s.index
      then (err already_exists, s)
      else (do
        slot ← find_slot
        elim slot [ none ↦ raise storage_full | some n ↦ fill_slot id bytes n ])
          s

  -- The two tests of `get_chunk` on what it read.
  unfoldable pub verified : ChunkHeader × List ℕ → Op ChunkStore (List ℕ × ℕ)
  verified (header, bytes) =
      if header.magic == magic_number
      then (if header.checksum == crc bytes
          then pure (bytes, header.checksum)
          else raise invalid_data)
      else raise invalid_data

  -- `get_chunk` takes no guard that a panic could poison, and changes nothing in memory.
  unfoldable pub get_chunk : ℕ → Op ChunkStore (List ℕ × ℕ)
  get_chunk id s = if s.poisoned then (panicked, s) else elim (lookup id s.index) [
    | none ↦ (err not_found, s)
    | some slot ↦ (do chunk ← on_file (read_chunk_optimized slot); verified chunk) s
  ]

  -- What `recover_index` does with a slot whose data it has read.
  unfoldable pub settle_slot : ℕ → ChunkHeader → ChunkHeader × List ℕ → Op ChunkStore (Unit {0})
  settle_slot slot header chunk =
      if header.checksum == crc chunk.1
      then modify (take_slot header.id slot)
      else modify (free_slot slot)

  -- The body of the loop, once the header is read.
  unfoldable pub recover_header : Bool → ℕ → ChunkHeader → Op ChunkStore (Unit {0})
  recover_header fast slot header =
      if header.magic == magic_number
      then (if ltb slot_data_size header.data_len
          then modify (free_slot slot)
          else (if fast
              then modify (take_slot header.id slot)
              else (on_file (read_chunk_optimized slot) >>= settle_slot slot header)))
      else modify (free_slot slot)

  -- The loop: `n` slots are left, from `slot` on.
  unfoldable pub recover_loop : Bool → ℕ → ℕ → Op ChunkStore (Unit {0})
  recover_loop fast zero slot = pure tt
  recover_loop fast (suc n) slot = do
    header ← on_file (read_chunk_header slot)
    recover_header fast slot header
    recover_loop fast n (slot + 1)

  -- The part of `recover_index` under the lock.
  unfoldable pub recover_slots : Bool → ℕ → Op ChunkStore (Unit {0})
  recover_slots fast slot_count =
      with_index λ s. recover_loop fast slot_count 0 (record s { index = []; free_slots = [] })

  unfoldable pub recover_index : Bool → Op ChunkStore (Unit {0})
  unfolding recover_slots
  recover_index fast = do file_len ← on_file metadata_len; recover_slots fast (file_len / slot_size)

-- `free_slots` and `get_chunk_size`
unfoldable pub free_slots : ChunkStore → ℕ
free_slots s = length s.free_slots

unfoldable pub get_chunk_size : ℕ
get_chunk_size = slot_data_size
