-- ===== src/ChunkStore/Slots.antt =====
-- `write_chunk_at`, `read_chunk_header` and `read_chunk_optimized` of
-- storage-node/src/chunk_store.rs: one slot of the file.
pub mod Write
pub mod Read
use object_store.Common.{
  ℕ, zero, suc, ◌+◌, ◌*◌, List, [], ◌∷◌, Bool, length, leb, ◌==◌, if◌then◌else◌,
}
use object_store.Common.Io.{Op, panicked, pure, ◌>>=◌, ◌>>◌}
use object_store.ChunkStore.Header.{
  ChunkHeader, slot_size, chunk_header_size, slot_data_size, magic_number, to_bytes, from_bytes,
}
use object_store.ChunkStore.File.{File, write_all_at, read_exact_at, sync_data}

abbrev pub slot_offset : ℕ → ℕ
slot_offset slot = slot * slot_size

abbrev pub data_offset : ℕ → ℕ
data_offset slot = slot_offset slot + chunk_header_size

-- `if !bytes.is_empty()`
write_data : List ℕ → ℕ → Op File (Unit {0})
write_data [] offset = pure tt
write_data (b ∷ bs) offset = write_all_at (b ∷ bs) offset

unfoldable pub write_chunk_at : ℕ → ChunkHeader → List ℕ → Bool → Op File (Unit {0})
unfolding write_data
write_chunk_at slot header bytes fsync f =
    if leb (length bytes) slot_data_size
    then (do
      write_all_at (to_bytes header) (slot_offset slot)
      write_data bytes (data_offset slot)
      if fsync then sync_data else pure tt)
        f
    else (panicked, f)

unfoldable pub read_chunk_header : ℕ → Op File ChunkHeader
read_chunk_header slot = do
  bytes ← read_exact_at chunk_header_size (slot_offset slot)
  pure (from_bytes bytes)

-- `if data_len > 0`
unfoldable pub read_data : ℕ → ℕ → Op File (List ℕ)
read_data zero offset = pure []
read_data (suc n) offset = read_exact_at (suc n) offset

-- A header without the magic number stands for no data.
unfoldable pub read_chunk_optimized : ℕ → Op File (ChunkHeader × List ℕ)
unfolding read_chunk_header read_data
read_chunk_optimized slot = do
  header ← read_chunk_header slot
  if header.magic == magic_number
      then (do bytes ← read_data header.data_len (data_offset slot); pure (header, bytes))
      else pure (header, [])
