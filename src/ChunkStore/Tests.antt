-- ===== src/ChunkStore/Tests.antt =====
-- Runs of the chunk store on a store of two slots.
use object_store.Common.{
  ℕ, zero, suc, ◌⊎◌, Bool-cases, ◌==◌, subst, ◌+◌, ◌*◌, ◌%◌, ◌^◌, ◌<◌, ◌≡◌, ◌≢◌, refl, List, [],
  ◌∷◌, true, false, none, some, arith, inl, inr,
}
use object_store.Common.Map.{nat_eq, lookup}
use object_store.Common.Io.{ok}
use object_store.ChunkStore.Bytes.{slice, patched, to_le_bytes, from_le_bytes}
use object_store.ChunkStore.Header.{
  slot_size, magic_number, new_header, to_bytes, from_bytes, from_bytes-to_bytes,
}
use object_store.ChunkStore.File.{File, moves, write_all_at, read_exact_at}
use object_store.ChunkStore.Slots.{data_offset, write_chunk_at, read_chunk_optimized}
use object_store.ChunkStore.File.Writes.{Writes, write_all_at-Writes}
use object_store.ChunkStore.File.Reads.{Reads, read_exact_at-Reads}
use object_store.ChunkStore.Slots.Read.{header_in, chunk_in, Returns, read_chunk_optimized-Returns}
use object_store.ChunkStore.Slots.Write.{HoldsChunk, WritesSlot, write_chunk_at-WritesSlot}
use object_store.ChunkStore.Store.{ChunkStore, put_chunk, get_chunk, delete_chunk, recover_index}
use object_store.ChunkStore.Store.Model.{IsValid, Chunks, with_chunk, HoldsData, Represents}
use object_store.ChunkStore.Store.Put.{Puts, put_chunk-Puts}
use object_store.ChunkStore.Store.Get.{IsChecksum, Gets, get_chunk-Gets}
use object_store.ChunkStore.Store.Delete.{Deletes, delete_chunk-Deletes}
use object_store.ChunkStore.Store.Recover.{Image, recover_index-Represents}
use object_store.ChunkStore.Store.RoundTrip.{get_chunk-put_chunk}

abbrev total : List ℕ → ℕ
total [] = 0
total (b ∷ bs) = b + total bs

abbrev crc : List ℕ → ℕ
crc bytes = total bytes % 2 ^ 32

crc_u32 : IsChecksum crc
crc_u32 bytes = omega arith

-- Calls move five bytes at most.
abbrev file : File
file = record { bytes = λ _. 0; size = slot_size * 2; answers = λ _. moves 5; calls = 0 }

abbrev store : ChunkStore
store = record {
  file = file;
  index = [];
  free_slots = 1 ∷ 0 ∷ [];
  total_slots = 2;
  fsync_every_n_writes = some 1;
  fsync_on_delete = true;
  write_counter = 0;
  poisoned = false;
}

abbrev no_chunks : Chunks
no_chunks _ = none

abbrev payload : List ℕ
payload = 1 ∷ 2 ∷ 3 ∷ []

store-IsValid : IsValid store
unfolding lookup
store-IsValid = record {
  slots = record {
    injective = λ i j slot p q. absurd (cc p);
    used_not_free = λ i slot p. absurd (cc p);
    free_distinct = (((λ p. absurd (omega arith)), tt), (tt, tt));
    used_below = λ i slot p. absurd (cc p);
    free_below = (omega arith, (omega arith, tt));
  };
  size = refl;
}

store-Represents : Represents crc file [] no_chunks
unfolding lookup
store-Represents = record { at = λ id. tt }

put_chunk-Puts_example :
    Puts crc 7 payload store no_chunks
      (put_chunk crc 7 payload store).1
      (put_chunk crc 7 payload store).0
put_chunk-Puts_example =
    put_chunk-Puts crc 7 payload store no_chunks refl store-IsValid store-Represents (omega arith)
      (omega arith)

-- The store once the chunk is in it.
abbrev filled : ChunkStore
filled = (put_chunk crc 7 payload store).1

put : Puts crc 7 payload store no_chunks filled (put_chunk crc 7 payload store).0
put =
    put_chunk-Puts crc 7 payload store no_chunks refl store-IsValid store-Represents (omega arith)
      (omega arith)

put-ok : (put_chunk crc 7 payload store).0 ≡ ok tt
put-ok = put.succeeds refl (λ p. absurd (cc p)) (λ k. (4, refl))

get_chunk-Gets_example :
    Gets crc 7 filled
      (with_chunk 7 payload no_chunks)
      (get_chunk crc 7 filled).1
      (get_chunk crc 7 filled).0
get_chunk-Gets_example =
    get_chunk-Gets crc 7 filled (with_chunk 7 payload no_chunks) crc_u32 put.live put.valid
      (put.done put-ok).1

delete_chunk-Deletes_example :
    Deletes crc 7 filled
      (with_chunk 7 payload no_chunks)
      (delete_chunk 7 filled).1
      (delete_chunk 7 filled).0
delete_chunk-Deletes_example =
    delete_chunk-Deletes crc 7 filled (with_chunk 7 payload no_chunks) put.live put.valid
      (put.done put-ok).1

get_chunk-put_chunk_example :
    ((put_chunk crc 7 payload store).0 ≡ ok tt)
    × ((get_chunk crc 7 (put_chunk crc 7 payload store).1).0 ≡ ok (payload, 6))
get_chunk-put_chunk_example =
    get_chunk-put_chunk crc 7 payload store no_chunks crc_u32 refl store-IsValid store-Represents
      (omega arith) (omega arith) refl (λ p. absurd (cc p)) (λ k. (4, refl))

from_bytes-to_bytes_example : from_bytes (to_bytes (new_header 7 6 3)) ≡ new_header 7 6 3
from_bytes-to_bytes_example = from_bytes-to_bytes (new_header 7 6 3) (record {
  magic_u32 = omega arith;
  id_u64 = omega arith;
  checksum_u32 = omega arith;
  data_len_u32 = omega arith;
})

write_all_at-Writes_example :
    Writes payload 9 file (write_all_at payload 9 file).1 (write_all_at payload 9 file).0
write_all_at-Writes_example = write_all_at-Writes payload 9 file

read_exact_at-Reads_example :
    Reads 12 3 file (read_exact_at 12 3 file).1 (read_exact_at 12 3 file).0
read_exact_at-Reads_example = read_exact_at-Reads 12 3 file

write_chunk_at-WritesSlot_example :
    let q = write_chunk_at 1 (new_header 7 6 3) payload true file in
    WritesSlot 1 (λ g. HoldsChunk g 1 (new_header 7 6 3) payload) file q.1 q.0
write_chunk_at-WritesSlot_example =
    write_chunk_at-WritesSlot 1 (new_header 7 6 3) payload true file (omega arith) (omega arith)

read_chunk_optimized-Returns_example :
    let q = read_chunk_optimized 1 file in
    Returns (chunk_in file 1) (data_offset 1 + (header_in file 1).data_len) file q.1 q.0
read_chunk_optimized-Returns_example = read_chunk_optimized-Returns 1 file

-- A file that holds the chunk in its second slot.
abbrev kept_file : File
kept_file = record {
  bytes =
      λ i. patched (patched 0 slot_size (to_bytes (new_header 7 6 3)) i) (slot_size + 24) payload i;
  size = slot_size * 2;
  answers = λ _. moves 5;
  calls = 0;
}

kept_file-HoldsData : HoldsData crc kept_file 1 7 payload
unfolding slice patched to_bytes to_le_bytes
kept_file-HoldsData = record {
  holds = record { header_at = refl; data_at = refl };
  fits = omega arith;
  id_u64 = omega arith;
}

first_slot-none : (header_in kept_file 0).magic ≢ magic_number
unfolding slice patched to_bytes to_le_bytes from_bytes from_le_bytes
first_slot-none e = omega arith

kept_file-Image : Image crc kept_file 2 (with_chunk 7 payload no_chunks)
kept_file-Image = record { scan = scan; there = there }
  where
    scan :
        (slot : ℕ)
        → slot < 2
        → ((header_in kept_file slot).magic ≢ magic_number)
          ⊎ ((id : ℕ) × (bytes : List ℕ) × (with_chunk 7 payload no_chunks id ≡ some bytes)
              × HoldsData crc kept_file slot id bytes)
    scan zero h = inl first_slot-none
    scan (suc zero) h = inr (7, payload, refl, kept_file-HoldsData)
    scan (suc (suc n)) h = absurd (omega arith)

    there :
        (id : ℕ) (bytes : List ℕ)
        → with_chunk 7 payload no_chunks id ≡ some bytes
        → (slot : ℕ) × (slot < 2) × HoldsData crc kept_file slot id bytes
    there id bytes e = elim (Bool-cases (7 == id)) [
      | inl t ↦
          let same_id : 7 ≡ id = ground arith in
          let same_bytes : payload ≡ bytes = ground arith in
          (
            1,
            omega arith,
            subst (λ k. HoldsData crc kept_file 1 k bytes) same_id
                (subst (HoldsData crc kept_file 1 7) same_bytes kept_file-HoldsData),
          )
      | inr t ↦ absurd (ground arith)
    ]

abbrev restarted : ChunkStore
restarted = record store { file = kept_file; free_slots = [] }

recover_index-Represents_example :
    ((recover_index crc true restarted).0 ≡ ok tt)
    × IsValid (recover_index crc true restarted).1
    × Represents crc
        (recover_index crc true restarted).1.file
        (recover_index crc true restarted).1.index
        (with_chunk 7 payload no_chunks)
recover_index-Represents_example =
    recover_index-Represents crc true restarted (with_chunk 7 payload no_chunks) crc_u32 refl refl
      (λ k. (4, refl)) kept_file-Image
