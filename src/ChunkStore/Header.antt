-- ===== src/ChunkStore/Header.antt =====
-- `ChunkHeader` of storage-node/src/chunk_store.rs and its byte layout.
use object_store.Common.{
  ℕ, ◌-◌, ◌*◌, ◌<◌, ◌^◌, ◌≡◌, refl, List, ◌++◌, length, take, drop, replicate,
}
use object_store.ChunkStore.Bytes.{to_le_bytes, from_le_bytes, from_le_bytes-to_le_bytes}

abbrev pub slot_size : ℕ
slot_size = 8 * 1024 * 1024

abbrev pub magic_number : ℕ
magic_number = 0x43484b01

-- `size_of` of a `repr(C)` struct of u32, u64, u32, u32: the u64 is aligned to 8.
abbrev pub chunk_header_size : ℕ
chunk_header_size = 24

abbrev pub slot_data_size : ℕ
slot_data_size = slot_size - chunk_header_size

pub record ChunkHeader : Type 0 where
  pub magic : ℕ
  pub id : ℕ
  pub checksum : ℕ
  pub data_len : ℕ

abbrev pub new_header : ℕ → ℕ → ℕ → ChunkHeader
new_header id checksum data_len = record {
  magic = magic_number;
  id = id;
  checksum = checksum;
  data_len = data_len;
}

-- The last four bytes of the array stay 0.
unfoldable pub to_bytes : ChunkHeader → List ℕ
to_bytes h =
    to_le_bytes 4 h.magic
    ++ (to_le_bytes 8 h.id
        ++ (to_le_bytes 4 h.checksum ++ (to_le_bytes 4 h.data_len ++ replicate 4 0)))

unfoldable pub from_bytes : List ℕ → ChunkHeader
from_bytes buf = record {
  magic = from_le_bytes (take 4 buf);
  id = from_le_bytes (take 8 (drop 4 buf));
  checksum = from_le_bytes (take 4 (drop 12 buf));
  data_len = from_le_bytes (take 4 (drop 16 buf));
}

-- The fields of a header are a u32, a u64 and two u32.
pub record IsHeader (h : ChunkHeader) : Type 0 where
  pub magic_u32 : h.magic < 2 ^ 32
  pub id_u64 : h.id < 2 ^ 64
  pub checksum_u32 : h.checksum < 2 ^ 32
  pub data_len_u32 : h.data_len < 2 ^ 32

pub length-to_bytes : (h : ChunkHeader) → length (to_bytes h) ≡ chunk_header_size
unfolding to_bytes to_le_bytes
length-to_bytes h = refl

-- A header whose fields fit their types is read back from its bytes as it was.
pub from_bytes-to_bytes : (h : ChunkHeader) → IsHeader h → from_bytes (to_bytes h) ≡ h
unfolding to_bytes from_bytes to_le_bytes
from_bytes-to_bytes h v = λ i. record {
  magic = from_le_bytes-to_le_bytes 4 h.magic v.magic_u32 i;
  id = from_le_bytes-to_le_bytes 8 h.id v.id_u64 i;
  checksum = from_le_bytes-to_le_bytes 4 h.checksum v.checksum_u32 i;
  data_len = from_le_bytes-to_le_bytes 4 h.data_len v.data_len_u32 i;
}

-- The bytes that `delete_chunk` writes over a header do not read as one.
abbrev pub zero_header : List ℕ
zero_header = replicate chunk_header_size 0

pub magic-zero_header : (from_bytes zero_header).magic ≡ 0
unfolding from_bytes from_le_bytes
magic-zero_header = refl
