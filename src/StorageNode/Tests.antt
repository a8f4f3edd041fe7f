-- ===== src/StorageNode/Tests.antt =====
-- Runs of a storage node with two slots.
use text.Mathlib.Text.{◌==◌ as str_eq}
use object_store.Common.{
  ℕ, ◌+◌, ◌*◌, ◌%◌, ◌^◌, ◌≡◌, refl, List, [], ◌∷◌, true, false, none, some, arith, length,
  replicate, length-replicate, if◌then◌else◌,
}
use object_store.Common.Map.{nat_eq, string_eq, lookup}
use object_store.ChunkStore.Header.{slot_size, slot_data_size}
use object_store.ChunkStore.File.{moves}
use object_store.ChunkStore.Store.Model.{Chunks}
use object_store.ChunkStore.Store.Get.{IsChecksum}
use object_store.StorageNode.{
  StorageNodeImpl, status, internal, write_chunk, read_chunk, delete_request,
}
use object_store.StorageNode.Serves.{
  Request, write, read_of, delete, Serves, serve_all, write_chunk-oversized,
}
use object_store.StorageNode.Requests.{MakesAll, serve_all-Serves}
use object_store.Settings.{Env, split_commas, trim_start, trim_end}
use object_store.StorageNode.Config.{default_config, loaded, load}
use object_store.StorageNode.Config.Load.{Ends, load-Ends}

abbrev crc : List ℕ → ℕ
crc bytes = length bytes % 2 ^ 32

crc_u32 : IsChecksum crc
crc_u32 bytes = omega arith

abbrev node : StorageNodeImpl
node = record {
  store = record {
    file = record { bytes = λ _. 0; size = slot_size * 2; answers = λ _. moves 5; calls = 0 };
    index = [];
    free_slots = 1 ∷ 0 ∷ [];
    total_slots = 2;
    fsync_every_n_writes = some 1;
    fsync_on_delete = true;
    write_counter = 0;
    poisoned = false;
  };
  metrics = record {
    chunks_written_total = 0;
    bytes_written_total = 0;
    chunks_read_total = 0;
    bytes_read_total = 0;
    chunks_deleted_total = 0;
    grpc_requests_total = [];
    free_slots_gauge = 0;
  };
}

abbrev no_chunks : Chunks
no_chunks _ = none

node-Serves : Serves crc node no_chunks
unfolding lookup
node-Serves = record {
  valid = record {
    slots = record {
      injective = λ i j slot p q. absurd (cc p);
      used_not_free = λ i slot p. absurd (cc p);
      free_distinct = (((λ p. absurd (omega arith)), tt), (tt, tt));
      used_below = λ i slot p. absurd (cc p);
      free_below = (omega arith, (omega arith, tt));
    };
    size = refl;
  };
  live = refl;
  view = record { at = λ id. tt };
}

abbrev requests : List Request
requests = write 7 (1 ∷ 2 ∷ []) ∷ read_of 7 ∷ delete 7 ∷ []

serve_all-Serves_example :
    (m : Chunks) × MakesAll requests no_chunks m × Serves crc (serve_all crc requests node) m
serve_all-Serves_example =
    serve_all-Serves crc requests node no_chunks crc_u32
      ((omega arith, omega arith), (tt, (tt, tt))) node-Serves

unfoldable zeros : ℕ → List ℕ
zeros n = replicate n 0

length-zeros : (n : ℕ) → length (zeros n) ≡ n
unfolding zeros
length-zeros n = length-replicate n 0

abbrev oversized : List ℕ
oversized = zeros (slot_data_size + 1)

write_chunk-oversized_example :
    let n' = (write_chunk crc 7 oversized node).1 in
    ((write_chunk crc 7 oversized node).0 ≡ status internal)
    × ((j : ℕ) (data_j : List ℕ) → write_chunk crc j data_j n' ≡ (status internal, n'))
    × ((j : ℕ) → read_chunk crc j n' ≡ (status internal, n'))
    × ((j : ℕ) → delete_request j n' ≡ (status internal, n'))
unfolding lookup
write_chunk-oversized_example =
    write_chunk-oversized crc 7 oversized node refl refl (λ p. absurd (cc p))
      (omega (arith, length-zeros (slot_data_size + 1)))

abbrev blank_urls : Env
blank_urls name = if str_eq name "METADATA_URLS" then some ", " else none

load-Ends_example : Ends (load (λ text. some default_config) blank_urls (some ""))
load-Ends_example = load-Ends (λ text. some default_config) blank_urls (some "")

-- Two blank addresses are taken.
load_test :
    load (λ text. some default_config) blank_urls (some "")
    ≡ loaded (record default_config { metadata_addresses = "http://" ∷ "http://" ∷ [] })
unfolding load split_commas trim_end trim_start
load_test = refl
