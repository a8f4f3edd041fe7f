-- ===== src/StorageNode.antt =====
-- storage-node/src/main.rs: the gRPC service of a storage node, request by request. A panic in the
-- blocking task of a request is the error of its join.
mod Tests
pub mod Serves
pub mod Requests
pub mod Config
use Prim.Native.String.{String}
use object_store.Common.{
  ℕ, ◌+◌, ◌%◌, ◌^◌, List, [], ◌∷◌, Bool, true, false, Option, none, some, length, if◌then◌else◌,
}
use object_store.Common.Map.{Map, string_eq, lookup, insert}
use object_store.Common.Io.{
  ErrorKind, already_exists, storage_full, not_found, Result, ok, err, panicked, diverged,
}
use object_store.ChunkStore.File.{File}
use object_store.ChunkStore.Store.{
  ChunkStore, ChunkStoreOptions, open_store, recover_index, put_chunk, get_chunk, delete_chunk,
  free_slots, get_chunk_size,
}

-- The gRPC codes that the service answers with. `pending` is no answer at all.
pub data Code : Type 0 where
  already_exists_code resource_exhausted not_found_code internal pending : Code

pub data Reply {ℓ} (A : Type ℓ) : Type ℓ where
  response : A → Reply A
  status : Code → Reply A

-- Counters wrap at 2 ^ 64. `grpc_requests_total` counts the requests answered, by method.
pub record Metrics : Type 0 where
  pub chunks_written_total : ℕ
  pub bytes_written_total : ℕ
  pub chunks_read_total : ℕ
  pub bytes_read_total : ℕ
  pub chunks_deleted_total : ℕ
  pub grpc_requests_total : Map String ℕ
  pub free_slots_gauge : ℕ

pub record StorageNodeImpl : Type 0 where
  pub store : ChunkStore
  pub metrics : Metrics

abbrev pub counted : ℕ → ℕ → ℕ
counted total n = (total + n) % 2 ^ 64

abbrev pub count_of : Option ℕ → ℕ
count_of none = 0
count_of (some n) = n

abbrev pub count_request : String → Map String ℕ → Map String ℕ
count_request method m = insert method (counted (count_of (lookup method m)) 1) m

-- The statuses of a failed `put_chunk` and a failed `get_chunk`.
abbrev pub write_status : ErrorKind → Code
write_status already_exists = already_exists_code
write_status storage_full = resource_exhausted
write_status _ = internal

abbrev pub read_status : ErrorKind → Code
read_status not_found = not_found_code
read_status _ = internal

abbrev pub written : ℕ → ChunkStore → Metrics → Metrics
written bytes_len s m = record m {
  chunks_written_total = counted m.chunks_written_total 1;
  bytes_written_total = counted m.bytes_written_total bytes_len;
  grpc_requests_total = count_request "write_chunk" m.grpc_requests_total;
  free_slots_gauge = free_slots s;
}

abbrev pub read : ℕ → Metrics → Metrics
read bytes_len m = record m {
  chunks_read_total = counted m.chunks_read_total 1;
  bytes_read_total = counted m.bytes_read_total bytes_len;
  grpc_requests_total = count_request "read_chunk" m.grpc_requests_total;
}

abbrev pub deleted : ChunkStore → Metrics → Metrics
deleted s m = record m {
  chunks_deleted_total = counted m.chunks_deleted_total 1;
  grpc_requests_total = count_request "delete_chunk" m.grpc_requests_total;
  free_slots_gauge = free_slots s;
}

-- How the service goes on from a result of the store.
unfoldable pub finish_write :
    ℕ → ℕ → Metrics → Result (Unit {0}) × ChunkStore → Reply ℕ × StorageNodeImpl
finish_write id len m (ok _, s) = (response id, record { store = s; metrics = written len s m })
finish_write id len m (err e, s) = (status (write_status e), record { store = s; metrics = m })
finish_write id len m (panicked, s) = (status internal, record { store = s; metrics = m })
finish_write id len m (diverged, s) = (status pending, record { store = s; metrics = m })

unfoldable pub finish_read :
    ℕ → Metrics → Result (List ℕ × ℕ) × ChunkStore → Reply (ℕ × List ℕ × ℕ) × StorageNodeImpl
finish_read id m (ok (bytes, checksum), s) =
    (response (id, bytes, checksum), record { store = s; metrics = read (length bytes) m })
finish_read id m (err e, s) = (status (read_status e), record { store = s; metrics = m })
finish_read id m (panicked, s) = (status internal, record { store = s; metrics = m })
finish_read id m (diverged, s) = (status pending, record { store = s; metrics = m })

unfoldable pub finish_removal :
    ℕ → Metrics → Result (Unit {0}) × ChunkStore → Reply ℕ × StorageNodeImpl
finish_removal id m (ok _, s) = (response id, record { store = s; metrics = deleted s m })
finish_removal id m (err e, s) = (status internal, record { store = s; metrics = m })
finish_removal id m (panicked, s) = (status internal, record { store = s; metrics = m })
finish_removal id m (diverged, s) = (status pending, record { store = s; metrics = m })

unfoldable pub delete_request : ℕ → StorageNodeImpl → Reply ℕ × StorageNodeImpl
delete_request id n = finish_removal id n.metrics (delete_chunk id n.store)

unfoldable pub get_free_chunks : StorageNodeImpl → Reply ℕ × StorageNodeImpl
get_free_chunks n = (response (free_slots n.store), n)

unfoldable pub get_chunk_size_request : StorageNodeImpl → Reply ℕ × StorageNodeImpl
get_chunk_size_request n = (response get_chunk_size, n)

unfoldable pub check_health : StorageNodeImpl → Reply Bool × StorageNodeImpl
check_health n = (response true, n)

module _ (crc : List ℕ → ℕ) where
  unfoldable pub write_chunk : ℕ → List ℕ → StorageNodeImpl → Reply ℕ × StorageNodeImpl
  write_chunk id bytes n = finish_write id (length bytes) n.metrics (put_chunk crc id bytes n.store)

  unfoldable pub read_chunk : ℕ → StorageNodeImpl → Reply (ℕ × List ℕ × ℕ) × StorageNodeImpl
  read_chunk id n = finish_read id n.metrics (get_chunk crc id n.store)

  -- The end of `construct`, after `recover_index`.
  unfoldable pub constructed : Metrics → Result (Unit {0}) × ChunkStore → Result StorageNodeImpl
  constructed m (ok _, s) = ok (record { store = s; metrics = m })
  constructed m (err e, s) = err e
  constructed m (panicked, s) = panicked
  constructed m (diverged, s) = diverged

  -- `construct`, on what the opening of the file answers and whether it was there before.
  unfoldable pub construct :
      Bool → Result File → Option ℕ → ChunkStoreOptions → Metrics → Result StorageNodeImpl
  unfolding constructed
  construct recover opened allocated_slots options m =
      elim (open_store opened allocated_slots options) [
        | ok s ↦
            if recover
            then constructed m (recover_index crc options.fast_recover s)
            else ok (record { store = s; metrics = m })
        | err e ↦ err e
        | panicked ↦ panicked
        | diverged ↦ diverged
      ]
