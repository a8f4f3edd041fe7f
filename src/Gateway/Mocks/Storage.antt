-- ===== src/Gateway/Mocks/Storage.antt =====
-- `MockStorageNodeClient` and `MockStorageNodeClientFactory`.
use object_store.Common.{ℕ, ◌*◌, List, [], Bool, true, none, some, if◌then◌else◌}
use object_store.Common.Map.{Map, nat_eq, string_eq, lookup, insert, remove}
use object_store.Clients.{answered, refused, RpcCode, Call}

pub record MockStorageNodeClient : Type 0 where
  pub chunks : Map ℕ (List ℕ)
  pub chunk_size : ℕ
  pub fail_write : Bool
  pub fail_read : Bool

-- What the clients that it connects share.
pub record MockStorageNodeClientFactory : Type 0 where
  pub shared_chunks : Map ℕ (List ℕ)
  pub chunk_size : ℕ

abbrev pub default_factory : MockStorageNodeClientFactory
default_factory = record { shared_chunks = []; chunk_size = 8 * 1024 * 1024 }

abbrev pub get_chunk_size : Call MockStorageNodeClient ℕ
get_chunk_size c = (answered c.chunk_size, c)

unfoldable pub write_chunk : ℕ → List ℕ → Call MockStorageNodeClient (Unit {0})
write_chunk id part c =
    if c.fail_write
    then (refused RpcCode.internal, c)
    else (answered tt, record c { chunks = insert id part c.chunks })

unfoldable pub read_chunk : ℕ → Call MockStorageNodeClient (List ℕ)
read_chunk id c = if c.fail_read then (refused RpcCode.internal, c) else elim (lookup id c.chunks) [
  | none ↦ (refused RpcCode.not_found, c)
  | some part ↦ (answered part, c)
]

abbrev pub delete_chunk : ℕ → Call MockStorageNodeClient (Unit {0})
delete_chunk id c = (answered tt, record c { chunks = remove id c.chunks })

abbrev pub get_free_chunks : Call MockStorageNodeClient ℕ
get_free_chunks c = (answered 100, c)

abbrev pub check_health : Call MockStorageNodeClient Bool
check_health c = (answered true, c)
