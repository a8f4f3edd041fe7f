-- ===== src/ChunkIndex.antt =====
-- storage-metadata/src/chunk_index.rs: the map from chunk ids to object names that every metadata
-- node keeps. Each operation holds the lock, so that they are taken one after another.
mod Tests
pub mod Names
use Prim.Native.String.{String}
use text.Mathlib.Text.{◌==◌ as str_eq}
use object_store.Common.{ℕ, List, [], ◌∷◌, Bool, true, false, not, Option, if◌then◌else◌, length}
use object_store.Common.Map.{Map, nat_eq, lookup, insert, remove, retain}
use object_store.MetadataStore.Types.{MetaChunk}

pub record ChunkIndex : Type 0 where
  pub index : Map ℕ String

unfoldable pub new : ChunkIndex
new = record { index = [] }

unfoldable pub insert_entry : ℕ → String → ChunkIndex → ChunkIndex
insert_entry chunk_id object_name c = record { index = insert chunk_id object_name c.index }

unfoldable pub get : ℕ → ChunkIndex → Option String
get chunk_id c = lookup chunk_id c.index

-- `remove`, which returns what was there.
unfoldable pub remove_entry : ℕ → ChunkIndex → Option String × ChunkIndex
remove_entry chunk_id c = (lookup chunk_id c.index, record { index = remove chunk_id c.index })

-- The loop of `bulk_insert`.
unfoldable pub insert_all : List (ℕ × String) → Map ℕ String → Map ℕ String
insert_all [] m = m
insert_all ((chunk_id, object_name) ∷ entries) m =
    insert_all entries (insert chunk_id object_name m)

unfoldable pub bulk_insert : List (ℕ × String) → ChunkIndex → ChunkIndex
bulk_insert entries c = record { index = insert_all entries c.index }

-- `object_names.contains(obj_name)`
unfoldable pub contains_name : List String → String → Bool
contains_name [] name = false
contains_name (n ∷ ns) name = if str_eq n name then true else contains_name ns name

unfoldable pub remove_by_objects : List String → ChunkIndex → ChunkIndex
remove_by_objects object_names c = record {
  index = retain (λ _ name. not (contains_name object_names name)) c.index;
}

-- The loop of `populate_from_chunks`.
unfoldable pub insert_chunks : Map ℕ MetaChunk → Map ℕ String → Map ℕ String
insert_chunks [] m = m
insert_chunks ((chunk_id, chunk) ∷ chunks) m =
    insert_chunks chunks (insert chunk_id chunk.object_name m)

unfoldable pub populate_from_chunks : Map ℕ MetaChunk → ChunkIndex → ChunkIndex
populate_from_chunks chunks c = record { index = insert_chunks chunks c.index }

unfoldable pub entries : ChunkIndex → List (ℕ × String)
entries c = c.index

unfoldable pub len : ChunkIndex → ℕ
len c = length c.index
