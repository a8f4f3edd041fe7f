-- ===== src/ChunkIndex/Tests.antt =====
-- An index of three chunks.
use object_store.Common.{◌≡◌, refl, [], ◌∷◌, some}
use object_store.Common.Map.{nat_eq, lookup}
use object_store.MetadataStore.Types.{new_chunk}
use object_store.ChunkIndex.{ChunkIndex, get, populate_from_chunks}
use object_store.ChunkIndex.Names.{get-populate_from_chunks}

abbrev three : ChunkIndex
three = record { index = (1, "a") ∷ (2, "b") ∷ (3, "a") ∷ [] }

get-populate_from_chunks_example :
    get 2 (populate_from_chunks ((2, new_chunk 2 0 "c") ∷ []) three) ≡ some "c"
unfolding lookup
get-populate_from_chunks_example =
    get-populate_from_chunks 2 ((2, new_chunk 2 0 "c") ∷ []) three (refl, tt)
