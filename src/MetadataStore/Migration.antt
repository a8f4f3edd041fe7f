-- ===== src/MetadataStore/Migration.antt =====
-- The operations of `MetadataStore` that move objects between metadata nodes.
use Prim.Native.String.{String}
use object_store.Common.{ℕ, List, [], ◌∷◌, none, some, if◌then◌else◌}
use object_store.Common.Map.{Map, nat_eq, string_eq, lookup, insert, remove, values}
use object_store.Common.Io.{Op}
use object_store.MetadataStore.Types.{MetaChunk, MetaObject, MetadataStore, Json, save}
use object_store.MetadataStore.Objects.{remove_chunks}
use object_store.HashRing.{hash_in_ranges}

-- `filter_map` of the ids that are there.
unfoldable pub chunks_of : List ℕ → Map ℕ MetaChunk → List MetaChunk
chunks_of [] m = []
chunks_of (id ∷ ids) m = elim (lookup id m) [
  | none ↦ chunks_of ids m
  | some chunk ↦ chunk ∷ chunks_of ids m
]

-- The objects of a list whose names hash into the ranges, with their chunks.
unfoldable pub select_objects :
    (String → ℕ)
    → List (ℕ × ℕ)
    → Map ℕ MetaChunk
    → List MetaObject
    → List (MetaObject × List MetaChunk)
select_objects xxh3 ranges chunks [] = []
select_objects xxh3 ranges chunks (o ∷ os) =
    let rest = select_objects xxh3 ranges chunks os in
    if hash_in_ranges (xxh3 o.name) ranges then (o, chunks_of o.chunks chunks) ∷ rest else rest

unfoldable pub objects_in_hash_ranges :
    (String → ℕ) → List (ℕ × ℕ) → MetadataStore → List (MetaObject × List MetaChunk)
unfolding select_objects chunks_of
objects_in_hash_ranges xxh3 ranges s = select_objects xxh3 ranges s.chunks (values s.objects)

unfoldable pub insert_objects : List MetaObject → Map String MetaObject → Map String MetaObject
insert_objects [] m = m
insert_objects (o ∷ os) m = insert_objects os (insert o.name o m)

unfoldable pub insert_all : List MetaChunk → Map ℕ MetaChunk → Map ℕ MetaChunk
insert_all [] m = m
insert_all (c ∷ cs) m = insert_all cs (insert c.id c m)

-- The loop of `remove_objects`.
unfoldable pub remove_each :
    List String → Map String MetaObject × Map ℕ MetaChunk → Map String MetaObject × Map ℕ MetaChunk
remove_each [] m = m
remove_each (name ∷ names) m = elim (lookup name m.0) [
  | none ↦ remove_each names m
  | some object ↦ remove_each names (remove name m.0, remove_chunks object.chunks m.1)
]

module _ (json : Json) where
  unfoldable pub ingest_partition : List MetaObject → List MetaChunk → Op MetadataStore (Unit {0})
  unfolding insert_objects insert_all
  ingest_partition objects chunks s =
      save json (record s {
        objects = insert_objects objects s.objects;
        chunks = insert_all chunks s.chunks;
      })

  unfoldable pub remove_objects : List String → Op MetadataStore (Unit {0})
  unfolding remove_each
  remove_objects names s =
      let left = remove_each names (s.objects, s.chunks) in
      save json (record s { objects = left.0; chunks = left.1 })
