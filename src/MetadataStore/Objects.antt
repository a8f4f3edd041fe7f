-- ===== src/MetadataStore/Objects.antt =====
-- The operations of `MetadataStore` on objects and storage nodes.
use Prim.Native.String.{String}
use object_store.Common.{ℕ, List, [], ◌∷◌, Bool, none, some, if◌then◌else◌}
use object_store.Common.Map.{Map, nat_eq, string_eq, lookup, insert, remove, contains_key, values}
use object_store.Common.Io.{
  Op, Result, ok, err, panicked, diverged, already_exists, not_found, invalid_input,
}
use object_store.MetadataStore.Types.{
  MetaStorageNode, MetaChunk, MetaObject, new_object, MetadataStore, Json, Random, save,
  generate_unique_id,
}

-- `self.chunks.remove(&chunk_id)` for each of a list.
unfoldable pub remove_chunks : List ℕ → Map ℕ MetaChunk → Map ℕ MetaChunk
remove_chunks [] m = m
remove_chunks (id ∷ ids) m = remove_chunks ids (remove id m)

unfoldable pub get_object : String → MetadataStore → Result MetaObject
get_object name s = elim (lookup name s.objects) [ none ↦ err not_found | some o ↦ ok o ]

unfoldable pub list_objects : MetadataStore → List MetaObject
list_objects s = values s.objects

unfoldable pub list_storage_nodes : MetadataStore → List MetaStorageNode
list_storage_nodes s = values s.storage_nodes

unfoldable pub get_storage_node : ℕ → MetadataStore → Result String
get_storage_node id s = elim (lookup id s.storage_nodes) [
  | none ↦ err not_found
  | some n ↦ ok n.address
]

unfoldable pub delete_storage_node : ℕ → Op MetadataStore (Unit {0})
delete_storage_node id s = elim (lookup id s.storage_nodes) [
  | none ↦ (err not_found, s)
  | some _ ↦ (ok tt, record s { storage_nodes = remove id s.storage_nodes })
]

-- `Uri::from_str` of the crate `http` is the parameter `is_uri`.
unfoldable pub construct_storage_node : (String → Bool) → Random → String → Op MetadataStore ℕ
construct_storage_node is_uri rand address s =
    elim (generate_unique_id rand.draws s.storage_nodes) [
      | ok id ↦
          if is_uri address
          then (
            ok id,
            record s {
              storage_nodes = insert id (record { id = id; address = address }) s.storage_nodes;
            },
          )
          else (err invalid_input, s)
      | err e ↦ (err e, s)
      | panicked ↦ (panicked, s)
      | diverged ↦ (diverged, s)
    ]

module _ (json : Json) where
  unfoldable pub put_object : ℕ → String → Op MetadataStore (Unit {0})
  put_object checksum name s =
      if contains_key name s.objects
      then (err already_exists, s)
      else save json (record s { objects = insert name (new_object name checksum) s.objects })

  unfoldable pub delete_object : String → Op MetadataStore (Unit {0})
  delete_object name s = elim (lookup name s.objects) [
    | none ↦ (err not_found, s)
    | some object ↦ save json (record s {
      objects = remove name s.objects;
      chunks = remove_chunks object.chunks s.chunks;
    })
  ]

  unfoldable pub update_object_checksum : String → ℕ → ℕ → Op MetadataStore (Unit {0})
  update_object_checksum name checksum total_size s = elim (lookup name s.objects) [
    | none ↦ (err not_found, s)
    | some object ↦ save json (record s {
      objects =
          insert name (record object { checksum = checksum; total_size = total_size }) s.objects;
    })
  ]
