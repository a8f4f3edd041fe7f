-- ===== src/MetadataStore/Types.antt =====
-- The data of storage-metadata/src/metadata_store.rs, `new`, `save` and `generate_unique_id`.
-- `serde_json` and `rand` are parameters.
use Prim.Native.String.{String}
use text.Mathlib.Text.{◌==◌ as str_eq}
use object_store.Common.{ℕ, ◌+◌, List, [], ◌∷◌, ◌++◌, Option, none, some, if◌then◌else◌}
use object_store.Common.Map.{Map, nat_eq, string_eq, contains_key}
use object_store.Common.Io.{Op, Result, ErrorKind, ok, err, diverged}

pub record MetaStorageNode : Type 0 where
  pub id : ℕ
  pub address : String

pub data ChunkStatus : Type 0 where
  pending confirmed : ChunkStatus

pub record MetaChunk : Type 0 where
  pub id : ℕ
  pub object_name : String
  pub checksum : ℕ
  pub storage_nodes : List ℕ
  pub status : ChunkStatus

pub record MetaObject : Type 0 where
  pub name : String
  pub checksum : ℕ
  pub chunks : List ℕ
  pub total_size : ℕ

abbrev pub new_chunk : ℕ → ℕ → String → MetaChunk
new_chunk id checksum object_name = record {
  id = id;
  object_name = object_name;
  checksum = checksum;
  storage_nodes = [];
  status = confirmed;
}

abbrev pub new_pending : ℕ → String → MetaChunk
new_pending id object_name = record {
  id = id;
  object_name = object_name;
  checksum = 0;
  storage_nodes = [];
  status = pending;
}

abbrev pub add_storage_node : MetaChunk → ℕ → MetaChunk
add_storage_node chunk node_id = record chunk {
  storage_nodes = chunk.storage_nodes ++ node_id ∷ [];
}

abbrev pub new_object : String → ℕ → MetaObject
new_object name checksum = record { name = name; checksum = checksum; chunks = []; total_size = 0 }

abbrev pub add_chunk : MetaObject → ℕ → MetaObject
add_chunk object chunk_id = record object { chunks = object.chunks ++ chunk_id ∷ [] }

abbrev pub persistent_state_version : ℕ
persistent_state_version = 1

pub record PersistentState : Type 0 where
  pub version : ℕ
  pub objects : Map String MetaObject
  pub chunks : Map ℕ MetaChunk

-- `serde_json::to_string_pretty` and `from_str`.
pub record Json : Type 0 where
  pub encode : PersistentState → String
  pub decode : String → Option PersistentState

-- `contents` is the text of the store's file, and `failures` says for each `save` whether the
-- system fails it. A save writes another file and renames it, so a failure leaves the text.
pub record MetadataStore : Type 0 where
  pub objects : Map String MetaObject
  pub chunks : Map ℕ MetaChunk
  pub storage_nodes : Map ℕ MetaStorageNode
  pub contents : Option String
  pub failures : ℕ → Option ErrorKind
  pub saves : ℕ

-- What a save writes.
abbrev pub saved_state : MetadataStore → PersistentState
saved_state s = record {
  version = persistent_state_version;
  objects = s.objects;
  chunks = s.chunks;
}

module _ (json : Json) where
  unfoldable pub save : Op MetadataStore (Unit {0})
  save s = elim (s.failures s.saves) [
    | some e ↦ (err e, record s { saves = s.saves + 1 })
    | none ↦
        (ok tt, record s { contents = some (json.encode (saved_state s)); saves = s.saves + 1 })
  ]

  -- The objects and chunks of a text that is not empty.
  unfoldable pub loaded : String → Map String MetaObject × Map ℕ MetaChunk
  loaded text = elim (json.decode text) [
    | some state ↦ (state.objects, state.chunks)
    | none ↦ ([], [])
  ]

  -- A store with what was loaded. Storage nodes register anew.
  abbrev pub with_loaded :
      Option String
      → (ℕ → Option ErrorKind)
      → Map String MetaObject × Map ℕ MetaChunk
      → MetadataStore
  with_loaded contents failures (objects, chunks) = record {
    objects = objects;
    chunks = chunks;
    storage_nodes = [];
    contents = contents;
    failures = failures;
    saves = 0;
  }

  -- `new`, for the text of the file, if there is one, and the failures to come. `open_fails`,
  -- `len_fails` and `read_fails` are those of `File::open`, `metadata` and `read_to_string`.
  unfoldable pub new_store :
      (open_fails len_fails read_fails : Option ErrorKind)
      → Option String
      → (ℕ → Option ErrorKind)
      → Result MetadataStore
  unfolding loaded
  new_store open_fails len_fails read_fails none failures = ok (with_loaded none failures ([], []))
  new_store (some e) len_fails read_fails (some text) failures = err e
  new_store none (some e) read_fails (some text) failures = err e
  new_store none none read_fails (some text) failures =
      if str_eq text "" then ok (with_loaded (some text) failures ([], [])) else elim read_fails [
        | some e ↦ err e
        | none ↦ ok (with_loaded (some text) failures (loaded text))
      ]

-- `generate_unique_id`: `draws` are the numbers that `rand` draws; the loop goes on where they are
-- used up.
unfoldable pub generate_unique_id {ℓ} : {V : Type ℓ} → List ℕ → Map ℕ V → Result ℕ
generate_unique_id [] id_map = diverged
generate_unique_id (id ∷ draws) id_map =
    if contains_key id id_map then generate_unique_id draws id_map else ok id

-- What `rand` is asked for: the ids to try, and one of several storage nodes.
pub record Random : Type 0 where
  pub draws : List ℕ
  pub choose : List MetaStorageNode → Option MetaStorageNode
