-- ===== src/MetadataStore/Tests.antt =====
-- A run of `MetadataStore` that stores a chunk, and a file that is read again.
use Prim.Native.String.{String}
use object_store.Common.{ℕ, ◌≡◌, refl, List, [], ◌∷◌, Option, none, some}
use object_store.Common.Map.{nat_eq, string_eq, lookup}
use object_store.Common.Io.{ok, err, other}
use object_store.MetadataStore.Types.{
  MetaStorageNode, MetadataStore, Json, Random, saved_state, new_store, loaded, new_object,
  new_chunk,
}
use object_store.HashRing.{HashRing}
use object_store.MetadataStore.Listing.{IsValid}
use object_store.MetadataStore.Steps.{
  Call, put_object_call, put_chunk_call, delete_chunk_call, construct_storage_node_call,
}

abbrev first_node : List MetaStorageNode → Option MetaStorageNode
first_node [] = none
first_node (n ∷ ns) = some n

abbrev rand : Random
rand = record { draws = 5 ∷ 9 ∷ []; choose = first_node }

abbrev empty_store : MetadataStore
empty_store = record {
  objects = [];
  chunks = [];
  storage_nodes = [];
  contents = none;
  failures = λ _. none;
  saves = 0;
}

empty_store-IsValid : IsValid empty_store
unfolding lookup
empty_store-IsValid = record { at = λ name o e. absurd (cc e) }

abbrev calls : List Call
calls =
    construct_storage_node_call rand "http://node"
    ∷ put_object_call 0 "photo"
    ∷ put_chunk_call rand "photo" 12
    ∷ delete_chunk_call 5
    ∷ []

-- A stand-in for `serde_json` that knows the state of one store.
abbrev one_object : MetadataStore
one_object = record empty_store {
  objects = ("photo", new_object "photo" 12) ∷ [];
  chunks = (5, new_chunk 5 12 "photo") ∷ [];
}

abbrev json : Json
json = record { encode = λ _. "{}"; decode = λ _. some (saved_state one_object) }

-- A file that cannot be read is an error, a text that cannot be parsed is a fresh start.
new_store_unread : new_store json none none (some other) (some "{}") (λ _. none) ≡ err other
unfolding new_store
new_store_unread = refl

new_store_reads :
    new_store json none none none (some "{}") (λ _. none)
    ≡ ok (record one_object { contents = some "{}" })
unfolding new_store loaded
new_store_reads = refl

abbrev to_7 : String → ℕ
to_7 name = 7

abbrev two_nodes : HashRing
two_nodes = record { ring = (5, "a") ∷ (20, "b") ∷ [] }
