-- ===== src/MetadataNode/Tests.antt =====
-- A cluster of two nodes, of which the second owns every name.
use Prim.Native.String.{String}
use text.Mathlib.Text.{◌==◌ as str_eq}
use text.Mathlib.TextEquality.{eq_iff}
use object_store.Common.{
  arith, map, All, ℕ, ◌≡◌, ◌↔◌, refl, subst, ◌⊎◌, List, [], ◌∷◌, Bool, true, false, Option, none,
  some,
}
use object_store.Common.Map.{Map, string_eq, lookup, insert, contains_key}
use object_store.HashRing.{HashRing, get_owner, get_owned_ranges, nodes, remove_node, retain_others}
use object_store.MetadataStore.Types.{
  Json, MetaStorageNode, MetaObject, Random, save, generate_unique_id,
}
use object_store.Clients.{RpcCode, ChunkMessage}
use object_store.MetadataStore.Listing.{IsValid}
use object_store.MetadataStore.Steps.{
  Call, construct_storage_node_call, put_object_call, put_chunk_call, run, run-IsValid,
}
use object_store.MetadataNode.Runs.{
  Event, put_storage_node_event, put_object_event, put_chunk_event, tick_event, delete_object_event,
  happen_all, AllValid, insert-AllValid, happen_all-AllValid,
}
use object_store.HashRing.Members.{holds}
use object_store.MetadataNode.Membership.{Live, tick}
use object_store.MetadataNode.Watch.{get_owner-tick}
use object_store.HashRing.Order.{IsRing}
use object_store.MetadataNode.Migrate.{transfer_partition, received_objects}
use object_store.MetadataStore.Migration.{objects_in_hash_ranges}
use object_store.MetadataNode.Moved.{arrived, IsOwned, received_objects-transfer_partition}
use object_store.MetadataNode.Reads.{Unlocated, Answers, get_object-IsValid}
use object_store.MetadataNode.{response, status, Node, route_by_object}
use object_store.MetadataNode.Local
use object_store.MetadataStore.Objects
use object_store.MetadataStore.Chunks
use object_store.MetadataNode.Cluster.{
  Cluster, get_object, put_object, delete_object, confirm_chunk, allocate_chunk,
}
use object_store.MetadataNode.Settled.{Agrees, Settled, created}
use object_store.MetadataNode.Anywhere.{get_object-put_object, route-anywhere}

abbrev to_7 : String → ℕ
to_7 key = 7

abbrev json : Json
json = record { encode = λ p. "state"; decode = λ t. none }

abbrev ring : HashRing
ring = record { ring = (5, "a") ∷ (20, "b") ∷ [] }

abbrev addrs : Map String String
addrs = ("a", "http://a") ∷ ("b", "http://b") ∷ []

abbrev node_named : String → Node
node_named id = record {
  node_id = id;
  clustered = true;
  ring = ring;
  peer_addrs = addrs;
  metadata_store = record {
    objects = [];
    chunks = [];
    storage_nodes = [];
    contents = none;
    failures = λ k. none;
    saves = 0;
  };
  chunk_index = record { index = [] };
}

abbrev cluster : Cluster
cluster = ("http://a", node_named "a") ∷ ("http://b", node_named "b") ∷ []

agree : (addr : String) (n : Node) → lookup addr cluster ≡ some n → Agrees ring addrs addr n
unfolding lookup
agree addr n = by_first (str_eq "http://a" addr) refl
  where
    named :
        (id at : String)
        → str_eq at addr ≡ true
        → Agrees ring addrs at (node_named id)
        → some (node_named id) ≡ some n
        → Agrees ring addrs addr n
    named id at b g e =
        let here : at ≡ addr = (eq_iff at addr).0 b in
        let is_n : node_named id ≡ n = cc e in
        subst (λ (x : Node). Agrees ring addrs addr x) is_n
          (subst (λ (x : String). Agrees ring addrs x (node_named id)) here g)

    by_second :
        str_eq "http://a" addr ≡ false
        → (b : Bool) → str_eq "http://b" addr ≡ b
        → lookup addr cluster ≡ some n
        → Agrees ring addrs addr n
    by_second f true b =
        rw (f, lookup)
          (rw b (λ e.
            named "b" "http://b" b
              (record { clustered = refl; same_ring = refl; same_addrs = refl; own = refl }) e))
    by_second f false b = rw (f, lookup) (rw b (λ e. absurd (cc e)))

    by_first :
        (b : Bool)
        → str_eq "http://a" addr ≡ b
        → lookup addr cluster ≡ some n
        → Agrees ring addrs addr n
    by_first true b =
        rw (b, lookup)
          (λ e.
            named "a" "http://a" b
              (record { clustered = refl; same_ring = refl; same_addrs = refl; own = refl }) e)
    by_first false b = by_second b (str_eq "http://b" addr) refl

there :
    (id addr : String) → lookup id addrs ≡ some addr → (n : Node) × (lookup addr cluster ≡ some n)
unfolding lookup
there id addr = by_first (str_eq "a" id) refl
  where
    at :
        (x : String) (n : Node)
        → lookup x cluster ≡ some n
        → some x ≡ some addr
        → (m : Node) × (lookup addr cluster ≡ some m)
    at x n l e =
        let here : x ≡ addr = cc e in (n, subst (λ (y : String). lookup y cluster ≡ some n) here l)

    by_second :
        str_eq "a" id ≡ false
        → (b : Bool) → str_eq "b" id ≡ b
        → lookup id addrs ≡ some addr
        → (n : Node) × (lookup addr cluster ≡ some n)
    by_second f true b = rw (f, lookup) (rw b (at "http://b" (node_named "b") refl))
    by_second f false b = rw (f, lookup) (rw b (λ e. absurd (cc e)))

    by_first :
        (b : Bool)
        → str_eq "a" id ≡ b
        → lookup id addrs ≡ some addr
        → (n : Node) × (lookup addr cluster ≡ some n)
    by_first true b = rw (b, lookup) (at "http://a" (node_named "a") refl)
    by_first false b = by_second b (str_eq "b" id) refl

cluster-Settled : Settled ring addrs cluster
cluster-Settled = record { agree = agree; there = there }

owner_of_photo : get_owner to_7 "photo" ring ≡ some "b"
unfolding get_owner
owner_of_photo = refl

at_a : lookup "http://a" cluster ≡ some (node_named "a")
unfolding lookup
at_a = refl

at_b : lookup "http://b" cluster ≡ some (node_named "b")
unfolding lookup
at_b = refl

address_of_b : lookup "b" addrs ≡ some "http://b"
unfolding lookup
address_of_b = refl

put_succeeds : (put_object to_7 json "http://a" 9 "photo" cluster).0 ≡ response tt
unfolding put_object lookup route_by_object get_owner Local.forward_put_object Objects.put_object
    contains_key save
put_succeeds = refl

get_object-put_object_example :
    (get_object to_7 "http://b" "photo" (put_object to_7 json "http://a" 9 "photo" cluster).1).0
    ≡ created 9
get_object-put_object_example =
    get_object-put_object to_7 json ring addrs "b" "http://b" "photo" owner_of_photo address_of_b
      cluster cluster-Settled "http://a" "http://b" (node_named "a") (node_named "b") at_a at_b 9
      put_succeeds

-- A node with an object of one chunk, whose store comes from calls.
abbrev first_node : List MetaStorageNode → Option MetaStorageNode
first_node [] = none
first_node (n ∷ ns) = some n

abbrev rand : Random
rand = record { draws = 5 ∷ 9 ∷ []; choose = first_node }

route-anywhere_example :
    (delete_object to_7 json "http://a" "photo" cluster
      ≡ delete_object to_7 json "http://b" "photo" cluster)
    × (confirm_chunk to_7 json "http://a" 7 "photo" 9 1 cluster
        ≡ confirm_chunk to_7 json "http://b" 7 "photo" 9 1 cluster)
    × (str_eq "photo" "" ≡ false
        → allocate_chunk to_7 rand "http://a" "photo" cluster
          ≡ allocate_chunk to_7 rand "http://b" "photo" cluster)
    × ((put_object to_7 json "http://a" 9 "photo" cluster).1
        ≡ (put_object to_7 json "http://b" 9 "photo" cluster).1)
    × (((put_object to_7 json "http://a" 9 "photo" cluster).0 ≡ response tt)
        ↔ ((put_object to_7 json "http://b" 9 "photo" cluster).0 ≡ response tt))
route-anywhere_example =
    route-anywhere to_7 json ring addrs "b" "http://b" "photo" owner_of_photo address_of_b cluster
      cluster-Settled "http://a" "http://b" (node_named "a") (node_named "b") at_a at_b 9 7 1 rand

abbrev calls : List Call
calls =
    construct_storage_node_call rand "http://node"
    ∷ put_object_call 0 "photo"
    ∷ put_chunk_call rand "photo" 12
    ∷ []

abbrev all_uris : String → Bool
all_uris address = true

abbrev reader : Node
reader = record (node_named "b") {
  metadata_store = run json all_uris calls (node_named "b").metadata_store;
}

abbrev photo : MetaObject
photo = record { name = "photo"; checksum = 0; chunks = 5 ∷ []; total_size = 0 }

empty-IsValid : IsValid (node_named "b").metadata_store
unfolding lookup
empty-IsValid = record { at = λ name o e. absurd (cc e) }

has_photo : lookup "photo" reader.metadata_store.objects ≡ some photo
unfolding lookup run Chunks.put_chunk Chunks.reserve generate_unique_id contains_key
    Objects.put_object Objects.construct_storage_node save Chunks.choose_storage_node insert
has_photo = refl

get_object-IsValid_example :
    ((ms : List ChunkMessage) × ((Local.get_object "photo" reader).0
        ≡ response (record { checksum = 0; chunks = ms }))
      × Answers reader.metadata_store.storage_nodes reader.metadata_store.chunks (5 ∷ []) ms)
    ⊎ (((Local.get_object "photo" reader).0 ≡ status RpcCode.internal)
        × Unlocated reader.metadata_store.storage_nodes reader.metadata_store.chunks (5 ∷ []))
get_object-IsValid_example =
    get_object-IsValid reader "photo" photo
      (run-IsValid json all_uris calls (node_named "b").metadata_store empty-IsValid) has_photo

-- The first node after the second is gone: it owns every key.
owner_after :
    get_owner to_7 "photo" (tick to_7 (record { ids = []; addrs = [] }) (node_named "a")).ring
    ≡ some "a"
unfolding get_owner tick nodes holds remove_node retain_others
owner_after = refl

get_owner-tick_example :
    ((node_named "a").node_id ≡ (node_named "a").node_id) ⊎ (holds [] "a" ≡ true)
get_owner-tick_example =
    get_owner-tick to_7 (record { ids = []; addrs = [] }) (node_named "a") "photo" "a" owner_after

ring-IsRing : IsRing ring.ring
ring-IsRing = (omega arith, (omega arith, omega arith, tt))

abbrev ticked : List Live
ticked = record { ids = "c" ∷ []; addrs = [] } ∷ record { ids = []; addrs = [] } ∷ []

received_objects-transfer_partition_example :
    (received_objects (transfer_partition to_7 (get_owned_ranges "b" ring) reader)
      ≡ map arrived (objects_in_hash_ranges to_7 (get_owned_ranges "b" ring) reader.metadata_store))
    × All
        (IsOwned to_7 "b" ring)
        (received_objects (transfer_partition to_7 (get_owned_ranges "b" ring) reader))
received_objects-transfer_partition_example =
    received_objects-transfer_partition to_7 "b" ring reader ring-IsRing

no_nodes-AllValid : AllValid []
unfolding lookup
no_nodes-AllValid = record { at = λ addr n e. absurd (cc e) }

abbrev two_nodes : Cluster
two_nodes = insert "http://b" (node_named "b") (insert "http://a" (node_named "a") [])

two_nodes-AllValid : AllValid two_nodes
two_nodes-AllValid =
    insert-AllValid "http://b" (node_named "b") (insert "http://a" (node_named "a") [])
      empty-IsValid (insert-AllValid "http://a" (node_named "a") [] empty-IsValid no_nodes-AllValid)

-- A node asks the other, and then goes on alone.
abbrev events : List (String × Event)
events =
    ("http://a", put_storage_node_event (λ addr. rand) "http://node")
    ∷ ("http://a", put_object_event 9 "photo")
    ∷ ("http://a", put_chunk_event rand "photo" 12)
    ∷ ("http://a", tick_event (record { ids = []; addrs = [] }))
    ∷ ("http://b", delete_object_event "photo")
    ∷ []

happen_all-AllValid_example : AllValid (happen_all to_7 json all_uris events two_nodes)
happen_all-AllValid_example =
    happen_all-AllValid json all_uris to_7 events two_nodes two_nodes-AllValid
