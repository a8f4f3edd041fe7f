-- ===== src/Gateway/Mocks/Mirrors.antt =====
-- What the services in memory have of a view, and what creations and allocations make of it.
use Prim.Native.String.{String}
use text.Mathlib.Text.{◌==◌ as str_eq}
use object_store.Common.{
  ℕ, ◌+◌, ◌<◌, ◌≡◌, ◌≢◌, refl, sym, ap, ◌∙◌, subst, List, [], ◌∷◌, Bool, true, false, Option, none,
  some, arith, All, All-mono, ◌==◌, if◌then◌else◌,
}
use object_store.Common.Map.{Map, nat_eq, string_eq, beq_refl, lookup, insert, lookup-insert}
use object_store.Clients.{StorageNodeMessage, ChunkMessage, AllocateChunkResponse}
use object_store.Services.{Pending, idle, given, written, View, with_object, with_pending}
use object_store.Gateway.Mocks.Metadata.{
  StoredObject, StoredChunk, MockMetadataClient, find_node, chunks_of,
}
use object_store.Gateway.Mocks.Services.{MockServices}
use object_store.Gateway.Mocks.Chunks.{every-insert, Allocates}

-- The object of a name, and its chunks.
pub record Lists (m : MockMetadataClient) (name : String) (cs : List ChunkMessage) : Type 0 where
  pub object : StoredObject
  pub found : lookup name m.objects ≡ some object
  pub chunks : chunks_of m.storage_nodes m.chunks object.chunk_ids ≡ cs

-- An id that was given out and that no object has, and its node.
pub record Reserved (m : MockMetadataClient) (id : ℕ) (address : String) (node_id : ℕ)
    : Type 0 where
  pub handed_out : id < m.next_chunk_id
  pub node : find_node node_id m.storage_nodes ≡ some (record { id = node_id; address = address })
  pub unlisted :
      (name : String) (o : StoredObject)
      → lookup name m.objects ≡ some o
      → All (λ i. i ≢ id) o.chunk_ids

abbrev pub Placed : MockServices → Pending → Type 0
Placed w idle = Unit
Placed w (given id address node_id) =
    Reserved w.metadata id address node_id × (lookup id w.factory.shared_chunks ≡ none)
Placed w (written id address node_id) = Reserved w.metadata id address node_id

-- The services have what the view shows, and all ids were given out.
pub record Mirrors (w : MockServices) (v : View) : Type 0 where
  pub lists :
      (name : String) (cs : List ChunkMessage) → v.listed name ≡ some cs → Lists w.metadata name cs
  pub stores :
      (address : String) (id : ℕ) (part : List ℕ)
      → v.held address id ≡ some part
      → lookup id w.factory.shared_chunks ≡ some part
  pub ids_bound :
      (name : String) (o : StoredObject)
      → lookup name w.metadata.objects ≡ some o
      → All (λ i. i < w.metadata.next_chunk_id) o.chunk_ids
  pub data_bound :
      (id : ℕ) (part : List ℕ)
      → lookup id w.factory.shared_chunks ≡ some part
      → id < w.metadata.next_chunk_id
  pub place : Placed w v.pending

-- An object that is stored under a name, with the chunks of the others as they were.
pub Lists-insert :
    (m : MockMetadataClient) (v : View) (name : String) (o : StoredObject)
    (stored : Map ℕ StoredChunk) (cs : List ChunkMessage)
    → ((other : String) (ds : List ChunkMessage) → v.listed other ≡ some ds → Lists m other ds)
    → ((other : String) (x : StoredObject)
        → lookup other m.objects ≡ some x
        → chunks_of m.storage_nodes stored x.chunk_ids
          ≡ chunks_of m.storage_nodes m.chunks x.chunk_ids)
    → chunks_of m.storage_nodes stored o.chunk_ids ≡ cs
    → (other : String) (ds : List ChunkMessage) → (with_object name cs v).listed other ≡ some ds
    → Lists (record m { objects = insert name o m.objects; chunks = stored }) other ds
Lists-insert m v name o stored cs before same here other ds e = by_place (str_eq name other) refl e
  where
    by_place :
        (b : Bool)
        → str_eq name other ≡ b
        → (if str_eq name other then some cs else v.listed other) ≡ some ds
        → Lists (record m { objects = insert name o m.objects; chunks = stored }) other ds
    by_place true k h =
        let listed : cs ≡ ds = cc (rw k at h) in
        let place : lookup other (insert name o m.objects) ≡ some o =
          lookup-insert name other o m.objects ∙ rw k refl in
        record { object = o; found = place; chunks = here ∙ listed }
    by_place false k h =
        let l = before other ds (rw k at h) in
        let place : lookup other (insert name o m.objects) ≡ lookup other m.objects =
          lookup-insert name other o m.objects ∙ rw k refl in
        record {
          object = l.object;
          found = place ∙ l.found;
          chunks = same other l.object l.found ∙ l.chunks;
        }

pub metadata-Placed :
    (w : MockServices) (m : MockMetadataClient) (p : Pending)
    → ((id : ℕ) (address : String) (node_id : ℕ)
        → Reserved w.metadata id address node_id
        → Reserved m id address node_id)
    → Placed w p
    → Placed (record w { metadata = m }) p
metadata-Placed w m idle f h = tt
metadata-Placed w m (given id address node_id) f (r, new) = (f id address node_id r, new)
metadata-Placed w m (written id address node_id) f r = f id address node_id r

-- An object whose chunks none is reserved for takes a name.
pub Reserved-insert :
    (m : MockMetadataClient) (name : String) (o : StoredObject) (id : ℕ) (address : String)
    (node_id : ℕ)
    → All (λ i. i ≢ id) o.chunk_ids
    → Reserved m id address node_id
    → Reserved (record m { objects = insert name o m.objects }) id address node_id
Reserved-insert m name o id address node_id here r = record {
  handed_out = r.handed_out;
  node = r.node;
  unlisted = every-insert (λ x. All (λ i. i ≢ id) x.chunk_ids) name o m.objects here r.unlisted;
}

pub Mirrors-creates :
    (w : MockServices) (v : View) (name : String) (checksum : ℕ)
    → Mirrors w v
    → Mirrors
        (record w {
          metadata = record (w.metadata) {
            objects =
                insert name (record { checksum = checksum; chunk_ids = [] }) w.metadata.objects;
          };
        })
        (with_object name [] v)
unfolding chunks_of
Mirrors-creates w v name checksum h =
    let m = w.metadata in
    let o : StoredObject = record { checksum = checksum; chunk_ids = [] } in
    record {
      lists = Lists-insert m v name o m.chunks [] h.lists (λ other x e. refl) refl;
      stores = h.stores;
      ids_bound =
          every-insert (λ x. All (λ i. i < m.next_chunk_id) x.chunk_ids) name o m.objects tt
            h.ids_bound;
      data_bound = h.data_bound;
      place =
          metadata-Placed w (record m { objects = insert name o m.objects }) v.pending
            (λ id address node_id r. Reserved-insert m name o id address node_id tt r) h.place;
    }

pub Mirrors-allocates :
    (w : MockServices) (v : View) (m' : MockMetadataClient) (a : AllocateChunkResponse)
    → Mirrors w v
    → Allocates w.metadata m' a
    → Mirrors
        (record w { metadata = m' })
        (with_pending (given a.chunk_id a.storage_node_address a.storage_node_id) v)
unfolding find_node
Mirrors-allocates w v m' a h k =
    subst
      (λ (m : MockMetadataClient).
        Mirrors (record w { metadata = m })
          (with_pending (given a.chunk_id a.storage_node_address a.storage_node_id) v))
      (sym k.after)
      (record {
        lists = λ name cs e.
            let l = h.lists name cs e in
            record { object = l.object; found = l.found; chunks = l.chunks };
        stores = h.stores;
        ids_bound = λ name o e.
            All-mono (λ i. i < m.next_chunk_id) (λ i. i < m.next_chunk_id + 1) o.chunk_ids
              (λ i lt. omega arith) (h.ids_bound name o e);
        data_bound = λ id part e. let lt = h.data_bound id part e in omega (arith, lt);
        place = (
          record { handed_out = omega (arith, k.id); node = found; unlisted = unlisted },
          unstored,
        );
      })
  where
    m : MockMetadataClient
    m = w.metadata

    is_first :
        (n : StorageNodeMessage) (ns : List StorageNodeMessage) → find_node n.id (n ∷ ns) ≡ some n
    is_first n ns = let same : (n.id == n.id) ≡ true = beq_refl n.id in rw same refl

    found :
        find_node a.storage_node_id m.storage_nodes
        ≡ some (record { id = a.storage_node_id; address = a.storage_node_address })
    found =
        ap (λ (i : ℕ). find_node i m.storage_nodes) k.node_id
        ∙ ap (find_node k.node.id) k.first
        ∙ is_first k.node k.nodes
        ∙ ap some (sym (cc (k.node_id, k.address)))

    unlisted :
        (name : String) (o : StoredObject)
        → lookup name m.objects ≡ some o
        → All (λ i. i ≢ a.chunk_id) o.chunk_ids
    unlisted name o e =
        All-mono (λ i. i < m.next_chunk_id) (λ i. i ≢ a.chunk_id) o.chunk_ids
          (λ i lt same. omega (arith, k.id, same)) (h.ids_bound name o e)

    unstored : lookup a.chunk_id w.factory.shared_chunks ≡ none
    unstored = by_data (lookup a.chunk_id w.factory.shared_chunks) refl
      where
        by_data :
            (d : Option (List ℕ))
            → lookup a.chunk_id w.factory.shared_chunks ≡ d
            → lookup a.chunk_id w.factory.shared_chunks ≡ none
        by_data none e = e
        by_data (some part) e =
            let lt = h.data_bound a.chunk_id part e in absurd (omega (arith, k.id, lt))
