-- ===== src/Gateway/Mocks/Writes.antt =====
-- What writes, confirmations and updates make of a view.
use Prim.Native.String.{String}
use text.Mathlib.Text.{◌==◌ as str_eq}
use text.Mathlib.TextEquality.{eq_iff}
use object_store.Common.{
  ℕ, ◌<◌, ◌≡◌, ◌≢◌, refl, sym, ap, ◌∙◌, subst, List, [], ◌∷◌, ◌++◌, Bool, true, false, Option, none,
  some, arith, All, All-append, ◌==◌, ==_iff,
}
use object_store.Common.Map.{Map, nat_eq, string_eq, lookup, insert, lookup-insert}
use object_store.Clients.{answered, ChunkMessage}
use object_store.Services.{
  idle, given, written, View, with_object, with_data, with_pending, one_replica,
}
use object_store.Gateway.Mocks.Metadata
use object_store.Gateway.Mocks.Metadata.{
  StoredObject, StoredChunk, MockMetadataClient, find_node, nodes_of, chunk_message, chunks_of,
  push_chunk,
}
use object_store.Gateway.Mocks.Services.{MockServices}
use object_store.Gateway.Mocks.Chunks.{
  every-insert, chunks_of-insert, chunks_of-append, chunks_of-one,
}
use object_store.Gateway.Mocks.Mirrors.{
  Lists, Reserved, Placed, Mirrors, Lists-insert, metadata-Placed, Reserved-insert,
}

pub Mirrors-writes :
    (w : MockServices) (v : View) (address : String) (id node_id : ℕ) (part : List ℕ)
    → Mirrors w v
    → v.pending ≡ given id address node_id
    → (v.held address id ≡ none)
      × Mirrors
          (record w {
            factory = record (w.factory) { shared_chunks = insert id part w.factory.shared_chunks };
          })
          (with_pending (written id address node_id) (with_data address id part v))
Mirrors-writes w v address id node_id part h p =
    let (r, unstored) = subst (Placed w) p h.place in
    (
      new unstored (v.held address id) refl,
      record {
        lists = h.lists;
        stores = λ a i d e. by_place a i d e (str_eq address a) refl (id == i) refl;
        ids_bound = h.ids_bound;
        data_bound = λ i d e. bound r i d e (id == i) refl;
        place = r;
      },
    )
  where
    new :
        lookup id w.factory.shared_chunks ≡ none
        → (d : Option (List ℕ)) → v.held address id ≡ d
        → v.held address id ≡ none
    new unstored none e = e
    new unstored (some d) e = absurd (cc (h.stores address id d e, unstored))

    by_place :
        (a : String) (i : ℕ) (d : List ℕ)
        → (with_data address id part v).held a i ≡ some d
        → (b : Bool) → str_eq address a ≡ b
        → (c : Bool) → (id == i) ≡ c
        → lookup i (insert id part w.factory.shared_chunks) ≡ some d
    by_place a i d e false k c l = by_id c l
      where
        old : lookup i w.factory.shared_chunks ≡ some d
        old = h.stores a i d (rw k at e)

        by_id :
            (c : Bool) → (id == i) ≡ c → lookup i (insert id part w.factory.shared_chunks) ≡ some d
        by_id false l = lookup-insert id i part w.factory.shared_chunks ∙ rw l old
        by_id true l =
            let same : id ≡ i = (==_iff id i).0 l in
            let unstored = (subst (Placed w) p h.place).1 in absurd (cc (old, unstored, same))
    by_place a i d e true k true l =
        lookup-insert id i part w.factory.shared_chunks ∙ rw l (rw (k, l) at e)
    by_place a i d e true k false l =
        lookup-insert id i part w.factory.shared_chunks ∙ rw l (h.stores a i d (rw (k, l) at e))

    bound :
        Reserved w.metadata id address node_id
        → (i : ℕ) (d : List ℕ) → lookup i (insert id part w.factory.shared_chunks) ≡ some d
        → (c : Bool) → (id == i) ≡ c
        → i < w.metadata.next_chunk_id
    bound r i d e true l =
        let same : id ≡ i = (==_iff id i).0 l in let lt = r.handed_out in omega (arith, lt, same)
    bound r i d e false l =
        let old = sym (lookup-insert id i part w.factory.shared_chunks) ∙ e in
        h.data_bound i d (rw l at old)

pub push_chunk_listed :
    (id : ℕ) (name : String) (objects : Map String StoredObject) (o : StoredObject)
    → lookup name objects ≡ some o
    → push_chunk id name objects
      ≡ insert name (record o { chunk_ids = o.chunk_ids ++ id ∷ [] }) objects
unfolding push_chunk
push_chunk_listed id name objects o e = rw (e, push_chunk) refl

pub Mirrors-confirms :
    (w : MockServices) (v : View) (id : ℕ) (name : String) (checksum node_id : ℕ) (address : String)
    (cs : List ChunkMessage)
    → Mirrors w v
    → v.pending ≡ written id address node_id
    → v.listed name ≡ some cs
    → Mirrors
        (record w { metadata = (Metadata.confirm_chunk id name checksum node_id w.metadata).1 })
        (with_pending idle
          (with_object name (cs ++ one_replica id checksum node_id address ∷ []) v))
unfolding Metadata.confirm_chunk
Mirrors-confirms w v id name checksum node_id address cs h p listed =
    subst
      (λ (objects : Map String StoredObject).
        Mirrors (record w { metadata = record m { chunks = stored; objects = objects } })
          (with_pending idle
            (with_object name (cs ++ one_replica id checksum node_id address ∷ []) v)))
      (sym (push_chunk_listed id name m.objects l.object l.found))
      (record {
        lists =
            Lists-insert m v name o stored (cs ++ one_replica id checksum node_id address ∷ [])
              h.lists
              (λ other x e.
                chunks_of-insert m.storage_nodes id c m.chunks x.chunk_ids (r.unlisted other x e))
              here;
        stores = h.stores;
        ids_bound =
            every-insert (λ x. All (λ i. i < m.next_chunk_id) x.chunk_ids) name o m.objects
              (All-append (λ i. i < m.next_chunk_id) l.object.chunk_ids (id ∷ [])
                (h.ids_bound name l.object l.found) (r.handed_out, tt))
              h.ids_bound;
        data_bound = h.data_bound;
        place = tt;
      })
  where
    m : MockMetadataClient
    m = w.metadata

    r : Reserved m id address node_id
    r = subst (Placed w) p h.place

    l : Lists m name cs
    l = h.lists name cs listed

    c : StoredChunk
    c = record { object_name = name; checksum = checksum; storage_node_ids = node_id ∷ [] }

    stored : Map ℕ StoredChunk
    stored = insert id c m.chunks

    o : StoredObject
    o = record (l.object) { chunk_ids = l.object.chunk_ids ++ id ∷ [] }

    here :
        chunks_of m.storage_nodes stored o.chunk_ids
        ≡ cs ++ one_replica id checksum node_id address ∷ []
    here =
        chunks_of-append m.storage_nodes stored l.object.chunk_ids (id ∷ [])
        ∙ ap (λ (ds : List ChunkMessage). ds ++ chunks_of m.storage_nodes stored (id ∷ []))
            (chunks_of-insert m.storage_nodes id c m.chunks l.object.chunk_ids
                (r.unlisted name l.object l.found)
              ∙ l.chunks)
        ∙ ap (◌++◌ cs)
            (chunks_of-one m.storage_nodes id checksum node_id address name m.chunks r.node)

pub update_object_checksum_found :
    (name : String) (checksum total_size : ℕ) (m : MockMetadataClient) (o : StoredObject)
    → lookup name m.objects ≡ some o
    → Metadata.update_object_checksum name checksum total_size m ≡ (
      answered tt,
      record m { objects = insert name (record o { checksum = checksum }) m.objects },
    )
unfolding Metadata.update_object_checksum
update_object_checksum_found name checksum total_size m o e =
    rw (e, Metadata.update_object_checksum) refl

pub update_object_checksum_missing :
    (name : String) (checksum total_size : ℕ) (m : MockMetadataClient)
    → lookup name m.objects ≡ none
    → (Metadata.update_object_checksum name checksum total_size m).0 ≢ answered tt
unfolding Metadata.update_object_checksum
update_object_checksum_missing name checksum total_size m e k =
    absurd (cc (rw (e, Metadata.update_object_checksum) at k))

pub Mirrors-updates :
    (w : MockServices) (v : View) (name : String) (checksum : ℕ) (o : StoredObject)
    → lookup name w.metadata.objects ≡ some o
    → Mirrors w v
    → Mirrors
        (record w {
          metadata = record (w.metadata) {
            objects = insert name (record o { checksum = checksum }) w.metadata.objects;
          };
        })
        v
Mirrors-updates w v name checksum o e h = record {
  lists = λ other cs l. by_place other cs (h.lists other cs l) (str_eq name other) refl;
  stores = h.stores;
  ids_bound =
      every-insert (λ x. All (λ i. i < m.next_chunk_id) x.chunk_ids) name o' m.objects
        (h.ids_bound name o e) h.ids_bound;
  data_bound = h.data_bound;
  place =
      metadata-Placed w (record m { objects = insert name o' m.objects }) v.pending
        (λ id address node_id r.
          Reserved-insert m name o' id address node_id (r.unlisted name o e) r)
        h.place;
}
  where
    m : MockMetadataClient
    m = w.metadata

    o' : StoredObject
    o' = record o { checksum = checksum }

    by_place :
        (other : String) (cs : List ChunkMessage)
        → Lists m other cs
        → (b : Bool) → str_eq name other ≡ b
        → Lists (record m { objects = insert name o' m.objects }) other cs
    by_place other cs l true k =
        let here : lookup other (insert name o' m.objects) ≡ some o' =
          lookup-insert name other o' m.objects ∙ rw k refl in
        let names : name ≡ other = (eq_iff name other).0 k in
        let same : o ≡ l.object = cc (e, l.found, names) in
        record {
          object = o';
          found = here;
          chunks =
              ap (λ (x : StoredObject). chunks_of m.storage_nodes m.chunks x.chunk_ids) same
              ∙ l.chunks;
        }
    by_place other cs l false k =
        let there : lookup other (insert name o' m.objects) ≡ lookup other m.objects =
          lookup-insert name other o' m.objects ∙ rw k refl in
        record { object = l.object; found = there ∙ l.found; chunks = l.chunks }
