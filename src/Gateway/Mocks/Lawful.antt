-- ===== src/Gateway/Mocks/Lawful.antt =====
-- The services in memory keep a view.
use Prim.Native.String.{String}
use object_store.Common.{
  ℕ, ◌≡◌, refl, sym, ap, ◌∙◌, subst, List, [], ◌∷◌, ◌++◌, Bool-cases, inl, inr, Option, none, some,
}
use object_store.Common.Map.{nat_eq, string_eq, lookup, insert}
use object_store.Clients.{Answer, answered, ChunkMessage, GetObjectResponse, AllocateChunkResponse}
use object_store.Services.{
  idle, given, written, View, with_object, with_data, with_pending, one_replica, IsLawful,
}
use object_store.Gateway.Mocks.Metadata
use object_store.Gateway.Mocks.Metadata.{
  StoredObject, StoredChunk, MockMetadataClient, find_node, nodes_of, chunk_message, chunks_of,
  push_chunk,
}
use object_store.Gateway.Mocks.Storage
use object_store.Gateway.Mocks.Storage.{MockStorageNodeClient}
use object_store.Gateway.Mocks.Services.{MockServices, connect, on_storage, mock_services}
use object_store.Gateway.Mocks.Chunks.{put_object-answered, allocate_chunk-Allocates}
use object_store.Gateway.Mocks.Mirrors.{Mirrors, Mirrors-creates, Mirrors-allocates}
use object_store.Gateway.Mocks.Writes.{
  Mirrors-writes, Mirrors-confirms, Mirrors-updates, update_object_checksum_found,
  update_object_checksum_missing,
}

module _ {A : Type 0} where
  -- What an answered call says of its two results.
  answer_of :
      (q : Answer A × MockServices) (a : A) (w' : MockServices)
      → q ≡ (answered a, w')
      → q.0 ≡ answered a
  answer_of q a w' e = ap (λ (p : Answer A × MockServices). p.0) e

  world_of :
      (q : Answer A × MockServices) (a : A) (w' : MockServices) → q ≡ (answered a, w') → q.1 ≡ w'
  world_of q a w' e = ap (λ (p : Answer A × MockServices). p.1) e

read_chunk_found :
    (id : ℕ) (part : List ℕ) (w : MockServices)
    → lookup id w.factory.shared_chunks ≡ some part
    → Storage.read_chunk id (connect w.factory) ≡ (answered part, connect w.factory)
unfolding Storage.read_chunk
read_chunk_found id part w e = simp e

get_object_found :
    (name : String) (m : MockMetadataClient) (o : StoredObject)
    → lookup name m.objects ≡ some o
    → Metadata.get_object name m ≡ (
      answered (record {
        checksum = o.checksum;
        chunks = chunks_of m.storage_nodes m.chunks o.chunk_ids;
      }),
      m,
    )
unfolding Metadata.get_object
get_object_found name m o e = rw (e, Metadata.get_object) refl

list_storage_nodes_same : (m : MockMetadataClient) → (Metadata.list_storage_nodes m).1 ≡ m
list_storage_nodes_same m = elim (Bool-cases m.fail_list_storage_nodes) [
  | inl f ↦ simp f
  | inr f ↦ simp f
]

mock-creates :
    (checksum : ℕ) (name : String) (w w' : MockServices) (v : View)
    → Mirrors w v
    → mock_services.metadata.put_object checksum name w ≡ (answered tt, w')
    → Mirrors w' (with_object name [] v)
mock-creates checksum name w w' v h e =
    let after = put_object-answered checksum name w.metadata (answer_of _ tt w' e) in
    subst (λ (u : MockServices). Mirrors u (with_object name [] v)) (world_of _ tt w' e)
      (subst
        (λ (m : MockMetadataClient). Mirrors (record w { metadata = m }) (with_object name [] v))
        (sym after) (Mirrors-creates w v name checksum h))

mock-allocates :
    (name : String) (checksum : ℕ) (a : AllocateChunkResponse) (w w' : MockServices) (v : View)
    → Mirrors w v
    → mock_services.metadata.allocate_chunk name checksum w ≡ (answered a, w')
    → Mirrors w' (with_pending (given a.chunk_id a.storage_node_address a.storage_node_id) v)
mock-allocates name checksum a w w' v h e =
    subst
      (λ (u : MockServices).
        Mirrors u (with_pending (given a.chunk_id a.storage_node_address a.storage_node_id) v))
      (world_of _ a w' e)
      (Mirrors-allocates w v _ a h
        (allocate_chunk-Allocates name checksum w.metadata a (answer_of _ a w' e)))

write_chunk_done :
    (id : ℕ) (part : List ℕ) (w : MockServices)
    → (on_storage (Storage.write_chunk id part) "" w).1 ≡ record w {
      factory = record (w.factory) { shared_chunks = insert id part w.factory.shared_chunks };
    }
unfolding Storage.write_chunk
write_chunk_done id part w = refl

mock-writes :
    (address : String) (id node_id : ℕ) (part : List ℕ) (w w' : MockServices) (v : View)
    → Mirrors w v
    → v.pending ≡ given id address node_id
    → mock_services.storage.write_chunk address id part w ≡ (answered tt, w')
    → (v.held address id ≡ none)
      × Mirrors w' (with_pending (written id address node_id) (with_data address id part v))
mock-writes address id node_id part w w' v h p e =
    let (new, after) = Mirrors-writes w v address id node_id part h p in
    (
      new,
      subst
          (λ (u : MockServices).
            Mirrors u (with_pending (written id address node_id) (with_data address id part v)))
          (sym (write_chunk_done id part w) ∙ world_of _ tt w' e) after,
    )

mock-updates :
    (name : String) (checksum total_size : ℕ) (w w' : MockServices) (v : View)
    → Mirrors w v
    → mock_services.metadata.update_object_checksum name checksum total_size w ≡ (answered tt, w')
    → Mirrors w' v
mock-updates name checksum total_size w w' v h e = by_object (lookup name w.metadata.objects) refl
  where
    by_object :
        (found : Option StoredObject) → lookup name w.metadata.objects ≡ found → Mirrors w' v
    by_object none k =
        absurd (
          update_object_checksum_missing name checksum total_size w.metadata k
            (answer_of _ tt w' e))
    by_object (some o) k =
        let after =
          ap (λ (q : Answer (Unit {0}) × MockMetadataClient). q.1)
            (update_object_checksum_found name checksum total_size w.metadata o k) in
        subst (λ (u : MockServices). Mirrors u v) (world_of _ tt w' e)
          (subst (λ (m : MockMetadataClient). Mirrors (record w { metadata = m }) v) (sym after)
            (Mirrors-updates w v name checksum o k h))

mock-gets :
    (name : String) (cs : List ChunkMessage) (w : MockServices) (v : View)
    → Mirrors w v
    → v.listed name ≡ some cs
    → (checksum : ℕ) × ((mock_services.metadata.get_object name w).0
        ≡ answered (record { checksum = checksum; chunks = cs }))
      × Mirrors (mock_services.metadata.get_object name w).1 v
mock-gets name cs w v h e =
    let l = h.lists name cs e in
    let run = get_object_found name w.metadata l.object l.found in
    (
      l.object.checksum,
      ap (λ (q : Answer GetObjectResponse × MockMetadataClient). q.0) run
          ∙ ap
              (λ (ds : List ChunkMessage).
                answered (record { checksum = l.object.checksum; chunks = ds }))
              l.chunks,
      subst (λ (m : MockMetadataClient). Mirrors (record w { metadata = m }) v)
          (sym (ap (λ (q : Answer GetObjectResponse × MockMetadataClient). q.1) run)) h,
    )

mock-reads :
    (address : String) (id : ℕ) (part : List ℕ) (w : MockServices) (v : View)
    → Mirrors w v
    → v.held address id ≡ some part
    → ((mock_services.storage.read_chunk address id w).0 ≡ answered part)
      × Mirrors (mock_services.storage.read_chunk address id w).1 v
mock-reads address id part w v h e =
    let run = read_chunk_found id part w (h.stores address id part e) in
    (
      ap (λ (q : Answer (List ℕ) × MockStorageNodeClient). q.0) run,
      subst
          (λ (c : MockStorageNodeClient).
            Mirrors (record w { factory = record (w.factory) { shared_chunks = c.chunks } }) v)
          (sym (ap (λ (q : Answer (List ℕ) × MockStorageNodeClient). q.1) run)) h,
    )

pub mock_services-IsLawful : IsLawful mock_services Mirrors
mock_services-IsLawful = record {
  connects = λ address w v h. h;
  reaches = λ address id part w v h e. refl;
  lists_nodes = λ w v h.
      subst (λ (m : MockMetadataClient). Mirrors (record w { metadata = m }) v)
        (sym (list_storage_nodes_same w.metadata)) h;
  sizes = λ address w v h. h;
  creates = mock-creates;
  allocates = mock-allocates;
  writes = mock-writes;
  confirms = λ id name checksum node_id address cs w w' v h p l e.
      subst
        (λ (u : MockServices). Mirrors u (
          with_pending idle
            (with_object name (cs ++ one_replica id checksum node_id address ∷ []) v)))
        (world_of _ tt w' e) (Mirrors-confirms w v id name checksum node_id address cs h p l);
  updates = mock-updates;
  gets = mock-gets;
  reads = mock-reads;
}
