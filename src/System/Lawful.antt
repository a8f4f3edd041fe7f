-- ===== src/System/Lawful.antt =====
-- The system keeps a view: an upload and a download go through the real services.
use Prim.Native.String.{String}
use object_store.Common.{ℕ, ◌≡◌, refl, sym, ap, ◌∙◌, subst, List, [], ◌∷◌, ◌++◌, Option, none, some}
use object_store.Common.Map.{Map, string_eq, nat_eq}
use object_store.Clients.{answered, Clients, ChunkMessage, AllocateChunkResponse}
use object_store.Services.{
  idle, given, written, View, with_object, with_data, with_pending, one_replica, IsLawful,
}
use object_store.ChunkStore.Store.Get.{IsChecksum}
use object_store.MetadataStore.Types.{MetaStorageNode, MetadataStore, Json, Random}
use object_store.MetadataStore.Objects
use object_store.MetadataStore.Chunks
use object_store.MetadataNode.{Node}
use object_store.MetadataNode.Local
use object_store.MetadataNode.Local.{all_nodes, chunks_with, found_object, object_response}
use object_store.StorageNode
use object_store.StorageNode.{StorageNodeImpl, Reply, get_chunk_size_request}
use object_store.MetadataNode.Global
use object_store.System.StorageCalls.{write_chunk-response, read_chunk-response}
use object_store.System.Listed.{Located, Placed}
use object_store.System.MetadataCalls.{
  StoreShows, IsRandom, put_object-Shows, update_object_checksum-Shows, confirm_chunk-Shows,
  allocate_chunk-Shows,
}
use object_store.System.Answers.{
  answer_of, world_of, respond_ok, confirm_chunk_ok, allocate_ok, get_object_found, reply_ok,
}
use object_store.System.Holds.{Holds, Holds-written, Holds-asked}
use object_store.System.Calls.{System, to_answer, of_reply, map_answer, system}

module _ (crc : List ℕ → ℕ) (randoms : ℕ → Random) where
  -- The random choices fit the storage nodes that are known.
  abbrev pub Randoms : Map ℕ MetaStorageNode → Type 0
  Randoms nodes = (k : ℕ) → IsRandom (randoms k) nodes

  pub record Keeps (w : System) (v : View) : Type 0 where
    pub shows : StoreShows Randoms w.node.metadata_store v
    pub holds : (address : String) → Holds crc (w.storage address) (v.held address)

module _ (json : Json) (crc : List ℕ → ℕ) (randoms : ℕ → Random) (other : Clients System) where
  services : Clients System
  services = system json crc randoms other

  -- A metadata call whose store shows the view afterwards.
  Keeps-node :
      (w : System) (v v' : View) (n : Node)
      → Keeps crc randoms w v
      → v'.held ≡ v.held
      → StoreShows (Randoms crc randoms) n.metadata_store v'
      → Keeps crc randoms (record w { node = n }) v'
  Keeps-node w v v' n h same shows = record {
    shows = shows;
    holds = λ address.
        subst
          (λ (held : String → ℕ → Option (List ℕ)). Holds crc (w.storage address) (held address))
          (sym same) (h.holds address);
  }

  system-creates :
      (checksum : ℕ) (name : String) (w w' : System) (v : View)
      → Keeps crc randoms w v
      → services.metadata.put_object checksum name w ≡ (answered tt, w')
      → Keeps crc randoms w' (with_object name [] v)
  unfolding services Local.put_object
  system-creates checksum name w w' v h e =
      let done =
        respond_ok _ (Objects.put_object json checksum name w.node.metadata_store).0 tt
          (answer_of _ tt w' e) in
      subst (λ (u : System). Keeps crc randoms u (with_object name [] v)) (world_of _ tt w' e)
        (Keeps-node w v (with_object name [] v) (Local.put_object json checksum name w.node).1 h
          refl
          (put_object-Shows (Randoms crc randoms) json checksum name w.node.metadata_store v h.shows
            done))

  system-updates :
      (name : String) (checksum size : ℕ) (w w' : System) (v : View)
      → Keeps crc randoms w v
      → services.metadata.update_object_checksum name checksum size w ≡ (answered tt, w')
      → Keeps crc randoms w' v
  unfolding services Local.update_object_checksum
  system-updates name checksum size w w' v h e =
      let done =
        respond_ok _
          (Objects.update_object_checksum json name checksum size w.node.metadata_store).0 tt
          (answer_of _ tt w' e) in
      subst (λ (u : System). Keeps crc randoms u v) (world_of _ tt w' e)
        (Keeps-node w v v (Local.update_object_checksum json name checksum size w.node).1 h refl (
          update_object_checksum-Shows (Randoms crc randoms) json name checksum size
            w.node.metadata_store v h.shows done))

  system-confirms :
      (id : ℕ) (name : String) (checksum node_id : ℕ) (address : String) (cs : List ChunkMessage)
      (w w' : System) (v : View)
      → Keeps crc randoms w v
      → v.pending ≡ written id address node_id
      → v.listed name ≡ some cs
      → services.metadata.confirm_chunk id name checksum node_id w ≡ (answered tt, w')
      → Keeps crc randoms w' (
          with_pending idle
            (with_object name (cs ++ one_replica id checksum node_id address ∷ []) v))
  unfolding services
  system-confirms id name checksum node_id address cs w w' v h p l e =
      let v' =
        with_pending idle
          (with_object name (cs ++ one_replica id checksum node_id address ∷ []) v) in
      let (done, store) =
        confirm_chunk_ok json id name checksum node_id w.node (answer_of _ tt w' e) in
      subst (λ (u : System). Keeps crc randoms u v') (world_of _ tt w' e)
        (Keeps-node w v v' (Local.confirm_chunk json id name checksum node_id w.node).1 h refl (
          subst (λ (s : MetadataStore). StoreShows (Randoms crc randoms) s v') (sym store)
            (confirm_chunk-Shows (Randoms crc randoms) json id name checksum node_id address cs
              w.node.metadata_store v h.shows p l done)))

  system-allocates :
      (name : String) (checksum : ℕ) (a : AllocateChunkResponse) (w w' : System) (v : View)
      → Keeps crc randoms w v
      → services.metadata.allocate_chunk name checksum w ≡ (answered a, w')
      → Keeps crc randoms w'
          (with_pending (given a.chunk_id a.storage_node_address a.storage_node_id) v)
  unfolding services Local.allocate_chunk
  system-allocates name checksum a w w' v h e =
      let v' = with_pending (given a.chunk_id a.storage_node_address a.storage_node_id) v in
      let done =
        allocate_ok (Chunks.allocate_chunk (randoms w.asked) name w.node.metadata_store).0 _ a
          (answer_of _ a w' e) in
      subst (λ (u : System). Keeps crc randoms u v') (world_of _ a w' e)
        (record {
          shows =
              allocate_chunk-Shows (Randoms crc randoms) (randoms w.asked) name a.chunk_id
                a.storage_node_id a.storage_node_address w.node.metadata_store v (h.shows.1 w.asked)
                h.shows done;
          holds = h.holds;
        })

  system-gets :
      (name : String) (cs : List ChunkMessage) (w : System) (v : View)
      → Keeps crc randoms w v
      → v.listed name ≡ some cs
      → (checksum : ℕ) × ((services.metadata.get_object name w).0
          ≡ answered (record { checksum = checksum; chunks = cs }))
        × Keeps crc randoms (services.metadata.get_object name w).1 v
  unfolding services Local.get_object
  system-gets name cs w v h e =
      let l = h.shows.0.lists name cs e in
      let s = w.node.metadata_store in
      let found = get_object_found name s l.object l.found in
      let reply =
        ap (found_object (all_nodes s.storage_nodes) s) found
        ∙ ap (object_response l.object.checksum) l.messages in
      (l.object.checksum, ap to_answer reply, record { shows = h.shows; holds = h.holds })

  system-writes :
      (address : String) (id node_id : ℕ) (part : List ℕ) (w w' : System) (v : View)
      → Keeps crc randoms w v
      → v.pending ≡ given id address node_id
      → services.storage.write_chunk address id part w ≡ (answered tt, w')
      → (v.held address id ≡ none)
        × Keeps crc randoms w'
            (with_pending (written id address node_id) (with_data address id part v))
  unfolding services
  system-writes address id node_id part w w' v h p e =
      let n = w.storage address in
      let node = h.holds address in
      let place : Located w.node.metadata_store.storage_nodes id address node_id =
        subst (Placed w.node.metadata_store.storage_nodes) p h.shows.0.place in
      let (i, done) =
        reply_ok (λ _. tt) (StorageNode.write_chunk crc id part n).0 tt (answer_of _ tt w' e) in
      let (new, sound) =
        write_chunk-response crc id part n node.chunks i place.id_u64 node.sound done in
      let n' = (StorageNode.write_chunk crc id part n).1 in
      let v' = with_pending (written id address node_id) (with_data address id part v) in
      (
        unheld new (v.held address id) refl,
        subst (λ (u : System). Keeps crc randoms u v') (world_of _ tt w' e)
            (record {
              shows = (
                record { lists = λ name cs k. h.shows.0.lists name cs k; place = place },
                h.shows.1,
              );
              holds = λ a.
                  let held =
                    Holds-written crc w v address id part n' node.chunks h.holds node.has sound a in
                  record { chunks = held.chunks; sound = held.sound; has = held.has };
            }),
      )
    where
      unheld :
          (h.holds address).chunks id ≡ none
          → (o : Option (List ℕ)) → v.held address id ≡ o
          → v.held address id ≡ none
      unheld new none k = k
      unheld new (some d) k = absurd (cc (new, (h.holds address).has id d k))

  system-reads :
      IsChecksum crc
      → (address : String) (id : ℕ) (part : List ℕ) (w : System) (v : View) → Keeps crc randoms w v
      → v.held address id ≡ some part
      → ((services.storage.read_chunk address id w).0 ≡ answered part)
        × Keeps crc randoms (services.storage.read_chunk address id w).1 v
  unfolding services
  system-reads crc_u32 address id part w v h e =
      let n = w.storage address in
      let node = h.holds address in
      let (gives, sound) =
        read_chunk-response crc id part n node.chunks crc_u32 node.sound (node.has id part e) in
      let n' = (StorageNode.read_chunk crc id n).1 in
      let held : Holds crc n' (v.held address) = record {
        chunks = node.chunks;
        sound = sound;
        has = node.has;
      } in
      (
        ap (λ r. map_answer (λ q. q.1) (of_reply r)) gives,
        record { shows = h.shows; holds = Holds-asked crc w v address n' h.holds held },
      )

  -- For a checksum of 32 bits, a metadata node that serves its own store, and the storage nodes, each
  -- in order on a reliable file, are lawful services: they keep every view of which the store lists
  -- the objects and the nodes have the data, as long as the random ids are of 64 bits and the random
  -- choices are of storage nodes that are known.
  pub system-IsLawful :
      IsChecksum crc → IsLawful (system json crc randoms other) (Keeps crc randoms)
  unfolding services Global.list_storage_nodes get_chunk_size_request
  system-IsLawful crc_u32 = record {
    connects = λ address w v h. h;
    reaches = λ address id part w v h e. refl;
    lists_nodes = λ w v h. record { shows = h.shows; holds = h.holds };
    sizes = λ address w v h. record {
      shows = h.shows;
      holds = Holds-asked crc w v address (w.storage address) h.holds (h.holds address);
    };
    creates = system-creates;
    allocates = system-allocates;
    writes = system-writes;
    confirms = system-confirms;
    updates = system-updates;
    gets = system-gets;
    reads = system-reads crc_u32;
  }
