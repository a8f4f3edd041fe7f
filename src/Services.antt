-- ===== src/Services.antt =====
-- What the gateway relies on: the services behind the traits of protos/src/clients.rs, by an
-- abstract view of what they hold.
use Prim.Native.String.{String}
use text.Mathlib.Text.{◌==◌ as str_eq}
use object_store.Common.{ℕ, ◌≡◌, List, [], ◌∷◌, ◌++◌, ◌==◌, Option, none, some, if◌then◌else◌}
use object_store.Clients.{answered, Clients, ChunkMessage, AllocateChunkResponse}

-- The place of a chunk that is being stored: where its data goes, and then that it is there.
pub data Pending : Type 0 where
  idle : Pending
  given written : ℕ → String → ℕ → Pending

-- The chunks that each object lists, the data that the node at an address has under an id, and the
-- chunk that is being stored: its id, and the address and the id of its node.
pub record View : Type 0 where
  pub listed : String → Option (List ChunkMessage)
  pub held : String → ℕ → Option (List ℕ)
  pub pending : Pending

abbrev pub with_object : String → List ChunkMessage → View → View
with_object name chunks v = record v {
  listed = λ other. if str_eq name other then some chunks else v.listed other;
}

abbrev pub with_data : String → ℕ → List ℕ → View → View
with_data address id part v = record v {
  held = λ other j.
      if str_eq address other
      then (if id == j then some part else v.held other j)
      else v.held other j;
}

abbrev pub with_pending : Pending → View → View
with_pending p v = record v { pending = p }

-- A chunk with one replica.
abbrev pub one_replica : ℕ → ℕ → ℕ → String → ChunkMessage
one_replica id checksum node_id address = record {
  id = id;
  checksum = checksum;
  storage_nodes = record { id = node_id; address = address } ∷ [];
}

-- The services keep a view, which `Is` says of a world, as long as nobody else calls them. A
-- refused call promises nothing.
pub record IsLawful {W : Type 0} (cl : Clients W) (Is : W → View → Type 0) : Type 0 where
  -- A connection and the questions change nothing, and a node that holds data can be reached.
  pub connects : (address : String) (w : W) (v : View) → Is w v → Is (cl.connect address w).1 v
  pub reaches :
      (address : String) (id : ℕ) (part : List ℕ) (w : W) (v : View)
      → Is w v
      → v.held address id ≡ some part
      → (cl.connect address w).0 ≡ answered tt
  pub lists_nodes : (w : W) (v : View) → Is w v → Is (cl.metadata.list_storage_nodes w).1 v
  pub sizes :
      (address : String) (w : W) (v : View) → Is w v → Is (cl.storage.get_chunk_size address w).1 v
  pub creates :
      (checksum : ℕ) (name : String) (w w' : W) (v : View)
      → Is w v
      → cl.metadata.put_object checksum name w ≡ (answered tt, w')
      → Is w' (with_object name [] v)
  -- An allocation gives a place.
  pub allocates :
      (name : String) (checksum : ℕ) (a : AllocateChunkResponse) (w w' : W) (v : View)
      → Is w v
      → cl.metadata.allocate_chunk name checksum w ≡ (answered a, w')
      → Is w' (with_pending (given a.chunk_id a.storage_node_address a.storage_node_id) v)
  -- Data goes to the place that was given, under an id that is new to the node.
  pub writes :
      (address : String) (id node_id : ℕ) (part : List ℕ) (w w' : W) (v : View)
      → Is w v
      → v.pending ≡ given id address node_id
      → cl.storage.write_chunk address id part w ≡ (answered tt, w')
      → (v.held address id ≡ none)
        × Is w' (with_pending (written id address node_id) (with_data address id part v))
  -- A chunk that was written and is confirmed comes last in its object, with one replica.
  pub confirms :
      (id : ℕ) (name : String) (checksum node_id : ℕ) (address : String)
      (chunks : List ChunkMessage) (w w' : W) (v : View)
      → Is w v
      → v.pending ≡ written id address node_id
      → v.listed name ≡ some chunks
      → cl.metadata.confirm_chunk id name checksum node_id w ≡ (answered tt, w')
      → Is w' (
          with_pending idle
            (with_object name (chunks ++ one_replica id checksum node_id address ∷ []) v))
  pub updates :
      (name : String) (checksum total_size : ℕ) (w w' : W) (v : View)
      → Is w v
      → cl.metadata.update_object_checksum name checksum total_size w ≡ (answered tt, w')
      → Is w' v
  pub gets :
      (name : String) (chunks : List ChunkMessage) (w : W) (v : View)
      → Is w v
      → v.listed name ≡ some chunks
      → (checksum : ℕ) × ((cl.metadata.get_object name w).0
          ≡ answered (record { checksum = checksum; chunks = chunks }))
        × Is (cl.metadata.get_object name w).1 v
  pub reads :
      (address : String) (id : ℕ) (part : List ℕ) (w : W) (v : View)
      → Is w v
      → v.held address id ≡ some part
      → ((cl.storage.read_chunk address id w).0 ≡ answered part)
        × Is (cl.storage.read_chunk address id w).1 v
