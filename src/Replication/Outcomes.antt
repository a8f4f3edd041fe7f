-- ===== src/Replication/Outcomes.antt =====
-- How a round of the replication can end.
use Prim.Native.String.{String}
use object_store.Common.{ℕ, ◌≡◌, ◌≢◌, [], ◌∷◌, List, Option, none, some}
use object_store.Clients.{
  answered, refused, RpcCode, Clients, StorageNodeMessage, UnderReplicatedChunk,
}
use object_store.Replication.{Cycle, inc_failure}
use object_store.Replication.Nodes.{Eligible, HasRoom, NoRoom, CleansUp}

module _ {W : Type 0} where
  -- What a round leaves, where it goes on and where it ends.
  abbrev pub Post :
      {A : Type 0} → (A → Cycle W → Type 0) → (Cycle W → Type 0) → Option A × Cycle W → Type 0
  Post R F (some a, s) = R a s
  Post R F (none, s) = F s

module _ {W : Type 0} (cl : Clients W) (crc : List ℕ → ℕ)
    (choose : List StorageNodeMessage → W → Option StorageNodeMessage × W) where
  -- The way to a verified copy on a target: `target` was chosen among the nodes without a
  -- replica and has space, `source` is the first of the nodes that have one, and what was read
  -- from it has the chunk's checksum. `written` is the world with the copy.
  pub record Copied (nodes : List StorageNodeMessage) (chunk : UnderReplicatedChunk) (start : W)
      : Type 0 where
    pub candidates : List StorageNodeMessage
    pub target : StorageNodeMessage
    pub source_id : ℕ
    pub other_ids : List ℕ
    pub source : String
    pub bytes : List ℕ
    pub chosen : W
    pub checked : W
    pub located : W
    pub source_connected : W
    pub data_read : W
    pub target_connected : W
    pub written : W
    pub eligible : Eligible chunk.current_storage_node_ids nodes candidates
    pub chooses : choose candidates start ≡ (some target, chosen)
    pub has_room : HasRoom cl target.address chosen checked
    pub is_first : chunk.current_storage_node_ids ≡ source_id ∷ other_ids
    pub locates : cl.metadata.get_storage_node source_id checked ≡ (answered source, located)
    pub connects_source : cl.connect source located ≡ (answered tt, source_connected)
    pub reads :
        cl.storage.read_chunk source chunk.chunk_id source_connected ≡ (answered bytes, data_read)
    pub matches : crc bytes ≡ chunk.checksum
    pub connects_target : cl.connect target.address data_read ≡ (answered tt, target_connected)
    pub writes :
        cl.storage.write_chunk target.address chunk.chunk_id bytes target_connected
        ≡ (answered tt, written)

  -- The copy is made, and the metadata service knows it.
  pub record Replicates (nodes : List StorageNodeMessage) (chunk : UnderReplicatedChunk)
      (s s' : Cycle W) : Type 0 where
    pub copied : Copied nodes chunk s.world
    pub recorded : W
    pub records :
        cl.metadata.add_chunk_replica chunk.chunk_id copied.target.id copied.written
        ≡ (answered tt, recorded)
    pub after : s' ≡ record s { world = recorded }

  -- Why a round ends with nothing counted: all nodes have a replica, no target is chosen, the target
  -- has no space or cannot be reached, or the chunk has no replica at all.
  pub data Skips (nodes : List StorageNodeMessage) (chunk : UnderReplicatedChunk) (w : W)
      : W → Type 0 where
    none_eligible : Eligible chunk.current_storage_node_ids nodes [] → Skips nodes chunk w w
    none_chosen :
        {candidates : List StorageNodeMessage} {w' : W}
        → Eligible chunk.current_storage_node_ids nodes candidates
        → choose candidates w ≡ (none, w')
        → Skips nodes chunk w w'
    no_room :
        {candidates : List StorageNodeMessage} {target : StorageNodeMessage} {chosen w' : W}
        → Eligible chunk.current_storage_node_ids nodes candidates
        → choose candidates w ≡ (some target, chosen)
        → NoRoom cl target.address chosen w'
        → Skips nodes chunk w w'
    no_source : {w' : W} → chunk.current_storage_node_ids ≡ [] → Skips nodes chunk w w'

  -- Which call a failure is counted for: the source is not located or not reached, the chunk is not
  -- read, has another checksum, or the target is not reached or does not take the copy.
  pub data Fails (chunk : UnderReplicatedChunk) : String → W → Type 0 where
    not_located :
        {code : RpcCode} {w' : W} (id : ℕ) (others : List ℕ) (w : W)
        → chunk.current_storage_node_ids ≡ id ∷ others
        → cl.metadata.get_storage_node id w ≡ (refused code, w')
        → Fails chunk "connect_source" w'
    source_refuses :
        {code : RpcCode} {w' : W} (source : String) (w : W)
        → cl.connect source w ≡ (refused code, w')
        → Fails chunk "connect_source" w'
    not_read :
        {code : RpcCode} {w' : W} (source : String) (w : W)
        → cl.storage.read_chunk source chunk.chunk_id w ≡ (refused code, w')
        → Fails chunk "read_chunk" w'
    not_matching :
        {w' : W} (source : String) (bytes : List ℕ) (w : W)
        → cl.storage.read_chunk source chunk.chunk_id w ≡ (answered bytes, w')
        → crc bytes ≢ chunk.checksum
        → Fails chunk "checksum_mismatch" w'
    target_refuses :
        {code : RpcCode} {w' : W} (target : String) (w : W)
        → cl.connect target w ≡ (refused code, w')
        → Fails chunk "connect_target" w'
    not_written :
        {code : RpcCode} {w' : W} (target : String) (bytes : List ℕ) (w : W)
        → crc bytes ≡ chunk.checksum
        → cl.storage.write_chunk target chunk.chunk_id bytes w ≡ (refused code, w')
        → Fails chunk "write_chunk" w'

  -- A round that ends before: nothing is counted, or a failure; and a copy that the metadata service
  -- refuses is deleted again.
  pub data Leaves (nodes : List StorageNodeMessage) (chunk : UnderReplicatedChunk) (s s' : Cycle W)
      : Type 0 where
    skipped :
        {w : W}
        → Skips nodes chunk s.world w
        → s' ≡ record s { world = w }
        → Leaves nodes chunk s s'
    failed :
        {label : String} {w : W}
        → Fails chunk label w
        → s' ≡ record { world = w; metrics = inc_failure label s.metrics }
        → Leaves nodes chunk s s'
    cleaned :
        (copied : Copied nodes chunk s.world) (code : RpcCode) (w w' : W)
        → cl.metadata.add_chunk_replica chunk.chunk_id copied.target.id copied.written
          ≡ (refused code, w)
        → CleansUp cl copied.target.address chunk.chunk_id w w'
        → s' ≡ record { world = w'; metrics = inc_failure "update_metadata" s.metrics }
        → Leaves nodes chunk s s'
