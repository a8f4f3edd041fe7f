-- ===== src/Replication.antt =====
-- replication-service/src/main.rs: `run_replication_cycle`, with its metrics.
mod Nodes
mod Outcomes
mod Rounds
mod Loop
mod Service
mod Tests
use Prim.Native.String.{String}
use object_store.Common.{
  ℕ, ◌+◌, ◌-◌, ◌%◌, ◌^◌, List, [], ◌∷◌, Bool, true, false, Option, none, some, length, take, ltb,
  ◌==◌, if◌then◌else◌,
}
use object_store.Clients.{
  Answer, answered, refused, Call, Clients, StorageNodeMessage, UnderReplicatedChunk,
}

abbrev pub max_replicas : ℕ
max_replicas = 3

-- The counters wrap; `replication_failures` is the labels that were counted, the latest first.
pub record Metrics : Type 0 where
  pub replication_runs_total : ℕ
  pub chunks_replicated_total : ℕ
  pub replication_failures : List String
  pub under_replicated_chunks : ℕ
  pub chunks_skipped_rate_limit : ℕ

-- The metrics, beside the state of everything outside the service.
pub record Cycle (W : Type 0) : Type 0 where
  pub world : W
  pub metrics : Metrics

-- What a round of the loop does: `none` is a `continue`, which ends the round.
abbrev pub Round : Type 0 → Type 0 → Type 0
Round W A = Cycle W → Option A × Cycle W

abbrev pub inc_failure : String → Metrics → Metrics
inc_failure label m = record m { replication_failures = label ∷ m.replication_failures }

unfoldable pub holds : List ℕ → ℕ → Bool
holds [] id = false
holds (i ∷ ids) id = if i == id then true else holds ids id

-- The nodes that have no replica.
unfoldable pub eligible_nodes : List ℕ → List StorageNodeMessage → List StorageNodeMessage
unfolding holds
eligible_nodes ids [] = []
eligible_nodes ids (n ∷ nodes) =
    let rest = eligible_nodes ids nodes in if holds ids n.id then rest else n ∷ rest

module _ {W A B : Type 0} where
  abbrev pub continue : Option A → (A → Round W B) → Round W B
  continue (some a) f s = f a s
  continue none f s = (none, s)

  infixl 5 ◌>>=◌ ◌>>◌
  abbrev pub ◌>>=◌ : Round W A → (A → Round W B) → Round W B
  ◌>>=◌ m f s = continue (m s).0 f (m s).1

  abbrev pub ◌>>◌ : Round W A → Round W B → Round W B
  m >> k = m >>= λ _. k

module _ {W : Type 0} where
  abbrev pub skip : {A : Type 0} → Round W A
  skip s = (none, s)

  abbrev pub fail : {A : Type 0} → String → Round W A
  fail label s = (none, record s { metrics = inc_failure label s.metrics })

  abbrev pub given : {A : Type 0} → Option A → Round W A
  given (some a) s = (some a, s)
  given none s = (none, s)

  abbrev pub call : {A : Type 0} → Call W A → Round W (Answer A)
  call c s = (some (c s.world).0, record s { world = (c s.world).1 })

  abbrev pub or_fail : {A : Type 0} → String → Answer A → Round W A
  or_fail label (answered a) s = (some a, s)
  or_fail label (refused _) s = fail label s

module _ {W : Type 0} (cl : Clients W) where
  -- A connection to a node and a call of it, with the label of each one's failure.
  unfoldable pub reach : {A : Type 0} → String → String → String → Call W A → Round W A
  reach not_connected not_called address c = do
    connected ← call (cl.connect address)
    or_fail not_connected connected
    answer ← call c
    or_fail not_called answer

  -- A node that cannot be reached has no space.
  unfoldable pub has_space : String → W → Bool × W
  has_space address w = elim (cl.connect address w).0 [
    | refused _ ↦ (false, (cl.connect address w).1)
    | answered _ ↦ (
      elim (cl.storage.get_free_chunks address (cl.connect address w).1).0 [
        | answered num_free ↦ ltb 0 num_free
        | refused _ ↦ false
      ],
      (cl.storage.get_free_chunks address (cl.connect address w).1).1,
    )
  ]

  -- The copy on the target is deleted again, if a connection can be had.
  unfoldable pub clean_up : String → ℕ → W → W
  clean_up address id w = elim (cl.connect address w).0 [
    | answered _ ↦ (cl.storage.delete_chunk address id (cl.connect address w).1).1
    | refused _ ↦ (cl.connect address w).1
  ]

  unfoldable pub update_metadata : StorageNodeMessage → ℕ → Round W (Unit {0})
  unfolding clean_up
  update_metadata target id s = elim (cl.metadata.add_chunk_replica id target.id s.world).0 [
    | answered _ ↦
        (some tt, record s { world = (cl.metadata.add_chunk_replica id target.id s.world).1 })
    | refused _ ↦ (
      none,
      record s {
        world = clean_up target.address id (cl.metadata.add_chunk_replica id target.id s.world).1;
        metrics = inc_failure "update_metadata" s.metrics;
      },
    )
  ]

abbrev pub first : List ℕ → Option ℕ
first [] = none
first (id ∷ ids) = some id

abbrev pub is_empty {ℓ} : {A : Type ℓ} → List A → Bool
is_empty [] = true
is_empty (a ∷ as_) = false

-- `choose` is the random choice of `rand`, whose generator is a part of the world.
module _ {W : Type 0} (cl : Clients W) (crc : List ℕ → ℕ)
    (choose : List StorageNodeMessage → W → Option StorageNodeMessage × W) where
  -- The target of a chunk.
  unfoldable pub choose_target : List StorageNodeMessage → List ℕ → Round W StorageNodeMessage
  unfolding eligible_nodes
  choose_target nodes ids s =
      let eligible = eligible_nodes ids nodes in
      if is_empty eligible
      then (none, s)
      else ((choose eligible s.world).0, record s { world = (choose eligible s.world).1 })

  unfoldable pub check_space : String → Round W (Unit {0})
  unfolding has_space
  check_space address s = (
    if (has_space cl address s.world).0 then some tt else none,
    record s { world = (has_space cl address s.world).1 },
  )

  unfoldable pub verify : ℕ → List ℕ → Round W (Unit {0})
  verify checksum data_ s =
      if crc data_ == checksum then (some tt, s) else fail "checksum_mismatch" s

  -- The body of the loop, up to the counter of success.
  unfoldable pub replicate_chunk :
      List StorageNodeMessage → UnderReplicatedChunk → Round W (Unit {0})
  unfolding choose_target check_space reach verify update_metadata
  replicate_chunk nodes chunk = do
    target ← choose_target nodes chunk.current_storage_node_ids
    check_space target.address
    source_id ← given (first chunk.current_storage_node_ids)
    known ← call (cl.metadata.get_storage_node source_id)
    source ← or_fail "connect_source" known
    data_ ←
        reach cl "connect_source" "read_chunk" source (cl.storage.read_chunk source chunk.chunk_id)
    verify chunk.checksum data_
    reach cl "connect_target" "write_chunk" target.address
        (cl.storage.write_chunk target.address chunk.chunk_id data_)
    update_metadata cl target chunk.chunk_id

  abbrev pub count_replicated : Cycle W → Cycle W
  count_replicated s = record s {
    metrics = record (s.metrics) {
      chunks_replicated_total = (s.metrics.chunks_replicated_total + 1) % 2 ^ 64;
    };
  }

  -- The loop: the number of chunks that were replicated.
  unfoldable pub replicate_each :
      List StorageNodeMessage → List UnderReplicatedChunk → Cycle W → ℕ × Cycle W
  unfolding replicate_chunk
  replicate_each nodes [] s = (0, s)
  replicate_each nodes (c ∷ cs) s = elim (replicate_chunk nodes c s).0 [
    | some _ ↦
        let rest = replicate_each nodes cs (count_replicated (replicate_chunk nodes c s).1) in
        (1 + rest.0, rest.1)
    | none ↦ replicate_each nodes cs (replicate_chunk nodes c s).1
  ]

  -- The part that begins with the storage nodes.
  unfoldable pub process :
      ℕ → List StorageNodeMessage → List UnderReplicatedChunk → Cycle W → Cycle W
  unfolding replicate_each
  process max_chunks nodes chunks s =
      if is_empty nodes
      then s
      else (replicate_each nodes (take max_chunks chunks) (record s {
        metrics = record (s.metrics) {
          chunks_skipped_rate_limit =
              (s.metrics.chunks_skipped_rate_limit + (length chunks - max_chunks)) % 2 ^ 64;
        };
      })).1

  unfoldable pub found : ℕ → List UnderReplicatedChunk → Cycle W → Cycle W
  unfolding process
  found max_chunks chunks s =
      if is_empty chunks then s else elim (cl.metadata.list_storage_nodes s.world).0 [
        | answered nodes ↦
            process max_chunks nodes chunks
              (record s { world = (cl.metadata.list_storage_nodes s.world).1 })
        | refused _ ↦ record s {
          world = (cl.metadata.list_storage_nodes s.world).1;
          metrics = inc_failure "list_nodes" s.metrics;
        }
      ]

  unfoldable pub run_replication_cycle : ℕ → Cycle W → Cycle W
  unfolding found
  run_replication_cycle max_chunks s =
      let started = record (s.metrics) {
        replication_runs_total = (s.metrics.replication_runs_total + 1) % 2 ^ 64;
      } in
      elim (cl.metadata.list_under_replicated_chunks max_replicas s.world).0 [
        | answered chunks ↦ found max_chunks chunks (record {
          world = (cl.metadata.list_under_replicated_chunks max_replicas s.world).1;
          metrics = record started { under_replicated_chunks = length chunks };
        })
        | refused _ ↦ record {
          world = (cl.metadata.list_under_replicated_chunks max_replicas s.world).1;
          metrics = inc_failure "list_chunks" started;
        }
      ]
