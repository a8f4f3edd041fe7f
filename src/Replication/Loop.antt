-- ===== src/Replication/Loop.antt =====
-- What a whole cycle comes to, round by round.
use object_store.Common.{
  ℕ, ◌+◌, ◌%◌, ◌^◌, ◌≤◌, ◌≡◌, refl, ap, List, [], ◌∷◌, Option, none, some, length, take,
  length-take, arith, ◌⊎◌, inl, inr,
}
use object_store.Clients.{
  Answer, answered, refused, RpcCode, Clients, StorageNodeMessage, UnderReplicatedChunk,
}
use object_store.Replication.{
  Cycle, max_replicas, count_replicated, replicate_chunk, replicate_each, process, found,
  run_replication_cycle,
}
use object_store.Replication.Outcomes.{Post, Replicates, Leaves, skipped, failed, cleaned}
use object_store.Replication.Rounds.{replicate_chunk-Post}

module _ {W : Type 0} (cl : Clients W) (crc : List ℕ → ℕ)
    (choose : List StorageNodeMessage → W → Option StorageNodeMessage × W) where
  -- A run of rounds, one for each chunk, and how many of them replicate theirs.
  pub data Rounds (nodes : List StorageNodeMessage)
      : List UnderReplicatedChunk → ℕ → Cycle W → Cycle W → Type 0 where
    done : {s : Cycle W} → Rounds nodes [] 0 s s
    replicated :
        {c : UnderReplicatedChunk} {cs : List UnderReplicatedChunk} {k : ℕ} {s t s' : Cycle W}
        → Replicates cl crc choose nodes c s t
        → Rounds nodes cs k (count_replicated cl crc choose t) s'
        → Rounds nodes (c ∷ cs) (1 + k) s s'
    left :
        {c : UnderReplicatedChunk} {cs : List UnderReplicatedChunk} {k : ℕ} {s t s' : Cycle W}
        → Leaves cl crc choose nodes c s t
        → Rounds nodes cs k t s'
        → Rounds nodes (c ∷ cs) k s s'

  replicate_each-Rounds :
      (nodes : List StorageNodeMessage) (cs : List UnderReplicatedChunk) (s : Cycle W)
      → Rounds nodes cs
          (replicate_each cl crc choose nodes cs s).0
          s
          (replicate_each cl crc choose nodes cs s).1
  unfolding replicate_each
  replicate_each-Rounds nodes [] s = done
  replicate_each-Rounds nodes (c ∷ cs) s =
      by_round (λ t. replicate_each-Rounds nodes cs t) (replicate_chunk cl crc choose nodes c s).0
        refl (replicate_chunk-Post cl crc choose nodes c s)
    where
      Goal : ℕ × Cycle W → Type 0
      Goal q = Rounds nodes (c ∷ cs) q.0 s q.1

      by_round :
          ((t : Cycle W)
            → Rounds nodes cs
                (replicate_each cl crc choose nodes cs t).0
                t
                (replicate_each cl crc choose nodes cs t).1)
          → (o : Option (Unit {0})) → (replicate_chunk cl crc choose nodes c s).0 ≡ o
          → Post
              (λ _ s'. Replicates cl crc choose nodes c s s')
              (Leaves cl crc choose nodes c s)
              (o, (replicate_chunk cl crc choose nodes c s).1)
          → Goal (replicate_each cl crc choose nodes (c ∷ cs) s)
      by_round later (some _) e h = rw (e, replicate_each) (replicated h (later _))
      by_round later none e h = rw (e, replicate_each) (left h (later _))

  Rounds-bound :
      (nodes : List StorageNodeMessage) (cs : List UnderReplicatedChunk) (k : ℕ) (s s' : Cycle W)
      → Rounds nodes cs k s s'
      → k ≤ length cs
  Rounds-bound nodes cs k s s' done = omega arith
  Rounds-bound nodes cs k s s' (replicated h r) =
      let b = Rounds-bound nodes _ _ _ _ r in omega arith
  Rounds-bound nodes cs k s s' (left h r) = let b = Rounds-bound nodes _ _ _ _ r in omega arith

  Rounds-take :
      (nodes : List StorageNodeMessage) (max : ℕ) (cs : List UnderReplicatedChunk) (k : ℕ)
      (s s' : Cycle W)
      → Rounds nodes (take max cs) k s s'
      → k ≤ max
  Rounds-take nodes max cs k s s' r =
      omega (arith, Rounds-bound nodes (take max cs) k s s' r, length-take max cs)

  Leaves-total :
      (nodes : List StorageNodeMessage) (c : UnderReplicatedChunk) (s t : Cycle W)
      → Leaves cl crc choose nodes c s t
      → t.metrics.chunks_replicated_total ≡ s.metrics.chunks_replicated_total
  Leaves-total nodes c s t (skipped k e) = ap (λ (u : Cycle W). u.metrics.chunks_replicated_total) e
  Leaves-total nodes c s t (failed f e) = ap (λ (u : Cycle W). u.metrics.chunks_replicated_total) e
  Leaves-total nodes c s t (cleaned copied code w w' d k e) =
      ap (λ (u : Cycle W). u.metrics.chunks_replicated_total) e

  -- The counter has gone up by the number of chunks.
  Rounds-total :
      (nodes : List StorageNodeMessage) (cs : List UnderReplicatedChunk) (k : ℕ) (s s' : Cycle W)
      → Rounds nodes cs k s s'
      → s'.metrics.chunks_replicated_total % 2 ^ 64
        ≡ (s.metrics.chunks_replicated_total + k) % 2 ^ 64
  Rounds-total nodes cs k s s' done = omega arith
  Rounds-total nodes cs k s s' (replicated h r) =
      let b = Rounds-total nodes _ _ _ _ r in
      let e = ap (λ (u : Cycle W). u.metrics.chunks_replicated_total) h.after in omega arith
  Rounds-total nodes cs k s s' (left h r) =
      let b = Rounds-total nodes _ _ _ _ r in let e = Leaves-total nodes _ _ _ h in omega arith

  -- Why a cycle has no round.
  pub data Idle (s : Cycle W) : Type 0 where
    unlisted :
        (code : RpcCode)
        → (cl.metadata.list_under_replicated_chunks max_replicas s.world).0 ≡ refused code
        → Idle s
    nothing_found :
        (cl.metadata.list_under_replicated_chunks max_replicas s.world).0 ≡ answered [] → Idle s
    without_nodes :
        (a : Answer (List StorageNodeMessage))
        → (cl.metadata.list_storage_nodes
            (cl.metadata.list_under_replicated_chunks max_replicas s.world).1).0
          ≡ a
        → (a ≡ answered []) ⊎ ((code : RpcCode) × (a ≡ refused code))
        → Idle s

  -- The rounds of a cycle: for the first of the chunks that are listed, at most `max_chunks`, in
  -- their order, with the counters that they leave.
  pub record Cycles (max_chunks : ℕ) (s s' : Cycle W) : Type 0 where
    pub chunks : List UnderReplicatedChunk
    pub nodes : List StorageNodeMessage
    pub count : ℕ
    pub begun : Cycle W
    pub lists : (cl.metadata.list_under_replicated_chunks max_replicas s.world).0 ≡ answered chunks
    pub lists_nodes :
        (cl.metadata.list_storage_nodes
          (cl.metadata.list_under_replicated_chunks max_replicas s.world).1).0
        ≡ answered nodes
    pub begins :
        begun.world
        ≡ (cl.metadata.list_storage_nodes
            (cl.metadata.list_under_replicated_chunks max_replicas s.world).1).1
    pub rounds : Rounds nodes (take max_chunks chunks) count begun s'
    pub bound : count ≤ max_chunks
    pub total :
        s'.metrics.chunks_replicated_total % 2 ^ 64
        ≡ (s.metrics.chunks_replicated_total + count) % 2 ^ 64

  -- A cycle has no round, for a reason of `Idle`, and then counts no replicated chunk; or it is a run
  -- of rounds on the first `max_chunks` of the chunks that are listed, which replicates at most so
  -- many and adds their number to the counter. A round that replicates has chosen a target among the
  -- nodes without a replica, has found a free slot there, has copied bytes with the checksum of the
  -- chunk from its first node, and has recorded the replica. Any other round ends as `Leaves` says:
  -- skipped, with a call that failed and was counted, or with a record that was refused, after which
  -- the copy is deleted from its target where that can be reached.
  pub run_replication_cycle-Cycles :
      (max_chunks : ℕ) (s : Cycle W)
      → (Idle s
          × ((run_replication_cycle cl crc choose max_chunks s).metrics.chunks_replicated_total
              ≡ s.metrics.chunks_replicated_total))
        ⊎ Cycles max_chunks s (run_replication_cycle cl crc choose max_chunks s)
  unfolding run_replication_cycle found process
  run_replication_cycle-Cycles max_chunks s =
      by_chunks (cl.metadata.list_under_replicated_chunks max_replicas s.world).0 refl
    where
      listed : W
      listed = (cl.metadata.list_under_replicated_chunks max_replicas s.world).1

      Goal : Type 0
      Goal =
          (Idle s
            × ((run_replication_cycle cl crc choose max_chunks s).metrics.chunks_replicated_total
                ≡ s.metrics.chunks_replicated_total))
          ⊎ Cycles max_chunks s (run_replication_cycle cl crc choose max_chunks s)

      by_nodes :
          (c : UnderReplicatedChunk) (cs : List UnderReplicatedChunk)
          → (cl.metadata.list_under_replicated_chunks max_replicas s.world).0 ≡ answered (c ∷ cs)
          → (a : Answer (List StorageNodeMessage)) → (cl.metadata.list_storage_nodes listed).0 ≡ a
          → Goal
      by_nodes c cs e (refused code) d =
          rw (e, run_replication_cycle)
            (rw (d, found) (inl (without_nodes _ d (inr (code, refl)), refl)))
      by_nodes c cs e (answered []) d =
          rw (e, run_replication_cycle)
            (rw (d, found, process) (inl (without_nodes _ d (inl refl), refl)))
      by_nodes c cs e (answered (n ∷ ns)) d =
          rw (e, run_replication_cycle)
            (rw (d, found, process)
              (let rounds = replicate_each-Rounds (n ∷ ns) (take max_chunks (c ∷ cs)) _ in
                inr (record {
                  chunks = c ∷ cs;
                  nodes = n ∷ ns;
                  count = _;
                  begun = _;
                  lists = e;
                  lists_nodes = d;
                  begins = refl;
                  rounds = rounds;
                  bound = Rounds-take (n ∷ ns) max_chunks (c ∷ cs) _ _ _ rounds;
                  total = Rounds-total (n ∷ ns) _ _ _ _ rounds;
                })))

      by_chunks :
          (a : Answer (List UnderReplicatedChunk))
          → (cl.metadata.list_under_replicated_chunks max_replicas s.world).0 ≡ a
          → Goal
      by_chunks (refused code) e = rw (e, run_replication_cycle) (inl (unlisted code e, refl))
      by_chunks (answered []) e = rw (e, run_replication_cycle, found) (inl (nothing_found e, refl))
      by_chunks (answered (c ∷ cs)) e =
          by_nodes c cs e (cl.metadata.list_storage_nodes listed).0 refl
