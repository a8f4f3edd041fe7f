-- ===== src/Replication/Tests.antt =====
-- A cycle with one chunk, which the first of two nodes holds.
use Prim.Native.String.{String}
use object_store.Common.{
  ℕ, ◌+◌, ◌≤◌, ◌≡◌, arith, refl, ◌⊎◌, List, [], ◌∷◌, true, Option, none, some, length,
}
use object_store.Clients.{
  answered, refused, RpcCode, Call, Clients, StorageNodeMessage, UnderReplicatedChunk,
}
use object_store.Replication.{Cycle, replicate_chunk, run_replication_cycle}
use object_store.Replication.Service.{Service, tick, ticks, Ticks, ticks-Ticks}
use object_store.Replication.Outcomes.{Post, Replicates, Leaves}
use object_store.Replication.Rounds.{replicate_chunk-Post}
use object_store.Replication.Loop.{Idle, Cycles, run_replication_cycle-Cycles}

abbrev source : StorageNodeMessage
source = record { id = 1; address = "http://source" }

abbrev target : StorageNodeMessage
target = record { id = 2; address = "http://target" }

abbrev chunk : UnderReplicatedChunk
chunk = record { chunk_id = 7; checksum = 2; current_storage_node_ids = 1 ∷ [] }

-- The world is the chunks that were copied, and how many replicas were recorded.
abbrev World : Type 0
World = List (List ℕ) × ℕ

abbrev clients : Clients World
clients = record {
  metadata = record {
    list_storage_nodes = λ w. (answered (source ∷ target ∷ []), w);
    put_object = λ checksum name w. (answered tt, w);
    get_object = λ name w. (refused RpcCode.not_found, w);
    delete_object = λ name w. (answered tt, w);
    allocate_chunk = λ name checksum w. (refused RpcCode.unavailable, w);
    confirm_chunk = λ id name checksum node_id w. (answered tt, w);
    list_objects = λ w. (answered [], w);
    delete_chunk = λ id w. (answered tt, w);
    put_chunk = λ name checksum w. (refused RpcCode.internal, w);
    put_storage_node = λ address w. (answered 1, w);
    get_chunk = λ id w. (refused RpcCode.not_found, w);
    get_storage_node = λ id w. (answered source.address, w);
    delete_storage_node = λ id w. (answered tt, w);
    list_under_replicated_chunks = λ max w. (answered (chunk ∷ []), w);
    add_chunk_replica = λ id node_id w. (answered tt, (w.0, w.1 + 1));
    update_object_checksum = λ name checksum size w. (answered tt, w);
  };
  storage = record {
    get_chunk_size = λ address w. (answered 2, w);
    write_chunk = λ address id part w. (answered tt, (part ∷ w.0, w.1));
    read_chunk = λ address id w. (answered (5 ∷ 6 ∷ []), w);
    delete_chunk = λ address id w. (answered tt, w);
    get_free_chunks = λ address w. (answered 9, w);
    check_health = λ address w. (answered true, w);
  };
  connect = λ address w. (answered tt, w);
}

abbrev first_of : List StorageNodeMessage → World → Option StorageNodeMessage × World
first_of [] w = (none, w)
first_of (n ∷ ns) w = (some n, w)

abbrev start : Cycle World
start = record {
  world = ([], 0);
  metrics = record {
    replication_runs_total = 0;
    chunks_replicated_total = 0;
    replication_failures = [];
    under_replicated_chunks = 0;
    chunks_skipped_rate_limit = 0;
  };
}

-- The chunk is copied and recorded.
run_replication_cycle_copied :
    (run_replication_cycle clients length first_of 100 start).world ≡ ((5 ∷ 6 ∷ []) ∷ [], 1)
unfolding run_replication_cycle
run_replication_cycle_copied = refl

replicate_chunk-Post_example :
    Post
      (λ _ s'. Replicates clients length first_of (source ∷ target ∷ []) chunk start s')
      (Leaves clients length first_of (source ∷ target ∷ []) chunk start)
      (replicate_chunk clients length first_of (source ∷ target ∷ []) chunk start)
replicate_chunk-Post_example =
    replicate_chunk-Post clients length first_of (source ∷ target ∷ []) chunk start

run_replication_cycle-Cycles_example :
    (Idle clients length first_of start
      × ((run_replication_cycle clients length first_of 100 start).metrics.chunks_replicated_total
          ≡ start.metrics.chunks_replicated_total))
    ⊎ Cycles clients length first_of 100 start
        (run_replication_cycle clients length first_of 100 start)
run_replication_cycle-Cycles_example =
    run_replication_cycle-Cycles clients length first_of 100 start

abbrev service : Service World
service = record { cycle = start; metadata_url = "http://metadata"; consecutive_failures = 3 }

abbrev take_any : String → Call World (Unit {0})
take_any url w = (answered tt, w)

ticks-Ticks_example :
    let s = ticks take_any (λ url. clients) length first_of ("http://other" ∷ []) 100 2 service in
    (s.consecutive_failures ≤ 3)
    × Ticks take_any
        (λ url. clients)
        length
        first_of
        ("http://other" ∷ [])
        100
        s
        (tick take_any (λ url. clients) length first_of ("http://other" ∷ []) 100 s)
ticks-Ticks_example =
    ticks-Ticks take_any (λ url. clients) length first_of ("http://other" ∷ []) 100 2 service
      (omega arith)
