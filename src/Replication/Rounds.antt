-- ===== src/Replication/Rounds.antt =====
-- A round of the replication ends in one of its ways.
use Prim.Native.String.{String}
use object_store.Common.{
  ℕ, ◌≡◌, ◌≢◌, subst, [], ◌∷◌, refl, ap, List, Bool, true, false, Option, none, some, ◌==◌, ==_iff,
  Bool-cases, inl, inr,
}
use object_store.Clients.{
  Answer, answered, refused, RpcCode, Call, Clients, StorageNodeMessage, UnderReplicatedChunk,
}
use object_store.Replication.{
  Cycle, Round, inc_failure, eligible_nodes, ◌>>=◌, ◌>>◌, given, or_fail, reach, has_space,
  clean_up, update_metadata, first, is_empty, choose_target, check_space, verify, replicate_chunk,
}
use object_store.Replication.Nodes.{
  Eligible, is_empty-nil, eligible_nodes-Eligible, has_space-HasRoom, has_space-NoRoom,
  clean_up-CleansUp,
}
use object_store.Replication.Outcomes.{
  Post, Copied, Replicates, none_eligible, none_chosen, no_room, no_source, not_located,
  source_refuses, not_read, not_matching, target_refuses, not_written, Leaves, skipped, failed,
  cleaned,
}

module _ {W : Type 0} (cl : Clients W) (crc : List ℕ → ℕ)
    (choose : List StorageNodeMessage → W → Option StorageNodeMessage × W) where
  module _ {A B : Type 0} (R : B → Cycle W → Type 0) (F : Cycle W → Type 0) where
    on_answer :
        (label : String) (x : Answer A) (t : Cycle W) (k : A → Round W B)
        → ((c : RpcCode) → x ≡ refused c → F (record t { metrics = inc_failure label t.metrics }))
        → ((a : A) → x ≡ answered a → Post R F (k a t))
        → Post R F ((or_fail label x >>= k) t)
    on_answer label (answered a) t k h rest = rest a refl
    on_answer label (refused c) t k h rest = h c refl

    on_reach :
        (l l' address : String) (c : Call W A) (t : Cycle W) (k : A → Round W B)
        → ((code : RpcCode) (w : W)
            → cl.connect address t.world ≡ (refused code, w)
            → F (record { world = w; metrics = inc_failure l t.metrics }))
        → ((code : RpcCode) (w w' : W)
            → c w ≡ (refused code, w')
            → F (record { world = w'; metrics = inc_failure l' t.metrics }))
        → ((a : A) (w w' : W)
            → cl.connect address t.world ≡ (answered tt, w)
            → c w ≡ (answered a, w')
            → Post R F (k a (record t { world = w' })))
        → Post R F ((reach cl l l' address c >>= k) t)
    unfolding reach
    on_reach l l' address c t k h h' rest = by_connection (cl.connect address t.world) refl
      where
        by_call :
            (w : W)
            → cl.connect address t.world ≡ (answered tt, w)
            → (q : Answer A × W) → c w ≡ q
            → Post R F ((reach cl l l' address c >>= k) t)
        by_call w d (answered a, w') e = rw (d, reach) (rw e (rest a w w' d e))
        by_call w d (refused code, w') e = rw (d, reach) (rw e (h' code w w' e))

        by_connection :
            (q : Answer (Unit {0}) × W)
            → cl.connect address t.world ≡ q
            → Post R F ((reach cl l l' address c >>= k) t)
        by_connection (answered _, w) d = by_call w d (c w) refl
        by_connection (refused code, w) d = rw (d, reach) (h code w d)

  module _ {B : Type 0} (R : B → Cycle W → Type 0) (F : Cycle W → Type 0) where
    on_first :
        (ids : List ℕ) (t : Cycle W) (k : ℕ → Round W B)
        → (ids ≡ [] → F t)
        → ((id : ℕ) (others : List ℕ) → ids ≡ id ∷ others → Post R F (k id t))
        → Post R F ((given (first ids) >>= k) t)
    on_first [] t k h rest = h refl
    on_first (id ∷ others) t k h rest = rest id others refl

    on_target :
        (nodes : List StorageNodeMessage) (ids : List ℕ) (t : Cycle W)
        (k : StorageNodeMessage → Round W B)
        → (eligible_nodes ids nodes ≡ [] → F (record t { world = t.world }))
        → ((w : W)
            → choose (eligible_nodes ids nodes) t.world ≡ (none, w)
            → F (record t { world = w }))
        → ((target : StorageNodeMessage) (w : W)
            → choose (eligible_nodes ids nodes) t.world ≡ (some target, w)
            → Post R F (k target (record t { world = w })))
        → Post R F ((choose_target cl crc choose nodes ids >>= k) t)
    unfolding choose_target
    on_target nodes ids t k empty h rest = by_nodes (is_empty (eligible_nodes ids nodes)) refl
      where
        by_choice :
            is_empty (eligible_nodes ids nodes) ≡ false
            → (q : Option StorageNodeMessage × W) → choose (eligible_nodes ids nodes) t.world ≡ q
            → Post R F ((choose_target cl crc choose nodes ids >>= k) t)
        by_choice z (some target, w) e = rw (z, choose_target) (rw e (rest target w e))
        by_choice z (none, w) e = rw (z, choose_target) (rw e (h w e))

        by_nodes :
            (b : Bool)
            → is_empty (eligible_nodes ids nodes) ≡ b
            → Post R F ((choose_target cl crc choose nodes ids >>= k) t)
        by_nodes true z = rw (z, choose_target) (empty (is_empty-nil (eligible_nodes ids nodes) z))
        by_nodes false z = by_choice z (choose (eligible_nodes ids nodes) t.world) refl

    on_space :
        (address : String) (t : Cycle W) (k : Round W B)
        → ((w : W) → has_space cl address t.world ≡ (false, w) → F (record t { world = w }))
        → ((w : W)
            → has_space cl address t.world ≡ (true, w)
            → Post R F (k (record t { world = w })))
        → Post R F ((check_space cl crc choose address >> k) t)
    unfolding check_space
    on_space address t k h rest = by_space (has_space cl address t.world) refl
      where
        by_space :
            (q : Bool × W)
            → has_space cl address t.world ≡ q
            → Post R F ((check_space cl crc choose address >> k) t)
        by_space (true, w) e = rw (e, check_space) (rest w e)
        by_space (false, w) e = rw (e, check_space) (h w e)

    on_checksum :
        (checksum : ℕ) (bytes : List ℕ) (t : Cycle W) (k : Round W B)
        → (crc bytes ≢ checksum
            → F (record t { metrics = inc_failure "checksum_mismatch" t.metrics }))
        → (crc bytes ≡ checksum → Post R F (k t))
        → Post R F ((verify cl crc choose checksum bytes >> k) t)
    unfolding verify
    on_checksum checksum bytes t k h rest = elim (Bool-cases (crc bytes == checksum)) [
      | inl e ↦ rw (e, verify) (rest ((==_iff (crc bytes) checksum).0 e))
      | inr e ↦
          let differs : crc bytes ≢ checksum =
            λ same. cc (e, (==_iff (crc bytes) checksum).1 same) in
          rw (e, verify) (h differs)
    ]

  -- The last step, once there is a copy.
  update_metadata-Post :
      (nodes : List StorageNodeMessage) (chunk : UnderReplicatedChunk) (s : Cycle W)
      (copied : Copied cl crc choose nodes chunk s.world)
      → Post
          (λ _ s'. Replicates cl crc choose nodes chunk s s')
          (Leaves cl crc choose nodes chunk s)
          (update_metadata cl copied.target chunk.chunk_id (record s { world = copied.written }))
  unfolding update_metadata
  update_metadata-Post nodes chunk s copied =
      by_record (cl.metadata.add_chunk_replica chunk.chunk_id copied.target.id copied.written) refl
    where
      ended : W → Cycle W
      ended w = record {
        world = clean_up cl copied.target.address chunk.chunk_id w;
        metrics = inc_failure "update_metadata" s.metrics;
      }

      by_record :
          (q : Answer (Unit {0}) × W)
          → cl.metadata.add_chunk_replica chunk.chunk_id copied.target.id copied.written ≡ q
          → Post
              (λ _ s'. Replicates cl crc choose nodes chunk s s')
              (Leaves cl crc choose nodes chunk s)
              (update_metadata cl copied.target chunk.chunk_id
                (record s { world = copied.written }))
      by_record (answered _, w) e =
          rw (e, update_metadata)
            (record {
              copied = copied;
              recorded = w;
              records = e;
              after = ap (λ (q : Answer (Unit {0}) × W). record s { world = q.1 }) e;
            })
      by_record (refused c, w) e =
          rw (e, update_metadata)
            (cleaned copied c w _ e (clean_up-CleansUp cl copied.target.address chunk.chunk_id w)
              (ap (λ (q : Answer (Unit {0}) × W). ended q.1) e))

  -- A round replicates its chunk, or it ends before and leaves no more than `Leaves` says.
  pub replicate_chunk-Post :
      (nodes : List StorageNodeMessage) (chunk : UnderReplicatedChunk) (s : Cycle W)
      → Post
          (λ _ s'. Replicates cl crc choose nodes chunk s s')
          (Leaves cl crc choose nodes chunk s)
          (replicate_chunk cl crc choose nodes chunk s)
  unfolding replicate_chunk
  replicate_chunk-Post nodes chunk s =
      on_target R F nodes ids s _
        (λ none_left.
          skipped (none_eligible (subst (Eligible ids nodes) none_left some_nodes)) refl)
        (λ w none_is. skipped (none_chosen some_nodes none_is) refl)
        (λ target w1 e1.
          on_space R F target.address (at w1) _
            (λ w none_free.
              skipped (no_room some_nodes e1 (has_space-NoRoom cl target.address w1 w none_free))
                refl)
            (λ w2 e2.
              on_first R F ids (at w2) _ (λ no_ids. skipped (no_source no_ids) refl)
                (λ id others e3.
                  on_answer R F "connect_source" (locate id w2).0 (at (locate id w2).1) _
                    (λ code fails.
                      failed
                        (not_located id others w2 e3
                          (ap (λ (x : Answer String). (x, (locate id w2).1)) fails))
                        refl)
                    (λ source e4.
                      on_reach R F "connect_source" "read_chunk" source (read source)
                        (at (locate id w2).1) _
                        (λ code w fails. failed (source_refuses source (locate id w2).1 fails) refl)
                        (λ code w w' fails. failed (not_read source w fails) refl)
                        (λ bytes w3 w4 e5 e6.
                          on_checksum R F chunk.checksum bytes (at w4) _
                            (λ differs. failed (not_matching source bytes w3 e6 differs) refl)
                            (λ e7.
                              on_reach R F "connect_target" "write_chunk" target.address
                                (write target bytes) (at w4) _
                                (λ code w fails.
                                  failed (target_refuses target.address w4 fails) refl)
                                (λ code w w' fails.
                                  failed (not_written target.address bytes w e7 fails) refl)
                                (λ u w5 w6 e8 e9. update_metadata-Post nodes chunk s (record {
                                  candidates = eligible_nodes ids nodes;
                                  target = target;
                                  source_id = id;
                                  other_ids = others;
                                  eligible = some_nodes;
                                  source = source;
                                  bytes = bytes;
                                  chosen = w1;
                                  checked = w2;
                                  located = (locate id w2).1;
                                  source_connected = w3;
                                  data_read = w4;
                                  target_connected = w5;
                                  written = w6;
                                  chooses = e1;
                                  has_room = has_space-HasRoom cl target.address w1 w2 e2;
                                  is_first = e3;
                                  locates = ap (λ (x : Answer String). (x, (locate id w2).1)) e4;
                                  connects_source = e5;
                                  reads = e6;
                                  matches = e7;
                                  connects_target = e8;
                                  writes = e9;
                                }))))))))
    where
      some_nodes :
          Eligible chunk.current_storage_node_ids nodes
            (eligible_nodes chunk.current_storage_node_ids nodes)
      some_nodes = eligible_nodes-Eligible chunk.current_storage_node_ids nodes

      ids : List ℕ
      ids = chunk.current_storage_node_ids

      R : Unit {0} → Cycle W → Type 0
      R u s' = Replicates cl crc choose nodes chunk s s'

      F : Cycle W → Type 0
      F = Leaves cl crc choose nodes chunk s

      at : W → Cycle W
      at w = record s { world = w }

      locate : ℕ → Call W String
      locate id = cl.metadata.get_storage_node id

      read : String → Call W (List ℕ)
      read source = cl.storage.read_chunk source chunk.chunk_id

      write : StorageNodeMessage → List ℕ → Call W (Unit {0})
      write target bytes = cl.storage.write_chunk target.address chunk.chunk_id bytes
