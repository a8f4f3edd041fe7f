-- ===== src/Replication/Service.antt =====
-- replication-service/src/main.rs: the loop of `main`, tick by tick. The clients that a connection to an
-- address of the metadata service gives are a parameter, and so is the connection.
use Prim.Native.String.{String}
use object_store.Common.{
  ℕ, zero, suc, ◌+◌, ◌-◌, ◌^◌, ◌≤◌, ◌<◌, ◌≡◌, refl, ap, subst, List, true, inl, inr, Option, none,
  some, arith, leb, Bool-cases, if◌then◌else◌,
}
use object_store.Clients.{Answer, answered, refused, RpcCode, Call, Clients, StorageNodeMessage}
use object_store.Settings.{Env, parse_unsigned}
use object_store.Startup.{try_each}
use object_store.Startup.Rounds.{Tries, try_each-Tries}
use object_store.Replication.{Cycle, inc_failure, run_replication_cycle}

-- A setting that is a number, or else its default.
abbrev pub setting : Env → String → ℕ → ℕ
setting env name default = elim (env name) [
  | none ↦ default
  | some text ↦ elim (parse_unsigned (2 ^ 64 - 1) text) [ none ↦ default | some n ↦ n ]
]

abbrev pub replication_interval_secs : Env → ℕ
replication_interval_secs env = setting env "REPLICATION_INTERVAL_SECS" 60

abbrev pub max_chunks_per_cycle : Env → ℕ
max_chunks_per_cycle env = setting env "REPLICATION_MAX_CHUNKS_PER_CYCLE" 100

abbrev pub max_consecutive_failures : ℕ
max_consecutive_failures = 3

-- The address that the metadata client is connected to, beside the state of a cycle.
pub record Service (W : Type 0) : Type 0 where
  pub cycle : Cycle W
  pub metadata_url : String
  pub consecutive_failures : ℕ

module _ {W : Type 0} (connect : String → Call W (Unit {0})) (client : String → Clients W)
    (crc : List ℕ → ℕ) (choose : List StorageNodeMessage → W → Option StorageNodeMessage × W)
    (urls : List String) (max_chunks : ℕ) where
  abbrev pub failed : W → Service W → Service W
  failed w s = record s {
    cycle = record { world = w; metrics = inc_failure "connect_metadata" s.cycle.metrics };
  }

  -- The probe, and the cycle where it is answered.
  unfoldable pub probe : Service W → Service W
  probe s =
      let (r, w) = (client s.metadata_url).metadata.list_storage_nodes s.cycle.world in
      elim r [
        | answered _ ↦ record s {
          cycle =
              run_replication_cycle (client s.metadata_url) crc choose max_chunks
                (record (s.cycle) { world = w });
          consecutive_failures = 0;
        }
        | refused _ ↦ failed w (record s { consecutive_failures = s.consecutive_failures + 1 })
      ]

  -- After too many failures in a row a tick first connects anew.
  unfoldable pub tick : Service W → Service W
  unfolding probe
  tick s =
      let (r, w) = try_each connect urls urls s.cycle.world in
      if leb max_consecutive_failures s.consecutive_failures
      then elim r [
        | none ↦ failed w s
        | some url ↦ probe (record s {
          cycle = record (s.cycle) { world = w };
          metadata_url = url;
          consecutive_failures = 0;
        })
      ]
      else probe s

  unfoldable pub ticks : ℕ → Service W → Service W
  unfolding tick
  ticks zero s = s
  ticks (suc n) s = ticks n (tick s)

  -- The client that a tick probes: as it is, after less than three failures in a row, or else the
  -- first address that answers, with no failure counted.
  pub data Connected (s : Service W) : Service W → Type 0 where
    as_before : s.consecutive_failures < 3 → Connected s s
    anew :
        {url : String} {w : W}
        → 3 ≤ s.consecutive_failures
        → Tries connect urls s.cycle.world (some url) w
        → Connected s (record {
          cycle = record { world = w; metrics = s.cycle.metrics };
          metadata_url = url;
          consecutive_failures = 0;
        })

  -- A tick: no address answers, which leaves the count of failures; or a probe is answered, the cycle
  -- runs with the client that was probed, and the count is 0; or it is refused, and the count goes up
  -- by one. Each failure is counted in the metrics.
  pub data Ticks (s : Service W) : Service W → Type 0 where
    not_connected :
        {w : W}
        → 3 ≤ s.consecutive_failures
        → Tries connect urls s.cycle.world none w
        → Ticks s (record {
          cycle = record { world = w; metrics = inc_failure "connect_metadata" s.cycle.metrics };
          metadata_url = s.metadata_url;
          consecutive_failures = s.consecutive_failures;
        })
    ran :
        {u : Service W} {nodes : List StorageNodeMessage} {w : W}
        → Connected s u
        → (client u.metadata_url).metadata.list_storage_nodes u.cycle.world ≡ (answered nodes, w)
        → Ticks s (record {
          cycle =
              run_replication_cycle
                (client u.metadata_url)
                crc
                choose
                max_chunks
                (record { world = w; metrics = u.cycle.metrics });
          metadata_url = u.metadata_url;
          consecutive_failures = 0;
        })
    refused_probe :
        {u : Service W} {code : RpcCode} {w : W}
        → Connected s u
        → (client u.metadata_url).metadata.list_storage_nodes u.cycle.world ≡ (refused code, w)
        → Ticks s (record {
          cycle = record { world = w; metrics = inc_failure "connect_metadata" u.cycle.metrics };
          metadata_url = u.metadata_url;
          consecutive_failures = u.consecutive_failures + 1;
        })

  probe-Ticks : (s u : Service W) → Connected s u → Ticks s (probe u)
  unfolding probe
  probe-Ticks s u c =
      by_answer ((client u.metadata_url).metadata.list_storage_nodes u.cycle.world).0 refl
    where
      t : W
      t = ((client u.metadata_url).metadata.list_storage_nodes u.cycle.world).1

      by_answer :
          (a : Answer (List StorageNodeMessage))
          → ((client u.metadata_url).metadata.list_storage_nodes u.cycle.world).0 ≡ a
          → Ticks s (probe u)
      by_answer (answered nodes) e =
          rw (e, probe) (ran c (ap (λ (x : Answer (List StorageNodeMessage)). (x, t)) e))
      by_answer (refused code) e =
          rw (e, probe) (refused_probe c (ap (λ (x : Answer (List StorageNodeMessage)). (x, t)) e))

  tick-Ticks : (s : Service W) → Ticks s (tick s)
  unfolding tick
  tick-Ticks s = elim (Bool-cases (leb max_consecutive_failures s.consecutive_failures)) [
    | inl many ↦ by_round many (try_each connect urls urls s.cycle.world).0 refl
    | inr few ↦
        let lt : s.consecutive_failures < max_consecutive_failures = ground (arith, few) in
        rw few (probe-Ticks s s (as_before lt))
  ]
    where
      w : W
      w = (try_each connect urls urls s.cycle.world).1

      tried :
          (r : Option String)
          → (try_each connect urls urls s.cycle.world).0 ≡ r
          → Tries connect urls s.cycle.world r w
      tried r e =
          subst (λ (o : Option String). Tries connect urls s.cycle.world o w) e
            (try_each-Tries connect urls urls s.cycle.world)

      by_round :
          leb max_consecutive_failures s.consecutive_failures ≡ true
          → (r : Option String) → (try_each connect urls urls s.cycle.world).0 ≡ r
          → Ticks s (tick s)
      by_round many none e =
          let ge : 3 ≤ s.consecutive_failures = ground (arith, many) in
          rw (many, tick) (rw e (not_connected ge (tried none e)))
      by_round many (some url) e =
          let ge : 3 ≤ s.consecutive_failures = ground (arith, many) in
          rw (many, tick) (rw e (probe-Ticks s _ (anew ge (tried (some url) e))))

  Connected-bound : (s u : Service W) → Connected s u → u.consecutive_failures < 3
  Connected-bound s u (as_before lt) = lt
  Connected-bound s u (anew ge t) = omega arith

  Ticks-bound :
      (s s' : Service W) → s.consecutive_failures ≤ 3 → Ticks s s' → s'.consecutive_failures ≤ 3
  Ticks-bound s s' le (not_connected ge t) = le
  Ticks-bound s s' le (ran c e) = omega arith
  Ticks-bound s s' le (refused_probe c e) = omega (arith, Connected-bound s _ c)

  ticks-bound :
      (n : ℕ) (s : Service W) → s.consecutive_failures ≤ 3 → (ticks n s).consecutive_failures ≤ 3
  unfolding ticks
  ticks-bound zero s le = le
  ticks-bound (suc n) s le = ticks-bound n (tick s) (Ticks-bound s (tick s) le (tick-Ticks s))

  -- After any ticks from a count of failures of at most three the count is at most three. The next
  -- tick probes the client, which it connects anew to the first address that answers where the count
  -- is three. An answer is followed by a cycle with the client that was probed and sets the count to
  -- 0; a refusal runs no cycle, counts one failure and one more failure in a row; and where no
  -- address answers, one failure is counted and no cycle runs.
  pub ticks-Ticks :
      (n : ℕ) (s : Service W)
      → s.consecutive_failures ≤ 3
      → ((ticks n s).consecutive_failures ≤ 3) × Ticks (ticks n s) (tick (ticks n s))
  ticks-Ticks n s le = (ticks-bound n s le, tick-Ticks (ticks n s))
