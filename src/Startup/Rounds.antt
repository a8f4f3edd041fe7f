-- ===== src/Startup/Rounds.antt =====
-- Which address each program connects to, and how many rounds it makes.
use Prim.Native.String.{String}
use object_store.Common.{
  ℕ, zero, suc, ◌+◌, ◌<◌, ◌≡◌, refl, ap, subst, List, [], ◌∷◌, true, false, Option, none, some,
  arith, leb,
}
use object_store.Clients.{Answer, answered, refused, RpcCode, Call}
use object_store.Startup.{
  Connection, connected, gave_up, try_each, gateway_loop, max_attempts, storage_node_loop,
  replication_loop,
}

-- A round: the addresses in order, of which the first that answers is the last that is called.
pub data Tries {W : Type 0} (connect : String → Call W (Unit {0}))
    : List String → W → Option String → W → Type 0 where
  no_address : {w : W} → Tries connect [] w none w
  answers :
      {url : String} {rest : List String} {w w' : W}
      → connect url w ≡ (answered tt, w')
      → Tries connect (url ∷ rest) w (some url) w'
  goes_on :
      {url : String} {rest : List String} {w w' w'' : W} {r : Option String} {code : RpcCode}
      → connect url w ≡ (refused code, w')
      → Tries connect rest w' r w''
      → Tries connect (url ∷ rest) w r w''

-- At most so many rounds, of which the first with a connection is the last, and no fewer before the
-- program gives up.
pub data Connects {W : Type 0} (connect : String → Call W (Unit {0})) (urls : List String)
    : ℕ → W → Connection × W → Type 0 where
  finds :
      {rounds : ℕ} {w w' : W} {url : String}
      → Tries connect urls w (some url) w'
      → Connects connect urls (suc rounds) w (connected url, w')
  again :
      {rounds : ℕ} {w w' : W} {q : Connection × W}
      → Tries connect urls w none w'
      → Connects connect urls rounds w' q
      → Connects connect urls (suc rounds) w q
  gives_up : {w : W} → Connects connect urls 0 w (gave_up, w)

module _ {W : Type 0} (connect : String → Call W (Unit {0})) where
  pub try_each-Tries :
      (all urls : List String) (w : W)
      → Tries connect urls w (try_each connect all urls w).0 (try_each connect all urls w).1
  unfolding try_each
  try_each-Tries all [] w = no_address
  try_each-Tries all (url ∷ rest) w =
      by_answer (try_each-Tries all rest (connect url w).1) (connect url w).0 refl
    where
      t : W
      t = (connect url w).1

      Goal : Type 0
      Goal =
          Tries connect (url ∷ rest) w (try_each connect all (url ∷ rest) w).0
            (try_each connect all (url ∷ rest) w).1

      by_answer :
          Tries connect rest t (try_each connect all rest t).0 (try_each connect all rest t).1
          → (x : Answer (Unit {0})) → (connect url w).0 ≡ x
          → Goal
      by_answer later (answered _) e =
          rw (e, try_each) (answers (ap (λ (x : Answer (Unit {0})). (x, t)) e))
      by_answer later (refused code) e =
          rw (e, try_each) (goes_on (ap (λ (x : Answer (Unit {0})). (x, t)) e) later)

module _ {W : Type 0} (connect : String → Call W (Unit {0})) (urls : List String) where
  tried :
      (w : W) (r : Option String)
      → (try_each connect urls urls w).0 ≡ r
      → Tries connect urls w r (try_each connect urls urls w).1
  tried w r e =
      subst (λ (o : Option String). Tries connect urls w o (try_each connect urls urls w).1) e
        (try_each-Tries connect urls urls w)

  gateway_loop-Connects :
      (retries : ℕ) (w : W)
      → Connects connect urls (suc retries) w (gateway_loop connect urls retries w)
  unfolding gateway_loop
  gateway_loop-Connects zero w = by_round (try_each connect urls urls w).0 refl
    where
      by_round :
          (r : Option String)
          → (try_each connect urls urls w).0 ≡ r
          → Connects connect urls 1 w (gateway_loop connect urls zero w)
      by_round (some url) e = rw (e, gateway_loop) (finds (tried w (some url) e))
      by_round none e = rw (e, gateway_loop) (again (tried w none e) gives_up)
  gateway_loop-Connects (suc retries) w =
      by_round (gateway_loop-Connects retries (try_each connect urls urls w).1)
        (try_each connect urls urls w).0 refl
    where
      by_round :
          Connects connect urls
            (suc retries)
            (try_each connect urls urls w).1
            (gateway_loop connect urls retries (try_each connect urls urls w).1)
          → (r : Option String) → (try_each connect urls urls w).0 ≡ r
          → Connects connect urls (suc (suc retries)) w (gateway_loop connect urls (suc retries) w)
      by_round rest (some url) e = rw (e, gateway_loop) (finds (tried w (some url) e))
      by_round rest none e = rw (e, gateway_loop) (again (tried w none e) rest)

  -- `left` rounds are left after the one that is made.
  storage_node_loop-Connects :
      (left fuel attempts : ℕ) (w : W)
      → attempts + left ≡ max_attempts
      → left < fuel
      → Connects connect urls (suc left) w (storage_node_loop connect urls fuel attempts w)
  unfolding storage_node_loop
  storage_node_loop-Connects left zero attempts w e lt = absurd (omega arith)
  storage_node_loop-Connects zero (suc fuel) attempts w e lt =
      by_round (try_each connect urls urls w).0 refl
    where
      by_round :
          (r : Option String)
          → (try_each connect urls urls w).0 ≡ r
          → Connects connect urls 1 w (storage_node_loop connect urls (suc fuel) attempts w)
      by_round (some url) k = rw (k, storage_node_loop) (finds (tried w (some url) k))
      by_round none k =
          let last : leb 5 attempts ≡ true = ground arith in
          rw (k, storage_node_loop) (rw last (again (tried w none k) gives_up))
  storage_node_loop-Connects (suc left) (suc fuel) attempts w e lt =
      by_round
        (storage_node_loop-Connects left fuel (attempts + 1) (try_each connect urls urls w).1
          (omega arith) (omega arith))
        (try_each connect urls urls w).0 refl
    where
      by_round :
          Connects connect urls
            (suc left)
            (try_each connect urls urls w).1
            (storage_node_loop connect urls fuel (attempts + 1) (try_each connect urls urls w).1)
          → (r : Option String) → (try_each connect urls urls w).0 ≡ r
          → Connects connect urls
              (suc (suc left))
              w
              (storage_node_loop connect urls (suc fuel) attempts w)
      by_round rest (some url) k = rw (k, storage_node_loop) (finds (tried w (some url) k))
      by_round rest none k =
          let more : leb 5 attempts ≡ false = ground arith in
          rw (k, storage_node_loop) (rw more (again (tried w none k) rest))

  replication_loop-Connects :
      (left fuel attempts : ℕ) (w : W)
      → attempts + suc left ≡ max_attempts
      → left < fuel
      → Connects connect urls (suc left) w (replication_loop connect urls fuel attempts w)
  unfolding replication_loop
  replication_loop-Connects left zero attempts w e lt = absurd (omega arith)
  replication_loop-Connects zero (suc fuel) attempts w e lt =
      by_round (try_each connect urls urls w).0 refl
    where
      by_round :
          (r : Option String)
          → (try_each connect urls urls w).0 ≡ r
          → Connects connect urls 1 w (replication_loop connect urls (suc fuel) attempts w)
      by_round (some url) k = rw (k, replication_loop) (finds (tried w (some url) k))
      by_round none k =
          let last : leb 5 (attempts + 1) ≡ true = ground arith in
          rw (k, replication_loop) (rw last (again (tried w none k) gives_up))
  replication_loop-Connects (suc left) (suc fuel) attempts w e lt =
      by_round
        (replication_loop-Connects left fuel (attempts + 1) (try_each connect urls urls w).1
          (omega arith) (omega arith))
        (try_each connect urls urls w).0 refl
    where
      by_round :
          Connects connect urls
            (suc left)
            (try_each connect urls urls w).1
            (replication_loop connect urls fuel (attempts + 1) (try_each connect urls urls w).1)
          → (r : Option String) → (try_each connect urls urls w).0 ≡ r
          → Connects connect urls
              (suc (suc left))
              w
              (replication_loop connect urls (suc fuel) attempts w)
      by_round rest (some url) k = rw (k, replication_loop) (finds (tried w (some url) k))
      by_round rest none k =
          let more : leb 5 (attempts + 1) ≡ false = ground arith in
          rw (k, replication_loop) (rw more (again (tried w none k) rest))

  -- From its start the gateway makes at most six rounds over its addresses, the storage node six and
  -- the replication service five, with fuel of six and five. A round calls the addresses in order
  -- until one answers; each program takes that address, and goes on with another round where none
  -- did. It gives up only after all its rounds.
  pub start-Connects :
      (w : W)
      → Connects connect urls 6 w (gateway_loop connect urls 5 w)
        × Connects connect urls 6 w (storage_node_loop connect urls 6 0 w)
        × Connects connect urls 5 w (replication_loop connect urls 5 0 w)
  start-Connects w = (
    gateway_loop-Connects 5 w,
    storage_node_loop-Connects 5 6 0 w (omega arith) (omega arith),
    replication_loop-Connects 4 5 0 w (omega arith) (omega arith),
  )
