-- ===== src/Startup.antt =====
-- How the gateway, the storage node and the replication service come to their connection with the
-- metadata service, in the `main.rs` of each. The pauses between the rounds are left out.
pub mod Rounds
mod Tests
use Prim.Native.String.{String}
use object_store.Common.{
  ℕ, zero, suc, ◌+◌, List, [], ◌∷◌, map, Option, none, some, leb, if◌then◌else◌,
}
use object_store.Clients.{Answer, answered, refused, Call}
use object_store.Settings.{Env, is_empty, trim, split_commas}

-- The parts of a list between commas, without those that are blank.
unfoldable pub full_parts : List String → List String
full_parts [] = []
full_parts (s ∷ parts) =
    let rest = full_parts parts in if is_empty (trim s) then rest else trim s ∷ rest

-- METADATA_URLS, or else METADATA_URL, or else the default of the program.
unfoldable pub metadata_urls : String → Env → List String
unfolding full_parts
metadata_urls default env = elim (env "METADATA_URLS") [
  | some urls ↦ full_parts (split_commas urls)
  | none ↦ elim (env "METADATA_URL") [ some url ↦ url ∷ [] | none ↦ default ∷ [] ]
]

abbrev pub gateway_default : String
gateway_default = "http://127.0.0.1:3001"

abbrev pub replication_default : String
replication_default = "http://localhost:3001"

-- `gave_up` ends the program.
pub data Connection : Type 0 where
  connected : String → Connection
  gave_up diverged : Connection

abbrev pub max_attempts : ℕ
max_attempts = 5

module _ {W : Type 0} (connect : String → Call W (Unit {0})) (urls : List String) where
  -- The addresses of one round, until one takes the connection.
  unfoldable pub try_each : List String → W → Option String × W
  try_each [] w = (none, w)
  try_each (url ∷ rest) w = elim (connect url w).0 [
    | answered _ ↦ (some url, (connect url w).1)
    | refused _ ↦ try_each rest (connect url w).1
  ]

  -- The gateway counts its retries down, from 5, and gives up below 0.
  unfoldable pub gateway_loop : ℕ → W → Connection × W
  unfolding try_each
  gateway_loop zero w = elim (try_each urls w).0 [
    | some url ↦ (connected url, (try_each urls w).1)
    | none ↦ (gave_up, (try_each urls w).1)
  ]
  gateway_loop (suc retries) w = elim (try_each urls w).0 [
    | some url ↦ (connected url, (try_each urls w).1)
    | none ↦ gateway_loop retries (try_each urls w).1
  ]

  -- The storage node counts a round after it has compared, the replication service before.
  unfoldable pub storage_node_loop : ℕ → ℕ → W → Connection × W
  unfolding try_each
  storage_node_loop zero attempts w = (diverged, w)
  storage_node_loop (suc fuel) attempts w =
      let again = storage_node_loop fuel (attempts + 1) (try_each urls w).1 in
      elim (try_each urls w).0 [
        | some url ↦ (connected url, (try_each urls w).1)
        | none ↦ if leb max_attempts attempts then (gave_up, (try_each urls w).1) else again
      ]

  unfoldable pub replication_loop : ℕ → ℕ → W → Connection × W
  unfolding try_each
  replication_loop zero attempts w = (diverged, w)
  replication_loop (suc fuel) attempts w =
      let again = replication_loop fuel (attempts + 1) (try_each urls w).1 in
      elim (try_each urls w).0 [
        | some url ↦ (connected url, (try_each urls w).1)
        | none ↦ if leb max_attempts (attempts + 1) then (gave_up, (try_each urls w).1) else again
      ]
