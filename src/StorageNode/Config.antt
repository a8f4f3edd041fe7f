-- ===== src/StorageNode/Config.antt =====
-- storage-node/src/config.rs: the configuration of a storage node. The file's text and `serde_yaml`,
-- which fills in the default of a field that is missing, are parameters.
pub mod Load
use Prim.Native.String.{String, ◌++◌ as text_append}
use text.Mathlib.Text.{starts_with}
use object_store.Common.{
  ℕ, ◌-◌, ◌^◌, List, [], ◌∷◌, map, Bool, true, false, ◌||◌, Option, none, some, ◌==◌, if◌then◌else◌,
}
use object_store.ChunkStore.Store.{ChunkStoreOptions}
use object_store.Settings.{Env, is_empty, trim, split_commas, parse_unsigned, parse_bool}

pub record StorageNodeConfig : Type 0 where
  pub metadata_addresses : List String
  pub port : ℕ
  pub metrics_port : ℕ
  pub chunk_store_path : String
  pub allocated_slots : Option ℕ
  pub fsync_every_n_writes : Option ℕ
  pub fsync_on_delete : Bool
  pub fast_recover : Bool

abbrev pub default_config : StorageNodeConfig
default_config = record {
  metadata_addresses = "http://localhost:3001" ∷ [];
  port = 3000;
  metrics_port = 9092;
  chunk_store_path = "chunkstore.dat";
  allocated_slots = none;
  fsync_every_n_writes = some 1;
  fsync_on_delete = true;
  fast_recover = false;
}

-- The errors of `load`, by their message.
pub data ConfigError : Type 0 where
  unreadable malformed no_addresses empty_address zero_port zero_metrics_port : ConfigError

pub data Loaded {ℓ} (A : Type ℓ) : Type ℓ where
  loaded : A → Loaded A
  failed : ConfigError → Loaded A

abbrev pub has_scheme : String → Bool
has_scheme address = starts_with address "http://" || starts_with address "https://"

abbrev pub with_scheme : String → String
with_scheme address = if has_scheme address then address else text_append "http://" address

unfoldable pub any_empty : List String → Bool
any_empty [] = false
any_empty (a ∷ addresses) = if is_empty (trim a) then true else any_empty addresses

unfoldable pub validate : StorageNodeConfig → Loaded (Unit {0})
unfolding any_empty
validate c = elim c.metadata_addresses [
  | [] ↦ failed no_addresses
  | _ ∷ _ ↦
      if any_empty c.metadata_addresses
      then failed empty_address
      else if c.port == 0
      then failed zero_port
      else if c.metrics_port == 0
      then failed zero_metrics_port
      else loaded tt
]

-- A variable that is set, and whose value can be read.
abbrev pub override :
    {A : Type 0}
    → Env
    → String
    → (String → Option A)
    → (A → StorageNodeConfig → StorageNodeConfig)
    → StorageNodeConfig
    → StorageNodeConfig
override env name parse set c = elim (env name) [
  | none ↦ c
  | some text ↦ elim (parse text) [ none ↦ c | some a ↦ set a c ]
]

abbrev pub urls_of : String → Option (List String)
urls_of urls = some (map (λ s. with_scheme (trim s)) (split_commas urls))

unfoldable pub apply_env_overrides : Env → StorageNodeConfig → StorageNodeConfig
apply_env_overrides env c0 =
    let c1 =
      override env "METADATA_URLS" urls_of (λ urls c. record c { metadata_addresses = urls }) c0 in
    let c2 =
      override env "GRPC_PORT" (parse_unsigned (2 ^ 16 - 1)) (λ n c. record c { port = n }) c1 in
    let c3 =
      override env "METRICS_PORT" (parse_unsigned (2 ^ 16 - 1))
        (λ n c. record c { metrics_port = n }) c2 in
    let c4 =
      override env "ALLOCATED_SLOTS" (parse_unsigned (2 ^ 64 - 1))
        (λ n c. record c { allocated_slots = some n }) c3 in
    let c5 =
      override env "FSYNC_EVERY_N_WRITES" (parse_unsigned (2 ^ 64 - 1))
        (λ n c. record c { fsync_every_n_writes = some n }) c4 in
    let c6 =
      override env "FSYNC_ON_DELETE" parse_bool (λ b c. record c { fsync_on_delete = b }) c5 in
    override env "FAST_RECOVER" parse_bool (λ b c. record c { fast_recover = b }) c6

abbrev pub normalized : StorageNodeConfig → StorageNodeConfig
normalized c = record c { metadata_addresses = map with_scheme c.metadata_addresses }

abbrev pub checked : StorageNodeConfig → Loaded (Unit {0}) → Loaded StorageNodeConfig
checked c (loaded _) = loaded c
checked c (failed e) = failed e

unfoldable pub load :
    (String → Option StorageNodeConfig) → Env → Option String → Loaded StorageNodeConfig
unfolding apply_env_overrides validate
load from_yaml env none = failed unreadable
load from_yaml env (some contents) = elim (from_yaml contents) [
  | none ↦ failed malformed
  | some c ↦
      checked (apply_env_overrides env (normalized c))
        (validate (apply_env_overrides env (normalized c)))
]

abbrev pub chunk_store_options : StorageNodeConfig → ChunkStoreOptions
chunk_store_options c = record {
  fsync_every_n_writes = c.fsync_every_n_writes;
  fsync_on_delete = c.fsync_on_delete;
  fast_recover = c.fast_recover;
}
