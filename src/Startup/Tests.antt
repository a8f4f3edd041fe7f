-- ===== src/Startup/Tests.antt =====
-- A service that answers the fourth call.
use Prim.Native.String.{String}
use object_store.Common.{ℕ, ◌+◌, ◌≡◌, refl, List, [], ◌∷◌, ltb, if◌then◌else◌, some}
use object_store.Clients.{answered, refused, RpcCode, Call}
use object_store.Settings.{Env, trim_start, trim_end, split_commas}
use object_store.Startup.{
  metadata_urls, full_parts, gateway_default, connected, gateway_loop, storage_node_loop,
  replication_loop, try_each,
}
use object_store.Startup.Rounds.{Connects, start-Connects}

abbrev fourth : String → Call ℕ (Unit {0})
fourth url calls = (if ltb calls 3 then refused RpcCode.unavailable else answered tt, calls + 1)

abbrev two : List String
two = "http://a" ∷ "http://b" ∷ []

start-Connects_example :
    Connects fourth two 6 0 (gateway_loop fourth two 5 0)
    × Connects fourth two 6 0 (storage_node_loop fourth two 6 0 0)
    × Connects fourth two 5 0 (replication_loop fourth two 5 0 0)
start-Connects_example = start-Connects fourth two 0

gateway_loop_test : gateway_loop fourth two 5 0 ≡ (connected "http://b", 4)
unfolding gateway_loop try_each
gateway_loop_test = refl

abbrev urls_set : Env
urls_set name = some "http://a, ,http://b"

metadata_urls_test : metadata_urls gateway_default urls_set ≡ two
unfolding metadata_urls full_parts split_commas trim_start trim_end
metadata_urls_test = refl
