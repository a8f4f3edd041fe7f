-- ===== src/MetadataNode/Cluster.antt =====
-- The nodes of a cluster by their addresses, and the requests of storage-metadata/src/main.rs as
-- they come to one of them, which may forward them (forwarding.rs).
use Prim.Native.String.{String}
use text.Mathlib.Text.{◌==◌ as str_eq}
use object_store.Common.{ℕ, none, some, if◌then◌else◌}
use object_store.Common.Map.{Map, nat_eq, string_eq, lookup, insert}
use object_store.Clients.{Answer, answered, refused, RpcCode, GetObjectResponse, GetChunkResponse}
use object_store.MetadataStore.Types.{Json, Random}
use object_store.MetadataNode.{
  Response, status, Node, Serve, RouteAction, local, forward, route_by_object, route_by_chunk,
}
use object_store.MetadataNode.Local

abbrev pub Cluster : Type 0
Cluster = Map String Node

-- A node serves a request; one that is not there cannot be connected to.
unfoldable pub serve_at : {A : Type 0} → Serve A → String → Cluster → Response A × Cluster
serve_at serve addr c = elim (lookup addr c) [
  | none ↦ (status RpcCode.unavailable, c)
  | some n ↦ ((serve n).0, insert addr (serve n).1 c)
]

-- The node that a request comes to serves it, or the one that it is forwarded to does.
unfoldable pub route :
    {A : Type 0}
    → (Node → RouteAction)
    → (forwarded served : Serve A) → String
    → Cluster
    → Response A × Cluster
unfolding serve_at
route action forwarded served addr c = elim (lookup addr c) [
  | none ↦ (status RpcCode.unavailable, c)
  | some n ↦ elim (action n) [
    | forward peer ↦ serve_at forwarded peer c
    | local ↦ serve_at served addr c
  ]
]

-- A request about a chunk that is not in the index is served locally.
abbrev pub or_local : Answer RouteAction → RouteAction
or_local (answered action) = action
or_local (refused _) = local

module _ (xxh3 : String → ℕ) where
  abbrev pub by_object : String → Node → RouteAction
  by_object name n = route_by_object xxh3 name n

  abbrev pub by_chunk : ℕ → Node → RouteAction
  by_chunk id n = or_local (route_by_chunk xxh3 id n)

  unfoldable pub get_object : String → String → Cluster → Response GetObjectResponse × Cluster
  unfolding route
  get_object addr name =
      route (by_object name) (Local.forward_get_object name) (Local.get_object name) addr

  unfoldable pub get_chunk : String → ℕ → Cluster → Response GetChunkResponse × Cluster
  unfolding route
  get_chunk addr id = route (by_chunk id) (Local.forward_get_chunk id) (Local.get_chunk id) addr

  -- A request without an object's name is not forwarded.
  unfoldable pub allocate_chunk :
      Random → String → String → Cluster → Response (ℕ × ℕ × String) × Cluster
  unfolding route
  allocate_chunk rand addr name =
      route (λ n. if str_eq name "" then local else by_object name n)
        (Local.allocate_chunk rand name) (Local.allocate_chunk rand name) addr

  module _ (json : Json) where
    unfoldable pub put_object : String → ℕ → String → Cluster → Response (Unit {0}) × Cluster
    unfolding route
    put_object addr checksum name =
        route (by_object name) (Local.forward_put_object json checksum name)
          (Local.put_object json checksum name) addr

    unfoldable pub delete_object : String → String → Cluster → Response (Unit {0}) × Cluster
    unfolding route
    delete_object addr name =
        route (by_object name) (Local.delete_object json name) (Local.delete_object json name) addr

    unfoldable pub put_chunk :
        Random → String → String → ℕ → Cluster → Response (ℕ × String) × Cluster
    unfolding route
    put_chunk rand addr name checksum =
        route (by_object name) (Local.put_chunk json (λ _. RpcCode.internal) rand name checksum)
          (Local.put_chunk json Local.existing_or_internal rand name checksum) addr

    unfoldable pub confirm_chunk :
        String → ℕ → String → ℕ → ℕ → Cluster → Response (Unit {0}) × Cluster
    unfolding route
    confirm_chunk addr id name checksum node_id =
        route (by_object name) (Local.confirm_chunk json id name checksum node_id)
          (Local.confirm_chunk json id name checksum node_id) addr

    unfoldable pub delete_chunk : String → ℕ → Cluster → Response (Unit {0}) × Cluster
    unfolding route
    delete_chunk addr id =
        route (by_chunk id) (Local.delete_chunk json id) (Local.delete_chunk json id) addr

    unfoldable pub add_chunk_replica : String → ℕ → ℕ → Cluster → Response (Unit {0}) × Cluster
    unfolding route
    add_chunk_replica addr id node_id =
        route (by_chunk id) (Local.add_chunk_replica json id node_id)
          (Local.add_chunk_replica json id node_id) addr

    -- This request is not forwarded.
    unfoldable pub update_object_checksum :
        String → String → ℕ → ℕ → Cluster → Response (Unit {0}) × Cluster
    unfolding serve_at
    update_object_checksum addr name checksum total_size =
        serve_at (Local.update_object_checksum json name checksum total_size) addr
