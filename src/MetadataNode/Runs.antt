-- ===== src/MetadataNode/Runs.antt =====
-- Runs of requests and events in a cluster, and the invariant of every store.
use Prim.Native.String.{String}
use text.Mathlib.Text.{◌==◌ as str_eq}
use object_store.Common.{
  ℕ, ◌≡◌, refl, sym, ◌∙◌, subst, List, [], ◌∷◌, Bool, Option, none, some, inl, inr, Bool-cases,
}
use object_store.Common.Map.{string_eq, lookup, insert, lookup-insert}
use object_store.ChunkIndex.{ChunkIndex}
use object_store.MetadataStore.Types.{MetaStorageNode, Json, Random}
use object_store.MetadataStore.Listing.{IsValid}
use object_store.MetadataStore.Steps.{
  Call, put_object_call, delete_object_call, update_object_checksum_call, allocate_chunk_call,
  put_chunk_call, confirm_chunk_call, delete_chunk_call, add_chunk_replica_call,
  construct_storage_node_call, delete_storage_node_call, step, step-IsValid,
}
use object_store.MetadataNode.{
  Response, response, status, panicked, diverged, Node, Serve, RouteAction, local, forward,
  on_index, and_then,
}
use object_store.MetadataNode.Local
use object_store.MetadataNode.Cluster.{
  Cluster, serve_at, route, put_object, delete_object, put_chunk, allocate_chunk, confirm_chunk,
  delete_chunk, add_chunk_replica, update_object_checksum,
}
use object_store.MetadataNode.Membership.{Live, tick}
use object_store.MetadataNode.Global.{
  everywhere, broadcast, peers_of, put_storage_node, delete_storage_node, health_check,
}

-- A request with its arguments, at the node of an address; or what a node does on its own.
pub data Event : Type 0 where
  put_object_event : (checksum : ℕ) (name : String) → Event
  delete_object_event : (name : String) → Event
  put_chunk_event : (rand : Random) (name : String) (checksum : ℕ) → Event
  allocate_chunk_event : (rand : Random) (name : String) → Event
  confirm_chunk_event : (id : ℕ) (name : String) (checksum node_id : ℕ) → Event
  delete_chunk_event : (id : ℕ) → Event
  add_chunk_replica_event : (id node_id : ℕ) → Event
  update_object_checksum_event : (name : String) (checksum total_size : ℕ) → Event
  put_storage_node_event : (rands : String → Random) (address : String) → Event
  delete_storage_node_event : (id : ℕ) → Event
  health_check_event : (answers : MetaStorageNode → Bool) → Event
  tick_event : (live : Live) → Event

-- An event of a node that serves nothing.
abbrev pub quietly : (Node → Node) → Serve (Unit {0})
quietly f n = (response tt, f n)

module _ (xxh3 : String → ℕ) (json : Json) (is_uri : String → Bool) where
  -- The cluster after the event, whatever is answered.
  unfoldable pub happen : String → Event → Cluster → Cluster
  happen addr (put_object_event checksum name) c = (put_object xxh3 json addr checksum name c).1
  happen addr (delete_object_event name) c = (delete_object xxh3 json addr name c).1
  happen addr (put_chunk_event rand name checksum) c =
      (put_chunk xxh3 json rand addr name checksum c).1
  happen addr (allocate_chunk_event rand name) c = (allocate_chunk xxh3 rand addr name c).1
  happen addr (confirm_chunk_event id name checksum node_id) c =
      (confirm_chunk xxh3 json addr id name checksum node_id c).1
  happen addr (delete_chunk_event id) c = (delete_chunk xxh3 json addr id c).1
  happen addr (add_chunk_replica_event id node_id) c =
      (add_chunk_replica xxh3 json addr id node_id c).1
  happen addr (update_object_checksum_event name checksum total_size) c =
      (update_object_checksum xxh3 json addr name checksum total_size c).1
  happen addr (put_storage_node_event rands address) c =
      (put_storage_node is_uri rands addr address c).1
  happen addr (delete_storage_node_event id) c = (delete_storage_node addr id c).1
  happen addr (health_check_event answers) c = (serve_at (quietly (health_check answers)) addr c).1
  happen addr (tick_event live) c = (serve_at (quietly (tick xxh3 live)) addr c).1

  unfoldable pub happen_all : List (String × Event) → Cluster → Cluster
  unfolding happen
  happen_all [] c = c
  happen_all ((addr, e) ∷ es) c = happen_all es (happen addr e c)

-- Every store of the cluster has the invariant.
pub record AllValid (c : Cluster) : Type 0 where
  pub at : (addr : String) (n : Node) → lookup addr c ≡ some n → IsValid n.metadata_store

abbrev Keeps : {A : Type 0} → Serve A → Type 0
Keeps s = (n : Node) → IsValid n.metadata_store → IsValid (s n).1.metadata_store

pub insert-AllValid :
    (addr : String) (n : Node) (c : Cluster)
    → IsValid n.metadata_store
    → AllValid c
    → AllValid (insert addr n c)
insert-AllValid addr n c v h = record { at = at }
  where
    at : (b : String) (m : Node) → lookup b (insert addr n c) ≡ some m → IsValid m.metadata_store
    at b m e = elim (Bool-cases (str_eq addr b)) [
      | inl k ↦
          let found : some n ≡ some m = sym (lookup-insert addr b n c ∙ rw k refl) ∙ e in
          let same : n ≡ m = cc found in subst (λ (x : Node). IsValid x.metadata_store) same v
      | inr k ↦ h.at b m (sym (lookup-insert addr b n c ∙ rw k refl) ∙ e)
    ]

serve_at-AllValid :
    {A : Type 0} (s : Serve A) (addr : String) (c : Cluster)
    → Keeps s
    → AllValid c
    → AllValid (serve_at s addr c).1
unfolding serve_at
serve_at-AllValid s addr c k h = by_node (lookup addr c) refl
  where
    by_node : (o : Option Node) → lookup addr c ≡ o → AllValid (serve_at s addr c).1
    by_node none e = rw (e, serve_at) h
    by_node (some n) e = rw (e, serve_at) (insert-AllValid addr (s n).1 c (k n (h.at addr n e)) h)

route-AllValid :
    {A : Type 0} (action : Node → RouteAction) (f s : Serve A) (addr : String) (c : Cluster)
    → Keeps f
    → Keeps s
    → AllValid c
    → AllValid (route action f s addr c).1
unfolding route
route-AllValid action f s addr c kf ks h = by_node (lookup addr c) refl
  where
    by_action :
        (n : Node)
        → lookup addr c ≡ some n
        → (a : RouteAction) → action n ≡ a
        → AllValid (route action f s addr c).1
    by_action n e (forward peer) d = rw (e, route) (rw d (serve_at-AllValid f peer c kf h))
    by_action n e local d = rw (e, route) (rw d (serve_at-AllValid s addr c ks h))

    by_node : (o : Option Node) → lookup addr c ≡ o → AllValid (route action f s addr c).1
    by_node none e = rw (e, route) h
    by_node (some n) e = by_action n e (action n) refl

broadcast-AllValid :
    {A : Type 0} (s : String → Serve A) (addrs : List String) (c : Cluster)
    → ((addr : String) → Keeps (s addr))
    → AllValid c
    → AllValid (broadcast s addrs c)
unfolding broadcast
broadcast-AllValid s [] c k h = h
broadcast-AllValid s (addr ∷ addrs) c k h =
    broadcast-AllValid s addrs _ k (serve_at-AllValid (s addr) addr c (k addr) h)

everywhere-AllValid :
    {A : Type 0} (s : Serve A) (b : String → Serve A) (addr : String) (c : Cluster)
    → Keeps s
    → ((peer : String) → Keeps (b peer))
    → AllValid c
    → AllValid (everywhere s b addr c).1
unfolding everywhere
everywhere-AllValid s b addr c ks kb h = by_node (lookup addr c) refl
  where
    by_response :
        (n : Node)
        → lookup addr c ≡ some n
        → AllValid (insert addr (s n).1 c)
        → (r : Response _) → (s n).0 ≡ r
        → AllValid (everywhere s b addr c).1
    by_response n e v (response a) d =
        rw (e, everywhere) (rw d (broadcast-AllValid b (peers_of n) _ kb v))
    by_response n e v (status x) d = rw (e, everywhere) (rw d v)
    by_response n e v panicked d = rw (e, everywhere) (rw d v)
    by_response n e v diverged d = rw (e, everywhere) (rw d v)

    by_node : (o : Option Node) → lookup addr c ≡ o → AllValid (everywhere s b addr c).1
    by_node none e = rw (e, everywhere) h
    by_node (some n) e =
        by_response n e (insert-AllValid addr (s n).1 c (ks n (h.at addr n e)) h) (s n).0 refl

-- What follows on the index leaves the store.
and_then-IsValid :
    {A : Type 0} (g : A → ChunkIndex → ChunkIndex) (q : Response A × Node)
    → IsValid q.1.metadata_store
    → IsValid (and_then (λ a. on_index (g a)) q).1.metadata_store
and_then-IsValid g (response a, n) v = v
and_then-IsValid g (status x, n) v = v
and_then-IsValid g (panicked, n) v = v
and_then-IsValid g (diverged, n) v = v

module _ (json : Json) (is_uri : String → Bool) where
  -- A call of the store keeps the invariant, as a part of a request.
  by_call :
      (call : Call) (n : Node)
      → IsValid n.metadata_store
      → IsValid (step json is_uri call n.metadata_store)
  by_call call n v = step-IsValid json is_uri call n.metadata_store v

  module _ (xxh3 : String → ℕ) where
    happen-AllValid :
        (addr : String) (e : Event) (c : Cluster)
        → AllValid c
        → AllValid (happen xxh3 json is_uri addr e c)
    unfolding happen step put_object delete_object put_chunk allocate_chunk confirm_chunk
        delete_chunk add_chunk_replica update_object_checksum put_storage_node delete_storage_node
        health_check tick Local.put_object Local.forward_put_object Local.delete_object
        Local.put_chunk Local.allocate_chunk Local.confirm_chunk Local.delete_chunk
        Local.add_chunk_replica Local.update_object_checksum
    happen-AllValid addr (put_object_event checksum name) c h =
        let k = by_call (put_object_call checksum name) in
        route-AllValid _ (Local.forward_put_object json checksum name)
          (Local.put_object json checksum name) addr c k k h
    happen-AllValid addr (delete_object_event name) c h =
        let k : Keeps (Local.delete_object json name) =
          λ n v. and_then-IsValid _ _ (by_call (delete_object_call name) n v) in
        route-AllValid _ _ _ addr c k k h
    happen-AllValid addr (put_chunk_event rand name checksum) c h =
        let call = put_chunk_call rand name checksum in
        route-AllValid _ _ _ addr c (λ n v. and_then-IsValid _ _ (by_call call n v))
          (λ n v. and_then-IsValid _ _ (by_call call n v)) h
    happen-AllValid addr (allocate_chunk_event rand name) c h =
        let k = by_call (allocate_chunk_call rand name) in
        route-AllValid _ (Local.allocate_chunk rand name) (Local.allocate_chunk rand name) addr c k
          k h
    happen-AllValid addr (confirm_chunk_event id name checksum node_id) c h =
        let k : Keeps (Local.confirm_chunk json id name checksum node_id) =
          λ n v. and_then-IsValid _ _ (by_call (confirm_chunk_call id name checksum node_id) n v) in
        route-AllValid _ _ _ addr c k k h
    happen-AllValid addr (delete_chunk_event id) c h =
        let k : Keeps (Local.delete_chunk json id) =
          λ n v. and_then-IsValid _ _ (by_call (delete_chunk_call id) n v) in
        route-AllValid _ _ _ addr c k k h
    happen-AllValid addr (add_chunk_replica_event id node_id) c h =
        let k = by_call (add_chunk_replica_call id node_id) in
        route-AllValid _ (Local.add_chunk_replica json id node_id)
          (Local.add_chunk_replica json id node_id) addr c k k h
    happen-AllValid addr (update_object_checksum_event name checksum total_size) c h =
        serve_at-AllValid (Local.update_object_checksum json name checksum total_size) addr c
          (by_call (update_object_checksum_call name checksum total_size)) h
    happen-AllValid addr (put_storage_node_event rands address) c h =
        everywhere-AllValid _ _ addr c (by_call (construct_storage_node_call (rands addr) address))
          (λ peer. by_call (construct_storage_node_call (rands peer) address)) h
    happen-AllValid addr (delete_storage_node_event id) c h =
        everywhere-AllValid _ _ addr c (by_call (delete_storage_node_call id))
          (λ peer. by_call (delete_storage_node_call id)) h
    happen-AllValid addr (health_check_event answers) c h =
        serve_at-AllValid (quietly (health_check answers)) addr c (λ n v. record { at = v.at }) h
    happen-AllValid addr (tick_event live) c h =
        serve_at-AllValid (quietly (tick xxh3 live)) addr c (λ n v. v) h

    -- In a cluster where, in every node's store, each chunk that an object lists is there, confirmed and
    -- of that object, this is still so after any requests at any nodes, health checks and ticks of
    -- the watcher, in any order and whatever each answers.
    pub happen_all-AllValid :
        (es : List (String × Event)) (c : Cluster)
        → AllValid c
        → AllValid (happen_all xxh3 json is_uri es c)
    unfolding happen_all
    happen_all-AllValid [] c h = h
    happen_all-AllValid ((addr, e) ∷ es) c h =
        happen_all-AllValid es (happen xxh3 json is_uri addr e c) (happen-AllValid addr e c h)
