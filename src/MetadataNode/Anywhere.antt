-- ===== src/MetadataNode/Anywhere.antt =====
-- In a settled cluster it does not matter which node a request about an object comes to.
use Prim.Native.String.{String}
use text.Mathlib.Text.{◌==◌ as str_eq}
use object_store.Common.{ℕ, ◌≡◌, sym, ap, ◌∙◌, ◌↔◌, false, some, inl, inr}
use object_store.Common.Map.{Map, string_eq, lookup, insert, lookup-insert_self}
use object_store.HashRing.{HashRing, get_owner}
use object_store.MetadataStore.Types.{Json, Random}
use object_store.MetadataNode.{Response, response, respond, Node, Serve}
use object_store.MetadataNode.Local
use object_store.MetadataNode.Cluster.{
  Cluster, serve_at, route, by_object, get_object, put_object, delete_object, confirm_chunk,
  allocate_chunk,
}
use object_store.MetadataNode.Settled.{
  Agrees, Settled, Settled-insert, route-Settled, put_object-lookup, respond-ok, put_object-Settled,
  get_object-created, still-there, created, stored,
}

module _ (xxh3 : String → ℕ) (json : Json) (ring : HashRing) (addrs : Map String String)
    (owner o name : String) (own : get_owner xxh3 name ring ≡ some owner)
    (known : lookup owner addrs ≡ some o) (c : Cluster) (h : Settled ring addrs c) (a b : String)
    (n m : Node) (at_a : lookup a c ≡ some n) (at_b : lookup b c ≡ some m) where
  -- Where all nodes of a cluster agree on the ring and the addresses, and the owner of the name has
  -- an address: once `put_object` succeeds at one node, `get_object` at any node answers with the
  -- checksum and no chunks.
  pub get_object-put_object :
      (checksum : ℕ)
      → (put_object xxh3 json a checksum name c).0 ≡ response tt
      → (get_object xxh3 b name (put_object xxh3 json a checksum name c).1).0 ≡ created checksum
  get_object-put_object checksum succeeds =
      let (k, at_o) = h.there owner o known in
      let (code, put) =
        put_object-Settled xxh3 json ring addrs owner o name own known c a n k checksum h at_a
          at_o in
      let stores =
        respond-ok code _ tt
          (sym (ap (λ (q : Response (Unit {0}) × Cluster). q.0) put) ∙ succeeds) in
      let g = h.agree o k at_o in
      let k' = stored json checksum name k in
      let agrees : Agrees ring addrs o k' = record {
        clustered = g.clustered;
        same_ring = g.same_ring;
        same_addrs = g.same_addrs;
        own = g.own;
      } in
      ap (λ (d : Cluster). (get_object xxh3 b name d).0)
        (ap (λ (q : Response (Unit {0}) × Cluster). q.1) put)
      ∙ get_object-created xxh3 json ring addrs owner o name own known (insert o k' c) b
          (still-there c o b k' m at_b).0 k' checksum (Settled-insert ring addrs c o k' h agrees)
          (still-there c o b k' m at_b).1 (lookup-insert_self o k' c)
          (put_object-lookup json checksum name k.metadata_store stores)

  -- A deletion of the object, a confirmation of a chunk of it, and, for a name that is not empty, an
  -- allocation of a chunk for it have the same answer and leave the same cluster at any two nodes.
  -- So does a creation, but for the status of a refusal: it succeeds at one exactly if it does at
  -- the other.
  pub route-anywhere :
      (checksum id node_id : ℕ) (rand : Random)
      → (delete_object xxh3 json a name c ≡ delete_object xxh3 json b name c)
        × (confirm_chunk xxh3 json a id name checksum node_id c
            ≡ confirm_chunk xxh3 json b id name checksum node_id c)
        × (str_eq name "" ≡ false
            → allocate_chunk xxh3 rand a name c ≡ allocate_chunk xxh3 rand b name c)
        × ((put_object xxh3 json a checksum name c).1 ≡ (put_object xxh3 json b checksum name c).1)
        × (((put_object xxh3 json a checksum name c).0 ≡ response tt)
            ↔ ((put_object xxh3 json b checksum name c).0 ≡ response tt))
  unfolding delete_object confirm_chunk allocate_chunk
  route-anywhere checksum id node_id rand =
      let (k, at_o) = h.there owner o known in
      let (code_a, put_a) =
        put_object-Settled xxh3 json ring addrs owner o name own known c a n k checksum h at_a
          at_o in
      let (code_b, put_b) =
        put_object-Settled xxh3 json ring addrs owner o name own known c b m k checksum h at_b
          at_o in
      let answer_a = ap (λ (q : Response (Unit {0}) × Cluster). q.0) put_a in
      let answer_b = ap (λ (q : Response (Unit {0}) × Cluster). q.0) put_b in
      (
        same (Local.delete_object json name),
        same (Local.confirm_chunk json id name checksum node_id),
        (λ full. rw full (same (Local.allocate_chunk rand name))),
        ap (λ (q : Response (Unit {0}) × Cluster). q.1) put_a
            ∙ sym (ap (λ (q : Response (Unit {0}) × Cluster). q.1) put_b),
        (
          (λ done. answer_b ∙ ap (respond code_b) (respond-ok code_a _ tt (sym answer_a ∙ done))),
          (λ done. answer_a ∙ ap (respond code_a) (respond-ok code_b _ tt (sym answer_b ∙ done))),
        ),
      )
    where
      served :
          {A : Type 0} (s : Serve A) (x : String) (j : Node)
          → lookup x c ≡ some j
          → route (by_object xxh3 name) s s x c ≡ serve_at s o c
      served s x j at_x =
          elim (route-Settled xxh3 ring addrs c owner o x name j s s h own known at_x) [
            | inl e ↦ e
            | inr e ↦ e
          ]

      same :
          {A : Type 0} (s : Serve A)
          → route (by_object xxh3 name) s s a c ≡ route (by_object xxh3 name) s s b c
      same s = served s a n at_a ∙ sym (served s b m at_b)
