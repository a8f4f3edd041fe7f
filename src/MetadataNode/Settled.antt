-- ===== src/MetadataNode/Settled.antt =====
-- A settled cluster, and where its requests about an object are served.
use Prim.Native.String.{String}
use text.Mathlib.Text.{◌==◌ as str_eq}
use text.Mathlib.TextEquality.{eq_iff}
use object_store.Common.{
  ℕ, ◌≡◌, refl, sym, ap, ◌∙◌, subst, [], Bool, true, false, Option, none, some, ◌⊎◌, inl, inr,
  Bool-cases,
}
use object_store.Common.Map.{
  Map, nat_eq, string_eq, lookup, insert, contains_key, lookup-insert, lookup-insert_self,
}
use object_store.Common.Io.{Result, ok, ErrorKind}
use object_store.Clients.{RpcCode, GetObjectResponse}
use object_store.HashRing.{HashRing, get_owner}
use object_store.MetadataStore.Types.{MetadataStore, new_object, Json, save}
use object_store.MetadataStore.Objects
use object_store.MetadataNode.{
  Response, response, respond, Node, Serve, RouteAction, local, forward, route_by_object,
  get_owner_addr,
}
use object_store.MetadataNode.Local
use object_store.MetadataNode.Cluster.{Cluster, serve_at, route, by_object, get_object, put_object}

-- The node agrees with the ring and the addresses, and stands at its own.
pub record Agrees (ring : HashRing) (addrs : Map String String) (addr : String) (n : Node)
    : Type 0 where
  pub clustered : n.clustered ≡ true
  pub same_ring : n.ring ≡ ring
  pub same_addrs : n.peer_addrs ≡ addrs
  pub own : lookup n.node_id addrs ≡ some addr

-- All nodes agree, and every address is that of a node.
pub record Settled (ring : HashRing) (addrs : Map String String) (c : Cluster) : Type 0 where
  pub agree : (addr : String) (n : Node) → lookup addr c ≡ some n → Agrees ring addrs addr n
  pub there :
      (id addr : String) → lookup id addrs ≡ some addr → (n : Node) × (lookup addr c ≡ some n)

-- A node that changes its store only.
pub Settled-insert :
    (ring : HashRing) (addrs : Map String String) (c : Cluster) (o : String) (n' : Node)
    → Settled ring addrs c
    → Agrees ring addrs o n'
    → Settled ring addrs (insert o n' c)
Settled-insert ring addrs c o n' h a = record { agree = agree; there = there }
  where
    agree :
        (addr : String) (m : Node) → lookup addr (insert o n' c) ≡ some m → Agrees ring addrs addr m
    agree addr m e = elim (Bool-cases (str_eq o addr)) [
      | inl b ↦
          let n_is_m : some n' ≡ some m = sym (lookup-insert o addr n' c ∙ rw b refl) ∙ e in
          let at_addr : o ≡ addr = (eq_iff o addr).0 b in
          let is_m : n' ≡ m = cc n_is_m in
          subst (λ (x : Node). Agrees ring addrs addr x) is_m
            (subst (λ (x : String). Agrees ring addrs x n') at_addr a)
      | inr b ↦ h.agree addr m (sym (lookup-insert o addr n' c ∙ rw b refl) ∙ e)
    ]

    there :
        (id addr : String)
        → lookup id addrs ≡ some addr
        → (m : Node) × (lookup addr (insert o n' c) ≡ some m)
    there id addr e = elim (Bool-cases (str_eq o addr)) [
      | inl b ↦ (n', lookup-insert o addr n' c ∙ rw b refl)
      | inr b ↦ ((h.there id addr e).0, lookup-insert o addr n' c ∙ rw b (h.there id addr e).1)
    ]

module _ (xxh3 : String → ℕ) where
  action-forward :
      (name o : String) (n : Node)
      → n.clustered ≡ true
      → get_owner_addr xxh3 name n ≡ some o
      → route_by_object xxh3 name n ≡ forward o
  unfolding route_by_object
  action-forward name o n h e = rw (h, route_by_object) (rw e refl)

  action-local :
      (name : String) (n : Node)
      → n.clustered ≡ true
      → get_owner_addr xxh3 name n ≡ none
      → route_by_object xxh3 name n ≡ local
  unfolding route_by_object
  action-local name n h e = rw (h, route_by_object) (rw e refl)

  module _ {A : Type 0} (action : Node → RouteAction) (f s : Serve A) (a : String) (c : Cluster)
      (n : Node) where
    route-forward :
        (o : String)
        → lookup a c ≡ some n
        → action n ≡ forward o
        → route action f s a c ≡ serve_at f o c
    unfolding route
    route-forward o there e = rw (there, route) (rw e refl)

    route-local : lookup a c ≡ some n → action n ≡ local → route action f s a c ≡ serve_at s a c
    unfolding route
    route-local there e = rw (there, route) (rw e refl)

  -- The request is served at the owner's address, in one way or the other.
  pub route-Settled :
      {A : Type 0} (ring : HashRing) (addrs : Map String String) (c : Cluster)
      (owner o a name : String) (n : Node) (f s : Serve A)
      → Settled ring addrs c
      → get_owner xxh3 name ring ≡ some owner
      → lookup owner addrs ≡ some o
      → lookup a c ≡ some n
      → (route (by_object xxh3 name) f s a c ≡ serve_at f o c)
        ⊎ (route (by_object xxh3 name) f s a c ≡ serve_at s o c)
  unfolding get_owner_addr
  route-Settled ring addrs c owner o a name n f s h own known there =
      by_owner (str_eq owner n.node_id) refl
    where
      g : Agrees ring addrs a n
      g = h.agree a n there

      owned : get_owner xxh3 name n.ring ≡ some owner
      owned = ap (λ (r : HashRing). get_owner xxh3 name r) g.same_ring ∙ own

      addressed : lookup owner n.peer_addrs ≡ some o
      addressed = ap (λ (m : Map String String). lookup owner m) g.same_addrs ∙ known

      Goal : Type 0
      Goal =
          (route (by_object xxh3 name) f s a c ≡ serve_at f o c)
          ⊎ (route (by_object xxh3 name) f s a c ≡ serve_at s o c)

      by_owner : (b : Bool) → str_eq owner n.node_id ≡ b → Goal
      by_owner true b =
          let same : owner ≡ n.node_id = (eq_iff owner n.node_id).0 b in
          let at_o : some a ≡ some o =
            sym g.own ∙ ap (λ (i : String). lookup i addrs) (sym same) ∙ known in
          let is_o : a ≡ o = cc at_o in
          let none_else : get_owner_addr xxh3 name n ≡ none =
            rw (owned, get_owner_addr) (rw b refl) in
          inr (
            route-local (by_object xxh3 name) f s a c n there
              (action-local name n g.clustered none_else)
            ∙ ap (λ (x : String). serve_at s x c) is_o)
      by_owner false b =
          let elsewhere : get_owner_addr xxh3 name n ≡ some o =
            rw (owned, get_owner_addr) (rw b addressed) in
          inl (
            route-forward (by_object xxh3 name) f s a c n o there
              (action-forward name o n g.clustered elsewhere))

pub serve_at-there :
    {A : Type 0} (s : Serve A) (o : String) (c : Cluster) (n : Node)
    → lookup o c ≡ some n
    → serve_at s o c ≡ ((s n).0, insert o (s n).1 c)
unfolding serve_at
serve_at-there s o c n e = rw (e, serve_at) refl

pub put_object-lookup :
    (json : Json) (checksum : ℕ) (name : String) (s : MetadataStore)
    → (Objects.put_object json checksum name s).0 ≡ ok tt
    → lookup name (Objects.put_object json checksum name s).1.objects
      ≡ some (new_object name checksum)
unfolding Objects.put_object save
put_object-lookup json checksum name s = by_key (contains_key name s.objects) refl
  where
    Goal : Type 0
    Goal =
        (Objects.put_object json checksum name s).0 ≡ ok tt
        → lookup name (Objects.put_object json checksum name s).1.objects
          ≡ some (new_object name checksum)

    by_save :
        contains_key name s.objects ≡ false → (o : Option ErrorKind) → s.failures s.saves ≡ o → Goal
    by_save b none f =
        rw (b, Objects.put_object)
          (rw (f, save) (λ h. lookup-insert_self name (new_object name checksum) s.objects))
    by_save b (some e) f = rw (b, Objects.put_object) (rw (f, save) (λ h. absurd (cc h)))

    by_key : (b : Bool) → contains_key name s.objects ≡ b → Goal
    by_key true b = rw (b, Objects.put_object) (λ h. absurd (cc h))
    by_key false b = by_save b (s.failures s.saves) refl

pub respond-ok :
    {A : Type 0} (code : ErrorKind → RpcCode) (r : Result A) (a : A)
    → respond code r ≡ response a
    → r ≡ ok a
respond-ok code (Result.ok b) a e = cc e
respond-ok code (Result.err k) a e = absurd (cc e)
respond-ok code Result.panicked a e = absurd (cc e)
respond-ok code Result.diverged a e = absurd (cc e)

-- The answer about an object without chunks.
abbrev pub created : ℕ → Response GetObjectResponse
created checksum = response (record { checksum = checksum; chunks = [] })

get_object-new :
    (name : String) (checksum : ℕ) (n : Node)
    → lookup name n.metadata_store.objects ≡ some (new_object name checksum)
    → ((Local.get_object name n).0 ≡ created checksum)
      × ((Local.forward_get_object name n).0 ≡ created checksum)
unfolding Local.get_object Local.forward_get_object Local.chunks_with Objects.get_object
get_object-new name checksum n e =
    let found : Objects.get_object name n.metadata_store ≡ ok (new_object name checksum) =
      rw (e, Objects.get_object) refl in
    (rw (found, Local.get_object) refl, rw (found, Local.forward_get_object) refl)

-- A node once the object was put.
abbrev pub stored : Json → ℕ → String → Node → Node
stored json checksum name n = record n {
  metadata_store = (Objects.put_object json checksum name n.metadata_store).1;
}

module _ (xxh3 : String → ℕ) (json : Json) (ring : HashRing) (addrs : Map String String)
    (owner o name : String) (own : get_owner xxh3 name ring ≡ some owner)
    (known : lookup owner addrs ≡ some o) where
  pub put_object-Settled :
      (c : Cluster) (a : String) (n m : Node) (checksum : ℕ)
      → Settled ring addrs c
      → lookup a c ≡ some n
      → lookup o c ≡ some m
      → (code : ErrorKind → RpcCode) × (put_object xxh3 json a checksum name c ≡ (
        respond code (Objects.put_object json checksum name m.metadata_store).0,
        insert o (stored json checksum name m) c,
      ))
  unfolding put_object Local.put_object Local.forward_put_object
  put_object-Settled c a n m checksum h at_a at_o =
      elim (route-Settled xxh3 ring addrs c owner o a name n
        (Local.forward_put_object json checksum name) (Local.put_object json checksum name) h own
        known at_a) [
          | inl e ↦ (_, e ∙ serve_at-there (Local.forward_put_object json checksum name) o c m at_o)
          | inr e ↦ (_, e ∙ serve_at-there (Local.put_object json checksum name) o c m at_o)
        ]

  pub get_object-created :
      (c : Cluster) (b : String) (n m : Node) (checksum : ℕ)
      → Settled ring addrs c
      → lookup b c ≡ some n
      → lookup o c ≡ some m
      → lookup name m.metadata_store.objects ≡ some (new_object name checksum)
      → (get_object xxh3 b name c).0 ≡ created checksum
  unfolding get_object
  get_object-created c b n m checksum h at_b at_o e =
      let found = get_object-new name checksum m e in
      elim (route-Settled xxh3 ring addrs c owner o b name n (Local.forward_get_object name)
        (Local.get_object name) h own known at_b) [
          | inl r ↦
              ap (λ (q : Response GetObjectResponse × Cluster). q.0)
                (r ∙ serve_at-there (Local.forward_get_object name) o c m at_o)
              ∙ found.1
          | inr r ↦
              ap (λ (q : Response GetObjectResponse × Cluster). q.0)
                (r ∙ serve_at-there (Local.get_object name) o c m at_o)
              ∙ found.0
        ]

pub still-there :
    (c : Cluster) (o b : String) (n' n : Node)
    → lookup b c ≡ some n
    → (m : Node) × (lookup b (insert o n' c) ≡ some m)
still-there c o b n' n e = elim (Bool-cases (str_eq o b)) [
  | inl k ↦ (n', lookup-insert o b n' c ∙ rw k refl)
  | inr k ↦ (n, lookup-insert o b n' c ∙ rw k e)
]
