-- ===== src/System/Listed.antt =====
-- The chunks of an object in a metadata store, as the services' view lists them.
use Prim.Native.String.{String}
use text.Mathlib.Text.{◌==◌ as str_eq}
use text.Mathlib.TextEquality.{eq_iff}
use object_store.Common.{
  ℕ, ◌^◌, ◌<◌, ◌≡◌, ◌≢◌, refl, sym, ap, ◌∙◌, subst, List, [], ◌∷◌, ◌++◌, Bool, true, false, Option,
  none, some, arith, All, All-mono, All-append, ◌==◌, ==_iff, if◌then◌else◌,
}
use object_store.Common.Map.{
  Map, nat_eq, string_eq, lookup, insert, lookup-insert, lookup-insert_self,
}
use object_store.Clients.{ChunkMessage, StorageNodeMessage}
use object_store.Services.{
  Pending, idle, given, written, View, with_object, with_pending, one_replica,
}
use object_store.MetadataStore.Types.{
  MetaStorageNode, MetaChunk, MetaObject, new_chunk, add_storage_node, add_chunk,
}
use object_store.MetadataStore.Chunks.{is_confirmed}
use object_store.MetadataNode.Local.{all_nodes, chunks_with}

module _ (nodes_of : List ℕ → Option (List StorageNodeMessage)) where
  -- A chunk that is entered under another id.
  chunks_with-insert :
      (id : ℕ) (c : MetaChunk) (chunks : Map ℕ MetaChunk) (ids : List ℕ)
      → All (λ i. i ≢ id) ids
      → chunks_with nodes_of (insert id c chunks) ids ≡ chunks_with nodes_of chunks ids
  unfolding chunks_with
  chunks_with-insert id c chunks [] h = refl
  chunks_with-insert id c chunks (i ∷ ids) (other, h) =
      let rest = chunks_with-insert id c chunks ids h in
      let differs : (id == i) ≡ false = ground (arith, ==_iff id i, other) in
      let same : lookup i (insert id c chunks) ≡ lookup i chunks =
        lookup-insert id i c chunks ∙ rw differs refl in
      by_chunk (lookup i chunks) refl same rest
    where
      by_nodes :
          (d : MetaChunk)
          → lookup i chunks ≡ some d
          → lookup i (insert id c chunks) ≡ lookup i chunks
          → chunks_with nodes_of (insert id c chunks) ids ≡ chunks_with nodes_of chunks ids
          → (n : Option (List StorageNodeMessage)) → nodes_of d.storage_nodes ≡ n
          → chunks_with nodes_of (insert id c chunks) (i ∷ ids)
            ≡ chunks_with nodes_of chunks (i ∷ ids)
      by_nodes d e same rest none n = rw (same, chunks_with) (rw (e, chunks_with) (rw n refl))
      by_nodes d e same rest (some ns) n =
          rw (same, chunks_with) (rw (e, chunks_with) (rw n (rw rest refl)))

      by_chunk :
          (found : Option MetaChunk)
          → lookup i chunks ≡ found
          → lookup i (insert id c chunks) ≡ lookup i chunks
          → chunks_with nodes_of (insert id c chunks) ids ≡ chunks_with nodes_of chunks ids
          → chunks_with nodes_of (insert id c chunks) (i ∷ ids)
            ≡ chunks_with nodes_of chunks (i ∷ ids)
      by_chunk none e same rest = rw (same, chunks_with) (rw (e, chunks_with) refl)
      by_chunk (some d) e same rest = by_nodes d e same rest (nodes_of d.storage_nodes) refl

  chunks_with-append :
      (chunks : Map ℕ MetaChunk) (ids more : List ℕ) (cs ds : List ChunkMessage)
      → chunks_with nodes_of chunks ids ≡ some cs
      → chunks_with nodes_of chunks more ≡ some ds
      → chunks_with nodes_of chunks (ids ++ more) ≡ some (cs ++ ds)
  unfolding chunks_with
  chunks_with-append chunks [] more cs ds h k =
      let same : [] ≡ cs = cc h in
      subst (λ (xs : List ChunkMessage). chunks_with nodes_of chunks more ≡ some (xs ++ ds)) same k
  chunks_with-append chunks (i ∷ ids) more cs ds h k =
      by_chunk (λ rest l. chunks_with-append chunks ids more rest ds l k) (lookup i chunks) refl
    where
      Goal : Type 0
      Goal = chunks_with nodes_of chunks (i ∷ ids ++ more) ≡ some (cs ++ ds)

      Step : Type 0
      Step =
          (rest : List ChunkMessage)
          → chunks_with nodes_of chunks ids ≡ some rest
          → chunks_with nodes_of chunks (ids ++ more) ≡ some (rest ++ ds)

      by_rest :
          Step
          → (c : MetaChunk) (ns : List StorageNodeMessage) → lookup i chunks ≡ some c
          → nodes_of c.storage_nodes ≡ some ns
          → (r : Option (List ChunkMessage)) → chunks_with nodes_of chunks ids ≡ r
          → Goal
      by_rest step c ns e n none l = absurd (cc (rw (e, chunks_with, n, l) at h))
      by_rest step c ns e n (some rest) l =
          let m : ChunkMessage = record { id = c.id; checksum = c.checksum; storage_nodes = ns } in
          let same : m ∷ rest ≡ cs = cc (rw (e, chunks_with, n, l) at h) in
          let more_of = step rest l in
          rw (e, chunks_with)
            (rw n (rw more_of (ap some (ap (λ (xs : List ChunkMessage). xs ++ ds) same))))

      by_nodes :
          Step
          → (c : MetaChunk) → lookup i chunks ≡ some c
          → (n : Option (List StorageNodeMessage)) → nodes_of c.storage_nodes ≡ n
          → Goal
      by_nodes step c e none n = absurd (cc (rw (e, chunks_with, n) at h))
      by_nodes step c e (some ns) n = by_rest step c ns e n (chunks_with nodes_of chunks ids) refl

      by_chunk : Step → (c : Option MetaChunk) → lookup i chunks ≡ c → Goal
      by_chunk step none e = absurd (cc (rw (e, chunks_with) at h))
      by_chunk step (some c) e = by_nodes step c e (nodes_of c.storage_nodes) refl

-- The object of a name, all of whose chunks are confirmed, and what `get_object` makes of them.
pub record Lists (objects : Map String MetaObject) (chunks : Map ℕ MetaChunk)
    (nodes : Map ℕ MetaStorageNode) (name : String) (cs : List ChunkMessage) : Type 0 where
  pub object : MetaObject
  pub found : lookup name objects ≡ some object
  pub all_confirmed : All (λ i. is_confirmed (lookup i chunks) ≡ true) object.chunks
  pub messages : chunks_with (all_nodes nodes) chunks object.chunks ≡ some cs

-- The storage node of an id that was given out.
pub record Located (nodes : Map ℕ MetaStorageNode) (id : ℕ) (address : String) (node_id : ℕ)
    : Type 0 where
  pub id_u64 : id < 2 ^ 64
  pub node : MetaStorageNode
  pub known : lookup node_id nodes ≡ some node
  pub at : node.address ≡ address

abbrev pub Placed : Map ℕ MetaStorageNode → Pending → Type 0
Placed nodes idle = Unit
Placed nodes (given id address node_id) = Located nodes id address node_id
Placed nodes (written id address node_id) = Located nodes id address node_id

pub record Shows (objects : Map String MetaObject) (chunks : Map ℕ MetaChunk)
    (nodes : Map ℕ MetaStorageNode) (v : View) : Type 0 where
  pub lists :
      (name : String) (cs : List ChunkMessage)
      → v.listed name ≡ some cs
      → Lists objects chunks nodes name cs
  pub place : Placed nodes v.pending

-- A chunk that is not confirmed is replaced; what is listed stays.
Lists-replaced :
    (objects : Map String MetaObject) (chunks : Map ℕ MetaChunk) (nodes : Map ℕ MetaStorageNode)
    (id : ℕ) (c : MetaChunk) (name : String) (cs : List ChunkMessage)
    → is_confirmed (lookup id chunks) ≡ false
    → Lists objects chunks nodes name cs
    → Lists objects (insert id c chunks) nodes name cs
Lists-replaced objects chunks nodes id c name cs new l = record {
  object = l.object;
  found = l.found;
  all_confirmed =
      All-mono (λ i. is_confirmed (lookup i chunks) ≡ true)
        (λ i. is_confirmed (lookup i (insert id c chunks)) ≡ true) l.object.chunks keeps
        l.all_confirmed;
  messages =
      chunks_with-insert (all_nodes nodes) id c chunks l.object.chunks (
        All-mono (λ i. is_confirmed (lookup i chunks) ≡ true) (λ i. i ≢ id) l.object.chunks other
          l.all_confirmed)
      ∙ l.messages;
}
  where
    other : (i : ℕ) → is_confirmed (lookup i chunks) ≡ true → i ≢ id
    other i h same = absurd (cc (h, new, same))

    keeps :
        (i : ℕ)
        → is_confirmed (lookup i chunks) ≡ true
        → is_confirmed (lookup i (insert id c chunks)) ≡ true
    keeps i h =
        let differs : (id == i) ≡ false = ground (arith, ==_iff id i, other i h) in
        let same : lookup i (insert id c chunks) ≡ lookup i chunks =
          lookup-insert id i c chunks ∙ rw differs refl in
        ap is_confirmed same ∙ h

pub Shows-allocates :
    (objects : Map String MetaObject) (chunks : Map ℕ MetaChunk) (nodes : Map ℕ MetaStorageNode)
    (v : View) (id : ℕ) (c : MetaChunk) (p : Pending)
    → is_confirmed (lookup id chunks) ≡ false
    → Placed nodes p
    → Shows objects chunks nodes v
    → Shows objects (insert id c chunks) nodes (with_pending p v)
Shows-allocates objects chunks nodes v id c p new place h = record {
  lists = λ name cs e. Lists-replaced objects chunks nodes id c name cs new (h.lists name cs e);
  place = place;
}

-- An object takes a name.
pub Shows-object :
    (objects : Map String MetaObject) (chunks : Map ℕ MetaChunk) (nodes : Map ℕ MetaStorageNode)
    (v : View) (name : String) (o : MetaObject) (cs : List ChunkMessage)
    → All (λ i. is_confirmed (lookup i chunks) ≡ true) o.chunks
    → chunks_with (all_nodes nodes) chunks o.chunks ≡ some cs
    → Shows objects chunks nodes v
    → Shows (insert name o objects) chunks nodes (with_object name cs v)
Shows-object objects chunks nodes v name o cs sure here h = record {
  lists = λ other ds e. by_place other ds (str_eq name other) refl e;
  place = h.place;
}
  where
    by_place :
        (other : String) (ds : List ChunkMessage) (b : Bool)
        → str_eq name other ≡ b
        → (if str_eq name other then some cs else v.listed other) ≡ some ds
        → Lists (insert name o objects) chunks nodes other ds
    by_place other ds true k e =
        let listed : cs ≡ ds = cc (rw k at e) in
        let place : lookup other (insert name o objects) ≡ some o =
          lookup-insert name other o objects ∙ rw k refl in
        record { object = o; found = place; all_confirmed = sure; messages = here ∙ ap some listed }
    by_place other ds false k e =
        let l = h.lists other ds (rw k at e) in
        let place : lookup other (insert name o objects) ≡ lookup other objects =
          lookup-insert name other o objects ∙ rw k refl in
        record {
          object = l.object;
          found = place ∙ l.found;
          all_confirmed = l.all_confirmed;
          messages = l.messages;
        }

-- A chunk that was written is confirmed.
chunks_with-one :
    (chunks : Map ℕ MetaChunk) (nodes : Map ℕ MetaStorageNode) (id checksum node_id : ℕ)
    (address name : String)
    → Located nodes id address node_id
    → chunks_with
        (all_nodes nodes)
        (insert id (add_storage_node (new_chunk id checksum name) node_id) chunks)
        (id ∷ [])
      ≡ some (one_replica id checksum node_id address ∷ [])
unfolding chunks_with all_nodes
chunks_with-one chunks nodes id checksum node_id address name l =
    let c = add_storage_node (new_chunk id checksum name) node_id in
    let found = lookup-insert_self id c chunks in
    let known = l.known in
    let at = l.at in rw (found, chunks_with) (rw (known, all_nodes) (rw at refl))

pub Shows-confirms :
    (objects : Map String MetaObject) (chunks : Map ℕ MetaChunk) (nodes : Map ℕ MetaStorageNode)
    (v : View) (id : ℕ) (name : String) (checksum node_id : ℕ) (address : String)
    (cs : List ChunkMessage) (l : Lists objects chunks nodes name cs)
    → is_confirmed (lookup id chunks) ≡ false
    → Located nodes id address node_id
    → Shows objects chunks nodes v
    → Shows
        (insert name (add_chunk (l.object) id) objects)
        (insert id (add_storage_node (new_chunk id checksum name) node_id) chunks)
        nodes
        (with_pending idle
          (with_object name (cs ++ one_replica id checksum node_id address ∷ []) v))
unfolding Lists-replaced
Shows-confirms objects chunks nodes v id name checksum node_id address cs l new place h =
    let c = add_storage_node (new_chunk id checksum name) node_id in
    let after = Shows-allocates objects chunks nodes v id c idle new tt h in
    let k = Lists-replaced objects chunks nodes id c name cs new l in
    let self : is_confirmed (lookup id (insert id c chunks)) ≡ true =
      ap is_confirmed (lookup-insert_self id c chunks) in
    Shows-object objects (insert id c chunks) nodes (with_pending idle v) name
      (add_chunk (l.object) id) (cs ++ one_replica id checksum node_id address ∷ [])
      (All-append (λ i. is_confirmed (lookup i (insert id c chunks)) ≡ true) l.object.chunks
        (id ∷ []) k.all_confirmed (self, tt))
      (chunks_with-append (all_nodes nodes) (insert id c chunks) l.object.chunks (id ∷ []) cs _
        k.messages (chunks_with-one chunks nodes id checksum node_id address name place))
      after

-- An object is replaced by one with its chunks.
pub Shows-updates :
    (objects : Map String MetaObject) (chunks : Map ℕ MetaChunk) (nodes : Map ℕ MetaStorageNode)
    (v : View) (name : String) (o o' : MetaObject)
    → lookup name objects ≡ some o
    → o'.chunks ≡ o.chunks
    → Shows objects chunks nodes v
    → Shows (insert name o' objects) chunks nodes v
Shows-updates objects chunks nodes v name o o' found same h = record {
  lists = λ other cs e. by_place other cs (h.lists other cs e) (str_eq name other) refl;
  place = h.place;
}
  where
    by_place :
        (other : String) (cs : List ChunkMessage)
        → Lists objects chunks nodes other cs
        → (b : Bool) → str_eq name other ≡ b
        → Lists (insert name o' objects) chunks nodes other cs
    by_place other cs l true k =
        let names : name ≡ other = (eq_iff name other).0 k in
        let here : lookup other (insert name o' objects) ≡ some o' =
          lookup-insert name other o' objects ∙ rw k refl in
        let old : o ≡ l.object = cc (found, l.found, names) in
        let ids : o'.chunks ≡ l.object.chunks = same ∙ ap (λ (x : MetaObject). x.chunks) old in
        record {
          object = o';
          found = here;
          all_confirmed =
              subst (All (λ i. is_confirmed (lookup i chunks) ≡ true)) (sym ids) l.all_confirmed;
          messages = ap (chunks_with (all_nodes nodes) chunks) ids ∙ l.messages;
        }
    by_place other cs l false k =
        let there : lookup other (insert name o' objects) ≡ lookup other objects =
          lookup-insert name other o' objects ∙ rw k refl in
        record {
          object = l.object;
          found = there ∙ l.found;
          all_confirmed = l.all_confirmed;
          messages = l.messages;
        }
