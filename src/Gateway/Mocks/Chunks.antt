-- ===== src/Gateway/Mocks/Chunks.antt =====
-- The chunks of an object in memory, as entries are added, and what calls have done that were
-- answered.
use Prim.Native.String.{String}
use text.Mathlib.Text.{◌==◌ as str_eq}
use object_store.Common.{
  ℕ, ◌+◌, ◌≡◌, ◌≢◌, refl, sym, ap, ◌∙◌, subst, List, [], ◌∷◌, ◌++◌, Bool, true, false, Bool-cases,
  inl, inr, Option, none, some, arith, All, ltb, ◌==◌, ==_iff, if◌then◌else◌,
}
use object_store.Common.Map.{
  Map, nat_eq, string_eq, lookup, contains_key, insert, lookup-insert, lookup-insert_self,
}
use object_store.Clients.{
  Answer, answered, refused, RpcCode, StorageNodeMessage, AllocateChunkResponse,
}
use object_store.Services.{one_replica}
use object_store.Gateway.Mocks.Metadata
use object_store.Gateway.Mocks.Metadata.{
  StoredObject, StoredChunk, MockMetadataClient, find_node, nodes_of, chunk_message, chunks_of,
  push_chunk, max_chunk_id,
}

-- What is so of every entry stays so where one is added.
pub every-insert :
    (P : StoredObject → Type 0) (name : String) (o : StoredObject)
    (objects : Map String StoredObject)
    → P o
    → ((other : String) (x : StoredObject) → lookup other objects ≡ some x → P x)
    → (other : String) (x : StoredObject) → lookup other (insert name o objects) ≡ some x
    → P x
every-insert P name o objects here there other x e =
    by_place (str_eq name other) refl (sym (lookup-insert name other o objects) ∙ e)
  where
    by_place :
        (b : Bool)
        → str_eq name other ≡ b
        → (if str_eq name other then some o else lookup other objects) ≡ some x
        → P x
    by_place true k h = let same : o ≡ x = cc (rw k at h) in subst P same here
    by_place false k h = there other x (rw k at h)

-- A chunk that none of the ids names.
pub chunks_of-insert :
    (known : List StorageNodeMessage) (id : ℕ) (c : StoredChunk) (stored : Map ℕ StoredChunk)
    (ids : List ℕ)
    → All (λ i. i ≢ id) ids
    → chunks_of known (insert id c stored) ids ≡ chunks_of known stored ids
unfolding chunks_of
chunks_of-insert known id c stored [] h = refl
chunks_of-insert known id c stored (i ∷ ids) (other, h) =
    let rest = chunks_of-insert known id c stored ids h in
    let differs : (id == i) ≡ false = ground (arith, ==_iff id i, other) in
    let same : lookup i (insert id c stored) ≡ lookup i stored =
      lookup-insert id i c stored ∙ rw differs refl in
    by_chunk (lookup i stored) refl same rest
  where
    by_chunk :
        (found : Option StoredChunk)
        → lookup i stored ≡ found
        → lookup i (insert id c stored) ≡ lookup i stored
        → chunks_of known (insert id c stored) ids ≡ chunks_of known stored ids
        → chunks_of known (insert id c stored) (i ∷ ids) ≡ chunks_of known stored (i ∷ ids)
    by_chunk none e same rest = rw (same, chunks_of) (rw (e, chunks_of) rest)
    by_chunk (some d) e same rest =
        rw (same, chunks_of) (rw (e, chunks_of) (ap (◌∷◌ (chunk_message known i d)) rest))

pub chunks_of-append :
    (known : List StorageNodeMessage) (stored : Map ℕ StoredChunk) (ids more : List ℕ)
    → chunks_of known stored (ids ++ more)
      ≡ chunks_of known stored ids ++ chunks_of known stored more
unfolding chunks_of
chunks_of-append known stored [] more = refl
chunks_of-append known stored (i ∷ ids) more =
    by_chunk (lookup i stored) refl (chunks_of-append known stored ids more)
  where
    by_chunk :
        (found : Option StoredChunk)
        → lookup i stored ≡ found
        → chunks_of known stored (ids ++ more)
          ≡ chunks_of known stored ids ++ chunks_of known stored more
        → chunks_of known stored (i ∷ ids ++ more)
          ≡ chunks_of known stored (i ∷ ids) ++ chunks_of known stored more
    by_chunk none e rest = rw (e, chunks_of) rest
    by_chunk (some d) e rest = rw (e, chunks_of) (ap (◌∷◌ (chunk_message known i d)) rest)

pub chunks_of-one :
    (known : List StorageNodeMessage) (id checksum node_id : ℕ) (address name : String)
    (stored : Map ℕ StoredChunk)
    → find_node node_id known ≡ some (record { id = node_id; address = address })
    → chunks_of known
        (insert id
          (record { object_name = name; checksum = checksum; storage_node_ids = node_id ∷ [] })
          stored)
        (id ∷ [])
      ≡ one_replica id checksum node_id address ∷ []
unfolding chunks_of nodes_of
chunks_of-one known id checksum node_id address name stored e =
    let c : StoredChunk = record {
      object_name = name;
      checksum = checksum;
      storage_node_ids = node_id ∷ [];
    } in
    let found = lookup-insert_self id c stored in rw (found, chunks_of) (rw (e, nodes_of) refl)

-- What an answered call has done.
pub put_object-answered :
    (checksum : ℕ) (name : String) (m : MockMetadataClient)
    → (Metadata.put_object checksum name m).0 ≡ answered tt
    → (Metadata.put_object checksum name m).1 ≡ record m {
      objects = insert name (record { checksum = checksum; chunk_ids = [] }) m.objects;
    }
unfolding Metadata.put_object
put_object-answered checksum name m e = elim (Bool-cases m.fail_put_object) [
  | inl f ↦ absurd (cc (rw f at e))
  | inr f ↦ elim (Bool-cases (contains_key name m.objects)) [
    | inl k ↦ absurd (cc (rw (f, k) at e))
    | inr k ↦ rw (f, k) refl
  ]
]

-- An allocation gives the next id and the first storage node.
pub record Allocates (m m' : MockMetadataClient) (a : AllocateChunkResponse) : Type 0 where
  pub node : StorageNodeMessage
  pub nodes : List StorageNodeMessage
  pub first : m.storage_nodes ≡ node ∷ nodes
  pub id : a.chunk_id ≡ m.next_chunk_id
  pub address : a.storage_node_address ≡ node.address
  pub node_id : a.storage_node_id ≡ node.id
  pub after : m' ≡ record m { next_chunk_id = m.next_chunk_id + 1 }

pub allocate_chunk_first :
    (name : String) (checksum : ℕ) (m : MockMetadataClient) (n : StorageNodeMessage)
    (ns : List StorageNodeMessage)
    → m.fail_allocate_chunk ≡ false
    → m.storage_nodes ≡ n ∷ ns
    → ltb m.next_chunk_id max_chunk_id ≡ true
    → Metadata.allocate_chunk name checksum m ≡ (
      answered (record {
        chunk_id = m.next_chunk_id;
        storage_node_address = n.address;
        storage_node_id = n.id;
      }),
      record m { next_chunk_id = m.next_chunk_id + 1 },
    )
unfolding Metadata.allocate_chunk
allocate_chunk_first name checksum m n ns f k lt = simp (f, k, lt)

pub allocate_chunk_panics :
    (name : String) (checksum : ℕ) (m : MockMetadataClient) (n : StorageNodeMessage)
    (ns : List StorageNodeMessage)
    → m.fail_allocate_chunk ≡ false
    → m.storage_nodes ≡ n ∷ ns
    → ltb m.next_chunk_id max_chunk_id ≡ false
    → (a : AllocateChunkResponse) → (Metadata.allocate_chunk name checksum m).0 ≢ answered a
unfolding Metadata.allocate_chunk
allocate_chunk_panics name checksum m n ns f k ge a e =
    let refuses : (Metadata.allocate_chunk name checksum m).0 ≡ refused RpcCode.unavailable =
      simp (f, k, ge) in
    cc (e, refuses)

pub allocate_chunk_none :
    (name : String) (checksum : ℕ) (m : MockMetadataClient)
    → m.storage_nodes ≡ []
    → (a : AllocateChunkResponse) → (Metadata.allocate_chunk name checksum m).0 ≢ answered a
unfolding Metadata.allocate_chunk
allocate_chunk_none name checksum m k a e = elim (Bool-cases m.fail_allocate_chunk) [
  | inl f ↦ absurd (cc (rw f at e))
  | inr f ↦ absurd (cc (rw (f, k) at e))
]

pub allocate_chunk_fails :
    (name : String) (checksum : ℕ) (m : MockMetadataClient)
    → m.fail_allocate_chunk ≡ true
    → (a : AllocateChunkResponse) → (Metadata.allocate_chunk name checksum m).0 ≢ answered a
unfolding Metadata.allocate_chunk
allocate_chunk_fails name checksum m f a e = absurd (cc (rw f at e))

pub allocate_chunk-Allocates :
    (name : String) (checksum : ℕ) (m : MockMetadataClient) (a : AllocateChunkResponse)
    → (Metadata.allocate_chunk name checksum m).0 ≡ answered a
    → Allocates m (Metadata.allocate_chunk name checksum m).1 a
allocate_chunk-Allocates name checksum m a e = elim (Bool-cases m.fail_allocate_chunk) [
  | inl f ↦ absurd (allocate_chunk_fails name checksum m f a e)
  | inr f ↦ by_nodes f m.storage_nodes refl
]
  where
    of : Answer AllocateChunkResponse → AllocateChunkResponse
    of (answered b) = b
    of (refused c) = a

    counts :
        m.fail_allocate_chunk ≡ false
        → (n : StorageNodeMessage) (ns : List StorageNodeMessage) → m.storage_nodes ≡ n ∷ ns
        → ltb m.next_chunk_id max_chunk_id ≡ true
    counts f n ns k = elim (Bool-cases (ltb m.next_chunk_id max_chunk_id)) [
      | inl lt ↦ lt
      | inr ge ↦ absurd (allocate_chunk_panics name checksum m n ns f k ge a e)
    ]

    by_nodes :
        m.fail_allocate_chunk ≡ false
        → (nodes : List StorageNodeMessage) → m.storage_nodes ≡ nodes
        → Allocates m (Metadata.allocate_chunk name checksum m).1 a
    by_nodes f [] k = absurd (allocate_chunk_none name checksum m k a e)
    by_nodes f (n ∷ ns) k =
        let run = allocate_chunk_first name checksum m n ns f k (counts f n ns k) in
        let same =
          sym (ap (λ (q : Answer AllocateChunkResponse × MockMetadataClient). of q.0) run)
          ∙ ap of e in
        record {
          node = n;
          nodes = ns;
          first = k;
          id = sym (ap (λ (b : AllocateChunkResponse). b.chunk_id) same);
          address = sym (ap (λ (b : AllocateChunkResponse). b.storage_node_address) same);
          node_id = sym (ap (λ (b : AllocateChunkResponse). b.storage_node_id) same);
          after = ap (λ (q : Answer AllocateChunkResponse × MockMetadataClient). q.1) run;
        }
