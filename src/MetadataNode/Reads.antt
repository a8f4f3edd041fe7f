-- ===== src/MetadataNode/Reads.antt =====
-- What `get_object` of a node answers about an object of its own.
use Prim.Native.String.{String}
use object_store.Common.{ℕ, ◌≡◌, refl, subst, ◌⊎◌, inl, inr, List, [], ◌∷◌, Option, none, some, All}
use object_store.Common.Map.{Map, nat_eq, string_eq, lookup}
use object_store.Common.Io.{ok}
use object_store.Clients.{RpcCode, StorageNodeMessage, ChunkMessage}
use object_store.MetadataStore.Types.{MetaStorageNode, MetaChunk, MetaObject}
use object_store.MetadataStore.Objects
use object_store.MetadataStore.Listing.{Listed, IsValid}
use object_store.MetadataNode.{response, status, Node}
use object_store.MetadataNode.Local.{node_message, all_nodes, chunks_with, get_object}

-- A storage node of the list is not known.
abbrev pub Missing : Map ℕ MetaStorageNode → List ℕ → Type 0
Missing known [] = ⊥
Missing known (id ∷ ids) = (lookup id known ≡ none) ⊎ Missing known ids

module _ (known : Map ℕ MetaStorageNode) (chunks : Map ℕ MetaChunk) where
  -- A chunk that names a node that is not known.
  abbrev pub Unlocated : List ℕ → Type 0
  Unlocated [] = ⊥
  Unlocated (id ∷ ids) =
      ((c : MetaChunk) × (lookup id chunks ≡ some c) × Missing known c.storage_nodes)
      ⊎ Unlocated ids

  -- The storage nodes of a chunk, one for each id, with its address.
  abbrev pub Nodes : List ℕ → List StorageNodeMessage → Type 0
  Nodes [] [] = Unit
  Nodes [] (m ∷ ms) = ⊥
  Nodes (id ∷ ids) [] = ⊥
  Nodes (id ∷ ids) (m ∷ ms) =
      ((n : MetaStorageNode) × (lookup id known ≡ some n) × (m.id ≡ id) × (m.address ≡ n.address))
      × Nodes ids ms

  -- The messages are about the chunks, in their order, with all of their storage nodes.
  abbrev pub Answers : List ℕ → List ChunkMessage → Type 0
  Answers [] [] = Unit
  Answers [] (m ∷ ms) = ⊥
  Answers (id ∷ ids) [] = ⊥
  Answers (id ∷ ids) (m ∷ ms) =
      ((c : MetaChunk) × (lookup id chunks ≡ some c)
        × (m.id ≡ c.id)
        × (m.checksum ≡ c.checksum)
        × Nodes c.storage_nodes m.storage_nodes)
      × Answers ids ms

  all_nodes-none : (ids : List ℕ) → all_nodes known ids ≡ none → Missing known ids
  unfolding all_nodes
  all_nodes-none [] = λ e. absurd (cc e)
  all_nodes-none (id ∷ ids) = by_node (all_nodes-none ids) (lookup id known) refl
    where
      Goal : Type 0
      Goal = all_nodes known (id ∷ ids) ≡ none → Missing known (id ∷ ids)

      by_rest :
          (n : MetaStorageNode)
          → lookup id known ≡ some n
          → (all_nodes known ids ≡ none → Missing known ids)
          → (o : Option (List StorageNodeMessage)) → all_nodes known ids ≡ o
          → Goal
      by_rest n e later none f = λ h. inr (later f)
      by_rest n e later (some ns) f = rw (e, all_nodes) (rw f (λ h. absurd (cc h)))

      by_node :
          (all_nodes known ids ≡ none → Missing known ids)
          → (o : Option MetaStorageNode) → lookup id known ≡ o
          → Goal
      by_node later none e = λ h. inl e
      by_node later (some n) e = by_rest n e later (all_nodes known ids) refl

  all_nodes-some :
      (ids : List ℕ) (ms : List StorageNodeMessage) → all_nodes known ids ≡ some ms → Nodes ids ms
  unfolding all_nodes
  all_nodes-some [] [] = λ e. tt
  all_nodes-some [] (m ∷ ms) = λ e. absurd (cc e)
  all_nodes-some (id ∷ ids) ms = by_node (all_nodes-some ids) (lookup id known) refl
    where
      Goal : Type 0
      Goal = all_nodes known (id ∷ ids) ≡ some ms → Nodes (id ∷ ids) ms

      by_rest :
          (n : MetaStorageNode)
          → lookup id known ≡ some n
          → ((ns : List StorageNodeMessage) → all_nodes known ids ≡ some ns → Nodes ids ns)
          → (o : Option (List StorageNodeMessage)) → all_nodes known ids ≡ o
          → Goal
      by_rest n e later none f = rw (e, all_nodes) (rw f (λ h. absurd (cc h)))
      by_rest n e later (some ns) f =
          rw (e, all_nodes)
            (rw f (λ h.
              let same : node_message id n ∷ ns ≡ ms = cc h in
              subst (Nodes (id ∷ ids)) same ((n, e, refl, refl), later ns f)))

      by_node :
          ((ns : List StorageNodeMessage) → all_nodes known ids ≡ some ns → Nodes ids ns)
          → (o : Option MetaStorageNode) → lookup id known ≡ o
          → Goal
      by_node later none e = rw (e, all_nodes) (λ h. absurd (cc h))
      by_node later (some n) e = by_rest n e later (all_nodes known ids) refl

  -- The chunks of an object, where none of them is missing.
  chunks_with-all_nodes :
      (name : String) (ids : List ℕ)
      → All (Listed chunks name) ids
      → ((ms : List ChunkMessage) × (chunks_with (all_nodes known) chunks ids ≡ some ms)
          × Answers ids ms)
        ⊎ ((chunks_with (all_nodes known) chunks ids ≡ none) × Unlocated ids)
  unfolding chunks_with
  chunks_with-all_nodes name [] h = inl ([], refl, tt)
  chunks_with-all_nodes name (id ∷ ids) (l, h) =
      by_nodes (chunks_with-all_nodes name ids h) (all_nodes known l.chunk.storage_nodes) refl
    where
      c : MetaChunk
      c = l.chunk

      Later : Type 0
      Later =
          ((ms : List ChunkMessage) × (chunks_with (all_nodes known) chunks ids ≡ some ms)
            × Answers ids ms)
          ⊎ ((chunks_with (all_nodes known) chunks ids ≡ none) × Unlocated ids)

      Goal : Type 0
      Goal =
          ((ms : List ChunkMessage) × (chunks_with (all_nodes known) chunks (id ∷ ids) ≡ some ms)
            × Answers (id ∷ ids) ms)
          ⊎ ((chunks_with (all_nodes known) chunks (id ∷ ids) ≡ none) × Unlocated (id ∷ ids))

      by_nodes :
          Later
          → (o : Option (List StorageNodeMessage)) → all_nodes known c.storage_nodes ≡ o
          → Goal
      by_nodes later none e = inr (
        rw (l.there, chunks_with) (rw e refl),
        inl (c, l.there, all_nodes-none c.storage_nodes e),
      )
      by_nodes (inl (ms, f, a)) (some nodes) e = inl (
        record { id = c.id; checksum = c.checksum; storage_nodes = nodes } ∷ ms,
        rw (l.there, chunks_with) (rw e (rw f refl)),
        ((c, l.there, refl, refl, all_nodes-some c.storage_nodes nodes e), a),
      )
      by_nodes (inr (f, u)) (some nodes) e =
          inr (rw (l.there, chunks_with) (rw e (rw f refl)), inr u)

-- Where the store's invariant holds, `get_object` answers about an object of the node with its
-- checksum and all of its chunks, in order, with their checksums and storage nodes; or a storage
-- node of one of the chunks is not known, and the status is Internal. No chunk is ever missing.
pub get_object-IsValid :
    (n : Node) (name : String) (object : MetaObject)
    → IsValid n.metadata_store
    → lookup name n.metadata_store.objects ≡ some object
    → ((ms : List ChunkMessage) × ((get_object name n).0
          ≡ response (record { checksum = object.checksum; chunks = ms }))
        × Answers n.metadata_store.storage_nodes n.metadata_store.chunks object.chunks ms)
      ⊎ (((get_object name n).0 ≡ status RpcCode.internal)
          × Unlocated n.metadata_store.storage_nodes n.metadata_store.chunks object.chunks)
unfolding get_object Objects.get_object
get_object-IsValid n name object v e =
    let found : Objects.get_object name n.metadata_store ≡ ok object =
      rw (e, Objects.get_object) refl in
    elim (chunks_with-all_nodes n.metadata_store.storage_nodes n.metadata_store.chunks name
      object.chunks (v.at name object e)) [
        | inl (ms, f, a) ↦ inl (ms, rw (found, get_object) (rw f refl), a)
        | inr (f, u) ↦ inr (rw (found, get_object) (rw f refl), u)
      ]
