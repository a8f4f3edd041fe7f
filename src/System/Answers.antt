-- ===== src/System/Answers.antt =====
-- What an answered call says of the request.
use Prim.Native.String.{String}
use object_store.Common.{ℕ, ◌≡◌, refl, ap, some}
use object_store.Common.Map.{lookup, string_eq, nat_eq}
use object_store.Common.Io.{Result, ok}
use object_store.Clients.{Answer, answered, refused, AllocateChunkResponse}
use object_store.MetadataStore.Types.{MetaObject, MetadataStore, Json}
use object_store.MetadataStore.Objects
use object_store.MetadataStore.Chunks
use object_store.MetadataNode.{Node, respond}
use object_store.MetadataNode.Local
use object_store.MetadataNode.Local.{all_nodes, chunks_with, found_object, object_response}
use object_store.StorageNode
use object_store.StorageNode.{StorageNodeImpl, Reply, get_chunk_size_request}
use object_store.System.Calls.{System, to_answer, of_reply, map_answer}

-- What an answered call says of its two results.
pub answer_of :
    {A : Type 0} (q : Answer A × System) (a : A) (w' : System)
    → q ≡ (answered a, w')
    → q.0 ≡ answered a
answer_of q a w' e = ap (λ p. p.0) e

pub world_of :
    {A : Type 0} (q : Answer A × System) (a : A) (w' : System) → q ≡ (answered a, w') → q.1 ≡ w'
world_of q a w' e = ap (λ p. p.1) e

pub respond_ok :
    {A : Type 0} (code : _) (r : Result A) (a : A)
    → to_answer (respond code r) ≡ answered a
    → r ≡ ok a
respond_ok code (Result.ok b) a e = cc e
respond_ok code (Result.err c) a e = absurd (cc e)
respond_ok code Result.panicked a e = absurd (cc e)
respond_ok code Result.diverged a e = absurd (cc e)

pub allocate_ok :
    (r : Result (ℕ × ℕ × String)) (code : _) (a : AllocateChunkResponse)
    → map_answer Local.allocation (to_answer (respond code r)) ≡ answered a
    → r ≡ ok (a.chunk_id, a.storage_node_id, a.storage_node_address)
allocate_ok (Result.ok q) code a e = ap Result.ok (cc (ap fields e))
  where
    fields : Answer AllocateChunkResponse → ℕ × ℕ × String
    fields (answered b) = (b.chunk_id, b.storage_node_id, b.storage_node_address)
    fields (refused c) = q
allocate_ok (Result.err c) code a e = absurd (cc e)
allocate_ok Result.panicked code a e = absurd (cc e)
allocate_ok Result.diverged code a e = absurd (cc e)

pub get_object_found :
    (name : String) (s : MetadataStore) (o : MetaObject)
    → lookup name s.objects ≡ some o
    → Objects.get_object name s ≡ ok o
unfolding Objects.get_object
get_object_found name s o e = rw (e, Objects.get_object) refl

pub reply_ok :
    {A B : Type 0} (f : A → B) (r : Reply A) (b : B)
    → map_answer f (of_reply r) ≡ answered b
    → (a : A) × (r ≡ StorageNode.response a)
reply_ok f (StorageNode.response a) b e = (a, refl)
reply_ok f (StorageNode.status c) b e = absurd (cc e)

pub confirm_chunk_ok :
    (json : Json) (id : ℕ) (name : String) (checksum node_id : ℕ) (n : Node)
    → to_answer (Local.confirm_chunk json id name checksum node_id n).0 ≡ answered tt
    → ((Chunks.confirm_chunk json id name checksum node_id n.metadata_store).0 ≡ ok tt)
      × ((Local.confirm_chunk json id name checksum node_id n).1.metadata_store
          ≡ (Chunks.confirm_chunk json id name checksum node_id n.metadata_store).1)
unfolding Local.confirm_chunk
confirm_chunk_ok json id name checksum node_id n e =
    by_result (Chunks.confirm_chunk json id name checksum node_id n.metadata_store).0 refl
  where
    by_result :
        (r : Result (Unit {0}))
        → (Chunks.confirm_chunk json id name checksum node_id n.metadata_store).0 ≡ r
        → ((Chunks.confirm_chunk json id name checksum node_id n.metadata_store).0 ≡ ok tt)
          × ((Local.confirm_chunk json id name checksum node_id n).1.metadata_store
              ≡ (Chunks.confirm_chunk json id name checksum node_id n.metadata_store).1)
    by_result (Result.ok _) k = (k, rw (k, Local.confirm_chunk) refl)
    by_result (Result.err c) k = absurd (cc (rw (k, Local.confirm_chunk) at e))
    by_result Result.panicked k = absurd (cc (rw (k, Local.confirm_chunk) at e))
    by_result Result.diverged k = absurd (cc (rw (k, Local.confirm_chunk) at e))
