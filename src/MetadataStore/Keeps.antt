-- ===== src/MetadataStore/Keeps.antt =====
-- Every operation of `MetadataStore` keeps the invariant.
use Prim.Native.String.{String}
use object_store.Common.{
  ℕ, ◌≡◌, refl, true, false, Option, none, some, arith, leb, length, Bool-cases, Option-cases, inl,
  inr,
}
use object_store.Common.Map.{
  nat_eq, string_eq, lookup, insert, contains_key, contains_key-eq-lookup, lookup-insert_self,
}
use object_store.Common.Io.{Result, ok, err, panicked, diverged, not_found, pure, continue, ◌>>◌}
use object_store.MetadataStore.Types.{
  MetaChunk, MetaObject, MetaStorageNode, new_chunk, add_chunk, add_storage_node, MetadataStore,
  Json, Random, save,
}
use object_store.MetadataStore.Objects.{put_object, update_object_checksum}
use object_store.MetadataStore.Chunks.{
  is_confirmed, reserve, allocate_chunk, put_chunk, list_chunk, confirm_chunk, contains,
  max_replicas, add_chunk_replica,
}
use object_store.MetadataStore.Listing.{
  NoDangling, IsValid, save-IsValid, generate_unique_id-fresh, Listed-insert, Listed-replace,
  NoDangling-chunks, NoDangling-insert, NoDangling-append,
}

-- The id that is reserved is no chunk's.
reserve-fresh :
    (rand : Random) (s : MetadataStore) (id : ℕ) (node : MetaStorageNode)
    → reserve rand s ≡ ok (id, node)
    → is_confirmed (lookup id s.chunks) ≡ false
unfolding reserve
reserve-fresh rand s id node e =
    not_confirmed (lookup id s.chunks) (contains_key-eq-lookup id s.chunks) fresh
  where
    fresh : contains_key id s.chunks ≡ false
    fresh = ground (arith, generate_unique_id-fresh rand.draws s.chunks id)

    not_confirmed :
        (o : Option MetaChunk)
        → contains_key id s.chunks ≡ elim o [ none ↦ false | some _ ↦ true ]
        → contains_key id s.chunks ≡ false
        → is_confirmed o ≡ false
    not_confirmed none h k = refl
    not_confirmed (some c) h k = absurd (cc (h, k))

-- A chunk of its own for an id that is not confirmed.
added :
    (id : ℕ) (c : MetaChunk) (s : MetadataStore)
    → is_confirmed (lookup id s.chunks) ≡ false
    → IsValid s
    → NoDangling s.objects (insert id c s.chunks)
added id c s free v = NoDangling-chunks s.objects s.chunks _ (Listed-insert id c s.chunks free) v

-- And its object lists it.
listed :
    (id checksum node_id : ℕ) (name : String) (object : MetaObject) (s : MetadataStore)
    → is_confirmed (lookup id s.chunks) ≡ false
    → lookup name s.objects ≡ some object
    → IsValid s
    → let c = add_storage_node (new_chunk id checksum name) node_id in
      NoDangling (insert name (add_chunk object id) s.objects) (insert id c s.chunks)
listed id checksum node_id name object s free e v =
    let c = add_storage_node (new_chunk id checksum name) node_id in
    NoDangling-append name object id s.objects _ e
      (record { chunk = c; there = lookup-insert_self id c s.chunks; named = refl; status = refl })
      (added id c s free v)

pub allocate_chunk-IsValid :
    (rand : Random) (name : String) (s : MetadataStore)
    → IsValid s
    → IsValid (allocate_chunk rand name s).1
unfolding allocate_chunk
allocate_chunk-IsValid rand name s v = by_reserve (reserve rand s) refl
  where
    by_reserve :
        (r : Result (ℕ × MetaStorageNode))
        → reserve rand s ≡ r
        → IsValid (allocate_chunk rand name s).1
    by_reserve (ok (id, node)) e =
        rw (e, allocate_chunk) (added id _ s (reserve-fresh rand s id node e) v)
    by_reserve (err k) e = rw (e, allocate_chunk) v
    by_reserve panicked e = rw (e, allocate_chunk) v
    by_reserve diverged e = rw (e, allocate_chunk) v

module _ (json : Json) where
  pub put_object-IsValid :
      (checksum : ℕ) (name : String) (s : MetadataStore)
      → IsValid s
      → IsValid (put_object json checksum name s).1
  unfolding put_object
  put_object-IsValid checksum name s v = elim (Bool-cases (contains_key name s.objects)) [
    | inl t ↦ rw t v
    | inr t ↦ rw t (save-IsValid json _ (NoDangling-insert name _ s.objects s.chunks tt v))
  ]

  pub update_object_checksum-IsValid :
      (name : String) (checksum total_size : ℕ) (s : MetadataStore)
      → IsValid s
      → IsValid (update_object_checksum json name checksum total_size s).1
  unfolding update_object_checksum
  update_object_checksum-IsValid name checksum total_size s v =
      elim (Option-cases (lookup name s.objects)) [
        | inl e ↦ rw (e, update_object_checksum) v
        | inr (object, e) ↦
            rw (e, update_object_checksum)
              (save-IsValid json _
                (NoDangling-insert name _ s.objects s.chunks (v.at name object e) v))
      ]

  pub confirm_chunk-IsValid :
      (id : ℕ) (name : String) (checksum node_id : ℕ) (s : MetadataStore)
      → IsValid s
      → IsValid (confirm_chunk json id name checksum node_id s).1
  unfolding confirm_chunk list_chunk
  confirm_chunk-IsValid id name checksum node_id s v =
      elim (Bool-cases (contains_key node_id s.storage_nodes)) [
        | inr t ↦ rw t v
        | inl t ↦ elim (Bool-cases (is_confirmed (lookup id s.chunks))) [
          | inl u ↦ rw (t, u) v
          | inr u ↦ elim (Option-cases (lookup name s.objects)) [
            | inl e ↦ rw (t, u, e) v
            | inr (object, e) ↦
                rw (t, u, e) (save-IsValid json _ (listed id checksum node_id name object s u e v))
          ]
        ]
      ]

  pub add_chunk_replica-IsValid :
      (id node_id : ℕ) (s : MetadataStore)
      → IsValid s
      → IsValid (add_chunk_replica json id node_id s).1
  unfolding add_chunk_replica
  add_chunk_replica-IsValid id node_id s v =
      elim (Bool-cases (contains_key node_id s.storage_nodes)) [
        | inr t ↦ rw t v
        | inl t ↦ elim (Option-cases (lookup id s.chunks)) [
          | inl e ↦ rw (t, e) v
          | inr (c, e) ↦ elim (Bool-cases (contains c.storage_nodes node_id)) [
            | inl u ↦ rw (t, e, u) v
            | inr u ↦ elim (Bool-cases (leb max_replicas (length c.storage_nodes))) [
              | inl w ↦ rw (t, e, u, w) v
              | inr w ↦
                  rw (t, e, u, w)
                    (save-IsValid json _ (
                      NoDangling-chunks s.objects s.chunks _
                        (Listed-replace id c (add_storage_node c node_id) s.chunks e refl refl) v))
            ]
          ]
        ]
      ]

  put_listed :
      (id node_id checksum : ℕ) (address : String) (name : String) (s : MetadataStore)
      → is_confirmed (lookup id s.chunks) ≡ false
      → IsValid s
      → (o : Option MetaObject) → lookup name s.objects ≡ o
      → let s' = record s {
        chunks = insert id (add_storage_node (new_chunk id checksum name) node_id) s.chunks;
      } in
        IsValid
          (elim o as (λ _. Result (ℕ × String) × MetadataStore) [
            | none ↦ (err not_found, s')
            | some object ↦ (list_chunk json name object id >> pure (id, address)) s'
          ]).1
  unfolding list_chunk
  put_listed id node_id checksum address name s free v none e = added id _ s free v
  put_listed id node_id checksum address name s free v (some object) e =
      after (save json saved)
        (save-IsValid json saved (listed id checksum node_id name object s free e v))
    where
      saved : MetadataStore
      saved = record s {
        chunks = insert id (add_storage_node (new_chunk id checksum name) node_id) s.chunks;
        objects = insert name (add_chunk object id) s.objects;
      }

      after :
          (q : Result (Unit {0}) × MetadataStore)
          → IsValid q.1
          → IsValid (continue {B = ℕ × String} q.0 (λ _. pure (id, address)) q.1).1
      after (ok _, s') h = h
      after (err _, s') h = h
      after (panicked, s') h = h
      after (diverged, s') h = h

  pub put_chunk-IsValid :
      (rand : Random) (name : String) (checksum : ℕ) (s : MetadataStore)
      → IsValid s
      → IsValid (put_chunk json rand name checksum s).1
  unfolding put_chunk
  put_chunk-IsValid rand name checksum s v = by_reserve (reserve rand s) refl
    where
      by_reserve :
          (r : Result (ℕ × MetaStorageNode))
          → reserve rand s ≡ r
          → IsValid (put_chunk json rand name checksum s).1
      by_reserve (ok (id, node)) e =
          rw (e, put_chunk)
            (put_listed id node.id checksum node.address name s (reserve-fresh rand s id node e) v
              (lookup name s.objects) refl)
      by_reserve (err k) e = rw (e, put_chunk) v
      by_reserve panicked e = rw (e, put_chunk) v
      by_reserve diverged e = rw (e, put_chunk) v
