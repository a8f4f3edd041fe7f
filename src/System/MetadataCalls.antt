-- ===== src/System/MetadataCalls.antt =====
-- What answered calls of a metadata node's own store have done.
use Prim.Native.String.{String}
use object_store.Common.{
  ℕ, ◌^◌, ◌<◌, ◌≡◌, refl, ap, subst, List, [], ◌∷◌, ◌++◌, false, Bool-cases, inl, inr, Option, none,
  some, All,
}
use object_store.Common.Map.{
  Map, nat_eq, string_eq, lookup, insert, contains_key, values, contains_key-eq-lookup,
}
use object_store.Common.Io.{Result, ErrorKind, ok, err, panicked, diverged}
use object_store.Clients.{ChunkMessage}
use object_store.Services.{idle, given, written, View, with_object, with_pending, one_replica}
use object_store.MetadataStore.Types.{
  MetaStorageNode, MetaChunk, MetaObject, new_object, new_pending, MetadataStore, Json, Random,
  save, generate_unique_id,
}
use object_store.MetadataStore.Objects
use object_store.MetadataStore.Chunks
use object_store.MetadataStore.Chunks.{is_confirmed, choose_storage_node, reserve, list_chunk}
use object_store.MetadataNode.Local.{chunks_with}
use object_store.System.Listed.{
  Located, Placed, Shows, Shows-allocates, Shows-object, Shows-confirms, Shows-updates,
}

-- The store shows the view, and `P` is so of its storage nodes, which these calls leave as they are.
abbrev pub StoreShows : (Map ℕ MetaStorageNode → Type 0) → MetadataStore → View → Type 0
StoreShows P s v = Shows s.objects s.chunks s.storage_nodes v × P s.storage_nodes

-- A save changes neither objects nor chunks nor nodes.
save-Shows :
    (P : Map ℕ MetaStorageNode → Type 0) (json : Json) (s : MetadataStore) (v : View)
    → StoreShows P s v
    → StoreShows P (save json s).1 v
unfolding save
save-Shows P json s v h = by_failure (s.failures s.saves) refl
  where
    by_failure : (e : Option ErrorKind) → s.failures s.saves ≡ e → StoreShows P (save json s).1 v
    by_failure none k = rw (k, save) h
    by_failure (some e) k = rw (k, save) h

pub put_object-Shows :
    (P : Map ℕ MetaStorageNode → Type 0) (json : Json) (checksum : ℕ) (name : String)
    (s : MetadataStore) (v : View)
    → StoreShows P s v
    → (Objects.put_object json checksum name s).0 ≡ ok tt
    → StoreShows P (Objects.put_object json checksum name s).1 (with_object name [] v)
unfolding Objects.put_object chunks_with
put_object-Shows P json checksum name s v h e = elim (Bool-cases (contains_key name s.objects)) [
  | inl t ↦ absurd (cc (rw t at e))
  | inr f ↦
      let s' = record s { objects = insert name (new_object name checksum) s.objects } in
      let after =
        Shows-object s.objects s.chunks s.storage_nodes v name (new_object name checksum) [] tt refl
          h.0 in
      rw f (save-Shows P json s' (with_object name [] v) (after, h.1))
]

pub update_object_checksum-Shows :
    (P : Map ℕ MetaStorageNode → Type 0) (json : Json) (name : String) (checksum total_size : ℕ)
    (s : MetadataStore) (v : View)
    → StoreShows P s v
    → (Objects.update_object_checksum json name checksum total_size s).0 ≡ ok tt
    → StoreShows P (Objects.update_object_checksum json name checksum total_size s).1 v
unfolding Objects.update_object_checksum
update_object_checksum-Shows P json name checksum total_size s v h e =
    by_object (lookup name s.objects) refl
  where
    by_object :
        (o : Option MetaObject)
        → lookup name s.objects ≡ o
        → StoreShows P (Objects.update_object_checksum json name checksum total_size s).1 v
    by_object none k = absurd (cc (rw (k, Objects.update_object_checksum) at e))
    by_object (some o) k =
        let o' : MetaObject = record o { checksum = checksum; total_size = total_size } in
        let after = Shows-updates s.objects s.chunks s.storage_nodes v name o o' k refl h.0 in
        rw (k, Objects.update_object_checksum)
          (save-Shows P json (record s { objects = insert name o' s.objects }) v (after, h.1))

pub confirm_chunk-Shows :
    (P : Map ℕ MetaStorageNode → Type 0) (json : Json) (id : ℕ) (name : String)
    (checksum node_id : ℕ) (address : String) (cs : List ChunkMessage) (s : MetadataStore)
    (v : View)
    → StoreShows P s v
    → v.pending ≡ written id address node_id
    → v.listed name ≡ some cs
    → (Chunks.confirm_chunk json id name checksum node_id s).0 ≡ ok tt
    → StoreShows P (Chunks.confirm_chunk json id name checksum node_id s).1 (
        with_pending idle (with_object name (cs ++ one_replica id checksum node_id address ∷ []) v))
unfolding Chunks.confirm_chunk list_chunk
confirm_chunk-Shows P json id name checksum node_id address cs s v h p listed e =
    elim (Bool-cases (contains_key node_id s.storage_nodes)) [
      | inr f ↦ absurd (cc (rw f at e))
      | inl t ↦ elim (Bool-cases (is_confirmed (lookup id s.chunks))) [
        | inl k ↦ absurd (cc (rw (t, k) at e))
        | inr k ↦
            let l = h.0.lists name cs listed in
            let found = l.found in
            let place : Located s.storage_nodes id address node_id =
              subst (Placed s.storage_nodes) p h.0.place in
            let after =
              Shows-confirms s.objects s.chunks s.storage_nodes v id name checksum node_id address
                cs l k place h.0 in
            rw (t, k) (rw found (save-Shows P json _ _ (after, h.1)))
      ]
    ]

generate_unique_id-ok :
    (P : ℕ → Type 0) (draws : List ℕ) (chunks : Map ℕ MetaChunk) (id : ℕ)
    → All P draws
    → generate_unique_id draws chunks ≡ ok id
    → P id × (contains_key id chunks ≡ false)
unfolding generate_unique_id
generate_unique_id-ok P [] chunks id h e = absurd (cc e)
generate_unique_id-ok P (d ∷ draws) chunks id (here, rest) e =
    elim (Bool-cases (contains_key d chunks)) [
      | inl t ↦ generate_unique_id-ok P draws chunks id rest (rw t at e)
      | inr f ↦
          let same : d ≡ id = cc (rw f at e) in
          (subst P same here, subst (λ (i : ℕ). contains_key i chunks ≡ false) same f)
    ]

new-not_confirmed :
    (id : ℕ) (chunks : Map ℕ MetaChunk)
    → contains_key id chunks ≡ false
    → is_confirmed (lookup id chunks) ≡ false
new-not_confirmed id chunks e = by_chunk (lookup id chunks) refl
  where
    by_chunk :
        (c : Option MetaChunk) → lookup id chunks ≡ c → is_confirmed (lookup id chunks) ≡ false
    by_chunk none k = rw k refl
    by_chunk (some c) k = absurd (cc (e, rw k at (contains_key-eq-lookup id chunks)))

-- What is asked of a random choice: ids of 64 bits, and one of the nodes that are known.
pub record IsRandom (rand : Random) (nodes : Map ℕ MetaStorageNode) : Type 0 where
  pub draws_u64 : All (λ i. i < 2 ^ 64) rand.draws
  pub chooses :
      (n : MetaStorageNode) → rand.choose (values nodes) ≡ some n → lookup n.id nodes ≡ some n

choose_storage_node-known :
    (rand : Random) (s : MetadataStore) (n : MetaStorageNode)
    → IsRandom rand s.storage_nodes
    → choose_storage_node rand s ≡ some n
    → lookup n.id s.storage_nodes ≡ some n
unfolding choose_storage_node
choose_storage_node-known rand s n r e = by_nodes s.storage_nodes refl
  where
    by_nodes :
        (nodes : Map ℕ MetaStorageNode)
        → s.storage_nodes ≡ nodes
        → lookup n.id s.storage_nodes ≡ some n
    by_nodes [] k = absurd (cc (rw (k, choose_storage_node) at e))
    by_nodes (m ∷ nodes) k = r.chooses n (rw (k, choose_storage_node) at e)

pub allocate_chunk-Shows :
    (P : Map ℕ MetaStorageNode → Type 0) (rand : Random) (name : String) (id node_id : ℕ)
    (address : String) (s : MetadataStore) (v : View)
    → IsRandom rand s.storage_nodes
    → StoreShows P s v
    → (Chunks.allocate_chunk rand name s).0 ≡ ok (id, node_id, address)
    → StoreShows P (Chunks.allocate_chunk rand name s).1 (with_pending (given id address node_id) v)
unfolding Chunks.allocate_chunk reserve
allocate_chunk-Shows P rand name id node_id address s v r h e =
    by_id (generate_unique_id rand.draws s.chunks) refl
  where
    Goal : Type 0
    Goal =
        StoreShows P (Chunks.allocate_chunk rand name s).1
          (with_pending (given id address node_id) v)

    by_node :
        (i : ℕ)
        → generate_unique_id rand.draws s.chunks ≡ ok i
        → (n : Option MetaStorageNode) → choose_storage_node rand s ≡ n
        → Goal
    by_node i k none l = absurd (cc (rw (k, Chunks.allocate_chunk, reserve, l) at e))
    by_node i k (some n) l =
        let all : (i, n.id, n.address) ≡ (id, node_id, address) =
          cc (rw (k, Chunks.allocate_chunk, reserve, l) at e) in
        let ids : i ≡ id = ap (λ (q : ℕ × ℕ × String). q.0) all in
        let (small, new) =
          generate_unique_id-ok (λ j. j < 2 ^ 64) rand.draws s.chunks i r.draws_u64 k in
        let node_ids : n.id ≡ node_id = ap (λ (q : ℕ × ℕ × String). q.1) all in
        let known = choose_storage_node-known rand s n r l in
        let after =
          Shows-allocates s.objects s.chunks s.storage_nodes v i (new_pending i name)
            (given id address node_id) (new-not_confirmed i s.chunks new)
            (record {
              id_u64 = subst (λ (j : ℕ). j < 2 ^ 64) ids small;
              node = n;
              known = subst (λ (j : ℕ). lookup j s.storage_nodes ≡ some n) node_ids known;
              at = ap (λ (q : ℕ × ℕ × String). q.2) all;
            })
            h.0 in
        rw (k, Chunks.allocate_chunk, reserve) (rw l (after, h.1))

    by_id : (i : Result ℕ) → generate_unique_id rand.draws s.chunks ≡ i → Goal
    by_id (ok i) k = by_node i k (choose_storage_node rand s) refl
    by_id (err c) k = absurd (cc (rw (k, Chunks.allocate_chunk, reserve) at e))
    by_id panicked k = absurd (cc (rw (k, Chunks.allocate_chunk, reserve) at e))
    by_id diverged k = absurd (cc (rw (k, Chunks.allocate_chunk, reserve) at e))
