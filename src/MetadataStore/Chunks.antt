-- ===== src/MetadataStore/Chunks.antt =====
-- The operations of `MetadataStore` on chunks.
use Prim.Native.String.{String}
use object_store.Common.{
  ℕ, List, [], ◌∷◌, Bool, true, false, Option, none, some, if◌then◌else◌, ltb, leb, length, ◌==◌,
  ◌&&◌,
}
use object_store.Common.Map.{nat_eq, string_eq, lookup, insert, remove, contains_key, values}
use object_store.Common.Io.{
  Op, Result, ok, err, panicked, diverged, already_exists, not_found, invalid_input,
  host_unreachable, pure, ◌>>◌,
}
use object_store.MetadataStore.Types.{
  MetaStorageNode, MetaChunk, MetaObject, pending, confirmed, new_chunk, new_pending,
  add_storage_node, add_chunk, MetadataStore, Json, Random, save, generate_unique_id,
}

unfoldable pub choose_storage_node : Random → MetadataStore → Option MetaStorageNode
choose_storage_node rand s = elim s.storage_nodes [
  | [] ↦ none
  | _ ∷ _ ↦ rand.choose (values s.storage_nodes)
]

unfoldable pub get_chunk : ℕ → MetadataStore → Result (String × MetaChunk)
get_chunk id s = elim (lookup id s.chunks) [ none ↦ err not_found | some c ↦ ok (c.object_name, c) ]

-- A fresh id and a storage node, as `put_chunk` and `allocate_chunk` begin.
unfoldable pub reserve : Random → MetadataStore → Result (ℕ × MetaStorageNode)
reserve rand s = elim (generate_unique_id rand.draws s.chunks) [
  | ok id ↦ elim (choose_storage_node rand s) [
    | none ↦ err host_unreachable
    | some node ↦ ok (id, node)
  ]
  | err e ↦ err e
  | panicked ↦ panicked
  | diverged ↦ diverged
]

unfoldable pub allocate_chunk : Random → String → Op MetadataStore (ℕ × ℕ × String)
allocate_chunk rand name s = elim (reserve rand s) [
  | ok (id, node) ↦ (
    ok (id, node.id, node.address),
    record s { chunks = insert id (new_pending id name) s.chunks },
  )
  | err e ↦ (err e, s)
  | panicked ↦ (panicked, s)
  | diverged ↦ (diverged, s)
]

abbrev pub is_confirmed : Option MetaChunk → Bool
is_confirmed none = false
is_confirmed (some c) = elim c.status [ pending ↦ false | confirmed ↦ true ]

unfoldable pub contains : List ℕ → ℕ → Bool
contains [] a = false
contains (x ∷ xs) a = if x == a then true else contains xs a

-- `retain(|c| *c != chunk_id)`
unfoldable pub without : ℕ → List ℕ → List ℕ
without id [] = []
without id (x ∷ xs) = if x == id then without id xs else x ∷ without id xs

abbrev pub max_replicas : ℕ
max_replicas = 3

module _ (json : Json) where
  -- `object.add_chunk(chunk_id); self.save()` on an object that is there.
  unfoldable pub list_chunk : String → MetaObject → ℕ → Op MetadataStore (Unit {0})
  list_chunk name object id s =
      save json (record s { objects = insert name (add_chunk object id) s.objects })

  unfoldable pub put_chunk : Random → String → ℕ → Op MetadataStore (ℕ × String)
  unfolding list_chunk
  put_chunk rand name checksum s = elim (reserve rand s) [
    | ok (id, node) ↦
        let chunk = add_storage_node (new_chunk id checksum name) node.id in
        let s' = record s { chunks = insert id chunk s.chunks } in
        elim (lookup name s.objects) [
          | none ↦ (err not_found, s')
          | some object ↦ (list_chunk name object id >> pure (id, node.address)) s'
        ]
    | err e ↦ (err e, s)
    | panicked ↦ (panicked, s)
    | diverged ↦ (diverged, s)
  ]

  unfoldable pub confirm_chunk : ℕ → String → ℕ → ℕ → Op MetadataStore (Unit {0})
  unfolding list_chunk
  confirm_chunk id name checksum node_id s =
      if contains_key node_id s.storage_nodes
      then (if is_confirmed (lookup id s.chunks)
          then (err already_exists, s)
          else elim (lookup name s.objects) [
            | none ↦ (err not_found, s)
            | some object ↦
                let chunk = add_storage_node (new_chunk id checksum name) node_id in
                list_chunk name object id (record s { chunks = insert id chunk s.chunks })
          ])
      else (err not_found, s)

  unfoldable pub delete_chunk : ℕ → Op MetadataStore (Unit {0})
  delete_chunk id s = elim (lookup id s.chunks) [
    | none ↦ (err not_found, s)
    | some chunk ↦
        let s' = record s { chunks = remove id s.chunks } in
        elim (lookup chunk.object_name s.objects) [
          | none ↦ (err not_found, s')
          | some object ↦
              let kept = record object { chunks = without id object.chunks } in
              save json (record s' { objects = insert chunk.object_name kept s.objects })
        ]
  ]

  unfoldable pub add_chunk_replica : ℕ → ℕ → Op MetadataStore (Unit {0})
  add_chunk_replica id node_id s =
      if contains_key node_id s.storage_nodes
      then elim (lookup id s.chunks) [
        | none ↦ (err not_found, s)
        | some chunk ↦
            if contains chunk.storage_nodes node_id
            then (err already_exists, s)
            else if leb max_replicas (length chunk.storage_nodes)
            then (err invalid_input, s)
            else save json
                (record s { chunks = insert id (add_storage_node chunk node_id) s.chunks })
      ]
      else (err not_found, s)

-- The chunks of the given status and fewer replicas, and a stable sort by their number.
is_under : ℕ → MetaChunk → Bool
is_under max c = is_confirmed (some c) && ltb (length c.storage_nodes) max

insert_by_replicas : MetaChunk → List MetaChunk → List MetaChunk
insert_by_replicas c [] = c ∷ []
insert_by_replicas c (d ∷ ds) =
    if leb (length c.storage_nodes) (length d.storage_nodes)
    then c ∷ d ∷ ds
    else d ∷ insert_by_replicas c ds

select_under : ℕ → List MetaChunk → List MetaChunk
unfolding is_under
select_under max [] = []
select_under max (c ∷ cs) = if is_under max c then c ∷ select_under max cs else select_under max cs

sort_by_replicas : List MetaChunk → List MetaChunk
unfolding insert_by_replicas
sort_by_replicas [] = []
sort_by_replicas (c ∷ cs) = insert_by_replicas c (sort_by_replicas cs)

unfoldable pub list_under_replicated_chunks : ℕ → MetadataStore → List MetaChunk
unfolding select_under sort_by_replicas
list_under_replicated_chunks max s = sort_by_replicas (select_under max (values s.chunks))
