-- ===== src/ChunkIndex/Names.antt =====
-- The object that the index gives for a chunk.
use Prim.Native.String.{String}
use object_store.Common.{
  ℕ, ◌≡◌, ◌≢◌, refl, ◌∙◌, List, [], ◌∷◌, not, Option, none, some, arith, if◌then◌else◌, ◌==◌,
  Bool-cases, inl, inr, ap,
}
use object_store.Common.Map.{
  Map, nat_eq, lookup, insert, retain, lookup-insert_self, lookup-insert_ne,
}
use object_store.MetadataStore.Types.{MetaChunk}
use object_store.ChunkIndex.{
  ChunkIndex, get, insert_chunks, populate_from_chunks, contains_name, remove_by_objects,
}

-- The keys of a map, each once.
abbrev pub Keyed {ℓ} : {V : Type ℓ} → Map ℕ V → Type ℓ
Keyed [] = Unit
Keyed ((k, v) ∷ m) = (lookup k m ≡ none) × Keyed m

abbrev pub object_of : Option MetaChunk → Option String → Option String
object_of none old = old
object_of (some chunk) old = some chunk.object_name

lookup-insert_chunks :
    (id : ℕ) (chunks : Map ℕ MetaChunk) (m : Map ℕ String)
    → Keyed chunks
    → lookup id (insert_chunks chunks m) ≡ object_of (lookup id chunks) (lookup id m)
unfolding insert_chunks lookup
lookup-insert_chunks id [] m h = refl
lookup-insert_chunks id ((k, c) ∷ chunks) m h = elim (Bool-cases (k == id)) [
  | inl t ↦
      let same : k ≡ id = ground arith in
      let gone : lookup id chunks ≡ none = ground (arith, h.0) in
      rw t (
        lookup-insert_chunks id chunks (insert k c.object_name m) h.1
        ∙ rw gone (rw (← same) (lookup-insert_self k c.object_name m)))
  | inr t ↦
      let apart : k ≢ id = λ e. ground arith in
      rw t (
        lookup-insert_chunks id chunks (insert k c.object_name m) h.1
        ∙ ap (object_of (lookup id chunks)) (lookup-insert_ne k id c.object_name m apart))
]

-- After `populate_from_chunks` of a map where each id occurs once, the index gives for each chunk
-- of the map its object, and for any other id what it gave before.
pub get-populate_from_chunks :
    (id : ℕ) (chunks : Map ℕ MetaChunk) (c : ChunkIndex)
    → Keyed chunks
    → get id (populate_from_chunks chunks c) ≡ object_of (lookup id chunks) (get id c)
unfolding get populate_from_chunks
get-populate_from_chunks id chunks c h = lookup-insert_chunks id chunks c.index h

-- What is left of an entry once the objects are gone.
abbrev pub unless_in : List String → Option String → Option String
unless_in names none = none
unless_in names (some name) = if contains_name names name then none else some name

lookup-retain :
    (names : List String) (id : ℕ) (m : Map ℕ String)
    → Keyed m
    → lookup id (retain (λ _ name. not (contains_name names name)) m)
      ≡ unless_in names (lookup id m)
unfolding lookup retain
lookup-retain names id [] h = refl
lookup-retain names id ((k, name) ∷ m) h = elim (Bool-cases (k == id)) [
  | inl t ↦
      let gone : lookup id m ≡ none = ground (arith, h.0) in
      elim (Bool-cases (contains_name names name)) [
        | inl u ↦ rw (t, u) (lookup-retain names id m h.1 ∙ rw gone refl)
        | inr u ↦ rw (t, u) (rw t refl)
      ]
  | inr t ↦ elim (Bool-cases (contains_name names name)) [
    | inl u ↦ rw (t, u) (lookup-retain names id m h.1)
    | inr u ↦ rw (t, u) (rw t (lookup-retain names id m h.1))
  ]
]

-- After `remove_by_objects` the index, where each id occurs once, has lost exactly the entries of
-- these objects.
pub get-remove_by_objects :
    (names : List String) (id : ℕ) (c : ChunkIndex)
    → Keyed c.index
    → get id (remove_by_objects names c) ≡ unless_in names (get id c)
unfolding get remove_by_objects
get-remove_by_objects names id c h = lookup-retain names id c.index h
