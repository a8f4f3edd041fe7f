-- ===== src/MetadataStore/Listing.antt =====
-- The invariant of `MetadataStore`: every chunk that an object lists is there.
use Prim.Native.String.{String}
use object_store.Common.{
  ℕ, ◌≡◌, ◌≢◌, refl, ◌∙◌, List, [], ◌∷◌, false, Option, none, some, arith, All, All-mono,
  All-append, ◌==◌, Bool-cases, inl, inr, subst,
}
use object_store.Common.Map.{
  Map, nat_eq, string_eq, lookup, insert, contains_key, lookup-insert, lookup-insert_ne,
}
use object_store.Common.Io.{ok}
use object_store.MetadataStore.Types.{
  MetaChunk, MetaObject, confirmed, add_chunk, MetadataStore, Json, save, generate_unique_id,
}
use object_store.MetadataStore.Chunks.{is_confirmed}

-- The chunk is there, is confirmed and names the object.
pub record Listed (chunks : Map ℕ MetaChunk) (name : String) (id : ℕ) : Type 0 where
  pub chunk : MetaChunk
  pub there : lookup id chunks ≡ some chunk
  pub named : chunk.object_name ≡ name
  pub status : chunk.status ≡ confirmed

pub record NoDangling (objects : Map String MetaObject) (chunks : Map ℕ MetaChunk) : Type 0 where
  pub at :
      (name : String) (object : MetaObject)
      → lookup name objects ≡ some object
      → All (Listed chunks name) object.chunks

abbrev pub IsValid : MetadataStore → Type 0
IsValid s = NoDangling s.objects s.chunks

pub save-IsValid : (json : Json) (s : MetadataStore) → IsValid s → IsValid (save json s).1
unfolding save
save-IsValid json s v = by_failure (s.failures s.saves) refl
  where
    by_failure : (o : Option _) → s.failures s.saves ≡ o → IsValid (save json s).1
    by_failure none e = rw (e, save) v
    by_failure (some _) e = rw (e, save) v

pub generate_unique_id-fresh {ℓ} :
    {V : Type ℓ} (draws : List ℕ) (m : Map ℕ V) (id : ℕ)
    → generate_unique_id draws m ≡ ok id
    → contains_key id m ≡ false
unfolding generate_unique_id
generate_unique_id-fresh [] m id e = absurd (cc e)
generate_unique_id-fresh (x ∷ draws) m id e = ground (arith, generate_unique_id-fresh draws m id)

-- A chunk that is not confirmed may be replaced.
pub Listed-insert :
    (id : ℕ) (c : MetaChunk) (chunks : Map ℕ MetaChunk)
    → is_confirmed (lookup id chunks) ≡ false
    → (name : String) (j : ℕ) → Listed chunks name j
    → Listed (insert id c chunks) name j
Listed-insert id c chunks free name j l = record {
  chunk = l.chunk;
  there = lookup-insert_ne id j c chunks apart ∙ l.there;
  named = l.named;
  status = l.status;
}
  where
    apart : id ≢ j
    apart e =
        let here : lookup id chunks ≡ some l.chunk = cc (e, l.there) in
        let f : is_confirmed (some l.chunk) ≡ false =
          subst (λ (o : Option MetaChunk). is_confirmed o ≡ false) here free in
        ground (arith, l.status)

-- So may one that keeps its object and its status.
pub Listed-replace :
    (id : ℕ) (c d : MetaChunk) (chunks : Map ℕ MetaChunk)
    → lookup id chunks ≡ some c
    → d.object_name ≡ c.object_name
    → d.status ≡ c.status
    → (name : String) (j : ℕ) → Listed chunks name j
    → Listed (insert id d chunks) name j
Listed-replace id c d chunks here e f name j l = elim (Bool-cases (id == j)) [
  | inl t ↦
      let same : id ≡ j = ground arith in
      let old : l.chunk ≡ c = ground (arith, l.there) in
      record {
        chunk = d;
        there = ground (arith, lookup-insert id j d chunks);
        named = cc (e, old, l.named);
        status = cc (f, old, l.status);
      }
  | inr t ↦ record {
    chunk = l.chunk;
    there = ground (arith, lookup-insert id j d chunks, l.there);
    named = l.named;
    status = l.status;
  }
]

-- The chunks change and what was listed stays so.
pub NoDangling-chunks :
    (objects : Map String MetaObject) (m n : Map ℕ MetaChunk)
    → ((name : String) (j : ℕ) → Listed m name j → Listed n name j)
    → NoDangling objects m
    → NoDangling objects n
NoDangling-chunks objects m n f v = record {
  at = λ name o e. All-mono (Listed m name) (Listed n name) o.chunks (f name) (v.at name o e);
}

-- An object is put, or replaced, by one whose chunks are there.
pub NoDangling-insert :
    (name : String) (object : MetaObject) (objects : Map String MetaObject) (m : Map ℕ MetaChunk)
    → All (Listed m name) object.chunks
    → NoDangling objects m
    → NoDangling (insert name object objects) m
NoDangling-insert name object objects m h v = record {
  at = λ j o e. elim (Bool-cases (string_eq.beq name j)) [
    | inl t ↦
        let same : name ≡ j = (string_eq.beq_iff name j).0 t in
        let old : object ≡ o = ground (arith, lookup-insert name j object objects) in
        subst (λ k. All (Listed m k) o.chunks) same
          (subst (λ (x : MetaObject). All (Listed m name) x.chunks) old h)
    | inr t ↦ v.at j o (ground (arith, lookup-insert name j object objects))
  ];
}

pub NoDangling-append :
    (name : String) (object : MetaObject) (id : ℕ) (objects : Map String MetaObject)
    (m : Map ℕ MetaChunk)
    → lookup name objects ≡ some object
    → Listed m name id
    → NoDangling objects m
    → NoDangling (insert name (add_chunk object id) objects) m
NoDangling-append name object id objects m e l v =
    NoDangling-insert name (add_chunk object id) objects m
      (All-append (Listed m name) object.chunks (id ∷ []) (v.at name object e) (l, tt)) v
