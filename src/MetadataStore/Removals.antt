-- ===== src/MetadataStore/Removals.antt =====
-- The operations that remove chunks keep the invariant.
use Prim.Native.String.{String}
use object_store.Common.{
  ℕ, ◌≡◌, ◌≢◌, refl, ◌∙◌, List, [], ◌∷◌, some, arith, All, All-mono, ◌==◌, Bool-cases, Option-cases,
  inl, inr, subst,
}
use object_store.Common.Map.{
  Map, nat_eq, string_eq, lookup, remove, lookup-insert, lookup-remove, lookup-remove_ne,
}
use object_store.MetadataStore.Types.{MetaChunk, MetaObject, MetadataStore, Json}
use object_store.MetadataStore.Objects.{remove_chunks, delete_object}
use object_store.MetadataStore.Chunks.{delete_chunk, without}
use object_store.MetadataStore.Listing.{Listed, IsValid, save-IsValid}

-- A chunk other than the one removed stays listed.
Listed-remove :
    (id : ℕ) (m : Map ℕ MetaChunk) (name : String) (j : ℕ)
    → id ≢ j
    → Listed m name j
    → Listed (remove id m) name j
Listed-remove id m name j ne l = record {
  chunk = l.chunk;
  there = lookup-remove_ne id j m ne ∙ l.there;
  named = l.named;
  status = l.status;
}

-- A chunk of another object is another chunk.
other_chunk :
    (m : Map ℕ MetaChunk) (name other : String) (i j : ℕ)
    → name ≢ other
    → (c : MetaChunk) → lookup i m ≡ some c
    → c.object_name ≡ name
    → Listed m other j
    → i ≢ j
other_chunk m name other i j ne c e n l same =
    let here : some c ≡ some l.chunk = cc (e, same, l.there) in ne (ground (arith, n, l.named))

All-without :
    (id : ℕ) (m : Map ℕ MetaChunk) (name : String) (ids : List ℕ)
    → All (Listed m name) ids
    → All (Listed (remove id m) name) (without id ids)
unfolding without
All-without id m name [] h = tt
All-without id m name (j ∷ ids) h = elim (Bool-cases (j == id)) [
  | inl t ↦ rw t (All-without id m name ids h.1)
  | inr t ↦ rw t (Listed-remove id m name j (λ e. ground arith) h.0, All-without id m name ids h.1)
]

-- What is listed of another object survives the removal of a list of chunks.
Listed-remove_chunks :
    (name other : String) (ids : List ℕ) (m : Map ℕ MetaChunk) (j : ℕ)
    → name ≢ other
    → All (λ i. i ≢ j) ids
    → Listed m other j
    → Listed (remove_chunks ids m) other j
unfolding remove_chunks
Listed-remove_chunks name other [] m j ne apart l = l
Listed-remove_chunks name other (i ∷ ids) m j ne apart l =
    Listed-remove_chunks name other ids (remove i m) j ne apart.1
      (Listed-remove i m other j apart.0 l)

module _ (json : Json) where
  pub delete_chunk-IsValid :
      (id : ℕ) (s : MetadataStore) → IsValid s → IsValid (delete_chunk json id s).1
  unfolding delete_chunk
  delete_chunk-IsValid id s v = elim (Option-cases (lookup id s.chunks)) [
    | inl e ↦ rw (e, delete_chunk) v
    | inr (c, e) ↦ elim (Option-cases (lookup c.object_name s.objects)) [
      | inl f ↦
          rw (e, delete_chunk)
            (rw f (record {
              at = λ name o g.
                  All-mono (Listed s.chunks name) _ o.chunks
                    (λ j l.
                      Listed-remove id s.chunks name j
                        (other_chunk s.chunks c.object_name name id j (λ same. cc (same, f, g)) c e
                          refl l)
                        l)
                    (v.at name o g);
            }))
      | inr (object, f) ↦
          rw (e, delete_chunk)
            (rw f (
              save-IsValid json _ (record {
                at = λ name o g. elim (Bool-cases (string_eq.beq c.object_name name)) [
                  | inl t ↦
                      let same : c.object_name ≡ name =
                        (string_eq.beq_iff c.object_name name).0 t in
                      let kept : MetaObject = record object { chunks = without id object.chunks } in
                      let new : kept ≡ o =
                        ground (arith, lookup-insert c.object_name name kept s.objects) in
                      subst (λ k. All (Listed (remove id s.chunks) k) o.chunks) same
                        (subst
                          (λ (x : MetaObject).
                            All (Listed (remove id s.chunks) c.object_name) x.chunks)
                          new
                          (All-without id s.chunks c.object_name object.chunks
                            (v.at c.object_name object f)))
                  | inr t ↦
                      All-mono (Listed s.chunks name) _ o.chunks
                        (λ j l.
                          Listed-remove id s.chunks name j
                            (other_chunk s.chunks c.object_name name id j
                              (λ same. ground (arith, string_eq.beq_iff c.object_name name)) c e
                              refl l)
                            l)
                        (v.at name o (
                          ground (
                            arith,
                            lookup-insert c.object_name name
                                (record object { chunks = without id object.chunks }) s.objects,
                          )))
                ];
              })))
    ]
  ]

  pub delete_object-IsValid :
      (name : String) (s : MetadataStore) → IsValid s → IsValid (delete_object json name s).1
  unfolding delete_object
  delete_object-IsValid name s v = elim (Option-cases (lookup name s.objects)) [
    | inl e ↦ rw (e, delete_object) v
    | inr (object, e) ↦
        rw (e, delete_object)
          (save-IsValid json _ (record {
            at = λ other o g.
                let ne : name ≢ other = λ same.
                  ground
                    (arith, lookup-remove name other s.objects, string_eq.beq_iff name other) in
                let f : lookup other s.objects ≡ some o =
                  ground (arith, lookup-remove name other s.objects) in
                All-mono (Listed s.chunks other) _ o.chunks
                  (λ j l.
                    Listed-remove_chunks name other object.chunks s.chunks j ne
                      (All-mono (Listed s.chunks name) _ object.chunks
                        (λ i k. other_chunk s.chunks name other i j ne k.chunk k.there k.named l)
                        (v.at name object e))
                      l)
                  (v.at other o f);
          }))
  ]
