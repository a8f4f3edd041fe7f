-- ===== src/MetadataStore/Owned.antt =====
-- The objects that migration picks, against the ring.
use Prim.Native.String.{String}
use text.Mathlib.TextEquality.{eq_iff}
use object_store.Common.{
  ℕ, ◌≡◌, refl, List, [], ◌∷◌, Bool, true, ◌&&◌, Option, none, some, arith, All, Bool-cases, inl,
  inr, ltb,
}
use object_store.Common.Map.{Map, values}
use object_store.MetadataStore.Types.{MetaChunk, MetaObject, MetadataStore}
use object_store.MetadataStore.Migration.{chunks_of, select_objects, objects_in_hash_ranges}
use object_store.HashRing.{HashRing, is_of, get_owner, get_owned_ranges, hash_in_ranges, u64_max}
use object_store.HashRing.Order.{IsRing}
use object_store.HashRing.Ranges.{hash_in_ranges-get_owner}

is_of-some :
    (node : String) (o : Option String) (b : Bool) → (is_of node o && b) ≡ true → o ≡ some node
is_of-some node none b h = absurd (ground arith)
is_of-some node (some w) b h = ground (arith, eq_iff w node)

-- An object goes to the node that owns its name, with those of its chunks that are there.
abbrev pub GoesTo :
    (String → ℕ) → String → HashRing → Map ℕ MetaChunk → MetaObject × List MetaChunk → Type 0
GoesTo xxh3 node r chunks p =
    (get_owner xxh3 p.0.name r ≡ some node) × (p.1 ≡ chunks_of p.0.chunks chunks)

select_objects-GoesTo :
    (xxh3 : String → ℕ) (node : String) (r : HashRing) (chunks : Map ℕ MetaChunk)
    (os : List MetaObject)
    → IsRing r.ring
    → All (GoesTo xxh3 node r chunks) (select_objects xxh3 (get_owned_ranges node r) chunks os)
unfolding select_objects
select_objects-GoesTo xxh3 node r chunks [] ok_ring = tt
select_objects-GoesTo xxh3 node r chunks (o ∷ os) ok_ring =
    let rest = select_objects-GoesTo xxh3 node r chunks os ok_ring in
    elim (Bool-cases (hash_in_ranges (xxh3 o.name) (get_owned_ranges node r))) [
      | inl t ↦
          let both : (is_of node (get_owner xxh3 o.name r) && ltb (xxh3 o.name) u64_max) ≡ true =
            cc (t, hash_in_ranges-get_owner xxh3 o.name node r ok_ring) in
          rw t (
            (is_of-some node (get_owner xxh3 o.name r) (ltb (xxh3 o.name) u64_max) both, refl),
            rest,
          )
      | inr t ↦ rw t rest
    ]

-- For a ring in order, `objects_in_hash_ranges` of the ranges that `get_owned_ranges` gives for a
-- node picks only objects whose names `get_owner` gives to that node, each with those of its
-- chunks that are there.
pub objects_in_hash_ranges-GoesTo :
    (xxh3 : String → ℕ) (node : String) (r : HashRing) (s : MetadataStore)
    → IsRing r.ring
    → All (GoesTo xxh3 node r s.chunks) (objects_in_hash_ranges xxh3 (get_owned_ranges node r) s)
unfolding objects_in_hash_ranges
objects_in_hash_ranges-GoesTo xxh3 node r s ok_ring =
    select_objects-GoesTo xxh3 node r s.chunks (values s.objects) ok_ring
