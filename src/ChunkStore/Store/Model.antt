-- ===== src/ChunkStore/Store/Model.antt =====
-- The invariant of `ChunkStore` and its abstract view, a partial map from chunk ids to data.
use object_store.Common.{
  ℕ, ◌+◌, ◌*◌, ◌^◌, ◌≤◌, ◌<◌, ◌≡◌, ◌≢◌, refl, ◌∙◌, inl, inr, List, ◌∷◌, Option, none, some, arith,
  length, All, All-mono, suc, Distinct, if◌then◌else◌, ◌==◌, Bool-cases, ap, subst, dec_lt,
}
use object_store.Common.Map.{Map, nat_eq, lookup, insert, remove, lookup-insert, lookup-remove}
use object_store.ChunkStore.Bytes.{slice-eq, Outside}
use object_store.ChunkStore.Header.{
  ChunkHeader, slot_size, chunk_header_size, slot_data_size, new_header,
}
use object_store.ChunkStore.File.{File}
use object_store.ChunkStore.Slots.{slot_offset, data_offset}
use object_store.ChunkStore.Slots.Write.{HoldsChunk, Within}
use object_store.ChunkStore.Store.{ChunkStore}

-- No slot has two chunks, or is free while it has one, or is twice on the stack; and every slot
-- that is named lies in the file.
pub record SlotsValid (index : Map ℕ ℕ) (free : List ℕ) (total : ℕ) : Type 0 where
  pub injective : (i j slot : ℕ) → lookup i index ≡ some slot → lookup j index ≡ some slot → i ≡ j
  pub used_not_free : (i slot : ℕ) → lookup i index ≡ some slot → All (λ y. slot ≢ y) free
  pub free_distinct : Distinct free
  pub used_below : (i slot : ℕ) → lookup i index ≡ some slot → slot < total
  pub free_below : All (λ y. y < total) free

pub record IsValid (s : ChunkStore) : Type 0 where
  pub slots : SlotsValid s.index s.free_slots s.total_slots
  pub size : s.file.size ≡ slot_size * s.total_slots

-- The abstract view.
abbrev pub Chunks : Type 0
Chunks = ℕ → Option (List ℕ)

abbrev pub with_chunk : ℕ → List ℕ → Chunks → Chunks
with_chunk id bytes m j = if id == j then some bytes else m j

abbrev pub without_chunk : ℕ → Chunks → Chunks
without_chunk id m j = if id == j then none else m j

module _ (crc : List ℕ → ℕ) where
  -- The slot holds the chunk with the header that `put_chunk` gives it.
  pub record HoldsData (f : File) (slot id : ℕ) (bytes : List ℕ) : Type 0 where
    pub holds : HoldsChunk f slot (new_header id (crc bytes) (length bytes)) bytes
    pub fits : length bytes ≤ slot_data_size
    pub id_u64 : id < 2 ^ 64

  -- The index and the file agree with the abstract view at one id.
  abbrev pub Stored : File → ℕ → Option ℕ → Option (List ℕ) → Type 0
  Stored f id none none = Unit
  Stored f id none (some bytes) = ⊥
  Stored f id (some slot) none = ⊥
  Stored f id (some slot) (some bytes) = HoldsData f slot id bytes

  pub record Represents (f : File) (index : Map ℕ ℕ) (m : Chunks) : Type 0 where
    pub at : (id : ℕ) → Stored f id (lookup id index) (m id)

-- Only the bytes of the file count.
pub HoldsData-bytes :
    (crc : List ℕ → ℕ) (f g : File) (slot id : ℕ) (bytes : List ℕ)
    → g.bytes ≡ f.bytes
    → HoldsData crc f slot id bytes
    → HoldsData crc g slot id bytes
HoldsData-bytes crc f g slot id bytes e h = record {
  holds = record { header_at = rw e h.holds.header_at; data_at = rw e h.holds.data_at };
  fits = h.fits;
  id_u64 = h.id_u64;
}

HoldsChunk-Within :
    (slot other : ℕ) (h : ChunkHeader) (bytes : List ℕ) (f f' : File)
    → Within slot f f'
    → slot ≢ other
    → length bytes ≤ slot_data_size
    → HoldsChunk f other h bytes
    → HoldsChunk f' other h bytes
HoldsChunk-Within slot other h bytes f f' w ne fits holds = record {
  header_at =
      slice-eq f'.bytes f.bytes (slot_offset other) chunk_header_size
        (λ i lo hi. w.outside i (apart i (omega arith) (omega arith)))
      ∙ holds.header_at;
  data_at =
      slice-eq f'.bytes f.bytes (data_offset other) (length bytes)
        (λ i lo hi. w.outside i (apart i (omega arith) (omega arith)))
      ∙ holds.data_at;
}
  where
    apart :
        (i : ℕ)
        → slot_offset other ≤ i
        → i < slot_offset other + slot_size
        → Outside (slot_offset slot) slot_size i
    apart i lo hi = elim (dec_lt slot other) [
      | yes p ↦ inr (omega arith)
      | no p ↦ inl (omega arith)
    ]

-- The slot on top of the stack goes to a new chunk.
pub SlotsValid-insert :
    (id slot total : ℕ) (index : Map ℕ ℕ) (rest : List ℕ)
    → SlotsValid index (slot ∷ rest) total
    → SlotsValid (insert id slot index) rest total
SlotsValid-insert id slot total index rest v = record {
  injective = λ i j n p q. ground (
    arith,
    lookup-insert id i slot index,
    lookup-insert id j slot index,
    v.injective i j n,
    v.used_not_free i n,
    v.used_not_free j n,
  );
  used_not_free = λ i n p. elim (Bool-cases (id == i)) [
    | inl t ↦
        let same : slot ≡ n = ground (arith, lookup-insert id i slot index) in
        subst (λ k. All (λ y. k ≢ y) rest) same v.free_distinct.0
    | inr t ↦ (v.used_not_free i n (ground (arith, lookup-insert id i slot index))).1
  ];
  free_distinct = v.free_distinct.1;
  used_below = λ i n p. ground (arith, lookup-insert id i slot index, v.used_below i n);
  free_below = v.free_below.1;
}

-- A chunk leaves the index, and its slot is on no stack yet.
pub SlotsValid-remove :
    (id total : ℕ) (index : Map ℕ ℕ) (free : List ℕ)
    → SlotsValid index free total
    → SlotsValid (remove id index) free total
SlotsValid-remove id total index free v = record {
  injective = λ i j n p q.
      ground (arith, lookup-remove id i index, lookup-remove id j index, v.injective i j n);
  used_not_free = λ i n p. v.used_not_free i n (kept i n p);
  free_distinct = v.free_distinct;
  used_below = λ i n p. v.used_below i n (kept i n p);
  free_below = v.free_below;
}
  where
    kept : (i n : ℕ) → lookup i (remove id index) ≡ some n → lookup i index ≡ some n
    kept i n p = ground (arith, lookup-remove id i index)

pub SlotsValid-push :
    (slot total : ℕ) (index : Map ℕ ℕ) (free : List ℕ)
    → ((i : ℕ) → lookup i index ≢ some slot)
    → All (λ y. slot ≢ y) free
    → slot < total
    → SlotsValid index free total
    → SlotsValid index (slot ∷ free) total
SlotsValid-push slot total index free unused apart below v = record {
  injective = v.injective;
  used_not_free = λ i n p. ((λ e. unused i (p ∙ ap some e)), v.used_not_free i n p);
  free_distinct = (apart, v.free_distinct);
  used_below = v.used_below;
  free_below = (below, v.free_below);
}

-- The next slot joins the stack.
pub SlotsValid-next :
    (i : ℕ) (index : Map ℕ ℕ) (free : List ℕ)
    → SlotsValid index free i
    → SlotsValid index (i ∷ free) (suc i)
SlotsValid-next i index free v =
    SlotsValid-push i (suc i) index free (λ j e. absurd (omega (arith, v.used_below j i e)))
      (All-mono (λ y. y < i) (λ y. i ≢ y) free (λ y below. omega arith) v.free_below) (omega arith)
      (record {
        injective = v.injective;
        used_not_free = v.used_not_free;
        free_distinct = v.free_distinct;
        used_below = λ j n e. omega (arith, v.used_below j n e);
        free_below =
            All-mono (λ y. y < i) (λ y. y < suc i) free (λ y below. omega arith) v.free_below;
      })

-- What happens in one slot leaves the chunks of the others.
pub Stored-Within :
    (crc : List ℕ → ℕ) (slot : ℕ) (f f' : File) (id : ℕ) (o : Option ℕ) (v : Option (List ℕ))
    → Within slot f f'
    → ((other : ℕ) → o ≡ some other → slot ≢ other)
    → Stored crc f id o v
    → Stored crc f' id o v
Stored-Within crc slot f f' id none none w ne h = tt
Stored-Within crc slot f f' id none (some bytes) w ne h = h
Stored-Within crc slot f f' id (some other) none w ne h = h
Stored-Within crc slot f f' id (some other) (some bytes) w ne h = record {
  holds = HoldsChunk-Within slot other _ bytes f f' w (ne other refl) h.fits h.holds;
  fits = h.fits;
  id_u64 = h.id_u64;
}

-- A slot that no chunk has may be written.
pub Represents-Within :
    (crc : List ℕ → ℕ) (slot : ℕ) (f f' : File) (index : Map ℕ ℕ) (m : Chunks)
    → Within slot f f'
    → ((id other : ℕ) → lookup id index ≡ some other → slot ≢ other)
    → Represents crc f index m
    → Represents crc f' index m
Represents-Within crc slot f f' index m w ne r = record {
  at = λ id. Stored-Within crc slot f f' id (lookup id index) (m id) w (ne id) (r.at id);
}
