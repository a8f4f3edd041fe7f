-- ===== src/Gateway/RoundTrip/Stored.antt =====
-- What the pieces of an upload leave in the services' view.
use Prim.Native.String.{String}
use text.Mathlib.Text.{◌==◌ as str_eq}
use text.Mathlib.TextEquality.{eq_iff}
use object_store.Common.{
  ℕ, ◌≡◌, refl, sym, subst, List, [], ◌∷◌, ◌++◌, Bool, true, false, none, some, ◌==◌, ==_iff,
  if◌then◌else◌, Bool-cases, inl, inr,
}
use object_store.Common.Map.{beq_refl, nat_eq, string_eq}
use object_store.Clients.{Answer, answered, refused, Clients, ChunkMessage}
use object_store.Services.{
  idle, given, written, with_pending, View, with_object, with_data, one_replica, IsLawful,
}
use object_store.Gateway.State.{HttpResult, ok, AppState, is_cached, get_or_connect}
use object_store.Gateway.Upload.Rollback.{Stores}

-- A chunk with one replica, whose storage node has the piece.
pub record Readable (v : View) (c : ChunkMessage) (piece : List ℕ) : Type 0 where
  pub id : ℕ
  pub checksum : ℕ
  pub node_id : ℕ
  pub address : String
  pub shape : c ≡ one_replica id checksum node_id address
  pub has : v.held address id ≡ some piece

abbrev pub ReadableAll : View → List ChunkMessage → List (List ℕ) → Type 0
ReadableAll v [] [] = Unit
ReadableAll v [] (p ∷ ps) = ⊥
ReadableAll v (c ∷ cs) [] = ⊥
ReadableAll v (c ∷ cs) (p ∷ ps) = Readable v c p × ReadableAll v cs ps

-- What is held stays.
pub record Extends (v v' : View) : Type 0 where
  pub keeps :
      (address : String) (id : ℕ) (part : List ℕ)
      → v.held address id ≡ some part
      → v'.held address id ≡ some part

trans-Extends : (u v w : View) → Extends u v → Extends v w → Extends u w
trans-Extends u v w h k = record { keeps = λ a i p e. k.keeps a i p (h.keeps a i p e) }

Readable-Extends :
    (v v' : View) (c : ChunkMessage) (piece : List ℕ)
    → Extends v v'
    → Readable v c piece
    → Readable v' c piece
Readable-Extends v v' c piece h r = record {
  id = r.id;
  checksum = r.checksum;
  node_id = r.node_id;
  address = r.address;
  shape = r.shape;
  has = h.keeps r.address r.id piece r.has;
}

pub ReadableAll-Extends :
    (v v' : View) (cs : List ChunkMessage) (ps : List (List ℕ))
    → Extends v v'
    → ReadableAll v cs ps
    → ReadableAll v' cs ps
ReadableAll-Extends v v' [] [] h r = tt
ReadableAll-Extends v v' [] (p ∷ ps) h r = r
ReadableAll-Extends v v' (c ∷ cs) [] h r = r
ReadableAll-Extends v v' (c ∷ cs) (p ∷ ps) h (r, rs) =
    (Readable-Extends v v' c p h r, ReadableAll-Extends v v' cs ps h rs)

pub ReadableAll-append :
    (v : View) (cs ds : List ChunkMessage) (ps qs : List (List ℕ))
    → ReadableAll v cs ps
    → ReadableAll v ds qs
    → ReadableAll v (cs ++ ds) (ps ++ qs)
ReadableAll-append v [] ds [] qs r rs = rs
ReadableAll-append v [] ds (p ∷ ps) qs r rs = absurd r
ReadableAll-append v (c ∷ cs) ds [] qs r rs = absurd r
ReadableAll-append v (c ∷ cs) ds (p ∷ ps) qs (r, r') rs =
    (r, ReadableAll-append v cs ds ps qs r' rs)

-- Data under a new id takes nothing away.
with_data-Extends :
    (address : String) (id : ℕ) (part : List ℕ) (v : View)
    → v.held address id ≡ none
    → Extends v (with_data address id part v)
with_data-Extends address id part v new = record {
  keeps = λ a i p e. by_place a i p e (str_eq address a) refl (id == i) refl;
}
  where
    by_place :
        (a : String) (i : ℕ) (p : List ℕ)
        → v.held a i ≡ some p
        → (b : Bool) → str_eq address a ≡ b
        → (d : Bool) → (id == i) ≡ d
        → (if str_eq address a then (if id == i then some part else v.held a i) else v.held a i)
          ≡ some p
    by_place a i p e false h d k = rw h e
    by_place a i p e true h false k = rw (h, k) e
    by_place a i p e true h true k =
        let same : address ≡ a = (eq_iff address a).0 h in
        let same_id : id ≡ i = (==_iff id i).0 k in absurd (cc (e, new, same, same_id))

held-with_data :
    (address : String) (id : ℕ) (part : List ℕ) (v : View)
    → (with_data address id part v).held address id ≡ some part
held-with_data address id part v =
    let same : str_eq address address ≡ true = beq_refl address in
    let same_id : (id == id) ≡ true = beq_refl id in rw (same, same_id) refl

pub listed-with_object :
    (name : String) (cs : List ChunkMessage) (v : View)
    → (with_object name cs v).listed name ≡ some cs
listed-with_object name cs v = let same : str_eq name name ≡ true = beq_refl name in rw same refl

pub listed-other :
    (name other : String) (cs : List ChunkMessage) (v : View)
    → str_eq name other ≡ false
    → (with_object name cs v).listed other ≡ v.listed other
listed-other name other cs v h = rw h refl

module _ {W : Type 0} (cl : Clients W) (Is : W → View → Type 0) (law : IsLawful cl Is) where
  pub get_or_connect-Is :
      (address : String) (s : AppState W) (v : View)
      → Is s.world v
      → Is (get_or_connect cl address s).1.world v
  unfolding get_or_connect
  get_or_connect-Is address s v h = by_cache (is_cached address s.storage_connections) refl
    where
      by_answer :
          is_cached address s.storage_connections ≡ false
          → (a : Answer (Unit {0})) → (cl.connect address s.world).0 ≡ a
          → Is (get_or_connect cl address s).1.world v
      by_answer f (answered _) e = rw (f, get_or_connect) (rw e (law.connects address s.world v h))
      by_answer f (refused _) e = rw (f, get_or_connect) (rw e (law.connects address s.world v h))

      by_cache :
          (b : Bool)
          → is_cached address s.storage_connections ≡ b
          → Is (get_or_connect cl address s).1.world v
      by_cache true f = rw (f, get_or_connect) h
      by_cache false f = by_answer f (cl.connect address s.world).0 refl

  pub get_or_connect-held :
      (address : String) (id : ℕ) (piece : List ℕ) (s : AppState W) (v : View)
      → Is s.world v
      → v.held address id ≡ some piece
      → (get_or_connect cl address s).0 ≡ ok tt
  unfolding get_or_connect
  get_or_connect-held address id piece s v h has =
      elim (Bool-cases (is_cached address s.storage_connections)) [
        | inl f ↦ rw (f, get_or_connect) refl
        | inr f ↦ rw (f, get_or_connect) (rw (law.reaches address id piece s.world v h has) refl)
      ]

  module _ (crc : List ℕ → ℕ) (name : String) where
    -- A view in which the object lists more chunks, that hold the pieces.
    pub record Gains (v : View) (cs : List ChunkMessage) (ps : List (List ℕ)) (w : W) : Type 0 where
      pub view : View
      pub chunks : List ChunkMessage
      pub is : Is w view
      pub lists : view.listed name ≡ some (cs ++ chunks)
      pub readable : ReadableAll view chunks ps
      pub extends : Extends v view
      pub others : (other : String) → str_eq name other ≡ false → view.listed other ≡ v.listed other

    -- One piece that is stored comes last in its object, and what is held stays.
    pub Stores-Gains :
        (piece : List ℕ) (s s' : AppState W) (v : View) (cs : List ChunkMessage)
        → Stores cl crc name piece s s'
        → Is s.world v
        → v.listed name ≡ some cs
        → Gains v cs (piece ∷ []) s'.world
    Stores-Gains piece s s' v cs h is lists =
        let alloc = h.alloc in
        let address = alloc.storage_node_address in
        let placed = with_pending (given alloc.chunk_id address alloc.storage_node_id) v in
        let is_allocated =
          law.allocates name (crc piece) alloc s.world h.allocated v is h.allocates in
        let is_connected : Is h.connected.world placed =
          subst (λ (q : HttpResult (Unit {0}) × AppState W). Is q.1.world placed) h.connects
            (get_or_connect-Is address (record s { world = h.allocated }) placed is_allocated) in
        let (new, is_written) =
          law.writes address alloc.chunk_id alloc.storage_node_id piece h.connected.world h.written
            placed is_connected refl h.writes in
        let stored =
          with_pending (written alloc.chunk_id address alloc.storage_node_id)
            (with_data address alloc.chunk_id piece placed) in
        let is_confirmed =
          law.confirms alloc.chunk_id name (crc piece) alloc.storage_node_id address cs h.written
            h.confirmed stored is_written refl lists h.confirms in
        let chunk = one_replica alloc.chunk_id (crc piece) alloc.storage_node_id address in
        let after = with_pending idle (with_object name (cs ++ chunk ∷ []) stored) in
        record {
          view = after;
          chunks = chunk ∷ [];
          is = subst (λ (t : AppState W). Is t.world after) (sym h.after) is_confirmed;
          lists = listed-with_object name (cs ++ chunk ∷ []) stored;
          readable = (
            record {
              id = alloc.chunk_id;
              checksum = crc piece;
              node_id = alloc.storage_node_id;
              address = address;
              shape = refl;
              has = held-with_data address alloc.chunk_id piece v;
            },
            tt,
          );
          extends = record { keeps = (with_data-Extends address alloc.chunk_id piece v new).keeps };
          others = λ other e. listed-other name other (cs ++ chunk ∷ []) stored e;
        }
