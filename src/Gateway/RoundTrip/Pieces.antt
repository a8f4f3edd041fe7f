-- ===== src/Gateway/RoundTrip/Pieces.antt =====
-- What the steps of an upload make of the services' view.
use Prim.Native.String.{String}
use object_store.Common.{ℕ, ◌≡◌, refl, sym, ap, ◌∙◌, subst, List, [], ◌∷◌, ◌++◌}
use mathlib.Core.List.{append_assoc, append-nil}
use object_store.Clients.{Answer, answered, refused, Clients, StorageNodeMessage}
use object_store.Services.{View, with_object, IsLawful}
use object_store.Gateway.State.{AppState}
use object_store.Gateway.Upload.{chunk_size_of}
use object_store.Gateway.Upload.Chunking.{concat}
use object_store.Gateway.Upload.Rollback.{Stores, StoresAll}
use object_store.Gateway.RoundTrip.OnOk.{OnOk}
use object_store.Gateway.RoundTrip.Stored.{
  ReadableAll-append, ReadableAll-Extends, Extends, Stores-Gains, listed-with_object, listed-other,
}
use object_store.Gateway.RoundTrip.Served.{Serves, Uploaded}

concat-append : (ps qs : List (List ℕ)) → concat (ps ++ qs) ≡ concat ps ++ concat qs
concat-append [] qs = refl
concat-append (p ∷ ps) qs =
    ap (◌++◌ p) (concat-append ps qs) ∙ sym (append_assoc p (concat ps) (concat qs))

Serves-Extends :
    (v v' : View) (name : String) (bytes : List ℕ)
    → Extends v v'
    → v'.listed name ≡ v.listed name
    → Serves v name bytes
    → Serves v' name bytes
Serves-Extends v v' name bytes h e o = record {
  chunks = o.chunks;
  pieces = o.pieces;
  lists = e ∙ o.lists;
  readable = ReadableAll-Extends v v' o.chunks o.pieces h o.readable;
  whole = o.whole;
}

module _ {W : Type 0} (cl : Clients W) (Is : W → View → Type 0) (law : IsLawful cl Is) where
  -- What an upload does before it creates the object changes no view.
  pub chunk_size_of-Is :
      (note : AppState W → AppState W) (nodes : List StorageNodeMessage) (s : AppState W) (v : View)
      → Is s.world v
      → OnOk (λ _ s'. Is s'.world v) (chunk_size_of cl note nodes s)
  unfolding chunk_size_of
  chunk_size_of-Is note [] s v h = tt
  chunk_size_of-Is note (n ∷ ns) s v h = by_connection (cl.connect n.address s.world).0 refl
    where
      by_size :
          (cl.connect n.address s.world).0 ≡ answered tt
          → (a : Answer ℕ)
          → (cl.storage.get_chunk_size n.address (cl.connect n.address s.world).1).0 ≡ a
          → OnOk (λ _ s'. Is s'.world v) (chunk_size_of cl note (n ∷ ns) s)
      by_size c (answered k) e =
          rw (c, chunk_size_of)
            (rw e (
              law.sizes n.address (cl.connect n.address s.world).1 v
                (law.connects n.address s.world v h)))
      by_size c (refused _) e = rw (c, chunk_size_of) (rw e tt)

      by_connection :
          (a : Answer (Unit {0}))
          → (cl.connect n.address s.world).0 ≡ a
          → OnOk (λ _ s'. Is s'.world v) (chunk_size_of cl note (n ∷ ns) s)
      by_connection (answered _) e = by_size e _ refl
      by_connection (refused _) e = rw (e, chunk_size_of) tt

  -- An object that is created has no bytes yet.
  pub creates-Uploaded :
      (checksum : ℕ) (name : String) (w w' : W) (v : View)
      → Is w v
      → cl.metadata.put_object checksum name w ≡ (answered tt, w')
      → Uploaded cl Is law v name [] w'
  creates-Uploaded checksum name w w' v h e = record {
    view = with_object name [] v;
    is = law.creates checksum name w w' v h e;
    serves = record {
      chunks = [];
      pieces = [];
      lists = listed-with_object name [] v;
      readable = tt;
      whole = refl;
    };
    others = λ other bs k o.
        Serves-Extends v (with_object name [] v) other bs (record { keeps = λ a i p has. has })
          (listed-other name other [] v k) o;
  }

  module _ (crc : List ℕ → ℕ) (name : String) (v : View) where
    -- A piece that is stored comes after the bytes that the object has.
    pub Stores-Uploaded :
        (done piece : List ℕ) (s s' : AppState W)
        → Stores cl crc name piece s s'
        → Uploaded cl Is law v name done s.world
        → Uploaded cl Is law v name (done ++ piece) s'.world
    Stores-Uploaded done piece s s' h u =
        let o = u.serves in
        let g = Stores-Gains cl Is law crc name piece s s' u.view o.chunks h u.is o.lists in
        record {
          view = g.view;
          is = g.is;
          serves = record {
            chunks = o.chunks ++ g.chunks;
            pieces = o.pieces ++ piece ∷ [];
            lists = g.lists;
            readable =
                ReadableAll-append g.view o.chunks g.chunks o.pieces (piece ∷ [])
                  (ReadableAll-Extends u.view g.view o.chunks o.pieces g.extends o.readable)
                  g.readable;
            whole =
                concat-append o.pieces (piece ∷ [])
                ∙ ap (λ (bs : List ℕ). bs ++ (piece ++ [])) o.whole
                ∙ ap (◌++◌ done) (append-nil piece);
          };
          others = λ other bs k q.
              Serves-Extends u.view g.view other bs g.extends (g.others other k)
                (u.others other bs k q);
        }

    pub StoresAll-Uploaded :
        (ps : List (List ℕ)) (done : List ℕ) (s s' : AppState W)
        → StoresAll cl crc name ps s s'
        → Uploaded cl Is law v name done s.world
        → Uploaded cl Is law v name (done ++ concat ps) s'.world
    StoresAll-Uploaded [] done s s' h u =
        subst (λ (t : AppState W). Uploaded cl Is law v name (done ++ []) t.world) (sym h)
          (subst (λ (bs : List ℕ). Uploaded cl Is law v name bs s.world) (sym (append-nil done)) u)
    StoresAll-Uploaded (p ∷ ps) done s s' (t, h, rest) u =
        subst (λ (bs : List ℕ). Uploaded cl Is law v name bs s'.world)
          (append_assoc done p (concat ps))
          (StoresAll-Uploaded ps (done ++ p) t s' rest (Stores-Uploaded done p s t h u))
