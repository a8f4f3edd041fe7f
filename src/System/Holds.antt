-- ===== src/System/Holds.antt =====
-- What a storage node has of what the view holds at its address.
use Prim.Native.String.{String}
use text.Mathlib.Text.{◌==◌ as str_eq}
use text.Mathlib.TextEquality.{eq_iff}
use object_store.Common.{
  ℕ, ◌≡◌, refl, ap, ◌∙◌, subst, List, Bool, true, false, Option, some, ◌==◌, if◌then◌else◌,
}
use object_store.Common.Map.{string_eq, nat_eq}
use object_store.Services.{View, with_data}
use object_store.ChunkStore.Store.Model.{Chunks, with_chunk}
use object_store.StorageNode.{StorageNodeImpl}
use object_store.System.StorageCalls.{IsSound}
use object_store.System.Calls.{System, at_address}

-- A storage node that has what the view holds at its address.
pub record Holds (crc : List ℕ → ℕ) (n : StorageNodeImpl) (held : ℕ → Option (List ℕ))
    : Type 0 where
  pub chunks : Chunks
  pub sound : IsSound crc n chunks
  pub has : (id : ℕ) (part : List ℕ) → held id ≡ some part → chunks id ≡ some part

module _ (crc : List ℕ → ℕ) where
  -- A storage node that is written to, among the others.
  pub Holds-written :
      (w : System) (v : View) (address : String) (id : ℕ) (part : List ℕ) (n : StorageNodeImpl)
      (m : Chunks)
      → ((other : String) → Holds crc (w.storage other) (v.held other))
      → ((j : ℕ) (p : List ℕ) → v.held address j ≡ some p → m j ≡ some p)
      → IsSound crc n (with_chunk id part m)
      → (a : String)
      → Holds crc ((at_address address n w).storage a) ((with_data address id part v).held a)
  Holds-written w v address id part n m h has sound a = by_place (str_eq address a) refl
    where
      Goal : Type 0
      Goal = Holds crc ((at_address address n w).storage a) ((with_data address id part v).held a)

      at_id :
          address ≡ a
          → (j : ℕ) (p : List ℕ) (b : Bool) → (id == j) ≡ b
          → (if id == j then some part else v.held a j) ≡ some p
          → (if id == j then some part else m j) ≡ some p
      at_id same j p true k e = rw k (rw k at e)
      at_id same j p false k e = rw k (has j p (ap (λ (x : String). v.held x j) same ∙ rw k at e))

      by_place : (b : Bool) → str_eq address a ≡ b → Goal
      by_place true k =
          let same : address ≡ a = (eq_iff address a).0 k in
          rw k (record {
            chunks = with_chunk id part m;
            sound = sound;
            has = λ j p e. at_id same j p (id == j) refl (rw k at e);
          })
      by_place false k =
          let old = h a in
          rw k (record {
            chunks = old.chunks;
            sound = old.sound;
            has = λ j p e. old.has j p (rw k at e);
          })

  -- A storage node that answers a question and has what it had.
  pub Holds-asked :
      (w : System) (v : View) (address : String) (n : StorageNodeImpl)
      → ((other : String) → Holds crc (w.storage other) (v.held other))
      → Holds crc n (v.held address)
      → (a : String) → Holds crc ((at_address address n w).storage a) (v.held a)
  Holds-asked w v address n h held a = by_place (str_eq address a) refl
    where
      by_place :
          (b : Bool)
          → str_eq address a ≡ b
          → Holds crc ((at_address address n w).storage a) (v.held a)
      by_place true k =
          let same : address ≡ a = (eq_iff address a).0 k in
          rw k (subst (λ (x : String). Holds crc n (v.held x)) same held)
      by_place false k = rw k (h a)
