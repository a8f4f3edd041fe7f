-- ===== src/Gateway/RoundTrip/Served.antt =====
-- What an object's name stands for in the services' view, and its download.
use Prim.Native.String.{String}
use text.Mathlib.Text.{◌==◌ as str_eq}
use object_store.Common.{ℕ, ◌≡◌, refl, List, Bool, true, false, some}
use object_store.Clients.{Clients, ChunkMessage}
use object_store.Services.{View, IsLawful}
use object_store.Gateway.State.{ok, AppState}
use object_store.Gateway.Names.{validate_object_name}
use object_store.Gateway.Download.{read_all, join_bytes, finish_get, read_object, handle_get_object}
use object_store.Gateway.Upload.Chunking.{concat}
use object_store.Gateway.RoundTrip.Stored.{ReadableAll}
use object_store.Gateway.RoundTrip.Read.{to_option-ok, read_all-Gives}

-- An object that is listed with chunks, whose storage nodes have pieces that make up its bytes.
pub record Serves (v : View) (name : String) (bytes : List ℕ) : Type 0 where
  pub chunks : List ChunkMessage
  pub pieces : List (List ℕ)
  pub lists : v.listed name ≡ some chunks
  pub readable : ReadableAll v chunks pieces
  pub whole : concat pieces ≡ bytes

module _ {W : Type 0} (cl : Clients W) (Is : W → View → Type 0) (law : IsLawful cl Is) where
  -- What is left of a view after an upload of some bytes under a name.
  pub record Uploaded (v : View) (name : String) (bytes : List ℕ) (w : W) : Type 0 where
    pub view : View
    pub is : Is w view
    pub serves : Serves view name bytes
    pub others :
        (other : String) (bs : List ℕ)
        → str_eq name other ≡ false
        → Serves v other bs
        → Serves view other bs

  module _ (is_alphanumeric : ℕ → Bool) (encode : List ℕ → String) (name : String)
      (bytes : List ℕ) where
    -- An object that is served is downloaded.
    pub handle_get_object-Serves :
        (s : AppState W) (v : View)
        → validate_object_name is_alphanumeric name ≡ true
        → Is s.world v
        → Serves v name bytes
        → (handle_get_object cl encode is_alphanumeric name s).0 ≡ ok (encode bytes)
    unfolding handle_get_object read_object finish_get
    handle_get_object-Serves s v valid h o =
        let (checksum, gives, kept) = law.gets name o.chunks s.world v h o.lists in
        let t = record s { world = (cl.metadata.get_object name s.world).1 } in
        let read = read_all-Gives cl Is law o.chunks o.pieces t v kept o.readable in
        let joined = to_option-ok (join_bytes (read_all cl o.chunks t).0) (concat o.pieces) read in
        let whole = o.whole in
        rw (valid, handle_get_object)
          (rw gives (rw (joined, read_object, finish_get) (rw whole refl)))
