-- ===== src/Gateway/RoundTrip/Read.antt =====
-- What a download makes of chunks whose storage nodes have their data.
use Prim.Native.String.{String}
use object_store.Common.{ℕ, ◌≡◌, refl, ap, ◌∙◌, List, [], ◌∷◌, some}
use object_store.Clients.{Clients, ChunkMessage}
use object_store.Services.{View, IsLawful}
use object_store.Gateway.State.{HttpResult, ok, err, panicked, diverged, AppState, get_or_connect}
use object_store.Gateway.Retry.{retry_accepted}
use object_store.Gateway.Download.{read_from, read_chunk, read_all, join_bytes}
use object_store.Gateway.Download.Streaming.{to_option, append_to, join_bytes-ok}
use object_store.Gateway.Upload.Chunking.{concat}
use object_store.Gateway.RoundTrip.Stored.{
  Readable, ReadableAll, get_or_connect-Is, get_or_connect-held,
}

pub to_option-ok : (r : HttpResult (List ℕ)) (part : List ℕ) → to_option r ≡ some part → r ≡ ok part
to_option-ok (ok p) part e = cc e
to_option-ok (err c) part e = absurd (cc e)
to_option-ok panicked part e = absurd (cc e)
to_option-ok diverged part e = absurd (cc e)

module _ {W : Type 0} (cl : Clients W) (Is : W → View → Type 0) (law : IsLawful cl Is) where
  -- A read gives the data, and leaves the services' view as it is.
  abbrev Gives : List ℕ → View → HttpResult (List ℕ) × AppState W → Type 0
  Gives part v (r, s) = (r ≡ ok part) × Is s.world v

  read_from-Gives :
      (address : String) (id : ℕ) (part : List ℕ) (s : AppState W) (v : View)
      → Is s.world v
      → v.held address id ≡ some part
      → Gives part v (read_from cl address id s)
  unfolding read_from
  read_from-Gives address id part s v h has =
      let connected = get_or_connect-held cl Is law address id part s v h has in
      let t = (get_or_connect cl address s).1 in
      let is = get_or_connect-Is cl Is law address s v h in
      let (gives, kept) = law.reads address id part t.world v is has in
      let once = retry_accepted 2 (cl.storage.read_chunk address id) t.world part gives in
      rw (connected, read_from) (rw once (rw gives (refl, kept)))

  read_chunk-Gives :
      (c : ChunkMessage) (part : List ℕ) (s : AppState W) (v : View)
      → Is s.world v
      → Readable v c part
      → Gives part v (read_chunk cl c.id c.storage_nodes s)
  unfolding read_chunk
  read_chunk-Gives c part s v h r =
      let (gives, kept) = read_from-Gives r.address r.id part s v h r.has in
      let shape = r.shape in rw shape (rw (gives, read_chunk) (refl, kept))

  -- Read one after another, the chunks give the pieces, which are joined to the whole.
  pub read_all-Gives :
      (cs : List ChunkMessage) (ps : List (List ℕ)) (s : AppState W) (v : View)
      → Is s.world v
      → ReadableAll v cs ps
      → to_option (join_bytes (read_all cl cs s).0) ≡ some (concat ps)
  unfolding read_all join_bytes
  read_all-Gives [] [] s v h r = refl
  read_all-Gives [] (p ∷ ps) s v h r = absurd r
  read_all-Gives (c ∷ cs) [] s v h r = absurd r
  read_all-Gives (c ∷ cs) (p ∷ ps) s v h (r, rs) =
      let (gives, kept) = read_chunk-Gives c p s v h r in
      let t = (read_chunk cl c.id c.storage_nodes s).1 in
      rw (gives, read_all)
        (join_bytes-ok p (read_all cl cs t).0 ∙ ap (append_to p) (read_all-Gives cs ps t v kept rs))
