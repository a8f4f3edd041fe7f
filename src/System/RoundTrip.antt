-- ===== src/System/RoundTrip.antt =====
-- An upload and a download through the whole system.
use Prim.Native.String.{String}
use object_store.Common.{ℕ, ◌≡◌, List, Bool, Option, none, some, length}
use object_store.Clients.{Clients}
use object_store.Services.{View, idle}
use object_store.ChunkStore.Store.Model.{Chunks}
use object_store.ChunkStore.Store.Get.{IsChecksum}
use object_store.MetadataStore.Types.{Json, Random}
use object_store.System.StorageCalls.{IsSound}
use object_store.System.MetadataCalls.{IsRandom}
use object_store.System.Calls.{System, system}
use object_store.System.Lawful.{Keeps, system-IsLawful}
use object_store.Gateway.State.{AppState, ok}
use object_store.Gateway.Download.{handle_get_object}
use object_store.Gateway.Upload.{handle_put_object}
use object_store.Gateway.RoundTrip.Put.{handle_get_object-handle_put_object}

-- What is known without a look at any object.
abbrev nothing : View
nothing = record { listed = λ name. none; held = λ address id. none; pending = idle }

module _ (json : Json) (crc : List ℕ → ℕ) (randoms : ℕ → Random) (other : Clients System) where
  Keeps-nothing :
      (w : System)
      → ((k : ℕ) → IsRandom (randoms k) w.node.metadata_store.storage_nodes)
      → ((address : String) → (m : Chunks) × IsSound crc (w.storage address) m)
      → Keeps crc randoms w nothing
  Keeps-nothing w r sound = record {
    shows = (record { lists = λ name cs e. absurd (cc e); place = tt }, r);
    holds = λ address. record {
      chunks = (sound address).0;
      sound = (sound address).1;
      has = λ id part e. absurd (cc e);
    };
  }

  -- Through a metadata node that serves its own store, whatever is in it, and storage nodes in order
  -- on reliable files, whatever they hold, for a checksum of 32 bits, random ids of 64 bits and
  -- random choices of known storage nodes: where an upload of the payload of some bytes returns a
  -- number, it is that of the bytes, and a download under the same name gives the bytes, encoded.
  pub upload-download :
      (is_alphanumeric : ℕ → Bool) (decode : String → Option (List ℕ)) (encode : List ℕ → String)
      (name payload : String) (bytes : List ℕ) (n : ℕ) (s : AppState System)
      → IsChecksum crc
      → ((k : ℕ) → IsRandom (randoms k) s.world.node.metadata_store.storage_nodes)
      → ((address : String) → (m : Chunks) × IsSound crc (s.world.storage address) m)
      → decode payload ≡ some bytes
      → (handle_put_object
          (system json crc randoms other)
          crc
          is_alphanumeric
          decode
          name
          payload
          s).0
        ≡ ok n
      → let s' =
          (handle_put_object
            (system json crc randoms other)
            crc
            is_alphanumeric
            decode
            name
            payload
            s).1 in
        (n ≡ length bytes)
        × ((handle_get_object (system json crc randoms other) encode is_alphanumeric name s').0
            ≡ ok (encode bytes))
  upload-download is_alphanumeric decode encode name payload bytes n s crc_u32 r sound d e =
      let (size, gives, _) =
        handle_get_object-handle_put_object (system json crc randoms other) (Keeps crc randoms)
          (system-IsLawful json crc randoms other crc_u32) crc name bytes is_alphanumeric encode
          decode payload n s nothing (Keeps-nothing s.world r sound) d e in
      (size, gives)
