-- ===== src/Gateway/RoundTrip/Tests.antt =====
-- Uploads over the services in memory.
use Prim.Native.String.{String}
use object_store.Common.{ℕ, Bool, ◌≡◌, refl, List, [], ◌∷◌, false, Option, none, some, ltb, length}
use object_store.Common.Map.{nat_eq, string_eq, lookup, contains_key, insert}
use object_store.Gateway.Mocks.Metadata
use object_store.Gateway.Mocks.Storage
use object_store.Services.{View, idle}
use object_store.Gateway.Mocks.Metadata.{default_metadata}
use object_store.Gateway.Mocks.Storage.{default_factory}
use object_store.Gateway.Mocks.Services.{MockServices, mock_services}
use object_store.Gateway.Mocks.Mirrors.{Mirrors}
use object_store.Gateway.Mocks.Lawful.{mock_services-IsLawful}
use object_store.Gateway.State.{ok, AppState}
use object_store.Gateway.Download.{handle_get_object}
use object_store.Gateway.Upload.{
  Field, Multipart, find_file, handle_put_object, handle_put_object_multipart,
}
use object_store.Gateway.Upload.Chunking.{concat}
use object_store.Gateway.RoundTrip.Served.{Uploaded}
use object_store.Gateway.RoundTrip.Put.{handle_get_object-handle_put_object}
use object_store.Gateway.RoundTrip.Multipart.{handle_get_object-handle_put_object_multipart}

-- Slots of two bytes.
abbrev services : MockServices
services = record {
  metadata = default_metadata;
  factory = record (default_factory) { chunk_size = 2 };
}

abbrev nothing : View
nothing = record { listed = λ name. none; held = λ address id. none; pending = idle }

services-Mirrors : Mirrors services nothing
unfolding lookup
services-Mirrors = record {
  lists = λ name cs e. absurd (cc e);
  stores = λ address id part e. absurd (cc e);
  ids_bound = λ name o e. absurd (cc e);
  data_bound = λ id part e. absurd (cc e);
  place = tt;
}

abbrev start : AppState MockServices
start = record {
  world = services;
  storage_connections = [];
  metrics = record {
    http_requests_total = [];
    objects_uploaded_total = 0;
    objects_downloaded_total = 0;
    objects_deleted_total = 0;
    bytes_uploaded_total = 0;
    bytes_downloaded_total = 0;
  };
}

abbrev five : List ℕ
five = 1 ∷ 2 ∷ 3 ∷ 4 ∷ 5 ∷ []

abbrev decode : String → Option (List ℕ)
decode text = some five

abbrev encode : List ℕ → String
encode [] = ""
encode (b ∷ bytes) = "5"

abbrev letters : ℕ → Bool
letters c = ltb 96 c

abbrev after_put : AppState MockServices
after_put = (handle_put_object mock_services length letters decode "photo" "AQIDBAU=" start).1

handle_get_object-handle_put_object_example :
    (5 ≡ length five)
    × ((handle_get_object mock_services encode letters "photo" after_put).0 ≡ ok "5")
    × Uploaded mock_services Mirrors mock_services-IsLawful nothing "photo" five after_put.world
unfolding handle_put_object Metadata.put_object contains_key Metadata.allocate_chunk
    Storage.write_chunk Metadata.confirm_chunk
handle_get_object-handle_put_object_example =
    handle_get_object-handle_put_object mock_services Mirrors mock_services-IsLawful length "photo"
      five letters encode decode "AQIDBAU=" 5 start nothing services-Mirrors refl refl

abbrev multipart : Multipart
multipart = record {
  fields =
      record {
        name = some "file";
        fragments = (1 ∷ []) ∷ (2 ∷ 3 ∷ 4 ∷ []) ∷ (5 ∷ []) ∷ [];
        fails = false;
      }
      ∷ [];
  fails = false;
}

abbrev after_multipart : AppState MockServices
after_multipart =
    (handle_put_object_multipart mock_services length letters "photo" multipart start).1

handle_get_object-handle_put_object_multipart_example :
    (field : Field) × (find_file multipart.fields multipart.fails ≡ ok field)
    × (5 ≡ length (concat field.fragments))
    × ((handle_get_object mock_services encode letters "photo" after_multipart).0
        ≡ ok (encode (concat field.fragments)))
    × Uploaded mock_services Mirrors mock_services-IsLawful nothing "photo"
        (concat field.fragments)
        after_multipart.world
unfolding handle_put_object_multipart Metadata.put_object contains_key Metadata.allocate_chunk
    Storage.write_chunk Metadata.confirm_chunk Metadata.update_object_checksum lookup insert
handle_get_object-handle_put_object_multipart_example =
    handle_get_object-handle_put_object_multipart mock_services Mirrors mock_services-IsLawful
      length "photo" nothing letters encode multipart 5 start services-Mirrors refl
