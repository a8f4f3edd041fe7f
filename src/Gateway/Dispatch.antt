-- ===== src/Gateway/Dispatch.antt =====
-- The choice between the two ways to upload and the two ways to download. The extractors of axum
-- and serde are parameters: what each makes of the request's body, if it can.
use Prim.Native.String.{String, find, len}
use text.Mathlib.Text.{starts_with}
use object_store.Common.{ℕ, List, Bool, Option, none, some, leb, if◌then◌else◌}
use object_store.Clients.{Clients}
use object_store.Gateway.State.{
  HttpResult, ok, err, panicked, diverged, bad_request, Handler, AppState,
}
use object_store.Gateway.Download.{StreamItem, handle_get_object, handle_get_object_stream}
use object_store.Gateway.Upload.{Multipart, handle_put_object, handle_put_object_multipart}

-- `contains` of a text.
abbrev pub contains_text : String → String → Bool
contains_text s t = leb (find s t) (len s)

pub data Download : Type 0 where
  json : String → Download
  stream : List StreamItem → Download

abbrev pub as_json : {S : Type 0} → HttpResult String × S → HttpResult Download × S
as_json (ok text, s) = (ok (json text), s)
as_json (err e, s) = (err e, s)
as_json (panicked, s) = (panicked, s)
as_json (diverged, s) = (diverged, s)

abbrev pub as_stream : {S : Type 0} → HttpResult (List StreamItem) × S → HttpResult Download × S
as_stream (ok items, s) = (ok (stream items), s)
as_stream (err e, s) = (err e, s)
as_stream (panicked, s) = (panicked, s)
as_stream (diverged, s) = (diverged, s)

module _ {W : Type 0} (cl : Clients W) (is_alphanumeric : ℕ → Bool) where
  -- A header that is missing or is no text counts as empty.
  unfoldable pub handle_put_dispatch :
      (List ℕ → ℕ)
      → (String → Option (List ℕ))
      → String
      → String
      → Option Multipart
      → Option String
      → Handler (AppState W) ℕ
  handle_put_dispatch crc decode name content_type multipart payload s =
      if starts_with content_type "multipart/form-data"
      then elim multipart [
        | none ↦ (err bad_request, s)
        | some m ↦ handle_put_object_multipart cl crc is_alphanumeric name m s
      ]
      else elim payload [
        | none ↦ (err bad_request, s)
        | some p ↦ handle_put_object cl crc is_alphanumeric decode name p s
      ]

  unfoldable pub handle_get_dispatch :
      (List ℕ → String) → String → String → Handler (AppState W) Download
  handle_get_dispatch encode name accept s =
      if contains_text accept "application/json"
      then as_json (handle_get_object cl encode is_alphanumeric name s)
      else as_stream (handle_get_object_stream cl is_alphanumeric name s)
