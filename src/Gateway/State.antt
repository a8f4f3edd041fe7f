-- ===== src/Gateway/State.antt =====
-- `AppState`, what a handler returns, and calls of the services.
use Prim.Native.String.{String}
use text.Mathlib.Text.{◌==◌ as str_eq}
use object_store.Common.{ℕ, ◌+◌, ◌%◌, ◌^◌, List, [], ◌∷◌, Bool, true, false, if◌then◌else◌}
use object_store.Clients.{Answer, answered, refused, Call, Clients}

-- The statuses of an `Err`.
pub data StatusCode : Type 0 where
  bad_request payload_too_large conflict not_found internal_server_error : StatusCode

pub data HttpResult {ℓ} (A : Type ℓ) : Type ℓ where
  ok : A → HttpResult A
  err : StatusCode → HttpResult A
  panicked : HttpResult A
  diverged : HttpResult A

abbrev pub Handler : Type 0 → Type 0 → Type 0
Handler S A = S → HttpResult A × S

module _ {S A : Type 0} where
  abbrev pub pure : A → Handler S A
  pure a s = (ok a, s)

  abbrev pub raise : StatusCode → Handler S A
  raise e s = (err e, s)

module _ {S A B : Type 0} where
  abbrev pub continue : HttpResult A → (A → Handler S B) → Handler S B
  continue (ok a) f s = f a s
  continue (err e) f s = (err e, s)
  continue panicked f s = (panicked, s)
  continue diverged f s = (diverged, s)

  infixl 5 ◌>>=◌ ◌>>◌
  abbrev pub ◌>>=◌ : Handler S A → (A → Handler S B) → Handler S B
  ◌>>=◌ m f s = let (r, s') = m s in continue r f s'

  abbrev pub ◌>>◌ : Handler S A → Handler S B → Handler S B
  m >> k = m >>= λ _. k

pub record RequestLabels : Type 0 where
  pub method : String
  pub endpoint : String
  pub status : String

-- `http_requests_total` as the labels that were counted, the latest first. The other counters wrap.
pub record Metrics : Type 0 where
  pub http_requests_total : List RequestLabels
  pub objects_uploaded_total : ℕ
  pub objects_downloaded_total : ℕ
  pub objects_deleted_total : ℕ
  pub bytes_uploaded_total : ℕ
  pub bytes_downloaded_total : ℕ

-- The keys of the connection cache: a client is known by its address.
pub record AppState (W : Type 0) : Type 0 where
  pub world : W
  pub storage_connections : List String
  pub metrics : Metrics

abbrev pub counted : ℕ → ℕ → ℕ
counted total n = (total + n) % 2 ^ 64

unfoldable pub is_cached : String → List String → Bool
is_cached address [] = false
is_cached address (a ∷ as_) = if str_eq a address then true else is_cached address as_

module _ {W : Type 0} where
  abbrev pub count_request : String → String → String → AppState W → AppState W
  count_request method endpoint status s = record s {
    metrics = record (s.metrics) {
      http_requests_total =
          record { method = method; endpoint = endpoint; status = status }
          ∷ s.metrics.http_requests_total;
    };
  }

  -- A call of a client, and its answer.
  abbrev pub call : {A : Type 0} → Call W A → Handler (AppState W) (Answer A)
  call c s = (ok (c s.world).0, record s { world = (c s.world).1 })

  -- What `map_err` and the like make of a refused call: a note in the state, and a status.
  abbrev pub expect :
      {A : Type 0} → StatusCode → (AppState W → AppState W) → Answer A → Handler (AppState W) A
  expect code note (answered a) s = (ok a, s)
  expect code note (refused _) s = (err code, note s)

  abbrev pub unnoted : AppState W → AppState W
  unnoted s = s

  -- `get_or_connect`. Between its two looks into the cache no other request is taken.
  unfoldable pub get_or_connect : Clients W → String → Handler (AppState W) (Unit {0})
  unfolding is_cached
  get_or_connect cl address s =
      if is_cached address s.storage_connections
      then (ok tt, s)
      else elim (cl.connect address s.world).0 [
        | answered _ ↦ (
          ok tt,
          record s {
            world = (cl.connect address s.world).1;
            storage_connections = address ∷ s.storage_connections;
          },
        )
        | refused _ ↦
            (err internal_server_error, record s { world = (cl.connect address s.world).1 })
      ]
