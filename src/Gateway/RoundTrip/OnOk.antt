-- ===== src/Gateway/RoundTrip/OnOk.antt =====
-- What is said of a handler that ends well, from what is said of the handlers it is made of.
use object_store.Common.{◌≡◌, refl}
use object_store.Clients.{Answer, answered, refused, Call}
use object_store.Gateway.State.{
  StatusCode, HttpResult, ok, err, panicked, diverged, Handler, ◌>>=◌, continue, AppState, call,
  expect,
}

abbrev pub OnOk : {S A : Type 0} → (A → S → Type 0) → HttpResult A × S → Type 0
OnOk P (ok a, s) = P a s
OnOk P (err e, s) = Unit
OnOk P (panicked, s) = Unit
OnOk P (diverged, s) = Unit

module _ {S A B : Type 0} (Q : A → S → Type 0) (P : B → S → Type 0) where
  pub on_ok :
      (q : HttpResult A × S) (f : A → Handler S B)
      → OnOk Q q
      → ((a : A) (t : S) → Q a t → OnOk P (f a t))
      → OnOk P (continue q.0 f q.1)
  on_ok (ok a, t) f h k = k a t h
  on_ok (err e, t) f h k = tt
  on_ok (panicked, t) f h k = tt
  on_ok (diverged, t) f h k = tt

module _ {S A B : Type 0} (P : B → S → Type 0) where
  -- The first handler has run.
  pub on_run :
      (m : Handler S A) (f : A → Handler S B) (s : S)
      → ((a : A) (t : S) → m s ≡ (ok a, t) → OnOk P (f a t))
      → OnOk P ((m >>= f) s)
  on_run m f s k = by_run (m s) refl
    where
      by_run : (q : HttpResult A × S) → m s ≡ q → OnOk P (continue q.0 f q.1)
      by_run (ok a, t) e = k a t e
      by_run (err c, t) e = tt
      by_run (panicked, t) e = tt
      by_run (diverged, t) e = tt

module _ {W A B : Type 0} (P : B → AppState W → Type 0) where
  -- A call whose refusal ends the handler is answered.
  pub on_answer :
      (c : Call W A) (code : StatusCode) (note : AppState W → AppState W)
      (f : A → Handler (AppState W) B) (s : AppState W)
      → ((a : A) (w : W) → c s.world ≡ (answered a, w) → OnOk P (f a (record s { world = w })))
      → OnOk P ((call c >>= λ answer. expect code note answer >>= f) s)
  on_answer c code note f s k = by_answer (c s.world) refl
    where
      by_answer :
          (q : Answer A × W)
          → c s.world ≡ q
          → OnOk P ((expect code note q.0 >>= f) (record s { world = q.1 }))
      by_answer (answered a, w) e = k a w e
      by_answer (refused r, w) e = tt
