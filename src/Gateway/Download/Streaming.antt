-- ===== src/Gateway/Download/Streaming.antt =====
-- The streamed download against the one that is read at once.
use object_store.Common.{ℕ, ◌≡◌, refl, ◌∙◌, ap, sym, List, [], ◌∷◌, ◌++◌, Option, none, some}
use object_store.Clients.{Clients, ChunkMessage}
use object_store.Gateway.State.{HttpResult, ok, err, panicked, diverged, AppState}
use object_store.Gateway.Download.{
  StreamItem, bytes, broken, join_bytes, read_chunk, read_all, stream_chunks,
}

-- The bytes of a body, if it is whole.
abbrev pub append_to : List ℕ → Option (List ℕ) → Option (List ℕ)
append_to part none = none
append_to part (some rest) = some (part ++ rest)

abbrev pub whole : List StreamItem → Option (List ℕ)
whole [] = some []
whole (bytes part ∷ items) = append_to part (whole items)
whole (broken ∷ items) = none

-- The bytes of a result.
abbrev pub to_option : HttpResult (List ℕ) → Option (List ℕ)
to_option (ok part) = some part
to_option (err e) = none
to_option panicked = none
to_option diverged = none

pub join_bytes-ok :
    (part : List ℕ) (rs : List (HttpResult (List ℕ)))
    → to_option (join_bytes (ok part ∷ rs)) ≡ append_to part (to_option (join_bytes rs))
unfolding join_bytes
join_bytes-ok part rs = by_rest (join_bytes rs) refl
  where
    by_rest :
        (r : HttpResult (List ℕ))
        → join_bytes rs ≡ r
        → to_option (join_bytes (ok part ∷ rs)) ≡ append_to part (to_option (join_bytes rs))
    by_rest (ok rest) e = rw (e, join_bytes) refl
    by_rest (err c) e = rw (e, join_bytes) refl
    by_rest panicked e = rw (e, join_bytes) refl
    by_rest diverged e = rw (e, join_bytes) refl

join_bytes-not_ok :
    (r : HttpResult (List ℕ)) (rs : List (HttpResult (List ℕ)))
    → to_option r ≡ none
    → to_option (join_bytes (r ∷ rs)) ≡ none
unfolding join_bytes
join_bytes-not_ok (ok part) rs e = absurd (cc e)
join_bytes-not_ok (err c) rs e = refl
join_bytes-not_ok panicked rs e = refl
join_bytes-not_ok diverged rs e = refl

module _ {W : Type 0} (cl : Clients W) where
  -- A stream is whole exactly where every chunk can be read, and then it has the bytes that are
  -- joined when all chunks are read at once.
  pub whole-stream_chunks :
      (cs : List ChunkMessage) (s : AppState W)
      → whole (stream_chunks cl cs s).0 ≡ to_option (join_bytes (read_all cl cs s).0)
  unfolding stream_chunks read_all join_bytes
  whole-stream_chunks [] s = refl
  whole-stream_chunks (c ∷ cs) s =
      by_chunk (λ t. whole-stream_chunks cs t) (read_chunk cl c.id c.storage_nodes s) refl
    where
      by_chunk :
          ((t : AppState W)
            → whole (stream_chunks cl cs t).0 ≡ to_option (join_bytes (read_all cl cs t).0))
          → (q : HttpResult (List ℕ) × AppState W) → read_chunk cl c.id c.storage_nodes s ≡ q
          → whole (stream_chunks cl (c ∷ cs) s).0
            ≡ to_option (join_bytes (read_all cl (c ∷ cs) s).0)
      by_chunk ih (ok part, t) e =
          rw (e, stream_chunks)
            (rw (e, read_all)
              (ap (append_to part) (ih t) ∙ sym (join_bytes-ok part (read_all cl cs t).0)))
      by_chunk ih (err k, t) e = rw (e, stream_chunks) refl
      by_chunk ih (panicked, t) e = rw (e, stream_chunks) refl
      by_chunk ih (diverged, t) e = rw (e, stream_chunks) refl
