-- ===== src/Gateway/Upload/Chunking.antt =====
-- The pieces of an object: a stream is cut into the same ones, however its fragments fall.
use object_store.Common.{
  ℕ, zero, suc, ◌+◌, ◌≤◌, ◌<◌, ◌≡◌, refl, ◌∙◌, sym, ap, List, [], ◌∷◌, ◌++◌, true, false, arith,
  length, take, drop, ltb, leb, All, dec_lt, length-append, length-drop, length-take,
  take-append-drop,
}
use mathlib.Core.List.{append_assoc, append-nil}
use object_store.Gateway.State.{
  HttpResult, ok, err, panicked, diverged, Handler, pure, ◌>>=◌, ◌>>◌, continue,
}
use object_store.Gateway.Upload.{
  Field, max_object_size, pieces, flush_all, flush_full, stream_fragments, flush_remaining,
  stream_field, undone, or_undo,
}

abbrev pub concat : List (List ℕ) → List ℕ
concat [] = []
concat (f ∷ fs) = f ++ concat fs

take-append_le : (n : ℕ) (xs ys : List ℕ) → n ≤ length xs → take n (xs ++ ys) ≡ take n xs
take-append_le zero xs ys h = refl
take-append_le (suc n) [] ys h = absurd (omega arith)
take-append_le (suc n) (x ∷ xs) ys h = ap (◌∷◌ x) (take-append_le n xs ys (omega arith))

drop-append_le : (n : ℕ) (xs ys : List ℕ) → n ≤ length xs → drop n (xs ++ ys) ≡ drop n xs ++ ys
drop-append_le zero xs ys h = refl
drop-append_le (suc n) [] ys h = absurd (omega arith)
drop-append_le (suc n) (x ∷ xs) ys h = drop-append_le n xs ys (omega arith)

take_short : (n : ℕ) (xs : List ℕ) → length xs ≤ n → take n xs ≡ xs
take_short zero [] h = refl
take_short zero (x ∷ xs) h = absurd (omega arith)
take_short (suc n) [] h = refl
take_short (suc n) (x ∷ xs) h = ap (◌∷◌ x) (take_short n xs (omega arith))

drop_short : (n : ℕ) (xs : List ℕ) → length xs ≤ n → drop n xs ≡ []
drop_short zero [] h = refl
drop_short zero (x ∷ xs) h = absurd (omega arith)
drop_short (suc n) [] h = refl
drop_short (suc n) (x ∷ xs) h = drop_short n xs (omega arith)

-- The pieces are none but the last shorter than `n`, none longer, none empty, and make up the whole.
abbrev pub IsPiece : ℕ → List ℕ → Type 0
IsPiece n p = (0 < length p) × (length p ≤ n)

pieces-IsPiece :
    (fuel n : ℕ) (bs : List ℕ)
    → 0 < n
    → length bs ≤ fuel
    → (concat (pieces fuel n bs) ≡ bs) × All (IsPiece n) (pieces fuel n bs)
unfolding pieces
pieces-IsPiece zero n [] pos h = (refl, tt)
pieces-IsPiece (suc fuel) n [] pos h = (refl, tt)
pieces-IsPiece zero n (b ∷ bs) pos h = absurd (omega arith)
pieces-IsPiece (suc fuel) n (b ∷ bs) pos h =
    let (whole, all) =
      pieces-IsPiece fuel n (drop n (b ∷ bs)) pos (omega (arith, length-drop n (b ∷ bs))) in
    (
      ap (◌++◌ (take n (b ∷ bs))) whole ∙ take-append-drop n (b ∷ bs),
      ((omega (arith, length-take n (b ∷ bs)), omega (arith, length-take n (b ∷ bs))), all),
    )

-- One piece off the front.
pieces-append :
    (fuel n : ℕ) (bs more : List ℕ)
    → 0 < n
    → n ≤ length bs
    → pieces (suc fuel) n (bs ++ more) ≡ take n bs ∷ pieces fuel n (drop n bs ++ more)
unfolding pieces
pieces-append fuel n [] more pos h = absurd (omega arith)
pieces-append fuel n (b ∷ bs) more pos h =
    rw (sym (take-append_le n (b ∷ bs) more h), sym (drop-append_le n (b ∷ bs) more h)) refl

module _ {S A B C : Type 0} where
  >>=-assoc :
      (m : Handler S A) (f : A → Handler S B) (g : B → Handler S C) (s : S)
      → ((m >>= f) >>= g) s ≡ (m >>= λ a. f a >>= g) s
  >>=-assoc m f g s = by_result (m s)
    where
      by_result :
          (q : HttpResult A × S)
          → (let p = continue q.0 f q.1 in continue p.0 g p.1) ≡ continue q.0 (λ a. f a >>= g) q.1
      by_result (ok a, t) = refl
      by_result (err e, t) = refl
      by_result (panicked, t) = refl
      by_result (diverged, t) = refl

module _ {S A B : Type 0} where
  -- Two ways to go on from one call that agree.
  >>=-cong :
      (m : Handler S A) (f g : A → Handler S B) (s : S)
      → ((a : A) (t : S) → f a t ≡ g a t)
      → (m >>= f) s ≡ (m >>= g) s
  >>=-cong m f g s h = by_result (m s)
    where
      by_result : (q : HttpResult A × S) → continue q.0 f q.1 ≡ continue q.0 g q.1
      by_result (ok a, t) = h a t
      by_result (err e, t) = refl
      by_result (panicked, t) = refl
      by_result (diverged, t) = refl

module _ {S : Type 0} (flush : List ℕ → Handler S (Unit {0})) where
  flush_full-short :
      (fuel n : ℕ) (buffer : List ℕ) (s : S)
      → length buffer < n
      → flush_full flush fuel n buffer s ≡ (ok buffer, s)
  unfolding flush_full
  flush_full-short zero n buffer s h =
      let e : leb n (length buffer) ≡ false = ground arith in rw e refl
  flush_full-short (suc fuel) n buffer s h =
      let e : leb n (length buffer) ≡ false = ground arith in rw e refl

  flush_full-long :
      (fuel n : ℕ) (buffer : List ℕ) (s : S)
      → n ≤ length buffer
      → flush_full flush (suc fuel) n buffer s
        ≡ (flush (take n buffer) >> flush_full flush fuel n (drop n buffer)) s
  unfolding flush_full
  flush_full-long fuel n buffer s h =
      let e : leb n (length buffer) ≡ true = ground arith in rw e refl

  flush_all-cons :
      (c : List ℕ) (cs : List (List ℕ)) (s : S)
      → flush_all flush (c ∷ cs) s ≡ (flush c >> flush_all flush cs) s
  unfolding flush_all
  flush_all-cons c cs s = refl

  -- The loop on the buffer, and then what comes of the rest of it, store the pieces of both.
  flush_full-pieces :
      {B : Type 0} (fuel f n : ℕ) (buffer more : List ℕ) (k : List ℕ → Handler S B)
      (z : Handler S B) (s : S)
      → 0 < n
      → length buffer ≤ fuel
      → length buffer + length more ≤ f
      → ((rest : List ℕ) (g : ℕ) (t : S)
          → length rest < n
          → length rest + length more ≤ g
          → k rest t ≡ (flush_all flush (pieces g n (rest ++ more)) >> z) t)
      → (flush_full flush fuel n buffer >>= k) s
        ≡ (flush_all flush (pieces f n (buffer ++ more)) >> z) s
  flush_full-pieces zero f n buffer more k z s pos enough room h =
      ap (λ (q : HttpResult (List ℕ) × S). continue q.0 k q.1)
        (flush_full-short zero n buffer s (omega arith))
      ∙ h buffer f s (omega arith) room
  flush_full-pieces (suc fuel) zero n buffer more k z s pos enough room h =
      ap (λ (q : HttpResult (List ℕ) × S). continue q.0 k q.1)
        (flush_full-short (suc fuel) n buffer s (omega arith))
      ∙ h buffer zero s (omega arith) room
  flush_full-pieces (suc fuel) (suc f) n buffer more k z s pos enough room h =
      elim (dec_lt (length buffer) n) [
        | yes short ↦
            ap (λ (q : HttpResult (List ℕ) × S). continue q.0 k q.1)
              (flush_full-short (suc fuel) n buffer s short)
            ∙ h buffer (suc f) s short room
        | no long ↦
            let le : n ≤ length buffer = omega arith in
            let left = length-drop n buffer in
            ap (λ (q : HttpResult (List ℕ) × S). continue q.0 k q.1)
              (flush_full-long fuel n buffer s le)
            ∙ >>=-assoc (flush (take n buffer)) (λ _. flush_full flush fuel n (drop n buffer)) k s
            ∙ >>=-cong (flush (take n buffer)) (λ _. flush_full flush fuel n (drop n buffer) >>= k)
                (λ _. flush_all flush (pieces f n (drop n buffer ++ more)) >> z) s
                (λ _ t.
                  flush_full-pieces fuel f n (drop n buffer) more k z t pos (omega (arith, left))
                    (omega (arith, left)) h)
            ∙ sym (
                >>=-assoc (flush (take n buffer))
                  (λ _. flush_all flush (pieces f n (drop n buffer ++ more))) (λ _. z) s)
            ∙ ap (λ (q : HttpResult (Unit {0}) × S). continue q.0 (λ _. z) q.1)
                (sym (
                  ap (λ (cs : List (List ℕ)). flush_all flush cs s)
                    (pieces-append f n buffer more pos le)
                  ∙ flush_all-cons (take n buffer) (pieces f n (drop n buffer ++ more)) s))
      ]

  -- What is left in the buffer at the end is the last piece.
  flush_remaining-pieces :
      {B : Type 0} (f n : ℕ) (buffer : List ℕ) (b : B) (s : S)
      → length buffer < n
      → length buffer ≤ f
      → (flush_remaining flush buffer >> pure b) s
        ≡ (flush_all flush (pieces f n buffer) >> pure b) s
  unfolding flush_remaining pieces flush_all
  flush_remaining-pieces zero n [] b s short room = refl
  flush_remaining-pieces (suc f) n [] b s short room = refl
  flush_remaining-pieces zero n (x ∷ xs) b s short room = absurd (omega arith)
  flush_remaining-pieces (suc f) n (x ∷ xs) b s short room =
      rw (take_short n (x ∷ xs) (omega arith), drop_short n (x ∷ xs) (omega arith))
        (once (flush (x ∷ xs) s))
    where
      once :
          (q : HttpResult (Unit {0}) × S)
          → continue q.0 (λ _. pure b) q.1
            ≡ (let p = continue q.0 (λ _. flush_all flush []) q.1 in continue p.0 (λ _. pure b) p.1)
      once (ok _, t) = refl
      once (err e, t) = refl
      once (panicked, t) = refl
      once (diverged, t) = refl

  stream_fragments-nil :
      (n : ℕ) (buffer : List ℕ) (total : ℕ) (hashed : List ℕ) (s : S)
      → stream_fragments flush false n [] buffer total hashed s ≡ (ok (buffer, total, hashed), s)
  unfolding stream_fragments
  stream_fragments-nil n buffer total hashed s = refl

  stream_fragments-step :
      (n : ℕ) (g : List ℕ) (gs : List (List ℕ)) (buffer : List ℕ) (total : ℕ) (hashed : List ℕ)
      (s : S)
      → total + length g ≤ max_object_size
      → stream_fragments flush false n (g ∷ gs) buffer total hashed s
        ≡ (flush_full flush (length (buffer ++ g)) n (buffer ++ g) >>= λ rest.
              stream_fragments flush false n gs rest (total + length g) (hashed ++ g))
            s
  unfolding stream_fragments
  stream_fragments-step n g gs buffer total hashed s fits =
      let e : ltb max_object_size (total + length g) ≡ false = ground arith in rw e refl

  -- How the handler goes on from the end of the stream.
  abbrev finish : List ℕ × ℕ × List ℕ → Handler S (ℕ × List ℕ)
  finish (buffer, total, hashed) = flush_remaining flush buffer >> pure (total, hashed)

  stream_fragments-pieces :
      (n : ℕ) (gs : List (List ℕ)) (f : ℕ) (buffer : List ℕ) (total : ℕ) (hashed : List ℕ) (s : S)
      → 0 < n
      → length buffer < n
      → length buffer + length (concat gs) ≤ f
      → total + length (concat gs) ≤ max_object_size
      → (stream_fragments flush false n gs buffer total hashed >>= finish) s
        ≡ (flush_all flush (pieces f n (buffer ++ concat gs))
              >> pure (total + length (concat gs), hashed ++ concat gs))
            s
  stream_fragments-pieces n [] f buffer total hashed s pos short room fits =
      stream_end
      ∙ flush_remaining-pieces f n buffer (total, hashed) s short (omega arith)
      ∙ cc (append-nil buffer, append-nil hashed, zero-add)
    where
      zero-add : total + 0 ≡ total
      zero-add = omega arith

      stream_end :
          (stream_fragments flush false n [] buffer total hashed >>= finish) s
          ≡ finish (buffer, total, hashed) s
      stream_end =
          ap (λ (q : HttpResult (List ℕ × ℕ × List ℕ) × S). continue q.0 finish q.1)
            (stream_fragments-nil n buffer total hashed s)
  stream_fragments-pieces n (g ∷ gs) f buffer total hashed s pos short room fits =
      ap (λ (q : HttpResult (List ℕ × ℕ × List ℕ) × S). continue q.0 finish q.1)
        (stream_fragments-step n g gs buffer total hashed s (omega (arith, longer)))
      ∙ >>=-assoc (flush_full flush (length (buffer ++ g)) n (buffer ++ g)) later finish s
      ∙ flush_full-pieces (length (buffer ++ g)) f n (buffer ++ g) (concat gs)
          (λ rest. later rest >>= finish) (pure (size, seen)) s pos (omega arith)
          (omega (arith, longer, length-append buffer g))
          (λ rest k t sh rm.
            stream_fragments-pieces n gs k rest (total + length g) (hashed ++ g) t pos sh rm
              (omega (arith, longer)))
      ∙ cc (sizes, append_assoc hashed g (concat gs), append_assoc buffer g (concat gs))
    where
      longer : length (g ++ concat gs) ≡ length g + length (concat gs)
      longer = length-append g (concat gs)

      later : List ℕ → Handler S (List ℕ × ℕ × List ℕ)
      later rest = stream_fragments flush false n gs rest (total + length g) (hashed ++ g)

      size : ℕ
      size = total + length g + length (concat gs)

      seen : List ℕ
      seen = (hashed ++ g) ++ concat gs

      sizes : total + length g + length (concat gs) ≡ total + length (g ++ concat gs)
      sizes = omega (arith, longer)

-- Two steps that are each undone after an error are undone as one.
undone-steps :
    {S A B C : Type 0} (undo : S → S) (q : HttpResult A × S) (f : A → Handler S B) (g : A → C)
    → continue (undone undo q).0 (λ a. or_undo undo (f a) >> pure (g a)) (undone undo q).1
      ≡ undone undo (continue q.0 (λ a. f a >> pure (g a)) q.1)
undone-steps {S} {A} {B} {C} undo (ok a, s) f g = on_second (f a s)
  where
    on_second :
        (r : HttpResult B × S)
        → continue (undone undo r).0 (λ _. pure (g a)) (undone undo r).1
          ≡ undone undo (continue r.0 (λ _. pure (g a)) r.1)
    on_second (ok b, t) = refl
    on_second (err e, t) = refl
    on_second (panicked, t) = refl
    on_second (diverged, t) = refl
undone-steps {S} {A} {B} {C} undo (err e, s) f g = refl
undone-steps {S} {A} {B} {C} undo (panicked, s) f g = refl
undone-steps {S} {A} {B} {C} undo (diverged, s) f g = refl

-- A stream that does not fail and whose bytes are within the limit, cut by a chunk size above 0,
-- stores the very pieces that `chunks` makes of all its bytes at once, in their order and up to
-- the first that fails, however its fragments fall; and it returns their number and the bytes.
-- After a piece that fails it is undone once.
pub stream_field-pieces :
    (S : Type 0) (flush : List ℕ → Handler S (Unit {0})) (undo : S → S) (n : ℕ) (field : Field)
    (s : S)
    → 0 < n
    → field.fails ≡ false
    → length (concat field.fragments) ≤ max_object_size
    → let bytes = concat field.fragments in
      stream_field flush undo n field s
      ≡ or_undo undo
          (flush_all flush (pieces (length bytes) n bytes) >> pure (length bytes, bytes))
          s
unfolding stream_field
stream_field-pieces S flush undo n field s pos calm fits =
    let bytes = concat field.fragments in
    let no_more : 0 + length bytes ≡ length bytes = omega arith in
    let together =
      undone-steps undo (stream_fragments flush field.fails n field.fragments [] 0 [] s)
        (λ (q : List ℕ × ℕ × List ℕ). flush_remaining flush q.0)
        (λ (q : List ℕ × ℕ × List ℕ). (q.1, q.2)) in
    together
    ∙ ap (undone undo) (
        rw calm (
          stream_fragments-pieces flush n field.fragments (length bytes) [] 0 [] s pos pos
            (omega arith) (omega arith)
          ∙ ap (λ (k : ℕ). (flush_all flush (pieces (length bytes) n bytes) >> pure (k, bytes)) s)
              no_more))

-- The pieces of some bytes for a size above 0 make up the bytes, and none is empty or longer than
-- the size.
pub pieces_lem :
    (n : ℕ) (bytes : List ℕ)
    → 0 < n
    → (concat (pieces (length bytes) n bytes) ≡ bytes)
      × All (IsPiece n) (pieces (length bytes) n bytes)
pieces_lem n bytes pos = pieces-IsPiece (length bytes) n bytes pos (omega arith)
