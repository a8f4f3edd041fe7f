-- ===== src/Gateway/RoundTrip/Streamed.antt =====
-- What every piece that is stored keeps, the whole stream keeps.
use object_store.Common.{
  ℕ, zero, suc, ◌+◌, ◌≡◌, refl, sym, ap, ◌∙◌, subst, List, [], ◌∷◌, ◌++◌, Bool, true, false,
  Bool-cases, inl, inr, arith, length, take, drop, leb, ltb, take-append-drop, length-append,
}
use mathlib.Core.List.{append_assoc, append-nil}
use object_store.Gateway.State.{HttpResult, ok, err, panicked, diverged, Handler, pure, ◌>>◌}
use object_store.Gateway.Upload.{
  Field, max_object_size, flush_full, stream_fragments, flush_remaining, stream_field, undone,
  or_undo,
}
use object_store.Gateway.Upload.Chunking.{concat}
use object_store.Gateway.RoundTrip.OnOk.{OnOk, on_ok}

module _ {S : Type 0} (flush : List ℕ → Handler S (Unit {0})) (Inv : List ℕ → S → Type 0)
    (step : (done piece : List ℕ) (s : S)
      → Inv done s
      → OnOk (λ _ t. Inv (done ++ piece) t) (flush piece s)) where
  -- What is stored and what is in the buffer make up the same bytes.
  pub record Splits (bytes rest : List ℕ) (s : S) : Type 0 where
    pub stored : List ℕ
    pub whole : stored ++ rest ≡ bytes
    pub keeps : Inv stored s

  flush_full-Splits :
      (fuel n : ℕ) (buffer done : List ℕ) (s : S)
      → Inv done s
      → OnOk (λ rest t. Splits (done ++ buffer) rest t) (flush_full flush fuel n buffer s)
  unfolding flush_full
  flush_full-Splits zero n buffer done s h = elim (Bool-cases (leb n (length buffer))) [
    | inl e ↦ rw e tt
    | inr e ↦ rw e (record { stored = done; whole = refl; keeps = h })
  ]
  flush_full-Splits (suc fuel) n buffer done s h = elim (Bool-cases (leb n (length buffer))) [
    | inr e ↦ rw e (record { stored = done; whole = refl; keeps = h })
    | inl e ↦
        let again =
          on_ok (λ (_ : Unit {0}) (t : S). Inv (done ++ take n buffer) t)
            (λ rest t. Splits (done ++ buffer) rest t) (flush (take n buffer) s)
            (λ _. flush_full flush fuel n (drop n buffer)) (step done (take n buffer) s h)
            (λ _ t g.
              regroup (flush_full flush fuel n (drop n buffer) t)
                (flush_full-Splits fuel n (drop n buffer) (done ++ take n buffer) t g)) in
        rw e again
  ]
    where
      same : (done ++ take n buffer) ++ drop n buffer ≡ done ++ buffer
      same =
          append_assoc done (take n buffer) (drop n buffer)
          ∙ ap (◌++◌ done) (take-append-drop n buffer)

      regroup :
          (q : HttpResult (List ℕ) × S)
          → OnOk (λ rest t. Splits ((done ++ take n buffer) ++ drop n buffer) rest t) q
          → OnOk (λ rest t. Splits (done ++ buffer) rest t) q
      regroup q g = subst (λ (bytes : List ℕ). OnOk (λ rest t. Splits bytes rest t) q) same g

  -- The end of the loop over the fragments: the buffer, the size, and what was hashed.
  abbrev Read : List ℕ → ℕ → List ℕ → List ℕ → List ℕ × ℕ × List ℕ → S → Type 0
  Read bytes total hashed more (rest, size, seen) t =
      (size ≡ total + length more) × (seen ≡ hashed ++ more) × Splits (bytes ++ more) rest t

  stream_fragments-Read :
      (fails : Bool) (n : ℕ) (gs : List (List ℕ)) (buffer : List ℕ) (total : ℕ)
      (hashed bytes : List ℕ) (s : S)
      → Splits bytes buffer s
      → OnOk
          (Read bytes total hashed (concat gs))
          (stream_fragments flush fails n gs buffer total hashed s)
  unfolding stream_fragments
  stream_fragments-Read true n [] buffer total hashed bytes s h = tt
  stream_fragments-Read false n [] buffer total hashed bytes s h = (
    omega arith,
    sym (append-nil hashed),
    subst (λ (b : List ℕ). Splits b buffer s) (sym (append-nil bytes)) h,
  )
  stream_fragments-Read fails n (g ∷ gs) buffer total hashed bytes s h =
      elim (Bool-cases (ltb max_object_size (total + length g))) [
        | inl e ↦ rw e tt
        | inr e ↦
            let again =
              on_ok (λ rest t. Splits (h.stored ++ (buffer ++ g)) rest t)
                (Read bytes total hashed (concat (g ∷ gs)))
                (flush_full flush (length (buffer ++ g)) n (buffer ++ g) s)
                (λ rest. stream_fragments flush fails n gs rest (total + length g) (hashed ++ g))
                (flush_full-Splits (length (buffer ++ g)) n (buffer ++ g) h.stored s h.keeps)
                (λ rest t k.
                  regroup
                    (stream_fragments flush fails n gs rest (total + length g) (hashed ++ g) t)
                    (stream_fragments-Read fails n gs rest (total + length g) (hashed ++ g)
                      (h.stored ++ (buffer ++ g)) t k)) in
            rw e again
      ]
    where
      same : (h.stored ++ (buffer ++ g)) ++ concat gs ≡ bytes ++ (g ++ concat gs)
      same =
          ap (λ (b : List ℕ). b ++ concat gs)
            (sym (append_assoc h.stored buffer g) ∙ ap (λ (b : List ℕ). b ++ g) h.whole)
          ∙ append_assoc bytes g (concat gs)

      longer : length (g ++ concat gs) ≡ length g + length (concat gs)
      longer = length-append g (concat gs)

      regroup :
          (q : HttpResult (List ℕ × ℕ × List ℕ) × S)
          → OnOk (Read (h.stored ++ (buffer ++ g)) (total + length g) (hashed ++ g) (concat gs)) q
          → OnOk (Read bytes total hashed (concat (g ∷ gs))) q
      regroup (ok (rest, size, seen), t) (a, b, c) = (
        omega (arith, a, longer),
        b ∙ append_assoc hashed g (concat gs),
        subst (λ (x : List ℕ). Splits x rest t) same c,
      )
      regroup (err c, t) k = tt
      regroup (panicked, t) k = tt
      regroup (diverged, t) k = tt

  flush_remaining-Inv :
      (rest bytes : List ℕ) (s : S)
      → Splits bytes rest s
      → OnOk (λ _ t. Inv bytes t) (flush_remaining flush rest s)
  unfolding flush_remaining
  flush_remaining-Inv [] bytes s h =
      subst (λ (b : List ℕ). Inv b s) (sym (append-nil h.stored) ∙ h.whole) h.keeps
  flush_remaining-Inv (r ∷ rest) bytes s h =
      subst (λ (b : List ℕ). OnOk (λ _ t. Inv b t) (flush (r ∷ rest) s)) h.whole
        (step h.stored (r ∷ rest) s h.keeps)

  OnOk-undone :
      {A : Type 0} (undo : S → S) (P : A → S → Type 0) (q : HttpResult A × S)
      → OnOk P q
      → OnOk P (undone undo q)
  OnOk-undone undo P (ok a, t) h = h
  OnOk-undone undo P (err e, t) h = tt
  OnOk-undone undo P (panicked, t) h = tt
  OnOk-undone undo P (diverged, t) h = tt

  -- A stream that ends well has stored its bytes, and it returns their number and the bytes.
  pub stream_field-Inv :
      (undo : S → S) (n : ℕ) (field : Field) (s : S)
      → Inv [] s
      → OnOk
          (λ q t.
            (q.0 ≡ length (concat field.fragments))
            × (q.1 ≡ concat field.fragments)
            × Inv (concat field.fragments) t)
          (stream_field flush undo n field s)
  unfolding stream_field
  stream_field-Inv undo n field s h =
      on_ok (Read [] 0 [] bytes) Good
        (undone undo (stream_fragments flush field.fails n field.fragments [] 0 [] s))
        (λ (buffer, total, hashed).
          or_undo undo (flush_remaining flush buffer) >> pure (total, hashed))
        (OnOk-undone undo (Read [] 0 [] bytes)
          (stream_fragments flush field.fails n field.fragments [] 0 [] s)
          (stream_fragments-Read field.fails n field.fragments [] 0 [] [] s
            (record { stored = []; whole = refl; keeps = h })))
        (λ q t r. at_end q t r)
    where
      bytes : List ℕ
      bytes = concat field.fragments

      Good : ℕ × List ℕ → S → Type 0
      Good q t = (q.0 ≡ length bytes) × (q.1 ≡ bytes) × Inv bytes t

      at_end :
          (q : List ℕ × ℕ × List ℕ) (t : S)
          → Read [] 0 [] bytes q t
          → OnOk Good ((or_undo undo (flush_remaining flush q.0) >> pure (q.1, q.2)) t)
      at_end (rest, size, seen) t (a, b, c) =
          on_ok (λ _ t'. Inv bytes t') Good (undone undo (flush_remaining flush rest t))
            (λ _. pure (size, seen))
            (OnOk-undone undo (λ _ t'. Inv bytes t') (flush_remaining flush rest t)
              (flush_remaining-Inv rest bytes t c))
            (λ _ t' g. (omega (arith, a), b, g))
