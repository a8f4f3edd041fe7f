-- ===== src/ChunkStore/File/Writes.antt =====
-- What `write_all_at` does to a file, on every answer of the system.
use object_store.Common.{
  ℕ, zero, suc, ◌+◌, ◌≤◌, ◌≡◌, ◌≢◌, refl, ap, subst, ◌∙◌, ◌⊎◌, ◌++◌, inl, inr, List, [], ◌∷◌, arith,
  length, take, drop, length-drop, take-append-drop, length-append, drop-length-take,
}
use object_store.Common.Io.{Result, ok, err, panicked, diverged, write_zero, other}
use object_store.ChunkStore.Bytes.{patched, Outside, patched-Outside, patched-append}
use object_store.ChunkStore.File.{
  File, answer, moves, fails, count_call, answer-cases, IsReliable, write_at, write_loop,
  after_write, write_all_at,
}

-- `f'` is `f` with `buf` written at `off`, as far as the result `r` says.
pub record Writes (buf : List ℕ) (off : ℕ) (f f' : File) (r : Result (Unit {0})) : Type 0 where
  pub outside : (i : ℕ) → Outside off (length buf) i → f'.bytes i ≡ f.bytes i
  pub written : r ≡ ok tt → (i : ℕ) → f'.bytes i ≡ patched (f.bytes i) off buf i
  pub size : off + length buf ≤ f.size → f'.size ≡ f.size
  pub answers : f'.answers ≡ f.answers
  pub ends : r ≢ diverged
  pub calm : r ≢ panicked
  pub reliable : IsReliable f → r ≡ ok tt

module _ (fuel : ℕ) (b : ℕ) (bs : List ℕ) (off : ℕ) (f : File) where
  fails-step : answer f ≡ fails → write_loop (suc fuel) (b ∷ bs) off f ≡ (err other, count_call f)
  unfolding write_loop write_at
  fails-step e = ground arith

  zero-step :
      answer f ≡ moves 0 → write_loop (suc fuel) (b ∷ bs) off f ≡ (err write_zero, count_call f)
  unfolding write_loop write_at patched
  zero-step e = ground arith

  moves-step :
      (n : ℕ)
      → answer f ≡ moves (suc n)
      → write_loop (suc fuel) (b ∷ bs) off f
        ≡ write_loop fuel
            (drop n bs)
            (off + suc (length (take n bs)))
            (after_write (b ∷ take n bs) off f)
  unfolding write_loop write_at
  moves-step n e = ground (arith, drop-length-take n bs)

stopped :
    (buf : List ℕ) (off : ℕ) (f : File) (r : Result (Unit {0}))
    → r ≢ ok tt
    → r ≢ diverged
    → r ≢ panicked
    → ¬ IsReliable f
    → Writes buf off f (count_call f) r
stopped buf off f r h k c l = record {
  outside = λ i o. refl;
  written = λ e. absurd (h e);
  size = λ _. refl;
  answers = refl;
  ends = k;
  calm = c;
  reliable = λ v. absurd (l v);
}

-- A reliable system gives neither of the answers that end a loop.
unreliable : (f : File) → (answer f ≡ fails) ⊎ (answer f ≡ moves 0) → ¬ IsReliable f
unreliable f e v = let (n, p) = v f.calls in ground arith

-- A round that moves some bytes, and the rounds after it.
then-Writes :
    (part rest : List ℕ) (off : ℕ) (f f' : File) (r : Result (Unit {0}))
    → Writes rest (off + length part) (after_write part off f) f' r
    → Writes (part ++ rest) off f f' r
then-Writes part rest off f f' r w = record {
  outside = λ i o.
      w.outside i (ground (arith, length-append part rest))
      ∙ patched-Outside (f.bytes i) off part i (ground (arith, length-append part rest));
  written = λ e i. w.written e i ∙ patched-append (f.bytes i) off part rest i;
  size = λ h. w.size (ground (arith, inside h, length-append part rest)) ∙ inside h;
  answers = w.answers;
  ends = w.ends;
  calm = w.calm;
  reliable = w.reliable;
}
  where
    inside : off + length (part ++ rest) ≤ f.size → (after_write part off f).size ≡ f.size
    inside h = ground (arith, length-append part rest)

write_loop-Writes :
    (fuel : ℕ) (buf : List ℕ) (off : ℕ) (f : File)
    → length buf ≤ fuel
    → Writes buf off f (write_loop fuel buf off f).1 (write_loop fuel buf off f).0
unfolding write_loop patched
write_loop-Writes fuel [] off f h = record {
  outside = λ i o. refl;
  written = λ e i. refl;
  size = λ _. refl;
  answers = refl;
  ends = λ e. cc;
  calm = λ e. cc;
  reliable = λ _. refl;
}
write_loop-Writes zero (b ∷ bs) off f h = absurd (omega arith)
write_loop-Writes (suc fuel) (b ∷ bs) off f h = elim (answer-cases f) [
  | inl e ↦
      rw (fails-step fuel b bs off f e)
        (stopped (b ∷ bs) off f (err other) (λ p. cc) (λ p. cc) (λ p. cc) (unreliable f (inl e)))
  | inr (zero, e) ↦
      rw (zero-step fuel b bs off f e) (
        stopped (b ∷ bs) off f (err write_zero) (λ p. cc) (λ p. cc) (λ p. cc)
          (unreliable f (inr e)))
  | inr (suc n, e) ↦
      let part = b ∷ take n bs in
      let rounds = write_loop fuel (drop n bs) (off + length part) (after_write part off f) in
      rw (moves-step fuel b bs off f n e) (
        subst (λ (l : List ℕ). Writes l off f rounds.1 rounds.0)
          (ap (◌∷◌ b) (take-append-drop n bs))
          (then-Writes part (drop n bs) off f rounds.1 rounds.0 (
            write_loop-Writes fuel (drop n bs) (off + length part) (after_write part off f)
              (omega (arith, length-drop n bs)))))
]

-- Whatever the system answers, `write_all_at` ends; it changes no byte outside the buffer's place,
-- and no size where that place is inside; when it succeeds the buffer is there; and where each
-- call moves at least a byte it succeeds.
pub write_all_at-Writes :
    (buf : List ℕ) (off : ℕ) (f : File)
    → Writes buf off f (write_all_at buf off f).1 (write_all_at buf off f).0
write_all_at-Writes buf off f = write_loop-Writes (length buf) buf off f (omega arith)
