-- ===== src/ChunkStore/File/Reads.antt =====
-- What `read_exact_at` returns, on every answer of the system.
use object_store.Common.{
  ℕ, zero, suc, ◌+◌, ◌-◌, ◌≤◌, ◌≡◌, ◌≢◌, refl, ap, ◌∙◌, ◌⊎◌, inl, inr, List, ◌++◌, arith, min,
  if-suc,
}
use object_store.Common.Io.{
  Result, ok, err, diverged, panicked, unexpected_eof, other, pure, continue,
}
use object_store.ChunkStore.Bytes.{slice, length-slice, slice-append}
use object_store.ChunkStore.File.{
  File, answer, moves, fails, count_call, answer-cases, IsReliable, read_at, read_loop,
  read_exact_at,
}

ℕ-cases : (n : ℕ) → (n ≡ 0) ⊎ ((k : ℕ) × (n ≡ suc k))
ℕ-cases zero = inl refl
ℕ-cases (suc k) = inr (k, refl)

-- `r` is what reading `count` bytes at `off` may return, and `f'` is `f` but for the calls made.
pub record Reads (count off : ℕ) (f f' : File) (r : Result (List ℕ)) : Type 0 where
  pub got : (xs : List ℕ) → r ≡ ok xs → xs ≡ slice f.bytes off count
  pub bytes : f'.bytes ≡ f.bytes
  pub size : f'.size ≡ f.size
  pub answers : f'.answers ≡ f.answers
  pub ends : r ≢ diverged
  pub calm : r ≢ panicked
  pub reliable : IsReliable f → off + count ≤ f.size → r ≡ ok (slice f.bytes off count)

module _ (fuel count off : ℕ) (f : File) where
  fails-step : answer f ≡ fails → read_loop (suc fuel) (suc count) off f ≡ (err other, count_call f)
  unfolding read_loop read_at
  fails-step e = ground arith

  read-step :
      (n k : ℕ)
      → answer f ≡ moves n
      → min n (min (suc count) (f.size - off)) ≡ k
      → read_at (suc count) off f ≡ (ok (slice f.bytes off k), count_call f)
  unfolding read_at
  read-step n k e z = ground arith

  zero-step :
      (n : ℕ)
      → answer f ≡ moves n
      → min n (min (suc count) (f.size - off)) ≡ 0
      → read_loop (suc fuel) (suc count) off f ≡ (err unexpected_eof, count_call f)
  unfolding read_loop slice
  zero-step n e z = rw (read-step n 0 e z, read_loop)

  -- The rounds after one that read `k` bytes.
  abbrev rest : ℕ → Result (List ℕ) × File
  rest k = read_loop fuel (suc count - k) (off + k) (count_call f)

  moves-step :
      (n k : ℕ)
      → answer f ≡ moves n
      → min n (min (suc count) (f.size - off)) ≡ suc k
      → read_loop (suc fuel) (suc count) off f
        ≡ continue (rest (suc k)).0 (λ xs. pure (slice f.bytes off (suc k) ++ xs)) (rest (suc k)).1
  unfolding read_loop
  moves-step n k e z =
      rw (read-step n (suc k) e z, read_loop)
        (rw (length-slice f.bytes off (suc k)) (rw (if-suc k) refl))

stopped :
    (count off : ℕ) (f : File) (r : Result (List ℕ))
    → (r ≡ err other) ⊎ (r ≡ err unexpected_eof)
    → ¬ (IsReliable f × (off + count ≤ f.size))
    → Reads count off f (count_call f) r
stopped count off f r h l = record {
  got = λ xs e. ground arith;
  bytes = refl;
  size = refl;
  answers = refl;
  ends = λ e. ground arith;
  calm = λ e. ground arith;
  reliable = λ v w. absurd (l (v, w));
}

-- A reliable system reads something where there is something to read.
unreliable :
    (count off : ℕ) (f : File)
    → (answer f ≡ fails)
      ⊎ ((n : ℕ) × (answer f ≡ moves n) × (min n (min (suc count) (f.size - off)) ≡ 0))
    → ¬ (IsReliable f × (off + suc count ≤ f.size))
unreliable count off f (inl e) (v, w) = let (m, p) = v f.calls in ground arith
unreliable count off f (inr (n, e, z)) (v, w) = let (m, p) = v f.calls in ground arith

-- A round that read `k` bytes, and the rounds after it.
then-Reads :
    (k m count off : ℕ) (f f' : File) (r : Result (List ℕ))
    → k + m ≡ count
    → Reads m (off + k) (count_call f) f' r
    → let q = continue r (λ xs. pure (slice f.bytes off k ++ xs)) f' in Reads count off f q.1 q.0
then-Reads k m count off f f' (ok xs) e w = record {
  got = λ ys p. cc (whole, p);
  bytes = w.bytes;
  size = w.size;
  answers = w.answers;
  ends = λ p. cc;
  calm = λ p. cc;
  reliable = λ _ _. ap ok whole;
}
  where
    whole : slice f.bytes off k ++ xs ≡ slice f.bytes off count
    whole = ap (◌++◌ (slice f.bytes off k)) (w.got xs refl) ∙ slice-append f.bytes off k m count e
then-Reads k m count off f f' (err x) e w = record {
  got = λ ys p. cc;
  bytes = w.bytes;
  size = w.size;
  answers = w.answers;
  ends = λ p. cc;
  calm = λ p. cc;
  reliable = λ v h. absurd (cc (w.reliable v (omega arith)));
}
then-Reads k m count off f f' panicked e w = absurd (w.calm refl)
then-Reads k m count off f f' diverged e w = absurd (w.ends refl)

read_loop-Reads :
    (fuel count off : ℕ) (f : File)
    → count ≤ fuel
    → Reads count off f (read_loop fuel count off f).1 (read_loop fuel count off f).0
unfolding read_loop slice
read_loop-Reads fuel zero off f h = record {
  got = λ xs e. ground arith;
  bytes = refl;
  size = refl;
  answers = refl;
  ends = λ e. cc;
  calm = λ e. cc;
  reliable = λ _ _. refl;
}
read_loop-Reads zero (suc count) off f h = absurd (omega arith)
read_loop-Reads (suc fuel) (suc count) off f h = elim (answer-cases f) [
  | inl e ↦
      rw (fails-step fuel count off f e)
        (stopped (suc count) off f (err other) (inl refl) (unreliable count off f (inl e)))
  | inr (n, e) ↦ elim (ℕ-cases (min n (min (suc count) (f.size - off)))) [
    | inl z ↦ rw (zero-step fuel count off f n e z) (
        stopped (suc count) off f (err unexpected_eof) (inr refl)
          (unreliable count off f (inr (n, e, z))))
    | inr (k, z) ↦ rw (moves-step fuel count off f n k e z) (
        then-Reads (suc k) (suc count - suc k) (suc count) off f _ _ (omega arith)
          (read_loop-Reads fuel (suc count - suc k) (off + suc k) (count_call f) (omega arith)))
  ]
]

-- Whatever the system answers, `read_exact_at` ends and leaves the file's contents; what it
-- returns are the bytes at the position; and where each call moves at least a byte it returns
-- them, if the file is that long.
pub read_exact_at-Reads :
    (count off : ℕ) (f : File)
    → Reads count off f (read_exact_at count off f).1 (read_exact_at count off f).0
read_exact_at-Reads count off f = read_loop-Reads count count off f (omega arith)
