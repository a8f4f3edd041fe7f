-- ===== src/ChunkStore/Bytes.antt =====
-- Little-endian numbers, and the bytes of a file seen as a function of the position.
use object_store.Common.{
  ℕ, zero, suc, ◌+◌, ◌*◌, ◌/◌, ◌%◌, ◌≤◌, ◌<◌, ◌≡◌, refl, ap, ◌⊎◌, inl, inr, List, [], ◌∷◌, ◌++◌,
  ◌∙◌, arith, length, ◌==◌, if◌then◌else◌,
}

-- `to_le_bytes` of a number of `w` bytes, and `from_le_bytes`.
unfoldable pub to_le_bytes : ℕ → ℕ → List ℕ
to_le_bytes zero x = []
to_le_bytes (suc w) x = (x % 256) ∷ to_le_bytes w (x / 256)

unfoldable pub from_le_bytes : List ℕ → ℕ
from_le_bytes [] = 0
from_le_bytes (b ∷ bs) = b + 256 * from_le_bytes bs

pub length-to_le_bytes : (w x : ℕ) → length (to_le_bytes w x) ≡ w
unfolding to_le_bytes
length-to_le_bytes zero x = refl
length-to_le_bytes (suc w) x = ap suc (length-to_le_bytes w (x / 256))

-- The numbers that `w` bytes hold.
abbrev pub limit : ℕ → ℕ
limit zero = 1
limit (suc w) = 256 * limit w

pub from_le_bytes-to_le_bytes : (w x : ℕ) → x < limit w → from_le_bytes (to_le_bytes w x) ≡ x
unfolding to_le_bytes from_le_bytes
from_le_bytes-to_le_bytes zero x h = omega arith
from_le_bytes-to_le_bytes (suc w) x h =
    omega (arith, from_le_bytes-to_le_bytes w (x / 256) (omega arith))

-- The `n` bytes from a position on.
unfoldable pub slice : (ℕ → ℕ) → ℕ → ℕ → List ℕ
slice b off zero = []
slice b off (suc n) = b off ∷ slice b (off + 1) n

-- The byte at `i` once `xs` is written at `off` over the byte `old`.
unfoldable pub patched : ℕ → ℕ → List ℕ → ℕ → ℕ
patched old off [] i = old
patched old off (x ∷ xs) i = if i == off then x else patched old (off + 1) xs i

abbrev pub Outside : ℕ → ℕ → ℕ → Type 0
Outside off n i = (i < off) ⊎ (off + n ≤ i)

pub patched-Outside :
    (old off : ℕ) (xs : List ℕ) (i : ℕ) → Outside off (length xs) i → patched old off xs i ≡ old
unfolding patched
patched-Outside old off [] i h = refl
patched-Outside old off (x ∷ xs) i (inl h) =
    ground (arith, patched-Outside old (off + 1) xs i (inl (omega arith)))
patched-Outside old off (x ∷ xs) i (inr h) =
    ground (arith, patched-Outside old (off + 1) xs i (inr (omega arith)))

-- Writing a first part and then the others is writing all.
pub patched-append :
    (old off : ℕ) (xs ys : List ℕ) (i : ℕ)
    → patched (patched old off xs i) (off + length xs) ys i ≡ patched old off (xs ++ ys) i
unfolding patched
patched-append old off [] ys i = let e : off + 0 ≡ off = omega arith in rw e
patched-append old off (x ∷ xs) ys i =
    let e : off + suc (length xs) ≡ off + 1 + length xs = omega arith in
    rw e (
      ground
        (arith, patched-append old (off + 1) xs ys i, patched-Outside x (off + 1 + length xs) ys i))

pub slice-eq :
    (b c : ℕ → ℕ) (off n : ℕ)
    → ((i : ℕ) → off ≤ i → i < off + n → b i ≡ c i)
    → slice b off n ≡ slice c off n
unfolding slice
slice-eq b c off zero h = refl
slice-eq b c off (suc n) h = cc (
  h off (omega arith) (omega arith),
  slice-eq b c (off + 1) n (λ i p q. h i (omega arith) (omega arith)),
)

-- What is written at a position is read there.
pub slice-patched :
    (b c : ℕ → ℕ) (off : ℕ) (xs : List ℕ)
    → ((i : ℕ) → c i ≡ patched (b i) off xs i)
    → slice c off (length xs) ≡ xs
unfolding slice patched
slice-patched b c off [] h = refl
slice-patched b c off (x ∷ xs) h =
    let rest : ℕ → ℕ = λ i. patched (b i) (off + 1) xs i in
    cc (
      head,
      slice-eq c rest (off + 1) (length xs) (λ i p q. h i ∙ ground arith),
      slice-patched b rest (off + 1) xs (λ i. refl),
    )
  where
    head : c off ≡ x
    head = h off ∙ ground arith

pub length-slice : (b : ℕ → ℕ) (off n : ℕ) → length (slice b off n) ≡ n
unfolding slice
length-slice b off zero = refl
length-slice b off (suc n) = ap suc (length-slice b (off + 1) n)

pub slice-append :
    (b : ℕ → ℕ) (off n m k : ℕ) → n + m ≡ k → slice b off n ++ slice b (off + n) m ≡ slice b off k
unfolding slice
slice-append b off zero m k e =
    let here : off + 0 ≡ off = omega arith in let all : m ≡ k = omega arith in rw (here, all)
slice-append b off (suc n) m zero e = absurd (omega arith)
slice-append b off (suc n) m (suc k) e =
    let next : off + suc n ≡ off + 1 + n = omega arith in
    rw next (ap (◌∷◌ (b off)) (slice-append b (off + 1) n m k (omega arith)))
