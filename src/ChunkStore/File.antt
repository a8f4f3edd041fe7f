-- ===== src/ChunkStore/File.antt =====
-- `File`, `write_all_at` and `read_exact_at` of storage-node/src/chunk_store.rs. The system's
-- answers to the calls on the file are a stream: the n-th call moves so many bytes, or fails.
pub mod Writes
pub mod Reads
use object_store.Common.{
  ℕ, zero, suc, ◌+◌, ◌-◌, ◌≡◌, refl, ◌⊎◌, inl, inr, List, [], ◌∷◌, ◌++◌, length, take, drop, min,
  max, ltb, ◌==◌, if◌then◌else◌,
}
use object_store.Common.Io.{
  Op, ok, err, diverged, write_zero, unexpected_eof, other, pure, raise, ◌>>=◌,
}
use object_store.ChunkStore.Bytes.{slice, patched}

pub data Answer : Type 0 where
  moves : ℕ → Answer
  fails : Answer

pub record File : Type 0 where
  pub bytes : ℕ → ℕ
  pub size : ℕ
  pub answers : ℕ → Answer
  pub calls : ℕ

-- The answer to the next call.
abbrev pub answer : File → Answer
answer f = f.answers f.calls

abbrev pub count_call : File → File
count_call f = record f { calls = f.calls + 1 }

-- The file once `part` is in it at `offset`, past its end too.
abbrev pub after_write : List ℕ → ℕ → File → File
after_write part offset f = record f {
  bytes = λ i. patched (f.bytes i) offset part i;
  size = if length part == 0 then f.size else max f.size (offset + length part);
  calls = f.calls + 1;
}

-- `FileExt::write_at` writes a first part of the buffer.
unfoldable pub write_at : List ℕ → ℕ → Op File ℕ
write_at buf offset f = elim (answer f) [
  | fails ↦ (err other, count_call f)
  | moves n ↦ (ok (length (take n buf)), after_write (take n buf) offset f)
]

-- `FileExt::read_at`: at most `count` bytes, none at or past the end.
unfoldable pub read_at : ℕ → ℕ → Op File (List ℕ)
read_at count offset f = elim (answer f) [
  | fails ↦ (err other, count_call f)
  | moves n ↦ (ok (slice f.bytes offset (min n (min count (f.size - offset)))), count_call f)
]

-- `File::sync_data`
unfoldable pub sync_data : Op File (Unit {0})
sync_data f = elim (answer f) [
  | fails ↦ (err other, count_call f)
  | moves n ↦ (ok tt, count_call f)
]

-- The length in `File::metadata`.
unfoldable pub metadata_len : Op File ℕ
metadata_len f = elim (answer f) [
  | fails ↦ (err other, count_call f)
  | moves n ↦ (ok f.size, count_call f)
]

-- `File::set_len`: what is cut off is gone, and what is added reads as 0.
unfoldable pub set_len : ℕ → Op File (Unit {0})
set_len n f = elim (answer f) [
  | fails ↦ (err other, count_call f)
  | moves _ ↦ (
    ok tt,
    record f { bytes = λ i. if ltb i f.size then f.bytes i else 0; size = n; calls = f.calls + 1 },
  )
]

-- The loop of `write_all_at`: each round writes at least one byte or returns.
unfoldable pub write_loop : ℕ → List ℕ → ℕ → Op File (Unit {0})
write_loop fuel [] offset f = (ok tt, f)
write_loop zero (b ∷ bs) offset f = (diverged, f)
write_loop (suc fuel) (b ∷ bs) offset f =
    (do
      written ← write_at (b ∷ bs) offset
      let rest = write_loop fuel (drop written (b ∷ bs)) (offset + written)
      if written == 0 then raise write_zero else rest)
      f

abbrev pub write_all_at : List ℕ → ℕ → Op File (Unit {0})
write_all_at buf offset = write_loop (length buf) buf offset

-- The loop of `read_exact_at`: `count` bytes are still to be filled.
unfoldable pub read_loop : ℕ → ℕ → ℕ → Op File (List ℕ)
read_loop fuel zero offset f = (ok [], f)
read_loop zero (suc count) offset f = (diverged, f)
read_loop (suc fuel) (suc count) offset f =
    (do
      part ← read_at (suc count) offset
      let read = length part
      let rest = do tail ← read_loop fuel (suc count - read) (offset + read); pure (part ++ tail)
      if read == 0 then raise unexpected_eof else rest)
      f

abbrev pub read_exact_at : ℕ → ℕ → Op File (List ℕ)
read_exact_at count offset = read_loop count count offset

pub answer-cases : (f : File) → (answer f ≡ fails) ⊎ ((n : ℕ) × (answer f ≡ moves n))
answer-cases f = split (answer f)
  where
    split : (a : Answer) → (a ≡ fails) ⊎ ((n : ℕ) × (a ≡ moves n))
    split fails = inl refl
    split (moves n) = inr (n, refl)

-- Every call on the file moves at least one byte: none fails, and short ones are allowed.
abbrev pub IsReliable : File → Type 0
IsReliable f = (k : ℕ) → (n : ℕ) × (f.answers k ≡ moves (suc n))

pub sync_data-cases :
    (f : File)
    → ((answer f ≡ fails) × (sync_data f ≡ (err other, count_call f)))
      ⊎ (sync_data f ≡ (ok tt, count_call f))
unfolding sync_data
sync_data-cases f = elim (answer-cases f) [
  | inl e ↦ inl (e, rw (e, sync_data))
  | inr (n, e) ↦ inr (rw (e, sync_data))
]
