-- ===== src/ChunkStore/Slots/Read.antt =====
-- What `read_chunk_header` and `read_chunk_optimized` return.
use object_store.Common.{
  ℕ, zero, suc, ◌+◌, ◌≤◌, ◌≡◌, ◌≢◌, refl, sym, subst, ◌∙◌, List, [], arith, if◌then◌else◌, ◌==◌,
  Bool-cases, inl, inr,
}
use object_store.Common.Io.{Result, ok, err, panicked, diverged, continue}
use object_store.ChunkStore.Bytes.{slice}
use object_store.ChunkStore.Header.{ChunkHeader, chunk_header_size, magic_number, from_bytes}
use object_store.ChunkStore.File.{File, IsReliable, read_exact_at}
use object_store.ChunkStore.File.Reads.{read_exact_at-Reads}
use object_store.ChunkStore.Slots.{
  slot_offset, data_offset, read_data, read_chunk_header, read_chunk_optimized,
}

-- `r` can only be the value `v`, or an error, and the file stays as it is; on a reliable system it
-- is the value, if the file is long enough.
pub record Returns {ℓ} {A : Type ℓ} (v : A) (n : ℕ) (f f' : File) (r : Result A) : Type ℓ where
  pub got : (a : A) → r ≡ ok a → a ≡ v
  pub bytes : f'.bytes ≡ f.bytes
  pub size : f'.size ≡ f.size
  pub answers : f'.answers ≡ f.answers
  pub ends : r ≢ diverged
  pub calm : r ≢ panicked
  pub reliable : IsReliable f → n ≤ f.size → r ≡ ok v

pub pure-Returns {ℓ} : {A : Type ℓ} (v : A) (n : ℕ) (f : File) → Returns v n f f (ok v)
pure-Returns v n f = record {
  got = λ a e. ground arith;
  bytes = refl;
  size = refl;
  answers = refl;
  ends = λ e. cc;
  calm = λ e. cc;
  reliable = λ _ _. refl;
}

-- One read after another.
pub then-Returns :
    {A B : Type 0} (v : A) (w : B) (m n : ℕ) (f f' : File) (r : Result A)
    (k : A → File → Result B × File)
    → m ≤ n
    → Returns v m f f' r
    → Returns w n f' (k v f').1 (k v f').0
    → let q = continue r k f' in Returns w n f q.1 q.0
then-Returns v w m n f f' (ok a) k le h next =
    subst (λ x. Returns w n f (k x f').1 (k x f').0) (sym (h.got a refl))
      (record {
        got = next.got;
        bytes = next.bytes ∙ h.bytes;
        size = next.size ∙ h.size;
        answers = next.answers ∙ h.answers;
        ends = next.ends;
        calm = next.calm;
        reliable = λ good fits. next.reliable (rw h.answers good) (rw h.size fits);
      })
then-Returns v w m n f f' (err e) k le h next = record {
  got = λ a p. cc;
  bytes = h.bytes;
  size = h.size;
  answers = h.answers;
  ends = λ p. cc;
  calm = λ p. cc;
  reliable = λ good fits. absurd (cc (h.reliable good (omega arith)));
}
then-Returns v w m n f f' panicked k le h next = absurd (h.calm refl)
then-Returns v w m n f f' diverged k le h next = absurd (h.ends refl)

read-Returns :
    (count off : ℕ) (f : File)
    → Returns
        (slice f.bytes off count)
        (off + count)
        f
        (read_exact_at count off f).1
        (read_exact_at count off f).0
read-Returns count off f =
    let h = read_exact_at-Reads count off f in
    record {
      got = h.got;
      bytes = h.bytes;
      size = h.size;
      answers = h.answers;
      ends = h.ends;
      calm = h.calm;
      reliable = h.reliable;
    }

-- The header that the file holds in a slot.
abbrev pub header_in : File → ℕ → ChunkHeader
header_in f slot = from_bytes (slice f.bytes (slot_offset slot) chunk_header_size)

pub read_chunk_header-Returns :
    (slot : ℕ) (f : File)
    → let q = read_chunk_header slot f in
      Returns (header_in f slot) (slot_offset slot + chunk_header_size) f q.1 q.0
unfolding read_chunk_header
read_chunk_header-Returns slot f =
    then-Returns _ _ _ _ f _ _ _ (omega arith) (read-Returns chunk_header_size (slot_offset slot) f)
      (pure-Returns _ _ _)

-- The data that the file holds in a slot, for the length in its header.
abbrev pub data_in : File → ℕ → List ℕ
data_in f slot = slice f.bytes (data_offset slot) (header_in f slot).data_len

read_data-Returns :
    (count off : ℕ) (f : File)
    → Returns
        (slice f.bytes off count)
        (off + count)
        f
        (read_data count off f).1
        (read_data count off f).0
unfolding read_data slice
read_data-Returns zero off f = pure-Returns [] _ f
read_data-Returns (suc n) off f = read-Returns (suc n) off f

-- What `read_chunk_optimized` reads from a slot.
abbrev pub chunk_in : File → ℕ → ChunkHeader × List ℕ
chunk_in f slot =
    (header_in f slot, if (header_in f slot).magic == magic_number then data_in f slot else [])

-- The call returns the header and the data of the slot, no data where the magic number is missing,
-- or an error of the system; it leaves the file; and on a reliable system it returns them, if the
-- data lies inside the file.
pub read_chunk_optimized-Returns :
    (slot : ℕ) (f : File)
    → let q = read_chunk_optimized slot f in
      Returns (chunk_in f slot) (data_offset slot + (header_in f slot).data_len) f q.1 q.0
unfolding read_chunk_optimized
read_chunk_optimized-Returns slot f =
    then-Returns _ _ _ _ f _ _ _ (omega arith) header
      (elim (Bool-cases ((header_in f slot).magic == magic_number)) [
        | inl e ↦ rw e (
            then-Returns _ _ _ _ read_on _ _ _ (omega arith)
              (subst (λ b. Returns (slice b off n) (off + n) read_on rest.1 rest.0) header.bytes
                (read_data-Returns n off read_on))
              (pure-Returns _ _ _))
        | inr e ↦ rw e (pure-Returns _ _ _)
      ])
  where
    header :
        Returns
          (header_in f slot)
          (slot_offset slot + chunk_header_size)
          f
          (read_chunk_header slot f).1
          (read_chunk_header slot f).0
    header = read_chunk_header-Returns slot f

    read_on : File
    read_on = (read_chunk_header slot f).1

    off : ℕ
    off = data_offset slot

    n : ℕ
    n = (header_in f slot).data_len

    rest : Result (List ℕ) × File
    rest = read_data n off read_on
