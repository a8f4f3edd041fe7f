-- ===== src/Common/Io.antt =====
-- `std::io::Result` with the ways a call can end beside it, and operations on a state that may
-- fail: what was changed before an error stays changed, so the state comes back beside it.

-- `std::io::ErrorKind`, as far as the program names it; `other` is an error of the system.
pub data ErrorKind : Type 0 where
  already_exists storage_full not_found invalid_data invalid_input : ErrorKind
  host_unreachable write_zero unexpected_eof other : ErrorKind

-- `panicked` is a failed assertion. `diverged` says that a loop used up the rounds it was given.
pub data Result {ℓ} (A : Type ℓ) : Type ℓ where
  ok : A → Result A
  err : ErrorKind → Result A
  panicked : Result A
  diverged : Result A

abbrev pub Op {ℓ} : Type ℓ → Type ℓ → Type ℓ
Op S A = S → Result A × S

module _ {ℓ} {S A : Type ℓ} where
  abbrev pub pure : A → Op S A
  pure a s = (ok a, s)

  abbrev pub raise : ErrorKind → Op S A
  raise e s = (err e, s)

module _ {ℓ} {S A B : Type ℓ} where
  abbrev pub continue : Result A → (A → Op S B) → Op S B
  continue (ok a) f s = f a s
  continue (err e) f s = (err e, s)
  continue panicked f s = (panicked, s)
  continue diverged f s = (diverged, s)

  infixl 5 ◌>>=◌ ◌>>◌
  abbrev pub ◌>>=◌ : Op S A → (A → Op S B) → Op S B
  ◌>>=◌ m f s = let (r, s') = m s in continue r f s'

  abbrev pub ◌>>◌ : Op S A → Op S B → Op S B
  m >> k = m >>= λ _. k
