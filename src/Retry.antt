-- ===== src/Retry.antt =====
-- storage-node/src/grpc_utils.rs: calls that are tried again after an error.
mod Tests
pub mod Attempts
use object_store.Common.{ℕ, zero, suc, ◌+◌, Option, none, some, Bool, true, false}

-- How one attempt ends, under its timeout.
pub data Attempt {ℓ κ} (T : Type ℓ) (E : Type κ) : Type (ℓ ⊔ κ) where
  succeeded : T → Attempt T E
  failed : E → Attempt T E
  elapsed : Attempt T E

pub data CallWithRetryError {κ} (E : Type κ) : Type κ where
  timeout : CallWithRetryError E
  operation_failed : E → CallWithRetryError E

pub data CallResult {ℓ κ} (T : Type ℓ) (E : Type κ) : Type (ℓ ⊔ κ) where
  returned : T → CallResult T E
  gave_up : CallWithRetryError E → CallResult T E

module _ {ℓ κ} {T : Type ℓ} {E : Type κ} where
  -- What is left to return once the attempts are used up.
  abbrev pub exhausted : Option E → CallResult T E
  exhausted none = gave_up timeout
  exhausted (some e) = gave_up (operation_failed e)

  -- The loop of `call_with_retry`, with `n` attempts left from the one numbered `i` on, and the
  -- number of attempts that it makes. `attempts` says how each attempt ends.
  unfoldable pub retry_loop : ℕ → ℕ → Option E → (ℕ → Attempt T E) → CallResult T E × ℕ
  retry_loop zero i last_error attempts = (exhausted last_error, i)
  retry_loop (suc n) i last_error attempts =
      let rest = retry_loop n (i + 1) in
      elim (attempts i) [
        | succeeded t ↦ (returned t, i + 1)
        | failed e ↦ rest (some e) attempts
        | elapsed ↦ elim last_error [
          | none ↦ (gave_up timeout, i + 1)
          | some e ↦ rest (some e) attempts
        ]
      ]

  unfoldable pub call_with_retry : ℕ → (ℕ → Attempt T E) → CallResult T E × ℕ
  unfolding retry_loop
  call_with_retry max_attempts attempts = retry_loop max_attempts 0 none attempts
