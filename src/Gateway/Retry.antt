-- ===== src/Gateway/Retry.antt =====
-- `retry_with_backoff`: the operation again, at most so many times, as long as it is refused.
use object_store.Common.{ℕ, zero, suc, ◌≤◌, ◌<◌, ◌≡◌, refl, sym, subst, arith}
use object_store.Clients.{Answer, answered, refused, Call}

abbrev pub IsRefused : {A : Type 0} → Answer A → Type 0
IsRefused (answered a) = ⊥
IsRefused (refused c) = Unit

module _ {W A : Type 0} where
  unfoldable pub retry_with_backoff : ℕ → Call W A → Call W A
  retry_with_backoff zero f w = f w
  retry_with_backoff (suc max_retries) f w = elim (f w).0 [
    | answered a ↦ (answered a, (f w).1)
    | refused _ ↦ retry_with_backoff max_retries f (f w).1
  ]

  -- The world after so many calls.
  abbrev pub after_calls : ℕ → Call W A → W → W
  after_calls zero f w = w
  after_calls (suc k) f w = after_calls k f (f w).1

  -- Which calls are made: all but the last are refused, and the last is, only if none is left.
  pub record Retries (max : ℕ) (f : Call W A) (w : W) (q : Answer A × W) : Type 0 where
    pub last : ℕ
    pub bound : last ≤ max
    pub result : q ≡ f (after_calls last f w)
    pub before : (j : ℕ) → j < last → IsRefused (f (after_calls j f w)).0
    pub gave_up : IsRefused q.0 → last ≡ max

  retry-step :
      (max : ℕ) (f : Call W A) (w : W) (r : Answer A)
      → (f w).0 ≡ r
      → IsRefused r
      → retry_with_backoff (suc max) f w ≡ retry_with_backoff max f (f w).1
  unfolding retry_with_backoff
  retry-step max f w (answered a) e h = absurd h
  retry-step max f w (refused c) e h = rw (e, retry_with_backoff) refl

  retry_zero : (f : Call W A) (w : W) → retry_with_backoff 0 f w ≡ f w
  unfolding retry_with_backoff
  retry_zero f w = refl

  pub retry_accepted :
      (max : ℕ) (f : Call W A) (w : W) (a : A)
      → (f w).0 ≡ answered a
      → retry_with_backoff max f w ≡ f w
  unfolding retry_with_backoff
  retry_accepted zero f w a e = refl
  retry_accepted (suc max) f w a e = rw (e, retry_with_backoff) refl

  -- One more refused call in front.
  Retries-later :
      (max : ℕ) (f : Call W A) (w : W) (q : Answer A × W)
      → IsRefused (f w).0
      → Retries max f (f w).1 q
      → Retries (suc max) f w q
  Retries-later max f w q refusal h = record {
    last = suc h.last;
    bound = omega (arith, h.bound);
    result = h.result;
    before = before;
    gave_up = λ g. omega (arith, h.gave_up g);
  }
    where
      before : (j : ℕ) → j < suc h.last → IsRefused (f (after_calls j f w)).0
      before zero lt = refusal
      before (suc j) lt = h.before j (omega arith)

-- `retry_with_backoff` makes at most `max_retries` calls after the first; all but its last are
-- refused, and it returns what the last answers, which is a refusal only if no call is left.
pub retry_with_backoff-Retries :
    (W A : Type 0) (max_retries : ℕ) (f : Call W A) (w : W)
    → Retries max_retries f w (retry_with_backoff max_retries f w)
retry_with_backoff-Retries W A zero f w = only
  where
    only : Retries zero f w (retry_with_backoff zero f w)
    only = rw (retry_zero f w) (record {
      last = 0;
      bound = omega arith;
      result = refl;
      before = λ j lt. absurd (omega arith);
      gave_up = λ _. refl;
    })
retry_with_backoff-Retries W A (suc max) f w =
    by_answer (retry_with_backoff-Retries W A max f (f w).1) (f w).0 refl
  where
    by_answer :
        Retries max f (f w).1 (retry_with_backoff max f (f w).1)
        → (r : Answer A) → (f w).0 ≡ r
        → Retries (suc max) f w (retry_with_backoff (suc max) f w)
    by_answer rest (answered a) e = rw (retry_accepted (suc max) f w a e) (record {
      last = 0;
      bound = omega arith;
      result = refl;
      before = λ j lt. absurd (omega arith);
      gave_up = λ g. absurd (subst IsRefused e g);
    })
    by_answer rest (refused c) e =
        rw (retry-step max f w (refused c) e tt)
          (Retries-later max f w _ (subst IsRefused (sym e) tt) rest)
