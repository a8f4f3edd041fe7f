-- ===== src/Retry/Attempts.antt =====
-- Which attempts `call_with_retry` makes, and what it returns.
use object_store.Common.{
  ℕ, zero, suc, ◌+◌, ◌≤◌, ◌<◌, ◌≡◌, ◌≢◌, refl, Option, none, some, arith, dec_lt, subst,
}
use object_store.Retry.{
  Attempt, succeeded, failed, elapsed, timeout, operation_failed, CallResult, returned, gave_up,
  retry_loop, call_with_retry,
}

module _ {T E : Type 0} (a : ℕ → Attempt T E) where
  -- None of the attempts from one on and before another has succeeded.
  abbrev pub Unmet : ℕ → ℕ → Type 0
  Unmet i k = (j : ℕ) → i ≤ j → j < k → (t : T) → a j ≢ succeeded t

  -- The last error before an attempt: all attempts after it ran into the timeout.
  pub record LastError (i k : ℕ) (e : E) : Type 0 where
    pub at : ℕ
    pub from : i ≤ at
    pub before : at < k
    pub fails : a at ≡ failed e
    pub late : (j : ℕ) → at < j → j < k → a j ≡ elapsed

  -- How the attempts end, with the result and the number of attempts that were made.
  pub data Ends (n : ℕ) : CallResult T E × ℕ → Type 0 where
    late_at_once : a 0 ≡ elapsed → Ends n (gave_up timeout, 1)
    first_success :
        {k : ℕ} {t : T}
        → k < n
        → a 0 ≢ elapsed
        → Unmet 0 k
        → a k ≡ succeeded t
        → Ends n (returned t, suc k)
    all_failed :
        {e : E}
        → a 0 ≢ elapsed
        → Unmet 0 n
        → LastError 0 n e
        → Ends n (gave_up (operation_failed e), n)

  retry_loop-failed :
      (n i : ℕ) (o : Option E) (e : E)
      → a i ≡ failed e
      → retry_loop (suc n) i o a ≡ retry_loop n (i + 1) (some e) a
  unfolding retry_loop
  retry_loop-failed n i o e h = rw (h, retry_loop) refl

  retry_loop-succeeded :
      (n i : ℕ) (o : Option E) (t : T)
      → a i ≡ succeeded t
      → retry_loop (suc n) i o a ≡ (returned t, i + 1)
  unfolding retry_loop
  retry_loop-succeeded n i o t h = rw (h, retry_loop) refl

  retry_loop-elapsed :
      (n i : ℕ) (e : E)
      → a i ≡ elapsed
      → retry_loop (suc n) i (some e) a ≡ retry_loop n (i + 1) (some e) a
  unfolding retry_loop
  retry_loop-elapsed n i e h = rw (h, retry_loop) refl

  Unmet-later : (i : ℕ) → Unmet 0 i → ((t : T) → a i ≢ succeeded t) → Unmet 0 (i + 1)
  Unmet-later i before here j lo hi t e = elim (dec_lt j i) [
    | yes lt ↦ before j lo lt t e
    | no ge ↦ let same : j ≡ i = omega arith in here t (subst (λ x. a x ≡ succeeded t) same e)
  ]

  LastError-now : (i : ℕ) (e : E) → a i ≡ failed e → LastError 0 (i + 1) e
  LastError-now i e h = record {
    at = i;
    from = omega arith;
    before = omega arith;
    fails = h;
    late = λ j lo hi. absurd (omega arith);
  }

  LastError-late : (i : ℕ) (e : E) → LastError 0 i e → a i ≡ elapsed → LastError 0 (i + 1) e
  LastError-late i e l h = record {
    at = l.at;
    from = l.from;
    before = omega (arith, l.before);
    fails = l.fails;
    late = λ j lo hi. elim (dec_lt j i) [
      | yes lt ↦ l.late j lo lt
      | no ge ↦ let same : i ≡ j = omega arith in subst (λ x. a x ≡ elapsed) same h
    ];
  }

  -- The loop, once an attempt has failed.
  retry_loop-Ends :
      (n i : ℕ) (e : E)
      → a 0 ≢ elapsed
      → Unmet 0 i
      → LastError 0 i e
      → Ends (n + i) (retry_loop n i (some e) a)
  unfolding retry_loop
  retry_loop-Ends zero i e first before l =
      let same : i ≡ 0 + i = omega arith in
      subst (λ m. Ends m (gave_up (operation_failed e), i)) same (all_failed first before l)
  retry_loop-Ends (suc n) i e first before l =
      by_attempt (λ f. retry_loop-Ends n (i + 1) f first) (a i) refl
    where
      Goal : CallResult T E × ℕ → Type 0
      Goal = Ends (suc n + i)

      at_next : (q : CallResult T E × ℕ) → Ends (n + (i + 1)) q → Goal q
      at_next q h = let same : n + (i + 1) ≡ suc n + i = omega arith in subst (λ m. Ends m q) same h

      by_attempt :
          ((f : E)
            → Unmet 0 (i + 1)
            → LastError 0 (i + 1) f
            → Ends (n + (i + 1)) (retry_loop n (i + 1) (some f) a))
          → (x : Attempt T E) → a i ≡ x
          → Goal (retry_loop (suc n) i (some e) a)
      by_attempt rest (succeeded t) h =
          let same : suc i ≡ i + 1 = omega arith in
          rw (retry_loop-succeeded n i (some e) t h)
            (subst (λ m. Goal (returned t, m)) same (first_success (omega arith) first before h))
      by_attempt rest (failed f) h =
          rw (retry_loop-failed n i (some e) f h)
            (at_next _ (rest f (Unmet-later i before (λ t b. cc (h, b))) (LastError-now i f h)))
      by_attempt rest elapsed h =
          rw (retry_loop-elapsed n i e h)
            (at_next _ (rest e (Unmet-later i before (λ t b. cc (h, b))) (LastError-late i e l h)))

-- `call_with_retry`, with at least one attempt allowed, ends in one of three ways. Where the first
-- attempt runs into the timeout it reports a timeout, after that attempt alone. Else it returns the
-- value of the first attempt that succeeds, and makes none after it; and where none of the
-- `max_attempts` succeeds it has made all of them and reports the last error of an attempt, those
-- that ran into the timeout left out.
pub call_with_retry-Ends :
    (T E : Type 0) (n : ℕ) (a : ℕ → Attempt T E) → Ends a (suc n) (call_with_retry (suc n) a)
unfolding call_with_retry retry_loop
call_with_retry-Ends T E n a = by_attempt (a 0) refl
  where
    Goal : CallResult T E × ℕ → Type 0
    Goal = Ends a (suc n)

    at_next : (q : CallResult T E × ℕ) → Ends a (n + 1) q → Goal q
    at_next q h = let same : n + 1 ≡ suc n = omega arith in subst (λ m. Ends a m q) same h

    by_attempt : (x : Attempt T E) → a 0 ≡ x → Goal (retry_loop (suc n) 0 none a)
    by_attempt (succeeded t) h =
        rw (retry_loop-succeeded a n 0 none t h)
          (first_success (omega arith) (λ b. cc (h, b)) (λ j lo hi. absurd (omega arith)) h)
    by_attempt (failed e) h = rw (retry_loop-failed a n 0 none e h) (
        at_next _ (
          retry_loop-Ends a n 1 e (λ b. cc (h, b))
            (Unmet-later a 0 (λ j lo hi. absurd (omega arith)) (λ t b. cc (h, b)))
            (LastError-now a 0 e h)))
    by_attempt elapsed h = rw (h, retry_loop) (late_at_once h)
