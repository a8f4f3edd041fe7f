-- ===== src/Retry/Tests.antt =====
-- Calls of which the first fails.
use object_store.Common.{ℕ, zero, suc}
use object_store.Retry.{Attempt, succeeded, failed, call_with_retry}
use object_store.Retry.Attempts.{Ends, call_with_retry-Ends}

abbrev second_time : ℕ → Attempt ℕ ℕ
second_time zero = failed 14
second_time (suc n) = succeeded 3

call_with_retry-Ends_example : Ends second_time 3 (call_with_retry 3 second_time)
call_with_retry-Ends_example = call_with_retry-Ends ℕ ℕ 2 second_time
