-- ===== src/Common/Results.antt =====
-- What a call that may throw leaves behind: a value or an exception.

-- `system_error` and `runtime_error` are the standard exceptions, `timeout` is `TimeoutError`, and
-- `out_of_range` that of an unknown actuator type.
pub data Error : Type 0 where
  system_error runtime_error timeout out_of_range : Error

pub data Result {ℓ} (A : Type ℓ) : Type ℓ where
  ok : A → Result A
  err : Error → Result A

-- How a call stands when the environment's answers, or the rounds allowed to its loop, are used up:
-- it has an outcome, or it still waits.
pub data Call {ℓ} (A : Type ℓ) : Type ℓ where
  finished : Result A → Call A
  waiting : Call A
