-- ===== src/State/Kernel.antt =====
-- The kernel, which is not part of the repository: the answers of its system calls are parameters,
-- one for each call in order, so that every run of the daemon is a run with some oracle.
use netd_moduos.Common.{ℕ, Bool, List, ℤ}

-- What `read` returns: a negative number, or the bytes that it stored (none of them for 0).
pub data Reading : Type 0 where
  failed : Reading
  got : List ℕ → Reading

pub record Oracle : Type 0 where
  -- The result of the n-th `time_ms()`.
  pub clock : ℕ → ℕ
  -- The n-th `read()`, by the size that it is asked for. The kernel stores no more than that size.
  pub reads : ℕ → ℕ → Reading
  -- Whether the n-th `write()` succeeds (a result that is not negative).
  pub writes : ℕ → Bool
  -- The results of `open()` and `userfs_register()`.
  pub opened : ℤ
  pub registered : ℤ
  -- Rounds that a loop which waits for the device may take before the model gives up on it.
  pub fuel : ℕ

pub record Os : Type 0 where
  pub oracle : Oracle
  pub open oracle use *
  pub clock_calls : ℕ
  pub read_calls : ℕ
  pub write_calls : ℕ
  -- What was handed to `write()`, the newest first.
  pub written : List (List ℕ)
