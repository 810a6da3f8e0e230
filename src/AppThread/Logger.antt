-- ===== src/AppThread/Logger.antt =====
-- How long a thread waits for the logger.
use ether_recorder_suite.Prelude.{
  ℕ, zero, suc, ◌+◌, ◌*◌, ◌≤◌, ◌≡◌, refl, Bool, false, not, ◌||◌, some, List, [], ◌∷◌, leb,
  if◌then◌else◌, length, take, arith, Bool-cases, inl, inr, bytes_eq, codes,
}
use ether_recorder_suite.Registry.State.{ThreadState}
use ether_recorder_suite.AppThread.{
  thread_success, thread_error_logger_timeout, is_running, logger_loop, wait_for_logger,
}

unfoldable pub any_running : List ThreadState → Bool
any_running [] = false
any_running (s ∷ ss) = is_running s || any_running ss

logger_loop_lem :
    (k elapsed : ℕ) (polls : List ThreadState)
    → elapsed + 10 * k ≡ 5000
    → k ≤ length polls
    → (e : ℕ) × (logger_loop elapsed polls ≡ some e)
      × (leb 5000 e ≡ not (any_running (take k polls)))
unfolding logger_loop any_running
logger_loop_lem zero elapsed [] h l = (elapsed, ground arith, ground arith)
logger_loop_lem zero elapsed (s ∷ polls) h l = (elapsed, ground arith, ground arith)
logger_loop_lem (suc k) elapsed [] h l = absurd (omega arith)
logger_loop_lem (suc k) elapsed (s ∷ polls) h l = elim (Bool-cases (is_running s)) [
  | inl e ↦ (elapsed, ground arith, ground arith)
  | inr e ↦
      let (t, p, q) = logger_loop_lem k (elapsed + 10) polls (omega arith) (omega arith) in
      (t, ground (arith, p), ground (arith, q))
]

wait_for_logger-polls :
    (k : ℕ) (label : List ℕ) (polls : List ThreadState)
    → 0 + 10 * k ≡ 5000
    → bytes_eq label (codes "LOGGER") ≡ false
    → k ≤ length polls
    → wait_for_logger label polls
      ≡ some (if any_running (take k polls) then thread_success else thread_error_logger_timeout)
unfolding wait_for_logger
wait_for_logger-polls k label polls h other enough =
    let (e, p, q) = logger_loop_lem k 0 polls h enough in chosen (any_running (take k polls)) e p q
  where
    chosen :
        (b : Bool) (e : ℕ)
        → logger_loop 0 polls ≡ some e
        → leb 5000 e ≡ not b
        → wait_for_logger label polls
          ≡ some (if b then thread_success else thread_error_logger_timeout)
    chosen b e p q = ground (arith, other, p, q)

-- Every thread but the logger returns from its wait after at most 500 polls: with success if one of
-- these has seen the logger running, and with the timeout of the logger otherwise.
pub wait_for_logger_lem :
    (label : List ℕ) (polls : List ThreadState)
    → bytes_eq label (codes "LOGGER") ≡ false
    → 500 ≤ length polls
    → wait_for_logger label polls
      ≡ some (if any_running (take 500 polls) then thread_success else thread_error_logger_timeout)
wait_for_logger_lem label polls other enough =
    wait_for_logger-polls 500 label polls refl other enough
