-- ===== src/Registry/State.antt =====
-- EtherRecorder/inc/thread_registry.h and inc/thread_registry_errors.h: the states of a thread, the
-- moves that the registry allows, and its result codes.
use ether_recorder_suite.Prelude.{Bool, true, false}

pub data ThreadState : Type 0 where
  created running suspended stopping terminated failed unknown : ThreadState

pub data ThreadRegistryError : Type 0 where
  success not_initialized invalid_args lock_error wait_failure timeout : ThreadRegistryError
  duplicate_thread creation_failed not_found : ThreadRegistryError
  invalid_state_transition registration_failed queue_full queue_empty : ThreadRegistryError
  cleanup_error unauthorized allocation_failed queue_error : ThreadRegistryError
  status_check_failed : ThreadRegistryError

unfoldable pub validate_state_transition : ThreadState → ThreadState → Bool
validate_state_transition created running = true
validate_state_transition created failed = true
validate_state_transition running suspended = true
validate_state_transition running stopping = true
validate_state_transition running failed = true
validate_state_transition suspended running = true
validate_state_transition suspended stopping = true
validate_state_transition stopping terminated = true
validate_state_transition _ _ = false

-- The states whose event of completion is signaled.
abbrev pub is_over : ThreadState → Bool
is_over terminated = true
is_over failed = true
is_over _ = false
