-- ===== src/Platform/Codes.antt =====
-- PlatformLayer/inc/platform_error.h and platform_sync.h: the codes that the components test. An
-- enumeration of C is the number of its constant, since the code tests codes as Booleans too.
use ether_recorder_suite.Prelude.{ℕ, Bool, ◌-◌, ◌^◌, ◌==◌, not}

abbrev pub PlatformErrorCode : Type 0
PlatformErrorCode = ℕ

abbrev pub platform_error_success : PlatformErrorCode
platform_error_success = 0

abbrev pub platform_error_invalid_argument : PlatformErrorCode
platform_error_invalid_argument = 2

abbrev pub platform_error_timeout : PlatformErrorCode
platform_error_timeout = 6

abbrev pub platform_error_out_of_memory : PlatformErrorCode
platform_error_out_of_memory = 11

abbrev pub platform_error_system : PlatformErrorCode
platform_error_system = 14

-- A number of C as a condition.
abbrev pub truthy : ℕ → Bool
truthy n = not (n == 0)

-- `PLATFORM_WAIT_INFINITE`, which is `(uint32_t)-1`.
abbrev pub platform_wait_infinite : ℕ
platform_wait_infinite = 2 ^ 32 - 1

pub data PlatformWaitResult : Type 0 where
  wait_success wait_timeout wait_error : PlatformWaitResult
