-- ===== src/Platform/Event.antt =====
-- PlatformLayer/posix/src/posix_sync.c: the event object. Its mutex makes each function atomic, but
-- for the sleeps of a wait on the condition variable, whose ends are an argument.
pub mod Laws
use ether_recorder_suite.Prelude.{
  ℕ, ◌≡◌, ◌≢◌, ◌⊎◌, ◌<◌, refl, Bool, true, false, Option, none, some, List, [], ◌∷◌, arith, ◌==◌,
  if◌then◌else◌, inl, inr, zero, suc, ◌+◌, ◌-◌, ◌*◌, ◌/◌, ◌%◌, leb,
}
use ether_recorder_suite.Platform.Codes.{
  PlatformErrorCode, platform_error_success, platform_error_timeout, platform_error_out_of_memory,
  platform_error_system, platform_wait_infinite,
}

-- `struct platform_event` without its mutex and its condition variable.
pub record Event : Type 0 where
  pub signaled : Bool
  pub manual_reset : Bool

-- What the allocation and the two initialisations of the C library return (0 is success).
pub record Setup : Type 0 where
  pub allocated : Bool
  pub mutex_init : ℕ
  pub cond_init : ℕ

unfoldable pub event_create : Setup → Bool → Bool → PlatformErrorCode × Option Event
event_create env manual_reset initial_state =
    if env.allocated
    then if env.mutex_init == 0
      then if env.cond_init == 0
        then (
          platform_error_success,
          some (record { signaled = initial_state; manual_reset = manual_reset }),
        )
        else (platform_error_system, none)
      else (platform_error_system, none)
    else (platform_error_out_of_memory, none)

unfoldable pub event_set : Event → Event
event_set e = record e { signaled = true }

unfoldable pub event_reset : Event → Event
event_reset e = record e { signaled = false }

-- The last lines of `platform_event_wait`: an event that resets by itself is consumed.
unfoldable pub consume : Event → Event
consume e = record e { signaled = if e.manual_reset then true else false }

-- `struct timespec`.
pub record Timespec : Type 0 where
  pub tv_sec : ℕ
  pub tv_nsec : ℕ

abbrev pub nanoseconds : Timespec → ℕ
nanoseconds ts = ts.tv_sec * 1000000000 + ts.tv_nsec

-- The absolute time of the deadline, from the clock at the start of the wait.
unfoldable pub deadline : Timespec → ℕ → Timespec
deadline ts timeout_ms =
    let tv_sec = ts.tv_sec + timeout_ms / 1000 in
    let tv_nsec = ts.tv_nsec + timeout_ms % 1000 * 1000000 in
    if leb 1000000000 tv_nsec
    then record { tv_sec = tv_sec + 1; tv_nsec = tv_nsec - 1000000000 }
    else record { tv_sec = tv_sec; tv_nsec = tv_nsec }

-- What `pthread_cond_timedwait` returns: 0, with or without a signal, `ETIMEDOUT` or an error.
pub data SleepEnd : Type 0 where
  woken timed_out failed : SleepEnd

-- One sleep on the condition variable: how much more than one nanosecond it takes, how it ends, and
-- the flag as the other threads have left it when the thread has the mutex again.
pub record Sleep : Type 0 where
  pub elapsed : ℕ
  pub end : SleepEnd
  pub signaled : Bool

-- What a wait meets: the clock at its start, its sleeps with a deadline one after another, without
-- end, and its sleeps without a deadline, of which one that lasts for ever follows the listed ones.
pub record Wakeups : Type 0 where
  pub clock : Timespec
  pub timed : ℕ → Sleep
  pub untimed : List Bool

-- A call of `pthread_cond_timedwait` at a time when its deadline has come gives `ETIMEDOUT`, as it
-- is documented; an earlier call may end in any way, before or after the deadline.
unfoldable pub timed_sleep : ℕ → ℕ → Sleep → SleepEnd
timed_sleep due now sleep = if leb due now then timed_out else sleep.end

-- The `while (!event->signaled)` loop of a wait with a deadline, from its sleep of this number on,
-- for so many rounds; `none` is a loop that has not ended in them.
unfoldable pub timed_loop : ℕ → ℕ → ℕ → Event → (ℕ → Sleep) → ℕ → Option (PlatformErrorCode × Event)
timed_loop zero due now e sleeps i = none
timed_loop (suc rounds) due now e sleeps i =
    let left = record e { signaled = (sleeps i).signaled } in
    elim (timed_sleep due now (sleeps i)) [
      | timed_out ↦ some (platform_error_timeout, left)
      | failed ↦ some (platform_error_system, left)
      | woken ↦ elim left.signaled [
        | true ↦ some (platform_error_success, consume left)
        | false ↦ timed_loop rounds due (now + (sleeps i).elapsed + 1) left sleeps (suc i)
      ]
    ]

-- The part of `platform_event_wait` with a deadline. A round takes a nanosecond at least, so that
-- no loop outlasts these rounds.
unfoldable pub timed_wait : Event → ℕ → Wakeups → Option (PlatformErrorCode × Event)
timed_wait e timeout_ms ws =
    let now = nanoseconds ws.clock in
    let due = nanoseconds (deadline ws.clock timeout_ms) in
    timed_loop (due - now + 1) due now e ws.timed 0

-- The loop of a wait with no deadline ignores what `pthread_cond_wait` returns. At the end of the
-- list the thread still sleeps.
unfoldable pub untimed_loop : Event → List Bool → Option (PlatformErrorCode × Event)
unfolding consume
untimed_loop e [] = none
untimed_loop e (true ∷ ws) = some (platform_error_success, consume (record e { signaled = true }))
untimed_loop e (false ∷ ws) = untimed_loop e ws

-- `platform_event_wait`; `none` is a thread that is never woken.
unfoldable pub event_wait : Event → ℕ → Wakeups → Option (PlatformErrorCode × Event)
unfolding untimed_loop consume
event_wait e timeout_ms ws =
    if e.signaled
    then some (platform_error_success, consume e)
    else if timeout_ms == platform_wait_infinite
    then untimed_loop e ws.untimed
    else timed_wait e timeout_ms ws
