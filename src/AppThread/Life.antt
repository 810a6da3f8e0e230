-- ===== src/AppThread/Life.antt =====
-- EtherRecorder/src/app_thread.c: `thread_wrapper`, in which every thread lives, its creation and
-- the watchdog.
use ether_recorder_suite.Prelude.{
  ℕ, ◌+◌, ◌-◌, ◌%◌, ◌^◌, Bool, true, false, not, Option, none, some, List, ltb, ◌==◌, if◌then◌else◌,
  codes,
}
use ether_recorder_suite.Registry.State.{
  ThreadState, running, failed, terminated, unknown, ThreadRegistryError, success,
}
use ether_recorder_suite.Registry.Core.{Label, ThreadConfig, Registry, Env, find_thread}
use ether_recorder_suite.Registry.Ops.{register, update_state, deregister, is_registered, get_state}
use ether_recorder_suite.Registry.Queues.{init_queue}
use ether_recorder_suite.AppThread.{
  ThreadResult, thread_success, thread_error_init_failed, thread_error_registration_failed,
  thread_error_already_exists, thread_error_create_failed, wait_for_logger,
}
use ether_recorder_suite.AppThread.Service.{ServiceConfig, is_success}

-- The calls of the registry in `thread_wrapper`.
pub data Call : Type 0 where
  at_register at_running at_queue at_failed at_terminated at_deregister : Call

-- What a run of `thread_wrapper` meets: its calls of the registry, what the wait for the logger
-- reads, the results of `init_func` and `func`, which may be null, and what has become of the
-- registry when the wait, `init_func` and then `func` with `exit_func` return.
pub record Life : Type 0 where
  pub env : Call → Env
  pub polls : List ThreadState
  pub init_func : Option ThreadResult
  pub func : Option ThreadResult
  pub while_waiting : Registry → Registry
  pub while_initializing : Registry → Registry
  pub while_running : Registry → Registry

abbrev pub is_ok : ThreadRegistryError → Bool
is_ok success = true
is_ok _ = false

-- The result of a function that may be null.
abbrev pub result_of : Option ThreadResult → ThreadResult
result_of none = thread_success
result_of (some res) = res

-- How `thread_wrapper` returns. It registers a configuration on its own stack, to which the entry
-- points: where the entry is still in the registry then, it points to memory that has ended, and
-- nothing is known of any later use of the registry.
pub data Exit : Type 0 where
  returned : ThreadResult → Registry → Exit
  dangling : ThreadResult → Registry → Exit

-- The return of a thread that has been registered. An entry of its label is taken for its own:
-- the label cannot be registered a second time while it is there.
unfoldable pub leave : Label → ThreadResult → Registry → Exit
leave l res r = elim (find_thread l r.entries) [ none ↦ returned res r | some e ↦ dangling res r ]

-- A failure before the thread's own function.
unfoldable pub give_up : Life → Label → ThreadResult → Registry → Exit
unfolding leave
give_up life l res r = leave l res (update_state (life.env at_failed) (some l) failed r).1

-- The thread's own function, and the end of the thread.
unfoldable pub run_out : Life → Label → Registry → Exit
unfolding leave
run_out life l r =
    let (_, terminated_r) =
      update_state (life.env at_terminated) (some l) terminated (life.while_running r) in
    leave l (result_of life.func) (deregister (life.env at_deregister) (some l) terminated_r).1

-- What follows the wait for the logger.
unfoldable pub after_wait : Life → Label → ThreadResult → Registry → Exit
after_wait life l res r =
    if is_success res
    then if is_success (result_of life.init_func)
      then run_out life l (life.while_initializing r)
      else give_up life l (result_of life.init_func) (life.while_initializing r)
    else give_up life l res r

-- `thread_wrapper` of a thread with a label; `none` where the polls end before the wait does.
unfoldable pub thread_wrapper : Life → ThreadConfig → Label → Registry → Option Exit
thread_wrapper life thread l r =
    let (registered, r1) = register (life.env at_register) (some thread) true r in
    if is_ok registered
    then (let (_, r2) = update_state (life.env at_running) (some l) running r1 in
        let (queued, r3) = init_queue (life.env at_queue) (some l) r2 in
        if is_ok queued
        then elim (wait_for_logger l life.polls) [
          | none ↦ none
          | some res ↦ some (after_wait life l res (life.while_waiting r3))
        ]
        else some (give_up life l thread_error_init_failed r3))
    else some (returned thread_error_registration_failed r1)

-- The limits of a queue's service that are zero get their defaults.
unfoldable pub with_defaults : ServiceConfig → ServiceConfig
with_defaults config = record config {
  max_process_time_ms = if config.max_process_time_ms == 0 then 100 else config.max_process_time_ms;
  msg_batch_size = if config.msg_batch_size == 0 then 10 else config.msg_batch_size;
}

-- `app_thread_create` of a configuration that is not null: whether `platform_thread_create` gives a
-- thread is an argument. The result, the configuration and the registry.
unfoldable pub app_thread_create :
    Env → Bool → ThreadConfig → ServiceConfig → Registry → ThreadResult × ServiceConfig × Registry
app_thread_create env created thread config r =
    let (found, r') = is_registered env (some thread) r in
    if found
    then (thread_error_already_exists, config, r')
    else if created
    then (thread_success, with_defaults config, r')
    else (thread_error_create_failed, with_defaults config, r')

-- `is_watchdog_alive`, on a clock of 64 bits.
unfoldable pub is_watchdog_alive : ℕ → ℕ → Bool
is_watchdog_alive last_heartbeat now = not (ltb 10000 ((now + 2 ^ 64 - last_heartbeat) % 2 ^ 64))

abbrev pub watchdog : Label
watchdog = codes "WATCHDOG"

-- The state of the watchdog as `check_watchdog` takes it.
unfoldable pub watchdog_state : ℕ → ℕ → ThreadState → ThreadState
watchdog_state last_heartbeat now running =
    if is_watchdog_alive last_heartbeat now then running else failed
watchdog_state last_heartbeat now s = s

abbrev pub needs_start : ThreadState → Bool
needs_start unknown = true
needs_start failed = true
needs_start terminated = true
needs_start _ = false

abbrev pub is_unknown : ThreadState → Bool
is_unknown unknown = true
is_unknown _ = false

-- The configuration of the watchdog that `check_watchdog` passes on, with its identifier reset.
abbrev pub watchdog_thread : ThreadConfig
watchdog_thread = record { label = some watchdog; thread_id = 0; exit_func = true }

abbrev pub watchdog_config : ServiceConfig
watchdog_config = record {
  label = some watchdog;
  msg_processor = none;
  max_process_time_ms = 0;
  msg_batch_size = 0;
}

-- The part of `check_watchdog` behind its interval: what `app_thread_create` has given, if it has
-- been called, and the registry.
unfoldable pub restart_watchdog :
    Env → Bool → ThreadState → Registry → Option ThreadResult × Registry
restart_watchdog env created state r =
    if needs_start state
    then (let r' = if is_unknown state then r else (deregister env (some watchdog) r).1 in
        let (result, _, r'') = app_thread_create env created watchdog_thread watchdog_config r' in
        (some result, r''))
    else (none, r)

-- `check_watchdog` with its static `last_check`.
unfoldable pub check_watchdog :
    Env → Bool → ℕ → ℕ → ℕ → Registry → Option ThreadResult × ℕ × Registry
check_watchdog env created last_heartbeat last_check now r =
    if ltb ((now + 2 ^ 64 - last_check) % 2 ^ 64) 5000
    then (none, last_check, r)
    else (let (state, r') = get_state env watchdog r in
        let (result, r'') =
          restart_watchdog env created (watchdog_state last_heartbeat now state) r' in
        (result, now, r''))
