-- ===== src/Registry/Health.antt =====
-- The checks of the health of the threads.
use ether_recorder_suite.Prelude.{
  Bool, true, false, Option, none, some, List, [], ◌∷◌, if◌then◌else◌,
}
use ether_recorder_suite.Platform.Event.{event_set}
use ether_recorder_suite.Registry.State.{
  ThreadState, running, failed, ThreadRegistryError, success, not_initialized, not_found,
  lock_error, status_check_failed,
}
use ether_recorder_suite.Registry.Core.{
  Label, Entry, Registry, Env, ThreadStatus, dead, ended, locked, unlocked, find_thread, modify,
}
use ether_recorder_suite.Registry.Ops.{with_label, deregister}

-- `PLATFORM_THREAD_DEAD` or `PLATFORM_THREAD_TERMINATED`
abbrev pub is_dead : ThreadStatus → Bool
is_dead dead = true
is_dead ended = true
is_dead _ = false

abbrev pub is_running : ThreadState → Bool
is_running running = true
is_running _ = false

unfoldable pub fail_entry : Entry → Entry
unfolding event_set
fail_entry e = record e { completion_event = event_set e.completion_event; state = failed }

-- `handle_thread_failure`, of the entry with the label `l`. The nested lock is that of the
-- recursive mutex.
unfoldable pub handle_thread_failure :
    Env → Label → Entry → Registry → ThreadRegistryError × Registry
unfolding fail_entry
handle_thread_failure env l e r =
    let r' = record r { entries = modify l fail_entry r.entries } in
    if e.auto_cleanup
    then deregister (record env { lock_ok = env.relock_ok e.thread.thread_id }) (some l) r'
    else (success, r')

unfoldable pub check_locked : Env → Label → Registry → ThreadRegistryError × Registry
unfolding handle_thread_failure
check_locked env l r = elim (find_thread l r.entries) [
  | none ↦ (not_found, r)
  | some e ↦ elim (env.status e.thread.thread_id) [
    | none ↦ (status_check_failed, r)
    | some s ↦ if is_dead s then handle_thread_failure env l e r else (success, r)
  ]
]

unfoldable pub check_thread_health : Env → Option Label → Registry → ThreadRegistryError × Registry
unfolding with_label check_locked
check_thread_health env label r =
    with_label (λ e. (e, r)) env label r
      λ l. let (result, r') = check_locked env l (locked r) in (result, unlocked r')

-- One round of the loop of `thread_registry_check_all_threads`.
unfoldable pub visit : Env → Entry → Registry → ThreadRegistryError × Registry
unfolding handle_thread_failure
visit env e r = elim e.thread.label [
  | none ↦ (success, r)
  | some l ↦
      if is_running e.state
      then elim (env.status e.thread.thread_id) [
        | none ↦ (status_check_failed, r)
        | some s ↦ if is_dead s then handle_thread_failure env l e r else (success, r)
      ]
      else (success, r)
]

-- The loop, over the entries that it has not visited. A round changes or removes its own entry
-- alone, and `next` is read before that, so these are as the loop finds them.
unfoldable pub check_from : Env → List Entry → Registry → ThreadRegistryError × Registry
unfolding visit
check_from env [] r = (success, r)
check_from env (e ∷ es) r =
    let (result, r') = visit env e r in
    elim result [ success ↦ check_from env es r' | other ↦ (other, r') ]

unfoldable pub check_all_threads : Env → Registry → ThreadRegistryError × Registry
unfolding check_from
check_all_threads env r =
    if r.initialized
    then if env.lock_ok
      then (let (result, r') = check_from env r.entries (locked r) in (result, unlocked r'))
      else (lock_error, r)
    else (not_initialized, r)
