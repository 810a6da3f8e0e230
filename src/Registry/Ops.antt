-- ===== src/Registry/Ops.antt =====
-- Registration, states and removal.
use ether_recorder_suite.Prelude.{
  ◌+◌, ◌-◌, ◌%◌, ◌^◌, Bool, true, false, Option, none, some, List, [], ◌∷◌, ◌==◌, ◌&&◌, not,
  if◌then◌else◌,
}
use ether_recorder_suite.Platform.Event.{Event, event_create, event_set}
use ether_recorder_suite.Registry.State.{
  ThreadState, created, unknown, ThreadRegistryError, success, not_initialized, invalid_args,
  lock_error, duplicate_thread, creation_failed, not_found, invalid_state_transition,
  validate_state_transition, is_over,
}
use ether_recorder_suite.Registry.Core.{
  Label, ThreadConfig, Entry, Registry, Env, validate_thread_label, locked, unlocked, find_thread,
  modify, remove,
}

-- `platform_mutex_init` succeeded or not.
unfoldable pub init_global_thread_registry : Bool → Registry → ThreadRegistryError × Registry
init_global_thread_registry mutex_ok r =
    if r.initialized
    then (success, r)
    else let cleared = record r { entries = []; count = 0 } in
      if mutex_ok
      then (success, record cleared { initialized = true; depth = 0 })
      else (lock_error, cleared)

unfoldable pub new_entry : ThreadConfig → Bool → Event → Entry
new_entry thread auto_cleanup event = record {
  thread = thread;
  state = created;
  auto_cleanup = auto_cleanup;
  queue = none;
  completion_event = event;
}

-- The part of `thread_registry_register` that holds the lock.
unfoldable pub register_locked :
    Env → ThreadConfig → Label → Bool → Registry → ThreadRegistryError × Registry
unfolding new_entry
register_locked env thread l auto_cleanup r = elim (find_thread l r.entries) [
  | some e ↦ (duplicate_thread, unlocked r)
  | none ↦
      if env.calloc_ok
      then elim ((event_create env.event true false).1) [
        | none ↦ (creation_failed, unlocked r)
        | some event ↦ (
          success,
          unlocked (record r {
            entries = new_entry thread auto_cleanup event ∷ r.entries;
            count = (r.count + 1) % 2 ^ 32;
          }),
        )
      ]
      else (creation_failed, unlocked r)
]

unfoldable pub register :
    Env → Option ThreadConfig → Bool → Registry → ThreadRegistryError × Registry
unfolding register_locked validate_thread_label
register env none auto_cleanup r = if r.initialized then (invalid_args, r) else (not_initialized, r)
register env (some thread) auto_cleanup r =
    if r.initialized
    then elim thread.label [
      | none ↦ (invalid_args, r)
      | some l ↦
          if not (thread.thread_id == 0) && validate_thread_label (some l)
          then if env.lock_ok
            then register_locked env thread l auto_cleanup (locked r)
            else (lock_error, r)
          else (invalid_args, r)
    ]
    else (not_initialized, r)

-- The assignments of `thread_registry_update_state`.
unfoldable pub enter_state : ThreadState → Entry → Entry
unfolding event_set
enter_state new_state e = record e {
  state = new_state;
  completion_event = if is_over new_state then event_set e.completion_event else e.completion_event;
}

-- The guards that the operations on a label share: the registry, the label, the lock.
unfoldable pub with_label {ℓ} :
    {A : Type ℓ} → (ThreadRegistryError → A) → Env → Option Label → Registry → (Label → A) → A
unfolding validate_thread_label
with_label refuse env none r k =
    if r.initialized then refuse invalid_args else refuse not_initialized
with_label refuse env (some l) r k =
    if r.initialized
    then if validate_thread_label (some l)
      then if env.lock_ok then k l else refuse lock_error
      else refuse invalid_args
    else refuse not_initialized

unfoldable pub update_state_locked : Label → ThreadState → Registry → ThreadRegistryError × Registry
unfolding enter_state
update_state_locked l new_state r = elim (find_thread l r.entries) [
  | none ↦ (not_found, unlocked r)
  | some e ↦
      if validate_state_transition e.state new_state
      then (success, unlocked (record r { entries = modify l (enter_state new_state) r.entries }))
      else (invalid_state_transition, unlocked r)
]

unfoldable pub update_state :
    Env → Option Label → ThreadState → Registry → ThreadRegistryError × Registry
unfolding with_label update_state_locked
update_state env label new_state r =
    with_label (λ e. (e, r)) env label r (λ l. update_state_locked l new_state (locked r))

-- `thread_registry_get_state` ignores what the lock returns.
unfoldable pub get_state : Env → Label → Registry → ThreadState × Registry
get_state env l r =
    if r.initialized
    then (
      elim (find_thread l r.entries) [ none ↦ unknown | some e ↦ e.state ],
      unlocked (if env.lock_ok then locked r else r),
    )
    else (unknown, r)

unfoldable pub is_registered : Env → Option ThreadConfig → Registry → Bool × Registry
unfolding validate_thread_label
is_registered env none r = (false, r)
is_registered env (some thread) r = elim thread.label [
  | none ↦ (false, r)
  | some l ↦
      if r.initialized && validate_thread_label (some l) && env.lock_ok
      then (elim (find_thread l r.entries) [ none ↦ false | some e ↦ true ], unlocked (locked r))
      else (false, r)
]

unfoldable pub deregister_locked : Label → Registry → ThreadRegistryError × Registry
deregister_locked l r = elim (find_thread l r.entries) [
  | none ↦ (not_found, unlocked r)
  | some e ↦ (
    success,
    unlocked (record r { entries = remove l r.entries; count = (r.count + 2 ^ 32 - 1) % 2 ^ 32 }),
  )
]

unfoldable pub deregister : Env → Option Label → Registry → ThreadRegistryError × Registry
unfolding with_label deregister_locked
deregister env label r = with_label (λ e. (e, r)) env label r (λ l. deregister_locked l (locked r))

-- The threads whose `exit_func` the loop of `thread_registry_cleanup` calls, in its order.
unfoldable pub exits : List Entry → List ThreadConfig
exits [] = []
exits (e ∷ es) = if e.auto_cleanup && e.thread.exit_func then e.thread ∷ exits es else exits es

unfoldable pub cleanup : Registry → List ThreadConfig × Registry
unfolding exits
cleanup r =
    if r.initialized
    then (exits r.entries, record r { initialized = false; entries = []; count = 0; depth = 0 })
    else ([], r)
