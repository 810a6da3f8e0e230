-- ===== src/Registry/Waits.antt =====
-- The waits for the ends of threads. What the other threads do to the registry between two polls
-- is an argument: the entries that each poll finds.
pub mod Laws
use ether_recorder_suite.Prelude.{
  ℕ, ◌-◌, Bool, true, false, Option, none, some, List, [], ◌∷◌, ltb, ◌==◌, if◌then◌else◌, not, ◌&&◌,
  length, replicate,
}
use ether_recorder_suite.Platform.Codes.{
  PlatformWaitResult, wait_success, wait_timeout, wait_error, platform_wait_infinite,
}
use ether_recorder_suite.Registry.State.{ThreadState, terminated}
use ether_recorder_suite.Registry.Core.{Entry, Registry, find_thread_by_id}

abbrev pub is_terminated : ThreadState → Bool
is_terminated terminated = true
is_terminated _ = false

-- The thread is registered and has not terminated.
unfoldable pub is_active : List Entry → ℕ → Bool
is_active es i = elim (find_thread_by_id i es) [
  | none ↦ false
  | some e ↦ not (is_terminated e.state)
]

-- One pass over the flags: those that stay set, and whether any does.
unfoldable pub poll : List Entry → List ℕ → List Bool → List Bool × Bool
unfolding is_active
poll es [] flags = (flags, false)
poll es (i ∷ ids) [] = ([], false)
poll es (i ∷ ids) (needs ∷ flags) =
    let (flags', any) = poll es ids flags in
    if needs && is_active es i then (true ∷ flags', true) else (false ∷ flags', any)

-- `PLATFORM_DEFAULT_SLEEP_INTERVAL_MS`
abbrev pub small_time : ℕ
small_time = 10

abbrev pub shorten : ℕ → ℕ
shorten timeout_ms = if ltb small_time timeout_ms then timeout_ms - small_time else 0

-- The `while (true)` loop; `none` is a loop that still runs after the last of the polls.
unfoldable pub wait_loop : List ℕ → List Bool → ℕ → List (List Entry) → Option PlatformWaitResult
unfolding poll
wait_loop ids flags timeout_ms [] = none
wait_loop ids flags timeout_ms (es ∷ views) =
    let (flags', any) = poll es ids flags in
    elim any [
      | false ↦ some wait_success
      | true ↦ elim (timeout_ms == platform_wait_infinite) [
        | true ↦ wait_loop ids flags' timeout_ms views
        | false ↦ elim (shorten timeout_ms == 0) [
          | true ↦ some wait_timeout
          | false ↦ wait_loop ids flags' (shorten timeout_ms) views
        ]
      ]
    ]

-- The array of flags comes from `calloc`, so that each is false.
unfoldable pub wait_list :
    Bool → Option (List ℕ) → ℕ → List (List Entry) → Option PlatformWaitResult
unfolding wait_loop
wait_list calloc_ok none timeout_ms views = some wait_error
wait_list calloc_ok (some ids) timeout_ms views =
    if length ids == 0
    then some wait_error
    else if calloc_ok
    then wait_loop ids (replicate (length ids) false) timeout_ms views
    else some wait_error

unfoldable pub wait_for_thread : Bool → ℕ → ℕ → List (List Entry) → Option PlatformWaitResult
unfolding wait_list
wait_for_thread calloc_ok thread_id timeout_ms views =
    if thread_id == 0
    then some wait_error
    else wait_list calloc_ok (some (thread_id ∷ [])) timeout_ms views

-- The identifiers of the entries that have not terminated and that the test keeps.
unfoldable pub active_ids : (ℕ → Bool) → List Entry → List ℕ
active_ids keep [] = []
active_ids keep (e ∷ es) =
    if not (is_terminated e.state) && keep e.thread.thread_id
    then e.thread.thread_id ∷ active_ids keep es
    else active_ids keep es

unfoldable pub wait_active :
    (ℕ → Bool) → Bool → Bool → ℕ → Registry → List (List Entry) → Option PlatformWaitResult
unfolding active_ids wait_list
wait_active keep malloc_ok calloc_ok timeout_ms r views =
    if r.initialized
    then if length (active_ids keep r.entries) == 0
      then some wait_success
      else if malloc_ok
      then wait_list calloc_ok (some (active_ids keep r.entries)) timeout_ms views
      else some wait_error
    else some wait_error

-- `thread_registry_wait_all`
unfoldable pub wait_all : Bool → Bool → ℕ → Registry → List (List Entry) → Option PlatformWaitResult
unfolding wait_active
wait_all malloc_ok calloc_ok timeout_ms r views =
    wait_active (λ i. true) malloc_ok calloc_ok timeout_ms r views

-- `thread_registry_wait_others`, called by the thread `current`
unfoldable pub wait_others :
    Bool → Bool → ℕ → Registry → List (List Entry) → Option PlatformWaitResult
unfolding wait_active
wait_others malloc_ok calloc_ok current r views =
    wait_active (λ i. not (i == current)) malloc_ok calloc_ok platform_wait_infinite r views
