-- ===== src/Registry/Core.antt =====
-- The registry's data: `ThreadConfig` (inc/app_thread.h), `ThreadRegistryEntry` and
-- `ThreadRegistry`, and the static helpers of thread_registry.c.
use ether_recorder_suite.Prelude.{
  ℕ, ◌+◌, ◌-◌, Bool, false, Option, none, some, List, [], ◌∷◌, ltb, ◌==◌, if◌then◌else◌, length,
  bytes_eq,
}
use ether_recorder_suite.Platform.Event.{Event, Setup}
use ether_recorder_suite.MessageQueue.{MessageQueue}
use ether_recorder_suite.Registry.State.{ThreadState}

-- The bytes of a label. A label argument that may be null is an `Option`.
abbrev pub Label : Type 0
Label = List ℕ

abbrev pub max_thread_label_length : ℕ
max_thread_label_length = 64

-- The fields that the registry reads; `exit_func` tells whether the callback is set.
pub record ThreadConfig : Type 0 where
  pub label : Option Label
  pub thread_id : ℕ
  pub exit_func : Bool

pub record Entry : Type 0 where
  pub thread : ThreadConfig
  pub state : ThreadState
  pub auto_cleanup : Bool
  pub queue : Option MessageQueue
  pub completion_event : Event

-- `g_registry` and `g_registry_initialized`. `head` is the list; `depth` is how often the calling
-- thread holds the recursive mutex.
pub record Registry : Type 0 where
  pub initialized : Bool
  pub entries : List Entry
  pub count : ℕ
  pub depth : ℕ

pub data ThreadStatus : Type 0 where
  alive dead ended unknown_status : ThreadStatus

-- What the platform answers during one call: the locks, the allocations, the events, the caller's
-- identifier and, by identifier, the status of a thread (`none` is a failed query) and whether a
-- nested lock succeeds.
pub record Env : Type 0 where
  pub lock_ok : Bool
  pub relock_ok : ℕ → Bool
  pub calloc_ok : Bool
  pub calloc_entries_ok : Bool
  pub event : Setup
  pub second_event : Setup
  pub current : ℕ
  pub status : ℕ → Option ThreadStatus

unfoldable pub validate_thread_label : Option Label → Bool
validate_thread_label none = false
validate_thread_label (some l) = ltb (length l) max_thread_label_length

abbrev pub locked : Registry → Registry
locked r = record r { depth = r.depth + 1 }

-- `platform_mutex_unlock`: a recursive mutex that is not held stays so.
abbrev pub unlocked : Registry → Registry
unlocked r = record r { depth = r.depth - 1 }

-- `strcmp(label, l) == 0`. A registered label is never null.
unfoldable pub label_is : Option Label → Label → Bool
label_is none l = false
label_is (some k) l = bytes_eq k l

-- `thread_registry_find_thread`
unfoldable pub find_thread : Label → List Entry → Option Entry
unfolding label_is
find_thread l [] = none
find_thread l (e ∷ es) = if label_is e.thread.label l then some e else find_thread l es

-- `thread_registry_find_thread_by_id`
unfoldable pub find_thread_by_id : ℕ → List Entry → Option Entry
find_thread_by_id i [] = none
find_thread_by_id i (e ∷ es) = if e.thread.thread_id == i then some e else find_thread_by_id i es

-- An assignment to fields of the entry that `find_thread` finds.
unfoldable pub modify : Label → (Entry → Entry) → List Entry → List Entry
unfolding label_is
modify l f [] = []
modify l f (e ∷ es) = if label_is e.thread.label l then f e ∷ es else e ∷ modify l f es

-- The list without the first entry of that label: the loop of `thread_registry_deregister`.
unfoldable pub remove : Label → List Entry → List Entry
unfolding label_is
remove l [] = []
remove l (e ∷ es) = if label_is e.thread.label l then es else e ∷ remove l es
