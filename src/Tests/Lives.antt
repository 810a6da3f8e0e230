-- ===== src/Tests/Lives.antt =====
-- The life of a thread at a small input.
use ether_recorder_suite.Prelude.{◌≡◌, refl, true, none, some, [], arith, codes, replicate, length}
use ether_recorder_suite.Platform.Event.{Setup}
use ether_recorder_suite.Registry.State.{running}
use ether_recorder_suite.Registry.Core.{
  Label, ThreadConfig, Registry, Env, alive, validate_thread_label,
}
use ether_recorder_suite.Registry.Inv.{IsValid}
use ether_recorder_suite.Registry.Reach.{Step, here, next, initial, initialize, Reach-IsValid}
use ether_recorder_suite.Registry.Ops.{init_global_thread_registry}
use ether_recorder_suite.AppThread.{thread_error}
use ether_recorder_suite.AppThread.Life.{Life, Exit, thread_wrapper}
use ether_recorder_suite.AppThread.Lives.{End, IsKind, thread_wrapper-End}

abbrev setup : Setup
setup = record { allocated = true; mutex_init = 0; cond_init = 0 }

abbrev env : Env
env = record {
  lock_ok = true;
  relock_ok = λ i. true;
  calloc_ok = true;
  calloc_entries_ok = true;
  event = setup;
  second_event = setup;
  current = 7;
  status = λ i. some alive;
}

abbrev client : Label
client = codes "CLIENT"

abbrev client_thread : ThreadConfig
client_thread = record { label = some client; thread_id = 7; exit_func = true }

abbrev ready : Registry
ready = record { initialized = true; entries = []; count = 0; depth = 0 }

initialized : Step initial ready
initialized = initialize true (unfold init_global_thread_registry in refl)

ready-IsValid : IsValid ready
ready-IsValid = Reach-IsValid (next here initialized)

abbrev life : Life
life = record {
  env = λ call. env;
  polls = replicate 500 running;
  init_func = none;
  func = some thread_error;
  while_waiting = λ r. r;
  while_initializing = λ r. r;
  while_running = λ r. r;
}

nobody-IsKind : IsKind client (λ r. r)
nobody-IsKind = record { valid = λ r v. v; initialized = λ r i. i; present = λ r p. p }

enough_polls : 500 ≡ length life.polls
enough_polls = refl

thread_wrapper-End_example :
    (out : Exit) × (thread_wrapper life client_thread client ready ≡ some out)
    × End life client ready out
unfolding validate_thread_label
thread_wrapper-End_example =
    thread_wrapper-End life client client_thread ready refl refl nobody-IsKind nobody-IsKind
      nobody-IsKind refl ready-IsValid refl (omega (arith, enough_polls))
