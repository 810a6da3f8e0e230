-- ===== src/Registry/Reach.antt =====
-- The registry under every sequence of its operations, from the state in which the program starts.
use ether_recorder_suite.Prelude.{ℕ, ◌≡◌, refl, Bool, false, Option, none, some, [], arith}
use ether_recorder_suite.MessageQueue.{Message, Meanwhile}
use ether_recorder_suite.Registry.State.{ThreadState, ThreadRegistryError}
use ether_recorder_suite.Registry.Core.{Label, ThreadConfig, Registry, Env}
use ether_recorder_suite.Registry.Ops.{
  register, update_state, get_state, is_registered, deregister, init_global_thread_registry,
  cleanup,
}
use ether_recorder_suite.Registry.Queues.{init_queue, push_message, pop_message, get_queue_by_label}
use ether_recorder_suite.Registry.Health.{check_thread_health, check_all_threads}
use ether_recorder_suite.Registry.Inv.{
  IsValid, IsValid-of_parts, register-IsValid, update_state-IsValid, deregister-IsValid,
  init_global-IsValid, cleanup-IsValid,
}
use ether_recorder_suite.Registry.Step.{
  Orderly, init_queue-IsValid, push_message-IsValid, pop_message-IsValid,
  check_thread_health-IsValid, check_all_threads-IsValid,
}

-- `static ThreadRegistry g_registry = {0}`
abbrev pub initial : Registry
initial = record { initialized = false; entries = []; count = 0; depth = 0 }

-- A call of an operation that returns, by any thread.
pub data Step (r : Registry) (s : Registry) : Type 0 where
  initialize : (ok : Bool) → s ≡ (init_global_thread_registry ok r).1 → Step r s
  registers :
      (env : Env) (thread : Option ThreadConfig) (auto : Bool)
      → s ≡ (register env thread auto r).1
      → Step r s
  updates :
      (env : Env) (label : Option Label) (state : ThreadState)
      → s ≡ (update_state env label state r).1
      → Step r s
  asks_state : (env : Env) (label : Label) → s ≡ (get_state env label r).1 → Step r s
  asks_registered :
      (env : Env) (thread : Option ThreadConfig) → s ≡ (is_registered env thread r).1 → Step r s
  asks_queue :
      (env : Env) (label : Option Label) → s ≡ (get_queue_by_label env label r).1 → Step r s
  deregisters : (env : Env) (label : Option Label) → s ≡ (deregister env label r).1 → Step r s
  makes_queue : (env : Env) (label : Option Label) → s ≡ (init_queue env label r).1 → Step r s
  pushes :
      (env : Env) (label : Option Label) (m : Message) (t : ℕ) (w : Meanwhile)
      (out : ThreadRegistryError × Registry)
      → Orderly w
      → push_message env label m t w r ≡ some out
      → s ≡ out.1
      → Step r s
  pops :
      (env : Env) (label : Option Label) (t : ℕ) (w : Meanwhile)
      (out : ThreadRegistryError × Option Message × Registry)
      → Orderly w
      → pop_message env label t w r ≡ some out
      → s ≡ out.2
      → Step r s
  checks : (env : Env) (label : Option Label) → s ≡ (check_thread_health env label r).1 → Step r s
  checks_all : (env : Env) → s ≡ (check_all_threads env r).1 → Step r s
  cleans : s ≡ (cleanup r).1 → Step r s

pub data Reach (r : Registry) : Registry → Type 0 where
  here : Reach r r
  next : {s t : Registry} → Reach r s → Step s t → Reach r t

get_state_entries :
    (env : Env) (l : Label) (r : Registry)
    → ((get_state env l r).1.entries ≡ r.entries) × ((get_state env l r).1.count ≡ r.count)
unfolding get_state
get_state_entries env l r = ground arith

is_registered_entries :
    (env : Env) (thread : Option ThreadConfig) (r : Registry)
    → ((is_registered env thread r).1.entries ≡ r.entries)
      × ((is_registered env thread r).1.count ≡ r.count)
unfolding is_registered
is_registered_entries env none r = (refl, refl)
is_registered_entries env (some thread) r = ground arith

get_queue_entries :
    (env : Env) (label : Option Label) (r : Registry)
    → ((get_queue_by_label env label r).1.entries ≡ r.entries)
      × ((get_queue_by_label env label r).1.count ≡ r.count)
unfolding get_queue_by_label
get_queue_entries env none r = (refl, refl)
get_queue_entries env (some l) r = ground arith

Step-IsValid : {r s : Registry} → Step r s → IsValid r → IsValid s
Step-IsValid {r} (initialize ok e) v = rw e (init_global-IsValid ok r v)
Step-IsValid {r} (registers env thread auto e) v = rw e (register-IsValid env thread auto r v)
Step-IsValid {r} (updates env label state e) v = rw e (update_state-IsValid env label state r v)
Step-IsValid {r} (asks_state env l e) v =
    rw e (let (a, b) = get_state_entries env l r in IsValid-of_parts _ a b v)
Step-IsValid {r} (asks_registered env thread e) v =
    rw e (let (a, b) = is_registered_entries env thread r in IsValid-of_parts _ a b v)
Step-IsValid {r} (asks_queue env label e) v =
    rw e (let (a, b) = get_queue_entries env label r in IsValid-of_parts _ a b v)
Step-IsValid {r} (deregisters env label e) v = rw e (deregister-IsValid env label r v)
Step-IsValid {r} (makes_queue env label e) v = rw e (init_queue-IsValid env label r v)
Step-IsValid {r} (pushes env label m t w out o h e) v =
    rw e (push_message-IsValid env label m t w r out o h v)
Step-IsValid {r} (pops env label t w out o h e) v =
    rw e (pop_message-IsValid env label t w r out o h v)
Step-IsValid {r} (checks env label e) v = rw e (check_thread_health-IsValid env label r v)
Step-IsValid {r} (checks_all env e) v = rw e (check_all_threads-IsValid env r v)
Step-IsValid {r} (cleans e) v = rw e (cleanup-IsValid r v)

initial-IsValid : IsValid initial
initial-IsValid = record { sound = tt; counted = refl }

-- Whatever operations are called, in whatever order and whatever fails in them, each entry of the
-- registry has a label of fewer than 64 bytes that no other entry has, a thread identifier that is
-- not 0, an event of completion that is signaled exactly if the thread has terminated or failed,
-- and a valid queue or none; and the counter is the number of entries modulo 2^32.
pub Reach-IsValid : {r : Registry} → Reach initial r → IsValid r
Reach-IsValid here = initial-IsValid
Reach-IsValid (next p s) = Step-IsValid s (Reach-IsValid p)
