-- ===== src/Registry/Step.antt =====
-- The operations of the registry as steps, and that each keeps the registry valid.
use ether_recorder_suite.Prelude.{
  ℕ, ◌≡◌, refl, Option, none, some, List, [], ◌∷◌, arith, Option-cases, inl, inr, length-replicate,
}
use mathlib.Core.Path.{subst}
use ether_recorder_suite.Platform.Event.{Event, event_set}
use ether_recorder_suite.MessageQueue
use ether_recorder_suite.MessageQueue.{MessageQueue, Message, Meanwhile}
use ether_recorder_suite.MessageQueue.Ring
use ether_recorder_suite.MessageQueue.Ring.{no_message}
use ether_recorder_suite.MessageQueue.Refine.{push-IsValid, pop-IsValid}
use ether_recorder_suite.Registry.State.{ThreadRegistryError}
use ether_recorder_suite.Registry.Core.{
  Label, Entry, Registry, Env, find_thread, modify, locked, unlocked,
}
use ether_recorder_suite.Registry.Entries.{IsSound, QueueIsValid, find_thread-IsSound}
use ether_recorder_suite.Registry.Ops.{with_label}
use ether_recorder_suite.Registry.Queues.{
  init_queue, init_queue_locked, new_queue, set_queue, queue_of, push_message, pop_message,
  default_queue_size, queue_events,
}
use ether_recorder_suite.Registry.Health.{
  fail_entry, handle_thread_failure, check_locked, check_thread_health, visit, check_from,
  check_all_threads,
}
use ether_recorder_suite.Registry.Inv.{
  IsValid, IsValid-of_parts, modify-IsValid, with_label-IsValid, deregister-IsValid,
}

-- An entry may be given any queue that is valid.
set_queue-IsValid :
    (l : Label) (q : Option MessageQueue) (r : Registry)
    → QueueIsValid q
    → IsValid r
    → IsValid (record r { entries = modify l (set_queue q) r.entries })
set_queue-IsValid l q r good v =
    modify-IsValid l (set_queue q) r _ (λ e. refl)
      (λ e h s. record {
        name = s.name;
        named = s.named;
        short = s.short;
        identified = s.identified;
        signals_end = s.signals_end;
        by_hand = s.by_hand;
        queue_valid = good;
      })
      refl refl v

pub new_queue-IsValid : (l : Label) (a b : Event) → MessageQueue.Ring.IsValid (new_queue l a b)
unfolding new_queue
new_queue-IsValid l a b = record {
  room = omega arith;
  small = omega arith;
  storage = length-replicate default_queue_size no_message;
  head_in = omega arith;
  tail_in = omega arith;
}

init_queue_locked-IsValid :
    (env : Env) (l : Label) (r : Registry) → IsValid r → IsValid (init_queue_locked env l r).1
unfolding init_queue_locked
init_queue_locked-IsValid env l r v = elim (Option-cases (queue_events env)) [
  | inl unmade ↦ ground (arith, unmade, v, set_queue-IsValid l none r tt v)
  | inr ((a, b), made) ↦ ground (
    arith,
    made,
    v,
    set_queue-IsValid l none r tt v,
    set_queue-IsValid l (some (new_queue l a b)) r (new_queue-IsValid l a b) v,
  )
]

-- A new queue keeps the registry valid, on every path.
pub init_queue-IsValid :
    (env : Env) (label : Option Label) (r : Registry)
    → IsValid r
    → IsValid (init_queue env label r).1
unfolding init_queue
init_queue-IsValid env label r v =
    with_label-IsValid env label r _ v
      λ l. init_queue_locked-IsValid env l (locked r) (IsValid-of_parts (locked r) refl refl v)

queue_of-IsValid :
    (l : Label) (r : Registry) {q : MessageQueue}
    → queue_of l r ≡ some q
    → IsValid r
    → MessageQueue.Ring.IsValid q
unfolding queue_of
queue_of-IsValid l r {q} h v = elim (Option-cases (find_thread l r.entries)) [
  | inl missing ↦ absurd (ground (arith, missing))
  | inr (e, found) ↦
      subst QueueIsValid {y = some q} (ground (arith, found))
        (find_thread-IsSound l r.entries v.sound found).queue_valid
]

-- The other threads keep a valid queue valid.
abbrev pub Orderly : Meanwhile → Type 0
Orderly env =
    (q : MessageQueue) → MessageQueue.Ring.IsValid q → MessageQueue.Ring.IsValid (env.others q)

-- A message that is pushed keeps the registry valid, on every path.
pub push_message-IsValid :
    (env : Env) (label : Option Label) (m : Message) (t : ℕ) (w : Meanwhile) (r : Registry)
    (out : ThreadRegistryError × Registry)
    → Orderly w
    → push_message env label m t w r ≡ some out
    → IsValid r
    → IsValid out.1
unfolding push_message with_label
push_message-IsValid env none m t w r out o h v = ground arith
push_message-IsValid env (some l) m t w r out o h v = elim (Option-cases (queue_of l r)) [
  | inl missing ↦ ground (arith, missing, IsValid-of_parts (unlocked (locked r)) refl refl v)
  | inr (q, found) ↦ elim (Option-cases (MessageQueue.push q m t w)) [
    | inl stuck ↦ ground (arith, found, stuck)
    | inr ((done, q'), e) ↦
        let v' = push-IsValid q m t w (done, q') (queue_of-IsValid l r found v) o e in
        ground (
          arith,
          found,
          e,
          set_queue-IsValid l (some q') (unlocked (locked r)) v'
              (IsValid-of_parts (unlocked (locked r)) refl refl v),
        )
  ]
]

pub pop_message-IsValid :
    (env : Env) (label : Option Label) (t : ℕ) (w : Meanwhile) (r : Registry)
    (out : ThreadRegistryError × Option Message × Registry)
    → Orderly w
    → pop_message env label t w r ≡ some out
    → IsValid r
    → IsValid out.2
unfolding pop_message with_label
pop_message-IsValid env none t w r out o h v = ground arith
pop_message-IsValid env (some l) t w r out o h v = elim (Option-cases (queue_of l r)) [
  | inl missing ↦ ground (arith, missing, IsValid-of_parts (unlocked (locked r)) refl refl v)
  | inr (q, found) ↦ elim (Option-cases (MessageQueue.pop q t w)) [
    | inl stuck ↦ ground (arith, found, stuck, IsValid-of_parts (unlocked (locked r)) refl refl v)
    | inr ((got, q'), e) ↦
        let v' = pop-IsValid q t w (got, q') (queue_of-IsValid l r found v) o e in
        ground (
          arith,
          found,
          e,
          IsValid-of_parts (unlocked (locked r)) refl refl v,
          set_queue-IsValid l (some q') (unlocked (locked r)) v'
              (IsValid-of_parts (unlocked (locked r)) refl refl v),
        )
  ]
]

fail_entry-IsSound : (e : Entry) → IsSound e → IsSound (fail_entry e)
unfolding fail_entry event_set
fail_entry-IsSound e s = record {
  name = s.name;
  named = s.named;
  short = s.short;
  identified = s.identified;
  signals_end = refl;
  by_hand = s.by_hand;
  queue_valid = s.queue_valid;
}

handle_thread_failure-IsValid :
    (env : Env) (l : Label) (e : Entry) (r : Registry)
    → IsValid r
    → IsValid (handle_thread_failure env l e r).1
unfolding handle_thread_failure
handle_thread_failure-IsValid env l e r v =
    let v' : IsValid (record r { entries = modify l fail_entry r.entries }) =
      modify-IsValid l fail_entry r _ (λ x. keeps x) (λ x h s. fail_entry-IsSound x s) refl refl
        v in
    ground (
      arith,
      v',
      deregister-IsValid (record env { lock_ok = env.relock_ok e.thread.thread_id }) (some l)
          (record r { entries = modify l fail_entry r.entries }) v',
    )
  where
    keeps : (x : Entry) → (fail_entry x).thread ≡ x.thread
    keeps x = unfold fail_entry in refl

check_locked-IsValid :
    (env : Env) (l : Label) (r : Registry) → IsValid r → IsValid (check_locked env l r).1
unfolding check_locked
check_locked-IsValid env l r v = elim (Option-cases (find_thread l r.entries)) [
  | inl missing ↦ ground (arith, missing, v)
  | inr (e, found) ↦ ground (arith, found, v, handle_thread_failure-IsValid env l e r v)
]

-- A check of one thread keeps the registry valid, on every path.
pub check_thread_health-IsValid :
    (env : Env) (label : Option Label) (r : Registry)
    → IsValid r
    → IsValid (check_thread_health env label r).1
unfolding check_thread_health
check_thread_health-IsValid env label r v = with_label-IsValid env label r _ v λ l.
    IsValid-of_parts _ refl refl
      (check_locked-IsValid env l (locked r) (IsValid-of_parts (locked r) refl refl v))

visit-IsValid : (env : Env) (e : Entry) (r : Registry) → IsValid r → IsValid (visit env e r).1
unfolding visit
visit-IsValid env e r v = elim (Option-cases e.thread.label) [
  | inl null ↦ ground (arith, null, v)
  | inr (l, named) ↦ ground (arith, named, v, handle_thread_failure-IsValid env l e r v)
]

check_from-IsValid :
    (env : Env) (es : List Entry) (r : Registry) → IsValid r → IsValid (check_from env es r).1
unfolding check_from
check_from-IsValid env [] r v = v
check_from-IsValid env (e ∷ es) r v =
    let v' = visit-IsValid env e r v in
    ground (arith, v', check_from-IsValid env es (visit env e r).1 v')

-- A check of all threads keeps the registry valid, on every path.
pub check_all_threads-IsValid :
    (env : Env) (r : Registry) → IsValid r → IsValid (check_all_threads env r).1
unfolding check_all_threads
check_all_threads-IsValid env r v =
    let v' =
      check_from-IsValid env r.entries (locked r) (IsValid-of_parts (locked r) refl refl v) in
    ground
      (arith, v, IsValid-of_parts (unlocked (check_from env r.entries (locked r)).1) refl refl v')
