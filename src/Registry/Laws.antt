-- ===== src/Registry/Laws.antt =====
-- What each operation on a label does to that label's entry and to the others.
use ether_recorder_suite.Prelude.{
  ℕ, ◌≡◌, ◌≢◌, ◌&&◌, ◌||◌, ◌⊎◌, refl, sym, ap, ◌∙◌, Bool, true, false, Option, some, List, arith,
  Option-cases, inl, inr, Bool-cases, bytes_eq, bytes_eq_refl, bytes_eq_iff, length, ltb, ◌<◌,
}
use mathlib.Core.Path.{subst}
use ether_recorder_suite.MessageQueue.{Message, Meanwhile}
use ether_recorder_suite.Registry.State.{
  ThreadState, created, running, suspended, stopping, terminated, failed, unknown,
  ThreadRegistryError, success, invalid_state_transition, validate_state_transition,
}
use ether_recorder_suite.Registry.Core.{
  Label, Entry, Registry, Env, find_thread, modify, locked, unlocked,
}
use ether_recorder_suite.Registry.Entries.{find_thread-modify}
use ether_recorder_suite.Registry.Ops.{update_state, update_state_locked, enter_state, with_label}
use ether_recorder_suite.Registry.Queues.{pop_message, is_owner}

-- The diagram of the states of a thread.
infix 40 ◌⟶◌
pub data ◌⟶◌ : ThreadState → ThreadState → Type 0 where
  start : created ⟶ running
  never_start : created ⟶ failed
  pause : running ⟶ suspended
  ask_to_stop : running ⟶ stopping
  crash : running ⟶ failed
  resume : suspended ⟶ running
  stop_paused : suspended ⟶ stopping
  finish : stopping ⟶ terminated

edge_of : (s t : ThreadState) → validate_state_transition s t ≡ true → s ⟶ t
unfolding validate_state_transition
edge_of s t h =
    grind (arith, start, never_start, pause, ask_to_stop, crash, resume, stop_paused, finish)

-- The states in which a thread has ended.
abbrev pub ends : ThreadState → Bool
ends terminated = true
ends failed = true
ends _ = false

-- An entry that has entered a state.
entered :
    (state : ThreadState) (e : Entry)
    → enter_state state e ≡ record {
      thread = e.thread;
      state = state;
      auto_cleanup = e.auto_cleanup;
      queue = e.queue;
      completion_event = record {
        signaled = ends state || e.completion_event.signaled;
        manual_reset = e.completion_event.manual_reset;
      };
    }
unfolding enter_state
entered created e = refl
entered running e = refl
entered suspended e = refl
entered stopping e = refl
entered terminated e = refl
entered failed e = refl
entered unknown e = refl

-- What has happened to the registry when the state of `l` has become `state`.
pub record Entered (l : Label) (state : ThreadState) (r s : Registry) : Type 0 where
  pub old : Entry
  pub was : find_thread l r.entries ≡ some old
  pub edge : old.state ⟶ state
  pub now :
      find_thread l s.entries
      ≡ some (record {
        thread = old.thread;
        state = state;
        auto_cleanup = old.auto_cleanup;
        queue = old.queue;
        completion_event = record {
          signaled = ends state || old.completion_event.signaled;
          manual_reset = old.completion_event.manual_reset;
        };
      })
  pub others : (k : Label) → k ≢ l → find_thread k s.entries ≡ find_thread k r.entries

pub bytes_ne : {l k : Label} → k ≢ l → bytes_eq l k ≡ false
bytes_ne {l} {k} h = elim (Bool-cases (bytes_eq l k)) [
  | inl same ↦ absurd (h (sym ((bytes_eq_iff l k).0 same)))
  | inr other ↦ other
]

modified :
    (l : Label) (f : Entry → Entry) (es : List Entry) (e : Entry)
    → ((x : Entry) → (f x).thread ≡ x.thread)
    → find_thread l es ≡ some e
    → (find_thread l (modify l f es) ≡ some (f e))
      × ((k : Label) → k ≢ l → find_thread k (modify l f es) ≡ find_thread k es)
modified l f es e keeps h = (
  find_thread-modify l l f es keeps ∙ rw (bytes_eq_refl, h),
  λ k ne. find_thread-modify l k f es keeps ∙ rw (bytes_ne ne),
)

-- The guards of an operation on a label let it through.
abbrev pub is_open : Env → Label → Registry → Bool
is_open env l r = r.initialized && ltb (length l) 64 && env.lock_ok

-- What a change of state may have done.
abbrev pub Moved : Label → ThreadState → Registry → ThreadRegistryError × Registry → Type 0
Moved l state r out =
    ((out.0 ≡ success) × Entered l state r out.1)
    ⊎ ((out.0 ≢ success) × (out.1.entries ≡ r.entries) × (out.1.count ≡ r.count))

update_state_locked-Moved :
    (l : Label) (state : ThreadState) (r : Registry)
    → Moved l state r (update_state_locked l state r)
unfolding update_state_locked
update_state_locked-Moved l state r = elim (Option-cases (find_thread l r.entries)) [
  | inl missing ↦ inr (ground (arith, missing))
  | inr (e, found) ↦ elim (Bool-cases (validate_state_transition e.state state)) [
    | inl ok ↦
        let (now, others) = modified l (enter_state state) r.entries e (λ x. refl) found in
        let after = unlocked (record r { entries = modify l (enter_state state) r.entries }) in
        subst (Moved l state r) {x = (success, after)} (ground (arith, found, ok)) (
          inl (
            refl,
            record {
              old = e;
              was = found;
              edge = edge_of e.state state ok;
              now = now ∙ ap some (entered state e);
              others = others;
            },
          ))
    | inr refused ↦ inr (ground (arith, found, refused))
  ]
]

-- A call of `thread_registry_update_state` that succeeds moves the thread of that label along an
-- edge of the diagram, signals its event of completion if the new state is terminated or failed and
-- keeps the event otherwise, changes nothing else of its entry, and leaves every other thread as it
-- was; one that fails leaves all entries and the counter.
pub update_state_lem :
    (env : Env) (l : Label) (state : ThreadState) (r : Registry)
    → Moved l state r (update_state env (some l) state r)
unfolding update_state with_label
update_state_lem env l state r = elim (Bool-cases (is_open env l r)) [
  | inl passed ↦
      subst (Moved l state r) {x = update_state_locked l state (locked r)} (ground (arith, passed))
        (unlock-Moved (update_state_locked-Moved l state (locked r)))
  | inr refused ↦ inr (ground (arith, refused))
]
  where
    unlock-Moved :
        {out : ThreadRegistryError × Registry} → Moved l state (locked r) out → Moved l state r out
    unlock-Moved (inl (e, m)) =
        inl (e, record { old = m.old; was = m.was; edge = m.edge; now = m.now; others = m.others })
    unlock-Moved (inr h) = inr h

-- A thread that has not been told to stop cannot terminate: from each state but `stopping` the call
-- is refused as an invalid transition and the entries stay.
pub terminated_needs_stopping :
    (env : Env) (l : Label) (r : Registry) (e : Entry)
    → r.initialized ≡ true
    → length l < 64
    → env.lock_ok ≡ true
    → find_thread l r.entries ≡ some e
    → e.state ≢ stopping
    → ((update_state env (some l) terminated r).0 ≡ invalid_state_transition)
      × ((update_state env (some l) terminated r).1.entries ≡ r.entries)
unfolding update_state update_state_locked with_label validate_state_transition
terminated_needs_stopping env l r e init short lock found state = ground arith

-- A message is taken from the queue of a thread by that thread alone: where a pop succeeds, the
-- identifier registered under the label is the caller's.
pub pop_message_owner :
    (env : Env) (l : Label) (t : ℕ) (w : Meanwhile) (r : Registry) (m : Option Message)
    (s : Registry)
    → pop_message env (some l) t w r ≡ some (success, m, s)
    → (e : Entry) × (find_thread l r.entries ≡ some e) × (e.thread.thread_id ≡ env.current)
unfolding pop_message with_label is_owner
pop_message_owner env l t w r m s h = elim (Option-cases (find_thread l r.entries)) [
  | inl missing ↦ absurd (ground (arith, missing))
  | inr (e, found) ↦ (e, found, ground (arith, found))
]
