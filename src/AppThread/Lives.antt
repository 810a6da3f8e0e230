-- ===== src/AppThread/Lives.antt =====
-- How the life of a thread ends in the registry.
use ether_recorder_suite.Prelude.{
  ◌≤◌, ◌≡◌, ◌≢◌, refl, ◌∙◌, true, false, none, some, List, if◌then◌else◌, length, arith, Bool-cases,
  Option-cases, inl, inr, bytes_eq, bytes_eq_refl, codes, take,
}
use mathlib.Core.Path.{subst}
use ether_recorder_suite.Registry.State.{
  ThreadState, running, failed, terminated, ThreadRegistryError, success,
}
use ether_recorder_suite.Registry.Core.{
  Label, ThreadConfig, Entry, Registry, Env, find_thread, modify, validate_thread_label,
}
use ether_recorder_suite.Registry.Entries.{find_thread-modify, find_thread-remove_self}
use ether_recorder_suite.Registry.Ops.{
  register, register_locked, update_state, update_state_locked, deregister, deregister_locked,
  enter_state, with_label,
}
use ether_recorder_suite.Registry.Queues.{
  init_queue, init_queue_locked, set_queue, queue_events, new_queue,
}
use ether_recorder_suite.Registry.Inv.{IsValid, register-IsValid, update_state-IsValid}
use ether_recorder_suite.Registry.Step.{init_queue-IsValid}
use ether_recorder_suite.Registry.Membership.{register_lem}
use ether_recorder_suite.AppThread.Logger.{any_running, wait_for_logger_lem}
use ether_recorder_suite.AppThread.{
  ThreadResult, thread_success, thread_error_init_failed, thread_error_logger_timeout,
  thread_error_registration_failed, wait_for_logger,
}
use ether_recorder_suite.AppThread.Service.{is_success}
use ether_recorder_suite.AppThread.Life.{
  Life, Exit, returned, dangling, leave, at_register, at_running, at_queue, at_failed,
  at_terminated, at_deregister, is_ok, result_of, give_up, run_out, after_wait, thread_wrapper,
}

-- A thread of the label is in the registry.
abbrev pub Present : Label → Registry → Type 0
Present l r = find_thread l r.entries ≢ none

modify-Present :
    (l : Label) (f : Entry → Entry) (es : List Entry)
    → ((e : Entry) → (f e).thread ≡ e.thread)
    → find_thread l es ≢ none
    → find_thread l (modify l f es) ≢ none
modify-Present l f es keeps h e = elim (Option-cases (find_thread l es)) [
  | inl n ↦ h n
  | inr (x, p) ↦ ground (arith, find_thread-modify l l f es keeps, bytes_eq_refl l, p, e)
]

update_state-Present :
    (env : Env) (l : Label) (s : ThreadState) (r : Registry)
    → Present l r
    → Present l (update_state env (some l) s r).1
unfolding update_state update_state_locked with_label enter_state
update_state-Present env l s r h e =
    ground (arith, modify-Present l (enter_state s) r.entries (λ x. refl) h, e)

init_queue-Present :
    (env : Env) (l : Label) (r : Registry) → Present l r → Present l (init_queue env (some l) r).1
unfolding init_queue init_queue_locked with_label
init_queue-Present env l r h e = elim (Option-cases (find_thread l r.entries)) [
  | inl n ↦ h n
  | inr (x, p) ↦ elim (Option-cases x.queue) [
    | inr (q, had) ↦ ground (arith, p, had, h, e)
    | inl none_yet ↦ elim (Option-cases (queue_events env)) [
      | inl n ↦
          ground
            (arith, p, none_yet, n, h, e, modify-Present l (set_queue none) r.entries (λ x. refl) h)
      | inr ((a, b), y) ↦ ground (
        arith,
        p,
        none_yet,
        y,
        h,
        e,
        modify-Present l (set_queue none) r.entries (λ x. refl) h,
        modify-Present l (set_queue (some (new_queue l a b))) r.entries (λ x. refl) h,
      )
    ]
  ]
]

deregister-gone :
    (env : Env) (l : Label) (r : Registry)
    → IsValid r
    → r.initialized ≡ true
    → validate_thread_label (some l) ≡ true
    → env.lock_ok ≡ true
    → find_thread l (deregister env (some l) r).1.entries ≡ none
unfolding deregister deregister_locked with_label
deregister-gone env l r v init short lock = elim (Option-cases (find_thread l r.entries)) [
  | inl n ↦ ground (arith, init, short, lock, n)
  | inr (x, p) ↦ ground (arith, init, short, lock, p, find_thread-remove_self l r.entries v.sound)
]

update_state-initialized :
    (env : Env) (l : Label) (s : ThreadState) (r : Registry)
    → (update_state env (some l) s r).1.initialized ≡ r.initialized
unfolding update_state update_state_locked with_label
update_state-initialized env l s r = ground arith

-- Other threads, and the thread's own functions, keep the registry valid and initialized and leave
-- the thread of this label in it.
pub record IsKind (l : Label) (f : Registry → Registry) : Type 0 where
  pub valid : (r : Registry) → IsValid r → IsValid (f r)
  pub initialized : (r : Registry) → r.initialized ≡ true → (f r).initialized ≡ true
  pub present : (r : Registry) → Present l r → Present l (f r)

-- How a thread may end.
pub data End (life : Life) (l : Label) (r : Registry) (out : Exit) : Type 0 where
  refused :
      (r' : Registry)
      → out ≡ returned thread_error_registration_failed r'
      → r'.entries ≡ r.entries
      → End life l r out
  left_behind :
      (res : ThreadResult) (r' : Registry)
      → out ≡ dangling res r'
      → res ≢ thread_success
      → Present l r'
      → End life l r out
  gone :
      (r' : Registry)
      → out ≡ returned (result_of life.func) r'
      → find_thread l r'.entries ≡ none
      → End life l r out

leave-Present :
    (l : Label) (res : ThreadResult) (r : Registry) → Present l r → leave l res r ≡ dangling res r
unfolding leave
leave-Present l res r p = elim (Option-cases (find_thread l r.entries)) [
  | inl n ↦ absurd (p n)
  | inr (e, f) ↦ ground (arith, f)
]

leave_gone :
    (l : Label) (res : ThreadResult) (r : Registry)
    → find_thread l r.entries ≡ none
    → leave l res r ≡ returned res r
unfolding leave
leave_gone l res r n = ground (arith, n)

module _ (life : Life) (l : Label) (short : validate_thread_label (some l) ≡ true)
    (lock : (life.env at_deregister).lock_ok ≡ true) (waits : IsKind l life.while_waiting)
    (inits : IsKind l life.while_initializing) (runs : IsKind l life.while_running) where
  give_up-End :
      (r0 : Registry) (res : ThreadResult) (r : Registry)
      → is_success res ≡ false
      → r.initialized ≡ true
      → Present l r
      → End life l r0 (give_up life l res r)
  unfolding give_up
  give_up-End r0 res r bad i p =
      let r' = (update_state (life.env at_failed) (some l) failed r).1 in
      let there = update_state-Present (life.env at_failed) l failed r p in
      left_behind res r' (leave-Present l res r' there) (λ e. ground (arith, bad, e)) there

  run_out-End :
      (r0 r : Registry) → IsValid r → r.initialized ≡ true → End life l r0 (run_out life l r)
  unfolding run_out
  run_out-End r0 r v i =
      let r1 = life.while_running r in
      let r2 = (update_state (life.env at_terminated) (some l) terminated r1).1 in
      let none_left =
        deregister-gone (life.env at_deregister) l r2
          (update_state-IsValid (life.env at_terminated) (some l) terminated r1 (runs.valid r v))
          (update_state-initialized (life.env at_terminated) l terminated r1 ∙ runs.initialized r i)
          short lock in
      gone (deregister (life.env at_deregister) (some l) r2).1
        (leave_gone l (result_of life.func) (deregister (life.env at_deregister) (some l) r2).1
          none_left)
        none_left

  after_wait-End :
      (r0 : Registry) (res : ThreadResult) (r : Registry)
      → IsValid r
      → r.initialized ≡ true
      → Present l r
      → End life l r0 (after_wait life l res r)
  unfolding after_wait
  after_wait-End r0 res r v i p = elim (Bool-cases (is_success res)) [
    | inr bad ↦ subst (End life l r0) (ground (arith, bad)) (give_up-End r0 res r bad i p)
    | inl good ↦ elim (Bool-cases (is_success (result_of life.init_func))) [
      | inr bad ↦ subst (End life l r0) (ground (arith, good, bad)) (
          give_up-End r0 (result_of life.init_func) (life.while_initializing r) bad
            (inits.initialized r i) (inits.present r p))
      | inl ok ↦
          subst (End life l r0) (ground (arith, good, ok))
            (run_out-End r0 (life.while_initializing r) (inits.valid r v) (inits.initialized r i))
    ]
  ]

register-initialized :
    (env : Env) (thread : ThreadConfig) (l : Label) (r : Registry)
    → thread.label ≡ some l
    → (register env (some thread) true r).1.initialized ≡ r.initialized
unfolding register register_locked
register-initialized env thread l r e = ground (arith, e)

init_queue-initialized :
    (env : Env) (l : Label) (r : Registry)
    → (init_queue env (some l) r).1.initialized ≡ r.initialized
unfolding init_queue init_queue_locked with_label
init_queue-initialized env l r = ground arith

is_ok_sound : (c : ThreadRegistryError) → is_ok c ≡ true → c ≡ success
is_ok_sound success h = refl
is_ok_sound _ h = absurd (ground arith)

is_ok_refuted : (c : ThreadRegistryError) → is_ok c ≡ false → c ≢ success
is_ok_refuted success h e = absurd (ground arith)
is_ok_refuted _ h e = ground (arith, e)

register-Present :
    (env : Env) (thread : ThreadConfig) (l : Label) (r : Registry)
    → thread.label ≡ some l
    → is_ok (register env (some thread) true r).0 ≡ true
    → Present l (register env (some thread) true r).1
register-Present env thread l r named ok = elim (register_lem env thread l true r named) [
  | inl (_, j) ↦ λ e. ground (arith, j.now, e)
  | inr (bad, _, _) ↦ absurd (bad (is_ok_sound _ ok))
]

register_refused :
    (env : Env) (thread : ThreadConfig) (l : Label) (r : Registry)
    → thread.label ≡ some l
    → is_ok (register env (some thread) true r).0 ≡ false
    → (register env (some thread) true r).1.entries ≡ r.entries
register_refused env thread l r named bad = elim (register_lem env thread l true r named) [
  | inl (good, _) ↦ absurd (is_ok_refuted _ bad good)
  | inr (_, same, _) ↦ same
]

wait_for_logger_returns :
    (l : Label) (polls : List ThreadState)
    → 500 ≤ length polls
    → (res : ThreadResult) × (wait_for_logger l polls ≡ some res)
wait_for_logger_returns l polls h = elim (Bool-cases (bytes_eq l (codes "LOGGER"))) [
  | inl self ↦ (thread_success, unfold wait_for_logger in rw self)
  | inr other ↦ (
    if any_running (take 500 polls) then thread_success else thread_error_logger_timeout,
    wait_for_logger_lem l polls other h,
  )
]

-- A thread with a fitting label, in a valid registry whose lock its removal gets, among others that
-- keep the registry valid and leave its entry: if 500 polls for the logger are allowed,
-- `thread_wrapper` returns. It has failed to register and changed no entry; or it has given up with
-- an error, and its entry stays, which points into the stack of the thread that has ended; or it
-- gives the result of its function and no thread of its label is registered any more.
pub thread_wrapper-End :
    (life : Life) (l : Label) (thread : ThreadConfig) (r : Registry)
    → validate_thread_label (some l) ≡ true
    → (life.env at_deregister).lock_ok ≡ true
    → IsKind l life.while_waiting
    → IsKind l life.while_initializing
    → IsKind l life.while_running
    → thread.label ≡ some l
    → IsValid r
    → r.initialized ≡ true
    → 500 ≤ length life.polls
    → (out : Exit) × (thread_wrapper life thread l r ≡ some out) × End life l r out
unfolding thread_wrapper
thread_wrapper-End life l thread r short lock waits inits runs named v i enough =
    let reg = register (life.env at_register) (some thread) true r in
    let r2 = (update_state (life.env at_running) (some l) running reg.1).1 in
    let queued = init_queue (life.env at_queue) (some l) r2 in
    elim (Bool-cases (is_ok reg.0)) [
      | inr bad ↦ (
        returned thread_error_registration_failed reg.1,
        ground (arith, bad),
        refused reg.1 refl (register_refused (life.env at_register) thread l r named bad),
      )
      | inl ok ↦
          let p2 =
            update_state-Present (life.env at_running) l running reg.1
              (register-Present (life.env at_register) thread l r named ok) in
          let p3 = init_queue-Present (life.env at_queue) l r2 p2 in
          let i3 =
            init_queue-initialized (life.env at_queue) l r2
            ∙ update_state-initialized (life.env at_running) l running reg.1
            ∙ register-initialized (life.env at_register) thread l r named
            ∙ i in
          elim (Bool-cases (is_ok queued.0)) [
            | inr bad ↦ (
              give_up life l thread_error_init_failed queued.1,
              ground (arith, ok, bad),
              give_up-End life l short lock waits inits runs r thread_error_init_failed queued.1
                  refl i3 p3,
            )
            | inl ok' ↦
                let (res, w) = wait_for_logger_returns l life.polls enough in
                let v3 = init_queue-IsValid (life.env at_queue) (some l) r2 (
                  update_state-IsValid (life.env at_running) (some l) running reg.1
                    (register-IsValid (life.env at_register) (some thread) true r v)) in
                (
                  after_wait life l res (life.while_waiting queued.1),
                  ground (arith, ok, ok', w),
                  after_wait-End life l short lock waits inits runs r res
                      (life.while_waiting queued.1) (waits.valid queued.1 v3)
                      (waits.initialized queued.1 i3) (waits.present queued.1 p3),
                )
          ]
    ]
