-- ===== src/LogQueue/History.antt =====
-- A whole push: the overflow, the attempts and the fallback keep the entries in order.
use ether_recorder_suite.Prelude.{
  ℕ, zero, suc, ◌+◌, ◌*◌, ◌/◌, ◌≡◌, ◌≢◌, refl, sym, ap, ◌∙◌, Bool, true, false, List, [], ◌∷◌, ◌++◌,
  append-nil, arith, length, ◌==◌, Bool-cases, inl, inr, not, min, ◌^◌, leb, ◌&&◌,
}
use mathlib.Core.Path.{subst}
use ether_recorder_suite.RingArray
use ether_recorder_suite.LogQueue.{
  LogEntry, World, Output, overflow, purged, suspending, resuming, next, publish_oldest, purge,
  handle_overflow, try_push, push_fallback, push_loop, log_queue_push, backoff_delay,
  handle_queue_capacity_state, log, get_queue_used, sleep_ms, slot, is_empty,
}
use ether_recorder_suite.LogQueue.Ring.{IsValid, used, contents, logged, history}
use ether_recorder_suite.LogQueue.Push.{
  Kept, Kept-refl, publish_oldest-queue, publish_oldest-Kept, write-Kept, logged-append,
}

Kept-trans :
    {size : ℕ} {added : List LogEntry} {w w' w'' : World}
    → Kept size [] w w'
    → Kept size added w' w''
    → Kept size added w w''
Kept-trans {size} {added} {w} k k' = record {
  valid = k'.valid;
  same = k'.same ∙ ap (λ h. h ++ added) (k.same ∙ append-nil (history size w));
}

module _ (size : ℕ) where
  notice-Kept :
      (o : Output) (w : World)
      → logged (o ∷ []) ≡ []
      → IsValid size w.queue
      → Kept size [] w (log o w)
  notice-Kept o w none_logged v = record {
    valid = v;
    same =
        ap (λ l. l ++ contents size w.queue)
          (logged-append w.out (o ∷ [])
            ∙ ap (λ l. logged w.out ++ l) none_logged
            ∙ append-nil (logged w.out))
        ∙ sym (append-nil (history size w));
  }

  -- Publishing takes one slot, a purge none back.
  publish_oldest-used :
      (w : World)
      → IsValid size w.queue
      → w.queue.head ≢ w.queue.tail
      → used size w.queue ≡ suc (used size (publish_oldest size w).queue)
  publish_oldest-used w v ne =
      RingArray.used-next_head v.tail_in v.head_in (λ e. ne (sym e))
      ∙ ap (λ w'. suc (used size w'.queue)) (sym (publish_oldest-queue size w v))

  pub purge-Kept : (n : ℕ) (w : World) → IsValid size w.queue → Kept size [] w (purge size n w)
  unfolding purge
  purge-Kept zero w v = Kept-refl size w v
  purge-Kept (suc n) w v = elim (Bool-cases (w.queue.head == w.queue.tail)) [
    | inl e ↦ subst (Kept size [] w) (ground arith) (Kept-refl size w v)
    | inr e ↦
        let k = publish_oldest-Kept size w v (ground arith) in
        subst (Kept size [] w) (ground arith)
          (Kept-trans k (purge-Kept n (publish_oldest size w) k.valid))
  ]

  pub purge-used :
      (n : ℕ) (w : World)
      → IsValid size w.queue
      → used size (purge size n w).queue + min n (used size w.queue) ≡ used size w.queue
  unfolding purge
  purge-used zero w v = ground arith
  purge-used (suc n) w v = elim (Bool-cases (w.queue.head == w.queue.tail)) [
    | inl e ↦ ground arith
    | inr e ↦
        let ne : w.queue.head ≢ w.queue.tail = ground arith in
        let k = publish_oldest-Kept size w v ne in
        ground (arith, publish_oldest-used w v ne, purge-used n (publish_oldest size w) k.valid)
  ]

  handle_overflow-Kept :
      (w : World) → IsValid size w.queue → Kept size [] w (handle_overflow size w)
  unfolding handle_overflow logged
  handle_overflow-Kept w v =
      let k = purge-Kept (size / 10) (log overflow w) v in
      Kept-trans (notice-Kept overflow w refl v)
        (Kept-trans k (notice-Kept purged (purge size (size / 10) (log overflow w)) refl k.valid))

  sleep_ms-Kept : (d : ℕ) (w : World) → IsValid size w.queue → Kept size [] w (sleep_ms d w)
  sleep_ms-Kept d w v = record { valid = v; same = sym (append-nil (history size w)) }

  suspended-Kept :
      (b : Bool) (w : World)
      → IsValid size w.queue
      → Kept size [] w (record w { console_logging_suspended = b })
  suspended-Kept b w v = record { valid = v; same = sym (append-nil (history size w)) }

  pub backoff_delay-sleep_ms :
      (random : ℕ → ℕ) (attempt : ℕ) (w : World)
      → (d : ℕ) × (backoff_delay random attempt w ≡ sleep_ms d w)
  unfolding backoff_delay
  backoff_delay-sleep_ms random attempt w = elim (Bool-cases (attempt == 0)) [
    | inl e ↦ (0, ground arith)
    | inr e ↦ (2 ^ min attempt 10 + random (2 ^ min attempt 10), ground arith)
  ]

  -- An overflow leaves room: it has purged a tenth of the slots.
  handle_overflow-room :
      (w : World)
      → IsValid size w.queue
      → next size w.queue.head ≡ w.queue.tail
      → next size (handle_overflow size w).queue.head ≢ (handle_overflow size w).queue.tail
  unfolding handle_overflow
  handle_overflow-room w v full e =
      let k = purge-Kept (size / 10) (log overflow w) v in
      ground (
        arith,
        v.room,
        purge-used (size / 10) (log overflow w) v,
        RingArray.used_full v.tail_in v.head_in full,
        RingArray.used_full k.valid.tail_in k.valid.head_in e,
      )

  write_or_wait :
      (random : ℕ → ℕ) (left attempt : ℕ) (e : LogEntry) (w : World)
      → IsValid size w.queue
      → next size w.queue.head ≢ w.queue.tail
      → Kept size (e ∷ []) w (push_loop size random left attempt e w)
  unfolding push_loop try_push push_fallback
  write_or_wait random zero attempt e w v ne =
      subst (Kept size (e ∷ []) w) (ground arith) (write-Kept size e w v ne)
  write_or_wait random (suc left) attempt e w v ne =
      elim (Bool-cases (is_empty (slot w.queue w.queue.head))) [
        | inl free ↦ subst (Kept size (e ∷ []) w) (ground arith) (write-Kept size e w v ne)
        | inr taken ↦
            let (d, p) = backoff_delay-sleep_ms random (attempt + 1) w in
            subst (Kept size (e ∷ []) w) (ground (arith, p)) (
              Kept-trans (sleep_ms-Kept d w v)
                (write_or_wait random left (attempt + 1) e (sleep_ms d w) v ne))
      ]

  push_loop-Kept :
      (random : ℕ → ℕ) (left attempt : ℕ) (e : LogEntry) (w : World)
      → IsValid size w.queue
      → Kept size (e ∷ []) w (push_loop size random (suc left) attempt e w)
  unfolding push_loop try_push
  push_loop-Kept random left attempt e w v =
      elim (Bool-cases (next size w.queue.head == w.queue.tail)) [
        | inr room ↦ write_or_wait random (suc left) attempt e w v (ground arith)
        | inl full ↦
            let (d, p) = backoff_delay-sleep_ms random (attempt + 1) (handle_overflow size w) in
            let k = handle_overflow-Kept w v in
            subst (Kept size (e ∷ []) w) (ground (arith, p)) (
              Kept-trans (Kept-trans k (sleep_ms-Kept d (handle_overflow size w) k.valid)) (
                write_or_wait random left (attempt + 1) e (sleep_ms d (handle_overflow size w))
                  k.valid (handle_overflow-room w v (ground arith))))
      ]

  handle_queue_capacity_state-Kept :
      (n : ℕ) (w : World)
      → IsValid size w.queue
      → Kept size [] w (handle_queue_capacity_state size n w)
  unfolding handle_queue_capacity_state logged
  handle_queue_capacity_state-Kept n w v =
      elim (Bool-cases (leb (99 * size) (100 * n) && not w.console_logging_suspended)) [
        | inl high ↦ subst (Kept size [] w) (ground arith) (
            Kept-trans
              (Kept-trans (suspended-Kept true w v)
                (notice-Kept suspending (record w { console_logging_suspended = true }) refl v))
              (sleep_ms-Kept 100 (log suspending (record w { console_logging_suspended = true }))
                v))
        | inr high ↦ elim (Bool-cases (leb (100 * n) (60 * size) && w.console_logging_suspended)) [
          | inl low ↦ subst (Kept size [] w) (ground arith) (
              Kept-trans (suspended-Kept false w v)
                (notice-Kept resuming (record w { console_logging_suspended = false }) refl v))
          | inr low ↦ subst (Kept size [] w) (ground arith) (Kept-refl size w v)
        ]
      ]

  -- One thread at a valid queue of ten slots or more: its push of an entry with a label returns
  -- true and leaves the queue valid, and the entry is then the last of those that have been logged
  -- or wait in the queue, which have kept their order, in whatever states the slots were.
  pub log_queue_push-history :
      (random : ℕ → ℕ) (e : LogEntry) (w : World)
      → IsValid size w.queue
      → length e.thread_label ≢ 0
      → ((log_queue_push size random e w).0 ≡ true)
        × Kept size (e ∷ []) w (log_queue_push size random e w).1
  unfolding log_queue_push
  log_queue_push-history random e w v named =
      let k = handle_queue_capacity_state-Kept (get_queue_used size w.queue) w v in
      (
        ground arith,
        subst (Kept size (e ∷ []) w) (ground arith) (
            Kept-trans k (
              push_loop-Kept random 99 0 e
                (handle_queue_capacity_state size (get_queue_used size w.queue) w) k.valid)),
      )
