-- ===== src/Tests/Logs.antt =====
-- The log queue at small inputs.
use ether_recorder_suite.Prelude.{
  ℕ, zero, suc, ◌+◌, ◌%◌, ◌<◌, ◌≤◌, ◌≡◌, refl, Bool, true, false, some, [], ◌∷◌, ◌++◌, arith,
  replicate, ltb, if◌then◌else◌, ◌&&◌, Bool-cases, inl, inr, Option,
}
use ether_recorder_suite.Fifo
use ether_recorder_suite.LogQueue.{
  LogEntry, LogQueue, SlotState, empty, written, reserved, World, slot, log_queue_push,
  log_queue_pop,
}
use ether_recorder_suite.LogQueue.Ring.{IsValid, no_entry, contents, used}
use ether_recorder_suite.LogQueue.Push.{Kept}
use ether_recorder_suite.LogQueue.History.{log_queue_push-history}
use ether_recorder_suite.LogQueue.Slots.{IsClean, log_queue_pop_refines}
use ether_recorder_suite.LogQueue.Stale.{push_after_overflow_waits}

abbrev named : ℕ → LogEntry
named n = record no_entry { index = n; thread_label = 65 ∷ [] }

same_state : SlotState → SlotState → Bool
same_state empty empty = true
same_state written written = true
same_state _ _ = false

same_state_sound : (s t : SlotState) → same_state s t ≡ true → s ≡ t
unfolding same_state
same_state_sound empty empty h = refl
same_state_sound written written h = refl
same_state_sound empty reserved h = absurd (ground arith)
same_state_sound empty written h = absurd (ground arith)
same_state_sound reserved t h = absurd (ground arith)
same_state_sound written empty h = absurd (ground arith)
same_state_sound written reserved h = absurd (ground arith)

-- The states of the first slots from the tail on.
clean_upto : (size : ℕ) → LogQueue → ℕ → Bool
clean_upto size q zero = true
clean_upto size q (suc n) =
    clean_upto size q n
    && same_state (slot q ((q.tail + n) % size)) (if ltb n (used size q) then written else empty)

clean_upto_sound :
    (size : ℕ) (q : LogQueue) (n k : ℕ)
    → clean_upto size q n ≡ true
    → k < n
    → slot q ((q.tail + k) % size) ≡ (if ltb k (used size q) then written else empty)
unfolding clean_upto
clean_upto_sound size q zero k h hk = absurd (omega arith)
clean_upto_sound size q (suc n) k h hk = elim (Bool-cases (ltb k n)) [
  | inl less ↦ clean_upto_sound size q n k (ground arith) (ground arith)
  | inr last ↦
      let e : k ≡ n = ground arith in
      ground (
        arith,
        e,
        same_state_sound (slot q ((q.tail + n) % size))
            (if ltb n (used size q) then written else empty) (ground arith),
      )
]

checked-IsClean : (size : ℕ) (q : LogQueue) → clean_upto size q size ≡ true → IsClean size q
checked-IsClean size q h k hk = clean_upto_sound size q size k h hk

-- Twenty slots, all but one in use, going round the end.
abbrev full : LogQueue
full = record {
  entries = replicate 20 (named 1);
  head = 4;
  tail = 5;
  slot_states = replicate 4 written ++ (empty ∷ replicate 15 written);
}

abbrev full_world : World
full_world = record { queue = full; console_logging_suspended = false; out = []; slept = 0 }

-- Ten slots, two in use.
abbrev short : LogQueue
short = record {
  entries = replicate 9 (named 1) ++ (named 2 ∷ []);
  head = 1;
  tail = 9;
  slot_states = written ∷ replicate 8 empty ++ (written ∷ []);
}

full-IsValid : IsValid 20 full
full-IsValid = ground arith

full-IsClean : IsClean 20 full
unfolding clean_upto same_state
full-IsClean = checked-IsClean 20 full refl

short-IsValid : IsValid 10 short
short-IsValid = ground arith

short-IsClean : IsClean 10 short
unfolding clean_upto same_state
short-IsClean = checked-IsClean 10 short refl

contents-short : contents 10 short ≡ named 2 ∷ named 1 ∷ []
contents-short = refl

abbrev short_world : World
short_world = record full_world { queue = short }

log_queue_push-history_example :
    ((log_queue_push 20 (λ d. d) (named 3) full_world).0 ≡ true)
    × Kept 20 (named 3 ∷ []) full_world (log_queue_push 20 (λ d. d) (named 3) full_world).1
log_queue_push-history_example =
    log_queue_push-history 20 (λ d. d) (named 3) full_world full-IsValid (ground arith)

log_queue_pop_refines_example :
    (r : Option LogEntry × LogQueue) × (log_queue_pop 10 short ≡ some r)
    × ((r.0, contents 10 r.1) ≡ Fifo.pop (contents 10 short))
    × IsValid 10 r.1
    × IsClean 10 r.1
log_queue_pop_refines_example = log_queue_pop_refines 10 short short-IsValid short-IsClean

push_after_overflow_waits_example :
    (log_queue_push 20 (λ d. d) (named 3) full_world).1.slept + 94206
    ≤ (log_queue_push 20
        (λ d. d)
        (named 4)
        (log_queue_push 20 (λ d. d) (named 3) full_world).1).1.slept
push_after_overflow_waits_example =
    push_after_overflow_waits 20 (λ d. d) (named 3) (named 4) full_world full-IsValid full-IsClean
      (ground arith) refl (ground arith) (ground arith)
