-- ===== src/LogQueue/Push.antt =====
-- What a push does to the entries: each is either logged or in the queue, and in order.
use ether_recorder_suite.Prelude.{
  ℕ, suc, ◌≡◌, ◌≢◌, refl, sym, ap, ◌∙◌, List, [], ◌∷◌, ◌++◌, append_assoc, append-nil, arith,
  length-set, set, get_or, get_elem?-eq-get_or,
}
use mathlib.Core.Path.{subst}
use ether_recorder_suite.RingArray
use ether_recorder_suite.LogQueue.{
  LogEntry, World, Output, entry, overflow, purged, suspending, resuming, next, publish_oldest,
  write, written,
}
use ether_recorder_suite.LogQueue.Ring.{IsValid, no_entry, used, contents, logged, history}

pub logged-append : (xs ys : List Output) → logged (xs ++ ys) ≡ logged xs ++ logged ys
unfolding logged
logged-append [] ys = refl
logged-append (entry e ∷ xs) ys = ap (λ l. e ∷ l) (logged-append xs ys)
logged-append (suspending ∷ xs) ys = logged-append xs ys
logged-append (resuming ∷ xs) ys = logged-append xs ys
logged-append (overflow ∷ xs) ys = logged-append xs ys
logged-append (purged ∷ xs) ys = logged-append xs ys

-- What a step has kept: the indices in range, and the entries in order with `added` behind them.
pub record Kept (size : ℕ) (added : List LogEntry) (w : World) (w' : World) : Type 0 where
  pub valid : IsValid size w'.queue
  pub same : history size w' ≡ history size w ++ added

pub Kept-refl : (size : ℕ) (w : World) → IsValid size w.queue → Kept size [] w w
Kept-refl size w v = record { valid = v; same = sym (append-nil (history size w)) }

module _ (size : ℕ) where
  pub publish_oldest-queue :
      (w : World)
      → IsValid size w.queue
      → publish_oldest size w ≡ (record w {
        queue = record w.queue { tail = next size w.queue.tail };
        out = w.out ++ (entry (get_or w.queue.entries w.queue.tail no_entry) ∷ []);
      })
  unfolding publish_oldest
  publish_oldest-queue w v = ground (
    arith,
    get_elem?-eq-get_or w.queue.entries w.queue.tail no_entry (omega (arith, v.storage, v.tail_in)),
  )

  contents-publish_oldest :
      (w : World)
      → IsValid size w.queue
      → w.queue.head ≢ w.queue.tail
      → contents size w.queue
        ≡ get_or w.queue.entries w.queue.tail no_entry
          ∷ contents size (record w.queue { tail = next size w.queue.tail })
  contents-publish_oldest w v ne =
      ap (RingArray.span no_entry size w.queue.entries w.queue.tail)
        (RingArray.used-next_head v.tail_in v.head_in (λ e. ne (sym e)))
      ∙ RingArray.span-head no_entry size w.queue.entries w.queue.tail
          (used size (record w.queue { tail = next size w.queue.tail })) v.tail_in

  abbrev published : World → World
  published w = (record w {
    queue = record w.queue { tail = next size w.queue.tail };
    out = w.out ++ (entry (get_or w.queue.entries w.queue.tail no_entry) ∷ []);
  })

  pub publish_oldest-Kept :
      (w : World)
      → IsValid size w.queue
      → w.queue.head ≢ w.queue.tail
      → Kept size [] w (publish_oldest size w)
  unfolding logged
  publish_oldest-Kept w v ne = subst (Kept size [] w) (sym (publish_oldest-queue w v)) (record {
    valid = ground arith;
    same =
        ap (λ l. l ++ contents size (published w).queue)
          (logged-append w.out (entry (get_or w.queue.entries w.queue.tail no_entry) ∷ []))
        ∙ append_assoc (logged w.out) (get_or w.queue.entries w.queue.tail no_entry ∷ [])
            (contents size (published w).queue)
        ∙ ap (λ c. logged w.out ++ c) (sym (contents-publish_oldest w v ne))
        ∙ sym (append-nil (history size w));
  })

  pub write-Kept :
      (e : LogEntry) (w : World)
      → IsValid size w.queue
      → next size w.queue.head ≢ w.queue.tail
      → Kept size (e ∷ []) w (write size e w)
  unfolding write
  write-Kept e w v ne = record {
    valid = ground (
      arith,
      length-set w.queue.entries w.queue.head e,
      length-set w.queue.slot_states w.queue.head written,
    );
    same =
        ap (λ c. logged w.out ++ c) grown
        ∙ sym (append_assoc (logged w.out) (contents size w.queue) (e ∷ []));
  }
    where
      one_more : used size (write size e w).queue ≡ suc (used size w.queue)
      one_more = omega (arith, RingArray.used-next_tail v.tail_in v.head_in ne)

      grown : contents size (write size e w).queue ≡ contents size w.queue ++ (e ∷ [])
      grown =
          ap (RingArray.span no_entry size (set w.queue.entries w.queue.head e) w.queue.tail)
            one_more
          ∙ RingArray.span-set_next no_entry size w.queue.entries e w.queue.tail (used size w.queue)
              w.queue.head v.tail_in (RingArray.used-lt v.tail_in v.head_in)
              (omega (arith, v.storage)) v.head_in (RingArray.tail-used v.tail_in v.head_in)
