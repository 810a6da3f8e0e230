-- ===== src/Registry/Entries.antt =====
-- Laws of the list of entries: what a search finds after a change.
use ether_recorder_suite.Prelude.{
  ◌+◌, ◌<◌, ◌≡◌, ◌≢◌, refl, sym, ap, ◌∙◌, true, false, Option, none, some, List, [], ◌∷◌, arith,
  if◌then◌else◌, length, bytes_eq, bytes_eq_iff, Bool-cases, inl, inr,
}
use mathlib.Core.Option
use mathlib.Core.Path.{subst}
use ether_recorder_suite.MessageQueue.{MessageQueue}
use ether_recorder_suite.MessageQueue.Ring.{IsValid}
use ether_recorder_suite.Registry.State.{is_over}
use ether_recorder_suite.Registry.Core.{
  Label, ThreadConfig, Entry, max_thread_label_length, label_is, find_thread, modify, remove,
}

abbrev pub QueueIsValid : Option MessageQueue → Type 0
QueueIsValid none = Unit
QueueIsValid (some q) = IsValid q

-- What holds of each entry of the registry.
pub record IsSound (e : Entry) : Type 0 where
  pub name : Label
  pub named : e.thread.label ≡ some name
  pub short : length name < max_thread_label_length
  pub identified : e.thread.thread_id ≢ 0
  pub signals_end : e.completion_event.signaled ≡ is_over e.state
  pub by_hand : e.completion_event.manual_reset ≡ true
  pub queue_valid : QueueIsValid e.queue

-- The label of an entry is not that of another.
abbrev pub IsNew : Entry → List Entry → Type 0
IsNew e es = (l : Label) → e.thread.label ≡ some l → find_thread l es ≡ none

-- Every entry is sound, and no label stands twice.
abbrev pub AreSound : List Entry → Type 0
AreSound [] = Unit
AreSound (e ∷ es) = IsSound e × IsNew e es × AreSound es

-- An entry that has one label has another if that is the same.
pub label_is-same :
    (a : Option Label) (l k : Label) → label_is a l ≡ true → label_is a k ≡ bytes_eq l k
unfolding label_is
label_is-same none l k h = cc
label_is-same (some n) l k h = rw ((bytes_eq_iff n l).0 h)

label_is-name : {a : Option Label} {n l : Label} → a ≡ some n → label_is a l ≡ true → n ≡ l
unfolding label_is
label_is-name {n} {l} e h = (bytes_eq_iff n l).0 (rw e at h)

label_is-other :
    (a : Option Label) (l k : Label)
    → label_is a l ≡ false
    → label_is a k ≡ true
    → bytes_eq l k ≡ false
unfolding label_is
label_is-other none l k h h' = cc
label_is-other (some n) l k h h' = elim (Bool-cases (bytes_eq l k)) [
  | inl same ↦ let e = (bytes_eq_iff l k).0 same in absurd (ground (arith, e, h, h'))
  | inr other ↦ other
]

pub find_thread-modify :
    (l k : Label) (f : Entry → Entry) (es : List Entry)
    → ((e : Entry) → (f e).thread ≡ e.thread)
    → find_thread k (modify l f es)
      ≡ (if bytes_eq l k then Option.map f (find_thread k es) else find_thread k es)
unfolding find_thread modify
find_thread-modify l k f [] keeps = ground arith
find_thread-modify l k f (e ∷ es) keeps = ground (
  arith,
  keeps e,
  label_is-same e.thread.label l k,
  label_is-other e.thread.label l k,
  find_thread-modify l k f es keeps,
)

pub find_thread-remove_ne :
    (l k : Label) (es : List Entry)
    → bytes_eq l k ≡ false
    → find_thread k (remove l es) ≡ find_thread k es
unfolding find_thread remove
find_thread-remove_ne l k [] h = refl
find_thread-remove_ne l k (e ∷ es) h =
    ground (arith, label_is-same e.thread.label l k, find_thread-remove_ne l k es h)

-- Where no label stands twice, a removed one is gone.
pub find_thread-remove_self :
    (l : Label) (es : List Entry) → AreSound es → find_thread l (remove l es) ≡ none
unfolding find_thread remove
find_thread-remove_self l [] s = refl
find_thread-remove_self l (e ∷ es) (s, new, rest) = elim (Bool-cases (label_is e.thread.label l)) [
  | inl here ↦
      let e' : s.name ≡ l = label_is-name s.named here in rw here (new l (s.named ∙ ap some e'))
  | inr other ↦ rw (other, other) (find_thread-remove_self l es rest)
]

pub length-modify :
    (l : Label) (f : Entry → Entry) (es : List Entry) → length (modify l f es) ≡ length es
unfolding modify
length-modify l f [] = refl
length-modify l f (e ∷ es) = ground (arith, length-modify l f es)

pub length-remove :
    (l : Label) (es : List Entry) {e : Entry}
    → find_thread l es ≡ some e
    → length (remove l es) + 1 ≡ length es
unfolding find_thread remove
length-remove l [] h = cc
length-remove l (e ∷ es) {e = x} h = ground (arith, length-remove l es {e = x})

-- What `find_thread` finds has the label, and is sound.
pub find_thread-named :
    (l : Label) (es : List Entry) {e : Entry}
    → find_thread l es ≡ some e
    → label_is e.thread.label l ≡ true
unfolding find_thread
find_thread-named l [] h = cc
find_thread-named l (e ∷ es) {e = x} h = ground (arith, find_thread-named l es {e = x})

pub find_thread-IsSound :
    (l : Label) (es : List Entry) {e : Entry} → AreSound es → find_thread l es ≡ some e → IsSound e
unfolding find_thread
find_thread-IsSound l [] s h = cc
find_thread-IsSound l (x ∷ es) {e} (s, new, rest) h =
    elim (Bool-cases (label_is x.thread.label l)) [
      | inl here ↦ subst IsSound (ground (arith, here)) s
      | inr other ↦ find_thread-IsSound l es rest (ground (arith, other))
    ]

-- A change that keeps each entry's label and soundness keeps the whole list sound.
pub modify-AreSound :
    (l : Label) (f : Entry → Entry) (es : List Entry)
    → ((e : Entry) → (f e).thread ≡ e.thread)
    → ((e : Entry) → find_thread l es ≡ some e → IsSound e → IsSound (f e))
    → AreSound es
    → AreSound (modify l f es)
unfolding modify find_thread
modify-AreSound l f [] keeps sound s = tt
modify-AreSound l f (e ∷ es) keeps sound (s, new, rest) =
    elim (Bool-cases (label_is e.thread.label l)) [
      | inl here ↦ rw here (
        sound e (rw here) s,
        λ k h. new k (ap (λ (t : ThreadConfig). t.label) (sym (keeps e)) ∙ h),
        rest,
      )
      | inr other ↦ rw other (
        s,
        λ k h. find_thread-modify l k f es keeps ∙ ground (arith, new k h),
        modify-AreSound l f es keeps (λ x h. sound x (rw other h)) rest,
      )
    ]

find_thread-remove-none :
    (l k : Label) (es : List Entry) → find_thread k es ≡ none → find_thread k (remove l es) ≡ none
unfolding find_thread remove
find_thread-remove-none l k [] h = refl
find_thread-remove-none l k (e ∷ es) h = ground (arith, find_thread-remove-none l k es)

pub remove-AreSound : (l : Label) (es : List Entry) → AreSound es → AreSound (remove l es)
unfolding remove
remove-AreSound l [] s = tt
remove-AreSound l (e ∷ es) (s, new, rest) = elim (Bool-cases (label_is e.thread.label l)) [
  | inl here ↦ rw here rest
  | inr other ↦
      rw other (s, λ k h. find_thread-remove-none l k es (new k h), remove-AreSound l es rest)
]
