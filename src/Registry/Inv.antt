-- ===== src/Registry/Inv.antt =====
-- The invariant of the registry, and that registration, states and removal keep it.
use ether_recorder_suite.Prelude.{
  ◌+◌, ◌-◌, ◌%◌, ◌^◌, ◌≡◌, ◌≢◌, refl, Bool, true, false, Option, none, some, [], ◌∷◌, arith, length,
  Option-cases, inl, inr, Bool-cases,
}
use mathlib.Core.Path.{subst}
use ether_recorder_suite.Platform.Event.{event_create, event_set}
use ether_recorder_suite.Registry.State.{
  ThreadState, ThreadRegistryError, validate_state_transition,
}
use ether_recorder_suite.Registry.Core.{
  Label, ThreadConfig, Entry, Registry, Env, validate_thread_label, find_thread, modify, remove,
  locked, unlocked,
}
use ether_recorder_suite.Registry.Entries.{
  IsSound, AreSound, length-modify, length-remove, modify-AreSound, remove-AreSound,
}
use ether_recorder_suite.Registry.Ops.{
  register, register_locked, new_entry, update_state, update_state_locked, enter_state, deregister,
  deregister_locked, with_label, init_global_thread_registry, cleanup,
}

pub record IsValid (r : Registry) : Type 0 where
  pub sound : AreSound r.entries
  pub counted : r.count ≡ length r.entries % 2 ^ 32

-- Only the list and the counter matter.
pub IsValid-of_parts :
    {r : Registry} (s : Registry)
    → s.entries ≡ r.entries
    → s.count ≡ r.count
    → IsValid r
    → IsValid s
IsValid-of_parts s e c v = record { sound = rw e v.sound; counted = rw (e, c) v.counted }

-- A change of one entry that keeps it sound.
pub modify-IsValid :
    (l : Label) (f : Entry → Entry) (r s : Registry)
    → ((e : Entry) → (f e).thread ≡ e.thread)
    → ((e : Entry) → find_thread l r.entries ≡ some e → IsSound e → IsSound (f e))
    → s.entries ≡ modify l f r.entries
    → s.count ≡ r.count
    → IsValid r
    → IsValid s
modify-IsValid l f r s keeps sound e c v = record {
  sound = rw e (modify-AreSound l f r.entries keeps sound v.sound);
  counted = rw (e, c, length-modify) v.counted;
}

-- Operations behind the shared guards.
pub with_label-IsValid :
    (env : Env) (label : Option Label) (r : Registry) (k : Label → ThreadRegistryError × Registry)
    → IsValid r
    → ((l : Label) → IsValid (k l).1)
    → IsValid (with_label (λ e. (e, r)) env label r k).1
unfolding with_label
with_label-IsValid env none r k v h = ground arith
with_label-IsValid env (some l) r k v h = ground (arith, h l)

new_entry-IsSound :
    (env : Env) (thread : ThreadConfig) (l : Label) (auto : Bool) {event : _}
    → thread.label ≡ some l
    → thread.thread_id ≢ 0
    → validate_thread_label (some l) ≡ true
    → (event_create env.event true false).1 ≡ some event
    → IsSound (new_entry thread auto event)
unfolding new_entry validate_thread_label event_create
new_entry-IsSound env thread l auto named id short made = record {
  name = l;
  named = named;
  short = ground arith;
  identified = id;
  signals_end = ground arith;
  by_hand = ground arith;
  queue_valid = tt;
}

cons-IsValid :
    (e : Entry) (l : Label) (r : Registry)
    → e.thread.label ≡ some l
    → IsSound e
    → find_thread l r.entries ≡ none
    → IsValid r
    → IsValid (unlocked (record r { entries = e ∷ r.entries; count = (r.count + 1) % 2 ^ 32 }))
cons-IsValid e l r named s free v = record {
  sound = (s, λ k h. subst (λ n. find_thread n r.entries ≡ none) (label_eq h) free, v.sound);
  counted = omega (arith, v.counted);
}
  where
    label_eq : {k : Label} → e.thread.label ≡ some k → l ≡ k
    label_eq h = cc

register_locked-IsValid :
    (env : Env) (thread : ThreadConfig) (l : Label) (auto : Bool) (r : Registry)
    → thread.label ≡ some l
    → thread.thread_id ≢ 0
    → validate_thread_label (some l) ≡ true
    → IsValid r
    → IsValid (register_locked env thread l auto r).1
unfolding register_locked new_entry
register_locked-IsValid env thread l auto r named id short v =
    elim (Option-cases (find_thread l r.entries)) [
      | inr (x, found) ↦ ground (arith, found)
      | inl free ↦ elim (Option-cases ((event_create env.event true false).1)) [
        | inl unmade ↦ ground (arith, free, unmade)
        | inr (event, made) ↦
            let x = new_entry thread auto event in
            let bigger =
              cons-IsValid x l r named (new_entry-IsSound env thread l auto named id short made)
                free v in
            ground (arith, free, made, bigger)
      ]
    ]

-- Registration keeps the registry valid, on every path.
pub register-IsValid :
    (env : Env) (thread : Option ThreadConfig) (auto : Bool) (r : Registry)
    → IsValid r
    → IsValid (register env thread auto r).1
unfolding register
register-IsValid env none auto r v = ground arith
register-IsValid env (some thread) auto r v = elim (Option-cases thread.label) [
  | inl null ↦ ground (arith, null)
  | inr (l, named) ↦ ground (
    arith,
    named,
    register_locked-IsValid env thread l auto (locked r),
    IsValid-of_parts (locked r) refl refl v,
  )
]

enter_state-IsSound :
    (s : ThreadState) (e : Entry)
    → validate_state_transition e.state s ≡ true
    → IsSound e
    → IsSound (enter_state s e)
unfolding enter_state validate_state_transition event_set
enter_state-IsSound s e ok v = record {
  name = v.name;
  named = v.named;
  short = v.short;
  identified = v.identified;
  signals_end = ground (arith, v.signals_end);
  by_hand = ground arith;
  queue_valid = v.queue_valid;
}

update_state_locked-IsValid :
    (l : Label) (s : ThreadState) (r : Registry) → IsValid r → IsValid (update_state_locked l s r).1
unfolding update_state_locked
update_state_locked-IsValid l s r v = elim (Option-cases (find_thread l r.entries)) [
  | inl missing ↦ ground (arith, missing)
  | inr (e, found) ↦ elim (Bool-cases (validate_state_transition e.state s)) [
    | inl ok ↦
        let v' =
          modify-IsValid l (enter_state s) r
            (unlocked (record r { entries = modify l (enter_state s) r.entries })) (λ x. refl)
            (λ x h. enter_state-IsSound s x (ground (arith, h, found, ok))) refl refl v in
        ground (arith, found, ok, v')
    | inr refused ↦ ground (arith, found, refused)
  ]
]

deregister_locked-IsValid :
    (l : Label) (r : Registry) → IsValid r → IsValid (deregister_locked l r).1
unfolding deregister_locked
deregister_locked-IsValid l r v = elim (Option-cases (find_thread l r.entries)) [
  | inl missing ↦ ground (arith, missing)
  | inr (e, found) ↦
      let v' : IsValid (
          unlocked
            (record r { entries = remove l r.entries; count = (r.count + 2 ^ 32 - 1) % 2 ^ 32 })) =
        record {
          sound = remove-AreSound l r.entries v.sound;
          counted = omega (arith, length-remove l r.entries found, v.counted);
        } in
      ground (arith, found, v')
]

-- A change of state keeps the registry valid, on every path.
pub update_state-IsValid :
    (env : Env) (label : Option Label) (s : ThreadState) (r : Registry)
    → IsValid r
    → IsValid (update_state env label s r).1
unfolding update_state
update_state-IsValid env label s r v =
    with_label-IsValid env label r _ v
      λ l. update_state_locked-IsValid l s (locked r) (IsValid-of_parts (locked r) refl refl v)

-- Removal keeps the registry valid, on every path.
pub deregister-IsValid :
    (env : Env) (label : Option Label) (r : Registry)
    → IsValid r
    → IsValid (deregister env label r).1
unfolding deregister
deregister-IsValid env label r v =
    with_label-IsValid env label r _ v
      λ l. deregister_locked-IsValid l (locked r) (IsValid-of_parts (locked r) refl refl v)

empty-IsValid : (r : Registry) → r.entries ≡ [] → r.count ≡ 0 → IsValid r
empty-IsValid r e c = record { sound = rw e tt; counted = rw (e, c) }

pub init_global-IsValid :
    (ok : Bool) (r : Registry) → IsValid r → IsValid (init_global_thread_registry ok r).1
unfolding init_global_thread_registry
init_global-IsValid ok r v = ground (
  arith,
  empty-IsValid (record r { entries = []; count = 0 }) refl refl,
  empty-IsValid (record r { entries = []; count = 0; initialized = true; depth = 0 }) refl refl,
)

pub cleanup-IsValid : (r : Registry) → IsValid r → IsValid (cleanup r).1
unfolding cleanup
cleanup-IsValid r v = ground (
  arith,
  empty-IsValid (record r { initialized = false; entries = []; count = 0; depth = 0 }) refl refl,
)
