-- ===== src/Registry/Membership.antt =====
-- Registration and removal, for the label at hand and for the others.
use ether_recorder_suite.Prelude.{
  ◌≡◌, ◌≢◌, ◌⊎◌, ◌&&◌, refl, Bool, true, false, none, some, List, ◌∷◌, arith, Option-cases, inl,
  inr, Bool-cases, bytes_eq_refl, ◌==◌, not, ◌+◌, ◌%◌, ◌^◌,
}
use mathlib.Core.Path.{subst}
use ether_recorder_suite.Platform.Event.{event_create}
use ether_recorder_suite.Registry.State.{created, ThreadRegistryError, success}
use ether_recorder_suite.Registry.Core.{
  Label, ThreadConfig, Entry, Registry, Env, find_thread, locked, unlocked, label_is,
}
use ether_recorder_suite.Registry.Entries.{find_thread-remove_ne, find_thread-remove_self}
use ether_recorder_suite.Registry.Ops.{
  register, register_locked, new_entry, deregister, deregister_locked, with_label,
}
use ether_recorder_suite.Registry.Inv.{IsValid}
use ether_recorder_suite.Registry.Laws.{bytes_ne, is_open}

register-edge :
    (thread : ThreadConfig) (l : Label) (es : List Entry) (x : Entry)
    → x.thread ≡ thread
    → thread.label ≡ some l
    → (find_thread l (x ∷ es) ≡ some x)
      × ((k : Label) → k ≢ l → find_thread k (x ∷ es) ≡ find_thread k es)
unfolding find_thread label_is
register-edge thread l es x same named = (
  ground (arith, same, named, bytes_eq_refl l),
  λ k ne. let other = bytes_ne ne in ground (arith, same, named, other),
)

-- What has happened when the thread of label `l` has been registered.
pub record Registered (thread : ThreadConfig) (auto : Bool) (l : Label) (r s : Registry)
    : Type 0 where
  pub was_free : find_thread l r.entries ≡ none
  pub entry : Entry
  pub now : find_thread l s.entries ≡ some entry
  pub fresh : (entry.thread ≡ thread) × (entry.state ≡ created) × (entry.auto_cleanup ≡ auto)
  pub others : (k : Label) → k ≢ l → find_thread k s.entries ≡ find_thread k r.entries

abbrev pub Joined : ThreadConfig → Bool → Label → Registry → ThreadRegistryError × Registry → Type 0
Joined thread auto l r out =
    ((out.0 ≡ success) × Registered thread auto l r out.1)
    ⊎ ((out.0 ≢ success) × (out.1.entries ≡ r.entries) × (out.1.count ≡ r.count))

register_locked-Joined :
    (env : Env) (thread : ThreadConfig) (l : Label) (auto : Bool) (r : Registry)
    → thread.label ≡ some l
    → Joined thread auto l r (register_locked env thread l auto r)
unfolding register_locked new_entry
register_locked-Joined env thread l auto r named = elim (Option-cases (find_thread l r.entries)) [
  | inr (x, found) ↦ inr (ground (arith, found))
  | inl free ↦ elim (Option-cases ((event_create env.event true false).1)) [
    | inl unmade ↦ inr (ground (arith, free, unmade))
    | inr (event, made) ↦ elim (Bool-cases env.calloc_ok) [
      | inr full ↦ inr (ground (arith, free, full))
      | inl room ↦
          let x = new_entry thread auto event in
          let (now, others) = register-edge thread l r.entries x refl named in
          subst (Joined thread auto l r)
            {x = (
              success,
              unlocked (record r { entries = x ∷ r.entries; count = (r.count + 1) % 2 ^ 32 }),
            )}
            (ground (arith, free, made, room))
            (inl (
              refl,
              record {
                was_free = free;
                entry = x;
                now = now;
                fresh = (refl, refl, refl);
                others = others;
              },
            ))
    ]
  ]
]

-- A call of `thread_registry_register` that succeeds finds no thread of that label, adds one that
-- is created and not yet running, and leaves every other as it was; one that fails leaves all
-- entries and the counter.
pub register_lem :
    (env : Env) (thread : ThreadConfig) (l : Label) (auto : Bool) (r : Registry)
    → thread.label ≡ some l
    → Joined thread auto l r (register env (some thread) auto r)
unfolding register
register_lem env thread l auto r named =
    elim (Bool-cases (is_open env l r && not (thread.thread_id == 0))) [
      | inl passed ↦
          subst (Joined thread auto l r) {x = register_locked env thread l auto (locked r)}
            (ground (arith, named, passed))
            (unlock-Joined (register_locked-Joined env thread l auto (locked r) named))
      | inr refused ↦ inr (ground (arith, named, refused))
    ]
  where
    unlock-Joined :
        {out : ThreadRegistryError × Registry}
        → Joined thread auto l (locked r) out
        → Joined thread auto l r out
    unlock-Joined (inl (e, m)) = inl (
      e,
      record {
        was_free = m.was_free;
        entry = m.entry;
        now = m.now;
        fresh = m.fresh;
        others = m.others;
      },
    )
    unlock-Joined (inr h) = inr h

-- A call of `thread_registry_deregister` on a valid registry leaves every thread of another label
-- as it was; if it succeeds, there was a thread of that label and there is none any more, and if
-- it fails, the entries stay.
pub deregister_lem :
    (env : Env) (l : Label) (r : Registry)
    → IsValid r
    → let (result, s) = deregister env (some l) r in
      ((k : Label) → k ≢ l → find_thread k s.entries ≡ find_thread k r.entries)
      × (result ≡ success → (find_thread l s.entries ≡ none) × (find_thread l r.entries ≢ none))
      × (result ≢ success → s.entries ≡ r.entries)
unfolding deregister deregister_locked with_label
deregister_lem env l r v =
    let gone = find_thread-remove_self l r.entries v.sound in
    (
      λ k ne. let kept = find_thread-remove_ne l k r.entries (bytes_ne ne) in ground (arith, kept),
      λ ok. ground (arith, ok, gone),
      λ failed. ground (arith, failed),
    )
