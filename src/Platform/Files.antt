-- ===== src/Platform/Files.antt =====
-- The pool of file handles over an opening and a closing.
use ether_recorder_suite.Prelude.{
  ℕ, ◌≡◌, refl, sym, Bool, true, false, not, ◌&&◌, inl, inr, Option, none, some, List, [], ◌∷◌,
  arith, ◌==◌, Bool-cases, Option-cases,
}
use mathlib.Core.Path.{subst}
use ether_recorder_suite.Platform.Codes.{PlatformErrorCode, platform_error_success}
use ether_recorder_suite.Platform.File.{
  FileSlot, released, opened, closed, update, acquire_file_slot, OpenCall, open_error, descriptor,
  open_slot, platform_file_open, is_open, platform_file_close,
}

-- Which handles are in use.
abbrev pub used_flags : List FileSlot → List Bool
used_flags [] = []
used_flags (s ∷ ss) = s.used ∷ used_flags ss

-- A slot that was free is claimed.
record Claimed (pool : List FileSlot) (i : ℕ) (pool' : List FileSlot) : Type 0 where
  freed : used_flags (update i released pool') ≡ used_flags pool
  shut : used_flags (update i closed (update i opened pool')) ≡ used_flags pool
  valid : is_open (some i) (update i opened pool') ≡ true

acquire_file_slot-Claimed :
    (pool : List FileSlot) (i : ℕ) (pool' : List FileSlot)
    → acquire_file_slot pool ≡ some (i, pool')
    → Claimed pool i pool'
unfolding acquire_file_slot update is_open
acquire_file_slot-Claimed [] i pool' h = absurd (ground arith)
acquire_file_slot-Claimed (s ∷ ss) i pool' h = elim (Bool-cases s.used) [
  | inr e ↦ ground (arith, e, h)
  | inl e ↦ elim (Option-cases (acquire_file_slot ss)) [
    | inl stuck ↦ absurd (ground (arith, e, stuck, h))
    | inr ((j, ss'), p) ↦ let c = acquire_file_slot-Claimed ss j ss' p in ground (arith, e, p, h, c)
  ]
]

-- An opening and what a closing makes of it.
pub record Opened (pool : List FileSlot) (r : Option ℕ × PlatformErrorCode × List FileSlot)
    : Type 0 where
  pub valid : is_open r.0 r.2 ≡ (r.1 == platform_error_success)
  pub flags : used_flags (platform_file_close r.0 r.2) ≡ used_flags pool

null-Opened :
    (pool pool' : List FileSlot) (code : PlatformErrorCode)
    → (code == platform_error_success) ≡ false
    → used_flags pool' ≡ used_flags pool
    → Opened pool (none, code, pool')
unfolding is_open platform_file_close
null-Opened pool pool' code bad same = record { valid = sym bad; flags = same }

open_slot-Opened :
    (pool : List FileSlot) (exclusive : Bool) (call : OpenCall) (i : ℕ) (pool' : List FileSlot)
    → Claimed pool i pool'
    → Opened pool (open_slot exclusive call i pool')
unfolding open_slot platform_file_close
open_slot-Opened pool exclusive open_error i pool' c =
    null-Opened pool (update i released pool') 303 refl c.freed
open_slot-Opened pool exclusive (descriptor lock_ok) i pool' c =
    elim (Bool-cases (exclusive && not lock_ok)) [
      | inl e ↦
          subst (Opened pool) (ground (arith, e))
            (null-Opened pool (update i released pool') 307 refl c.freed)
      | inr e ↦
          let o : Opened pool (some i, platform_error_success, update i opened pool') = record {
            valid = c.valid;
            flags = ground (arith, c.valid, c.shut);
          } in
          subst (Opened pool) (ground (arith, e)) o
    ]

-- Whatever the system answers, an opening gives a handle that is open if its code is success, and
-- none that is open otherwise; and when that handle is closed the pool has the same handles in use
-- as before, so that neither a failure nor a file that is closed takes up a handle.
pub platform_file_open-close :
    (filepath : Option (List ℕ)) (exclusive : Bool) (call : OpenCall) (pool : List FileSlot)
    → Opened pool (platform_file_open filepath exclusive call pool)
unfolding platform_file_open
platform_file_open-close none exclusive call pool = null-Opened pool pool 2 refl refl
platform_file_open-close (some filepath) exclusive call pool =
    elim (Option-cases (acquire_file_slot pool)) [
      | inl full ↦ subst (Opened pool) (ground (arith, full)) (null-Opened pool pool 11 refl refl)
      | inr ((i, pool'), e) ↦
          subst (Opened pool) (ground (arith, e)) (
            open_slot-Opened pool exclusive call i pool' (acquire_file_slot-Claimed pool i pool' e))
    ]
