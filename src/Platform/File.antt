-- ===== src/Platform/File.antt =====
-- PlatformLayer/posix/src/posix_file.c: the pool of file handles, opening, reading and closing,
-- over what the system calls give. A handle is null or the index of a slot; other pointers are not
-- null.
use ether_recorder_suite.Prelude.{
  ℕ, zero, suc, Bool, true, false, not, ◌&&◌, Option, none, some, List, [], ◌∷◌, if◌then◌else◌,
  get_elem?, take, drop, min,
}
use ether_recorder_suite.Platform.Codes.{
  PlatformErrorCode, platform_error_success, platform_error_invalid_argument,
  platform_error_out_of_memory,
}

abbrev pub platform_error_file_open : PlatformErrorCode
platform_error_file_open = 303

abbrev pub platform_error_file_read : PlatformErrorCode
platform_error_file_read = 304

abbrev pub platform_error_file_locked : PlatformErrorCode
platform_error_file_locked = 307

-- A slot of `g_file_pool` and its flag in `g_file_pool_used`, without the descriptor.
pub record FileSlot : Type 0 where
  pub used : Bool
  pub is_valid : Bool

abbrev pub claimed : FileSlot → FileSlot
claimed s = record { used = true; is_valid = false }

abbrev pub released : FileSlot → FileSlot
released s = record s { used = false }

abbrev pub opened : FileSlot → FileSlot
opened s = record s { is_valid = true }

abbrev pub closed : FileSlot → FileSlot
closed s = record { used = false; is_valid = false }

-- An assignment to fields of a slot.
unfoldable pub update : ℕ → (FileSlot → FileSlot) → List FileSlot → List FileSlot
update i f [] = []
update zero f (s ∷ ss) = f s ∷ ss
update (suc i) f (s ∷ ss) = s ∷ update i f ss

unfoldable pub acquire_file_slot : List FileSlot → Option (ℕ × List FileSlot)
acquire_file_slot [] = none
acquire_file_slot (s ∷ ss) = elim s.used [
  | false ↦ some (0, claimed s ∷ ss)
  | true ↦ elim (acquire_file_slot ss) [ none ↦ none | some (i, ss') ↦ some (suc i, s ∷ ss') ]
]

-- `open` and, for an exclusive file, `flock`: whether it gets the lock.
pub data OpenCall : Type 0 where
  open_error : OpenCall
  descriptor : Bool → OpenCall

-- What follows the slot. `exclusive` is PLATFORM_FILE_SHARE_NONE.
unfoldable pub open_slot :
    Bool → OpenCall → ℕ → List FileSlot → Option ℕ × PlatformErrorCode × List FileSlot
open_slot exclusive open_error i pool = (none, platform_error_file_open, update i released pool)
open_slot exclusive (descriptor lock_ok) i pool =
    if exclusive && not lock_ok
    then (none, platform_error_file_locked, update i released pool)
    else (some i, platform_error_success, update i opened pool)

unfoldable pub platform_file_open :
    Option (List ℕ) → Bool → OpenCall → List FileSlot → Option ℕ × PlatformErrorCode × List FileSlot
platform_file_open none exclusive call pool = (none, platform_error_invalid_argument, pool)
platform_file_open (some filepath) exclusive call pool = elim (acquire_file_slot pool) [
  | none ↦ (none, platform_error_out_of_memory, pool)
  | some (i, pool') ↦ open_slot exclusive call i pool'
]

-- `handle && handle->is_valid`
unfoldable pub is_open : Option ℕ → List FileSlot → Bool
is_open none pool = false
is_open (some i) pool = elim (get_elem? pool i) [ none ↦ false | some s ↦ s.is_valid ]

unfoldable pub platform_file_close : Option ℕ → List FileSlot → List FileSlot
platform_file_close none pool = pool
platform_file_close (some i) pool = if is_open (some i) pool then update i closed pool else pool

-- `read`: at most so many bytes, or an error.
pub data ReadCall : Type 0 where
  at_most : ℕ → ReadCall
  read_error : ReadCall

-- With the bytes of the file that are not read yet: the code, the bytes, and what is left.
unfoldable pub platform_file_read :
    Option ℕ → List FileSlot → ℕ → ReadCall → List ℕ → PlatformErrorCode × List ℕ × List ℕ
platform_file_read handle pool size read_error unread =
    if is_open handle pool
    then (platform_error_file_read, [], unread)
    else (platform_error_invalid_argument, [], unread)
platform_file_read handle pool size (at_most n) unread =
    if is_open handle pool
    then (platform_error_success, take (min n size) unread, drop (min n size) unread)
    else (platform_error_invalid_argument, [], unread)

-- The three calls of `lseek`: `none` is a failure.
pub record Seeks : Type 0 where
  pub current : Option ℕ
  pub end : Option ℕ
  pub restored : Option ℕ

-- The code and the size.
unfoldable pub platform_file_get_size : Option ℕ → List FileSlot → Seeks → PlatformErrorCode × ℕ
platform_file_get_size handle pool seeks =
    if is_open handle pool
    then elim seeks.current [
      | none ↦ (platform_error_file_read, 0)
      | some c ↦ elim seeks.end [
        | none ↦ (platform_error_file_read, 0)
        | some n ↦ elim seeks.restored [
          | none ↦ (platform_error_file_read, 0)
          | some k ↦ (platform_error_success, n)
        ]
      ]
    ]
    else (platform_error_invalid_argument, 0)
