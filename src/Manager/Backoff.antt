-- ===== src/Manager/Backoff.antt =====
-- The waits between the attempts to connect.
use ether_recorder_suite.Prelude.{
  ℕ, zero, suc, ◌+◌, ◌*◌, ◌-◌, ◌%◌, ◌^◌, ◌<◌, ◌≡◌, ◌∙◌, inl, inr, true, false, ◌&&◌, Option, none,
  some, List, [], ◌∷◌, ltb, leb, ◌==◌, if◌then◌else◌, min, arith, Bool-cases,
}
use ether_recorder_suite.Platform.Codes.{PlatformErrorCode, platform_error_success}
use ether_recorder_suite.Manager.{
  ClientConfig, Attempt, next_backoff, attempt_loop, attempt_connection,
  platform_error_socket_connect,
}

-- The wait after so many failures: the first, and then its doubles up to the greatest wait.
unfoldable pub wait_after : ℕ → ℕ → ℕ → ℕ
wait_after initial_ms max_ms zero = initial_ms
wait_after initial_ms max_ms (suc k) = min (wait_after initial_ms max_ms k * 2) max_ms

-- So many waits from a number of failures on.
unfoldable pub waits : ℕ → ℕ → ℕ → ℕ → List ℕ
waits initial_ms max_ms k zero = []
waits initial_ms max_ms k (suc n) =
    wait_after initial_ms max_ms k ∷ waits initial_ms max_ms (suc k) n

-- Rounds without a shutdown in which so many attempts fail before one that connects.
pub data Tries : ℕ → List Attempt → Type 0 where
  connects :
      (a : Attempt) (later : List Attempt)
      → a.shutdown ≡ false
      → a.create ≡ platform_error_success
      → a.connect ≡ platform_error_success
      → Tries 0 (a ∷ later)
  fails :
      (a : Attempt) {k : ℕ} {later : List Attempt}
      → a.shutdown ≡ false
      → a.create ≡ platform_error_success
      → (a.connect == platform_error_success) ≡ false
      → Tries k later
      → Tries (suc k) (a ∷ later)

whole : (b : ℕ) → b < 2 ^ 31 → (b * 2) % 2 ^ 32 ≡ b * 2
whole b h = omega (arith, h)

doubled :
    (max_ms b : ℕ)
    → b < 2 ^ 31
    → (if ltb ((b * 2) % 2 ^ 32) max_ms then (b * 2) % 2 ^ 32 else max_ms) ≡ min (b * 2) max_ms
doubled max_ms b h = elim (Bool-cases (ltb (b * 2) max_ms)) [
  | inl e ↦ ground (arith, whole b h, e)
  | inr e ↦ ground (arith, whole b h, e)
]

-- The result of so many failures and a success, from a count on.
abbrev tried : ℕ → ℕ → ℕ → ℕ → ℕ → Option (PlatformErrorCode × List ℕ)
tried initial_ms max_ms limit c k =
    if ltb 0 limit && leb limit (c + k)
    then some (platform_error_socket_connect, waits initial_ms max_ms c (limit - c))
    else some (platform_error_success, waits initial_ms max_ms c k)

-- One more failure before a result.
abbrev one_more : ℕ → Option (PlatformErrorCode × List ℕ) → Option (PlatformErrorCode × List ℕ)
one_more w none = none
one_more w (some (code, ws)) = some (code, w ∷ ws)

module _ (limit c : ℕ) where
  later_true :
      (k : ℕ)
      → (ltb 0 limit && leb limit (c + suc k)) ≡ true
      → (ltb 0 limit && leb limit (suc c + k)) ≡ true
  later_true k e = ground (arith, e)

  later_false :
      (k : ℕ)
      → (ltb 0 limit && leb limit (c + suc k)) ≡ false
      → (ltb 0 limit && leb limit (suc c + k)) ≡ false
  later_false k e = ground (arith, e)

  left_lem :
      (k : ℕ)
      → (ltb 0 limit && leb limit (suc c)) ≡ false
      → (ltb 0 limit && leb limit (c + suc k)) ≡ true
      → limit - c ≡ suc (limit - suc c)
  left_lem k more e = ground (arith, more, e)

  at_zero : (ltb 0 limit && leb limit c) ≡ false → (ltb 0 limit && leb limit (c + 0)) ≡ false
  at_zero more = ground (arith, more)

  stopped :
      (k : ℕ)
      → (ltb 0 limit && leb limit (suc c)) ≡ true
      → (ltb 0 limit && leb limit (c + suc k)) ≡ true
  stopped k stop = ground (arith, stop)

  last_lem :
      (ltb 0 limit && leb limit c) ≡ false
      → (ltb 0 limit && leb limit (suc c)) ≡ true
      → limit - c ≡ suc zero
  last_lem more stop = ground (arith, more, stop)

module _ (initial_ms max_ms : ℕ) (small : initial_ms < 2 ^ 31) (small_max : max_ms < 2 ^ 31) where
  wait_after_lt : (k : ℕ) → wait_after initial_ms max_ms k < 2 ^ 31
  unfolding wait_after
  wait_after_lt zero = small
  wait_after_lt (suc k) = omega (arith, small_max)

  next_backoff-wait_after :
      (k : ℕ)
      → next_backoff max_ms (wait_after initial_ms max_ms k) ≡ wait_after initial_ms max_ms (suc k)
  unfolding next_backoff wait_after
  next_backoff-wait_after k = doubled max_ms (wait_after initial_ms max_ms k) (wait_after_lt k)

  tried_step :
      (limit c k : ℕ)
      → (ltb 0 limit && leb limit (suc c)) ≡ false
      → one_more (wait_after initial_ms max_ms c) (tried initial_ms max_ms limit (suc c) k)
        ≡ tried initial_ms max_ms limit c (suc k)
  unfolding waits
  tried_step limit c k more = elim (Bool-cases (ltb 0 limit && leb limit (c + suc k))) [
    | inl e ↦
        let e' : (ltb 0 limit && leb limit (suc c + k)) ≡ true = later_true limit c k e in
        let left : limit - c ≡ suc (limit - suc c) = left_lem limit c k more e in rw (e, e', left)
    | inr e ↦ rw (e, later_false limit c k e)
  ]

  attempt_loop-Tries :
      (limit c k : ℕ) (rounds : List Attempt)
      → c + k < 2 ^ 32
      → (ltb 0 limit && leb limit c) ≡ false
      → Tries k rounds
      → attempt_loop limit max_ms (wait_after initial_ms max_ms c) c rounds
        ≡ tried initial_ms max_ms limit c k
  unfolding attempt_loop waits
  attempt_loop-Tries limit c _ _ few more (connects a later up create connect) =
      let more0 : (ltb 0 limit && leb limit (c + 0)) ≡ false = at_zero limit c more in
      rw (up, create, connect, more0)
  attempt_loop-Tries limit c _ _ few more (fails a {k = k} {later = later} up create connect rest) =
      let count : (c + 1) % 2 ^ 32 ≡ suc c = omega (arith, few) in
      elim (Bool-cases (ltb 0 limit && leb limit (suc c))) [
        | inl stop ↦
            let e : (ltb 0 limit && leb limit (c + suc k)) ≡ true = stopped limit c k stop in
            let left : limit - c ≡ suc zero = last_lem limit c more stop in
            rw (up, create, connect, count, stop, e, left)
        | inr go ↦
            let ih = attempt_loop-Tries limit (suc c) k later (omega (arith, few)) go rest in
            rw (up, create, connect, count, go, next_backoff-wait_after c, ih)
              (tried_step limit c k go)
      ]

-- A client whose waits are below 2^31 milliseconds, where so many attempts to connect fail, fewer
-- than 2^32, and the next would connect, without a shutdown: with a limit that is not zero and that
-- the failures reach, `attempt_connection` gives up after as many attempts as the limit says; else
-- it connects. Either way it has waited after each failure, first the initial time and then twice
-- the last, up to the greatest.
pub attempt_connection-Tries :
    (config : ClientConfig) (k : ℕ) (rounds : List Attempt)
    → config.backoff_initial_ms < 2 ^ 31
    → config.backoff_max_ms < 2 ^ 31
    → k < 2 ^ 32
    → Tries k rounds
    → attempt_connection config rounds ≡ (
        if ltb 0 config.retry_limit && leb config.retry_limit k
        then some (
          platform_error_socket_connect,
          waits config.backoff_initial_ms config.backoff_max_ms 0 config.retry_limit,
        )
        else some
            (platform_error_success, waits config.backoff_initial_ms config.backoff_max_ms 0 k))
unfolding attempt_connection wait_after
attempt_connection-Tries config k rounds small small_max few tries =
    attempt_loop-Tries config.backoff_initial_ms config.backoff_max_ms small small_max
      config.retry_limit 0 k rounds (omega (arith, few)) (nothing_yet config.retry_limit) tries
    ∙ rw (plus config.retry_limit, minus config.retry_limit)
  where
    plus : (n : ℕ) → 0 + k ≡ k
    plus n = omega arith

    minus : (n : ℕ) → n - 0 ≡ n
    minus n = omega arith

    nothing_yet : (n : ℕ) → (ltb 0 n && leb n 0) ≡ false
    nothing_yet n = ground arith
