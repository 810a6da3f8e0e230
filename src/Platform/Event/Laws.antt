-- ===== src/Platform/Event/Laws.antt =====
-- What a wait on an event may rely on.
use ether_recorder_suite.Prelude.{
  ℕ, zero, suc, ◌+◌, ◌-◌, ◌*◌, ◌/◌, ◌%◌, ◌≤◌, ◌<◌, ◌≡◌, ◌≢◌, ◌⊎◌, refl, Bool, true, false, some,
  List, [], ◌∷◌, arith, inl, inr, Bool-cases, leb, ◌==◌,
}
use mathlib.Core.Path.{subst}
use ether_recorder_suite.Platform.Codes.{
  PlatformErrorCode, platform_error_success, platform_error_timeout, platform_error_system,
  platform_wait_infinite,
}
use ether_recorder_suite.Platform.Event.{
  Event, Timespec, nanoseconds, deadline, Sleep, SleepEnd, Wakeups, woken, timed_out, failed,
  timed_sleep, timed_loop, timed_wait, untimed_loop, event_wait, consume,
}

-- A wait that has not succeeded: the event was not signaled when it began, none of the sleeps but
-- the last has found it signaled, and it is left as the last sleep has found it.
pub record Unsuccessful (e : Event) (sleeps : ℕ → Sleep) (first : ℕ) (r : PlatformErrorCode × Event)
    : Type 0 where
  pub last : ℕ
  pub code : r.0 ≢ platform_error_success
  pub start : e.signaled ≡ false
  pub missed_none : (j : ℕ) → first ≤ j → j < last → (sleeps j).signaled ≡ false
  pub left : r.1 ≡ record e { signaled = (sleeps last).signaled }

-- The two ways in which a wait ends.
abbrev pub Ended : Event → (ℕ → Sleep) → ℕ → PlatformErrorCode × Event → Type 0
Ended e sleeps first r =
    ((r.0 ≡ platform_error_success) × (r.1 ≡ record e { signaled = e.manual_reset }))
    ⊎ Unsuccessful e sleeps first r

SleepEnd-cases : (s : SleepEnd) → (s ≡ woken) ⊎ (s ≡ timed_out) ⊎ (s ≡ failed)
SleepEnd-cases woken = inl refl
SleepEnd-cases timed_out = inr (inl refl)
SleepEnd-cases failed = inr (inr refl)

timed_loop-Ended :
    (rounds due now : ℕ) (e : Event) (sleeps : ℕ → Sleep) (i : ℕ) (r : PlatformErrorCode × Event)
    → e.signaled ≡ false
    → timed_loop rounds due now e sleeps i ≡ some r
    → Ended e sleeps i r
unfolding timed_loop consume
timed_loop-Ended zero due now e sleeps i r start h = absurd (ground arith)
timed_loop-Ended (suc rounds) due now e sleeps i r start h =
    elim (SleepEnd-cases (timed_sleep due now (sleeps i))) [
      | inr (inl out) ↦ inr (now_left (ground (arith, out, h)) (ground (arith, out, h)))
      | inr (inr bad) ↦ inr (now_left (ground (arith, bad, h)) (ground (arith, bad, h)))
      | inl up ↦ elim (Bool-cases (sleeps i).signaled) [
        | inl set ↦ inl (ground (arith, up, set, h), ground (arith, up, set, h))
        | inr unset ↦
            elim (timed_loop-Ended rounds due (now + (sleeps i).elapsed + 1)
              (record e { signaled = (sleeps i).signaled }) sleeps (suc i) r unset
              (ground (arith, up, unset, h))) [
                | inl done ↦ inl done
                | inr u ↦ inr (record {
                  last = u.last;
                  code = u.code;
                  start = start;
                  missed_none = λ j from to. earlier u.last unset u.missed_none j from to;
                  left = u.left;
                })
              ]
      ]
    ]
  where
    now_left :
        r.0 ≢ platform_error_success
        → r.1 ≡ record e { signaled = (sleeps i).signaled }
        → Unsuccessful e sleeps i r
    now_left code left = record {
      last = i;
      code = code;
      start = start;
      missed_none = λ j from to. absurd (omega (arith, from, to));
      left = left;
    }

    earlier :
        (last : ℕ)
        → (sleeps i).signaled ≡ false
        → ((j : ℕ) → suc i ≤ j → j < last → (sleeps j).signaled ≡ false)
        → (j : ℕ) → i ≤ j
        → j < last
        → (sleeps j).signaled ≡ false
    earlier last unset later j from to = elim (Bool-cases (leb (suc i) j)) [
      | inl after ↦ later j (ground (arith, after)) to
      | inr here ↦ subst (λ k. (sleeps k).signaled ≡ false) (ground (arith, here)) unset
    ]

untimed_loop-Ended :
    (e : Event) (ws : List Bool) (r : PlatformErrorCode × Event)
    → untimed_loop e ws ≡ some r
    → (r.0 ≡ platform_error_success) × (r.1 ≡ record e { signaled = e.manual_reset })
unfolding untimed_loop consume
untimed_loop-Ended e [] r h = absurd (ground arith)
untimed_loop-Ended e (true ∷ ws) r h = ground arith
untimed_loop-Ended e (false ∷ ws) r h = untimed_loop-Ended e ws r h

pub event_wait_outcome :
    (e : Event) (timeout_ms : ℕ) (ws : Wakeups) (r : PlatformErrorCode × Event)
    → event_wait e timeout_ms ws ≡ some r
    → Ended e ws.timed 0 r
unfolding event_wait timed_wait consume
event_wait_outcome e t ws r h = elim (Bool-cases e.signaled) [
  | inl set ↦ inl (ground (arith, set, h), ground (arith, set, h))
  | inr unset ↦ elim (Bool-cases (t == platform_wait_infinite)) [
    | inl endless ↦ inl (untimed_loop-Ended e ws.untimed r (ground (arith, unset, endless, h)))
    | inr timed ↦
        let now = nanoseconds ws.clock in
        let due = nanoseconds (deadline ws.clock t) in
        timed_loop-Ended (due - now + 1) due now e ws.timed 0 r unset
          (ground (arith, unset, timed, h))
  ]
]

-- The deadline is the timeout after the start, with the nanoseconds of a second carried.
deadline_lem :
    (ts : Timespec) (timeout_ms : ℕ)
    → nanoseconds (deadline ts timeout_ms) ≡ nanoseconds ts + timeout_ms * 1000000
unfolding deadline
deadline_lem ts t = elim (Bool-cases (leb 1000000000 (ts.tv_nsec + t % 1000 * 1000000))) [
  | inl carry ↦ rw (carry) (carried (ts.tv_sec) ts.tv_nsec (ground (arith, carry)))
  | inr fits ↦ rw (fits) (whole ts.tv_sec ts.tv_nsec)
]
  where
    whole :
        (s n : ℕ)
        → (s + t / 1000) * 1000000000 + (n + t % 1000 * 1000000) ≡ s * 1000000000 + n + t * 1000000
    whole s n = omega arith

    carried :
        (s n : ℕ)
        → 1000000000 ≤ n + t % 1000 * 1000000
        → (s + t / 1000 + 1) * 1000000000 + (n + t % 1000 * 1000000 - 1000000000)
          ≡ s * 1000000000 + n + t * 1000000
    carried s n h = omega (arith, h)

timed_loop_returns :
    (rounds due now : ℕ) (e : Event) (sleeps : ℕ → Sleep) (i : ℕ)
    → due - now < rounds
    → (r : PlatformErrorCode × Event) × (timed_loop rounds due now e sleeps i ≡ some r)
unfolding timed_loop timed_sleep consume
timed_loop_returns zero due now e sleeps i enough = absurd (omega (arith, enough))
timed_loop_returns (suc rounds) due now e sleeps i enough =
    let left : Event = record e { signaled = (sleeps i).signaled } in
    elim (Bool-cases (leb due now)) [
      | inl past ↦ ((platform_error_timeout, left), ground (arith, past))
      | inr before ↦ elim (SleepEnd-cases (sleeps i).end) [
        | inr (inl out) ↦ ((platform_error_timeout, left), ground (arith, before, out))
        | inr (inr bad) ↦ ((platform_error_system, left), ground (arith, before, bad))
        | inl up ↦ elim (Bool-cases (sleeps i).signaled) [
          | inl set ↦ ((platform_error_success, consume left), ground (arith, before, up, set))
          | inr unset ↦
              let (r, p) =
                timed_loop_returns rounds due (now + (sleeps i).elapsed + 1) left sleeps (suc i)
                  (later (ground (arith, before))) in
              (r, ground (arith, before, up, unset, p))
        ]
      ]
    ]
  where
    later : now < due → due - (now + (sleeps i).elapsed + 1) < rounds
    later h = omega (arith, h, enough)

-- A wait with a deadline returns, whatever wakes it and however often without a signal, on a clock
-- that goes forward during each sleep; and it sleeps at most once more than its timeout has
-- nanoseconds, from when the deadline is reckoned.
pub event_wait_returns :
    (e : Event) (timeout_ms : ℕ) (ws : Wakeups)
    → timeout_ms ≢ platform_wait_infinite
    → (r : PlatformErrorCode × Event) × (event_wait e timeout_ms ws ≡ some r)
      × (e.signaled ≡ false
          → timed_loop
              (timeout_ms * 1000000 + 1)
              (nanoseconds (deadline ws.clock timeout_ms))
              (nanoseconds ws.clock)
              e
              ws.timed
              0
            ≡ some r)
unfolding event_wait timed_wait
event_wait_returns e t ws h = elim (Bool-cases e.signaled) [
  | inl set ↦ (
    (platform_error_success, consume e),
    ground (arith, set),
    λ u. absurd (ground (arith, set, u)),
  )
  | inr unset ↦
      let now = nanoseconds ws.clock in
      let due = nanoseconds (deadline ws.clock t) in
      let (r, p) = timed_loop_returns (due - now + 1) due now e ws.timed 0 (omega arith) in
      let rounds : due - now + 1 ≡ t * 1000000 + 1 = omega (arith, deadline_lem ws.clock t) in
      (
        r,
        ground (arith, unset, h, p),
        λ u. subst (λ n. timed_loop n due now e ws.timed 0 ≡ some r) rounds p,
      )
]
