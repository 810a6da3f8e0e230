-- ===== src/Registry/Waits/Laws.antt =====
-- What the waits wait for.
use ether_recorder_suite.Prelude.{
  ℕ, ◌*◌, ◌≡◌, ◌≢◌, ◌<◌, refl, Bool, true, false, none, some, List, [], ◌∷◌, arith, length,
  replicate, inl, inr, Option-cases,
}
use ether_recorder_suite.Platform.Codes.{PlatformWaitResult, wait_success, platform_wait_infinite}
use ether_recorder_suite.Registry.Core.{Entry, Registry}
use ether_recorder_suite.Registry.Waits.{
  is_active, poll, wait_loop, wait_list, wait_all, shorten, active_ids,
}

poll_unset :
    (es : List Entry) (ids : List ℕ)
    → poll es ids (replicate (length ids) false) ≡ (replicate (length ids) false, false)
unfolding poll
poll_unset es [] = refl
poll_unset es (i ∷ ids) = rw (poll_unset es ids)

-- With every thread still to be waited for, a pass sets exactly the flags of the active ones.
abbrev pub AllDone : List Entry → List ℕ → List Bool → Type 0
AllDone es [] flags = Unit
AllDone es (i ∷ ids) [] = Unit
AllDone es (i ∷ ids) (needs ∷ flags) =
    (needs ≡ true → is_active es i ≡ false) × AllDone es ids flags

poll-AllDone :
    (es : List Entry) (ids : List ℕ) (flags : List Bool)
    → (poll es ids flags).1 ≡ false
    → AllDone es ids flags
unfolding poll
poll-AllDone es [] flags h = tt
poll-AllDone es (i ∷ ids) [] h = tt
poll-AllDone es (i ∷ ids) (needs ∷ flags) h =
    (ground (arith, h), poll-AllDone es ids flags (ground (arith, h)))

wait_loop_unset :
    (ids : List ℕ) (timeout_ms : ℕ) (es : List Entry) (views : List (List Entry))
    → wait_loop ids (replicate (length ids) false) timeout_ms (es ∷ views) ≡ some wait_success
unfolding wait_loop
wait_loop_unset ids t es views = ground (arith, poll_unset es ids)

-- The wait for a list of threads reports success at its first poll, whatever the threads do: the
-- flags of those to wait for start unset, so that no entry of the registry is ever looked at.
pub wait_list_never_waits :
    (ids : List ℕ) (timeout_ms : ℕ) (es : List Entry) (views : List (List Entry))
    → ids ≢ []
    → wait_list true (some ids) timeout_ms (es ∷ views) ≡ some wait_success
unfolding wait_list
wait_list_never_waits [] t es views h = absurd (h refl)
wait_list_never_waits (i ∷ ids) t es views h = ground (arith, wait_loop_unset (i ∷ ids) t es views)

-- The wait for all threads reports success at once, with any threads still running.
pub wait_all_never_waits :
    (timeout_ms : ℕ) (r : Registry) (es : List Entry) (views : List (List Entry))
    → r.initialized ≡ true
    → wait_all true true timeout_ms r (es ∷ views) ≡ some wait_success
unfolding wait_all
wait_all_never_waits t r es views h =
    ground (arith, wait_loop_unset (active_ids (λ i. true) r.entries) t es views)

wait_loop-ne-none :
    (ids : List ℕ) (flags : List Bool) (timeout_ms : ℕ) (views : List (List Entry))
    → timeout_ms < platform_wait_infinite
    → timeout_ms < 10 * length views
    → wait_loop ids flags timeout_ms views ≢ none
unfolding wait_loop
wait_loop-ne-none ids flags t [] lt h = absurd (omega arith)
wait_loop-ne-none ids flags t (es ∷ views) lt h =
    ground (arith, wait_loop-ne-none ids (poll es ids flags).0 (shorten t) views)

-- The loop of a wait with a deadline ends, whatever flags it starts with: it has returned after one
-- poll for each ten milliseconds of its timeout and one more.
pub wait_loop_deadline :
    (ids : List ℕ) (flags : List Bool) (timeout_ms : ℕ) (views : List (List Entry))
    → timeout_ms < platform_wait_infinite
    → timeout_ms < 10 * length views
    → (r : PlatformWaitResult) × (wait_loop ids flags timeout_ms views ≡ some r)
wait_loop_deadline ids flags t views lt h = elim (Option-cases (wait_loop ids flags t views)) [
  | inl stuck ↦ absurd (wait_loop-ne-none ids flags t views lt h stuck)
  | inr found ↦ found
]

-- With the flag of a thread set, the loop would look: it reports success at a poll only where each
-- thread that is still flagged is gone from the registry or terminated.
pub wait_loop_first_poll :
    (ids : List ℕ) (flags : List Bool) (timeout_ms : ℕ) (es : List Entry)
    → wait_loop ids flags timeout_ms (es ∷ []) ≡ some wait_success
    → AllDone es ids flags
unfolding wait_loop
wait_loop_first_poll ids flags t es h = poll-AllDone es ids flags (ground (arith, h))
