-- ===== src/Manager/Binding.antt =====
-- The waits of the server between its attempts to bind.
use ether_recorder_suite.Prelude.{
  ℕ, ◌+◌, ◌%◌, ◌^◌, ◌≡◌, refl, ◌&&◌, Option, none, some, List, [], ◌∷◌, ltb, leb, ◌==◌,
  if◌then◌else◌, map, Bool-cases, Option-cases, inl, inr,
}
use ether_recorder_suite.Platform.Codes.{PlatformErrorCode, platform_error_success}
use ether_recorder_suite.Manager.{
  ClientConfig, ServerConfig, Attempt, BindTurn, Bound, bound, gave_up, shut_down, next_backoff,
  attempt_loop, attempt_connection, bind_loop, bind_listener, bind_max_ms,
  platform_error_not_initialized,
}

-- A round of binding as a round of connecting.
abbrev pub as_attempt : BindTurn → Attempt
as_attempt t = record { shutdown = t.shutdown; create = platform_error_success; connect = t.bind }

abbrev pub end_of : PlatformErrorCode → Bound
end_of code =
    if code == platform_error_success
    then bound
    else if code == platform_error_not_initialized
    then shut_down
    else gave_up

abbrev pub as_bound : Option (PlatformErrorCode × List ℕ) → Option (Bound × List ℕ)
as_bound none = none
as_bound (some (code, waits)) = some (end_of code, waits)

bind_loop-attempt_loop :
    (limit max_ms backoff_ms count : ℕ) (turns : List BindTurn)
    → bind_loop limit max_ms backoff_ms count turns
      ≡ as_bound (attempt_loop limit max_ms backoff_ms count (map as_attempt turns))
unfolding bind_loop attempt_loop
bind_loop-attempt_loop limit max_ms backoff_ms count [] = refl
bind_loop-attempt_loop limit max_ms backoff_ms count (t ∷ later) =
    let count' = (count + 1) % 2 ^ 32 in
    let ih = bind_loop-attempt_loop limit max_ms (next_backoff max_ms backoff_ms) count' later in
    elim (Bool-cases t.shutdown) [
      | inl down ↦ rw down
      | inr up ↦ elim (Bool-cases (t.bind == platform_error_success)) [
        | inl ok ↦ rw (up, ok)
        | inr failed ↦ elim (Bool-cases (ltb 0 limit && leb limit count')) [
          | inl stop ↦ rw (up, failed, stop)
          | inr go ↦
              elim (Option-cases (
                attempt_loop limit max_ms (next_backoff max_ms backoff_ms) count'
                  (map as_attempt later))) [
                    | inl stuck ↦ rw (up, failed, go, ih, stuck)
                    | inr ((code, waits), e) ↦ rw (up, failed, go, ih, e)
                  ]
        ]
      ]
    ]

-- The server tries to bind as a client of the same limit, a first wait of one second and the
-- server's greatest wait tries to connect whose sockets can all be created: it binds where the
-- client connects, returns where the client gives up, and is shut down with it, after the same
-- waits.
pub bind_listener-attempt_connection :
    (server : ServerConfig) (client : ClientConfig) (turns : List BindTurn)
    → client.retry_limit ≡ server.retry_limit
    → client.backoff_initial_ms ≡ 1000
    → client.backoff_max_ms ≡ bind_max_ms server
    → bind_listener server turns ≡ as_bound (attempt_connection client (map as_attempt turns))
unfolding bind_listener attempt_connection
bind_listener-attempt_connection server client turns limit first greatest =
    rw (limit, first, greatest)
      (bind_loop-attempt_loop server.retry_limit (bind_max_ms server) 1000 0 turns)
