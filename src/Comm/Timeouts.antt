-- ===== src/Comm/Timeouts.antt =====
-- When the receiving thread of a quiet connection ends.
use ether_recorder_suite.Prelude.{
  ℕ, ◌+◌, ◌≤◌, ◌<◌, ◌≡◌, refl, true, false, ◌||◌, ◌⊎◌, inl, inr, none, some, List, [], ◌∷◌, ◌++◌,
  if◌then◌else◌, leb, ◌==◌, arith, Bool-cases, ◌∙◌,
}
use ether_recorder_suite.Platform.Codes.{platform_error_success, platform_error_timeout}
use ether_recorder_suite.Socket.{platform_socket_wait_readable, platform_socket_receive}
use ether_recorder_suite.Comm.{CommContext}
use ether_recorder_suite.Comm.Relay.{process_relay_data}
use ether_recorder_suite.Comm.Receive.{
  Receiver, ReceiveTurn, receive_buffer_size, handle_receive, comm_receive_thread,
}

module _ (context : CommContext) where
  abbrev pub readable : ReceiveTurn → ℕ
  readable turn = platform_socket_wait_readable context.socket turn.descriptor turn.select

  -- Nobody closes the connection or shuts the program down, no other connection's thread changes
  -- the count, and the wait ends with the timeout or with data.
  pub record IsQuiet (turn : ReceiveTurn) : Type 0 where
    pub is_open : turn.closed ≡ false
    pub goes_on : turn.shutdown ≡ false
    pub alone : (n : ℕ) → turn.others_count n ≡ n
    pub ends :
        (readable turn ≡ platform_error_timeout)
        ⊎ ((readable turn ≡ platform_error_success)
            × ((platform_socket_receive context.socket receive_buffer_size turn.recv).0
                ≡ platform_error_success))

  pub data AllQuiet : List ReceiveTurn → Type 0 where
    none_left : AllQuiet []
    one_more :
        (turn : ReceiveTurn) {turns : List ReceiveTurn}
        → IsQuiet turn
        → AllQuiet turns
        → AllQuiet (turn ∷ turns)

  unfoldable pub timeouts : List ReceiveTurn → ℕ
  timeouts [] = 0
  timeouts (turn ∷ turns) =
      (if readable turn == platform_error_timeout then 1 else 0) + timeouts turns

  -- The thread goes on.
  abbrev Goes : ReceiveTurn → Receiver → ℕ → Type 0
  Goes turn w n =
      (w' : Receiver) × (handle_receive context turn w ≡ some (true, w'))
      × (w'.connection_closed ≡ w.connection_closed)
      × (w'.timeout_count ≡ n)

  handle_receive_timeout :
      (turn : ReceiveTurn) (w : Receiver)
      → ((n : ℕ) → turn.others_count n ≡ n)
      → readable turn ≡ platform_error_timeout
      → w.timeout_count + 1 < 10
      → Goes turn w (w.timeout_count + 1)
  unfolding handle_receive
  handle_receive_timeout turn w alone e h = (
    record w { timeout_count = w.timeout_count + 1 },
    ground (arith, e, alone w.timeout_count),
    refl,
    refl,
  )

  handle_receive_tenth :
      (turn : ReceiveTurn) (w : Receiver)
      → ((n : ℕ) → turn.others_count n ≡ n)
      → readable turn ≡ platform_error_timeout
      → 10 ≤ w.timeout_count + 1
      → handle_receive context turn w ≡ some (false, record w { timeout_count = 0 })
  unfolding handle_receive
  handle_receive_tenth turn w alone e h = ground (arith, e, alone w.timeout_count)

  handle_receive_data :
      (turn : ReceiveTurn) (w : Receiver)
      → context.is_relay_enabled ≡ false
      → ((n : ℕ) → turn.others_count n ≡ n)
      → readable turn ≡ platform_error_success
      → (platform_socket_receive context.socket receive_buffer_size turn.recv).0
        ≡ platform_error_success
      → Goes turn w w.timeout_count
  unfolding handle_receive process_relay_data
  handle_receive_data turn w off alone e d = (
    record w {
      logged =
          w.logged
          ++ ((platform_socket_receive context.socket receive_buffer_size turn.recv).1 ∷ []);
    },
    ground (arith, off, e, d, alone w.timeout_count),
    refl,
    refl,
  )

  -- On a connection without a relay that is open, and as long as nobody closes it or shuts the
  -- program down, each wait ends with its timeout or with data that is received, and the receiving
  -- threads of other connections leave the count of timeouts, which they share, as it is, the
  -- receiving thread ends with the tenth timeout, counted from where the count stood, below ten, at
  -- its start, whatever data has come in between, and it leaves the connection open; with fewer
  -- timeouts it goes on.
  pub comm_receive_thread-timeouts :
      (turns : List ReceiveTurn) (w : Receiver)
      → context.is_relay_enabled ≡ false
      → w.connection_closed ≡ false
      → w.timeout_count < 10
      → AllQuiet turns
      → (w.timeout_count + timeouts turns < 10 → comm_receive_thread context turns w ≡ none)
        × (10 ≤ w.timeout_count + timeouts turns
            → (w' : Receiver) × (comm_receive_thread context turns w ≡ some w')
              × (w'.connection_closed ≡ false)
              × (w'.timeout_count ≡ 0))
  unfolding comm_receive_thread timeouts
  comm_receive_thread-timeouts [] w off op few q = (λ h. refl, λ h. absurd (omega arith))
  comm_receive_thread-timeouts (turn ∷ turns) w off op few (one_more _ quiet q) =
      let w1 = record w { connection_closed = w.connection_closed || turn.closed } in
      let still : w1.connection_closed ≡ false = ground (arith, op, quiet.is_open) in
      elim quiet.ends [
        | inl t ↦ elim (Bool-cases (leb 10 (w.timeout_count + 1))) [
          | inl last ↦ (
            λ h. absurd (ground (arith, t, last)),
            λ h. (
              record w1 { timeout_count = 0 },
              ground (
                arith,
                still,
                quiet.goes_on,
                handle_receive_tenth turn w1 quiet.alone t (ground (arith, last)),
              ),
              still,
              refl,
            ),
          )
          | inr more ↦
              let (w', e, c, n) =
                handle_receive_timeout turn w1 quiet.alone t (ground (arith, more)) in
              let (lo, hi) =
                comm_receive_thread-timeouts turns w' off (c ∙ still) (ground (arith, n, more)) q in
              (
                λ h. ground (arith, still, quiet.goes_on, e, lo (ground (arith, n, t, h))),
                λ h.
                    let (w'', p, c', n') = hi (ground (arith, n, t, h)) in
                    (w'', ground (arith, still, quiet.goes_on, e, p), c', n'),
              )
        ]
        | inr (s, d) ↦
            let (w', e, c, n) = handle_receive_data turn w1 off quiet.alone s d in
            let (lo, hi) =
              comm_receive_thread-timeouts turns w' off (c ∙ still) (ground (arith, n)) q in
            (
              λ h. ground (arith, still, quiet.goes_on, e, lo (ground (arith, n, s, h))),
              λ h.
                  let (w'', p, c', n') = hi (ground (arith, n, s, h)) in
                  (w'', ground (arith, still, quiet.goes_on, e, p), c', n'),
            )
      ]
