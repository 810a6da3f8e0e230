-- ===== src/Comm/Stream.antt =====
-- A whole run of the sending thread.
use ether_recorder_suite.Prelude.{
  ℕ, ◌≡◌, refl, sym, ap, ap₂, ◌∙◌, Bool, true, false, ◌||◌, ◌<◌, inl, inr, Option, some, List, [],
  ◌∷◌, ◌++◌, arith, Bool-cases, Option-cases, append_assoc, append-nil, map, take,
}
use mathlib.Core.Path.{subst}
use ether_recorder_suite.Socket.{SendCall, Socket, sent, send_error}
use ether_recorder_suite.MessageQueue.{Message}
use ether_recorder_suite.Registry.State.{ThreadRegistryError, success}
use ether_recorder_suite.Registry.Core.{Label, Registry}
use ether_recorder_suite.Registry.Queues.{pop_message}
use ether_recorder_suite.Comm.{CommContext}
use ether_recorder_suite.Comm.Send.{
  send_message, Sender, SendTurn, handle_popped, comm_send_thread, is_queue_empty, taken,
}
use ether_recorder_suite.Comm.Sent.{payload, sum, send_message-IsSent, send_message_error}

-- The bytes of messages, one after another.
unfoldable pub stream : List Message → List ℕ
stream [] = []
stream (m ∷ ms) = payload m ++ stream ms

-- What a run has popped and sent.
pub record IsStream (w : Sender) (w' : Sender) : Type 0 where
  pub new : List Message
  pub bytes : List ℕ
  pub left : List ℕ
  pub popped : w'.popped ≡ w.popped ++ new
  pub out : w'.out ≡ w.out ++ bytes
  pub split : bytes ++ left ≡ stream new
  pub complete : w'.connection_closed ≡ false → left ≡ []

pub stream-append : (ms ns : List Message) → stream (ms ++ ns) ≡ stream ms ++ stream ns
unfolding stream
stream-append [] ns = refl
stream-append (m ∷ ms) ns =
    ap (λ l. payload m ++ l) (stream-append ms ns)
    ∙ sym (append_assoc (payload m) (stream ms) (stream ns))

-- Nothing popped and nothing sent.
IsStream-idle : (w w' : Sender) → w'.popped ≡ w.popped → w'.out ≡ w.out → IsStream w w'
unfolding stream
IsStream-idle w w' p o = record {
  new = [];
  bytes = [];
  left = [];
  popped = p ∙ sym (append-nil w.popped);
  out = o ∙ sym (append-nil w.out);
  split = refl;
  complete = λ c. refl;
}

IsStream-trans :
    {w w' w'' : Sender} (a : IsStream w w') → a.left ≡ [] → IsStream w' w'' → IsStream w w''
IsStream-trans {w} a e b = record {
  new = a.new ++ b.new;
  bytes = a.bytes ++ b.bytes;
  left = b.left;
  popped = b.popped ∙ ap (λ l. l ++ b.new) a.popped ∙ append_assoc w.popped a.new b.new;
  out = b.out ∙ ap (λ l. l ++ b.bytes) a.out ∙ append_assoc w.out a.bytes b.bytes;
  split =
      append_assoc a.bytes b.bytes b.left
      ∙ ap₂ (λ x y. x ++ y) whole b.split
      ∙ sym (stream-append a.new b.new);
  complete = b.complete;
}
  where
    whole : a.bytes ≡ stream a.new
    whole = sym (append-nil a.bytes) ∙ ap (λ l. a.bytes ++ l) (sym e) ∙ a.split

-- A round of the loop that goes on has sent all that it has popped.
record Goes (go : Bool) (w : Sender) (w' : Sender) : Type 0 where
  run : IsStream w w'
  whole : go ≡ true → run.left ≡ []

handle_popped-Goes :
    (context : CommContext) (calls : List SendCall)
    (x : ThreadRegistryError × Option Message × Registry) (w : Sender) (go : Bool) (w' : Sender)
    → handle_popped context calls x w ≡ some (go, w')
    → Goes go w w'
unfolding handle_popped stream IsStream-idle
handle_popped-Goes context calls (code, message, r) w go w' h =
    elim (Bool-cases (is_queue_empty code)) [
      | inl e ↦ record {
        run = IsStream-idle w w' (ground (arith, e, h)) (ground (arith, e, h));
        whole = λ g. refl;
      }
      | inr e ↦ elim (Option-cases (taken code message)) [
        | inl t ↦ record {
          run = IsStream-idle w w' (ground (arith, e, t, h)) (ground (arith, e, t, h));
          whole = λ g. refl;
        }
        | inr (m, t) ↦ elim (Option-cases (send_message context.socket m 0 calls)) [
          | inl stuck ↦ absurd (ground (arith, e, t, stuck, h))
          | inr ((done, out), p) ↦
              let is = send_message-IsSent context.socket m 0 calls (done, out) p in
              record {
                run = record {
                  new = m ∷ [];
                  bytes = out;
                  left = is.left;
                  popped = ground (arith, e, t, p, h);
                  out = ground (arith, e, t, p, h);
                  split = is.split ∙ sym (append-nil (payload m));
                  complete = λ c. is.complete (ground (arith, e, t, p, h, c));
                };
                whole = λ g. is.complete (ground (arith, e, t, p, h, g));
              }
        ]
      ]
    ]

-- However a run of the sending thread ends, what it has sent is the beginning of the bytes of the
-- messages that it has popped, one after another in order; and all of them, unless the connection
-- has been closed.
pub comm_send_thread-IsStream :
    (context : CommContext) (label : Option Label) (turns : List SendTurn) (w w' : Sender)
    → comm_send_thread context label turns w ≡ some w'
    → IsStream w w'
unfolding comm_send_thread IsStream-idle
comm_send_thread-IsStream context label [] w w' h = absurd (ground arith)
comm_send_thread-IsStream context label (turn ∷ turns) w w' h =
    let w1 = record w { connection_closed = w.connection_closed || turn.closed } in
    elim (Bool-cases (w1.connection_closed || turn.shutdown)) [
      | inl stop ↦ IsStream-idle w w' (ground (arith, stop, h)) (ground (arith, stop, h))
      | inr more ↦ elim (Option-cases (pop_message turn.env label 0 turn.meanwhile w1.registry)) [
        | inl stuck ↦ absurd (ground (arith, more, stuck, h))
        | inr (x, p) ↦ elim (Option-cases (handle_popped context turn.calls x w1)) [
          | inl stuck ↦ absurd (ground (arith, more, p, stuck, h))
          | inr ((go, w2), q) ↦
              let goes = handle_popped-Goes context turn.calls x w1 go w2 q in
              elim (Bool-cases go) [
                | inl g ↦ IsStream-trans (IsStream-idle w w1 refl refl) refl (
                    IsStream-trans goes.run (goes.whole g) (
                      comm_send_thread-IsStream context label turns w2 w'
                        (ground (arith, more, p, q, g, h))))
                | inr g ↦
                    subst (IsStream w) (ground (arith, more, p, q, g, h))
                      (IsStream-trans (IsStream-idle w w1 refl refl) refl goes.run)
              ]
        ]
      ]
    ]

-- In a round in which the connection is open with a socket, the program is not shut down and a
-- message is popped, an error of `send` ends the thread, whichever it is and whatever the mode of
-- the socket, where sending would block too, and however much of the message earlier calls have
-- sent without all of it: the connection is closed, and the rest of the message does not go out.
pub send_error_closes :
    (context : CommContext) (label : Option Label) (turn : SendTurn) (turns : List SendTurn)
    (w : Sender) (s : Socket) (m : Message) (r : Registry) (sizes : List ℕ) (would_block : Bool)
    (calls : List SendCall)
    → context.socket ≡ some s
    → w.connection_closed ≡ false
    → turn.closed ≡ false
    → turn.shutdown ≡ false
    → pop_message turn.env label 0 turn.meanwhile w.registry ≡ some (success, some m, r)
    → sum sizes < m.content_size
    → turn.calls ≡ map sent sizes ++ (send_error would_block ∷ calls)
    → comm_send_thread context label (turn ∷ turns) w
      ≡ some (record {
        connection_closed = true;
        registry = r;
        popped = w.popped ++ (m ∷ []);
        out = w.out ++ take (sum sizes) m.content;
      })
unfolding comm_send_thread handle_popped
send_error_closes context label turn turns w s m r sizes would_block calls live op oc os p more e =
    ground (
      arith,
      live,
      op,
      oc,
      os,
      p,
      e,
      send_message_error s m 0 sizes would_block calls (omega (arith, more)),
    )
