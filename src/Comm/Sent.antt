-- ===== src/Comm/Sent.antt =====
-- What the sending thread puts on the socket.
use ether_recorder_suite.Prelude.{
  ℕ, zero, suc, ◌+◌, ◌-◌, ◌≤◌, ◌<◌, ◌≡◌, refl, sym, ap, ap₂, ◌∙◌, Bool, true, false, map, inl, inr,
  Option, none, some, List, [], ◌∷◌, ◌++◌, ltb, ◌==◌, arith, Bool-cases, Option-cases, length, take,
  drop, append_assoc, append-nil, min,
}
use ether_recorder_suite.Platform.Codes.{platform_error_success, platform_error_timeout}
use ether_recorder_suite.Socket.{Socket, SendCall, sent, send_error, platform_socket_send}
use ether_recorder_suite.MessageQueue.{Message}
use ether_recorder_suite.Comm.Send.{send_message}

-- The bytes of a message that are to go out.
abbrev pub payload : Message → List ℕ
payload m = take m.content_size m.content

-- A piece of a text and what follows it, up to a bound.
take-append-drop-take :
    (n k : ℕ) (xs : List ℕ) → n ≤ k → take n xs ++ drop n (take k xs) ≡ take k xs
take-append-drop-take zero k xs h = refl
take-append-drop-take (suc n) zero xs h = absurd (omega arith)
take-append-drop-take (suc n) (suc k) [] h = refl
take-append-drop-take (suc n) (suc k) (x ∷ xs) h =
    ap (λ l. x ∷ l) (take-append-drop-take n k xs (omega arith))

take-nil : (n : ℕ) → ◌≡◌ {A = List ℕ} (take n []) []
take-nil zero = refl
take-nil (suc n) = refl

piece :
    (t n s k : ℕ) (xs : List ℕ)
    → s ≡ t + n
    → s ≤ k
    → take n (drop t xs) ++ drop s (take k xs) ≡ drop t (take k xs)
piece zero n s k xs e h =
    ap (λ i. take n xs ++ drop i (take k xs)) (ground (arith, e))
    ∙ take-append-drop-take n k xs (omega (arith, e, h))
piece (suc t) n zero k xs e h = absurd (omega (arith, e))
piece (suc t) n (suc s) zero xs e h = absurd (omega arith)
piece (suc t) n (suc s) (suc k) [] e h = ap (λ l. l ++ []) (take-nil n)
piece (suc t) n (suc s) (suc k) (x ∷ xs) e h = piece t n s k xs (omega (arith, e)) (omega arith)

-- The bytes that go out, and the bytes that are left where sending has failed.
pub record IsSent (socket : Option Socket) (m : Message) (total : ℕ) (r : Bool × List ℕ)
    : Type 0 where
  pub left : List ℕ
  pub split : r.1 ++ left ≡ drop total (payload m)
  pub complete : r.0 ≡ true → left ≡ []

drop-payload : (m : Message) (t : ℕ) → m.content_size ≤ t → drop t (payload m) ≡ []
drop-payload m t h = past t m.content_size m.content h
  where
    past : (t k : ℕ) (xs : List ℕ) → k ≤ t → drop t (take k xs) ≡ []
    past zero zero xs h = refl
    past zero (suc k) xs h = absurd (omega arith)
    past (suc t) zero xs h = refl
    past (suc t) (suc k) [] h = refl
    past (suc t) (suc k) (x ∷ xs) h = past t k xs (omega arith)

sent-le :
    (socket : Option Socket) (len : ℕ) (call : SendCall)
    → (platform_socket_send socket len call).1 ≤ len
unfolding platform_socket_send
sent-le none len call = omega arith
sent-le (some s) len (sent n) = ground arith
sent-le (some s) len (send_error b) = ground arith

-- Whatever the calls of `send` give, what goes out of a message is the beginning of its bytes from
-- where it stood, and all of them if the loop ends with success.
pub send_message-IsSent :
    (socket : Option Socket) (m : Message) (total : ℕ) (calls : List SendCall) (r : Bool × List ℕ)
    → send_message socket m total calls ≡ some r
    → IsSent socket m total r
unfolding send_message
send_message-IsSent socket m total [] r h = record {
  left = [];
  split = ground (arith, drop-payload m total);
  complete = λ e. refl;
}
send_message-IsSent socket m total (call ∷ calls) r h =
    elim (Bool-cases (ltb total m.content_size)) [
      | inr e ↦ record {
        left = [];
        split = ground (arith, e, h, drop-payload m total);
        complete = λ p. refl;
      }
      | inl e ↦
          let n = (platform_socket_send socket (m.content_size - total) call).1 in
          elim (Bool-cases (
            (platform_socket_send socket (m.content_size - total) call).0
            == platform_error_success)) [
              | inl ok ↦ elim (Option-cases (send_message socket m (total + n) calls)) [
                | inl stuck ↦ absurd (ground (arith, e, ok, stuck, h))
                | inr ((done, out), p) ↦
                    let ih = send_message-IsSent socket m (total + n) calls (done, out) p in
                    let eq : r ≡ (done, take n (drop total m.content) ++ out) =
                      ground (arith, e, ok, p, h) in
                    record {
                      left = ih.left;
                      split =
                          ap (λ x. x.1 ++ ih.left) eq
                          ∙ append_assoc (take n (drop total m.content)) out ih.left
                          ∙ ap (λ l. take n (drop total m.content) ++ l) ih.split
                          ∙ piece total n (total + n) m.content_size m.content refl
                              (ground (arith, e, sent-le socket (m.content_size - total) call));
                      complete = λ q. ih.complete (ground (arith, eq, q));
                    }
              ]
              | inr failed ↦
                  elim (Bool-cases (
                    (platform_socket_send socket (m.content_size - total) call).0
                    == platform_error_timeout)) [
                      | inl t ↦
                          send_message-IsSent socket m total calls r
                            (ground (arith, e, failed, t, h))
                      | inr t ↦ record {
                        left = drop total (payload m);
                        split = ground (arith, e, failed, t, h);
                        complete = λ q. absurd (ground (arith, e, failed, t, h, q));
                      }
                    ]
            ]
    ]

-- Calls that each send something.
pub data AllSend : List SendCall → Type 0 where
  none_left : AllSend []
  one_more : (n : ℕ) {calls : List SendCall} → 0 < n → AllSend calls → AllSend (sent n ∷ calls)

send_message_ends :
    (s : Socket) (m : Message) (total : ℕ) (calls : List SendCall)
    → AllSend calls
    → m.content_size ≤ total + length calls
    → (out : List ℕ) × (send_message (some s) m total calls ≡ some (true, out))
unfolding send_message platform_socket_send
send_message_ends s m total [] a h = ([], ground arith)
send_message_ends s m total (_ ∷ calls) (one_more n pos a) h =
    elim (Bool-cases (ltb total m.content_size)) [
      | inr e ↦ ([], ground (arith, e))
      | inl e ↦
          let k = min n (m.content_size - total) in
          let (out, p) = send_message_ends s m (total + k) calls a (ground (arith, e)) in
          (take k (drop total m.content) ++ out, ground (arith, e, p))
    ]

-- The bytes of a message go out whole and in order, however `send` cuts them, if each of its calls
-- takes at least one byte and there are as many calls as bytes.
pub send_message_whole :
    (s : Socket) (m : Message) (calls : List SendCall)
    → AllSend calls
    → m.content_size ≤ length calls
    → send_message (some s) m 0 calls ≡ some (true, payload m)
send_message_whole s m calls a h =
    let (out, p) = send_message_ends s m 0 calls a (omega (arith, h)) in
    let is = send_message-IsSent (some s) m 0 calls (true, out) p in
    p
    ∙ ap (λ o. some (true, o))
        (sym (append-nil out) ∙ ap (λ l. out ++ l) (sym (is.complete refl)) ∙ is.split)

-- Sends one after another.
unfoldable pub sum : List ℕ → ℕ
sum [] = 0
sum (n ∷ ns) = n + sum ns

take_after : (n k s : ℕ) (xs : List ℕ) → s ≡ n + k → take n xs ++ take k (drop n xs) ≡ take s xs
take_after zero k s xs e = ap (λ i. take i xs) (omega (arith, e))
take_after (suc n) k zero xs e = absurd (omega (arith, e))
take_after (suc n) k (suc s) [] e = take-nil k
take_after (suc n) k (suc s) (x ∷ xs) e = ap (λ l. x ∷ l) (take_after n k s xs (omega (arith, e)))

take-drop_after :
    (t n u k s : ℕ) (xs : List ℕ)
    → u ≡ t + n
    → s ≡ n + k
    → take n (drop t xs) ++ take k (drop u xs) ≡ take s (drop t xs)
take-drop_after zero n u k s xs e e' =
    ap (λ i. take n xs ++ take k (drop i xs)) (omega (arith, e)) ∙ take_after n k s xs e'
take-drop_after (suc t) n zero k s xs e e' = absurd (omega (arith, e))
take-drop_after (suc t) n (suc u) k s [] e e' =
    ap₂ (λ x y. x ++ y) (take-nil n) (take-nil k) ∙ sym (take-nil s)
take-drop_after (suc t) n (suc u) k s (x ∷ xs) e e' =
    take-drop_after t n u k s xs (omega (arith, e)) e'

-- Sends that leave something to send, and then an error.
pub send_message_error :
    (s : Socket) (m : Message) (total : ℕ) (sizes : List ℕ) (would_block : Bool)
    (calls : List SendCall)
    → total + sum sizes < m.content_size
    → send_message (some s) m total (map sent sizes ++ (send_error would_block ∷ calls))
      ≡ some (false, take (sum sizes) (drop total m.content))
unfolding send_message platform_socket_send sum
send_message_error s m total [] b calls h = ground arith
send_message_error s m total (n ∷ ns) b calls h = ground (
  arith,
  send_message_error s m (total + n) ns b calls (omega (arith, h)),
  take-drop_after total n (total + n) (sum ns) (n + sum ns) m.content refl refl,
  fits,
)
  where
    fits : min n (m.content_size - total) ≡ n
    fits = omega (arith, h)
