-- ===== src/Command/Frames.antt =====
-- A framed command, as a client writes it, on its way through the state machine.
use ether_recorder_suite.Prelude.{
  ℕ, zero, suc, ◌+◌, ◌-◌, ◌/◌, ◌%◌, ◌≡◌, ◌≤◌, ◌<◌, ◌^◌, refl, ap, ap₂, ◌∙◌, true, List, [], ◌∷◌,
  ◌++◌, arith, length, take, drop, get_or, length-append, append_assoc, take-length_append,
  drop-length_append,
}
use ether_recorder_suite.Command.Wire.{
  word_at, word_bytes, start_marker, end_marker, ack_body, ack_packet, decimal,
}
use ether_recorder_suite.Command.Context.{
  CommandContext, processed, Answers, ok, wait_for_length, wait_for_message, send_ack,
  process_wait_for_start, process_wait_for_length, process_wait_for_message, max_buffer_size,
}

-- The start marker, the length of the whole, the body and the end marker.
abbrev pub frame : List ℕ → List ℕ
frame body =
    word_bytes start_marker ++ (word_bytes (12 + length body) ++ (body ++ word_bytes end_marker))

get_or-append {ℓ} :
    {A : Type ℓ} (xs ys : List A) (k : ℕ) (d : A)
    → get_or (xs ++ ys) (length xs + k) d ≡ get_or ys k d
get_or-append [] ys k d = let e : 0 + k ≡ k = omega arith in ap (λ i. get_or ys i d) e
get_or-append (x ∷ xs) ys k d =
    let e : suc (length xs) + k ≡ suc (length xs + k) = omega arith in
    ap (λ i. get_or (x ∷ (xs ++ ys)) i d) e ∙ get_or-append xs ys k d

-- Reading a word gives back what was written.
word_at-word_bytes :
    (xs ys : List ℕ) (n : ℕ) → n < 2 ^ 32 → word_at (xs ++ (word_bytes n ++ ys)) (length xs) ≡ n
word_at-word_bytes xs ys n h =
    let b0 = at 0 in
    let b1 = at 1 in
    let b2 = at 2 in
    let b3 = at 3 in
    let e : length xs ≡ length xs + 0 = omega arith in
    let same : get_or (xs ++ (word_bytes n ++ ys)) (length xs) 0
        ≡ get_or (xs ++ (word_bytes n ++ ys)) (length xs + 0) 0 =
      ap (λ i. get_or (xs ++ (word_bytes n ++ ys)) i 0) e in
    omega (arith, same, b0, b1, b2, b3)
  where
    at :
        (k : ℕ)
        → get_or (xs ++ (word_bytes n ++ ys)) (length xs + k) 0 ≡ get_or (word_bytes n ++ ys) k 0
    at k = get_or-append xs (word_bytes n ++ ys) k 0

pub take-all {ℓ} : {A : Type ℓ} (n : ℕ) (xs : List A) → length xs ≤ n → take n xs ≡ xs
take-all zero [] h = refl
take-all zero (x ∷ xs) h = absurd (omega arith)
take-all (suc n) [] h = refl
take-all (suc n) (x ∷ xs) h = ap (λ l. x ∷ l) (take-all n xs (omega arith))

length-decimal : (fuel n : ℕ) (text : List ℕ) → length (decimal fuel n text) ≤ fuel + length text
unfolding decimal
length-decimal zero n text = omega arith
length-decimal (suc fuel) n text =
    ground (arith, length-decimal fuel (n / 10) ((b'0' + n % 10) ∷ text))

-- The text of an acknowledgement is below the size of its buffer, so that nothing is cut off.
length-ack_body : (received_index : ℕ) → length (ack_body received_index) < 32
unfolding ack_body
length-ack_body i = omega (arith, length-decimal 10 i [])

-- The packet of an acknowledgement fits its buffer of 256 bytes and holds, each at its place, the
-- start marker, its own length, the index of the acknowledgement and the end marker, and ends
-- there.
pub ack_packet_fields :
    (received_index ack_index : ℕ)
    → ack_index < 2 ^ 32
    → let packet = ack_packet received_index ack_index in
      (length packet ≤ 256)
      × (word_at packet 0 ≡ start_marker)
      × (word_at packet 4 ≡ length packet)
      × (word_at packet 8 ≡ ack_index)
      × (word_at packet (length packet - 4) ≡ end_marker)
unfolding ack_packet
ack_packet_fields ri ai hi = (
  omega (arith, size, short),
  refl,
  omega (arith, size, short),
  omega arith,
  ap (word_at (front ++ word_bytes end_marker)) place
      ∙ word_at-word_bytes front [] end_marker (omega arith),
)
  where
    short : length (ack_body ri) < 32
    short = length-ack_body ri

    size : length (ack_body ri ++ word_bytes end_marker) ≡ length (ack_body ri) + 4
    size = length-append (ack_body ri) (word_bytes end_marker)

    front : List ℕ
    front =
        word_bytes start_marker
        ++ (word_bytes (16 + length (ack_body ri)) ++ (word_bytes ai ++ ack_body ri))

    place : length (ack_packet ri ai) - 4 ≡ length front
    place = omega (arith, size)

module _ (c : CommandContext) (body rest : List ℕ) (h : c.buffer ≡ frame body ++ rest) where
  length-framed : length c.buffer ≡ 12 + length body + length rest
  length-framed = omega (
    arith,
    ap length h,
    length-append body (word_bytes end_marker),
    length-append (body ++ word_bytes end_marker) rest,
  )

  pub start_framed :
      process_wait_for_start c ≡ (ok, record c { current_state = wait_for_length }, [])
  unfolding process_wait_for_start
  start_framed =
      let marker : word_at c.buffer 0 ≡ start_marker = rw h in ground (arith, length-framed, marker)

  pub length_framed :
      length body + 12 ≤ max_buffer_size
      → process_wait_for_length c
        ≡ (ok, record c { message_length = 12 + length body; current_state = wait_for_message }, [])
  unfolding process_wait_for_length
  length_framed fits =
      let word : word_at c.buffer 4 ≡ 12 + length body = rw h (omega arith) in
      ground (arith, length-framed, word)

  pub message_framed :
      (a : Answers)
      → a.malloc_ok ≡ true
      → c.message_length ≡ 12 + length body
      → process_wait_for_message a c
        ≡ (ok, record c { buffer = rest; current_state = send_ack }, processed body ∷ [])
  unfolding process_wait_for_message
  message_framed a alloc size = ground (arith, alloc, length-framed, size, marker, text, left)
    where
      front : List ℕ
      front = word_bytes start_marker ++ (word_bytes (12 + length body) ++ body)

      split : c.buffer ≡ front ++ (word_bytes end_marker ++ rest)
      split =
          h
          ∙ ap (λ l. word_bytes start_marker ++ (word_bytes (12 + length body) ++ l))
              (append_assoc body (word_bytes end_marker) rest)

      at_marker : c.message_length - 4 ≡ length front
      at_marker = omega arith

      marker : word_at c.buffer (c.message_length - 4) ≡ end_marker
      marker = ap₂ word_at split at_marker ∙ word_at-word_bytes front rest end_marker (omega arith)

      text : take (c.message_length - 12) (drop 8 c.buffer) ≡ body
      text =
          let e : c.message_length - 12 ≡ length body = omega arith in
          ap₂ (λ n l. take n (drop 8 l)) e split
          ∙ take-length_append body (word_bytes end_marker ++ rest)

      left : drop c.message_length c.buffer ≡ rest
      left =
          let e : c.message_length ≡ length (frame body) =
            omega (arith, length-append body (word_bytes end_marker)) in
          ap₂ drop e h ∙ drop-length_append (frame body) rest
