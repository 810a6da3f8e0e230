-- ===== src/Command/Wire.antt =====
-- Words in network order and the packets that are made of them. `memcpy` with `platform_ntohl` and
-- `platform_htonl` reads and writes the most significant byte first.
use ether_recorder_suite.Prelude.{
  ℕ, zero, suc, ◌+◌, ◌*◌, ◌/◌, ◌%◌, List, [], ◌∷◌, ◌++◌, ◌==◌, if◌then◌else◌, length, get_or, codes,
}

-- The word at an offset of a buffer.
abbrev pub word_at : List ℕ → ℕ → ℕ
word_at buffer i =
    get_or buffer i 0 * 16777216
    + get_or buffer (i + 1) 0 * 65536
    + get_or buffer (i + 2) 0 * 256
    + get_or buffer (i + 3) 0

abbrev pub word_bytes : ℕ → List ℕ
word_bytes n = (n / 16777216 % 256) ∷ (n / 65536 % 256) ∷ (n / 256 % 256) ∷ (n % 256) ∷ []

abbrev pub start_marker : ℕ
start_marker = 0xDEADBEEF

abbrev pub end_marker : ℕ
end_marker = 0xBEEFDEAD

-- The decimal digits of `printf("%u")`, put before a text; ten suffice for 32 bits.
unfoldable pub decimal : ℕ → ℕ → List ℕ → List ℕ
decimal zero n text = text
decimal (suc fuel) n text =
    let more = decimal fuel (n / 10) ((b'0' + n % 10) ∷ text) in
    if n / 10 == 0 then (b'0' + n % 10) ∷ text else more

-- `snprintf(ack_body, sizeof(ack_body), "ACK %u", …)`
unfoldable pub ack_body : ℕ → List ℕ
unfolding decimal
ack_body received_index = codes "ACK " ++ decimal 10 received_index []

-- The bytes of `ack_buffer` that `process_send_ack` sends.
unfoldable pub ack_packet : ℕ → ℕ → List ℕ
ack_packet received_index ack_index =
    word_bytes start_marker
    ++ (word_bytes (16 + length (ack_body received_index))
        ++ (word_bytes ack_index ++ (ack_body received_index ++ word_bytes end_marker)))
