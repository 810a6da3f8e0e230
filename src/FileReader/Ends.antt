-- ===== src/FileReader/Ends.antt =====
-- However the thread of the file reader ends.
use ether_recorder_suite.Prelude.{
  ℕ, ◌≡◌, ◌≤◌, refl, sym, ap, ap₂, ◌∙◌, Bool, true, false, inl, inr, Option, none, some, List, [],
  ◌∷◌, ◌++◌, ltb, ◌==◌, length, min, take, arith, append-nil, append_assoc, take-append-drop,
  Bool-cases, Option-cases,
}
use mathlib.Core.Path.{subst}
use ether_recorder_suite.Text.{is_nil}
use ether_recorder_suite.Platform.Codes.{platform_error_success}
use ether_recorder_suite.Platform.File.{
  FileSlot, Seeks, ReadCall, at_most, read_error, is_open, platform_file_read, platform_file_close,
  platform_file_get_size,
}
use ether_recorder_suite.Platform.Files.{used_flags}
use ether_recorder_suite.MessageQueue.{Message}
use ether_recorder_suite.Registry.Core.{Label}
use ether_recorder_suite.Registry.Queues.{push_message}
use ether_recorder_suite.AppThread.{ThreadResult, thread_error_queue_full, thread_error_file_read}
use ether_recorder_suite.AppThread.Life.{is_ok}
use ether_recorder_suite.Comm.Stream.{stream, stream-append}
use ether_recorder_suite.FileReader.{FileReaderConfig}
use ether_recorder_suite.FileReader.Chunks.{
  Reader, ReaderTurn, Outcome, finished, overrun, chunk, send_chunk, read_chunk, chunk_loop,
  read_size, read_file,
}
use ether_recorder_suite.FileReader.Delivery.{length-take_le, stream-chunk}

-- The results after which no byte that has been read is lost.
abbrev pub keeps : ThreadResult → Bool
keeps thread_error_queue_full = false
keeps _ = true

abbrev pub keeps_so_far : Option Outcome → Bool
keeps_so_far none = true
keeps_so_far (some (finished res)) = keeps res
keeps_so_far (some overrun) = false

-- What has been pushed, what has been read and lost, and what is left of the file.
pub record IsRead (kept : Bool) (w w' : Reader) : Type 0 where
  pub chunks : List Message
  pub lost : List ℕ
  pub pushed : w'.pushed ≡ w.pushed ++ chunks
  pub split : stream chunks ++ (lost ++ w'.unread) ≡ w.unread
  pub nothing_lost : kept ≡ true → lost ≡ []

pub IsRead-idle :
    (kept : Bool) (w w' : Reader) (lost : List ℕ)
    → w'.pushed ≡ w.pushed
    → lost ++ w'.unread ≡ w.unread
    → (kept ≡ true → lost ≡ [])
    → IsRead kept w w'
unfolding stream
IsRead-idle kept w w' lost p e k = record {
  chunks = [];
  lost = lost;
  pushed = p ∙ sym (append-nil w.pushed);
  split = e;
  nothing_lost = k;
}

platform_file_read-split :
    (file : Option ℕ) (pool : List FileSlot) (size : ℕ) (call : ReadCall) (unread : List ℕ)
    → let (code, bytes, left) = platform_file_read file pool size call unread in
      (bytes ++ left ≡ unread) × ((code == platform_error_success) ≡ false → bytes ≡ [])
unfolding platform_file_read
platform_file_read-split file pool size read_error unread = elim (Bool-cases (is_open file pool)) [
  | inl e ↦ (ground (arith, e), λ h. ground (arith, e))
  | inr e ↦ (ground (arith, e), λ h. ground (arith, e))
]
platform_file_read-split file pool size (at_most n) unread = elim (Bool-cases (is_open file pool)) [
  | inl e ↦
      (ground (arith, e, take-append-drop (min n size) unread), λ h. absurd (ground (arith, e, h)))
  | inr e ↦ (ground (arith, e), λ h. ground (arith, e))
]

send_chunk-IsRead :
    (l : Label) (t : ℕ) (turn : ReaderTurn) (bytes : List ℕ) (w w0 : Reader) (res : Option Outcome)
    (w' : Reader)
    → ltb 1472 (length bytes) ≡ false
    → w.pushed ≡ w0.pushed
    → bytes ++ w.unread ≡ w0.unread
    → send_chunk l t turn bytes w ≡ some (res, w')
    → IsRead (keeps_so_far res) w0 w'
unfolding send_chunk stream
send_chunk-IsRead l t turn bytes w w0 res w' fits same split h = elim (Bool-cases (is_nil bytes)) [
  | inl e ↦
      IsRead-idle (keeps_so_far res) w0 w' bytes (ground (arith, e, h, same))
        (ground (arith, e, h, split)) (λ k. is_nil_nil bytes e)
  | inr e ↦
      elim (Option-cases
        (push_message turn.env (some l) (chunk bytes) t turn.meanwhile w.registry)) [
          | inl stuck ↦ absurd (ground (arith, e, fits, stuck, h))
          | inr ((code, r), p) ↦ elim (Bool-cases (is_ok code)) [
            | inr bad ↦
                IsRead-idle (keeps_so_far res) w0 w' bytes
                  (ground (arith, e, fits, p, bad, h, same))
                  (ground (arith, e, fits, p, bad, h, split))
                  (λ k. absurd (ground (arith, e, fits, p, bad, h, k)))
            | inl ok ↦ record {
              chunks = chunk bytes ∷ [];
              lost = [];
              pushed = ground (arith, e, fits, p, ok, h, same);
              split =
                  ap₂ (λ x y. x ++ y) (stream-chunk bytes [] ∙ append-nil bytes)
                    (ground (arith, e, fits, p, ok, h))
                  ∙ split;
              nothing_lost = λ k. refl;
            }
          ]
        ]
]
  where
    is_nil_nil : (b : List ℕ) → is_nil b ≡ true → b ≡ []
    is_nil_nil [] h = refl
    is_nil_nil (x ∷ xs) h = absurd (ground arith)

platform_file_read-length :
    (file : Option ℕ) (pool : List FileSlot) (size : ℕ) (call : ReadCall) (unread : List ℕ)
    → length (platform_file_read file pool size call unread).1 ≤ size
unfolding platform_file_read
platform_file_read-length file pool size read_error unread = ground arith
platform_file_read-length file pool size (at_most n) unread =
    elim (Bool-cases (is_open file pool)) [
      | inl e ↦ ground (arith, e, shorter)
      | inr e ↦ ground (arith, e)
    ]
  where
    shorter : length (take (min n size) unread) ≤ size
    shorter = omega (arith, length-take_le (min n size) unread)

-- No overrun so far.
abbrev within : Option Outcome → Bool
within (some overrun) = false
within _ = true

send_chunk-within :
    (l : Label) (t : ℕ) (turn : ReaderTurn) (bytes : List ℕ) (w : Reader) (res : Option Outcome)
    (w' : Reader)
    → send_chunk l t turn bytes w ≡ some (res, w')
    → within res ≡ true
unfolding send_chunk
send_chunk-within l t turn bytes w res w' h =
    elim (Option-cases (push_message turn.env (some l) (chunk bytes) t turn.meanwhile w.registry)) [
      | inl stuck ↦ ground (arith, stuck, h)
      | inr ((code, r), p) ↦ ground (arith, p, h)
    ]

read_chunk-within :
    (file : Option ℕ) (pool : List FileSlot) (l : Label) (size t : ℕ) (turn : ReaderTurn)
    (w : Reader) (res : Option Outcome) (w' : Reader)
    → size ≤ 1472
    → read_chunk file pool l size t turn w ≡ some (res, w')
    → within res ≡ true
unfolding read_chunk
read_chunk-within file pool l size t turn w res w' small h =
    let x = platform_file_read file pool size turn.read w.unread in
    let fits : ltb 1472 (length x.1) ≡ false =
      ground (arith, platform_file_read-length file pool size turn.read w.unread) in
    elim (Bool-cases (x.0 == platform_error_success)) [
      | inl ok ↦
          send_chunk-within l t turn x.1 (record w { unread = x.2 }) res w'
            (ground (arith, fits, ok, h))
      | inr bad ↦ ground (arith, fits, bad, h)
    ]

read_chunk-IsRead :
    (file : Option ℕ) (pool : List FileSlot) (l : Label) (size t : ℕ) (turn : ReaderTurn)
    (w : Reader) (res : Option Outcome) (w' : Reader)
    → size ≤ 1472
    → read_chunk file pool l size t turn w ≡ some (res, w')
    → IsRead (keeps_so_far res) w w'
unfolding read_chunk
read_chunk-IsRead file pool l size t turn w res w' small h =
    let x = platform_file_read file pool size turn.read w.unread in
    let fits : ltb 1472 (length x.1) ≡ false =
      ground (arith, platform_file_read-length file pool size turn.read w.unread) in
    elim (Bool-cases (x.0 == platform_error_success)) [
      | inl ok ↦
          send_chunk-IsRead l t turn x.1 (record w { unread = x.2 }) w res w' fits refl
            (platform_file_read-split file pool size turn.read w.unread).0
            (ground (arith, fits, ok, h))
      | inr bad ↦
          IsRead-idle (keeps_so_far res) w w' [] (ground (arith, fits, bad, h))
            (ground (arith, fits, bad, h)) (λ k. refl)
    ]

IsRead-trans :
    {kept : Bool} {w w' w'' : Reader} → IsRead true w w' → IsRead kept w' w'' → IsRead kept w w''
IsRead-trans {w = w} {w' = w'} {w'' = w''} a b = record {
  chunks = a.chunks ++ b.chunks;
  lost = b.lost;
  pushed = b.pushed ∙ ap (λ l. l ++ b.chunks) a.pushed ∙ append_assoc w.pushed a.chunks b.chunks;
  split =
      ap (λ l. l ++ (b.lost ++ w''.unread)) (stream-append a.chunks b.chunks)
      ∙ append_assoc (stream a.chunks) (stream b.chunks) (b.lost ++ w''.unread)
      ∙ ap (λ l. stream a.chunks ++ l) b.split
      ∙ ap (λ l. stream a.chunks ++ (l ++ w'.unread)) (sym (a.nothing_lost refl))
      ∙ a.split;
  nothing_lost = b.nothing_lost;
}

chunk_loop-IsRead :
    (file : Option ℕ) (pool : List FileSlot) (l : Label) (size t : ℕ) (turns : List ReaderTurn)
    (w : Reader) (out : Outcome) (w' : Reader)
    → size ≤ 1472
    → chunk_loop file pool l size t turns w ≡ some (out, w')
    → (within (some out) ≡ true) × IsRead (keeps_so_far (some out)) w w'
unfolding chunk_loop
chunk_loop-IsRead file pool l size t [] w out w' small h = absurd (ground arith)
chunk_loop-IsRead file pool l size t (turn ∷ turns) w out w' small h =
    elim (Bool-cases turn.shutdown) [
      | inl down ↦ (
        ground (arith, down, h),
        IsRead-idle (keeps_so_far (some out)) w w' [] (ground (arith, down, h))
            (ground (arith, down, h)) (λ k. refl),
      )
      | inr up ↦ elim (Option-cases (read_chunk file pool l size t turn w)) [
        | inl stuck ↦ absurd (ground (arith, up, stuck, h))
        | inr ((now, w1), p) ↦
            let read = read_chunk-IsRead file pool l size t turn w now w1 small p in
            elim (Option-cases now) [
              | inl goes ↦
                  let (ok, rest) =
                    chunk_loop-IsRead file pool l size t turns w1 out w' small
                      (ground (arith, up, p, goes, h)) in
                  (ok, IsRead-trans (subst (λ k. IsRead k w w1) (ap keeps_so_far goes) read) rest)
              | inr (out1, stops) ↦
                  let same : w1 ≡ w' = ground (arith, up, p, stops, h) in
                  let same_out : out1 ≡ out = ground (arith, up, p, stops, h) in
                  let now_out = stops ∙ ap some same_out in
                  (
                    sym (ap within now_out)
                        ∙ read_chunk-within file pool l size t turn w now w1 small p,
                    subst (IsRead (keeps_so_far (some out)) w) same
                        (subst (λ k. IsRead k w w1) (ap keeps_so_far now_out) read),
                  )
            ]
      ]
    ]

-- A run has ended with a result, given back its handle, and read so much.
pub record Ended (pool : List FileSlot) (w : Reader) (r : Outcome × List FileSlot × Reader)
    : Type 0 where
  pub result : ThreadResult
  pub ended : r.0 ≡ finished result
  pub flags : used_flags r.1 ≡ used_flags pool
  pub read : IsRead (keeps result) w r.2

pub read_file-Ended :
    (config : FileReaderConfig) (l : Label) (file : Option ℕ) (pool0 pool : List FileSlot)
    (seeks : Seeks) (turns : List ReaderTurn) (w : Reader) (r : Outcome × List FileSlot × Reader)
    → read_size config ≤ 1472
    → used_flags (platform_file_close file pool) ≡ used_flags pool0
    → read_file config l file pool seeks turns w ≡ some r
    → Ended pool0 w r
unfolding read_file
read_file-Ended config l file pool0 pool seeks turns w r small flags h =
    elim (Bool-cases ((platform_file_get_size file pool seeks).0 == platform_error_success)) [
      | inr bad ↦
          subst (Ended pool0 w) (ground (arith, bad, h))
            (closed thread_error_file_read w (IsRead-idle true w w [] refl refl (λ k. refl)))
      | inl ok ↦
          elim (Option-cases
            (chunk_loop file pool l (read_size config) config.queue_timeout_ms turns w)) [
              | inl stuck ↦ absurd (ground (arith, ok, stuck, h))
              | inr ((finished res, w'), p) ↦ subst (Ended pool0 w) (ground (arith, ok, p, h)) (
                  closed res w'
                    (chunk_loop-IsRead file pool l (read_size config) config.queue_timeout_ms turns
                      w (finished res) w' small p).1)
              | inr ((overrun, w'), p) ↦ absurd (
                  ground (
                    arith,
                    (chunk_loop-IsRead file pool l (read_size config) config.queue_timeout_ms turns
                        w overrun w' small p).0,
                  ))
            ]
    ]
  where
    closed :
        (res : ThreadResult) (w' : Reader)
        → IsRead (keeps res) w w'
        → Ended pool0 w (finished res, platform_file_close file pool, w')
    closed res w' read = record { result = res; ended = refl; flags = flags; read = read }
