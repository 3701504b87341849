-- ===== src/Protocol/Safety.antt =====
-- Where the parser writes, and how it comes back to waiting for a header.
use side_tnfs_firmware.Prelude.{
  ℕ, Bool, true, false, ltb, ◌+◌, ◌%◌, ◌^◌, ◌≤◌, ◌<◌, ◌≡◌, ◌≢◌, refl, ◌∙◌, none, some, List, [],
  ◌∷◌, ◌++◌, arith, All, length, length-set, length-append, set, suc, ◌/◌, ◌==◌, if◌then◌else◌,
}
use side_tnfs_firmware.Protocol.{
  Parser, TpParseStep, Outcome, header_detection, command_read, payload_size_read,
  payload_read_start, payload_read_inprogress, payload_read_end, protocol_header, elapsed,
  store_word, dispatch, restart, parse_protocol, payload_case, finish, run,
}
use side_tnfs_firmware.Protocol.Frame.{
  InWindow, IsReceiving, payload_bytes, receiving, delivered, pair, run-cons, run-none,
  run-none_later, run-nil, parse-receiving, parse-header, parse-command, parse-size,
  payload_case-more,
}

-- While a payload arrives, an even number of its bytes is stored, more are due, and all fit.
pub record IsSafe (p : Parser) : Type 0 where
  pub even : p.transmission.bytes_read % 2 ≡ 0
  pub due : p.transmission.bytes_read < p.transmission.payload_size
  pub fits : p.transmission.payload_size ≤ 2112

-- PAYLOAD_READ_END is left within the call that reaches it.
abbrev pub Invariant : Parser → Type 0
Invariant p =
    (length p.transmission.payload ≡ 2112)
    × (p.next_tp_step ≢ payload_read_end)
    × (IsReceiving p.next_tp_step → IsSafe p)

-- What a word leads to: no write outside the block, and the invariant again.
abbrev pub Keeps : Outcome → Type 0
Keeps none = ⊥
Keeps (some (q, _)) = Invariant q

length-store_word : (b : List ℕ) (i w : ℕ) → length (store_word b i w) ≡ length b
unfolding store_word
length-store_word b i w =
    length-set (set b i (w % 256)) (suc i) (w / 256 % 256) ∙ length-set b i (w % 256)

payload_case-Keeps :
    (p : Parser) (word : ℕ)
    → length p.transmission.payload ≡ 2112
    → IsSafe p
    → Keeps (payload_case p word)
unfolding payload_case finish
payload_case-Keeps p word l s =
    ground (arith, length-store_word p.transmission.payload p.transmission.bytes_read word)

payload_case-none :
    (start now : ℕ) (step : TpParseStep) (cmd size : ℕ) (before rest : List ℕ) (word : ℕ)
    → length before < size
    → length (before ++ rest) < length before + 2
    → payload_case (receiving start now step cmd size before rest) word ≡ none
unfolding payload_case
payload_case-none start now step cmd size before rest word h k = ground arith

dispatch-Keeps :
    (step : TpParseStep) (p : Parser) (word : ℕ)
    → step ≢ payload_read_end
    → length p.transmission.payload ≡ 2112
    → (IsReceiving step → IsSafe p)
    → (step ≡ payload_size_read → word ≤ 2112)
    → p.next_tp_step ≡ step
    → Keeps (dispatch step p word)
unfolding dispatch finish
dispatch-Keeps header_detection p word n l s w e = ground arith
dispatch-Keeps command_read p word n l s w e = ground arith
dispatch-Keeps payload_size_read p word n l s w e = ground (arith, w refl)
dispatch-Keeps payload_read_start p word n l s w e = payload_case-Keeps p word l (s tt)
dispatch-Keeps payload_read_inprogress p word n l s w e = payload_case-Keeps p word l (s tt)
dispatch-Keeps payload_read_end p word n l s w e = absurd (n refl)

restarted-Keeps :
    (late : Bool) (p : Parser) (now word : ℕ)
    → Invariant p
    → (p.next_tp_step ≡ payload_size_read → word ≤ 2112)
    → let step = if late then header_detection else p.next_tp_step in
      Keeps (dispatch step (record p { new_header_found = now; next_tp_step = step }) word)
restarted-Keeps true p now word (l, n, s) w =
    dispatch-Keeps header_detection _ word (λ e. cc) l (λ r. absurd r) (λ e. cc) refl
restarted-Keeps false p now word (l, n, s) w =
    dispatch-Keeps p.next_tp_step _ word n l
      (λ r. record { even = (s r).even; due = (s r).due; fits = (s r).fits }) w refl

-- A word keeps the invariant and is written inside the block of 2112 bytes, at any time and in any
-- state that meets the invariant, where a word that is read as a payload size is at most 2112. The
-- invariant: the block has 2112 bytes, PAYLOAD_READ_END does not outlast a call, and while a payload
-- arrives the bytes stored are an even number, below the payload size, which is at most 2112.
pub parse_protocol-Keeps :
    (p : Parser) (now word : ℕ)
    → Invariant p
    → (p.next_tp_step ≡ payload_size_read → word ≤ 2112)
    → Keeps (parse_protocol p now word)
unfolding parse_protocol restart
parse_protocol-Keeps p now word v w =
    restarted-Keeps (ltb 10000 (elapsed now p.last_header_found)) p now word v w

-- A pause of more than 10000 microseconds since the header drops the frame, whatever its state: no
-- transmission is handed on, and the word is taken for a header or for nothing.
pub pause_restarts :
    (p : Parser) (now word : ℕ)
    → 10000 < elapsed now p.last_header_found
    → parse_protocol p now word
      ≡ some (
        record p {
          new_header_found = now;
          last_header_found = now;
          next_tp_step = if word == protocol_header then command_read else header_detection;
        },
        [],
      )
unfolding parse_protocol
pause_restarts p now word h = ground arith

parse-size_zero :
    (p : Parser) (now : ℕ)
    → p.next_tp_step ≡ payload_size_read
    → InWindow p.last_header_found now
    → parse_protocol p now 0
      ≡ delivered now p.transmission.command_id p.transmission.payload_size p.transmission.payload 0
unfolding parse_protocol finish
parse-size_zero p now h w = ground arith

-- After an idle parser has read a header, a command and a size, and the frame was then given up for
-- more than 10000 microseconds, a frame of another command with a payload size of zero is handed to
-- the callback with the size of the frame that was given up.
pub abandoned_size_reported :
    (p : Parser) (start at_cmd at_size cmd size start' at_cmd' at_size' cmd' : ℕ)
    → p.next_tp_step ≡ header_detection
    → InWindow start at_cmd
    → InWindow start at_size
    → 0 < size
    → 10000 < elapsed start' start
    → InWindow start' at_cmd'
    → InWindow start' at_size'
    → run p (
        (start, protocol_header)
        ∷ (at_cmd, cmd)
        ∷ (at_size, size)
        ∷ (start', protocol_header)
        ∷ (at_cmd', cmd')
        ∷ (at_size', 0)
        ∷ [])
      ≡ delivered at_size' cmd' size p.transmission.payload 0
abandoned_size_reported p s c z cmd size s' c' z' cmd' h w1 w2 k late w3 w4 =
    run-cons _ s _ _ _ _ _ _ (parse-header p s h) (
      run-cons _ c _ _ _ _ _ _ (parse-command _ c cmd refl w1) (
        run-cons _ z _ _ _ _ _ _ (parse-size _ z size refl w2 k) (
          run-cons _ s' _ _ _ _ _ _ (pause_restarts _ s' protocol_header late) (
            run-cons _ c' _ _ _ _ _ _ (parse-command _ c' cmd' refl w3)
              (run-cons _ z' _ _ _ _ _ _ (parse-size_zero _ z' refl w4) (run-nil _))))))

-- Past the last whole pair of bytes of the block the next word of a payload is a write outside it.
overrun :
    (start prev : ℕ) (step : TpParseStep) (cmd size : ℕ) (before rest : List ℕ)
    (words : List (ℕ × ℕ))
    → IsReceiving step
    → All (λ m. InWindow start m.0) words
    → length before + length rest + 2 ≤ size
    → size < 2 ^ 16
    → length rest < length (payload_bytes words)
    → run (receiving start prev step cmd size before rest) words ≡ none
overrun start prev step cmd size before rest [] r w h1 h2 h3 = absurd (omega arith)
overrun start prev step cmd size before [] ((now, word) ∷ ws) r w h1 h2 h3 =
    run-none _ now word ws (
      parse-receiving start prev now step cmd size before [] word r w.0
      ∙ payload_case-none start now step cmd size before [] word (omega arith)
          (omega (arith, length-append before [])))
overrun start prev step cmd size before (a ∷ []) ((now, word) ∷ ws) r w h1 h2 h3 =
    run-none _ now word ws (
      parse-receiving start prev now step cmd size before (a ∷ []) word r w.0
      ∙ payload_case-none start now step cmd size before (a ∷ []) word (omega arith)
          (omega (arith, length-append before (a ∷ []))))
overrun start prev step cmd size before (a ∷ b ∷ rest) ((now, word) ∷ ws) r w h1 h2 h3 =
    run-none_later _ now word ws _ _
      (parse-receiving start prev now step cmd size before (a ∷ b ∷ rest) word r w.0
        ∙ payload_case-more start now step cmd size before rest a b word (omega arith) h2)
      (overrun start now payload_read_inprogress cmd size (before ++ pair word) rest ws tt w.1
        (omega (arith, length-append before (pair word))) h2 (omega arith))

-- The payload size is not checked against the block. An idle parser that is given a frame with a
-- size at least two above the block, and more payload than the block holds, each word in time,
-- writes outside the block.
pub oversized_frame_overruns :
    (p : Parser) (start at_cmd at_size cmd size : ℕ) (words : List (ℕ × ℕ))
    → p.next_tp_step ≡ header_detection
    → InWindow start at_cmd
    → InWindow start at_size
    → All (λ m. InWindow start m.0) words
    → length p.transmission.payload + 2 ≤ size
    → size < 2 ^ 16
    → length p.transmission.payload < length (payload_bytes words)
    → run p ((start, protocol_header) ∷ (at_cmd, cmd) ∷ (at_size, size) ∷ words) ≡ none
oversized_frame_overruns p s c z cmd size words h w1 w2 ws h1 h2 h3 =
    run-none_later _ s _ _ _ _ (parse-header p s h) (
      run-none_later _ c _ _ _ _ (parse-command _ c cmd refl w1) (
        run-none_later _ z _ _ _ _ (parse-size _ z size refl w2 (omega arith)) (
          overrun s z payload_read_start cmd size [] p.transmission.payload words tt ws
            (omega arith) h2 h3)))
