-- ===== src/Protocol/Frame.antt =====
-- A frame that arrives within the restart time is handed to the callback whole, and once.
use side_tnfs_firmware.Prelude.{
  ℕ, suc, ◌+◌, ◌/◌, ◌%◌, ◌^◌, ◌≤◌, ◌<◌, ◌≡◌, refl, ap, sym, ◌∙◌, true, leb, none, some, List, [],
  ◌∷◌, ◌++◌, append_assoc, arith, All, length, length-append, drop,
}
use side_tnfs_firmware.Protocol.{
  TransmissionProtocol, Parser, TpParseStep, Outcome, header_detection, command_read,
  payload_size_read, payload_read_start, payload_read_inprogress, payload_read_end, protocol_header,
  store_word, parse_protocol, payload_case, finish, run,
}

-- The bytes that the words of a payload leave in memory.
abbrev pub payload_bytes : List (ℕ × ℕ) → List ℕ
payload_bytes [] = []
payload_bytes ((_, word) ∷ rest) = word % 256 ∷ word / 256 % 256 ∷ payload_bytes rest

-- A time at most the restart time after the header.
abbrev pub InWindow : ℕ → ℕ → Type 0
InWindow start now = (start ≤ now) × (now ≤ start + 10000) × (now < 2 ^ 64)

store_word-append :
    (before rest : List ℕ) (a b word : ℕ)
    → store_word (before ++ (a ∷ b ∷ rest)) (length before) word
      ≡ before ++ (word % 256 ∷ word / 256 % 256 ∷ rest)
unfolding store_word
store_word-append [] rest a b word = refl
store_word-append (x ∷ before) rest a b word =
    ap (λ l. x ∷ l) (store_word-append before rest a b word)

-- The parser while the payload arrives: `before` is what is stored, `rest` what the block still
-- holds behind it.
abbrev pub receiving : ℕ → ℕ → TpParseStep → ℕ → ℕ → List ℕ → List ℕ → Parser
receiving start now step cmd size before rest = record {
  last_header_found = start;
  new_header_found = now;
  next_tp_step = step;
  transmission = record {
    command_id = cmd;
    payload_size = size;
    payload = before ++ rest;
    bytes_read = length before;
  };
}

-- The parser between two frames.
abbrev pub idle : ℕ → List ℕ → Parser
idle now block = record {
  last_header_found = 0;
  new_header_found = now;
  next_tp_step = header_detection;
  transmission = record { command_id = 0; payload_size = 0; payload = block; bytes_read = 0 };
}

abbrev pub received : ℕ → ℕ → List ℕ → ℕ → TransmissionProtocol
received cmd size block count = record {
  command_id = cmd;
  payload_size = size;
  payload = block;
  bytes_read = count;
}

-- One transmission, and the parser is idle.
abbrev pub delivered : ℕ → ℕ → ℕ → List ℕ → ℕ → Outcome
delivered now cmd size block count = some (idle now block, received cmd size block count ∷ [])

abbrev pub pair : ℕ → List ℕ
pair word = word % 256 ∷ word / 256 % 256 ∷ []

module _ (start now : ℕ) (step : TpParseStep) (cmd size : ℕ) (before rest : List ℕ)
    (a b word : ℕ) where
  stored :
      store_word (before ++ (a ∷ b ∷ rest)) (length before) word ≡ (before ++ pair word) ++ rest
  stored = store_word-append before rest a b word ∙ sym (append_assoc before (pair word) rest)

  room : leb (length before + 2) (length (before ++ (a ∷ b ∷ rest))) ≡ true
  room = ground (arith, length-append before (a ∷ b ∷ rest))

  pub payload_case-more :
      length before + 2 < size
      → size < 2 ^ 16
      → payload_case (receiving start now step cmd size before (a ∷ b ∷ rest)) word
        ≡ some (receiving start now payload_read_inprogress cmd size (before ++ pair word) rest, [])
  unfolding payload_case finish
  payload_case-more h k = ground (arith, stored, room, length-append before (pair word))

  payload_case-last :
      length before < size
      → size ≤ length before + 2
      → length before + 2 < 2 ^ 16
      → payload_case (receiving start now step cmd size before (a ∷ b ∷ rest)) word
        ≡ some (
          idle now ((before ++ pair word) ++ rest),
          received cmd size ((before ++ pair word) ++ rest) (length before + 2) ∷ [],
        )
  unfolding payload_case finish
  payload_case-last h k l = ground (arith, stored, room)

-- A word that is accepted, then the rest.
pub run-cons :
    (p : Parser) (now word : ℕ) (rest : List (ℕ × ℕ)) (q r : Parser)
    (sent more : List TransmissionProtocol)
    → parse_protocol p now word ≡ some (q, sent)
    → run q rest ≡ some (r, more)
    → run p ((now, word) ∷ rest) ≡ some (r, sent ++ more)
unfolding run
run-cons p now word rest q r sent more e f = ground arith

-- A word on which the parser writes outside the block.
pub run-none :
    (p : Parser) (now word : ℕ) (rest : List (ℕ × ℕ))
    → parse_protocol p now word ≡ none
    → run p ((now, word) ∷ rest) ≡ none
unfolding run
run-none p now word rest e = ground arith

pub run-none_later :
    (p : Parser) (now word : ℕ) (rest : List (ℕ × ℕ)) (q : Parser)
    (sent : List TransmissionProtocol)
    → parse_protocol p now word ≡ some (q, sent)
    → run q rest ≡ none
    → run p ((now, word) ∷ rest) ≡ none
unfolding run
run-none_later p now word rest q sent e f = ground arith

pub run-nil : (p : Parser) → run p [] ≡ some (p, [])
unfolding run
run-nil p = refl

abbrev pub IsReceiving : TpParseStep → Type 0
IsReceiving payload_read_start = Unit
IsReceiving payload_read_inprogress = Unit
IsReceiving _ = ⊥

-- Within the restart time a word of the payload goes to the payload cases.
pub parse-receiving :
    (start prev now : ℕ) (step : TpParseStep) (cmd size : ℕ) (before rest : List ℕ) (word : ℕ)
    → IsReceiving step
    → InWindow start now
    → parse_protocol (receiving start prev step cmd size before rest) now word
      ≡ payload_case (receiving start now step cmd size before rest) word
unfolding parse_protocol
parse-receiving start prev now payload_read_start cmd size before rest word r w = ground arith
parse-receiving start prev now payload_read_inprogress cmd size before rest word r w = ground arith
parse-receiving start prev now header_detection cmd size before rest word r w = absurd r
parse-receiving start prev now command_read cmd size before rest word r w = absurd r
parse-receiving start prev now payload_size_read cmd size before rest word r w = absurd r
parse-receiving start prev now payload_read_end cmd size before rest word r w = absurd r

-- The time of the last word.
abbrev pub last_time : ℕ → List (ℕ × ℕ) → ℕ
last_time prev [] = prev
last_time prev ((now, _) ∷ rest) = last_time now rest

regroup :
    (now cmd size word count : ℕ) (before after : List ℕ)
    → delivered now cmd size ((before ++ pair word) ++ after) (length (before ++ pair word) + count)
      ≡ delivered now cmd size (before ++ (pair word ++ after)) (length before + suc (suc count))
regroup now cmd size word count before after =
    ground (arith, append_assoc before (pair word) after, length-append before (pair word))

-- The rest of a payload: one transmission, with the words behind what was stored before.
deliver :
    (start prev : ℕ) (step : TpParseStep) (cmd size : ℕ) (before rest : List ℕ)
    (words : List (ℕ × ℕ))
    → IsReceiving step
    → All (λ m. InWindow start m.0) words
    → length before < size
    → size ≤ length before + length (payload_bytes words)
    → length before + length (payload_bytes words) < size + 2
    → length (payload_bytes words) ≤ length rest
    → length before + length rest < 2 ^ 16
    → run (receiving start prev step cmd size before rest) words
      ≡ delivered
          (last_time prev words)
          cmd
          size
          (before ++ (payload_bytes words ++ drop (length (payload_bytes words)) rest))
          (length before + length (payload_bytes words))
deliver start prev step cmd size before rest [] r w h1 h2 h3 h4 h5 = absurd (omega arith)
deliver start prev step cmd size before [] (m ∷ ws) r w h1 h2 h3 h4 h5 = absurd (omega arith)
deliver start prev step cmd size before (a ∷ []) (m ∷ ws) r w h1 h2 h3 h4 h5 = absurd (omega arith)
deliver start prev step cmd size before (a ∷ b ∷ rest) ((now, word) ∷ []) r w h1 h2 h3 h4 h5 =
    run-cons _ now word [] _ _ _ _
      (parse-receiving start prev now step cmd size before (a ∷ b ∷ rest) word r w.0
        ∙ payload_case-last start now step cmd size before rest a b word h1 (omega arith)
            (omega arith))
      (run-nil _)
    ∙ ap (λ l. delivered now cmd size l (length before + 2)) (append_assoc before (pair word) rest)
deliver start prev step cmd size before (a ∷ b ∷ rest) ((now, word) ∷ m ∷ ws) r w h1 h2 h3 h4 h5 =
    run-cons _ now word (m ∷ ws) _ _ _ _
      (parse-receiving start prev now step cmd size before (a ∷ b ∷ rest) word r w.0
        ∙ payload_case-more start now step cmd size before rest a b word (omega arith)
            (omega arith))
      (deliver start now payload_read_inprogress cmd size (before ++ pair word) rest (m ∷ ws) tt w.1
        (omega (arith, grown)) (omega (arith, grown)) (omega (arith, grown)) (omega arith)
        (omega (arith, grown)))
    ∙ regroup (last_time now (m ∷ ws)) cmd size word (length (payload_bytes (m ∷ ws))) before
        (payload_bytes (m ∷ ws) ++ drop (length (payload_bytes (m ∷ ws))) rest)
  where
    grown : length (before ++ pair word) ≡ length before + 2
    grown = length-append before (pair word)

pub parse-header :
    (p : Parser) (now : ℕ)
    → p.next_tp_step ≡ header_detection
    → parse_protocol p now protocol_header
      ≡ some (
        record p { new_header_found = now; last_header_found = now; next_tp_step = command_read },
        [],
      )
unfolding parse_protocol
parse-header p now h = ground arith

pub parse-command :
    (p : Parser) (now word : ℕ)
    → p.next_tp_step ≡ command_read
    → InWindow p.last_header_found now
    → parse_protocol p now word
      ≡ some (
        record p {
          new_header_found = now;
          next_tp_step = payload_size_read;
          transmission = record p.transmission { command_id = word };
        },
        [],
      )
unfolding parse_protocol
parse-command p now word h w = ground arith

pub parse-size :
    (p : Parser) (now word : ℕ)
    → p.next_tp_step ≡ payload_size_read
    → InWindow p.last_header_found now
    → 0 < word
    → parse_protocol p now word
      ≡ some (
        record p {
          new_header_found = now;
          next_tp_step = payload_read_start;
          transmission = record p.transmission { payload_size = word; bytes_read = 0 };
        },
        [],
      )
unfolding parse_protocol finish
parse-size p now word h w k = ground arith

-- A parser that waits for a header and is given a whole frame, every word of it at most 10000
-- microseconds after the header, makes no write outside the payload block. It calls the callback
-- once, with the command, the size and the bytes of the payload at the start of the block, whatever
-- was there before, and then waits for the next header with its counters cleared. The payload has
-- as many words as its size needs, the last one half used where the size is odd, and fits the block.
pub frame_delivered :
    (p : Parser) (start at_cmd at_size cmd size : ℕ) (words : List (ℕ × ℕ))
    → p.next_tp_step ≡ header_detection
    → InWindow start at_cmd
    → InWindow start at_size
    → All (λ m. InWindow start m.0) words
    → 0 < size
    → size ≤ length (payload_bytes words)
    → length (payload_bytes words) < size + 2
    → length (payload_bytes words) ≤ length p.transmission.payload
    → length p.transmission.payload < 2 ^ 16
    → let block =
        payload_bytes words ++ drop (length (payload_bytes words)) p.transmission.payload in
      run p ((start, protocol_header) ∷ (at_cmd, cmd) ∷ (at_size, size) ∷ words)
      ≡ delivered (last_time at_size words) cmd size block (length (payload_bytes words))
frame_delivered p start at_cmd at_size cmd size words h w1 w2 ws h0 h1 h2 h3 h4 =
    run-cons _ start _ _ _ _ _ _ (parse-header p start h) (
      run-cons _ at_cmd _ _ _ _ _ _ (parse-command _ at_cmd cmd refl w1) (
        run-cons _ at_size _ _ _ _ _ _ (parse-size _ at_size size refl w2 h0) (
          deliver start at_size payload_read_start cmd size [] p.transmission.payload words tt ws
            (omega arith) (omega arith) (omega arith) h3 (omega arith)
          ∙ ap (delivered (last_time at_size words) cmd size _) (omega arith))))
