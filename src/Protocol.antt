-- ===== src/Protocol.antt =====
-- romemul/tprotocol.c and include/tprotocol.h: the parser of the frames that the Atari sends over
-- the ROM3 address lines, one 16-bit word at a time.
pub mod Frame
pub mod Safety
mod Tests
use side_tnfs_firmware.Prelude.{
  ℕ, suc, ◌+◌, ◌-◌, ◌/◌, ◌%◌, ◌^◌, Bool, true, false, Option, none, some, List, [], ◌∷◌, ◌++◌, ltb,
  leb, ◌==◌, if◌then◌else◌, length, set,
}

abbrev pub protocol_header : ℕ
protocol_header = 0xABCD

abbrev pub protocol_read_restart_microseconds : ℕ
protocol_read_restart_microseconds = 10000

-- `2048 + 64`
abbrev pub max_protocol_payload_size : ℕ
max_protocol_payload_size = 2112

-- `TPParseStep`
pub data TpParseStep : Type 0 where
  header_detection : TpParseStep
  command_read : TpParseStep
  payload_size_read : TpParseStep
  payload_read_start : TpParseStep
  payload_read_inprogress : TpParseStep
  payload_read_end : TpParseStep

-- `TransmissionProtocol`; `payload` is the block that `init_protocol_parser` allocates.
pub record TransmissionProtocol : Type 0 where
  pub command_id : ℕ
  pub payload_size : ℕ
  pub payload : List ℕ
  pub bytes_read : ℕ

-- The global variables of the file.
pub record Parser : Type 0 where
  pub last_header_found : ℕ
  pub new_header_found : ℕ
  pub next_tp_step : TpParseStep
  pub transmission : TransmissionProtocol

-- The parser after a word, and the transmissions handed to the callback. `none` is a write outside
-- the allocated payload.
abbrev pub Outcome : Type 0
Outcome = Option (Parser × List TransmissionProtocol)

-- The initial values of the globals, with the block that `malloc` returned.
abbrev pub init_protocol_parser : List ℕ → Parser
init_protocol_parser block = record {
  last_header_found = 0;
  new_header_found = 0;
  next_tp_step = header_detection;
  transmission = record { command_id = 0; payload_size = 0; payload = block; bytes_read = 0 };
}

-- `new_header_found - last_header_found` of `uint64_t`
abbrev pub elapsed : ℕ → ℕ → ℕ
elapsed now last = (now + 2 ^ 64 - last) % 2 ^ 64

unfoldable pub detect_header : Parser → ℕ → Parser
detect_header p word =
    if word == protocol_header then record p { next_tp_step = command_read } else p

unfoldable pub read_command : Parser → ℕ → Parser
read_command p word = record p {
  transmission = record p.transmission { command_id = word };
  next_tp_step = payload_size_read;
}

-- A size of zero is not stored.
unfoldable pub read_payload_size : Parser → ℕ → Parser
read_payload_size p word =
    if ltb 0 word
    then record p {
      transmission = record p.transmission { payload_size = word; bytes_read = 0 };
      next_tp_step = payload_read_start;
    }
    else record p {
      transmission = record p.transmission { bytes_read = 0 };
      next_tp_step = payload_read_end;
    }

-- A `uint16_t` store, low byte first.
unfoldable pub store_word : List ℕ → ℕ → ℕ → List ℕ
store_word block i word = set (set block i (word % 256)) (suc i) (word / 256 % 256)

unfoldable pub read_payload : Parser → ℕ → Option Parser
unfolding store_word
read_payload p word =
    let t = p.transmission in
    let bytes = (t.bytes_read + 2) % 2 ^ 16 in
    if leb (t.bytes_read + 2) (length t.payload)
    then some (record p {
      transmission = record t {
        payload = store_word t.payload t.bytes_read word;
        bytes_read = bytes;
      };
      next_tp_step = if leb t.payload_size bytes then payload_read_end else payload_read_inprogress;
    })
    else none

-- The callback is given the transmission, and the parser is reset.
unfoldable pub process_command : Parser → Parser × List TransmissionProtocol
process_command p = (
  record p {
    transmission = record p.transmission { command_id = 0; payload_size = 0; bytes_read = 0 };
    last_header_found = 0;
    next_tp_step = header_detection;
  },
  p.transmission ∷ [],
)

is_end : TpParseStep → Bool
is_end payload_read_end = true
is_end _ = false

-- `if (nextTPstep == PAYLOAD_READ_END) process_command(callback)`
unfoldable pub finish : Parser → Parser × List TransmissionProtocol
unfolding is_end process_command
finish p = if is_end p.next_tp_step then process_command p else (p, [])

-- The three payload cases of the `switch`.
unfoldable pub payload_case : Parser → ℕ → Outcome
unfolding read_payload finish
payload_case p word =
    if ltb p.transmission.bytes_read p.transmission.payload_size
    then elim (read_payload p word) [ none ↦ none | some q ↦ some (finish q) ]
    else some (finish p)

-- The `switch` of `parse_protocol`.
unfoldable pub dispatch : TpParseStep → Parser → ℕ → Outcome
unfolding detect_header read_command read_payload_size payload_case
dispatch header_detection p word =
    some (record (detect_header p word) { last_header_found = p.new_header_found }, [])
dispatch command_read p word = some (read_command p word, [])
dispatch payload_size_read p word = some (finish (read_payload_size p word))
dispatch payload_read_start p word = payload_case p word
dispatch payload_read_inprogress p word = payload_case p word
dispatch payload_read_end p word = payload_case p word

-- The restart after a pause.
unfoldable pub restart : Parser → ℕ → Parser
restart p now = record p {
  new_header_found = now;
  next_tp_step =
      if ltb protocol_read_restart_microseconds (elapsed now p.last_header_found)
      then header_detection
      else p.next_tp_step;
}

-- `parse_protocol`, with the value of the microsecond timer.
unfoldable pub parse_protocol : Parser → ℕ → ℕ → Outcome
unfolding restart dispatch
parse_protocol p now word = let q = restart p now in dispatch q.next_tp_step q word

-- The words in order, each with its time; the transmissions that the callback saw, in order.
unfoldable pub run : Parser → List (ℕ × ℕ) → Outcome
run p [] = some (p, [])
run p ((now, word) ∷ rest) = elim (parse_protocol p now word) [
  | none ↦ none
  | some (q, sent) ↦ elim (run q rest) [ none ↦ none | some (r, more) ↦ some (r, sent ++ more) ]
]
