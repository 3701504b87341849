-- ===== src/Protocol/Tests.antt =====
-- Frames of tprotocol.c run by hand, and the theorems at them.
use side_tnfs_firmware.Prelude.{
  ℕ, ◌≡◌, refl, none, List, [], ◌∷◌, arith, replicate, length-replicate,
}
use side_tnfs_firmware.Protocol.{
  Parser, payload_read_inprogress, init_protocol_parser, parse_protocol, run,
}
use side_tnfs_firmware.Protocol.Frame.{delivered, frame_delivered}
use side_tnfs_firmware.Protocol.Safety.{
  Keeps, parse_protocol-Keeps, abandoned_size_reported, oversized_frame_overruns,
}

-- A parser with a block of eight bytes.
abbrev small : Parser
small = init_protocol_parser (9 ∷ 9 ∷ 9 ∷ 9 ∷ 9 ∷ 9 ∷ 9 ∷ 9 ∷ [])

-- Three bytes of payload in two words.
abbrev odd_frame : List (ℕ × ℕ)
odd_frame = (20005, 0xABCD) ∷ (20006, 0x0401) ∷ (20007, 3) ∷ (20008, 0x0102) ∷ (20009, 0x0304) ∷ []

run-odd_frame :
    run small odd_frame ≡ delivered 20009 0x0401 3 (2 ∷ 1 ∷ 4 ∷ 3 ∷ 9 ∷ 9 ∷ 9 ∷ 9 ∷ []) 4
unfolding run parse_protocol
run-odd_frame = refl

frame_delivered_example :
    run small odd_frame ≡ delivered 20009 0x0401 3 (2 ∷ 1 ∷ 4 ∷ 3 ∷ 9 ∷ 9 ∷ 9 ∷ 9 ∷ []) 4
frame_delivered_example =
    frame_delivered small 20005 20006 20007 0x0401 3 ((20008, 0x0102) ∷ (20009, 0x0304) ∷ []) refl
      (omega arith) (omega arith) (omega arith) (omega arith) (omega arith) (omega arith)
      (omega arith) (omega arith)

-- In the middle of a payload of four bytes.
abbrev midway : Parser
midway = record {
  last_header_found = 50;
  new_header_found = 53;
  next_tp_step = payload_read_inprogress;
  transmission = record {
    command_id = 7;
    payload_size = 4;
    payload = replicate 2112 0;
    bytes_read = 2;
  };
}

parse_protocol-Keeps_example : Keeps (parse_protocol midway 60 0xFFFF)
parse_protocol-Keeps_example =
    parse_protocol-Keeps midway 60 0xFFFF
      (
        length-replicate {A = ℕ} 2112 0,
        (λ e. cc),
        λ r. record { even = omega arith; due = omega arith; fits = omega arith },
      )
      (λ e. cc)

-- The second frame has no payload, and is handed on with a size of six.
abandoned_size_reported_example :
    run small
      ((5, 0xABCD) ∷ (6, 0x0401) ∷ (7, 6) ∷ (20005, 0xABCD) ∷ (20006, 0x0402) ∷ (20007, 0) ∷ [])
    ≡ delivered 20007 0x0402 6 (9 ∷ 9 ∷ 9 ∷ 9 ∷ 9 ∷ 9 ∷ 9 ∷ 9 ∷ []) 0
abandoned_size_reported_example =
    abandoned_size_reported small 5 6 7 0x0401 6 20005 20006 20007 0x0402 refl (omega arith)
      (omega arith) (omega arith) (omega arith) (omega arith) (omega arith)

-- A block of two bytes stands for the block of 2112.
oversized_frame_overruns_example :
    run
      (init_protocol_parser (9 ∷ 9 ∷ []))
      ((5, 0xABCD) ∷ (6, 0x0401) ∷ (7, 4) ∷ (8, 1) ∷ (9, 2) ∷ [])
    ≡ none
oversized_frame_overruns_example =
    oversized_frame_overruns (init_protocol_parser (9 ∷ 9 ∷ [])) 5 6 7 0x0401 4
      ((8, 1) ∷ (9, 2) ∷ []) refl (omega arith) (omega arith) (omega arith) (omega arith)
      (omega arith) (omega arith)
