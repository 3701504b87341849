-- ===== src/Resolve/Tests.antt =====
-- The address resolution at concrete inputs.
use side_tnfs_firmware.Prelude.{ℕ, ◌≡◌, ◌↔◌, refl, some, none, List, [], ◌∷◌, arith}
use side_tnfs_firmware.Resolve.{
  Resolve, idle, failed, reset, begin, complete, accepts, tick, is_pending, parse_ipv4, is_digit,
  read_digits, read_octet, skip_dot, at_end,
}
use side_tnfs_firmware.Resolve.Literal.{IsQuad, parse_ipv4_iff}
use side_tnfs_firmware.Resolve.Lookup.{
  Event, begin_event, answer_event, tick_event, step, after, Answered, done-Answered, poll,
  poll_times_out,
}

-- 10.0.0.255
abbrev text : List ℕ
text = b'1' ∷ b'0' ∷ b'.' ∷ b'0' ∷ b'.' ∷ b'0' ∷ b'.' ∷ b'2' ∷ b'5' ∷ b'5' ∷ []

text_address : parse_ipv4 text ≡ some 4278190090
unfolding parse_ipv4 is_digit read_digits read_octet skip_dot at_end
text_address = refl

octet_too_large : parse_ipv4 (b'2' ∷ b'5' ∷ b'6' ∷ []) ≡ none
unfolding parse_ipv4 is_digit read_digits read_octet skip_dot at_end
octet_too_large = refl

parse_ipv4_iff_example : (parse_ipv4 text ≡ some 4278190090) ↔ IsQuad text 4278190090
parse_ipv4_iff_example = parse_ipv4_iff text 4278190090

-- Lookup 1 times out, lookup 2 is begun, the late answer to 1 is ignored, and 2 is answered.
abbrev retried : List Event
retried =
    answer_event 2 (some 20)
    ∷ answer_event 1 (some 10)
    ∷ begin_event 2
    ∷ tick_event 4000 4000
    ∷ begin_event 1
    ∷ []

abbrev blank : Resolve
blank = record { state = idle; addr = 0; elapsed_ms = 0; request_id = 0; slot = 0 }

done-Answered_example : Answered 20 retried
unfolding after step reset begin complete accepts tick is_pending
done-Answered_example = done-Answered 3 blank retried refl

-- 400 waits of 10 ms use up the 4 seconds.
poll_times_out_example : (poll 400 10 4000 (begin blank 7)).state ≡ failed
poll_times_out_example = poll_times_out 399 10 4000 7 blank (omega arith)
