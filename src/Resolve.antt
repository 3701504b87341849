-- ===== src/Resolve.antt =====
-- romemul/sidetnfs_resolve.c and include/sidetnfs_resolve.h: the address of a TNFS server, from a
-- dotted quad or from a lookup that is answered later. Pointers are never NULL here; the memory of
-- a host name ends at the terminating NUL, which is the end of the list.
pub mod Literal
pub mod Lookup
mod Tests
use side_tnfs_firmware.Prelude.{
  ℕ, zero, suc, ◌+◌, ◌-◌, ◌*◌, ◌%◌, ◌^◌, Bool, true, false, ◌&&◌, ◌||◌, Option, none, some, List,
  [], ◌∷◌, ltb, leb, ◌==◌, if◌then◌else◌, ◌>>=◌,
}

-- `*p >= '0' && *p <= '9'`
unfoldable pub is_digit : ℕ → Bool
is_digit c = leb b'0' c && leb c b'9'

-- The loop over the digits of an octet: its value, and where it stops.
unfoldable pub read_digits : ℕ → ℕ → List ℕ → Option (ℕ × List ℕ)
read_digits v digits [] = some (v, [])
read_digits v digits (c ∷ p) =
    let w = v * 10 + (c - b'0') in
    let rest = read_digits w (digits + 1) p in
    if is_digit c then (if ltb 3 (digits + 1) || ltb 255 w then none else rest) else some (v, c ∷ p)

-- Every octet needs at least one digit.
unfoldable pub read_octet : List ℕ → Option (ℕ × List ℕ)
read_octet [] = none
read_octet (c ∷ p) = if is_digit c then read_digits 0 0 (c ∷ p) else none

-- The dot after each of the first three octets.
unfoldable pub skip_dot : List ℕ → Option (List ℕ)
skip_dot [] = none
skip_dot (c ∷ p) = if c == b'.' then some p else none

-- The first octet in the least significant byte; the shifted octets do not overlap.
abbrev pub pack : ℕ → ℕ → ℕ → ℕ → ℕ
pack a b c d = a + b * 256 + c * 65536 + d * 16777216

-- Nothing may follow the last octet.
unfoldable pub at_end : ℕ → List ℕ → Option ℕ
at_end addr [] = some addr
at_end addr (_ ∷ _) = none

-- `sidetnfs_resolve_parse_ipv4`: the loop over four octets, written out.
unfoldable pub parse_ipv4 : List ℕ → Option ℕ
parse_ipv4 host = do
  (a, p1) ← read_octet host
  q1 ← skip_dot p1
  (b, p2) ← read_octet q1
  q2 ← skip_dot p2
  (c, p3) ← read_octet q2
  q3 ← skip_dot p3
  (d, p4) ← read_octet q3
  at_end (pack a b c d) p4

abbrev pub resolve_timeout_ms : ℕ
resolve_timeout_ms = 4000

abbrev pub resolve_step_ms : ℕ
resolve_step_ms = 10

-- `sidetnfs_resolve_state_t`
pub data ResolveState : Type 0 where
  idle : ResolveState
  pending : ResolveState
  done : ResolveState
  failed : ResolveState

-- `sidetnfs_resolve_t`
pub record Resolve : Type 0 where
  pub state : ResolveState
  pub addr : ℕ
  pub elapsed_ms : ℕ
  pub request_id : ℕ
  pub slot : ℕ

unfoldable pub is_pending : ResolveState → Bool
is_pending pending = true
is_pending _ = false

unfoldable pub reset : Resolve → ℕ → Resolve
reset r slot = record { state = idle; addr = 0; elapsed_ms = 0; request_id = 0; slot = slot }

unfoldable pub begin : Resolve → ℕ → Resolve
begin r id = record r { state = pending; addr = 0; elapsed_ms = 0; request_id = id }

unfoldable pub accepts : Resolve → ℕ → Bool
accepts r id = is_pending r.state && (r.request_id == id)

-- An answer of `none` is a NULL address.
unfoldable pub complete : Resolve → ℕ → Option ℕ → Resolve
complete r id answer =
    if accepts r id
    then elim answer [
      | some a ↦ record r { addr = a; state = done }
      | none ↦ record r { addr = 0; state = failed }
    ]
    else r

-- The wait of a lookup, in `uint32_t`.
unfoldable pub tick : Resolve → ℕ → ℕ → Resolve
tick r step_ms timeout_ms =
    let e = (r.elapsed_ms + step_ms) % 2 ^ 32 in
    if is_pending r.state
    then record r { elapsed_ms = e; state = if leb timeout_ms e then failed else pending }
    else r
