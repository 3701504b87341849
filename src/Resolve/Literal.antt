-- ===== src/Resolve/Literal.antt =====
-- The dotted quads that romemul/sidetnfs_resolve.c accepts, against a grammar of them.
use side_tnfs_firmware.Prelude.{
  ℕ, ◌+◌, ◌-◌, ◌*◌, ◌≤◌, ◌≡◌, ◌↔◌, inl, inr, refl, ap, sym, ◌∙◌, false, true, Bool-cases, ◌||◌,
  some, List, [], ◌∷◌, ◌++◌, append-nil, length, All, ltb, arith, bind_inv,
}
use side_tnfs_firmware.Resolve.{
  is_digit, read_digits, read_octet, skip_dot, at_end, pack, parse_ipv4,
}

abbrev pub IsDigit : ℕ → Type 0
IsDigit c = (b'0' ≤ c) × (c ≤ b'9')

-- The number that decimal digits continue.
abbrev pub decimal : ℕ → List ℕ → ℕ
decimal v [] = v
decimal v (c ∷ ds) = decimal (v * 10 + (c - b'0')) ds

-- One to three digits of a value up to 255.
pub record IsOctet (ds : List ℕ) (v : ℕ) : Type 0 where
  pub digits : All IsDigit ds
  pub some_digit : 1 ≤ length ds
  pub short : length ds ≤ 3
  pub value : v ≡ decimal 0 ds
  pub small : v ≤ 255

-- Four octets with a dot between them, and nothing else.
pub record IsQuad (host : List ℕ) (addr : ℕ) : Type 0 where
  pub a : List ℕ
  pub b : List ℕ
  pub c : List ℕ
  pub d : List ℕ
  pub va : ℕ
  pub vb : ℕ
  pub vc : ℕ
  pub vd : ℕ
  pub octet_a : IsOctet a va
  pub octet_b : IsOctet b vb
  pub octet_c : IsOctet c vc
  pub octet_d : IsOctet d vd
  pub text : host ≡ a ++ (b'.' ∷ (b ++ (b'.' ∷ (c ++ (b'.' ∷ d)))))
  pub address : addr ≡ pack va vb vc vd

is_digit_sound : (c : ℕ) → is_digit c ≡ true → IsDigit c
unfolding is_digit
is_digit_sound c h = ground arith

is_digit_complete : (c : ℕ) → IsDigit c → is_digit c ≡ true
unfolding is_digit
is_digit_complete c h = ground arith

-- What ends a run of digits.
abbrev Stops : List ℕ → Type 0
Stops [] = Unit
Stops (c ∷ _) = is_digit c ≡ false

decimal-le : (v : ℕ) (ds : List ℕ) → v ≤ decimal v ds
decimal-le v [] = omega arith
decimal-le v (c ∷ ds) = omega (arith, decimal-le (v * 10 + (c - b'0')) ds)

read_digits_complete :
    (v n : ℕ) (ds tail : List ℕ)
    → All IsDigit ds
    → n + length ds ≤ 3
    → decimal v ds ≤ 255
    → Stops tail
    → read_digits v n (ds ++ tail) ≡ some (decimal v ds, tail)
unfolding read_digits
read_digits_complete v n [] [] h k m s = refl
read_digits_complete v n [] (c ∷ tail) h k m s = rw s refl
read_digits_complete v n (c ∷ ds) tail h k m s =
    let w = v * 10 + (c - b'0') in
    let few : ltb 3 (n + 1) ≡ false = ground arith in
    let low : ltb 255 w ≡ false = ground (arith, decimal-le w ds) in
    rw (is_digit_complete c h.0, few, low)
      (read_digits_complete w (n + 1) ds tail h.1 (omega arith) m s)

abbrev Digits : ℕ → ℕ → List ℕ → ℕ → List ℕ → Type 0
Digits v n cs w rest =
    (ds : List ℕ) × All IsDigit ds
    × (n + length ds ≤ 3)
    × (w ≡ decimal v ds)
    × (w ≤ 255)
    × (cs ≡ ds ++ rest)

read_digits_step :
    (v n c : ℕ) (cs : List ℕ) {out : ℕ × List ℕ}
    → is_digit c ≡ true
    → read_digits v n (c ∷ cs) ≡ some out
    → (n + 1 ≤ 3)
      × (v * 10 + (c - b'0') ≤ 255)
      × (read_digits (v * 10 + (c - b'0')) (n + 1) cs ≡ some out)
unfolding read_digits
read_digits_step v n c cs dig e =
    let v' = v * 10 + (c - b'0') in
    elim (Bool-cases (ltb 3 (n + 1) || ltb 255 v')) [
      | inl bad ↦ absurd (ground (arith, dig, bad))
      | inr good ↦ (ground arith, ground arith, cc (e, dig, good))
    ]

read_digits_sound :
    (v n : ℕ) (cs : List ℕ) (w : ℕ) (rest : List ℕ)
    → v ≤ 255
    → n ≤ 3
    → read_digits v n cs ≡ some (w, rest)
    → Digits v n cs w rest
unfolding read_digits
read_digits_sound v n [] w rest h k e = ([], tt, omega arith, cc e, ground arith, cc e)
read_digits_sound v n (c ∷ cs) w rest h k e = elim (Bool-cases (is_digit c)) [
  | inr other ↦
      ([], tt, omega arith, ground (arith, other), ground (arith, other), ground (arith, other))
  | inl dig ↦
      let (n3, low, e') = read_digits_step v n c cs dig e in
      let (ds, hd, hn, hw, hs, ht) =
        read_digits_sound (v * 10 + (c - b'0')) (n + 1) cs w rest low n3 e' in
      (c ∷ ds, (is_digit_sound c dig, hd), omega arith, hw, hs, ap (λ l. c ∷ l) ht)
]

read_octet_complete :
    (ds tail : List ℕ) (v : ℕ)
    → IsOctet ds v
    → Stops tail
    → read_octet (ds ++ tail) ≡ some (v, tail)
unfolding read_octet
read_octet_complete [] tail v o s = absurd (omega (arith, o.some_digit))
read_octet_complete (c ∷ ds) tail v o s =
    rw (is_digit_complete c o.digits.0, o.value)
      (read_digits_complete 0 0 (c ∷ ds) tail o.digits (omega (arith, o.short))
        (omega (arith, o.small, o.value)) s)

read_octet_sound :
    (cs : List ℕ) (v : ℕ) (rest : List ℕ)
    → read_octet cs ≡ some (v, rest)
    → (ds : List ℕ) × IsOctet ds v × (cs ≡ ds ++ rest)
unfolding read_octet
read_octet_sound [] v rest e = absurd (ground arith)
read_octet_sound (c ∷ cs) v rest e = elim (Bool-cases (is_digit c)) [
  | inr other ↦ absurd (ground arith)
  | inl dig ↦
      let (n3, low, e') = read_digits_step 0 0 c cs dig (cc (e, dig)) in
      let (ds, hd, hn, hw, hs, ht) =
        read_digits_sound (0 * 10 + (c - b'0')) (0 + 1) cs v rest low n3 e' in
      (
        c ∷ ds,
        record {
          digits = (is_digit_sound c dig, hd);
          some_digit = omega arith;
          short = omega arith;
          value = hw;
          small = hs;
        },
        ap (λ l. c ∷ l) ht,
      )
]

skip_dot_inv : (cs rest : List ℕ) → skip_dot cs ≡ some rest → cs ≡ b'.' ∷ rest
unfolding skip_dot
skip_dot_inv [] rest e = absurd (ground arith)
skip_dot_inv (c ∷ cs) rest e = ground arith

at_end_inv : (addr : ℕ) (cs : List ℕ) (a : ℕ) → at_end addr cs ≡ some a → (cs ≡ []) × (a ≡ addr)
unfolding at_end
at_end_inv addr [] a e = (refl, ground arith)
at_end_inv addr (c ∷ cs) a e = absurd (ground arith)

last_octet : (ds : List ℕ) (v : ℕ) → IsOctet ds v → read_octet ds ≡ some (v, [])
last_octet ds v o = ap read_octet (sym (append-nil ds)) ∙ read_octet_complete ds [] v o tt

parse_ipv4_sound : (host : List ℕ) (addr : ℕ) → parse_ipv4 host ≡ some addr → IsQuad host addr
unfolding parse_ipv4
parse_ipv4_sound host addr e =
    let ((va, p1), e1, k1) = bind_inv _ _ e in
    let (q1, f1, l1) = bind_inv _ _ k1 in
    let ((vb, p2), e2, k2) = bind_inv _ _ l1 in
    let (q2, f2, l2) = bind_inv _ _ k2 in
    let ((vc, p3), e3, k3) = bind_inv _ _ l2 in
    let (q3, f3, l3) = bind_inv _ _ k3 in
    let ((vd, p4), e4, k4) = bind_inv _ _ l3 in
    let (a, oa, ta) = read_octet_sound host va p1 e1 in
    let (b, ob, tb) = read_octet_sound q1 vb p2 e2 in
    let (c, oc, tc) = read_octet_sound q2 vc p3 e3 in
    let (d, od, td) = read_octet_sound q3 vd p4 e4 in
    let (end, ha) = at_end_inv _ p4 addr k4 in
    let d_text : q3 ≡ d = td ∙ ap (λ l. d ++ l) end ∙ append-nil d in
    let c_text : q2 ≡ c ++ (b'.' ∷ d) =
      tc ∙ ap (λ l. c ++ l) (skip_dot_inv p3 q3 f3 ∙ ap (λ l. b'.' ∷ l) d_text) in
    let b_text : q1 ≡ b ++ (b'.' ∷ (c ++ (b'.' ∷ d))) =
      tb ∙ ap (λ l. b ++ l) (skip_dot_inv p2 q2 f2 ∙ ap (λ l. b'.' ∷ l) c_text) in
    record {
      a = a;
      b = b;
      c = c;
      d = d;
      va = va;
      vb = vb;
      vc = vc;
      vd = vd;
      octet_a = oa;
      octet_b = ob;
      octet_c = oc;
      octet_d = od;
      text = ta ∙ ap (λ l. a ++ l) (skip_dot_inv p1 q1 f1 ∙ ap (λ l. b'.' ∷ l) b_text);
      address = ha;
    }

parse_ipv4_complete : (host : List ℕ) (addr : ℕ) → IsQuad host addr → parse_ipv4 host ≡ some addr
unfolding parse_ipv4 skip_dot at_end is_digit
parse_ipv4_complete host addr q =
    rw
      (
        q.text,
        q.address,
        read_octet_complete q.a (b'.' ∷ (q.b ++ (b'.' ∷ (q.c ++ (b'.' ∷ q.d))))) q.va q.octet_a
            refl,
        read_octet_complete q.b (b'.' ∷ (q.c ++ (b'.' ∷ q.d))) q.vb q.octet_b refl,
        read_octet_complete q.c (b'.' ∷ q.d) q.vc q.octet_c refl,
        last_octet q.d q.vd q.octet_d,
      )
      refl

-- The parser accepts a host name exactly if it is a dotted quad: four numbers of one to three
-- decimal digits and at most 255, with one dot between them and nothing before or behind. It
-- returns their packed value.
pub parse_ipv4_iff : (host : List ℕ) (addr : ℕ) → (parse_ipv4 host ≡ some addr) ↔ IsQuad host addr
parse_ipv4_iff host addr = (parse_ipv4_sound host addr, parse_ipv4_complete host addr)
