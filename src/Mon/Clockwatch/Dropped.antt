-- ===== src/Mon/Clockwatch/Dropped.antt =====
-- The socket filter of internal/mon/clockwatch.go and `handleFrame` agree on the frames of interest.
use stageneth.Prelude.{
  ℕ, zero, suc, ◌+◌, ◌*◌, ◌%◌, Bool, true, false, ◌&&◌, List, [], ◌∷◌, if◌then◌else◌, ltb, ◌==◌,
  length, drop, ◌≡◌, refl, sym, ◌∙◌, arith, Bool-cases, inl, inr, length-drop, ap,
}
use stageneth.Mon.Ptp.{byte_at, uint16_at}
use stageneth.Mon.Clockwatch.{
  eth_p_ptp, eth_p_ip, RateOps, DomainStats, handle_frame, handle_ether, handle_udp, tagged, ihl,
  no_datagram, no_header, no_group, no_port, bytes_between, hex_bytes,
}
use stageneth.Mon.Clockwatch.Filter.{
  ptp_bpf, regs, Machine, verdict, ptp_datagram, ptp_frame, ptp_bpf-ptp_frame,
}

byte_at-drop : (i n : ℕ) (b : List ℕ) → byte_at i (drop n b) ≡ byte_at (n + i) b
byte_at-drop i zero b = ap (λ j. byte_at j b) (omega arith)
byte_at-drop i (suc n) [] = refl
byte_at-drop i (suc n) (c ∷ b) =
    let next : suc (n + i) ≡ suc n + i = omega arith in
    byte_at-drop i n b ∙ ap (λ j. byte_at j (c ∷ b)) next

uint16_at-drop : (i n : ℕ) (b : List ℕ) → uint16_at i (drop n b) ≡ uint16_at (n + i) b
uint16_at-drop i n b =
    let next : n + suc i ≡ suc (n + i) = omega arith in
    rw (byte_at-drop i n b, byte_at-drop (suc i) n b, next) refl

-- a chain of early returns
return_or :
    {A : Type 0} (c : Bool) (st other : A)
    → (c ≡ false → other ≡ st)
    → (if c then st else other) ≡ st
return_or true st other h = refl
return_or false st other h = h refl

-- what the filter drops, `handleUDP` leaves
handle_udp-dropped :
    (ops : RateOps) (b : List ℕ) (n now : ℕ) (st : DomainStats)
    → ptp_datagram n b ≡ false
    → handle_udp ops (drop n b) now st ≡ st
unfolding handle_udp
handle_udp-dropped ops b n now st h =
    let ip = drop n b in
    return_or (no_datagram ip) st _ λ short. return_or (no_header ip) st _ λ cut.
      return_or (no_group ip) st _ λ group. return_or (no_port ip) st _ λ ports.
        let start : byte_at 0 ip ≡ byte_at n b =
          byte_at-drop 0 n b ∙ ap (λ j. byte_at j b) (omega arith) in
        let proto : byte_at 9 ip ≡ byte_at (n + 9) b = byte_at-drop 9 n b in
        let at_port : n + (ihl ip + 2) ≡ byte_at n b % 16 * 4 + (n + 2) = omega (arith, start) in
        let port : uint16_at (ihl ip + 2) ip ≡ uint16_at (byte_at n b % 16 * 4 + (n + 2)) b =
          uint16_at-drop (ihl ip + 2) n b ∙ ap (λ j. uint16_at j b) at_port in
        let no : ⊥ = ground (arith, h, short, cut, ports, start, proto, port, length-drop n b) in
        elim no [ ]

handle_ether-dropped :
    (ops : RateOps) (et n : ℕ) (b src : List ℕ) (now : ℕ) (st : DomainStats)
    → (if et == eth_p_ptp then true else et == eth_p_ip && ptp_datagram n b) ≡ false
    → handle_ether ops et (drop n b) src now st ≡ st
handle_ether-dropped ops et n b src now st h = elim (Bool-cases (et == eth_p_ptp)) [
  | inl e ↦ let no : ⊥ = ground (arith, h, e) in elim no [ ]
  | inr e ↦ elim (Bool-cases (et == eth_p_ip)) [
    | inl ip ↦ rw (e, ip) (handle_udp-dropped ops b n now st (rw (e, ip) at h))
    | inr other ↦ rw (e, other) refl
  ]
]

verdict-zero : (v : Bool) → verdict v ≡ 0 → v ≡ false
verdict-zero v h = ground (arith, h)

-- A frame that the attached filter drops would not have changed what the observer knows: on any machine
-- that runs the program as documented, the filter keeps nothing from the parsers that they look at.
pub handle_frame-ptp_bpf :
    (m : Machine) (ops : RateOps) (b : List ℕ) (now : ℕ) (st : DomainStats)
    → m.exec ptp_bpf b (regs 0 0 0) ≡ 0
    → handle_frame ops b now st ≡ st
unfolding handle_frame ptp_frame
handle_frame-ptp_bpf m ops b now st h =
    let et = uint16_at 12 b in
    let inner = uint16_at 16 b in
    let src = hex_bytes (bytes_between 6 12 b) in
    let none_passes : ptp_frame b ≡ false =
      verdict-zero (ptp_frame b) (sym (ptp_bpf-ptp_frame m b) ∙ h) in
    return_or (ltb (length b) 14) st _ λ short. elim (Bool-cases (tagged b)) [
      | inl tag ↦
          rw tag (
            handle_ether-dropped ops inner 18 b src now st
              (ground (arith, none_passes, short, tag)))
      | inr plain ↦
          rw plain (
            handle_ether-dropped ops et 14 b src now st (ground (arith, none_passes, short, plain)))
    ]
