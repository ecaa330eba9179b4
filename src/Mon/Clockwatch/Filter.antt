-- ===== src/Mon/Clockwatch/Filter.antt =====
-- The socket filter of internal/mon/clockwatch.go. The machine of the kernel that runs such a filter is an
-- interface: what it does on each of the instructions that the program uses.
use stageneth.Prelude.{
  ℕ, ◌+◌, ◌*◌, ◌%◌, ◌-◌, suc, Bool, true, false, ◌&&◌, ◌||◌, List, [], ◌∷◌, some, if◌then◌else◌,
  leb, ◌==◌, length, get_elem?, ◌≡◌, refl, ◌∙◌, arith, Bool-cases, inl, inr, ap,
}
use stageneth.Mon.Ptp.{byte_at, uint16_at}
use stageneth.Mon.Clockwatch.{eth_p_ptp, eth_p_ip, eth_p_vlan, eth_p_qinq}

-- `syscall.SockFilter`
pub record SockFilter : Type 0 where
  pub code : ℕ
  pub jt : ℕ
  pub jf : ℕ
  pub k : ℕ

-- the closure `f` of `ptpBPF`
abbrev pub f : ℕ → ℕ → ℕ → ℕ → SockFilter
f code jt jf k = record { code = code; jt = jt; jf = jf; k = k }

abbrev pub ldh_abs : ℕ
ldh_abs = 0x28

abbrev pub ldb_abs : ℕ
ldb_abs = 0x30

abbrev pub ldh_ind : ℕ
ldh_ind = 0x48

abbrev pub ldx_msh : ℕ
ldx_msh = 0xb1

abbrev pub jeq : ℕ
jeq = 0x15

abbrev pub ret_k : ℕ
ret_k = 0x06

abbrev pub drop_at : ℕ
drop_at = 20

abbrev pub accept_at : ℕ
accept_at = 21

-- `ptpBPF`
abbrev pub ptp_bpf : List SockFilter
ptp_bpf =
    f ldh_abs 0 0 12
    ∷ f jeq (accept_at - 2) 0 eth_p_ptp
    ∷ f jeq 2 0 eth_p_vlan
    ∷ f jeq 1 0 eth_p_qinq
    ∷ f jeq 3 (drop_at - 5) eth_p_ip
    ∷ f ldh_abs 0 0 16
    ∷ f jeq (accept_at - 7) 0 eth_p_ptp
    ∷ f jeq 6 (drop_at - 8) eth_p_ip
    ∷ f ldb_abs 0 0 23
    ∷ f jeq 0 (drop_at - 10) 17
    ∷ f ldx_msh 0 0 14
    ∷ f ldh_ind 0 0 16
    ∷ f jeq (accept_at - 13) 0 319
    ∷ f jeq (accept_at - 14) (drop_at - 14) 320
    ∷ f ldb_abs 0 0 27
    ∷ f jeq 0 (drop_at - 16) 17
    ∷ f ldx_msh 0 0 18
    ∷ f ldh_ind 0 0 20
    ∷ f jeq (accept_at - 19) 0 319
    ∷ f jeq (accept_at - 20) (drop_at - 20) 320
    ∷ f ret_k 0 0 0
    ∷ f ret_k 0 0 0xffff
    ∷ []

-- The state that an instruction finds: the program counter, the accumulator and the index register.
pub record Registers : Type 0 where
  pub pc : ℕ
  pub a : ℕ
  pub x : ℕ

abbrev pub regs : ℕ → ℕ → ℕ → Registers
regs pc a x = record { pc = pc; a = a; x = x }

-- The classic BPF machine: how many bytes of a frame pass, from some registers on, and the documented
-- behaviour of six instructions. A load outside the frame drops it; a jump is relative to the next
-- instruction.
pub record Machine : Type 0 where
  pub exec : List SockFilter → List ℕ → Registers → ℕ
  pub load_half :
      (prog : List SockFilter) (b : List ℕ) (pc a x t e k : ℕ)
      → get_elem? prog pc ≡ some (f ldh_abs t e k)
      → exec prog b (regs pc a x)
        ≡ (if leb (k + 2) (length b) then exec prog b (regs (suc pc) (uint16_at k b) x) else 0)
  pub load_byte :
      (prog : List SockFilter) (b : List ℕ) (pc a x t e k : ℕ)
      → get_elem? prog pc ≡ some (f ldb_abs t e k)
      → exec prog b (regs pc a x)
        ≡ (if leb (k + 1) (length b) then exec prog b (regs (suc pc) (byte_at k b) x) else 0)
  pub load_indexed :
      (prog : List SockFilter) (b : List ℕ) (pc a x t e k : ℕ)
      → get_elem? prog pc ≡ some (f ldh_ind t e k)
      → exec prog b (regs pc a x) ≡ (
          if leb (x + k + 2) (length b)
          then exec prog b (regs (suc pc) (uint16_at (x + k) b) x)
          else 0)
  pub load_header :
      (prog : List SockFilter) (b : List ℕ) (pc a x t e k : ℕ)
      → get_elem? prog pc ≡ some (f ldx_msh t e k)
      → exec prog b (regs pc a x) ≡ (
          if leb (k + 1) (length b)
          then exec prog b (regs (suc pc) a (byte_at k b % 16 * 4))
          else 0)
  pub jump_equal :
      (prog : List SockFilter) (b : List ℕ) (pc a x t e k : ℕ)
      → get_elem? prog pc ≡ some (f jeq t e k)
      → exec prog b (regs pc a x) ≡ exec prog b (regs (suc pc + (if a == k then t else e)) a x)
  pub return_constant :
      (prog : List SockFilter) (b : List ℕ) (pc a x t e k : ℕ)
      → get_elem? prog pc ≡ some (f ret_k t e k)
      → exec prog b (regs pc a x) ≡ k

-- `0xffff` bytes pass or none
abbrev pub verdict : Bool → ℕ
verdict b = if b then 0xffff else 0

-- A UDP datagram to port 319 or 320 whose IP header is at this place of the frame.
abbrev pub ptp_datagram : ℕ → List ℕ → Bool
ptp_datagram at b =
    let port_at = byte_at at b % 16 * 4 + (at + 2) in
    leb (at + 10) (length b)
    && (byte_at (at + 9) b == 17
        && (leb (at + 1) (length b)
            && (leb (port_at + 2) (length b)
                && (uint16_at port_at b == 319 || uint16_at port_at b == 320))))

-- A frame of the observed protocols: PTP, or such a datagram, behind one tag at most.
unfoldable pub ptp_frame : List ℕ → Bool
ptp_frame b =
    let et = uint16_at 12 b in
    leb 14 (length b)
    && (if et == eth_p_ptp
        then true
        else if et == eth_p_vlan || et == eth_p_qinq
        then leb 18 (length b)
          && (if uint16_at 16 b == eth_p_ptp
              then true
              else uint16_at 16 b == eth_p_ip && ptp_datagram 18 b)
        else et == eth_p_ip && ptp_datagram 14 b)

verdict-&& : (c v : Bool) (n : ℕ) → n ≡ verdict v → (if c then n else 0) ≡ verdict (c && v)
verdict-&& true v n h = h
verdict-&& false v n h = refl

if-&& : (c v : Bool) → (if c then v else false) ≡ (c && v)
if-&& c v = ground arith

module _ (m : Machine) (b : List ℕ) where
  abbrev from : ℕ → ℕ → ℕ → ℕ
  from pc a x = m.exec ptp_bpf b (regs pc a x)

  to_drop : (a x : ℕ) → from 20 a x ≡ 0
  to_drop a x = m.return_constant ptp_bpf b 20 a x 0 0 0 refl

  to_accept : (a x : ℕ) → from 21 a x ≡ 0xffff
  to_accept a x = m.return_constant ptp_bpf b 21 a x 0 0 0xffff refl

  branch :
      (c : Bool) (a x target other : ℕ) (v w : Bool)
      → from target a x ≡ verdict v
      → from other a x ≡ verdict w
      → from (if c then target else other) a x ≡ verdict (if c then v else w)
  branch true a x target other v w h k = h
  branch false a x target other v w h k = k

  -- a jump to one place or another
  jump :
      (pc a x t e k : ℕ) (v w : Bool)
      → get_elem? ptp_bpf pc ≡ some (f jeq t e k)
      → from (suc pc + t) a x ≡ verdict v
      → from (suc pc + e) a x ≡ verdict w
      → from pc a x ≡ verdict (if a == k then v else w)
  jump pc a x t e k v w at_pc h i =
      m.jump_equal ptp_bpf b pc a x t e k at_pc
      ∙ elim (Bool-cases (a == k)) [ inl same ↦ rw same h | inr other ↦ rw other i ]

  ports :
      (pc a x t u e : ℕ)
      → get_elem? ptp_bpf pc ≡ some (f jeq t 0 319)
      → get_elem? ptp_bpf (suc pc) ≡ some (f jeq u e 320)
      → suc pc + t ≡ 21
      → suc (suc pc) + u ≡ 21
      → suc (suc pc) + e ≡ 20
      → from pc a x ≡ verdict (a == 319 || a == 320)
  ports pc a x t u e first_at second_at t_eq u_eq e_eq =
      let second : from (suc pc) a x ≡ verdict (a == 320) =
        jump (suc pc) a x u e 320 true false second_at (rw u_eq (to_accept a x))
          (rw e_eq (to_drop a x))
        ∙ ground arith in
      let same : suc pc + 0 ≡ suc pc = omega arith in
      jump pc a x t 0 319 true (a == 320) first_at (rw t_eq (to_accept a x)) (rw same second)
      ∙ ground arith

  -- the six instructions for a datagram, from this place of the program on
  datagram :
      (at pc a x : ℕ) (e t u v : ℕ)
      → get_elem? ptp_bpf pc ≡ some (f ldb_abs 0 0 (at + 9))
      → get_elem? ptp_bpf (suc pc) ≡ some (f jeq 0 e 17)
      → get_elem? ptp_bpf (suc (suc pc)) ≡ some (f ldx_msh 0 0 at)
      → get_elem? ptp_bpf (suc (suc (suc pc))) ≡ some (f ldh_ind 0 0 (at + 2))
      → get_elem? ptp_bpf (suc (suc (suc (suc pc)))) ≡ some (f jeq t 0 319)
      → get_elem? ptp_bpf (suc (suc (suc (suc (suc pc))))) ≡ some (f jeq u v 320)
      → (suc (suc pc)) + e ≡ 20
      → (suc (suc (suc (suc (suc pc))))) + t ≡ 21
      → (suc (suc (suc (suc (suc (suc pc)))))) + u ≡ 21
      → (suc (suc (suc (suc (suc (suc pc)))))) + v ≡ 20
      → from pc a x ≡ verdict (ptp_datagram at b)
  datagram at pc a x e t u v i0 i1 i2 i3 i4 i5 e_eq t_eq u_eq v_eq =
      let ip_len = byte_at at b % 16 * 4 in
      let port = uint16_at (ip_len + (at + 2)) b in
      let last = ports (suc (suc (suc (suc pc)))) port ip_len t u v i4 i5 t_eq u_eq v_eq in
      let proto = byte_at (at + 9) b in
      let indexed =
        m.load_indexed ptp_bpf b (suc (suc (suc pc))) proto ip_len 0 0 (at + 2) i3
        ∙ verdict-&& (leb (ip_len + (at + 2) + 2) (length b)) (port == 319 || port == 320) _ last in
      let header =
        m.load_header ptp_bpf b (suc (suc pc)) proto x 0 0 at i2
        ∙ verdict-&& (leb (at + 1) (length b)) _ _ indexed in
      let same : (suc (suc pc)) + 0 ≡ suc (suc pc) = omega arith in
      let behind =
        leb (at + 1) (length b)
        && (leb (ip_len + (at + 2) + 2) (length b) && (port == 319 || port == 320)) in
      let udp =
        jump (suc pc) proto x 0 e 17 behind false i1 (rw same header) (rw e_eq (to_drop proto x)) in
      let udp_only : (if proto == 17 then behind else false) ≡ (proto == 17 && behind) =
        if-&& (proto == 17) behind in
      let bytes : at + 9 + 1 ≡ at + 10 = omega arith in
      m.load_byte ptp_bpf b pc a x 0 0 (at + 9) i0
      ∙ rw bytes (
          verdict-&& (leb (at + 10) (length b)) (proto == 17 && behind) _
            (udp ∙ ap verdict udp_only))

  -- The verdict of the program, from its start.
  pub ptp_bpf-ptp_frame : from 0 0 0 ≡ verdict (ptp_frame b)
  unfolding ptp_frame
  ptp_bpf-ptp_frame =
      let et = uint16_at 12 b in
      let inner = uint16_at 16 b in
      let plain = datagram 14 8 et 0 10 8 7 6 refl refl refl refl refl refl refl refl refl refl in
      let behind_tag =
        datagram 18 14 inner 0 4 2 1 0 refl refl refl refl refl refl refl refl refl refl in
      let inner_ip = jump 7 inner 0 6 12 eth_p_ip _ false refl behind_tag (to_drop inner 0) in
      let inner_type = jump 6 inner 0 14 0 eth_p_ptp true _ refl (to_accept inner 0) inner_ip in
      let tag =
        m.load_half ptp_bpf b 5 et 0 0 0 16 refl ∙ verdict-&& (leb 18 (length b)) _ _ inner_type in
      let ip = jump 4 et 0 3 15 eth_p_ip _ false refl plain (to_drop et 0) in
      let qinq = jump 3 et 0 1 0 eth_p_qinq _ _ refl tag ip in
      let vlan = jump 2 et 0 2 0 eth_p_vlan _ _ refl tag qinq in
      let ptp = jump 1 et 0 19 0 eth_p_ptp true _ refl (to_accept et 0) vlan in
      m.load_half ptp_bpf b 0 0 0 0 0 12 refl
      ∙ verdict-&& (leb 14 (length b)) _ _ ptp
      ∙ ground arith
