-- ===== src/Mon/Clockwatch.antt =====
-- internal/mon/clockwatch.go: the passive observer of the clock protocols. A frame is a list of bytes, a
-- time a number of nanoseconds that does not go back, and `none` is the zero time. A floating-point
-- number is its 64 bits, on which the operations are arguments. The sockets are not modelled.
pub mod Filter
pub mod Dropped
pub mod Tally
pub mod Observers
use stageneth.Prelude.{
  ℕ, ◌+◌, ◌-◌, ◌*◌, ◌/◌, ◌%◌, Bool, true, false, not, ◌&&◌, ◌||◌, List, [], ◌∷◌, Option, none, some,
  Text, lit, equal, is_empty, if◌then◌else◌, ltb, leb, ◌==◌, length, take, drop, itoa, join, map,
  Dict, lookup, insert,
}
use stageneth.Mon.Ptp.{byte_at, uint16_at}

-- the constants `ethPPTP`, `ethPIP`, `ethPVLAN` and `ethPQINQ`
abbrev pub eth_p_ptp : ℕ
eth_p_ptp = 0x88f7

abbrev pub eth_p_ip : ℕ
eth_p_ip = 0x0800

abbrev pub eth_p_vlan : ℕ
eth_p_vlan = 0x8100

abbrev pub eth_p_qinq : ℕ
eth_p_qinq = 0x88a8

-- The operations of the rate: one over a gap, the test for zero, and the smoothing.
pub record RateOps : Type 0 where
  pub per_second : ℕ → ℕ
  pub is_zero : ℕ → Bool
  pub smooth : ℕ → ℕ → ℕ

-- `protoObs`; `none` is -1 in `domain` and `steps`
pub record ProtoObs : Type 0 where
  pub seen : Bool
  pub first_seen : Option ℕ
  pub last_seen : Option ℕ
  pub count : ℕ
  pub last_src : Text
  pub gm : Text
  pub domain : Option ℕ
  pub subdomain : Text
  pub steps : Option ℕ
  pub last_seq : ℕ
  pub sync_hz : ℕ
  pub last_sync : Option ℕ
  pub types : Dict ℕ

-- the zero value of the struct
abbrev pub no_obs : ProtoObs
no_obs = record {
  seen = false;
  first_seen = none;
  last_seen = none;
  count = 0;
  last_src = [];
  gm = [];
  domain = some 0;
  subdomain = [];
  steps = some 0;
  last_seq = 0;
  sync_hz = 0;
  last_sync = none;
  types = [];
}

-- an addition to an `uint64`
abbrev pub next_count : ℕ → ℕ
next_count n = (n + 1) % 18446744073709551616

abbrev pub or_zero : Option ℕ → ℕ
or_zero none = 0
or_zero (some n) = n

-- the rate after a sync at `now`
abbrev pub smoothed : RateOps → ℕ → Option ℕ → ℕ → ℕ
smoothed ops now none hz = hz
smoothed ops now (some before) hz =
    let dt = now - before in
    if ltb 100000000 dt && ltb dt 60000000000
    then (if ops.is_zero hz then ops.per_second dt else ops.smooth hz (ops.per_second dt))
    else hz

-- `bump`, where nothing was seen before
abbrev pub first_time : ℕ → ProtoObs → ProtoObs
first_time now p =
    if p.seen
    then p
    else record p { first_seen = some now; domain = none; steps = none; types = [] }

abbrev pub synced : RateOps → Text → ℕ → ProtoObs → ProtoObs
synced ops msg_type now p =
    if equal msg_type (lit "sync") || equal msg_type (lit "follow_up")
    then record p { sync_hz = smoothed ops now p.last_sync p.sync_hz; last_sync = some now }
    else p

-- `bump`
unfoldable pub bump : RateOps → Text → Text → ℕ → ℕ → ProtoObs → ProtoObs
bump ops msg_type src seq now p =
    let q = first_time now p in
    synced ops msg_type now (record q {
      seen = true;
      last_seen = some now;
      count = next_count q.count;
      last_src = src;
      last_seq = seq;
      types = insert msg_type (next_count (or_zero (lookup msg_type q.types))) q.types;
    })

-- `domainStats`
pub record DomainStats : Type 0 where
  pub v1 : ProtoObs
  pub v2 : ProtoObs
  pub v2_l2 : ProtoObs
  pub gptp : ProtoObs

-- `v1MsgTypes` and `v1MsgTypeName`
unfoldable pub v1_msg_type_name : ℕ → Text
v1_msg_type_name t =
    if t == 0
    then lit "sync"
    else if t == 1
    then lit "delay_req"
    else if t == 2
    then lit "follow_up"
    else if t == 3
    then lit "delay_resp"
    else if t == 4
    then lit "management"
    else lit "other"

-- `v2MsgTypes` and `v2MsgTypeName`
unfoldable pub v2_msg_type_name : ℕ → Text
v2_msg_type_name t =
    if t == 0
    then lit "sync"
    else if t == 1
    then lit "delay_req"
    else if t == 2
    then lit "pdelay_req"
    else if t == 3
    then lit "pdelay_resp"
    else if t == 8
    then lit "follow_up"
    else if t == 9
    then lit "delay_resp"
    else if t == 10
    then lit "pdelay_resp_follow_up"
    else if t == 11
    then lit "announce"
    else if t == 12
    then lit "signaling"
    else if t == 13
    then lit "management"
    else lit "other"

-- `b[first:last]`
abbrev pub bytes_between : ℕ → ℕ → List ℕ → List ℕ
bytes_between start end b = take (end - start) (drop start b)

abbrev hex_digit : ℕ → ℕ
hex_digit d = if ltb d 10 then b'0' + d else 87 + d

-- `hexBytes`
unfoldable pub hex_bytes : List ℕ → Text
hex_bytes [] = []
hex_bytes (c ∷ []) = hex_digit (c / 16) ∷ hex_digit (c % 16) ∷ []
hex_bytes (c ∷ d ∷ b) = hex_digit (c / 16) ∷ hex_digit (c % 16) ∷ b':' ∷ hex_bytes (d ∷ b)

-- `net.IP.String` of four bytes
unfoldable pub dotted : List ℕ → Text
dotted b = join (lit ".") (map itoa b)

-- `strings.TrimRight(s, "\x00 ")`
unfoldable pub trim_subdomain : List ℕ → Text
trim_subdomain [] = []
trim_subdomain (c ∷ b) =
    let rest = trim_subdomain b in if is_empty rest && (c == 0 || c == b' ') then [] else c ∷ rest

-- the switch of `parseV2` on the message type
abbrev pub identified : ℕ → List ℕ → ProtoObs → ProtoObs
identified msg_type p obs =
    if leb msg_type 3 || msg_type == 8
    then (if is_empty obs.gm then record obs { gm = hex_bytes (bytes_between 20 28 p) } else obs)
    else if msg_type == 11 && leb 64 (length p)
    then record obs { gm = hex_bytes (bytes_between 53 61 p); steps = some (uint16_at 61 p) }
    else obs

-- `parseV2`, on the bucket that it updates
unfoldable pub parse_v2 : RateOps → List ℕ → Text → ℕ → ProtoObs → ProtoObs
unfolding bump v2_msg_type_name
parse_v2 ops p src now obs =
    let msg_type = byte_at 0 p % 16 in
    let bumped = bump ops (v2_msg_type_name msg_type) src (uint16_at 30 p) now obs in
    identified msg_type p (record bumped { domain = some (byte_at 4 p) })

abbrev pub with_uuid : List ℕ → ProtoObs → ProtoObs
with_uuid p obs =
    if byte_at 20 p == 0 || byte_at 20 p == 2
    then record obs { gm = hex_bytes (bytes_between 22 28 p) }
    else obs

-- `parseV1`, on the bucket `V1`
unfoldable pub parse_v1 : RateOps → List ℕ → Text → ℕ → ProtoObs → ProtoObs
unfolding bump v1_msg_type_name trim_subdomain
parse_v1 ops p src now obs =
    if ltb (length p) 34
    then obs
    else (let bumped = bump ops (v1_msg_type_name (byte_at 20 p)) src (uint16_at 30 p) now obs in
        with_uuid p (record bumped { subdomain = trim_subdomain (bytes_between 4 20 p) }))

-- `handlePTPL2`
unfoldable pub handle_ptp_l2 : RateOps → List ℕ → Text → ℕ → DomainStats → DomainStats
handle_ptp_l2 ops p src now st =
    if ltb (length p) 34 || not (byte_at 1 p % 16 == 2)
    then st
    else if byte_at 0 p / 16 == 1
    then record st { gptp = parse_v2 ops p src now st.gptp }
    else record st { v2_l2 = parse_v2 ops p src now st.v2_l2 }

-- `handleUDP`, behind the tests of the headers
abbrev pub handle_payload : RateOps → List ℕ → Text → ℕ → DomainStats → DomainStats
handle_payload ops payload src now st =
    if ltb (length payload) 34
    then st
    else if uint16_at 0 payload == 1
    then record st { v1 = parse_v1 ops payload src now st.v1 }
    else if not (byte_at 1 payload % 16 == 2)
    then st
    else record st { v2 = parse_v2 ops payload src now st.v2 }

-- the length of the IP header
abbrev pub ihl : List ℕ → ℕ
ihl ip = byte_at 0 ip % 16 * 4

abbrev pub ptp_group : Text → Bool
ptp_group dst = equal dst (lit "224.0.1.129") || equal dst (lit "224.0.0.107")

-- the tests of `handleUDP` that return early
abbrev pub no_datagram : List ℕ → Bool
no_datagram ip = ltb (length ip) 20 || not (byte_at 0 ip / 16 == 4) || not (byte_at 9 ip == 17)

abbrev pub no_header : List ℕ → Bool
no_header ip = ltb (length ip) (ihl ip + 8)

abbrev pub no_group : List ℕ → Bool
no_group ip = not (ptp_group (dotted (bytes_between 16 20 ip)))

abbrev pub no_port : List ℕ → Bool
no_port ip = not (uint16_at (ihl ip + 2) ip == 319) && not (uint16_at (ihl ip + 2) ip == 320)

-- `handleUDP`
unfoldable pub handle_udp : RateOps → List ℕ → ℕ → DomainStats → DomainStats
handle_udp ops ip now st =
    if no_datagram ip
    then st
    else if no_header ip
    then st
    else if no_group ip
    then st
    else if no_port ip
    then st
    else handle_payload ops (drop (ihl ip + 8) ip) (dotted (bytes_between 12 16 ip)) now st

abbrev pub handle_ether : RateOps → ℕ → List ℕ → Text → ℕ → DomainStats → DomainStats
handle_ether ops et b src now st =
    if et == eth_p_ptp
    then handle_ptp_l2 ops b src now st
    else if et == eth_p_ip
    then handle_udp ops b now st
    else st

abbrev pub tagged : List ℕ → Bool
tagged b = (uint16_at 12 b == eth_p_vlan || uint16_at 12 b == eth_p_qinq) && leb 18 (length b)

-- `handleFrame`
unfoldable pub handle_frame : RateOps → List ℕ → ℕ → DomainStats → DomainStats
unfolding handle_ptp_l2 handle_udp
handle_frame ops b now st =
    let src = hex_bytes (bytes_between 6 12 b) in
    if ltb (length b) 14
    then st
    else if tagged b
    then handle_ether ops (uint16_at 16 b) (drop 18 b) src now st
    else handle_ether ops (uint16_at 12 b) (drop 14 b) src now st

-- `htons`
unfoldable pub htons : ℕ → ℕ
htons v = v % 256 * 256 + v / 256 % 256
