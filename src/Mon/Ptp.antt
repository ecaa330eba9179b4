-- ===== src/Mon/Ptp.antt =====
-- internal/mon/ptp.go: the management messages of PTP. A byte is a number below 256, and a buffer a list
-- of bytes. The socket is not modelled, nor are the values as floating-point numbers.
pub mod Replies
use stageneth.Prelude.{
  ℕ, zero, suc, ◌+◌, ◌*◌, ◌/◌, ◌%◌, not, ◌||◌, List, [], ◌∷◌, Option, none, some, Text, lit,
  if◌then◌else◌, ltb, ◌==◌, length, take, drop, replicate,
}

-- `binary.BigEndian.PutUint16`, as the two bytes that it writes
abbrev pub be16 : ℕ → List ℕ
be16 v = (v / 256 % 256) ∷ v % 256 ∷ []

-- `b[i]`; every use is guarded by the length of the buffer
abbrev pub byte_at : ℕ → List ℕ → ℕ
byte_at i [] = 0
byte_at zero (c ∷ b) = c
byte_at (suc i) (c ∷ b) = byte_at i b

-- `binary.BigEndian.Uint16(b[i:i+2])`
abbrev pub uint16_at : ℕ → List ℕ → ℕ
uint16_at i b = byte_at i b * 256 + byte_at (suc i) b

-- writes from position `i` on
abbrev pub write_at : ℕ → List ℕ → List ℕ → List ℕ
write_at zero [] b = b
write_at zero (v ∷ vs) [] = []
write_at zero (v ∷ vs) (c ∷ b) = v ∷ write_at zero vs b
write_at (suc i) vs [] = []
write_at (suc i) vs (c ∷ b) = c ∷ write_at i vs b

-- `buildMgmtGet`
unfoldable pub build_mgmt_get : ℕ → ℕ → List ℕ
build_mgmt_get mid seq =
    let b0 = write_at 0 (0x0d ∷ 0x02 ∷ be16 54) (replicate 54 0) in
    let b1 = write_at 28 (be16 0xffff) (write_at 20 (replicate 8 0xff) b0) in
    let b2 = write_at 32 (4 ∷ []) (write_at 30 (be16 seq) b1) in
    let b3 = write_at 42 (be16 0xffff) (write_at 34 (replicate 8 0xff) b2) in
    let b4 = write_at 46 (0 ∷ []) (write_at 45 (0 ∷ []) (write_at 44 (0 ∷ []) b3)) in
    write_at 52 (be16 mid) (write_at 50 (be16 2) (write_at 48 (be16 1) b4))

-- the results of `parseMgmtResponse`: the dataset, `errShort` or `errProto`
pub data Parsed : Type 0 where
  dataset : List ℕ → Parsed
  short_frame bad_response : Parsed

-- `dataField` and what follows it
unfoldable pub parse_data_field : ℕ → List ℕ → Parsed
parse_data_field mid field =
    if ltb (length field) 2
    then short_frame
    else if uint16_at 0 field == mid
    then dataset (drop 2 field)
    else bad_response

-- `parseMgmtResponse`
unfoldable pub parse_mgmt_response : List ℕ → ℕ → ℕ → Parsed
unfolding parse_data_field
parse_mgmt_response b mid seq =
    if ltb (length b) 54
    then short_frame
    else if not (byte_at 0 b % 16 == 0x0d)
    then bad_response
    else if not (uint16_at 30 b == seq)
    then bad_response
    else if not (byte_at 46 b % 16 == 2)
    then bad_response
    else if not (uint16_at 48 b == 1) || ltb (length b) (52 + uint16_at 50 b)
    then bad_response
    else parse_data_field mid (take (uint16_at 50 b) (drop 52 b))

-- `portStateNames`, `none` for a byte that it does not have
unfoldable pub port_state_names : ℕ → Option Text
port_state_names s =
    if s == 1
    then some (lit "INITIALIZING")
    else if s == 2
    then some (lit "FAULTY")
    else if s == 3
    then some (lit "DISABLED")
    else if s == 4
    then some (lit "LISTENING")
    else if s == 5
    then some (lit "PRE_MASTER")
    else if s == 6
    then some (lit "MASTER")
    else if s == 7
    then some (lit "PASSIVE")
    else if s == 8
    then some (lit "UNCALIBRATED")
    else if s == 9
    then some (lit "SLAVE")
    else none

-- `parsePortDataSet`
unfoldable pub parse_port_data_set : List ℕ → Text
unfolding port_state_names
parse_port_data_set b =
    if ltb (length b) 11
    then lit "unknown"
    else elim (port_state_names (byte_at 10 b)) [ none ↦ lit "unknown" | some s ↦ s ]
