-- ===== src/Mon/Ptp/Replies.antt =====
-- What internal/mon/ptp.go accepts as the response to its request.
use stageneth.Prelude.{
  ℕ, suc, ◌+◌, ◌*◌, ◌/◌, ◌%◌, ◌≤◌, ◌<◌, Bool, true, false, not, ◌||◌, List, [], ◌∷◌, ◌++◌,
  if◌then◌else◌, ltb, ◌==◌, ==_iff, length, take, drop, length-take, length-drop, ◌≡◌, ◌∙◌, refl,
  ap, sym, arith,
}
use stageneth.Mon.Ptp.{
  be16, byte_at, uint16_at, build_mgmt_get, Parsed, dataset, short_frame, bad_response,
  parse_data_field, parse_mgmt_response,
}

choose-dataset :
    (b : Bool) (p : Parsed) (d : List ℕ)
    → (if b then bad_response else p) ≡ dataset d
    → (b ≡ false) × (p ≡ dataset d)
choose-dataset true p d h = cc h
choose-dataset false p d h = (refl, h)

short-dataset :
    (b : Bool) (p : Parsed) (d : List ℕ)
    → (if b then short_frame else p) ≡ dataset d
    → (b ≡ false) × (p ≡ dataset d)
short-dataset true p d h = cc h
short-dataset false p d h = (refl, h)

found-dataset :
    (b : Bool) (e d : List ℕ)
    → (if b then dataset e else bad_response) ≡ dataset d
    → (b ≡ true) × (e ≡ d)
found-dataset true e d h = (refl, cc h)
found-dataset false e d h = cc h

data_field-dataset :
    (mid : ℕ) (field d : List ℕ)
    → parse_data_field mid field ≡ dataset d
    → (uint16_at 0 field ≡ mid) × (2 + length d ≡ length field)
unfolding parse_data_field
data_field-dataset mid field d h =
    let long = short-dataset (ltb (length field) 2) _ d h in
    let found = found-dataset (uint16_at 0 field == mid) (drop 2 field) d long.1 in
    (
      (==_iff (uint16_at 0 field) mid).0 found.0,
      ap (λ l. 2 + length l) (sym found.1) ∙ ground (arith, length-drop 2 field, long.0),
    )

-- A response is accepted only with the sequence number of the request and for the requested dataset, and the
-- bytes of the dataset all lie inside the buffer: no length field makes the parser read behind it.
pub parse_mgmt_response-dataset :
    (b : List ℕ) (mid seq : ℕ) (d : List ℕ)
    → parse_mgmt_response b mid seq ≡ dataset d
    → (uint16_at 30 b ≡ seq)
      × (uint16_at 0 (take (uint16_at 50 b) (drop 52 b)) ≡ mid)
      × (2 + length d ≡ uint16_at 50 b)
      × (54 + length d ≤ length b)
unfolding parse_mgmt_response
parse_mgmt_response-dataset b mid seq d h =
    let a1 = short-dataset (ltb (length b) 54) _ d h in
    let a2 = choose-dataset (not (byte_at 0 b % 16 == 0x0d)) _ d a1.1 in
    let a3 = choose-dataset (not (uint16_at 30 b == seq)) _ d a2.1 in
    let a4 = choose-dataset (not (byte_at 46 b % 16 == 2)) _ d a3.1 in
    let a5 =
      choose-dataset (not (uint16_at 48 b == 1) || ltb (length b) (52 + uint16_at 50 b)) _ d a4.1 in
    let field = take (uint16_at 50 b) (drop 52 b) in
    let inside : 52 + uint16_at 50 b ≤ length b = ground (arith, a5.0) in
    let size : length field ≡ uint16_at 50 b =
      omega (arith, inside, length-take (uint16_at 50 b) (drop 52 b), length-drop 52 b) in
    let got = data_field-dataset mid field d a5.1 in
    (
      ground (arith, a3.0, ==_iff (uint16_at 30 b) seq),
      got.0,
      got.1 ∙ size,
      omega (arith, inside, size, got.1),
    )

-- What the standard leaves to the port that responds: the first nibble, the version, the domain and the other
-- fields of the header, its own identity, and the hops.
pub record Responder : Type 0 where
  pub sdo : ℕ
  pub version : ℕ
  pub header : ℕ → ℕ
  pub identity : ℕ → ℕ
  pub control : ℕ
  pub interval : ℕ
  pub starting_hops : ℕ
  pub hops : ℕ

-- the ten bytes of a port identity
abbrev ten : (ℕ → ℕ) → List ℕ
ten f = f 0 ∷ f 1 ∷ f 2 ∷ f 3 ∷ f 4 ∷ f 5 ∷ f 6 ∷ f 7 ∷ f 8 ∷ f 9 ∷ []

-- the bytes 4 to 19 of the header
abbrev sixteen : (ℕ → ℕ) → List ℕ
sixteen f = ten f ++ f 10 ∷ f 11 ∷ f 12 ∷ f 13 ∷ f 14 ∷ f 15 ∷ []

-- the TLV of a response, with the identifier of the request
abbrev tlv_of : List ℕ → List ℕ → List ℕ
tlv_of request d = be16 1 ++ (be16 (2 + length d) ++ (byte_at 52 request ∷ byte_at 53 request ∷ d))

-- from the sequence number of the request on: back to the port that sent it, with the action RESPONSE
abbrev answer_of : Responder → List ℕ → List ℕ → List ℕ
answer_of r request d =
    byte_at 30 request
    ∷ byte_at 31 request
    ∷ r.control
    ∷ r.interval
    ∷ (ten (λ i. byte_at (20 + i) request) ++ (r.starting_hops ∷ r.hops ∷ 2 ∷ 0 ∷ tlv_of request d))

-- The response to a request, by IEEE 1588: with its own message length and identity, with the sequence number
-- of the request, for the port that sent it, and with the action RESPONSE; its TLV has the identifier of
-- the request and the dataset behind it.
abbrev pub response_to : Responder → List ℕ → List ℕ → List ℕ
response_to r request d =
    (16 * r.sdo + 13)
    ∷ r.version
    ∷ (be16 (54 + length d) ++ (sixteen r.header ++ (ten r.identity ++ answer_of r request d)))

take-all : (d : List ℕ) → take (length d) d ≡ d
take-all [] = refl
take-all (x ∷ d) = ap (λ l. x ∷ l) (take-all d)

uint16-be16 : (v : ℕ) → v < 65536 → v / 256 % 256 * 256 + v % 256 ≡ v
uint16-be16 v h = omega (arith, h)

data_field-of :
    (mid : ℕ) (d : List ℕ) → mid < 65536 → parse_data_field mid (be16 mid ++ d) ≡ dataset d
unfolding parse_data_field
data_field-of mid d h =
    let long : ltb (suc (suc (length d))) 2 ≡ false = ground arith in
    let same : (mid / 256 % 256 * 256 + mid % 256 == mid) ≡ true =
      (==_iff (mid / 256 % 256 * 256 + mid % 256) mid).1 (uint16-be16 mid h) in
    rw (long, same) refl

parse-of :
    (b : List ℕ) (mid seq : ℕ) (d : List ℕ)
    → mid < 65536
    → length b ≡ 54 + length d
    → byte_at 0 b % 16 ≡ 13
    → uint16_at 30 b ≡ seq
    → byte_at 46 b % 16 ≡ 2
    → uint16_at 48 b ≡ 1
    → uint16_at 50 b ≡ 2 + length d
    → take (uint16_at 50 b) (drop 52 b) ≡ be16 mid ++ d
    → parse_mgmt_response b mid seq ≡ dataset d
unfolding parse_mgmt_response
parse-of b mid seq d small size kind number action tlv len field =
    let e1 : ltb (length b) 54 ≡ false = ground (arith, size) in
    let e2 : (byte_at 0 b % 16 == 13) ≡ true = (==_iff (byte_at 0 b % 16) 13).1 kind in
    let e3 : (uint16_at 30 b == seq) ≡ true = (==_iff (uint16_at 30 b) seq).1 number in
    let e4 : (byte_at 46 b % 16 == 2) ≡ true = (==_iff (byte_at 46 b % 16) 2).1 action in
    let e5 : (uint16_at 48 b == 1) ≡ true = (==_iff (uint16_at 48 b) 1).1 tlv in
    let e6 : ltb (length b) (52 + uint16_at 50 b) ≡ false = ground (arith, size, len) in
    rw (e1, e2, e3, e4, e5, e6, field) (data_field-of mid d small)

-- The response of any port to the request for a dataset, in the format of the standard and with the bytes of
-- that dataset, is accepted under the sequence number of the request, and gives back exactly these bytes.
-- The identifier, the sequence number and the length field have 16 bits.
pub parse_mgmt_response-build_mgmt_get :
    (r : Responder) (mid seq : ℕ) (d : List ℕ)
    → mid < 65536
    → seq < 65536
    → 2 + length d < 65536
    → parse_mgmt_response (response_to r (build_mgmt_get mid seq) d) mid seq ≡ dataset d
unfolding build_mgmt_get
parse_mgmt_response-build_mgmt_get r mid seq d m s l =
    let b = response_to r (build_mgmt_get mid seq) d in
    let len : uint16_at 50 b ≡ 2 + length d = uint16-be16 (2 + length d) l in
    let two : 2 + length d ≡ suc (suc (length d)) = omega arith in
    parse-of b mid seq d m (omega arith) (omega arith) (uint16-be16 seq s) refl refl len
      (ap (λ n. take n (be16 mid ++ d)) (len ∙ two) ∙ ap (λ l. be16 mid ++ l) (take-all d))
