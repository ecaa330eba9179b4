-- ===== src/Examples/Monitored.antt =====
-- The monitoring of internal/mon at concrete samples and messages.
use stageneth.Prelude.{ℕ, ◌+◌, ◌≤◌, List, [], ◌∷◌, length, take, drop, ◌≡◌, refl, arith}
use stageneth.Mon.Ptp.{uint16_at, build_mgmt_get, dataset, parse_mgmt_response, parse_data_field}
use stageneth.Mon.Ptp.Replies.{
  Responder, response_to, parse_mgmt_response-dataset, parse_mgmt_response-build_mgmt_get,
}
use stageneth.Mon.Collector.Ring.{latest, collect_all, collect_all-latest}

abbrev port_data : List ℕ
port_data = 0 ∷ 1 ∷ 2 ∷ 3 ∷ 4 ∷ 5 ∷ 6 ∷ 7 ∷ 0 ∷ 1 ∷ 9 ∷ []

abbrev responder : Responder
responder = record {
  sdo = 0;
  version = 2;
  header = λ i. 0;
  identity = λ i. 16 + i;
  control = 4;
  interval = 0x7f;
  starting_hops = 0;
  hops = 0;
}

abbrev reply : List ℕ
reply = response_to responder (build_mgmt_get 0x2004 7) port_data

round_trip_example : parse_mgmt_response reply 0x2004 7 ≡ dataset port_data
round_trip_example =
    parse_mgmt_response-build_mgmt_get responder 0x2004 7 port_data (omega arith) (omega arith)
      (omega arith)

reply_parsed : parse_mgmt_response reply 0x2004 7 ≡ dataset port_data
unfolding parse_mgmt_response parse_data_field build_mgmt_get
reply_parsed = refl

bounds_example :
    (uint16_at 30 reply ≡ 7)
    × (uint16_at 0 (take (uint16_at 50 reply) (drop 52 reply)) ≡ 0x2004)
    × (2 + length port_data ≡ uint16_at 50 reply)
    × (54 + length port_data ≤ length reply)
bounds_example = parse_mgmt_response-dataset reply 0x2004 7 port_data reply_parsed

abbrev samples : List ℕ
samples = 5 ∷ 6 ∷ 7 ∷ []

latest_example :
    (collect_all 2 [] samples ≡ latest 2 samples) × (length (collect_all 2 [] samples) ≤ 2)
latest_example = collect_all-latest 2 samples
