-- ===== src/Mon/Clockwatch/Tally.antt =====
-- The counters of internal/mon/clockwatch.go: a bucket's messages by type add up to its count.
use stageneth.Prelude.{
  ℕ, ◌+◌, ◌/◌, ◌%◌, Bool, true, false, not, ◌&&◌, ◌||◌, List, [], ◌∷◌, some, Text, equal,
  if◌then◌else◌, Dict, lookup, insert, lit, length, leb, is_empty, ◌==◌, ◌≡◌, sym, ◌∙◌, arith,
  Bool-cases, inl, inr, ltb, drop,
}
use stageneth.Mon.Ptp.{byte_at, uint16_at}
use stageneth.Mon.Clockwatch.{
  RateOps, ProtoObs, next_count, or_zero, first_time, synced, bump, DomainStats, identified,
  parse_v2, parse_v1, handle_ptp_l2, handle_payload, handle_udp, handle_ether, handle_frame, tagged,
  v1_msg_type_name, v2_msg_type_name, ihl, dotted, bytes_between, hex_bytes, eth_p_ptp, eth_p_ip,
  no_datagram, no_header, no_group, no_port,
}

abbrev pub sum_counts : Dict ℕ → ℕ
sum_counts [] = 0
sum_counts ((k, n) ∷ m) = n + sum_counts m

-- Nothing was counted before the first message, and the counts by type add up to the count.
abbrev pub IsTallied : ProtoObs → Type 0
IsTallied p =
    (p.seen ≡ false → p.count ≡ 0)
    × (p.seen ≡ true → sum_counts p.types % 18446744073709551616 ≡ p.count)

sum_counts-insert :
    (k : Text) (v : ℕ) (m : Dict ℕ)
    → sum_counts (insert k v m) + or_zero (lookup k m) ≡ sum_counts m + v
unfolding insert lookup
sum_counts-insert k v [] = omega arith
sum_counts-insert k v ((j, n) ∷ m) = elim (Bool-cases (equal j k)) [
  | inl e ↦ rw e (omega arith)
  | inr e ↦ rw e (omega (arith, sum_counts-insert k v m))
]

-- one more message of a type
counted :
    (k : Text) (m : Dict ℕ)
    → sum_counts (insert k (next_count (or_zero (lookup k m))) m) % 18446744073709551616
      ≡ (sum_counts m + 1) % 18446744073709551616
counted k m = omega (arith, sum_counts-insert k (next_count (or_zero (lookup k m))) m)

synced-IsTallied :
    (ops : RateOps) (t : Text) (now : ℕ) (p : ProtoObs)
    → IsTallied p
    → IsTallied (synced ops t now p)
synced-IsTallied ops t now p h =
    elim (Bool-cases (equal t (lit "sync") || equal t (lit "follow_up"))) [
      | inl e ↦ rw e h
      | inr e ↦ rw e h
    ]

seen-IsTallied :
    (now : ℕ) (p : ProtoObs)
    → IsTallied p
    → sum_counts (first_time now p).types % 18446744073709551616 ≡ (first_time now p).count
seen-IsTallied now p h = elim (Bool-cases p.seen) [
  | inl e ↦ rw e (h.1 e)
  | inr e ↦ rw e (sym (h.0 e))
]

bump-IsTallied :
    (ops : RateOps) (t src : Text) (seq now : ℕ) (p : ProtoObs)
    → IsTallied p
    → IsTallied (bump ops t src seq now p)
unfolding bump
bump-IsTallied ops t src seq now p h =
    let q = first_time now p in
    synced-IsTallied ops t now
      (record q {
        seen = true;
        last_seen = some now;
        count = next_count q.count;
        last_src = src;
        last_seq = seq;
        types = insert t (next_count (or_zero (lookup t q.types))) q.types;
      })
      (λ no. cc no, λ same. counted t q.types ∙ omega (arith, seen-IsTallied now p h))

identified-IsTallied :
    (msg_type : ℕ) (b : List ℕ) (p : ProtoObs) → IsTallied p → IsTallied (identified msg_type b p)
identified-IsTallied msg_type b p h = elim (Bool-cases (leb msg_type 3 || msg_type == 8)) [
  | inl e ↦ elim (Bool-cases (is_empty p.gm)) [ inl e' ↦ rw (e, e') h | inr e' ↦ rw (e, e') h ]
  | inr e ↦ elim (Bool-cases (msg_type == 11 && leb 64 (length b))) [
    | inl e' ↦ rw (e, e') h
    | inr e' ↦ rw (e, e') h
  ]
]

parse_v2-IsTallied :
    (ops : RateOps) (b src : List ℕ) (now : ℕ) (p : ProtoObs)
    → IsTallied p
    → IsTallied (parse_v2 ops b src now p)
unfolding parse_v2
parse_v2-IsTallied ops b src now p h =
    let t = v2_msg_type_name (byte_at 0 b % 16) in
    identified-IsTallied (byte_at 0 b % 16) b
      (record (bump ops t src (uint16_at 30 b) now p) { domain = some (byte_at 4 b) })
      (bump-IsTallied ops t src (uint16_at 30 b) now p h)

parse_v1-IsTallied :
    (ops : RateOps) (b src : List ℕ) (now : ℕ) (p : ProtoObs)
    → IsTallied p
    → IsTallied (parse_v1 ops b src now p)
unfolding parse_v1
parse_v1-IsTallied ops b src now p h =
    let next = bump-IsTallied ops (v1_msg_type_name (byte_at 20 b)) src (uint16_at 30 b) now p h in
    elim (Bool-cases (ltb (length b) 34)) [
      | inl e ↦ rw e h
      | inr e ↦ elim (Bool-cases (byte_at 20 b == 0 || byte_at 20 b == 2)) [
        | inl e' ↦ rw (e, e') next
        | inr e' ↦ rw (e, e') next
      ]
    ]

-- every bucket is tallied
abbrev pub AllTallied : DomainStats → Type 0
AllTallied st = IsTallied st.v1 × IsTallied st.v2 × IsTallied st.v2_l2 × IsTallied st.gptp

either-Tallied :
    (c : Bool) (st other : DomainStats)
    → AllTallied st
    → AllTallied other
    → AllTallied (if c then st else other)
either-Tallied true st other h k = h
either-Tallied false st other h k = k

handle_ptp_l2-Tallied :
    (ops : RateOps) (b src : List ℕ) (now : ℕ) (st : DomainStats)
    → AllTallied st
    → AllTallied (handle_ptp_l2 ops b src now st)
unfolding handle_ptp_l2
handle_ptp_l2-Tallied ops b src now st h =
    either-Tallied (ltb (length b) 34 || not (byte_at 1 b % 16 == 2)) st _ h (
      either-Tallied (byte_at 0 b / 16 == 1) (record st { gptp = parse_v2 ops b src now st.gptp })
        (record st { v2_l2 = parse_v2 ops b src now st.v2_l2 })
        (h.0, h.1, h.2, parse_v2-IsTallied ops b src now st.gptp h.3)
        (h.0, h.1, parse_v2-IsTallied ops b src now st.v2_l2 h.2, h.3))

handle_payload-Tallied :
    (ops : RateOps) (b src : List ℕ) (now : ℕ) (st : DomainStats)
    → AllTallied st
    → AllTallied (handle_payload ops b src now st)
handle_payload-Tallied ops b src now st h = either-Tallied (ltb (length b) 34) st _ h (
    either-Tallied (uint16_at 0 b == 1) (record st { v1 = parse_v1 ops b src now st.v1 }) _
      (parse_v1-IsTallied ops b src now st.v1 h.0, h.1, h.2, h.3)
      (either-Tallied (not (byte_at 1 b % 16 == 2)) st
        (record st { v2 = parse_v2 ops b src now st.v2 }) h
        (h.0, parse_v2-IsTallied ops b src now st.v2 h.1, h.2, h.3)))

handle_udp-Tallied :
    (ops : RateOps) (ip : List ℕ) (now : ℕ) (st : DomainStats)
    → AllTallied st
    → AllTallied (handle_udp ops ip now st)
unfolding handle_udp
handle_udp-Tallied ops ip now st h = either-Tallied (no_datagram ip) st _ h (
    either-Tallied (no_header ip) st _ h (
      either-Tallied (no_group ip) st _ h (
        either-Tallied (no_port ip) st _ h (
          handle_payload-Tallied ops (drop (ihl ip + 8) ip) (dotted (bytes_between 12 16 ip)) now st
            h))))

handle_ether-Tallied :
    (ops : RateOps) (et : ℕ) (b src : List ℕ) (now : ℕ) (st : DomainStats)
    → AllTallied st
    → AllTallied (handle_ether ops et b src now st)
handle_ether-Tallied ops et b src now st h =
    either-Tallied (et == eth_p_ptp) _ _ (handle_ptp_l2-Tallied ops b src now st h)
      (either-Tallied (et == eth_p_ip) _ st (handle_udp-Tallied ops b now st h) h)

handle_frame-Tallied :
    (ops : RateOps) (b : List ℕ) (now : ℕ) (st : DomainStats)
    → AllTallied st
    → AllTallied (handle_frame ops b now st)
unfolding handle_frame
handle_frame-Tallied ops b now st h =
    let src = hex_bytes (bytes_between 6 12 b) in
    either-Tallied (ltb (length b) 14) st _ h (
      either-Tallied (tagged b) _ _
        (handle_ether-Tallied ops (uint16_at 16 b) (drop 18 b) src now st h)
        (handle_ether-Tallied ops (uint16_at 12 b) (drop 14 b) src now st h))

-- `loop`, over the frames that the socket gives, each with the time at which it is handled
unfoldable pub observe : RateOps → List (List ℕ × ℕ) → DomainStats → DomainStats
observe ops [] st = st
observe ops ((b, now) ∷ frames) st = observe ops frames (handle_frame ops b now st)

-- Whatever frames an observer has handled, in each of its four buckets the messages counted by type add
-- up to the count of the bucket, as numbers of 64 bits, and nothing is counted where nothing was seen.
pub observe-Tallied :
    (ops : RateOps) (frames : List (List ℕ × ℕ)) (st : DomainStats)
    → AllTallied st
    → AllTallied (observe ops frames st)
unfolding observe
observe-Tallied ops [] st h = h
observe-Tallied ops ((b, now) ∷ frames) st h =
    observe-Tallied ops frames (handle_frame ops b now st) (handle_frame-Tallied ops b now st h)
