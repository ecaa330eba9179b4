-- ===== src/Render/Zones.antt =====
-- `Firewall` of internal/render/render.go: which zone accepts input.
use stageneth.Prelude.{
  Bool, true, false, not, ◌&&◌, ◌||◌, List, [], ◌∷◌, ◌++◌, Text, lit, equal, equal_iff,
  if◌then◌else◌, All, first, ◌≡◌, refl, ap, keys, sort_text,
}
use stageneth.Ucifile.{Section, get}
use stageneth.Stcfg.{Config, service_names, get_options}
use stageneth.Render.{opt, sec, option}
use stageneth.Render.Logging.{Collector, collector_info}
use stageneth.Render.Firewall.{
  Kind, dhcp, dns, ntp, zone, allow_rule, syslog_rule, service_rules, enabled_forwardings,
  mgmt_forwardings, firewall,
}

-- A section that accepts input is the zone of mgmt.
abbrev pub OnlyMgmt : Section → Type 0
OnlyMgmt s = get (lit "input") s ≡ lit "ACCEPT" → s.name ≡ lit "zone_mgmt"

All-append : (f g : List Section) → All OnlyMgmt f → All OnlyMgmt g → All OnlyMgmt (f ++ g)
All-append [] g p q = q
All-append (s ∷ f) g p q = (p.0, All-append f g p.1 q)

input-accept : (b : Bool) → (if b then lit "ACCEPT" else lit "REJECT") ≡ lit "ACCEPT" → b ≡ true
unfolding equal
input-accept true h = refl
input-accept false h = (equal_iff (lit "REJECT") (lit "ACCEPT")).1 h

zone-OnlyMgmt : (name : Text) → OnlyMgmt (zone name)
unfolding get zone first equal
zone-OnlyMgmt name h =
    let mgmt : equal name (lit "mgmt") ≡ true = input-accept (equal name (lit "mgmt")) h in
    ap (λ n. lit "zone_" ++ n) ((equal_iff name (lit "mgmt")).0 mgmt)

allow_rule-OnlyMgmt : (name : Text) (kind : Kind) → OnlyMgmt (allow_rule name kind)
unfolding get allow_rule first equal
allow_rule-OnlyMgmt name kind h = cc h

syslog_rule-OnlyMgmt : (col : Collector) (name : Text) → OnlyMgmt (syslog_rule col name)
unfolding get syslog_rule first equal
syslog_rule-OnlyMgmt col name h = cc h

forwarding-OnlyMgmt :
    (name src dest : Text) → OnlyMgmt (sec "forwarding" name (opt "src" src ∷ opt "dest" dest ∷ []))
unfolding get first equal
forwarding-OnlyMgmt name src dest h = cc h

choose-All :
    (b : Bool) (f g : List Section)
    → All OnlyMgmt f
    → All OnlyMgmt g
    → All OnlyMgmt (if b then f else g)
choose-All true f g p q = p
choose-All false f g p q = q

service_rules-OnlyMgmt :
    (col : Collector) (names : List Text) → All OnlyMgmt (service_rules col names)
unfolding service_rules
service_rules-OnlyMgmt col [] = tt
service_rules-OnlyMgmt col (name ∷ names) = (
  zone-OnlyMgmt name,
  (
    allow_rule-OnlyMgmt name dhcp,
    (
      allow_rule-OnlyMgmt name dns,
      (
        allow_rule-OnlyMgmt name ntp,
        All-append
            (if col.enabled && not (equal name (lit "mgmt")) then syslog_rule col name ∷ [] else [])
            (service_rules col names)
            (choose-All (col.enabled && not (equal name (lit "mgmt"))) (syslog_rule col name ∷ [])
              [] (syslog_rule-OnlyMgmt col name, tt) tt)
            (service_rules-OnlyMgmt col names),
      ),
    ),
  ),
)

enabled_forwardings-OnlyMgmt :
    (st : Config) (names : List Text) → All OnlyMgmt (enabled_forwardings st names)
unfolding enabled_forwardings
enabled_forwardings-OnlyMgmt st [] = tt
enabled_forwardings-OnlyMgmt st (name ∷ names) =
    let fcfg = get_options name st.forwardings in
    let rest = enabled_forwardings-OnlyMgmt st names in
    choose-All (not (equal (option "enabled" fcfg) (lit "1"))) (enabled_forwardings st names)
      (sec "forwarding" name (opt "src" (option "src" fcfg) ∷ opt "dest" (option "dest" fcfg) ∷ [])
        ∷ enabled_forwardings st names)
      rest (forwarding-OnlyMgmt name (option "src" fcfg) (option "dest" fcfg), rest)

mgmt_forwardings-OnlyMgmt : (names : List Text) → All OnlyMgmt (mgmt_forwardings names)
unfolding mgmt_forwardings
mgmt_forwardings-OnlyMgmt [] = tt
mgmt_forwardings-OnlyMgmt (s ∷ names) =
    let rest = mgmt_forwardings-OnlyMgmt names in
    choose-All (equal s (lit "mgmt") || equal s (lit "guest")) (mgmt_forwardings names)
      (sec "forwarding" (lit "mgmt_to_" ++ s) (opt "src" (lit "mgmt") ∷ opt "dest" s ∷ [])
        ∷ mgmt_forwardings names)
      rest (forwarding-OnlyMgmt (lit "mgmt_to_" ++ s) (lit "mgmt") s, rest)

-- Whatever the configuration is, a section of the generated firewall whose input policy is ACCEPT is the
-- zone of the mgmt service: no other service can reach the router itself but by a rule.
pub firewall-OnlyMgmt : (st : Config) → All OnlyMgmt (firewall st)
unfolding firewall
firewall-OnlyMgmt st =
    All-append (service_rules (collector_info st) (service_names st))
      (enabled_forwardings st (sort_text (keys st.forwardings))
        ++ mgmt_forwardings (service_names st))
      (service_rules-OnlyMgmt (collector_info st) (service_names st))
      (All-append (enabled_forwardings st (sort_text (keys st.forwardings)))
        (mgmt_forwardings (service_names st))
        (enabled_forwardings-OnlyMgmt st (sort_text (keys st.forwardings)))
        (mgmt_forwardings-OnlyMgmt (service_names st)))
