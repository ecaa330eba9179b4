-- ===== src/Render/Firewall.antt =====
-- `Firewall` of internal/render/render.go.
use stageneth.Prelude.{
  not, ◌&&◌, ◌||◌, List, [], ◌∷◌, ◌++◌, Text, lit, equal, if◌then◌else◌, keys, sort_text,
}
use stageneth.Ucifile.{Section}
use stageneth.Stcfg.{Config, service_names, get_options}
use stageneth.Render.{opt, sec, option}
use stageneth.Render.Logging.{Collector, collector_info}

-- the loop variable `kind`, with what its `switch` sets
pub data Kind : Type 0 where
  dhcp dns ntp : Kind

abbrev kind_name : Kind → Text
kind_name dhcp = lit "dhcp"
kind_name dns = lit "dns"
kind_name ntp = lit "ntp"

abbrev kind_upper : Kind → Text
kind_upper dhcp = lit "DHCP"
kind_upper dns = lit "DNS"
kind_upper ntp = lit "NTP"

abbrev kind_port : Kind → Text
kind_port dhcp = lit "67"
kind_port dns = lit "53"
kind_port ntp = lit "123"

abbrev kind_proto : Kind → Text
kind_proto dhcp = lit "udp"
kind_proto dns = lit "tcp udp"
kind_proto ntp = lit "udp"

unfoldable pub zone : Text → Section
zone name = sec "zone" (lit "zone_" ++ name) (
    opt "name" name
    ∷ opt "network" (lit "svc_" ++ name)
    ∷ opt "input" (if equal name (lit "mgmt") then lit "ACCEPT" else lit "REJECT")
    ∷ opt "output" (lit "ACCEPT")
    ∷ opt "forward" (lit "REJECT")
    ∷ [])

unfoldable pub allow_rule : Text → Kind → Section
allow_rule name kind = sec "rule" (lit "allow_" ++ (kind_name kind ++ (lit "_" ++ name))) (
    opt "name" (lit "Allow-" ++ (kind_upper kind ++ (lit "-" ++ name)))
    ∷ opt "src" name
    ∷ opt "proto" (kind_proto kind)
    ∷ opt "dest_port" (kind_port kind)
    ∷ opt "target" (lit "ACCEPT")
    ∷ [])

abbrev syslog_proto : Text → Text
syslog_proto p =
    if equal p (lit "tcp")
    then lit "tcp"
    else if equal p (lit "both")
    then lit "tcp udp"
    else lit "udp"

unfoldable pub syslog_rule : Collector → Text → Section
syslog_rule col name = sec "rule" (lit "allow_syslog_" ++ name) (
    opt "name" (lit "Allow-SYSLOG-" ++ name)
    ∷ opt "src" name
    ∷ opt "proto" (syslog_proto col.proto)
    ∷ opt "dest_port" col.port
    ∷ opt "target" (lit "ACCEPT")
    ∷ [])

-- the zone and the rules of each service
unfoldable pub service_rules : Collector → List Text → List Section
unfolding zone allow_rule syslog_rule
service_rules col [] = []
service_rules col (name ∷ names) =
    (zone name ∷ allow_rule name dhcp ∷ allow_rule name dns ∷ allow_rule name ntp ∷ [])
    ++ ((if col.enabled && not (equal name (lit "mgmt")) then syslog_rule col name ∷ [] else [])
        ++ service_rules col names)

-- the configured forwardings that are enabled
unfoldable pub enabled_forwardings : Config → List Text → List Section
unfolding option get_options
enabled_forwardings st [] = []
enabled_forwardings st (name ∷ names) =
    let rest = enabled_forwardings st names in
    let fcfg = get_options name st.forwardings in
    if not (equal (option "enabled" fcfg) (lit "1"))
    then rest
    else sec "forwarding" name
        (opt "src" (option "src" fcfg) ∷ opt "dest" (option "dest" fcfg) ∷ [])
      ∷ rest

-- mgmt reaches every service but itself and guest
unfoldable pub mgmt_forwardings : List Text → List Section
mgmt_forwardings [] = []
mgmt_forwardings (s ∷ names) =
    let rest = mgmt_forwardings names in
    if equal s (lit "mgmt") || equal s (lit "guest")
    then rest
    else sec "forwarding" (lit "mgmt_to_" ++ s) (opt "src" (lit "mgmt") ∷ opt "dest" s ∷ []) ∷ rest

-- `Firewall`
unfoldable pub firewall : Config → List Section
unfolding service_rules enabled_forwardings mgmt_forwardings collector_info
firewall st =
    service_rules (collector_info st) (service_names st)
    ++ (enabled_forwardings st (sort_text (keys st.forwardings))
        ++ mgmt_forwardings (service_names st))
