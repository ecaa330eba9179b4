-- ===== src/Render/Network.antt =====
-- `servicePorts` and `Network` of internal/render/render.go.
pub mod Dedup
use stageneth.Prelude.{
  Bool, not, List, [], ◌∷◌, ◌++◌, map, any, Text, lit, equal, if◌then◌else◌, member, join, ◌==◌,
}
use stageneth.Ucifile.{Item, Section}
use stageneth.Stcfg.{Config, Options, service_names, sorted_bindings, get_options}
use stageneth.Render.{
  opt, sec, option, or_default, Available, fallback_iface, valid_vlan_id, trunk, switch_vendor,
  service_ipaddr,
}

-- the variables `ports` and `seen` of `servicePorts`
pub record Ports : Type 0 where
  pub ports : List Text
  pub seen : List Text

-- the closure `add`
unfoldable pub add_port : Text → Ports → Ports
add_port p t =
    if member p t.seen then t else record { ports = t.ports ++ p ∷ []; seen = p ∷ t.seen }

-- one port: the interface itself for an untagged service, else its VLAN subinterface
unfoldable pub port_name : Options → Text → Text
port_name svc iface =
    if equal (option "untagged" svc) (lit "1")
    then iface
    else iface ++ (lit "." ++ valid_vlan_id (option "vlan_id" svc))

unfoldable pub bound_ports : Text → Options → Text → Available → Ports → List Options → Ports
unfolding add_port port_name
bound_ports name svc trunk_if avail t [] = t
bound_ports name svc trunk_if avail t (b ∷ bs) =
    bound_ports name svc trunk_if avail
      (if equal (option "service" b) name
        then add_port
            (port_name svc (fallback_iface (or_default (option "interface" b) trunk_if) avail)) t
        else t)
      bs

unfoldable pub or_trunk : Options → Text → Available → List Text → List Text
unfolding port_name
or_trunk svc trunk_if avail [] = port_name svc (fallback_iface trunk_if avail) ∷ []
or_trunk svc trunk_if avail (p ∷ ports) = p ∷ ports

-- `servicePorts`
unfoldable pub service_ports : Config → Text → Options → Text → Available → List Text
unfolding bound_ports or_trunk
service_ports st name svc trunk_if avail =
    or_trunk svc trunk_if avail
      (bound_ports name svc trunk_if avail (record { ports = []; seen = [] })
        (sorted_bindings st)).ports

-- `strings.ReplaceAll(port, ".", "_")`
abbrev pub underscored : Text → Text
underscored p = map (λ c. if c == b'.' then b'_' else c) p

-- `strings.SplitN(port, ".", 2)`: what stands in front of the first dot, and behind it
unfoldable pub before_dot : Text → Text
before_dot [] = []
before_dot (c ∷ s) = if c == b'.' then [] else c ∷ before_dot s

unfoldable pub after_dot : Text → Text
after_dot [] = []
after_dot (c ∷ s) = if c == b'.' then s else after_dot s

abbrev pub has_dot : Text → Bool
has_dot p = any (λ c. c == b'.') p

-- the VLAN devices of the tagged ports
unfoldable pub vlan_devices : Text → List Text → List Section
unfolding before_dot after_dot
vlan_devices mtu [] = []
vlan_devices mtu (port ∷ ports) =
    let rest = vlan_devices mtu ports in
    if not (has_dot port)
    then rest
    else sec "device" (underscored port) (
        opt "name" port
        ∷ opt "type" (lit "8021q")
        ∷ opt "vid" (after_dot port)
        ∷ opt "ifname" (before_dot port)
        ∷ opt "mtu" mtu
        ∷ [])
      ∷ rest

unfoldable pub service_mtu : Text → Options → Text
service_mtu name svc =
    or_default (option "mtu" svc) (if equal name (lit "st2110") then lit "9000" else lit "1500")

unfoldable pub bridge_options : Text → Options → Text → Text → List Text → List Item
bridge_options vendor svc bridge mtu ports =
    (opt "name" bridge
      ∷ opt "type" (lit "bridge")
      ∷ opt "ports" (join (lit " ") ports)
      ∷ opt "mtu" mtu
      ∷ [])
    ++ (if equal (option "multicast" svc) (lit "1")
        then opt "igmp_snooping" (lit "1")
          ∷ (if equal vendor (lit "generic") then opt "multicast_querier" (lit "1") ∷ [] else [])
        else [])

-- the sections of one service: its interface, its VLAN devices and its bridge
unfoldable pub service_network : Config → Available → Text → List Section
unfolding service_ports vlan_devices service_mtu bridge_options
service_network st avail name =
    let svc = get_options name st.services in
    let bridge = lit "br_" ++ name in
    let ports = service_ports st name svc (trunk st) avail in
    let mtu = service_mtu name svc in
    sec "interface" (lit "svc_" ++ name) (
      (opt "device" bridge
        ∷ opt "proto" (lit "static")
        ∷ opt "ipaddr" (service_ipaddr svc)
        ∷ opt "netmask" (or_default (option "netmask" svc) (lit "255.255.255.0"))
        ∷ [])
      ++ (if equal mtu (lit "1500") then [] else opt "mtu" mtu ∷ []))
    ∷ (vlan_devices mtu ports
        ++ sec "device" bridge (bridge_options (switch_vendor st) svc bridge mtu ports) ∷ [])

unfoldable pub network_of : Config → Available → List Text → List Section
unfolding service_network
network_of st avail [] = []
network_of st avail (name ∷ names) = service_network st avail name ++ network_of st avail names

-- `Network`
unfoldable pub network : Config → Available → List Section
unfolding network_of
network st avail = network_of st avail (service_names st)
