-- ===== src/Examples/Rendered.antt =====
-- What internal/render/render.go makes of one configuration.
use stageneth.Prelude.{true, List, [], ◌∷◌, Text, lit, All, ◌≡◌}
use stageneth.Stcfg.{Config}
use stageneth.Render.{Available, valid_vlan_id}
use stageneth.Render.Vlan.{IsVlanId, valid_vlan_id-IsVlanId}
use stageneth.Render.Firewall.{firewall}
use stageneth.Render.Zones.{OnlyMgmt, firewall-OnlyMgmt}
use stageneth.Render.Network.{service_ports}
use stageneth.Render.Network.Dedup.{distinct, has_port, service_ports-distinct}

-- two bindings of one service to the same interface
abbrev show : Config
show = record {
  schema_version = [];
  globals = (lit "trunk", lit "eth0") ∷ [];
  services =
      (lit "audio", (lit "vlan_id", lit "20") ∷ [])
      ∷ (lit "mgmt", (lit "vlan_id", lit "4095") ∷ [])
      ∷ [];
  bindings =
      (lit "b1", (lit "service", lit "audio") ∷ (lit "interface", lit "eth1") ∷ [])
      ∷ (lit "b2", (lit "service", lit "audio") ∷ (lit "interface", lit "eth1") ∷ [])
      ∷ [];
  forwardings =
      (lit "f", (lit "enabled", lit "1") ∷ (lit "src", lit "audio") ∷ (lit "dest", lit "mgmt") ∷ [])
      ∷ [];
  logging = [];
}

abbrev nics : Available
nics = lit "eth0" ∷ lit "eth1" ∷ []

abbrev audio_options : List (Text × Text)
audio_options = (lit "vlan_id", lit "20") ∷ []

vlan_example : IsVlanId (valid_vlan_id (lit "4095"))
vlan_example = valid_vlan_id-IsVlanId (lit "4095")

firewall_example : All OnlyMgmt (firewall show)
firewall_example = firewall-OnlyMgmt show

ports_example :
    (has_port (service_ports show (lit "audio") audio_options (lit "eth0") nics) ≡ true)
    × (distinct (service_ports show (lit "audio") audio_options (lit "eth0") nics) ≡ true)
ports_example = service_ports-distinct show (lit "audio") audio_options (lit "eth0") nics
