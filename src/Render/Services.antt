-- ===== src/Render/Services.antt =====
-- `Dhcp`, `Umdns` and `MdnsRepeater` of internal/render/render.go.
use stageneth.Prelude.{List, [], ◌∷◌, ◌++◌, Text, lit, equal, if◌then◌else◌, map, String}
use stageneth.Ucifile.{Item, Section}
use stageneth.Stcfg.{Config, service_names, get_options}
use stageneth.Render.{opt, list_opt, sec, service_ipaddr}

unfoldable pub service_dhcp : Config → Text → Section
unfolding get_options service_ipaddr
service_dhcp st name =
    let ifname = lit "svc_" ++ name in
    sec "dhcp" ifname (
      opt "interface" ifname
      ∷ opt "start" (lit "101")
      ∷ opt "limit" (lit "154")
      ∷ opt "leasetime" (lit "12h")
      ∷ list_opt "dhcp_option" (lit "42," ++ service_ipaddr (get_options name st.services))
      ∷ list_opt "interface_name" ifname
      ∷ [])

-- `Dhcp`
unfoldable pub dhcp : Config → List Section
unfolding service_dhcp
dhcp st = map (service_dhcp st) (service_names st)

-- one list entry for each service but guest
unfoldable pub announced : String → Text → List Text → List Item
announced key prefix [] = []
announced key prefix (name ∷ names) =
    let rest = announced key prefix names in
    if equal name (lit "guest") then rest else list_opt key (prefix ++ name) ∷ rest

-- `Umdns`
unfoldable pub umdns : Config → List Section
unfolding announced
umdns st =
    sec "umdns" (lit "umdns") (
      opt "enabled" (lit "1")
      ∷ opt "jail" (lit "1")
      ∷ announced "network" (lit "svc_") (service_names st))
    ∷ []

-- `MdnsRepeater`
unfoldable pub mdns_repeater : Config → List Section
unfolding announced
mdns_repeater st =
    sec "mdns_repeater" (lit "main")
      (opt "enabled" (lit "1") ∷ announced "interface" (lit "br_") (service_names st))
    ∷ []
