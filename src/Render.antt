-- ===== src/Render.antt =====
-- packages/stagenethd/files/internal/render/render.go: what StageNeth wants in each UCI file.
-- The parts that the files share; each file has a module of its own below.
pub mod Network
pub mod Logging
pub mod Firewall
pub mod Services
pub mod Vlan
pub mod Zones
use stageneth.Prelude.{
  true, false, List, [], ◌∷◌, ◌++◌, Option, none, some, String, Text, lit, is_empty, if◌then◌else◌,
  member, get_text, atoi, itoa, in_range, ℤ, first,
}
use stageneth.Ucifile.{Item, Section}
use stageneth.Stcfg.{Config, Options}

-- `opt`
abbrev pub opt : String → Text → Item
opt name value = record { name = lit name; value = value; list = false }

-- `list`
abbrev pub list_opt : String → Text → Item
list_opt name value = record { name = lit name; value = value; list = true }

-- `sec`
abbrev pub sec : String → Text → List Item → Section
sec typ name opts = record { type = lit typ; name = name; options = opts }

-- `m[k]` at a literal key, and its default where it is ""
unfoldable pub option : String → Options → Text
option k m = get_text (lit k) m

unfoldable pub or_default : Text → Text → Text
or_default v d = if is_empty v then d else v

-- `avail`, the set of kernel interfaces
abbrev pub Available : Type 0
Available = List Text

-- `fallbackIface`
unfoldable pub fallback_iface : Text → Available → Text
fallback_iface iface avail =
    if member iface avail
    then iface
    else elim (first (λ cand. member cand avail) (lit "eth1" ∷ lit "eth0" ∷ lit "eth2" ∷ [])) [
      | none ↦ lit "eth0"
      | some cand ↦ cand
    ]

abbrev pub vlan_of : Option ℤ → Text
vlan_of none = lit "1"
vlan_of (some (ℤ.pos n)) = if in_range 1 4094 (ℤ.pos n) then itoa n else lit "1"
vlan_of (some (ℤ.negsuc n)) = lit "1"

-- `validVlanID`
unfoldable pub valid_vlan_id : Text → Text
valid_vlan_id s = vlan_of (atoi s)

-- `Trunk`
unfoldable pub trunk : Config → Text
unfolding or_default option
trunk st = or_default (option "trunk" st.globals) (lit "eth1")

-- `SwitchVendor`
unfoldable pub switch_vendor : Config → Text
unfolding or_default option
switch_vendor st = or_default (option "switch_vendor" st.globals) (lit "generic")

-- the address of a service's bridge
unfoldable pub service_ipaddr : Options → Text
unfolding or_default option valid_vlan_id
service_ipaddr svc =
    or_default (option "ipaddr" svc)
      (lit "10." ++ (valid_vlan_id (option "vlan_id" svc) ++ lit ".0.1"))
