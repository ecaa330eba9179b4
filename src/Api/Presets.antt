-- ===== src/Api/Presets.antt =====
-- internal/api/presets.go: the presets, and their application to the configuration file. What runs the
-- `apply` command is not modelled: whether it exits without an error is an argument. The log in a reply
-- is not modelled.
pub mod Table
pub mod Laws
use stageneth.Prelude.{
  ℕ, Bool, true, false, ◌&&◌, ◌||◌, List, [], ◌∷◌, ◌++◌, Option, none, some, Text, lit, equal,
  is_empty, if◌then◌else◌, member, all, first, select, map,
}
use stageneth.Ucifile.{Item, Section, File}
use stageneth.Ucifile.Printer.{text}
use stageneth.Auth.Users.{Disk, Faults}
use stageneth.Api.V1.{load_stageneth}
use stageneth.Api.Presets.Table.{PresetService, PresetForwarding, Preset, stageneth_presets}

abbrev is_nil : List Text → Bool
is_nil [] = true
is_nil _ = false

-- `selectedSet`, which has `mgmt` whenever some services are asked for
abbrev pub selected_set : List Text → List Text
selected_set [] = []
selected_set (s ∷ services) = lit "mgmt" ∷ s ∷ services

-- the test with `selectedSet`, which an empty list of services skips
abbrev pub is_selected : List Text → Text → Bool
is_selected services name = is_nil services || member name (selected_set services)

-- the sections that a preset leaves: those of the types `stageneth` and `logging`
abbrev pub is_kept : Section → Bool
is_kept s = equal s.type (lit "stageneth") || equal s.type (lit "logging")

abbrev pub option_item : Text → Text → Item
option_item name value = record { name = name; value = value; list = false }

abbrev pub optional_item : Text → Text → List Item
optional_item name value = if is_empty value then [] else option_item name value ∷ []

abbrev or_text : Text → Text → Text
or_text value default = if is_empty value then default else value

abbrev pub service_mtu : PresetService → Text
service_mtu s = or_text s.mtu (if equal s.name (lit "st2110") then lit "9000" else lit "1500")

abbrev pub service_section : PresetService → Section
service_section s = record {
  type = lit "service";
  name = s.name;
  options =
      option_item (lit "vlan_id") s.vlan_id
      ∷ option_item (lit "priority") s.priority
      ∷ option_item (lit "dscp") s.dscp
      ∷ option_item (lit "ptp") s.ptp
      ∷ option_item (lit "multicast") s.multicast
      ∷ option_item (lit "untagged") (or_text s.untagged (lit "0"))
      ∷ option_item (lit "mtu") (service_mtu s)
      ∷ (optional_item (lit "ipaddr") s.ipaddr
          ++ (optional_item (lit "netmask") s.netmask
              ++ option_item (lit "description") s.description ∷ []));
}

abbrev pub forwarding_section : PresetForwarding → Section
forwarding_section fw = record {
  type = lit "forwarding";
  name = fw.name;
  options =
      option_item (lit "src") fw.src
      ∷ option_item (lit "dest") fw.dest
      ∷ option_item (lit "enabled") (lit "1")
      ∷ [];
}

-- the loop over `selected.Services`
abbrev pub selected_services : List Text → List PresetService → List Section
selected_services services ss =
    map service_section (select (λ (s : PresetService). is_selected services s.name) ss)

-- the loop over `selected.Forwardings`
abbrev pub selected_forwardings : List Text → List PresetForwarding → List Section
selected_forwardings services fws = map forwarding_section (
    select (λ (fw : PresetForwarding). is_selected services fw.src && is_selected services fw.dest)
      fws)

-- the file that a preset makes of another
unfoldable pub preset_file : Preset → List Text → File → File
preset_file p services f =
    select is_kept f
    ++ (selected_services services p.services ++ selected_forwardings services p.forwardings)

-- every service that is asked for is one of the preset
unfoldable pub known_services : Preset → List Text → Bool
known_services p services =
    all (λ s. member s (map (λ (svc : PresetService). svc.name) p.services)) services

-- the search for the preset
unfoldable pub find_preset : Text → Option Preset
find_preset name = first (λ (p : Preset). equal p.name name) stageneth_presets

-- What `applyPresetToUci` returns: nothing, an error of validation, or another error.
pub data Applied : Type 0 where
  preset_applied validation_failed apply_error : Applied

abbrev pub save_preset : Faults → Bool → Disk → Preset → List Text → Option File → Disk × Applied
save_preset io_faults runs disk p services none = (disk, apply_error)
save_preset io_faults runs disk p services (some f) =
    if io_faults.write
    then (disk, apply_error)
    else (some (text (preset_file p services f)), if runs then preset_applied else apply_error)

abbrev pub apply_found : Faults → Bool → List Text → Disk → Option Preset → Disk × Applied
apply_found io_faults runs services disk none = (disk, validation_failed)
apply_found io_faults runs services disk (some p) =
    if known_services p services
    then save_preset io_faults runs disk p services (load_stageneth io_faults disk)
    else (disk, validation_failed)

-- `applyPresetToUci`; `runs` tells whether the command `apply` ran without an error
unfoldable pub apply_preset_to_uci : Faults → Bool → Text → List Text → Disk → Disk × Applied
apply_preset_to_uci io_faults runs name services disk =
    apply_found io_faults runs services disk (find_preset name)

abbrev pub applied_status : Applied → ℕ
applied_status preset_applied = 200
applied_status validation_failed = 400
applied_status apply_error = 500

abbrev pub asked_services : Option (List Text) → List Text
asked_services none = []
asked_services (some services) = services

-- `presetApply`: the file, and the status of the reply; a body that does not decode asks for no services
unfoldable pub preset_apply : Faults → Bool → Text → Option (List Text) → Disk → Disk × ℕ
unfolding apply_preset_to_uci
preset_apply io_faults runs name body disk =
    let services = asked_services body in
    if is_empty name
    then (disk, 400)
    else (let (after, outcome) = apply_preset_to_uci io_faults runs name services disk in
        (after, applied_status outcome))
