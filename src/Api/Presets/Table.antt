-- ===== src/Api/Presets/Table.antt =====
-- The table `stagenethPresets` of internal/api/presets.go. A service that several presets list with the
-- same fields is declared once.
use stageneth.Prelude.{List, [], ◌∷◌, lit, Text}

-- `presetService`
pub record PresetService : Type 0 where
  pub name : Text
  pub vlan_id : Text
  pub priority : Text
  pub dscp : Text
  pub ptp : Text
  pub multicast : Text
  pub untagged : Text
  pub mtu : Text
  pub ipaddr : Text
  pub netmask : Text
  pub description : Text

-- `presetForwarding`
pub record PresetForwarding : Type 0 where
  pub name : Text
  pub src : Text
  pub dest : Text

-- `preset`
pub record Preset : Type 0 where
  pub name : Text
  pub label : Text
  pub description : Text
  pub category : Text
  pub services : List PresetService
  pub forwardings : List PresetForwarding

abbrev fw : Text → Text → Text → PresetForwarding
fw name src dest = record { name = name; src = src; dest = dest }

abbrev mgmt_service : PresetService
mgmt_service = record {
  name = lit "mgmt";
  vlan_id = lit "10";
  priority = lit "0";
  dscp = lit "0";
  ptp = lit "0";
  multicast = lit "0";
  untagged = [];
  mtu = lit "1500";
  ipaddr = [];
  netmask = [];
  description = lit "Administration routeur";
}

abbrev ptp_service : PresetService
ptp_service = record {
  name = lit "ptp";
  vlan_id = lit "50";
  priority = lit "7";
  dscp = lit "46";
  ptp = lit "1";
  multicast = lit "1";
  untagged = [];
  mtu = lit "1500";
  ipaddr = [];
  netmask = [];
  description = lit "Precision Time Protocol";
}

abbrev dante_service : PresetService
dante_service = record {
  name = lit "dante";
  vlan_id = lit "20";
  priority = lit "7";
  dscp = lit "46";
  ptp = lit "1";
  multicast = lit "1";
  untagged = [];
  mtu = lit "1500";
  ipaddr = [];
  netmask = [];
  description = lit "Dante audio";
}

abbrev aes67_service : PresetService
aes67_service = record {
  name = lit "aes67";
  vlan_id = lit "21";
  priority = lit "6";
  dscp = lit "34";
  ptp = lit "0";
  multicast = lit "1";
  untagged = [];
  mtu = lit "1500";
  ipaddr = [];
  netmask = [];
  description = lit "AES67 / RAVENNA";
}

abbrev avb_service : PresetService
avb_service = record {
  name = lit "avb";
  vlan_id = lit "22";
  priority = lit "0";
  dscp = lit "0";
  ptp = lit "1";
  multicast = lit "0";
  untagged = [];
  mtu = lit "1500";
  ipaddr = [];
  netmask = [];
  description = lit "AVB / Milan";
}

abbrev ndihx_service : PresetService
ndihx_service = record {
  name = lit "ndihx";
  vlan_id = lit "30";
  priority = lit "0";
  dscp = lit "0";
  ptp = lit "0";
  multicast = lit "1";
  untagged = [];
  mtu = lit "1500";
  ipaddr = [];
  netmask = [];
  description = lit "NDI / NDI|HX";
}

abbrev st2110_service : PresetService
st2110_service = record {
  name = lit "st2110";
  vlan_id = lit "31";
  priority = lit "6";
  dscp = lit "34";
  ptp = lit "0";
  multicast = lit "1";
  untagged = [];
  mtu = lit "1500";
  ipaddr = [];
  netmask = [];
  description = lit "SMPTE ST 2110";
}

abbrev artnet_service : PresetService
artnet_service = record {
  name = lit "artnet";
  vlan_id = lit "40";
  priority = lit "5";
  dscp = lit "0";
  ptp = lit "0";
  multicast = lit "0";
  untagged = [];
  mtu = lit "1500";
  ipaddr = lit "2.0.0.1";
  netmask = lit "255.0.0.0";
  description = lit "Art-Net";
}

abbrev sacn_service : PresetService
sacn_service = record {
  name = lit "sacn";
  vlan_id = lit "41";
  priority = lit "5";
  dscp = lit "0";
  ptp = lit "0";
  multicast = lit "1";
  untagged = [];
  mtu = lit "1500";
  ipaddr = [];
  netmask = [];
  description = lit "sACN E1.31";
}

abbrev proprietary_service : PresetService
proprietary_service = record {
  name = lit "proprietary";
  vlan_id = lit "42";
  priority = lit "5";
  dscp = lit "0";
  ptp = lit "0";
  multicast = lit "1";
  untagged = [];
  mtu = lit "1500";
  ipaddr = [];
  netmask = [];
  description = lit "MA-Net / autre";
}

abbrev guest_service : PresetService
guest_service = record {
  name = lit "guest";
  vlan_id = lit "99";
  priority = lit "0";
  dscp = lit "0";
  ptp = lit "0";
  multicast = lit "0";
  untagged = [];
  mtu = lit "1500";
  ipaddr = [];
  netmask = [];
  description = lit "Internet / backoffice";
}

abbrev st2110_jumbo_service : PresetService
st2110_jumbo_service = record {
  name = lit "st2110";
  vlan_id = lit "31";
  priority = lit "6";
  dscp = lit "34";
  ptp = lit "0";
  multicast = lit "1";
  untagged = [];
  mtu = lit "9000";
  ipaddr = [];
  netmask = [];
  description = lit "SMPTE ST 2110";
}

abbrev pub base_preset : Preset
base_preset = record {
  name = lit "base";
  label = lit "Base management + PTP";
  description = lit "VLANs d'administration (mgmt) et de timing PTP";
  category = lit "base";
  services = mgmt_service ∷ ptp_service ∷ [];
  forwardings = [];
}

abbrev pub audio_preset : Preset
audio_preset = record {
  name = lit "audio";
  label = lit "Audio (Dante / AES67 / AVB)";
  description = lit "VLANs pour les flux audio professionnels";
  category = lit "audio";
  services = mgmt_service ∷ ptp_service ∷ dante_service ∷ aes67_service ∷ avb_service ∷ [];
  forwardings =
      fw (lit "dante_to_mgmt") (lit "dante") (lit "mgmt")
      ∷ fw (lit "aes67_to_mgmt") (lit "aes67") (lit "mgmt")
      ∷ fw (lit "avb_to_mgmt") (lit "avb") (lit "mgmt")
      ∷ [];
}

abbrev pub video_preset : Preset
video_preset = record {
  name = lit "video";
  label = lit "Vidéo (NDI / ST 2110)";
  description = lit "VLANs pour les flux vidéo sur IP";
  category = lit "video";
  services = mgmt_service ∷ ptp_service ∷ ndihx_service ∷ st2110_service ∷ [];
  forwardings =
      fw (lit "ndihx_to_mgmt") (lit "ndihx") (lit "mgmt")
      ∷ fw (lit "st2110_to_mgmt") (lit "st2110") (lit "mgmt")
      ∷ [];
}

abbrev pub light_preset : Preset
light_preset = record {
  name = lit "light";
  label = lit "Lumière (Art-Net / sACN)";
  description = lit "VLANs pour le contrôle lumière";
  category = lit "light";
  services = mgmt_service ∷ ptp_service ∷ artnet_service ∷ sacn_service ∷ proprietary_service ∷ [];
  forwardings =
      fw (lit "artnet_to_mgmt") (lit "artnet") (lit "mgmt")
      ∷ fw (lit "sacn_to_mgmt") (lit "sacn") (lit "mgmt")
      ∷ fw (lit "proprietary_to_mgmt") (lit "proprietary") (lit "mgmt")
      ∷ [];
}

abbrev pub full_show_preset : Preset
full_show_preset = record {
  name = lit "full-show";
  label = lit "Spectacle complet";
  description = lit "Tous les VLANs audio, vidéo, lumière, management et PTP";
  category = lit "show";
  services =
      mgmt_service ∷ ptp_service ∷ guest_service ∷ dante_service ∷ aes67_service ∷ avb_service
      ∷ ndihx_service ∷ st2110_jumbo_service ∷ artnet_service ∷ sacn_service ∷ proprietary_service
      ∷ [];
  forwardings =
      fw (lit "mgmt_to_dante") (lit "mgmt") (lit "dante")
      ∷ fw (lit "mgmt_to_aes67") (lit "mgmt") (lit "aes67")
      ∷ fw (lit "mgmt_to_avb") (lit "mgmt") (lit "avb")
      ∷ fw (lit "mgmt_to_ndihx") (lit "mgmt") (lit "ndihx")
      ∷ fw (lit "mgmt_to_st2110") (lit "mgmt") (lit "st2110")
      ∷ fw (lit "mgmt_to_artnet") (lit "mgmt") (lit "artnet")
      ∷ fw (lit "mgmt_to_sacn") (lit "mgmt") (lit "sacn")
      ∷ fw (lit "mgmt_to_proprietary") (lit "mgmt") (lit "proprietary")
      ∷ fw (lit "dante_to_mgmt") (lit "dante") (lit "mgmt")
      ∷ fw (lit "aes67_to_mgmt") (lit "aes67") (lit "mgmt")
      ∷ fw (lit "avb_to_mgmt") (lit "avb") (lit "mgmt")
      ∷ fw (lit "ndihx_to_mgmt") (lit "ndihx") (lit "mgmt")
      ∷ fw (lit "st2110_to_mgmt") (lit "st2110") (lit "mgmt")
      ∷ fw (lit "artnet_to_mgmt") (lit "artnet") (lit "mgmt")
      ∷ fw (lit "sacn_to_mgmt") (lit "sacn") (lit "mgmt")
      ∷ fw (lit "proprietary_to_mgmt") (lit "proprietary") (lit "mgmt")
      ∷ [];
}

-- `stagenethPresets`
abbrev pub stageneth_presets : List Preset
stageneth_presets = base_preset ∷ audio_preset ∷ video_preset ∷ light_preset ∷ full_show_preset ∷ []
