-- ===== src/Engine.antt =====
-- packages/stagenethd/files/internal/engine/engine.go: merging what is rendered into the UCI files.
-- The managed configs, the manifest and `merge`; planning and applying are in the modules below.
pub mod Plan
pub mod Collector
pub mod Disk
pub mod Apply
pub mod Stable
pub mod Agrees
pub mod Restored
pub mod LastGood
use stageneth.Prelude.{
  Bool, true, false, not, ◌&&◌, ◌||◌, List, [], ◌∷◌, ◌++◌, Option, none, some, String, Text, lit,
  equal, is_empty, if◌then◌else◌, Dict, lookup, member, map, any, select, has_prefix, contains_text,
}
use stageneth.Ucifile.{Section, File}
use stageneth.Stcfg.{Config}
use stageneth.Render.{Available}
use stageneth.Render.Network.{network}
use stageneth.Render.Firewall.{firewall}
use stageneth.Render.Logging.{rsyslog}
use stageneth.Render.Services.{dhcp, umdns, mdns_repeater}

-- `managedConfig`
pub record ManagedConfig : Type 0 where
  pub name : Text
  pub render : Config → Available → File
  pub full_owner : Bool

abbrev entry : String → (Config → Available → File) → Bool → ManagedConfig
entry name render full = record { name = lit name; render = render; full_owner = full }

-- `managed`
unfoldable pub managed : List ManagedConfig
managed =
    entry "network" network false
    ∷ entry "firewall" (λ st _. firewall st) false
    ∷ entry "dhcp" (λ st _. dhcp st) false
    ∷ entry "rsyslog" (λ st _. rsyslog st) false
    ∷ entry "umdns" (λ st _. umdns st) true
    ∷ entry "mdns_repeater" (λ st _. mdns_repeater st) true
    ∷ []

-- `manifest`: the names of the generated sections, by config
abbrev pub Manifest : Type 0
Manifest = Dict (List Text)

-- `mf[name]`
unfoldable pub recorded : Text → Manifest → List Text
recorded name mf = elim (lookup name mf) [ none ↦ [] | some names ↦ names ]

abbrev legacy_prefixes : List Text
legacy_prefixes =
    lit "svc_"
    ∷ lit "br_"
    ∷ lit "zone_"
    ∷ lit "allow_dhcp_"
    ∷ lit "allow_dns_"
    ∷ lit "allow_ntp_"
    ∷ lit "allow_syslog_"
    ∷ []

-- `strings.SplitN(name, sep, 2)[0]`
unfoldable pub before_text : Text → Text → Text
before_text sep [] = []
before_text sep (c ∷ s) = if has_prefix (c ∷ s) sep then [] else c ∷ before_text sep s

abbrev is_some {ℓ} : {A : Type ℓ} → Option A → Bool
is_some none = false
is_some (some a) = true

-- `legacyManaged`
unfoldable pub legacy_managed : Text → Config → Bool
unfolding before_text
legacy_managed name st =
    any (λ p. has_prefix name p) legacy_prefixes
    || (contains_text name (lit "_to_")
        && (is_some (lookup (before_text (lit "_to_") name) st.services)
            || equal (before_text (lit "_to_") name) (lit "mgmt")))

-- `sectionKey`
unfoldable pub section_key : Section → Text
section_key s = if not (is_empty s.name) then s.name else lit "@" ++ s.type

-- the sections that `merge` passes through
abbrev pub passes : File → List Text → Section → Bool
passes desired prev s =
    not (member (section_key s) prev || member (section_key s) (map section_key desired))

-- `merge`
unfoldable pub merge : File → File → List Text → File
merge existing desired prev = select (passes desired prev) existing ++ desired
