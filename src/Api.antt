-- ===== src/Api.antt =====
-- packages/stagenethd/files/internal/api: the checks of the values that a request brings (v1.go).
-- The handlers that use them are in `V1`. Arguments stand for the standard library's `net.ParseIP` with
-- `To4`, and for the verb `%q`. The patterns of v1.go match ASCII only, so code points serve for bytes.
pub mod V1
pub mod Guard
pub mod Limiter
pub mod Account
pub mod Presets
pub mod Firstboot
pub mod Backup
pub mod Raw
pub mod Ntp
use stageneth.Prelude.{
  ℕ, Bool, true, false, not, ◌&&◌, ◌||◌, [], ◌∷◌, ◌++◌, Option, none, some, Text, lit, equal,
  is_empty, if◌then◌else◌, Dict, lookup, ltb, leb, within, ◌==◌, all, byte_len, int_in, length,
}

-- What is not in the source: `ipv4`, and the quotation `%q` of a text.
pub record Host : Type 0 where
  pub ipv4 : Text → Bool
  pub quoted : Text → Text

abbrev letter : ℕ → Bool
letter c = within b'a' b'z' c || within b'A' b'Z' c || within b'0' b'9' c

-- `[…]{lo,hi}` from the start to the end
abbrev matches : (ℕ → Bool) → ℕ → ℕ → Text → Bool
matches char lo hi s = within lo hi (length s) && all char s

-- `nameRe.MatchString`
unfoldable pub name_re : Text → Bool
name_re s = matches (λ c. letter c || c == b'_' || c == b'-') 1 32 s

-- `ifaceRe.MatchString`
unfoldable pub iface_re : Text → Bool
iface_re s = matches (λ c. letter c || c == b'_' || c == b'.' || c == b'-') 1 15 s

-- `hostRe.MatchString`
unfoldable pub host_re : Text → Bool
host_re s = matches (λ c. letter c || c == b'.' || c == b'_' || c == b':' || c == b'-') 1 253 s

-- `dirRe.MatchString`
unfoldable pub dir_re : Text → Bool
dir_re [] = false
dir_re (c ∷ s) =
    c == b'/' && matches (λ d. letter d || d == b'_' || d == b'/' || d == b'.' || d == b'-') 0 127 s

-- `validBool`
unfoldable pub valid_bool : Text → Bool
valid_bool s = equal s (lit "0") || equal s (lit "1")

-- `intRange`
unfoldable pub int_range : Text → ℕ → ℕ → Bool → Bool
int_range s lo hi empty_ok = if is_empty s then empty_ok else int_in lo hi s

-- `ipv4OrEmpty`
unfoldable pub ipv4_or_empty : Host → Text → Bool
ipv4_or_empty host s = is_empty s || host.ipv4 s

-- `saneText`
unfoldable pub sane_text : Text → Bool
sane_text s = if ltb 64 (byte_len s) then false else all (λ r. leb 0x20 r) s

-- `serviceFields`
unfoldable pub service_fields : Host → Dict (Text → Bool)
unfolding int_range ipv4_or_empty valid_bool sane_text
service_fields host =
    (lit "vlan_id", λ s. int_range s 1 4094 false)
    ∷ (lit "ipaddr", ipv4_or_empty host)
    ∷ (lit "netmask", ipv4_or_empty host)
    ∷ (lit "mtu", λ s. int_range s 68 9700 true)
    ∷ (lit "dscp", λ s. int_range s 0 63 true)
    ∷ (lit "priority", λ s. int_range s 0 7 true)
    ∷ (lit "ptp", valid_bool)
    ∷ (lit "multicast", valid_bool)
    ∷ (lit "untagged", valid_bool)
    ∷ (lit "igmp_snooping", valid_bool)
    ∷ (lit "enabled", valid_bool)
    ∷ (lit "description", sane_text)
    ∷ []

-- `globalsFields`
unfoldable pub globals_fields : Dict (Text → Bool)
unfolding name_re iface_re valid_bool
globals_fields =
    (lit "switch_vendor", name_re)
    ∷ (lit "trunk", λ s. is_empty s || iface_re s)
    ∷ (
      lit "ptp_timestamping",
      λ s. is_empty s || equal s (lit "software") || equal s (lit "hardware"),
    )
    ∷ (lit "show_lock", valid_bool)
    ∷ (lit "enabled", valid_bool)
    ∷ []

-- one field against its validator: an error text, or `none`
abbrev pub field_error : Host → Text → Text → Option (Text → Bool) → Option Text
field_error host k v none = some (lit "unknown option " ++ host.quoted k)
field_error host k v (some vf) =
    if not (vf v) then some (lit "invalid value for " ++ host.quoted k) else none

-- the first of two errors
abbrev pub or_error : Option Text → Option Text → Option Text
or_error none e = e
or_error (some m) e = some m

-- `validateFields`: the error, `none` for nil
unfoldable pub validate_fields : Host → Dict (Text → Bool) → Dict Text → Option Text
validate_fields host fields [] = none
validate_fields host fields ((k, v) ∷ vals) =
    or_error (field_error host k v (lookup k fields)) (validate_fields host fields vals)
