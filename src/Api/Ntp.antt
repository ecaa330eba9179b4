-- ===== src/Api/Ntp.antt =====
-- `ntpSet` of internal/api/ntp.go: the checks of a request and the directives for `uci batch`. The code
-- runs `uci` on them and restarts the time service; that is not modelled.
pub mod Quotes
use stageneth.Prelude.{
  ℕ, Bool, not, ◌&&◌, ◌||◌, List, [], ◌∷◌, ◌++◌, Text, lit, is_empty, if◌then◌else◌, ltb, within,
  ◌==◌, all, byte_len, trim_space,
}
use stageneth.Api.Raw.{Commands, batch, invalid, prepend}

-- the body of the request
pub record NtpRequest : Type 0 where
  pub enabled : Bool
  pub enable_server : Bool
  pub servers : List Text
  pub timezone : Text

abbrev pub host_char : ℕ → Bool
host_char c =
    within b'a' b'z' c
    || within b'A' b'Z' c
    || within b'0' b'9' c
    || c == b'.'
    || c == b'_'
    || c == b':'
    || c == b'-'

-- `ntpHostRe.MatchString`
unfoldable pub ntp_host_re : Text → Bool
ntp_host_re s = not (is_empty s) && all host_char s

abbrev pub zone_char : ℕ → Bool
zone_char c = host_char c || c == b'+' || c == b'/' || c == b','

-- `ntpTzRe.MatchString`
unfoldable pub ntp_tz_re : Text → Bool
ntp_tz_re s = not (is_empty s) && all zone_char s

-- a setting in its quotes
abbrev pub setting : Text → Text → Text
setting key val = key ++ (lit "='" ++ (val ++ lit "'"))

-- the loop over the servers: the directive of each that is kept
unfoldable pub server_commands : List Text → Commands
unfolding ntp_host_re
server_commands [] = batch []
server_commands (given ∷ servers) =
    let rest = server_commands servers in
    let s = trim_space given in
    if is_empty s
    then rest
    else if ltb 253 (byte_len s) || not (ntp_host_re s)
    then invalid (lit "invalid server: " ++ s)
    else prepend (setting (lit "add_list system.ntp.server") s ∷ []) rest

abbrev pub flag : Bool → Text
flag b = if b then lit "1" else lit "0"

-- `req.Timezone`, after its default
abbrev pub zone_of : Text → Text
zone_of s = if is_empty s then lit "UTC0" else s

-- the directives in front of those of the servers
abbrev pub setting_commands : NtpRequest → Text → List Text
setting_commands req zone =
    lit "set system.ntp=timeserver"
    ∷ setting (lit "set system.ntp.enabled") (flag req.enabled)
    ∷ setting (lit "set system.ntp.enable_server") (flag req.enable_server)
    ∷ lit "delete system.ntp.server"
    ∷ setting (lit "set system.@system[0].timezone") zone
    ∷ []

abbrev pub zone_commands : NtpRequest → Text → Commands
zone_commands req zone =
    if ltb 64 (byte_len zone) || not (ntp_tz_re zone)
    then invalid (lit "invalid timezone")
    else prepend (setting_commands req zone) (server_commands req.servers)

-- `commands` of a request, or the error of its reply
unfoldable pub ntp_commands : NtpRequest → Commands
unfolding server_commands
ntp_commands req = zone_commands req (zone_of req.timezone)
