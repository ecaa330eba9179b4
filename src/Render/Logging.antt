-- ===== src/Render/Logging.antt =====
-- `CollectorInfo`, `Rsyslog` and `CollectorBlock` of internal/render/render.go.
use stageneth.Prelude.{
  ℕ, Bool, true, false, not, ◌&&◌, ◌||◌, List, [], ◌∷◌, ◌++◌, Option, none, some, Text, lit, equal,
  is_empty, if◌then◌else◌, within, ◌==◌, all, lookup, int_in, contains_text,
}
use stageneth.Ucifile.{Section}
use stageneth.Stcfg.{Config, Options}
use stageneth.Render.{opt, sec, option}

abbrev is_alnum : ℕ → Bool
is_alnum c = within b'A' b'Z' c || within b'a' b'z' c || within b'0' b'9' c

-- `syslogHostRe`
unfoldable pub syslog_host : Text → Bool
syslog_host s =
    not (is_empty s) && all (λ c. is_alnum c || c == b'.' || c == b'_' || c == b':' || c == b'-') s

-- `syslogDirRe`
unfoldable pub syslog_dir : Text → Bool
syslog_dir s =
    not (is_empty s) && all (λ c. is_alnum c || c == b'_' || c == b'/' || c == b'.' || c == b'-') s

-- `validSyslogPort`
unfoldable pub valid_syslog_port : Text → Bool
valid_syslog_port s = int_in 1 65535 s

-- the results of `CollectorInfo`
pub record Collector : Type 0 where
  pub enabled : Bool
  pub port : Text
  pub proto : Text
  pub dir : Text

abbrev collector_default : Collector
collector_default = record {
  enabled = false;
  port = lit "514";
  proto = lit "udp";
  dir = lit "/var/log/remote";
}

-- the settings of an enabled collector
unfoldable pub collector_settings : Options → Collector
unfolding valid_syslog_port syslog_dir option
collector_settings m =
    let p = option "port" m in
    let proto = option "protocol" m in
    let d = option "dir" m in
    record {
      enabled = true;
      port = if valid_syslog_port p then p else lit "514";
      proto = if equal proto (lit "tcp") || equal proto (lit "both") then proto else lit "udp";
      dir =
          if not (is_empty d) && syslog_dir d && not (contains_text d (lit ".."))
          then d
          else lit "/var/log/remote";
    }

-- `CollectorInfo`
unfoldable pub collector_info : Config → Collector
unfolding collector_settings option
collector_info st = elim (lookup (lit "collector") st.logging) [
  | none ↦ collector_default
  | some m ↦
      if equal (option "enabled" m) (lit "1") then collector_settings m else collector_default
]

abbrev forwarder_proto : Text → Text
forwarder_proto p = if not (equal p (lit "udp")) && not (equal p (lit "tcp")) then lit "udp" else p

unfoldable pub forwarder : Option Options → List Section
unfolding option syslog_host valid_syslog_port
forwarder none = []
forwarder (some remote) =
    if equal (option "enabled" remote) (lit "1")
      && not (is_empty (option "host" remote))
      && syslog_host (option "host" remote)
    then sec "forwarder" (lit "stageneth_remote") (
        opt "source" (lit "*.*")
        ∷ opt "target" (option "host" remote)
        ∷ opt "port" (
            if not (valid_syslog_port (option "port" remote))
            then lit "514"
            else option "port" remote)
        ∷ opt "protocol" (forwarder_proto (option "protocol" remote))
        ∷ [])
      ∷ []
    else []

unfoldable pub collector_inputs : Collector → List Section
collector_inputs col =
    if col.enabled
    then sec "rsyslog" (lit "syslog") (
        (if not (equal col.proto (lit "tcp"))
          then opt "udp_input" (lit "1") ∷ opt "udp_input_port" col.port ∷ []
          else [])
        ++ (if not (equal col.proto (lit "udp"))
            then opt "tcp_input" (lit "1") ∷ opt "tcp_input_port" col.port ∷ []
            else []))
      ∷ []
    else []

-- `Rsyslog`
unfoldable pub rsyslog : Config → List Section
unfolding forwarder collector_inputs
rsyslog st = forwarder (lookup (lit "remote") st.logging) ++ collector_inputs (collector_info st)

-- `CollectorBlock`
unfoldable pub collector_block : Config → Text
unfolding collector_info
collector_block st =
    let col = collector_info st in
    if not col.enabled
    then []
    else lit "template(name=\"stagenethRemoteFile\" type=\"string\" string=\""
      ++ (col.dir
          ++ (lit "/%HOSTNAME%.log\")\n"
              ++ (lit "if ($fromhost-ip != \"127.0.0.1\" and $fromhost-ip != \"::1\") then {\n"
                  ++ (lit "\taction(type=\"omfile\" dynaFile=\"stagenethRemoteFile\")\n"
                      ++ lit "\tstop\n}"))))
