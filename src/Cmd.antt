-- ===== src/Cmd.antt =====
-- packages/stagenethd/files/cmd/stagenethd/main.go: the commands of the engine's binary. What a run
-- starts outside, the init scripts and ethtool, is a list of commands, and which of them fail is an
-- argument. Printing is not modelled, nor is the remapping of the scripts for tests.
pub mod Undone
pub mod Recovered
use stageneth.Prelude.{
  ℕ, Bool, true, false, ◌||◌, List, [], ◌∷◌, ◌++◌, Option, none, some, Text, lit, equal,
  if◌then◌else◌, has_prefix, any, ◌==◌, map, get_text,
}
use mathlib.Core.Option
use stageneth.Ucifile.Reader.{parse}
use stageneth.Stcfg.{Config, parse_config}
use stageneth.Engine.Disk.{Files, Engine, Snapshot, config_path, read_file, restore}
use stageneth.Engine.Apply.{Formats, Faults, Outcome, applied, failed, locked_out, apply}
use stageneth.Engine.LastGood.{
  IndexFormat, LastGoodFaults, RolledBack, rolled_back, no_rollback, save_last_good, rollback,
  base_name,
}

-- a program with its arguments
abbrev pub Command : Type 0
Command = Text × List Text

abbrev script : Text → Text → Command
script name action = (lit "/etc/init.d/" ++ name, action ∷ [])

abbrev ethtool : List Text → Command
ethtool args = (lit "ethtool", args)

-- the interfaces that `tuneNics` passes over
abbrev untuned : Text → Bool
untuned iface =
    has_prefix iface (lit "lo")
    || has_prefix iface (lit "br-")
    || has_prefix iface (lit "bond")
    || has_prefix iface (lit "docker")
    || has_prefix iface (lit "veth")
    || has_prefix iface (lit "wg")
    || has_prefix iface (lit "tun")
    || any (λ c. c == b'.') iface

-- `tuneNics`
unfoldable pub tune_nics : List Text → List Command
tune_nics [] = []
tune_nics (iface ∷ avail) =
    let rest = tune_nics avail in
    if untuned iface
    then rest
    else ethtool (lit "--set-eee" ∷ iface ∷ lit "eee" ∷ lit "disabled" ∷ [])
      ∷ ethtool (lit "-G" ∷ iface ∷ lit "rx" ∷ lit "4096" ∷ lit "tx" ∷ lit "4096" ∷ [])
      ∷ ethtool (lit "-C" ∷ iface ∷ lit "rx-usecs" ∷ lit "0" ∷ lit "tx-usecs" ∷ lit "0" ∷ [])
      ∷ ethtool (
          lit "-K"
          ∷ iface
          ∷ lit "gro"
          ∷ lit "off"
          ∷ lit "tso"
          ∷ lit "off"
          ∷ lit "lro"
          ∷ lit "off"
          ∷ lit "gso"
          ∷ lit "off"
          ∷ [])
      ∷ rest

-- The commands of one config: those before the one whose error counts, that one, and those after it.
pub data Steps : Type 0 where
  steps : List Command → Command → List Command → Steps
  no_steps : Steps

-- the switch of `reloadServices`
unfoldable pub steps_of : List Text → Text → Steps
unfolding tune_nics
steps_of avail cfg =
    if equal cfg (lit "network")
    then steps [] (script (lit "network") (lit "reload")) (
        tune_nics avail
        ++ script (lit "stageneth-ptp") (lit "enable")
          ∷ script (lit "stageneth-ptp") (lit "restart")
          ∷ [])
    else if equal cfg (lit "firewall")
    then steps [] (script (lit "firewall") (lit "reload")) []
    else if equal cfg (lit "dhcp")
    then steps [] (script (lit "dnsmasq") (lit "restart")) []
    else if equal cfg (lit "rsyslog")
    then steps (script (lit "rsyslog") (lit "enable") ∷ []) (script (lit "rsyslog") (lit "restart"))
        []
    else if equal cfg (lit "umdns")
    then steps (script (lit "umdns") (lit "enable") ∷ []) (script (lit "umdns") (lit "restart")) []
    else if equal cfg (lit "mdns_repeater")
    then steps (script (lit "mdns-repeater") (lit "enable") ∷ [])
        (script (lit "mdns-repeater") (lit "restart")) []
    else no_steps

abbrev run_steps : Steps → List Command
run_steps no_steps = []
run_steps (steps before main after) = before ++ main ∷ after

abbrev steps_fail : (Command → Bool) → Steps → Bool
steps_fail fails no_steps = false
steps_fail fails (steps before main after) = fails main

-- `reloadServices`: the commands that it runs, and whether it returned no error
unfoldable pub reload_services : (Command → Bool) → List Text → List Text → List Command × Bool
unfolding steps_of
reload_services fails avail [] = ([], true)
reload_services fails avail (cfg ∷ changed) =
    let now = steps_of avail cfg in
    let (later, ok) = reload_services fails avail changed in
    if steps_fail fails now then (run_steps now, false) else (run_steps now ++ later, ok)

-- `stcfg.Load` of the configuration, in the directory that `engine.New` takes too; `none` is the error
unfoldable pub load_config : Bool → Engine → Files → Option Config
unfolding read_file
load_config fails e fs =
    Option.map (λ t. parse_config (parse t)) (read_file fails (config_path e (lit "stageneth")) fs)

-- What fails during a run of the binary.
pub record RunFaults : Type 0 where
  pub load_fails : Bool
  pub apply_faults : Faults
  pub command_fails : Command → Bool
  pub restore_fails : Text → Bool
  pub save_faults : LastGoodFaults
  pub rollback_faults : LastGoodFaults

-- What a run leaves: the files, the status of its exit, and the commands that it ran.
pub record Ran : Type 0 where
  pub files : Files
  pub exit : ℕ
  pub commands : List Command

abbrev pub ran : Files → ℕ → List Command → Ran
ran fs exit cmds = record { files = fs; exit = exit; commands = cmds }

abbrev rolled_reload : RunFaults → Engine → List Text → List Command → Files × List Text → Ran
rolled_reload run_faults e changed cmds (fs, []) =
    ran fs 1 (cmds ++ (reload_services run_faults.command_fails e.avail changed).0)
rolled_reload run_faults e changed cmds (fs, err ∷ errs) = ran fs 1 cmds

-- the part of `apply` behind the reload
abbrev pub after_reload :
    IndexFormat → Engine → RunFaults → List Text → Snapshot → Files → List Command × Bool → Ran
after_reload idx e run_faults changed snap fs (cmds, true) =
    ran (save_last_good idx e run_faults.save_faults snap fs).0 0 cmds
after_reload idx e run_faults changed snap fs (cmds, false) =
    rolled_reload run_faults e changed cmds (restore run_faults.restore_fails snap fs)

-- the part behind `Apply`
abbrev pub after_apply : IndexFormat → Engine → RunFaults → Bool → Files × Outcome → Ran
after_apply idx e run_faults no_reload (fs, failed errs) = ran fs 1 []
after_apply idx e run_faults no_reload (fs, locked_out) = ran fs 1 []
after_apply idx e run_faults no_reload (fs, applied [] snap) = ran fs 0 []
after_apply idx e run_faults no_reload (fs, applied (c ∷ changed) snap) =
    if no_reload
    then ran (save_last_good idx e run_faults.save_faults snap fs).0 0 []
    else after_reload idx e run_faults (c ∷ changed) snap fs
        (reload_services run_faults.command_fails e.avail (c ∷ changed))

-- a command on the configuration that was loaded
abbrev pub with_config : Option Config → Files → (Config → Ran) → Ran
with_config none fs next = ran fs 1 []
with_config (some st) fs next = next st

-- the command `apply` on its configuration
unfoldable pub apply_loaded :
    Formats → IndexFormat → Engine → RunFaults → Bool → Files → Config → Ran
unfolding reload_services
apply_loaded fmt idx e run_faults no_reload fs st =
    if equal (get_text (lit "show_lock") st.globals) (lit "1")
    then ran fs 3 []
    else after_apply idx e run_faults no_reload (apply fmt e run_faults.apply_faults st fs)

-- the command `apply`
unfoldable pub apply_command : Formats → IndexFormat → Engine → RunFaults → Bool → Files → Ran
unfolding load_config apply_loaded
apply_command fmt idx e run_faults no_reload fs =
    with_config (load_config run_faults.load_fails e fs) fs
      (apply_loaded fmt idx e run_faults no_reload fs)

abbrev config_of : Text → Text
config_of path =
    if equal (base_name path) (lit "rsyslog.conf") then lit "rsyslog" else base_name path

abbrev reloaded : Files → List Command × Bool → Ran
reloaded fs (cmds, true) = ran fs 0 cmds
reloaded fs (cmds, false) = ran fs 1 cmds

abbrev after_rollback : Engine → RunFaults → Files × RolledBack → Ran
after_rollback e run_faults (fs, no_rollback err) = ran fs 1 []
after_rollback e run_faults (fs, rolled_back paths (err ∷ errs)) = ran fs 1 []
after_rollback e run_faults (fs, rolled_back paths []) =
    reloaded fs (reload_services run_faults.command_fails e.avail (map config_of paths))

-- the command `rollback`, which needs the configuration only to be there
unfoldable pub rollback_command : IndexFormat → Engine → RunFaults → Files → Ran
unfolding load_config reload_services
rollback_command idx e run_faults fs =
    with_config (load_config run_faults.load_fails e fs) fs
      (λ st. after_rollback e run_faults (rollback idx e run_faults.rollback_faults fs))
