-- ===== src/Examples/Commands.antt =====
-- The commands of cmd/stagenethd/main.go at one system.
use stageneth.Prelude.{
  Bool, true, false, List, [], ◌∷◌, some, Text, lit, equal, lookup, member, if◌then◌else◌, IsMap,
  get_text, ◌≡◌, ◌∙◌, refl, ap, subst, insert, lookup-insert, equal_iff, Bool-cases, inl, inr,
}
use mathlib.Core.Option
use stageneth.Ucifile.Reader.{parse}
use stageneth.Stcfg.{Config, parse_config}
use stageneth.Engine.Disk.{Files, Engine, Snapshot, snapshot}
use stageneth.Engine.Apply.{Formats, Faults, Outcome, applied, apply, new_manifest}
use stageneth.Engine.{managed}
use stageneth.Engine.Disk.{managed_paths}
use stageneth.Engine.LastGood.{IndexFormat, index_of, last_good_dir, save_last_good}
use stageneth.Engine.LastGood.Laws.{no_faults}
use stageneth.Engine.LastGood.Laws.Kept.{Apart, inside}
use stageneth.Cmd.{
  RunFaults, Command, load_config, apply_command, rollback_command, reload_services,
}
use stageneth.Engine.Restored.{brought_back}
use stageneth.Engine.Disk.{read_file}
use stageneth.Cmd.Undone.{apply_command-undone}
use stageneth.Cmd.Recovered.{rollback_command-apply_command}

abbrev formats : Formats
formats = record { encode = λ mf. []; decode = λ t. []; quoted = λ t. t }

abbrev system : Engine
system = record {
  config_dir = lit "/c";
  manifest_path = lit "/m/m.json";
  rsyslog_conf = lit "/r";
  avail = [];
}

abbrev no_fault : Faults
no_fault = record {
  lock = false;
  plan_read = λ p. false;
  snapshot_read = λ p. false;
  conf_read = false;
  write = λ p. false;
  restore = λ p. false;
}

abbrev empty_config : Config
empty_config = record {
  schema_version = [];
  globals = [];
  services = [];
  bindings = [];
  forwardings = [];
  logging = [];
}

abbrev files : Files
files = (lit "/c/network", lit "config interface 'lan'") ∷ (lit "/c/stageneth", []) ∷ []

abbrev changed_of : Outcome → List Text
changed_of (applied changed snap) = changed
changed_of _ = []

-- the snapshot that an apply returns
abbrev snap_of : Outcome → Snapshot
snap_of (applied changed snap) = snap
snap_of _ = []

abbrev outcome : Outcome
outcome = (apply formats system no_fault empty_config files).1

abbrev new_names : List Text
new_names = lit "umdns" ∷ lit "mdns_repeater" ∷ []

apply_changed : changed_of outcome ≡ new_names
unfolding stageneth.Engine.Apply.apply stageneth.Engine.Apply.save_manifest
    stageneth.Engine.Apply.write_all stageneth.Engine.Apply.write_conf
    stageneth.Engine.Apply.write_configs stageneth.Engine.Collector.collector_conf_text
    stageneth.Engine.Disk.managed_paths stageneth.Engine.Plan.plan_config
    stageneth.Engine.legacy_managed stageneth.Engine.managed stageneth.Prelude.any
    stageneth.Prelude.contains_text stageneth.Prelude.equal stageneth.Prelude.is_control
    stageneth.Prelude.is_space stageneth.Prelude.lookup stageneth.Prelude.member
    stageneth.Prelude.select stageneth.Prelude.sort_text stageneth.Prelude.trim_space
    stageneth.Render.Firewall.firewall stageneth.Render.Logging.collector_block
    stageneth.Render.Logging.rsyslog stageneth.Render.Network.network stageneth.Render.Services.dhcp
    stageneth.Render.Services.mdns_repeater stageneth.Render.Services.umdns
    stageneth.Stcfg.service_names stageneth.Ucifile.Printer.text stageneth.Ucifile.Reader.parse
apply_changed = refl

from_changed :
    (o : Outcome) (c : Text) (changed : List Text)
    → changed_of o ≡ c ∷ changed
    → o ≡ applied (c ∷ changed) (snap_of o)
from_changed (applied names snap) c changed h = ap (λ l. applied l snap) h
from_changed (Outcome.failed errs) c changed h = cc h
from_changed Outcome.locked_out c changed h = cc h

apply_applied : outcome ≡ applied new_names (snap_of outcome)
apply_applied = from_changed outcome (lit "umdns") (lit "mdns_repeater" ∷ []) apply_changed

abbrev run_with : (Command → Bool) → RunFaults
run_with fails = record {
  load_fails = false;
  apply_faults = no_fault;
  command_fails = fails;
  restore_fails = λ p. false;
  save_faults = no_faults;
  rollback_faults = no_faults;
}

abbrev one_format : IndexFormat
one_format = record {
  encode = λ m. lit "{}";
  decode = λ t. some (index_of (snapshot no_fault.snapshot_read system files) []);
}

no_reload-fails : (reload_services (λ cmd. true) [] new_names).1 ≡ false
unfolding reload_services equal
no_reload-fails = refl

manifest_apart : member system.manifest_path (managed_paths system) ≡ false
unfolding stageneth.Engine.Disk.snapshot stageneth.Engine.managed stageneth.Prelude.equal
    stageneth.Prelude.member
manifest_apart = refl

no_show_lock : equal (get_text (lit "show_lock") empty_config.globals) (lit "1") ≡ false
unfolding get_text lookup equal
no_show_lock = refl

config_loaded : load_config false system files ≡ some empty_config
unfolding load_config lookup equal parse_config get_text parse stageneth.Prelude.trim_space
config_loaded = refl

apply_command-undone_example :
    ((apply_command formats one_format system (run_with (λ cmd. true)) false files).exit ≡ 1)
    × ((p : Text)
        → lookup p
            (apply_command formats one_format system (run_with (λ cmd. true)) false files).files
          ≡ (if equal system.manifest_path p
              then some (formats.encode (new_manifest system empty_config managed))
              else brought_back no_fault.snapshot_read system files p))
apply_command-undone_example =
    apply_command-undone formats one_format system (run_with (λ cmd. true)) empty_config files
      (lit "umdns") (lit "mdns_repeater" ∷ []) (snap_of outcome) config_loaded no_show_lock
      apply_applied no_reload-fails refl manifest_apart

abbrev fine : RunFaults
fine = run_with (λ cmd. false)

files-Apart : Apart (last_good_dir system) (snapshot no_fault.snapshot_read system files)
unfolding stageneth.Engine.Disk.snapshot stageneth.Engine.managed stageneth.Prelude.any
    stageneth.Prelude.contains_text stageneth.Prelude.equal stageneth.Prelude.member
    stageneth.Engine.LastGood.base_name last_good_dir
files-Apart = (
  refl,
  refl,
  refl,
  (
    refl,
    refl,
    refl,
    (
      refl,
      refl,
      refl,
      (refl, refl, refl, (refl, refl, refl, (refl, refl, refl, (refl, refl, refl, tt)))),
    ),
  ),
)

files-IsMap : IsMap files
unfolding lookup equal
files-IsMap = (refl, (refl, tt))

abbrev applied_files : Files
applied_files = (apply_command formats one_format system fine false files).files

exited : (apply_command formats one_format system fine false files).exit ≡ 0
unfolding stageneth.Engine.Apply.apply stageneth.Engine.Apply.save_manifest
    stageneth.Engine.Apply.write_all stageneth.Engine.Apply.write_conf
    stageneth.Engine.Apply.write_configs stageneth.Engine.Collector.collector_conf_text
    stageneth.Engine.Disk.managed_paths stageneth.Engine.Plan.plan_config
    stageneth.Engine.legacy_managed stageneth.Engine.managed stageneth.Prelude.any
    stageneth.Prelude.contains_text stageneth.Prelude.equal stageneth.Prelude.get_text
    stageneth.Prelude.is_control stageneth.Prelude.is_space stageneth.Prelude.lookup
    stageneth.Prelude.member stageneth.Prelude.select stageneth.Prelude.sort_text
    stageneth.Prelude.trim_space stageneth.Render.Firewall.firewall
    stageneth.Render.Logging.collector_block stageneth.Render.Logging.rsyslog
    stageneth.Render.Network.network stageneth.Render.Services.dhcp
    stageneth.Render.Services.mdns_repeater stageneth.Render.Services.umdns
    stageneth.Stcfg.service_names stageneth.Ucifile.Printer.text stageneth.Ucifile.Reader.parse
    apply_command parse_config
exited = refl

saved :
    (save_last_good one_format system no_faults
      (snapshot no_fault.snapshot_read system files)
      (apply formats system no_fault empty_config files).0).1
    ≡ true
unfolding stageneth.Engine.Disk.snapshot stageneth.Engine.managed stageneth.Prelude.equal
    stageneth.Prelude.lookup save_last_good
saved = refl

-- the files of a later day: the configuration was emptied
abbrev later_files : Files
later_files = insert (lit "/c/stageneth") [] applied_files

again_loaded : load_config false system later_files ≡ some empty_config
unfolding load_config equal parse_config get_text parse stageneth.Prelude.trim_space lookup
again_loaded =
    ap (λ o. Option.map (λ t. parse_config (parse t)) o)
      (lookup-insert (lit "/c/stageneth") (lit "/c/stageneth") [] applied_files)

not_inside : inside (last_good_dir system) (lit "/c/stageneth") ≡ false
unfolding last_good_dir stageneth.Prelude.has_prefix stageneth.Prelude.any
not_inside = refl

same_inside :
    (p : Text)
    → inside (last_good_dir system) p ≡ true
    → lookup p later_files ≡ lookup p applied_files
same_inside p h =
    lookup-insert (lit "/c/stageneth") p [] applied_files
    ∙ elim (Bool-cases (equal (lit "/c/stageneth") p)) [
      | inl same ↦ cc (
        subst (λ q. inside (last_good_dir system) q ≡ false)
            ((equal_iff (lit "/c/stageneth") p).0 same) not_inside,
        h,
      )
      | inr other ↦ rw other refl
    ]

network_managed : member (lit "/c/network") (managed_paths system) ≡ true
unfolding stageneth.Engine.Disk.snapshot stageneth.Engine.managed stageneth.Prelude.equal
    stageneth.Prelude.member
network_managed = refl

rollback_command-apply_command_example :
    lookup (lit "/c/network") (rollback_command one_format system fine later_files).files
    ≡ read_file false (lit "/c/network") files
rollback_command-apply_command_example =
    rollback_command-apply_command formats one_format system fine fine false empty_config
      empty_config files later_files (lit "umdns") (lit "mdns_repeater" ∷ []) (snap_of outcome)
      files-IsMap files-Apart refl config_loaded no_show_lock apply_applied exited saved same_inside
      again_loaded refl (lit "/c/network") network_managed
