-- ===== src/Examples/Applied.antt =====
-- The engine of internal/engine/engine.go at one system.
use stageneth.Prelude.{
  true, false, List, [], ◌∷◌, Option, none, some, Text, lit, equal, lookup, ◌≡◌, ◌++◌, refl,
}
use stageneth.Ucifile.{File}
use stageneth.Ucifile.Clean.{IsCleanFile}
use stageneth.Ucifile.Printer.{clean_char}
use stageneth.Ucifile.Reader.{parse}
use stageneth.Stcfg.{Config}
use stageneth.Engine.{ManagedConfig, Manifest, managed, merge, recorded}
use stageneth.Engine.Plan.{plan_config}
use stageneth.Engine.Stable.{generated_names, Keeps, merge-Keeps, plan_config-again}
use stageneth.Engine.Disk.{Files, Engine, Snapshot, snapshot, restore, write_file_atomic}
use stageneth.Engine.Apply.{
  Formats, Faults, Written, and_then, and_then_on, new_manifest, failed, apply, write_all, plan,
  write_configs, write_conf, save_manifest, settle,
}
use stageneth.Engine.Restored.{brought_back, apply-failed}
use stageneth.Examples.Files.{two_services, audio, mgmt}

abbrev formats : Formats
formats = record { encode = λ mf. []; decode = λ t. []; quoted = λ t. t }

abbrev system : Engine
system = record {
  config_dir = lit "/etc/config";
  manifest_path = lit "/etc/stageneth/manifest.json";
  rsyslog_conf = lit "/etc/rsyslog.conf";
  avail = lit "eth0" ∷ [];
}

-- no write succeeds, and every restoration does
abbrev full_disk : Faults
full_disk = record {
  lock = false;
  plan_read = λ p. false;
  snapshot_read = λ p. false;
  conf_read = false;
  write = λ p. true;
  restore = λ p. false;
}

abbrev empty_config : Config
empty_config = record {
  schema_version = [];
  globals = [];
  services = [];
  bindings = [];
  forwardings = [];
  logging = [];
}

abbrev files : Files
files = (lit "/etc/config/network", lit "config interface 'lan'") ∷ []

merge-Keeps_example :
    (kept : File) × Keeps (audio ∷ []) [] two_services kept
    × (merge two_services (audio ∷ []) [] ≡ kept ++ audio ∷ [])
merge-Keeps_example = merge-Keeps two_services (audio ∷ []) []

abbrev one_config : ManagedConfig
one_config = record { name = lit "dhcp"; render = λ st avail. mgmt ∷ []; full_owner = false }

mgmt-IsCleanFile : IsCleanFile (mgmt ∷ [])
unfolding clean_char
mgmt-IsCleanFile = (
  record {
    typed = refl;
    type_clean = refl;
    name_clean = refl;
    items_clean = (record { named = refl; name_clean = refl; value_clean = refl }, tt);
  },
  tt,
)

parsed_nothing-IsCleanFile : IsCleanFile (parse [])
unfolding parse stageneth.Ucifile.Reader.read_lines stageneth.Ucifile.Reader.split_lines
    stageneth.Ucifile.Reader.read_line stageneth.Prelude.trim_space stageneth.Prelude.has_prefix
parsed_nothing-IsCleanFile = tt

recorded-mgmt :
    recorded (lit "dhcp") ((lit "dhcp", lit "mgmt" ∷ []) ∷ []) ≡ generated_names (mgmt ∷ [])
unfolding recorded generated_names lookup equal
recorded-mgmt = refl

plan_config-again_example :
    (plan_config
      (λ t. t)
      (some ((lit "dhcp", lit "mgmt" ∷ []) ∷ []))
      empty_config
      []
      one_config
      (plan_config (λ t. t) none empty_config [] one_config []).new_text).changed
    ≡ false
plan_config-again_example =
    plan_config-again (λ t. t) none ((lit "dhcp", lit "mgmt" ∷ []) ∷ []) empty_config [] one_config
      [] parsed_nothing-IsCleanFile mgmt-IsCleanFile recorded-mgmt

never_saved :
    (o : Option (List Text)) (w : Written) (mf : Manifest)
    → w.changed ≡ o
    → (and_then_on o w (save_manifest formats system full_disk mf)).changed ≡ none
unfolding save_manifest write_file_atomic
never_saved none w mf e = e
never_saved (some names) w mf e = refl

write_all-none : (write_all formats system full_disk empty_config files).changed ≡ none
unfolding write_all
write_all-none =
    let p = plan formats system full_disk empty_config files in
    let w =
      and_then (write_configs system full_disk [] p.changes files)
        (write_conf system full_disk empty_config p.rsyslog_conf_diff) in
    never_saved w.changed w (new_manifest system empty_config managed) refl

abbrev errors : List Text
errors =
    (restore (λ p. false) (snapshot full_disk.snapshot_read system files)
      (write_all formats system full_disk empty_config files).files).1

settle-none :
    (snap : Snapshot) (fs : Files) (o : Option (List Text))
    → o ≡ none
    → (settle full_disk snap fs o).1 ≡ failed (restore (λ p. false) snap fs).1
settle-none snap fs none e = refl
settle-none snap fs (some names) e = cc e

apply_failed : (apply formats system full_disk empty_config files).1 ≡ failed errors
unfolding apply
apply_failed =
    settle-none (snapshot full_disk.snapshot_read system files)
      (write_all formats system full_disk empty_config files).files
      (write_all formats system full_disk empty_config files).changed write_all-none

apply-failed_example :
    lookup (lit "/etc/config/dhcp") (apply formats system full_disk empty_config files).0
    ≡ brought_back full_disk.snapshot_read system files (lit "/etc/config/dhcp")
apply-failed_example =
    apply-failed formats system full_disk empty_config files errors refl apply_failed
      (lit "/etc/config/dhcp")
