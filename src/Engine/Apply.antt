-- ===== src/Engine/Apply.antt =====
-- `Plan` and `Apply` of internal/engine/engine.go. Arguments stand for what is not in the source: the
-- JSON form of the manifest, the verb `%q`, and which steps fail. An apply holds an exclusive lock,
-- so no other apply runs between its steps.
use stageneth.Prelude.{
  Bool, not, List, [], ◌∷◌, ◌++◌, Option, none, some, Text, lit, equal, if◌then◌else◌, member,
}
use mathlib.Core.Option
use stageneth.Stcfg.{Config}
use stageneth.Engine.{ManagedConfig, Manifest, managed}
use stageneth.Engine.Plan.{FileChange, plan_config}
use stageneth.Engine.Collector.{collector_conf_text}
use stageneth.Engine.Stable.{generated_names}
use stageneth.Engine.Disk.{
  Files, Engine, read_file, read_or_empty, write_file_atomic, config_path, conf_path, Snapshot,
  snapshot, restore,
}

-- `json.MarshalIndent` and `json.Unmarshal` on the manifest, and `%q`
pub record Formats : Type 0 where
  pub encode : Manifest → Text
  pub decode : Text → Manifest
  pub quoted : Text → Text

-- Which steps fail: taking the lock, reading a path for the plan or for the snapshot, reading rsyslog.conf
-- for its write, writing a path, and restoring a path.
pub record Faults : Type 0 where
  pub lock : Bool
  pub plan_read : Text → Bool
  pub snapshot_read : Text → Bool
  pub conf_read : Bool
  pub write : Text → Bool
  pub restore : Text → Bool

-- `loadManifest`
unfoldable pub load_manifest : Formats → Engine → Faults → Files → Option Manifest
unfolding read_file
load_manifest fmt e io_faults fs =
    Option.map fmt.decode (read_file (io_faults.plan_read e.manifest_path) e.manifest_path fs)

-- a managed config with its change, as `Apply` pairs them by position
abbrev pub Planned : Type 0
Planned = ManagedConfig × FileChange

unfoldable pub plan_configs :
    Formats → Engine → Faults → Config → Files → List ManagedConfig → List Planned
unfolding load_manifest read_or_empty
plan_configs fmt e io_faults st fs [] = []
plan_configs fmt e io_faults st fs (mc ∷ mcs) =
    (
      mc,
      plan_config fmt.quoted (load_manifest fmt e io_faults fs) st e.avail mc
          (read_or_empty (io_faults.plan_read (config_path e mc.name)) (config_path e mc.name) fs),
    )
    ∷ plan_configs fmt e io_faults st fs mcs

-- `Plan`
pub record Plan : Type 0 where
  pub changes : List Planned
  pub rsyslog_conf_diff : Bool

unfoldable pub plan : Formats → Engine → Faults → Config → Files → Plan
unfolding plan_configs
plan fmt e io_faults st fs =
    let old = read_or_empty (io_faults.plan_read (conf_path e)) (conf_path e) fs in
    record {
      changes = plan_configs fmt e io_faults st fs managed;
      rsyslog_conf_diff = not (equal (collector_conf_text old st) old);
    }

-- The files after some writes and, unless one failed, the names of the changed configs.
pub record Written : Type 0 where
  pub files : Files
  pub changed : Option (List Text)

-- what follows a write: nothing more after a failure
abbrev pub attempt : Option Files → Files → (Files → Written) → Written
attempt none before next = record { files = before; changed = none }
attempt (some after) before next = next after

-- the loop of `Apply` over the configs; a failed write ends it
unfoldable pub write_configs : Engine → Faults → List Text → List Planned → Files → Written
unfolding write_file_atomic
write_configs e io_faults names [] fs = record { files = fs; changed = some names }
write_configs e io_faults names ((mc, fc) ∷ rest) fs =
    let skipped = write_configs e io_faults names rest fs in
    let path = config_path e mc.name in
    let written =
      attempt (write_file_atomic (io_faults.write path) path fc.new_text fs) fs
        (write_configs e io_faults (names ++ mc.name ∷ []) rest) in
    if not fc.changed then skipped else written

-- the write of rsyslog.conf
unfoldable pub write_conf : Engine → Faults → Config → Bool → List Text → Files → Written
unfolding write_file_atomic
write_conf e io_faults st diff names fs =
    if diff
    then attempt
        (write_file_atomic (io_faults.write (conf_path e)) (conf_path e)
          (collector_conf_text (read_or_empty io_faults.conf_read (conf_path e) fs) st) fs)
        fs
        (λ after. record {
          files = after;
          changed =
              some
                (if not (member (lit "rsyslog") names) then names ++ lit "rsyslog" ∷ [] else names);
        })
    else record { files = fs; changed = some names }

-- the manifest that `Apply` records
unfoldable pub new_manifest : Engine → Config → List ManagedConfig → Manifest
unfolding generated_names
new_manifest e st [] = []
new_manifest e st (mc ∷ mcs) =
    (mc.name, generated_names (mc.render st e.avail)) ∷ new_manifest e st mcs

-- `saveManifest`
unfoldable pub save_manifest : Formats → Engine → Faults → Manifest → List Text → Files → Written
unfolding write_file_atomic
save_manifest fmt e io_faults mf names fs =
    attempt (write_file_atomic (io_faults.write e.manifest_path) e.manifest_path (fmt.encode mf) fs)
      fs (λ after. record { files = after; changed = some names })

-- a step that runs when the ones before it have not failed
abbrev pub and_then_on : Option (List Text) → Written → (List Text → Files → Written) → Written
and_then_on none w next = w
and_then_on (some names) w next = next names w.files

abbrev pub and_then : Written → (List Text → Files → Written) → Written
and_then w next = and_then_on w.changed w next

-- the writes of `Apply`, in their order
unfoldable pub write_all : Formats → Engine → Faults → Config → Files → Written
unfolding plan
write_all fmt e io_faults st fs =
    let p = plan fmt e io_faults st fs in
    and_then
      (and_then (write_configs e io_faults [] p.changes fs)
        (write_conf e io_faults st p.rsyslog_conf_diff))
      (save_manifest fmt e io_faults (new_manifest e st managed))

-- What `Apply` returns: the changed configs with the snapshot, or an error with the paths that the
-- rollback could not restore.
pub data Outcome : Type 0 where
  applied : List Text → Snapshot → Outcome
  failed : List Text → Outcome
  locked_out : Outcome

abbrev pub settle : Faults → Snapshot → Files → Option (List Text) → Files × Outcome
settle io_faults snap fs (some names) = (fs, applied names snap)
settle io_faults snap fs none =
    let (after, errs) = restore io_faults.restore snap fs in (after, failed errs)

-- `Apply`
unfoldable pub apply : Formats → Engine → Faults → Config → Files → Files × Outcome
apply fmt e io_faults st fs =
    let w = write_all fmt e io_faults st fs in
    if io_faults.lock
    then (fs, locked_out)
    else settle io_faults (snapshot io_faults.snapshot_read e fs) w.files w.changed
