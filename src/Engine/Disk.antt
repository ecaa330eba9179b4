-- ===== src/Engine/Disk.antt =====
-- The files that internal/engine/engine.go reads and writes, its snapshots and their restoration.
use stageneth.Prelude.{
  Bool, List, [], ◌∷◌, ◌++◌, Option, none, some, Text, lit, is_empty, if◌then◌else◌, Dict, lookup,
  insert, remove, map,
}
use stageneth.Engine.{ManagedConfig, managed}

-- The content of each file that exists, by path.
abbrev pub Files : Type 0
Files = Dict Text

-- `os.ReadFile`: `none` is an error, of a file that is not there or of the read
unfoldable pub read_file : Bool → Text → Files → Option Text
read_file fails path fs = if fails then none else lookup path fs

-- the content that a reader works with, "" after an error
unfoldable pub read_or_empty : Bool → Text → Files → Text
unfolding read_file
read_or_empty fails path fs = elim (read_file fails path fs) [ none ↦ [] | some t ↦ t ]

-- `writeFileAtomic`: the new content replaces the old one by a rename, the last step that can fail.
-- `none` is the error; the temporary file is removed then.
unfoldable pub write_file_atomic : Bool → Text → Text → Files → Option Files
write_file_atomic fails path content fs = if fails then none else some (insert path content fs)

-- `Engine`; `avail` is the set that it was given, or what sysfs holds
pub record Engine : Type 0 where
  pub config_dir : Text
  pub manifest_path : Text
  pub rsyslog_conf : Text
  pub avail : List Text

-- `filepath.Join(e.ConfigDir, name)`, for a directory that is already clean
abbrev pub config_path : Engine → Text → Text
config_path e name = e.config_dir ++ (lit "/" ++ name)

-- `confPath`
unfoldable pub conf_path : Engine → Text
conf_path e = if is_empty e.rsyslog_conf then lit "/etc/rsyslog.conf" else e.rsyslog_conf

-- the paths that `snapshot` saves
unfoldable pub managed_paths : Engine → List Text
unfolding conf_path
managed_paths e = map (λ (mc : ManagedConfig). config_path e mc.name) managed ++ conf_path e ∷ []

-- `Snapshot`: for each path its content, or `none` where `existed` is false
abbrev pub Snapshot : Type 0
Snapshot = Dict (Option Text)

-- the loop of `snapshot`: `existed` is that the read had no error, of whatever kind
unfoldable pub take_snapshot : (Text → Bool) → List Text → Files → Snapshot
unfolding read_file
take_snapshot fails [] fs = []
take_snapshot fails (p ∷ ps) fs = (p, read_file (fails p) p fs) ∷ take_snapshot fails ps fs

-- `snapshot`
unfoldable pub snapshot : (Text → Bool) → Engine → Files → Snapshot
unfolding managed_paths take_snapshot
snapshot fails e fs = take_snapshot fails (managed_paths e) fs

-- one round of the loop of `Restore`: the files after it
unfoldable pub restore_file : Text → Option Text → Files → Files
restore_file p none fs = remove p fs
restore_file p (some content) fs = insert p content fs

-- `Restore`: the files after it, and the paths whose restoration failed
unfoldable pub restore : (Text → Bool) → Snapshot → Files → Files × List Text
unfolding restore_file
restore fails [] fs = (fs, [])
restore fails ((p, b) ∷ s) fs =
    let (after, errs) = restore fails s (if fails p then fs else restore_file p b fs) in
    (after, if fails p then p ∷ errs else errs)
