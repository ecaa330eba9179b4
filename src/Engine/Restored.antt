-- ===== src/Engine/Restored.antt =====
-- A failed apply of internal/engine/engine.go leaves every file as it was.
use stageneth.Prelude.{
  Bool, true, false, List, [], ◌∷◌, ◌++◌, Option, none, some, Text, equal, equal_iff, equal_refl,
  if◌then◌else◌, lookup, member, map, ◌≡◌, ◌∙◌, refl, sym, append_assoc, subst, arith, Bool-cases,
  inl, inr, lookup-insert, lookup-remove,
}
use stageneth.Stcfg.{Config}
use stageneth.Engine.{ManagedConfig, managed}
use stageneth.Engine.Disk.{
  Files, Engine, config_path, conf_path, managed_paths, snapshot, take_snapshot, read_file,
  restore_file, restore,
}
use stageneth.Engine.Apply.{
  Formats, Faults, plan, Written, write_configs, write_conf, save_manifest, new_manifest, and_then,
  settle, write_all, Outcome, failed, locked_out, apply, plan_configs,
}
use stageneth.Engine.Agrees.{
  Agrees, Inside, write_configs-Agrees, write_conf-Agrees, save_manifest-Agrees, and_then-Agrees,
  and_then-failed,
}

pub lookup-restore_file :
    (k p : Text) (b : Option Text) (fs : Files)
    → lookup p (restore_file k b fs) ≡ (if equal k p then b else lookup p fs)
unfolding restore_file
lookup-restore_file k p none fs = lookup-remove k p fs
lookup-restore_file k p (some c) fs = lookup-insert k p c fs

-- The content of a path after the snapshot, taken before with these errors of reading, is restored: that of
-- before, but nothing for a managed file that could not be read.
abbrev pub brought_back : (Text → Bool) → Engine → Files → Text → Option Text
brought_back fails e before p =
    if member p (managed_paths e) then read_file (fails p) p before else lookup p before

-- a restoration brings back exactly the paths of the snapshot
lookup-restore :
    (fails : Text → Bool) (ps : List Text) (before fs : Files) (p : Text)
    → lookup p (restore (λ _. false) (take_snapshot fails ps before) fs).0
      ≡ (if member p ps then read_file (fails p) p before else lookup p fs)
unfolding restore take_snapshot member
lookup-restore fails [] before fs p = refl
lookup-restore fails (k ∷ ps) before fs p =
    lookup-restore fails ps before (restore_file k (read_file (fails k) k before) fs) p
    ∙ elim (Bool-cases (equal k p)) [
      | inl same ↦
          let there : read_file (fails k) k before ≡ read_file (fails p) p before =
            subst (λ q. read_file (fails k) k before ≡ read_file (fails q) q before)
              ((equal_iff k p).0 same) refl in
          rw (lookup-restore_file, same, there) (ground arith)
      | inr other ↦ rw (lookup-restore_file, other) refl
    ]

pub lookup-restore_snapshot :
    (fails : Text → Bool) (e : Engine) (before fs : Files) (p : Text)
    → lookup p (restore (λ _. false) (snapshot fails e before) fs).0
      ≡ (if member p (managed_paths e) then read_file (fails p) p before else lookup p fs)
unfolding snapshot
lookup-restore_snapshot fails e before fs p = lookup-restore fails (managed_paths e) before fs p

-- Where only managed paths have changed, every path is brought back.
restore-snapshot :
    (fails : Text → Bool) (e : Engine) (before fs : Files) (p : Text)
    → Agrees (managed_paths e) before fs
    → lookup p (restore (λ _. false) (snapshot fails e before) fs).0 ≡ brought_back fails e before p
restore-snapshot fails e before fs p h =
    lookup-restore_snapshot fails e before fs p ∙ elim (Bool-cases (member p (managed_paths e))) [
      | inl inside ↦ rw inside refl
      | inr outside ↦ rw outside (h p outside)
    ]

member-middle : (k : Text) (ps qs : List Text) → member k (ps ++ (k ∷ qs)) ≡ true
unfolding member
member-middle k [] qs = rw equal_refl
member-middle k (p ∷ ps) qs = ground (arith, member-middle k ps qs)

plan_configs-Inside :
    (fmt : Formats) (e : Engine) (io_faults : Faults) (st : Config) (fs : Files)
    (mcs : List ManagedConfig) (ps qs : List Text)
    → Inside e
        (ps ++ (map (λ (mc : ManagedConfig). config_path e mc.name) mcs ++ qs))
        (plan_configs fmt e io_faults st fs mcs)
unfolding plan_configs
plan_configs-Inside fmt e io_faults st fs [] ps qs = tt
plan_configs-Inside fmt e io_faults st fs (mc ∷ mcs) ps qs =
    let rest = map (λ (m : ManagedConfig). config_path e m.name) mcs ++ qs in
    (
      member-middle (config_path e mc.name) ps rest,
      subst (λ l. Inside e l (plan_configs fmt e io_faults st fs mcs))
          (append_assoc ps (config_path e mc.name ∷ []) rest)
          (plan_configs-Inside fmt e io_faults st fs mcs (ps ++ config_path e mc.name ∷ []) qs),
    )

-- the writes before the manifest are to the managed paths
pub writes-Agrees :
    (fmt : Formats) (e : Engine) (io_faults : Faults) (st : Config) (fs : Files)
    → Agrees
        (managed_paths e)
        fs
        (and_then
          (write_configs e io_faults [] (plan fmt e io_faults st fs).changes fs)
          (write_conf e io_faults st (plan fmt e io_faults st fs).rsyslog_conf_diff)).files
writes-Agrees fmt e io_faults st fs =
    let ps = managed_paths e in
    let p = plan fmt e io_faults st fs in
    let w = write_configs e io_faults [] p.changes fs in
    let inside : member (conf_path e) ps ≡ true =
      unfold managed_paths in
      member-middle (conf_path e) (map (λ (mc : ManagedConfig). config_path e mc.name) managed)
        [] in
    let configs : Agrees ps fs w.files =
      write_configs-Agrees ps fs e io_faults [] p.changes fs
        (unfold plan managed_paths in
          plan_configs-Inside fmt e io_faults st fs managed [] (conf_path e ∷ []))
        (λ k out. refl) in
    and_then-Agrees ps fs w.changed w (write_conf e io_faults st p.rsyslog_conf_diff) configs
      (λ names.
        write_conf-Agrees ps fs e io_faults st p.rsyslog_conf_diff names w.files inside configs)

write_all-Agrees :
    (fmt : Formats) (e : Engine) (io_faults : Faults) (st : Config) (fs : Files)
    → (write_all fmt e io_faults st fs).changed ≡ none
    → Agrees (managed_paths e) fs (write_all fmt e io_faults st fs).files
unfolding write_all
write_all-Agrees fmt e io_faults st fs h =
    let p = plan fmt e io_faults st fs in
    let both =
      and_then (write_configs e io_faults [] p.changes fs)
        (write_conf e io_faults st p.rsyslog_conf_diff) in
    let agreed = writes-Agrees fmt e io_faults st fs in
    and_then-failed (managed_paths e) fs both.changed both
      (save_manifest fmt e io_faults (new_manifest e st managed)) h agreed
      (save_manifest-Agrees (managed_paths e) fs fmt e io_faults (new_manifest e st managed)
        both.files agreed)

settle-failed :
    (e : Engine) (io_faults : Faults) (before : Files) (errs : List Text) (w : Written)
    (o : Option (List Text))
    → io_faults.restore ≡ (λ _. false)
    → (o ≡ none → Agrees (managed_paths e) before w.files)
    → (settle io_faults (snapshot io_faults.snapshot_read e before) w.files o).1 ≡ failed errs
    → (p : Text)
    → lookup p (settle io_faults (snapshot io_faults.snapshot_read e before) w.files o).0
      ≡ brought_back io_faults.snapshot_read e before p
settle-failed e io_faults before errs w none r k h p =
    let read = io_faults.snapshot_read in
    subst
      (λ f. lookup p (restore f (snapshot read e before) w.files).0 ≡ brought_back read e before p)
      (sym r) (restore-snapshot read e before w.files p (k refl))
settle-failed e io_faults before errs w (some names) r k h p = cc

unlocked :
    (lock : Bool) (fs : Files) (settled : Files × Outcome) (errs : List Text) (p : Text)
    (content : Option Text)
    → (if lock then (fs, locked_out) else settled).1 ≡ failed errs
    → (settled.1 ≡ failed errs → lookup p settled.0 ≡ content)
    → lookup p (if lock then (fs, locked_out) else settled).0 ≡ content
unlocked true fs settled errs p content h k = cc h
unlocked false fs settled errs p content h k = k h

-- An apply that fails, at whatever write, leaves every file of the system as it was before, if the rollback
-- itself meets no failure, but for one kind: a managed file that is there but could not be read for the
-- snapshot is removed. No path is left half applied, and no new one is left behind.
pub apply-failed :
    (fmt : Formats) (e : Engine) (io_faults : Faults) (st : Config) (fs : Files) (errs : List Text)
    → io_faults.restore ≡ (λ _. false)
    → (apply fmt e io_faults st fs).1 ≡ failed errs
    → (p : Text)
    → lookup p (apply fmt e io_faults st fs).0 ≡ brought_back io_faults.snapshot_read e fs p
unfolding apply
apply-failed fmt e io_faults st fs errs r h p =
    let w = write_all fmt e io_faults st fs in
    unlocked io_faults.lock fs
      (settle io_faults (snapshot io_faults.snapshot_read e fs) w.files w.changed) errs p
      (brought_back io_faults.snapshot_read e fs p) h
      (λ settled.
        settle-failed e io_faults fs errs w w.changed r (write_all-Agrees fmt e io_faults st fs)
          settled p)
