-- ===== src/Cmd/Recovered.antt =====
-- `apply` and a later `rollback` of cmd/stagenethd/main.go.
use stageneth.Prelude.{
  Bool, true, false, not, List, [], ◌∷◌, ◌++◌, Option, none, some, Text, lit, equal, equal_iff,
  if◌then◌else◌, lookup, insert, member, get_text, IsMap, insert-IsMap, ◌≡◌, refl, sym, ◌∙◌, subst,
  ap, arith, Bool-cases, inl, inr, map,
}
use stageneth.Stcfg.{Config}
use stageneth.Engine.Disk.{
  Files, Engine, Snapshot, managed_paths, read_file, take_snapshot, snapshot, write_file_atomic,
  restore,
}
use stageneth.Engine.Apply.{
  Formats, Faults, Outcome, applied, locked_out, apply, settle, write_all, Written, save_manifest,
  and_then, and_then_on, write_configs, write_conf, plan, attempt, Planned,
}
use stageneth.Engine.LastGood.{
  IndexFormat, RolledBack, rolled_back, no_rollback, index_of, last_good_dir, save_last_good,
  rollback,
}
use stageneth.Engine.LastGood.Laws.{put_back, no_faults, rollback-save_last_good}
use stageneth.Engine.LastGood.Laws.Kept.{Apart, inside}
use stageneth.Cmd.{
  Command, RunFaults, reload_services, after_reload, after_apply, apply_command, after_rollback,
  rollback_command, reloaded, config_of, load_config, with_config,
}
use stageneth.Cmd.Undone.{apply-applied, rolled_reload-lem, apply_command-loaded}

choose-IsMap :
    (b : Bool) (x y : Written) → IsMap x.files → IsMap y.files → IsMap (if b then x else y).files
choose-IsMap true x y h k = h
choose-IsMap false x y h k = k

attempt-IsMap :
    (fails : Bool) (k content : Text) (fs : Files) (next : Files → Written)
    → IsMap fs
    → IsMap (next (insert k content fs)).files
    → IsMap (attempt (write_file_atomic fails k content fs) fs next).files
unfolding write_file_atomic
attempt-IsMap true k content fs next h later = h
attempt-IsMap false k content fs next h later = later

write_configs-IsMap :
    (e : Engine) (io_faults : Faults) (names : List Text) (changes : List Planned) (fs : Files)
    → IsMap fs
    → IsMap (write_configs e io_faults names changes fs).files
unfolding write_configs
write_configs-IsMap e io_faults names [] fs h = h
write_configs-IsMap e io_faults names ((mc, fc) ∷ rest) fs h =
    let path = stageneth.Engine.Disk.config_path e mc.name in
    choose-IsMap (not fc.changed) _ _ (write_configs-IsMap e io_faults names rest fs h) (
      attempt-IsMap (io_faults.write path) path fc.new_text fs _ h (
        write_configs-IsMap e io_faults (names ++ mc.name ∷ []) rest _
          (insert-IsMap path fc.new_text fs h)))

write_conf-IsMap :
    (e : Engine) (io_faults : Faults) (st : Config) (diff : Bool) (names : List Text) (fs : Files)
    → IsMap fs
    → IsMap (write_conf e io_faults st diff names fs).files
unfolding write_conf
write_conf-IsMap e io_faults st diff names fs h =
    let path = stageneth.Engine.Disk.conf_path e in
    choose-IsMap diff _ _
      (attempt-IsMap (io_faults.write path) path _ fs _ h (insert-IsMap path _ fs h)) h

and_then-IsMap :
    (o : Option (List Text)) (w : Written) (next : List Text → Files → Written)
    → IsMap w.files
    → ((names : List Text) → IsMap (next names w.files).files)
    → IsMap (and_then_on o w next).files
and_then-IsMap none w next h k = h
and_then-IsMap (some names) w next h k = k names

write_all-IsMap :
    (fmt : Formats) (e : Engine) (io_faults : Faults) (st : Config) (fs : Files)
    → IsMap fs
    → IsMap (write_all fmt e io_faults st fs).files
unfolding write_all save_manifest
write_all-IsMap fmt e io_faults st fs h =
    let p = plan fmt e io_faults st fs in
    let w = write_configs e io_faults [] p.changes fs in
    let both = and_then w (write_conf e io_faults st p.rsyslog_conf_diff) in
    let before : IsMap both.files =
      and_then-IsMap w.changed w (write_conf e io_faults st p.rsyslog_conf_diff)
        (write_configs-IsMap e io_faults [] p.changes fs h)
        (λ names.
          write_conf-IsMap e io_faults st p.rsyslog_conf_diff names w.files
            (write_configs-IsMap e io_faults [] p.changes fs h)) in
    and_then-IsMap both.changed both _ before (λ names.
      attempt-IsMap (io_faults.write e.manifest_path) e.manifest_path _ both.files _ before
        (insert-IsMap e.manifest_path _ both.files before))

settle-IsMap :
    (io_faults : Faults) (taken snap : Snapshot) (fs : Files) (o : Option (List Text))
    (changed : List Text)
    → (settle io_faults taken fs o).1 ≡ applied changed snap
    → IsMap fs
    → IsMap (settle io_faults taken fs o).0
settle-IsMap io_faults taken snap fs none changed e h = cc e
settle-IsMap io_faults taken snap fs (some names) changed e h = h

unlocked-IsMap :
    (lock : Bool) (fs : Files) (r : Files × Outcome) (changed : List Text) (snap : Snapshot)
    → (if lock then (fs, locked_out) else r).1 ≡ applied changed snap
    → (r.1 ≡ applied changed snap → IsMap r.0)
    → IsMap (if lock then (fs, locked_out) else r).0
unlocked-IsMap true fs r changed snap e h = cc e
unlocked-IsMap false fs r changed snap e h = h e

apply-IsMap :
    (fmt : Formats) (e : Engine) (io_faults : Faults) (st : Config) (fs : Files)
    (changed : List Text) (snap : Snapshot)
    → (apply fmt e io_faults st fs).1 ≡ applied changed snap
    → IsMap fs
    → IsMap (apply fmt e io_faults st fs).0
unfolding apply
apply-IsMap fmt e io_faults st fs changed snap is_applied h =
    let w = write_all fmt e io_faults st fs in
    unlocked-IsMap io_faults.lock fs
      (settle io_faults (snapshot io_faults.snapshot_read e fs) w.files w.changed) changed snap
      is_applied
      (λ done.
        settle-IsMap io_faults (snapshot io_faults.snapshot_read e fs) snap w.files w.changed
          changed done (write_all-IsMap fmt e io_faults st fs h))

-- where the services could be reloaded, or need not be
saved_files :
    (idx : IndexFormat) (e : Engine) (run_faults : RunFaults) (no_reload : Bool) (c : Text)
    (changed : List Text) (snap : Snapshot) (fs : Files) (o : Outcome)
    → applied (c ∷ changed) snap ≡ o
    → (after_apply idx e run_faults no_reload (fs, o)).exit ≡ 0
    → (after_apply idx e run_faults no_reload (fs, o)).files
      ≡ (save_last_good idx e run_faults.save_faults snap fs).0
saved_files idx e run_faults no_reload c changed snap fs o same =
    subst
      (λ x.
        (after_apply idx e run_faults no_reload (fs, x)).exit ≡ 0
        → (after_apply idx e run_faults no_reload (fs, x)).files
          ≡ (save_last_good idx e run_faults.save_faults snap fs).0)
      same (by_reload no_reload)
  where
    reload_ok :
        (x : List Command × Bool)
        → (after_reload idx e run_faults (c ∷ changed) snap fs x).exit ≡ 0
        → (after_reload idx e run_faults (c ∷ changed) snap fs x).files
          ≡ (save_last_good idx e run_faults.save_faults snap fs).0
    reload_ok (cmds, true) h = refl
    reload_ok (cmds, false) h =
        let one =
          (rolled_reload-lem run_faults e (c ∷ changed) cmds
            (restore run_faults.restore_fails snap fs)).1 in
        let no : ⊥ = omega (arith, one, h) in elim no [ ]

    by_reload :
        (b : Bool)
        → (after_apply idx e run_faults b (fs, applied (c ∷ changed) snap)).exit ≡ 0
        → (after_apply idx e run_faults b (fs, applied (c ∷ changed) snap)).files
          ≡ (save_last_good idx e run_faults.save_faults snap fs).0
    by_reload true h = refl
    by_reload false h = reload_ok (reload_services run_faults.command_fails e.avail (c ∷ changed)) h

rollback_files :
    (e : Engine) (run_faults : RunFaults) (r : Files × RolledBack)
    → (after_rollback e run_faults r).files ≡ r.0
rollback_files e run_faults (fs, no_rollback err) = refl
rollback_files e run_faults (fs, rolled_back paths (err ∷ errs)) = refl
rollback_files e run_faults (fs, rolled_back paths []) =
    reloaded_files (reload_services run_faults.command_fails e.avail (map config_of paths))
  where
    reloaded_files : (x : List Command × Bool) → (reloaded fs x).files ≡ fs
    reloaded_files (cmds, true) = refl
    reloaded_files (cmds, false) = refl

lookup-take_snapshot :
    (fails : Text → Bool) (p : Text) (ps : List Text) (fs : Files)
    → member p ps ≡ true
    → lookup p (take_snapshot fails ps fs) ≡ some (read_file (fails p) p fs)
unfolding lookup take_snapshot member
lookup-take_snapshot fails p [] fs h = cc h
lookup-take_snapshot fails p (k ∷ ps) fs h = elim (Bool-cases (equal k p)) [
  | inl same ↦ rw same (
      subst (λ q. some (read_file (fails k) k fs) ≡ some (read_file (fails q) q fs))
        ((equal_iff k p).0 same) refl)
  | inr other ↦ rw other (lookup-take_snapshot fails p ps fs (rw other at h))
]

-- Where a run of `apply` exited with 0 after it had written its files, and its last-good snapshot could be
-- saved, a later run of `rollback` gives every managed file the content that the snapshot of the `apply`
-- read, and removes it where that read failed or there was no file, whatever became of the other files
-- outside the last-good directory between the two. The configuration can be loaded by both runs, no step of
-- the rollback fails, the names that the managed files are kept under are apart, the index survives its
-- encoding, the show lock was not set, and no path stands twice in the files before.
pub rollback_command-apply_command :
    (fmt : Formats) (idx : IndexFormat) (e : Engine) (run_faults back_faults : RunFaults)
    (no_reload : Bool) (st later_st : Config) (fs later : Files) (c : Text) (changed : List Text)
    (snap : Snapshot)
    → IsMap fs
    → Apart (last_good_dir e) (snapshot run_faults.apply_faults.snapshot_read e fs)
    → idx.decode (idx.encode (index_of (snapshot run_faults.apply_faults.snapshot_read e fs) []))
      ≡ some (index_of (snapshot run_faults.apply_faults.snapshot_read e fs) [])
    → load_config run_faults.load_fails e fs ≡ some st
    → equal (get_text (lit "show_lock") st.globals) (lit "1") ≡ false
    → (apply fmt e run_faults.apply_faults st fs).1 ≡ applied (c ∷ changed) snap
    → (apply_command fmt idx e run_faults no_reload fs).exit ≡ 0
    → (save_last_good idx e run_faults.save_faults
        (snapshot run_faults.apply_faults.snapshot_read e fs)
        (apply fmt e run_faults.apply_faults st fs).0).1
      ≡ true
    → ((p : Text)
        → inside (last_good_dir e) p ≡ true
        → lookup p later ≡ lookup p (apply_command fmt idx e run_faults no_reload fs).files)
    → load_config back_faults.load_fails e later ≡ some later_st
    → back_faults.rollback_faults ≡ no_faults
    → (p : Text) → member p (managed_paths e) ≡ true
    → lookup p (rollback_command idx e back_faults later).files
      ≡ read_file (run_faults.apply_faults.snapshot_read p) p fs
unfolding rollback_command snapshot
rollback_command-apply_command fmt idx e run_faults back_faults no_reload st later_st fs later c
      changed snap is_map apart coded loaded no_lock is_applied exited saved same again works p
      inside_p =
    let r = apply fmt e run_faults.apply_faults st fs in
    let read = run_faults.apply_faults.snapshot_read in
    let taken =
      (apply-applied fmt e run_faults.apply_faults st fs (c ∷ changed) snap is_applied).0 in
    let run = apply_command-loaded fmt idx e run_faults no_reload st fs loaded no_lock in
    let files_are : (apply_command fmt idx e run_faults no_reload fs).files
        ≡ (save_last_good idx e run_faults.save_faults (snapshot read e fs) r.0).0 =
      ap (λ x. x.files) run
      ∙ saved_files idx e run_faults no_reload c changed snap r.0 r.1 (sym is_applied)
          (sym (ap (λ x. x.exit) run) ∙ exited)
      ∙ ap (λ s. (save_last_good idx e run_faults.save_faults s r.0).0) taken in
    let back =
      rollback-save_last_good idx e run_faults.save_faults (snapshot read e fs) r.0 later coded
        apart (apply-IsMap fmt e run_faults.apply_faults st fs (c ∷ changed) snap is_applied is_map)
        saved (λ q within_dir. same q within_dir ∙ ap (lookup q) files_are) in
    ap
      (λ o.
        lookup p
          (with_config o later (λ s.
            after_rollback e back_faults (rollback idx e back_faults.rollback_faults later))).files)
      again
    ∙ ap (lookup p)
        (rollback_files e back_faults (rollback idx e back_faults.rollback_faults later))
    ∙ ap (λ f. lookup p (rollback idx e f later).0) works
    ∙ back.0 p
    ∙ ap (λ o. put_back o (lookup p later))
        (lookup-take_snapshot read p (managed_paths e) fs inside_p)
