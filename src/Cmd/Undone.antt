-- ===== src/Cmd/Undone.antt =====
-- What a run of `apply` of cmd/stagenethd/main.go leaves when a service cannot be reloaded.
use stageneth.Prelude.{
  Bool, true, false, List, [], ◌∷◌, Option, none, some, Text, lit, equal, equal_iff, if◌then◌else◌,
  lookup, insert, member, get_text, lookup-insert, ◌≡◌, refl, sym, ◌∙◌, subst, Bool-cases, inl, inr,
  ap,
}
use stageneth.Stcfg.{Config}
use stageneth.Engine.{managed, Manifest}
use stageneth.Engine.Disk.{
  Files, Engine, Snapshot, managed_paths, snapshot, restore, write_file_atomic,
}
use stageneth.Engine.Apply.{
  Formats, Faults, Outcome, applied, locked_out, apply, settle, write_all, Written, new_manifest,
  save_manifest, and_then, and_then_on, write_configs, write_conf, plan,
}
use stageneth.Engine.Agrees.{Agrees}
use stageneth.Engine.Restored.{brought_back, lookup-restore_snapshot, writes-Agrees}
use stageneth.Engine.LastGood.{IndexFormat}
use stageneth.Cmd.{
  Command, RunFaults, reload_services, rolled_reload, after_reload, after_apply, apply_command,
  apply_loaded, load_config, with_config,
}

-- the files of an apply that succeeded: those of the writes, and the new manifest
abbrev pub IsWritten : Formats → Engine → Config → Files → Files → Type 0
IsWritten fmt e st before fs =
    (w : Files) × Agrees (managed_paths e) before w
    × (fs ≡ insert e.manifest_path (fmt.encode (new_manifest e st managed)) w)

save_manifest-some :
    (fmt : Formats) (e : Engine) (io_faults : Faults) (mf : Manifest) (names changed : List Text)
    (fs : Files)
    → (save_manifest fmt e io_faults mf names fs).changed ≡ some changed
    → (save_manifest fmt e io_faults mf names fs).files ≡ insert e.manifest_path (fmt.encode mf) fs
unfolding save_manifest write_file_atomic
save_manifest-some fmt e io_faults mf names changed fs h =
    elim (Bool-cases (io_faults.write e.manifest_path)) [
      | inl w ↦ cc (rw w at h)
      | inr w ↦ rw w refl
    ]

saved-IsWritten :
    (fmt : Formats) (e : Engine) (io_faults : Faults) (st : Config) (before : Files)
    (both : Written) (o : Option (List Text)) (changed : List Text)
    → both.changed ≡ o
    → Agrees (managed_paths e) before both.files
    → (and_then_on o both (save_manifest fmt e io_faults (new_manifest e st managed))).changed
      ≡ some changed
    → IsWritten fmt e st before
        (and_then_on o both (save_manifest fmt e io_faults (new_manifest e st managed))).files
saved-IsWritten fmt e io_faults st before both none changed same agreed h = cc (same, h)
saved-IsWritten fmt e io_faults st before both (some names) changed same agreed h = (
  both.files,
  agreed,
  save_manifest-some fmt e io_faults (new_manifest e st managed) names changed both.files h,
)

settled :
    (io_faults : Faults) (snap taken : Snapshot) (fs : Files) (o : Option (List Text))
    (changed : List Text)
    → (settle io_faults taken fs o).1 ≡ applied changed snap
    → (o ≡ some changed) × (taken ≡ snap) × ((settle io_faults taken fs o).0 ≡ fs)
settled io_faults snap taken fs none changed h = cc h
settled io_faults snap taken fs (some names) changed h =
    let same : names ≡ changed = cc h in (cc same, cc h, refl)

unlocked :
    (lock : Bool) (fs : Files) (r : Files × Outcome) (changed : List Text) (snap : Snapshot)
    → (if lock then (fs, locked_out) else r).1 ≡ applied changed snap
    → (if lock then (fs, locked_out) else r) ≡ r
unlocked true fs r changed snap h = cc h
unlocked false fs r changed snap h = refl

pub apply-applied :
    (fmt : Formats) (e : Engine) (io_faults : Faults) (st : Config) (fs : Files)
    (changed : List Text) (snap : Snapshot)
    → (apply fmt e io_faults st fs).1 ≡ applied changed snap
    → (snap ≡ snapshot io_faults.snapshot_read e fs)
      × IsWritten fmt e st fs (apply fmt e io_faults st fs).0
unfolding apply write_all
apply-applied fmt e io_faults st fs changed snap h =
    let both =
      and_then (write_configs e io_faults [] (plan fmt e io_faults st fs).changes fs)
        (write_conf e io_faults st (plan fmt e io_faults st fs).rsyslog_conf_diff) in
    let w = write_all fmt e io_faults st fs in
    let r = settle io_faults (snapshot io_faults.snapshot_read e fs) w.files w.changed in
    let free : apply fmt e io_faults st fs ≡ r = unlocked io_faults.lock fs r changed snap h in
    let done =
      settled io_faults snap (snapshot io_faults.snapshot_read e fs) w.files w.changed changed
        (subst (λ x. x.1 ≡ applied changed snap) free h) in
    (
      sym done.1,
      subst (λ x. IsWritten fmt e st fs x.0) (sym free)
          (subst (λ x. IsWritten fmt e st fs x) (sym done.2)
            (saved-IsWritten fmt e io_faults st fs both both.changed changed refl
              (writes-Agrees fmt e io_faults st fs) done.0)),
    )

pub rolled_reload-lem :
    (run_faults : RunFaults) (e : Engine) (changed : List Text) (cmds : List Command)
    (r : Files × List Text)
    → ((rolled_reload run_faults e changed cmds r).files ≡ r.0)
      × ((rolled_reload run_faults e changed cmds r).exit ≡ 1)
rolled_reload-lem run_faults e changed cmds (fs, []) = (refl, refl)
rolled_reload-lem run_faults e changed cmds (fs, err ∷ errs) = (refl, refl)

reload_failed :
    (idx : IndexFormat) (e : Engine) (run_faults : RunFaults) (changed : List Text)
    (snap : Snapshot) (fs : Files) (x : List Command × Bool)
    → x.1 ≡ false
    → ((after_reload idx e run_faults changed snap fs x).files
        ≡ (restore run_faults.restore_fails snap fs).0)
      × ((after_reload idx e run_faults changed snap fs x).exit ≡ 1)
reload_failed idx e run_faults changed snap fs (cmds, true) h = cc h
reload_failed idx e run_faults changed snap fs (cmds, false) h =
    rolled_reload-lem run_faults e changed cmds (restore run_faults.restore_fails snap fs)

after_apply-failed :
    (idx : IndexFormat) (e : Engine) (run_faults : RunFaults) (c : Text) (changed : List Text)
    (snap : Snapshot) (fs : Files) (o : Outcome)
    → applied (c ∷ changed) snap ≡ o
    → (reload_services run_faults.command_fails e.avail (c ∷ changed)).1 ≡ false
    → ((after_apply idx e run_faults false (fs, o)).files
        ≡ (restore run_faults.restore_fails snap fs).0)
      × ((after_apply idx e run_faults false (fs, o)).exit ≡ 1)
after_apply-failed idx e run_faults c changed snap fs o same fails =
    subst
      (λ x.
        ((after_apply idx e run_faults false (fs, x)).files
          ≡ (restore run_faults.restore_fails snap fs).0)
        × ((after_apply idx e run_faults false (fs, x)).exit ≡ 1))
      same
      (reload_failed idx e run_faults (c ∷ changed) snap fs
        (reload_services run_faults.command_fails e.avail (c ∷ changed)) fails)

restored-written :
    (fails : Text → Bool) (fmt : Formats) (e : Engine) (st : Config) (before fs : Files) (p : Text)
    → IsWritten fmt e st before fs
    → member e.manifest_path (managed_paths e) ≡ false
    → lookup p (restore (λ _. false) (snapshot fails e before) fs).0 ≡ (
        if equal e.manifest_path p
        then some (fmt.encode (new_manifest e st managed))
        else brought_back fails e before p)
restored-written fails fmt e st before fs p (w, agrees, same) apart =
    lookup-restore_snapshot fails e before fs p ∙ elim (Bool-cases (equal e.manifest_path p)) [
      | inl is_manifest ↦
          let outside : member p (managed_paths e) ≡ false =
            subst (λ q. member q (managed_paths e) ≡ false)
              ((equal_iff e.manifest_path p).0 is_manifest) apart in
          rw (outside, same, lookup-insert, is_manifest) refl
      | inr other ↦ elim (Bool-cases (member p (managed_paths e))) [
        | inl inside ↦ rw (inside, other) refl
        | inr outside ↦ rw (outside, same, lookup-insert, other) (agrees p outside)
      ]
    ]

-- the run on the configuration that was loaded
pub apply_command-loaded :
    (fmt : Formats) (idx : IndexFormat) (e : Engine) (run_faults : RunFaults) (no_reload : Bool)
    (st : Config) (fs : Files)
    → load_config run_faults.load_fails e fs ≡ some st
    → equal (get_text (lit "show_lock") st.globals) (lit "1") ≡ false
    → apply_command fmt idx e run_faults no_reload fs
      ≡ after_apply idx e run_faults no_reload (apply fmt e run_faults.apply_faults st fs)
unfolding apply_command apply_loaded
apply_command-loaded fmt idx e run_faults no_reload st fs loaded no_lock =
    ap (λ o. with_config o fs (apply_loaded fmt idx e run_faults no_reload fs)) loaded
    ∙ rw no_lock refl

-- Where `apply` has written its files but a service cannot be reloaded, the run exits with 1 and, if every
-- path can be restored, each file is as it was before the run but for two kinds: the manifest stays the one
-- of the configuration that was undone, and a managed file that could not be read for the snapshot is
-- removed. The configuration could be loaded, its show lock is not set, and the manifest is none of the
-- managed files.
pub apply_command-undone :
    (fmt : Formats) (idx : IndexFormat) (e : Engine) (run_faults : RunFaults) (st : Config)
    (fs : Files) (c : Text) (changed : List Text) (snap : Snapshot)
    → load_config run_faults.load_fails e fs ≡ some st
    → equal (get_text (lit "show_lock") st.globals) (lit "1") ≡ false
    → (apply fmt e run_faults.apply_faults st fs).1 ≡ applied (c ∷ changed) snap
    → (reload_services run_faults.command_fails e.avail (c ∷ changed)).1 ≡ false
    → run_faults.restore_fails ≡ (λ _. false)
    → member e.manifest_path (managed_paths e) ≡ false
    → ((apply_command fmt idx e run_faults false fs).exit ≡ 1)
      × ((p : Text)
          → lookup p (apply_command fmt idx e run_faults false fs).files ≡ (
              if equal e.manifest_path p
              then some (fmt.encode (new_manifest e st managed))
              else brought_back run_faults.apply_faults.snapshot_read e fs p))
apply_command-undone fmt idx e run_faults st fs c changed snap loaded no_lock is_applied fails
      restores apart =
    let r = apply fmt e run_faults.apply_faults st fs in
    let read = run_faults.apply_faults.snapshot_read in
    let written = apply-applied fmt e run_faults.apply_faults st fs (c ∷ changed) snap is_applied in
    let done = after_apply-failed idx e run_faults c changed snap r.0 r.1 (sym is_applied) fails in
    let run = apply_command-loaded fmt idx e run_faults false st fs loaded no_lock in
    let files_are : (apply_command fmt idx e run_faults false fs).files
        ≡ (restore (λ _. false) (snapshot read e fs) r.0).0 =
      ap (λ x. x.files) run
      ∙ done.0
      ∙ ap (λ f. (restore f snap r.0).0) restores
      ∙ ap (λ s. (restore (λ _. false) s r.0).0) written.0 in
    (
      ap (λ x. x.exit) run ∙ done.1,
      λ p. ap (λ x. lookup p x) files_are ∙ restored-written read fmt e st fs r.0 p written.1 apart,
    )
