-- ===== src/Engine/Agrees.antt =====
-- The files that writes of internal/engine/engine.go leave as they were: all outside some paths.
use stageneth.Prelude.{
  Bool, true, false, not, List, [], ◌∷◌, ◌++◌, Option, none, some, Text, equal, equal_iff,
  if◌then◌else◌, lookup, insert, member, ◌≡◌, subst, Bool-cases, inl, inr, lookup-insert,
}
use stageneth.Stcfg.{Config}
use stageneth.Engine.{Manifest}
use stageneth.Engine.Disk.{Files, Engine, write_file_atomic, config_path, conf_path}
use stageneth.Engine.Apply.{
  Formats, Faults, Planned, Written, write_configs, write_conf, save_manifest, and_then_on, attempt,
}

-- Outside the paths, the files are those of before.
abbrev pub Agrees : List Text → Files → Files → Type 0
Agrees paths before after = (p : Text) → member p paths ≡ false → lookup p after ≡ lookup p before

write-Agrees :
    (ps : List Text) (before fs : Files) (k content : Text)
    → member k ps ≡ true
    → Agrees ps before fs
    → Agrees ps before (insert k content fs)
write-Agrees ps before fs k content inside h p out = elim (Bool-cases (equal k p)) [
  | inl same ↦
      let k_eq : k ≡ p = (equal_iff k p).0 same in
      cc (subst (λ x. member x ps ≡ true) k_eq inside, out)
  | inr other ↦ rw (lookup-insert, other) (h p out)
]

-- each planned write is to one of the paths
abbrev pub Inside : Engine → List Text → List Planned → Type 0
Inside e ps [] = Unit
Inside e ps ((mc, fc) ∷ rest) = (member (config_path e mc.name) ps ≡ true) × Inside e ps rest

module _ (ps : List Text) (before : Files) where
  choose-Agrees :
      (b : Bool) (x y : Written)
      → Agrees ps before x.files
      → Agrees ps before y.files
      → Agrees ps before (if b then x else y).files
  choose-Agrees true x y p q = p
  choose-Agrees false x y p q = q

  attempt-Agrees :
      (fails : Bool) (k content : Text) (fs : Files) (next : Files → Written)
      → Agrees ps before fs
      → Agrees ps before (next (insert k content fs)).files
      → Agrees ps before (attempt (write_file_atomic fails k content fs) fs next).files
  unfolding write_file_atomic
  attempt-Agrees true k content fs next h later = h
  attempt-Agrees false k content fs next h later = later

  pub write_configs-Agrees :
      (e : Engine) (io_faults : Faults) (names : List Text) (changes : List Planned) (fs : Files)
      → Inside e ps changes
      → Agrees ps before fs
      → Agrees ps before (write_configs e io_faults names changes fs).files
  unfolding write_configs
  write_configs-Agrees e io_faults names [] fs i h = h
  write_configs-Agrees e io_faults names ((mc, fc) ∷ rest) fs i h =
      let path = config_path e mc.name in
      choose-Agrees (not fc.changed) _ _ (write_configs-Agrees e io_faults names rest fs i.1 h) (
        attempt-Agrees (io_faults.write path) path fc.new_text fs _ h (
          write_configs-Agrees e io_faults (names ++ mc.name ∷ []) rest _ i.1
            (write-Agrees ps before fs path fc.new_text i.0 h)))

  pub write_conf-Agrees :
      (e : Engine) (io_faults : Faults) (st : Config) (diff : Bool) (names : List Text) (fs : Files)
      → member (conf_path e) ps ≡ true
      → Agrees ps before fs
      → Agrees ps before (write_conf e io_faults st diff names fs).files
  unfolding write_conf
  write_conf-Agrees e io_faults st diff names fs i h =
      choose-Agrees diff _ _
        (attempt-Agrees (io_faults.write (conf_path e)) (conf_path e) _ fs _ h
          (write-Agrees ps before fs (conf_path e) _ i h))
        h

  saved-Agrees :
      (fails : Bool) (k content : Text) (names : List Text) (fs : Files)
      → Agrees ps before fs
      → (attempt
          (write_file_atomic fails k content fs)
          fs
          (λ after. record { files = after; changed = some names })).changed
        ≡ none
      → Agrees ps before
          (attempt
            (write_file_atomic fails k content fs)
            fs
            (λ after. record { files = after; changed = some names })).files
  unfolding write_file_atomic
  saved-Agrees true k content names fs h e = h
  saved-Agrees false k content names fs h e = cc

  pub save_manifest-Agrees :
      (fmt : Formats) (e : Engine) (io_faults : Faults) (mf : Manifest) (fs : Files)
      → Agrees ps before fs
      → (names : List Text) → (save_manifest fmt e io_faults mf names fs).changed ≡ none
      → Agrees ps before (save_manifest fmt e io_faults mf names fs).files
  unfolding save_manifest
  save_manifest-Agrees fmt e io_faults mf fs agreed names h =
      saved-Agrees (io_faults.write e.manifest_path) e.manifest_path (fmt.encode mf) names fs agreed
        h

  pub and_then-Agrees :
      (o : Option (List Text)) (w : Written) (next : List Text → Files → Written)
      → Agrees ps before w.files
      → ((names : List Text) → Agrees ps before (next names w.files).files)
      → Agrees ps before (and_then_on o w next).files
  and_then-Agrees none w next h k = h
  and_then-Agrees (some names) w next h k = k names

  pub and_then-failed :
      (o : Option (List Text)) (w : Written) (next : List Text → Files → Written)
      → (and_then_on o w next).changed ≡ none
      → Agrees ps before w.files
      → ((names : List Text)
          → (next names w.files).changed ≡ none
          → Agrees ps before (next names w.files).files)
      → Agrees ps before (and_then_on o w next).files
  and_then-failed none w next e h k = h
  and_then-failed (some names) w next e h k = k names e
