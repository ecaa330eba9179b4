-- ===== src/Engine/LastGood/Laws.antt =====
-- What `SaveLastGood` keeps is what `Rollback` of internal/engine/engine.go puts back.
pub mod Kept
use stageneth.Prelude.{
  true, false, ◌||◌, List, [], ◌∷◌, Option, none, some, Text, lit, equal, equal_iff, equal_refl,
  lookup, ◌≡◌, refl, sym, ◌∙◌, arith, Bool-cases, inl, inr, IsMap, keys, member, subst, ap,
}
use stageneth.Engine.Disk.{Files, Engine, Snapshot, restore_file}
use stageneth.Engine.Restored.{lookup-restore_file}
use stageneth.Engine.LastGood.{
  add_restored, add_error, base_name, last_good_dir, index_path, IndexFormat, LastGoodFaults,
  is_some_text, index_of, keep_files, save_last_good, rolled_back, roll_entries, rollback,
  roll_entry, add_restored, add_error,
}
use stageneth.Engine.LastGood.Laws.Kept.{
  Apart, Held, saved_bases, inside, kept_path-inside, Held-agree, save_kept-Held, entries_of,
  index_of-entries_of, Apart-Distinct, empty-Fresh, keep_files-Held, keep_files-IsMap,
}

-- the content of a file after the restoration of a snapshot
abbrev pub put_back : Option (Option Text) → Option Text → Option Text
put_back none now = now
put_back (some saved) now = saved

-- no step of a rollback fails
abbrev pub no_faults : LastGoodFaults
no_faults = record { lock = false; mkdir = false; write = λ p. false; remove = λ p. false }

save_last_good-Held :
    (fmt : IndexFormat) (e : Engine) (io_faults : LastGoodFaults) (s : Snapshot) (fs : Files)
    → Apart (last_good_dir e) s
    → IsMap fs
    → (save_last_good fmt e io_faults s fs).1 ≡ true
    → (lookup (index_path (last_good_dir e)) (save_last_good fmt e io_faults s fs).0
        ≡ some (fmt.encode (entries_of s)))
      × Held (last_good_dir e) s (save_last_good fmt e io_faults s fs).0
unfolding save_last_good
save_last_good-Held fmt e io_faults s fs a i ok =
    let dir = last_good_dir e in
    elim (Bool-cases (io_faults.lock || io_faults.mkdir)) [
      | inl stop ↦ cc (rw stop at ok)
      | inr go ↦
          let same : index_of s [] ≡ entries_of s =
            index_of-entries_of s [] (empty-Fresh s) (Apart-Distinct dir s a) in
          rw (go, same)
            (save_kept-Held fmt io_faults dir s (keep_files io_faults dir s fs) a
              (keep_files-IsMap io_faults dir s fs i) (keep_files-Held io_faults dir s fs a)
              (rw (go, same) at ok))
    ]

roll_entry-Held :
    (dir p : Text) (b : Option Text) (s : Snapshot) (fs : Files)
    → Held dir ((p, b) ∷ s) fs
    → roll_entry no_faults dir (base_name p) (record { path = p; existed = is_some_text b }) fs
      ≡ (restore_file p b fs, none)
unfolding roll_entry
roll_entry-Held dir p none s fs h = refl
roll_entry-Held dir p (some c) s fs h = rw h.0 refl

lookup-other_bases :
    (q : Text) (s : Snapshot) → member (base_name q) (saved_bases s) ≡ false → lookup q s ≡ none
unfolding member lookup
lookup-other_bases q [] h = refl
lookup-other_bases q ((p, b) ∷ s) h = elim (Bool-cases (equal p q)) [
  | inl same ↦ cc (
    subst (λ x. equal (base_name x) (base_name q) ≡ false) ((equal_iff p q).0 same)
        (ground (arith, h)),
    equal_refl (base_name q),
  )
  | inr other ↦ rw other (lookup-other_bases q s (ground (arith, h)))
]

put_back-cons :
    (q p : Text) (b : Option Text) (s : Snapshot) (fs : Files)
    → lookup q s ≡ none
    → put_back (lookup p s) (lookup p (restore_file q b fs))
      ≡ put_back (lookup p ((q, b) ∷ s)) (lookup p fs)
unfolding lookup
put_back-cons q p b s fs h = elim (Bool-cases (equal q p)) [
  | inl same ↦
      rw (lookup-restore_file, same, subst (λ x. lookup x s ≡ none) ((equal_iff q p).0 same) h) refl
  | inr other ↦ rw (lookup-restore_file, other) refl
]

-- restoring a file of the snapshot does not touch the directory
restore_file-Held :
    (dir p : Text) (b : Option Text) (s : Snapshot) (fs : Files)
    → inside dir p ≡ false
    → Held dir s fs
    → Held dir s (restore_file p b fs)
restore_file-Held dir p b s fs out h =
    Held-agree dir s fs (restore_file p b fs)
      (λ q within_dir. elim (Bool-cases (equal p q)) [
        | inl same ↦ cc (subst (λ x. inside dir x ≡ false) ((equal_iff p q).0 same) out, within_dir)
        | inr other ↦ rw (lookup-restore_file, other) refl
      ])
      h

-- what a rollback of the entries of a snapshot ends with
abbrev pub Restores : Snapshot → Files → Files × List Text × List Text → Type 0
Restores s fs (after, restored, errs) =
    ((p : Text) → lookup p after ≡ put_back (lookup p s) (lookup p fs))
    × (restored ≡ keys s)
    × (errs ≡ [])

Held-tail :
    (dir p : Text) (b : Option Text) (s : Snapshot) (fs : Files)
    → Held dir ((p, b) ∷ s) fs
    → Held dir s fs
Held-tail dir p none s fs h = h
Held-tail dir p (some c) s fs h = h.1

-- the rest of the loop, after the round of one entry
abbrev after_entry : Text → Text → Snapshot → Files × Option Text → Files × List Text × List Text
after_entry dir q s r =
    let (after, restored, errs) = roll_entries no_faults dir (entries_of s) r.0 in
    (after, add_restored q r.1 restored, add_error r.1 errs)

roll_entries-Restores :
    (dir : Text) (s : Snapshot) (fs : Files)
    → Apart dir s
    → Held dir s fs
    → Restores s fs (roll_entries no_faults dir (entries_of s) fs)
unfolding roll_entries
roll_entries-Restores dir [] fs a h = (λ p. unfold lookup in refl, refl, refl)
roll_entries-Restores dir ((q, b) ∷ s) fs a h =
    let held : Held dir s fs = Held-tail dir q b s fs h in
    let later =
      roll_entries-Restores dir s (restore_file q b fs) a.3
        (restore_file-Held dir q b s fs a.2 held) in
    subst (λ r. Restores ((q, b) ∷ s) fs (after_entry dir q s r))
      (sym (roll_entry-Held dir q b s fs h))
      (
        λ p. later.0 p ∙ put_back-cons q p b s fs (lookup-other_bases q s a.0),
        ap (λ ps. q ∷ ps) later.1,
        later.2,
      )

-- After `SaveLastGood` of a snapshot returned no error, whatever failed on its way, and after any later
-- change of the files outside its directory, a `Rollback` whose own steps do not fail reports no error:
-- every path of the snapshot has the content that it had there, or is gone if it was not there, every
-- other path is as it is now, and the paths that it returns are those of the snapshot. The names that
-- the snapshot is kept under are apart, and apart from the index, and the index survives its encoding.
pub rollback-save_last_good :
    (fmt : IndexFormat) (e : Engine) (io_faults : LastGoodFaults) (s : Snapshot) (fs later : Files)
    → fmt.decode (fmt.encode (index_of s [])) ≡ some (index_of s [])
    → Apart (last_good_dir e) s
    → IsMap fs
    → (save_last_good fmt e io_faults s fs).1 ≡ true
    → ((p : Text)
        → inside (last_good_dir e) p ≡ true
        → lookup p later ≡ lookup p (save_last_good fmt e io_faults s fs).0)
    → ((p : Text)
        → lookup p (rollback fmt e no_faults later).0 ≡ put_back (lookup p s) (lookup p later))
      × ((rollback fmt e no_faults later).1 ≡ rolled_back (keys s) [])
unfolding rollback
rollback-save_last_good fmt e io_faults s fs later coded a i ok same =
    let dir = last_good_dir e in
    let saved = save_last_good-Held fmt e io_faults s fs a i ok in
    let index_kept : lookup (index_path dir) later ≡ some (fmt.encode (entries_of s)) =
      same _ (kept_path-inside dir (lit "index.json")) ∙ saved.0 in
    let decoded : fmt.decode (fmt.encode (entries_of s)) ≡ some (entries_of s) =
      subst (λ m. fmt.decode (fmt.encode m) ≡ some m)
        (index_of-entries_of s [] (empty-Fresh s) (Apart-Distinct dir s a)) coded in
    let rolled =
      roll_entries-Restores dir s later a
        (Held-agree dir s (save_last_good fmt e io_faults s fs).0 later same saved.1) in
    rw (index_kept, decoded) (rolled.0, rw (rolled.1, rolled.2) refl)
