-- ===== src/Engine/LastGood.antt =====
-- `SaveLastGood` and `Rollback` of internal/engine/engine.go: the last good files, kept in a directory
-- beside the manifest. The JSON form of the index is an argument, and so is which steps fail.
pub mod Laws
use stageneth.Prelude.{
  Bool, true, false, not, ◌&&◌, ◌||◌, List, [], ◌∷◌, ◌++◌, Option, none, some, Text, lit, equal,
  if◌then◌else◌, Dict, lookup, insert, remove, select_entries, any, ◌==◌,
}
use stageneth.Engine.Disk.{Files, Engine, Snapshot, restore_file}

-- `filepath.Base` and `filepath.Dir`, for a clean path that has a slash
unfoldable pub base_name : Text → Text
base_name [] = []
base_name (c ∷ p) = if any (λ d. d == b'/') (c ∷ p) then base_name p else c ∷ p

unfoldable pub dir_name : Text → Text
dir_name [] = []
dir_name (c ∷ p) = let rest = dir_name p in if any (λ d. d == b'/') p then c ∷ rest else []

-- `lastGoodDir`
unfoldable pub last_good_dir : Engine → Text
unfolding dir_name
last_good_dir e = dir_name e.manifest_path ++ lit "/last-good"

-- `filepath.Join(dir, base)`
abbrev pub kept_path : Text → Text → Text
kept_path dir base = dir ++ b'/' ∷ base

abbrev pub index_path : Text → Text
index_path dir = kept_path dir (lit "index.json")

-- `lastGoodEntry`
pub record Entry : Type 0 where
  pub path : Text
  pub existed : Bool

abbrev pub Index : Type 0
Index = Dict Entry

-- `json.Marshal` and `json.Unmarshal` of the index
pub record IndexFormat : Type 0 where
  pub encode : Index → Text
  pub decode : Text → Option Index

-- Which steps fail: the lock, the directory, and writing or removing a path.
pub record LastGoodFaults : Type 0 where
  pub lock : Bool
  pub mkdir : Bool
  pub write : Text → Bool
  pub remove : Text → Bool

abbrev pub is_some_text : Option Text → Bool
is_some_text none = false
is_some_text (some t) = true

-- the `index` that the loop of `SaveLastGood` builds
unfoldable pub index_of : Snapshot → Index → Index
unfolding base_name
index_of [] m = m
index_of ((p, b) ∷ s) m =
    index_of s (insert (base_name p) (record { path = p; existed = is_some_text b }) m)

-- the files after that loop, and whether it met no error
unfoldable pub keep_files : LastGoodFaults → Text → Snapshot → Files → Files × Bool
unfolding base_name
keep_files io_faults dir [] fs = (fs, true)
keep_files io_faults dir ((p, none) ∷ s) fs = keep_files io_faults dir s fs
keep_files io_faults dir ((p, some c) ∷ s) fs =
    let path = kept_path dir (base_name p) in
    let rest = keep_files io_faults dir s (insert path c fs) in
    if io_faults.write path then (fs, false) else rest

-- the name of an entry of the directory, `none` for a path that is not one
unfoldable pub entry_name : Text → Text → Option Text
entry_name [] [] = none
entry_name [] (c ∷ p) = if c == b'/' && not (any (λ d. d == b'/') p) then some p else none
entry_name (d ∷ dir) [] = none
entry_name (d ∷ dir) (c ∷ p) = if c == d then entry_name dir p else none

abbrev pub wanted_entry : Option Entry → Bool
wanted_entry none = false
wanted_entry (some ent) = ent.existed

abbrev pub stays : LastGoodFaults → Index → Text → Option Text → Bool
stays io_faults m p none = true
stays io_faults m p (some name) =
    equal name (lit "index.json") || wanted_entry (lookup name m) || io_faults.remove p

-- the loop over `os.ReadDir`, which drops the entries that the index does not want
unfoldable pub prune_dir : LastGoodFaults → Text → Index → Files → Files
unfolding entry_name
prune_dir io_faults dir m fs = select_entries (λ p c. stays io_faults m p (entry_name dir p)) fs

-- the end of `SaveLastGood`
unfoldable pub save_index : IndexFormat → LastGoodFaults → Text → Index → Files → Files × Bool
unfolding prune_dir
save_index fmt io_faults dir m fs =
    let pruned = prune_dir io_faults dir m fs in
    if io_faults.write (index_path dir)
    then (pruned, false)
    else (insert (index_path dir) (fmt.encode m) pruned, true)

abbrev pub save_kept : IndexFormat → LastGoodFaults → Text → Index → Files × Bool → Files × Bool
save_kept fmt io_faults dir m (fs, true) = save_index fmt io_faults dir m fs
save_kept fmt io_faults dir m (fs, false) = (fs, false)

-- `SaveLastGood`: the files, and whether it returned no error
unfoldable pub save_last_good :
    IndexFormat → Engine → LastGoodFaults → Snapshot → Files → Files × Bool
unfolding last_good_dir index_of keep_files save_index
save_last_good fmt e io_faults s fs =
    let dir = last_good_dir e in
    if io_faults.lock || io_faults.mkdir
    then (fs, false)
    else save_kept fmt io_faults dir (index_of s []) (keep_files io_faults dir s fs)

-- What `Rollback` returns: the paths that it rewrote and the errors, or an error of its own.
pub data RolledBack : Type 0 where
  rolled_back : List Text → List Text → RolledBack
  no_rollback : Text → RolledBack

-- one round of the loop of `Rollback`: the files, and the error if there is one
unfoldable pub roll_entry : LastGoodFaults → Text → Text → Entry → Files → Files × Option Text
unfolding restore_file
roll_entry io_faults dir base ent fs =
    if not ent.existed
    then (if io_faults.remove ent.path
        then (fs, some (ent.path ++ lit ": remove"))
        else (restore_file ent.path none fs, none))
    else elim (lookup (kept_path dir base) fs) [
      | none ↦ (fs, some (base ++ lit ": read"))
      | some c ↦
          if io_faults.write ent.path
          then (fs, some (ent.path ++ lit ": write"))
          else (restore_file ent.path (some c) fs, none)
    ]

abbrev pub add_restored : Text → Option Text → List Text → List Text
add_restored p none ps = p ∷ ps
add_restored p (some e) ps = ps

abbrev pub add_error : Option Text → List Text → List Text
add_error none errs = errs
add_error (some e) errs = e ∷ errs

-- the loop of `Rollback`
unfoldable pub roll_entries : LastGoodFaults → Text → Index → Files → Files × List Text × List Text
unfolding roll_entry
roll_entries io_faults dir [] fs = (fs, [], [])
roll_entries io_faults dir ((base, ent) ∷ m) fs =
    let (next, err) = roll_entry io_faults dir base ent fs in
    let (after, restored, errs) = roll_entries io_faults dir m next in
    (after, add_restored ent.path err restored, add_error err errs)

abbrev pub roll_index : LastGoodFaults → Text → Option Index → Files → Files × RolledBack
roll_index io_faults dir none fs = (fs, no_rollback (lit "corrupt last-good index"))
roll_index io_faults dir (some m) fs =
    let (after, restored, errs) = roll_entries io_faults dir m fs in
    (after, rolled_back restored errs)

abbrev pub roll_text :
    IndexFormat → LastGoodFaults → Text → Option Text → Files → Files × RolledBack
roll_text fmt io_faults dir none fs = (fs, no_rollback (lit "no last-good snapshot"))
roll_text fmt io_faults dir (some t) fs = roll_index io_faults dir (fmt.decode t) fs

-- `Rollback`
unfoldable pub rollback : IndexFormat → Engine → LastGoodFaults → Files → Files × RolledBack
unfolding last_good_dir roll_entries
rollback fmt e io_faults fs =
    let dir = last_good_dir e in
    if io_faults.lock
    then (fs, no_rollback (lit "apply lock"))
    else roll_text fmt io_faults dir (lookup (index_path dir) fs) fs
