-- ===== src/Api/Backup.antt =====
-- internal/api/network.go: the backup of the configuration and its restoration. The command `uci` is an
-- argument: what it exports of a package, and what an import leaves. Its commit after an import is part
-- of that. Files are the packages by name.
pub mod Laws
use stageneth.Prelude.{
  ℕ, zero, suc, ◌+◌, Bool, true, false, not, ◌||◌, List, [], ◌∷◌, ◌++◌, Option, none, some, Text,
  lit, if◌then◌else◌, ◌==◌, drop, has_prefix, join, member, all, Dict, lookup, insert, remove,
}
use stageneth.Api.Account.{Answer, plain}

-- The content of each package that exists.
abbrev pub Packages : Type 0
Packages = Dict Text

-- `uci export` of a package, `none` where it fails; `uci import` of a text over the content of before:
-- the content after it, and whether it succeeded. And for which packages `os.Remove` of the file fails.
pub record Uci : Type 0 where
  pub export : Text → Option Text → Option Text
  pub import : Text → Text → Option Text → Option Text × Bool
  pub remove_fails : Text → Bool

-- `backupPackages`
abbrev pub backup_packages : List Text
backup_packages =
    lit "stageneth"
    ∷ lit "stagenethd"
    ∷ lit "network"
    ∷ lit "dhcp"
    ∷ lit "firewall"
    ∷ lit "system"
    ∷ []

abbrev backup_part : Text → Option Text → Text
backup_part pkg none = lit "\n# --- package " ++ (pkg ++ lit " export failed ---\n")
backup_part pkg (some part) = lit "\n# --- package: " ++ (pkg ++ (lit " ---\n" ++ part))

abbrev backup_parts : Uci → Packages → List Text → Text
backup_parts uci fs [] = []
backup_parts uci fs (pkg ∷ pkgs) =
    backup_part pkg (uci.export pkg (lookup pkg fs)) ++ backup_parts uci fs pkgs

-- the data of `backupConfig`
unfoldable pub backup_config : Uci → Packages → Text
backup_config uci fs =
    lit "# StageNeth configuration backup\n"
    ++ (lit "# packages: "
        ++ (join (lit ", ") backup_packages ++ (lit "\n" ++ backup_parts uci fs backup_packages)))

-- `'` and the end of a line, behind a name; the name and the length of both
abbrev ends_line : Text → Bool
ends_line [] = true
ends_line (c ∷ t) = c == b'\n'

abbrev cons_name : ℕ → Option (Text × ℕ) → Option (Text × ℕ)
cons_name c none = none
cons_name c (some (name, n)) = some (c ∷ name, suc n)

unfoldable pub quoted_name : Text → Option (Text × ℕ)
quoted_name [] = none
quoted_name (c ∷ t) =
    let rest = quoted_name t in
    if c == b'\'' then (if ends_line t then some ([], 1) else none) else cons_name c rest

abbrev nonempty_name : Option (Text × ℕ) → Option (Text × ℕ)
nonempty_name none = none
nonempty_name (some ([], n)) = none
nonempty_name (some (c ∷ name, n)) = some (c ∷ name, n)

-- a match of `^package '([^']+)'$` that starts here: the name, and its length behind `package '`
unfoldable pub header_at : Text → Option (Text × ℕ)
unfolding quoted_name
header_at t =
    if has_prefix t (lit "package '") then nonempty_name (quoted_name (drop 9 t)) else none

-- a package of the backup, with its part of the text
abbrev pub Block : Type 0
Block = Text × Text

abbrev add_char : ℕ → Text × List Block → Text × List Block
add_char c (before, blocks) = (c ∷ before, blocks)

abbrev add_block : Text → ℕ → Text × List Block → Text × List Block
add_block name c (before, blocks) = ([], (name, c ∷ before) ∷ blocks)

-- The text before the first match, and the blocks; `start` tells whether a line starts here, and `skip`
-- how much is left of the last match, inside which no other begins.
unfoldable pub scan_blocks : Bool → ℕ → Text → Text × List Block
unfolding header_at
scan_blocks start skip [] = ([], [])
scan_blocks start (suc skip) (c ∷ t) = add_char c (scan_blocks (c == b'\n') skip t)
scan_blocks start zero (c ∷ t) = elim (if start then header_at (c ∷ t) else none) [
  | none ↦ add_char c (scan_blocks (c == b'\n') zero t)
  | some (name, n) ↦ add_block name c (scan_blocks (c == b'\n') (8 + n) t)
]

-- the matches of `restoreConfig` with the text up to the next one
unfoldable pub blocks_of : Text → List Block
unfolding scan_blocks
blocks_of t = (scan_blocks true 0 t).1

abbrev pub or_empty : Option Text → Text
or_empty none = []
or_empty (some t) = t

-- the map `prev`
unfoldable pub snapshots : Uci → Packages → List Block → Dict Text → Dict Text
snapshots uci fs [] prev = prev
snapshots uci fs ((name, backup) ∷ blocks) prev =
    snapshots uci fs blocks (insert name (or_empty (uci.export name (lookup name fs))) prev)

abbrev pub put : Text → Option Text → Packages → Packages
put p none fs = remove p fs
put p (some c) fs = insert p c fs

-- `uciImport`: the packages after it, and whether it returned no error
unfoldable pub uci_import : Uci → Text → Text → Packages → Packages × Bool
uci_import uci pkg backup fs =
    let (content, ok) = uci.import pkg backup (lookup pkg fs) in (put pkg content fs, ok)

-- one round of the rollback
abbrev pub roll_package : Uci → Text → Text → Packages → Packages
roll_package uci p [] fs = if uci.remove_fails p then fs else remove p fs
roll_package uci p (c ∷ snap) fs = (uci_import uci p (c ∷ snap) fs).0

-- the rollback of `restoreConfig`
unfoldable pub roll_packages : Uci → Dict Text → Packages → Packages
unfolding uci_import
roll_packages uci [] fs = fs
roll_packages uci ((p, snap) ∷ prev) fs = roll_packages uci prev (roll_package uci p snap fs)

-- the loop of the imports, which stops at the first error
unfoldable pub import_blocks : Uci → List Block → Packages → Packages × Bool
unfolding uci_import
import_blocks uci [] fs = (fs, true)
import_blocks uci ((name, backup) ∷ blocks) fs =
    let (after, ok) = uci_import uci name backup fs in
    let rest = import_blocks uci blocks after in if ok then rest else (after, false)

abbrev pub finish_restore : Uci → Dict Text → Packages × Bool → Packages × Answer
finish_restore uci prev (fs, true) = (fs, plain 200)
finish_restore uci prev (fs, false) = (roll_packages uci prev fs, plain 500)

abbrev pub all_allowed : List Block → Bool
all_allowed blocks = all (λ (b : Block). member b.0 backup_packages) blocks

abbrev pub is_nil : List Block → Bool
is_nil [] = true
is_nil _ = false

-- `restoreConfig`; the body is `none` where decoding fails
unfoldable pub restore_config : Uci → Option Text → Packages → Packages × Answer
unfolding blocks_of snapshots roll_packages import_blocks
restore_config uci none fs = (fs, plain 400)
restore_config uci (some backup) fs =
    let blocks = blocks_of backup in
    if is_nil blocks || not (all_allowed blocks)
    then (fs, plain 400)
    else finish_restore uci (snapshots uci fs blocks []) (import_blocks uci blocks fs)
