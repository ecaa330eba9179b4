-- ===== src/Auth/Users.antt =====
-- internal/auth/users.go: accounts as `config user` sections of a UCI file. The file on disk is a
-- text, or absent; what the disk and the hash can do wrong in one call is an argument of the call.
pub mod Keeps
pub mod LastTech
pub mod Requests
pub mod Login
pub mod Role
use stageneth.Prelude.{
  ℕ, ◌+◌, Bool, true, false, not, ◌&&◌, ◌||◌, List, [], ◌∷◌, ◌++◌, Option, none, some, Text, lit,
  equal, is_empty, if◌then◌else◌, ltb, leb, within, ◌==◌, all, any, first, select, byte_len, length,
}
use stageneth.Ucifile.{Section, File, get, set}
use stageneth.Ucifile.Reader.{parse}
use stageneth.Ucifile.Printer.{text}

-- the errors of users.go; `io` stands for those of the disk and of the random source
pub data Error : Type 0 where
  user_not_found bad_role bad_name weak_password last_tech last_user no_password io : Error

pub data Result (A : Type 0) : Type 0 where
  err : Error → Result A
  ok : A → Result A

infixl 5 ◌>>=◌ ◌>>◌
abbrev pub ◌>>=◌ : {A B : Type 0} → Result A → (A → Result B) → Result B
err problem >>= next = err problem
ok value >>= next = next value

abbrev pub ◌>>◌ : {B : Type 0} → Result (Unit {0}) → Result B → Result B
first_step >> rest = first_step >>= λ _. rest

-- The content of the file; `none` where there is no file.
abbrev pub Disk : Type 0
Disk = Option Text

-- What fails during a call: reading the file, or a step of writing it anew. The new text replaces
-- the old one by a rename, the last step, so a failed write leaves the old text.
pub record Faults : Type 0 where
  pub read : Bool
  pub write : Bool

abbrev pub min_password_len : ℕ
min_password_len = 8

-- `ValidRole`
unfoldable pub valid_role : Text → Bool
valid_role role = equal role (lit "operator") || equal role (lit "tech")

abbrev name_char : ℕ → Bool
name_char r = within b'a' b'z' r || within b'0' b'9' r || r == b'_' || r == b'-' || r == b'.'

-- `validName`
unfoldable pub valid_name : Text → Bool
valid_name name = if is_empty name || ltb 32 (byte_len name) then false else all name_char name

-- `load`
unfoldable pub load : Faults → Disk → Result File
load io_faults none = if io_faults.read then err io else ok []
load io_faults (some t) = if io_faults.read then err io else ok (parse t)

-- `save`
unfoldable pub save : Faults → File → Disk → Disk × Result (Unit {0})
save io_faults f disk = if io_faults.write then (disk, err io) else (some (text f), ok tt)

abbrev pub is_user : Section → Bool
is_user s = equal s.type (lit "user")

abbrev pub named : Text → Section → Bool
named name s = is_user s && equal s.name name

-- `find`: the section that the returned pointer names is the first one
unfoldable pub find : Text → File → Option Section
find name f = first (named name) f

-- a write through that pointer
unfoldable pub update : Text → (Section → Section) → File → File
update name g [] = []
update name g (s ∷ f) = if named name s then g s ∷ f else s ∷ update name g f

abbrev pub role_of : Section → Text
role_of s = get (lit "role") s

abbrev pub is_tech : Section → Bool
is_tech s = equal (role_of s) (lit "tech")

-- `hasOtherTech`
unfoldable pub has_other_tech : Text → File → Bool
has_other_tech exclude f = any (λ s. is_user s && not (equal s.name exclude) && is_tech s) f

-- `HasUsers`
unfoldable pub has_users : Faults → Disk → Bool
unfolding load
has_users io_faults disk = elim (load io_faults disk) [ err e ↦ false | ok f ↦ any is_user f ]

unfoldable pub account_list : File → List (Text × Text)
account_list [] = []
account_list (s ∷ f) =
    let rest = account_list f in
    if is_user s && not (is_empty s.name) then (s.name, role_of s) ∷ rest else rest

-- `List`
unfoldable pub list_users : Faults → Disk → List (Text × Text)
unfolding load account_list
list_users io_faults disk = elim (load io_faults disk) [ err e ↦ [] | ok f ↦ account_list f ]

-- what the checks of a call left to do: write this file, or return this error
unfoldable pub commit : Faults → Disk → Result File → Disk × Result (Unit {0})
unfolding save
commit io_faults disk (err e) = (disk, err e)
commit io_faults disk (ok f) = save io_faults f disk

abbrev pub hashed : Option Text → Result Text
hashed none = err io
hashed (some h) = ok h

abbrev pub guard : Bool → Error → Result (Unit {0})
guard true e = ok tt
guard false e = err e

abbrev pub with_account : Text → Text → Section → Section
with_account role hash s = set (lit "password") hash (set (lit "role") role s)

abbrev pub new_user : Text → Section
new_user name = record { type = lit "user"; name = name; options = [] }

-- `Set` behind the loading, on the section that `find` returned
unfoldable pub set_account : Text → Text → Text → File → Option Section → Result File
unfolding has_other_tech update
set_account name role hash f none = ok (f ++ with_account role hash (new_user name) ∷ [])
set_account name role hash f (some s) =
    if is_tech s && not (equal role (lit "tech")) && not (has_other_tech name f)
    then err last_tech
    else ok (update name (with_account role hash) f)

-- the file that `Set` writes
unfoldable pub set_file : (Text → Option Text) → Faults → Text → Text → Text → Disk → Result File
set_file hash io_faults name role password disk = do
  guard (valid_name name) bad_name
  guard (valid_role role) bad_role
  guard (leb min_password_len (byte_len password)) weak_password
  h ← hashed (hash password)
  f ← load io_faults disk
  set_account name role h f (find name f)

-- `Set`
unfoldable pub set_user :
    (Text → Option Text) → Faults → Text → Text → Text → Disk → Disk × Result (Unit {0})
set_user hash io_faults name role password disk =
    commit io_faults disk (set_file hash io_faults name role password disk)

abbrev pub or_missing : Option Section → Result Section
or_missing none = err user_not_found
or_missing (some s) = ok s

-- the file that `SetPassword` writes
unfoldable pub set_password_file : (Text → Option Text) → Faults → Text → Text → Disk → Result File
set_password_file hash io_faults name password disk = do
  guard (leb min_password_len (byte_len password)) weak_password
  h ← hashed (hash password)
  f ← load io_faults disk
  _ ← or_missing (find name f)
  ok (update name (set (lit "password") h) f)

-- `SetPassword`
unfoldable pub set_password :
    (Text → Option Text) → Faults → Text → Text → Disk → Disk × Result (Unit {0})
set_password hash io_faults name password disk =
    commit io_faults disk (set_password_file hash io_faults name password disk)

-- the file that `Remove` writes
unfoldable pub remove_file : Faults → Text → Disk → Result File
remove_file io_faults name disk = do
  f ← load io_faults disk
  s ← or_missing (find name f)
  guard (not (is_tech s && not (has_other_tech name f))) last_tech
  guard (not (leb (length (select is_user f)) 1)) last_user
  ok (select (λ x. not (named name x)) f)

-- `Remove`
unfoldable pub remove_user : Faults → Text → Disk → Disk × Result (Unit {0})
remove_user io_faults name disk = commit io_faults disk (remove_file io_faults name disk)

abbrev pub granted : Text → Text
granted role = if not (valid_role role) then lit "operator" else role

-- `Verify`; `verify` is `VerifyPassword`
unfoldable pub verify_user : (Text → Text → Bool) → Faults → Text → Text → Disk → Result Text
verify_user verify io_faults name password disk = do
  f ← load io_faults disk
  s ← or_missing (find name f)
  guard (verify password (get (lit "password") s)) no_password
  ok (granted (role_of s))
