-- ===== src/Auth/Users/Role.antt =====
-- The role of an account in the database of internal/auth/users.go, and which calls can change it.
use stageneth.Prelude.{
  Bool, not, ◌&&◌, [], ◌∷◌, Option, none, some, Text, lit, equal, equal_iff, first, select, ◌≡◌,
  ◌≢◌, refl, subst, ◌∙◌, ap, arith, Bool-cases, inl, inr, leb, byte_len, length,
}
use mathlib.Core.Option
use stageneth.Ucifile.{Section, File, set}
use stageneth.Ucifile.Reader.{parse}
use stageneth.Ucifile.Printer.{clean_char, text}
use stageneth.Ucifile.Access.{get-set}
use stageneth.Ucifile.Clean.{IsCleanFile, parse-text_clean, set-clean, select-clean}
use stageneth.Auth.Users.{
  Result, ok, err, Disk, Faults, hashed, or_missing, is_user, named, find, update, is_tech,
  has_other_tech, valid_name, valid_role, load, save, commit, set_file, set_user, set_password_file,
  set_password, remove_file, remove_user, min_password_len, bad_name, bad_role, weak_password,
  last_tech, last_user, granted, verify_user, role_of, no_password,
}
use stageneth.Auth.Users.Keeps.{update-clean, KeepsName}
use stageneth.Auth.Users.Requests.{
  >>=-ok, guard-ok, hashed-ok, or_missing-ok, HashesClean, valid_role-IsClean, valid_name-IsClean,
}
use stageneth.Auth.Users.Login.{
  IsCleanDisk, set_account-lem, load-clean, find-update_self, find-update_ne,
}

abbrev pub file_of : Disk → File
file_of none = []
file_of (some t) = parse t

abbrev pub granted_to : Option Section → Option Text
granted_to none = none
granted_to (some s) = some (granted (role_of s))

abbrev pub role_in : Text → File → Option Text
role_in name f = granted_to (find name f)

load-file_of :
    (io_faults : Faults) (disk : Disk) (f : File) → load io_faults disk ≡ ok f → f ≡ file_of disk
unfolding load
load-file_of io_faults none f e = elim (Bool-cases io_faults.read) [
  | inl r ↦ cc (r, e)
  | inr r ↦ cc (r, e)
]
load-file_of io_faults (some t) f e = elim (Bool-cases io_faults.read) [
  | inl r ↦ cc (r, e)
  | inr r ↦ cc (r, e)
]

-- A login is granted the role of the account.
pub verify-role_in :
    (verify : Text → Text → Bool) (io_faults : Faults) (name password role : Text) (disk : Disk)
    → verify_user verify io_faults name password disk ≡ ok role
    → role_in name (file_of disk) ≡ some role
unfolding verify_user
verify-role_in verify io_faults name password role disk e =
    let (f, loaded, e1) = >>=-ok (load io_faults disk) _ e in
    let (s, found, e2) = >>=-ok (or_missing (find name f)) _ e1 in
    let (good, e3) = guard-ok _ no_password (ok (granted (role_of s))) e2 in
    let same : granted (role_of s) ≡ role = cc e3 in
    let here : find name (file_of disk) ≡ some s =
      subst (λ g. find name g ≡ some s) (load-file_of io_faults disk f loaded)
        (or_missing-ok (find name f) s found) in
    rw here (ap (λ r. some r) same)

-- What a write of the accounts keeps: the file can be read back, and the role of one account.
abbrev pub KeepsRole : Text → Disk → Disk → Type 0
KeepsRole m disk after = IsCleanDisk after × (role_in m (file_of after) ≡ role_in m (file_of disk))

commit-KeepsRole :
    (m : Text) (io_faults : Faults) (disk : Disk) (r : Result File)
    → IsCleanDisk disk
    → ((g : File) → r ≡ ok g → IsCleanFile g × (role_in m g ≡ role_in m (file_of disk)))
    → KeepsRole m disk (commit io_faults disk r).0
unfolding commit save
commit-KeepsRole m io_faults disk (err e) c k = (c, refl)
commit-KeepsRole m io_faults disk (ok g) c k = elim (Bool-cases io_faults.write) [
  | inl w ↦ rw w (c, refl)
  | inr w ↦
      let same : parse (text g) ≡ g = parse-text_clean g (k g refl).0 in
      rw w (rw same (k g refl).0, rw same (k g refl).1)
]

module _ (hash : Text → Option Text) (clean_hash : HashesClean hash) where
  pub set_user-KeepsRole :
      (io_faults : Faults) (name role password m : Text) (disk : Disk)
      → name ≢ m
      → IsCleanDisk disk
      → KeepsRole m disk (set_user hash io_faults name role password disk).0
  unfolding set_user set_file
  set_user-KeepsRole io_faults name role password m disk ne c =
      commit-KeepsRole m io_faults disk (set_file hash io_faults name role password disk) c λ g e.
        let (named_well, e1) = guard-ok (valid_name name) bad_name _ e in
        let (role_valid, e2) = guard-ok (valid_role role) bad_role _ e1 in
        let (long, e3) = guard-ok (leb min_password_len (byte_len password)) weak_password _ e2 in
        let (h, hash_is, e4) = >>=-ok (hashed (hash password)) _ e3 in
        let (f, loaded, e5) = >>=-ok (load io_faults disk) _ e4 in
        let is_set =
          set_account-lem role h (valid_role-IsClean role role_valid)
            (clean_hash password h (hashed-ok (hash password) h hash_is)) name f g
            (valid_name-IsClean name named_well) e5 in
        (
          is_set.stays_clean (load-clean io_faults disk f c loaded),
          ap granted_to (is_set.others m ne)
              ∙ ap (role_in m) (load-file_of io_faults disk f loaded),
        )

  set_password-role_in :
      (name h m : Text) (f : File)
      → role_in m (update name (set (lit "password") h) f) ≡ role_in m f
  set_password-role_in name h m f =
      let keeps : KeepsName (set (lit "password") h) = λ s. unfold set in (refl, refl) in
      elim (Bool-cases (equal name m)) [
        | inl e ↦
            subst (λ n. role_in n (update name (set (lit "password") h) f) ≡ role_in n f)
              ((equal_iff name m).0 e)
              (ap granted_to (find-update_self name (set (lit "password") h) keeps f)
                ∙ same_role (find name f))
        | inr e ↦ ap granted_to (
            find-update_ne name (set (lit "password") h) keeps m f
              (λ same. cc ((equal_iff name m).1 same, e)))
      ]
    where
      same_role :
          (o : Option Section) → granted_to (Option.map (set (lit "password") h) o) ≡ granted_to o
      same_role none = refl
      same_role (some s) = rw get-set (unfold equal in refl)

  pub set_password-KeepsRole :
      (io_faults : Faults) (name password m : Text) (disk : Disk)
      → IsCleanDisk disk
      → KeepsRole m disk (set_password hash io_faults name password disk).0
  unfolding set_password set_password_file
  set_password-KeepsRole io_faults name password m disk c =
      commit-KeepsRole m io_faults disk (set_password_file hash io_faults name password disk) c
        λ g e.
          let (long, e1) = guard-ok (leb min_password_len (byte_len password)) weak_password _ e in
          let (h, hash_is, e2) = >>=-ok (hashed (hash password)) _ e1 in
          let (f, loaded, e3) = >>=-ok (load io_faults disk) _ e2 in
          let (s, found, e4) = >>=-ok (or_missing (find name f)) _ e3 in
          let same : update name (set (lit "password") h) f ≡ g = cc e4 in
          let h_clean = clean_hash password h (hashed-ok (hash password) h hash_is) in
          subst (λ x. IsCleanFile x × (role_in m x ≡ role_in m (file_of disk))) same
            (
              update-clean name _ f
                  (λ x k. set-clean (lit "password") h x refl (unfold clean_char in refl) h_clean k)
                  (load-clean io_faults disk f c loaded),
              set_password-role_in name h m f
                  ∙ ap (role_in m) (load-file_of io_faults disk f loaded),
            )

find-select :
    (name m : Text) (f : File) → name ≢ m → find m (select (λ x. not (named name x)) f) ≡ find m f
unfolding find first select
find-select name m [] ne = refl
find-select name m (s ∷ f) ne =
    ground (arith, find-select name m f ne, equal_iff s.name name, equal_iff s.name m)

pub remove_user-KeepsRole :
    (io_faults : Faults) (name m : Text) (disk : Disk)
    → name ≢ m
    → IsCleanDisk disk
    → KeepsRole m disk (remove_user io_faults name disk).0
unfolding remove_user remove_file
remove_user-KeepsRole io_faults name m disk ne c =
    commit-KeepsRole m io_faults disk (remove_file io_faults name disk) c λ g e.
      let (f, loaded, e1) = >>=-ok (load io_faults disk) _ e in
      let (s, found, e2) = >>=-ok (or_missing (find name f)) _ e1 in
      let (allowed, e3) =
        guard-ok (not (is_tech s && not (has_other_tech name f))) last_tech _ e2 in
      let (others, e4) = guard-ok (not (leb (length (select is_user f)) 1)) last_user _ e3 in
      let same : select (λ x. not (named name x)) f ≡ g = cc e4 in
      subst (λ x. IsCleanFile x × (role_in m x ≡ role_in m (file_of disk))) same
        (
          select-clean _ f (load-clean io_faults disk f c loaded),
          ap granted_to (find-select name m f ne)
              ∙ ap (role_in m) (load-file_of io_faults disk f loaded),
        )
