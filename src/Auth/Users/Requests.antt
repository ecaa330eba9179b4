-- ===== src/Auth/Users/Requests.antt =====
-- Any sequence of writes to the user database of internal/auth/users.go.
use stageneth.Prelude.{
  ℕ, Bool, true, false, not, ◌&&◌, List, [], ◌∷◌, Option, none, some, Text, lit, equal, equal_iff,
  all, select, ◌≡◌, refl, sym, subst, ◌∙◌, arith, Bool-cases, inl, inr, &&_split, leb, byte_len,
  length,
}
use stageneth.Ucifile.{Section, File, set}
use stageneth.Ucifile.Reader.{parse}
use stageneth.Ucifile.Printer.{clean_char}
use stageneth.Ucifile.Access.{get-set}
use stageneth.Ucifile.Clean.{IsClean, parse-text_clean, set-clean, select-clean}
use stageneth.Auth.Users.{
  Error, Result, ok, err, Disk, Faults, ◌>>=◌, ◌>>◌, guard, hashed, or_missing, is_user, named,
  find, update, is_tech, has_other_tech, valid_name, valid_role, load, save, commit, set_file,
  set_user, set_password_file, set_password, remove_file, remove_user, min_password_len, bad_name,
  bad_role, weak_password, last_tech, last_user, name_char,
}
use stageneth.Auth.Users.Keeps.{
  update-same_tech, other_tech_unique, select-other_tech, update-IsUnique, select-IsUnique,
  update-clean,
}
use stageneth.Auth.Users.LastTech.{IsManagedFile, IsManaged, set_account-managed}

-- A write to the database, with what fails during it.
pub data Request : Type 0 where
  set_request : Faults → Text → Text → Text → Request
  password_request : Faults → Text → Text → Request
  remove_request : Faults → Text → Request

module _ (hash : Text → Option Text) where
  unfoldable pub handle : Request → Disk → Disk × Result (Unit {0})
  handle (set_request io_faults name role password) disk =
      set_user hash io_faults name role password disk
  handle (password_request io_faults name password) disk =
      set_password hash io_faults name password disk
  handle (remove_request io_faults name) disk = remove_user io_faults name disk

  unfoldable pub handle_all : List Request → Disk → Disk
  unfolding handle
  handle_all [] disk = disk
  handle_all (r ∷ rs) disk = handle_all rs (handle r disk).0

pub >>=-ok :
    {A B : Type 0} (r : Result A) (next : A → Result B) {b : B}
    → (r >>= next) ≡ ok b
    → (a : A) × (r ≡ ok a) × (next a ≡ ok b)
>>=-ok (err e) next h = cc
>>=-ok (ok a) next h = (a, refl, h)

pub guard-ok :
    {B : Type 0} (b : Bool) (e : Error) (m : Result B) {r : B}
    → (guard b e >> m) ≡ ok r
    → (b ≡ true) × (m ≡ ok r)
guard-ok true e m h = (refl, h)
guard-ok false e m h = cc

name_char-IsClean : (c : ℕ) → name_char c ≡ true → clean_char c ≡ c
unfolding clean_char
name_char-IsClean c h = ground arith

all-IsClean : (name : Text) → all name_char name ≡ true → IsClean name
unfolding all
all-IsClean [] h = refl
all-IsClean (c ∷ name) h =
    let (p, q) = &&_split (name_char c) (all name_char name) h in
    cc (name_char-IsClean c p, all-IsClean name q)

commit-IsManaged :
    (io_faults : Faults) (disk : Disk) (r : Result File)
    → IsManaged disk
    → ((f : File) → r ≡ ok f → IsManagedFile f)
    → IsManaged (commit io_faults disk r).0
unfolding commit save
commit-IsManaged io_faults disk (err e) m k = m
commit-IsManaged io_faults disk (ok f) m k = elim (Bool-cases io_faults.write) [
  | inl w ↦ rw w m
  | inr w ↦ rw w (rw (parse-text_clean f (k f refl).clean_file) (k f refl))
]

pub commit_error :
    (io_faults : Faults) (disk : Disk) (r : Result File) (e : Error)
    → (commit io_faults disk r).1 ≡ err e
    → (commit io_faults disk r).0 ≡ disk
unfolding commit save
commit_error io_faults disk (err c) e h = refl
commit_error io_faults disk (ok f) e h = ground arith

load-managed :
    (io_faults : Faults) (disk : Disk) (f : File)
    → IsManaged disk
    → load io_faults disk ≡ ok f
    → IsManagedFile f
unfolding load
load-managed io_faults none f m e = absurd m
load-managed io_faults (some t) f m e = elim (Bool-cases io_faults.read) [
  | inl r ↦ cc (r, e)
  | inr r ↦ let same : parse t ≡ f = cc (r, e) in subst IsManagedFile same m
]

password-managed :
    (name h : Text) (f : File)
    → IsClean h
    → IsManagedFile f
    → IsManagedFile (update name (set (lit "password") h) f)
password-managed name h f c m = record {
  unique = update-IsUnique name _ f (λ s. unfold set in (refl, refl)) m.unique;
  tech = update-same_tech name _ f (λ s. rw get-set (unfold set equal in refl)) ∙ m.tech;
  clean_file =
      update-clean name _ f
        (λ s k. set-clean (lit "password") h s refl (unfold clean_char in refl) c k) m.clean_file;
}

removed-managed :
    (name : Text) (f : File) (s : Section)
    → IsManagedFile f
    → find name f ≡ some s
    → not (is_tech s && not (has_other_tech name f)) ≡ true
    → IsManagedFile (select (λ x. not (named name x)) f)
removed-managed name f s m found allowed = record {
  unique = select-IsUnique _ f m.unique;
  tech =
      select-other_tech name f (ground (arith, other_tech_unique name f s m.unique found, m.tech));
  clean_file = select-clean _ f m.clean_file;
}

pub valid_name-IsClean : (name : Text) → valid_name name ≡ true → IsClean name
unfolding valid_name
valid_name-IsClean name h = ground (arith, all-IsClean name)

pub valid_role-IsClean : (role : Text) → valid_role role ≡ true → IsClean role
unfolding valid_role
valid_role-IsClean role h = elim (Bool-cases (equal role (lit "operator"))) [
  | inl o ↦ subst IsClean (sym ((equal_iff role (lit "operator")).0 o)) (unfold clean_char in refl)
  | inr o ↦
      let t : equal role (lit "tech") ≡ true = rw o at h in
      subst IsClean (sym ((equal_iff role (lit "tech")).0 t)) (unfold clean_char in refl)
]

-- The hash is printed on one line.
abbrev pub HashesClean : (Text → Option Text) → Type 0
HashesClean hash = (password h : Text) → hash password ≡ some h → IsClean h

pub hashed-ok : (o : Option Text) (h : Text) → hashed o ≡ ok h → o ≡ some h
hashed-ok none h e = cc
hashed-ok (some x) h e = cc

pub or_missing-ok : (o : Option Section) (s : Section) → or_missing o ≡ ok s → o ≡ some s
or_missing-ok none s e = cc
or_missing-ok (some x) s e = cc

module _ (hash : Text → Option Text) (clean_hash : HashesClean hash) where
  set_file-managed :
      (io_faults : Faults) (name role password : Text) (disk : Disk) (g : File)
      → IsManaged disk
      → set_file hash io_faults name role password disk ≡ ok g
      → IsManagedFile g
  unfolding set_file
  set_file-managed io_faults name role password disk g m e =
      let (named_well, e1) = guard-ok (valid_name name) bad_name _ e in
      let (role_valid, e2) = guard-ok (valid_role role) bad_role _ e1 in
      let (long, e3) = guard-ok (leb min_password_len (byte_len password)) weak_password _ e2 in
      let (h, hash_is, e4) = >>=-ok (hashed (hash password)) _ e3 in
      let (f, loaded, e5) = >>=-ok (load io_faults disk) _ e4 in
      set_account-managed role h (valid_role-IsClean role role_valid)
        (clean_hash password h (hashed-ok (hash password) h hash_is)) name f g
        (valid_name-IsClean name named_well) (load-managed io_faults disk f m loaded) e5

  set_password_file-managed :
      (io_faults : Faults) (name password : Text) (disk : Disk) (g : File)
      → IsManaged disk
      → set_password_file hash io_faults name password disk ≡ ok g
      → IsManagedFile g
  unfolding set_password_file
  set_password_file-managed io_faults name password disk g m e =
      let (long, e1) = guard-ok (leb min_password_len (byte_len password)) weak_password _ e in
      let (h, hash_is, e2) = >>=-ok (hashed (hash password)) _ e1 in
      let (f, loaded, e3) = >>=-ok (load io_faults disk) _ e2 in
      let (s, found, e4) = >>=-ok (or_missing (find name f)) _ e3 in
      let same : update name (set (lit "password") h) f ≡ g = cc e4 in
      subst IsManagedFile same (
        password-managed name h f (clean_hash password h (hashed-ok (hash password) h hash_is))
          (load-managed io_faults disk f m loaded))

  remove_file-managed :
      (io_faults : Faults) (name : Text) (disk : Disk) (g : File)
      → IsManaged disk
      → remove_file io_faults name disk ≡ ok g
      → IsManagedFile g
  unfolding remove_file
  remove_file-managed io_faults name disk g m e =
      let (f, loaded, e1) = >>=-ok (load io_faults disk) _ e in
      let (s, found, e2) = >>=-ok (or_missing (find name f)) _ e1 in
      let (allowed, e3) =
        guard-ok (not (is_tech s && not (has_other_tech name f))) last_tech _ e2 in
      let (others, e4) = guard-ok (not (leb (length (select is_user f)) 1)) last_user _ e3 in
      let same : select (λ x. not (named name x)) f ≡ g = cc e4 in
      subst IsManagedFile same (
        removed-managed name f s (load-managed io_faults disk f m loaded)
          (or_missing-ok (find name f) s found) allowed)

  handle-IsManaged : (r : Request) (disk : Disk) → IsManaged disk → IsManaged (handle hash r disk).0
  unfolding handle set_user set_password remove_user
  handle-IsManaged (set_request io_faults name role password) disk m =
      commit-IsManaged io_faults disk _ m
        (λ f e. set_file-managed io_faults name role password disk f m e)
  handle-IsManaged (password_request io_faults name password) disk m =
      commit-IsManaged io_faults disk _ m
        (λ f e. set_password_file-managed io_faults name password disk f m e)
  handle-IsManaged (remove_request io_faults name) disk m =
      commit-IsManaged io_faults disk _ m (λ f e. remove_file-managed io_faults name disk f m e)

  -- Whatever calls of `Set`, `SetPassword` and `Remove` are made, in whatever order and with whatever
  -- failures of the disk and of the random source: from a database with a tech account and no name twice that is read back as it is
  -- written, with no line break or carriage return in a type, a name or a value and no empty type or
  -- option name, the database on disk is always such a one. The hash is one line of text.
  pub handle_all-IsManaged :
      (rs : List Request) (disk : Disk) → IsManaged disk → IsManaged (handle_all hash rs disk)
  unfolding handle_all
  handle_all-IsManaged [] disk m = m
  handle_all-IsManaged (r ∷ rs) disk m = handle_all-IsManaged rs _ (handle-IsManaged r disk m)

-- A call that returns an error has written nothing.
handle_error :
    (hash : Text → Option Text) (r : Request) (disk : Disk) (e : Error)
    → (handle hash r disk).1 ≡ err e
    → (handle hash r disk).0 ≡ disk
unfolding handle set_user set_password remove_user
handle_error hash (set_request io_faults name role password) disk e h =
    commit_error io_faults disk _ e h
handle_error hash (password_request io_faults name password) disk e h =
    commit_error io_faults disk _ e h
handle_error hash (remove_request io_faults name) disk e h = commit_error io_faults disk _ e h
