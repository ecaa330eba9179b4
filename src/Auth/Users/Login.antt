-- ===== src/Auth/Users/Login.antt =====
-- What a login sees of a write to the user database of internal/auth/users.go.
use stageneth.Prelude.{
  Bool, true, false, not, ◌&&◌, [], ◌∷◌, ◌++◌, Option, none, some, Text, lit, equal, equal_iff,
  equal_refl, ◌≡◌, ◌≢◌, refl, ap, subst, ◌∙◌, arith, if◌then◌else◌, Bool-cases, Option-cases, inl,
  inr, leb, byte_len, first,
}
use mathlib.Core.Option
use stageneth.Ucifile.{Section, File, set}
use stageneth.Ucifile.Reader.{parse}
use stageneth.Ucifile.Printer.{text, clean_char}
use stageneth.Ucifile.Access.{get-set}
use stageneth.Ucifile.Clean.{IsClean, IsCleanFile, parse-text_clean, append-clean}
use stageneth.Auth.Users.{
  Error, Result, ok, err, Disk, Faults, hashed, named, find, update, is_tech, has_other_tech,
  valid_name, valid_role, load, save, commit, set_account, set_file, set_user, with_account,
  new_user, min_password_len, bad_name, bad_role, weak_password, granted, verify_user,
}
use stageneth.Auth.Users.Keeps.{KeepsName, update-clean}
use stageneth.Auth.Users.LastTech.{role-with_account, account-keeps, account-clean}
use stageneth.Auth.Users.Requests.{
  guard-ok, >>=-ok, hashed-ok, HashesClean, valid_role-IsClean, valid_name-IsClean,
}

abbrev pub IsCleanDisk : Disk → Type 0
IsCleanDisk none = Unit
IsCleanDisk (some t) = IsCleanFile (parse t)

module _ (name : Text) (g : Section → Section) (k : KeepsName g) where
  pub find-update_self : (f : File) → find name (update name g f) ≡ Option.map g (find name f)
  unfolding find update first
  find-update_self [] = refl
  find-update_self (s ∷ f) = ground (arith, find-update_self f, (k s).0, (k s).1)

  pub find-update_ne : (m : Text) (f : File) → name ≢ m → find m (update name g f) ≡ find m f
  unfolding find update first
  find-update_ne m [] ne = refl
  find-update_ne m (s ∷ f) ne =
      ground
        (arith, find-update_ne m f ne, (k s).0, (k s).1, equal_iff s.name name, equal_iff s.name m)

find-append :
    (m : Text) (f : File) (s : Section) → named m s ≡ false → find m (f ++ s ∷ []) ≡ find m f
unfolding find first
find-append m [] s h = ground arith
find-append m (x ∷ f) s h = ground (arith, find-append m f s h)

find-append_self :
    (m : Text) (f : File) (s : Section)
    → find m f ≡ none
    → named m s ≡ true
    → find m (f ++ s ∷ []) ≡ some s
unfolding find first
find-append_self m [] s e h = ground arith
find-append_self m (x ∷ f) s e h = ground (arith, find-append_self m f s)

-- What `Set` makes of the file.
pub record IsSetAccount (name role h : Text) (f g : File) : Type 0 where
  pub account : (s : Section) × (find name g ≡ some (with_account role h s))
  pub others : (m : Text) → name ≢ m → find m g ≡ find m f
  pub stays_clean : IsCleanFile f → IsCleanFile g

module _ (role h : Text) (role_clean : IsClean role) (h_clean : IsClean h) where
  added-account :
      (name : Text) (f : File)
      → IsClean name
      → find name f ≡ none
      → IsSetAccount name role h f (f ++ with_account role h (new_user name) ∷ [])
  added-account name f nc gone =
      let new = with_account role h (new_user name) in
      record {
        account = (
          new_user name,
          find-append_self name f new gone
              (unfold set in ground (arith, equal_refl (lit "user"), equal_refl name)),
        );
        others = λ m ne. find-append m f new (unfold set in ground (arith, equal_iff name m));
        stays_clean = λ c. append-clean f (new ∷ []) c (
          account-clean role h role_clean h_clean (new_user name) (record {
            typed = refl;
            type_clean = unfold clean_char in refl;
            name_clean = nc;
            items_clean = tt;
          }),
          tt,
        );
      }

  updated-account :
      (name : Text) (f : File) (s : Section)
      → find name f ≡ some s
      → IsSetAccount name role h f (update name (with_account role h) f)
  updated-account name f s found = record {
    account = (
      s,
      find-update_self name _ (account-keeps role h) f
          ∙ ap (Option.map (with_account role h)) found,
    );
    others = λ m ne. find-update_ne name _ (account-keeps role h) m f ne;
    stays_clean = λ c. update-clean name _ f (account-clean role h role_clean h_clean) c;
  }

  pub set_account-lem :
      (name : Text) (f g : File)
      → IsClean name
      → set_account name role h f (find name f) ≡ ok g
      → IsSetAccount name role h f g
  unfolding set_account
  set_account-lem name f g nc e = elim (Option-cases (find name f)) [
    | inl gone ↦
        let e' : ok (f ++ with_account role h (new_user name) ∷ []) ≡ ok g =
          subst (λ o. set_account name role h f o ≡ ok g) gone e in
        subst (IsSetAccount name role h f) (cc e') (added-account name f nc gone)
    | inr (s, found) ↦ allowed s found (subst (λ o. set_account name role h f o ≡ ok g) found e)
  ]
    where
      allowed :
          (s : Section)
          → find name f ≡ some s
          → set_account name role h f (some s) ≡ ok g
          → IsSetAccount name role h f g
      allowed s found e' =
          elim (Bool-cases
            (is_tech s && not (equal role (lit "tech")) && not (has_other_tech name f))) [
              | inl no_tech ↦ cc (no_tech, e')
              | inr may ↦
                  let same : update name (with_account role h) f ≡ g = cc (may, e') in
                  subst (IsSetAccount name role h f) same (updated-account name f s found)
            ]

-- A successful `Set`, taken apart.
pub record HasSet (hash : Text → Option Text) (io_faults : Faults) (name role password : Text)
    (disk after : Disk) : Type 0 where
  pub h : Text
  pub f : File
  pub g : File
  pub role_valid : valid_role role ≡ true
  pub hash_is : hash password ≡ some h
  pub loaded : load io_faults disk ≡ ok f
  pub set_to : IsSetAccount name role h f g
  pub written : after ≡ some (text g)

commit-ok :
    (io_faults : Faults) (disk : Disk) (r : Result File)
    → (commit io_faults disk r).1 ≡ ok tt
    → (g : File) × (r ≡ ok g) × ((commit io_faults disk r).0 ≡ some (text g))
unfolding commit save
commit-ok io_faults disk (err c) e = cc
commit-ok io_faults disk (ok g) e = (g, refl, ground arith)

pub set_user-HasSet :
    (hash : Text → Option Text) (clean_hash : HashesClean hash) (io_faults : Faults)
    (name role password : Text) (disk : Disk)
    → (set_user hash io_faults name role password disk).1 ≡ ok tt
    → HasSet hash io_faults name role password disk
        (set_user hash io_faults name role password disk).0
unfolding set_user set_file
set_user-HasSet hash clean_hash io_faults name role password disk e =
    let (g, e0, written) =
      commit-ok io_faults disk (set_file hash io_faults name role password disk) e in
    let (named_well, e1) = guard-ok (valid_name name) bad_name _ e0 in
    let (role_valid, e2) = guard-ok (valid_role role) bad_role _ e1 in
    let (long, e3) = guard-ok (leb min_password_len (byte_len password)) weak_password _ e2 in
    let (h, hash_is, e4) = >>=-ok (hashed (hash password)) _ e3 in
    let (f, loaded, e5) = >>=-ok (load io_faults disk) _ e4 in
    record {
      h = h;
      f = f;
      g = g;
      role_valid = role_valid;
      hash_is = hashed-ok (hash password) h hash_is;
      loaded = loaded;
      set_to =
          set_account-lem role h (valid_role-IsClean role role_valid)
            (clean_hash password h (hashed-ok (hash password) h hash_is)) name f g
            (valid_name-IsClean name named_well) e5;
      written = written;
    }

load_later :
    (io_faults later : Faults) (disk : Disk) (f : File)
    → load io_faults disk ≡ ok f
    → load later disk ≡ (if later.read then err Error.io else ok f)
unfolding load
load_later io_faults later none f e = ground arith
load_later io_faults later (some t) f e = ground arith

pub load-clean :
    (io_faults : Faults) (disk : Disk) (f : File)
    → IsCleanDisk disk
    → load io_faults disk ≡ ok f
    → IsCleanFile f
unfolding load
load-clean io_faults none f c e = elim (Bool-cases io_faults.read) [
  | inl r ↦ cc (r, e)
  | inr r ↦ let same : [] ≡ f = cc (r, e) in subst IsCleanFile same tt
]
load-clean io_faults (some t) f c e = elim (Bool-cases io_faults.read) [
  | inl r ↦ cc (r, e)
  | inr r ↦ let same : parse t ≡ f = cc (r, e) in subst IsCleanFile same c
]

pub load-written :
    (later : Faults) (g : File)
    → IsCleanFile g
    → load later (some (text g)) ≡ (if later.read then err Error.io else ok g)
unfolding load
load-written later g c = rw (parse-text_clean g c)

granted-valid : (role : Text) → valid_role role ≡ true → granted role ≡ role
granted-valid role h = ground arith

module _ (verify : Text → Text → Bool) (hash : Text → Option Text)
    (clean_hash : HashesClean hash) where
  -- After a `Set` that succeeded, a login with that name and password is granted exactly the role
  -- that was set. The database was readable as it is written, the hash is one line of text, and the
  -- verification accepts the hash of the password.
  pub verify-set_user :
      (io_faults later : Faults) (name role password : Text) (disk : Disk)
      → ((h : Text) → hash password ≡ some h → verify password h ≡ true)
      → IsCleanDisk disk
      → (set_user hash io_faults name role password disk).1 ≡ ok tt
      → later.read ≡ false
      → verify_user verify later name password (set_user hash io_faults name role password disk).0
        ≡ ok role
  unfolding verify_user
  verify-set_user io_faults later name role password disk accepts c e r =
      let d = set_user-HasSet hash clean_hash io_faults name role password disk e in
      let (s, found) = d.set_to.account in
      let g_clean = d.set_to.stays_clean (load-clean io_faults disk d.f c d.loaded) in
      rw (
        d.written,
        load-written later d.g g_clean,
        r,
        found,
        get-set,
        equal_refl,
        accepts d.h d.hash_is,
        role-with_account,
        granted-valid role d.role_valid,
      )

  -- A `Set` that succeeded changes no other account: every login under another name goes as before,
  -- with the same role or the same error. The database was read back as it is written, with no line break
  -- or carriage return in it, and the hash is one line of text.
  pub verify-set_user_ne :
      (io_faults later : Faults) (name role password m other : Text) (disk : Disk)
      → IsCleanDisk disk
      → (set_user hash io_faults name role password disk).1 ≡ ok tt
      → name ≢ m
      → verify_user verify later m other (set_user hash io_faults name role password disk).0
        ≡ verify_user verify later m other disk
  unfolding verify_user
  verify-set_user_ne io_faults later name role password m other disk c e ne =
      let d = set_user-HasSet hash clean_hash io_faults name role password disk e in
      let g_clean = d.set_to.stays_clean (load-clean io_faults disk d.f c d.loaded) in
      rw (d.written, load-written later d.g g_clean, load_later io_faults later disk d.f d.loaded)
        (ground (arith, d.set_to.others m ne))
