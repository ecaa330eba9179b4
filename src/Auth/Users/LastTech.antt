-- ===== src/Auth/Users/LastTech.antt =====
-- The last-tech invariant of internal/auth/users.go.
use stageneth.Prelude.{
  true, false, not, ◌&&◌, [], ◌∷◌, ◌++◌, none, some, Text, lit, equal, equal_refl, any-append, ◌≡◌,
  refl, subst, arith, Bool-cases, Option-cases, inl, inr,
}
use stageneth.Ucifile.{Section, File, set}
use stageneth.Ucifile.Reader.{parse}
use stageneth.Ucifile.Printer.{clean_char}
use stageneth.Ucifile.Access.{get-set}
use stageneth.Ucifile.Clean.{IsClean, IsCleanSection, IsCleanFile, set-clean, append-clean}
use stageneth.Auth.Users.{
  ok, Disk, find, update, role_of, is_tech, has_other_tech, with_account, new_user, set_account,
}
use stageneth.Auth.Users.Keeps.{
  has_tech, IsUnique, KeepsName, update-other_tech, update-new_tech, other_tech_unique,
  update-IsUnique, append-IsUnique, find-none, find-some, update-clean,
}

-- Names are unique, some account has the tech role, and the file is read back as it is written.
pub record IsManagedFile (f : File) : Type 0 where
  pub unique : IsUnique f
  pub tech : has_tech f ≡ true
  pub clean_file : IsCleanFile f

-- The disk holds such a file.
abbrev pub IsManaged : Disk → Type 0
IsManaged none = ⊥
IsManaged (some t) = IsManagedFile (parse t)

pub role-with_account : (role h : Text) (s : Section) → role_of (with_account role h s) ≡ role
role-with_account role h s = rw (get-set, get-set, equal_refl) (unfold equal in refl)

pub account-keeps : (role h : Text) → KeepsName (with_account role h)
account-keeps role h s = unfold set in (refl, refl)

module _ (role h : Text) (role_clean : IsClean role) (h_clean : IsClean h) where
  pub account-clean : (s : Section) → IsCleanSection s → IsCleanSection (with_account role h s)
  account-clean s c =
      set-clean (lit "password") h _ refl (unfold clean_char in refl) h_clean
        (set-clean (lit "role") role s refl (unfold clean_char in refl) role_clean c)

  added-managed :
      (name : Text) (f : File)
      → IsClean name
      → IsManagedFile f
      → find name f ≡ none
      → IsManagedFile (f ++ with_account role h (new_user name) ∷ [])
  added-managed name f nc m none_there =
      let new = with_account role h (new_user name) in
      record {
        unique = append-IsUnique f new (unfold set in find-none name f none_there) m.unique;
        tech = rw (any-append, m.tech) refl;
        clean_file = append-clean f (new ∷ []) m.clean_file (
          account-clean (new_user name) (record {
            typed = refl;
            type_clean = unfold clean_char in refl;
            name_clean = nc;
            items_clean = tt;
          }),
          tt,
        );
      }

  updated-tech :
      (name : Text) (f : File) (s : Section)
      → IsManagedFile f
      → find name f ≡ some s
      → (is_tech s && not (equal role (lit "tech")) && not (has_other_tech name f)) ≡ false
      → has_tech (update name (with_account role h) f) ≡ true
  updated-tech name f s m found allowed = elim (Bool-cases (equal role (lit "tech"))) [
    | inl t ↦
        update-new_tech name (with_account role h) f s found
          (rw (role-with_account, t) (unfold set in ground (arith, find-some name f s)))
    | inr t ↦
        update-other_tech name (with_account role h) f
          (ground (arith, other_tech_unique name f s m.unique found, m.tech))
  ]

  updated-managed :
      (name : Text) (f : File)
      → IsManagedFile f
      → has_tech (update name (with_account role h) f) ≡ true
      → IsManagedFile (update name (with_account role h) f)
  updated-managed name f m t = record {
    unique = update-IsUnique name (with_account role h) f (account-keeps role h) m.unique;
    tech = t;
    clean_file = update-clean name (with_account role h) f account-clean m.clean_file;
  }

  pub set_account-managed :
      (name : Text) (f g : File)
      → IsClean name
      → IsManagedFile f
      → set_account name role h f (find name f) ≡ ok g
      → IsManagedFile g
  unfolding set_account
  set_account-managed name f g nc m e = elim (Option-cases (find name f)) [
    | inl gone ↦
        let e' : ok (f ++ with_account role h (new_user name) ∷ []) ≡ ok g =
          subst (λ o. set_account name role h f o ≡ ok g) gone e in
        subst IsManagedFile (cc e') (added-managed name f nc m gone)
    | inr (s, found) ↦ allow s found (subst (λ o. set_account name role h f o ≡ ok g) found e)
  ]
    where
      allow :
          (s : Section)
          → find name f ≡ some s
          → set_account name role h f (some s) ≡ ok g
          → IsManagedFile g
      allow s found e' =
          elim (Bool-cases
            (is_tech s && not (equal role (lit "tech")) && not (has_other_tech name f))) [
              | inl no_tech ↦ cc (no_tech, e')
              | inr allowed ↦
                  let same : update name (with_account role h) f ≡ g = cc (allowed, e') in
                  subst IsManagedFile same
                    (updated-managed name f m (updated-tech name f s m found allowed))
            ]
