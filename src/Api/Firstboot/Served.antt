-- ===== src/Api/Firstboot/Served.antt =====
-- The sessions and the accounts over the requests of internal/api/auth.go and the runs of the wizard of
-- internal/api/network.go.
use stageneth.Prelude.{
  Bool, true, false, List, [], ◌∷◌, none, some, Text, lit, is_empty, any, if◌then◌else◌, ◌≡◌, ◌≢◌,
  refl, sym, ◌∙◌, ap, subst, arith, Bool-cases, Option-cases, inl, inr,
}
use stageneth.Ucifile.{File}
use stageneth.Auth.Users.{Disk, Faults, Result, ok, err, load, find, is_user, set_user}
use stageneth.Auth.Users.Requests.{HashesClean}
use stageneth.Auth.Users.Login.{verify-set_user, IsCleanDisk}
use stageneth.Auth.Users.Role.{file_of, role_in, granted_to, verify-role_in, set_user-KeepsRole}
use stageneth.Auth.Sessions.{create}
use stageneth.Api.Account.{Daemon, Hashing, Answer, plain, drawn}
use stageneth.Api.Account.Sound.{IsCurrent, IsSound, create-IsSound}
use stageneth.Api.Account.Roles.{Act, act, act-IsSound, login_created-IsSound, set_user-err}
use stageneth.Api.Presets.{Applied, preset_applied, apply_preset_to_uci}
use stageneth.Api.Firstboot.{
  Appliance, Run, mark_firstboot_done, if_marked, if_account, provision, with_console, if_applied,
  or_base, closed, grant_session, wizard, wizard_skip, after_wizard, after_skip,
}
use stageneth.Api.Firstboot.Laws.{Boot, wizard_boot, skip_boot, boot, any-find, has_users-load}

-- A request on the accounts or the sessions, or a run of the wizard.
pub data Served : Type 0 where
  account_served : Act → Served
  boot_served : Run → Boot → Served

unfoldable pub serve : Hashing → Served → Appliance → Appliance
unfolding act
serve hashing (account_served req) a = record a { daemon = (act hashing req a.daemon).0 }
serve hashing (boot_served run b) a = (boot hashing run b a).0

unfoldable pub serve_all : Hashing → List Served → Appliance → Appliance
unfolding serve
serve_all hashing [] a = a
serve_all hashing (s ∷ rest) a = serve_all hashing rest (serve hashing s a)

-- A run of the wizard can read the accounts when it checks that there are none.
abbrev pub IsChecked : Served → Type 0
IsChecked (account_served req) = Unit
IsChecked (boot_served run b) = run.users_faults.read ≡ false

abbrev pub AreChecked : List Served → Type 0
AreChecked [] = Unit
AreChecked (s ∷ rest) = IsChecked s × AreChecked rest

load-readable :
    (io_faults : Faults) (disk : Disk)
    → io_faults.read ≡ false
    → load io_faults disk ≡ ok (file_of disk)
unfolding load
load-readable io_faults none r = rw r refl
load-readable io_faults (some t) r = rw r refl

-- without accounts, there is no role
no_users-role :
    (name role : Text) (f : File) → any is_user f ≡ false → role_in name f ≡ some role → ⊥
no_users-role name role f h e = elim (Option-cases (find name f)) [
  | inl gone ↦ cc (ap granted_to gone, e)
  | inr (s, found) ↦ cc (any-find name f s found, h)
]

module _ (hashing : Hashing) (clean_hash : HashesClean hashing.hash) (run : Run) where
  -- what follows the mark may rely on the account
  abbrev KeepsSound : (Appliance → Appliance × Answer) → Type 0
  KeepsSound next =
      (b : Appliance)
      → role_in (lit "admin") (file_of b.daemon.users) ≡ some (lit "tech")
      → IsSound b.daemon
      → IsSound (next b).0.daemon

  grant_session-IsSound : KeepsSound (grant_session run (lit "admin") (lit "tech"))
  grant_session-IsSound b r h =
      login_created-IsSound hashing clean_hash b.daemon
        (create (drawn run.random) (lit "admin") (lit "tech") run.now run.gc b.daemon.sessions)
        (create-IsSound run.random (lit "admin") (lit "tech") run.now run.gc b.daemon r h)

  if_applied-IsSound : (r : Disk × Applied) → KeepsSound (λ b. if_applied run b r)
  if_applied-IsSound (config, preset_applied) b r h =
      grant_session-IsSound (record b { config = config }) r h
  if_applied-IsSound (config, Applied.validation_failed) b r h = h
  if_applied-IsSound (config, Applied.apply_error) b r h = h

  if_marked-IsSound :
      (next : Appliance → Appliance × Answer) (r : Disk × Bool)
      → KeepsSound next
      → KeepsSound (λ b. if_marked next b r)
  if_marked-IsSound next (config, false) k b r h = h
  if_marked-IsSound next (config, true) k b r h = k (record b { config = config }) r h

  -- the first account: no session was there that could lose its role
  set_user-IsSound :
      (password : Text) (d : Daemon) (users : Disk)
      → any is_user (file_of d.users) ≡ false
      → IsSound d
      → set_user hashing.hash run.set_faults (lit "admin") (lit "tech") password d.users
        ≡ (users, ok tt)
      → IsSound (record d { users = users })
        × (role_in (lit "admin") (file_of users) ≡ some (lit "tech"))
  set_user-IsSound password d users empty (s, c, k) e =
      let r = set_user hashing.hash run.set_faults (lit "admin") (lit "tech") password d.users in
      let later : Faults = record { read = false; write = false } in
      let logged =
        verify-set_user (λ p h. true) hashing.hash clean_hash run.set_faults later (lit "admin")
          (lit "tech") password d.users (λ h p. refl) c (ap (λ x. x.1) e) refl in
      let role =
        verify-role_in (λ p h. true) later (lit "admin") password (lit "tech") r.0 logged in
      let other : lit "admin" ≢ [] = λ same. cc same in
      let clean =
        (set_user-KeepsRole hashing.hash clean_hash run.set_faults (lit "admin") (lit "tech")
          password [] d.users other c).0 in
      (
        (
          s,
          subst IsCleanDisk (ap (λ x. x.0) e) clean,
          λ id se found.
              elim (no_users-role se.user se.role (file_of d.users) empty (k id se found)) [ ],
        ),
        ap (λ x. role_in (lit "admin") (file_of x.0)) (sym e) ∙ role,
      )

  if_account-IsSound :
      (password : Text) (next : Appliance → Appliance × Answer) (a : Appliance)
      (r : Disk × Result (Unit {0}))
      → any is_user (file_of a.daemon.users) ≡ false
      → KeepsSound next
      → IsSound a.daemon
      → set_user hashing.hash run.set_faults (lit "admin") (lit "tech") password a.daemon.users ≡ r
      → IsSound (if_account run next a r).0.daemon
  if_account-IsSound password next a (users, err e) empty k h same =
      let kept : users ≡ a.daemon.users =
        ap (λ x. x.0) (sym same)
        ∙ set_user-err hashing.hash run.set_faults (lit "admin") (lit "tech") password
            a.daemon.users e (ap (λ x. x.1) same) in
      (
        h.0,
        subst IsCleanDisk (sym kept) h.1,
        subst (λ u. IsCurrent u a.daemon.sessions) (sym kept) h.2,
      )
  if_account-IsSound password next a (users, ok tt) empty k h same =
      let set = set_user-IsSound password a.daemon users empty h same in
      if_marked-IsSound next (mark_firstboot_done run.mark_faults a.config) k
        (record a { daemon = record a.daemon { users = users } }) set.1 set.0

  provision-IsSound :
      (password : Text) (next : Appliance → Appliance × Answer) (a : Appliance)
      → any is_user (file_of a.daemon.users) ≡ false
      → KeepsSound next
      → IsSound a.daemon
      → IsSound (provision hashing run password next a).0.daemon
  provision-IsSound password next a empty k h = elim (Bool-cases (is_empty password)) [
    | inl e ↦ rw e h
    | inr e ↦ rw e (if_account-IsSound password next a _ empty k h refl)
  ]

  closed-IsSound :
      (a : Appliance) (r : Appliance × Answer)
      → run.users_faults.read ≡ false
      → IsSound a.daemon
      → (any is_user (file_of a.daemon.users) ≡ false → IsSound r.0.daemon)
      → IsSound (if closed run a then (a, plain 403) else r).0.daemon
  closed-IsSound a r readable h k = elim (Bool-cases (closed run a)) [
    | inl e ↦ rw e h
    | inr e ↦
        let load_ok = load-readable run.users_faults a.daemon.users readable in
        let same =
          has_users-load run.users_faults a.daemon.users (file_of a.daemon.users) load_ok in
        rw e (k (ground (arith, e, same)))
  ]

  boot-IsSound :
      (b : Boot) (a : Appliance)
      → run.users_faults.read ≡ false
      → IsSound a.daemon
      → IsSound (boot hashing run b a).0.daemon
  unfolding wizard wizard_skip
  boot-IsSound (wizard_boot none) a r h = closed-IsSound a (a, plain 400) r h (λ empty. h)
  boot-IsSound (wizard_boot (some (password, preset, services))) a r h =
      let next = after_wizard run password preset services in
      closed-IsSound a (provision hashing run password next a) r h (λ empty.
        provision-IsSound password next a empty
          (λ c role sound.
            if_applied-IsSound
              (apply_preset_to_uci run.preset_faults run.apply_runs (or_base preset) services
                c.config)
              (with_console run password c) role sound)
          h)
  boot-IsSound (skip_boot none) a r h = closed-IsSound a (a, plain 400) r h (λ empty. h)
  boot-IsSound (skip_boot (some password)) a r h =
      let next = after_skip run password in
      closed-IsSound a (provision hashing run password next a) r h (λ empty.
        provision-IsSound password next a empty
          (λ c role sound. grant_session-IsSound (with_console run password c) role sound) h)

module _ (hashing : Hashing) (clean_hash : HashesClean hashing.hash) where
  -- Whatever requests on sessions, passwords and accounts are served, and whatever runs of the wizard, in any
  -- order and with any failures: every session of the store belongs to an account of the file and has the
  -- role that this account has there now, so that no change of a role and no deletion of an account leaves a
  -- session of before. At the start this holds, no identifier of a session is empty or stands twice, and the file of the
  -- accounts is read back as it is written; the hash is one line of text, and a run of the wizard can read the
  -- accounts when it checks that there are none. Each request is one step, and the restoration of a
  -- backup is not among them.
  pub serve_all-IsSound :
      (served : List Served) (a : Appliance)
      → AreChecked served
      → IsSound a.daemon
      → IsSound (serve_all hashing served a).daemon
  unfolding serve_all
  serve_all-IsSound [] a checked h = h
  serve_all-IsSound (account_served req ∷ rest) a checked h =
      serve_all-IsSound rest (record a { daemon = (act hashing req a.daemon).0 }) checked.1
        (act-IsSound hashing clean_hash req a.daemon h)
  serve_all-IsSound (boot_served run b ∷ rest) a checked h =
      serve_all-IsSound rest (boot hashing run b a).0 checked.1
        (boot-IsSound hashing clean_hash run b a checked.0 h)
