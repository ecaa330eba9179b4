-- ===== src/Api/Firstboot/Laws.antt =====
-- The wizard of internal/api/network.go runs once, and leaves a technician who can log in.
use stageneth.Prelude.{
  ℕ, Bool, true, false, List, [], ◌∷◌, Option, none, some, Text, lit, is_empty, if◌then◌else◌, any,
  first, ◌≡◌, ◌≢◌, refl, sym, ◌∙◌, ap, ◌⊎◌, arith, Bool-cases, inl, inr,
}
use stageneth.Ucifile.{Section, File}
use stageneth.Ucifile.Printer.{text}
use stageneth.Auth.Users.{
  Disk, Faults, Result, ok, err, Error, has_users, set_user, verify_user, is_user, find,
  with_account, load,
}
use stageneth.Auth.Users.Requests.{HashesClean, commit_error}
use stageneth.Auth.Users.Login.{
  IsCleanDisk, set_user-HasSet, load-clean, load-written, verify-set_user,
}
use stageneth.Auth.Sessions.{Store, create}
use stageneth.Api.Account.{Answer, set_cookie, Hashing, plain, login_created, drawn}
use stageneth.Api.Presets.{Applied, preset_applied, apply_preset_to_uci}
use stageneth.Api.Firstboot.{
  Appliance, Run, mark_firstboot_done, if_account, provision, with_console, if_applied, or_base,
  closed, wizard, wizard_skip, after_wizard, after_skip,
}

-- The two ways to end the first boot.
pub data Boot : Type 0 where
  wizard_boot : Option (Text × Text × List Text) → Boot
  skip_boot : Option Text → Boot

abbrev pub boot : Hashing → Run → Boot → Appliance → Appliance × Answer
boot hashing run (wizard_boot body) a = wizard hashing run body a
boot hashing run (skip_boot body) a = wizard_skip hashing run body a

-- the password that a run brings
abbrev pub password_of : Boot → Text
password_of (wizard_boot none) = []
password_of (wizard_boot (some (password, preset, services))) = password
password_of (skip_boot none) = []
password_of (skip_boot (some password)) = password

server_error : ◌≢◌ {A = ℕ} 500 200
server_error h = let no : ⊥ = omega (arith, h) in elim no [ ]

bad_request : ◌≢◌ {A = ℕ} 400 200
bad_request h = let no : ⊥ = omega (arith, h) in elim no [ ]

forbidden : ◌≢◌ {A = ℕ} 403 200
forbidden h = let no : ⊥ = omega (arith, h) in elim no [ ]

module _ (hashing : Hashing) (run : Run) where
  abbrev admin_set : Text → Disk → Disk × Result (Unit {0})
  admin_set password users =
      set_user hashing.hash run.set_faults (lit "admin") (lit "tech") password users

  -- the reply sets the cookie of a new session of the administrator
  abbrev pub Opened : Appliance → Appliance × Answer → Type 0
  Opened a r =
      (id : Text) × (create (drawn run.random) (lit "admin") (lit "tech") run.now run.gc
          a.daemon.sessions
        ≡ (r.0.daemon.sessions, some id))
      × (r.1.cookie ≡ set_cookie id)

  -- A run that did not write the account, or one that did.
  abbrev pub BootCases : Text → Appliance → Appliance × Answer → Type 0
  BootCases password a r =
      ((r.0.daemon.users ≡ a.daemon.users) × (r.1.status ≢ 200))
      ⊎ (((admin_set password a.daemon.users).1 ≡ ok tt)
          × (r.0.daemon.users ≡ (admin_set password a.daemon.users).0)
          × (r.1.status ≡ 200 → Opened a r))

  -- what follows the mark keeps the accounts, and a reply of 200 has a session
  abbrev Follows : (Appliance → Appliance × Answer) → Type 0
  Follows next =
      (a : Appliance)
      → ((next a).0.daemon.users ≡ a.daemon.users) × ((next a).1.status ≡ 200 → Opened a (next a))

  grant_session-Follows :
      (a : Appliance) (r : Store × Option Text)
      → create (drawn run.random) (lit "admin") (lit "tech") run.now run.gc a.daemon.sessions ≡ r
      → let (d, answer) = login_created a.daemon r in
        (d.users ≡ a.daemon.users)
        × (answer.status ≡ 200 → Opened a (record a { daemon = d }, answer))
  grant_session-Follows a (s, none) e = (refl, λ no. absurd (server_error no))
  grant_session-Follows a (s, some id) e = (refl, λ good. (id, e, refl))

  if_applied-Follows :
      (a : Appliance) (r : Disk × Applied)
      → ((if_applied run a r).0.daemon.users ≡ a.daemon.users)
        × ((if_applied run a r).1.status ≡ 200 → Opened a (if_applied run a r))
  if_applied-Follows a (config, preset_applied) =
      grant_session-Follows (record a { config = config })
        (create (drawn run.random) (lit "admin") (lit "tech") run.now run.gc a.daemon.sessions) refl
  if_applied-Follows a (config, Applied.validation_failed) = (refl, λ no. absurd (server_error no))
  if_applied-Follows a (config, Applied.apply_error) = (refl, λ no. absurd (server_error no))

  account_cases :
      (password : Text) (next : Appliance → Appliance × Answer) (a : Appliance)
      (r : Disk × Result (Unit {0})) (m : Disk × Bool)
      → Follows next
      → r ≡ admin_set password a.daemon.users
      → ((e : Error) → r.1 ≡ err e → r.0 ≡ a.daemon.users)
      → m ≡ mark_firstboot_done run.mark_faults a.config
      → BootCases password a (if_account run next a r)
  account_cases password next a (users, err e) m f same kept marked = inl (kept e refl, bad_request)
  account_cases password next a (users, ok tt) (config, false) f same kept marked =
      rw (← marked)
        (inr (ap (λ x. x.1) (sym same), ap (λ x. x.0) same, λ no. absurd (server_error no)))
  account_cases password next a (users, ok tt) (config, true) f same kept marked =
      let b = record a { daemon = record a.daemon { users = users }; config = config } in
      rw (← marked) (inr (ap (λ x. x.1) (sym same), (f b).0 ∙ ap (λ x. x.0) same, (f b).1))

  set_user-err :
      (password : Text) (users : Disk) (e : Error)
      → (admin_set password users).1 ≡ err e
      → (admin_set password users).0 ≡ users
  unfolding set_user
  set_user-err password users e h = commit_error run.set_faults users _ e h

  provision_cases :
      (password : Text) (next : Appliance → Appliance × Answer) (a : Appliance)
      → Follows next
      → BootCases password a (provision hashing run password next a)
  provision_cases password next a f = elim (Bool-cases (is_empty password)) [
    | inl e ↦ rw e (inl (refl, bad_request))
    | inr e ↦ rw e (
        account_cases password next a (admin_set password a.daemon.users)
          (mark_firstboot_done run.mark_faults a.config) f refl
          (set_user-err password a.daemon.users) refl)
  ]

  closed_cases :
      (password : Text) (a : Appliance) (r : Appliance × Answer)
      → BootCases password a r
      → BootCases password a (if closed run a then (a, plain 403) else r)
  closed_cases password a r h = elim (Bool-cases (closed run a)) [
    | inl e ↦ rw e (inl (refl, forbidden))
    | inr e ↦ rw e h
  ]

  boot_cases : (b : Boot) (a : Appliance) → BootCases (password_of b) a (boot hashing run b a)
  unfolding wizard wizard_skip
  boot_cases (wizard_boot none) a = closed_cases [] a (a, plain 400) (inl (refl, bad_request))
  boot_cases (wizard_boot (some (password, preset, services))) a =
      let next = after_wizard run password preset services in
      closed_cases password a (provision hashing run password next a) (
        provision_cases password next a λ b.
          if_applied-Follows (with_console run password b) (
            apply_preset_to_uci run.preset_faults run.apply_runs (or_base preset) services
              b.config))
  boot_cases (skip_boot none) a = closed_cases [] a (a, plain 400) (inl (refl, bad_request))
  boot_cases (skip_boot (some password)) a =
      let next = after_skip run password in
      closed_cases password a (provision hashing run password next a) (
        provision_cases password next a λ b.
          grant_session-Follows (with_console run password b)
            (create (drawn run.random) (lit "admin") (lit "tech") run.now run.gc b.daemon.sessions)
            refl)

pub any-find : (name : Text) (f : File) (s : Section) → find name f ≡ some s → any is_user f ≡ true
unfolding find first any
any-find name [] s h = cc
any-find name (x ∷ f) s h = ground (arith, any-find name f s)

pub has_users-load :
    (io_faults : Faults) (disk : Disk) (f : File)
    → load io_faults disk ≡ ok f
    → has_users io_faults disk ≡ any is_user f
unfolding has_users
has_users-load io_faults disk f e = rw (e, has_users) refl

has_users-set_user :
    (hash : Text → Option Text) (clean_hash : HashesClean hash) (io_faults later : Faults)
    (name role password : Text) (disk : Disk)
    → IsCleanDisk disk
    → (set_user hash io_faults name role password disk).1 ≡ ok tt
    → later.read ≡ false
    → has_users later (set_user hash io_faults name role password disk).0 ≡ true
has_users-set_user hash clean_hash io_faults later name role password disk c e r =
    let d = set_user-HasSet hash clean_hash io_faults name role password disk e in
    let clean = d.set_to.stays_clean (load-clean io_faults disk d.f c d.loaded) in
    let (s, found) = d.set_to.account in
    let loaded : load later (some (text d.g)) ≡ ok d.g = load-written later d.g clean ∙ rw r refl in
    rw d.written (has_users-load later (some (text d.g)) d.g loaded)
    ∙ any-find name d.g (with_account role d.h s) found

-- the wizard refuses, and changes nothing
closed-boot :
    (hashing : Hashing) (run : Run) (b : Boot) (a : Appliance)
    → closed run a ≡ true
    → boot hashing run b a ≡ (a, plain 403)
unfolding wizard wizard_skip
closed-boot hashing run (wizard_boot none) a h = rw h refl
closed-boot hashing run (wizard_boot (some body)) a h = rw h refl
closed-boot hashing run (skip_boot none) a h = rw h refl
closed-boot hashing run (skip_boot (some body)) a h = rw h refl

module _ (hashing : Hashing) (clean_hash : HashesClean hashing.hash) where
  -- Once a run of the wizard, with a preset or without, has written the account, whatever it met after
  -- that, every later run is refused with 403 and changes nothing, if the accounts can be read then. The
  -- file of the accounts was readable as it is written, and the hash is one line of text.
  pub boot-boot :
      (run later : Run) (b c : Boot) (a : Appliance)
      → IsCleanDisk a.daemon.users
      → (boot hashing run b a).0.daemon.users ≢ a.daemon.users
      → later.users_faults.read ≡ false
      → boot hashing later c (boot hashing run b a).0 ≡ ((boot hashing run b a).0, plain 403)
  boot-boot run later b c a clean h r = elim (boot_cases hashing run b a) [
    | inl same ↦ elim (h same.0) [ ]
    | inr (is_set, users, later_session) ↦
        let after = (boot hashing run b a).0 in
        let has : has_users later.users_faults after.daemon.users ≡ true = rw users (
          has_users-set_user hashing.hash clean_hash run.set_faults later.users_faults (lit "admin")
            (lit "tech") (password_of b) a.daemon.users clean is_set r) in
        closed-boot hashing later c after (ground (arith, has))
  ]

  -- A run of the wizard that answers with 200 has made the account `admin`: a login with the password of
  -- the run is granted the role `tech`, if the accounts can be read then, and the cookie of the reply is
  -- that of a new session of this account. The verification accepts the hash of the password, the hash is
  -- one line of text, and the file of the accounts was read back as it is written.
  pub verify-boot :
      (run : Run) (later : Faults) (b : Boot) (a : Appliance)
      → ((h : Text)
          → hashing.hash (password_of b) ≡ some h
          → hashing.verify (password_of b) h ≡ true)
      → IsCleanDisk a.daemon.users
      → (boot hashing run b a).1.status ≡ 200
      → later.read ≡ false
      → (verify_user hashing.verify later
            (lit "admin")
            (password_of b)
            (boot hashing run b a).0.daemon.users
          ≡ ok (lit "tech"))
        × Opened hashing run a (boot hashing run b a)
  verify-boot run later b a accepts clean h r = elim (boot_cases hashing run b a) [
    | inl same ↦ elim (same.1 h) [ ]
    | inr (is_set, users, new_session) ↦ (
      rw users (
          verify-set_user hashing.verify hashing.hash clean_hash run.set_faults later (lit "admin")
            (lit "tech") (password_of b) a.daemon.users accepts clean is_set r),
      new_session h,
    )
  ]
