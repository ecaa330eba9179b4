-- ===== src/Api/Firstboot.antt =====
-- internal/api/network.go: the wizard of the first boot. A handler is one step on what the daemon keeps,
-- on the configuration file and on the password of the console; each access of a file has its own
-- failures. The text of a reply is not modelled.
pub mod Laws
pub mod Served
use stageneth.Prelude.{
  ℕ, Bool, true, false, ◌||◌, List, [], ◌∷◌, Option, none, some, Text, lit, equal, is_empty,
  if◌then◌else◌, sort_text,
}
use stageneth.Ucifile.{Section, File, get, set}
use stageneth.Ucifile.Printer.{text}
use stageneth.Auth.Users.{Disk, Faults, Result, ok, err, has_users, set_user}
use stageneth.Auth.Sessions.{create}
use stageneth.Api.V1.{load_stageneth, find_section, update_section, new_section}
use stageneth.Api.Account.{Daemon, Hashing, Answer, plain, login_created, drawn}
use stageneth.Api.Presets.{Applied, preset_applied, apply_preset_to_uci}

pub record Appliance : Type 0 where
  pub daemon : Daemon
  pub config : Disk
  pub console : Option Text

-- What one run of the wizard reads, and what fails during it: the checks at its start, the write of the
-- account, the mark, the tools that set the password of the console, the preset and the command `apply`.
pub record Run : Type 0 where
  pub check_faults : Faults
  pub users_faults : Faults
  pub set_faults : Faults
  pub mark_faults : Faults
  pub sha512_works : Bool
  pub chpasswd_works : Bool
  pub passwd_works : Bool
  pub preset_faults : Faults
  pub apply_runs : Bool
  pub random : Option (ℕ × List ℕ)
  pub now : ℕ
  pub gc : Text → ℕ

abbrev is_done : Option Section → Bool
is_done none = false
is_done (some s) = equal (get (lit "firstboot_done") s) (lit "1")

abbrev pub file_is_done : Option File → Bool
file_is_done none = false
file_is_done (some f) = is_done (find_section (lit "stageneth") (lit "globals") f)

-- `firstbootDone`
unfoldable pub firstboot_done : Faults → Disk → Bool
firstboot_done io_faults config = file_is_done (load_stageneth io_faults config)

abbrev mark : Section → Section
mark s = set (lit "firstboot_done") (lit "1") s

abbrev pub marked : File → Option Section → File
marked f none = mark (new_section (lit "stageneth") (lit "globals")) ∷ f
marked f (some s) = update_section (lit "stageneth") (lit "globals") mark f

abbrev pub save_mark : Faults → Disk → Option File → Disk × Bool
save_mark io_faults config none = (config, false)
save_mark io_faults config (some f) =
    let g = marked f (find_section (lit "stageneth") (lit "globals") f) in
    if io_faults.write then (config, false) else (some (text g), true)

-- `markFirstbootDone`
unfoldable pub mark_firstboot_done : Faults → Disk → Disk × Bool
mark_firstboot_done io_faults config = save_mark io_faults config (load_stageneth io_faults config)

abbrev service_names : File → List Text
service_names [] = []
service_names (s ∷ f) =
    if equal s.type (lit "service") then s.name ∷ service_names f else service_names f

-- `listServices`
unfoldable pub list_services : Faults → Disk → List Text
list_services io_faults config = elim (load_stageneth io_faults config) [
  | none ↦ []
  | some f ↦ sort_text (service_names f)
]

-- `setConsolePassword`: the tools are tried in turn until one works
unfoldable pub set_console_password : Run → Text → Option Text → Option Text
set_console_password run password console =
    if run.sha512_works || run.chpasswd_works || run.passwd_works then some password else console

-- `grantSession`, and the last reply
abbrev pub grant_session : Run → Text → Text → Appliance → Appliance × Answer
grant_session run user role a =
    let (d, answer) =
      login_created a.daemon
        (create (drawn run.random) user role run.now run.gc a.daemon.sessions) in
    (record a { daemon = d }, answer)

-- the part of a handler that needs the mark
abbrev pub if_marked :
    (Appliance → Appliance × Answer) → Appliance → Disk × Bool → Appliance × Answer
if_marked next a (config, false) = (record a { config = config }, plain 500)
if_marked next a (config, true) = next (record a { config = config })

-- the part that needs the account
abbrev pub if_account :
    Run
    → (Appliance → Appliance × Answer)
    → Appliance
    → Disk × Result (Unit {0})
    → Appliance × Answer
if_account run next a (users, err e) =
    (record a { daemon = record a.daemon { users = users } }, plain 400)
if_account run next a (users, ok done) =
    if_marked next (record a { daemon = record a.daemon { users = users } })
      (mark_firstboot_done run.mark_faults a.config)

abbrev pub provision :
    Hashing → Run → Text → (Appliance → Appliance × Answer) → Appliance → Appliance × Answer
provision hashing run password next a =
    if is_empty password
    then (a, plain 400)
    else if_account run next a
        (set_user hashing.hash run.set_faults (lit "admin") (lit "tech") password a.daemon.users)

abbrev pub with_console : Run → Text → Appliance → Appliance
with_console run password a = record a { console = set_console_password run password a.console }

abbrev pub if_applied : Run → Appliance → Disk × Applied → Appliance × Answer
if_applied run a (config, preset_applied) =
    grant_session run (lit "admin") (lit "tech") (record a { config = config })
if_applied run a (config, other) = (record a { config = config }, plain 500)

abbrev pub or_base : Text → Text
or_base preset = if is_empty preset then lit "base" else preset

abbrev pub closed : Run → Appliance → Bool
closed run a = firstboot_done run.check_faults a.config || has_users run.users_faults a.daemon.users

-- the part of `wizard` behind the mark
abbrev pub after_wizard : Run → Text → Text → List Text → Appliance → Appliance × Answer
after_wizard run password preset services a =
    if_applied run (with_console run password a)
      (apply_preset_to_uci run.preset_faults run.apply_runs (or_base preset) services a.config)

-- the part of `wizardSkip` behind the mark
abbrev pub after_skip : Run → Text → Appliance → Appliance × Answer
after_skip run password a =
    grant_session run (lit "admin") (lit "tech") (with_console run password a)

-- `wizard`, of a password, a preset and services
unfoldable pub wizard :
    Hashing → Run → Option (Text × Text × List Text) → Appliance → Appliance × Answer
unfolding set_console_password
wizard hashing run none a = if closed run a then (a, plain 403) else (a, plain 400)
wizard hashing run (some (password, preset, services)) a =
    if closed run a
    then (a, plain 403)
    else provision hashing run password (after_wizard run password preset services) a

-- `wizardSkip`, of a password
unfoldable pub wizard_skip : Hashing → Run → Option Text → Appliance → Appliance × Answer
unfolding set_console_password
wizard_skip hashing run none a = if closed run a then (a, plain 403) else (a, plain 400)
wizard_skip hashing run (some password) a =
    if closed run a
    then (a, plain 403)
    else provision hashing run password (after_skip run password) a
