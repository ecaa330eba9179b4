-- ===== src/Examples/Handlers.antt =====
-- The handlers of internal/api/auth.go, presets.go, network.go and ntp.go at concrete requests.
use stageneth.Prelude.{
  Bool, true, false, List, [], ◌∷◌, none, some, lit, equal, ◌≡◌, ◌≢◌, refl, ◌⊎◌, byte_len,
  trim_space, is_space, all, subst,
}
use stageneth.Ucifile.{File}
use stageneth.Ucifile.Printer.{text, clean_char}
use stageneth.Ucifile.Clean.{IsClean}
use stageneth.Auth.Users.{
  Disk, Faults, ok, set_user, verify_user, commit, save, set_file, load, set_account, find,
  valid_name, valid_role, has_users,
}
use stageneth.Auth.Users.Requests.{HashesClean}
use stageneth.Api.V1.{load_stageneth}
use stageneth.Api.Limiter.{login_throttled}
use stageneth.Api.Account.{Daemon, Hashing, Readings, post_method, plain, session_login}
use stageneth.Api.Account.Sound.{IsSound}
use stageneth.Api.Account.Roles.{Act, login_act, set_act, change_act, delete_act}
use stageneth.Api.Account.Login.{Refused, Granted, session_login_cases}
use stageneth.Api.Raw.{batch}
use stageneth.Api.Ntp.{NtpRequest, ntp_commands, server_commands, ntp_host_re, ntp_tz_re}
use stageneth.Api.Ntp.Quotes.{AreDirectives, ntp_commands-AreDirectives}
use stageneth.Api.Presets.{apply_preset_to_uci}
use stageneth.Api.Presets.Laws.{IsPresetOf, apply_preset_to_uci-IsPresetOf}
use stageneth.Api.Firstboot.Served.{
  Served, account_served, boot_served, serve_all, serve_all-IsSound,
}
use stageneth.Api.Firstboot.{Appliance, Run, wizard_skip}
use stageneth.Api.Firstboot.Laws.{
  Boot, wizard_boot, skip_boot, boot, Opened, boot-boot, verify-boot,
}

abbrev fine : Faults
fine = record { read = false; write = false }

abbrev hashing : Hashing
hashing = record { hash = λ password. some (lit "h"); verify = λ password h. true }

hashing-HashesClean : HashesClean hashing.hash
unfolding clean_char
hashing-HashesClean password h e = let same : lit "h" ≡ h = cc e in subst IsClean same refl

abbrev readings : Readings
readings = record {
  now = 1000;
  later = 1000;
  gc = λ id. 1000;
  random = some (7, []);
  verify_faults = fine;
  write_faults = fine;
}

abbrev fresh_daemon : Daemon
fresh_daemon = record { users = none; sessions = []; fails = [] }

fresh_daemon-IsSound : IsSound fresh_daemon
unfolding stageneth.Prelude.lookup
fresh_daemon-IsSound = ((tt, refl), tt, λ id se e. cc e)

abbrev served_acts : List Act → List Served
served_acts [] = []
served_acts (req ∷ rest) = account_served req ∷ served_acts rest

abbrev acts : List Act
acts =
    set_act readings (some (lit "stage", lit "operator", lit "password2"))
    ∷ login_act readings post_method (lit "10.0.0.9") (some (lit "stage", lit "password2"))
    ∷ change_act readings (lit "07") (some (lit "password2", lit "password3", lit "password3"))
    ∷ delete_act readings (lit "07") (some (lit "stage"))
    ∷ []

session_login_cases_example :
    Refused hashing readings fresh_daemon (
      session_login hashing readings post_method
        (lit "10.0.0.9")
        (some (lit "stage", lit "password2"))
        fresh_daemon)
    ⊎ ((post_method ≡ post_method)
        × ((login_throttled 1000 (lit "10.0.0.9") []).1 ≡ false)
        × Granted hashing readings (some (lit "stage", lit "password2")) fresh_daemon (
            session_login hashing readings post_method
              (lit "10.0.0.9")
              (some (lit "stage", lit "password2"))
              fresh_daemon))
session_login_cases_example =
    session_login_cases hashing readings post_method (lit "10.0.0.9")
      (some (lit "stage", lit "password2")) fresh_daemon

abbrev is_written : Disk → Bool
is_written none = false
is_written (some t) = true

base_test : is_written (apply_preset_to_uci fine true (lit "base") [] none).0 ≡ true
unfolding apply_preset_to_uci stageneth.Api.Presets.find_preset stageneth.Prelude.first equal
    stageneth.Api.Presets.known_services all load_stageneth
base_test = refl

base_applied : (apply_preset_to_uci fine true (lit "base") [] none).0 ≢ none
base_applied e =
    let t : is_written none ≡ true = subst (λ d. is_written d ≡ true) e base_test in cc t

apply_preset_to_uci-IsPresetOf_example :
    (f : File) × (g : File) × (load_stageneth fine none ≡ some f)
    × ((apply_preset_to_uci fine true (lit "base") [] none).0 ≡ some (text g))
    × IsPresetOf f g
apply_preset_to_uci-IsPresetOf_example =
    apply_preset_to_uci-IsPresetOf fine true (lit "base") [] none base_applied

abbrev first_run : Run
first_run = record {
  check_faults = fine;
  users_faults = fine;
  set_faults = fine;
  mark_faults = fine;
  sha512_works = true;
  chpasswd_works = true;
  passwd_works = true;
  preset_faults = fine;
  apply_runs = true;
  random = some (7, []);
  now = 1000;
  gc = λ id. 1000;
}

abbrev appliance : Appliance
appliance = record { daemon = fresh_daemon; config = none; console = none }

abbrev skipped : Boot
skipped = skip_boot (some (lit "password1"))

account_written_test : is_written (boot hashing first_run skipped appliance).0.daemon.users ≡ true
unfolding wizard_skip stageneth.Api.Firstboot.firstboot_done
    stageneth.Api.Firstboot.mark_firstboot_done stageneth.Api.Firstboot.set_console_password
    stageneth.Api.V1.find_section stageneth.Prelude.first stageneth.Auth.Sessions.create
    stageneth.Auth.Sessions.hex load_stageneth has_users stageneth.Prelude.any
    stageneth.Prelude.insert stageneth.Prelude.select_entries set_user commit save set_file load
    set_account find valid_name valid_role byte_len all equal
account_written_test = refl

account_written : (boot hashing first_run skipped appliance).0.daemon.users ≢ none
account_written e =
    let t : is_written none ≡ true = subst (λ d. is_written d ≡ true) e account_written_test in cc t

-- the first boot, then the requests
abbrev requests : List Served
requests = boot_served first_run skipped ∷ served_acts acts

serve_all-IsSound_example : IsSound (serve_all hashing requests appliance).daemon
serve_all-IsSound_example =
    serve_all-IsSound hashing hashing-HashesClean requests appliance
      (refl, (tt, (tt, (tt, (tt, tt))))) fresh_daemon-IsSound

boot-boot_example :
    boot hashing first_run (wizard_boot none) (boot hashing first_run skipped appliance).0
    ≡ ((boot hashing first_run skipped appliance).0, plain 403)
boot-boot_example =
    boot-boot hashing hashing-HashesClean first_run first_run skipped (wizard_boot none) appliance
      tt account_written refl

skipped-200 : (boot hashing first_run skipped appliance).1.status ≡ 200
unfolding wizard_skip stageneth.Api.Firstboot.firstboot_done
    stageneth.Api.Firstboot.mark_firstboot_done stageneth.Api.Firstboot.set_console_password
    stageneth.Api.V1.find_section stageneth.Prelude.first stageneth.Auth.Sessions.create
    stageneth.Auth.Sessions.hex load_stageneth has_users stageneth.Prelude.any
    stageneth.Prelude.insert stageneth.Prelude.select_entries set_user commit save set_file load
    set_account find valid_name valid_role byte_len all equal
skipped-200 = refl

verify-boot_example :
    (verify_user hashing.verify fine
        (lit "admin")
        (lit "password1")
        (boot hashing first_run skipped appliance).0.daemon.users
      ≡ ok (lit "tech"))
    × Opened hashing first_run appliance (boot hashing first_run skipped appliance)
verify-boot_example =
    verify-boot hashing hashing-HashesClean first_run fine skipped appliance (λ h e. refl) tt
      skipped-200 refl

abbrev ntp_request : NtpRequest
ntp_request = record {
  enabled = true;
  enable_server = false;
  servers = lit " pool.ntp.org" ∷ [] ∷ lit "fd00::1" ∷ [];
  timezone = lit "CET-1CEST,M3.5.0";
}

ntp_directives :
    ntp_commands ntp_request
    ≡ batch (
        lit "set system.ntp=timeserver"
        ∷ lit "set system.ntp.enabled='1'"
        ∷ lit "set system.ntp.enable_server='0'"
        ∷ lit "delete system.ntp.server"
        ∷ lit "set system.@system[0].timezone='CET-1CEST,M3.5.0'"
        ∷ lit "add_list system.ntp.server='pool.ntp.org'"
        ∷ lit "add_list system.ntp.server='fd00::1'"
        ∷ [])
unfolding ntp_commands server_commands ntp_host_re ntp_tz_re all trim_space byte_len is_space
ntp_directives = refl

ntp_commands-AreDirectives_example : AreDirectives (ntp_commands ntp_request)
ntp_commands-AreDirectives_example = ntp_commands-AreDirectives ntp_request
