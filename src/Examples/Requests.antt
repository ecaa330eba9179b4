-- ===== src/Examples/Requests.antt =====
-- The requests of internal/api at one configuration file.
use stageneth.Prelude.{
  ◌≤◌, true, false, List, [], ◌∷◌, none, some, Text, lit, equal, lookup, get_text, length,
  if◌then◌else◌, member, any, all, All, ◌≡◌, ◌≢◌, refl, arith, insert, leb, select, remove, ◌++◌,
}
use stageneth.Ucifile.{File}
use stageneth.Ucifile.Printer.{text}
use stageneth.Stcfg.{Options, parse_config}
use stageneth.Auth.Users.{Disk, Faults}
use stageneth.Api.{Host, name_re, service_fields, validate_fields, int_range}
use stageneth.Api.V1.{
  put_service, delete_service, handle_v1, load_stageneth, put_section, replace_section_options,
  decide, finish, upsert_decision, upsert_file, validate_service, vlan_conflict, vlan_holder,
}
use stageneth.Api.V1.Replies.{Stores, handle_v1-saved}
use stageneth.Api.V1.Effects.{IsPutService, put_service-checked, delete_service-checked}
use stageneth.Auth.Sessions.{Session}
use stageneth.Api.Guard.{State, guarded_v1, with_session, guarded_v1-changed}
use stageneth.Api.Raw.{
  valid_uci_name, raw_put_commands, batch, scalar, array, Value, option_commands, value_commands,
  list_commands, uci_opt_re, reshapes, raw_configs,
}
use stageneth.Api.Raw.Lines.{IsOneLine, raw_put_commands-lines}
use stageneth.Api.Limiter.{Fails, login_throttled, login_failed, recent, fails_of}
use stageneth.Api.Limiter.Laws.{length-login_failed}
use stageneth.Api.Limiter.Trace.{
  Call, failed_call, throttled_call, step, run_calls, failures, IsCalm, login_throttled-run_calls,
}

abbrev host : Host
host = record { ipv4 = λ s. true; quoted = λ s. s }

abbrev fine : Faults
fine = record { read = false; write = false }

abbrev vals : Options
vals = (lit "vlan_id", lit "20") ∷ []

put_ok : (handle_v1 host fine (put_service (lit "audio") (some vals)) none).1.status ≡ 200
unfolding handle_v1 decide finish load_stageneth upsert_decision upsert_file validate_service
    validate_fields service_fields int_range stageneth.Prelude.int_in stageneth.Prelude.atoi
    stageneth.Prelude.natural stageneth.Prelude.digits_value vlan_conflict vlan_holder name_re all
    lookup equal get_text parse_config stageneth.Stcfg.add_sections
put_ok = refl

put_service-checked_example :
    (f : File) × (load_stageneth fine none ≡ some f)
    × IsPutService host (lit "audio") vals f
    × ((handle_v1 host fine (put_service (lit "audio") (some vals)) none).0
        ≡ some (text (put_section (lit "service") (lit "audio") (replace_section_options vals) f)))
put_service-checked_example = put_service-checked host fine (lit "audio") vals none put_ok

abbrev mgmt_disk : Disk
mgmt_disk = some (lit "config service 'mgmt'")

handle_v1-saved_example :
    ((handle_v1 host fine (delete_service (lit "mgmt")) mgmt_disk).1.status ≢ 200
      → (handle_v1 host fine (delete_service (lit "mgmt")) mgmt_disk).0 ≡ mgmt_disk)
    × ((handle_v1 host fine (delete_service (lit "mgmt")) mgmt_disk).1.status ≡ 200
        → (f : File) × Stores f
            (decide host (delete_service (lit "mgmt")) (load_stageneth fine mgmt_disk))
          × ((handle_v1 host fine (delete_service (lit "mgmt")) mgmt_disk).0 ≡ some (text f)))
handle_v1-saved_example = handle_v1-saved host fine (delete_service (lit "mgmt")) mgmt_disk

abbrev audio_disk : Disk
audio_disk = some (lit "config service audio")

delete_ok : (handle_v1 host fine (delete_service (lit "audio")) audio_disk).1.status ≡ 200
unfolding handle_v1 equal parse_config stageneth.Ucifile.Reader.parse stageneth.Prelude.trim_space
    stageneth.Prelude.is_space stageneth.Prelude.has_prefix any
delete_ok = refl

delete_service-checked_example :
    (f : File) × (g : File) × (load_stageneth fine audio_disk ≡ some f)
    × ((handle_v1 host fine (delete_service (lit "audio")) audio_disk).0 ≡ some (text g))
    × (equal (lit "audio") (lit "mgmt") ≡ false)
    × ((bn : Text) (bv : Options)
        → lookup bn (parse_config f).bindings ≡ some bv
        → equal (get_text (lit "service") bv) (lit "audio") ≡ false)
    × ((n : Text)
        → lookup n (parse_config g).services
          ≡ (if equal (lit "audio") n then none else lookup n (parse_config f).services))
delete_service-checked_example = delete_service-checked host fine (lit "audio") audio_disk delete_ok

abbrev values : List (Text × Value)
values =
    (lit "hostname", scalar (lit "stage 1")) ∷ (lit "server", array (lit "a" ∷ lit "b" ∷ [])) ∷ []

abbrev directives : List Text
directives =
    lit "set system.ntp=timeserver"
    ∷ lit "set system.ntp.hostname='stage 1'"
    ∷ lit "delete system.ntp.server"
    ∷ lit "add_list system.ntp.server='a'"
    ∷ lit "add_list system.ntp.server='b'"
    ∷ []

put_directives :
    raw_put_commands (lit "system") (lit "ntp") (lit "timeserver") values ≡ batch directives
unfolding raw_put_commands option_commands value_commands list_commands uci_opt_re reshapes all any
put_directives = refl

system_listed : member (lit "system") raw_configs ≡ true
unfolding member equal
system_listed = refl

ntp_valid : valid_uci_name (lit "ntp") ≡ true
unfolding valid_uci_name all
ntp_valid = refl

raw_put_commands-lines_example : All IsOneLine directives
raw_put_commands-lines_example =
    raw_put_commands-lines (lit "system") (lit "ntp") (lit "timeserver") values directives
      system_listed ntp_valid put_directives

abbrev scanner : Text
scanner = lit "10.0.0.9"

-- a client that fails eight times, tested in between, and another one
abbrev attempts : List Call
attempts =
    failed_call 100 scanner
    ∷ failed_call 110 scanner
    ∷ throttled_call 115 scanner
    ∷ failed_call 120 scanner
    ∷ failed_call 130 (lit "10.0.0.7")
    ∷ failed_call 140 scanner
    ∷ failed_call 150 scanner
    ∷ failed_call 160 scanner
    ∷ throttled_call 165 (lit "10.0.0.7")
    ∷ failed_call 170 scanner
    ∷ []

abbrev seen : Fails
seen = (lit "10.0.0.7", 90 ∷ []) ∷ (scanner, 20 ∷ []) ∷ []

attempts-IsCalm : IsCalm 600 attempts seen
unfolding step login_failed login_throttled insert lookup equal select remove length
attempts-IsCalm = (
  omega arith,
  omega arith,
  (
    omega arith,
    omega arith,
    (
      omega arith,
      omega arith,
      (
        omega arith,
        omega arith,
        (
          omega arith,
          omega arith,
          (
            omega arith,
            omega arith,
            (
              omega arith,
              omega arith,
              (
                omega arith,
                omega arith,
                (omega arith, omega arith, (omega arith, omega arith, tt)),
              ),
            ),
          ),
        ),
      ),
    ),
  ),
)

throttled_example :
    (login_throttled 600 scanner (run_calls attempts seen)).1
    ≡ leb 8 (length (select (recent 600) (fails_of scanner seen ++ failures scanner attempts)))
throttled_example = login_throttled-run_calls 600 scanner attempts seen attempts-IsCalm

refused : (login_throttled 600 scanner (run_calls attempts seen)).1 ≡ true
unfolding failures fails_of lookup equal select
refused = throttled_example

capped_example : length (login_failed 600 (lit "10.0.0.9") seen) ≤ 1024
capped_example = length-login_failed 600 (lit "10.0.0.9") seen

abbrev session : Session
session = record { user = lit "admin"; role = lit "tech"; expires = 500 }

abbrev state : State
state = record { sessions = (lit "00", session) ∷ []; disk = none }

guarded-written :
    (guarded_v1 host fine (lit "00") 100 101 (put_service (lit "audio") (some vals)) state).0.disk
    ≢ state.disk
unfolding guarded_v1 with_session stageneth.Auth.Sessions.get lookup equal
guarded-written h =
    let put = put_service-checked host fine (lit "audio") vals none put_ok in cc (put.3, h)

guarded_example :
    (se : Session) × (lookup (lit "00") state.sessions ≡ some se)
    × (se.role ≡ lit "tech")
    × (100 ≤ se.expires)
guarded_example =
    guarded_v1-changed host fine (lit "00") 100 101 (put_service (lit "audio") (some vals)) state
      guarded-written
