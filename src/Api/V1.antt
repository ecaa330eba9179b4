-- ===== src/Api/V1.antt =====
-- The handlers of internal/api/v1.go that change the configuration file. A request is its decoded
-- parts: the name in its path, and its JSON body as a map, `none` where decoding fails. The mutex of the
-- file makes each handler one step on it; the audit log is not modelled.
pub mod Replies
pub mod Effects
use stageneth.Prelude.{
  ℕ, Bool, true, false, not, ◌&&◌, ◌||◌, [], ◌∷◌, ◌++◌, Option, none, some, Text, lit, equal,
  is_empty, if◌then◌else◌, Dict, member, keys, any, first, select, sort_text, get_text, map,
  contains_text,
}
use stageneth.Ucifile.{Item, Section, File, set}
use stageneth.Ucifile.Reader.{parse}
use stageneth.Ucifile.Printer.{text}
use stageneth.Stcfg.{Config, Options, parse_config}
use stageneth.Auth.Users.{Disk, Faults}
use stageneth.Api.{
  Host, name_re, iface_re, host_re, dir_re, valid_bool, int_range, service_fields, globals_fields,
  or_error, validate_fields,
}

-- What `respond` sends: the status and the message.
pub record Reply : Type 0 where
  pub status : ℕ
  pub message : Text

-- What a handler decides before it saves: an error reply, or the new file with the message of success.
pub data Decision : Type 0 where
  refuse : ℕ → Text → Decision
  store : File → Text → Decision

-- `loadStageneth`: the file; `none` is the error
unfoldable pub load_stageneth : Faults → Disk → Option File
load_stageneth io_faults none = if io_faults.read then none else some []
load_stageneth io_faults (some t) = if io_faults.read then none else some (parse t)

-- the part of a handler behind `loadStageneth`
abbrev pub loaded : (File → Decision) → Option File → Decision
loaded next none = refuse 500 (lit "config load failed")
loaded next (some f) = next f

-- `saveStageneth`, which leaves the old file where it fails, and the reply
abbrev pub save_stageneth : Bool → Disk → File → Text → Disk × Reply
save_stageneth true disk f message =
    (disk, record { status = 500; message = lit "config save failed" })
save_stageneth false disk f message = (some (text f), record { status = 200; message = message })

-- the end of a handler
unfoldable pub finish : Faults → Disk → Decision → Disk × Reply
finish io_faults disk (refuse status message) =
    (disk, record { status = status; message = message })
finish io_faults disk (store f message) = save_stageneth io_faults.write disk f message

abbrev pub is_section : Text → Text → Section → Bool
is_section typ name s = equal s.type typ && equal s.name name

-- `findSection`: the pointer that it returns is to the first such section
unfoldable pub find_section : Text → Text → File → Option Section
find_section typ name f = first (is_section typ name) f

-- a write through that pointer
unfoldable pub update_section : Text → Text → (Section → Section) → File → File
update_section typ name g [] = []
update_section typ name g (s ∷ f) =
    if is_section typ name s then g s ∷ f else s ∷ update_section typ name g f

abbrev pub new_section : Text → Text → Section
new_section typ name = record { type = typ; name = name; options = [] }

-- `findSection`, the append of a section where it returns nil, and the write
unfoldable pub put_section : Text → Text → (Section → Section) → File → File
unfolding find_section update_section
put_section typ name g f = elim (find_section typ name f) [
  | none ↦ f ++ g (new_section typ name) ∷ []
  | some s ↦ update_section typ name g f
]

abbrev plain_item : Dict Text → Text → Item
plain_item vals k = record { name = k; value = get_text k vals; list = false }

-- `replaceSectionOptions`
unfoldable pub replace_section_options : Dict Text → Section → Section
replace_section_options vals s = record s {
  options = map (plain_item vals) (sort_text (keys vals));
}

-- `for k, v := range vals { s.Set(k, v) }`
unfoldable pub set_all : Dict Text → Section → Section
set_all [] s = s
set_all ((k, v) ∷ vals) s = set_all vals (set k v s)

abbrev pub refuse_error : Option Text → Decision → Decision
refuse_error none d = d
refuse_error (some m) d = refuse 400 m

-- `v1SetGlobals` behind the load
unfoldable pub globals_file : Dict Text → File → File
unfolding set_all find_section
globals_file vals f = elim (find_section (lit "stageneth") (lit "globals") f) [
  | none ↦ set_all vals (new_section (lit "stageneth") (lit "globals")) ∷ f
  | some s ↦ update_section (lit "stageneth") (lit "globals") (set_all vals) f
]

-- `v1SetGlobals`, up to the save
unfoldable pub globals_decision : Host → Option (Dict Text) → Option File → Decision
unfolding globals_fields validate_fields globals_file
globals_decision host none file = refuse 400 (lit "invalid body")
globals_decision host (some []) file = refuse 400 (lit "invalid body")
globals_decision host (some (e ∷ vals)) file =
    refuse_error (validate_fields host globals_fields (e ∷ vals))
      (loaded (λ f. store (globals_file (e ∷ vals) f) (lit "globals saved")) file)

-- `v1ValidateService`
unfoldable pub validate_service : Host → Dict Text → Config → Option Text
unfolding service_fields validate_fields
validate_service host [] st = some (lit "invalid body")
validate_service host (e ∷ vals) st = validate_fields host (service_fields host) (e ∷ vals)

-- the loop of `v1ValidateBinding`
unfoldable pub binding_errors : Host → Config → Dict Text → Option Text
unfolding iface_re
binding_errors host st [] = none
binding_errors host st ((k, v) ∷ vals) =
    or_error
      (if equal k (lit "interface")
        then (if not (is_empty v) && not (iface_re v)
            then some (lit "invalid interface " ++ host.quoted v)
            else none)
        else if equal k (lit "service")
        then (if member v (keys st.services)
            then none
            else some (lit "unknown service " ++ host.quoted v))
        else some (lit "unknown option " ++ host.quoted k))
      (binding_errors host st vals)

-- `v1ValidateBinding`
unfoldable pub validate_binding : Host → Dict Text → Config → Option Text
unfolding binding_errors
validate_binding host [] st = some (lit "invalid body")
validate_binding host (e ∷ vals) st = binding_errors host st (e ∷ vals)

-- the loop of `v1ValidateForwarding`
unfoldable pub forwarding_errors : Host → Config → Dict Text → Option Text
unfolding valid_bool
forwarding_errors host st [] = none
forwarding_errors host st ((k, v) ∷ vals) =
    or_error
      (if equal k (lit "src") || equal k (lit "dest")
        then (if member v (keys st.services)
            then none
            else some (lit "unknown service " ++ (host.quoted v ++ (lit " for " ++ k))))
        else if equal k (lit "enabled")
        then (if not (valid_bool v) then some (lit "invalid enabled " ++ host.quoted v) else none)
        else some (lit "unknown option " ++ host.quoted k))
      (forwarding_errors host st vals)

-- `v1ValidateForwarding`
unfoldable pub validate_forwarding : Host → Dict Text → Config → Option Text
unfolding forwarding_errors
validate_forwarding host [] st = some (lit "invalid body")
validate_forwarding host (e ∷ vals) st = forwarding_errors host st (e ∷ vals)

-- the service, other than `name`, that has this vlan already
unfoldable pub vlan_holder : Text → Text → Dict Options → Option Text
vlan_holder name vid [] = none
vlan_holder name vid ((other, sv) ∷ services) =
    let rest = vlan_holder name vid services in
    if not (equal other name) && equal (get_text (lit "vlan_id") sv) vid then some other else rest

-- the check of the vlan in `v1UpsertSection`
unfoldable pub vlan_conflict : Text → Text → Dict Text → Config → Option Text
unfolding vlan_holder
vlan_conflict typ name vals st =
    let vid = get_text (lit "vlan_id") vals in
    if equal typ (lit "service") && not (is_empty vid)
    then vlan_holder name vid st.services
    else none

abbrev pub refuse_conflict : Text → Option Text → Decision → Decision
refuse_conflict vid none d = d
refuse_conflict vid (some other) d =
    refuse 409 (lit "vlan_id " ++ (vid ++ (lit " already used by service " ++ other)))

-- `v1UpsertSection` behind the name and the body
unfoldable pub upsert_file :
    Text → (Dict Text → Config → Option Text) → Text → Dict Text → File → Decision
unfolding vlan_conflict put_section replace_section_options
upsert_file typ extra_validate name vals f = refuse_error (extra_validate vals (parse_config f)) (
    refuse_conflict (get_text (lit "vlan_id") vals) (vlan_conflict typ name vals (parse_config f))
      (store (put_section typ name (replace_section_options vals) f) (typ ++ lit " saved")))

-- `v1UpsertSection`, up to the save
unfoldable pub upsert_decision :
    Text → (Dict Text → Config → Option Text) → Text → Option (Dict Text) → Option File → Decision
unfolding upsert_file name_re
upsert_decision typ extra_validate name body file =
    if not (name_re name) then refuse 400 (lit "invalid name") else elim body [
      | none ↦ refuse 400 (lit "invalid body")
      | some vals ↦ loaded (upsert_file typ extra_validate name vals) file
    ]

-- the binding that refers to the service
unfoldable pub bound_by : Text → Dict Options → Option Text
bound_by name [] = none
bound_by name ((bn, bv) ∷ bindings) =
    let rest = bound_by name bindings in
    if equal (get_text (lit "service") bv) name then some bn else rest

unfoldable pub binding_conflict : Text → Text → Config → Option Text
unfolding bound_by
binding_conflict typ name st = if equal typ (lit "service") then bound_by name st.bindings else none

abbrev pub refuse_bound : Text → Option Text → Decision → Decision
refuse_bound name none d = d
refuse_bound name (some bn) d =
    refuse 409 (lit "service " ++ (name ++ (lit " still bound by " ++ bn)))

-- `v1DeleteSection` behind the load
unfoldable pub delete_file : Text → Text → File → Decision
unfolding binding_conflict
delete_file typ name f = refuse_bound name (binding_conflict typ name (parse_config f)) (
    if any (is_section typ name) f
    then store (select (λ s. not (is_section typ name s)) f) (typ ++ lit " deleted")
    else refuse 404 (lit "section not found"))

-- `v1DeleteSection`, up to the save
unfoldable pub delete_decision : Text → Text → Option File → Decision
unfolding delete_file
delete_decision typ name file =
    if equal typ (lit "service") && equal name (lit "mgmt")
    then refuse 400 (lit "the mgmt service cannot be deleted")
    else loaded (delete_file typ name) file

-- the validator that `v1SetLogging` has for an option, `none` for an unknown one
unfoldable pub logging_field : Text → Text → Option (Text → Bool)
unfolding valid_bool host_re int_range dir_re
logging_field name k =
    if equal k (lit "enabled")
    then some valid_bool
    else if equal k (lit "host")
    then some (λ v. is_empty v || host_re v)
    else if equal k (lit "port")
    then some (λ v. int_range v 1 65535 true)
    else if equal k (lit "protocol")
    then some (λ v.
      equal v (lit "udp")
      || equal v (lit "tcp")
      || (equal name (lit "collector") && equal v (lit "both")))
    else if equal k (lit "dir")
    then some (λ v. equal name (lit "collector") && dir_re v && not (contains_text v (lit "..")))
    else none

-- the loop of `v1SetLogging`; `strconv.Quote` quotes as `%q` does
unfoldable pub logging_errors : Host → Text → Dict Text → Option Text
unfolding logging_field
logging_errors host name [] = none
logging_errors host name ((k, v) ∷ vals) =
    or_error
      (elim (logging_field name k) [
        | none ↦ some (lit "unknown option " ++ host.quoted k)
        | some ok ↦ if not (ok v) then some (lit "invalid value for " ++ host.quoted k) else none
      ])
      (logging_errors host name vals)

-- `v1SetLogging`, up to the save
unfoldable pub logging_decision : Host → Text → Option (Dict Text) → Option File → Decision
unfolding logging_errors put_section replace_section_options
logging_decision host name body file =
    if not (equal name (lit "remote")) && not (equal name (lit "collector"))
    then refuse 400 (lit "unknown logging section")
    else elim body [
      | none ↦ refuse 400 (lit "invalid body")
      | some vals ↦ refuse_error (logging_errors host name vals) (
          loaded
            (λ f.
              store (put_section (lit "logging") name (replace_section_options vals) f)
                (lit "logging saved"))
            file)
    ]

-- The requests that reach these handlers, as `Register` of main.go routes them.
pub data Request : Type 0 where
  set_globals : Option (Dict Text) → Request
  put_service put_binding put_forwarding put_logging : Text → Option (Dict Text) → Request
  delete_service delete_binding delete_forwarding : Text → Request

unfoldable pub decide : Host → Request → Option File → Decision
unfolding globals_decision upsert_decision delete_decision logging_decision validate_service
    validate_binding validate_forwarding
decide host (set_globals body) file = globals_decision host body file
decide host (put_service name body) file =
    upsert_decision (lit "service") (validate_service host) name body file
decide host (put_binding name body) file =
    upsert_decision (lit "binding") (validate_binding host) name body file
decide host (put_forwarding name body) file =
    upsert_decision (lit "forwarding") (validate_forwarding host) name body file
decide host (put_logging name body) file = logging_decision host name body file
decide host (delete_service name) file = delete_decision (lit "service") name file
decide host (delete_binding name) file = delete_decision (lit "binding") name file
decide host (delete_forwarding name) file = delete_decision (lit "forwarding") name file

-- one request on the file
unfoldable pub handle_v1 : Host → Faults → Request → Disk → Disk × Reply
unfolding decide load_stageneth finish
handle_v1 host io_faults req disk =
    finish io_faults disk (decide host req (load_stageneth io_faults disk))
