-- ===== src/Api/V1/Replies.antt =====
-- What the replies of the handlers of internal/api/v1.go promise about the configuration file.
use stageneth.Prelude.{
  ℕ, Bool, true, false, not, ◌&&◌, [], ◌∷◌, Option, none, some, Text, lit, equal, if◌then◌else◌,
  Dict, any, ◌≡◌, ◌≢◌, refl, arith,
}
use stageneth.Ucifile.{File}
use stageneth.Ucifile.Printer.{text}
use stageneth.Stcfg.{Config, parse_config}
use stageneth.Auth.Users.{Disk, Faults}
use stageneth.Api.{Host, name_re, globals_fields, validate_fields}
use stageneth.Api.V1.{
  Decision, refuse, store, load_stageneth, loaded, save_stageneth, finish, is_section, refuse_error,
  validate_service, vlan_conflict, refuse_conflict, upsert_file, upsert_decision, binding_conflict,
  refuse_bound, delete_file, delete_decision, Request, set_globals, put_service, put_binding,
  put_forwarding, put_logging, delete_service, delete_binding, delete_forwarding, globals_decision,
  logging_decision, logging_errors, validate_binding, validate_forwarding, decide, handle_v1,
}

-- Which statuses an early return sends.
abbrev pub IsRefusing : Decision → Type 0
IsRefusing (refuse status message) = status ≢ 200
IsRefusing (store f message) = Unit

-- A decision that stores this file.
abbrev pub Stores : File → Decision → Type 0
Stores f d = (message : Text) × (d ≡ store f message)

stored_written :
    (b : Bool) (disk : Disk) (f : File) (message : Text)
    → (save_stageneth b disk f message).1.status ≡ 200
    → (save_stageneth b disk f message).0 ≡ some (text f)
stored_written true disk f message h =
    let bad : ◌≢◌ {A = ℕ} 500 200 = (λ p. omega (arith, p)) in elim (bad h) [ ]
stored_written false disk f message h = refl

finish-saved :
    (io_faults : Faults) (disk : Disk) (d : Decision)
    → IsRefusing d
    → (finish io_faults disk d).1.status ≡ 200
    → (f : File) × Stores f d × ((finish io_faults disk d).0 ≡ some (text f))
finish-saved io_faults disk (refuse status message) r h = elim (r (unfold finish in h)) [ ]
finish-saved io_faults disk (store f message) r h = (
  f,
  (message, refl),
  unfold finish in stored_written io_faults.write disk f message (unfold finish in h),
)

stored_refused :
    (b : Bool) (disk : Disk) (f : File) (message : Text)
    → (save_stageneth b disk f message).1.status ≢ 200
    → (save_stageneth b disk f message).0 ≡ disk
stored_refused true disk f message h = refl
stored_refused false disk f message h = elim (h refl) [ ]

finish-refused :
    (io_faults : Faults) (disk : Disk) (d : Decision)
    → (finish io_faults disk d).1.status ≢ 200
    → (finish io_faults disk d).0 ≡ disk
finish-refused io_faults disk (refuse status message) h = unfold finish in refl
finish-refused io_faults disk (store f message) h =
    unfold finish in stored_refused io_faults.write disk f message (unfold finish in h)

refuse_error-IsRefusing :
    (e : Option Text) (d : Decision) → IsRefusing d → IsRefusing (refuse_error e d)
refuse_error-IsRefusing none d r = r
refuse_error-IsRefusing (some m) d r = (λ (p : 400 ≡ 200). omega (arith, p))

loaded-IsRefusing :
    (next : File → Decision) (o : Option File)
    → ((f : File) → IsRefusing (next f))
    → IsRefusing (loaded next o)
loaded-IsRefusing next none r = (λ (p : 500 ≡ 200). omega (arith, p))
loaded-IsRefusing next (some f) r = r f

choose-IsRefusing :
    (b : Bool) (x y : Decision) → IsRefusing x → IsRefusing y → IsRefusing (if b then x else y)
choose-IsRefusing true x y p q = p
choose-IsRefusing false x y p q = q

refuse_conflict-IsRefusing :
    (vid : Text) (o : Option Text) (d : Decision)
    → IsRefusing d
    → IsRefusing (refuse_conflict vid o d)
refuse_conflict-IsRefusing vid none d r = r
refuse_conflict-IsRefusing vid (some m) d r = (λ (p : 409 ≡ 200). omega (arith, p))

refuse_bound-IsRefusing :
    (name : Text) (o : Option Text) (d : Decision)
    → IsRefusing d
    → IsRefusing (refuse_bound name o d)
refuse_bound-IsRefusing name none d r = r
refuse_bound-IsRefusing name (some m) d r = (λ (p : 409 ≡ 200). omega (arith, p))

bad_request : ◌≢◌ {A = ℕ} 400 200
bad_request p = omega (arith, p)

globals-IsRefusing :
    (host : Host) (body : Option (Dict Text)) (file : Option File)
    → IsRefusing (globals_decision host body file)
unfolding globals_decision
globals-IsRefusing host none file = bad_request
globals-IsRefusing host (some []) file = bad_request
globals-IsRefusing host (some (e ∷ vals)) file =
    refuse_error-IsRefusing (validate_fields host globals_fields (e ∷ vals)) _
      (loaded-IsRefusing _ file (λ f. tt))

upsert-IsRefusing :
    (typ : Text) (extra : Dict Text → Config → Option Text) (name : Text)
    (body : Option (Dict Text)) (file : Option File)
    → IsRefusing (upsert_decision typ extra name body file)
unfolding upsert_decision upsert_file
upsert-IsRefusing typ extra name none file =
    choose-IsRefusing (not (name_re name)) _ _ bad_request bad_request
upsert-IsRefusing typ extra name (some vals) file =
    choose-IsRefusing (not (name_re name)) _ _ bad_request (
      loaded-IsRefusing _ file (λ f.
        refuse_error-IsRefusing (extra vals (parse_config f)) _
          (refuse_conflict-IsRefusing _ (vlan_conflict typ name vals (parse_config f)) _ tt)))

delete-IsRefusing :
    (typ name : Text) (file : Option File) → IsRefusing (delete_decision typ name file)
unfolding delete_decision delete_file
delete-IsRefusing typ name file =
    choose-IsRefusing (equal typ (lit "service") && equal name (lit "mgmt")) _ _ bad_request (
      loaded-IsRefusing _ file (λ f.
        refuse_bound-IsRefusing name (binding_conflict typ name (parse_config f)) _ (
          choose-IsRefusing (any (is_section typ name) f) _ _ tt
            (λ (p : 404 ≡ 200). omega (arith, p)))))

logging-IsRefusing :
    (host : Host) (name : Text) (body : Option (Dict Text)) (file : Option File)
    → IsRefusing (logging_decision host name body file)
unfolding logging_decision
logging-IsRefusing host name none file =
    choose-IsRefusing (not (equal name (lit "remote")) && not (equal name (lit "collector"))) _ _
      bad_request bad_request
logging-IsRefusing host name (some vals) file =
    choose-IsRefusing (not (equal name (lit "remote")) && not (equal name (lit "collector"))) _ _
      bad_request
      (refuse_error-IsRefusing (logging_errors host name vals) _
        (loaded-IsRefusing _ file (λ f. tt)))

decide-IsRefusing :
    (host : Host) (req : Request) (file : Option File) → IsRefusing (decide host req file)
unfolding decide
decide-IsRefusing host (set_globals body) file = globals-IsRefusing host body file
decide-IsRefusing host (put_service name body) file =
    upsert-IsRefusing (lit "service") (validate_service host) name body file
decide-IsRefusing host (put_binding name body) file =
    upsert-IsRefusing (lit "binding") (validate_binding host) name body file
decide-IsRefusing host (put_forwarding name body) file =
    upsert-IsRefusing (lit "forwarding") (validate_forwarding host) name body file
decide-IsRefusing host (put_logging name body) file = logging-IsRefusing host name body file
decide-IsRefusing host (delete_service name) file = delete-IsRefusing (lit "service") name file
decide-IsRefusing host (delete_binding name) file = delete-IsRefusing (lit "binding") name file
decide-IsRefusing host (delete_forwarding name) file =
    delete-IsRefusing (lit "forwarding") name file

-- The reply of a request tells what became of the file: with any status but 200 the file is as it was,
-- and with 200 the request was accepted for a file that could be read, and the new file is on disk.
pub handle_v1-saved :
    (host : Host) (io_faults : Faults) (req : Request) (disk : Disk)
    → let out = handle_v1 host io_faults req disk in
      (out.1.status ≢ 200 → out.0 ≡ disk)
      × (out.1.status ≡ 200
          → (f : File) × Stores f (decide host req (load_stageneth io_faults disk))
            × (out.0 ≡ some (text f)))
handle_v1-saved host io_faults req disk =
    let d = decide host req (load_stageneth io_faults disk) in
    (
      unfold handle_v1 in finish-refused io_faults disk d,
      unfold handle_v1 in
          finish-saved io_faults disk d
            (decide-IsRefusing host req (load_stageneth io_faults disk)),
    )
