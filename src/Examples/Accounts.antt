-- ===== src/Examples/Accounts.antt =====
-- The users and sessions of internal/auth at concrete accounts.
use stageneth.Prelude.{
  ℕ, ◌+◌, true, false, List, [], ◌∷◌, Option, none, some, Text, lit, equal, equal_iff, lookup,
  insert, ◌≡◌, ◌≢◌, refl, sym, subst, arith, any, all, IsMap, byte_len,
}
use stageneth.Ucifile.{File}
use stageneth.Ucifile.Printer.{text, clean_char}
use stageneth.Ucifile.Clean.{IsClean, IsCleanFile, parse-text_clean}
use stageneth.Auth.Users.{
  ok, err, user_not_found, Disk, Faults, set_user, remove_user, verify_user, commit, save, set_file,
  load, set_account, find, valid_name, valid_role, remove_file,
}
use stageneth.Auth.Users.LastTech.{IsManagedFile, IsManaged}
use stageneth.Auth.Users.Requests.{
  Request, set_request, remove_request, handle, handle_all, handle_all-IsManaged, HashesClean,
}
use stageneth.Auth.Users.Login.{IsCleanDisk, verify-set_user, verify-set_user_ne}
use stageneth.Auth.Sessions.{Session, Store, session_ttl, create, get, delete_for_user, hex}
use stageneth.Auth.Sessions.Laws.{get-create, get-get}
use stageneth.Auth.Sessions.Trace.{
  Call, create_call, get_call, run, call, Issued, run-Issued, run-revoked,
}

abbrev fine : Faults
fine = record { read = false; write = false }

abbrev admin : File
admin =
    record {
      type = lit "user";
      name = lit "admin";
      options =
          record { name = lit "role"; value = lit "tech"; list = false }
          ∷ record { name = lit "password"; value = lit "x"; list = false }
          ∷ [];
    }
    ∷ []

admin-IsCleanFile : IsCleanFile admin
unfolding clean_char
admin-IsCleanFile = (
  record {
    typed = refl;
    type_clean = refl;
    name_clean = refl;
    items_clean = (
      record { named = refl; name_clean = refl; value_clean = refl },
      (record { named = refl; name_clean = refl; value_clean = refl }, tt),
    );
  },
  tt,
)

admin-IsManagedFile : IsManagedFile admin
unfolding any equal stageneth.Ucifile.get stageneth.Prelude.first
admin-IsManagedFile = record { unique = (refl, tt); tech = refl; clean_file = admin-IsCleanFile }

abbrev disk : Disk
disk = some (text admin)

disk-IsManaged : IsManaged disk
disk-IsManaged =
    subst IsManagedFile (sym (parse-text_clean admin admin-IsCleanFile)) admin-IsManagedFile

disk-IsCleanDisk : IsCleanDisk disk
disk-IsCleanDisk =
    subst IsCleanFile (sym (parse-text_clean admin admin-IsCleanFile)) admin-IsCleanFile

-- a hash that is one line
abbrev hash : Text → Option Text
hash password = some (lit "h")

hash-HashesClean : HashesClean hash
unfolding clean_char
hash-HashesClean password h e = let same : lit "h" ≡ h = cc e in subst IsClean same refl

abbrev requests : List Request
requests =
    set_request fine (lit "admin") (lit "operator") (lit "password1")
    ∷ set_request fine (lit "stage") (lit "operator") (lit "password2")
    ∷ remove_request fine (lit "admin")
    ∷ []

managed_example : IsManaged (handle_all hash requests disk)
managed_example = handle_all-IsManaged hash hash-HashesClean requests disk disk-IsManaged

set_stage-ok : (set_user hash fine (lit "stage") (lit "operator") (lit "password2") none).1 ≡ ok tt
unfolding set_user commit save set_file load set_account find valid_name valid_role byte_len all
    stageneth.Prelude.first equal
set_stage-ok = refl

verify-set_user_example :
    verify_user
      (λ p h. true)
      fine
      (lit "stage")
      (lit "password2")
      (set_user hash fine (lit "stage") (lit "operator") (lit "password2") none).0
    ≡ ok (lit "operator")
verify-set_user_example =
    verify-set_user (λ p h. true) hash hash-HashesClean fine fine (lit "stage") (lit "operator")
      (lit "password2") none (λ h e. refl) tt set_stage-ok refl

stage≢admin : lit "stage" ≢ lit "admin"
unfolding equal
stage≢admin e =
    let same : equal (lit "stage") (lit "admin") ≡ true =
      (equal_iff (lit "stage") (lit "admin")).1 e in
    cc same

verify-set_user_ne_example :
    verify_user
      (λ p h. true)
      fine
      (lit "admin")
      (lit "password1")
      (set_user hash fine (lit "stage") (lit "operator") (lit "password2") none).0
    ≡ verify_user (λ p h. true) fine (lit "admin") (lit "password1") none
verify-set_user_ne_example =
    verify-set_user_ne (λ p h. true) hash hash-HashesClean fine fine (lit "stage") (lit "operator")
      (lit "password2") (lit "admin") (lit "password1") none tt set_stage-ok stage≢admin

removed-err : (handle hash (remove_request fine (lit "stage")) none).1 ≡ err user_not_found
unfolding handle remove_user commit remove_file load find stageneth.Prelude.first
removed-err = refl

abbrev store : Store
store =
    (lit "00", record { user = lit "admin"; role = lit "tech"; expires = 100 })
    ∷ (lit "01", record { user = lit "stage"; role = lit "operator"; expires = 900 })
    ∷ []

store-IsMap : IsMap store
unfolding lookup equal
store-IsMap = (refl, (refl, tt))

abbrev bytes : List ℕ
bytes = 10 ∷ 255 ∷ []

get-create_example :
    (get
      (hex bytes)
      500
      501
      (create (some bytes) (lit "admin") (lit "tech") 400 (λ k. 400) store).0).1
    ≡ some (record { user = lit "admin"; role = lit "tech"; expires = 501 + session_ttl })
get-create_example =
    get-create bytes (lit "admin") (lit "tech") 400 (λ k. 400) store 500 501 store-IsMap
      (omega arith) (omega arith)

store_stage :
    lookup (lit "01") store
    ≡ some (record { user = lit "stage"; role = lit "operator"; expires = 900 })
unfolding lookup equal
store_stage = refl

abbrev slid : Session
slid = record { user = lit "stage"; role = lit "operator"; expires = 800 + session_ttl }

got_stage : (get (lit "01") 800 800 store).1 ≡ some slid
unfolding get lookup equal
got_stage = refl

get-get_example :
    (get (lit "01") 2000 2000 (get (lit "01") 800 800 store).0).1
    ≡ some (record { user = lit "stage"; role = lit "operator"; expires = 2000 + session_ttl })
get-get_example = get-get (lit "01") 800 800 2000 2000 store slid got_stage (omega arith)

abbrev calls : List Call
calls =
    get_call (hex bytes) 500 500
    ∷ create_call (some bytes) (lit "admin") (lit "tech") 400 (λ k. 400)
    ∷ []

abbrev issued : Session
issued = record { user = lit "admin"; role = lit "tech"; expires = 500 + session_ttl }

run-issued : lookup (hex bytes) (run [] calls) ≡ some issued
unfolding run call get create hex lookup insert stageneth.Prelude.select_entries equal
run-issued = refl

run-Issued_example : Issued (hex bytes) (lit "admin") (lit "tech") calls
run-Issued_example = run-Issued calls (hex bytes) issued run-issued

abbrev later_calls : List Call
later_calls = get_call (lit "00") 90 90 ∷ []

abbrev kept_session : Session
kept_session = record { user = lit "admin"; role = lit "tech"; expires = 90 + session_ttl }

run_kept :
    lookup (lit "00") (run (delete_for_user (lit "admin") (lit "00") store) later_calls)
    ≡ some kept_session
unfolding run call get delete_for_user lookup insert stageneth.Prelude.select_entries equal
run_kept = refl

run-revoked_example : lit "00" ≡ lit "00"
run-revoked_example =
    run-revoked later_calls store (lit "admin") (lit "00") (lit "00") kept_session store-IsMap
      ((λ no. no), tt) run_kept refl
