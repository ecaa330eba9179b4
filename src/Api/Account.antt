-- ===== src/Api/Account.antt =====
-- internal/api/auth.go: the handlers of sessions, passwords and accounts. A handler is one step on what
-- the daemon keeps. A request is what the handler reads of it: its method, the address of the client,
-- the cookie and the decoded body, `none` where decoding fails. The audit log and the text of a reply
-- are not modelled.
pub mod Sound
pub mod Roles
pub mod Login
use stageneth.Prelude.{
  ℕ, Bool, true, false, not, ◌||◌, List, [], ◌∷◌, Option, none, some, Text, equal, is_empty,
  if◌then◌else◌,
}
use stageneth.Auth.Users.{
  Disk, Faults, Result, ok, err, verify_user, set_user, set_password, remove_user,
}
use stageneth.Auth.Sessions.{Session, Store, create, get, delete, delete_for_user}
use stageneth.Api.Limiter.{Fails, login_throttled, login_failed}

-- What the daemon keeps: the file of the accounts, its sessions and the failed logins.
pub record Daemon : Type 0 where
  pub users : Disk
  pub sessions : Store
  pub fails : Fails

-- `HashPassword` and `VerifyPassword`
pub record Hashing : Type 0 where
  pub hash : Text → Option Text
  pub verify : Text → Text → Bool

pub data Method : Type 0 where
  get_method post_method delete_method other_method : Method

-- What a reply does to the cookie of the client.
pub data Cookie : Type 0 where
  same_cookie clear_cookie : Cookie
  set_cookie : Text → Cookie

pub record Answer : Type 0 where
  pub status : ℕ
  pub cookie : Cookie

abbrev pub plain : ℕ → Answer
plain status = record { status = status; cookie = same_cookie }

-- The readings of one request: the clock at the lookup of a session, at its new expiry, at each entry
-- that a collection meets; the random bytes, of which there is one at least; what fails at the disk
-- during the verification and during the write.
pub record Readings : Type 0 where
  pub now : ℕ
  pub later : ℕ
  pub gc : Text → ℕ
  pub random : Option (ℕ × List ℕ)
  pub verify_faults : Faults
  pub write_faults : Faults

-- `clientIP`, of the header that nginx sets and the address of the connection
unfoldable pub client_ip : Text → Text → Text
client_ip real_ip remote = if is_empty real_ip then remote else real_ip

abbrev pub drawn : Option (ℕ × List ℕ) → Option (List ℕ)
drawn none = none
drawn (some (b, bs)) = some (b ∷ bs)

abbrev pub login_created : Daemon → Store × Option Text → Daemon × Answer
login_created d (s, none) = (record d { sessions = s }, plain 500)
login_created d (s, some id) =
    (record d { sessions = s }, record { status = 200; cookie = set_cookie id })

abbrev pub login_verified : Readings → Text → Text → Daemon → Result Text → Daemon × Answer
login_verified at ip user d (err e) =
    (record d { fails = login_failed at.later ip d.fails }, plain 401)
login_verified at ip user d (ok role) =
    login_created d (create (drawn at.random) user role at.now at.gc d.sessions)

-- the part of `sessionLogin` behind the limiter
abbrev pub login_request :
    Hashing → Readings → Text → Option (Text × Text) → Daemon → Daemon × Answer
login_request hashing at ip none d = (d, plain 400)
login_request hashing at ip (some (user, password)) d =
    if is_empty user || is_empty password
    then (d, plain 400)
    else login_verified at ip user d
        (verify_user hashing.verify at.verify_faults user password d.users)

abbrev pub login_limited :
    Hashing → Readings → Text → Option (Text × Text) → Daemon → Fails × Bool → Daemon × Answer
login_limited hashing at ip body d (fails, throttled) =
    let limited = record d { fails = fails } in
    if throttled then (limited, plain 429) else login_request hashing at ip body limited

abbrev pub is_post : Method → Bool
is_post post_method = true
is_post _ = false

abbrev pub is_logout : Method → Bool
is_logout delete_method = true
is_logout m = is_post m

-- `sessionLogin`
unfoldable pub session_login :
    Hashing → Readings → Method → Text → Option (Text × Text) → Daemon → Daemon × Answer
session_login hashing at method ip body d =
    if not (is_post method)
    then (d, plain 405)
    else login_limited hashing at ip body d (login_throttled at.now ip d.fails)

-- `sessionLogout`; the cookie is empty where the request has none
unfoldable pub session_logout : Method → Text → Daemon → Daemon × Answer
session_logout method cookie d = if not (is_logout method) then (d, plain 405) else (
  (if is_empty cookie then d else record d { sessions = delete cookie d.sessions }),
  record { status = 200; cookie = clear_cookie },
)

-- `sessionOf`: the daemon after it, and the session
abbrev pub session_of : Readings → Text → Daemon → Daemon × Option Session
session_of at cookie d =
    let (s, found) = get cookie at.now at.later d.sessions in (record d { sessions = s }, found)

-- `sessionStatus`
unfoldable pub session_status : Readings → Text → Daemon → Daemon × Answer
session_status at cookie d = ((session_of at cookie d).0, plain 200)

-- `sessionDispatch`
unfoldable pub session_dispatch :
    Hashing → Readings → Method → Text → Text → Option (Text × Text) → Daemon → Daemon × Answer
unfolding session_status session_login session_logout
session_dispatch hashing at get_method ip cookie body d = session_status at cookie d
session_dispatch hashing at post_method ip cookie body d =
    session_login hashing at post_method ip body d
session_dispatch hashing at delete_method ip cookie body d = session_logout delete_method cookie d
session_dispatch hashing at other_method ip cookie body d = (d, plain 405)

-- the end of a handler that writes the accounts: the sessions of the user are revoked but one
abbrev pub revoke : Text → Text → Daemon → Disk × Result (Unit {0}) → Daemon × Answer
revoke user keep d (users, err e) = (record d { users = users }, plain 400)
revoke user keep d (users, ok done) =
    (record d { users = users; sessions = delete_for_user user keep d.sessions }, plain 200)

abbrev pub change_verified :
    Hashing → Readings → Text → Text → Text → Daemon → Result Text → Daemon × Answer
change_verified hashing at cookie user new d (err e) = (d, plain 401)
change_verified hashing at cookie user new d (ok role) =
    revoke user cookie d (set_password hashing.hash at.write_faults user new d.users)

abbrev pub change_request :
    Hashing → Readings → Text → Text → Option (Text × Text × Text) → Daemon → Daemon × Answer
change_request hashing at cookie user none d = (d, plain 400)
change_request hashing at cookie user (some (current, new, confirm)) d =
    if is_empty current || is_empty new || not (equal new confirm)
    then (d, plain 400)
    else change_verified hashing at cookie user new d
        (verify_user hashing.verify at.verify_faults user current d.users)

abbrev pub change_for :
    Hashing
    → Readings
    → Text
    → Option (Text × Text × Text)
    → Daemon × Option Session
    → Daemon × Answer
change_for hashing at cookie body (d, none) = (d, plain 401)
change_for hashing at cookie body (d, some se) = change_request hashing at cookie se.user body d

-- `changePassword`
unfoldable pub change_password :
    Hashing → Readings → Text → Option (Text × Text × Text) → Daemon → Daemon × Answer
change_password hashing at cookie body d =
    change_for hashing at cookie body (session_of at cookie d)

-- `usersSet`, of a name, a role and a password
unfoldable pub users_set :
    Hashing → Readings → Option (Text × Text × Text) → Daemon → Daemon × Answer
users_set hashing at none d = (d, plain 400)
users_set hashing at (some (name, role, password)) d =
    if is_empty name || is_empty password
    then (d, plain 400)
    else revoke name [] d (set_user hashing.hash at.write_faults name role password d.users)

abbrev pub is_own : Text → Option Session → Bool
is_own name none = false
is_own name (some se) = equal se.user name

-- `usersDelete`
unfoldable pub users_delete : Readings → Text → Option Text → Daemon → Daemon × Answer
users_delete at cookie none d = (d, plain 400)
users_delete at cookie (some name) d =
    let (found, session) = session_of at cookie d in
    if is_empty name
    then (d, plain 400)
    else if is_own name session
    then (found, plain 400)
    else revoke name [] found (remove_user at.write_faults name found.users)
