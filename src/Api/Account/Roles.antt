-- ===== src/Api/Account/Roles.antt =====
-- The sessions and the accounts together, over one request to internal/api/auth.go.
use stageneth.Prelude.{
  Bool, true, false, not, ◌&&◌, ◌||◌, [], Option, none, some, Text, equal, is_empty, if◌then◌else◌,
  lookup, ◌≡◌, refl, sym, ◌∙◌, subst, Bool-cases, inl, inr, filtered-some,
}
use stageneth.Auth.Users.{
  Disk, Faults, Result, ok, err, verify_user, set_user, set_password, remove_user, Error,
}
use stageneth.Auth.Users.Requests.{HashesClean, commit_error}
use stageneth.Auth.Users.Role.{
  file_of, role_in, verify-role_in, KeepsRole, set_user-KeepsRole, set_password-KeepsRole,
  remove_user-KeepsRole,
}
use stageneth.Auth.Sessions.{Session, Store, create, delete_for_user}
use stageneth.Auth.Sessions.Laws.{lookup-delete_for_user}
use stageneth.Api.Limiter.{login_throttled, Fails}
use stageneth.Api.Account.{
  Daemon, Hashing, Method, Answer, Readings, drawn, login_created, login_verified, login_request,
  login_limited, is_post, is_logout, session_login, session_logout, session_of, session_status,
  revoke, change_verified, change_for, change_password, users_set, plain, is_own, users_delete,
}
use stageneth.Api.Account.Sound.{
  IsCurrent, IsSound, get-IsSound, delete-IsSound, create-IsSound, delete_for_user-IsStore,
  revoke-IsSound,
}

pub set_user-err :
    (hash : Text → Option Text) (io_faults : Faults) (name role password : Text) (disk : Disk)
    (e : Error)
    → (set_user hash io_faults name role password disk).1 ≡ err e
    → (set_user hash io_faults name role password disk).0 ≡ disk
unfolding set_user
set_user-err hash io_faults name role password disk e h = commit_error io_faults disk _ e h

set_password-err :
    (hash : Text → Option Text) (io_faults : Faults) (name password : Text) (disk : Disk)
    (e : Error)
    → (set_password hash io_faults name password disk).1 ≡ err e
    → (set_password hash io_faults name password disk).0 ≡ disk
unfolding set_password
set_password-err hash io_faults name password disk e h = commit_error io_faults disk _ e h

remove_user-err :
    (io_faults : Faults) (name : Text) (disk : Disk) (e : Error)
    → (remove_user io_faults name disk).1 ≡ err e
    → (remove_user io_faults name disk).0 ≡ disk
unfolding remove_user
remove_user-err io_faults name disk e h = commit_error io_faults disk _ e h

-- the answer of a handler is chosen by a test
either-IsSound :
    (b : Bool) (x y : Daemon × Answer) → IsSound x.0 → IsSound y.0 → IsSound (if b then x else y).0
either-IsSound true x y h k = h
either-IsSound false x y h k = k

module _ (hashing : Hashing) (clean_hash : HashesClean hashing.hash) where
  pub login_created-IsSound :
      (d : Daemon) (r : Store × Option Text)
      → IsSound (record d { sessions = r.0 })
      → IsSound (login_created d r).0
  login_created-IsSound d (s, none) h = h
  login_created-IsSound d (s, some id) h = h

  login_verified-IsSound :
      (at : Readings) (ip user : Text) (d : Daemon) (r : Result Text)
      → ((role : Text) → r ≡ ok role → role_in user (file_of d.users) ≡ some role)
      → IsSound d
      → IsSound (login_verified at ip user d r).0
  login_verified-IsSound at ip user d (err e) k h = h
  login_verified-IsSound at ip user d (ok role) k h =
      login_created-IsSound d (create (drawn at.random) user role at.now at.gc d.sessions)
        (create-IsSound at.random user role at.now at.gc d (k role refl) h)

  login_request-IsSound :
      (at : Readings) (ip : Text) (body : Option (Text × Text)) (d : Daemon)
      → IsSound d
      → IsSound (login_request hashing at ip body d).0
  login_request-IsSound at ip none d h = h
  login_request-IsSound at ip (some (user, password)) d h =
      let verified = verify_user hashing.verify at.verify_faults user password d.users in
      either-IsSound (is_empty user || is_empty password) (d, plain 400)
        (login_verified at ip user d verified) h
        (login_verified-IsSound at ip user d verified
          (λ role e. verify-role_in hashing.verify at.verify_faults user password role d.users e) h)

  login_limited-IsSound :
      (at : Readings) (ip : Text) (body : Option (Text × Text)) (d : Daemon) (r : Fails × Bool)
      → IsSound d
      → IsSound (login_limited hashing at ip body d r).0
  login_limited-IsSound at ip body d (fails, throttled) h =
      either-IsSound throttled (record d { fails = fails }, plain 429)
        (login_request hashing at ip body (record d { fails = fails })) h
        (login_request-IsSound at ip body (record d { fails = fails }) h)

  session_login-IsSound :
      (at : Readings) (method : Method) (ip : Text) (body : Option (Text × Text)) (d : Daemon)
      → IsSound d
      → IsSound (session_login hashing at method ip body d).0
  unfolding session_login
  session_login-IsSound at method ip body d h =
      either-IsSound (not (is_post method)) (d, plain 405) _ h
        (login_limited-IsSound at ip body d (login_throttled at.now ip d.fails) h)

  session_logout-IsSound :
      (method : Method) (cookie : Text) (d : Daemon)
      → IsSound d
      → IsSound (session_logout method cookie d).0
  unfolding session_logout
  session_logout-IsSound method cookie d h = elim (Bool-cases (is_logout method)) [
    | inl out ↦ elim (Bool-cases (is_empty cookie)) [
      | inl e ↦ rw (out, e) h
      | inr e ↦ rw (out, e) (delete-IsSound cookie d h)
    ]
    | inr other ↦ rw other h
  ]

  change_for-IsSound :
      (at : Readings) (cookie : Text) (body : Option (Text × Text × Text)) (d : Daemon)
      (found : Option Session)
      → IsSound d
      → IsSound (change_for hashing at cookie body (d, found)).0
  change_for-IsSound at cookie body d none h = h
  change_for-IsSound at cookie none d (some se) h = h
  change_for-IsSound at cookie (some (current, new, confirm)) d (some se) h =
      let verified = verify_user hashing.verify at.verify_faults se.user current d.users in
      either-IsSound (is_empty current || is_empty new || not (equal new confirm)) (d, plain 400)
        (change_verified hashing at cookie se.user new d verified) h (changed verified)
    where
      written :
          (r : Disk × Result (Unit {0}))
          → ((e : Error) → r.1 ≡ err e → r.0 ≡ d.users)
          → ((m : Text) → KeepsRole m d.users r.0)
          → IsSound (revoke se.user cookie d r).0
      written (users, err e) same keeps =
          (h.0, (keeps []).0, subst (λ u. IsCurrent u d.sessions) (sym (same e refl)) h.2)
      written (users, ok done) same keeps = (
        delete_for_user-IsStore se.user cookie d.sessions h.0,
        (keeps []).0,
        λ id x e. (keeps x.user).1 ∙ kept_current id x e,
      )
        where
          kept_current : IsCurrent d.users (delete_for_user se.user cookie d.sessions)
          kept_current id x e =
              h.2 id x
                (filtered-some
                  (λ (y : Session). not (equal y.user se.user && not (equal id cookie)))
                  (lookup id d.sessions) x
                  (sym (lookup-delete_for_user se.user cookie id d.sessions h.0.0) ∙ e)).0

      changed : (r : Result Text) → IsSound (change_verified hashing at cookie se.user new d r).0
      changed (err e) = h
      changed (ok role) =
          written (set_password hashing.hash at.write_faults se.user new d.users)
            (λ e fails. set_password-err hashing.hash at.write_faults se.user new d.users e fails)
            (λ m.
              set_password-KeepsRole hashing.hash clean_hash at.write_faults se.user new m d.users
                h.1)

  users_set-IsSound :
      (at : Readings) (body : Option (Text × Text × Text)) (d : Daemon)
      → IsSound d
      → IsSound (users_set hashing at body d).0
  unfolding users_set
  users_set-IsSound at none d h = h
  users_set-IsSound at (some (name, role, password)) d h =
      let written = set_user hashing.hash at.write_faults name role password d.users in
      either-IsSound (is_empty name || is_empty password) (d, plain 400) (revoke name [] d written)
        h
        (revoke-IsSound name d written
          (λ e fails. set_user-err hashing.hash at.write_faults name role password d.users e fails)
          (λ m ne.
            set_user-KeepsRole hashing.hash clean_hash at.write_faults name role password m d.users
              ne h.1)
          h)

  users_delete-IsSound :
      (at : Readings) (cookie : Text) (body : Option Text) (d : Daemon)
      → IsSound d
      → IsSound (users_delete at cookie body d).0
  unfolding users_delete
  users_delete-IsSound at cookie none d h = h
  users_delete-IsSound at cookie (some name) d h =
      let found = (session_of at cookie d).0 in
      let sound : IsSound found = get-IsSound cookie at.now at.later d h in
      let written = remove_user at.write_faults name found.users in
      either-IsSound (is_empty name) (d, plain 400) _ h
        (either-IsSound (is_own name (session_of at cookie d).1) (found, plain 400)
          (revoke name [] found written) sound
          (revoke-IsSound name found written
            (λ e fails. remove_user-err at.write_faults name found.users e fails)
            (λ m ne. remove_user-KeepsRole at.write_faults name m found.users ne sound.1) sound))

-- A request to a handler of auth.go, with what it reads; `check_act` is one behind `requireAuth` or
-- `requireTech` whose own handler leaves the accounts and the sessions as they are.
pub data Act : Type 0 where
  login_act : Readings → Method → Text → Option (Text × Text) → Act
  logout_act : Method → Text → Act
  status_act check_act : Readings → Text → Act
  change_act : Readings → Text → Option (Text × Text × Text) → Act
  set_act : Readings → Option (Text × Text × Text) → Act
  delete_act : Readings → Text → Option Text → Act

unfoldable pub act : Hashing → Act → Daemon → Daemon × Answer
unfolding session_login session_logout session_status change_password users_set users_delete
act hashing (login_act at method ip body) d = session_login hashing at method ip body d
act hashing (logout_act method cookie) d = session_logout method cookie d
act hashing (status_act at cookie) d = session_status at cookie d
act hashing (check_act at cookie) d = ((session_of at cookie d).0, plain 200)
act hashing (change_act at cookie body) d = change_password hashing at cookie body d
act hashing (set_act at body) d = users_set hashing at body d
act hashing (delete_act at cookie body) d = users_delete at cookie body d

module _ (hashing : Hashing) (clean_hash : HashesClean hashing.hash) where
  pub act-IsSound : (a : Act) (d : Daemon) → IsSound d → IsSound (act hashing a d).0
  unfolding act session_status change_password
  act-IsSound (login_act at method ip body) d h =
      session_login-IsSound hashing clean_hash at method ip body d h
  act-IsSound (logout_act method cookie) d h =
      session_logout-IsSound hashing clean_hash method cookie d h
  act-IsSound (status_act at cookie) d h = get-IsSound cookie at.now at.later d h
  act-IsSound (check_act at cookie) d h = get-IsSound cookie at.now at.later d h
  act-IsSound (change_act at cookie body) d h =
      change_for-IsSound hashing clean_hash at cookie body (session_of at cookie d).0
        (session_of at cookie d).1 (get-IsSound cookie at.now at.later d h)
  act-IsSound (set_act at body) d h = users_set-IsSound hashing clean_hash at body d h
  act-IsSound (delete_act at cookie body) d h =
      users_delete-IsSound hashing clean_hash at cookie body d h
