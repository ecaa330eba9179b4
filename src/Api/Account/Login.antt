-- ===== src/Api/Account/Login.antt =====
-- What a login of internal/api/auth.go grants, and to whom.
use stageneth.Prelude.{
  ℕ, Bool, true, false, ◌||◌, List, Option, none, some, Text, is_empty, ◌≡◌, refl, ◌⊎◌, inl, inr,
  Bool-cases,
}
use stageneth.Auth.Users.{Result, ok, err, verify_user}
use stageneth.Auth.Sessions.{Store, create}
use stageneth.Api.Limiter.{Fails, login_throttled}
use stageneth.Api.Account.{
  Daemon, Hashing, Method, same_cookie, set_cookie, post_method, Answer, Readings, drawn,
  login_created, login_verified, login_request, login_limited, session_login,
}

module _ (hashing : Hashing) (at : Readings) where
  -- the reply leaves the cookie, and the sessions are as they were
  abbrev pub Refused : Daemon → Daemon × Answer → Type 0
  Refused d r = (r.1.cookie ≡ same_cookie) × (r.0.sessions ≡ d.sessions)

  -- the reply sets the cookie of a new session of that user, with the role of the account
  abbrev pub Granted : Option (Text × Text) → Daemon → Daemon × Answer → Type 0
  Granted body d r =
      (user : Text) × (password : Text) × (role : Text) × (id : Text) × (body
        ≡ some (user, password))
      × (verify_user hashing.verify at.verify_faults user password d.users ≡ ok role)
      × (create (drawn at.random) user role at.now at.gc d.sessions ≡ (r.0.sessions, some id))
      × (r.1.cookie ≡ set_cookie id)

  created_cases :
      (user password role : Text) (d : Daemon) (r : Store × Option Text)
      → (r.1 ≡ none → r.0 ≡ d.sessions)
      → verify_user hashing.verify at.verify_faults user password d.users ≡ ok role
      → create (drawn at.random) user role at.now at.gc d.sessions ≡ r
      → Refused d (login_created d r) ⊎ Granted (some (user, password)) d (login_created d r)
  created_cases user password role d (s, none) same v c = inl (refl, same refl)
  created_cases user password role d (s, some id) same v c =
      inr (user, password, role, id, refl, v, c, refl)

  create-none :
      (random : Option (List ℕ)) (user role : Text) (s : Store)
      → (create random user role at.now at.gc s).1 ≡ none
      → (create random user role at.now at.gc s).0 ≡ s
  unfolding create
  create-none none user role s e = refl
  create-none (some bytes) user role s e = cc

  verified_cases :
      (ip user password : Text) (d : Daemon) (r : Result Text)
      → verify_user hashing.verify at.verify_faults user password d.users ≡ r
      → Refused d (login_verified at ip user d r)
        ⊎ Granted (some (user, password)) d (login_verified at ip user d r)
  verified_cases ip user password d (err e) v = inl (refl, refl)
  verified_cases ip user password d (ok role) v =
      created_cases user password role d
        (create (drawn at.random) user role at.now at.gc d.sessions)
        (create-none (drawn at.random) user role d.sessions) v refl

  request_cases :
      (ip : Text) (body : Option (Text × Text)) (d : Daemon)
      → Refused d (login_request hashing at ip body d)
        ⊎ Granted body d (login_request hashing at ip body d)
  request_cases ip none d = inl (refl, refl)
  request_cases ip (some (user, password)) d =
      elim (Bool-cases (is_empty user || is_empty password)) [
        | inl e ↦ rw e (inl (refl, refl))
        | inr e ↦ rw e (
            verified_cases ip user password d
              (verify_user hashing.verify at.verify_faults user password d.users) refl)
      ]

  limited_cases :
      (ip : Text) (body : Option (Text × Text)) (d : Daemon) (r : Fails × Bool)
      → Refused d (login_limited hashing at ip body d r)
        ⊎ ((r.1 ≡ false) × Granted body d (login_limited hashing at ip body d r))
  limited_cases ip body d (fails, true) = inl (refl, refl)
  limited_cases ip body d (fails, false) =
      elim (request_cases ip body (record d { fails = fails })) [
        | inl refused ↦ inl refused
        | inr granted ↦ inr (refl, granted)
      ]

  -- A login either leaves the sessions and the cookie as they were, or it is a POST from a client that
  -- is not throttled, with a name and a password that the accounts verify: then the cookie is that of a
  -- new session for this user, with the role of the account.
  pub session_login_cases :
      (method : Method) (ip : Text) (body : Option (Text × Text)) (d : Daemon)
      → Refused d (session_login hashing at method ip body d)
        ⊎ ((method ≡ post_method)
            × ((login_throttled at.now ip d.fails).1 ≡ false)
            × Granted body d (session_login hashing at method ip body d))
  unfolding session_login
  session_login_cases post_method ip body d =
      elim (limited_cases ip body d (login_throttled at.now ip d.fails)) [
        | inl refused ↦ inl refused
        | inr (free, granted) ↦ inr (refl, free, granted)
      ]
  session_login_cases Method.get_method ip body d = inl (refl, refl)
  session_login_cases Method.delete_method ip body d = inl (refl, refl)
  session_login_cases Method.other_method ip body d = inl (refl, refl)
