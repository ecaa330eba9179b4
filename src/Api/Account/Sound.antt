-- ===== src/Api/Account/Sound.antt =====
-- What the calls that the handlers of internal/api/auth.go make do to the roles of the sessions.
use stageneth.Prelude.{
  ℕ, false, not, ◌&&◌, List, [], ◌∷◌, Option, none, some, Text, equal, equal_iff, lookup, IsMap,
  ◌≡◌, ◌≢◌, refl, sym, ◌∙◌, ap, subst, Bool-cases, Option-cases, inl, inr, filtered-some,
}
use stageneth.Auth.Users.{Disk, Result, ok, err, Error}
use stageneth.Auth.Users.Login.{IsCleanDisk}
use stageneth.Auth.Users.Role.{file_of, role_in, KeepsRole}
use stageneth.Auth.Sessions.{Session, Store, create, get, delete, delete_for_user, hex}
use stageneth.Auth.Sessions.Laws.{lookup-delete_for_user}
use stageneth.Auth.Sessions.Trace.{
  Call, create_call, get_call, delete_call, delete_for_user_call, call, call-IsMap, call_origin,
  Creates,
}
use stageneth.Api.Account.{Daemon, drawn, revoke}

-- Every session has the role that its account has now.
abbrev pub IsCurrent : Disk → Store → Type 0
IsCurrent users s =
    (id : Text) (se : Session)
    → lookup id s ≡ some se
    → role_in se.user (file_of users) ≡ some se.role

-- No identifier is empty, and no two sessions have the same one.
abbrev pub IsStore : Store → Type 0
IsStore s = IsMap s × (lookup [] s ≡ none)

abbrev pub IsSound : Daemon → Type 0
IsSound d = IsStore d.sessions × IsCleanDisk d.users × IsCurrent d.users d.sessions

-- what a call may create
abbrev MayCreate : Disk → Call → Type 0
MayCreate users c =
    (id user role : Text)
    → Creates id user role c
    → (id ≢ []) × (role_in user (file_of users) ≡ some role)

call-IsStore :
    (users : Disk) (c : Call) (s : Store) → MayCreate users c → IsStore s → IsStore (call c s)
call-IsStore users c s may (m, n) = (
  call-IsMap c s m,
  elim (Option-cases (lookup [] (call c s))) [
    | inl e ↦ e
    | inr (se, e) ↦ elim (call_origin c s [] se m e) [
      | inl new ↦ elim ((may [] se.user se.role new).0 refl) [ ]
      | inr (old, found, u, r) ↦ cc (found, n)
    ]
  ],
)

call-IsCurrent :
    (users : Disk) (c : Call) (s : Store)
    → MayCreate users c
    → IsMap s
    → IsCurrent users s
    → IsCurrent users (call c s)
call-IsCurrent users c s may m k id se e = elim (call_origin c s id se m e) [
  | inl new ↦ (may id se.user se.role new).1
  | inr (old, found, u, r) ↦
      subst (λ user. role_in user (file_of users) ≡ some se.role) u
        (k id old found ∙ ap (λ x. some x) r)
]

call-IsSound :
    (c : Call) (d : Daemon)
    → MayCreate d.users c
    → IsSound d
    → IsSound (record d { sessions = call c d.sessions })
call-IsSound c d may (s, u, k) =
    (call-IsStore d.users c d.sessions may s, u, call-IsCurrent d.users c d.sessions may s.0 k)

pub get-IsSound :
    (id : Text) (now later : ℕ) (d : Daemon)
    → IsSound d
    → IsSound (record d { sessions = (get id now later d.sessions).0 })
unfolding call
get-IsSound id now later d h = call-IsSound (get_call id now later) d (λ i u r no. absurd no) h

pub delete-IsSound :
    (id : Text) (d : Daemon) → IsSound d → IsSound (record d { sessions = delete id d.sessions })
unfolding call
delete-IsSound id d h = call-IsSound (delete_call id) d (λ i u r no. absurd no) h

hex-some : (b : ℕ) (bs : List ℕ) → hex (b ∷ bs) ≢ []
unfolding hex
hex-some b bs e = cc e

-- a new session of the role that the account has
pub create-IsSound :
    (random : Option (ℕ × List ℕ)) (user role : Text) (now : ℕ) (gc : Text → ℕ) (d : Daemon)
    → role_in user (file_of d.users) ≡ some role
    → IsSound d
    → IsSound (record d { sessions = (create (drawn random) user role now gc d.sessions).0 })
unfolding call
create-IsSound none user role now gc d r h =
    call-IsSound (create_call none user role now gc) d (λ i u q no. absurd no) h
create-IsSound (some (b, bs)) user role now gc d r h =
    call-IsSound (create_call (some (b ∷ bs)) user role now gc) d
      (λ i u q new. (
        λ empty. hex-some b bs (new.0 ∙ empty),
        subst (λ v. role_in v (file_of d.users) ≡ some q) new.1 (r ∙ ap (λ x. some x) new.2),
      ))
      h

-- the sessions that a revocation leaves are those of other users
revoked-IsCurrent :
    (name : Text) (users after : Disk) (s : Store)
    → ((m : Text) → name ≢ m → KeepsRole m users after)
    → IsStore s
    → IsCurrent users s
    → IsCurrent after (delete_for_user name [] s)
revoked-IsCurrent name users after s keeps (m, n) k id se e =
    let (found, other) =
      filtered-some (λ (x : Session). not (equal x.user name && not (equal id []))) (lookup id s) se
        (sym (lookup-delete_for_user name [] id s m) ∙ e) in
    let has_id : equal id [] ≡ false = elim (Bool-cases (equal id [])) [
      | inl none_id ↦ cc (found, n, (equal_iff id []).0 none_id)
      | inr e' ↦ e'
    ] in
    let ne : name ≢ se.user = λ same. cc (has_id, other, (equal_iff se.user name).1 (sym same)) in
    (keeps se.user ne).1 ∙ k id se found

pub delete_for_user-IsStore :
    (name keep : Text) (s : Store) → IsStore s → IsStore (delete_for_user name keep s)
unfolding call
delete_for_user-IsStore name keep s h =
    call-IsStore none (delete_for_user_call name keep) s (λ i u r no. absurd no) h

longer : (c : ℕ) (t : Text) → t ≢ c ∷ t
longer c [] e = cc e
longer c (x ∷ t) e = longer x t (cc e)

pub revoke-IsSound :
    (name : Text) (d : Daemon) (r : Disk × Result (Unit {0}))
    → ((e : Error) → r.1 ≡ err e → r.0 ≡ d.users)
    → ((m : Text) → name ≢ m → KeepsRole m d.users r.0)
    → IsSound d
    → IsSound (revoke name [] d r).0
revoke-IsSound name d (users, err e) same keeps (s, c, k) = (
  s,
  subst IsCleanDisk (sym (same e refl)) c,
  subst (λ u. IsCurrent u d.sessions) (sym (same e refl)) k,
)
revoke-IsSound name d (users, ok done) same keeps (s, c, k) = (
  delete_for_user-IsStore name [] d.sessions s,
  (keeps (b'!' ∷ name) (longer b'!' name)).0,
  revoked-IsCurrent name d.users users d.sessions keeps s k,
)
