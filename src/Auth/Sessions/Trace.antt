-- ===== src/Auth/Sessions/Trace.antt =====
-- Any sequence of calls of the session store of internal/auth/sessions.go.
use stageneth.Prelude.{
  ℕ, true, not, ◌&&◌, ◌⊎◌, inl, inr, List, [], ◌∷◌, Option, none, some, Text, equal, equal_iff,
  lookup, ◌≡◌, refl, arith, IsMap, insert-IsMap, remove-IsMap, select_entries-IsMap,
  lookup-select_entries, insert, filtered-some, All, lookup-insert_cases, lookup-remove-some, sym,
  ◌∙◌, ap, subst, ◌+◌,
}
use stageneth.Auth.Sessions.Laws.{get_cases, lookup-delete_for_user}
use stageneth.Auth.Sessions.{
  Session, Store, session_ttl, expired, create, get, delete, delete_for_user, hex,
}

-- A call with what it reads from the clock and the random source.
pub data Call : Type 0 where
  create_call : Option (List ℕ) → Text → Text → ℕ → (Text → ℕ) → Call
  get_call : Text → ℕ → ℕ → Call
  delete_call : Text → Call
  delete_for_user_call : Text → Text → Call

unfoldable pub call : Call → Store → Store
unfolding create get delete delete_for_user
call (create_call bytes user role now gc) s = (create bytes user role now gc s).0
call (get_call id now later) s = (get id now later s).0
call (delete_call id) s = delete id s
call (delete_for_user_call user keep) s = delete_for_user user keep s

-- The store after the calls, the latest one first.
unfoldable pub run : Store → List Call → Store
unfolding call
run s [] = s
run s (c ∷ cs) = call c (run s cs)

pub call-IsMap : (c : Call) (s : Store) → IsMap s → IsMap (call c s)
unfolding call
call-IsMap (create_call none user role now gc) s m = m
call-IsMap (create_call (some bytes) user role now gc) s m =
    select_entries-IsMap _ _ (insert-IsMap (hex bytes) _ s m)
call-IsMap (get_call id now later) s m = elim (get_cases id now later s) [
  | inl gone ↦ subst (λ (x : Store × Option Session). IsMap x.0) (sym gone) (remove-IsMap id s m)
  | inr (se, found, kept) ↦
      subst (λ (x : Store × Option Session). IsMap x.0) (sym kept) (insert-IsMap id _ s m)
]
call-IsMap (delete_call id) s m = remove-IsMap id s m
call-IsMap (delete_for_user_call user keep) s m = select_entries-IsMap _ s m

pub run-IsMap : (s : Store) (cs : List Call) → IsMap s → IsMap (run s cs)
unfolding run
run-IsMap s [] m = m
run-IsMap s (c ∷ cs) m = call-IsMap c (run s cs) (run-IsMap s cs m)

-- The call created a session under `id` for the user, with the role.
abbrev pub Creates : Text → Text → Text → Call → Type 0
Creates id u r (create_call (some bytes) user role now gc) =
    (hex bytes ≡ id) × (user ≡ u) × (role ≡ r)
Creates id u r _ = ⊥

-- One of the calls did.
abbrev pub Issued : Text → Text → Text → List Call → Type 0
Issued id u r [] = ⊥
Issued id u r (c ∷ cs) = Creates id u r c ⊎ Issued id u r cs

-- A call leaves a session only where it created one for that user and role, or where one was.
pub call_origin :
    (c : Call) (s : Store) (id : Text) (se : Session)
    → IsMap s
    → lookup id (call c s) ≡ some se
    → Creates id se.user se.role c
      ⊎ ((old : Session) × (lookup id s ≡ some old) × (old.user ≡ se.user) × (old.role ≡ se.role))
unfolding call
call_origin (create_call none user role now gc) s id se m e = inr (se, e, refl, refl)
call_origin (create_call (some bytes) user role now gc) s id se m e =
    let new : Session = record { user = user; role = role; expires = now + session_ttl } in
    let p = λ (k : Text) (v : Session). not (expired (gc k) v) in
    let kept = filtered-some (p id) (lookup id (insert (hex bytes) new s)) se (
      sym (lookup-select_entries p id (insert (hex bytes) new s) (insert-IsMap (hex bytes) new s m))
      ∙ e) in
    elim (lookup-insert_cases (hex bytes) id new se s kept.0) [
      | inl (i, v) ↦ inl (i, ap (λ (x : Session). x.user) v, ap (λ (x : Session). x.role) v)
      | inr old ↦ inr (se, old, refl, refl)
    ]
call_origin (get_call i now later) s id se m e = elim (get_cases i now later s) [
  | inl gone ↦ inr (
    se,
    (lookup-remove-some i id se s
        (subst (λ (x : Store × Option Session). lookup id x.0 ≡ some se) gone e)).1,
    refl,
    refl,
  )
  | inr (old, found, kept) ↦
      elim (lookup-insert_cases i id (record old { expires = later + session_ttl }) se s
        (subst (λ (x : Store × Option Session). lookup id x.0 ≡ some se) kept e)) [
          | inl (k, v) ↦
              inr (
                old,
                rw (← k) found,
                ap (λ (x : Session). x.user) v,
                ap (λ (x : Session). x.role) v,
              )
          | inr there ↦ inr (se, there, refl, refl)
        ]
]
call_origin (delete_call i) s id se m e = inr (se, (lookup-remove-some i id se s e).1, refl, refl)
call_origin (delete_for_user_call user keep) s id se m e = inr (
  se,
  (filtered-some _ (lookup id s) se (sym (lookup-select_entries _ id s m) ∙ e)).0,
  refl,
  refl,
)

-- Whatever the calls, a session that the store holds was issued by one of them under that
-- identifier, to that user and with that role: no call changes who a session belongs to.
pub run-Issued :
    (cs : List Call) (id : Text) (se : Session)
    → lookup id (run [] cs) ≡ some se
    → Issued id se.user se.role cs
run-Issued [] id se e = unfold run lookup in cc
run-Issued (c ∷ cs) id se e =
    elim (call_origin c (run [] cs) id se (run-IsMap [] cs tt) (unfold run in e)) [
      | inl made ↦ inl made
      | inr (old, found, u, r) ↦ inr (
          subst (λ x. Issued id x se.role cs) u
            (subst (λ x. Issued id old.user x cs) r (run-Issued cs id old found)))
    ]

-- The call creates a session for the user.
abbrev pub CreatesFor : Text → Call → Type 0
CreatesFor u (create_call (some bytes) user role now gc) = user ≡ u
CreatesFor u _ = ⊥

Creates-for :
    (c : Call) (id user : Text) (se : Session)
    → Creates id se.user se.role c
    → se.user ≡ user
    → CreatesFor user c
Creates-for (create_call none u r now gc) id user se made e = absurd made
Creates-for (create_call (some bytes) u r now gc) id user se made e = made.1 ∙ e
Creates-for (get_call i now later) id user se made e = absurd made
Creates-for (delete_call i) id user se made e = absurd made
Creates-for (delete_for_user_call u keep) id user se made e = absurd made

revoked_test :
    (a user id keep : Text)
    → not (equal a user && not (equal id keep)) ≡ true
    → a ≡ user
    → id ≡ keep
revoked_test a user id keep h u = ground (arith, equal_iff a user, equal_iff id keep)

-- Once the sessions of a user are revoked, no call but a new login of that user brings one back:
-- as long as none is made, every session of the user that the store holds is the kept one.
pub run-revoked :
    (cs : List Call) (s : Store) (user keep id : Text) (se : Session)
    → IsMap s
    → All (λ c. ¬ CreatesFor user c) cs
    → lookup id (run (delete_for_user user keep s) cs) ≡ some se
    → se.user ≡ user
    → id ≡ keep
run-revoked [] s user keep id se m none_made e u =
    let left =
      filtered-some _ (lookup id s) se
        (sym (lookup-delete_for_user user keep id s m) ∙ unfold run in e) in
    revoked_test se.user user id keep left.1 u
run-revoked (c ∷ cs) s user keep id se m none_made e u =
    elim (call_origin c (run (delete_for_user user keep s) cs) id se
      (run-IsMap _ cs (unfold delete_for_user in select_entries-IsMap _ s m)) (unfold run in e)) [
        | inl made ↦ absurd (none_made.0 (Creates-for c id user se made u))
        | inr (old, found, v, r) ↦ run-revoked cs s user keep id old m none_made.1 found (v ∙ u)
      ]
