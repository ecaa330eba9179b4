-- ===== src/Auth/Sessions/Laws.antt =====
-- What the session store of internal/auth/sessions.go promises: a session lives until it expires or
-- is deleted, and a deletion reaches exactly the sessions that it names.
use stageneth.Prelude.{
  ℕ, ◌+◌, ◌≤◌, ◌<◌, not, ◌&&◌, List, Option, none, some, Text, equal, equal_refl, lookup, insert,
  remove, lookup-insert, lookup-remove, ◌≡◌, refl, arith, Option-cases, Bool-cases, ◌⊎◌, inl, inr,
  ap, ◌∙◌, IsMap, insert-IsMap, lookup-select_entries, filtered,
}
use stageneth.Auth.Sessions.{
  Session, Store, session_ttl, expired, create, get, delete_for_user, hex,
}

get_live :
    (id : Text) (at later : ℕ) (s : Store) (se : Session)
    → lookup id s ≡ some se
    → at ≤ se.expires
    → get id at later s ≡ (
      insert id (record se { expires = later + session_ttl }) s,
      some (record se { expires = later + session_ttl }),
    )
unfolding get
get_live id at later s se e h = rw e (ground arith)

-- The two ways in which a request goes.
pub get_cases :
    (id : Text) (now later : ℕ) (s : Store)
    → (get id now later s ≡ (remove id s, none))
      ⊎ ((se : Session) × (lookup id s ≡ some se)
          × (get id now later s ≡ (
            insert id (record se { expires = later + session_ttl }) s,
            some (record se { expires = later + session_ttl }),
          )))
unfolding get
get_cases id now later s = elim (Option-cases (lookup id s)) [
  | inl e ↦ inl (rw e refl)
  | inr (se, e) ↦ elim (Bool-cases (expired now se)) [
    | inl x ↦ inl (rw (e, x) refl)
    | inr x ↦ inr (se, e, rw (e, x) refl)
  ]
]

-- A session that was just created is found, with its user and role, by every request within
-- `sessionTTL` of its creation, provided that the store is a map and that no clock reading of the
-- collection at its creation lay behind that span.
pub get-create :
    (bytes : List ℕ) (user role : Text) (now : ℕ) (gc : Text → ℕ) (s : Store) (at later : ℕ)
    → IsMap s
    → gc (hex bytes) ≤ now + session_ttl
    → at ≤ now + session_ttl
    → (get (hex bytes) at later (create (some bytes) user role now gc s).0).1
      ≡ some (record { user = user; role = role; expires = later + session_ttl })
unfolding get create
get-create bytes user role now gc s at later m g h =
    let se : Session = record { user = user; role = role; expires = now + session_ttl } in
    ap (λ (x : Store × Option Session). x.1)
      (get_live (hex bytes) at later _ se
        (lookup-select_entries (λ k v. not (expired (gc k) v)) (hex bytes) (insert (hex bytes) se s)
            (insert-IsMap (hex bytes) se s m)
          ∙ kept)
        h)
  where
    kept :
        filtered
          (λ v. not (expired (gc (hex bytes)) v))
          (lookup (hex bytes) (
            insert
              (hex bytes)
              (record { user = user; role = role; expires = now + session_ttl })
              s))
        ≡ some (record { user = user; role = role; expires = now + session_ttl })
    kept = rw (lookup-insert, equal_refl) (ground arith)

-- A request at a session that is missing or expired gets nothing, and the session is gone.
pub get_expired :
    (id : Text) (now later : ℕ) (s : Store) (se : Session)
    → lookup id s ≡ some se
    → se.expires < now
    → ((get id now later s).1 ≡ none) × (lookup id (get id now later s).0 ≡ none)
unfolding get
get_expired id now later s se e h = rw e (ground (arith, lookup-remove id id s, equal_refl id))

-- Every request slides the expiry: a session that is found is found again, unchanged in user and
-- role, by every request within `sessionTTL` of the one before.
pub get-get :
    (id : Text) (at later at' later' : ℕ) (s : Store) (se : Session)
    → (get id at later s).1 ≡ some se
    → at' ≤ later + session_ttl
    → (get id at' later' (get id at later s).0).1
      ≡ some (record { user = se.user; role = se.role; expires = later' + session_ttl })
get-get id at later at' later' s se e h = elim (get_cases id at later s) [
  | inl gone ↦ cc (gone, e)
  | inr (old, found, kept) ↦
      let slid : Session = record old { expires = later + session_ttl } in
      let same : slid ≡ se = cc (kept, e) in
      let again : lookup id (insert id slid s) ≡ some slid = rw (lookup-insert, equal_refl) in
      rw (kept, ← same)
        (ap (λ (x : Store × Option Session). x.1)
          (get_live id at' later' (insert id slid s) slid again h))
]

-- `DeleteForUser` deletes exactly the sessions of the user other than the kept one.
pub lookup-delete_for_user :
    (user keep id : Text) (s : Store)
    → IsMap s
    → lookup id (delete_for_user user keep s)
      ≡ filtered (λ se. not (equal se.user user && not (equal id keep))) (lookup id s)
unfolding delete_for_user
lookup-delete_for_user user keep id s m = lookup-select_entries _ id s m
