-- ===== src/Auth/Sessions.antt =====
-- internal/auth/sessions.go: the in-memory session store. Times are seconds; each reading of the
-- clock that an operation makes is an argument, and so are the bytes that `crypto/rand` returns.
pub mod Laws
pub mod Trace
use stageneth.Prelude.{
  ℕ, ◌+◌, ◌/◌, ◌%◌, Bool, not, ◌&&◌, List, [], ◌∷◌, Option, none, some, Text, equal, if◌then◌else◌,
  ltb, Dict, lookup, insert, remove, select_entries,
}

-- `sessionTTL`: twelve hours
abbrev pub session_ttl : ℕ
session_ttl = 43200

pub record Session : Type 0 where
  pub user : Text
  pub role : Text
  pub expires : ℕ

-- the map `sess` of `Store`
abbrev pub Store : Type 0
Store = Dict Session

-- `time.Now().After(v.Expires)`
abbrev pub expired : ℕ → Session → Bool
expired now v = ltb v.expires now

-- `hex.EncodeToString`
abbrev hex_digit : ℕ → ℕ
hex_digit d = if ltb d 10 then 48 + d else 87 + d

unfoldable pub hex : List ℕ → Text
hex [] = []
hex (b ∷ bs) = hex_digit (b / 16) ∷ hex_digit (b % 16) ∷ hex bs

-- `(*Store).Create`; `gc` is the clock as the loop reads it at each entry
unfoldable pub create : Option (List ℕ) → Text → Text → ℕ → (Text → ℕ) → Store → Store × Option Text
unfolding hex
create none user role now gc s = (s, none)
create (some bytes) user role now gc s =
    let id = hex bytes in
    let added = insert id (record { user = user; role = role; expires = now + session_ttl }) s in
    (select_entries (λ k v. not (expired (gc k) v)) added, some id)

abbrev get_found : Text → ℕ → ℕ → Store → Option Session → Store × Option Session
get_found id now later s none = (remove id s, none)
get_found id now later s (some se) =
    if expired now se
    then (remove id s, none)
    else (let slid = record se { expires = later + session_ttl } in (insert id slid s, some slid))

-- `(*Store).Get`; the clock is read before the test and again for the new expiry
unfoldable pub get : Text → ℕ → ℕ → Store → Store × Option Session
get id now later s = get_found id now later s (lookup id s)

-- `(*Store).Delete`
unfoldable pub delete : Text → Store → Store
delete id s = remove id s

-- `(*Store).DeleteForUser`
unfoldable pub delete_for_user : Text → Text → Store → Store
delete_for_user user keep s =
    select_entries (λ id se. not (equal se.user user && not (equal id keep))) s
