-- ===== src/Api/Limiter/Laws.antt =====
-- The limiter of internal/api/auth.go: the size of its map, and when it refuses a login.
use stageneth.Prelude.{
  ℕ, suc, ◌≤◌, ◌<◌, not, List, [], ◌∷◌, ◌++◌, Text, length, insert, select_entries, arith,
}
use stageneth.Api.Limiter.{Fails, fails_of, stale, shrink, evict, login_failed}

length-shrink : (m : Fails) → length (shrink m) < 1024
unfolding shrink
length-shrink [] = omega arith
length-shrink (e ∷ m) = ground (arith, length-shrink m)

length-insert : (k : Text) (v : List ℕ) (m : Fails) → length (insert k v m) ≤ suc (length m)
unfolding insert
length-insert k v [] = omega arith
length-insert k v ((j, w) ∷ m) = ground (arith, length-insert k v m)

length-evict : (now : ℕ) (m : Fails) → length (evict now m) < 1024
unfolding evict
length-evict now m = ground (arith, length-shrink (select_entries (λ k ts. not (stale now ts)) m))

-- Whatever the size of the map is, it has at most 1024 clients after a failed login: clients that
-- scan from ever new addresses cannot make it grow.
pub length-login_failed : (now : ℕ) (ip : Text) (m : Fails) → length (login_failed now ip m) ≤ 1024
unfolding login_failed
length-login_failed now ip m = omega (
  arith,
  length-evict now m,
  length-insert ip (fails_of ip (evict now m) ++ now ∷ []) (evict now m),
)
