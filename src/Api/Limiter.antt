-- ===== src/Api/Limiter.antt =====
-- The limiter of failed logins in internal/api/auth.go. Times are seconds of a clock that does not go
-- back. Its mutex makes each function one step on the map; each reads the clock once, except that
-- the eviction of stale entries uses the reading of its call for all of them.
pub mod Laws
pub mod Trace
use stageneth.Prelude.{
  ℕ, ◌+◌, ◌-◌, Bool, true, false, not, List, [], ◌∷◌, ◌++◌, Option, none, some, Text, if◌then◌else◌,
  ltb, leb, length, select, Dict, lookup, insert, remove, select_entries,
}

-- `loginMaxFails`
abbrev pub login_max_fails : ℕ
login_max_fails = 8

-- `loginFailWindow`, ten minutes
abbrev pub login_fail_window : ℕ
login_fail_window = 600

-- the cap of the map
abbrev pub max_clients : ℕ
max_clients = 1024

-- the map `fails`
abbrev pub Fails : Type 0
Fails = Dict (List ℕ)

-- `m[ip]`, nil where there is none
abbrev pub or_nil : Option (List ℕ) → List ℕ
or_nil none = []
or_nil (some ts) = ts

unfoldable pub fails_of : Text → Fails → List ℕ
fails_of ip m = or_nil (lookup ip m)

-- `now.Sub(t) < loginFailWindow`
abbrev pub recent : ℕ → ℕ → Bool
recent now t = ltb (now - t) login_fail_window

abbrev pub keep_fails : Text → List ℕ → Fails → Fails × Bool
keep_fails ip [] m = (remove ip m, false)
keep_fails ip (t ∷ ts) m = (insert ip (t ∷ ts) m, leb login_max_fails (length (t ∷ ts)))

-- `loginThrottled`
unfoldable pub login_throttled : ℕ → Text → Fails → Fails × Bool
unfolding fails_of
login_throttled now ip m = keep_fails ip (select (recent now) (fails_of ip m)) m

-- the test of the eviction: no failure, or the last one is outside the window
abbrev pub stale : ℕ → List ℕ → Bool
stale now [] = true
stale now (t ∷ []) = ltb login_fail_window (now - t)
stale now (t ∷ u ∷ ts) = stale now (u ∷ ts)

-- the second loop of the eviction, over the map in any order
unfoldable pub shrink : Fails → Fails
shrink [] = []
shrink (e ∷ m) = let rest = shrink m in if ltb (length (e ∷ m)) max_clients then e ∷ m else rest

unfoldable pub evict : ℕ → Fails → Fails
unfolding shrink
evict now m =
    if leb max_clients (length m) then shrink (select_entries (λ k ts. not (stale now ts)) m) else m

-- `loginFailed`
unfoldable pub login_failed : ℕ → Text → Fails → Fails
unfolding evict fails_of
login_failed now ip m = insert ip (fails_of ip (evict now m) ++ now ∷ []) (evict now m)
