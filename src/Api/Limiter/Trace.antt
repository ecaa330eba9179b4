-- ===== src/Api/Limiter/Trace.antt =====
-- The limiter of internal/api/auth.go over any calls of any clients.
use stageneth.Prelude.{
  ℕ, ◌≤◌, ◌<◌, List, [], ◌∷◌, ◌++◌, Text, if◌then◌else◌, equal, equal_iff, length, leb, select,
  select-append, insert, remove, lookup-insert, lookup-remove, ◌≡◌, refl, sym, ap, ◌∙◌, subst,
  arith, append-nil, append_assoc, Bool-cases, inl, inr,
}
use stageneth.Api.Limiter.{
  Fails, or_nil, fails_of, recent, login_throttled, keep_fails, evict, login_failed,
}

-- a call of the limiter, with the reading of its clock and its client
pub data Call : Type 0 where
  failed_call : ℕ → Text → Call
  throttled_call : ℕ → Text → Call

abbrev time_of : Call → ℕ
time_of (failed_call t ip) = t
time_of (throttled_call t ip) = t

unfoldable pub step : Call → Fails → Fails
unfolding login_failed login_throttled
step (failed_call t ip) m = login_failed t ip m
step (throttled_call t ip) m = (login_throttled t ip m).0

unfoldable pub run_calls : List Call → Fails → Fails
unfolding step
run_calls [] m = m
run_calls (c ∷ cs) m = run_calls cs (step c m)

-- The times at which a client failed.
unfoldable pub failures : Text → List Call → List ℕ
failures ip [] = []
failures ip (failed_call t client ∷ cs) =
    let rest = failures ip cs in if equal client ip then t ∷ rest else rest
failures ip (throttled_call t client ∷ cs) = failures ip cs

-- The clock does not pass `now` during the calls, and the map is below its cap at each.
abbrev pub IsCalm : ℕ → List Call → Fails → Type 0
IsCalm now [] m = Unit
IsCalm now (c ∷ cs) m = (time_of c ≤ now) × (length m < 1024) × IsCalm now cs (step c m)

evict-small : (now : ℕ) (m : Fails) → length m < 1024 → evict now m ≡ m
unfolding evict
evict-small now m h = ground arith

fails_of-insert :
    (k ip : Text) (ts : List ℕ) (m : Fails)
    → fails_of ip (insert k ts m) ≡ (if equal k ip then ts else fails_of ip m)
unfolding fails_of
fails_of-insert k ip ts m =
    ap or_nil (lookup-insert k ip ts m)
    ∙ elim (Bool-cases (equal k ip)) [ inl e ↦ rw e refl | inr e ↦ rw e refl ]

fails_of-remove :
    (k ip : Text) (m : Fails)
    → fails_of ip (remove k m) ≡ (if equal k ip then [] else fails_of ip m)
unfolding fails_of
fails_of-remove k ip m =
    ap or_nil (lookup-remove k ip m)
    ∙ elim (Bool-cases (equal k ip)) [ inl e ↦ rw e refl | inr e ↦ rw e refl ]

fails_of-keep :
    (k ip : Text) (ts : List ℕ) (m : Fails)
    → fails_of ip (keep_fails k ts m).0 ≡ (if equal k ip then ts else fails_of ip m)
fails_of-keep k ip [] m = fails_of-remove k ip m
fails_of-keep k ip (t ∷ ts) m = fails_of-insert k ip (t ∷ ts) m

-- what is recent at the end was recent at every call
select-recent :
    (now t : ℕ) (ts : List ℕ)
    → t ≤ now
    → select (recent now) (select (recent t) ts) ≡ select (recent now) ts
unfolding select
select-recent now t [] h = refl
select-recent now t (u ∷ ts) h = ground (arith, select-recent now t ts h)

fails_of-step :
    (now : ℕ) (ip : Text) (c : Call) (cs : List Call) (m : Fails)
    → time_of c ≤ now
    → length m < 1024
    → select (recent now) (fails_of ip (step c m) ++ failures ip cs)
      ≡ select (recent now) (fails_of ip m ++ failures ip (c ∷ cs))
unfolding step failures login_failed login_throttled
fails_of-step now ip (failed_call t k) cs m early room =
    let kept = evict-small t m room in
    rw (kept, fails_of-insert k ip (fails_of k m ++ t ∷ []) m)
      (elim (Bool-cases (equal k ip)) [
        | inl e ↦
            rw (e, (equal_iff k ip).0 e)
              (ap (select (recent now)) (append_assoc (fails_of ip m) (t ∷ []) (failures ip cs)))
        | inr e ↦ rw e refl
      ])
fails_of-step now ip (throttled_call t k) cs m early room =
    let kept = select (recent t) (fails_of k m) in
    select-append (recent now) (fails_of ip (keep_fails k kept m).0) (failures ip cs)
    ∙ ap (λ l. l ++ select (recent now) (failures ip cs))
        (ap (select (recent now)) (fails_of-keep k ip kept m) ∙ elim (Bool-cases (equal k ip)) [
          | inl e ↦ rw e (
              subst
                (λ q.
                  select (recent now) (select (recent t) (fails_of k m))
                  ≡ select (recent now) (fails_of q m))
                ((equal_iff k ip).0 e) (select-recent now t (fails_of k m) early))
          | inr e ↦ rw e refl
        ])
    ∙ sym (select-append (recent now) (fails_of ip m) (failures ip cs))

fails_of-run_calls :
    (now : ℕ) (ip : Text) (cs : List Call) (m : Fails)
    → IsCalm now cs m
    → select (recent now) (fails_of ip (run_calls cs m))
      ≡ select (recent now) (fails_of ip m ++ failures ip cs)
unfolding run_calls failures
fails_of-run_calls now ip [] m calm = rw append-nil refl
fails_of-run_calls now ip (c ∷ cs) m calm =
    fails_of-run_calls now ip cs (step c m) calm.2 ∙ fails_of-step now ip c cs m calm.0 calm.1

keep_fails-many : (ip : Text) (ts : List ℕ) (m : Fails) → (keep_fails ip ts m).1 ≡ leb 8 (length ts)
keep_fails-many ip [] m = ground arith
keep_fails-many ip (t ∷ ts) m = refl

-- After any calls of any clients, failures and tests in any order, a client is refused exactly if eight or
-- more of the failures that were recorded before and of its failures since are in the window: no test
-- forgets a failure that still counts, and none of another client counts. The clock did not go back behind
-- the calls, and the map was below its cap at each.
pub login_throttled-run_calls :
    (now : ℕ) (ip : Text) (cs : List Call) (m : Fails)
    → IsCalm now cs m
    → (login_throttled now ip (run_calls cs m)).1
      ≡ leb 8 (length (select (recent now) (fails_of ip m ++ failures ip cs)))
unfolding login_throttled
login_throttled-run_calls now ip cs m calm =
    keep_fails-many ip (select (recent now) (fails_of ip (run_calls cs m))) (run_calls cs m)
    ∙ ap (λ l. leb 8 (length l)) (fails_of-run_calls now ip cs m calm)
