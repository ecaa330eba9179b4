-- ===== src/Prelude/Decimal/RoundTrip.antt =====
-- `strconv.Atoi` reads what `strconv.Itoa` writes.
use Prim.Native.Nat.{ℕ, zero, suc, ◌+◌, ◌-◌, ◌*◌, ◌/◌, ◌%◌, ◌≤◌, ◌<◌}
use mathlib.Core.Path.{◌≡◌, refl, subst, ◌∙◌, ap}
use mathlib.Core.Bool.{true, false}
use mathlib.Core.List.{[], ◌∷◌}
use mathlib.Core.Option.{none, some}
use mathlib.Core.Logic.{inl, inr}
use native.Mathlib.Omega.{arith}
use stageneth.Prelude.Tests.{◌==◌, leb, within, Bool-cases, ==_iff}
use stageneth.Prelude.Words.{Text, is_empty}
use stageneth.Prelude.Decimal.{pos, max_int, digits_value, atoi, itoa_loop, itoa}

-- a digit in front of others
digits-next :
    (m d : ℕ) (acc : Text)
    → d < 10
    → digits_value m ((48 + d) ∷ acc) ≡ digits_value (m * 10 + d) acc
unfolding digits_value
digits-next m d acc h =
    let digit : within 48 57 (48 + d) ≡ true = ground arith in
    rw digit (ap (λ x. digits_value (m * 10 + x) acc) (omega arith))

digits-itoa_loop :
    (f n : ℕ) (acc : Text) → n < f → digits_value 0 (itoa_loop f n acc) ≡ digits_value n acc
unfolding itoa_loop
digits-itoa_loop zero n acc h = let no : ⊥ = omega (arith, h) in elim no [ ]
digits-itoa_loop (suc f) n acc h =
    let small : n % 10 < 10 = omega arith in
    elim (Bool-cases (n / 10 == 0)) [
      | inl e ↦
          let zero_eq : n / 10 ≡ 0 = (==_iff (n / 10) 0).0 e in
          rw e (
            digits-next 0 (n % 10) acc small
            ∙ ap (λ x. digits_value x acc) (omega (arith, zero_eq)))
      | inr e ↦
          let more : n / 10 < f = ground (arith, ==_iff (n / 10) 0) in
          rw e (
            digits-itoa_loop f (n / 10) ((48 + n % 10) ∷ acc) more
            ∙ digits-next (n / 10) (n % 10) acc small
            ∙ ap (λ x. digits_value x acc) (omega arith))
    ]

itoa_loop-filled :
    (f n : ℕ) (acc : Text) → is_empty acc ≡ false → is_empty (itoa_loop f n acc) ≡ false
unfolding itoa_loop
itoa_loop-filled zero n acc h = h
itoa_loop-filled (suc f) n acc h = elim (Bool-cases (n / 10 == 0)) [
  | inl e ↦ rw e refl
  | inr e ↦ rw e (itoa_loop-filled f (n / 10) ((48 + n % 10) ∷ acc) refl)
]

itoa_loop-filled_suc : (f n : ℕ) → is_empty (itoa_loop (suc f) n []) ≡ false
unfolding itoa_loop
itoa_loop-filled_suc f n = elim (Bool-cases (n / 10 == 0)) [
  | inl e ↦ rw e refl
  | inr e ↦ rw e (itoa_loop-filled f (n / 10) ((48 + n % 10) ∷ []) refl)
]

itoa-filled : (n : ℕ) → is_empty (itoa n) ≡ false
unfolding itoa
itoa-filled n =
    let one : suc n ≡ n + 1 = omega arith in
    subst (λ k. is_empty (itoa_loop k n []) ≡ false) one (itoa_loop-filled_suc n n)

digits-itoa : (n : ℕ) → digits_value 0 (itoa n) ≡ some n
unfolding itoa digits_value
digits-itoa n = digits-itoa_loop (n + 1) n [] (omega arith)

-- A text of digits is read as their number.
atoi-digits :
    (s : Text) (n : ℕ)
    → is_empty s ≡ false
    → digits_value 0 s ≡ some n
    → n ≤ max_int
    → atoi s ≡ some (pos n)
unfolding atoi digits_value
atoi-digits [] n f h b = cc f
atoi-digits (c ∷ s) n f h b = elim (Bool-cases (within 48 57 c)) [
  | inl e ↦
      let minus : (c == 45) ≡ false = ground arith in
      let plus : (c == 43) ≡ false = ground arith in
      let value : digits_value (0 * 10 + (c - 48)) s ≡ some n = rw e at h in
      let small : leb n max_int ≡ true = ground arith in rw (minus, plus, e, value, small) refl
  | inr e ↦ let no : none ≡ some n = rw e at h in cc no
]

-- A number that an int holds is read back from its digits.
pub atoi-itoa : (n : ℕ) → n ≤ max_int → atoi (itoa n) ≡ some (pos n)
atoi-itoa n b = atoi-digits (itoa n) n (itoa-filled n) (digits-itoa n) b
