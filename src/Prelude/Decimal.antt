-- ===== src/Prelude/Decimal.antt =====
-- `strconv.Atoi` and `strconv.Itoa`.
pub mod RoundTrip
use Prim.Native.Nat.{ℕ, zero, suc, ◌+◌, ◌-◌, ◌*◌, ◌/◌, ◌%◌, ◌^◌}
use mathlib.Core.Bool.{Bool, false}
use mathlib.Core.List.{[], ◌∷◌}
use mathlib.Core.Option.{Option, none, some}
use stageneth.Prelude.Tests.{◌==◌, leb, within, if◌then◌else◌}
use stageneth.Prelude.Words.{Text}

-- `negsuc n` is -(n + 1).
pub data ℤ : Type 0 where
  pos : ℕ → ℤ
  negsuc : ℕ → ℤ

abbrev pub max_int : ℕ
max_int = 2 ^ 63 - 1

-- The number that the digits `s` stand for behind those of `n`; `none` on any other character.
unfoldable pub digits_value : ℕ → Text → Option ℕ
digits_value n [] = some n
digits_value n (c ∷ s) =
    let rest = digits_value (n * 10 + (c - 48)) s in if within b'0' b'9' c then rest else none

unfoldable pub natural : Text → Option ℕ
unfolding digits_value
natural [] = none
natural (c ∷ s) = digits_value 0 (c ∷ s)

abbrev to_pos : Option ℕ → Option ℤ
to_pos none = none
to_pos (some n) = if leb n max_int then some (pos n) else none

abbrev to_neg : Option ℕ → Option ℤ
to_neg none = none
to_neg (some zero) = some (pos 0)
to_neg (some (suc n)) = if leb n max_int then some (negsuc n) else none

-- `none` is the error, a syntax error or one of range.
unfoldable pub atoi : Text → Option ℤ
unfolding natural
atoi [] = none
atoi (c ∷ s) =
    if c == b'-'
    then to_neg (natural s)
    else if c == b'+'
    then to_pos (natural s)
    else to_pos (natural (c ∷ s))

-- `n >= lo && n <= hi`, for a lower bound that is not negative
abbrev pub in_range : ℕ → ℕ → ℤ → Bool
in_range lo hi (pos n) = within lo hi n
in_range lo hi (negsuc n) = false

-- `err == nil && n >= lo && n <= hi`
unfoldable pub int_in : ℕ → ℕ → Text → Bool
unfolding atoi
int_in lo hi s = elim (atoi s) [ none ↦ false | some n ↦ in_range lo hi n ]

-- The digits of `n` in front of `acc`; `n + 1` rounds are enough.
unfoldable pub itoa_loop : ℕ → ℕ → Text → Text
itoa_loop zero n acc = acc
itoa_loop (suc f) n acc =
    let rest = itoa_loop f (n / 10) ((48 + n % 10) ∷ acc) in
    if n / 10 == 0 then (48 + n % 10) ∷ acc else rest

unfoldable pub itoa : ℕ → Text
unfolding itoa_loop
itoa n = itoa_loop (n + 1) n []
