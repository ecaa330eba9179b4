-- ===== src/Render/Vlan.antt =====
-- `validVlanID` of internal/render/render.go.
use stageneth.Prelude.{
  ℕ, Bool, true, false, Option, none, some, Text, lit, if◌then◌else◌, atoi, itoa, in_range, ℤ, ◌≡◌,
  refl, ◌≤◌, arith,
}
use stageneth.Prelude.Decimal.RoundTrip.{atoi-itoa}
use stageneth.Render.{valid_vlan_id, vlan_of}

-- The text is a VLAN id: it is read as a number of 1 to 4094, and is written as that number is.
pub record IsVlanId (s : Text) : Type 0 where
  pub id : ℕ
  pub read : atoi s ≡ some (ℤ.pos id)
  pub written : s ≡ itoa id
  pub low : 1 ≤ id
  pub high : id ≤ 4094

itoa-IsVlanId : (n : ℕ) → 1 ≤ n → n ≤ 4094 → IsVlanId (itoa n)
itoa-IsVlanId n lo hi = record {
  id = n;
  read = atoi-itoa n (omega (arith, hi));
  written = refl;
  low = lo;
  high = hi;
}

one-IsVlanId : IsVlanId (lit "1")
unfolding itoa
one-IsVlanId = itoa-IsVlanId 1 (omega arith) (omega arith)

choose-IsVlanId :
    (b : Bool) (n : ℕ) → (b ≡ true → IsVlanId (itoa n)) → IsVlanId (if b then itoa n else lit "1")
choose-IsVlanId true n h = h refl
choose-IsVlanId false n h = one-IsVlanId

vlan_of-IsVlanId : (o : Option ℤ) → IsVlanId (vlan_of o)
vlan_of-IsVlanId none = one-IsVlanId
vlan_of-IsVlanId (some (ℤ.pos n)) =
    choose-IsVlanId (in_range 1 4094 (ℤ.pos n)) n
      (λ e. itoa-IsVlanId n (ground (arith, e)) (ground (arith, e)))
vlan_of-IsVlanId (some (ℤ.negsuc n)) = one-IsVlanId

-- Whatever the option holds, the VLAN id that goes into port names, addresses and pools is a number of 1
-- to 4094 in the digits that `strconv.Itoa` writes, and is read back as that number.
pub valid_vlan_id-IsVlanId : (s : Text) → IsVlanId (valid_vlan_id s)
unfolding valid_vlan_id
valid_vlan_id-IsVlanId s = vlan_of-IsVlanId (atoi s)
