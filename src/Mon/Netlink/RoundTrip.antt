-- ===== src/Mon/Netlink/RoundTrip.antt =====
-- Attributes in the format of rtnetlink, as internal/mon/netlink.go reads them.
use stageneth.Prelude.{
  ℕ, zero, suc, ◌+◌, ◌-◌, ◌≤◌, ◌<◌, false, ◌||◌, List, [], ◌∷◌, ◌++◌, ltb, length, take, drop,
  replicate, All, length-append, append_assoc, ◌≡◌, refl, sym, ◌∙◌, ap, arith,
}
use stageneth.Mon.Netlink.{
  ByteOrder, RtAttr, aligned, attr_len, attr_at, attrs_round, netlink_attrs,
}
use stageneth.Mon.Netlink.Attrs.{netlink_attrs-round}

take-append : {A : Type 0} (xs ys : List A) (n : ℕ) → n ≡ length xs → take n (xs ++ ys) ≡ xs
take-append [] ys zero h = refl
take-append [] ys (suc n) h = let no : ⊥ = omega (arith, h) in elim no [ ]
take-append (x ∷ xs) ys zero h = let no : ⊥ = omega (arith, h) in elim no [ ]
take-append (x ∷ xs) ys (suc n) h = ap (λ l. x ∷ l) (take-append xs ys n (omega (arith, h)))

drop-append : {A : Type 0} (xs ys : List A) (n : ℕ) → n ≡ length xs → drop n (xs ++ ys) ≡ ys
drop-append [] ys zero h = refl
drop-append [] ys (suc n) h = let no : ⊥ = omega (arith, h) in elim no [ ]
drop-append (x ∷ xs) ys zero h = let no : ⊥ = omega (arith, h) in elim no [ ]
drop-append (x ∷ xs) ys (suc n) h = drop-append xs ys n (omega (arith, h))

length-replicate : (n : ℕ) (c : ℕ) → length (replicate n c) ≡ n
length-replicate zero c = refl
length-replicate (suc n) c = omega (arith, length-replicate n c)

-- the length field of an attribute
abbrev pub full_len : RtAttr → ℕ
full_len a = 4 + length a.payload

-- the type and the length have sixteen bits
abbrev pub IsFit : RtAttr → Type 0
IsFit a = (a.typ < 65536) × (full_len a < 65536)

module _ (order : ByteOrder) where
  -- `struct rtattr` with its payload, padded
  unfoldable pub encode_attr : RtAttr → List ℕ
  encode_attr a =
      order.first_byte (full_len a)
      ∷ order.second_byte (full_len a)
      ∷ order.first_byte a.typ
      ∷ order.second_byte a.typ
      ∷ (a.payload ++ replicate (aligned (full_len a) - full_len a) 0)

  unfoldable pub encode_attrs : List RtAttr → List ℕ
  unfolding encode_attr
  encode_attrs [] = []
  encode_attrs (a ∷ attrs) = encode_attr a ++ encode_attrs attrs

  length-encode_attr : (a : RtAttr) → length (encode_attr a) ≡ aligned (full_len a)
  unfolding encode_attr
  length-encode_attr a =
      let pad = aligned (full_len a) - full_len a in
      omega (arith, length-append a.payload (replicate pad 0), length-replicate pad 0)

  attr_len-encode_attr :
      (a : RtAttr) (rest : List ℕ) → IsFit a → attr_len order (encode_attr a ++ rest) ≡ full_len a
  unfolding encode_attr
  attr_len-encode_attr a rest fit = order.read_back (full_len a) fit.1

  attr_at-encode_attr :
      (a : RtAttr) (rest : List ℕ) → IsFit a → attr_at order (encode_attr a ++ rest) ≡ a
  unfolding encode_attr
  attr_at-encode_attr a rest fit =
      let pad = replicate (aligned (full_len a) - full_len a) 0 in
      let typ = order.read_back a.typ fit.0 in
      let len = order.read_back (full_len a) fit.1 in
      let payload : take (full_len a - 4) ((a.payload ++ pad) ++ rest) ≡ a.payload =
        ap (take (full_len a - 4)) (append_assoc a.payload pad rest)
        ∙ take-append a.payload (pad ++ rest) (full_len a - 4) (omega arith) in
      rw (typ, len, payload) refl

  round-encode_attr :
      (b : List ℕ) (a : RtAttr) (rest : List RtAttr)
      → attr_len order b ≡ full_len a
      → attr_at order b ≡ a
      → aligned (full_len a) ≤ length b
      → attrs_round order b rest ≡ a ∷ rest
  round-encode_attr b a rest len at_b enough =
      let long : ltb (length b) 4 ≡ false = ground (arith, enough) in
      let good : (ltb (attr_len order b) 4 || ltb (length b) (attr_len order b)) ≡ false =
        ground (arith, len, enough) in
      let more : ltb (length b) (aligned (attr_len order b)) ≡ false =
        ground (arith, len, enough) in
      rw (long, good, more, at_b) refl

  -- Attributes that were written in the format of rtnetlink, each padded to four bytes, are read back
  -- as they were, in their order, if their types and lengths have sixteen bits.
  pub netlink_attrs-encode_attrs :
      (attrs : List RtAttr) → All IsFit attrs → netlink_attrs order (encode_attrs attrs) ≡ attrs
  unfolding encode_attrs
  netlink_attrs-encode_attrs [] fit = unfold netlink_attrs stageneth.Mon.Netlink.attrs_loop in refl
  netlink_attrs-encode_attrs (a ∷ attrs) fit =
      let rest = encode_attrs attrs in
      let b = encode_attr a ++ rest in
      let len = attr_len-encode_attr a rest fit.0 in
      let shorter : drop (aligned (attr_len order b)) b ≡ rest =
        drop-append (encode_attr a) rest (aligned (attr_len order b))
          (ap aligned len ∙ sym (length-encode_attr a)) in
      let enough : aligned (full_len a) ≤ length b =
        omega (arith, length-append (encode_attr a) rest, length-encode_attr a) in
      (netlink_attrs-round order b 0).0
      ∙ ap (λ r. attrs_round order b (netlink_attrs order r)) shorter
      ∙ ap (attrs_round order b) (netlink_attrs-encode_attrs attrs fit.1)
      ∙ round-encode_attr b a attrs len (attr_at-encode_attr a rest fit.0) enough
