-- ===== src/Mon/Netlink/Attrs.antt =====
-- The loop of `netlinkAttrs` in internal/mon/netlink.go ends, whatever the bytes are.
use stageneth.Prelude.{
  ℕ, zero, suc, ◌+◌, ◌≤◌, true, ◌||◌, List, [], ltb, length, drop, length-drop, ◌≡◌, refl, sym, ◌∙◌,
  arith, Bool-cases, inl, inr,
}
use stageneth.Mon.Netlink.{
  ByteOrder, RtAttr, aligned, attr_len, attrs_round, attrs_loop, netlink_attrs,
}

module _ (order : ByteOrder) where
  -- a round looks at the rest only behind an attribute of four bytes or more
  attrs_round-same :
      (b : List ℕ) (rest other : List RtAttr)
      → (4 ≤ length b → 4 ≤ attr_len order b → rest ≡ other)
      → attrs_round order b rest ≡ attrs_round order b other
  attrs_round-same b rest other same = elim (Bool-cases (ltb (length b) 4)) [
    | inl short ↦ rw short refl
    | inr long ↦ elim (Bool-cases (ltb (attr_len order b) 4 || ltb (length b) (attr_len order b))) [
      | inl bad ↦ rw (long, bad) refl
      | inr good ↦
          let eq : rest ≡ other = same (ground (arith, long)) (ground (arith, good)) in rw eq refl
    ]
  ]

  drop-shorter :
      (b : List ℕ) (fuel : ℕ)
      → length b ≤ suc fuel
      → 4 ≤ length b
      → 4 ≤ attr_len order b
      → length (drop (aligned (attr_len order b)) b) ≤ fuel
  drop-shorter b fuel h long l =
      omega (arith, h, long, l, length-drop (aligned (attr_len order b)) b)

  empty_loop : (fuel : ℕ) (b : List ℕ) → length b ≤ 0 → attrs_loop order fuel b ≡ []
  unfolding attrs_loop
  empty_loop zero b h = refl
  empty_loop (suc fuel) b h =
      let short : ltb (length b) 4 ≡ true = ground (arith, h) in rw short refl

  -- any two amounts of fuel that reach the length agree
  pub attrs_loop-enough :
      (fuel more : ℕ) (b : List ℕ)
      → length b ≤ fuel
      → length b ≤ more
      → attrs_loop order fuel b ≡ attrs_loop order more b
  unfolding attrs_loop
  attrs_loop-enough zero more b h k = sym (empty_loop more b h)
  attrs_loop-enough (suc fuel) zero b h k = empty_loop (suc fuel) b k
  attrs_loop-enough (suc fuel) (suc more) b h k =
      let rest = drop (aligned (attr_len order b)) b in
      attrs_round-same b (attrs_loop order fuel rest) (attrs_loop order more rest) λ long l.
        attrs_loop-enough fuel more rest (drop-shorter b fuel h long l)
          (drop-shorter b more k long l)

  -- The loop over the attributes ends on any bytes: with the length of the buffer as fuel it does what the
  -- loop without fuel does, one round and then the loop on what the round leaves, and more fuel gives the
  -- same attributes.
  pub netlink_attrs-round :
      (b : List ℕ) (more : ℕ)
      → (netlink_attrs order b
          ≡ attrs_round order b (netlink_attrs order (drop (aligned (attr_len order b)) b)))
        × (attrs_loop order (length b + more) b ≡ netlink_attrs order b)
  unfolding netlink_attrs attrs_loop
  netlink_attrs-round b more =
      let rest = drop (aligned (attr_len order b)) b in
      (
        attrs_loop-enough (length b) (suc (length b)) b (omega arith) (omega arith)
            ∙ attrs_round-same b (attrs_loop order (length b) rest)
                (attrs_loop order (length rest) rest)
                (λ long l.
                  attrs_loop-enough (length b) (length rest) rest
                    (omega (arith, length-drop (aligned (attr_len order b)) b)) (omega arith)),
        attrs_loop-enough (length b + more) (length b) b (omega arith) (omega arith),
      )
