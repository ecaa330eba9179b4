-- ===== src/Examples/Restored.antt =====
-- The restoration of internal/api/network.go with a simple `uci`, and the attributes of
-- internal/mon/netlink.go in little-endian order.
use stageneth.Prelude.{
  ℕ, ◌+◌, ◌*◌, ◌/◌, ◌%◌, Bool, true, false, List, [], ◌∷◌, Option, none, some, Text, lit, lookup,
  member, has_prefix, drop, All, if◌then◌else◌, ◌≡◌, ◌≢◌, refl, sym, ◌∙◌, arith, length,
}
use stageneth.Api.Backup.{Packages, Uci, restore_config}
use stageneth.Api.Backup.Laws.{IsRolled, names_of, restore_config-IsRolled}
use stageneth.Mon.Netlink.{
  ByteOrder, RtAttr, aligned, attr_len, attrs_round, attrs_loop, netlink_attrs,
}
use stageneth.Mon.Netlink.Attrs.{netlink_attrs-round}
use stageneth.Mon.Netlink.RoundTrip.{IsFit, encode_attrs, netlink_attrs-encode_attrs}

abbrev export_of : Option Text → Option Text
export_of none = none
export_of (some c) = some (b'=' ∷ c)

-- an import of a text without the mark of an export leaves nothing
abbrev import_of : Text → Option Text × Bool
import_of [] = (none, false)
import_of (d ∷ t) = if has_prefix (d ∷ t) (lit "=") then (some t, true) else (none, false)

abbrev simple_uci : Uci
simple_uci = record {
  export = λ pkg o. export_of o;
  import = λ pkg backup old. import_of backup;
  remove_fails = λ pkg. false;
}

abbrev packages : Packages
packages = (lit "network", lit "eth0") ∷ []

-- the import of this backup fails
abbrev backup : Text
backup = lit "package 'network'\nbroken\n"

restoration_failed : (restore_config simple_uci (some backup) packages).1.status ≡ 500
unfolding restore_config stageneth.Api.Backup.blocks_of has_prefix stageneth.Prelude.all
    stageneth.Prelude.member stageneth.Prelude.equal
restoration_failed = refl

not_restored : (restore_config simple_uci (some backup) packages).1.status ≢ 200
not_restored e =
    let same : ◌≡◌ {A = ℕ} 500 200 = sym restoration_failed ∙ e in
    let no : ⊥ = omega (arith, same) in elim no [ ]

restore_config-IsRolled_example :
    (member (lit "network") (names_of (some backup)) ≡ false
      → lookup (lit "network") (restore_config simple_uci (some backup) packages).0
        ≡ lookup (lit "network") packages)
    × IsRolled simple_uci
        (lit "network")
        (lookup (lit "network") packages)
        (lookup (lit "network") (restore_config simple_uci (some backup) packages).0)
restore_config-IsRolled_example =
    restore_config-IsRolled simple_uci (some backup) packages not_restored (lit "network")

abbrev order : ByteOrder
order = record {
  u16 = λ a b. a + b * 256;
  u32 = λ a b c d. a + b * 256 + c * 65536 + d * 16777216;
  first_byte = λ v. v % 256;
  second_byte = λ v. v / 256;
  read_back = λ v h. omega arith;
}

-- two attributes, one of them padded, and bytes that end in one
abbrev attrs : List RtAttr
attrs =
    record { typ = 1; payload = 7 ∷ 8 ∷ 9 ∷ [] }
    ∷ record { typ = 2; payload = 1 ∷ 2 ∷ 3 ∷ 4 ∷ [] }
    ∷ []

abbrev cut : List ℕ
cut = 6 ∷ 0 ∷ 1 ∷ 0 ∷ 5 ∷ 5 ∷ []

attrs-IsFit : All IsFit attrs
attrs-IsFit = ((omega arith, omega arith), ((omega arith, omega arith), tt))

netlink_attrs-round_example :
    (netlink_attrs order cut
      ≡ attrs_round order cut (netlink_attrs order (drop (aligned (attr_len order cut)) cut)))
    × (attrs_loop order (length cut + 10) cut ≡ netlink_attrs order cut)
netlink_attrs-round_example = netlink_attrs-round order cut 10

netlink_attrs-encode_attrs_example : netlink_attrs order (encode_attrs order attrs) ≡ attrs
netlink_attrs-encode_attrs_example = netlink_attrs-encode_attrs order attrs attrs-IsFit
