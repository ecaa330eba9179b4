-- ===== src/Mon/Netlink.antt =====
-- internal/mon/netlink.go: the attributes of a netlink dump and the multicast entries in them. The
-- dump itself, the names of the interfaces and the text of an address are arguments, and so is the byte
-- order of the machine.
pub mod Attrs
pub mod RoundTrip
use stageneth.Prelude.{
  ℕ, zero, suc, ◌+◌, ◌-◌, ◌*◌, ◌/◌, ◌<◌, Bool, not, ◌&&◌, ◌||◌, List, [], ◌∷◌, ◌++◌, Option, none,
  some, Text, lit, if◌then◌else◌, ltb, ◌==◌, length, take, drop, itoa, Dict, lookup, insert, ◌≡◌,
}
use stageneth.Mon.Ptp.{byte_at, uint16_at}

-- `binary.NativeEndian`: what two bytes and four bytes read as, and the two bytes of a number
pub record ByteOrder : Type 0 where
  pub u16 : ℕ → ℕ → ℕ
  pub u32 : ℕ → ℕ → ℕ → ℕ → ℕ
  pub first_byte : ℕ → ℕ
  pub second_byte : ℕ → ℕ
  pub read_back : (v : ℕ) → v < 65536 → u16 (first_byte v) (second_byte v) ≡ v

-- the constants of the file
abbrev pub rtm_new_mdb : ℕ
rtm_new_mdb = 84

abbrev pub mdba_mdb : ℕ
mdba_mdb = 1

abbrev pub mdba_mdb_entry : ℕ
mdba_mdb_entry = 1

abbrev pub mdba_mdb_entry_info : ℕ
mdba_mdb_entry_info = 1

abbrev pub br_port_msg_len : ℕ
br_port_msg_len = 8

abbrev pub br_mdb_entry_len : ℕ
br_mdb_entry_len = 26

-- `rtAttr`
pub record RtAttr : Type 0 where
  pub typ : ℕ
  pub payload : List ℕ

-- the length rounded up to `rtAttrAlign`
abbrev pub aligned : ℕ → ℕ
aligned l = (l + 3) / 4 * 4

-- What the code reads of an `InterfaceByIndex`, and `net.IP.String`.
pub record Host : Type 0 where
  pub interface_by_index : ℕ → Option Text
  pub ip_string : List ℕ → Text

-- the map `ifByIndex`
abbrev pub Names : Type 0
Names = List (ℕ × Text)

abbrev pub name_at : ℕ → Names → Option Text
name_at idx [] = none
name_at idx ((i, name) ∷ cache) = if i == idx then some name else name_at idx cache

abbrev or_index : ℕ → Option Text → Text
or_index idx none = lit "if" ++ itoa idx
or_index idx (some name) = name

abbrev cached_or : Host → ℕ → Names → Option Text → Names × Text
cached_or host idx cache (some name) = (cache, name)
cached_or host idx cache none =
    let name = or_index idx (host.interface_by_index idx) in ((idx, name) ∷ cache, name)

-- `ifaceName`
unfoldable pub iface_name : Host → ℕ → Names → Names × Text
iface_name host idx cache = cached_or host idx cache (name_at idx cache)

-- an entry of the reply: port, group, and vid where it is not zero
pub record MdbEntry : Type 0 where
  pub port : Text
  pub group : Text
  pub vid : Option ℕ

abbrev group_of : Host → List ℕ → Option Text
group_of host b =
    if uint16_at 24 b == 0x0800
    then some (host.ip_string (take 4 (drop 8 b)))
    else if uint16_at 24 b == 0x86dd
    then some (host.ip_string (take 16 (drop 8 b)))
    else none

abbrev vid_of : ℕ → Option ℕ
vid_of vid = if vid == 0 then none else some vid

abbrev entry_of : Names × Text → Text → ℕ → Names × Option MdbEntry
entry_of (cache, port) group vid =
    (cache, some (record { port = port; group = group; vid = vid_of vid }))

abbrev named_entry : ByteOrder → Host → List ℕ → Names → Option Text → Names × Option MdbEntry
named_entry order host b cache none = (cache, none)
named_entry order host b cache (some group) =
    let idx = order.u32 (byte_at 0 b) (byte_at 1 b) (byte_at 2 b) (byte_at 3 b) in
    entry_of (iface_name host idx cache) group (order.u16 (byte_at 6 b) (byte_at 7 b))

-- `parseMdbEntry`
unfoldable pub parse_mdb_entry : ByteOrder → Host → List ℕ → Names → Names × Option MdbEntry
unfolding iface_name
parse_mdb_entry order host b cache =
    if ltb (length b) br_mdb_entry_len
    then (cache, none)
    else named_entry order host b cache (group_of host b)

module _ (order : ByteOrder) where
  -- the length that an attribute gives
  abbrev pub attr_len : List ℕ → ℕ
  attr_len b = order.u16 (byte_at 0 b) (byte_at 1 b)

  abbrev pub attr_at : List ℕ → RtAttr
  attr_at b = record {
    typ = order.u16 (byte_at 2 b) (byte_at 3 b);
    payload = take (attr_len b - 4) (drop 4 b);
  }

  -- one round of the loop of `netlinkAttrs`, with what the rest gives
  abbrev pub attrs_round : List ℕ → List RtAttr → List RtAttr
  attrs_round b rest =
      if ltb (length b) 4
      then []
      else if ltb (attr_len b) 4 || ltb (length b) (attr_len b)
      then []
      else attr_at b ∷ (if ltb (length b) (aligned (attr_len b)) then [] else rest)

  -- the loop, on fuel
  unfoldable pub attrs_loop : ℕ → List ℕ → List RtAttr
  attrs_loop zero b = []
  attrs_loop (suc fuel) b = attrs_round b (attrs_loop fuel (drop (aligned (attr_len b)) b))

  -- `netlinkAttrs`; each round but the last takes four bytes or more, so the length is fuel enough
  unfoldable pub netlink_attrs : List ℕ → List RtAttr
  unfolding attrs_loop
  netlink_attrs b = attrs_loop (length b) b

  -- the payloads of the attributes of one type
  unfoldable pub nested : ℕ → List RtAttr → List (List ℕ)
  nested typ [] = []
  nested typ (a ∷ attrs) = if a.typ == typ then a.payload ∷ nested typ attrs else nested typ attrs

  abbrev add_entry : Option MdbEntry → Names × List MdbEntry → Names × List MdbEntry
  add_entry none r = r
  add_entry (some e) (cache, es) = (cache, e ∷ es)

  abbrev parse_infos : Host → List (List ℕ) → Names → Names × List MdbEntry
  parse_infos host [] cache = (cache, [])
  parse_infos host (b ∷ infos) cache =
      let (next, e) = parse_mdb_entry order host b cache in
      add_entry e (parse_infos host infos next)

  abbrev all_nested : ℕ → List (List ℕ) → List (List ℕ)
  all_nested typ [] = []
  all_nested typ (b ∷ bs) = nested typ (netlink_attrs b) ++ all_nested typ bs

  -- `parseMdbAttrs`: its three loops, one in another
  unfoldable pub parse_mdb_attrs : Host → List ℕ → Names → Names × List MdbEntry
  unfolding netlink_attrs nested parse_mdb_entry
  parse_mdb_attrs host b cache =
      parse_infos host
        (all_nested mdba_mdb_entry_info
          (all_nested mdba_mdb_entry (nested mdba_mdb (netlink_attrs b))))
        cache

  -- a message of the dump: its type and its data
  abbrev pub Message : Type 0
  Message = ℕ × List ℕ

  abbrev is_mdb : Message → Bool
  is_mdb (typ, b) = typ == rtm_new_mdb && not (ltb (length b) br_port_msg_len)

  abbrev pub Table : Type 0
  Table = Dict (List MdbEntry)

  abbrev entries_at : Text → Table → List MdbEntry
  entries_at br t = elim (lookup br t) [ none ↦ [] | some es ↦ es ]

  abbrev add_entries : Host → ℕ → Names × List MdbEntry → Table → Names × Table
  add_entries host idx (cache, []) t = (cache, t)
  add_entries host idx (cache, e ∷ es) t =
      let (next, br) = iface_name host idx cache in (next, insert br (entries_at br t ++ e ∷ es) t)

  abbrev read_message : Host → List ℕ → Names × Table → Names × Table
  read_message host b (cache, t) =
      let idx = order.u32 (byte_at 4 b) (byte_at 5 b) (byte_at 6 b) (byte_at 7 b) in
      add_entries host idx (parse_mdb_attrs host (drop br_port_msg_len b) cache) t

  -- the loop of `bridgeMdbNetlink` over the messages of the dump
  unfoldable pub bridge_mdb : Host → List Message → Names × Table → Names × Table
  unfolding parse_mdb_attrs iface_name
  bridge_mdb host [] r = r
  bridge_mdb host ((typ, b) ∷ msgs) r =
      bridge_mdb host msgs (if is_mdb (typ, b) then read_message host b r else r)
