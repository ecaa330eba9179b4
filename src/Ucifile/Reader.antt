-- ===== src/Ucifile/Reader.antt =====
-- `splitArgs` and `Parse` of internal/ucifile/ucifile.go.
use stageneth.Prelude.{
  ℕ, Bool, true, false, not, ◌||◌, List, [], ◌∷◌, ◌++◌, Text, lit, equal, is_empty, has_prefix,
  trim_space, if◌then◌else◌, ◌==◌,
}
use stageneth.Ucifile.{Item, File}

-- The local variables of `splitArgs`; `quote` is 0 outside quotes.
pub record Scan : Type 0 where
  pub out : List Text
  pub buf : Text
  pub quote : ℕ
  pub in_tok : Bool

abbrev pub scan_start : Scan
scan_start = record { out = []; buf = []; quote = 0; in_tok = false }

-- the closure `flush`
unfoldable pub flush : Scan → Scan
flush t = if t.in_tok then record t { out = t.out ++ t.buf ∷ []; buf = []; in_tok = false } else t

-- the body of the loop
unfoldable pub scan_step : Scan → ℕ → Scan
unfolding flush
scan_step t c =
    if not (t.quote == 0)
    then (if c == t.quote then record t { quote = 0 } else record t { buf = t.buf ++ c ∷ [] })
    else if c == b'\'' || c == b'"'
    then record t { in_tok = true; quote = c }
    else if c == b' ' || c == b'\t'
    then flush t
    else record t { in_tok = true; buf = t.buf ++ c ∷ [] }

unfoldable pub scan : Scan → Text → Scan
unfolding scan_step
scan t [] = t
scan t (c ∷ s) = scan (scan_step t c) s

unfoldable pub split_args : Text → List Text
unfolding scan flush
split_args s = (flush (scan scan_start s)).out

-- `strings.Split(data, "\n")`
unfoldable pub cons_line : ℕ → List Text → List Text
cons_line c [] = (c ∷ []) ∷ []
cons_line c (l ∷ ls) = (c ∷ l) ∷ ls

unfoldable pub split_lines : Text → List Text
unfolding cons_line
split_lines [] = [] ∷ []
split_lines (c ∷ s) = let r = split_lines s in if c == b'\n' then [] ∷ r else cons_line c r

-- `cur.Options = append(cur.Options, o)`. `cur` is the last section once there is one, and nil
-- before.
unfoldable pub add_item : Item → File → File
add_item o [] = []
add_item o (s ∷ []) = record s { options = s.options ++ o ∷ [] } ∷ []
add_item o (s ∷ t ∷ f) = s ∷ add_item o (t ∷ f)

-- `case "config"`, on the fields behind the keyword
unfoldable pub open_section : File → List Text → File
open_section f [] = f
open_section f (type ∷ []) =
    if is_empty type then f else f ++ record { type = type; name = []; options = [] } ∷ []
open_section f (type ∷ name ∷ _) =
    if is_empty type then f else f ++ record { type = type; name = name; options = [] } ∷ []

-- `case "option"` and `case "list"`; the flag is `List`
unfoldable pub read_item : Bool → File → List Text → File
unfolding add_item
read_item list f (name ∷ value ∷ _) =
    if is_empty name then f else add_item (record { name = name; value = value; list = list }) f
read_item list f _ = f

-- the switch on `fields[0]`
unfoldable pub read_fields : File → List Text → File
unfolding open_section read_item
read_fields f [] = f
read_fields f (keyword ∷ args) =
    if equal keyword (lit "config")
    then open_section f args
    else if equal keyword (lit "option")
    then read_item false f args
    else if equal keyword (lit "list")
    then read_item true f args
    else f

-- the body of the loop over the lines
unfoldable pub read_line : File → Text → File
unfolding split_args read_fields
read_line f raw =
    let line = trim_space raw in
    if is_empty line || has_prefix line (lit "#") then f else read_fields f (split_args line)

unfoldable pub read_lines : File → List Text → File
unfolding read_line
read_lines f [] = f
read_lines f (l ∷ ls) = read_lines (read_line f l) ls

-- `Parse`
unfoldable pub parse : Text → File
unfolding read_lines split_lines
parse text = read_lines [] (split_lines text)
