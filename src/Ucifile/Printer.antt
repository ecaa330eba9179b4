-- ===== src/Ucifile/Printer.antt =====
-- `unsafeIdent`, `quote` and `(*File).Text` of internal/ucifile/ucifile.go.
use stageneth.Prelude.{
  ℕ, Bool, not, ◌||◌, List, [], ◌∷◌, ◌++◌, Text, lit, is_empty, any, map, is_space, is_control,
  if◌then◌else◌, ◌==◌,
}
use stageneth.Ucifile.{Item, Section, File}

unfoldable pub unsafe_ident : Text → Bool
unsafe_ident s = any (λ c. c == b'\'' || c == b'"') s || any is_space s || any is_control s

-- the function that `quote` maps over the value
unfoldable pub clean_char : ℕ → ℕ
clean_char c = if c == b'\n' || c == b'\r' then b' ' else c

abbrev pub clean : Text → Text
clean v = map clean_char v

-- `strings.ReplaceAll(v, "'", …)`
unfoldable pub escape : Text → Text
escape [] = []
escape (c ∷ v) = if c == b'\'' then b'\'' ∷ b'"' ∷ b'\'' ∷ b'"' ∷ b'\'' ∷ escape v else c ∷ escape v

unfoldable pub quote : Text → Text
unfolding clean_char escape
quote v = b'\'' ∷ (escape (clean v) ++ b'\'' ∷ [])

-- a type or an option name, quoted where it would not survive bare
unfoldable pub ident_token : Text → Text
unfolding unsafe_ident quote
ident_token s = if unsafe_ident s then quote s else s

unfoldable pub header_line : Section → Text
unfolding ident_token quote
header_line s =
    lit "config "
    ++ (if not (is_empty s.name)
        then ident_token s.type ++ (b' ' ∷ quote s.name)
        else ident_token s.type)

unfoldable pub item_line : Item → Text
unfolding ident_token quote
item_line o =
    b'\t'
    ∷ ((if o.list then lit "list" else lit "option")
        ++ (b' ' ∷ (ident_token o.name ++ (b' ' ∷ quote o.value))))

unfoldable pub items_text : List Item → Text
unfolding item_line
items_text [] = []
items_text (o ∷ os) =
    let rest = items_text os in if is_empty o.name then rest else item_line o ++ (b'\n' ∷ rest)

unfoldable pub text : File → Text
unfolding header_line items_text
text [] = []
text (s ∷ f) =
    let rest = text f in
    if is_empty s.type
    then rest
    else header_line s ++ (b'\n' ∷ (items_text s.options ++ (b'\n' ∷ rest)))
