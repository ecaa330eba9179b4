-- ===== src/Ucifile/RoundTrip.antt =====
-- Reading back what `(*File).Text` of internal/ucifile/ucifile.go wrote.
use stageneth.Prelude.{
  Bool, true, false, List, [], ◌∷◌, ◌++◌, Text, lit, is_empty, ◌≡◌, refl, sym, ◌∙◌, ap, arith,
  append-nil, append_assoc, if◌then◌else◌, Bool-cases, inl, inr, has_prefix, trim_space, equal,
  ◌||◌,
}
use stageneth.Ucifile.{Item, Section, File}
use stageneth.Ucifile.Reader.{
  scan, flush, split_args, split_lines, add_item, read_fields, read_line, read_lines, parse,
}
use stageneth.Ucifile.Scanning.{between, scan-quote, scan-ident_token}
use stageneth.Ucifile.Lines.{
  OneLine, item_body, trim-header_line, trim-item_line, header_line-OneLine, item_line-OneLine,
  split_lines-append,
}
use stageneth.Ucifile.Printer.{clean, quote, ident_token, header_line, item_line, items_text, text}

-- What survives a write: line breaks become blanks, and what has no name (an option) or no type (a
-- section) is dropped.
abbrev pub clean_item : Item → Item
clean_item o = record { name = clean o.name; value = clean o.value; list = o.list }

unfoldable pub clean_items : List Item → List Item
clean_items [] = []
clean_items (o ∷ os) = if is_empty o.name then clean_items os else clean_item o ∷ clean_items os

abbrev pub clean_section : Section → Section
clean_section s = record {
  type = clean s.type;
  name = clean s.name;
  options = clean_items s.options;
}

unfoldable pub clean_file : File → File
clean_file [] = []
clean_file (s ∷ f) = if is_empty s.type then clean_file f else clean_section s ∷ clean_file f

split_quote :
    (o : List Text) (v : Text) → (flush (scan (between o) (quote v))).out ≡ o ++ clean v ∷ []
unfolding flush
split_quote o v =
    ap (λ x. (flush (scan (between o) x)).out) (sym (append-nil (quote v)))
    ∙ ap (λ t. (flush t).out) (scan-quote o v [])
    ∙ unfold scan in refl

split_ident :
    (o : List Text) (s : Text)
    → is_empty s ≡ false
    → (flush (scan (between o) (ident_token s))).out ≡ o ++ clean s ∷ []
unfolding flush
split_ident o s h =
    ap (λ x. (flush (scan (between o) x)).out) (sym (append-nil (ident_token s)))
    ∙ ap (λ t. (flush t).out) (scan-ident_token o s [] h)
    ∙ unfold scan in refl

split_ident_quote :
    (o : List Text) (s v : Text)
    → is_empty s ≡ false
    → (flush (scan (between o) (ident_token s ++ (b' ' ∷ quote v)))).out
      ≡ (o ++ clean s ∷ []) ++ clean v ∷ []
split_ident_quote o s v h =
    ap (λ t. (flush t).out) (scan-ident_token o s (b' ' ∷ quote v) h)
    ∙ unfold scan in split_quote (o ++ clean s ∷ []) v

fields-header_line :
    (s : Section)
    → is_empty s.type ≡ false
    → split_args (header_line s)
      ≡ lit "config" ∷ clean s.type ∷ (if is_empty s.name then [] else clean s.name ∷ [])
unfolding split_args header_line
fields-header_line s h = elim (Bool-cases (is_empty s.name)) [
  | inl e ↦ rw e (split_ident (lit "config" ∷ []) s.type h)
  | inr e ↦ rw e (split_ident_quote (lit "config" ∷ []) s.type s.name h)
]

fields-item_body :
    (o : Item)
    → is_empty o.name ≡ false
    → split_args (item_body o)
      ≡ (if o.list then lit "list" else lit "option") ∷ clean o.name ∷ clean o.value ∷ []
unfolding split_args
fields-item_body o h = elim (Bool-cases o.list) [
  | inl e ↦ rw e (unfold scan in split_ident_quote (lit "list" ∷ []) o.name o.value h)
  | inr e ↦ rw e (unfold scan in split_ident_quote (lit "option" ∷ []) o.name o.value h)
]

pub clean-ne-nil : (s : Text) → is_empty (clean s) ≡ is_empty s
clean-ne-nil [] = refl
clean-ne-nil (c ∷ s) = refl

add_item-append :
    (o : Item) (f : File) (s : Section)
    → add_item o (f ++ s ∷ []) ≡ f ++ record s { options = s.options ++ o ∷ [] } ∷ []
unfolding add_item
add_item-append o [] s = refl
add_item-append o (x ∷ []) s = refl
add_item-append o (x ∷ y ∷ f) s = ap (◌∷◌ x) (add_item-append o (y ∷ f) s)

-- A line that starts a directive is read by its fields.
read_line-fields :
    (f : File) (raw line : Text) (fields : List Text)
    → trim_space raw ≡ line
    → (is_empty line || has_prefix line (lit "#")) ≡ false
    → split_args line ≡ fields
    → read_line f raw ≡ read_fields f fields
unfolding read_line
read_line-fields f raw line fields p e r = rw (p, e) (ap (read_fields f) r)

read-open :
    (f : File) (type name : Text)
    → is_empty type ≡ false
    → read_fields f (lit "config" ∷ clean type ∷ (if is_empty name then [] else clean name ∷ []))
      ≡ f ++ record { type = clean type; name = clean name; options = [] } ∷ []
unfolding read_fields equal
read-open f type [] h = rw (clean-ne-nil, h)
read-open f type (c ∷ name) h = rw (clean-ne-nil, h)

read-header_line :
    (f : File) (s : Section)
    → is_empty s.type ≡ false
    → read_line f (header_line s)
      ≡ f ++ record { type = clean s.type; name = clean s.name; options = [] } ∷ []
read-header_line f s h =
    read_line-fields f (header_line s) (header_line s) _ (trim-header_line s h)
      (unfold header_line has_prefix in refl) (fields-header_line s h)
    ∙ read-open f s.type s.name h

read-item :
    (f : File) (o : Item) (list : Bool)
    → is_empty o.name ≡ false
    → read_fields f
        ((if list then lit "list" else lit "option") ∷ clean o.name ∷ clean o.value ∷ [])
      ≡ add_item (record { name = clean o.name; value = clean o.value; list = list }) f
unfolding read_fields equal
read-item f o true h = rw (clean-ne-nil, h)
read-item f o false h = rw (clean-ne-nil, h)

item_body-start :
    (o : Item) → (is_empty (item_body o) || has_prefix (item_body o) (lit "#")) ≡ false
unfolding has_prefix
item_body-start o = ground arith

read-item_line :
    (f : File) (s : Section) (o : Item)
    → is_empty o.name ≡ false
    → read_line (f ++ s ∷ []) (item_line o)
      ≡ f ++ record s { options = s.options ++ clean_item o ∷ [] } ∷ []
read-item_line f s o h =
    read_line-fields (f ++ s ∷ []) (item_line o) (item_body o) _ (trim-item_line o)
      (item_body-start o) (fields-item_body o h)
    ∙ read-item (f ++ s ∷ []) o o.list h
    ∙ add_item-append (clean_item o) f s

read-next :
    (f : File) (l rest : Text)
    → OneLine l
    → read_lines f (split_lines (l ++ (b'\n' ∷ rest)))
      ≡ read_lines (read_line f l) (split_lines rest)
unfolding read_lines
read-next f l rest h = ap (read_lines f) (split_lines-append l rest h)

read-blank :
    (f : File) (rest : Text)
    → read_lines f (split_lines (b'\n' ∷ rest)) ≡ read_lines f (split_lines rest)
unfolding read_lines split_lines read_line trim_space has_prefix
read-blank f rest = refl

read-items :
    (f : File) (s : Section) (os : List Item) (rest : Text)
    → read_lines (f ++ s ∷ []) (split_lines (items_text os ++ rest))
      ≡ read_lines (f ++ record s { options = s.options ++ clean_items os } ∷ []) (split_lines rest)
unfolding items_text clean_items
read-items f s [] rest = rw append-nil
read-items f s (o ∷ os) rest = elim (Bool-cases (is_empty o.name)) [
  | inl e ↦ rw e (read-items f s os rest)
  | inr e ↦ rw e (
      ap (λ x. read_lines (f ++ s ∷ []) (split_lines x))
        (append_assoc (item_line o) (b'\n' ∷ items_text os) rest)
      ∙ read-next (f ++ s ∷ []) (item_line o) (items_text os ++ rest) (item_line-OneLine o)
      ∙ ap (λ g. read_lines g (split_lines (items_text os ++ rest))) (read-item_line f s o e)
      ∙ read-items f (record s { options = s.options ++ clean_item o ∷ [] }) os rest
      ∙ ap (λ x. read_lines (f ++ record s { options = x } ∷ []) (split_lines rest))
          (append_assoc s.options (clean_item o ∷ []) (clean_items os)))
]

read-text : (f g : File) → read_lines f (split_lines (text g)) ≡ f ++ clean_file g
unfolding text clean_file
read-text f [] =
    rw append-nil (unfold split_lines read_lines read_line trim_space has_prefix in refl)
read-text f (s ∷ g) = elim (Bool-cases (is_empty s.type)) [
  | inl e ↦ rw e (read-text f g)
  | inr e ↦ rw e (
      read-next f (header_line s) (items_text s.options ++ (b'\n' ∷ text g)) (header_line-OneLine s)
      ∙ ap (λ h. read_lines h (split_lines (items_text s.options ++ (b'\n' ∷ text g))))
          (read-header_line f s e)
      ∙ read-items f (record { type = clean s.type; name = clean s.name; options = [] }) s.options
          (b'\n' ∷ text g)
      ∙ read-blank (f ++ clean_section s ∷ []) (text g)
      ∙ read-text (f ++ clean_section s ∷ []) g
      ∙ append_assoc f (clean_section s ∷ []) (clean_file g))
]

-- Whatever the sections and options hold, reading the file that was written gives the same sections
-- and options with each line break replaced by a space, less those that `Text` skips, the sections
-- without a type and the options without a name: no value can end its line and bring in a directive.
pub parse-text : (f : File) → parse (text f) ≡ clean_file f
unfolding parse
parse-text f = read-text [] f
