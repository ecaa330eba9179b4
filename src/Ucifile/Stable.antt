-- ===== src/Ucifile/Stable.antt =====
-- Writing what was read back: `(*File).Text` of internal/ucifile/ucifile.go does not change a file
-- that it has once written.
use stageneth.Prelude.{
  ℕ, Bool, ◌||◌, List, [], ◌∷◌, Text, is_empty, any, ◌≡◌, refl, sym, ◌∙◌, arith, is_space,
  is_control, ◌==◌, Bool-cases, inl, inr,
}
use stageneth.Ucifile.{Item, Section, File}
use stageneth.Ucifile.Reader.{parse}
use stageneth.Ucifile.Printer.{
  unsafe_ident, clean_char, clean, quote, ident_token, header_line, item_line, items_text, text,
}
use stageneth.Ucifile.Scanning.{clean-bare}
use stageneth.Ucifile.RoundTrip.{
  clean_item, clean_items, clean_section, clean_file, clean-ne-nil, parse-text,
}

clean_char_idem : (c : ℕ) → clean_char (clean_char c) ≡ clean_char c
unfolding clean_char
clean_char_idem c = ground arith

pub clean_idem : (s : Text) → clean (clean s) ≡ clean s
clean_idem [] = refl
clean_idem (c ∷ s) = cc (clean_idem s, clean_char_idem c)

abbrev is_unsafe : ℕ → Bool
is_unsafe c = (c == b'\'' || c == b'"') || is_space c || is_control c

unsafe_ident-cons : (c : ℕ) (s : Text) → unsafe_ident (c ∷ s) ≡ (is_unsafe c || unsafe_ident s)
unfolding unsafe_ident any
unsafe_ident-cons c s = ground arith

is_unsafe-clean_char : (c : ℕ) → is_unsafe (clean_char c) ≡ is_unsafe c
unfolding is_space is_control clean_char
is_unsafe-clean_char c = ground arith

unsafe_ident-clean : (s : Text) → unsafe_ident (clean s) ≡ unsafe_ident s
unsafe_ident-clean [] = refl
unsafe_ident-clean (c ∷ s) =
    unsafe_ident-cons (clean_char c) (clean s)
    ∙ cc (is_unsafe-clean_char c, unsafe_ident-clean s)
    ∙ sym (unsafe_ident-cons c s)

quote-clean : (s : Text) → quote (clean s) ≡ quote s
unfolding quote
quote-clean s = rw clean_idem

ident_token-clean : (s : Text) → ident_token (clean s) ≡ ident_token s
unfolding ident_token
ident_token-clean s = elim (Bool-cases (unsafe_ident s)) [
  | inl h ↦ rw (unsafe_ident-clean, h) (quote-clean s)
  | inr h ↦ rw (unsafe_ident-clean, h) (clean-bare s h)
]

item_line-clean : (o : Item) → item_line (clean_item o) ≡ item_line o
unfolding item_line
item_line-clean o = rw (ident_token-clean, quote-clean)

items_text-clean : (os : List Item) → items_text (clean_items os) ≡ items_text os
unfolding items_text clean_items
items_text-clean [] = refl
items_text-clean (o ∷ os) = elim (Bool-cases (is_empty o.name)) [
  | inl e ↦ rw e (items_text-clean os)
  | inr e ↦ rw (e, clean-ne-nil, e) (cc (item_line-clean o, items_text-clean os))
]

header_line-clean : (s : Section) → header_line (clean_section s) ≡ header_line s
unfolding header_line
header_line-clean s = rw (ident_token-clean, quote-clean, clean-ne-nil)

pub text-clean_file : (f : File) → text (clean_file f) ≡ text f
unfolding text clean_file
text-clean_file [] = refl
text-clean_file (s ∷ f) = elim (Bool-cases (is_empty s.type)) [
  | inl e ↦ rw e (text-clean_file f)
  | inr e ↦
      rw (e, clean-ne-nil, e)
        (cc (header_line-clean s, items_text-clean s.options, text-clean_file f))
]

-- Reading a file that was written and writing it again gives the same text.
pub text-parse-text : (f : File) → text (parse (text f)) ≡ text f
text-parse-text f = rw parse-text (text-clean_file f)
