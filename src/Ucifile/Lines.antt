-- ===== src/Ucifile/Lines.antt =====
-- `strings.TrimSpace` and `strings.Split` on the lines that the printer emits.
use stageneth.Prelude.{
  ℕ, Bool, true, false, not, [], ◌∷◌, ◌++◌, Text, lit, is_empty, any, ◌≡◌, refl, ◌∙◌, arith,
  is_space, is_control, if◌then◌else◌, ◌==◌, Bool-cases, inl, inr, trim_space, trim_right,
  any-append,
}
use stageneth.Ucifile.{Item, Section}
use stageneth.Ucifile.Reader.{split_lines}
use stageneth.Ucifile.Scanning.{IsBare, IsBare-cons}
use stageneth.Ucifile.Printer.{
  unsafe_ident, clean_char, clean, escape, quote, ident_token, header_line, item_line,
}

-- The last character, if there is one, is not white space.
solid_end : Text → Bool
solid_end [] = true
solid_end (c ∷ []) = not (is_space c)
solid_end (c ∷ d ∷ s) = solid_end (d ∷ s)

trim_right-solid : (s : Text) → solid_end s ≡ true → trim_right s ≡ s
unfolding solid_end trim_right
trim_right-solid [] h = refl
trim_right-solid (c ∷ []) h = ground arith
trim_right-solid (c ∷ d ∷ s) h = ground (arith, trim_right-solid (d ∷ s) h)

solid_end-append : (xs : Text) (y : ℕ) (ys : Text) → solid_end (xs ++ (y ∷ ys)) ≡ solid_end (y ∷ ys)
unfolding solid_end
solid_end-append [] y ys = refl
solid_end-append (x ∷ []) y ys = refl
solid_end-append (x ∷ z ∷ xs) y ys = solid_end-append (z ∷ xs) y ys

quote-solid : (v : Text) → solid_end (quote v) ≡ true
unfolding quote
quote-solid v =
    solid_end-append (b'\'' ∷ escape (clean v)) b'\'' [] ∙ unfold solid_end is_space in refl

bare-solid : (s : Text) → IsBare s → solid_end s ≡ true
unfolding solid_end
bare-solid [] h = refl
bare-solid (c ∷ []) h = unfold unsafe_ident any in ground arith
bare-solid (c ∷ d ∷ s) h = bare-solid (d ∷ s) (IsBare-cons c (d ∷ s) h)

ident_token-solid : (s : Text) → solid_end (ident_token s) ≡ true
unfolding ident_token
ident_token-solid s = elim (Bool-cases (unsafe_ident s)) [
  | inl h ↦ rw h (quote-solid s)
  | inr h ↦ rw h (bare-solid s h)
]

-- The text has no line break.
abbrev pub OneLine : Text → Type 0
OneLine s = any (λ c. c == b'\n') s ≡ false

OneLine-append : (xs ys : Text) → OneLine xs → OneLine ys → OneLine (xs ++ ys)
OneLine-append xs ys p q = ground (arith, any-append (λ c. c == b'\n') xs ys)

clean_char-ne : (c : ℕ) → (clean_char c == b'\n') ≡ false
unfolding clean_char
clean_char-ne c = ground arith

escape-OneLine : (v : Text) → OneLine (escape (clean v))
unfolding escape any
escape-OneLine [] = refl
escape-OneLine (c ∷ v) = ground (arith, escape-OneLine v, clean_char-ne c)

quote-OneLine : (v : Text) → OneLine (quote v)
unfolding quote
quote-OneLine v =
    OneLine-append (b'\'' ∷ escape (clean v)) (b'\'' ∷ []) (unfold any in escape-OneLine v)
      (unfold any in refl)

head-bare : (c : ℕ) (s : Text) → IsBare (c ∷ s) → (c == b'\n') ≡ false
unfolding unsafe_ident any is_control
head-bare c s h = ground arith

bare-OneLine : (s : Text) → IsBare s → OneLine s
unfolding any
bare-OneLine [] h = refl
bare-OneLine (c ∷ s) h = ground (arith, bare-OneLine s (IsBare-cons c s h), head-bare c s h)

ident_token-OneLine : (s : Text) → OneLine (ident_token s)
unfolding ident_token
ident_token-OneLine s = elim (Bool-cases (unsafe_ident s)) [
  | inl h ↦ rw h (quote-OneLine s)
  | inr h ↦ rw h (bare-OneLine s h)
]

-- A line is split off at its line break.
pub split_lines-append :
    (l rest : Text) → OneLine l → split_lines (l ++ (b'\n' ∷ rest)) ≡ l ∷ split_lines rest
unfolding split_lines any
split_lines-append [] rest h = refl
split_lines-append (c ∷ l) rest h = ground (arith, split_lines-append l rest)

solid_end-tail : (xs ys : Text) → is_empty ys ≡ false → solid_end (xs ++ ys) ≡ solid_end ys
solid_end-tail xs [] h = cc
solid_end-tail xs (y ∷ ys) h = solid_end-append xs y ys

-- White space at neither end: nothing is trimmed.
trim_line :
    (c : ℕ) (xs ys : Text)
    → is_space c ≡ false
    → is_empty ys ≡ false
    → solid_end ys ≡ true
    → trim_space (c ∷ (xs ++ ys)) ≡ c ∷ (xs ++ ys)
unfolding trim_space
trim_line c xs ys p e q =
    rw p (trim_right-solid (c ∷ (xs ++ ys)) (solid_end-tail (c ∷ xs) ys e ∙ q))

trim_tab :
    (c : ℕ) (xs ys : Text)
    → is_space c ≡ false
    → is_empty ys ≡ false
    → solid_end ys ≡ true
    → trim_space (b'\t' ∷ c ∷ (xs ++ ys)) ≡ c ∷ (xs ++ ys)
unfolding trim_space
trim_tab c xs ys p e q = unfold is_space in trim_line c xs ys p e q

quote-tail-solid : (xs v : Text) → solid_end (xs ++ (b' ' ∷ quote v)) ≡ true
quote-tail-solid xs v =
    solid_end-append xs b' ' (quote v)
    ∙ solid_end-tail (b' ' ∷ []) (quote v) (unfold quote in refl)
    ∙ quote-solid v

append-ne-nil : (xs : Text) (y : ℕ) (ys : Text) → is_empty (xs ++ (y ∷ ys)) ≡ false
append-ne-nil [] y ys = refl
append-ne-nil (x ∷ xs) y ys = refl

pub ident_token-ne-nil : (s : Text) → is_empty s ≡ false → is_empty (ident_token s) ≡ false
unfolding ident_token
ident_token-ne-nil s h = ground arith

pub trim-header_line :
    (s : Section) → is_empty s.type ≡ false → trim_space (header_line s) ≡ header_line s
unfolding header_line
trim-header_line s h = elim (Bool-cases (is_empty s.name)) [
  | inl e ↦ rw e (
      trim_line b'c' (lit "onfig ") (ident_token s.type) (unfold is_space in refl)
        (ident_token-ne-nil s.type h) (ident_token-solid s.type))
  | inr e ↦ rw e (
      trim_line b'c' (lit "onfig ") (ident_token s.type ++ (b' ' ∷ quote s.name))
        (unfold is_space in refl) (append-ne-nil (ident_token s.type) b' ' _)
        (quote-tail-solid (ident_token s.type) s.name))
]

-- the line without its tab
abbrev pub item_body : Item → Text
item_body o =
    (if o.list then lit "list" else lit "option")
    ++ (b' ' ∷ (ident_token o.name ++ (b' ' ∷ quote o.value)))

pub trim-item_line : (o : Item) → trim_space (item_line o) ≡ item_body o
unfolding item_line
trim-item_line o = elim (Bool-cases o.list) [
  | inl e ↦ rw e (
      trim_tab b'l' (lit "ist ") (ident_token o.name ++ (b' ' ∷ quote o.value))
        (unfold is_space in refl) (append-ne-nil (ident_token o.name) b' ' _)
        (quote-tail-solid (ident_token o.name) o.value))
  | inr e ↦ rw e (
      trim_tab b'o' (lit "ption ") (ident_token o.name ++ (b' ' ∷ quote o.value))
        (unfold is_space in refl) (append-ne-nil (ident_token o.name) b' ' _)
        (quote-tail-solid (ident_token o.name) o.value))
]

pub header_line-OneLine : (s : Section) → OneLine (header_line s)
unfolding header_line
header_line-OneLine s =
    OneLine-append (lit "config ") _ (unfold any in refl) (elim (Bool-cases (is_empty s.name)) [
      | inl e ↦ rw e (ident_token-OneLine s.type)
      | inr e ↦ rw e (
          OneLine-append (ident_token s.type) (b' ' ∷ quote s.name) (ident_token-OneLine s.type)
            (unfold any in quote-OneLine s.name))
    ])

keyword-OneLine : (b : Bool) → OneLine (b'\t' ∷ (if b then lit "list" else lit "option"))
unfolding any
keyword-OneLine true = refl
keyword-OneLine false = refl

pub item_line-OneLine : (o : Item) → OneLine (item_line o)
unfolding item_line
item_line-OneLine o =
    OneLine-append (b'\t' ∷ (if o.list then lit "list" else lit "option")) _
      (keyword-OneLine o.list)
      (OneLine-append (b' ' ∷ ident_token o.name) (b' ' ∷ quote o.value)
        (unfold any in ident_token-OneLine o.name) (unfold any in quote-OneLine o.value))
