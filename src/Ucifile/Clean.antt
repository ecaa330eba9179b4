-- ===== src/Ucifile/Clean.antt =====
-- Files that internal/ucifile/ucifile.go reads back exactly as they were written.
use stageneth.Prelude.{
  Bool, false, not, ◌&&◌, List, [], ◌∷◌, ◌++◌, Text, is_empty, ◌≡◌, refl, arith, All, Bool-cases,
  inl, inr, equal, select,
}
use stageneth.Ucifile.{Item, Section, File, set, set_item}
use stageneth.Ucifile.Printer.{clean, text}
use stageneth.Ucifile.Reader.{parse}
use stageneth.Ucifile.RoundTrip.{
  clean_item, clean_items, clean_section, clean_file, clean-ne-nil, parse-text,
}
use stageneth.Ucifile.Stable.{clean_idem}

-- no line break in the text
abbrev pub IsClean : Text → Type 0
IsClean s = clean s ≡ s

pub record IsCleanItem (o : Item) : Type 0 where
  pub named : is_empty o.name ≡ false
  pub name_clean : IsClean o.name
  pub value_clean : IsClean o.value

pub record IsCleanSection (s : Section) : Type 0 where
  pub typed : is_empty s.type ≡ false
  pub type_clean : IsClean s.type
  pub name_clean : IsClean s.name
  pub items_clean : All IsCleanItem s.options

abbrev pub IsCleanFile : File → Type 0
IsCleanFile f = All IsCleanSection f

clean_item-eq : (o : Item) → IsCleanItem o → clean_item o ≡ o
clean_item-eq o c = ground arith

clean_items-eq : (os : List Item) → All IsCleanItem os → clean_items os ≡ os
unfolding clean_items
clean_items-eq [] c = refl
clean_items-eq (o ∷ os) c = rw c.0.named (cc (clean_item-eq o c.0, clean_items-eq os c.1))

clean_section-eq : (s : Section) → IsCleanSection s → clean_section s ≡ s
clean_section-eq s c = ground (arith, clean_items-eq s.options c.items_clean)

pub clean_file-eq : (f : File) → IsCleanFile f → clean_file f ≡ f
unfolding clean_file
clean_file-eq [] c = refl
clean_file-eq (s ∷ f) c = rw c.0.typed (cc (clean_section-eq s c.0, clean_file-eq f c.1))

-- A clean file is read back unchanged.
pub parse-text_clean : (f : File) → IsCleanFile f → parse (text f) ≡ f
parse-text_clean f c = rw parse-text (clean_file-eq f c)

clean_items-clean : (os : List Item) → All IsCleanItem (clean_items os)
unfolding clean_items
clean_items-clean [] = tt
clean_items-clean (o ∷ os) = elim (Bool-cases (is_empty o.name)) [
  | inl e ↦ rw e (clean_items-clean os)
  | inr e ↦ rw e (
    record {
      named = rw clean-ne-nil e;
      name_clean = clean_idem o.name;
      value_clean = clean_idem o.value;
    },
    clean_items-clean os,
  )
]

-- What is read back is clean.
pub clean_file-clean : (f : File) → IsCleanFile (clean_file f)
unfolding clean_file
clean_file-clean [] = tt
clean_file-clean (s ∷ f) = elim (Bool-cases (is_empty s.type)) [
  | inl e ↦ rw e (clean_file-clean f)
  | inr e ↦ rw e (
    record {
      typed = rw clean-ne-nil e;
      type_clean = clean_idem s.type;
      name_clean = clean_idem s.name;
      items_clean = clean_items-clean s.options;
    },
    clean_file-clean f,
  )
]

set_item-clean :
    (n v : Text) (os : List Item)
    → is_empty n ≡ false
    → IsClean n
    → IsClean v
    → All IsCleanItem os
    → All IsCleanItem (set_item n v os)
unfolding set_item
set_item-clean n v [] ne cn cv c = (record { named = ne; name_clean = cn; value_clean = cv }, tt)
set_item-clean n v (o ∷ os) ne cn cv c = elim (Bool-cases (equal o.name n && not o.list)) [
  | inl e ↦ rw e (record { named = c.0.named; name_clean = c.0.name_clean; value_clean = cv }, c.1)
  | inr e ↦ rw e (c.0, set_item-clean n v os ne cn cv c.1)
]

pub set-clean :
    (n v : Text) (s : Section)
    → is_empty n ≡ false
    → IsClean n
    → IsClean v
    → IsCleanSection s
    → IsCleanSection (set n v s)
unfolding set
set-clean n v s ne cn cv c = record {
  typed = c.typed;
  type_clean = c.type_clean;
  name_clean = c.name_clean;
  items_clean = set_item-clean n v s.options ne cn cv c.items_clean;
}

pub append-clean : (f g : File) → IsCleanFile f → IsCleanFile g → IsCleanFile (f ++ g)
append-clean [] g c d = d
append-clean (s ∷ f) g c d = (c.0, append-clean f g c.1 d)

pub select-clean : (p : Section → Bool) (f : File) → IsCleanFile f → IsCleanFile (select p f)
unfolding select
select-clean p [] c = tt
select-clean p (s ∷ f) c = elim (Bool-cases (p s)) [
  | inl e ↦ rw e (c.0, select-clean p f c.1)
  | inr e ↦ rw e (select-clean p f c.1)
]
