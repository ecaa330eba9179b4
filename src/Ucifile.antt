-- ===== src/Ucifile.antt =====
-- packages/stagenethd/files/internal/ucifile/ucifile.go: UCI files as ordered lists of sections.
-- The scanner and the parser are in `Reader`, the printer is in `Printer`.
pub mod Reader
pub mod Printer
pub mod Access
pub mod Scanning
pub mod Lines
pub mod RoundTrip
pub mod Stable
pub mod Clean
use stageneth.Prelude.{
  Bool, false, not, ◌&&◌, List, [], ◌∷◌, Option, none, some, Text, equal, if◌then◌else◌, first, ℕ,
  suc,
}

pub record Item : Type 0 where
  pub name : Text
  pub value : Text
  pub list : Bool

pub record Section : Type 0 where
  pub type : Text
  pub name : Text
  pub options : List Item

-- `File`: its `Sections`
abbrev pub File : Type 0
File = List Section

-- `(*Section).Get`
unfoldable pub get : Text → Section → Text
get name s = elim (first (λ o. equal o.name name && not o.list) s.options) [
  | none ↦ []
  | some o ↦ o.value
]

-- the loop of `(*Section).Set`
unfoldable pub set_item : Text → Text → List Item → List Item
set_item name value [] = record { name = name; value = value; list = false } ∷ []
set_item name value (o ∷ os) =
    if equal o.name name && not o.list
    then record o { value = value } ∷ os
    else o ∷ set_item name value os

-- `(*Section).Set`
unfoldable pub set : Text → Text → Section → Section
unfolding set_item
set name value s = record s { options = set_item name value s.options }

-- `(*File).Index`: `none` for -1
unfoldable pub index : Text → File → Option ℕ
index name [] = none
index name (s ∷ f) =
    let rest = index name f in
    if equal s.name name then some 0 else elim rest [ none ↦ none | some i ↦ some (suc i) ]

-- `(*File).Get`, as a copy of the section that it points to
unfoldable pub get_section : Text → File → Option Section
get_section name f = first (λ s. equal s.name name) f
