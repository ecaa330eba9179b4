-- ===== src/Ucifile/Access.antt =====
-- `Get` after `Set`, and `Index` against `Get`, of internal/ucifile/ucifile.go.
use stageneth.Prelude.{
  Bool, not, ◌&&◌, List, [], ◌∷◌, Text, Option, none, some, equal, equal_iff, first, get_elem?,
  if◌then◌else◌, ◌≡◌, refl, arith,
}
use stageneth.Ucifile.{Item, Section, File, get, set, set_item, index, get_section}

abbrev value_of : Option Item → Text
value_of none = []
value_of (some o) = o.value

abbrev scalar : Text → Item → Bool
scalar name o = equal o.name name && not o.list

first-set_item :
    (n m v : Text) (os : List Item)
    → value_of (first (scalar m) (set_item n v os))
      ≡ (if equal n m then v else value_of (first (scalar m) os))
unfolding first set_item
first-set_item n m v [] = ground arith
first-set_item n m v (o ∷ os) =
    ground (arith, first-set_item n m v os, equal_iff o.name n, equal_iff o.name m, equal_iff n m)

get-value_of : (m : Text) (s : Section) → get m s ≡ value_of (first (scalar m) s.options)
unfolding get
get-value_of m s = ground arith

-- After `Set` of an option, `Get` of that option returns the value, and `Get` of any other option
-- returns what it did before.
pub get-set : (n m v : Text) (s : Section) → get m (set n v s) ≡ (if equal n m then v else get m s)
unfolding set
get-set n m v s = cc (first-set_item n m v s.options, get-value_of m (set n v s), get-value_of m s)

-- `Index` is the position of the section that `Get` points to, and -1 exactly when there is none.
pub get_elem?-index :
    (name : Text) (f : File)
    → get_section name f ≡ (elim (index name f) [ none ↦ none | some i ↦ get_elem? f i ])
unfolding get_section index first
get_elem?-index name [] = refl
get_elem?-index name (s ∷ f) = ground (arith, get_elem?-index name f)
