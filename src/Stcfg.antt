-- ===== src/Stcfg.antt =====
-- packages/stagenethd/files/internal/stcfg/stcfg.go: the typed configuration.
pub mod Laws
use stageneth.Prelude.{
  List, [], ◌∷◌, ◌++◌, none, some, Text, lit, equal, if◌then◌else◌, Dict, lookup, insert, keys,
  sort_text, map, get_text,
}
use stageneth.Ucifile.{Item, Section, File}

abbrev pub Options : Type 0
Options = Dict Text

pub record Config : Type 0 where
  pub schema_version : Text
  pub globals : Options
  pub services : Dict Options
  pub bindings : Dict Options
  pub forwardings : Dict Options
  pub logging : Dict Options

-- the loop of `joinSpace`, behind the first element
unfoldable pub join_rest : Text → List Text → Text
join_rest out [] = out
join_rest out (s ∷ v) = join_rest (out ++ (lit " " ++ s)) v

-- `joinSpace`
unfoldable pub join_space : List Text → Text
unfolding join_rest
join_space [] = []
join_space (s ∷ v) = join_rest s v

-- `m[k]`, nil where there is none
unfoldable pub get_list : Text → Dict (List Text) → List Text
get_list k m = elim (lookup k m) [ none ↦ [] | some v ↦ v ]

-- the maps `m` and `lists` of `optionMap`
pub record Maps : Type 0 where
  pub scalars : Options
  pub lists : Dict (List Text)

unfoldable pub collect : Maps → List Item → Maps
unfolding get_list
collect t [] = t
collect t (o ∷ os) =
    collect
      (if o.list
        then record t { lists = insert o.name (get_list o.name t.lists ++ o.value ∷ []) t.lists }
        else record t { scalars = insert o.name o.value t.scalars })
      os

unfoldable pub merge_lists : Options → Dict (List Text) → Options
merge_lists m [] = m
merge_lists m ((k, v) ∷ r) = merge_lists (insert k (join_space v) m) r

-- `optionMap`
unfoldable pub option_map : Section → Options
unfolding collect merge_lists join_space
option_map s =
    let t = collect (record { scalars = []; lists = [] }) s.options in merge_lists t.scalars t.lists

-- the body of the loop of `Parse`
unfoldable pub add_section : Config → Section → Config
unfolding option_map
add_section c s =
    if equal s.type (lit "stageneth")
    then (if equal s.name (lit "globals") then record c { globals = option_map s } else c)
    else if equal s.type (lit "service")
    then record c { services = insert s.name (option_map s) c.services }
    else if equal s.type (lit "binding")
    then record c { bindings = insert s.name (option_map s) c.bindings }
    else if equal s.type (lit "forwarding")
    then record c { forwardings = insert s.name (option_map s) c.forwardings }
    else if equal s.type (lit "logging")
    then record c { logging = insert s.name (option_map s) c.logging }
    else c

unfoldable pub add_sections : Config → File → Config
unfolding add_section
add_sections c [] = c
add_sections c (s ∷ f) = add_sections (add_section c s) f

abbrev pub empty_config : Config
empty_config = record {
  schema_version = [];
  globals = [];
  services = [];
  bindings = [];
  forwardings = [];
  logging = [];
}

-- `Parse`
unfoldable pub parse_config : File → Config
unfolding add_sections
parse_config f =
    let c = add_sections empty_config f in
    record c { schema_version = get_text (lit "schema_version") c.globals }

-- `m[k]` on a map of maps: a missing key reads as the nil map, which has no entries
unfoldable pub get_options : Text → Dict Options → Options
get_options k m = elim (lookup k m) [ none ↦ [] | some v ↦ v ]

-- `(*Config).ServiceNames`
unfoldable pub service_names : Config → List Text
service_names c = sort_text (keys c.services)

-- `(*Config).SortedBindings`
unfoldable pub sorted_bindings : Config → List Options
unfolding get_options
sorted_bindings c = map (λ n. get_options n c.bindings) (sort_text (keys c.bindings))
