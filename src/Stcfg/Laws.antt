-- ===== src/Stcfg/Laws.antt =====
-- `Parse` of internal/stcfg/stcfg.go: which section of a file gives a service its options.
use stageneth.Prelude.{
  Bool, true, false, not, ◌&&◌, [], ◌∷◌, Option, none, some, Text, lit, equal, equal_iff,
  if◌then◌else◌, lookup, lookup-insert, select, ◌≡◌, refl, ap, ◌∙◌, arith, Bool-cases, inl, inr,
}
use stageneth.Ucifile.{Section, File}
use stageneth.Stcfg.{
  Config, Options, option_map, add_section, add_sections, empty_config, parse_config,
}

abbrev pub is_service : Text → Section → Bool
is_service n s = equal s.type (lit "service") && equal s.name n

abbrev pub or_else : Option Options → Option Options → Option Options
or_else none b = b
or_else (some a) b = some a

-- The options of the last `service` section of that name.
unfoldable pub last_service : Text → File → Option Options
last_service n [] = none
last_service n (s ∷ f) =
    or_else (last_service n f) (if is_service n s then some (option_map s) else none)

choose-services :
    (b : Bool) (x y : Config) (o : Option Options) (n : Text)
    → lookup n x.services ≡ o
    → lookup n y.services ≡ o
    → lookup n (if b then x else y).services ≡ o
choose-services true x y o n p q = p
choose-services false x y o n p q = q

add_service :
    (c : Config) (s : Section) (n : Text)
    → s.type ≡ lit "service"
    → lookup n (add_section c s).services
      ≡ (if equal s.name n then some (option_map s) else lookup n c.services)
unfolding add_section
add_service c s n e = rw e (unfold equal in lookup-insert s.name n (option_map s) c.services)

add_other :
    (c : Config) (s : Section) (n : Text)
    → equal s.type (lit "service") ≡ false
    → lookup n (add_section c s).services ≡ lookup n c.services
unfolding add_section
add_other c s n e = rw e (
    choose-services (equal s.type (lit "stageneth")) _ _ (lookup n c.services) n
      (choose-services (equal s.name (lit "globals")) _ _ (lookup n c.services) n refl refl)
      (choose-services (equal s.type (lit "binding")) _ _ (lookup n c.services) n refl (
        choose-services (equal s.type (lit "forwarding")) _ _ (lookup n c.services) n refl
          (choose-services (equal s.type (lit "logging")) _ _ (lookup n c.services) n refl refl))))

or_else-if :
    (a : Option Options) (b : Bool) (v : Options) (d : Option Options)
    → or_else a (if b then some v else d) ≡ or_else (or_else a (if b then some v else none)) d
or_else-if none true v d = refl
or_else-if none false v d = refl
or_else-if (some a) b v d = refl

lookup-add_section :
    (c : Config) (s : Section) (n : Text)
    → lookup n (add_section c s).services
      ≡ (if is_service n s then some (option_map s) else lookup n c.services)
lookup-add_section c s n = elim (Bool-cases (equal s.type (lit "service"))) [
  | inl e ↦ rw e (add_service c s n ((equal_iff s.type (lit "service")).0 e))
  | inr e ↦ rw e (add_other c s n e)
]

lookup-add_sections :
    (c : Config) (f : File) (n : Text)
    → lookup n (add_sections c f).services ≡ or_else (last_service n f) (lookup n c.services)
unfolding add_sections last_service
lookup-add_sections c [] n = refl
lookup-add_sections c (s ∷ f) n =
    lookup-add_sections (add_section c s) f n
    ∙ ap (or_else (last_service n f)) (lookup-add_section c s n)
    ∙ or_else-if (last_service n f) (is_service n s) (option_map s) (lookup n c.services)

or_else-none : (o : Option Options) → or_else o none ≡ o
or_else-none none = refl
or_else-none (some a) = refl

-- The options of a service are those of the last section of type service and of that name, and there is
-- no other service: sections of other types and names do not change them.
pub parse_config-services :
    (f : File) (n : Text) → lookup n (parse_config f).services ≡ last_service n f
unfolding parse_config lookup
parse_config-services f n = lookup-add_sections empty_config f n ∙ or_else-none (last_service n f)

-- Without the sections of one service, that service is gone and the others are as before.
pub last_service-select :
    (name n : Text) (f : File)
    → last_service n (select (λ s. not (is_service name s)) f)
      ≡ (if equal name n then none else last_service n f)
unfolding last_service select
last_service-select name n [] = ground arith
last_service-select name n (s ∷ f) = ground (
  arith,
  equal_iff name n,
  equal_iff s.name n,
  equal_iff s.name name,
  last_service-select name n f,
)
