-- ===== src/Api/Raw/Lines.antt =====
-- A raw edit of internal/api/uci.go sends one directive a line.
use stageneth.Prelude.{
  Bool, true, false, not, ◌&&◌, ◌||◌, List, [], ◌∷◌, ◌++◌, Text, lit, equal, equal_iff, is_empty,
  if◌then◌else◌, Dict, member, ◌==◌, all, any, any-append, All, ◌≡◌, refl, subst, arith, Bool-cases,
  inl, inr, &&_split,
}
use stageneth.Api.Raw.{
  raw_configs, valid_uci_name, uci_opt_re, Value, scalar, array, reshapes, Commands, batch, invalid,
  prepend, directive, assigned, list_commands, value_commands, then_commands, option_commands,
  type_commands, nonempty, raw_put_commands, name_char, opt_char,
}

-- No line feed stands in the text.
abbrev pub IsOneLine : Text → Type 0
IsOneLine s = any (λ c. c == 10) s ≡ false

-- every directive is one line
abbrev AreLines : Commands → Type 0
AreLines (batch cs) = All IsOneLine cs
AreLines (invalid m) = Unit

pub append-IsOneLine : (a b : Text) → IsOneLine a → IsOneLine b → IsOneLine (a ++ b)
append-IsOneLine a b p q = rw (any-append, p, q) refl

name-IsOneLine : (s : Text) → all name_char s ≡ true → IsOneLine s
unfolding all any
name-IsOneLine [] h = refl
name-IsOneLine (c ∷ s) h = ground (arith, name-IsOneLine s)

opt-IsOneLine : (s : Text) → all opt_char s ≡ true → IsOneLine s
unfolding all any
opt-IsOneLine [] h = refl
opt-IsOneLine (c ∷ s) h = ground (arith, opt-IsOneLine s)

reshapes-IsOneLine :
    (s : Text) → any (λ c. c == 13 || c == 10 || c == 39 || c == 34) s ≡ false → IsOneLine s
unfolding any
reshapes-IsOneLine [] h = refl
reshapes-IsOneLine (c ∷ s) h = ground (arith, reshapes-IsOneLine s)

value-IsOneLine : (s : Text) → reshapes s ≡ false → IsOneLine s
value-IsOneLine s h = reshapes-IsOneLine s (unfold reshapes in h)

config-IsOneLine : (k : Text) (ps : List Text) → All IsOneLine ps → member k ps ≡ true → IsOneLine k
unfolding member
config-IsOneLine k [] l h = cc h
config-IsOneLine k (p ∷ ps) l h = elim (Bool-cases (equal p k)) [
  | inl e ↦ subst IsOneLine ((equal_iff p k).0 e) l.0
  | inr e ↦ config-IsOneLine k ps l.1 (rw e at h)
]

prepend-AreLines :
    (cs : List Text) (d : Commands) → All IsOneLine cs → AreLines d → AreLines (prepend cs d)
prepend-AreLines cs (invalid m) p q = tt
prepend-AreLines [] (batch ds) p q = q
prepend-AreLines (c ∷ cs) (batch ds) p q = (p.0, prepend-AreLines cs (batch ds) p.1 q)

then-AreLines : (c d : Commands) → AreLines c → AreLines d → AreLines (then_commands c d)
then-AreLines (batch cs) d p q = prepend-AreLines cs d p q
then-AreLines (invalid m) d p q = tt

guard-AreLines :
    (b : Bool) (m : Text) (d : Commands)
    → (b ≡ false → AreLines d)
    → AreLines (if b then invalid m else d)
guard-AreLines true m d h = tt
guard-AreLines false m d h = h refl

assigned-IsOneLine : (val : Text) → reshapes val ≡ false → IsOneLine (assigned val)
assigned-IsOneLine val h =
    append-IsOneLine (lit "='") (val ++ lit "'") (unfold any in refl)
      (append-IsOneLine val (lit "'") (value-IsOneLine val h) (unfold any in refl))

module _ (cfg section : Text) (cfg_line : IsOneLine cfg) (section_line : IsOneLine section) where
  directive-IsOneLine :
      (verb k tail : Text)
      → IsOneLine verb
      → IsOneLine k
      → IsOneLine tail
      → IsOneLine (directive verb cfg section k tail)
  directive-IsOneLine verb k tail p q r = append-IsOneLine verb _ p (
      append-IsOneLine cfg _ cfg_line (
        append-IsOneLine (lit ".") _ (unfold any in refl) (
          append-IsOneLine section _ section_line
            (append-IsOneLine (lit ".") _ (unfold any in refl) (append-IsOneLine k tail q r)))))

  list-AreLines :
      (k : Text) (items : List Text) → IsOneLine k → AreLines (list_commands cfg section k items)
  unfolding list_commands
  list-AreLines k [] q = tt
  list-AreLines k (val ∷ items) q = guard-AreLines (reshapes val) (lit "invalid list value") _ (λ e.
      prepend-AreLines (directive (lit "add_list ") cfg section k (assigned val) ∷ [])
        (list_commands cfg section k items)
        (
          directive-IsOneLine (lit "add_list ") k (assigned val) (unfold any in refl) q
              (assigned-IsOneLine val e),
          tt,
        )
        (list-AreLines k items q))

  value-AreLines : (k : Text) (v : Value) → IsOneLine k → AreLines (value_commands cfg section k v)
  unfolding value_commands
  value-AreLines k (array items) q =
      prepend-AreLines (directive (lit "delete ") cfg section k [] ∷ [])
        (list_commands cfg section k items)
        (directive-IsOneLine (lit "delete ") k [] (unfold any in refl) q (unfold any in refl), tt)
        (list-AreLines k items q)
  value-AreLines k (scalar val) q =
      guard-AreLines (reshapes val) (lit "invalid option value") _ (λ e. (
        directive-IsOneLine (lit "set ") k (assigned val) (unfold any in refl) q
            (assigned-IsOneLine val e),
        tt,
      ))

  opt_name-IsOneLine : (k : Text) → not (uci_opt_re k) ≡ false → IsOneLine k
  opt_name-IsOneLine k e =
      let matched : uci_opt_re k ≡ true = ground arith in
      let both : (not (is_empty k) && all opt_char k) ≡ true = unfold uci_opt_re in matched in
      opt-IsOneLine k (&&_split (not (is_empty k)) (all opt_char k) both).1

  option-AreLines : (values : Dict Value) → AreLines (option_commands cfg section values)
  unfolding option_commands
  option-AreLines [] = tt
  option-AreLines ((k, v) ∷ values) =
      guard-AreLines (not (uci_opt_re k)) (lit "invalid option name") _ (λ e.
        then-AreLines (value_commands cfg section k v) (option_commands cfg section values)
          (value-AreLines k v (opt_name-IsOneLine k e)) (option-AreLines values))

  type-AreLines : (stype : Text) → AreLines (type_commands cfg section stype)
  type-AreLines stype = elim (Bool-cases (is_empty stype)) [
    | inl e ↦ rw e tt
    | inr e ↦ rw e (
        guard-AreLines (not (uci_opt_re stype)) (lit "invalid section type") _ (λ ok. (
          append-IsOneLine (lit "set ") _ (unfold any in refl) (
              append-IsOneLine cfg _ cfg_line (
                append-IsOneLine (lit ".") _ (unfold any in refl) (
                  append-IsOneLine section _ section_line (
                    append-IsOneLine (lit "=") stype (unfold any in refl)
                      (opt_name-IsOneLine stype ok))))),
          tt,
        )))
  ]

  nonempty-AreLines : (c : Commands) → AreLines c → AreLines (nonempty c)
  nonempty-AreLines (batch []) p = tt
  nonempty-AreLines (batch (c ∷ cs)) p = p
  nonempty-AreLines (invalid m) p = tt

  put-AreLines :
      (stype : Text) (values : Dict Value) → AreLines (raw_put_commands cfg section stype values)
  unfolding raw_put_commands
  put-AreLines stype values = nonempty-AreLines _ (
      then-AreLines (type_commands cfg section stype) (option_commands cfg section values)
        (type-AreLines stype) (option-AreLines values))

-- For a config of the allowlist and a section with a valid name, every directive that a raw edit sends
-- is one line, whatever names and values the request brings: no value can bring in a directive.
pub raw_put_commands-lines :
    (cfg section stype : Text) (values : Dict Value) (cs : List Text)
    → member cfg raw_configs ≡ true
    → valid_uci_name section ≡ true
    → raw_put_commands cfg section stype values ≡ batch cs
    → All IsOneLine cs
raw_put_commands-lines cfg section stype values cs c s h =
    let all_lines : All IsOneLine raw_configs =
      (unfold any in refl, (unfold any in refl, (unfold any in refl, (unfold any in refl, tt)))) in
    let cfg_line = config-IsOneLine cfg raw_configs all_lines c in
    let section_ok : (not (is_empty section) && all name_char section) ≡ true =
      unfold valid_uci_name in s in
    let section_line =
      name-IsOneLine section
        (&&_split (not (is_empty section)) (all name_char section) section_ok).1 in
    subst AreLines h (put-AreLines cfg section cfg_line section_line stype values)
