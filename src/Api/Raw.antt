-- ===== src/Api/Raw.antt =====
-- `rawPutCommands` of internal/api/uci.go: the directives that a raw edit sends to `uci batch`. A JSON
-- value is given as `%v` prints it, a list by the print of each of its elements.
pub mod Lines
use stageneth.Prelude.{
  ℕ, Bool, not, ◌&&◌, ◌||◌, List, [], ◌∷◌, ◌++◌, Text, lit, is_empty, if◌then◌else◌, Dict, within,
  ◌==◌, all, any,
}

-- `rawConfigs`
abbrev pub raw_configs : List Text
raw_configs = lit "network" ∷ lit "dhcp" ∷ lit "firewall" ∷ lit "system" ∷ []

abbrev pub letter : ℕ → Bool
letter c = within b'a' b'z' c || within b'A' b'Z' c || within b'0' b'9' c

abbrev pub name_char : ℕ → Bool
name_char c = letter c || c == b'_' || c == b'@' || c == b'.' || c == b'[' || c == b']' || c == b'-'

-- `validUciName`
unfoldable pub valid_uci_name : Text → Bool
valid_uci_name s = not (is_empty s) && all name_char s

abbrev pub opt_char : ℕ → Bool
opt_char c = letter c || c == b'_' || c == b'-'

-- `uciOptRe.MatchString`
unfoldable pub uci_opt_re : Text → Bool
uci_opt_re s = not (is_empty s) && all opt_char s

-- A value of the body.
pub data Value : Type 0 where
  scalar : Text → Value
  array : List Text → Value

-- `strings.ContainsAny(val, "\r\n'\"")`
unfoldable pub reshapes : Text → Bool
reshapes val = any (λ c. c == 13 || c == 10 || c == 39 || c == 34) val

-- `commands, err`
pub data Commands : Type 0 where
  batch : List Text → Commands
  invalid : Text → Commands

-- `append(commands, …)` in front of what the rest of a loop appends
abbrev pub prepend : List Text → Commands → Commands
prepend cs (batch ds) = batch (cs ++ ds)
prepend cs (invalid m) = invalid m

-- `verb cfg.section.key=…`
abbrev pub directive : Text → Text → Text → Text → Text → Text
directive verb cfg section k tail =
    verb ++ (cfg ++ (lit "." ++ (section ++ (lit "." ++ (k ++ tail)))))

abbrev pub assigned : Text → Text
assigned val = lit "='" ++ (val ++ lit "'")

-- the loop over the elements of an array
unfoldable pub list_commands : Text → Text → Text → List Text → Commands
unfolding reshapes
list_commands cfg section k [] = batch []
list_commands cfg section k (val ∷ items) =
    let rest = list_commands cfg section k items in
    if reshapes val
    then invalid (lit "invalid list value")
    else prepend (directive (lit "add_list ") cfg section k (assigned val) ∷ []) rest

-- the directives of one option
unfoldable pub value_commands : Text → Text → Text → Value → Commands
unfolding list_commands
value_commands cfg section k (array items) =
    prepend (directive (lit "delete ") cfg section k [] ∷ []) (list_commands cfg section k items)
value_commands cfg section k (scalar val) =
    if reshapes val
    then invalid (lit "invalid option value")
    else batch (directive (lit "set ") cfg section k (assigned val) ∷ [])

-- the directives of a step, then those of the steps behind it
abbrev pub then_commands : Commands → Commands → Commands
then_commands (batch cs) d = prepend cs d
then_commands (invalid m) d = invalid m

-- the loop over the options
unfoldable pub option_commands : Text → Text → Dict Value → Commands
unfolding value_commands uci_opt_re
option_commands cfg section [] = batch []
option_commands cfg section ((k, v) ∷ values) =
    let rest = option_commands cfg section values in
    if not (uci_opt_re k)
    then invalid (lit "invalid option name")
    else then_commands (value_commands cfg section k v) rest

abbrev pub type_commands : Text → Text → Text → Commands
type_commands cfg section stype =
    if is_empty stype
    then batch []
    else if not (uci_opt_re stype)
    then invalid (lit "invalid section type")
    else batch ((lit "set " ++ (cfg ++ (lit "." ++ (section ++ (lit "=" ++ stype))))) ∷ [])

abbrev pub nonempty : Commands → Commands
nonempty (batch []) = invalid (lit "nothing to write")
nonempty (batch (c ∷ cs)) = batch (c ∷ cs)
nonempty (invalid m) = invalid m

-- `rawPutCommands`
unfoldable pub raw_put_commands : Text → Text → Text → Dict Value → Commands
unfolding option_commands
raw_put_commands cfg section stype values =
    nonempty (then_commands (type_commands cfg section stype) (option_commands cfg section values))
