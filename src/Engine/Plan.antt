-- ===== src/Engine/Plan.antt =====
-- `Plan` of internal/engine/engine.go, for one managed config and for all of them. The argument `q`
-- is the verb `%q` of `fmt`, which the report of modified sections prints values with.
use stageneth.Prelude.{
  Bool, true, false, not, ◌&&◌, List, [], ◌∷◌, ◌++◌, Option, none, some, Text, lit, equal, is_empty,
  if◌then◌else◌, Dict, lookup, insert, member, map, select, join, trim_space,
}
use stageneth.Ucifile.{Item, Section, File}
use stageneth.Ucifile.Reader.{parse}
use stageneth.Ucifile.Printer.{text}
use stageneth.Stcfg.{Config}
use stageneth.Render.{Available}
use stageneth.Engine.{ManagedConfig, Manifest, recorded, legacy_managed, section_key, merge}

-- `FileChange`; its path is that of the config
pub record FileChange : Type 0 where
  pub config : Text
  pub changed : Bool
  pub added : List Text
  pub removed : List Text
  pub modified : List Text
  pub old_text : Text
  pub new_text : Text

-- `fmtOpts`
unfoldable pub fmt_opts : (Text → Text) → List Item → Text
fmt_opts q opts = join (lit ";") (
    map
      (λ o.
        (if o.list then lit "list" else lit "option")
        ++ (lit " " ++ (o.name ++ (lit "=" ++ q o.value))))
      opts)

-- a map from section keys: a later section replaces an earlier one
unfoldable pub by_key : Dict Section → File → Dict Section
by_key m [] = m
by_key m (s ∷ f) = by_key (insert (section_key s) s m) f

-- the names `prev` of the sections to take out: from the manifest, or, where there is none yet,
-- those that the orchestrator before stagenethd generated
unfoldable pub previous : Option Manifest → Text → Config → File → List Text
previous (some mf) name st existing = recorded name mf
previous none name st existing =
    map (λ s. s.name) (select (λ s. not (is_empty s.name) && legacy_managed s.name st) existing)

unfoldable pub merged : Option Manifest → Config → Available → ManagedConfig → Text → File
unfolding previous merge
merged mf st avail mc old =
    let existing = parse old in
    let desired = mc.render st avail in
    if mc.full_owner then desired else merge existing desired (previous mf mc.name st existing)

-- `fc.Added` and `fc.Modified`, in the order of the desired sections
unfoldable pub added_keys : Dict Section → File → List Text
added_keys old [] = []
added_keys old (s ∷ f) =
    let rest = added_keys old f in
    elim (lookup (section_key s) old) [ none ↦ section_key s ∷ rest | some o ↦ rest ]

unfoldable pub modified_keys : (Text → Text) → Dict Section → File → List Text
unfolding fmt_opts
modified_keys q old [] = []
modified_keys q old (s ∷ f) =
    let rest = modified_keys q old f in
    elim (lookup (section_key s) old) [
      | none ↦ rest
      | some o ↦
          if not (equal (fmt_opts q o.options) (fmt_opts q s.options))
          then section_key s ∷ rest
          else rest
    ]

unfoldable pub missing : Dict Section → Text → Bool
missing desired k = elim (lookup k desired) [ none ↦ true | some s ↦ false ]

-- `fc.Removed`
unfoldable pub removed_keys : Bool → List Text → List Text → Dict Section → File → List Text
unfolding missing
removed_keys full_owner names added desired existing =
    select (missing desired) names
    ++ (if full_owner
        then select (λ k. missing desired k && not (member k added)) (map section_key existing)
        else [])

abbrev of_manifest : Text → Option Manifest → List Text
of_manifest name none = []
of_manifest name (some mf) = recorded name mf

-- the body of the loop of `Plan`, on the text of the config's file ("" where there is none)
unfoldable pub plan_config :
    (Text → Text) → Option Manifest → Config → Available → ManagedConfig → Text → FileChange
unfolding merged by_key added_keys modified_keys removed_keys
plan_config q mf st avail mc old =
    let existing = parse old in
    let desired = mc.render st avail in
    let new = text (merged mf st avail mc old) in
    let before = by_key [] existing in
    let added = added_keys before desired in
    record {
      config = mc.name;
      changed = not (equal (trim_space old) (trim_space new));
      added = added;
      removed =
          removed_keys mc.full_owner (of_manifest mc.name mf) added (by_key [] desired) existing;
      modified = modified_keys q before desired;
      old_text = old;
      new_text = new;
    }
