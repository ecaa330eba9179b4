-- ===== src/Engine/Collector.antt =====
-- `collectorConfText` of internal/engine/engine.go: the managed block in rsyslog.conf.
use stageneth.Prelude.{
  ℕ, Bool, false, not, ◌&&◌, [], ◌∷◌, ◌++◌, Option, none, some, Text, lit, is_empty, if◌then◌else◌,
  has_prefix, length, drop, ◌==◌,
}
use stageneth.Stcfg.{Config}
use stageneth.Render.Logging.{collector_block}

abbrev pub collector_begin : Text
collector_begin = lit "### STAGENETH COLLECTOR BEGIN ###"

abbrev pub collector_end : Text
collector_end = lit "### STAGENETH COLLECTOR END ###"

abbrev cons_first : ℕ → Option (Text × Text) → Option (Text × Text)
cons_first c none = none
cons_first c (some (a, b)) = some (c ∷ a, b)

-- the text in front of the first occurrence of the mark, and the text behind it
unfoldable pub split_first : Text → Text → Option (Text × Text)
split_first mark [] = if is_empty mark then some ([], []) else none
split_first mark (c ∷ s) =
    let rest = split_first mark s in
    if has_prefix (c ∷ s) mark then some ([], drop (length mark) (c ∷ s)) else cons_first c rest

-- the text behind the last occurrence of the mark
unfoldable pub after_last : Text → Text → Option Text
after_last mark [] = if is_empty mark then some [] else none
after_last mark (c ∷ s) = elim (after_last mark s) [
  | some t ↦ some t
  | none ↦ if has_prefix (c ∷ s) mark then some (drop (length mark) (c ∷ s)) else none
]

-- the `\n?` at the end of `collectorBlockRe`
abbrev drop_newline : Text → Text
drop_newline [] = []
drop_newline (c ∷ s) = if c == b'\n' then s else c ∷ s

abbrev without : Text → Text → Option Text → Text
without content before none = content
without content before (some rest) = before ++ drop_newline rest

-- `collectorBlockRe.ReplaceAllString(content, "")`: the match runs from the first mark of a
-- beginning to the last mark of an end behind it, so there is one match at most
unfoldable pub strip_block : Text → Text
unfolding split_first after_last
strip_block content = elim (split_first collector_begin content) [
  | none ↦ content
  | some (before, behind) ↦ without content before (after_last collector_end behind)
]

unfoldable pub ends_newline : Text → Bool
ends_newline [] = false
ends_newline (c ∷ []) = c == b'\n'
ends_newline (c ∷ d ∷ s) = ends_newline (d ∷ s)

-- `collectorConfText`
unfoldable pub collector_conf_text : Text → Config → Text
unfolding strip_block ends_newline
collector_conf_text content st =
    let desired = strip_block content in
    let block = collector_block st in
    let start =
      if not (is_empty desired) && not (ends_newline desired)
      then desired ++ lit "\n"
      else desired in
    if is_empty block
    then desired
    else start
      ++ (collector_begin ++ (lit "\n" ++ (block ++ (lit "\n" ++ (collector_end ++ lit "\n")))))
