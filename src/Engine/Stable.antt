-- ===== src/Engine/Stable.antt =====
-- What the merge of internal/engine/engine.go keeps of a file, and what a second plan finds.
use stageneth.Prelude.{
  true, false, not, List, [], ◌∷◌, ◌++◌, Option, some, Text, equal_refl, is_empty, if◌then◌else◌,
  member, map, select, ◌≡◌, refl, ap, ◌∙◌, arith, Bool-cases, ◌⊎◌, inl, inr, append-nil,
  select-append,
}
use stageneth.Ucifile.{Section, File}
use stageneth.Ucifile.Reader.{parse}
use stageneth.Ucifile.Printer.{text}
use stageneth.Ucifile.Clean.{IsCleanFile, parse-text_clean, append-clean, select-clean}
use stageneth.Stcfg.{Config}
use stageneth.Render.{Available}
use stageneth.Engine.{ManagedConfig, Manifest, recorded, section_key, passes, merge}
use stageneth.Engine.Plan.{merged, previous, plan_config}

-- `desiredNames` of `Apply`: what the manifest records of the rendered sections
unfoldable pub generated_names : File → List Text
generated_names [] = []
generated_names (s ∷ f) =
    let rest = generated_names f in if not (is_empty s.name) then s.name ∷ rest else rest

names-le-keys :
    (k : Text) (f : File)
    → member k (generated_names f) ≡ true
    → member k (map section_key f) ≡ true
unfolding generated_names member section_key
names-le-keys k [] h = h
names-le-keys k (s ∷ f) h = ground (arith, names-le-keys k f)

-- a section that passed once passes again when the generated names are the previous ones
passes_again :
    (desired : File) (prev : List Text) (s : Section)
    → passes desired prev s ≡ true
    → passes desired (generated_names desired) s ≡ true
passes_again desired prev s h = ground (arith, names-le-keys (section_key s) desired)

select-passes :
    (desired : File) (prev : List Text) (f : File)
    → select (passes desired (generated_names desired)) (select (passes desired prev) f)
      ≡ select (passes desired prev) f
unfolding select
select-passes desired prev [] = refl
select-passes desired prev (s ∷ f) = elim (Bool-cases (passes desired prev s)) [
  | inl e ↦ rw (e, passes_again desired prev s e) (ap (◌∷◌ s) (select-passes desired prev f))
  | inr e ↦ rw e (select-passes desired prev f)
]

-- a desired section never passes
member-key : (s : Section) (f : File) → member (section_key s) (map section_key (s ∷ f)) ≡ true
unfolding member
member-key s f = rw equal_refl

select_desired :
    (all_desired : File) (prev : List Text) (f : File)
    → ((s : Section)
        → member (section_key s) (map section_key f) ≡ true
        → member (section_key s) (map section_key all_desired) ≡ true)
    → select (passes all_desired prev) f ≡ []
unfolding select
select_desired all_desired prev [] h = refl
select_desired all_desired prev (s ∷ f) h = ground (
  arith,
  h s,
  member-key s f,
  select_desired all_desired prev f (λ t m. h t (unfold member in ground arith)),
)

-- Merging the rendered sections into the merged file again changes nothing.
pub merge-merge :
    (existing desired : File) (prev : List Text)
    → merge (merge existing desired prev) desired (generated_names desired)
      ≡ merge existing desired prev
unfolding merge
merge-merge existing desired prev =
    ap (λ f. f ++ desired)
      (select-append (passes desired (generated_names desired))
          (select (passes desired prev) existing) desired
        ∙ rw (select-passes, select_desired desired (generated_names desired) desired (λ s m. m))
            (append-nil _))

-- Whether the key of a section is recorded as generated, or that of a desired section.
abbrev pub IsReplaced : File → List Text → Section → Type 0
IsReplaced desired prev s =
    (member (section_key s) prev ≡ true) ⊎ (member (section_key s) (map section_key desired) ≡ true)

-- A file and what is kept of it: every section that is not replaced, unchanged and in order, and no other.
pub data Keeps (desired : File) (prev : List Text) : File → File → Type 0 where
  keep_none : Keeps desired prev [] []
  keep_section :
      (s : Section) (f kept : File)
      → (IsReplaced desired prev s → ⊥)
      → Keeps desired prev f kept
      → Keeps desired prev (s ∷ f) (s ∷ kept)
  drop_section :
      (s : Section) (f kept : File)
      → IsReplaced desired prev s
      → Keeps desired prev f kept
      → Keeps desired prev (s ∷ f) kept

select-Keeps :
    (desired : File) (prev : List Text) (f : File)
    → Keeps desired prev f (select (passes desired prev) f)
unfolding select
select-Keeps desired prev [] = keep_none
select-Keeps desired prev (s ∷ f) =
    let rest = select-Keeps desired prev f in
    let key = section_key s in
    elim (Bool-cases (member key prev)) [
      | inl e ↦ rw e (drop_section s f _ (inl e) rest)
      | inr e ↦ elim (Bool-cases (member key (map section_key desired))) [
        | inl d ↦ rw (e, d) (drop_section s f _ (inr d) rest)
        | inr d ↦
            rw (e, d)
              (keep_section s f _ (λ r. elim r [ inl h ↦ cc (e, h) | inr h ↦ cc (d, h) ]) rest)
      ]
    ]

-- The merged file is what is kept of the file, with the desired sections behind it: a section is kept
-- exactly if its key is neither recorded as generated nor that of a desired section, unchanged and in
-- its order, whatever its type and however often its key stands in the file.
pub merge-Keeps :
    (existing desired : File) (prev : List Text)
    → (kept : File) × Keeps desired prev existing kept
      × (merge existing desired prev ≡ kept ++ desired)
unfolding merge
merge-Keeps existing desired prev =
    (select (passes desired prev) existing, select-Keeps desired prev existing, refl)

merge-clean :
    (existing desired : File) (prev : List Text)
    → IsCleanFile existing
    → IsCleanFile desired
    → IsCleanFile (merge existing desired prev)
unfolding merge
merge-clean existing desired prev c d = append-clean _ desired (select-clean _ existing c) d

merged-clean :
    (mf : Option Manifest) (st : Config) (avail : Available) (mc : ManagedConfig) (old : Text)
    → IsCleanFile (parse old)
    → IsCleanFile (mc.render st avail)
    → IsCleanFile (merged mf st avail mc old)
unfolding merged
merged-clean mf st avail mc old c d = elim (Bool-cases mc.full_owner) [
  | inl o ↦ rw o d
  | inr o ↦
      rw o (merge-clean (parse old) (mc.render st avail) (previous mf mc.name st (parse old)) c d)
]

merged-again :
    (before : Option Manifest) (mf : Manifest) (st : Config) (avail : Available)
    (mc : ManagedConfig) (old : Text)
    → IsCleanFile (parse old)
    → IsCleanFile (mc.render st avail)
    → recorded mc.name mf ≡ generated_names (mc.render st avail)
    → merged (some mf) st avail mc (text (merged before st avail mc old))
      ≡ merged before st avail mc old
merged-again before mf st avail mc old c d r =
    let m_clean = merged-clean before st avail mc old c d in
    unfold merged in
    elim (Bool-cases mc.full_owner) [
      | inl o ↦ rw o
      | inr o ↦
          let again : parse (
                text
                  (merge (parse old) (mc.render st avail) (previous before mc.name st (parse old))))
              ≡ merge (parse old) (mc.render st avail) (previous before mc.name st (parse old)) =
            parse-text_clean _ (merge-clean (parse old) (mc.render st avail) _ c d) in
          rw (o, again, r) (merge-merge (parse old) (mc.render st avail) _)
    ]

-- The text that a plan would write is planned again from itself without a change, whether or not
-- there was a manifest before, once the manifest records the generated sections. The file was
-- readable as it is written, and what is rendered has no line breaks.
pub plan_config-again :
    (q : Text → Text) (before : Option Manifest) (mf : Manifest) (st : Config) (avail : Available)
    (mc : ManagedConfig) (old : Text)
    → IsCleanFile (parse old)
    → IsCleanFile (mc.render st avail)
    → recorded mc.name mf ≡ generated_names (mc.render st avail)
    → (plan_config q (some mf) st avail mc (plan_config q before st avail mc old).new_text).changed
      ≡ false
unfolding plan_config
plan_config-again q before mf st avail mc old c d r =
    rw (merged-again before mf st avail mc old c d r, equal_refl)
