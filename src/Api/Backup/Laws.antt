-- ===== src/Api/Backup/Laws.antt =====
-- A restoration of internal/api/network.go that does not succeed is rolled back package by package.
use stageneth.Prelude.{
  ℕ, Bool, true, false, not, ◌||◌, List, [], ◌∷◌, Option, none, some, Text, equal, equal_iff,
  if◌then◌else◌, Dict, lookup, insert, keys, member, lookup-insert, lookup-remove, ◌≡◌, ◌≢◌, ◌⊎◌,
  equal_refl, refl, sym, ◌∙◌, ap, subst, arith, Bool-cases, inl, inr,
}
use stageneth.Api.Backup.{
  Packages, Uci, Block, blocks_of, or_empty, snapshots, put, uci_import, roll_package,
  roll_packages, import_blocks, finish_restore, restore_config, all_allowed, is_nil,
}

-- What a rollback may leave of a package with this content before: the content; nothing, or what is there if
-- the file cannot be removed, where its export failed or was empty; or what an import of its export leaves.
abbrev pub IsRolled : Uci → Text → Option Text → Option Text → Type 0
IsRolled uci p content after =
    (after ≡ content)
    ⊎ ((or_empty (uci.export p content) ≡ []) × (uci.remove_fails p ≡ false → after ≡ none))
    ⊎ ((d : ℕ) × (t : Text) × (old : Option Text) × (uci.export p content ≡ some (d ∷ t))
        × (after ≡ (uci.import p (d ∷ t) old).0))

abbrev names : List Block → List Text
names [] = []
names ((name, backup) ∷ blocks) = name ∷ names blocks

-- the packages that a body names
abbrev pub names_of : Option Text → List Text
names_of none = []
names_of (some backup) = names (blocks_of backup)

lookup-put :
    (k p : Text) (o : Option Text) (fs : Packages)
    → lookup p (put k o fs) ≡ (if equal k p then o else lookup p fs)
lookup-put k p none fs = lookup-remove k p fs
lookup-put k p (some c) fs = lookup-insert k p c fs

or_empty-some : (o : Option Text) (d : ℕ) (t : Text) → d ∷ t ≡ or_empty o → o ≡ some (d ∷ t)
or_empty-some none d t h = cc h
or_empty-some (some u) d t h = ap some (sym h)

module _ (uci : Uci) where
  roll_package-other :
      (k p snap : Text) (fs : Packages)
      → equal k p ≡ false
      → lookup p (roll_package uci k snap fs) ≡ lookup p fs
  unfolding uci_import
  roll_package-other k p [] fs other = elim (Bool-cases (uci.remove_fails k)) [
    | inl e ↦ rw e refl
    | inr e ↦ rw e (lookup-remove k p fs ∙ rw other refl)
  ]
  roll_package-other k p (d ∷ t) fs other =
      lookup-put k p (uci.import k (d ∷ t) (lookup k fs)).0 fs ∙ rw other refl

  roll_package-IsRolled :
      (k snap : Text) (content : Option Text) (fs : Packages)
      → snap ≡ or_empty (uci.export k content)
      → IsRolled uci k content (lookup k (roll_package uci k snap fs))
  unfolding uci_import
  roll_package-IsRolled k [] content fs h =
      inr (inl (sym h, λ works. rw works (lookup-remove k k fs ∙ rw equal_refl refl)))
  roll_package-IsRolled k (d ∷ t) content fs h = inr (
      inr (
        d,
        t,
        lookup k fs,
        or_empty-some (uci.export k content) d t h,
        lookup-put k k (uci.import k (d ∷ t) (lookup k fs)).0 fs ∙ rw equal_refl refl,
      ))

  -- each snapshot is the export of before
  abbrev IsHonest : Packages → Dict Text → Type 0
  IsHonest before [] = Unit
  IsHonest before ((p, snap) ∷ prev) =
      (snap ≡ or_empty (uci.export p (lookup p before))) × IsHonest before prev

  insert-IsHonest :
      (before : Packages) (p : Text) (prev : Dict Text)
      → IsHonest before prev
      → IsHonest before (insert p (or_empty (uci.export p (lookup p before))) prev)
  unfolding insert
  insert-IsHonest before p [] h = (refl, tt)
  insert-IsHonest before p ((q, snap) ∷ prev) h = elim (Bool-cases (equal q p)) [
    | inl e ↦ rw e (refl, h.1)
    | inr e ↦ rw e (h.0, insert-IsHonest before p prev h.1)
  ]

  snapshots-IsHonest :
      (before : Packages) (blocks : List Block) (prev : Dict Text)
      → IsHonest before prev
      → IsHonest before (snapshots uci before blocks prev)
  unfolding snapshots
  snapshots-IsHonest before [] prev h = h
  snapshots-IsHonest before ((name, backup) ∷ blocks) prev h =
      snapshots-IsHonest before blocks _ (insert-IsHonest before name prev h)

  roll_packages-IsRolled :
      (before : Packages) (prev : Dict Text) (fs : Packages)
      → IsHonest before prev
      → ((p : Text) → member p (keys prev) ≡ false → IsRolled uci p (lookup p before) (lookup p fs))
      → (p : Text) → IsRolled uci p (lookup p before) (lookup p (roll_packages uci prev fs))
  unfolding roll_packages
  roll_packages-IsRolled before [] fs h rolled p = rolled p (unfold member in refl)
  roll_packages-IsRolled before ((k, snap) ∷ prev) fs h rolled p =
      roll_packages-IsRolled before prev (roll_package uci k snap fs) h.1
        (λ q out. elim (Bool-cases (equal k q)) [
          | inl same ↦
              subst (λ r. IsRolled uci r (lookup r before) (lookup r (roll_package uci k snap fs)))
                ((equal_iff k q).0 same) (roll_package-IsRolled k snap (lookup k before) fs h.0)
          | inr other ↦
              subst (λ x. IsRolled uci q (lookup q before) x)
                (sym (roll_package-other k q snap fs other))
                (rolled q (unfold member in rw (other, out)))
        ])
        p

  -- the keys of the snapshots are the names of the blocks
  member-insert :
      (q p : Text) (v : Text) (prev : Dict Text)
      → member q (keys (insert p v prev)) ≡ (equal p q || member q (keys prev))
  unfolding insert member
  member-insert q p v [] = refl
  member-insert q p v ((k, w) ∷ prev) =
      ground (arith, equal_iff k p, equal_iff k q, equal_iff p q, member-insert q p v prev)

  member-snapshots :
      (before : Packages) (q : Text) (blocks : List Block) (prev : Dict Text)
      → member q (keys (snapshots uci before blocks prev)) ≡ false
      → (member q (keys prev) ≡ false) × (member q (names blocks) ≡ false)
  unfolding snapshots member
  member-snapshots before q [] prev h = (h, refl)
  member-snapshots before q ((name, backup) ∷ blocks) prev h =
      let v = or_empty (uci.export name (lookup name before)) in
      let rest = member-snapshots before q blocks (insert name v prev) h in
      let here = member-insert q name v prev in
      (ground (arith, rest.0, here), ground (arith, rest.0, rest.1, here))

  -- the imports change only the packages of the blocks
  import_blocks-AgreesOff :
      (blocks : List Block) (fs : Packages) (p : Text)
      → member p (names blocks) ≡ false
      → lookup p (import_blocks uci blocks fs).0 ≡ lookup p fs
  unfolding import_blocks uci_import member
  import_blocks-AgreesOff [] fs p out = refl
  import_blocks-AgreesOff ((name, backup) ∷ blocks) fs p out =
      let (content, ok) = uci.import name backup (lookup name fs) in
      let after = put name content fs in
      let other : equal name p ≡ false = ground (arith, out) in
      let rest : member p (names blocks) ≡ false = ground (arith, out) in
      let same : lookup p after ≡ lookup p fs = lookup-put name p content fs ∙ rw other refl in
      elim (Bool-cases ok) [
        | inl e ↦ rw e (import_blocks-AgreesOff blocks after p rest ∙ same)
        | inr e ↦ rw e same
      ]

  snapshots-other :
      (before : Packages) (q : Text) (blocks : List Block) (prev : Dict Text)
      → member q (names blocks) ≡ false
      → member q (keys prev) ≡ false
      → member q (keys (snapshots uci before blocks prev)) ≡ false
  unfolding snapshots member
  snapshots-other before q [] prev out h = h
  snapshots-other before q ((name, backup) ∷ blocks) prev out h =
      let v = or_empty (uci.export name (lookup name before)) in
      snapshots-other before q blocks (insert name v prev) (ground (arith, out))
        (ground (arith, out, h, member-insert q name v prev))

  roll_packages-other :
      (prev : Dict Text) (fs : Packages) (p : Text)
      → member p (keys prev) ≡ false
      → lookup p (roll_packages uci prev fs) ≡ lookup p fs
  unfolding roll_packages member
  roll_packages-other [] fs p out = refl
  roll_packages-other ((k, snap) ∷ prev) fs p out =
      roll_packages-other prev (roll_package uci k snap fs) p (ground (arith, out))
      ∙ roll_package-other k p snap fs (ground (arith, out))

  finished :
      (before : Packages) (blocks : List Block) (r : Packages × Bool)
      → ((p : Text) → member p (names blocks) ≡ false → lookup p r.0 ≡ lookup p before)
      → (finish_restore uci (snapshots uci before blocks []) r).1.status ≢ 200
      → (p : Text)
      → (member p (names blocks) ≡ false
          → lookup p (finish_restore uci (snapshots uci before blocks []) r).0 ≡ lookup p before)
        × IsRolled uci p
            (lookup p before)
            (lookup p (finish_restore uci (snapshots uci before blocks []) r).0)
  finished before blocks (fs, true) off h p = elim (h refl) [ ]
  finished before blocks (fs, false) off h p =
      let prev = snapshots uci before blocks [] in
      (
        λ out.
            roll_packages-other prev fs p
              (snapshots-other before p blocks [] out (unfold member in refl))
            ∙ off p out,
        roll_packages-IsRolled before prev fs (snapshots-IsHonest before blocks [] tt)
            (λ q o. inl (off q (member-snapshots before q blocks [] o).1)) p,
      )

  -- Whatever `uci` does, a restoration that does not answer with 200, because the backup is not one, has a
  -- package that is not backed up, or an import fails in its middle, leaves each package that the backup
  -- does not name as it was, and each other in one of three ways: as it was; removed, where its export
  -- failed or was empty, if its file can be removed; or as an import of its own export leaves it.
  pub restore_config-IsRolled :
      (body : Option Text) (before : Packages)
      → (restore_config uci body before).1.status ≢ 200
      → (p : Text)
      → (member p (names_of body) ≡ false
          → lookup p (restore_config uci body before).0 ≡ lookup p before)
        × IsRolled uci p (lookup p before) (lookup p (restore_config uci body before).0)
  unfolding restore_config
  restore_config-IsRolled none before h p = (λ out. refl, inl refl)
  restore_config-IsRolled (some backup) before h p =
      let blocks = blocks_of backup in
      elim (Bool-cases (is_nil blocks || not (all_allowed blocks))) [
        | inl e ↦ rw e (λ out. refl, inl refl)
        | inr e ↦ rw e (
            finished before blocks (import_blocks uci blocks before)
              (import_blocks-AgreesOff blocks before) (rw e at h) p)
      ]

  -- a package whose export can be imported again is as it was
  IsRolled-same :
      (p : Text) (content after : Option Text) (d : ℕ) (t : Text)
      → uci.export p content ≡ some (d ∷ t)
      → ((old : Option Text) → (uci.import p (d ∷ t) old).0 ≡ content)
      → IsRolled uci p content after
      → after ≡ content
  IsRolled-same p content after d t exported back (inl same) = same
  IsRolled-same p content after d t exported back (inr (inl (empty, gone))) =
      cc (exported, empty, ap or_empty exported)
  IsRolled-same p content after d t exported back (inr (inr (e, u, old, again, left))) =
      let same : e ∷ u ≡ d ∷ t = cc (sym again ∙ exported) in
      left ∙ ap (λ s. (uci.import p s old).0) same ∙ back old
